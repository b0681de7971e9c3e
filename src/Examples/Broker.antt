-- ===== src/Examples/Broker.antt =====
-- A shared and a plain subscription of the `LocalMessager` (messager/pkg/standalone.go).
use flowgent.Prelude.{ℕ, ◌+◌, ◌%◌, String, true, false, some, List, [], ◌∷◌, ◌≡◌, refl, Memᴰ}
use flowgent.Prelude.Dict.{get, get_or}
use flowgent.Prelude.Text.{cut_prefix}
use flowgent.Messager.Topic.{is_shared_topic}
use flowgent.Messager.{LocalMessager, handler_at, deliver, publish}
use flowgent.Messager.Laws.{after, deliver-turn}
use flowgent.Messager.Delivery.{Reaches, publish-Reaches}

abbrev plans : String
plans = "$share/tm/plans/+"

plans-shared : is_shared_topic plans ≡ true
unfolding is_shared_topic cut_prefix
plans-shared = refl

deliver-turn_example :
    let called = (deliver (after plans 7 (8 ∷ []) plans-shared [] 3) plans (7 ∷ 8 ∷ [])).1 in
    (called ≡ handler_at (7 ∷ 8 ∷ []) ((get_or 0 (get [] plans) + 3) % 2))
    × ((x : ℕ) × (called ≡ x ∷ []) × Memᴰ x (7 ∷ 8 ∷ []))
deliver-turn_example = deliver-turn plans 7 (8 ∷ []) plans-shared [] 3

abbrev broker : LocalMessager
broker = record {
  subs = some ((plans, 7 ∷ 8 ∷ []) ∷ ("plans/urgent", 9 ∷ []) ∷ ("beats/+", 10 ∷ []) ∷ []);
  next = [];
}

publish-Reaches_example :
    (Memᴰ 9 (publish broker "plans/urgent").1
      → (sub : String) × (hs : List ℕ) × Memᴰ (sub, hs) (get_or [] broker.subs)
        × Reaches sub "plans/urgent"
        × Memᴰ 9 hs)
    × ((sub : String) (hs : List ℕ)
        → Memᴰ (sub, hs) (get_or [] broker.subs)
        → Reaches sub "plans/urgent"
        → is_shared_topic sub ≡ false
        → Memᴰ 9 hs
        → Memᴰ 9 (publish broker "plans/urgent").1)
publish-Reaches_example = publish-Reaches broker "plans/urgent" 9
