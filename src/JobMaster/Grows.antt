-- ===== src/JobMaster/Grows.antt =====
-- How a wave changes the state of a JobMaster: the graph stays, and what is completed, skipped,
-- failed or planned stays so.
use flowgent.Prelude.{String, Bool, true, ◌≡◌, refl, ◌∙◌, ◌||◌, arith, is_some}
use flowgent.Prelude.Dict.{Dict, get, put, flag, flag-put}
use flowgent.JobMaster.Graph.{JobMaster, is_satisfied, is_settled, done, skip, fail}

-- A completed or a failed node was handed to the resource manager.
unfoldable pub has_run : JobMaster → String → Bool
has_run jm n = flag jm.completed n || flag jm.failed n

unfoldable pub has_plan : JobMaster → String → Bool
has_plan jm n = is_some (get jm.plan_map n)

pub record Grows (a b : JobMaster) : Type 0 where
  pub nodes : b.nodes ≡ a.nodes
  pub deps : b.deps ≡ a.deps
  pub edge_conditions : b.edge_conditions ≡ a.edge_conditions
  pub completed : (n : String) → flag a.completed n ≡ true → flag b.completed n ≡ true
  pub skipped : (n : String) → flag a.skipped n ≡ true → flag b.skipped n ≡ true
  pub failed : (n : String) → flag a.failed n ≡ true → flag b.failed n ≡ true
  pub plans : (n : String) → has_plan a n ≡ true → has_plan b n ≡ true

pub Grows-refl : (a : JobMaster) → Grows a a
Grows-refl a = record {
  nodes = refl;
  deps = refl;
  edge_conditions = refl;
  completed = λ n h. h;
  skipped = λ n h. h;
  failed = λ n h. h;
  plans = λ n h. h;
}

pub Grows-trans : {a b c : JobMaster} → Grows a b → Grows b c → Grows a c
Grows-trans g h = record {
  nodes = h.nodes ∙ g.nodes;
  deps = h.deps ∙ g.deps;
  edge_conditions = h.edge_conditions ∙ g.edge_conditions;
  completed = λ n t. h.completed n (g.completed n t);
  skipped = λ n t. h.skipped n (g.skipped n t);
  failed = λ n t. h.failed n (g.failed n t);
  plans = λ n t. h.plans n (g.plans n t);
}

pub is_settled_mono :
    {a b : JobMaster} → Grows a b → (n : String) → is_settled a n ≡ true → is_settled b n ≡ true
unfolding is_settled
is_settled_mono g n h = ground (arith, g.completed n, g.skipped n, g.failed n)

pub is_satisfied_mono :
    {a b : JobMaster} → Grows a b → (n : String) → is_satisfied a n ≡ true → is_satisfied b n ≡ true
unfolding is_satisfied
is_satisfied_mono g n h = ground (arith, g.completed n, g.skipped n)

-- A mark that is set stays set when a mark is put.
flag_kept : (d : Dict Bool) (k n : String) → flag d n ≡ true → flag (put d k true) n ≡ true
flag_kept d k n h = rw flag-put (ground arith)

pub skip-Grows : (jm : JobMaster) (n : String) → Grows jm (skip jm n)
unfolding skip has_plan
skip-Grows jm n = record {
  nodes = refl;
  deps = refl;
  edge_conditions = refl;
  completed = λ m h. h;
  skipped = λ m. flag_kept jm.skipped n m;
  failed = λ m h. h;
  plans = λ m h. h;
}

pub fail-Grows : (jm : JobMaster) (n : String) → Grows jm (fail jm n)
unfolding fail has_plan
fail-Grows jm n = record {
  nodes = refl;
  deps = refl;
  edge_conditions = refl;
  completed = λ m h. h;
  skipped = λ m h. h;
  failed = λ m. flag_kept jm.failed n m;
  plans = λ m h. h;
}

pub done-Grows : (jm : JobMaster) (n : String) → Grows jm (done jm n)
unfolding done has_plan
done-Grows jm n = record {
  nodes = refl;
  deps = refl;
  edge_conditions = refl;
  completed = λ m. flag_kept jm.completed n m;
  skipped = λ m h. h;
  failed = λ m h. h;
  plans = λ m h. h;
}
