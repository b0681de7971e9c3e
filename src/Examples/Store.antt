-- ===== src/Examples/Store.antt =====
-- A `MemoryCache` of two entries (cache/pkg/memory.go).
use flowgent.Prelude.{◌≤◌, none, some, List, [], ◌∷◌, ◌≡◌, refl, length}
use flowgent.Prelude.Int.{pos}
use flowgent.Prelude.Dict.{get as lookup, put}
use flowgent.Cache.{Entry, new_cache, get, set}
use flowgent.Cache.Laws.{Call, reads, writes, evicts, calls, length-calls}
use flowgent.Cache.Answers.{last_writes, get-last_writes}

-- The third entry evicts one, and the fourth call expires one.
abbrev history : List Call
history =
    writes 0 "a" "1" 10 0
    ∷ writes 0 "b" "2" 10 1
    ∷ writes 1 "c" "3" 5 2
    ∷ evicts 8
    ∷ reads "a" 9
    ∷ []

length-calls_example :
    length (calls (new_cache (pos 2)) history).store ≤ (new_cache (pos 2)).max_cap
length-calls_example = length-calls (pos 2) history

a-stays : (get (calls (new_cache (pos 2)) history) "a" 9).1 ≡ some "1"
unfolding calls get set new_cache lookup put
a-stays = refl

get-last_writes_example :
    (x : Entry) × (last_writes "a" history none ≡ some x) × (x.value ≡ "1") × (9 ≤ x.expires)
get-last_writes_example = get-last_writes (pos 2) history "a" 9 "1" a-stays
