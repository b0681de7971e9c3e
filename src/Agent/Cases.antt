-- ===== src/Agent/Cases.antt =====
-- The results that `AgentExecutor.Execute` (agent.go) and what it calls come to, case by case.
use flowgent.Prelude.{String, Option, ◌≡◌, ◌⊎◌, inl, inr, refl}
use flowgent.Value.{Object}
use flowgent.Agent.Services.{Agent, Fetched, fetch_error, not_found, found, Fallible, bad, good}
use flowgent.Agent.{failed, returned, Round, done, again}

pub Fallible-cases :
    {A : Type 0} (r : Fallible A) → ((e : String) × (r ≡ bad e)) ⊎ ((a : A) × (r ≡ good a))
Fallible-cases (bad e) = inl (e, refl)
Fallible-cases (good a) = inr (a, refl)

pub Fetched-cases :
    {T : Type 0} (f : Fetched T)
    → ((e : String) × (f ≡ fetch_error e)) ⊎ ((f ≡ not_found) ⊎ ((a : Agent T) × (f ≡ found a)))
Fetched-cases (fetch_error e) = inl (e, refl)
Fetched-cases not_found = inr (inl refl)
Fetched-cases (found a) = inr (inr (a, refl))

pub Round-cases :
    (r : Round)
    → ((out : Option Object) × (r ≡ done out)) ⊎ ((e : String) × (p : String) × (r ≡ again e p))
Round-cases (done out) = inl (out, refl)
Round-cases (again e p) = inr (e, p, refl)

pub again_done : (e p : String) (out : Option Object) → again e p ≡ done out → ⊥
again_done e p out h = cc

pub done_inj : (a b : Option Object) → done a ≡ done b → a ≡ b
done_inj a b h = cc

pub returned_inj : (a b : Option Object) → returned a ≡ returned b → a ≡ b
returned_inj a b h = cc

pub failed_inj : (a b : Option String) → failed a ≡ failed b → a ≡ b
failed_inj a b h = cc

pub failed_returned : (e : Option String) (out : Option Object) → failed e ≡ returned out → ⊥
failed_returned e out h = cc
