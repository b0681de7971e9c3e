-- ===== src/Payment/Policy/Laws.antt =====
-- What `Allow` of policy.go lets through.
use Prim.Native.String.{◌++◌}
use mathlib.Core.List as L
use mathlib.Core.List.Memᴰ
use flowgent.Prelude.{
  String, Bool, true, false, not, none, List, ◌≡◌, ◌↔◌, ◌⊎◌, ◌==◌, ◌&&◌, inl, inr, refl, arith,
  is_empty, Memᴰ, eq_iff, sym, ◌∙◌, subst, Bool-cases, true-false,
}
use flowgent.Prelude.Dict.{get, get_or}
use flowgent.Payment.Domain.{extract_domain, match_any, contains_fold}
use flowgent.Payment.Policy.Hosts.{SomeCovers, matched_iff}
use flowgent.Payment.Policy.{
  Money, Policies, Intent, Ledger, get_daily_spent, check_domain, check_url, allow,
}

module _ (money : Money) where
  open money use {D, zero_amount, add, greater_than, new_from_float, above_zero, equal_fold}

  -- The list has the name, up to case.
  abbrev pub Lists : List String → String → Type 0
  Lists items name = (item : String) × Memᴰ item items × (equal_fold item name ≡ true)

  -- The conditions of a policy on a payment, each by itself.
  pub record Permitted (cfg : Policies money) (ledger : Ledger money) (today : String)
      (intent : Intent money) : Type 0 where
    pub asset : (cfg.allowed_assets ≡ L.[]) ⊎ Lists cfg.allowed_assets intent.asset
    pub chain : (cfg.allowed_chains ≡ L.[]) ⊎ Lists cfg.allowed_chains intent.chain
    pub single :
        above_zero cfg.max_single_payment ≡ true
        → greater_than intent.amount (new_from_float cfg.max_single_payment) ≡ false
    pub unblocked : (intent.url ≡ "") ⊎ (SomeCovers cfg.blocked_domains intent.url → ⊥)
    pub domain :
        (intent.url ≡ "")
        ⊎ ((cfg.allowed_domains ≡ L.[]) ⊎ SomeCovers cfg.allowed_domains intent.url)
    pub budget :
        above_zero cfg.max_daily_budget ≡ true
        → greater_than
            (add
              (get_or zero_amount (get ledger (intent.recipient ++ (":" ++ today))))
              intent.amount)
            (new_from_float cfg.max_daily_budget)
          ≡ false

  contains_fold_iff :
      (items : List String) (name : String)
      → (contains_fold equal_fold items name ≡ true) ↔ Lists items name
  unfolding contains_fold
  contains_fold_iff L.[] name =
      ((λ h. absurd (true-false (sym h))), (λ (i, m, e). absurd (Memᴰ.not-nil m)))
  contains_fold_iff (L.◌∷◌ x items) name =
      let (to, from) = contains_fold_iff items name in
      (
        (λ h. elim (Bool-cases (equal_fold x name)) [
          | inl e ↦ (x, Memᴰ.head refl, e)
          | inr e ↦ let (i, m, f) = to (rw (contains_fold, e) at h) in (i, Memᴰ.tail m, f)
        ]),
        (λ (i, m, f). elim (Memᴰ.cases_cons m) [
          | inl e ↦ rw (contains_fold, subst (λ z. equal_fold z name ≡ true) e f) refl
          | inr k ↦ ground (arith, from (i, k, f))
        ]),
      )

  -- A list without entries, or one that passes a test.
  empty_or :
      (l : List String) (b : Bool) → (not (is_empty l) && not b ≡ false) ↔ ((l ≡ L.[]) ⊎ (b ≡ true))
  empty_or L.[] b = ((λ h. inl refl), (λ h. refl))
  empty_or (L.◌∷◌ x l) true = ((λ h. inr refl), (λ h. refl))
  empty_or (L.◌∷◌ x l) false =
      ((λ h. absurd (true-false h)), (λ h. elim h [ inl e ↦ cc | inr e ↦ cc ]))

  listed_iff :
      (l : List String) (name : String)
      → (not (is_empty l) && not (contains_fold equal_fold l name) ≡ false)
        ↔ ((l ≡ L.[]) ⊎ Lists l name)
  listed_iff l name =
      let (to, from) = empty_or l (contains_fold equal_fold l name) in
      let (there, back) = contains_fold_iff l name in
      (
        (λ h. elim (to h) [ inl e ↦ inl e | inr e ↦ inr (there e) ]),
        (λ h. from (elim h [ inl e ↦ inl e | inr e ↦ inr (back e) ])),
      )

  -- The tests of `Allow`, each in the code's form.
  record Passes (cfg : Policies money) (ledger : Ledger money) (today : String)
      (intent : Intent money) : Type 0 where
    asset :
        not (is_empty cfg.allowed_assets)
          && not (contains_fold equal_fold cfg.allowed_assets intent.asset)
        ≡ false
    chain :
        not (is_empty cfg.allowed_chains)
          && not (contains_fold equal_fold cfg.allowed_chains intent.chain)
        ≡ false
    single :
        above_zero cfg.max_single_payment ≡ true
        → greater_than intent.amount (new_from_float cfg.max_single_payment) ≡ false
    unblocked :
        (intent.url == "") ≡ false
        → match_any cfg.blocked_domains (extract_domain intent.url) ≡ false
    domain :
        (intent.url == "") ≡ false
        → not (is_empty cfg.allowed_domains)
            && not (match_any cfg.allowed_domains (extract_domain intent.url))
          ≡ false
    budget :
        above_zero cfg.max_daily_budget ≡ true
        → greater_than
            (add (get_daily_spent money ledger intent.recipient today) intent.amount)
            (new_from_float cfg.max_daily_budget)
          ≡ false

  allow-Passes :
      (cfg : Policies money) (ledger : Ledger money) (today : String) (intent : Intent money)
      → allow money cfg ledger today intent ≡ none
      → Passes cfg ledger today intent
  unfolding allow check_url check_domain
  allow-Passes cfg ledger today intent h = ground arith

  allow_of_Passes :
      (cfg : Policies money) (ledger : Ledger money) (today : String) (intent : Intent money)
      → Passes cfg ledger today intent
      → allow money cfg ledger today intent ≡ none
  unfolding allow check_url check_domain
  allow_of_Passes cfg ledger today intent h =
      ground (arith, h.asset, h.chain, h.single, h.unblocked, h.domain, h.budget)

  -- `Allow` passes a payment exactly when each condition of the policy holds of it: asset and chain
  -- are, up to case, on their lists if these have entries, the amount is within the single limit if
  -- that is positive, the host of a URL that is not empty is covered by no blocked pattern, and by an
  -- allowed one if that list has entries, and the recipient's spending of the day with this amount is
  -- within the daily budget if that is positive. The host follows the scheme, if there is one, up to a
  -- slash or a colon; a pattern covers itself and, after "*.", a domain and what is below it.
  pub allow_iff :
      (cfg : Policies money) (ledger : Ledger money) (today : String) (intent : Intent money)
      → (allow money cfg ledger today intent ≡ none) ↔ Permitted cfg ledger today intent
  unfolding get_daily_spent
  allow_iff cfg ledger today intent =
      let url = intent.url in
      let assets = listed_iff cfg.allowed_assets intent.asset in
      let chains = listed_iff cfg.allowed_chains intent.chain in
      let blocked = matched_iff cfg.blocked_domains url in
      let allowed = matched_iff cfg.allowed_domains url in
      let test =
        empty_or cfg.allowed_domains (match_any cfg.allowed_domains (extract_domain url)) in
      (
        (λ h.
            let p = allow-Passes cfg ledger today intent h in
            record {
              asset = assets.0 p.asset;
              chain = chains.0 p.chain;
              single = p.single;
              unblocked = elim (Bool-cases (url == "")) [
                | inl e ↦ inl ((eq_iff url "").0 e)
                | inr e ↦ inr (λ c. true-false (sym (blocked.1 c) ∙ p.unblocked e))
              ];
              domain = elim (Bool-cases (url == "")) [
                | inl e ↦ inl ((eq_iff url "").0 e)
                | inr e ↦
                    inr (elim (test.0 (p.domain e)) [ inl q ↦ inl q | inr q ↦ inr (allowed.0 q) ])
              ];
              budget = p.budget;
            }),
        (λ p. allow_of_Passes cfg ledger today intent (record {
          asset = assets.1 p.asset;
          chain = chains.1 p.chain;
          single = p.single;
          unblocked = λ e. elim p.unblocked [
            | inl q ↦ absurd (true-false (sym ((eq_iff url "").1 q) ∙ e))
            | inr k ↦ elim (Bool-cases (match_any cfg.blocked_domains (extract_domain url))) [
              | inl m ↦ absurd (k (blocked.0 m))
              | inr m ↦ m
            ]
          ];
          domain = λ e. elim p.domain [
            | inl q ↦ absurd (true-false (sym ((eq_iff url "").1 q) ∙ e))
            | inr k ↦ test.1 (elim k [ inl q ↦ inl q | inr c ↦ inr (allowed.1 c) ])
          ];
          budget = p.budget;
        })),
      )
