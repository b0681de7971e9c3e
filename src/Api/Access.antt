-- ===== src/Api/Access.antt =====
-- Which requests the middleware of auth.go lets through to the handlers.
use Prim.Native.String.{[], ◌∷◌, ◌++◌}
use text.Mathlib.TextLemmas.{nil-append, cons-append}
use mathlib.Core.List.Memᴰ
use mathlib.Core.List as L
use flowgent.Prelude.{
  ℕ, String, Bool, true, some, List, ◌==◌, ◌&&◌, ◌≡◌, ◌⊎◌, inl, inr, refl, sym, ap, ◌∙◌, subst,
  Memᴰ, arith, eq_iff, Bool-cases, Option-cases, true-false, none-some, some_inj,
}
use flowgent.Prelude.Text.{cut_prefix, cut_prefix-append}
use flowgent.Api.Auth.{
  UserInfo, Token, Jwt, Request, Provider, Route, backend, anonymous, authenticated, unauthorized,
  cut_suffix, match_glob, is_anonymous, backend_of, split_space, user_of, TokenService,
  validate_token, authenticate, middleware,
}

cut_suffix-append : (s suffix p : String) → cut_suffix s suffix ≡ some p → s ≡ p ++ suffix
unfolding cut_suffix
cut_suffix-append [] suffix p h = elim (Bool-cases ([] == suffix)) [
  | inl e ↦
      let r : [] ≡ p = some_inj (rw (cut_suffix, e) at h) in
      subst (λ z. [] ≡ z ++ suffix) r ((eq_iff [] suffix).0 e ∙ sym (nil-append suffix))
  | inr e ↦ absurd (none-some (rw (cut_suffix, e) at h))
]
cut_suffix-append (c ∷ s) suffix p h = elim (Bool-cases ((c ∷ s) == suffix)) [
  | inl e ↦
      let r : [] ≡ p = some_inj (rw (cut_suffix, e) at h) in
      subst (λ z. (c ∷ s) ≡ z ++ suffix) r ((eq_iff (c ∷ s) suffix).0 e ∙ sym (nil-append suffix))
  | inr e ↦ elim (Option-cases (cut_suffix s suffix)) [
    | inl q ↦ absurd (none-some (rw (cut_suffix, e, q) at h))
    | inr (t, q) ↦
        let rest : s ≡ t ++ suffix = cut_suffix-append s suffix t q in
        let r : (c ∷ t) ≡ p = some_inj (rw (cut_suffix, e, q) at h) in
        ap (λ z. c ∷ z) rest ∙ sym (cons-append c t suffix) ∙ ap (λ z. z ++ suffix) r
  ]
]

-- The pattern is the path, or a prefix of the path and then "/**".
abbrev pub Covers : String → String → Type 0
Covers pattern path =
    (pattern ≡ path)
    ⊎ ((pfx : String) × (rest : String) × (pattern ≡ pfx ++ "/**") × (path ≡ pfx ++ rest))

match_glob-Covers : (pattern path : String) → match_glob pattern path ≡ true → Covers pattern path
unfolding match_glob
match_glob-Covers pattern path h = elim (Bool-cases (pattern == path)) [
  | inl e ↦ inl ((eq_iff pattern path).0 e)
  | inr e ↦ elim (Option-cases (cut_suffix pattern "/**")) [
    | inl q ↦ absurd (true-false (sym (rw (match_glob, e, q) at h)))
    | inr (pfx, q) ↦ elim (Option-cases (cut_prefix path pfx)) [
      | inl r ↦ absurd (true-false (sym (rw (match_glob, e, q, r) at h)))
      | inr (rest, r) ↦
          inr (pfx, rest, cut_suffix-append pattern "/**" pfx q, cut_prefix-append path pfx rest r)
    ]
  ]
]

is_anonymous-Covers :
    (paths : List String) (path : String)
    → is_anonymous paths path ≡ true
    → (p : String) × Memᴰ p paths × Covers p path
unfolding is_anonymous
is_anonymous-Covers L.[] path h = cc
is_anonymous-Covers (L.◌∷◌ p ps) path h = elim (Bool-cases (match_glob p path)) [
  | inl e ↦ (p, Memᴰ.head refl, match_glob-Covers p path e)
  | inr e ↦
      let (x, m, c) = is_anonymous-Covers ps path (rw (is_anonymous, e) at h) in (x, Memᴰ.tail m, c)
]

backend_of-mem :
    (ps : List Provider) (r : Request) (p : Provider)
    → backend_of ps r ≡ some p
    → Memᴰ p ps × ((p.enabled ≡ true) × (p.can_handle r ≡ true))
unfolding backend_of
backend_of-mem L.[] r p h = cc
backend_of-mem (L.◌∷◌ x ps) r p h = elim (Bool-cases (x.enabled && x.can_handle r)) [
  | inl e ↦
      let q : x ≡ p = some_inj (rw (backend_of, e) at h) in
      let both : (x.enabled ≡ true) × (x.can_handle r ≡ true) = (ground arith, ground arith) in
      (
        Memᴰ.head (sym q),
        subst (λ (z : Provider). (z.enabled ≡ true) × (z.can_handle r ≡ true)) q both,
      )
  | inr e ↦ let (m, y) = backend_of-mem ps r p (rw (backend_of, e) at h) in (Memᴰ.tail m, y)
]

module _ (jwt : Jwt) (equal_fold : String → String → Bool) (providers : List Provider)
    (paths : List String) (service : TokenService jwt) (r : Request) (now : ℕ) where
  -- The request carries a bearer token of the configured algorithm that is valid now, and it is the
  -- user's.
  pub record IsVouched (u : UserInfo) : Type 0 where
    pub scheme : String
    pub text : String
    pub token : Token
    pub presented : split_space r.authorization ≡ some (scheme, text)
    pub bearer : equal_fold scheme "Bearer" ≡ true
    pub claims : jwt.read text ≡ some token
    pub algorithm : token.alg ≡ service.algorithm
    pub verified : jwt.verify text service.public_key now ≡ true
    pub user : user_of token ≡ u

  -- Why a request may take a route.
  abbrev pub IsEntitled : Route → Type 0
  IsEntitled (backend name) =
      (p : Provider) × Memᴰ p providers
      × ((p.enabled ≡ true) × (p.can_handle r ≡ true))
      × (p.name ≡ name)
  IsEntitled anonymous = (p : String) × Memᴰ p paths × Covers p r.path
  IsEntitled (authenticated u) = IsVouched u
  IsEntitled (unauthorized e) = Unit

  authenticate-IsEntitled : IsEntitled (authenticate jwt equal_fold service r now)
  unfolding authenticate validate_token
  authenticate-IsEntitled = elim (Bool-cases (r.authorization == "")) [
    | inl e ↦ rw (authenticate, e) tt
    | inr e ↦ elim (Option-cases (split_space r.authorization)) [
      | inl q ↦ rw (authenticate, e, q) tt
      | inr ((scheme, text), q) ↦ elim (Bool-cases (equal_fold scheme "Bearer")) [
        | inr b ↦ rw (authenticate, e, q, b) tt
        | inl b ↦ elim (Option-cases (jwt.read text)) [
          | inl c ↦ rw (authenticate, e, q, b, c) tt
          | inr (t, c) ↦ elim (Bool-cases (t.alg == service.algorithm)) [
            | inr a ↦ rw (authenticate, e, q, b, c, a) tt
            | inl a ↦ elim (Bool-cases (jwt.verify text service.public_key now)) [
              | inr v ↦ rw (authenticate, e, q, b, c, a, v) tt
              | inl v ↦
                  rw (authenticate, e, q, b, c, a, v)
                    (record {
                      scheme = scheme;
                      text = text;
                      token = t;
                      presented = q;
                      bearer = b;
                      claims = c;
                      algorithm = (eq_iff t.alg service.algorithm).0 a;
                      verified = v;
                      user = refl;
                    })
            ]
          ]
        ]
      ]
    ]
  ]

-- The middleware hands a request to a backend only if that is registered, enabled and takes it; to the
-- handlers without a user only if an anonymous path covers the request's, which is the path itself, or
-- any text and "/**" where that text begins the path; and to the handlers as a user only if the header
-- Authorization has a bearer token of the configured algorithm whose signature and times are valid,
-- and which names the user. All else is refused.
pub middleware-IsEntitled :
    (jwt : Jwt) (equal_fold : String → String → Bool) (providers : List Provider)
    (paths : List String) (service : TokenService jwt) (r : Request) (now : ℕ)
    → IsEntitled jwt equal_fold providers paths service r now
        (middleware jwt equal_fold providers paths service r now)
unfolding middleware
middleware-IsEntitled jwt equal_fold providers paths service r now =
    elim (Option-cases (backend_of providers r)) [
      | inr (p, q) ↦
          let (m, y) = backend_of-mem providers r p q in rw (middleware, q) (p, m, y, refl)
      | inl q ↦ elim (Bool-cases (is_anonymous paths r.path)) [
        | inl a ↦ rw (middleware, q, a) (is_anonymous-Covers paths r.path a)
        | inr a ↦
            rw (middleware, q, a)
              (authenticate-IsEntitled jwt equal_fold providers paths service r now)
      ]
    ]
