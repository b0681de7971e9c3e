-- ===== src/Examples/Server.antt =====
-- Requests to the API server (api/pkg): a trigger, a webhook, and tokens.
use native.Mathlib.Decide.{ℕ_discrete}
use flowgent.Prelude.{
  ℕ, String, Bool, true, none, some, [], ◌∷◌, ◌==◌, ◌≡◌, ◌↔◌, inl, inr, refl, sym, ◌∙◌, eq_iff,
  Bool-cases, true-false, leb, ltb, ◌&&◌, if◌then◌else◌, ◌≤◌, ◌<◌, arith,
}
use flowgent.Prelude.Int.{pos}
use flowgent.Prelude.Text.{cut_prefix}
use flowgent.Agent.Services.{Fallible, bad, good}
use flowgent.Api.Auth.{
  UserInfo, Token, Jwt, authenticated, match_glob, cut_suffix, is_anonymous, backend_of,
  signing_method, TokenService, issue_token, middleware,
}
use flowgent.Api.Access.{IsEntitled, middleware-IsEntitled}
use flowgent.Api.Tokens.{IsSound, with_bearer, middleware-issue_token}

String-discrete : Discrete String
String-discrete s t = elim (Bool-cases (s == t)) [
  | inl e ↦ yes ((eq_iff s t).0 e)
  | inr e ↦ no (λ q. true-false (sym ((eq_iff s t).1 q) ∙ e))
]

Token-discrete : Discrete Token
Token-discrete = hlevel (ℕ_discrete, String-discrete)

abbrev ada : UserInfo
ada = record { user_id = "7"; username = "ada"; role = "admin" }

-- The token of ada that is issued at second 100 for an hour.
abbrev ada_token : Token
ada_token = record {
  alg = "ES256";
  issuer = "flowgent";
  subject = "7";
  audience = "flowgent";
  expires_at = 3700;
  issued_at = 100;
  not_before = 100;
  uid = some "7";
  uname = some "ada";
  role = some "admin";
}

unfoldable sign_one : {A : Type 0} → Dec A → Fallible String
sign_one (yes e) = good "x.y.z"
sign_one (no e) = bad "not signed"

-- A package that signs one token only, with any key.
abbrev one_token : Jwt
one_token = record {
  PrivateKey = ℕ;
  PublicKey = ℕ;
  sign = λ t k. sign_one (Token-discrete t ada_token);
  read = λ text. if text == "x.y.z" then some ada_token else none;
  verify = λ text k now. leb 100 now && ltb now 3700;
}

sign_one_lem : {A : Type 0} (d : Dec A) → A → sign_one d ≡ good "x.y.z"
unfolding sign_one
sign_one_lem (yes e) a = refl
sign_one_lem (no n) a = absurd (n a)

sign_one-good :
    {A : Type 0} (d : Dec A) (text : String) → sign_one d ≡ good text → A × (text ≡ "x.y.z")
unfolding sign_one
sign_one-good (yes e) text h = (e, cc)
sign_one-good (no n) text h = cc

abbrev tokens : TokenService one_token
tokens = record {
  algorithm = "ES256";
  private_key = 1;
  public_key = 2;
  ak_validity = pos 3600;
  rk_validity = pos 86400;
}

one_token-IsSound : IsSound one_token 1 2
one_token-IsSound = record {
  reads = λ t text h.
      let (e, q) = sign_one-good (Token-discrete t ada_token) text h in
      let r : (text == "x.y.z") ≡ true = (eq_iff text "x.y.z").1 q in rw (r) (rw (sym e) refl);
  verifies = λ t text now h from until.
      let (e, q) = sign_one-good (Token-discrete t ada_token) text h in
      let from' : 100 ≤ now = rw (e) at from in
      let until' : now < 3700 = rw (e) at until in ground (arith, from', until');
}

issued : issue_token one_token tokens ada 3600 100 ≡ good "x.y.z"
unfolding issue_token signing_method
issued = rw (issue_token, sign_one_lem (Token-discrete ada_token ada_token) refl) refl

-- The comparison of texts stands for strings.EqualFold.
abbrev same_text : String → String → Bool
same_text s t = s == t

middleware-issue_token_example :
    (middleware one_token same_text []
        ("/webhooks/**" ∷ [])
        tokens
        (with_bearer "/api/v1/flows" "x.y.z")
        200
      ≡ authenticated ada)
    ↔ (signing_method "ES256" ≡ "ES256")
unfolding is_anonymous match_glob cut_suffix backend_of cut_prefix
middleware-issue_token_example =
    middleware-issue_token one_token same_text [] ("/webhooks/**" ∷ []) tokens ada 3600 100 200
      "/api/v1/flows" "x.y.z" one_token-IsSound refl issued (omega arith) (omega arith) refl refl

middleware-IsEntitled_example :
    IsEntitled one_token same_text []
      ("/api/**" ∷ [])
      tokens
      (record { path = "/apix"; authorization = "" })
      200
      (middleware one_token same_text []
        ("/api/**" ∷ [])
        tokens
        (record { path = "/apix"; authorization = "" })
        200)
middleware-IsEntitled_example =
    middleware-IsEntitled one_token same_text [] ("/api/**" ∷ []) tokens
      (record { path = "/apix"; authorization = "" }) 200

-- A pattern for what is under a path is for every text that it begins.
no_boundary : match_glob "/api/**" "/apix" ≡ true
unfolding match_glob cut_suffix cut_prefix
no_boundary = refl
