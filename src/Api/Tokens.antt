-- ===== src/Api/Tokens.antt =====
-- Whether the middleware of auth.go accepts the tokens that the server issues.
use Prim.Native.String.{◌++◌}
use text.Mathlib.TextLemmas.{nil-append, cons-append}
use flowgent.Prelude.{
  ℕ, ◌+◌, ◌≤◌, ◌<◌, String, Bool, true, false, none, some, List, ◌==◌, if◌then◌else◌, ◌≡◌, ◌↔◌, inl,
  inr, refl, sym, ◌∙◌, eq_iff, Bool-cases, true-false,
}
use flowgent.Prelude.Text.{eq-false, append-nonempty}
use flowgent.Agent.Services.{bad, good}
use flowgent.Agent.Cases.{Fallible-cases}
use flowgent.Api.Auth.{
  UserInfo, Token, Jwt, Request, Provider, authenticated, unauthorized, is_anonymous, backend_of,
  split_space, signing_method, user_of, TokenService, issue_token, validate_token, authenticate,
  middleware,
}

header-nonempty : (text : String) → (("Bearer " ++ text) == "") ≡ false
header-nonempty text = eq-false ("Bearer " ++ text) "" (append-nonempty "Bearer " text bearer)
  where
    bearer : ◌≡◌ {A = String} "Bearer " "" → ⊥
    bearer e = true-false (sym ((eq_iff "Bearer " "").1 e))

-- What the package documents: a text that was signed reads as its token, and is valid under the public
-- key from its first second on, up to its expiry.
pub record IsSound (jwt : Jwt) (private_key : jwt.PrivateKey) (public_key : jwt.PublicKey)
    : Type 0 where
  pub reads :
      (t : Token) (text : String) → jwt.sign t private_key ≡ good text → jwt.read text ≡ some t
  pub verifies :
      (t : Token) (text : String) (now : ℕ)
      → jwt.sign t private_key ≡ good text
      → t.not_before ≤ now
      → now < t.expires_at
      → jwt.verify text public_key now ≡ true

abbrev pub with_bearer : String → String → Request
with_bearer path text = record { path = path; authorization = "Bearer " ++ text }

split-bearer : (text : String) → split_space ("Bearer " ++ text) ≡ some ("Bearer", text)
unfolding split_space
split-bearer text = rw (cons-append) (
    rw (cons-append) (
      rw (cons-append) (
        rw (cons-append)
          (rw (cons-append) (rw (cons-append) (rw (cons-append) (rw (nil-append text) refl)))))))

module _ (jwt : Jwt) (service : TokenService jwt) (user : UserInfo) (ttl issued : ℕ) where
  -- The token that issueToken signs.
  abbrev token_of : Token
  token_of = record {
    alg = signing_method service.algorithm;
    issuer = "flowgent";
    subject = user.user_id;
    audience = "flowgent";
    expires_at = issued + ttl;
    issued_at = issued;
    not_before = issued;
    uid = some user.user_id;
    uname = some user.username;
    role = some user.role;
  }

  signs :
      (text : String)
      → issue_token jwt service user ttl issued ≡ good text
      → jwt.sign token_of service.private_key ≡ good text
  unfolding issue_token
  signs text h = elim (Fallible-cases (jwt.sign token_of service.private_key)) [
    | inl (e, q) ↦ absurd (bad-good (rw (issue_token, q) at h))
    | inr (t, q) ↦ let r : good t ≡ good text = rw (issue_token, q) at h in q ∙ r
  ]
    where
      bad-good : {e t : String} → bad e ≡ good t → ⊥
      bad-good e = cc

  validates :
      IsSound jwt service.private_key service.public_key
      → (text : String) (now : ℕ) → jwt.sign token_of service.private_key ≡ good text
      → issued ≤ now
      → now < issued + ttl
      → validate_token jwt service text now
        ≡ (if signing_method service.algorithm == service.algorithm then some token_of else none)
  unfolding validate_token
  validates sound text now h from until =
      rw
        (validate_token, sound.reads token_of text h, sound.verifies token_of text now h from until)
        refl

-- A token that the server issued, for access or for renewal, is accepted as its user's at every second
-- from its issue up to its expiry, if the request takes neither a backend nor an anonymous path,
-- exactly if the configured algorithm is one that `signingMethod` knows: under any other name the
-- server signs with ES256 and then refuses its own tokens.
pub middleware-issue_token :
    (jwt : Jwt) (equal_fold : String → String → Bool) (providers : List Provider)
    (paths : List String) (service : TokenService jwt) (user : UserInfo) (ttl issued now : ℕ)
    (path text : String)
    → IsSound jwt service.private_key service.public_key
    → equal_fold "Bearer" "Bearer" ≡ true
    → issue_token jwt service user ttl issued ≡ good text
    → issued ≤ now
    → now < issued + ttl
    → backend_of providers (with_bearer path text) ≡ none
    → is_anonymous paths path ≡ false
    → (middleware jwt equal_fold providers paths service (with_bearer path text) now
        ≡ authenticated user)
      ↔ (signing_method service.algorithm ≡ service.algorithm)
unfolding middleware authenticate user_of
middleware-issue_token jwt equal_fold providers paths service user ttl issued now path text sound
      fold h from until q a =
    let valid =
      validates jwt service user ttl issued sound text now
        (signs jwt service user ttl issued text h) from until in
    elim (Bool-cases (signing_method service.algorithm == service.algorithm)) [
      | inl e ↦ (
        (λ m. (eq_iff (signing_method service.algorithm) service.algorithm).0 e),
        (λ m. rw (middleware, q, a, header-nonempty text, split-bearer text, fold, valid, e) refl),
      )
      | inr e ↦ (
        (λ m. absurd (
            refused _ (
              rw (middleware, q, a, header-nonempty text, split-bearer text, fold, valid, e) at
                m))),
        (λ m. absurd (
            true-false
              (sym ((eq_iff (signing_method service.algorithm) service.algorithm).1 m) ∙ e))),
      )
    ]
  where
    refused : (e : String) {u : UserInfo} → unauthorized e ≡ authenticated u → ⊥
    refused e m = cc
