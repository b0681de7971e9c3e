-- ===== src/Api/Auth.antt =====
-- `AuthService` and `TokenService` of api/pkg/auth/auth.go: the middleware in front of the handlers, and
-- the tokens that it accepts. The parsing and generation of keys, and the backends (OIDC and LDAP) are
-- left out: a backend says which requests it serves.
use Prim.Native.Char.{code}
use Prim.Native.String.{[], ◌∷◌, ◌++◌}
use mathlib.Core.List as L
use flowgent.Prelude.{
  ℕ, ◌+◌, String, Bool, true, false, Option, none, some, List, ◌==◌, ◌&&◌, eqb, if◌then◌else◌,
}
use flowgent.Prelude.Dict.{get_or}
use flowgent.Prelude.Int.{ℤ, pos, is_positive}
use flowgent.Prelude.Text.{cut_prefix}
use flowgent.Agent.Services.{Fallible, bad, good}

-- The fields of UserInfo that the middleware and the tokens use.
pub record UserInfo : Type 0 where
  pub user_id : String
  pub username : String
  pub role : String

-- A token: the algorithm of its header, the claims, and the header's uid, uname and role, which are none
-- where they are missing or no texts. Times are in seconds.
pub record Token : Type 0 where
  pub alg : String
  pub issuer : String
  pub subject : String
  pub audience : String
  pub expires_at : ℕ
  pub issued_at : ℕ
  pub not_before : ℕ
  pub uid : Option String
  pub uname : Option String
  pub role : Option String

-- The package golang-jwt: SignedString, the text of a token as ParseWithClaims reads it before the key
-- is asked for, and its tests of the signature and the times.
pub record Jwt : Type 1 where
  pub PrivateKey : Type 0
  pub PublicKey : Type 0
  pub sign : Token → PrivateKey → Fallible String
  pub read : String → Option Token
  pub verify : String → PublicKey → ℕ → Bool

-- What the middleware reads of a request: the path and the header Authorization.
pub record Request : Type 0 where
  pub path : String
  pub authorization : String

-- AuthProviderService, with ServeHTTP behind a name.
pub record Provider : Type 0 where
  pub name : String
  pub enabled : Bool
  pub can_handle : Request → Bool

-- Who answers: a backend, the next handler without or with a user, or writeAuthError.
pub data Route : Type 0 where
  backend : String → Route
  anonymous : Route
  authenticated : UserInfo → Route
  unauthorized : String → Route

-- The part of a text before a suffix.
unfoldable pub cut_suffix : String → String → Option String
cut_suffix [] suffix = if [] == suffix then some [] else none
cut_suffix (c ∷ s) suffix =
    let rest = cut_suffix s suffix in
    if (c ∷ s) == suffix then some [] else elim rest [ none ↦ none | some t ↦ some (c ∷ t) ]

-- matchGlob
unfoldable pub match_glob : String → String → Bool
unfolding cut_suffix
match_glob pattern path = if pattern == path then true else elim (cut_suffix pattern "/**") [
  | none ↦ false
  | some pfx ↦ elim (cut_prefix path pfx) [ none ↦ false | some rest ↦ true ]
]

-- The loop over the anonymous paths.
unfoldable pub is_anonymous : List String → String → Bool
is_anonymous L.[] path = false
is_anonymous (L.◌∷◌ p ps) path = if match_glob p path then true else is_anonymous ps path

-- The loop over the backends.
unfoldable pub backend_of : List Provider → Request → Option Provider
backend_of L.[] r = none
backend_of (L.◌∷◌ p ps) r =
    let rest = backend_of ps r in if p.enabled && p.can_handle r then some p else rest

-- strings.SplitN(s, " ", 2), where none is a single part.
unfoldable pub split_space : String → Option (String × String)
split_space [] = none
split_space (c ∷ s) = elim (eqb (code c) b' ') [
  | true ↦ some ([], s)
  | false ↦ elim (split_space s) [ none ↦ none | some (a, b) ↦ some (c ∷ a, b) ]
]

-- signingMethod, by the name of the method.
unfoldable pub signing_method : String → String
signing_method algorithm =
    if algorithm == "RS256"
    then "RS256"
    else if algorithm == "RS384"
    then "RS384"
    else if algorithm == "RS512"
    then "RS512"
    else if algorithm == "ES384"
    then "ES384"
    else if algorithm == "ES512"
    then "ES512"
    else if algorithm == "EdDSA"
    then "EdDSA"
    else "ES256"

-- The user of a token that is valid.
unfoldable pub user_of : Token → UserInfo
user_of t = record {
  user_id = get_or t.subject t.uid;
  username = get_or "" t.uname;
  role = get_or "" t.role;
}

module _ (jwt : Jwt) where
  open jwt use {PrivateKey, PublicKey, sign, read, verify}

  -- TokenService; the two validities are in seconds.
  pub record TokenService : Type 0 where
    pub algorithm : String
    pub private_key : PrivateKey
    pub public_key : PublicKey
    pub ak_validity : ℤ
    pub rk_validity : ℤ

  -- NewTokenService, with the keys that loadOrGenerateKeys gives.
  unfoldable pub new_token_service : String → ℤ → ℤ → PrivateKey → PublicKey → TokenService
  new_token_service algorithm ak rk private_key public_key = record {
    algorithm = if algorithm == "" then "ES256" else algorithm;
    private_key = private_key;
    public_key = public_key;
    ak_validity = if is_positive ak then ak else pos 3600;
    rk_validity = if is_positive rk then rk else pos 86400;
  }

  -- issueToken, at a time, for so many seconds.
  unfoldable pub issue_token : TokenService → UserInfo → ℕ → ℕ → Fallible String
  unfolding signing_method
  issue_token service user ttl now =
      elim (sign
        (record {
          alg = signing_method service.algorithm;
          issuer = "flowgent";
          subject = user.user_id;
          audience = "flowgent";
          expires_at = now + ttl;
          issued_at = now;
          not_before = now;
          uid = some user.user_id;
          uname = some user.username;
          role = some user.role;
        })
        service.private_key) [ bad e ↦ bad ("auth: sign token: " ++ e) | good text ↦ good text ]

  -- ParseWithClaims with the middleware's key function.
  unfoldable pub validate_token : TokenService → String → ℕ → Option Token
  validate_token service text now = elim (read text) [
    | none ↦ none
    | some t ↦
        if t.alg == service.algorithm
        then (if verify text service.public_key now then some t else none)
        else none
  ]

  -- The steps behind the anonymous paths; `equal_fold` is strings.EqualFold.
  unfoldable pub authenticate : (String → String → Bool) → TokenService → Request → ℕ → Route
  unfolding split_space validate_token user_of
  authenticate equal_fold service r now =
      if r.authorization == ""
      then unauthorized "Authorization header is required"
      else elim (split_space r.authorization) [
        | none ↦ unauthorized "Invalid Authorization header format"
        | some (scheme, text) ↦
            if equal_fold scheme "Bearer"
            then elim (validate_token service text now) [
              | none ↦ unauthorized "Invalid or expired token"
              | some t ↦ authenticated (user_of t)
            ]
            else unauthorized "Invalid Authorization header format"
      ]

  -- Middleware
  unfoldable pub middleware :
      (String → String → Bool) → List Provider → List String → TokenService → Request → ℕ → Route
  unfolding backend_of is_anonymous match_glob authenticate
  middleware equal_fold providers anonymous_paths service r now = elim (backend_of providers r) [
    | some p ↦ backend p.name
    | none ↦
        if is_anonymous anonymous_paths r.path
        then anonymous
        else authenticate equal_fold service r now
  ]
