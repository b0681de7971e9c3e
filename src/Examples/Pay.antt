-- ===== src/Examples/Pay.antt =====
-- A client with limits pays for a resource behind a 402 response (x402_httpclient.go, policy.go).
use Prim.Native.String as S
use Prim.Native.Char.{code}
use text.Mathlib.TextLemmas.{nil-append, cons-append}
use flowgent.Prelude.{
  ℕ, suc, ◌+◌, String, true, Option, none, some, [], ◌∷◌, ◌≡◌, ◌⊎◌, ◌↔◌, ◌==◌, eqb, ltb, leb,
  if◌then◌else◌, ap, ◌∙◌, arith, Bool-cases, inl, inr, eq_iff,
}
use flowgent.Payment.Policy.{Money, Policies, Intent, ledger_key, allow}
use flowgent.Payment.Policy.Laws.{Permitted, allow_iff}
use flowgent.Payment.Client.{
  Requirements, Request, Response, Header, Wire, Client, make_intent, do_request,
}
use flowgent.Payment.Client.Guard.{Charge, do_request-guarded}
use flowgent.Payment.Client.Budget.{do_all, KeysApart, allow-do_all}

-- Whole amounts, and limits as whole numbers. Every amount but "5" is malformed.
abbrev whole : Money
whole = record {
  D = ℕ;
  F = ℕ;
  zero_amount = 0;
  add = ◌+◌;
  greater_than = λ a b. ltb b a;
  greater_or_equal = λ a b. leb b a;
  new_from_string = λ s. if s == "5" then some 5 else none;
  new_from_float = λ f. f;
  above_zero = λ f. ltb 0 f;
  equal_fold = λ s t. s == t;
  trim_space = λ s. s;
}

abbrev limits : Policies whole
limits = record {
  allowed_assets = "USDC" ∷ [];
  allowed_chains = [];
  allowed_domains = "*.shop.com" ∷ [];
  blocked_domains = [];
  max_single_payment = 10;
  max_daily_budget = 7;
  require_human_approval_above = 0;
}

abbrev price : Requirements
price = record {
  scheme = "exact";
  network = "base";
  asset = "usdc";
  amount = "5";
  pay_to = "0xshop";
}

-- A server that asks for the price until a request has a token.
abbrev answer : Option String → Response
answer none = record {
  status = 402;
  body = some (record { version = 2; accepts = price ∷ [] });
  header = Header.missing;
}
answer (some token) = record { status = 200; body = none; header = Header.missing }

abbrev shop : Wire whole
shop = record {
  S = ℕ;
  today = λ s. "2025-01-01";
  new_id = λ s. "intent";
  send = λ req s. (suc s, some (answer req.token));
  approver = none;
  sign = λ wallet intent accept s. (suc s, some "signature");
  authorize = λ intent accept signature s. (suc s, some "token");
}

-- `NewHttpClient` sets no default wallet.
abbrev customer : Client whole shop
customer = record { cfg = limits; ledger = []; default_addr = "" }

abbrev buy : Request
buy = record { url = "https://api.shop.com/item"; host = "api.shop.com"; token = none }

abbrev payment : Intent whole
payment = make_intent whole shop buy price 1

do_request-guarded_example :
    ((do_request whole shop customer buy 0).0 ≡ customer)
    ⊎ ((resp : Response) × ((shop.send buy 0).1 ≡ some resp)
        × (eqb resp.status 402 ≡ true)
        × Charge whole shop customer buy resp
            (shop.send buy 0).0
            (do_request whole shop customer buy 0).0)
do_request-guarded_example = do_request-guarded whole shop customer buy 0

allow_iff_example :
    (allow whole limits [] "2025-01-01" payment ≡ none)
    ↔ Permitted whole limits [] "2025-01-01" payment
allow_iff_example = allow_iff whole limits [] "2025-01-01" payment

-- The code point of the first character.
abbrev head_code : String → ℕ
head_code S.[] = 0
head_code (S.◌∷◌ c s) = code c

key_head : (d : String) → head_code (ledger_key "" d) ≡ b':'
key_head d = ap head_code (nil-append (S.◌++◌ ":" d) ∙ cons-append ":" "" d)

customer-KeysApart : KeysApart whole shop customer "0xshop" "2025-01-01"
customer-KeysApart d = elim (Bool-cases (ledger_key "" d == "0xshop:2025-01-01")) [
  | inl e ↦
      absurd (
        omega
          (arith, key_head d, ap head_code ((eq_iff (ledger_key "" d) "0xshop:2025-01-01").0 e)))
  | inr e ↦ e
]

-- Two purchases go over the daily budget of 7, and a third is allowed.
allow-do_all_example :
    allow whole
      (do_all whole shop (buy ∷ buy ∷ []) customer 0).cfg
      (do_all whole shop (buy ∷ buy ∷ []) customer 0).ledger
      "2025-01-01"
      payment
    ≡ allow whole limits [] "2025-01-01" payment
unfolding make_intent
allow-do_all_example =
    allow-do_all whole shop (buy ∷ buy ∷ []) customer 0 "2025-01-01" payment customer-KeysApart
