-- ===== src/Payment/Client/Budget.antt =====
-- The daily budget of policy.go under `Do` of x402_httpclient.go: the check reads the spending of the
-- recipient, and `Do` records it for the default wallet.
use flowgent.Prelude.{String, false, List, [], ◌∷◌, ◌≡◌, refl, ◌∙◌, inl, inr, ◌==◌, arith}
use flowgent.Prelude.Dict.{get-put}
use flowgent.Payment.Policy.{
  Money, Policies, Intent, ledger_key, get_daily_spent, record_spend, allow,
}
use flowgent.Payment.Client.{Wire, Client, Request, make_intent, do_request}
use flowgent.Payment.Client.Guard.{do_request-guarded}

module _ (money : Money) where
  spent-record :
      (ledger : List (String × money.D)) (wallet date w day : String) (amount : money.D)
      → (ledger_key wallet date == ledger_key w day) ≡ false
      → get_daily_spent money (record_spend money ledger wallet date amount) w day
        ≡ get_daily_spent money ledger w day
  unfolding get_daily_spent record_spend
  spent-record ledger wallet date w day amount h = rw (get-put, h)

  -- `Allow` reads of the ledger only the spending of the recipient on the day.
  allow_ledger :
      (cfg : Policies money) (l l' : List (String × money.D)) (day : String) (intent : Intent money)
      → get_daily_spent money l' intent.recipient day ≡ get_daily_spent money l intent.recipient day
      → allow money cfg l' day intent ≡ allow money cfg l day intent
  unfolding allow
  allow_ledger cfg l l' day intent e = ground arith

  module _ (wire : Wire money) where
    -- One `Do` after the other with the same client.
    unfoldable pub do_all : List Request → Client money wire → wire.S → Client money wire
    do_all [] c s = c
    do_all (req ∷ reqs) c s =
        let (c', s', reply) = do_request money wire c req s in do_all reqs c' s'

    -- The days on which the default wallet's key would be the key of `w` on `day`.
    abbrev pub KeysApart : Client money wire → String → String → Type 0
    KeysApart c w day = (d : String) → (ledger_key c.default_addr d == ledger_key w day) ≡ false

    -- The client keeps its wallet, and the spending of `w` is what it was.
    record SameSpending (w day : String) (c c' : Client money wire) : Type 0 where
      wallet : c'.default_addr ≡ c.default_addr
      cfg : c'.cfg ≡ c.cfg
      spent : get_daily_spent money c'.ledger w day ≡ get_daily_spent money c.ledger w day

    spending_of_do :
        (c : Client money wire) (req : Request) (s : wire.S) (w day : String)
        → KeysApart c w day
        → SameSpending w day c (do_request money wire c req s).0
    spending_of_do c req s w day apart = elim (do_request-guarded money wire c req s) [
      | inl e ↦ rw e (record { wallet = refl; cfg = refl; spent = refl })
      | inr (resp, sent, status, h) ↦ rw h.recorded (record {
        wallet = refl;
        cfg = refl;
        spent =
            spent-record c.ledger c.default_addr h.date w day
              (make_intent money wire req h.accept (wire.send req s).0).amount (apart h.date);
      })
    ]

    spending_of_all :
        (reqs : List Request) (c : Client money wire) (s : wire.S) (w day : String)
        → KeysApart c w day
        → SameSpending w day c (do_all reqs c s)
    unfolding do_all
    spending_of_all [] c s w day apart = record { wallet = refl; cfg = refl; spent = refl }
    spending_of_all (req ∷ reqs) c s w day apart =
        let r = do_request money wire c req s in
        let one = spending_of_do c req s w day apart in
        let rest = spending_of_all reqs r.0 r.1 w day (rw one.wallet apart) in
        record {
          wallet = rest.wallet ∙ one.wallet;
          cfg = rest.cfg ∙ one.cfg;
          spent = rest.spent ∙ one.spent;
        }

    -- If the keys of the default wallet are apart from the key of a recipient on a day, then after any
    -- requests `Allow` answers for each intent to the recipient on that day as before the first of
    -- them: no payment that was made counts against the recipient's daily budget.
    pub allow-do_all :
        (reqs : List Request) (c : Client money wire) (s : wire.S) (day : String)
        (intent : Intent money)
        → KeysApart c intent.recipient day
        → allow money (do_all reqs c s).cfg (do_all reqs c s).ledger day intent
          ≡ allow money c.cfg c.ledger day intent
    allow-do_all reqs c s day intent apart =
        let same = spending_of_all reqs c s intent.recipient day apart in
        rw same.cfg (allow_ledger c.cfg c.ledger (do_all reqs c s).ledger day intent same.spent)
