-- ===== src/Payment/Client/Guard.antt =====
-- What the policy guards in `Do` of x402_httpclient.go, and what the ledger records.
use mathlib.Core.Bool.{true≢false}
use flowgent.Prelude.{
  String, true, none, some, ◌≡◌, refl, sym, ◌∙◌, ◌⊎◌, inl, inr, eqb, Bool-cases, Option-cases,
}
use flowgent.Payment.Policy.{Money, Intent, record_spend, allow, requires_human_approval}
use flowgent.Payment.Client.{
  PaymentRequired, Wire, Client, Request, Requirements, Response, Approval, approval_error,
  approved_with, approved, parse, first_accept, make_intent, pay, after_approval, seek_approval,
  on_402, do_request,
}

module _ (money : Money) (wire : Wire money) where
  open wire use {S, today, send, sign, authorize, approver}

  -- The client with the amount of an intent recorded for the default wallet.
  abbrev pub charged : Client money wire → Intent money → String → Client money wire
  charged c intent date = record c {
    ledger = record_spend money c.ledger c.default_addr date intent.amount;
  }

  -- The client is as it was, or it is charged for the intent on some day.
  abbrev KeptOrCharged : Client money wire → Intent money → Client money wire → Type 0
  KeptOrCharged c intent c' = (c' ≡ c) ⊎ ((date : String) × (c' ≡ charged c intent date))

  pay_effect :
      (c : Client money wire) (req : Request) (accept : Requirements) (intent : Intent money)
      (s : S)
      → KeptOrCharged c intent (pay money wire c req accept intent s).0
  unfolding pay
  pay_effect c req accept intent s =
      let (s1, sig) = sign c.default_addr intent accept s in
      elim (Option-cases sig) [
        | inl e ↦ inl (rw (e, pay))
        | inr (signature, e) ↦
            let (s2, receipt) = authorize intent accept signature s1 in
            elim (Option-cases receipt) [
              | inl r ↦ inl (rw (e, r, pay))
              | inr (token, r) ↦ inr (today s2, rw (e, r, pay))
            ]
      ]

  -- If the policy wants a human, the approver was asked and said yes.
  abbrev pub HasApproval : Client money wire → Intent money → S → Type 0
  HasApproval c intent s =
      requires_human_approval money c.cfg intent ≡ true
      → (ask : Intent money → S → S × Approval) × (approver ≡ some ask)
        × ((ask intent s).1 ≡ approved)

  -- The client is as it was, or it is charged with approval.
  abbrev Effect : Client money wire → Intent money → S → Client money wire → Type 0
  Effect c intent s c' =
      (c' ≡ c) ⊎ ((date : String) × (c' ≡ charged c intent date) × HasApproval c intent s)

  approval_effect :
      (c : Client money wire) (req : Request) (accept : Requirements) (intent : Intent money)
      (s : S) (a : Approval)
      → (after_approval money wire c req accept intent s a).0 ≡ c
        ⊎ (KeptOrCharged c intent (after_approval money wire c req accept intent s a).0
            × (a ≡ approved))
  unfolding after_approval
  approval_effect c req accept intent s approval_error = inl refl
  approval_effect c req accept intent s (approved_with token) = inl refl
  approval_effect c req accept intent s approved = inr (pay_effect c req accept intent s, refl)

  seek_approval-Effect :
      (c : Client money wire) (req : Request) (accept : Requirements) (intent : Intent money)
      (s : S)
      → Effect c intent s (seek_approval money wire c req accept intent s).0
  unfolding seek_approval
  seek_approval-Effect c req accept intent s =
      elim (Bool-cases (requires_human_approval money c.cfg intent)) [
        | inr q ↦ elim (pay_effect c req accept intent s) [
          | inl k ↦ inl (rw (q, seek_approval) k)
          | inr (d, k) ↦ inr (d, rw (q, seek_approval) k, λ t. absurd (true≢false (sym t ∙ q)))
        ]
        | inl q ↦ elim (Option-cases approver) [
          | inl e ↦ inl (rw (q, e, seek_approval))
          | inr (ask, e) ↦
              let (s', a) = ask intent s in
              elim (approval_effect c req accept intent s' a) [
                | inl k ↦ inl (rw (q, e, seek_approval) k)
                | inr (inl k, y) ↦ inl (rw (q, e, seek_approval) k)
                | inr (inr (d, k), y) ↦ inr (d, rw (q, e, seek_approval) k, λ t. (ask, e, y))
              ]
        ]
      ]

  -- A payment for the first option of the response, as the policy permits it in the world behind the
  -- response.
  pub record Charge (c : Client money wire) (req : Request) (resp : Response) (at : S)
      (c' : Client money wire) : Type 0 where
    pub pr : PaymentRequired
    pub accept : Requirements
    pub date : String
    pub parsed : parse resp ≡ some pr
    pub offered : first_accept pr ≡ some accept
    pub permitted :
        allow money c.cfg c.ledger (today at) (make_intent money wire req accept at) ≡ none
    pub approval : HasApproval c (make_intent money wire req accept at) at
    pub recorded : c' ≡ charged c (make_intent money wire req accept at) date

  on_402-guarded :
      (c : Client money wire) (req : Request) (resp : Response) (s : S)
      → (on_402 money wire c req resp s).0 ≡ c
        ⊎ Charge c req resp s (on_402 money wire c req resp s).0
  unfolding on_402
  on_402-guarded c req resp s = elim (Option-cases (parse resp)) [
    | inl e ↦ inl (rw (e, on_402))
    | inr (pr, e) ↦ elim (Option-cases (first_accept pr)) [
      | inl f ↦ inl (rw (e, f, on_402))
      | inr (accept, f) ↦
          let intent = make_intent money wire req accept s in
          elim (Option-cases (allow money c.cfg c.ledger (today s) intent)) [
            | inr (d, g) ↦ inl (rw (e, f, g, on_402))
            | inl g ↦ elim (seek_approval-Effect c req accept intent s) [
              | inl k ↦ inl (rw (e, f, g, on_402) k)
              | inr (date, k, h) ↦ inr (record {
                pr = pr;
                accept = accept;
                date = date;
                parsed = e;
                offered = f;
                permitted = g;
                approval = h;
                recorded = rw (e, f, g, on_402) k;
              })
            ]
          ]
    ]
  ]

  -- `Do` leaves the client as it was, or records one spending for the default wallet, behind a 402
  -- response: the amount of the intent of the response's first option, which `Allow` permitted and, if
  -- the policy wants a human, the approver approved.
  pub do_request-guarded :
      (c : Client money wire) (req : Request) (s : S)
      → ((do_request money wire c req s).0 ≡ c)
        ⊎ ((resp : Response) × ((send req s).1 ≡ some resp)
            × (eqb resp.status 402 ≡ true)
            × Charge c req resp (send req s).0 (do_request money wire c req s).0)
  unfolding do_request
  do_request-guarded c req s =
      let (s', resp) = send req s in
      elim (Option-cases resp) [
        | inl e ↦ inl (rw (e, do_request))
        | inr (r, e) ↦ elim (Bool-cases (eqb r.status 402)) [
          | inr f ↦ inl (rw (e, f, do_request))
          | inl f ↦ elim (on_402-guarded c req r s') [
            | inl k ↦ inl (rw (e, f, do_request) k)
            | inr k ↦ inr (r, e, f, rw (e, f, do_request) k)
          ]
        ]
      ]
