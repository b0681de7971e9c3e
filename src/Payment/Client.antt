-- ===== src/Payment/Client.antt =====
-- `Parse`, `parseV1Header` and `FirstAccept` of core/pkg/client/x402.go, and `Do` of
-- X402PaymentHttpClient (x402_httpclient.go). The network, the signer, the facilitator and the approver
-- are the record `Wire`; a response comes with what encoding/json makes of its body and header.
pub mod Guard
pub mod Budget
use flowgent.Prelude.{
  ℕ, String, Bool, true, false, Option, none, some, List, [], ◌∷◌, ◌==◌, ◌||◌, eqb, leb,
  if◌then◌else◌,
}
use flowgent.Prelude.Dict.{get_or}
use flowgent.Payment.Policy.{
  Money, Policies, Intent, Ledger, Denial, allow, requires_human_approval, record_spend,
}

-- types.PaymentRequirements, types.PaymentRequired
pub record Requirements : Type 0 where
  pub scheme : String
  pub network : String
  pub asset : String
  pub amount : String
  pub pay_to : String

pub record PaymentRequired : Type 0 where
  pub version : ℕ
  pub accepts : List Requirements

-- The X402-Payment header: absent, not JSON, or its fields.
pub data Header : Type 0 where
  missing invalid : Header
  fields : Requirements → Header

pub record Response : Type 0 where
  pub status : ℕ
  pub body : Option PaymentRequired
  pub header : Header

-- parseV1Header: asset, amount and recipient must be there.
unfoldable pub parse_v1_header : Header → Option PaymentRequired
parse_v1_header missing = none
parse_v1_header invalid = none
parse_v1_header (fields v1) =
    if (v1.asset == "") || (v1.amount == "") || (v1.pay_to == "")
    then none
    else some (record { version = 1; accepts = v1 ∷ [] })

unfoldable pub first_accept : PaymentRequired → Option Requirements
first_accept pr = elim pr.accepts [ [] ↦ none | a ∷ rest ↦ some a ]

-- Parse: a body of version 2 or more wins, and fails if it accepts nothing.
unfoldable pub parse : Response → Option PaymentRequired
unfolding parse_v1_header
parse resp =
    if eqb resp.status 402
    then elim resp.body [
      | none ↦ parse_v1_header resp.header
      | some pr ↦
          if leb 2 pr.version
          then elim pr.accepts [ [] ↦ none | a ∷ rest ↦ some pr ]
          else parse_v1_header resp.header
    ]
    else none

-- A request, with the authorization token that a retry carries.
pub record Request : Type 0 where
  pub url : String
  pub host : String
  pub token : Option String

-- What the approver says: an error, a receipt with its token, or a plain yes.
pub data Approval : Type 0 where
  approval_error : Approval
  approved_with : String → Approval
  approved : Approval

-- What `Do` returns.
pub data Reply : Type 0 where
  request_failed parse_failed no_option requires_approval approval_denied sign_failed : Reply
  authorize_failed : Reply
  denied : Denial → Reply
  response : Option Response → Reply

module _ (money : Money) where
  open money use {D, zero_amount, new_from_string, trim_space}

  -- ParseAssetAmount
  unfoldable pub parse_asset_amount : String → Option D
  parse_asset_amount s = new_from_string (trim_space s)

  -- The outside world. `approver` is none where the client has none; `sign` and `authorize` are none
  -- on an error.
  pub record Wire : Type 1 where
    pub S : Type 0
    pub today : S → String
    pub new_id : S → String
    pub send : Request → S → S × Option Response
    pub approver : Option (Intent money → S → S × Approval)
    pub sign : String → Intent money → Requirements → S → S × Option String
    pub authorize : Intent money → Requirements → String → S → S × Option String

  module _ (wire : Wire) where
    open wire use {S, today, new_id, send, approver, sign, authorize}

    -- The client: the policy of its engine, the engine's ledger and the default wallet.
    pub record Client : Type 0 where
      pub cfg : Policies money
      pub ledger : Ledger money
      pub default_addr : String

    -- SetDefaultWallet
    unfoldable pub set_default_wallet : Client → String → Client
    set_default_wallet c addr = record c { default_addr = addr }

    -- The intent of `Do`. An amount that does not parse is zero: the error is dropped.
    unfoldable pub make_intent : Request → Requirements → S → Intent money
    unfolding parse_asset_amount
    make_intent req accept s = record {
      id = new_id s;
      url = req.url;
      asset = accept.asset;
      amount = get_or zero_amount (parse_asset_amount accept.amount);
      chain = accept.network;
      recipient = accept.pay_to;
      facilitator = req.host;
    }

    -- retryWithToken
    unfoldable pub retry_with_token : Client → Request → String → S → Client × S × Reply
    retry_with_token c req token s =
        let (s', resp) = send (record req { token = some token }) s in (c, s', response resp)

    -- From the payload on: sign, authorize, record the spending, retry.
    unfoldable pub pay : Client → Request → Requirements → Intent money → S → Client × S × Reply
    unfolding retry_with_token
    pay c req accept intent s =
        let (s1, sig) = sign c.default_addr intent accept s in
        elim sig [
          | none ↦ (c, s1, sign_failed)
          | some signature ↦
              let (s2, receipt) = authorize intent accept signature s1 in
              elim receipt [
                | none ↦ (c, s2, authorize_failed)
                | some token ↦
                    let c' = record c {
                      ledger = record_spend money c.ledger c.default_addr (today s2) intent.amount;
                    } in
                    retry_with_token c' req token s2
              ]
        ]

    -- What follows the approver's answer.
    unfoldable pub after_approval :
        Client → Request → Requirements → Intent money → S → Approval → Client × S × Reply
    unfolding pay
    after_approval c req accept intent s approval_error = (c, s, approval_denied)
    after_approval c req accept intent s (approved_with token) = retry_with_token c req token s
    after_approval c req accept intent s approved = pay c req accept intent s

    -- The approval step: nothing without a threshold, an error without an approver.
    unfoldable pub seek_approval :
        Client → Request → Requirements → Intent money → S → Client × S × Reply
    unfolding after_approval
    seek_approval c req accept intent s =
        if requires_human_approval money c.cfg intent
        then elim approver [
          | none ↦ (c, s, requires_approval)
          | some ask ↦ let (s', a) = ask intent s in after_approval c req accept intent s' a
        ]
        else pay c req accept intent s

    -- The part of `Do` behind a 402 response.
    unfoldable pub on_402 : Client → Request → Response → S → Client × S × Reply
    unfolding seek_approval make_intent parse first_accept
    on_402 c req resp s = elim (parse resp) [
      | none ↦ (c, s, parse_failed)
      | some pr ↦ elim (first_accept pr) [
        | none ↦ (c, s, no_option)
        | some accept ↦
            let intent = make_intent req accept s in
            elim (allow money c.cfg c.ledger (today s) intent) [
              | some d ↦ (c, s, denied d)
              | none ↦ seek_approval c req accept intent s
            ]
      ]
    ]

    -- Do
    unfoldable pub do_request : Client → Request → S → Client × S × Reply
    unfolding on_402
    do_request c req s =
        let (s', resp) = send req s in
        elim resp [
          | none ↦ (c, s', request_failed)
          | some r ↦ if eqb r.status 402 then on_402 c req r s' else (c, s', response (some r))
        ]
