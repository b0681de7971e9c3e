-- ===== src/Payment/Policy.antt =====
-- The `Engine` of core/pkg/client/policy/policy.go over its `memorySpendingStore`, the store that
-- `NewHttpClient` gives it. Amounts are those of github.com/shopspring/decimal, a record of its
-- operations; the date of a check is an argument.
pub mod Hosts
pub mod Laws
use Prim.Native.String.{◌++◌ as str_append}
use flowgent.Prelude.{
  String, Bool, true, false, not, Option, none, some, List, [], ◌∷◌, ◌==◌, ◌&&◌, is_empty,
  if◌then◌else◌,
}
use flowgent.Prelude.Dict.{Dict, get, put, get_or}
use flowgent.Payment.Domain.{extract_domain, match_any, contains_fold}

-- decimal.Decimal, the float64 limits of the configuration, strings.EqualFold and strings.TrimSpace.
pub record Money : Type 1 where
  pub D : Type 0
  pub F : Type 0
  pub zero_amount : D
  pub add : D → D → D
  pub greater_than : D → D → Bool
  pub greater_or_equal : D → D → Bool
  pub new_from_string : String → Option D
  pub new_from_float : F → D
  pub above_zero : F → Bool
  pub equal_fold : String → String → Bool
  pub trim_space : String → String

-- Why `Allow` refuses.
pub data Denial : Type 0 where
  asset_not_allowed chain_not_allowed single_limit domain_blocked domain_not_allowed daily_budget :
      Denial

-- wallet + ":" + date
abbrev pub ledger_key : String → String → String
ledger_key wallet date = str_append wallet (str_append ":" date)

module _ (money : Money) where
  open money use {
    D, F, zero_amount, add, greater_than, greater_or_equal, new_from_float, above_zero, equal_fold,
  }

  -- PoliciesConfig
  pub record Policies : Type 0 where
    pub allowed_assets : List String
    pub allowed_chains : List String
    pub allowed_domains : List String
    pub blocked_domains : List String
    pub max_single_payment : F
    pub max_daily_budget : F
    pub require_human_approval_above : F

  pub record Intent : Type 0 where
    pub id : String
    pub url : String
    pub asset : String
    pub amount : D
    pub chain : String
    pub recipient : String
    pub facilitator : String

  -- memorySpendingStore: "wallet:date" to the total.
  abbrev pub Ledger : Type 0
  Ledger = Dict D

  -- GetDailySpent
  unfoldable pub get_daily_spent : Ledger → String → String → D
  get_daily_spent ledger wallet date = get_or zero_amount (get ledger (ledger_key wallet date))

  -- RecordSpend
  unfoldable pub record_spend : Ledger → String → String → D → Ledger
  record_spend ledger wallet date amount =
      let key = ledger_key wallet date in
      put ledger key (add (get_or zero_amount (get ledger key)) amount)

  -- checkDomain
  unfoldable pub check_domain : Policies → String → Option Denial
  check_domain cfg domain =
      if match_any cfg.blocked_domains domain
      then some domain_blocked
      else if not (is_empty cfg.allowed_domains) && not (match_any cfg.allowed_domains domain)
      then some domain_not_allowed
      else none

  -- The domain step of `Allow`: nothing is checked for an empty URL.
  unfoldable pub check_url : Policies → String → Option Denial
  unfolding check_domain
  check_url cfg url = if url == "" then none else check_domain cfg (extract_domain url)

  -- Allow: none, or the first denial.
  unfoldable pub allow : Policies → Ledger → String → Intent → Option Denial
  unfolding check_url get_daily_spent
  allow cfg ledger today intent =
      if not (is_empty cfg.allowed_assets)
        && not (contains_fold equal_fold cfg.allowed_assets intent.asset)
      then some asset_not_allowed
      else if not (is_empty cfg.allowed_chains)
          && not (contains_fold equal_fold cfg.allowed_chains intent.chain)
      then some chain_not_allowed
      else if above_zero cfg.max_single_payment
          && greater_than intent.amount (new_from_float cfg.max_single_payment)
      then some single_limit
      else elim (check_url cfg intent.url) [
        | some d ↦ some d
        | none ↦
            if above_zero cfg.max_daily_budget
              && greater_than (add (get_daily_spent ledger intent.recipient today) intent.amount)
                  (new_from_float cfg.max_daily_budget)
            then some daily_budget
            else none
      ]

  -- RequiresHumanApproval
  unfoldable pub requires_human_approval : Policies → Intent → Bool
  requires_human_approval cfg intent =
      above_zero cfg.require_human_approval_above
      && greater_or_equal intent.amount (new_from_float cfg.require_human_approval_above)
