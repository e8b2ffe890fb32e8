-- ===== src/Risk/Controls.antt =====
-- app/risk/manager.py: the risk manager reports exactly the controls that fail.
use mathlib.Core.Bool.{and-true, and-false, or-false}
use pgjp_trading.Prelude.{
  ◌≡◌, refl, ap, some_injective, ◌∙◌, sym, Bool, true, false, not, ◌&&◌, ◌||◌, Option, none, some,
  List, [], ◌∷◌, ◌++◌, arith, ◌is◌, contains, contains-append_if, contains-append, any,
  if◌then◌else◌,
}
use pgjp_trading.Prelude.Int.{ℤ}
use pgjp_trading.Decimal.{Decimal, zero_decimal, le_decimal}
use pgjp_trading.Enums.{
  trading_mode_enumeration, account_type_enumeration, connection_state_enumeration,
  application_state_enumeration,
}
use pgjp_trading.Config.{Config, RiskLimits}
use pgjp_trading.Contract.{QualifiedContract}
use pgjp_trading.Gate.{expected_account_type}
use pgjp_trading.Risk.Reason.{RiskReason, risk_reason_enumeration}
use pgjp_trading.Risk.Limits.{
  check_order_size, check_position_size, check_daily_loss, check_orders_per_hour, check_open_orders,
  check_notional_exposure,
}
use pgjp_trading.Risk.{
  RiskContext, RiskDecision, projected_position, evaluate, exposure_of, check_master_controls,
  check_system_state, check_identity, check_account, check_contract, check_contract_of, check_age,
  check_market_data, check_permissions, check_duplicates, extend, check_numeric_limits,
  collect_reasons, decide_risk,
}
use pgjp_trading.Risk.Failures.{
  is_age_stale, is_other_account, is_unqualified, is_unpriceable, is_above, exposure_at, fails,
}

-- Whether the outcome of a numeric check is the reason `r`.
abbrev is_outcome : RiskReason → Option RiskReason → Bool
is_outcome r none = false
is_outcome r (some x) = r is x

contains-extend :
    (r : RiskReason) (checks : List (Option RiskReason)) (reasons : List RiskReason)
    → contains r (extend checks reasons) ≡ (contains r reasons || any (is_outcome r) checks)
unfolding extend
contains-extend r [] reasons = ground arith
contains-extend r (none ∷ checks) reasons = contains-extend r checks reasons
contains-extend r (some x ∷ checks) reasons =
    ground (arith, contains-extend r checks (reasons ++ x ∷ []), contains-append r reasons (x ∷ []))

-- The outcome of the last check by three tests.
abbrev exposure_outcome : Bool → Bool → Bool → Option RiskReason
exposure_outcome unconfigured unpriceable above =
    if unconfigured
    then some RiskReason.notional_not_configured
    else if unpriceable
    then some RiskReason.notional_unpriceable
    else if above
    then some RiskReason.notional_exceeded
    else none

exposure_outcome_lem :
    (l : RiskLimits) (contract : Option QualifiedContract) (position : ℤ) (price : Option Decimal)
    (outcome : Option RiskReason)
    → check_notional_exposure l contract position price ≡ some outcome
    → outcome
      ≡ exposure_outcome
          (le_decimal l.max_notional_exposure_usd zero_decimal)
          (is_unpriceable contract price)
          (is_above l.max_notional_exposure_usd (exposure_at contract position price))
unfolding check_notional_exposure
exposure_outcome_lem l none position price outcome e = ground arith
exposure_outcome_lem l (some k) position none outcome e = ground arith
exposure_outcome_lem l (some k) position (some p) outcome e = ground arith

is_outcome-exposure_outcome :
    (r : RiskReason) (a b d : Bool)
    → is_outcome r (exposure_outcome a b d) ≡ (
        a && r is RiskReason.notional_not_configured
        || (not a && b) && r is RiskReason.notional_unpriceable
        || (not a && not b && d) && r is RiskReason.notional_exceeded)
is_outcome-exposure_outcome r true b d = ground arith
is_outcome-exposure_outcome r false true d = ground arith
is_outcome-exposure_outcome r false false d = ground arith

module _ (c : Config) (ctx : RiskContext) (r : RiskReason) where
  abbrev added : RiskReason → Bool
  added k = fails c ctx k && r is k

  contains-check_master_controls :
      (reasons : List RiskReason)
      → contains r (check_master_controls c ctx reasons) ≡ (
          contains r reasons
          || added RiskReason.kill_switch
          || added RiskReason.transmit_not_allowed
          || added RiskReason.trading_mode_disabled
          || added RiskReason.strategy_disabled)
  unfolding check_master_controls
  contains-check_master_controls reasons = simp contains-append_if

  contains-check_system_state :
      (reasons : List RiskReason)
      → contains r (check_system_state ctx reasons) ≡ (
          contains r reasons
          || added RiskReason.app_not_ready
          || added RiskReason.broker_disconnected
          || added RiskReason.positions_not_reconciled
          || added RiskReason.orders_not_reconciled)
  unfolding check_system_state
  contains-check_system_state reasons = simp contains-append_if

  contains-check_identity :
      (reasons : List RiskReason)
      → contains r (check_identity c ctx.account_type reasons) ≡ (
          contains r reasons
          || added RiskReason.account_type_unknown
          || added RiskReason.account_type_mismatch)
  unfolding check_identity
  contains-check_identity reasons = ground (
    arith,
    contains-append_if r RiskReason.account_type_unknown true reasons,
    contains-append_if r RiskReason.account_type_mismatch
        (is_other_account (expected_account_type c.trading_mode) ctx.account_type) reasons,
  )

  contains-check_account :
      (reasons : List RiskReason)
      → contains r (check_account c ctx reasons) ≡ (
          contains r reasons
          || added RiskReason.account_unavailable
          || added RiskReason.account_type_unknown
          || added RiskReason.account_type_mismatch)
  unfolding check_account
  contains-check_account reasons = simp (contains-check_identity, contains-append_if)

  contains-check_contract :
      (reasons : List RiskReason)
      → contains r (check_contract ctx reasons)
        ≡ (contains r reasons || added RiskReason.contract_not_qualified)
  unfolding check_contract check_contract_of
  contains-check_contract reasons = ground (
    arith,
    contains-append_if r RiskReason.contract_not_qualified (is_unqualified ctx.contract) reasons,
  )

  contains-check_age :
      (reasons : List RiskReason)
      → contains r (check_age c.market_data_max_age_seconds ctx.market_data_age_seconds reasons) ≡ (
          contains r reasons
          || added RiskReason.market_data_missing
          || added RiskReason.market_data_future
          || added RiskReason.market_data_stale)
  unfolding check_age
  contains-check_age reasons = ground (
    arith,
    contains-append_if r RiskReason.market_data_missing true reasons,
    contains-append_if r RiskReason.market_data_future true reasons,
    contains-append_if r RiskReason.market_data_stale
        (is_age_stale c.market_data_max_age_seconds ctx.market_data_age_seconds) reasons,
  )

  contains-check_market_data :
      (reasons : List RiskReason)
      → contains r (check_market_data c ctx reasons) ≡ (
          contains r reasons
          || added RiskReason.market_data_age_not_configured
          || added RiskReason.market_data_missing
          || added RiskReason.market_data_future
          || added RiskReason.market_data_stale)
  unfolding check_market_data
  contains-check_market_data reasons = simp (contains-check_age, contains-append_if)

  contains-check_permissions :
      (reasons : List RiskReason)
      → contains r (check_permissions c ctx reasons) ≡ (
          contains r reasons
          || added RiskReason.permission_not_ready
          || added RiskReason.broker_permission_unknown)
  unfolding check_permissions
  contains-check_permissions reasons = simp contains-append_if

  contains-check_duplicates :
      (reasons : List RiskReason)
      → contains r (check_duplicates ctx reasons)
        ≡ (contains r reasons || added RiskReason.duplicate_order)
  unfolding check_duplicates
  contains-check_duplicates reasons = simp contains-append_if

  is_outcome-check_order_size :
      is_outcome r (check_order_size c.risk ctx.order_quantity)
      ≡ (added RiskReason.order_size_not_configured || added RiskReason.order_size_exceeded)
  unfolding check_order_size
  is_outcome-check_order_size = ground arith

  is_outcome-check_position_size :
      is_outcome r (check_position_size c.risk (projected_position ctx))
      ≡ (added RiskReason.position_not_configured || added RiskReason.position_exceeded)
  unfolding check_position_size
  is_outcome-check_position_size = ground arith

  is_outcome-check_daily_loss :
      is_outcome r (check_daily_loss c.risk ctx.daily_pnl)
      ≡ (added RiskReason.daily_loss_not_configured || added RiskReason.daily_loss_exceeded)
  unfolding check_daily_loss
  is_outcome-check_daily_loss = ground arith

  is_outcome-check_orders_per_hour :
      is_outcome r (check_orders_per_hour c.risk ctx.orders_last_hour) ≡ (
        added RiskReason.orders_per_hour_not_configured
        || added RiskReason.orders_per_hour_exceeded)
  unfolding check_orders_per_hour
  is_outcome-check_orders_per_hour = ground arith

  is_outcome-check_open_orders :
      is_outcome r (check_open_orders c.risk ctx.open_orders_count)
      ≡ (added RiskReason.open_orders_not_configured || added RiskReason.open_orders_exceeded)
  unfolding check_open_orders
  is_outcome-check_open_orders = ground arith

  is_outcome-check_notional_exposure :
      (outcome : Option RiskReason)
      → exposure_of c ctx ≡ some outcome
      → is_outcome r outcome ≡ (
          added RiskReason.notional_not_configured
          || added RiskReason.notional_unpriceable
          || added RiskReason.notional_exceeded)
  is_outcome-check_notional_exposure outcome e =
      ap (is_outcome r) (
        exposure_outcome_lem c.risk ctx.contract (projected_position ctx) ctx.reference_price
          outcome e)
      ∙ is_outcome-exposure_outcome r (le_decimal c.risk.max_notional_exposure_usd zero_decimal)
          (is_unpriceable ctx.contract ctx.reference_price)
          (is_above c.risk.max_notional_exposure_usd
            (exposure_at ctx.contract (projected_position ctx) ctx.reference_price))

ruleset check_laws = (
  contains-check_master_controls, contains-check_system_state, contains-check_account,
  contains-check_contract, contains-check_market_data, contains-check_permissions,
  contains-check_duplicates, contains-extend, contains-append_if, is_outcome-check_order_size,
  is_outcome-check_position_size, is_outcome-check_daily_loss, is_outcome-check_orders_per_hour,
  is_outcome-check_open_orders, and-true, and-false, or-false,
)

contains-collect_reasons :
    (c : Config) (ctx : RiskContext) (outcome : Option RiskReason) (r : RiskReason)
    → exposure_of c ctx ≡ some outcome
    → contains r (collect_reasons c ctx outcome) ≡ fails c ctx r
unfolding collect_reasons check_numeric_limits
contains-collect_reasons c ctx outcome RiskReason.kill_switch e =
    simp (check_laws, is_outcome-check_notional_exposure c ctx RiskReason.kill_switch outcome e)
contains-collect_reasons c ctx outcome r e =
    simp (check_laws, is_outcome-check_notional_exposure c ctx r outcome e)

decide_risk_exact :
    (c : Config) (ctx : RiskContext) (r : RiskReason) (d : RiskDecision)
    (exposure : Option (Option RiskReason))
    → exposure_of c ctx ≡ exposure
    → decide_risk c ctx exposure ≡ some d
    → contains r d.reasons ≡ fails c ctx r
unfolding decide_risk
decide_risk_exact c ctx r d none computed e = cc
decide_risk_exact c ctx r d (some outcome) computed e =
    ap (λ (x : RiskDecision). contains r x.reasons) (sym (some_injective e))
    ∙ contains-collect_reasons c ctx outcome r computed

-- Whenever the risk manager returns a decision, a reason is in it exactly when the control that the
-- reason names fails: every failing control is reported, and no other.
pub evaluate-controls :
    (c : Config) (ctx : RiskContext) (r : RiskReason) (d : RiskDecision)
    → evaluate c ctx ≡ some d
    → contains r d.reasons ≡ fails c ctx r
unfolding evaluate
evaluate-controls c ctx r d e = decide_risk_exact c ctx r d (exposure_of c ctx) refl e
