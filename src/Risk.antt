-- ===== src/Risk.antt =====
-- app/risk/manager.py: the risk manager. A check takes the list of reasons and returns it extended.
-- The detail that a decision carries for the log is left out.
mod Reason
mod Limits
pub mod Failures
pub mod Controls
pub mod Conditions
pub mod Approval
pub mod Examples
pub use Reason.{RiskReason, risk_reason_enumeration, risk_reason_text}
unfoldable pub use Limits.{
  check_order_size, check_position_size, check_daily_loss, check_orders_per_hour, check_open_orders,
  check_notional_exposure, unconfigured_limits,
}
use pgjp_trading.Prelude.{
  Bool, true, false, not, ◌&&◌, ◌||◌, Option, none, some, List, [], ◌∷◌, ◌++◌, ◌is◌, append_if,
  is_empty, if◌then◌else◌,
}
use pgjp_trading.Prelude.Int.{ℤ, pos, ltb_ℤ, leb_ℤ, ◌+ℤ◌, ◌*ℤ◌}
use pgjp_trading.Decimal.{Decimal}
use pgjp_trading.Enums.{
  TradingMode, AccountType, ConnectionState, ApplicationState, OrderSide, sign,
  trading_mode_enumeration, account_type_enumeration, connection_state_enumeration,
  application_state_enumeration,
}
use pgjp_trading.Config.{Config, uses_ibkr}
use pgjp_trading.Contract.{QualifiedContract, is_continuous}
use pgjp_trading.Intent.{TradeIntent}
use pgjp_trading.Gate.{expected_account_type}

pub record RiskContext : Type 0 where
  pub intent : TradeIntent
  pub order_side : OrderSide
  pub order_quantity : ℤ
  pub current_position : ℤ
  pub contract : Option QualifiedContract
  pub reference_price : Option Decimal
  pub market_data_age_seconds : Option ℤ
  pub daily_pnl : Decimal
  pub open_orders_count : ℤ
  pub orders_last_hour : ℤ
  pub app_state : ApplicationState
  pub connection_state : ConnectionState
  pub account_type : AccountType
  pub account_available : Bool
  pub positions_reconciled : Bool
  pub open_orders_reconciled : Bool
  pub broker_permission_ready : Bool
  pub strategy_enabled : Bool
  pub kill_switch_engaged : Bool
  pub duplicate_order_exists : Bool

-- `RiskContext.projected_position`
abbrev pub projected_position : RiskContext → ℤ
projected_position ctx = ctx.current_position +ℤ ctx.order_quantity *ℤ sign ctx.order_side

pub record RiskDecision : Type 0 where
  pub approved : Bool
  pub reasons : List RiskReason

pub check_master_controls : Config → RiskContext → List RiskReason → List RiskReason
check_master_controls c ctx reasons =
    append_if (not (c.strategy_enabled && ctx.strategy_enabled)) RiskReason.strategy_disabled (
      append_if (c.trading_mode is TradingMode.disabled) RiskReason.trading_mode_disabled (
        append_if (not c.allow_order_transmit) RiskReason.transmit_not_allowed
          (append_if (ctx.kill_switch_engaged || c.kill_switch) RiskReason.kill_switch reasons)))

pub check_system_state : RiskContext → List RiskReason → List RiskReason
check_system_state ctx reasons =
    append_if (not ctx.open_orders_reconciled) RiskReason.orders_not_reconciled (
      append_if (not ctx.positions_reconciled) RiskReason.positions_not_reconciled (
        append_if (not (ctx.connection_state is ConnectionState.connected))
          RiskReason.broker_disconnected
          (append_if (not (ctx.app_state is ApplicationState.ready)) RiskReason.app_not_ready
            reasons)))

check_expected : Option AccountType → AccountType → List RiskReason → List RiskReason
check_expected none observed reasons = reasons
check_expected (some expected) observed reasons =
    append_if (not (observed is expected)) RiskReason.account_type_mismatch reasons

check_identity : Config → AccountType → List RiskReason → List RiskReason
unfolding check_expected
check_identity c observed reasons =
    if observed is AccountType.unknown
    then append_if true RiskReason.account_type_unknown reasons
    else check_expected (expected_account_type c.trading_mode) observed reasons

pub check_account : Config → RiskContext → List RiskReason → List RiskReason
check_account c ctx reasons =
    check_identity c ctx.account_type
      (append_if (not ctx.account_available) RiskReason.account_unavailable reasons)

check_contract_of : Option QualifiedContract → List RiskReason → List RiskReason
check_contract_of none reasons = append_if true RiskReason.contract_not_qualified reasons
check_contract_of (some contract) reasons =
    append_if (leb_ℤ contract.con_id (pos 0)) RiskReason.contract_not_qualified
      (append_if (is_continuous contract) RiskReason.contract_continuous reasons)

pub check_contract : RiskContext → List RiskReason → List RiskReason
check_contract ctx reasons = check_contract_of ctx.contract reasons

check_age : ℤ → Option ℤ → List RiskReason → List RiskReason
check_age max_age none reasons = append_if true RiskReason.market_data_missing reasons
check_age max_age (some age) reasons =
    if ltb_ℤ age (pos 0)
    then append_if true RiskReason.market_data_future reasons
    else append_if (ltb_ℤ (pos 0) max_age && ltb_ℤ max_age age) RiskReason.market_data_stale reasons

pub check_market_data : Config → RiskContext → List RiskReason → List RiskReason
check_market_data c ctx reasons =
    check_age c.market_data_max_age_seconds ctx.market_data_age_seconds (
      append_if (leb_ℤ c.market_data_max_age_seconds (pos 0))
        RiskReason.market_data_age_not_configured reasons)

pub check_permissions : Config → RiskContext → List RiskReason → List RiskReason
check_permissions c ctx reasons =
    append_if (not ctx.broker_permission_ready) RiskReason.broker_permission_unknown (
      append_if (uses_ibkr c && not c.sol_futures_permission_ready) RiskReason.permission_not_ready
        reasons)

pub check_duplicates : RiskContext → List RiskReason → List RiskReason
check_duplicates ctx reasons =
    append_if ctx.duplicate_order_exists RiskReason.duplicate_order reasons

-- `reasons.extend(reason for reason in checks if reason is not None)`
pub extend : List (Option RiskReason) → List RiskReason → List RiskReason
extend [] reasons = reasons
extend (none ∷ checks) reasons = extend checks reasons
extend (some reason ∷ checks) reasons = extend checks (reasons ++ reason ∷ [])

-- The numeric checks but the last, which may raise.
abbrev limit_checks : Config → RiskContext → Option RiskReason → List (Option RiskReason)
limit_checks c ctx exposure =
    check_order_size c.risk ctx.order_quantity
    ∷ check_position_size c.risk (projected_position ctx)
    ∷ check_daily_loss c.risk ctx.daily_pnl
    ∷ check_orders_per_hour c.risk ctx.orders_last_hour
    ∷ check_open_orders c.risk ctx.open_orders_count
    ∷ exposure
    ∷ []

abbrev exposure_of : Config → RiskContext → Option (Option RiskReason)
exposure_of c ctx =
    check_notional_exposure c.risk ctx.contract (projected_position ctx) ctx.reference_price

pub check_numeric_limits :
    Config → RiskContext → Option RiskReason → List RiskReason → List RiskReason
check_numeric_limits c ctx exposure reasons =
    extend (limit_checks c ctx exposure)
      (append_if (leb_ℤ ctx.order_quantity (pos 0)) RiskReason.quantity_invalid reasons)

-- The reasons that `RiskManager.evaluate` collects, the outcome of the last check given.
pub collect_reasons : Config → RiskContext → Option RiskReason → List RiskReason
collect_reasons c ctx exposure = check_numeric_limits c ctx exposure (
    check_duplicates ctx (
      check_permissions c ctx (
        check_market_data c ctx (
          check_contract ctx
            (check_account c ctx (check_system_state ctx (check_master_controls c ctx [])))))))

-- The decision, given what the last check returns or raises.
pub decide_risk : Config → RiskContext → Option (Option RiskReason) → Option RiskDecision
decide_risk c ctx none = none
decide_risk c ctx (some exposure) =
    let reasons = collect_reasons c ctx exposure in
    some (record { approved = is_empty reasons; reasons = reasons })

-- `RiskManager.evaluate`; none is the `ContractError` of a contract with no numeric multiplier.
unfoldable pub evaluate : Config → RiskContext → Option RiskDecision
evaluate c ctx = decide_risk c ctx (exposure_of c ctx)
