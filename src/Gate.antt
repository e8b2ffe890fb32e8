-- ===== src/Gate.antt =====
-- app/safety/gate.py: the transmit gate. A check takes the list of reasons and returns it extended,
-- where the source appends to it.
mod Reason
pub mod Interlocks
pub mod Clearance
pub use Reason.{GateReason, gate_reason_enumeration, gate_reason_text}
use pgjp_trading.Prelude.{
  Bool, true, false, not, ◌&&◌, Option, none, some, List, [], ◌is◌, append_if, is_empty,
  if◌then◌else◌,
}
use pgjp_trading.Prelude.Int.{ℤ, pos, ltb_ℤ, leb_ℤ}
use pgjp_trading.Enums.{
  TradingMode, AccountType, ConnectionState, ApplicationState, trading_mode_enumeration,
  account_type_enumeration, connection_state_enumeration, application_state_enumeration,
}
use pgjp_trading.Config.{Config, uses_ibkr}

pub record GateContext : Type 0 where
  pub app_state : ApplicationState
  pub connection_state : ConnectionState
  pub broker_account_type : AccountType
  pub contract_qualified : Bool
  pub contract_is_continuous : Bool
  pub account_available : Bool
  pub positions_reconciled : Bool
  pub open_orders_reconciled : Bool
  pub market_data_age_seconds : Option ℤ
  pub market_data_is_delayed : Bool
  pub broker_permission_ready : Bool
  pub strategy_enabled : Bool
  pub risk_approved : Bool

-- The defaults of the fields of `GateContext`.
abbrev pub default_context : GateContext
default_context = record {
  app_state = ApplicationState.starting;
  connection_state = ConnectionState.disconnected;
  broker_account_type = AccountType.unknown;
  contract_qualified = false;
  contract_is_continuous = true;
  account_available = false;
  positions_reconciled = false;
  open_orders_reconciled = false;
  market_data_age_seconds = none;
  market_data_is_delayed = true;
  broker_permission_ready = false;
  strategy_enabled = false;
  risk_approved = false;
}

pub record GateDecision : Type 0 where
  pub allowed : Bool
  pub reasons : List GateReason

-- `_expected_account_type`
abbrev pub expected_account_type : TradingMode → Option AccountType
expected_account_type TradingMode.mock = some AccountType.simulated
expected_account_type TradingMode.paper = some AccountType.paper
expected_account_type TradingMode.live = some AccountType.live
expected_account_type TradingMode.disabled = none

-- `_MISMATCH_REASON`, a dict with no entry for UNKNOWN, which `expected_account_type` never returns.
abbrev pub mismatch_reason : AccountType → GateReason
mismatch_reason AccountType.live = GateReason.account_mismatch_expected_live
mismatch_reason AccountType.paper = GateReason.account_mismatch_expected_paper
mismatch_reason AccountType.simulated = GateReason.account_mismatch_expected_simulated
mismatch_reason AccountType.unknown = GateReason.account_type_unknown

pub check_master_switches : Config → List GateReason → List GateReason
check_master_switches c reasons =
    append_if (not c.allow_order_transmit) GateReason.transmit_not_allowed
      (append_if c.kill_switch GateReason.kill_switch reasons)

pub check_mode : Config → List GateReason → List GateReason
check_mode c reasons =
    if c.trading_mode is TradingMode.disabled
    then append_if true GateReason.mode_disabled reasons
    else append_if (c.trading_mode is TradingMode.live && not c.live_trading_enabled)
        GateReason.live_not_enabled reasons

check_expected : Option AccountType → AccountType → List GateReason → List GateReason
check_expected none observed reasons = reasons
check_expected (some expected) observed reasons =
    append_if (not (observed is expected)) (mismatch_reason expected) reasons

pub check_account_identity : Config → GateContext → List GateReason → List GateReason
unfolding check_expected
check_account_identity c ctx reasons =
    if ctx.broker_account_type is AccountType.unknown
    then append_if true GateReason.account_type_unknown reasons
    else check_expected (expected_account_type c.trading_mode) ctx.broker_account_type reasons

pub check_application_readiness : GateContext → List GateReason → List GateReason
check_application_readiness ctx reasons =
    append_if (not ctx.account_available) GateReason.account_unavailable (
      append_if (not (ctx.connection_state is ConnectionState.connected))
        GateReason.broker_not_connected
        (append_if (not (ctx.app_state is ApplicationState.ready)) GateReason.app_not_ready
          reasons))

pub check_contract : GateContext → List GateReason → List GateReason
check_contract ctx reasons =
    append_if ctx.contract_is_continuous GateReason.contract_is_continuous
      (append_if (not ctx.contract_qualified) GateReason.contract_not_qualified reasons)

pub check_reconciliation : GateContext → List GateReason → List GateReason
check_reconciliation ctx reasons =
    append_if (not ctx.open_orders_reconciled) GateReason.orders_not_reconciled
      (append_if (not ctx.positions_reconciled) GateReason.positions_not_reconciled reasons)

check_age : ℤ → Option ℤ → List GateReason → List GateReason
check_age max_age none reasons = append_if true GateReason.market_data_unavailable reasons
check_age max_age (some age) reasons =
    if ltb_ℤ age (pos 0)
    then append_if true GateReason.market_data_timestamp_in_future reasons
    else append_if (ltb_ℤ (pos 0) max_age && ltb_ℤ max_age age) GateReason.market_data_stale reasons

pub check_market_data : Config → GateContext → List GateReason → List GateReason
unfolding check_age
check_market_data c ctx reasons =
    check_age c.market_data_max_age_seconds ctx.market_data_age_seconds (
      append_if ctx.market_data_is_delayed GateReason.market_data_delayed (
        append_if (leb_ℤ c.market_data_max_age_seconds (pos 0))
          GateReason.market_data_age_not_configured reasons))

pub check_permissions : Config → GateContext → List GateReason → List GateReason
check_permissions c ctx reasons =
    append_if (not ctx.broker_permission_ready) GateReason.permission_broker_not_ready (
      append_if (uses_ibkr c && not c.sol_futures_permission_ready)
        GateReason.permission_config_not_ready reasons)

pub check_strategy_and_risk : Config → GateContext → List GateReason → List GateReason
check_strategy_and_risk c ctx reasons =
    append_if (not ctx.risk_approved) GateReason.risk_not_approved (
      append_if (not (c.strategy_enabled && ctx.strategy_enabled)) GateReason.strategy_disabled
        reasons)

-- The reasons that `TransmitGate.evaluate` collects.
pub collect_reasons : Config → GateContext → List GateReason
collect_reasons c ctx = check_strategy_and_risk c ctx (
    check_permissions c ctx (
      check_market_data c ctx (
        check_reconciliation ctx (
          check_contract ctx (
            check_application_readiness ctx
              (check_account_identity c ctx (check_mode c (check_master_switches c []))))))))

-- `TransmitGate.evaluate`
unfoldable pub evaluate : Config → GateContext → GateDecision
unfolding collect_reasons
evaluate c ctx =
    let reasons = collect_reasons c ctx in record { allowed = is_empty reasons; reasons = reasons }
