-- ===== src/Gate/Interlocks.antt =====
-- app/safety/gate.py: what each reason means, and that the gate reports exactly those that hold.
use pgjp_trading.Prelude.{
  ◌≡◌, Bool, true, false, not, ◌&&◌, ◌||◌, Option, none, some, List, arith, ◌is◌, contains,
  contains-append_if,
}
use mathlib.Core.Bool.{and-true, and-false, or-false}
use pgjp_trading.Prelude.Int.{ℤ, pos, ltb_ℤ, leb_ℤ}
use pgjp_trading.Enums.{
  TradingMode, AccountType, ConnectionState, ApplicationState, trading_mode_enumeration,
  account_type_enumeration, application_state_enumeration, connection_state_enumeration,
}
use pgjp_trading.Config.{Config, uses_ibkr}
use pgjp_trading.Gate.Reason.{GateReason, gate_reason_enumeration}
use pgjp_trading.Gate.{
  GateContext, check_master_switches, check_mode, check_reconciliation, check_contract,
  check_strategy_and_risk, check_age, check_permissions, collect_reasons,
  check_application_readiness, check_market_data, check_account_identity, evaluate,
}

-- Whether the interlock that a reason names is broken, each read off the configuration and the
-- context by itself.
abbrev pub is_age_in_future : Option ℤ → Bool
is_age_in_future none = false
is_age_in_future (some age) = ltb_ℤ age (pos 0)

abbrev pub is_age_stale : ℤ → Option ℤ → Bool
is_age_stale max_age none = false
is_age_stale max_age (some age) = leb_ℤ (pos 0) age && ltb_ℤ (pos 0) max_age && ltb_ℤ max_age age

abbrev pub is_age_missing : Option ℤ → Bool
is_age_missing none = true
is_age_missing (some age) = false

abbrev is_mismatched : TradingMode → TradingMode → AccountType → AccountType → Bool
is_mismatched mode traded expected observed =
    mode is traded && not (observed is AccountType.unknown) && not (observed is expected)

abbrev pub fails : Config → GateContext → GateReason → Bool
fails c ctx GateReason.kill_switch = c.kill_switch
fails c ctx GateReason.transmit_not_allowed = not c.allow_order_transmit
fails c ctx GateReason.mode_disabled = c.trading_mode is TradingMode.disabled
fails c ctx GateReason.live_not_enabled =
    c.trading_mode is TradingMode.live && not c.live_trading_enabled
fails c ctx GateReason.account_type_unknown = ctx.broker_account_type is AccountType.unknown
fails c ctx GateReason.account_mismatch_expected_live =
    is_mismatched c.trading_mode TradingMode.live AccountType.live ctx.broker_account_type
fails c ctx GateReason.account_mismatch_expected_paper =
    is_mismatched c.trading_mode TradingMode.paper AccountType.paper ctx.broker_account_type
fails c ctx GateReason.account_mismatch_expected_simulated =
    is_mismatched c.trading_mode TradingMode.mock AccountType.simulated ctx.broker_account_type
fails c ctx GateReason.app_not_ready = not (ctx.app_state is ApplicationState.ready)
fails c ctx GateReason.broker_not_connected =
    not (ctx.connection_state is ConnectionState.connected)
fails c ctx GateReason.contract_not_qualified = not ctx.contract_qualified
fails c ctx GateReason.contract_is_continuous = ctx.contract_is_continuous
fails c ctx GateReason.account_unavailable = not ctx.account_available
fails c ctx GateReason.positions_not_reconciled = not ctx.positions_reconciled
fails c ctx GateReason.orders_not_reconciled = not ctx.open_orders_reconciled
fails c ctx GateReason.market_data_unavailable = is_age_missing ctx.market_data_age_seconds
fails c ctx GateReason.market_data_stale =
    is_age_stale c.market_data_max_age_seconds ctx.market_data_age_seconds
fails c ctx GateReason.market_data_timestamp_in_future =
    is_age_in_future ctx.market_data_age_seconds
fails c ctx GateReason.market_data_age_not_configured = leb_ℤ c.market_data_max_age_seconds (pos 0)
fails c ctx GateReason.market_data_delayed = ctx.market_data_is_delayed
fails c ctx GateReason.permission_config_not_ready =
    uses_ibkr c && not c.sol_futures_permission_ready
fails c ctx GateReason.permission_broker_not_ready = not ctx.broker_permission_ready
fails c ctx GateReason.strategy_disabled = not (c.strategy_enabled && ctx.strategy_enabled)
fails c ctx GateReason.risk_not_approved = not ctx.risk_approved

-- One check adds a reason exactly if it is one of the check's own and its interlock is broken.
module _ (c : Config) (ctx : GateContext) (r : GateReason) where
  -- The reason `k`, if that is `r` and its interlock is broken.
  abbrev added : GateReason → Bool
  added k = fails c ctx k && r is k

  contains-check_master_switches :
      (reasons : List GateReason)
      → contains r (check_master_switches c reasons) ≡ (
          contains r reasons
          || added GateReason.kill_switch
          || added GateReason.transmit_not_allowed)
  unfolding check_master_switches
  contains-check_master_switches reasons = simp (contains-append_if)

  contains-check_mode :
      (reasons : List GateReason)
      → contains r (check_mode c reasons) ≡ (
          contains r reasons || added GateReason.mode_disabled || added GateReason.live_not_enabled)
  unfolding check_mode
  contains-check_mode reasons = ground (
    arith,
    contains-append_if r GateReason.mode_disabled true reasons,
    contains-append_if r GateReason.live_not_enabled
        (c.trading_mode is TradingMode.live && not c.live_trading_enabled) reasons,
  )

  contains-check_account_identity :
      (reasons : List GateReason)
      → contains r (check_account_identity c ctx reasons) ≡ (
          contains r reasons
          || added GateReason.account_type_unknown
          || added GateReason.account_mismatch_expected_live
          || added GateReason.account_mismatch_expected_paper
          || added GateReason.account_mismatch_expected_simulated)
  unfolding check_account_identity
  contains-check_account_identity reasons = ground (
    arith,
    contains-append_if r GateReason.account_type_unknown true reasons,
    contains-append_if r GateReason.account_mismatch_expected_live
        (not (ctx.broker_account_type is AccountType.live)) reasons,
    contains-append_if r GateReason.account_mismatch_expected_paper
        (not (ctx.broker_account_type is AccountType.paper)) reasons,
    contains-append_if r GateReason.account_mismatch_expected_simulated
        (not (ctx.broker_account_type is AccountType.simulated)) reasons,
  )

  contains-check_application_readiness :
      (reasons : List GateReason)
      → contains r (check_application_readiness ctx reasons) ≡ (
          contains r reasons
          || added GateReason.app_not_ready
          || added GateReason.broker_not_connected
          || added GateReason.account_unavailable)
  unfolding check_application_readiness
  contains-check_application_readiness reasons = simp (contains-append_if)

  contains-check_contract :
      (reasons : List GateReason)
      → contains r (check_contract ctx reasons) ≡ (
          contains r reasons
          || added GateReason.contract_not_qualified
          || added GateReason.contract_is_continuous)
  unfolding check_contract
  contains-check_contract reasons = simp (contains-append_if)

  contains-check_reconciliation :
      (reasons : List GateReason)
      → contains r (check_reconciliation ctx reasons) ≡ (
          contains r reasons
          || added GateReason.positions_not_reconciled
          || added GateReason.orders_not_reconciled)
  unfolding check_reconciliation
  contains-check_reconciliation reasons = simp (contains-append_if)

  contains-check_age :
      (reasons : List GateReason)
      → contains r (check_age c.market_data_max_age_seconds ctx.market_data_age_seconds reasons) ≡ (
          contains r reasons
          || added GateReason.market_data_unavailable
          || added GateReason.market_data_timestamp_in_future
          || added GateReason.market_data_stale)
  unfolding check_age
  contains-check_age reasons = ground (
    arith,
    contains-append_if r GateReason.market_data_unavailable true reasons,
    contains-append_if r GateReason.market_data_timestamp_in_future true reasons,
    contains-append_if r GateReason.market_data_stale
        (is_age_stale c.market_data_max_age_seconds ctx.market_data_age_seconds) reasons,
  )

  contains-check_market_data :
      (reasons : List GateReason)
      → contains r (check_market_data c ctx reasons) ≡ (
          contains r reasons
          || added GateReason.market_data_age_not_configured
          || added GateReason.market_data_delayed
          || added GateReason.market_data_unavailable
          || added GateReason.market_data_timestamp_in_future
          || added GateReason.market_data_stale)
  unfolding check_market_data
  contains-check_market_data reasons = simp (contains-check_age, contains-append_if)

  contains-check_permissions :
      (reasons : List GateReason)
      → contains r (check_permissions c ctx reasons) ≡ (
          contains r reasons
          || added GateReason.permission_config_not_ready
          || added GateReason.permission_broker_not_ready)
  unfolding check_permissions
  contains-check_permissions reasons = simp (contains-append_if)

  contains-check_strategy_and_risk :
      (reasons : List GateReason)
      → contains r (check_strategy_and_risk c ctx reasons) ≡ (
          contains r reasons
          || added GateReason.strategy_disabled
          || added GateReason.risk_not_approved)
  unfolding check_strategy_and_risk
  contains-check_strategy_and_risk reasons = simp (contains-append_if)

ruleset check_laws = (
  contains-check_master_switches, contains-check_mode, contains-check_account_identity,
  contains-check_application_readiness, contains-check_contract, contains-check_reconciliation,
  contains-check_market_data, contains-check_permissions, contains-check_strategy_and_risk,
  and-true, and-false, or-false,
)

contains-collect_reasons :
    (c : Config) (ctx : GateContext) (r : GateReason)
    → contains r (collect_reasons c ctx) ≡ fails c ctx r
unfolding collect_reasons
contains-collect_reasons c ctx GateReason.kill_switch = simp check_laws
contains-collect_reasons c ctx GateReason.account_mismatch_expected_live = simp check_laws
contains-collect_reasons c ctx _ = simp check_laws

-- A reason is in the decision exactly when the interlock that it names is broken: no failing
-- interlock goes unreported, and none is reported that holds.
pub evaluate-interlocks :
    (c : Config) (ctx : GateContext) (r : GateReason)
    → contains r (evaluate c ctx).reasons ≡ fails c ctx r
unfolding evaluate
evaluate-interlocks c ctx r = contains-collect_reasons c ctx r
