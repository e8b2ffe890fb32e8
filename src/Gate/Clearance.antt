-- ===== src/Gate/Clearance.antt =====
-- app/safety/gate.py: the condition for transmission, stated without the gate's checks.
use pgjp_trading.Prelude.{
  ◌≡◌, ◌↔◌, ◌⊎◌, ap, true, false, Option, none, some, [], arith, contains, not_contains_nil, sym,
  ◌∙◌,
}
use pgjp_trading.Prelude.Int.{ℤ, pos, ◌≤ℤ◌, ◌<ℤ◌}
use pgjp_trading.Enums.{TradingMode, ConnectionState, ApplicationState}
use pgjp_trading.Config.{Config}
use pgjp_trading.Gate.Reason.{GateReason, gate_reason_enumeration}
use pgjp_trading.Gate.{GateContext, expected_account_type, evaluate}
use pgjp_trading.Gate.Interlocks.{fails, evaluate-interlocks}

-- The last tick is neither missing, nor from the future, nor older than the configured age.
abbrev pub IsFresh : ℤ → Option ℤ → Type 0
IsFresh max_age none = ⊥
IsFresh max_age (some age) = (pos 0 ≤ℤ age) × (age ≤ℤ max_age)

-- Everything that must hold before an order may be transmitted.
pub record Clearance (c : Config) (ctx : GateContext) : Type 0 where
  pub kill_switch_off : c.kill_switch ≡ false
  pub transmit_allowed : c.allow_order_transmit ≡ true
  pub live_enabled : c.trading_mode ≡ TradingMode.live → c.live_trading_enabled ≡ true
  pub account_expected : expected_account_type c.trading_mode ≡ some ctx.broker_account_type
  pub ready : ctx.app_state ≡ ApplicationState.ready
  pub connected : ctx.connection_state ≡ ConnectionState.connected
  pub account_available : ctx.account_available ≡ true
  pub qualified : ctx.contract_qualified ≡ true
  pub dated : ctx.contract_is_continuous ≡ false
  pub positions_reconciled : ctx.positions_reconciled ≡ true
  pub orders_reconciled : ctx.open_orders_reconciled ≡ true
  pub age_configured : pos 0 <ℤ c.market_data_max_age_seconds
  pub fresh : IsFresh c.market_data_max_age_seconds ctx.market_data_age_seconds
  pub real_time : ctx.market_data_is_delayed ≡ false
  pub permission_declared :
      (c.trading_mode ≡ TradingMode.paper) ⊎ (c.trading_mode ≡ TradingMode.live)
      → c.sol_futures_permission_ready ≡ true
  pub permission_at_broker : ctx.broker_permission_ready ≡ true
  pub strategy_configured : c.strategy_enabled ≡ true
  pub strategy_on : ctx.strategy_enabled ≡ true
  pub risk_approved : ctx.risk_approved ≡ true

allowed-eq_nil :
    (c : Config) (ctx : GateContext)
    → (evaluate c ctx).allowed ≡ true
    → (evaluate c ctx).reasons ≡ []
unfolding evaluate
allowed-eq_nil c ctx h = ground arith

nil-allowed :
    (c : Config) (ctx : GateContext)
    → (evaluate c ctx).reasons ≡ []
    → (evaluate c ctx).allowed ≡ true
unfolding evaluate
nil-allowed c ctx h = ground arith

allowed-holds :
    (c : Config) (ctx : GateContext)
    → (evaluate c ctx).allowed ≡ true
    → (r : GateReason) → fails c ctx r ≡ false
allowed-holds c ctx h r =
    sym (evaluate-interlocks c ctx r) ∙ ap (contains r) (allowed-eq_nil c ctx h)

holds-allowed :
    (c : Config) (ctx : GateContext)
    → ((r : GateReason) → fails c ctx r ≡ false)
    → (evaluate c ctx).allowed ≡ true
holds-allowed c ctx h =
    nil-allowed c ctx (not_contains_nil _ (λ r. evaluate-interlocks c ctx r ∙ h r))

module _ (c : Config) (ctx : GateContext) where
  account_of_holds :
      ((r : GateReason) → fails c ctx r ≡ false)
      → expected_account_type c.trading_mode ≡ some ctx.broker_account_type
  account_of_holds h = ground (
    arith,
    h GateReason.mode_disabled,
    h GateReason.account_type_unknown,
    h GateReason.account_mismatch_expected_live,
    h GateReason.account_mismatch_expected_paper,
    h GateReason.account_mismatch_expected_simulated,
  )

  IsFresh-of_holds :
      ((r : GateReason) → fails c ctx r ≡ false)
      → IsFresh c.market_data_max_age_seconds ctx.market_data_age_seconds
  IsFresh-of_holds h = ground (
    arith,
    h GateReason.market_data_age_not_configured,
    h GateReason.market_data_unavailable,
    h GateReason.market_data_stale,
    h GateReason.market_data_timestamp_in_future,
  )

  Clearance-of_holds : ((r : GateReason) → fails c ctx r ≡ false) → Clearance c ctx
  Clearance-of_holds h = record {
    kill_switch_off = h GateReason.kill_switch;
    transmit_allowed = ground (arith, h GateReason.transmit_not_allowed);
    live_enabled = λ e. ground (arith, h GateReason.live_not_enabled);
    account_expected = account_of_holds h;
    ready = ground (arith, h GateReason.app_not_ready);
    connected = ground (arith, h GateReason.broker_not_connected);
    account_available = ground (arith, h GateReason.account_unavailable);
    qualified = ground (arith, h GateReason.contract_not_qualified);
    dated = h GateReason.contract_is_continuous;
    positions_reconciled = ground (arith, h GateReason.positions_not_reconciled);
    orders_reconciled = ground (arith, h GateReason.orders_not_reconciled);
    age_configured = ground (arith, h GateReason.market_data_age_not_configured);
    fresh = IsFresh-of_holds h;
    real_time = h GateReason.market_data_delayed;
    permission_declared = λ e. ground (arith, h GateReason.permission_config_not_ready);
    permission_at_broker = ground (arith, h GateReason.permission_broker_not_ready);
    strategy_configured = ground (arith, h GateReason.strategy_disabled);
    strategy_on = ground (arith, h GateReason.strategy_disabled);
    risk_approved = ground (arith, h GateReason.risk_not_approved);
  }

  holds_of_Clearance : Clearance c ctx → (r : GateReason) → fails c ctx r ≡ false
  holds_of_Clearance v GateReason.kill_switch = v.kill_switch_off
  holds_of_Clearance v GateReason.account_mismatch_expected_live = ground arith
  holds_of_Clearance v _ = ground arith

-- The gate allows transmission if and only if every interlock is satisfied: the kill switch is off and
-- transmission is allowed, the account that the broker reports is the one that the mode may trade,
-- live mode is enabled, the application is READY, connected and reconciled, the contract is qualified
-- and dated, the tick is real-time and fresh under a configured age, permission and strategy are on,
-- and risk approved.
pub evaluate-allowed_iff :
    (c : Config) (ctx : GateContext) → ((evaluate c ctx).allowed ≡ true) ↔ Clearance c ctx
evaluate-allowed_iff c ctx = (
  λ h. Clearance-of_holds c ctx (allowed-holds c ctx h),
  λ v. holds-allowed c ctx (holds_of_Clearance c ctx v),
)
