-- ===== src/Risk/Conditions.antt =====
-- app/risk/manager.py and app/risk/limits.py: what an approved order keeps to, stated without the
-- manager's checks.
use pgjp_trading.Prelude.{◌≡◌, ◌≢◌, ◌⊎◌, true, false, Option, none, some}
use pgjp_trading.Prelude.Int.{ℤ, pos, nat_abs, ◌≤ℤ◌, ◌<ℤ◌}
use pgjp_trading.Decimal.{Decimal, zero_decimal, lt_decimal, le_decimal, neg_decimal}
use pgjp_trading.Enums.{TradingMode, AccountType, ConnectionState, ApplicationState}
use pgjp_trading.Config.{Config}
use pgjp_trading.Contract.{QualifiedContract, notional}
use pgjp_trading.Risk.Reason.{risk_reason_enumeration}
use pgjp_trading.Risk.{RiskContext, projected_position}
use pgjp_trading.Gate.{expected_account_type}

-- The projected exposure has a price, and lies within the ceiling.
abbrev pub IsAffordable : Decimal → Option QualifiedContract → ℤ → Option Decimal → Type 0
IsAffordable ceiling none position price = ⊥
IsAffordable ceiling (some contract) position none = ⊥
IsAffordable ceiling (some contract) position (some price) =
    (lt_decimal zero_decimal price ≡ true)
    × ((exposure : Decimal)
        → notional contract position price ≡ some exposure
        → le_decimal exposure ceiling ≡ true)

-- Every numeric limit is set, and the order keeps to it.
pub record WithinLimits (c : Config) (ctx : RiskContext) : Type 0 where
  pub quantity_positive : pos 0 <ℤ ctx.order_quantity
  pub size_set : pos 0 <ℤ c.risk.max_order_size
  pub size_kept : ctx.order_quantity ≤ℤ c.risk.max_order_size
  pub position_set : pos 0 <ℤ c.risk.max_position_contracts
  pub position_kept : pos (nat_abs (projected_position ctx)) ≤ℤ c.risk.max_position_contracts
  pub loss_set : lt_decimal zero_decimal c.risk.max_daily_loss_usd ≡ true
  pub loss_kept : lt_decimal (neg_decimal c.risk.max_daily_loss_usd) ctx.daily_pnl ≡ true
  pub rate_set : pos 0 <ℤ c.risk.max_orders_per_hour
  pub rate_kept : ctx.orders_last_hour <ℤ c.risk.max_orders_per_hour
  pub open_set : pos 0 <ℤ c.risk.max_open_orders
  pub open_kept : ctx.open_orders_count <ℤ c.risk.max_open_orders
  pub exposure_set : lt_decimal zero_decimal c.risk.max_notional_exposure_usd ≡ true
  pub exposure_kept :
      IsAffordable c.risk.max_notional_exposure_usd ctx.contract
        (projected_position ctx)
        ctx.reference_price

-- The market data has an age, not below zero and at most the configured one.
abbrev pub IsRecent : ℤ → Option ℤ → Type 0
IsRecent max_age none = ⊥
IsRecent max_age (some age) = (pos 0 ≤ℤ age) × (age ≤ℤ max_age)

-- The contract is known, with a positive contract id.
abbrev pub IsQualified : Option QualifiedContract → Type 0
IsQualified none = ⊥
IsQualified (some contract) = pos 0 <ℤ contract.con_id

-- The account is known, and is the one that the mode trades where it trades one.
abbrev pub IsAccount : Option AccountType → AccountType → Type 0
IsAccount none observed = observed ≢ AccountType.unknown
IsAccount (some expected) observed = (observed ≢ AccountType.unknown) × (observed ≡ expected)

-- The controls that are not numeric limits.
pub record WithinControls (c : Config) (ctx : RiskContext) : Type 0 where
  pub switch_off : ctx.kill_switch_engaged ≡ false
  pub configured_switch_off : c.kill_switch ≡ false
  pub transmit_allowed : c.allow_order_transmit ≡ true
  pub mode_enabled : c.trading_mode ≢ TradingMode.disabled
  pub strategy_configured : c.strategy_enabled ≡ true
  pub strategy_on : ctx.strategy_enabled ≡ true
  pub ready : ctx.app_state ≡ ApplicationState.ready
  pub connected : ctx.connection_state ≡ ConnectionState.connected
  pub positions_reconciled : ctx.positions_reconciled ≡ true
  pub orders_reconciled : ctx.open_orders_reconciled ≡ true
  pub account_available : ctx.account_available ≡ true
  pub account : IsAccount (expected_account_type c.trading_mode) ctx.account_type
  pub qualified : IsQualified ctx.contract
  pub age_set : pos 0 <ℤ c.market_data_max_age_seconds
  pub recent : IsRecent c.market_data_max_age_seconds ctx.market_data_age_seconds
  pub permission_declared :
      (c.trading_mode ≡ TradingMode.paper) ⊎ (c.trading_mode ≡ TradingMode.live)
      → c.sol_futures_permission_ready ≡ true
  pub permission_at_broker : ctx.broker_permission_ready ≡ true
  pub no_duplicate : ctx.duplicate_order_exists ≡ false
