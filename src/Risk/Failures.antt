-- ===== src/Risk/Failures.antt =====
-- app/risk/manager.py and app/risk/limits.py: when the control that a reason names fails.
use pgjp_trading.Prelude.{
  Bool, true, false, not, ◌&&◌, ◌||◌, Option, none, some, ◌is◌, is_none, if◌then◌else◌,
}
use pgjp_trading.Prelude.Int.{ℤ, pos, nat_abs, ltb_ℤ, leb_ℤ}
use pgjp_trading.Decimal.{Decimal, zero_decimal, lt_decimal, le_decimal, neg_decimal}
use pgjp_trading.Enums.{
  TradingMode, AccountType, ConnectionState, ApplicationState, trading_mode_enumeration,
  account_type_enumeration, connection_state_enumeration, application_state_enumeration,
}
use pgjp_trading.Config.{Config, uses_ibkr}
use pgjp_trading.Contract.{QualifiedContract, notional}
use pgjp_trading.Gate.{expected_account_type}
use pgjp_trading.Risk.Reason.{RiskReason, risk_reason_enumeration}
use pgjp_trading.Risk.{RiskContext, projected_position}

-- Readings of the market data, the account, the contract and the exposure.
abbrev pub is_age_in_future : Option ℤ → Bool
is_age_in_future none = false
is_age_in_future (some age) = ltb_ℤ age (pos 0)

abbrev pub is_age_stale : ℤ → Option ℤ → Bool
is_age_stale max_age none = false
is_age_stale max_age (some age) = leb_ℤ (pos 0) age && ltb_ℤ (pos 0) max_age && ltb_ℤ max_age age

abbrev pub is_other_account : Option AccountType → AccountType → Bool
is_other_account none observed = false
is_other_account (some expected) observed =
    not (observed is AccountType.unknown) && not (observed is expected)

abbrev pub is_unqualified : Option QualifiedContract → Bool
is_unqualified none = true
is_unqualified (some contract) = leb_ℤ contract.con_id (pos 0)

abbrev pub is_unpriceable : Option QualifiedContract → Option Decimal → Bool
is_unpriceable none price = true
is_unpriceable (some contract) none = true
is_unpriceable (some contract) (some price) = le_decimal price zero_decimal

abbrev pub is_above : Decimal → Option Decimal → Bool
is_above ceiling none = false
is_above ceiling (some exposure) = lt_decimal ceiling exposure

-- The exposure that is compared: none where it has no price.
abbrev pub exposure_at : Option QualifiedContract → ℤ → Option Decimal → Option Decimal
exposure_at none position price = none
exposure_at (some contract) position none = none
exposure_at (some contract) position (some price) =
    if le_decimal price zero_decimal then none else notional contract position price

-- Whether the control that a reason names fails, read off the configuration and the context.
abbrev pub fails : Config → RiskContext → RiskReason → Bool
fails c ctx RiskReason.kill_switch = ctx.kill_switch_engaged || c.kill_switch
fails c ctx RiskReason.trading_mode_disabled = c.trading_mode is TradingMode.disabled
fails c ctx RiskReason.transmit_not_allowed = not c.allow_order_transmit
fails c ctx RiskReason.broker_disconnected = not (ctx.connection_state is ConnectionState.connected)
fails c ctx RiskReason.app_not_ready = not (ctx.app_state is ApplicationState.ready)
fails c ctx RiskReason.account_unavailable = not ctx.account_available
fails c ctx RiskReason.account_type_unknown = ctx.account_type is AccountType.unknown
fails c ctx RiskReason.account_type_mismatch =
    is_other_account (expected_account_type c.trading_mode) ctx.account_type
fails c ctx RiskReason.positions_not_reconciled = not ctx.positions_reconciled
fails c ctx RiskReason.orders_not_reconciled = not ctx.open_orders_reconciled
fails c ctx RiskReason.contract_not_qualified = is_unqualified ctx.contract
fails c ctx RiskReason.contract_continuous = false
fails c ctx RiskReason.market_data_missing = is_none ctx.market_data_age_seconds
fails c ctx RiskReason.market_data_stale =
    is_age_stale c.market_data_max_age_seconds ctx.market_data_age_seconds
fails c ctx RiskReason.market_data_age_not_configured = leb_ℤ c.market_data_max_age_seconds (pos 0)
fails c ctx RiskReason.market_data_future = is_age_in_future ctx.market_data_age_seconds
fails c ctx RiskReason.permission_not_ready = uses_ibkr c && not c.sol_futures_permission_ready
fails c ctx RiskReason.broker_permission_unknown = not ctx.broker_permission_ready
fails c ctx RiskReason.strategy_disabled = not (c.strategy_enabled && ctx.strategy_enabled)
fails c ctx RiskReason.duplicate_order = ctx.duplicate_order_exists
fails c ctx RiskReason.quantity_invalid = leb_ℤ ctx.order_quantity (pos 0)
fails c ctx RiskReason.order_size_not_configured = leb_ℤ c.risk.max_order_size (pos 0)
fails c ctx RiskReason.order_size_exceeded =
    ltb_ℤ (pos 0) c.risk.max_order_size
    && ltb_ℤ c.risk.max_order_size (pos (nat_abs ctx.order_quantity))
fails c ctx RiskReason.position_not_configured = leb_ℤ c.risk.max_position_contracts (pos 0)
fails c ctx RiskReason.position_exceeded =
    ltb_ℤ (pos 0) c.risk.max_position_contracts
    && ltb_ℤ c.risk.max_position_contracts (pos (nat_abs (projected_position ctx)))
fails c ctx RiskReason.daily_loss_not_configured = le_decimal c.risk.max_daily_loss_usd zero_decimal
fails c ctx RiskReason.daily_loss_exceeded =
    not (le_decimal c.risk.max_daily_loss_usd zero_decimal)
    && le_decimal ctx.daily_pnl (neg_decimal c.risk.max_daily_loss_usd)
fails c ctx RiskReason.orders_per_hour_not_configured = leb_ℤ c.risk.max_orders_per_hour (pos 0)
fails c ctx RiskReason.orders_per_hour_exceeded =
    ltb_ℤ (pos 0) c.risk.max_orders_per_hour
    && leb_ℤ c.risk.max_orders_per_hour ctx.orders_last_hour
fails c ctx RiskReason.open_orders_not_configured = leb_ℤ c.risk.max_open_orders (pos 0)
fails c ctx RiskReason.open_orders_exceeded =
    ltb_ℤ (pos 0) c.risk.max_open_orders && leb_ℤ c.risk.max_open_orders ctx.open_orders_count
fails c ctx RiskReason.notional_not_configured =
    le_decimal c.risk.max_notional_exposure_usd zero_decimal
fails c ctx RiskReason.notional_unpriceable =
    not (le_decimal c.risk.max_notional_exposure_usd zero_decimal)
    && is_unpriceable ctx.contract ctx.reference_price
fails c ctx RiskReason.notional_exceeded =
    not (le_decimal c.risk.max_notional_exposure_usd zero_decimal)
    && not (is_unpriceable ctx.contract ctx.reference_price)
    && is_above c.risk.max_notional_exposure_usd
        (exposure_at ctx.contract (projected_position ctx) ctx.reference_price)
