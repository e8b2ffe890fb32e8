-- ===== src/Risk/Limits.antt =====
-- app/risk/limits.py: a numeric check returns the reason to reject, or none.
use pgjp_trading.Prelude.{Option, none, some, List, [], append_if, if◌then◌else◌}
use pgjp_trading.Prelude.Int.{ℤ, pos, nat_abs, ltb_ℤ, leb_ℤ}
use pgjp_trading.Decimal.{Decimal, zero_decimal, lt_decimal, le_decimal, neg_decimal}
use pgjp_trading.Config.{RiskLimits}
use pgjp_trading.Contract.{QualifiedContract, notional}
use pgjp_trading.Risk.Reason.{RiskReason, risk_reason_enumeration}

unfoldable pub check_order_size : RiskLimits → ℤ → Option RiskReason
check_order_size l quantity =
    if leb_ℤ l.max_order_size (pos 0)
    then some RiskReason.order_size_not_configured
    else if ltb_ℤ l.max_order_size (pos (nat_abs quantity))
    then some RiskReason.order_size_exceeded
    else none

unfoldable pub check_position_size : RiskLimits → ℤ → Option RiskReason
check_position_size l projected_position =
    if leb_ℤ l.max_position_contracts (pos 0)
    then some RiskReason.position_not_configured
    else if ltb_ℤ l.max_position_contracts (pos (nat_abs projected_position))
    then some RiskReason.position_exceeded
    else none

unfoldable pub check_daily_loss : RiskLimits → Decimal → Option RiskReason
check_daily_loss l daily_pnl =
    if le_decimal l.max_daily_loss_usd zero_decimal
    then some RiskReason.daily_loss_not_configured
    else if le_decimal daily_pnl (neg_decimal l.max_daily_loss_usd)
    then some RiskReason.daily_loss_exceeded
    else none

unfoldable pub check_orders_per_hour : RiskLimits → ℤ → Option RiskReason
check_orders_per_hour l orders_last_hour =
    if leb_ℤ l.max_orders_per_hour (pos 0)
    then some RiskReason.orders_per_hour_not_configured
    else if leb_ℤ l.max_orders_per_hour orders_last_hour
    then some RiskReason.orders_per_hour_exceeded
    else none

unfoldable pub check_open_orders : RiskLimits → ℤ → Option RiskReason
check_open_orders l open_orders =
    if leb_ℤ l.max_open_orders (pos 0)
    then some RiskReason.open_orders_not_configured
    else if leb_ℤ l.max_open_orders open_orders
    then some RiskReason.open_orders_exceeded
    else none

-- The comparison of an exposure that was computed; none passes the `ContractError` on.
compare_exposure : RiskLimits → Option Decimal → Option (Option RiskReason)
compare_exposure l none = none
compare_exposure l (some exposure) = some (
    if lt_decimal l.max_notional_exposure_usd exposure
    then some RiskReason.notional_exceeded
    else none)

price_exposure :
    RiskLimits → Option QualifiedContract → ℤ → Option Decimal → Option (Option RiskReason)
unfolding compare_exposure
price_exposure l none position price = some (some RiskReason.notional_unpriceable)
price_exposure l (some contract) position none = some (some RiskReason.notional_unpriceable)
price_exposure l (some contract) position (some price) =
    if le_decimal price zero_decimal
    then some (some RiskReason.notional_unpriceable)
    else compare_exposure l (notional contract position price)

-- none is the `ContractError` that a contract with no numeric multiplier raises.
unfoldable pub check_notional_exposure :
    RiskLimits → Option QualifiedContract → ℤ → Option Decimal → Option (Option RiskReason)
unfolding price_exposure
check_notional_exposure l contract projected_position reference_price =
    if le_decimal l.max_notional_exposure_usd zero_decimal
    then some (some RiskReason.notional_not_configured)
    else price_exposure l contract projected_position reference_price

unfoldable pub unconfigured_limits : RiskLimits → List RiskReason
unconfigured_limits l =
    append_if (le_decimal l.max_notional_exposure_usd zero_decimal)
      RiskReason.notional_not_configured
      (append_if (leb_ℤ l.max_open_orders (pos 0)) RiskReason.open_orders_not_configured (
        append_if (leb_ℤ l.max_orders_per_hour (pos 0)) RiskReason.orders_per_hour_not_configured (
          append_if (le_decimal l.max_daily_loss_usd zero_decimal)
            RiskReason.daily_loss_not_configured
            (append_if (leb_ℤ l.max_position_contracts (pos 0)) RiskReason.position_not_configured (
              append_if (leb_ℤ l.max_order_size (pos 0)) RiskReason.order_size_not_configured
                [])))))
