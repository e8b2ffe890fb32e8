-- ===== src/Posture.antt =====
-- app/safety/posture.py: whether the running process is in the approved state. The detail texts are
-- left out. A limit is read as its value: its text and the parsing of that text are left out.
pub mod Approved
use pgjp_trading.Prelude.{
  String, Bool, true, false, not, ◌&&◌, List, [], ◌∷◌, map, filter, any, all, str_eq, ◌is◌,
}
use pgjp_trading.Prelude.Int.{ℤ, pos, eqb_ℤ}
use pgjp_trading.Decimal.{is_zero_decimal}
use pgjp_trading.Enums.{TradingMode, trading_mode_enumeration}
use pgjp_trading.Config.{Config}

pub record PostureCheck : Type 0 where
  pub name : String
  pub ok : Bool

abbrev pub expected_check_names : List String
expected_check_names =
    "TRADING_MODE" ∷ "ALLOW_ORDER_TRANSMIT" ∷ "LIVE_TRADING_ENABLED" ∷ "KILL_SWITCH"
    ∷ "SOL_FUTURES_PERMISSION_READY" ∷ "MAX_POSITION_CONTRACTS" ∷ "MAX_ORDER_SIZE"
    ∷ "MAX_DAILY_LOSS_USD" ∷ "MAX_ORDERS_PER_HOUR" ∷ "MAX_OPEN_ORDERS" ∷ "MAX_NOTIONAL_EXPOSURE_USD"
    ∷ "CAN_TRANSMIT_LIVE_ORDERS" ∷ []

abbrev check : String → Bool → PostureCheck
check name ok = record { name = name; ok = ok }

-- `actual == expected`, for the expected value False.
abbrev is_off : Bool → Bool
is_off actual = not actual

-- `can_transmit`
abbrev pub can_transmit : Config → Bool → Bool
can_transmit c engaged =
    c.trading_mode is TradingMode.live
    && c.live_trading_enabled
    && c.allow_order_transmit
    && not engaged

-- `evaluate_posture`
unfoldable pub evaluate_posture : Config → Bool → List PostureCheck
evaluate_posture c kill_switch_engaged =
    check "TRADING_MODE" (c.trading_mode is TradingMode.mock)
    ∷ check "ALLOW_ORDER_TRANSMIT" (is_off c.allow_order_transmit)
    ∷ check "LIVE_TRADING_ENABLED" (is_off c.live_trading_enabled)
    ∷ check "KILL_SWITCH" kill_switch_engaged
    ∷ check "SOL_FUTURES_PERMISSION_READY" (is_off c.sol_futures_permission_ready)
    ∷ check "MAX_POSITION_CONTRACTS" (eqb_ℤ c.risk.max_position_contracts (pos 0))
    ∷ check "MAX_ORDER_SIZE" (eqb_ℤ c.risk.max_order_size (pos 0))
    ∷ check "MAX_DAILY_LOSS_USD" (is_zero_decimal c.risk.max_daily_loss_usd)
    ∷ check "MAX_ORDERS_PER_HOUR" (eqb_ℤ c.risk.max_orders_per_hour (pos 0))
    ∷ check "MAX_OPEN_ORDERS" (eqb_ℤ c.risk.max_open_orders (pos 0))
    ∷ check "MAX_NOTIONAL_EXPOSURE_USD" (is_zero_decimal c.risk.max_notional_exposure_usd)
    ∷ check "CAN_TRANSMIT_LIVE_ORDERS" (not (can_transmit c kill_switch_engaged))
    ∷ []

abbrev pub has_name : String → List String → Bool
has_name name names = any (λ n. str_eq n name) names

-- Whether the names of one list are all in another.
abbrev pub are_within : List String → List String → Bool
are_within names others = all (λ n. has_name n others) names

abbrev pub names_of : List PostureCheck → List String
names_of checks = map (λ (k : PostureCheck). k.name) checks

-- `posture_is_approved`
unfoldable pub posture_is_approved : List PostureCheck → Bool
posture_is_approved checks =
    are_within (names_of checks) expected_check_names
    && are_within expected_check_names (names_of checks)
    && all (λ (k : PostureCheck). k.ok) checks

-- `failing_checks`
unfoldable pub failing_checks : List PostureCheck → List PostureCheck
failing_checks checks = filter (λ (k : PostureCheck). not k.ok) checks
