-- ===== src/Examples/Configured.antt =====
-- The theorems on the configuration and on the parsing of enumerations at concrete inputs.
use pgjp_trading.Prelude.{
  String, true, some, none, ◌≡◌, ◌↔◌, refl, ok, arith, str_eq, eq_iff, if◌then◌else◌, inl, inr,
}
use pgjp_trading.Prelude.Int.{pos}
use pgjp_trading.Decimal.{zero_decimal}
use pgjp_trading.Enums.{TradingMode, OrderSide}
use pgjp_trading.Enums.Parsing.{parse, order_sides, AreValues, parse-value_iff}
use pgjp_trading.Config.{Config, validate}
use pgjp_trading.Config.Parsing.{
  Library, Environment, Number, raw, parse_bool, parse_int, parse_decimal, parse_float, parse_str,
}
use pgjp_trading.Config.Environment.{
  from_env, read_heading, read_switches, ibkr_from_env, reconnect_from_env, risk_from_env,
  validate_contract_month,
}
use pgjp_trading.Config.Safe.{IsSafe, from_env-IsSafe}
use pgjp_trading.Config.Explicit.{IsExplicit, switches_of, from_env-IsExplicit}
use pgjp_trading.Samples.{armed}

-- Readings of plain texts, where "2026" and "03" are the only numbers.
abbrev library : Library
library = record {
  strip = λ s. s;
  lower = λ s. s;
  upper = λ s. s;
  is_digit = λ s. true;
  int = λ s.
      if str_eq s "2026" then some (pos 2026) else if str_eq s "03" then some (pos 3) else none;
  decimal = λ s. Number.refused;
  seconds = λ s. Number.refused;
  factor = λ s. Number.refused;
}

-- Transmission is allowed, and a month is chosen.
abbrev environment : Environment
environment name =
    if str_eq name "ALLOW_ORDER_TRANSMIT"
    then some "yes"
    else if str_eq name "DEFAULT_CONTRACT_MONTH"
    then some "202603"
    else none

abbrev loaded : Config
loaded = record armed {
  trading_mode = TradingMode.disabled;
  kill_switch = true;
  risk = record {
    max_position_contracts = pos 0;
    max_order_size = pos 0;
    max_daily_loss_usd = zero_decimal;
    max_orders_per_hour = pos 0;
    max_open_orders = pos 0;
    max_notional_exposure_usd = zero_decimal;
  };
  market_data_max_age_seconds = pos 0;
}

is_loaded : from_env library environment ≡ ok loaded
unfolding from_env read_heading read_switches ibkr_from_env reconnect_from_env risk_from_env
    validate_contract_month validate raw parse_bool parse_int parse_decimal parse_float parse_str
    parse
is_loaded = refl

from_env-IsSafe_example : IsSafe library loaded
from_env-IsSafe_example = from_env-IsSafe library environment loaded is_loaded

from_env-IsExplicit_example : IsExplicit library environment (switches_of loaded)
from_env-IsExplicit_example = from_env-IsExplicit library environment loaded is_loaded

abbrev lower : String → String
lower s = if str_eq s "BUY" then "buy" else if str_eq s "SELL" then "sell" else s

sides-AreValues : AreValues (λ s. s) lower order_sides
sides-AreValues = record { bare = λ a. refl; distinct = apart }
  where
    apart : (a b : OrderSide) → lower (order_sides.value a) ≡ lower (order_sides.value b) → a ≡ b
    apart OrderSide.buy OrderSide.buy h = refl
    apart OrderSide.buy OrderSide.sell h = ground (arith, h, eq_iff "buy" "sell")
    apart OrderSide.sell OrderSide.buy h = ground (arith, h, eq_iff "sell" "buy")
    apart OrderSide.sell OrderSide.sell h = refl

parse-value_iff_example :
    ((text : String)
      → (parse (λ s. s) lower order_sides text ≡ some OrderSide.sell) ↔ (lower "SELL" ≡ lower text))
    × (parse (λ s. s) lower order_sides "SELL" ≡ some OrderSide.sell)
parse-value_iff_example =
    parse-value_iff (λ s. s) lower order_sides OrderSide.sell sides-AreValues (inr (inl refl))
