-- ===== src/Config.antt =====
-- app/config.py: the configuration and its cross-field validation. Seconds, which the source holds as
-- floats, are whole microseconds, and paths are their texts. The children read it from the environment.
pub mod Parsing
pub mod Environment
pub mod Ranges
pub mod Safe
pub mod Explicit
use pgjp_trading.Prelude.{
  ℕ, ◌-◌, ◌*◌, ◌^◌, String, Bool, not, ◌&&◌, Option, none, some, List, [], ◌∷◌, any, ◌is◌,
  if◌then◌else◌, ltb, str_eq,
}
use pgjp_trading.Prelude.Int.{ℤ, pos, ltb_ℤ}
use pgjp_trading.Decimal.{Decimal, lt_decimal, zero_decimal}
use pgjp_trading.Enums.{TradingMode, trading_mode_enumeration}
use pgjp_trading.Enums

pub record RiskLimits : Type 0 where
  pub max_position_contracts : ℤ
  pub max_order_size : ℤ
  pub max_daily_loss_usd : Decimal
  pub max_orders_per_hour : ℤ
  pub max_open_orders : ℤ
  pub max_notional_exposure_usd : Decimal

-- `RiskLimits.all_configured`
unfoldable pub all_configured : RiskLimits → Bool
all_configured l =
    ltb_ℤ (pos 0) l.max_position_contracts
    && ltb_ℤ (pos 0) l.max_order_size
    && lt_decimal zero_decimal l.max_daily_loss_usd
    && ltb_ℤ (pos 0) l.max_orders_per_hour
    && ltb_ℤ (pos 0) l.max_open_orders
    && lt_decimal zero_decimal l.max_notional_exposure_usd

pub record IbkrConfig : Type 0 where
  pub host : String
  pub paper_port : ℕ
  pub live_port : ℕ
  pub client_id : ℕ
  pub admin_client_id : ℕ
  pub connect_timeout_seconds : ℤ

-- Seconds as whole microseconds, and the exact value of the multiplier.
pub record ReconnectPolicy : Type 0 where
  pub initial_seconds : ℕ
  pub max_seconds : ℕ
  pub multiplier : Decimal
  pub max_attempts : ℕ

pub record Config : Type 0 where
  pub app_env : String
  pub trading_mode : TradingMode
  pub allow_order_transmit : Bool
  pub live_trading_enabled : Bool
  pub kill_switch : Bool
  pub sol_futures_permission_ready : Bool
  pub ibkr : IbkrConfig
  pub reconnect : ReconnectPolicy
  pub default_futures_symbol : String
  pub default_exchange : String
  pub default_currency : String
  pub default_contract_month : Option String
  pub risk : RiskLimits
  pub market_data_max_age_seconds : ℤ
  pub market_data_poll_interval_seconds : ℤ
  pub reconcile_interval_seconds : ℤ
  pub strategy_name : String
  pub strategy_enabled : Bool
  pub database_path : String
  pub log_dir : String
  pub log_level : String
  pub log_format : String
  pub log_max_bytes : ℤ
  pub log_backup_count : ℤ
  pub health_host : String
  pub health_port : ℤ
  pub git_commit : String
  pub build_timestamp : String

-- `Config.ib_port`
unfoldable pub ib_port : Config → Option ℕ
ib_port c =
    if c.trading_mode is TradingMode.paper
    then some c.ibkr.paper_port
    else if c.trading_mode is TradingMode.live
    then some c.ibkr.live_port
    else none

-- `Config.uses_ibkr`
abbrev pub uses_ibkr : Config → Bool
uses_ibkr c = Enums.uses_ibkr c.trading_mode

-- `value_error` is a `ValueError` of `int` that `_validate_contract_month` lets pass.
pub data ConfigError : Type 0 where
  live_enabled_without_live_mode live_mode_without_live_enabled bad_health_host : ConfigError
  not_boolean not_integer not_decimal not_number not_finite : String → ConfigError
  below_minimum above_maximum : String → ConfigError
  equal_ports equal_client_ids maximum_below_initial : ConfigError
  unknown_mode unsupported_symbol bad_log_level bad_log_format bad_contract_month : ConfigError
  value_error : ConfigError

abbrev allowed_hosts : List String
allowed_hosts = "127.0.0.1" ∷ "::1" ∷ "localhost" ∷ "0.0.0.0" ∷ []

-- `Config.validate`: the error that it raises, or none.
unfoldable pub validate : Config → Option ConfigError
validate c =
    if c.live_trading_enabled && not (c.trading_mode is TradingMode.live)
    then some ConfigError.live_enabled_without_live_mode
    else if c.trading_mode is TradingMode.live && not c.live_trading_enabled
    then some ConfigError.live_mode_without_live_enabled
    else if not (any (str_eq c.health_host) allowed_hosts)
    then some ConfigError.bad_health_host
    else none
