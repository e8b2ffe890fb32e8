-- ===== src/Config/Environment.antt =====
-- app/config.py: the configuration from the environment, in the order in which the source reads it.
-- A number that its minimum keeps from being negative is a natural number from there on.
use pgjp_trading.Prelude.{
  ◌&&◌, ◌||◌, String, Bool, not, Option, none, some, List, [], ◌∷◌, if◌then◌else◌, Result, ok, err,
  refuse, ◌>>=◌, ◌==◌, true, false,
}
use pgjp_trading.Prelude.Int.{ℤ, pos, ltb_ℤ, leb_ℤ, eqb_ℤ, pos_part}
use pgjp_trading.Decimal.{Decimal, zero_decimal, lt_decimal}
use pgjp_trading.Enums.Parsing.{parse, trading_modes}
use pgjp_trading.Texts.{len, take, drop}
use pgjp_trading.Config.{
  RiskLimits, IbkrConfig, ReconnectPolicy, ConfigError, TradingMode, Config, validate,
}
use pgjp_trading.Config.Parsing.{
  Library, Environment, parse_int, parse_decimal, parse_float, parse_str, parse_bool, is_literal,
  raw,
}

-- `RiskLimits.from_env`
unfoldable pub risk_from_env : Library → Environment → Result ConfigError RiskLimits
risk_from_env l env = do
  position ← parse_int l env "MAX_POSITION_CONTRACTS" (pos 0) (pos 0) none
  size ← parse_int l env "MAX_ORDER_SIZE" (pos 0) (pos 0) none
  loss ← parse_decimal l env "MAX_DAILY_LOSS_USD" zero_decimal zero_decimal
  orders ← parse_int l env "MAX_ORDERS_PER_HOUR" (pos 0) (pos 0) none
  working ← parse_int l env "MAX_OPEN_ORDERS" (pos 0) (pos 0) none
  notional ← parse_decimal l env "MAX_NOTIONAL_EXPOSURE_USD" zero_decimal zero_decimal
  ok (record {
    max_position_contracts = position;
    max_order_size = size;
    max_daily_loss_usd = loss;
    max_orders_per_hour = orders;
    max_open_orders = working;
    max_notional_exposure_usd = notional;
  })

-- `IBKRConfig.from_env`
unfoldable pub ibkr_from_env : Library → Environment → Result ConfigError IbkrConfig
ibkr_from_env l env = do
  paper ← parse_int l env "IB_PAPER_PORT" (pos 4002) (pos 1) (some (pos 65535))
  live ← parse_int l env "IB_LIVE_PORT" (pos 4001) (pos 1) (some (pos 65535))
  refuse (eqb_ℤ paper live) ConfigError.equal_ports (do
    client ← parse_int l env "IB_CLIENT_ID" (pos 10) (pos 0) (some (pos 2147483647))
    admin ← parse_int l env "IB_ADMIN_CLIENT_ID" (pos 110) (pos 0) (some (pos 2147483647))
    refuse (eqb_ℤ client admin) ConfigError.equal_client_ids (do
      timeout ←
          parse_float ltb_ℤ l l.seconds env "IB_CONNECT_TIMEOUT_SECONDS" (pos 15000000)
            (pos 1000000)
      ok (record {
        host = parse_str l env "IB_HOST" "127.0.0.1";
        paper_port = pos_part paper;
        live_port = pos_part live;
        client_id = pos_part client;
        admin_client_id = pos_part admin;
        connect_timeout_seconds = timeout;
      })))

abbrev pub one : Decimal
one = record { coefficient = pos 1; places = 0 }

abbrev two : Decimal
two = record { coefficient = pos 2; places = 0 }

-- `ReconnectPolicy.from_env`
unfoldable pub reconnect_from_env : Library → Environment → Result ConfigError ReconnectPolicy
reconnect_from_env l env = do
  initial ← parse_float ltb_ℤ l l.seconds env "RECONNECT_INITIAL_SECONDS" (pos 2000000) (pos 100000)
  maximum ← parse_float ltb_ℤ l l.seconds env "RECONNECT_MAX_SECONDS" (pos 300000000) (pos 100000)
  refuse (ltb_ℤ maximum initial) ConfigError.maximum_below_initial (do
    multiplier ← parse_float lt_decimal l l.factor env "RECONNECT_MULTIPLIER" two one
    attempts ← parse_int l env "RECONNECT_MAX_ATTEMPTS" (pos 0) (pos 0) none
    ok (record {
      initial_seconds = pos_part initial;
      max_seconds = pos_part maximum;
      multiplier = multiplier;
      max_attempts = pos_part attempts;
    }))

-- `low <= n <= high`
abbrev pub is_between : ℤ → ℤ → ℤ → Bool
is_between low high n = leb_ℤ low n && leb_ℤ n high

-- `int(text)` where a `ValueError` passes, and a test of the number.
abbrev pub check_part : (ℤ → Bool) → Option ℤ → Result ConfigError Unit → Result ConfigError Unit
check_part test none rest = err ConfigError.value_error
check_part test (some n) rest = refuse (not (test n)) ConfigError.bad_contract_month rest

abbrev pub read_both : Option ℤ → Option ℤ → Result ConfigError Unit → Result ConfigError Unit
read_both none month rest = err ConfigError.value_error
read_both (some year) none rest = err ConfigError.value_error
read_both (some year) (some month) rest =
    refuse (not (is_between (pos 2000) (pos 2100) year)) ConfigError.bad_contract_month
      (refuse (not (is_between (pos 1) (pos 12) month)) ConfigError.bad_contract_month rest)

-- `_validate_contract_month`. Both numbers are read before the first test.
unfoldable pub validate_contract_month : Library → String → Result ConfigError Unit
validate_contract_month l value =
    refuse (not (l.is_digit value) || not (len value == 6 || len value == 8))
      ConfigError.bad_contract_month
      (read_both (l.int (take 4 value)) (l.int (drop 4 (take 6 value))) (
        if len value == 8
        then check_part (is_between (pos 1) (pos 31)) (l.int (drop 6 (take 8 value))) (ok tt)
        else ok tt))

abbrev pub valid_levels : List String
valid_levels = "CRITICAL" ∷ "ERROR" ∷ "WARNING" ∷ "INFO" ∷ "DEBUG" ∷ []

abbrev pub valid_formats : List String
valid_formats = "json" ∷ "text" ∷ []

abbrev pub supported_symbols : List String
supported_symbols = "MSL" ∷ "SOL" ∷ []

-- What `Config.from_env` reads and checks before it builds the value.
pub record Heading : Type 0 where
  pub trading_mode : TradingMode
  pub symbol : String
  pub log_level : String
  pub log_format : String
  pub contract_month : Option String

abbrev pub mode_or_error : Option TradingMode → Result ConfigError TradingMode
mode_or_error none = err ConfigError.unknown_mode
mode_or_error (some mode) = ok mode

abbrev pub check_month : Library → Option String → Result ConfigError Unit
check_month l none = ok tt
check_month l (some month) = validate_contract_month l month

unfoldable pub read_heading : Library → Environment → Result ConfigError Heading
read_heading l env =
    let symbol = l.upper (parse_str l env "DEFAULT_FUTURES_SYMBOL" "MSL") in
    let log_level = l.upper (parse_str l env "LOG_LEVEL" "INFO") in
    let log_format = l.lower (parse_str l env "LOG_FORMAT" "json") in
    mode_or_error (parse l.strip l.lower trading_modes (parse_str l env "TRADING_MODE" "disabled"))
    >>= λ mode. refuse (not (is_literal supported_symbols symbol)) ConfigError.unsupported_symbol (
        refuse (not (is_literal valid_levels log_level)) ConfigError.bad_log_level (
          refuse (not (is_literal valid_formats log_format)) ConfigError.bad_log_format (
            check_month l (raw l env "DEFAULT_CONTRACT_MONTH") >>= λ _. ok (record {
              trading_mode = mode;
              symbol = symbol;
              log_level = log_level;
              log_format = log_format;
              contract_month = raw l env "DEFAULT_CONTRACT_MONTH";
            }))))

abbrev pub validated : Config → Option ConfigError → Result ConfigError Config
validated c none = ok c
validated c (some e) = err e

-- The switches, which the source reads first among those that may be refused.
pub record Switches : Type 0 where
  pub allow_order_transmit : Bool
  pub live_trading_enabled : Bool
  pub kill_switch : Bool
  pub sol_futures_permission_ready : Bool

unfoldable pub read_switches : Library → Environment → Result ConfigError Switches
read_switches l env = do
  allow ← parse_bool l env "ALLOW_ORDER_TRANSMIT" false
  live ← parse_bool l env "LIVE_TRADING_ENABLED" false
  kill ← parse_bool l env "KILL_SWITCH" true
  permission ← parse_bool l env "SOL_FUTURES_PERMISSION_READY" false
  ok (record {
    allow_order_transmit = allow;
    live_trading_enabled = live;
    kill_switch = kill;
    sol_futures_permission_ready = permission;
  })

-- The value that `Config.from_env` builds.
abbrev pub configured :
    Library
    → Environment
    → Heading
    → Switches
    → IbkrConfig
    → ReconnectPolicy
    → RiskLimits
    → (max_age poll interval : ℤ) → (enabled : Bool) → (max_bytes backups port : ℤ) → Config
configured l env h s ibkr reconnect risk max_age poll interval enabled max_bytes backups port =
    record {
      app_env = parse_str l env "APP_ENV" "production";
      trading_mode = h.trading_mode;
      allow_order_transmit = s.allow_order_transmit;
      live_trading_enabled = s.live_trading_enabled;
      kill_switch = s.kill_switch;
      sol_futures_permission_ready = s.sol_futures_permission_ready;
      ibkr = ibkr;
      reconnect = reconnect;
      default_futures_symbol = h.symbol;
      default_exchange = l.upper (parse_str l env "DEFAULT_EXCHANGE" "CME");
      default_currency = l.upper (parse_str l env "DEFAULT_CURRENCY" "USD");
      default_contract_month = h.contract_month;
      risk = risk;
      market_data_max_age_seconds = max_age;
      market_data_poll_interval_seconds = poll;
      reconcile_interval_seconds = interval;
      strategy_name = l.lower (parse_str l env "STRATEGY_NAME" "noop");
      strategy_enabled = enabled;
      database_path = parse_str l env "DATABASE_PATH" "/app/data/trading.db";
      log_dir = parse_str l env "LOG_DIR" "/app/logs";
      log_level = h.log_level;
      log_format = h.log_format;
      log_max_bytes = max_bytes;
      log_backup_count = backups;
      health_host = parse_str l env "HEALTH_HOST" "127.0.0.1";
      health_port = port;
      git_commit = parse_str l env "GIT_COMMIT" "unknown";
      build_timestamp = parse_str l env "BUILD_TIMESTAMP" "unknown";
    }

-- `Config.from_env`
unfoldable pub from_env : Library → Environment → Result ConfigError Config
from_env l env = do
  h ← read_heading l env
  s ← read_switches l env
  ibkr ← ibkr_from_env l env
  reconnect ← reconnect_from_env l env
  risk ← risk_from_env l env
  max_age ← parse_float ltb_ℤ l l.seconds env "MARKET_DATA_MAX_AGE_SECONDS" (pos 0) (pos 0)
  poll ←
      parse_float ltb_ℤ l l.seconds env "MARKET_DATA_POLL_INTERVAL_SECONDS" (pos 1000000)
        (pos 50000)
  interval ← parse_float ltb_ℤ l l.seconds env "RECONCILE_INTERVAL_SECONDS" (pos 300000000) (pos 0)
  enabled ← parse_bool l env "STRATEGY_ENABLED" true
  max_bytes ← parse_int l env "LOG_MAX_BYTES" (pos 10485760) (pos 1024) none
  backups ← parse_int l env "LOG_BACKUP_COUNT" (pos 10) (pos 1) none
  port ← parse_int l env "HEALTH_PORT" (pos 8787) (pos 0) (some (pos 65535))
  let config =
      configured l env h s ibkr reconnect risk max_age poll interval enabled max_bytes backups port
  validated config (validate config)
