-- ===== src/Samples.antt =====
-- Sample values that the examples of several components share.
use pgjp_trading.Prelude.{true, false, none, some}
use pgjp_trading.Prelude.Int.{pos}
use pgjp_trading.Decimal.{zero_decimal, of_int}
use pgjp_trading.Enums.{
  TradingMode, AccountType, ConnectionState, ApplicationState, OrderSide, SecurityType, Direction,
}
use pgjp_trading.Config.{Config, RiskLimits}
use pgjp_trading.Contract.{QualifiedContract}
use pgjp_trading.Intent.{TradeIntent}
use pgjp_trading.Gate.{GateContext}
use pgjp_trading.Risk.{RiskContext}

abbrev pub limits : RiskLimits
limits = record {
  max_position_contracts = pos 5;
  max_order_size = pos 3;
  max_daily_loss_usd = of_int (pos 500);
  max_orders_per_hour = pos 10;
  max_open_orders = pos 4;
  max_notional_exposure_usd = of_int (pos 100000);
}

-- Mock mode with transmission allowed and every limit set.
abbrev pub armed : Config
armed = record {
  app_env = "production";
  trading_mode = TradingMode.mock;
  allow_order_transmit = true;
  live_trading_enabled = false;
  kill_switch = false;
  sol_futures_permission_ready = false;
  ibkr = record {
    host = "127.0.0.1";
    paper_port = 4002;
    live_port = 4001;
    client_id = 10;
    admin_client_id = 110;
    connect_timeout_seconds = pos 15000000;
  };
  reconnect = record {
    initial_seconds = 2000000;
    max_seconds = 300000000;
    multiplier = record { coefficient = pos 2; places = 0 };
    max_attempts = 0;
  };
  default_futures_symbol = "MSL";
  default_exchange = "CME";
  default_currency = "USD";
  default_contract_month = some "202603";
  risk = limits;
  market_data_max_age_seconds = pos 5000000;
  market_data_poll_interval_seconds = pos 1000000;
  reconcile_interval_seconds = pos 300000000;
  strategy_name = "noop";
  strategy_enabled = true;
  database_path = "/app/data/trading.db";
  log_dir = "/app/logs";
  log_level = "INFO";
  log_format = "json";
  log_max_bytes = pos 10485760;
  log_backup_count = pos 10;
  health_host = "127.0.0.1";
  health_port = pos 8787;
  git_commit = "unknown";
  build_timestamp = "unknown";
}

abbrev pub contract : QualifiedContract
contract = record {
  con_id = pos 900000001;
  symbol = "MSL";
  local_symbol = "MSLH6";
  sec_type = SecurityType.future;
  exchange = "CME";
  currency = "USD";
  expiration = "202603";
  multiplier = some (of_int (pos 25));
  min_tick = record { coefficient = pos 5; places = 2 };
}

abbrev pub intent : TradeIntent
intent = record {
  strategy_name = "operator";
  symbol = "MSL";
  direction = Direction.long;
  requested_position = pos 2;
  created_at = pos 1000000;
  intent_id = "int_1";
  correlation_id = some "cor_1";
  confidence = none;
  contract_key = some "conid:900000001";
}

abbrev pub risk_context : RiskContext
risk_context = record {
  intent = intent;
  order_side = OrderSide.buy;
  order_quantity = pos 2;
  current_position = pos 0;
  contract = some contract;
  reference_price = some (of_int (pos 150));
  market_data_age_seconds = some (pos 1000000);
  daily_pnl = zero_decimal;
  open_orders_count = pos 0;
  orders_last_hour = pos 0;
  app_state = ApplicationState.ready;
  connection_state = ConnectionState.connected;
  account_type = AccountType.simulated;
  account_available = true;
  positions_reconciled = true;
  open_orders_reconciled = true;
  broker_permission_ready = true;
  strategy_enabled = true;
  kill_switch_engaged = false;
  duplicate_order_exists = false;
}

abbrev pub gate_context : GateContext
gate_context = record {
  app_state = ApplicationState.ready;
  connection_state = ConnectionState.connected;
  broker_account_type = AccountType.simulated;
  contract_qualified = true;
  contract_is_continuous = false;
  account_available = true;
  positions_reconciled = true;
  open_orders_reconciled = true;
  market_data_age_seconds = some (pos 1000000);
  market_data_is_delayed = false;
  broker_permission_ready = true;
  strategy_enabled = true;
  risk_approved = true;
}
