-- ===== src/Risk/Reason.antt =====
-- app/risk/manager.py and app/risk/limits.py: the REASON_ constants.
use pgjp_trading.Prelude.{String, Enumeration}

pub data RiskReason : Type 0 where
  kill_switch : RiskReason
  trading_mode_disabled : RiskReason
  transmit_not_allowed : RiskReason
  broker_disconnected : RiskReason
  app_not_ready : RiskReason
  account_unavailable : RiskReason
  account_type_unknown : RiskReason
  account_type_mismatch : RiskReason
  positions_not_reconciled : RiskReason
  orders_not_reconciled : RiskReason
  contract_not_qualified : RiskReason
  contract_continuous : RiskReason
  market_data_missing : RiskReason
  market_data_stale : RiskReason
  market_data_age_not_configured : RiskReason
  market_data_future : RiskReason
  permission_not_ready : RiskReason
  broker_permission_unknown : RiskReason
  strategy_disabled : RiskReason
  duplicate_order : RiskReason
  quantity_invalid : RiskReason
  order_size_not_configured : RiskReason
  order_size_exceeded : RiskReason
  position_not_configured : RiskReason
  position_exceeded : RiskReason
  daily_loss_not_configured : RiskReason
  daily_loss_exceeded : RiskReason
  orders_per_hour_not_configured : RiskReason
  orders_per_hour_exceeded : RiskReason
  open_orders_not_configured : RiskReason
  open_orders_exceeded : RiskReason
  notional_not_configured : RiskReason
  notional_exceeded : RiskReason
  notional_unpriceable : RiskReason

instance abbrev pub risk_reason_enumeration : Enumeration RiskReason
risk_reason_enumeration = record {
  index = elim [
    | kill_switch ↦ 0
    | trading_mode_disabled ↦ 1
    | transmit_not_allowed ↦ 2
    | broker_disconnected ↦ 3
    | app_not_ready ↦ 4
    | account_unavailable ↦ 5
    | account_type_unknown ↦ 6
    | account_type_mismatch ↦ 7
    | positions_not_reconciled ↦ 8
    | orders_not_reconciled ↦ 9
    | contract_not_qualified ↦ 10
    | contract_continuous ↦ 11
    | market_data_missing ↦ 12
    | market_data_stale ↦ 13
    | market_data_age_not_configured ↦ 14
    | market_data_future ↦ 15
    | permission_not_ready ↦ 16
    | broker_permission_unknown ↦ 17
    | strategy_disabled ↦ 18
    | duplicate_order ↦ 19
    | quantity_invalid ↦ 20
    | order_size_not_configured ↦ 21
    | order_size_exceeded ↦ 22
    | position_not_configured ↦ 23
    | position_exceeded ↦ 24
    | daily_loss_not_configured ↦ 25
    | daily_loss_exceeded ↦ 26
    | orders_per_hour_not_configured ↦ 27
    | orders_per_hour_exceeded ↦ 28
    | open_orders_not_configured ↦ 29
    | open_orders_exceeded ↦ 30
    | notional_not_configured ↦ 31
    | notional_exceeded ↦ 32
    | notional_unpriceable ↦ 33
  ];
}

-- The constant's value, which is what is persisted with a blocked order.
unfoldable pub risk_reason_text : RiskReason → String
risk_reason_text kill_switch = "KILL_SWITCH_ENGAGED"
risk_reason_text trading_mode_disabled = "TRADING_MODE_DISABLED"
risk_reason_text transmit_not_allowed = "ORDER_TRANSMIT_NOT_ALLOWED"
risk_reason_text broker_disconnected = "BROKER_NOT_CONNECTED"
risk_reason_text app_not_ready = "APPLICATION_NOT_READY"
risk_reason_text account_unavailable = "ACCOUNT_DATA_UNAVAILABLE"
risk_reason_text account_type_unknown = "BROKER_ACCOUNT_TYPE_UNKNOWN"
risk_reason_text account_type_mismatch = "TRADING_MODE_ACCOUNT_TYPE_MISMATCH"
risk_reason_text positions_not_reconciled = "POSITIONS_NOT_RECONCILED"
risk_reason_text orders_not_reconciled = "OPEN_ORDERS_NOT_RECONCILED"
risk_reason_text contract_not_qualified = "CONTRACT_NOT_QUALIFIED"
risk_reason_text contract_continuous = "CONTRACT_IS_CONTINUOUS_FUTURE"
risk_reason_text market_data_missing = "MARKET_DATA_UNAVAILABLE"
risk_reason_text market_data_stale = "MARKET_DATA_STALE"
risk_reason_text market_data_age_not_configured = "MARKET_DATA_MAX_AGE_NOT_CONFIGURED"
risk_reason_text market_data_future = "MARKET_DATA_TIMESTAMP_IN_FUTURE"
risk_reason_text permission_not_ready = "SOL_FUTURES_PERMISSION_NOT_READY"
risk_reason_text broker_permission_unknown = "TRADING_PERMISSION_UNAVAILABLE_AT_BROKER"
risk_reason_text strategy_disabled = "STRATEGY_DISABLED"
risk_reason_text duplicate_order = "DUPLICATE_ORDER_FOR_SIGNAL"
risk_reason_text quantity_invalid = "ORDER_QUANTITY_INVALID"
risk_reason_text order_size_not_configured = "MAX_ORDER_SIZE_NOT_CONFIGURED"
risk_reason_text order_size_exceeded = "MAX_ORDER_SIZE_EXCEEDED"
risk_reason_text position_not_configured = "MAX_POSITION_CONTRACTS_NOT_CONFIGURED"
risk_reason_text position_exceeded = "MAX_POSITION_CONTRACTS_EXCEEDED"
risk_reason_text daily_loss_not_configured = "MAX_DAILY_LOSS_USD_NOT_CONFIGURED"
risk_reason_text daily_loss_exceeded = "MAX_DAILY_LOSS_USD_EXCEEDED"
risk_reason_text orders_per_hour_not_configured = "MAX_ORDERS_PER_HOUR_NOT_CONFIGURED"
risk_reason_text orders_per_hour_exceeded = "MAX_ORDERS_PER_HOUR_EXCEEDED"
risk_reason_text open_orders_not_configured = "MAX_OPEN_ORDERS_NOT_CONFIGURED"
risk_reason_text open_orders_exceeded = "MAX_OPEN_ORDERS_EXCEEDED"
risk_reason_text notional_not_configured = "MAX_NOTIONAL_EXPOSURE_USD_NOT_CONFIGURED"
risk_reason_text notional_exceeded = "MAX_NOTIONAL_EXPOSURE_USD_EXCEEDED"
risk_reason_text notional_unpriceable = "NOTIONAL_EXPOSURE_NOT_COMPUTABLE"
