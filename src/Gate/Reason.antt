-- ===== src/Gate/Reason.antt =====
-- app/safety/gate.py: the REASON_ constants.
use pgjp_trading.Prelude.{String, Enumeration}

pub data GateReason : Type 0 where
  kill_switch : GateReason
  transmit_not_allowed : GateReason
  mode_disabled : GateReason
  live_not_enabled : GateReason
  account_type_unknown : GateReason
  account_mismatch_expected_live : GateReason
  account_mismatch_expected_paper : GateReason
  account_mismatch_expected_simulated : GateReason
  app_not_ready : GateReason
  broker_not_connected : GateReason
  contract_not_qualified : GateReason
  contract_is_continuous : GateReason
  account_unavailable : GateReason
  positions_not_reconciled : GateReason
  orders_not_reconciled : GateReason
  market_data_unavailable : GateReason
  market_data_stale : GateReason
  market_data_timestamp_in_future : GateReason
  market_data_age_not_configured : GateReason
  market_data_delayed : GateReason
  permission_config_not_ready : GateReason
  permission_broker_not_ready : GateReason
  strategy_disabled : GateReason
  risk_not_approved : GateReason

instance abbrev pub gate_reason_enumeration : Enumeration GateReason
gate_reason_enumeration = record {
  index = elim [
    | kill_switch ↦ 0
    | transmit_not_allowed ↦ 1
    | mode_disabled ↦ 2
    | live_not_enabled ↦ 3
    | account_type_unknown ↦ 4
    | account_mismatch_expected_live ↦ 5
    | account_mismatch_expected_paper ↦ 6
    | account_mismatch_expected_simulated ↦ 7
    | app_not_ready ↦ 8
    | broker_not_connected ↦ 9
    | contract_not_qualified ↦ 10
    | contract_is_continuous ↦ 11
    | account_unavailable ↦ 12
    | positions_not_reconciled ↦ 13
    | orders_not_reconciled ↦ 14
    | market_data_unavailable ↦ 15
    | market_data_stale ↦ 16
    | market_data_timestamp_in_future ↦ 17
    | market_data_age_not_configured ↦ 18
    | market_data_delayed ↦ 19
    | permission_config_not_ready ↦ 20
    | permission_broker_not_ready ↦ 21
    | strategy_disabled ↦ 22
    | risk_not_approved ↦ 23
  ];
}

-- The constant's value, which is what is persisted with a blocked order.
unfoldable pub gate_reason_text : GateReason → String
gate_reason_text kill_switch = "KILL_SWITCH_ENGAGED"
gate_reason_text transmit_not_allowed = "ORDER_TRANSMIT_NOT_ALLOWED"
gate_reason_text mode_disabled = "TRADING_MODE_DISABLED"
gate_reason_text live_not_enabled = "LIVE_TRADING_NOT_ENABLED"
gate_reason_text account_type_unknown = "BROKER_ACCOUNT_TYPE_UNKNOWN"
gate_reason_text account_mismatch_expected_live = "ACCOUNT_TYPE_MISMATCH_EXPECTED_LIVE"
gate_reason_text account_mismatch_expected_paper = "ACCOUNT_TYPE_MISMATCH_EXPECTED_PAPER"
gate_reason_text account_mismatch_expected_simulated = "ACCOUNT_TYPE_MISMATCH_EXPECTED_SIMULATED"
gate_reason_text app_not_ready = "APPLICATION_NOT_READY"
gate_reason_text broker_not_connected = "BROKER_NOT_CONNECTED"
gate_reason_text contract_not_qualified = "CONTRACT_NOT_QUALIFIED"
gate_reason_text contract_is_continuous = "CONTRACT_IS_CONTINUOUS_FUTURE"
gate_reason_text account_unavailable = "ACCOUNT_DATA_UNAVAILABLE"
gate_reason_text positions_not_reconciled = "POSITIONS_NOT_RECONCILED"
gate_reason_text orders_not_reconciled = "OPEN_ORDERS_NOT_RECONCILED"
gate_reason_text market_data_unavailable = "MARKET_DATA_UNAVAILABLE"
gate_reason_text market_data_stale = "MARKET_DATA_STALE"
gate_reason_text market_data_timestamp_in_future = "MARKET_DATA_TIMESTAMP_IN_FUTURE"
gate_reason_text market_data_age_not_configured = "MARKET_DATA_MAX_AGE_NOT_CONFIGURED"
gate_reason_text market_data_delayed = "MARKET_DATA_IS_DELAYED"
gate_reason_text permission_config_not_ready = "SOL_FUTURES_PERMISSION_NOT_CONFIGURED_READY"
gate_reason_text permission_broker_not_ready = "TRADING_PERMISSION_UNAVAILABLE_AT_BROKER"
gate_reason_text strategy_disabled = "STRATEGY_DISABLED"
gate_reason_text risk_not_approved = "RISK_CHECKS_NOT_PASSED"
