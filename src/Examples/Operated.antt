-- ===== src/Examples/Operated.antt =====
-- The theorems on an operator's order at concrete inputs.
use pgjp_trading.Prelude.{◌≡◌, refl, false, none, some, []}
use pgjp_trading.Prelude.Int.{pos, ◌-ℤ◌}
use pgjp_trading.Enums.{OrderType, ApplicationState}
use pgjp_trading.Validator
use pgjp_trading.Validator.{seed_seen}
use pgjp_trading.Risk.Examples.{approval, approves}
use pgjp_trading.Repository.{open_orders, count_since}
use pgjp_trading.Positions.{quantity}
use pgjp_trading.Keyed.{set_all}
use pgjp_trading.Repository.{open_order_tuples}
use pgjp_trading.Positions.{replace_all}
use pgjp_trading.Reconciliation.{
  sort_keys, reconcile, compare_positions, compare_keys, by_id, compare_orders, compare_snapshots,
  compare_locals,
}
use pgjp_trading.OrderManager.{submit_intent, delta_to_side_and_quantity}
use pgjp_trading.Application.{
  TradingApplication, BrokerReply, ConnectReply, no_result, connect_with_backoff, after_connect,
  run_reconciliation, ingest_fills, compute_ready_state,
}
use pgjp_trading.Application.Contexts.{build_gate_context, broker_permission_ready}
use pgjp_trading.Application.Intents.{handle_intent, trade, submission_for, build_risk_context}
use pgjp_trading.OperatorOrder.{
  OperatorOrderRequest, Outside, direction, operator_intent, submission_readings, preview_risk,
}
use pgjp_trading.OperatorOrder.Confirmed.{connected}
use pgjp_trading.Samples.{contract}
use pgjp_trading.Examples.Submissions.{manager, submission, store, validator, readings, ready_app}
use pgjp_trading.Prelude.{Option, subst, sym, ◌<◌, some, none}
use pgjp_trading.Risk.{RiskDecision}
use pgjp_trading.Intent.{SignalError, check_intent}
use pgjp_trading.OrderManager.Approvals.{requests}
use pgjp_trading.OperatorOrder.{decided, asked, planned, with_contract, run, place_operator_order}
use pgjp_trading.OperatorOrder.Confirmed.{
  requests-report_outcome, OnlyConnects, IsSent, place_operator_order-IsSent,
  place_operator_order-unconfirmed,
}
use pgjp_trading.Examples.Submissions.{request_added}

-- Two contracts at the market, confirmed.
abbrev purchase : OperatorOrderRequest
purchase = record {
  target_position = pos 2;
  order_type = OrderType.market;
  limit_price = none;
  confirm = some "MSLH6";
}

-- A broker without positions or orders, which answers everything but the order.
abbrev outside : Outside
outside = record {
  connect = ConnectReply.connected;
  reconciled_at = pos 900000;
  account = ready_app.account;
  answers = BrokerReply.read (record { positions = []; open_orders = []; fills = [] });
  resolved = some contract;
  engaged = false;
  known_intent_ids = [];
  intent_id = "int_1";
  correlation_id = "cor_1";
  created_at = pos 1000000;
  contract_key = λ c. "conid:900000001";
  preview = readings;
  submission = readings;
  await_order_status = λ id. none;
  status_at = pos 3000000;
  last_reconciled_at = pos 3000000;
  last_account = none;
  last_answers = BrokerReply.failed "";
}

-- The application as it starts.
abbrev fresh_app : TradingApplication
fresh_app = record ready_app {
  state = ApplicationState.starting;
  reconciliation = no_result [];
  account = none;
  contract = none;
}

abbrev ready : TradingApplication
ready = (connected manager outside fresh_app).1

is_ready : ready ≡ ready_app
unfolding after_connect run_reconciliation connect_with_backoff compute_ready_state ingest_fills
    reconcile compare_positions compare_keys sort_keys by_id set_all compare_orders
    compare_snapshots compare_locals open_order_tuples replace_all
is_ready = refl

decision : preview_risk manager outside purchase contract ready_app store ≡ some approval
unfolding preview_risk build_risk_context direction delta_to_side_and_quantity quantity open_orders
    count_since broker_permission_ready ◌-ℤ◌
decision = approves

-- The pipeline is given the submission of the other examples.
submitted :
    (handle_intent manager validator
      (submission_readings outside purchase)
      (operator_intent outside purchase contract)
      ready_app
      (seed_seen [] [], store)).2
    ≡ (submit_intent manager submission store).1
unfolding handle_intent trade submission_for build_risk_context build_gate_context direction
    seed_seen broker_permission_ready delta_to_side_and_quantity quantity open_orders count_since
    Validator.validate Validator.collect_reasons Validator.check_duplicate Validator.check_position
    Validator.check_age Validator.check_strategy Validator.check_symbol ◌-ℤ◌
submitted = refl

sends_when_decided :
    (o : Option RiskDecision)
    → o ≡ some approval
    → 0 < requests (decided manager validator outside purchase contract ready_app store o).2.trace
sends_when_decided (some risk) e =
    subst (λ n. 0 < n)
      (sym (
        requests-report_outcome outside
          (asked manager validator outside (operator_intent outside purchase contract) ready_app
            risk)
          ready_app _ _))
      (subst (λ t. 0 < requests t.trace) (sym submitted) request_added)
sends_when_decided none e = cc

is_built : check_intent (operator_intent outside purchase contract) ≡ none
unfolding check_intent direction
is_built = refl

sends :
    0 < requests (place_operator_order manager validator outside purchase fresh_app store).2.trace
unfolding place_operator_order run connect_with_backoff after_connect
sends =
    subst
      (λ app.
        0
        < requests
            (with_contract manager validator outside purchase app store app.contract).2.trace)
      (sym is_ready) now_sends
  where
    planned_sends :
        (o : Option SignalError)
        → o ≡ none
        → 0
          < requests (planned manager validator outside purchase contract ready_app store o).2.trace
    planned_sends none e = sends_when_decided _ decision
    planned_sends (some x) e = cc

    now_sends :
        0
        < requests
            (with_contract manager validator outside purchase ready_app store
              (some contract)).2.trace
    now_sends = planned_sends _ is_built

place_operator_order-IsSent_example : IsSent manager validator outside purchase fresh_app
place_operator_order-IsSent_example =
    place_operator_order-IsSent manager validator outside purchase fresh_app store sends

-- Without a confirmation.
place_operator_order-unconfirmed_example : OnlyConnects manager outside fresh_app store (
    place_operator_order manager validator outside
      (record purchase { confirm = none })
      fresh_app
      store)
place_operator_order-unconfirmed_example =
    place_operator_order-unconfirmed manager validator outside (record purchase { confirm = none })
      fresh_app store (λ c e. refl)
