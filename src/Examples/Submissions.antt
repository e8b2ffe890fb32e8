-- ===== src/Examples/Submissions.antt =====
-- The theorems on orders and on their submission at concrete inputs.
use pgjp_trading.Prelude.{
  ℕ, ◌≡◌, ◌≤◌, ◌<◌, ◌↔◌, refl, true, false, none, some, List, [], ◌∷◌, arith, err,
}
use pgjp_trading.Prelude.Int.{◌-ℤ◌, pos, ◌+ℤ◌, ◌*ℤ◌, ◌≤ℤ◌}
use pgjp_trading.Decimal.{of_int, zero_decimal}
use pgjp_trading.Intent.{key_parts}
use pgjp_trading.Enums.{
  ApplicationState, AccountType, ConnectionState, OrderType, OrderStatus, TimeInForce, sign,
}
use pgjp_trading.Order.{
  Order, OrderError, fresh_order, was_transmitted, require_transmittable_type, validate,
}
use pgjp_trading.Order.Fills.{Fill, IsFilledTo, apply_fills, apply_fills-total, apply_fills-over}
use pgjp_trading.Broker.{BrokerError, PlaceReply, OrderRequest}
use pgjp_trading.Gate.Clearance.{Clearance}
use pgjp_trading.Repository.{get_by_idempotency_key}
use pgjp_trading.Risk.Conditions.{WithinControls, WithinLimits}
use pgjp_trading.Risk.Examples.{approval, approves}
use pgjp_trading.OrderManager.{
  Manager, Submission, Store, Event, delta_to_side_and_quantity, submit_intent,
}
use pgjp_trading.OrderManager.Pipeline.{idempotency_key, terms}
use pgjp_trading.OrderManager.Trace.{sends_of}
use pgjp_trading.OrderManager.Once.{submit_all, empty_store, submit_all-once}
use pgjp_trading.OrderManager.Approvals.{requests, submit_intent-approved}
use pgjp_trading.OrderManager.Durable.{crashing, IsRecorded, submit_intent-IsRecorded}
use pgjp_trading.OrderManager.Replay.{last_request, IsWellFormed, submit_intent-replay}
use pgjp_trading.OrderManager.Delta.{delta_to_side_and_quantity-exact}
use pgjp_trading.Validator
use pgjp_trading.Validator.{SignalValidator}
use pgjp_trading.Repository.{open_orders, count_since}
use pgjp_trading.Positions.{quantity}
use pgjp_trading.Application.{TradingApplication, no_result}
use pgjp_trading.Application.Contexts.{build_gate_context, broker_permission_ready}
use pgjp_trading.Application.Intents.{
  Readings, build_risk_context, submission_for, trade, handle_intent, handle_intent-approved,
}
use pgjp_trading.Examples.Decisions.{cleared}
use pgjp_trading.Samples.{armed, contract, intent, risk_context, gate_context}

abbrev pub manager : Manager
manager = record { config = armed; run_id = "run_1"; digest = λ parts. parts.intent_id }

-- A market order for two contracts, which the broker fails to take.
abbrev pub submission : Submission
submission = record {
  intent = intent;
  contract = contract;
  risk_context = risk_context;
  gate_context = gate_context;
  order_type = OrderType.market;
  limit_price = none;
  time_in_force = TimeInForce.day;
  now = pos 2000000;
  later = pos 2500000;
  internal_order_id = "ord_1";
  place_order = λ r. PlaceReply.raised BrokerError.timeout_error "no answer";
}

submit_all-once_example :
    sends_of "int_1" (submit_all manager (submission ∷ submission ∷ []) empty_store).trace ≤ 1
submit_all-once_example = submit_all-once manager (submission ∷ submission ∷ []) "int_1"

-- The order of an earlier call for five contracts, kept back by the gate.
abbrev kept : Order
kept = record (fresh_order contract (terms manager submission) "ord_0" (pos 1000000)) {
  quantity = pos 5;
  status = OrderStatus.blocked;
}

abbrev pub store : Store
store = record { orders = kept ∷ []; risk_decisions = []; trace = [] }

abbrev sent : Order
sent = record kept { status = OrderStatus.submitted; broker_order_id = some "7" }

abbrev sent_store : Store
sent_store = record { orders = sent ∷ []; risk_decisions = []; trace = [] }

well_formed : IsWellFormed manager submission
unfolding validate
well_formed = (omega arith, refl)

kept_found : get_by_idempotency_key (idempotency_key manager submission) store.orders ≡ some kept
unfolding get_by_idempotency_key key_parts
kept_found = refl

kept_sendable : require_transmittable_type kept ≡ none
unfolding require_transmittable_type
kept_sendable = refl

kept_unsent : was_transmitted kept ≡ false
kept_unsent = refl

sent_before : was_transmitted sent ≡ true
sent_before = refl

sent_found :
    get_by_idempotency_key (idempotency_key manager submission) sent_store.orders ≡ some sent
unfolding get_by_idempotency_key key_parts
sent_found = refl

-- A trace with a last request has a request.
requests-last :
    (trace : List Event) (r : OrderRequest) → last_request trace ≡ some r → 0 < requests trace
requests-last [] r e = cc
requests-last (Event.written o ∷ trace) r e = requests-last trace r e
requests-last (Event.sent o q ∷ trace) r e = omega arith

pub request_added : 0 < requests (submit_intent manager submission store).1.trace
request_added = requests-last (submit_intent manager submission store).1.trace _ (
    submit_intent-replay manager submission store kept approval well_formed kept_found kept_unsent
      (omega arith) kept_sendable approves refl cleared)

request_added_crashing : 0 < requests (submit_intent manager (crashing submission) store).1.trace
request_added_crashing =
    requests-last (submit_intent manager (crashing submission) store).1.trace _ (
      submit_intent-replay manager (crashing submission) store kept approval well_formed kept_found
        kept_unsent (omega arith) kept_sendable approves refl cleared)

submit_intent-IsRecorded_example :
    IsRecorded
      (idempotency_key manager submission)
      (submit_intent manager (crashing submission) store).1
submit_intent-IsRecorded_example =
    submit_intent-IsRecorded manager submission store request_added_crashing

submit_intent-approved_example :
    WithinControls armed risk_context
    × WithinLimits armed risk_context
    × Clearance armed gate_context
submit_intent-approved_example = submit_intent-approved manager submission store request_added

delta_to_side_and_quantity-exact_example :
    (pos 3
        +ℤ (delta_to_side_and_quantity (pos 3) (pos 1)).1
          *ℤ sign (delta_to_side_and_quantity (pos 3) (pos 1)).0
      ≡ pos 1)
    × (pos 0 ≤ℤ (delta_to_side_and_quantity (pos 3) (pos 1)).1)
    × (((delta_to_side_and_quantity (pos 3) (pos 1)).1 ≡ pos 0) ↔ (pos 3 ≡ pos 1))
delta_to_side_and_quantity-exact_example = delta_to_side_and_quantity-exact (pos 3) (pos 1)

abbrev fill_of : ℕ → Fill
fill_of n = record {
  quantity = pos n;
  price = of_int (pos 150);
  commission = none;
  currency = none;
  at = pos 3000000;
}

apply_fills-total_example :
    IsFilledTo
      (pos 0 +ℤ (pos 2 +ℤ (pos 3 +ℤ pos 0)))
      sent
      (apply_fills (fill_of 2 ∷ fill_of 3 ∷ []) sent)
unfolding ◌+ℤ◌
apply_fills-total_example =
    apply_fills-total (fill_of 2) (fill_of 3 ∷ []) sent (omega arith, (omega arith, tt))
      (omega arith) (omega arith)

apply_fills-over_example : apply_fills (fill_of 2 ∷ fill_of 4 ∷ []) sent ≡ err OrderError.over_fill
unfolding ◌+ℤ◌
apply_fills-over_example =
    apply_fills-over (fill_of 2 ∷ fill_of 4 ∷ []) sent (omega arith, (omega arith, tt))
      (omega arith) (omega arith) (omega arith)

abbrev pub validator : SignalValidator
validator = record {
  upper = λ s. s;
  lower = λ s. s;
  configured_symbol = "MSL";
  known_strategies = "operator" ∷ [];
  max_signal_age = pos 60000000;
}

abbrev pub readings : Readings
readings = record {
  surroundings = record {
    connection_state = ConnectionState.connected;
    account_type = AccountType.simulated;
    age = λ c. some (pos 1000000);
    is_delayed = λ c. some false;
    strategy_enabled = true;
  };
  mid = λ c. some (of_int (pos 150));
  daily_pnl = zero_decimal;
  engaged = false;
  order_type = OrderType.market;
  limit_price = none;
  now = pos 2000000;
  later = pos 2500000;
  internal_order_id = "ord_1";
  place_order = λ r. PlaceReply.raised BrokerError.timeout_error "no answer";
}

-- A READY application with no position.
abbrev pub ready_app : TradingApplication
ready_app = record {
  state = ApplicationState.ready;
  reconciliation = record (no_result []) {
    positions_reconciled = true;
    orders_reconciled = true;
    account_available = true;
  };
  account = some (record { account_type = AccountType.simulated; futures_permission = some true });
  contract = some contract;
  position_book = [];
  stored_positions = [];
  known_fills = [];
  orders = [];
  connect_attempt = 0;
  next_reconcile_at = none;
  stopping = false;
}

handled :
    (handle_intent manager validator readings intent ready_app ([], store)).2
    ≡ (submit_intent manager submission store).1
unfolding handle_intent trade submission_for build_risk_context build_gate_context
    broker_permission_ready delta_to_side_and_quantity quantity open_orders count_since
    Validator.validate Validator.collect_reasons Validator.check_duplicate Validator.check_position
    Validator.check_age Validator.check_strategy Validator.check_symbol ◌-ℤ◌
handled = refl

handled-requests :
    0 < requests (handle_intent manager validator readings intent ready_app ([], store)).2.trace
handled-requests = rw handled request_added

handle_intent-approved_example :
    ((Validator.validate validator (pos 2000000) intent []).0.accepted ≡ true)
    × (true ≡ true)
    × (ApplicationState.ready ≡ ApplicationState.ready)
    × (false ≡ false)
handle_intent-approved_example =
    handle_intent-approved manager validator readings intent ready_app [] store handled-requests
