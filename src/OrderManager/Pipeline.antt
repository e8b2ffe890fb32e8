-- ===== src/OrderManager/Pipeline.antt =====
-- app/execution/order_manager.py: `submit_intent`, in the steps that it takes.
use pgjp_trading.Prelude.{
  String, true, not, ◌&&◌, Option, none, some, List, [], ◌∷◌, map, ◌is◌, Enumeration, if◌then◌else◌,
  str_eq, Result, ok, err,
}
use pgjp_trading.Prelude.Int.{ℤ, pos, leb_ℤ}
use pgjp_trading.Decimal.{Decimal}
use pgjp_trading.Enums.{OrderType, OrderStatus, TimeInForce, order_status_enumeration}
use pgjp_trading.Config.{Config}
use pgjp_trading.Contract.{QualifiedContract}
use pgjp_trading.Intent.{TradeIntent, KeyParts, key_parts}
use pgjp_trading.Risk
use pgjp_trading.Risk.{RiskContext, RiskDecision, risk_reason_text}
use pgjp_trading.Gate
use pgjp_trading.Gate.{GateContext, GateDecision, gate_reason_text}
use pgjp_trading.Order.{
  Order, OrderError, OrderTerms, build_order, was_transmitted, require_transmittable_type,
  mark_blocked, mark_pending_submit, mark_submitted, mark_status, mark_rejected, mark_error,
}
use pgjp_trading.Repository.{Insertion, insert_if_absent, update}
use pgjp_trading.Broker.{
  BrokerError, error_name, OrderRequest, is_refused_request, PlaceOrderResult, PlaceReply,
}

-- The collaborators of an `OrderManager` that a submission reads; `digest` stands for SHA-256 over
-- the parts of the key.
pub record Manager : Type 0 where
  pub config : Config
  pub run_id : String
  pub digest : KeyParts → String

-- The arguments of one call, and what it reads from outside: `now` is its first reading of the
-- clock, `later` the readings after the broker's answer.
pub record Submission : Type 0 where
  pub intent : TradeIntent
  pub contract : QualifiedContract
  pub risk_context : RiskContext
  pub gate_context : GateContext
  pub order_type : OrderType
  pub limit_price : Option Decimal
  pub time_in_force : TimeInForce
  pub now : ℤ
  pub later : ℤ
  pub internal_order_id : String
  pub place_order : OrderRequest → PlaceReply

-- An order written to the database, or a request handed to the broker for an order.
pub data Event : Type 0 where
  written : Order → Event
  sent : Order → OrderRequest → Event

pub record Store : Type 0 where
  pub orders : List Order
  pub risk_decisions : List RiskDecision
  pub trace : List Event

pub data OutcomeKind : Type 0 where
  no_change duplicate risk_rejected gate_rejected broker_error transmitted invalid : OutcomeKind

instance abbrev pub outcome_kind_enumeration : Enumeration OutcomeKind
outcome_kind_enumeration = record {
  index = elim [
    | no_change ↦ 0
    | duplicate ↦ 1
    | risk_rejected ↦ 2
    | gate_rejected ↦ 3
    | broker_error ↦ 4
    | transmitted ↦ 5
    | invalid ↦ 6
  ];
}

pub record SubmissionOutcome : Type 0 where
  pub outcome : OutcomeKind
  pub order : Option Order
  pub risk_decision : Option RiskDecision
  pub gate_decision : Option GateDecision
  pub place_result : Option PlaceOrderResult

-- The outcome, none where an exception leaves the call; and the store after it.
abbrev pub Submitted : Type 0
Submitted = Option SubmissionOutcome × Store

-- `self._repos.orders.update(order)`
unfoldable pub save : Order → Store → Store
save o s = record s { orders = update o s.orders; trace = Event.written o ∷ s.trace }

-- The text of the error that `require_transmittable_type` raises.
abbrev untransmitted_text : OrderError → String
untransmitted_text (OrderError.not_transmitted OrderType.stop) =
    "STOP orders are modelled but not transmitted in this phase"
untransmitted_text (OrderError.not_transmitted OrderType.stop_limit) =
    "STOP_LIMIT orders are modelled but not transmitted in this phase"
untransmitted_text (OrderError.not_transmitted OrderType.bracket) =
    "BRACKET orders are modelled but not transmitted in this phase"
untransmitted_text e = ""

module _ (m : Manager) (sub : Submission) where
  -- `intent.correlation_id or intent.intent_id`: an empty text counts as none.
  abbrev pub correlation_id : String
  correlation_id = elim sub.intent.correlation_id [
    | none ↦ sub.intent.intent_id
    | some id ↦ if str_eq id "" then sub.intent.intent_id else id
  ]

  abbrev pub idempotency_key : String
  idempotency_key = m.digest (key_parts sub.intent sub.contract.con_id)

  abbrev pub terms : OrderTerms
  terms = record {
    side = sub.risk_context.order_side;
    quantity = sub.risk_context.order_quantity;
    order_type = sub.order_type;
    idempotency_key = idempotency_key;
    correlation_id = correlation_id;
    strategy_id = sub.intent.strategy_name;
    run_id = m.run_id;
    trading_mode = m.config.trading_mode;
    account_type = sub.gate_context.broker_account_type;
    intent_id = some sub.intent.intent_id;
    limit_price = sub.limit_price;
    stop_price = none;
    time_in_force = sub.time_in_force;
  }

  abbrev pub request_for : Order → OrderRequest
  request_for o = record {
    internal_order_id = o.internal_order_id;
    correlation_id = correlation_id;
    contract = sub.contract;
    side = o.side;
    quantity = o.quantity;
    order_type = o.order_type;
    time_in_force = o.time_in_force;
    limit_price = o.limit_price;
    stop_price = o.stop_price;
    transmit = true;
  }

  -- `result.error_message or "rejected by broker"`
  abbrev rejection_text : Option String → String
  rejection_text none = "rejected by broker"
  rejection_text (some text) = if str_eq text "" then "rejected by broker" else text

  -- The order after the broker returned a result: `accept` where it took the order.
  abbrev accept : PlaceOrderResult → String → Order → Order
  accept result id o =
      let submitted = mark_submitted id sub.later o in
      if not (result.status is OrderStatus.submitted)
      then mark_status result.status sub.later submitted
      else submitted

  abbrev finish :
      OutcomeKind
      → RiskDecision
      → GateDecision
      → Option PlaceOrderResult
      → Order
      → Store
      → Submitted
  finish kind risk gate result o s = (
    some (record {
      outcome = kind;
      order = some o;
      risk_decision = some risk;
      gate_decision = some gate;
      place_result = result;
    }),
    save o s,
  )

  unfoldable pub settle_result :
      RiskDecision → GateDecision → PlaceOrderResult → Option String → Order → Store → Submitted
  settle_result risk gate result none o s =
      finish OutcomeKind.broker_error risk gate (some result)
        (mark_rejected result.error_code (rejection_text result.error_message) sub.later o) s
  settle_result risk gate result (some id) o s =
      if not result.accepted
      then finish OutcomeKind.broker_error risk gate (some result)
          (mark_rejected result.error_code (rejection_text result.error_message) sub.later o) s
      else finish OutcomeKind.transmitted risk gate (some result) (accept result id o) s

  abbrev mark_failed : BrokerError → String → Order → Order
  mark_failed BrokerError.permission_error text o =
      mark_rejected (some "PERMISSION_DENIED") text sub.later o
  mark_failed error text o = mark_error (some (error_name error)) text sub.later o

  -- From the broker's reply on.
  unfoldable pub settle : RiskDecision → GateDecision → Order → PlaceReply → Store → Submitted
  settle risk gate o (PlaceReply.placed result) s =
      settle_result risk gate result result.broker_order_id o s
  settle risk gate o (PlaceReply.raised error text) s =
      finish OutcomeKind.broker_error risk gate none (mark_failed error text o) s
  settle risk gate o PlaceReply.crashed s = (none, s)

  -- From the mark PENDING_SUBMIT on.
  unfoldable pub transmit : RiskDecision → GateDecision → Order → Store → Submitted
  transmit risk gate stored s =
      let o = mark_pending_submit sub.now stored in
      let s' = save o s in
      let request = request_for o in
      if is_refused_request request
      then (none, s')
      else settle risk gate o (sub.place_order request)
          (record s' { trace = Event.sent o request ∷ s'.trace })

  -- From the gate on.
  unfoldable pub pass_type :
      RiskDecision → GateDecision → Option OrderError → Order → Store → Submitted
  pass_type risk gate none o s = transmit risk gate o s
  pass_type risk gate (some e) stored s =
      let o = mark_blocked (untransmitted_text e ∷ []) sub.now stored in
      (
        some (record {
          outcome = OutcomeKind.invalid;
          order = some o;
          risk_decision = none;
          gate_decision = none;
          place_result = none;
        }),
        save o s,
      )

  unfoldable pub pass_gate : RiskDecision → GateDecision → Order → Store → Submitted
  pass_gate risk gate stored s =
      if not gate.allowed
      then finish OutcomeKind.gate_rejected risk gate none
          (mark_blocked (map gate_reason_text gate.reasons) sub.now stored) s
      else pass_type risk gate (require_transmittable_type stored) stored s

  -- From the risk manager on.
  unfoldable pub pass_risk : Option RiskDecision → Order → Store → Submitted
  pass_risk none stored s = (none, s)
  pass_risk (some risk) stored s =
      let s' = record s { risk_decisions = risk ∷ s.risk_decisions } in
      let o = mark_blocked (map risk_reason_text risk.reasons) sub.now stored in
      if not risk.approved
      then (
        some (record {
          outcome = OutcomeKind.risk_rejected;
          order = some o;
          risk_decision = some risk;
          gate_decision = none;
          place_result = none;
        }),
        save o s',
      )
      else pass_gate risk (Gate.evaluate m.config sub.gate_context) stored s'

  -- An outcome that ends a call with no further write.
  abbrev pub end_call : OutcomeKind → Option Order → Store → Submitted
  end_call kind o s = (
    some (record {
      outcome = kind;
      order = o;
      risk_decision = none;
      gate_decision = none;
      place_result = none;
    }),
    s,
  )

  -- From the insertion on.
  unfoldable pub pass_insertion : Insertion → Store → Submitted
  pass_insertion Insertion.refused s = (none, s)
  pass_insertion (Insertion.inserted stored created table) s =
      if not created && was_transmitted stored
      then end_call OutcomeKind.duplicate (some stored) s
      else pass_risk (Risk.evaluate m.config sub.risk_context) stored (record s {
        orders = table;
        trace = if created then Event.written stored ∷ s.trace else s.trace;
      })

  unfoldable pub pass_build : Result OrderError Order → Store → Submitted
  pass_build (err e) s = end_call OutcomeKind.invalid none s
  pass_build (ok o) s = pass_insertion (insert_if_absent o s.orders) s

  -- `OrderManager.submit_intent`
  unfoldable pub submit_intent : Store → Submitted
  submit_intent s =
      if leb_ℤ sub.risk_context.order_quantity (pos 0)
      then end_call OutcomeKind.no_change none s
      else pass_build (build_order sub.contract terms sub.internal_order_id sub.now) s
