-- ===== src/OperatorOrder.antt =====
-- app/execution/operator_order.py: one order of an operator, through the pipeline of the application.
-- The report keeps the result, whether a request was sent, and what the approvers said.
pub mod Confirmed
use pgjp_trading.Prelude.{
  String, Bool, true, false, not, ◌&&◌, Option, none, some, List, [], ◌∷◌, ◌is◌, if◌then◌else◌,
  str_eq, is_none,
}
use pgjp_trading.Prelude.Int.{ℤ, pos, ltb_ℤ}
use pgjp_trading.Decimal.{Decimal}
use pgjp_trading.Enums.{
  TradingMode, trading_mode_enumeration, OrderType, order_type_enumeration, OrderStatus, OrderSide,
  Direction,
}
use pgjp_trading.Config.{Config}
use pgjp_trading.Contract.{QualifiedContract}
use pgjp_trading.Intent.{TradeIntent, SignalError, check_intent}
use pgjp_trading.Order.{Order}
use pgjp_trading.Broker.{AccountSummary}
use pgjp_trading.Repository.{get_by_broker_order_id}
use pgjp_trading.Positions.{quantity}
use pgjp_trading.Validator
use pgjp_trading.Validator.{SignalValidator, SignalValidation, seed_seen}
use pgjp_trading.Risk
use pgjp_trading.Risk.{RiskDecision}
use pgjp_trading.Gate
use pgjp_trading.Gate.{GateDecision}
use pgjp_trading.OrderManager.{
  Manager, Store, SubmissionOutcome, OutcomeKind, outcome_kind_enumeration,
  delta_to_side_and_quantity,
}
use pgjp_trading.OrderManager.Pipeline.{save}
use pgjp_trading.Application.{
  TradingApplication, BrokerReply, ConnectReply, connect_with_backoff, after_connect,
  run_reconciliation,
}
use pgjp_trading.Application.Contexts.{build_gate_context}
use pgjp_trading.Application.Intents.{Readings, Handled, build_risk_context, handle_intent}

pub record OperatorOrderRequest : Type 0 where
  pub target_position : ℤ
  pub order_type : OrderType
  pub limit_price : Option Decimal
  pub confirm : Option String

-- `OperatorOrderRequest.direction`
unfoldable pub direction : OperatorOrderRequest → Direction
direction r =
    if ltb_ℤ (pos 0) r.target_position
    then Direction.long
    else if ltb_ℤ r.target_position (pos 0)
    then Direction.short
    else Direction.flat

-- What the broker tells of an order: the fields of `OrderStatusUpdate` that are read here.
pub record StatusUpdate : Type 0 where
  pub status : OrderStatus
  pub filled_quantity : ℤ
  pub average_fill_price : Option Decimal

-- What the command reads from outside, in this order: the broker's answers to connecting and to the
-- reconciliation, the resolved contract, the kill switch, the known intent ids, drawn ids and the
-- clock, the readings of the preview and of the submission, the status of the order, if the broker
-- answers, and the last reconciliation.
pub record Outside : Type 0 where
  pub connect : ConnectReply
  pub reconciled_at : ℤ
  pub account : Option AccountSummary
  pub answers : BrokerReply
  pub resolved : Option QualifiedContract
  pub engaged : Bool
  pub known_intent_ids : List String
  pub intent_id : String
  pub correlation_id : String
  pub created_at : ℤ
  pub contract_key : QualifiedContract → String
  pub preview : Readings
  pub submission : Readings
  pub await_order_status : String → Option StatusUpdate
  pub status_at : ℤ
  pub last_reconciled_at : ℤ
  pub last_account : Option AccountSummary
  pub last_answers : BrokerReply

pub data OperatorResult : Type 0 where
  refused_live_mode limit_price_required broker_not_connected no_qualified_contract : OperatorResult
  preview_only confirmation_mismatch submitted not_submitted : OperatorResult
  exception : OperatorResult

pub record Approvals : Type 0 where
  pub signal_validation : SignalValidation
  pub risk : RiskDecision
  pub gate : GateDecision

pub record Report : Type 0 where
  pub result : OperatorResult
  pub transmitted : Bool
  pub approvals : Option Approvals

-- What the command leaves: its report, the application and the store.
abbrev pub Ended : Type 0
Ended = Report × TradingApplication × Store

-- `_refusal`, before the approvers were asked.
abbrev pub refusal : OperatorResult → Report
refusal result = record { result = result; transmitted = false; approvals = none }

-- The intent of `_run`.
abbrev pub operator_intent : Outside → OperatorOrderRequest → QualifiedContract → TradeIntent
operator_intent i r contract = record {
  strategy_name = "operator";
  symbol = contract.symbol;
  direction = direction r;
  requested_position = r.target_position;
  created_at = i.created_at;
  intent_id = i.intent_id;
  correlation_id = some i.correlation_id;
  confidence = none;
  contract_key = some (i.contract_key contract);
}

-- The validator's answer of the preview; the ids that it notes are dropped with it.
abbrev pub previewed : SignalValidator → Outside → TradeIntent → SignalValidation
previewed v i intent =
    (Validator.validate v i.preview.now intent (seed_seen i.known_intent_ids [])).0

-- What the risk manager says of the context of the preview: none where it raises.
unfoldable pub preview_risk :
    Manager
    → Outside
    → OperatorOrderRequest
    → QualifiedContract
    → TradingApplication
    → Store
    → Option RiskDecision
preview_risk m i r contract app s =
    let (side, order_quantity) =
      delta_to_side_and_quantity (quantity contract.con_id app.position_book) r.target_position in
    Risk.evaluate m.config (
      build_risk_context m i.preview (operator_intent i r contract) contract side order_quantity
        s.orders app)

abbrev pub asked :
    Manager
    → SignalValidator
    → Outside
    → TradeIntent
    → TradingApplication
    → RiskDecision
    → Approvals
asked m v i intent app risk = record {
  signal_validation = previewed v i intent;
  risk = risk;
  gate =
      Gate.evaluate m.config (build_gate_context m.config i.preview.surroundings risk.approved app);
}

-- `request.confirm != contract.local_symbol`, negated.
abbrev pub is_confirmed : Option String → QualifiedContract → Bool
is_confirmed none contract = false
is_confirmed (some text) contract = str_eq text contract.local_symbol

-- `outcome.transmitted` and the id of its order.
abbrev pub is_transmitted : Handled → Bool
is_transmitted Handled.nothing = false
is_transmitted (Handled.returned outcome) = outcome.outcome is OutcomeKind.transmitted
is_transmitted Handled.crashed = false

abbrev order_id : Option Order → Option String
order_id none = none
order_id (some o) = o.broker_order_id

abbrev broker_order_id_of : Handled → Option String
broker_order_id_of (Handled.returned outcome) = order_id outcome.order
broker_order_id_of Handled.nothing = none
broker_order_id_of Handled.crashed = none

abbrev with_status : Outside → StatusUpdate → Option Order → Store → Store
with_status i u none s = s
with_status i u (some stored) s =
    save
      (record stored {
        status = u.status;
        filled_quantity = u.filled_quantity;
        average_fill_price = u.average_fill_price;
        updated_at = i.status_at;
      })
      s

abbrev persisted : Outside → String → Option StatusUpdate → Store → Option StatusUpdate × Store
persisted i id none s = (none, s)
persisted i id (some u) s = (some u, with_status i u (get_by_broker_order_id id s.orders) s)

-- `_await_broker_status`, of an order that was transmitted.
unfoldable pub await_broker_status : Outside → Option String → Store → Option StatusUpdate × Store
await_broker_status i none s = (none, s)
await_broker_status i (some id) s = persisted i id (i.await_order_status id) s

abbrev is_filled : Option StatusUpdate → Bool
is_filled none = false
is_filled (some u) = ltb_ℤ (pos 0) u.filled_quantity

-- `_run` after `_handle_intent`, unless that lets an exception pass. What comes after reads the table of
-- orders as the submission and the status left it.
unfoldable pub report_outcome : Outside → Approvals → TradingApplication → Handled → Store → Ended
report_outcome i approvals app Handled.crashed s = (
  record { result = OperatorResult.exception; transmitted = false; approvals = some approvals },
  record app { orders = s.orders },
  s,
)
report_outcome i approvals app handled s =
    let sent = is_transmitted handled in
    let (status, s') =
      await_broker_status i (if sent then broker_order_id_of handled else none) s in
    let app' = record app { orders = s'.orders } in
    (
      record {
        result = if sent then OperatorResult.submitted else OperatorResult.not_submitted;
        transmitted = sent;
        approvals = some approvals;
      },
      if is_filled status
          then run_reconciliation i.last_reconciled_at i.last_account i.last_answers app'
          else app',
      s',
    )

-- The readings of the submission, with the type and the price that the operator gave.
abbrev pub submission_readings : Outside → OperatorOrderRequest → Readings
submission_readings i r = record i.submission {
  order_type = r.order_type;
  limit_price = r.limit_price;
}

-- `_run` from the confirmation on.
abbrev pub confirmed :
    Manager
    → SignalValidator
    → Outside
    → OperatorOrderRequest
    → QualifiedContract
    → Approvals
    → TradingApplication
    → Store
    → Ended
confirmed m v i r contract approvals app s =
    let (handled, seen, s') =
      handle_intent m v (submission_readings i r) (operator_intent i r contract) app
        (seed_seen i.known_intent_ids [], s) in
    report_outcome i approvals app handled s'

-- `_run` from the risk manager's answer on.
abbrev pub decided :
    Manager
    → SignalValidator
    → Outside
    → OperatorOrderRequest
    → QualifiedContract
    → TradingApplication
    → Store
    → Option RiskDecision
    → Ended
decided m v i r contract app s none = (refusal OperatorResult.exception, app, s)
decided m v i r contract app s (some risk) =
    let approvals = asked m v i (operator_intent i r contract) app risk in
    if not (is_confirmed r.confirm contract)
    then (
      record {
        result =
            if is_none r.confirm
            then OperatorResult.preview_only
            else OperatorResult.confirmation_mismatch;
        transmitted = false;
        approvals = some approvals;
      },
      app,
      s,
    )
    else confirmed m v i r contract approvals app s

-- `_run` from the intent on, which may be refused as it is built.
abbrev pub planned :
    Manager
    → SignalValidator
    → Outside
    → OperatorOrderRequest
    → QualifiedContract
    → TradingApplication
    → Store
    → Option SignalError
    → Ended
planned m v i r contract app s (some e) = (refusal OperatorResult.exception, app, s)
planned m v i r contract app s none =
    decided m v i r contract app s (preview_risk m i r contract app s)

-- `_run` from the selected contract on.
abbrev pub with_contract :
    Manager
    → SignalValidator
    → Outside
    → OperatorOrderRequest
    → TradingApplication
    → Store
    → Option QualifiedContract
    → Ended
with_contract m v i r app s none = (refusal OperatorResult.no_qualified_contract, app, s)
with_contract m v i r app s (some contract) =
    planned m v i r contract app s (check_intent (operator_intent i r contract))

-- `_run`. The validator is the one that knows the operator's name beside the strategy's.
unfoldable pub run :
    Manager → SignalValidator → Outside → OperatorOrderRequest → TradingApplication → Store → Ended
run m v i r app s =
    let (is_connected, app') = connect_with_backoff m.config i.connect app in
    let ready =
      after_connect m.config i.reconciled_at i.account i.answers i.resolved i.engaged app' in
    if not is_connected
    then (refusal OperatorResult.broker_not_connected, app', s)
    else with_contract m v i r ready s ready.contract

-- `place_operator_order`, with the application as `startup` leaves it.
unfoldable pub place_operator_order :
    Manager → SignalValidator → Outside → OperatorOrderRequest → TradingApplication → Store → Ended
place_operator_order m v i r app s =
    if m.config.trading_mode is TradingMode.live
    then (refusal OperatorResult.refused_live_mode, app, s)
    else if r.order_type is OrderType.limit && is_none r.limit_price
    then (refusal OperatorResult.limit_price_required, app, s)
    else run m v i r app s

-- `_validator` of `_run`: the validator of a configuration.
abbrev pub operator_validator :
    (upper lower : String → String) → Config → (strategy : String) → ℤ → SignalValidator
operator_validator upper lower c strategy max_age =
    Validator.new upper lower c.default_futures_symbol (strategy ∷ "operator" ∷ []) max_age
