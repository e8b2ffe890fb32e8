-- ===== src/Application/Intents.antt =====
-- app/main.py: one intent through the validator, the position, and the order manager.
use pgjp_trading.Prelude.{
  ◌<◌, String, Bool, true, false, Option, none, some, List, ◌≡◌, refl, arith, if◌then◌else◌,
  Bool-cases, inl, inr, is_some, length,
}
use pgjp_trading.Prelude.Int.{ℤ, pos, ◌-ℤ◌, eqb_ℤ}
use pgjp_trading.Decimal.{Decimal}
use pgjp_trading.Enums.{OrderSide, OrderType, TimeInForce, ApplicationState}
use pgjp_trading.Contract.{QualifiedContract}
use pgjp_trading.Intent.{TradeIntent}
use pgjp_trading.Order.{Order}
use pgjp_trading.Risk.{RiskContext}
use pgjp_trading.Repository.{open_orders, count_since}
use pgjp_trading.Broker.{OrderRequest, PlaceReply}
use pgjp_trading.Positions.{quantity}
use pgjp_trading.Validator
use pgjp_trading.Validator.{SignalValidator}
use pgjp_trading.OrderManager.{
  SubmissionOutcome, Manager, Submission, Store, submit_intent, delta_to_side_and_quantity,
}
use pgjp_trading.OrderManager.Approvals.{requests, submit_intent-approved}
use pgjp_trading.Application.{TradingApplication}
use pgjp_trading.Application.Contexts.{Surroundings, build_gate_context, broker_permission_ready}

-- What a call reads from outside, beside the `Surroundings`: `mid` is the mid price of the latest
-- quote, `engaged` the kill switch, and the rest is as in a `Submission`.
pub record Readings : Type 0 where
  pub surroundings : Surroundings
  pub mid : QualifiedContract → Option Decimal
  pub daily_pnl : Decimal
  pub engaged : Bool
  pub order_type : OrderType
  pub limit_price : Option Decimal
  pub now : ℤ
  pub later : ℤ
  pub internal_order_id : String
  pub place_order : OrderRequest → PlaceReply

-- An hour in microseconds.
abbrev hour : ℤ
hour = pos 3600000000

-- `_build_risk_context`
unfoldable pub build_risk_context :
    Manager
    → Readings
    → TradeIntent
    → QualifiedContract
    → OrderSide
    → ℤ
    → List Order
    → TradingApplication
    → RiskContext
build_risk_context m r intent contract side order_quantity orders app = record {
  intent = intent;
  order_side = side;
  order_quantity = order_quantity;
  current_position = quantity contract.con_id app.position_book;
  contract = some contract;
  reference_price = r.mid contract;
  market_data_age_seconds = r.surroundings.age contract;
  daily_pnl = r.daily_pnl;
  open_orders_count = pos (length (open_orders orders));
  orders_last_hour = pos (count_since (r.now -ℤ hour) orders);
  app_state = app.state;
  connection_state = r.surroundings.connection_state;
  account_type = r.surroundings.account_type;
  account_available = is_some app.account;
  positions_reconciled = app.reconciliation.positions_reconciled;
  open_orders_reconciled = app.reconciliation.orders_reconciled;
  broker_permission_ready = broker_permission_ready m.config app.account;
  strategy_enabled = r.surroundings.strategy_enabled;
  kill_switch_engaged = r.engaged;
  duplicate_order_exists = false;
}

-- The submission that `_handle_intent` makes.
unfoldable pub submission_for :
    Manager
    → Readings
    → TradeIntent
    → QualifiedContract
    → OrderSide
    → ℤ
    → List Order
    → TradingApplication
    → Submission
submission_for m r intent contract side order_quantity orders app = record {
  intent = intent;
  contract = contract;
  risk_context = build_risk_context m r intent contract side order_quantity orders app;
  gate_context = build_gate_context m.config r.surroundings true app;
  order_type = r.order_type;
  limit_price = r.limit_price;
  time_in_force = TimeInForce.day;
  now = r.now;
  later = r.later;
  internal_order_id = r.internal_order_id;
  place_order = r.place_order;
}

-- How the handling of an intent ends: it returns None, it returns an outcome, or an exception leaves it.
pub data Handled : Type 0 where
  nothing : Handled
  returned : SubmissionOutcome → Handled
  crashed : Handled

abbrev pub handled_of : Option SubmissionOutcome → Handled
handled_of none = Handled.crashed
handled_of (some outcome) = Handled.returned outcome

-- From the selected contract on.
unfoldable pub trade :
    Manager
    → Readings
    → TradeIntent
    → TradingApplication
    → Option QualifiedContract
    → Store
    → Handled × Store
trade m r intent app none s = (Handled.nothing, s)
trade m r intent app (some contract) s =
    let (side, order_quantity) =
      delta_to_side_and_quantity (quantity contract.con_id app.position_book)
        intent.requested_position in
    let (outcome, s') =
      submit_intent m (submission_for m r intent contract side order_quantity s.orders app) s in
    if eqb_ℤ order_quantity (pos 0) then (Handled.nothing, s) else (handled_of outcome, s')

abbrev pub unless_rejected : Bool → Store → Handled × Store → Handled × Store
unless_rejected true s traded = traded
unless_rejected false s traded = (Handled.nothing, s)

-- `_handle_intent`: its end, the ids that the validator has seen, and the store. The record of the
-- signal, in a table of its own, is left out.
unfoldable pub handle_intent :
    Manager
    → SignalValidator
    → Readings
    → TradeIntent
    → TradingApplication
    → List String × Store
    → Handled × List String × Store
handle_intent m v r intent app (seen, s) =
    let (validation, seen') = Validator.validate v r.now intent seen in
    let (handled, s') =
      unless_rejected validation.accepted s (trade m r intent app app.contract s) in
    (handled, seen', s')

trade-approved :
    (m : Manager) (r : Readings) (intent : TradeIntent) (app : TradingApplication)
    → (found : Option QualifiedContract) (s : Store)
    → requests s.trace < requests (trade m r intent app found s).1.trace
    → (is_some found ≡ true) × (app.state ≡ ApplicationState.ready) × (r.engaged ≡ false)
unfolding trade submission_for build_risk_context build_gate_context
trade-approved m r intent app none s h = absurd (omega (arith, h))
trade-approved m r intent app (some contract) s h =
    elim (Bool-cases (
      eqb_ℤ
        (delta_to_side_and_quantity (quantity contract.con_id app.position_book)
          intent.requested_position).1
        (pos 0))) [
          | inl e ↦ absurd (omega (arith, rw e at h))
          | inr e ↦
              let (controls, limits, clear) = submit_intent-approved m _ s (rw e at h) in
              (refl, clear.ready, controls.switch_off)
        ]

-- If handling an intent adds a request to the trace, the validator accepted the intent, a contract is
-- selected, the application is READY, and the kill switch, latch included, is off.
pub handle_intent-approved :
    (m : Manager) (v : SignalValidator) (r : Readings) (intent : TradeIntent)
    (app : TradingApplication)
    → (seen : List String) (s : Store)
    → requests s.trace < requests (handle_intent m v r intent app (seen, s)).2.trace
    → ((Validator.validate v r.now intent seen).0.accepted ≡ true)
      × (is_some app.contract ≡ true)
      × (app.state ≡ ApplicationState.ready)
      × (r.engaged ≡ false)
unfolding handle_intent
handle_intent-approved m v r intent app seen s h =
    elim (Bool-cases (Validator.validate v r.now intent seen).0.accepted) [
      | inl e ↦
          let (selected, ready, off) = trade-approved m r intent app app.contract s (rw e at h) in
          (e, selected, ready, off)
      | inr e ↦ absurd (omega (arith, rw e at h))
    ]
