-- ===== src/OperatorOrder/Confirmed.antt =====
-- app/execution/operator_order.py: what an operator's order needs before it is sent.
use pgjp_trading.Prelude.{
  subst, ◌<◌, ◌⊎◌, String, Bool, true, false, not, ◌&&◌, Option, none, some, ◌≡◌, refl, ap, arith,
  Bool-cases, inl, inr, if_holds, is_none, ◌is◌, [], eq_iff,
}
use pgjp_trading.Enums.{
  TradingMode, trading_mode_enumeration, OrderType, order_type_enumeration, ApplicationState,
}
use pgjp_trading.Contract.{QualifiedContract}
use pgjp_trading.Intent.{SignalError}
use pgjp_trading.Order.{Order}
use pgjp_trading.Repository.{get_by_broker_order_id}
use pgjp_trading.Validator
use pgjp_trading.Validator.{SignalValidator, seed_seen}
use pgjp_trading.Risk.{RiskDecision}
use pgjp_trading.OrderManager.{Manager, Store}
use pgjp_trading.OrderManager.Pipeline.{save}
use pgjp_trading.OrderManager.Approvals.{requests}
use pgjp_trading.Application.{TradingApplication, connect_with_backoff, after_connect}
use pgjp_trading.Application.Intents.{Handled, handle_intent-approved}
use pgjp_trading.OperatorOrder.{
  OperatorOrderRequest, Outside, StatusUpdate, Approvals, Ended, OperatorResult, refusal,
  operator_intent, is_confirmed, with_status, persisted, await_broker_status, report_outcome,
  submission_readings, confirmed, decided, planned, with_contract, run, place_operator_order,
}

-- The application as the command trades with it: connected, reconciled, with its contract.
abbrev pub connected : Manager → Outside → TradingApplication → Bool × TradingApplication
connected m i app =
    let (is_connected, app') = connect_with_backoff m.config i.connect app in
    (
      is_connected,
      after_connect m.config i.reconciled_at i.account i.answers i.resolved i.engaged app',
    )

-- The command placed no order: it reports nothing as transmitted, the orders, the risk decisions and
-- the requests are what they were, and the application is what it was, or as the attempt to connect
-- leaves it, or as the connection and its reconciliation leave it.
abbrev pub OnlyConnects : Manager → Outside → TradingApplication → Store → Ended → Type 0
OnlyConnects m i app s e =
    (e.0.transmitted ≡ false)
    × (e.2 ≡ s)
    × ((e.1 ≡ app)
        ⊎ ((e.1 ≡ (connect_with_backoff m.config i.connect app).1) ⊎ (e.1 ≡ (connected m i app).1)))

-- Without the contract's local symbol as its confirmation, the command places no order, whatever the
-- broker answers and the approvers say: it reports nothing as transmitted, the orders, the risk
-- decisions and the requests are what they were, and the application is what it was, or as the attempt
-- to connect, or the connection with its reconciliation, leaves it. Those may record fills,
-- positions, contracts and events.
pub place_operator_order-unconfirmed :
    (m : Manager) (v : SignalValidator) (i : Outside) (r : OperatorOrderRequest)
    (app : TradingApplication) (s : Store)
    → ((contract : QualifiedContract)
        → (connected m i app).1.contract ≡ some contract
        → is_confirmed r.confirm contract ≡ false)
    → OnlyConnects m i app s (place_operator_order m v i r app s)
unfolding place_operator_order run
place_operator_order-unconfirmed m v i r app s h =
    if_holds Same (m.config.trading_mode is TradingMode.live) _ _ (refl, refl, inl refl)
      λ a.
        if_holds Same (r.order_type is OrderType.limit && is_none r.limit_price) _ _
          (refl, refl, inl refl)
          λ b.
            if_holds Same (not (connected m i app).0) _ _ (refl, refl, inr (inl refl))
              λ c. from_contract _ refl
  where
    Same : Ended → Type 0
    Same e = OnlyConnects m i app s e

    after_connection :
        OnlyConnects m i app s (refusal OperatorResult.exception, (connected m i app).1, s)
    after_connection = (refl, refl, inr (inr refl))

    from_decision :
        (contract : QualifiedContract)
        → is_confirmed r.confirm contract ≡ false
        → (o : Option RiskDecision) → Same (decided m v i r contract (connected m i app).1 s o)
    from_decision contract unconfirmed none = after_connection
    from_decision contract unconfirmed (some risk) = rw unconfirmed (refl, refl, inr (inr refl))

    from_intent :
        (contract : QualifiedContract)
        → is_confirmed r.confirm contract ≡ false
        → (o : Option SignalError) → Same (planned m v i r contract (connected m i app).1 s o)
    from_intent contract unconfirmed (some e) = after_connection
    from_intent contract unconfirmed none = from_decision contract unconfirmed _

    from_contract :
        (o : Option QualifiedContract)
        → (connected m i app).1.contract ≡ o
        → Same (with_contract m v i r (connected m i app).1 s o)
    from_contract none e = (refl, refl, inr (inr refl))
    from_contract (some contract) e = from_intent contract (h contract e) _

-- What the last request of the command needed.
pub record IsSent (m : Manager) (v : SignalValidator) (i : Outside) (r : OperatorOrderRequest)
    (app : TradingApplication) : Type 0 where
  pub not_live : (m.config.trading_mode is TradingMode.live) ≡ false
  pub priced : (r.order_type is OrderType.limit && is_none r.limit_price) ≡ false
  pub connected_now : (connected m i app).0 ≡ true
  pub selected :
      (contract : QualifiedContract) × ((connected m i app).1.contract ≡ some contract)
      × (r.confirm ≡ some contract.local_symbol)
      × ((Validator.validate v i.submission.now
            (operator_intent i r contract)
            (seed_seen i.known_intent_ids [])).0.accepted
          ≡ true)
  pub ready : (connected m i app).1.state ≡ ApplicationState.ready
  pub switch_off : i.submission.engaged ≡ false

is_confirmed-text :
    (confirm : Option String) (contract : QualifiedContract)
    → is_confirmed confirm contract ≡ true
    → confirm ≡ some contract.local_symbol
is_confirmed-text none contract h = cc
is_confirmed-text (some text) contract h = ap some ((eq_iff text contract.local_symbol).0 h)

-- Writing the status of an order is no request.
requests-await_broker_status :
    (i : Outside) (id : Option String) (s : Store)
    → requests (await_broker_status i id s).1.trace ≡ requests s.trace
unfolding await_broker_status save
requests-await_broker_status i none s = refl
requests-await_broker_status i (some id) s = answered (i.await_order_status id)
  where
    stored :
        (u : StatusUpdate) (o : Option Order)
        → requests (with_status i u o s).trace ≡ requests s.trace
    stored u none = refl
    stored u (some o) = refl

    answered : (u : Option StatusUpdate) → requests (persisted i id u s).1.trace ≡ requests s.trace
    answered none = refl
    answered (some u) = stored u (get_by_broker_order_id id s.orders)

pub requests-report_outcome :
    (i : Outside) (approvals : Approvals) (app : TradingApplication) (handled : Handled) (s : Store)
    → requests (report_outcome i approvals app handled s).2.trace ≡ requests s.trace
unfolding report_outcome
requests-report_outcome i approvals app Handled.crashed s = refl
requests-report_outcome i approvals app Handled.nothing s = requests-await_broker_status i none s
requests-report_outcome i approvals app (Handled.returned outcome) s =
    requests-await_broker_status i _ s

module _ (m : Manager) (v : SignalValidator) (i : Outside) (r : OperatorOrderRequest)
    (app : TradingApplication) (s : Store) where
  abbrev Sends : Ended → Type 0
  Sends e = requests s.trace < requests e.2.trace

  unsent : requests s.trace < requests s.trace → IsSent m v i r app
  unsent h = absurd (omega (arith, h))

  module _ (not_live : (m.config.trading_mode is TradingMode.live) ≡ false)
      (priced : (r.order_type is OrderType.limit && is_none r.limit_price) ≡ false)
      (connected_now : (connected m i app).0 ≡ true) (contract : QualifiedContract)
      (selected : (connected m i app).1.contract ≡ some contract) where
    confirmed-IsSent :
        (approvals : Approvals)
        → is_confirmed r.confirm contract ≡ true
        → Sends (confirmed m v i r contract approvals (connected m i app).1 s)
        → IsSent m v i r app
    confirmed-IsSent approvals c h =
        let (accepted, is_selected, ready, off) =
          handle_intent-approved m v (submission_readings i r) (operator_intent i r contract)
            (connected m i app).1 (seed_seen i.known_intent_ids []) s
            (subst (λ n. requests s.trace < n)
              (requests-report_outcome i approvals (connected m i app).1 _ _) h) in
        record {
          not_live = not_live;
          priced = priced;
          connected_now = connected_now;
          selected = (contract, selected, is_confirmed-text r.confirm contract c, accepted);
          ready = ready;
          switch_off = off;
        }

    decided-IsSent :
        (o : Option RiskDecision)
        → Sends (decided m v i r contract (connected m i app).1 s o)
        → IsSent m v i r app
    decided-IsSent none h = unsent h
    decided-IsSent (some risk) h = elim (Bool-cases (is_confirmed r.confirm contract)) [
      | inl c ↦ confirmed-IsSent _ c (rw c at h)
      | inr u ↦ unsent (rw u at h)
    ]

    planned-IsSent :
        (o : Option SignalError)
        → Sends (planned m v i r contract (connected m i app).1 s o)
        → IsSent m v i r app
    planned-IsSent (some e) h = unsent h
    planned-IsSent none h = decided-IsSent _ h

  with_contract-IsSent :
      (m.config.trading_mode is TradingMode.live) ≡ false
      → (r.order_type is OrderType.limit && is_none r.limit_price) ≡ false
      → (connected m i app).0 ≡ true
      → (o : Option QualifiedContract) → (connected m i app).1.contract ≡ o
      → Sends (with_contract m v i r (connected m i app).1 s o)
      → IsSent m v i r app
  with_contract-IsSent a b c none e h = unsent h
  with_contract-IsSent a b c (some contract) e h = planned-IsSent a b c contract e _ h

-- If the command adds a request to the trace, the mode is not live, a limit order has a price, the
-- broker was connected, a contract is selected whose local symbol is the given confirmation, the
-- validator accepted the intent, the application is READY, and the kill switch is off.
pub place_operator_order-IsSent :
    (m : Manager) (v : SignalValidator) (i : Outside) (r : OperatorOrderRequest)
    (app : TradingApplication) (s : Store)
    → requests s.trace < requests (place_operator_order m v i r app s).2.trace
    → IsSent m v i r app
unfolding place_operator_order run
place_operator_order-IsSent m v i r app s =
    if_holds Needs (m.config.trading_mode is TradingMode.live) _ _ (unsent m v i r app s) λ a.
      if_holds Needs (r.order_type is OrderType.limit && is_none r.limit_price) _ _
        (unsent m v i r app s)
        λ b.
          if_holds Needs (not (connected m i app).0) _ _ (unsent m v i r app s)
            λ c. with_contract-IsSent m v i r app s a b (ground (arith, c)) _ refl
  where
    Needs : Ended → Type 0
    Needs e = requests s.trace < requests e.2.trace → IsSent m v i r app
