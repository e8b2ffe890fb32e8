-- ===== src/Application/Steps.antt =====
-- app/main.py: the application is READY only on the strength of a successful reconciliation.
use pgjp_trading.Prelude.{
  String, Bool, true, false, not, Option, none, some, List, [], ◌∷◌, ◌≡◌, ◌≢◌, refl, ap,
  if◌then◌else◌, Bool-cases, inl, inr, ◌is◌, is_some,
}
use pgjp_trading.Prelude.Int.{ℤ, ◌+ℤ◌, pos, ltb_ℤ, leb_ℤ}
use pgjp_trading.Enums.{
  ApplicationState, application_state_enumeration, TradingMode, trading_mode_enumeration,
}
use pgjp_trading.Config.{Config}
use pgjp_trading.Contract.{QualifiedContract}
use pgjp_trading.Broker.{AccountSummary}
use pgjp_trading.Reconciliation.{succeeded}
use pgjp_trading.Positions.{Position}
use pgjp_trading.Order.{Order}
use pgjp_trading.Application.{
  TradingApplication, BrokerReply, ConnectReply, start, set_state, run_reconciliation,
  compute_ready_state, after_connect, maybe_reconcile, reconcile_now, connect_with_backoff,
  handle_disconnect, tick, fail,
}

-- The operations of the main loop, with what they read.
pub data Step : Type 0 where
  connecting : ConnectReply → Step
  after_connecting :
      ℤ → Option AccountSummary → BrokerReply → Option QualifiedContract → Bool → Step
  reconciling : ℤ → ℤ → Option AccountSummary → BrokerReply → Bool → Step
  ticking : Bool → Bool → Step
  failing : Step

unfoldable pub step : Config → Step → TradingApplication → TradingApplication
step c (Step.connecting reply) app = (connect_with_backoff c reply app).1
step c (Step.after_connecting now account reply resolved engaged) app =
    after_connect c now account reply resolved engaged app
step c (Step.reconciling clock now account reply engaged) app =
    maybe_reconcile c clock now account reply engaged app
step c (Step.ticking is_connected engaged) app = (tick is_connected engaged app).1
step c Step.failing app = fail app

unfoldable pub run_steps : Config → List Step → TradingApplication → TradingApplication
run_steps c [] app = app
run_steps c (s ∷ steps) app = run_steps c steps (step c s app)

-- If it is READY, the last reconciliation succeeded and the configuration allows orders.
abbrev pub IsBacked : Config → TradingApplication → Type 0
IsBacked c app =
    app.state ≡ ApplicationState.ready
    → (succeeded app.reconciliation ≡ true)
      × (c.allow_order_transmit ≡ true)
      × (c.trading_mode ≢ TradingMode.disabled)

ready_of :
    (succeeds engaged disabled allowed : Bool)
    → (if not succeeds
        then ApplicationState.safe
        else if engaged
        then ApplicationState.halted
        else if disabled
        then ApplicationState.safe
        else if not allowed
        then ApplicationState.safe
        else ApplicationState.ready)
      ≡ ApplicationState.ready
    → (succeeds ≡ true) × (engaged ≡ false) × (disabled ≡ false) × (allowed ≡ true)
ready_of false engaged disabled allowed h = cc
ready_of true true disabled allowed h = cc
ready_of true false true allowed h = cc
ready_of true false false false h = cc
ready_of true false false true h = (refl, refl, refl, refl)

-- READY is computed only if nothing speaks against it.
pub compute_ready_state-ready :
    (c : Config) (engaged : Bool) (app : TradingApplication)
    → compute_ready_state c engaged app ≡ ApplicationState.ready
    → (succeeded app.reconciliation ≡ true)
      × (engaged ≡ false)
      × (c.allow_order_transmit ≡ true)
      × (c.trading_mode ≢ TradingMode.disabled)
unfolding compute_ready_state
compute_ready_state-ready c engaged app h =
    let (s, e, d, a) =
      ready_of (succeeded app.reconciliation) engaged (c.trading_mode is TradingMode.disabled)
        c.allow_order_transmit h in
    (s, e, a, λ m. cc (d, ap (λ (t : TradingMode). t is TradingMode.disabled) m))

decided :
    (c : Config) (engaged : Bool) (app : TradingApplication)
    → IsBacked c (set_state (compute_ready_state c engaged app) app)
decided c engaged app h = let (s, e, a, m) = compute_ready_state-ready c engaged app h in (s, a, m)

after_connect-IsBacked :
    (c : Config) (now : ℤ) (account : Option AccountSummary) (reply : BrokerReply)
    → (resolved : Option QualifiedContract) (engaged : Bool) (app : TradingApplication)
    → IsBacked c (after_connect c now account reply resolved engaged app)
unfolding after_connect
after_connect-IsBacked c now account reply resolved engaged app =
    elim (Bool-cases (succeeded (run_reconciliation now account reply app).reconciliation)) [
      | inl e ↦ rw e (
          decided c engaged
            (record (run_reconciliation now account reply app) { contract = resolved }))
      | inr e ↦ rw e (λ h. cc)
    ]

reconcile_now-IsBacked :
    (c : Config) (clock now : ℤ) (account : Option AccountSummary) (reply : BrokerReply)
    → (engaged : Bool) (app : TradingApplication)
    → IsBacked c (reconcile_now c clock now account reply engaged app)
unfolding reconcile_now
reconcile_now-IsBacked c clock now account reply engaged app =
    let app' =
      run_reconciliation now account reply
        (record app { next_reconcile_at = some (clock +ℤ c.reconcile_interval_seconds) }) in
    elim (Bool-cases (succeeded app'.reconciliation)) [
      | inl e ↦ rw e (decided c engaged app')
      | inr e ↦ rw e (λ h. cc)
    ]

maybe_reconcile-IsBacked :
    (c : Config) (clock now : ℤ) (account : Option AccountSummary) (reply : BrokerReply)
    → (engaged : Bool) (app : TradingApplication) → IsBacked c app
    → IsBacked c (maybe_reconcile c clock now account reply engaged app)
unfolding maybe_reconcile
maybe_reconcile-IsBacked c clock now account reply engaged app b =
    elim (Bool-cases (leb_ℤ c.reconcile_interval_seconds (pos 0))) [
      | inl e ↦ rw e b
      | inr e ↦ rw e (go app.next_reconcile_at)
    ]
  where
    go :
        (deadline : Option ℤ)
        → IsBacked c (elim deadline [
          | none ↦ record app { next_reconcile_at = some (clock +ℤ c.reconcile_interval_seconds) }
          | some at ↦
              if ltb_ℤ clock at then app else reconcile_now c clock now account reply engaged app
        ])
    go none = b
    go (some at) = elim (Bool-cases (ltb_ℤ clock at)) [
      | inl e ↦ rw e b
      | inr e ↦ rw e (reconcile_now-IsBacked c clock now account reply engaged app)
    ]

abbrev tick_of : Option QualifiedContract → Bool → TradingApplication → Bool × TradingApplication
tick_of contract engaged app =
    if not (is_some contract)
    then (false, app)
    else if engaged
    then (false, set_state ApplicationState.halted app)
    else (true, app)

tick-IsBacked :
    (c : Config) (is_connected engaged : Bool) (app : TradingApplication)
    → IsBacked c app
    → IsBacked c (tick is_connected engaged app).1
unfolding tick handle_disconnect
tick-IsBacked c false engaged app b = λ h. cc
tick-IsBacked c true engaged app b = go app.contract engaged
  where
    go : (contract : Option QualifiedContract) (on : Bool) → IsBacked c (tick_of contract on app).1
    go none on = b
    go (some x) true = λ h. cc
    go (some x) false = b

connect_with_backoff-IsBacked :
    (c : Config) (reply : ConnectReply) (app : TradingApplication)
    → IsBacked c (connect_with_backoff c reply app).1
unfolding connect_with_backoff
connect_with_backoff-IsBacked c ConnectReply.connected app = λ h. cc
connect_with_backoff-IsBacked c ConnectReply.permission_refused app = λ h. cc
connect_with_backoff-IsBacked c ConnectReply.connection_failed app = λ h. cc

step-IsBacked :
    (c : Config) (s : Step) (app : TradingApplication) → IsBacked c app → IsBacked c (step c s app)
unfolding step
step-IsBacked c (Step.connecting reply) app b = connect_with_backoff-IsBacked c reply app
step-IsBacked c (Step.after_connecting now account reply resolved engaged) app b =
    after_connect-IsBacked c now account reply resolved engaged app
step-IsBacked c (Step.reconciling clock now account reply engaged) app b =
    maybe_reconcile-IsBacked c clock now account reply engaged app b
step-IsBacked c (Step.ticking is_connected engaged) app b =
    tick-IsBacked c is_connected engaged app b
step-IsBacked c Step.failing app b = λ h. cc

run_steps-IsBacked :
    (c : Config) (steps : List Step) (app : TradingApplication)
    → IsBacked c app
    → IsBacked c (run_steps c steps app)
unfolding run_steps
run_steps-IsBacked c [] app b = b
run_steps-IsBacked c (s ∷ steps) app b =
    run_steps-IsBacked c steps (step c s app) (step-IsBacked c s app b)

-- Started from any stored positions, fills and orders, and after any steps, whatever the broker
-- answers in them: if the application is READY, its last reconciliation succeeded, the configuration
-- allows orders, and the trading mode is not `disabled`.
pub ready-IsBacked :
    (c : Config) (stored : List Position) (known : List String) (orders : List Order)
    (steps : List Step)
    → IsBacked c (run_steps c steps (start stored known orders))
unfolding start
ready-IsBacked c stored known orders steps =
    run_steps-IsBacked c steps (start stored known orders) (λ h. cc)
