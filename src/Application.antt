-- ===== src/Application.antt =====
-- app/main.py: the state of `TradingApplication` and the operations that change it. What an operation
-- reads from outside (the broker's replies, the clock, the kill switch, the resolver) is among its
-- arguments. Left out: log lines, recorded events, the last error's text, the market data's cache, the
-- health server, and how long the loop sleeps.
pub mod Ingestion
pub mod Steps
pub mod Contexts
pub mod Intents
use pgjp_trading.Prelude.{
  ℕ, suc, ◌+◌, String, Bool, true, false, not, ◌&&◌, Option, none, some, List, [], ◌∷◌,
  if◌then◌else◌, str_eq, any, leb, ◌==◌, ◌is◌, is_some,
}
use pgjp_trading.Prelude.Int.{ℤ, pos, ◌+ℤ◌, ltb_ℤ, leb_ℤ, eqb_ℤ}
use pgjp_trading.Enums.{
  ApplicationState, application_state_enumeration, TradingMode, trading_mode_enumeration,
}
use pgjp_trading.Config.{Config}
use pgjp_trading.Contract.{QualifiedContract}
use pgjp_trading.Broker.{AccountSummary, BrokerPosition, BrokerOrderSnapshot, BrokerFill}
use pgjp_trading.Order.{Order}
use pgjp_trading.Repository.{open_order_tuples}
use pgjp_trading.Positions.{Position, PositionBook, Execution, apply_fill, replace_all}
use pgjp_trading.Reconciliation.{ReconciliationResult, succeeded, reconcile}

-- `known_fills` are the execution ids of the table `fills`, `stored_positions` the table `positions`.
pub record TradingApplication : Type 0 where
  pub state : ApplicationState
  pub reconciliation : ReconciliationResult
  pub account : Option AccountSummary
  pub contract : Option QualifiedContract
  pub position_book : PositionBook
  pub stored_positions : List Position
  pub known_fills : List String
  pub orders : List Order
  pub connect_attempt : ℕ
  pub next_reconcile_at : Option ℤ
  pub stopping : Bool

-- The defaults of the fields of `ReconciliationResult`, with its errors.
abbrev pub no_result : List String → ReconciliationResult
no_result errors = record {
  positions_reconciled = false;
  orders_reconciled = false;
  account_available = false;
  position_discrepancies = [];
  order_discrepancies = [];
  fills_seen = 0;
  errors = errors;
  broker_positions = [];
}

-- `TradingApplication.__init__`, and the book as `startup` loads it.
unfoldable pub start : List Position → List String → List Order → TradingApplication
start stored known_fills orders = record {
  state = ApplicationState.starting;
  reconciliation = no_result [];
  account = none;
  contract = none;
  position_book = replace_all stored;
  stored_positions = stored;
  known_fills = known_fills;
  orders = orders;
  connect_attempt = 0;
  next_reconcile_at = none;
  stopping = false;
}

abbrev pub set_state : ApplicationState → TradingApplication → TradingApplication
set_state state app = record app { state = state }

-- The local symbol that `_ingest_fills` gives an execution.
abbrev local_symbol_for : Option QualifiedContract → BrokerFill → String
local_symbol_for none f = f.symbol
local_symbol_for (some c) f = if eqb_ℤ c.con_id f.con_id then c.local_symbol else f.symbol

abbrev pub execution_for : Option QualifiedContract → BrokerFill → Execution
execution_for contract f = record {
  con_id = f.con_id;
  symbol = f.symbol;
  local_symbol = local_symbol_for contract f;
  side = f.side;
  quantity = f.quantity;
  price = f.price;
  at = f.executed_at;
}

-- `FillRepository.record`, of which the id counts: whether the fill was new, and the table after it.
unfoldable pub record_fill : String → List String → Bool × List String
record_fill id known = if any (λ i. str_eq i id) known then (false, known) else (true, id ∷ known)

-- `_ingest_fills`: the known ids and the book after it.
unfoldable pub ingest_fills :
    Option QualifiedContract
    → List BrokerFill
    → List String × PositionBook
    → List String × PositionBook
ingest_fills contract [] (known, book) = (known, book)
ingest_fills contract (f ∷ fills) (known, book) =
    let (is_new, known') = record_fill f.execution_id known in
    ingest_fills contract fills
      (known', if is_new then (apply_fill (execution_for contract f) book).1 else book)

-- What the broker answers to the three reads of `_reconcile`; none where one raises a `BrokerError`,
-- whose text is then the second part.
pub record BrokerState : Type 0 where
  pub positions : List BrokerPosition
  pub open_orders : List BrokerOrderSnapshot
  pub fills : List BrokerFill

pub data BrokerReply : Type 0 where
  failed : String → BrokerReply
  read : BrokerState → BrokerReply

-- The positions that `_reconcile` adopts.
abbrev adopt : TradingApplication → TradingApplication
adopt app =
    if succeeded app.reconciliation
    then record app {
      position_book = replace_all app.reconciliation.broker_positions;
      stored_positions = app.reconciliation.broker_positions;
    }
    else app

after_read : ℤ → BrokerReply → TradingApplication → TradingApplication
after_read now (BrokerReply.failed error) app = record app {
  reconciliation = no_result (error ∷ []);
}
after_read now (BrokerReply.read b) app =
    let (known, book) = ingest_fills app.contract b.fills (app.known_fills, app.position_book) in
    adopt (record app {
      known_fills = known;
      position_book = book;
      reconciliation =
          reconcile now book b.positions b.open_orders (open_order_tuples app.orders) b.fills
            (is_some app.account);
    })

-- `_reconcile`: the account is none where `get_account_summary` raises a `BrokerError`.
unfoldable pub run_reconciliation :
    ℤ → Option AccountSummary → BrokerReply → TradingApplication → TradingApplication
unfolding after_read
run_reconciliation now account reply app =
    after_read now reply (record app { state = ApplicationState.reconciling; account = account })

-- `_compute_ready_state`: `engaged` is the kill switch's reading.
unfoldable pub compute_ready_state : Config → Bool → TradingApplication → ApplicationState
compute_ready_state c engaged app =
    if not (succeeded app.reconciliation)
    then ApplicationState.safe
    else if engaged
    then ApplicationState.halted
    else if c.trading_mode is TradingMode.disabled
    then ApplicationState.safe
    else if not c.allow_order_transmit
    then ApplicationState.safe
    else ApplicationState.ready

-- `_after_connect`: the contract is none where the resolver raises.
unfoldable pub after_connect :
    Config
    → ℤ
    → Option AccountSummary
    → BrokerReply
    → Option QualifiedContract
    → Bool
    → TradingApplication
    → TradingApplication
after_connect c now account reply resolved engaged app =
    let app' = run_reconciliation now account reply app in
    if not (succeeded app'.reconciliation)
    then set_state ApplicationState.safe app'
    else (let app'' = record app' { contract = resolved } in
        set_state (compute_ready_state c engaged app'') app'')

-- `_maybe_reconcile`, from the moment that it is due.
unfoldable pub reconcile_now :
    Config
    → ℤ
    → ℤ
    → Option AccountSummary
    → BrokerReply
    → Bool
    → TradingApplication
    → TradingApplication
reconcile_now c clock now account reply engaged app =
    let app' =
      run_reconciliation now account reply
        (record app { next_reconcile_at = some (clock +ℤ c.reconcile_interval_seconds) }) in
    if not (succeeded app'.reconciliation)
    then set_state ApplicationState.safe app'
    else set_state (compute_ready_state c engaged app') app'

-- `_maybe_reconcile`: `clock` is the loop's time.
unfoldable pub maybe_reconcile :
    Config
    → ℤ
    → ℤ
    → Option AccountSummary
    → BrokerReply
    → Bool
    → TradingApplication
    → TradingApplication
maybe_reconcile c clock now account reply engaged app =
    if leb_ℤ c.reconcile_interval_seconds (pos 0) then app else elim app.next_reconcile_at [
      | none ↦ record app { next_reconcile_at = some (clock +ℤ c.reconcile_interval_seconds) }
      | some at ↦
          if ltb_ℤ clock at then app else reconcile_now c clock now account reply engaged app
    ]

-- How `Broker.connect` ends.
pub data ConnectReply : Type 0 where
  connected permission_refused connection_failed : ConnectReply

-- `_connect_with_backoff`: whether it connected, and the application.
unfoldable pub connect_with_backoff :
    Config → ConnectReply → TradingApplication → Bool × TradingApplication
connect_with_backoff c reply app =
    answer reply (record app {
      state = ApplicationState.connecting;
      connect_attempt = suc app.connect_attempt;
    })
  where
    answer : ConnectReply → TradingApplication → Bool × TradingApplication
    answer ConnectReply.connected app' = (true, record app' { connect_attempt = 0 })
    answer ConnectReply.permission_refused app' = (false, set_state ApplicationState.safe app')
    answer ConnectReply.connection_failed app' = (
      false,
      record app' {
        state = ApplicationState.disconnected;
        stopping =
            if not (c.reconnect.max_attempts == 0)
              && leb c.reconnect.max_attempts app'.connect_attempt
            then true
            else app'.stopping;
      },
    )

-- `_handle_disconnect`, with the market data's cache apart.
unfoldable pub handle_disconnect : TradingApplication → TradingApplication
handle_disconnect app = record app {
  state = ApplicationState.safe;
  reconciliation = no_result [];
  account = none;
  contract = none;
}

-- `_tick` up to the strategy: whether the strategy is asked, and the application.
unfoldable pub tick : Bool → Bool → TradingApplication → Bool × TradingApplication
tick is_connected engaged app =
    if not is_connected
    then (false, handle_disconnect app)
    else if not (is_some app.contract)
    then (false, app)
    else if engaged
    then (false, set_state ApplicationState.halted app)
    else (true, app)

-- `run`, where an exception leaves the loop.
abbrev pub fail : TradingApplication → TradingApplication
fail app = set_state ApplicationState.error app
