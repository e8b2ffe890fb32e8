-- ===== src/MockBroker.antt =====
-- app/broker/mock_broker.py: the simulated broker. A read that raises gives the `BrokerError`; a call
-- gives its answer and the broker after it. `at` is the call's reading of the clock.
pub mod Orders
pub mod Operations
pub mod Contracts
pub mod Ledger
pub mod Accounts
pub mod Numbering
pub mod Keys
pub mod Agreement
pub mod Qualified
pub mod Refusals
use pgjp_trading.Prelude.{
  ℕ, suc, String, Bool, false, not, Option, none, some, List, [], ◌∷◌, ◌++◌, ◌is◌, if◌then◌else◌,
  Result, ok, err, get_or, filter, str_eq, any,
}
use pgjp_trading.Prelude.Int.{ℤ, ◌-ℤ◌, leb_ℤ}
use pgjp_trading.Decimal.{Decimal, add_decimal, sub_decimal}
use pgjp_trading.Enums.{
  AccountType, ConnectionState, connection_state_enumeration, order_side_enumeration,
  order_type_enumeration,
}
use pgjp_trading.Contract.{QualifiedContract}
use pgjp_trading.Product.{FuturesProduct, get_product}
use pgjp_trading.Broker.{
  BrokerError, AccountSummary, BrokerPosition, BrokerOrderSnapshot, BrokerFill, MarketDataTick,
}
use pgjp_trading.Keyed
use pgjp_trading.Named

-- What the broker takes from Python's library: the texts that it formats from numbers, the methods of
-- text in `get_product`, and the step of the random walk, drawn for a contract's key and its count.
pub record Simulation : Type 0 where
  pub order_id : ℕ → String
  pub execution_id : ℕ → String
  pub contract_key : ℤ → String
  pub strip : String → String
  pub upper : String → String
  pub drift : String → ℕ → Decimal

pub record MockBroker : Type 0 where
  pub account_id : String
  pub account_type_override : Option AccountType
  pub permission_denied : Bool
  pub fail_connect : Bool
  pub fill_market_orders : Bool
  pub connection_state : ConnectionState
  pub connected_at : Option ℤ
  pub last_heartbeat : Option ℤ
  pub positions : List (ℤ × BrokerPosition)
  pub open_orders : List (String × BrokerOrderSnapshot)
  pub fills : List BrokerFill
  pub order_counter : ℕ
  pub exec_counter : ℕ
  pub tick_counter : List (String × ℕ)
  pub subscribed : List String

-- `MockBroker.__init__`
abbrev pub new_broker :
    String → Option AccountType → Bool → Bool → List BrokerPosition → Bool → MockBroker
new_broker account_id override denied fail_connect initial fill_market = record {
  account_id = account_id;
  account_type_override = override;
  permission_denied = denied;
  fail_connect = fail_connect;
  fill_market_orders = fill_market;
  connection_state = ConnectionState.disconnected;
  connected_at = none;
  last_heartbeat = none;
  positions = Keyed.set_all (λ (p : BrokerPosition). p.con_id) initial [];
  open_orders = [];
  fills = [];
  order_counter = 0;
  exec_counter = 0;
  tick_counter = [];
  subscribed = [];
}

-- The test controls: `set_account_type`, `set_permission_denied`, `force_disconnect` and
-- `seed_position`.
unfoldable pub set_account_type : AccountType → MockBroker → MockBroker
set_account_type account_type b = record b { account_type_override = some account_type }

unfoldable pub set_permission_denied : Bool → MockBroker → MockBroker
set_permission_denied denied b = record b { permission_denied = denied }

unfoldable pub force_disconnect : ConnectionState → MockBroker → MockBroker
force_disconnect state b = record b { connection_state = state; subscribed = [] }

unfoldable pub seed_position : BrokerPosition → MockBroker → MockBroker
seed_position p b = record b { positions = Keyed.set p.con_id p b.positions }

-- `MockBroker.is_connected`
abbrev pub is_connected : MockBroker → Bool
is_connected b = b.connection_state is ConnectionState.connected

-- `MockBroker.get_connection_info`, of which the fields that vary are kept.
pub record ConnectionInfo : Type 0 where
  pub connected : Bool
  pub account_type : AccountType
  pub account_id : Option String
  pub connection_time : Option ℤ

unfoldable pub get_connection_info : MockBroker → ConnectionInfo
get_connection_info b = record {
  connected = is_connected b;
  account_type =
      if is_connected b
      then get_or b.account_type_override AccountType.simulated
      else AccountType.unknown;
  account_id = if is_connected b then some b.account_id else none;
  connection_time = b.connected_at;
}

-- `MockBroker.connect`
unfoldable pub connect : ℤ → MockBroker → Result BrokerError ConnectionInfo × MockBroker
connect at b =
    if b.fail_connect
    then (err BrokerError.connection_error, record b { connection_state = ConnectionState.failed })
    else (let up = record b {
      connected_at = some at;
      last_heartbeat = some at;
      connection_state = ConnectionState.connected;
    } in
        (ok (get_connection_info up), up))

-- `MockBroker.disconnect`
unfoldable pub disconnect : MockBroker → MockBroker
disconnect b = record b { connection_state = ConnectionState.disconnected; subscribed = [] }

-- `MockBroker.get_account_summary`
unfoldable pub get_account_summary : ℤ → MockBroker → Result BrokerError AccountSummary × MockBroker
get_account_summary at b = if not (is_connected b) then (err BrokerError.connection_error, b) else (
  ok (record {
    account_type = (get_connection_info b).account_type;
    futures_permission = some (not b.permission_denied);
  }),
  record b { last_heartbeat = some at },
)

-- `MockBroker.get_positions`, `get_open_orders` and `get_fills`, whose clock reads `now`, in
-- microseconds as `since`.
unfoldable pub get_positions : MockBroker → Result BrokerError (List BrokerPosition)
get_positions b =
    if not (is_connected b) then err BrokerError.connection_error else ok (Keyed.values b.positions)

unfoldable pub get_open_orders : MockBroker → Result BrokerError (List BrokerOrderSnapshot)
get_open_orders b =
    if not (is_connected b)
    then err BrokerError.connection_error
    else ok (Named.values b.open_orders)

unfoldable pub get_fills : ℤ → ℤ → MockBroker → Result BrokerError (List BrokerFill)
get_fills now since b =
    if not (is_connected b)
    then err BrokerError.connection_error
    else ok (filter (λ (f : BrokerFill). leb_ℤ (now -ℤ since) f.executed_at) b.fills)

-- `self._subscribed.add` and `discard`
abbrev add_key : String → List String → List String
add_key k ks = if any (str_eq k) ks then ks else ks ++ k ∷ []

abbrev discard_key : String → List String → List String
discard_key k ks = filter (λ j. not (str_eq k j)) ks

-- The tick of `_next_tick`.
abbrev walk_tick : Simulation → ℤ → ℕ → QualifiedContract → FuturesProduct → MarketDataTick
walk_tick sim at step c product =
    let key = sim.contract_key c.con_id in
    let mid = add_decimal product.mock_reference_price (sim.drift key step) in
    record {
      contract_key = key;
      received_at = at;
      source = "mock";
      bid = some (sub_decimal mid c.min_tick);
      ask = some (add_decimal mid c.min_tick);
      last = some mid;
      is_delayed = false;
    }

abbrev pub tick_for :
    Simulation → ℤ → ℕ → QualifiedContract → Option FuturesProduct → Option MarketDataTick
tick_for sim at step c none = none
tick_for sim at step c (some product) = some (walk_tick sim at step c product)

-- `MockBroker._next_tick`: none is the `KeyError` of `get_product`, after the count has grown.
unfoldable pub next_tick :
    Simulation → ℤ → QualifiedContract → MockBroker → Option MarketDataTick × MockBroker
next_tick sim at c b =
    let key = sim.contract_key c.con_id in
    let step = get_or (Named.get key b.tick_counter) 0 in
    (
      tick_for sim at step c (get_product sim.strip sim.upper c.symbol),
      record b { tick_counter = Named.set key (suc step) b.tick_counter },
    )

-- How a call for market data ends: it returns, it raises a `BrokerError`, or it raises the `KeyError`.
pub data DataReply : Type 0 where
  returned : MarketDataTick → DataReply
  refused : BrokerError → DataReply
  crashed : DataReply

abbrev data_reply : Option MarketDataTick → DataReply
data_reply none = DataReply.crashed
data_reply (some tick) = DataReply.returned tick

-- `MockBroker.request_market_data`
unfoldable pub request_market_data :
    Simulation → ℤ → QualifiedContract → MockBroker → DataReply × MockBroker
request_market_data sim at c b =
    let noted = record b {
      subscribed = add_key (sim.contract_key c.con_id) b.subscribed;
      last_heartbeat = some at;
    } in
    let (tick, after) = next_tick sim at c noted in
    if not (is_connected b)
    then (DataReply.refused BrokerError.connection_error, b)
    else if b.permission_denied
    then (DataReply.refused BrokerError.permission_error, b)
    else (data_reply tick, after)

-- `MockBroker.cancel_market_data`
unfoldable pub cancel_market_data : Simulation → QualifiedContract → MockBroker → MockBroker
cancel_market_data sim c b = record b {
  subscribed = discard_key (sim.contract_key c.con_id) b.subscribed;
}
