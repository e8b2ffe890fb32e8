-- ===== src/MockBroker/Orders.antt =====
-- app/broker/mock_broker.py: placing, filling, changing and cancelling orders. A call that raises
-- leaves behind what it had changed by then.
use pgjp_trading.Prelude.{
  suc, ◌<>◌, String, Bool, true, false, not, Option, none, some, [], ◌∷◌, ◌++◌, ◌is◌, if◌then◌else◌,
  Result, ok, err, get_or, is_some, length, ℕ, ◌&&◌, contains,
}
use pgjp_trading.Prelude.Int.{ℤ, pos, ◌+ℤ◌, ◌*ℤ◌, eqb_ℤ}
use pgjp_trading.Decimal.{Decimal, of_int, mul_decimal}
use pgjp_trading.Enums.{OrderStatus, OrderType, order_type_enumeration, sign}
use pgjp_trading.Contract.{QualifiedContract}
use pgjp_trading.Broker.{
  BrokerError, BrokerPosition, BrokerOrderSnapshot, BrokerFill, MarketDataTick, mid_price,
  OrderRequest, PlaceReply,
}
use pgjp_trading.MockBroker.{Simulation, MockBroker, is_connected, next_tick}
use pgjp_trading.Keyed
use pgjp_trading.Named

abbrev pub held_quantity : Option BrokerPosition → ℤ
held_quantity none = pos 0
held_quantity (some p) = p.quantity

-- The position after a fill that does not close it, with the contract's multiplier.
abbrev filled_position : String → BrokerFill → QualifiedContract → ℤ → Decimal → BrokerPosition
filled_position account_id f c new_quantity multiplier = record {
  account_id = account_id;
  con_id = f.con_id;
  symbol = f.symbol;
  local_symbol = c.local_symbol;
  quantity = new_quantity;
  average_cost = mul_decimal f.price multiplier;
}

-- `_apply_fill_to_positions` to a position that stays open, with what `multiplier_decimal` gives.
abbrev pub reposition :
    BrokerFill → QualifiedContract → ℤ → Option Decimal → MockBroker → Bool × MockBroker
reposition f c new_quantity none b = (false, b)
reposition f c new_quantity (some multiplier) b = (
  true,
  record b {
    positions =
        Keyed.set f.con_id (filled_position b.account_id f c new_quantity multiplier) b.positions;
  },
)

-- `MockBroker._apply_fill_to_positions`: whether it returns, and does not raise the `ContractError` of
-- `multiplier_decimal`; and the broker.
unfoldable pub apply_fill_to_positions :
    BrokerFill → QualifiedContract → MockBroker → Bool × MockBroker
apply_fill_to_positions f c b =
    let existing = Keyed.get f.con_id b.positions in
    let new_quantity = held_quantity existing +ℤ f.quantity *ℤ sign f.side in
    if eqb_ℤ new_quantity (pos 0)
    then (true, record b { positions = Keyed.pop f.con_id b.positions })
    else reposition f c new_quantity c.multiplier b

-- The price of a fill: the tick's middle, else the contract's tick.
abbrev fill_price : MarketDataTick → QualifiedContract → Decimal
fill_price tick c = get_or (mid_price tick.bid tick.ask tick.last) c.min_tick

abbrev pub fill_of : Simulation → ℤ → ℕ → Decimal → BrokerOrderSnapshot → BrokerFill
fill_of sim at counter price s = record {
  execution_id = sim.execution_id counter;
  broker_order_id = s.broker_order_id;
  con_id = s.con_id;
  symbol = s.symbol;
  side = s.side;
  quantity = s.quantity;
  price = price;
  executed_at = at;
  commission = some (mul_decimal (record { coefficient = pos 35; places = 2 }) (of_int s.quantity));
  commission_currency = some "USD";
}

-- The steps of `_simulate_fill` after the tick.
unfoldable pub fill_at :
    Simulation
    → ℤ
    → MarketDataTick
    → BrokerOrderSnapshot
    → QualifiedContract
    → MockBroker
    → Bool × MockBroker
fill_at sim at tick s c b =
    let fill = fill_of sim at (suc b.exec_counter) (fill_price tick c) s in
    apply_fill_to_positions fill c (record b {
      exec_counter = suc b.exec_counter;
      fills = b.fills ++ fill ∷ [];
      open_orders = Named.pop s.broker_order_id b.open_orders;
    })

-- `_simulate_fill` from the tick on; without one, `_next_tick` has raised the `KeyError`.
abbrev pub after_tick :
    Simulation
    → ℤ
    → Option MarketDataTick
    → BrokerOrderSnapshot
    → QualifiedContract
    → MockBroker
    → Bool × MockBroker
after_tick sim at none s c b = (false, b)
after_tick sim at (some tick) s c b = fill_at sim at tick s c b

-- `MockBroker._simulate_fill`: whether it returns, and the broker.
unfoldable pub simulate_fill :
    Simulation → ℤ → BrokerOrderSnapshot → QualifiedContract → MockBroker → Bool × MockBroker
simulate_fill sim at s c b =
    let (tick, ticked) = next_tick sim at c b in after_tick sim at tick s c ticked

-- The working order of a request.
abbrev pub snapshot_of : String → OrderRequest → BrokerOrderSnapshot
snapshot_of id r = record {
  broker_order_id = id;
  con_id = r.contract.con_id;
  symbol = r.contract.symbol;
  side = r.side;
  quantity = r.quantity;
  order_type = r.order_type;
  status = OrderStatus.submitted;
  remaining_quantity = r.quantity;
  limit_price = r.limit_price;
  stop_price = r.stop_price;
  time_in_force = r.time_in_force;
}

abbrev pub accepted : String → OrderStatus → PlaceReply
accepted id status = PlaceReply.placed (record {
  accepted = true;
  broker_order_id = some id;
  status = status;
  error_code = none;
  error_message = none;
})

-- `OrderType.value`
abbrev value : OrderType → String
value OrderType.market = "MARKET"
value OrderType.limit = "LIMIT"
value OrderType.stop = "STOP"
value OrderType.stop_limit = "STOP_LIMIT"
value OrderType.bracket = "BRACKET"

-- The refusals of `place_order`, in its order.
unfoldable pub refusal : OrderRequest → MockBroker → Option (BrokerError × String)
refusal r b =
    if not r.transmit
    then some (
      BrokerError.order_rejected_error,
      "refusing to place an order with transmit=False (this is the broker adapter's independent safety barrier)",
    )
    else if not (is_connected b)
    then some (BrokerError.connection_error, "mock broker is not connected")
    else if b.permission_denied
    then some (
      BrokerError.permission_error,
      "simulated trading permission denial: account not enabled for product",
    )
    else if not (contains r.order_type (OrderType.market ∷ OrderType.limit ∷ []))
    then some (
      BrokerError.order_rejected_error,
      "mock broker does not simulate " <> value r.order_type <> " orders in this phase",
    )
    else none

-- `place_order` from the new counter on: the working order is stored, then filled at once where it is
-- a market order and the broker fills those.
abbrev pub stored : Simulation → OrderRequest → MockBroker → MockBroker
stored sim r b =
    let id = sim.order_id (suc b.order_counter) in
    record b {
      order_counter = suc b.order_counter;
      open_orders = Named.set id (snapshot_of id r) b.open_orders;
    }

-- The answer after `_simulate_fill`, by whether that returned.
abbrev pub filled_reply : String → Bool → PlaceReply
filled_reply id true = accepted id OrderStatus.filled
filled_reply id false = PlaceReply.crashed

unfoldable pub accept : Simulation → ℤ → OrderRequest → MockBroker → PlaceReply × MockBroker
accept sim at r b =
    let id = sim.order_id (suc b.order_counter) in
    let (returns, filled) = simulate_fill sim at (snapshot_of id r) r.contract (stored sim r b) in
    if r.order_type is OrderType.market && b.fill_market_orders
    then (filled_reply id returns, filled)
    else (accepted id OrderStatus.submitted, stored sim r b)

abbrev pub unless_refused :
    Option (BrokerError × String) → MockBroker → PlaceReply × MockBroker → PlaceReply × MockBroker
unless_refused (some (error, message)) b answer = (PlaceReply.raised error message, b)
unless_refused none b answer = answer

-- `MockBroker.place_order`
unfoldable pub place_order : Simulation → ℤ → OrderRequest → MockBroker → PlaceReply × MockBroker
place_order sim at r b = unless_refused (refusal r b) b (accept sim at r b)

-- `modify_order` of an order that is or is not working.
abbrev pub modify_working :
    OrderRequest → String → Option BrokerOrderSnapshot → MockBroker → PlaceReply × MockBroker
modify_working r id none b = (
  PlaceReply.placed (record {
    accepted = false;
    broker_order_id = some id;
    status = OrderStatus.rejected;
    error_code = some "UNKNOWN_ORDER";
    error_message = some ("no working order " <> id);
  }),
  b,
)
modify_working r id (some existing) b = (
  accepted id OrderStatus.submitted,
  record b {
    open_orders =
        Named.set id
          (record (snapshot_of id r) { con_id = existing.con_id; symbol = existing.symbol })
          b.open_orders;
  },
)

-- `MockBroker.modify_order`
unfoldable pub modify_order : OrderRequest → String → MockBroker → PlaceReply × MockBroker
modify_order r id b =
    if not r.transmit
    then (
      PlaceReply.raised BrokerError.order_rejected_error
          "refusing to modify an order with transmit=False",
      b,
    )
    else if not (is_connected b)
    then (PlaceReply.raised BrokerError.connection_error "mock broker is not connected", b)
    else modify_working r id (Named.get id b.open_orders) b

-- `MockBroker.cancel_order`
unfoldable pub cancel_order : String → MockBroker → Result BrokerError Bool × MockBroker
cancel_order id b = if not (is_connected b) then (err BrokerError.connection_error, b) else (
  ok (is_some (Named.get id b.open_orders)),
  record b { open_orders = Named.pop id b.open_orders },
)

-- `MockBroker.cancel_all_orders`
unfoldable pub cancel_all_orders : MockBroker → Result BrokerError ℕ × MockBroker
cancel_all_orders b =
    if not (is_connected b)
    then (err BrokerError.connection_error, b)
    else (ok (length b.open_orders), record b { open_orders = [] })
