-- ===== src/MockBroker/Numbering/Kept.antt =====
-- app/broker/mock_broker.py: no operation gives an id twice.
use pgjp_trading.Prelude.{
  ◌is◌, ◌&&◌, some, Option, Bool, not, suc, String, none, List, [], ◌∷◌, ◌≡◌, refl, if_after,
}
use pgjp_trading.Broker.{
  BrokerFill, BrokerOrderSnapshot, BrokerPosition, OrderRequest, BrokerError, MarketDataTick,
}
use pgjp_trading.Application.Ingestion.{new_fills}
use pgjp_trading.Named.{get}
use pgjp_trading.MockBroker.{Simulation, new_broker}
use pgjp_trading.Prelude.Int.{ℤ}
use pgjp_trading.Decimal.{Decimal}
use pgjp_trading.Contract.{QualifiedContract}
use pgjp_trading.Enums.{AccountType, OrderType, order_type_enumeration}
use pgjp_trading.MockBroker.Orders.{
  apply_fill_to_positions, reposition, fill_at, after_tick, simulate_fill, refusal, snapshot_of,
  stored, accept, unless_refused, place_order, modify_working, modify_order, cancel_order,
  cancel_all_orders,
}
use pgjp_trading.MockBroker.Operations.{Operation, perform, perform_all}
use pgjp_trading.MockBroker.{
  MockBroker, is_connected, seed_position, set_account_type, set_permission_denied,
  force_disconnect, connect, disconnect, get_account_summary, request_market_data,
  cancel_market_data, next_tick,
}
use pgjp_trading.MockBroker.Numbering.{
  IsFormat, Numbered, differs, store-IsNumbered, fill-IsNumbered, modify-IsNumbered,
  cancel-IsNumbered, clear-IsNumbered,
}

module _ (sim : Simulation) (format : IsFormat sim) where
  apply-Numbered :
      (f : BrokerFill) (c : QualifiedContract) (b : MockBroker)
      → Numbered sim b
      → Numbered sim (apply_fill_to_positions f c b).1
  unfolding apply_fill_to_positions
  apply-Numbered f c b v = if_after (Numbered sim) _ _ _ v (go _ c.multiplier)
    where
      go : (q : ℤ) (m : Option Decimal) → Numbered sim (reposition f c q m b).1
      go q none = v
      go q (some m) = v

  -- The order that is filled was just stored.
  accept-Numbered :
      (at : ℤ) (r : OrderRequest) (b : MockBroker)
      → Numbered sim b
      → Numbered sim (accept sim at r b).1
  unfolding accept simulate_fill next_tick fill_at
  accept-Numbered at r b v =
      if_after (Numbered sim) (r.order_type is OrderType.market && b.fill_market_orders) _ _
        (go (next_tick sim at r.contract (stored sim r b)).0) kept
    where
      kept : Numbered sim (stored sim r b)
      kept = store-IsNumbered sim format b.open_orders b.fills b.order_counter b.exec_counter v _

      go :
          (tick : Option MarketDataTick)
          → Numbered sim
              (after_tick sim at tick
                (snapshot_of (sim.order_id (suc b.order_counter)) r)
                r.contract
                (next_tick sim at r.contract (stored sim r b)).1).1
      go none = kept
      go (some tick) = apply-Numbered _ r.contract _ (
          fill-IsNumbered sim format _ b.fills (suc b.order_counter) b.exec_counter kept _ refl
            (λ n h. differs sim.order_id format.orders (suc b.order_counter) n h))

  place_order-Numbered :
      (at : ℤ) (r : OrderRequest) (b : MockBroker)
      → Numbered sim b
      → Numbered sim (place_order sim at r b).1
  unfolding place_order
  place_order-Numbered at r b v = go (refusal r b)
    where
      go :
          (o : Option (BrokerError × String))
          → Numbered sim (unless_refused o b (accept sim at r b)).1
      go none = accept-Numbered at r b v
      go (some (e, message)) = v

  modify_order-Numbered :
      (r : OrderRequest) (id : String) (b : MockBroker)
      → Numbered sim b
      → Numbered sim (modify_order r id b).1
  unfolding modify_order
  modify_order-Numbered r id b v =
      if_after (Numbered sim) (not r.transmit) _ _ v
        (if_after (Numbered sim) (not (is_connected b)) _ _ v (go (get id b.open_orders) refl))
    where
      go :
          (o : Option BrokerOrderSnapshot)
          → get id b.open_orders ≡ o
          → Numbered sim (modify_working r id o b).1
      go none e = v
      go (some old) e =
          modify-IsNumbered sim format b.open_orders b.fills b.order_counter b.exec_counter v id old
            _ e

  perform-Numbered :
      (o : Operation) (b : MockBroker) → Numbered sim b → Numbered sim (perform sim o b)
  unfolding perform seed_position set_account_type set_permission_denied force_disconnect connect
      disconnect get_account_summary cancel_market_data cancel_order cancel_all_orders
      request_market_data next_tick
  perform-Numbered (Operation.seeded p) b v = v
  perform-Numbered (Operation.account_type t) b v = v
  perform-Numbered (Operation.permission_denied d) b v = v
  perform-Numbered (Operation.forced_disconnect s) b v = v
  perform-Numbered (Operation.connected at) b v = if_after (Numbered sim) b.fail_connect _ _ v v
  perform-Numbered Operation.disconnected b v = v
  perform-Numbered (Operation.summary at) b v =
      if_after (Numbered sim) (not (is_connected b)) _ _ v v
  perform-Numbered (Operation.data_requested at c) b v =
      if_after (Numbered sim) (not (is_connected b)) _ _ v
        (if_after (Numbered sim) b.permission_denied _ _ v v)
  perform-Numbered (Operation.data_cancelled c) b v = v
  perform-Numbered (Operation.placed at r) b v = place_order-Numbered at r b v
  perform-Numbered (Operation.modified r id) b v = modify_order-Numbered r id b v
  perform-Numbered (Operation.cancelled id) b v =
      if_after (Numbered sim) (not (is_connected b)) _ _ v
        (cancel-IsNumbered sim format b.open_orders b.fills b.order_counter b.exec_counter v id)
  perform-Numbered Operation.all_cancelled b v =
      if_after (Numbered sim) (not (is_connected b)) _ _ v
        (clear-IsNumbered sim format b.open_orders b.fills b.order_counter b.exec_counter v)

  pub perform_all-Numbered :
      (os : List Operation) (b : MockBroker) → Numbered sim b → Numbered sim (perform_all sim os b)
  unfolding perform_all
  perform_all-Numbered [] b v = v
  perform_all-Numbered (o ∷ os) b v =
      perform_all-Numbered os (perform sim o b) (perform-Numbered o b v)

  pub new_broker-Numbered :
      (account_id : String) (override : Option AccountType) (denied fail_connect : Bool)
      (initial : List BrokerPosition) (fill_market : Bool)
      → Numbered sim (new_broker account_id override denied fail_connect initial fill_market)
  unfolding new_fills
  new_broker-Numbered account_id override denied fail_connect initial fill_market = record {
    unused = λ n h. refl;
    unfilled = λ n h. refl;
    unreported = λ n h. refl;
    distinct = refl;
    settled = λ id h. refl;
  }
