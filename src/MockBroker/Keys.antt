-- ===== src/MockBroker/Keys.antt =====
-- app/broker/mock_broker.py: each contract has one simulated position, under its own contract id.
use pgjp_trading.Prelude.{
  suc, String, true, not, Option, none, some, List, [], ◌∷◌, ◌≡◌, refl, ◌∙◌, Bool-cases, inl, inr,
  if_after, ◌is◌, ◌&&◌,
}
use pgjp_trading.Prelude.Int.{ℤ, pos, eqb_ℤ, eqb_ℤ_iff}
use pgjp_trading.Enums.{OrderType, order_type_enumeration}
use pgjp_trading.Decimal.{Decimal}
use pgjp_trading.Contract.{QualifiedContract}
use pgjp_trading.Broker.{BrokerError, BrokerFill, BrokerPosition, MarketDataTick, OrderRequest}
use pgjp_trading.Keyed.{get, values, IsKeyed, set-IsKeyed, pop-IsKeyed}
use pgjp_trading.Reconciliation.Matching.{broker_quantity}
use pgjp_trading.MockBroker.{
  Simulation, MockBroker, is_connected, seed_position, set_account_type, set_permission_denied,
  force_disconnect, connect, disconnect, get_account_summary, cancel_market_data, next_tick,
}
use pgjp_trading.MockBroker.Orders.{
  held_quantity, apply_fill_to_positions, reposition, fill_at, after_tick, simulate_fill, refusal,
  stored, accept, unless_refused, place_order, cancel_order, cancel_all_orders, snapshot_of,
}
use pgjp_trading.MockBroker.Operations.{Operation, perform, perform_all}
use pgjp_trading.MockBroker.Accounts.{request_market_data-same, modify_order-same}

abbrev pub ArePositions : List (ℤ × BrokerPosition) → Type 0
ArePositions ps = IsKeyed (λ (p : BrokerPosition). p.con_id) (λ p. true) ps

abbrev pub HasKeys : MockBroker → Type 0
HasKeys b = ArePositions b.positions

apply-HasKeys :
    (f : BrokerFill) (c : QualifiedContract) (b : MockBroker)
    → HasKeys b
    → HasKeys (apply_fill_to_positions f c b).1
unfolding apply_fill_to_positions
apply-HasKeys f c b v =
    if_after HasKeys _ _ _
      (pop-IsKeyed (λ (p : BrokerPosition). p.con_id) (λ p. true) f.con_id b.positions v)
      (go _ c.multiplier)
  where
    go : (q : ℤ) (m : Option Decimal) → HasKeys (reposition f c q m b).1
    go q none = v
    go q (some m) = set-IsKeyed (λ (p : BrokerPosition). p.con_id) (λ p. true) _ b.positions refl v

accept-HasKeys :
    (sim : Simulation) (at : ℤ) (r : OrderRequest) (b : MockBroker)
    → HasKeys b
    → HasKeys (accept sim at r b).1
unfolding accept simulate_fill next_tick fill_at
accept-HasKeys sim at r b v =
    if_after HasKeys (r.order_type is OrderType.market && b.fill_market_orders) _ _
      (go (next_tick sim at r.contract (stored sim r b)).0) v
  where
    go :
        (tick : Option MarketDataTick)
        → HasKeys
            (after_tick sim at tick
              (snapshot_of (sim.order_id (suc b.order_counter)) r)
              r.contract
              (next_tick sim at r.contract (stored sim r b)).1).1
    go none = v
    go (some tick) = apply-HasKeys _ r.contract _ v

place_order-HasKeys :
    (sim : Simulation) (at : ℤ) (r : OrderRequest) (b : MockBroker)
    → HasKeys b
    → HasKeys (place_order sim at r b).1
unfolding place_order
place_order-HasKeys sim at r b v = go (refusal r b)
  where
    go : (o : Option (BrokerError × String)) → HasKeys (unless_refused o b (accept sim at r b)).1
    go none = accept-HasKeys sim at r b v
    go (some (e, message)) = v

perform-HasKeys :
    (sim : Simulation) (o : Operation) (b : MockBroker) → HasKeys b → HasKeys (perform sim o b)
unfolding perform seed_position set_account_type set_permission_denied force_disconnect connect
    disconnect get_account_summary cancel_market_data cancel_order cancel_all_orders
perform-HasKeys sim (Operation.seeded p) b v =
    set-IsKeyed (λ (q : BrokerPosition). q.con_id) (λ q. true) p b.positions refl v
perform-HasKeys sim (Operation.account_type t) b v = v
perform-HasKeys sim (Operation.permission_denied d) b v = v
perform-HasKeys sim (Operation.forced_disconnect s) b v = v
perform-HasKeys sim (Operation.connected at) b v = if_after HasKeys b.fail_connect _ _ v v
perform-HasKeys sim Operation.disconnected b v = v
perform-HasKeys sim (Operation.summary at) b v = if_after HasKeys (not (is_connected b)) _ _ v v
perform-HasKeys sim (Operation.data_requested at c) b v =
    rw ((request_market_data-same sim at c b).0) v
perform-HasKeys sim (Operation.data_cancelled c) b v = v
perform-HasKeys sim (Operation.placed at r) b v = place_order-HasKeys sim at r b v
perform-HasKeys sim (Operation.modified r id) b v = rw ((modify_order-same r id b).0) v
perform-HasKeys sim (Operation.cancelled id) b v = if_after HasKeys (not (is_connected b)) _ _ v v
perform-HasKeys sim Operation.all_cancelled b v = if_after HasKeys (not (is_connected b)) _ _ v v

pub perform_all-HasKeys :
    (sim : Simulation) (os : List Operation) (b : MockBroker)
    → HasKeys b
    → HasKeys (perform_all sim os b)
unfolding perform_all
perform_all-HasKeys sim [] b v = v
perform_all-HasKeys sim (o ∷ os) b v =
    perform_all-HasKeys sim os (perform sim o b) (perform-HasKeys sim o b v)

quantity_or : Option BrokerPosition → ℤ → ℤ
quantity_or none default = default
quantity_or (some p) default = p.quantity

broker_quantity_or :
    (c : ℤ) (ps : List (ℤ × BrokerPosition)) (default : ℤ)
    → ArePositions ps
    → broker_quantity c (values ps) default ≡ quantity_or (get c ps) default
unfolding quantity_or
broker_quantity_or c [] default v = refl
broker_quantity_or c ((k, p) ∷ rest) default (own, kept, fresh, v) =
    rw own (elim (Bool-cases (eqb_ℤ k c)) [
      | inl e ↦ rw (e, broker_quantity_or c rest p.quantity v, ← (eqb_ℤ_iff k c).0 e, fresh) refl
      | inr e ↦ rw e (broker_quantity_or c rest default v)
    ])

-- What the broker reports is what it holds.
pub broker_quantity-held :
    (c : ℤ) (ps : List (ℤ × BrokerPosition))
    → ArePositions ps
    → broker_quantity c (values ps) (pos 0) ≡ held_quantity (get c ps)
unfolding quantity_or
broker_quantity-held c ps v = broker_quantity_or c ps (pos 0) v ∙ go (get c ps)
  where
    go : (o : Option BrokerPosition) → quantity_or o (pos 0) ≡ held_quantity o
    go none = refl
    go (some p) = refl
