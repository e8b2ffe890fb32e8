-- ===== src/MockBroker/Refusals.antt =====
-- app/broker/mock_broker.py: when the simulated broker refuses an order.
use pgjp_trading.Prelude.{
  String, Bool, true, false, not, ◌&&◌, Option, none, some, [], ◌∷◌, ◌≡◌, ◌↔◌, refl, Bool-cases,
  inl, inr, ◌is◌, contains, arith, is_some,
}
use pgjp_trading.Prelude.Int.{ℤ}
use pgjp_trading.Enums.{OrderType, order_type_enumeration}
use pgjp_trading.Broker.{BrokerError, OrderRequest, PlaceReply}
use pgjp_trading.MockBroker.{Simulation, MockBroker, is_connected}
use pgjp_trading.MockBroker.Orders.{refusal, accept, unless_refused, place_order, filled_reply}

-- Whether a call raises a `BrokerError`.
abbrev pub is_raised : PlaceReply → Bool
is_raised (PlaceReply.placed result) = false
is_raised (PlaceReply.raised error message) = true
is_raised PlaceReply.crashed = false

-- A request that the simulated broker takes.
abbrev pub is_taken : OrderRequest → MockBroker → Bool
is_taken r b =
    r.transmit
    && is_connected b
    && not b.permission_denied
    && contains r.order_type (OrderType.market ∷ OrderType.limit ∷ [])

refusal-is_taken : (r : OrderRequest) (b : MockBroker) → is_some (refusal r b) ≡ not (is_taken r b)
unfolding refusal
refusal-is_taken r b = ground arith

accept-returns :
    (sim : Simulation) (at : ℤ) (r : OrderRequest) (b : MockBroker)
    → is_raised (accept sim at r b).0 ≡ false
unfolding accept
accept-returns sim at r b =
    elim (Bool-cases (r.order_type is OrderType.market && b.fill_market_orders)) [
      | inl e ↦ rw e (go _ _)
      | inr e ↦ rw e refl
    ]
  where
    go : (id : String) (returns : Bool) → is_raised (filled_reply id returns) ≡ false
    go id true = refl
    go id false = refl

-- The simulated broker raises a `BrokerError` for a request exactly when the request does not
-- transmit, or the broker is not connected, or permission is denied, or the order is neither a market
-- nor a limit order; and then the broker is unchanged: no order, fill, count or position.
pub place_order-raised_iff :
    (sim : Simulation) (at : ℤ) (r : OrderRequest) (b : MockBroker)
    → ((is_raised (place_order sim at r b).0 ≡ true) ↔ (is_taken r b ≡ false))
      × (is_taken r b ≡ false → (place_order sim at r b).1 ≡ b)
unfolding place_order
place_order-raised_iff sim at r b = go (refusal r b) (refusal-is_taken r b)
  where
    go :
        (o : Option (BrokerError × String))
        → is_some o ≡ not (is_taken r b)
        → ((is_raised (unless_refused o b (accept sim at r b)).0 ≡ true) ↔ (is_taken r b ≡ false))
          × (is_taken r b ≡ false → (unless_refused o b (accept sim at r b)).1 ≡ b)
    go none e = (
      (λ h. ground (arith, h, accept-returns sim at r b), λ t. ground (arith, e, t)),
      λ t. ground (arith, e, t),
    )
    go (some (error, message)) e = ((λ h. ground (arith, e), λ t. refl), λ t. refl)
