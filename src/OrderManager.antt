-- ===== src/OrderManager.antt =====
-- app/execution/order_manager.py: the path from an intent to the broker. What a call reads from
-- outside is in its `Submission`: the clock, the drawn order id, and how the broker answers a
-- request. The store holds the table of orders, the recorded risk decisions, and, for the order of
-- effects, a trace of the writes and of the requests, the latest first. Log lines are left out, and
-- of an outcome its error text.
pub mod Pipeline
pub mod Trace
pub mod Once
pub mod Sound
pub mod Approvals
pub mod Durable
pub mod Replay
pub mod Progress
pub mod Delta
pub use Pipeline.{
  Manager, Submission, Event, Store, OutcomeKind, outcome_kind_enumeration, SubmissionOutcome,
}
unfoldable pub use Pipeline.{submit_intent}
use pgjp_trading.Prelude.{ℕ, List, [], ◌∷◌, ◌≡◌, Bool}
use pgjp_trading.Prelude.Int.{ℤ, pos, ◌-ℤ◌, ltb_ℤ, eqb_ℤ, nat_abs}
use pgjp_trading.Prelude.{if◌then◌else◌, length}
use pgjp_trading.Enums.{OrderSide, OrderStatus}
use pgjp_trading.Order.{Order, mark_status}
use pgjp_trading.Repository.{open_orders, update}

-- `OrderManager.delta_to_side_and_quantity`
unfoldable pub delta_to_side_and_quantity : ℤ → ℤ → OrderSide × ℤ
delta_to_side_and_quantity current_position requested_position =
    let delta = requested_position -ℤ current_position in
    if eqb_ℤ delta (pos 0)
    then (OrderSide.buy, pos 0)
    else (if ltb_ℤ (pos 0) delta then OrderSide.buy else OrderSide.sell, pos (nat_abs delta))

mark_all : ℤ → List Order → List Order → List Order
mark_all now [] table = table
mark_all now (o ∷ rest) table =
    mark_all now rest (update (mark_status OrderStatus.cancel_pending now o) table)

-- `OrderManager.cancel_all_orders`, once the broker has answered.
unfoldable pub cancel_all_orders : ℤ → List Order → List Order
unfolding mark_all
cancel_all_orders now table = mark_all now (open_orders table) table
