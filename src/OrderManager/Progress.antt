-- ===== src/OrderManager/Progress.antt =====
-- app/execution/order_manager.py: a new order that is approved is sent.
use pgjp_trading.Order.{Order, fresh_order}
use pgjp_trading.Risk
use pgjp_trading.Gate.Clearance.{Clearance}
use pgjp_trading.OrderManager.Pipeline.{Manager, Submission, terms}

-- The order of the submission.
abbrev pub order_of : Manager → Submission → Order
order_of m sub = fresh_order sub.contract (terms m sub) sub.internal_order_id sub.now
