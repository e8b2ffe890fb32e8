-- ===== src/Repository.antt =====
-- app/state/repositories.py, OrderRepository over the table `orders` of app/state/database.py: a list
-- of rows, in order of insertion. Rows hold orders: the text form of a column is left out.
mod Rows
unfoldable pub use Rows.*
use pgjp_trading.Prelude.{
  ℕ, String, Bool, true, false, not, ◌&&◌, Option, none, some, List, [], ◌∷◌, ◌++◌, map, is_some,
  if◌then◌else◌, str_eq, filter, any, find, length,
}
use pgjp_trading.Prelude.Int.{ℤ, leb_ℤ, ltb_ℤ}
use pgjp_trading.Enums.{is_open}
use pgjp_trading.Order.{Order}

-- `OrderRepository.get_by_broker_order_id`: SQL's `=` is false at NULL.
unfoldable pub get_by_broker_order_id : String → List Order → Option Order
get_by_broker_order_id id table = find (λ o. has_id o.broker_order_id) table
  where
    has_id : Option String → Bool
    has_id none = false
    has_id (some i) = str_eq i id

-- `ORDER BY created_at`
insert_by_time : Order → List Order → List Order
insert_by_time o [] = o ∷ []
insert_by_time o (x ∷ xs) =
    let rest = insert_by_time o xs in
    if ltb_ℤ o.created_at x.created_at then o ∷ x ∷ xs else x ∷ rest

sort_by_time : List Order → List Order → List Order
sort_by_time [] sorted = sorted
sort_by_time (o ∷ rows) sorted = sort_by_time rows (insert_by_time o sorted)

-- `OrderRepository.open_orders`
unfoldable pub open_orders : List Order → List Order
unfolding sort_by_time insert_by_time
open_orders table = sort_by_time (filter (λ o. is_open o.status) table) []

abbrev was_sent_since : ℤ → Option ℤ → Bool
was_sent_since since none = false
was_sent_since since (some at) = leb_ℤ since at

-- `OrderRepository.count_since`
unfoldable pub count_since : ℤ → List Order → ℕ
count_since since table = length (filter (λ o. was_sent_since since o.transmitted_at) table)

abbrev pub OpenOrder : Type 0
OpenOrder = String × Option String × String

-- `OrderRepository.open_order_tuples`
unfoldable pub open_order_tuples : List Order → List OpenOrder
unfolding open_orders
open_order_tuples table =
    map (λ o. (o.internal_order_id, o.broker_order_id, o.symbol)) (open_orders table)
