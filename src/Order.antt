-- ===== src/Order.antt =====
-- app/execution/order_models.py: the order and its operations. A method that changes `self` returns
-- the new order; `at` is the instant given, or the clock's reading where none is given. The text
-- forms (`describe`, `block_reasons_json`) are left out.
pub mod Fills
use pgjp_trading.Prelude.{
  String, Bool, true, false, not, ◌&&◌, ◌||◌, Option, none, some, List, [], ◌∷◌, ◌is◌, contains,
  is_some, get_or, if◌then◌else◌, str_eq, Result, ok, err, ◌==◌, filter,
}
use pgjp_trading.Prelude.Int.{ℤ, pos, ltb_ℤ, leb_ℤ, eqb_ℤ, ◌+ℤ◌}
use pgjp_trading.Decimal.{
  Decimal, of_int, zero_decimal, le_decimal, add_decimal, mul_decimal, div_decimal,
}
use pgjp_trading.Enums.{
  TradingMode, AccountType, OrderSide, OrderType, OrderStatus, TimeInForce, is_open, reached_broker,
  order_side_enumeration, order_type_enumeration,
}
use pgjp_trading.Contract.{QualifiedContract}

pub record Order : Type 0 where
  pub idempotency_key : String
  pub correlation_id : String
  pub strategy_id : String
  pub run_id : String
  pub internal_order_id : String
  pub intent_id : Option String
  pub symbol : String
  pub con_id : ℤ
  pub local_symbol : String
  pub exchange : String
  pub currency : String
  pub side : OrderSide
  pub quantity : ℤ
  pub order_type : OrderType
  pub time_in_force : TimeInForce
  pub limit_price : Option Decimal
  pub stop_price : Option Decimal
  pub status : OrderStatus
  pub broker_order_id : Option String
  pub filled_quantity : ℤ
  pub average_fill_price : Option Decimal
  pub commission : Option Decimal
  pub commission_currency : Option String
  pub error_code : Option String
  pub error_message : Option String
  pub block_reasons : List String
  pub trading_mode : TradingMode
  pub account_type : AccountType
  pub created_at : ℤ
  pub updated_at : ℤ
  pub transmitted_at : Option ℤ

-- The errors of `OrderValidationError`; the last is the division by zero that an average may raise.
pub data OrderError : Type 0 where
  quantity_not_positive no_qualified_contract no_symbol : OrderError
  market_with_price limit_without_price limit_with_stop : OrderError
  stop_without_price stop_with_limit stop_limit_without_stop stop_limit_without_limit : OrderError
  bracket_as_order : OrderError
  not_transmitted : OrderType → OrderError
  over_fill no_protective_child child_on_same_side child_quantity_differs : OrderError
  division_by_zero : OrderError

-- `_require_positive`: whether it raises.
abbrev is_not_positive : Option Decimal → Bool
is_not_positive none = true
is_not_positive (some price) = le_decimal price zero_decimal

validate_prices : OrderType → Option Decimal → Option Decimal → Option OrderError
validate_prices OrderType.market limit stop =
    if is_some limit || is_some stop then some OrderError.market_with_price else none
validate_prices OrderType.limit limit stop =
    if is_not_positive limit
    then some OrderError.limit_without_price
    else if is_some stop
    then some OrderError.limit_with_stop
    else none
validate_prices OrderType.stop limit stop =
    if is_not_positive stop
    then some OrderError.stop_without_price
    else if is_some limit
    then some OrderError.stop_with_limit
    else none
validate_prices OrderType.stop_limit limit stop =
    if is_not_positive stop
    then some OrderError.stop_limit_without_stop
    else if is_not_positive limit
    then some OrderError.stop_limit_without_limit
    else none
validate_prices OrderType.bracket limit stop = some OrderError.bracket_as_order

-- `Order.validate`: the error that it raises, or none.
unfoldable pub validate : Order → Option OrderError
unfolding validate_prices
validate o =
    if leb_ℤ o.quantity (pos 0)
    then some OrderError.quantity_not_positive
    else if leb_ℤ o.con_id (pos 0)
    then some OrderError.no_qualified_contract
    else if str_eq o.symbol ""
    then some OrderError.no_symbol
    else validate_prices o.order_type o.limit_price o.stop_price

abbrev pub transmittable_order_types : List OrderType
transmittable_order_types = OrderType.market ∷ OrderType.limit ∷ []

-- `Order.require_transmittable_type`
unfoldable pub require_transmittable_type : Order → Option OrderError
require_transmittable_type o =
    if not (contains o.order_type transmittable_order_types)
    then some (OrderError.not_transmitted o.order_type)
    else none

-- `Order.was_transmitted`
abbrev pub was_transmitted : Order → Bool
was_transmitted o = reached_broker o.status || is_some o.broker_order_id

unfoldable pub mark_blocked : List String → ℤ → Order → Order
mark_blocked reasons at o = record o {
  status = OrderStatus.blocked;
  block_reasons = reasons;
  updated_at = at;
}

unfoldable pub mark_pending_submit : ℤ → Order → Order
mark_pending_submit at o = record o {
  status = OrderStatus.pending_submit;
  transmitted_at = some at;
  updated_at = at;
}

unfoldable pub mark_submitted : String → ℤ → Order → Order
mark_submitted broker_order_id at o = record o {
  broker_order_id = some broker_order_id;
  status = OrderStatus.submitted;
  updated_at = at;
}

unfoldable pub mark_status : OrderStatus → ℤ → Order → Order
mark_status status at o = record o { status = status; updated_at = at }

unfoldable pub mark_rejected : Option String → String → ℤ → Order → Order
mark_rejected code message at o = record o {
  status = OrderStatus.rejected;
  error_code = code;
  error_message = some message;
  updated_at = at;
}

unfoldable pub mark_error : Option String → String → ℤ → Order → Order
mark_error code message at o = record o {
  status = OrderStatus.error;
  error_code = code;
  error_message = some message;
  updated_at = at;
}

-- The average price after a fill.
abbrev blend : Option Decimal → ℤ → ℤ → Decimal → Decimal
blend none previous quantity price = price
blend (some average) previous quantity price =
    if eqb_ℤ previous (pos 0)
    then price
    else div_decimal
        (add_decimal (mul_decimal average (of_int previous)) (mul_decimal price (of_int quantity)))
        (of_int (previous +ℤ quantity))

abbrev add_commission : Option Decimal → Option Decimal → Option Decimal
add_commission old none = old
add_commission old (some commission) = some (add_decimal (get_or old zero_decimal) commission)

abbrev pick_currency : Option Decimal → Option String → Option String → Option String
pick_currency none old new = old
pick_currency (some commission) old new = new

-- `Order.apply_fill`
unfoldable pub apply_fill :
    ℤ → Decimal → Option Decimal → Option String → ℤ → Order → Result OrderError Order
apply_fill quantity price commission currency at o =
    let new_filled = o.filled_quantity +ℤ quantity in
    if ltb_ℤ o.quantity new_filled
    then err OrderError.over_fill
    else if is_some o.average_fill_price
        && not (eqb_ℤ o.filled_quantity (pos 0))
        && eqb_ℤ new_filled (pos 0)
    then err OrderError.division_by_zero
    else ok (record o {
      average_fill_price = some (blend o.average_fill_price o.filled_quantity quantity price);
      filled_quantity = new_filled;
      commission = add_commission o.commission commission;
      commission_currency = pick_currency commission o.commission_currency currency;
      status =
          if eqb_ℤ new_filled o.quantity then OrderStatus.filled else OrderStatus.partially_filled;
      updated_at = at;
    })

-- What `build_order` is called with, beside the contract.
pub record OrderTerms : Type 0 where
  pub side : OrderSide
  pub quantity : ℤ
  pub order_type : OrderType
  pub idempotency_key : String
  pub correlation_id : String
  pub strategy_id : String
  pub run_id : String
  pub trading_mode : TradingMode
  pub account_type : AccountType
  pub intent_id : Option String
  pub limit_price : Option Decimal
  pub stop_price : Option Decimal
  pub time_in_force : TimeInForce

-- The order that `build_order` constructs, with the id that `new_internal_order_id` draws.
abbrev pub fresh_order : QualifiedContract → OrderTerms → String → ℤ → Order
fresh_order contract terms internal_order_id at = record {
  idempotency_key = terms.idempotency_key;
  correlation_id = terms.correlation_id;
  strategy_id = terms.strategy_id;
  run_id = terms.run_id;
  internal_order_id = internal_order_id;
  intent_id = terms.intent_id;
  symbol = contract.symbol;
  con_id = contract.con_id;
  local_symbol = contract.local_symbol;
  exchange = contract.exchange;
  currency = contract.currency;
  side = terms.side;
  quantity = terms.quantity;
  order_type = terms.order_type;
  time_in_force = terms.time_in_force;
  limit_price = terms.limit_price;
  stop_price = terms.stop_price;
  status = OrderStatus.new;
  broker_order_id = none;
  filled_quantity = pos 0;
  average_fill_price = none;
  commission = none;
  commission_currency = none;
  error_code = none;
  error_message = none;
  block_reasons = [];
  trading_mode = terms.trading_mode;
  account_type = terms.account_type;
  created_at = at;
  updated_at = at;
  transmitted_at = none;
}

raise_or_order : Option OrderError → Order → Result OrderError Order
raise_or_order none o = ok o
raise_or_order (some e) o = err e

-- `build_order`
unfoldable pub build_order : QualifiedContract → OrderTerms → String → ℤ → Result OrderError Order
unfolding raise_or_order
build_order contract terms internal_order_id at =
    let o = fresh_order contract terms internal_order_id at in raise_or_order (validate o) o

pub record BracketOrder : Type 0 where
  pub parent : Order
  pub take_profit : Option Order
  pub stop_loss : Option Order

validate_child : Order → Option Order → Option OrderError
validate_child parent none = none
validate_child parent (some child) = elim (validate child) [
  | some e ↦ some e
  | none ↦
      if child.side is parent.side
      then some OrderError.child_on_same_side
      else if not (eqb_ℤ child.quantity parent.quantity)
      then some OrderError.child_quantity_differs
      else none
]

-- The first error of two.
abbrev or_else : Option OrderError → Option OrderError → Option OrderError
or_else (some e) later = some e
or_else none later = later

-- `BracketOrder.validate`
unfoldable pub validate_bracket : BracketOrder → Option OrderError
unfolding validate_child
validate_bracket b = or_else (validate b.parent) (
    if not (is_some b.take_profit) && not (is_some b.stop_loss)
    then some OrderError.no_protective_child
    else or_else (validate_child b.parent b.take_profit) (validate_child b.parent b.stop_loss))
