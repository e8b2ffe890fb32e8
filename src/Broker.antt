-- ===== src/Broker.antt =====
-- app/broker/models.py: the vocabulary between the application and a brokerage. Account ids,
-- text forms and the fields that only reports read are left out.
use pgjp_trading.Prelude.{String, Bool, Option, some, none}
use pgjp_trading.Prelude.Int.{ℤ, pos, leb_ℤ}
use pgjp_trading.Decimal.{Decimal, add_decimal, div_decimal, of_int}
use pgjp_trading.Enums.{AccountType, OrderSide, OrderType, OrderStatus, TimeInForce}
use pgjp_trading.Contract.{QualifiedContract}

-- The classes of `BrokerError`.
pub data BrokerError : Type 0 where
  connection_error timeout_error permission_error contract_error : BrokerError
  order_rejected_error unsupported_operation_error other_error : BrokerError

-- `BrokerError.retryable`
abbrev pub retryable : BrokerError → Bool
retryable BrokerError.connection_error = Bool.true
retryable BrokerError.timeout_error = Bool.true
retryable _ = Bool.false

-- `type(exc).__name__`
abbrev pub error_name : BrokerError → String
error_name BrokerError.connection_error = "BrokerConnectionError"
error_name BrokerError.timeout_error = "BrokerTimeoutError"
error_name BrokerError.permission_error = "BrokerPermissionError"
error_name BrokerError.contract_error = "BrokerContractError"
error_name BrokerError.order_rejected_error = "BrokerOrderRejectedError"
error_name BrokerError.unsupported_operation_error = "BrokerUnsupportedOperationError"
error_name BrokerError.other_error = "BrokerError"

pub record AccountSummary : Type 0 where
  pub account_type : AccountType
  pub futures_permission : Option Bool

pub record BrokerPosition : Type 0 where
  pub account_id : String
  pub con_id : ℤ
  pub symbol : String
  pub local_symbol : String
  pub quantity : ℤ
  pub average_cost : Decimal

pub record BrokerOrderSnapshot : Type 0 where
  pub broker_order_id : String
  pub con_id : ℤ
  pub symbol : String
  pub side : OrderSide
  pub quantity : ℤ
  pub order_type : OrderType
  pub status : OrderStatus
  pub remaining_quantity : ℤ
  pub limit_price : Option Decimal
  pub stop_price : Option Decimal
  pub time_in_force : TimeInForce

pub record BrokerFill : Type 0 where
  pub execution_id : String
  pub broker_order_id : String
  pub con_id : ℤ
  pub symbol : String
  pub side : OrderSide
  pub quantity : ℤ
  pub price : Decimal
  pub executed_at : ℤ
  pub commission : Option Decimal
  pub commission_currency : Option String

pub record MarketDataTick : Type 0 where
  pub contract_key : String
  pub received_at : ℤ
  pub source : String
  pub bid : Option Decimal
  pub ask : Option Decimal
  pub last : Option Decimal
  pub is_delayed : Bool

-- `MarketDataTick.mid`, and `Quote.mid`, from the three prices.
abbrev pub mid_price : Option Decimal → Option Decimal → Option Decimal → Option Decimal
mid_price (some bid) (some ask) last = some (div_decimal (add_decimal bid ask) (of_int (pos 2)))
mid_price none ask last = last
mid_price (some bid) none last = last

pub record OrderRequest : Type 0 where
  pub internal_order_id : String
  pub correlation_id : String
  pub contract : QualifiedContract
  pub side : OrderSide
  pub quantity : ℤ
  pub order_type : OrderType
  pub time_in_force : TimeInForce
  pub limit_price : Option Decimal
  pub stop_price : Option Decimal
  pub transmit : Bool

-- `OrderRequest.__post_init__`: whether the request is refused.
abbrev pub is_refused_request : OrderRequest → Bool
is_refused_request r = leb_ℤ r.quantity (pos 0)

pub record PlaceOrderResult : Type 0 where
  pub accepted : Bool
  pub broker_order_id : Option String
  pub status : OrderStatus
  pub error_code : Option String
  pub error_message : Option String

-- How a call of `Broker.place_order` ends: it returns, it raises a `BrokerError` with its text, or it
-- raises something else.
pub data PlaceReply : Type 0 where
  placed : PlaceOrderResult → PlaceReply
  raised : BrokerError → String → PlaceReply
  crashed : PlaceReply
