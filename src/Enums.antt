-- ===== src/Enums.antt =====
-- app/enums.py: the domain enumerations, with the properties that are defined on them.
pub mod Parsing
use pgjp_trading.Prelude.{Bool, not, [], ◌∷◌, contains, Enumeration}
use pgjp_trading.Prelude.Int.{ℤ, pos, negsuc}

pub data TradingMode : Type 0 where
  disabled mock paper live : TradingMode

instance abbrev pub trading_mode_enumeration : Enumeration TradingMode
trading_mode_enumeration = record {
  index = elim [
    | TradingMode.disabled ↦ 0
    | TradingMode.mock ↦ 1
    | TradingMode.paper ↦ 2
    | TradingMode.live ↦ 3
  ];
}

-- `TradingMode.uses_ibkr`
abbrev pub uses_ibkr : TradingMode → Bool
uses_ibkr mode = contains mode (TradingMode.paper ∷ TradingMode.live ∷ [])

pub data AccountType : Type 0 where
  unknown simulated paper live : AccountType

instance abbrev pub account_type_enumeration : Enumeration AccountType
account_type_enumeration = record {
  index = elim [
    | AccountType.unknown ↦ 0
    | AccountType.simulated ↦ 1
    | AccountType.paper ↦ 2
    | AccountType.live ↦ 3
  ];
}

pub data ConnectionState : Type 0 where
  disconnected connecting connected reconnecting failed : ConnectionState

instance abbrev pub connection_state_enumeration : Enumeration ConnectionState
connection_state_enumeration = record {
  index = elim [
    | ConnectionState.disconnected ↦ 0
    | ConnectionState.connecting ↦ 1
    | ConnectionState.connected ↦ 2
    | ConnectionState.reconnecting ↦ 3
    | ConnectionState.failed ↦ 4
  ];
}

pub data ApplicationState : Type 0 where
  starting disconnected connecting reconciling safe ready halted error : ApplicationState

instance abbrev pub application_state_enumeration : Enumeration ApplicationState
application_state_enumeration = record {
  index = elim [
    | ApplicationState.starting ↦ 0
    | ApplicationState.disconnected ↦ 1
    | ApplicationState.connecting ↦ 2
    | ApplicationState.reconciling ↦ 3
    | ApplicationState.safe ↦ 4
    | ApplicationState.ready ↦ 5
    | ApplicationState.halted ↦ 6
    | ApplicationState.error ↦ 7
  ];
}

pub data OrderSide : Type 0 where
  buy sell : OrderSide

instance abbrev pub order_side_enumeration : Enumeration OrderSide
order_side_enumeration = record { index = elim [ OrderSide.buy ↦ 0 | OrderSide.sell ↦ 1 ] }

-- `OrderSide.sign`
abbrev pub sign : OrderSide → ℤ
sign OrderSide.buy = pos 1
sign OrderSide.sell = negsuc 0

pub data OrderType : Type 0 where
  market limit stop stop_limit bracket : OrderType

instance abbrev pub order_type_enumeration : Enumeration OrderType
order_type_enumeration = record {
  index = elim [
    | OrderType.market ↦ 0
    | OrderType.limit ↦ 1
    | OrderType.stop ↦ 2
    | OrderType.stop_limit ↦ 3
    | OrderType.bracket ↦ 4
  ];
}

pub data TimeInForce : Type 0 where
  day gtc ioc fok : TimeInForce

instance abbrev pub time_in_force_enumeration : Enumeration TimeInForce
time_in_force_enumeration = record {
  index = elim [
    | TimeInForce.day ↦ 0
    | TimeInForce.gtc ↦ 1
    | TimeInForce.ioc ↦ 2
    | TimeInForce.fok ↦ 3
  ];
}

pub data OrderStatus : Type 0 where
  new blocked pending_submit submitted acknowledged partially_filled filled cancel_pending cancelled
        rejected error :
      OrderStatus

instance abbrev pub order_status_enumeration : Enumeration OrderStatus
order_status_enumeration = record {
  index = elim [
    | OrderStatus.new ↦ 0
    | OrderStatus.blocked ↦ 1
    | OrderStatus.pending_submit ↦ 2
    | OrderStatus.submitted ↦ 3
    | OrderStatus.acknowledged ↦ 4
    | OrderStatus.partially_filled ↦ 5
    | OrderStatus.filled ↦ 6
    | OrderStatus.cancel_pending ↦ 7
    | OrderStatus.cancelled ↦ 8
    | OrderStatus.rejected ↦ 9
    | OrderStatus.error ↦ 10
  ];
}

-- `OrderStatus.is_terminal`, by `_TERMINAL_STATUSES`.
abbrev pub is_terminal : OrderStatus → Bool
is_terminal status = contains status (
    OrderStatus.blocked ∷ OrderStatus.filled ∷ OrderStatus.cancelled ∷ OrderStatus.rejected
    ∷ OrderStatus.error ∷ [])

-- `OrderStatus.is_open`, by `_OPEN_STATUSES`.
abbrev pub is_open : OrderStatus → Bool
is_open status = contains status (
    OrderStatus.pending_submit ∷ OrderStatus.submitted ∷ OrderStatus.acknowledged
    ∷ OrderStatus.partially_filled ∷ OrderStatus.cancel_pending ∷ [])

-- `OrderStatus.reached_broker`
abbrev pub reached_broker : OrderStatus → Bool
reached_broker status = not (contains status (OrderStatus.new ∷ OrderStatus.blocked ∷ []))

pub data Direction : Type 0 where
  long short flat : Direction

instance abbrev pub direction_enumeration : Enumeration Direction
direction_enumeration = record {
  index = elim [ Direction.long ↦ 0 | Direction.short ↦ 1 | Direction.flat ↦ 2 ];
}

pub data SecurityType : Type 0 where
  future continuous_future : SecurityType

instance abbrev pub security_type_enumeration : Enumeration SecurityType
security_type_enumeration = record {
  index = elim [ SecurityType.future ↦ 0 | SecurityType.continuous_future ↦ 1 ];
}
