-- ===== src/Examples/Books.antt =====
-- The theorems on the position book and on reconciliation at concrete inputs.
use pgjp_trading.Prelude.{◌≡◌, ◌↔◌, refl, true, none, some, [], ◌∷◌, map}
use pgjp_trading.Prelude.Int.{ℤ, pos, ◌+ℤ◌}
use pgjp_trading.Decimal.{of_int}
use pgjp_trading.Enums.{OrderSide, OrderType, OrderStatus, TimeInForce}
use pgjp_trading.Broker.{BrokerPosition, BrokerOrderSnapshot, BrokerFill}
use pgjp_trading.Keyed.{get}
use pgjp_trading.Positions.{Position, PositionBook, Execution, quantity}
use pgjp_trading.Positions.Fills.{IsValid, Change, change, change-IsValid, apply_all}
use pgjp_trading.Reconciliation.{reconcile, succeeded, fills_to_position_deltas, or_zero}
use pgjp_trading.Reconciliation.Matching.{broker_quantity, OrdersAgree}
use pgjp_trading.Reconciliation.Agreement.{reconcile-succeeded_iff}
use pgjp_trading.Reconciliation.Deltas.{execution_of, quantity-deltas}
use pgjp_trading.Repository.{OpenOrder}
use pgjp_trading.Application.{ingest_fills}
use pgjp_trading.Application.Ingestion.{ingest_fills-again}
use pgjp_trading.Samples.{contract}

abbrev held : Position
held = record {
  con_id = pos 7;
  symbol = "MSL";
  local_symbol = "MSLH6";
  quantity = pos 2;
  average_cost = of_int (pos 150);
  updated_at = pos 1;
  account_id = "DU1";
  source = "local";
}

abbrev book : PositionBook
book = (pos 7, held) ∷ []

book-IsValid : IsValid book
book-IsValid = (refl, refl, refl, tt)

-- A sale of five.
abbrev sale : Execution
sale = record {
  con_id = pos 7;
  symbol = "MSL";
  local_symbol = "MSLH6";
  side = OrderSide.sell;
  quantity = pos 5;
  price = of_int (pos 140);
  at = pos 2;
}

change-IsValid_example : IsValid (change (Change.fill sale) book)
change-IsValid_example = change-IsValid (Change.fill sale) book book-IsValid

abbrev pub reported : BrokerPosition
reported = record {
  account_id = "DU1";
  con_id = pos 7;
  symbol = "MSL";
  local_symbol = "MSLH6";
  quantity = pos 2;
  average_cost = of_int (pos 150);
}

abbrev snapshot : BrokerOrderSnapshot
snapshot = record {
  broker_order_id = "9";
  con_id = pos 7;
  symbol = "MSL";
  side = OrderSide.buy;
  quantity = pos 1;
  order_type = OrderType.limit;
  status = OrderStatus.submitted;
  remaining_quantity = pos 1;
  limit_price = some (of_int (pos 100));
  stop_price = none;
  time_in_force = TimeInForce.day;
}

abbrev open_order : OpenOrder
open_order = ("ord_1", some "9", "MSL")

reconcile-succeeded_iff_example :
    (succeeded (reconcile (pos 3) book (reported ∷ []) (snapshot ∷ []) (open_order ∷ []) [] true)
      ≡ true)
    ↔ (((c : ℤ) → broker_quantity c (reported ∷ []) (pos 0) ≡ quantity c book)
        × OrdersAgree (snapshot ∷ []) (open_order ∷ [])
        × (true ≡ true))
reconcile-succeeded_iff_example =
    reconcile-succeeded_iff (pos 3) book (reported ∷ []) (snapshot ∷ []) (open_order ∷ []) [] true
      book-IsValid

abbrev bought : BrokerFill
bought = record {
  execution_id = "exec_1";
  broker_order_id = "9";
  con_id = pos 7;
  symbol = "MSL";
  side = OrderSide.buy;
  quantity = pos 1;
  price = of_int (pos 100);
  executed_at = pos 4;
  commission = none;
  commission_currency = none;
}

quantity-deltas_example :
    quantity (pos 7) (apply_all (map execution_of (bought ∷ [])) book)
    ≡ quantity (pos 7) book +ℤ or_zero (get (pos 7) (fills_to_position_deltas (bought ∷ [])))
quantity-deltas_example = quantity-deltas (pos 7) (bought ∷ []) book

ingest_fills-again_example :
    ingest_fills none
      (bought ∷ bought ∷ [])
      (ingest_fills (some contract) (bought ∷ bought ∷ []) ([], book))
    ≡ ingest_fills (some contract) (bought ∷ bought ∷ []) ([], book)
ingest_fills-again_example = ingest_fills-again (some contract) none (bought ∷ bought ∷ []) [] book
