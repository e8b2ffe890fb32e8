-- ===== src/Examples/Simulated.antt =====
-- The theorems on the simulated broker at concrete inputs.
use Prim.Native.String.{[] as empty_text, ◌∷◌ as ◌:::◌}
use pgjp_trading.Prelude.{
  ℕ, zero, suc, String, true, false, none, some, List, [], ◌∷◌, ◌≡◌, ◌↔◌, refl, sym, ap, ◌∙◌,
}
use pgjp_trading.Prelude.Int.{pos, ◌+ℤ◌, ◌-ℤ◌, ◌*ℤ◌}
use pgjp_trading.Decimal.{zero_decimal}
use pgjp_trading.Enums.{OrderSide, OrderType, TimeInForce}
use pgjp_trading.Broker.{OrderRequest}
use pgjp_trading.Keyed.{values, set, set_all}
use pgjp_trading.Named
use pgjp_trading.Reconciliation.{reconcile, succeeded}
use pgjp_trading.Reconciliation.Matching.{OrdersAgree}
use pgjp_trading.Application.{ingest_fills}
use pgjp_trading.Application.Ingestion.{is_known}
use pgjp_trading.Product.{get_product}
use pgjp_trading.MockBroker.{connect, next_tick, Simulation, MockBroker, new_broker}
use pgjp_trading.MockBroker.Orders.{
  place_order, refusal, accept, simulate_fill, fill_at, apply_fill_to_positions,
}
use pgjp_trading.MockBroker.Operations.{Operation, perform, perform_all}
use pgjp_trading.MockBroker.Accounts.{held, net_fills}
use pgjp_trading.MockBroker.Ledger.{held-perform_all}
use pgjp_trading.MockBroker.Numbering.{IsFormat, filled_ids}
use pgjp_trading.MockBroker.Agreement.{get-filled, reconcile-simulated}
use pgjp_trading.MockBroker.Refusals.{is_raised, is_taken, place_order-raised_iff}
use pgjp_trading.Samples.{contract}
use pgjp_trading.Examples.Books.{reported}

-- A number as that many strokes.
abbrev strokes : ℕ → String
strokes zero = empty_text
strokes (suc n) = "|" ::: strokes n

abbrev size : String → ℕ
size empty_text = 0
size (c ::: s) = suc (size s)

size-strokes : (n : ℕ) → size (strokes n) ≡ n
size-strokes zero = refl
size-strokes (suc n) = ap suc (size-strokes n)

strokes_injective : (m n : ℕ) → strokes m ≡ strokes n → m ≡ n
strokes_injective m n h = sym (size-strokes m) ∙ ap size h ∙ size-strokes n

abbrev simulation : Simulation
simulation = record {
  order_id = strokes;
  execution_id = strokes;
  contract_key = λ id. "conid:900000001";
  strip = λ s. s;
  upper = λ s. s;
  drift = λ key step. zero_decimal;
}

format : IsFormat simulation
format = record { orders = strokes_injective; executions = strokes_injective }

abbrev purchase : OrderRequest
purchase = record {
  internal_order_id = "ord_1";
  correlation_id = "cor_1";
  contract = contract;
  side = OrderSide.buy;
  quantity = pos 2;
  order_type = OrderType.market;
  time_in_force = TimeInForce.day;
  limit_price = none;
  stop_price = none;
  transmit = true;
}

-- Connect, buy two, sell one by a limit order that stays open, and buy two more.
abbrev session : List Operation
session =
    Operation.connected (pos 1)
    ∷ Operation.placed (pos 2) purchase
    ∷ Operation.placed (pos 3) (record purchase {
      side = OrderSide.sell;
      quantity = pos 1;
      order_type = OrderType.limit;
      limit_price = some zero_decimal;
    })
    ∷ Operation.placed (pos 4) purchase
    ∷ []

abbrev start : MockBroker
start = new_broker "DUMOCK0001" none false false [] true

-- A broker that started with a position of two in contract 7.
abbrev seeded : MockBroker
seeded = new_broker "DUMOCK0001" none false false (reported ∷ []) true

-- First another contract's position is seeded.
held-perform_all_example :
    held (pos 900000001) (perform_all simulation (Operation.seeded reported ∷ session) seeded)
    ≡ held (pos 900000001) seeded
      -ℤ net_fills (pos 900000001) seeded
      +ℤ net_fills
          (pos 900000001)
          (perform_all simulation (Operation.seeded reported ∷ session) seeded)
held-perform_all_example =
    held-perform_all (pos 900000001) simulation (Operation.seeded reported ∷ session) seeded
      (refl, (tt, (refl, (refl, (refl, tt)))))

first_is_filled : is_known "|" (filled_ids (perform_all simulation session seeded).fills) ≡ true
unfolding perform_all perform place_order refusal accept simulate_fill fill_at next_tick connect
    get_product apply_fill_to_positions Named.set Named.pop set_all set ◌+ℤ◌ ◌*ℤ◌
first_is_filled = refl

get-filled_example : Named.get "|" (perform_all simulation session seeded).open_orders ≡ none
get-filled_example =
    get-filled simulation session "DUMOCK0001" none false false true (reported ∷ []) "|" format
      first_is_filled

reconcile-simulated_example :
    (succeeded (
        reconcile
          (pos 9)
          (ingest_fills (some contract) (perform_all simulation session start).fills ([], [])).1
          (values (perform_all simulation session start).positions)
          (Named.values (perform_all simulation session start).open_orders)
          (("ord_2", some "||", "MSL") ∷ [])
          []
          true)
      ≡ true)
    ↔ (OrdersAgree
          (Named.values (perform_all simulation session start).open_orders)
          (("ord_2", some "||", "MSL") ∷ [])
        × (true ≡ true))
reconcile-simulated_example =
    reconcile-simulated (some contract) simulation session "DUMOCK0001" none false false true
      (pos 9) (("ord_2", some "||", "MSL") ∷ []) [] true format
      (λ c. (tt, (refl, (refl, (refl, tt)))))

-- Not yet connected.
place_order-raised_iff_example :
    ((is_raised (place_order simulation (pos 2) purchase start).0 ≡ true)
      ↔ (is_taken purchase start ≡ false))
    × (is_taken purchase start ≡ false → (place_order simulation (pos 2) purchase start).1 ≡ start)
place_order-raised_iff_example = place_order-raised_iff simulation (pos 2) purchase start
