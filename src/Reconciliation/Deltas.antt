-- ===== src/Reconciliation/Deltas.antt =====
-- app/portfolio/reconciliation.py and positions.py: the deltas of a set of fills are what the book
-- moves by.
use pgjp_trading.Prelude.{List, [], ◌∷◌, map, ◌≡◌, refl, sym, ap, ◌∙◌, Bool-cases, inl, inr}
use pgjp_trading.Prelude.Int.{ℤ, pos, ◌+ℤ◌, ◌*ℤ◌, eqb_ℤ, eqb_ℤ_iff, +ℤ_assoc, +ℤ-zero, int_laws}
use pgjp_trading.Enums.{sign}
use pgjp_trading.Broker.{BrokerFill}
use pgjp_trading.Keyed.{get, get-set}
use pgjp_trading.Positions.{PositionBook, Execution, quantity}
use pgjp_trading.Positions.Fills.{apply_all, net, quantity-apply_all}
use pgjp_trading.Reconciliation.{or_zero, add_fills, fills_to_position_deltas}

-- The execution of a broker's fill, as the application hands it to the book while no contract is
-- selected: the local symbol is then the fill's symbol.
abbrev pub execution_of : BrokerFill → Execution
execution_of f = record {
  con_id = f.con_id;
  symbol = f.symbol;
  local_symbol = f.symbol;
  side = f.side;
  quantity = f.quantity;
  price = f.price;
  at = f.executed_at;
}

add_fills-net :
    (c : ℤ) (fills : List BrokerFill) (d : List (ℤ × ℤ))
    → or_zero (get c (add_fills fills d)) ≡ or_zero (get c d) +ℤ net c (map execution_of fills)
unfolding add_fills
add_fills-net c [] d = sym (+ℤ-zero _)
add_fills-net c (f ∷ fills) d =
    add_fills-net c fills _
    ∙ rw (get-set c f.con_id _ d) (elim (Bool-cases (eqb_ℤ f.con_id c)) [
      | inl e ↦
          rw (e, (eqb_ℤ_iff f.con_id c).0 e)
            (+ℤ_assoc (or_zero (get c d)) (f.quantity *ℤ sign f.side)
              (net c (map execution_of fills)))
      | inr e ↦ rw e refl
    ])

zero_add : (a : ℤ) → pos 0 +ℤ a ≡ a
zero_add a = omega int_laws

-- Applying fills to the book moves each contract's quantity by exactly the delta that
-- `fills_to_position_deltas` computes for that contract, zero where it has none.
pub quantity-deltas :
    (c : ℤ) (fills : List BrokerFill) (book : PositionBook)
    → quantity c (apply_all (map execution_of fills) book)
      ≡ quantity c book +ℤ or_zero (get c (fills_to_position_deltas fills))
unfolding fills_to_position_deltas
quantity-deltas c fills book =
    quantity-apply_all c (map execution_of fills) book
    ∙ ap (λ d. quantity c book +ℤ d) (sym (zero_add _) ∙ sym (add_fills-net c fills []))
