-- ===== src/Examples/Barred.antt =====
-- The theorems on historical bars at concrete inputs.
use pgjp_trading.Prelude.{[], ◌∷◌, ◌+◌, ◌*◌, ◌≡◌, refl, arith}
use pgjp_trading.Prelude.Int.{ℤ, pos, ◌+ℤ◌}
use pgjp_trading.Decimal.{zero_decimal}
use pgjp_trading.Bars.{Bar, find_gaps, insert_many, step}
use pgjp_trading.Bars.Gaps.{total_missing, last_opened-find_gaps}
use pgjp_trading.Bars.Stored.{insert_many-again}

-- A minute's bar.
abbrev at : ℤ → Bar
at time = record {
  source = "sample";
  symbol = "MSL";
  interval = "1m";
  opened_at = time;
  open_price = zero_decimal;
  high = zero_decimal;
  low = zero_decimal;
  close = zero_decimal;
  volume = zero_decimal;
}

-- The second bar comes after one minute, the third after three.
last_opened-find_gaps_example :
    pos 240000000
    ≡ pos 0
      +ℤ pos (
          (2 + total_missing (find_gaps (at (pos 0) ∷ at (pos 60000000) ∷ at (pos 240000000) ∷ [])))
          * step "1m")
unfolding ◌+ℤ◌
last_opened-find_gaps_example =
    last_opened-find_gaps (at (pos 0)) (at (pos 60000000) ∷ at (pos 240000000) ∷ []) (omega arith)
      ((0, refl), ((2, refl), tt))

insert_many-again_example :
    insert_many (at (pos 0) ∷ []) (insert_many (at (pos 0) ∷ []) (at (pos 60000000) ∷ [])).1
    ≡ (0, (insert_many (at (pos 0) ∷ []) (at (pos 60000000) ∷ [])).1)
insert_many-again_example = insert_many-again (at (pos 0) ∷ []) (at (pos 60000000) ∷ [])
