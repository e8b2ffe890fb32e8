-- ===== src/Bars/Gaps.antt =====
-- app/backtest/models.py: what the gaps of a series account for.
use pgjp_trading.Prelude.{
  ℕ, zero, suc, ◌+◌, ◌-◌, ◌*◌, ◌/◌, ◌<◌, ◌≡◌, sym, ap, ◌∙◌, true, false, List, [], ◌∷◌, length,
  if◌then◌else◌, lt→ltb, arith,
}
use pgjp_trading.Prelude.Int.{ℤ, pos, ◌+ℤ◌, ◌-ℤ◌, ltb_ℤ, +ℤ_assoc, int_laws}
use native.Mathlib.Nat.{mul-div_cancel}
use pgjp_trading.Bars.{Bar, BarGap, gaps_after, find_gaps, step}

-- Each bar opens a positive whole number of steps after the one before it.
abbrev pub IsSpaced : ℕ → ℤ → List Bar → Type 0
IsSpaced unit previous [] = Unit
IsSpaced unit previous (b ∷ bars) =
    ((k : ℕ) × (b.opened_at ≡ previous +ℤ pos (suc k * unit))) × IsSpaced unit b.opened_at bars

-- The opening of the last bar, and the bars that the gaps count as missing.
abbrev pub last_opened : ℤ → List Bar → ℤ
last_opened previous [] = previous
last_opened previous (b ∷ bars) = last_opened b.opened_at bars

abbrev pub total_missing : List BarGap → ℕ
total_missing [] = 0
total_missing (g ∷ gaps) = g.missing_bars + total_missing gaps

distance : (a b : ℤ) (n : ℕ) → b ≡ a +ℤ pos n → b -ℤ a ≡ pos n
distance a b n h = rw h (omega int_laws)

pos_add : (m n : ℕ) → pos m +ℤ pos n ≡ pos (m + n)
pos_add m n = omega int_laws

one_step : (unit : ℕ) → ltb_ℤ (pos unit) (pos (1 * unit)) ≡ false
one_step unit = ground arith

several_steps : (unit k : ℕ) → 0 < unit → ltb_ℤ (pos unit) (pos (suc (suc k) * unit)) ≡ true
several_steps unit k u = lt→ltb (unit + 0) (suc (suc k) * unit + 0) (omega arith)

-- A distance, reported or not, accounts for the steps beyond the first.
total_missing-step :
    (unit k : ℕ) (previous opened_at : ℤ) (rest : List BarGap)
    → 0 < unit
    → total_missing (
        if ltb_ℤ (pos unit) (pos (suc k * unit))
        then record { after = previous; before = opened_at; missing_bars = suc k * unit / unit - 1 }
          ∷ rest
        else rest)
      ≡ k + total_missing rest
total_missing-step unit zero previous opened_at rest u = rw (one_step unit) (omega arith)
total_missing-step unit (suc k) previous opened_at rest u =
    rw (several_steps unit k u, mul-div_cancel (suc (suc k)) u) (omega arith)

total_missing-gaps_after :
    (unit k : ℕ) (previous : ℤ) (b : Bar) (bars : List Bar)
    → 0 < unit
    → b.opened_at ≡ previous +ℤ pos (suc k * unit)
    → total_missing (gaps_after unit previous (b ∷ bars))
      ≡ k + total_missing (gaps_after unit b.opened_at bars)
unfolding gaps_after
total_missing-gaps_after unit k previous b bars u h =
    rw (distance previous b.opened_at (suc k * unit) h)
      (total_missing-step unit k previous b.opened_at (gaps_after unit b.opened_at bars) u)

steps_add :
    (unit k later missing : ℕ)
    → suc k * unit + (later + missing) * unit ≡ (suc later + (k + missing)) * unit
steps_add unit k later missing = omega arith

last_opened-gaps_after :
    (unit : ℕ) (previous : ℤ) (bars : List Bar)
    → 0 < unit
    → IsSpaced unit previous bars
    → last_opened previous bars
      ≡ previous +ℤ pos ((length bars + total_missing (gaps_after unit previous bars)) * unit)
unfolding gaps_after
last_opened-gaps_after unit previous [] u s = omega int_laws
last_opened-gaps_after unit previous (b ∷ bars) u ((k, h), s) =
    let missing = total_missing (gaps_after unit b.opened_at bars) in
    last_opened-gaps_after unit b.opened_at bars u s
    ∙ ap (λ t. t +ℤ pos ((length bars + missing) * unit)) h
    ∙ +ℤ_assoc previous (pos (suc k * unit)) (pos ((length bars + missing) * unit))
    ∙ ap (λ t. previous +ℤ t) (pos_add (suc k * unit) ((length bars + missing) * unit))
    ∙ ap (λ n. previous +ℤ pos n) (steps_add unit k (length bars) missing)
    ∙ ap (λ n. previous +ℤ pos ((suc (length bars) + n) * unit))
        (sym (total_missing-gaps_after unit k previous b bars u h))

-- Where the first bar's interval is known and each bar opens a positive whole number of steps after
-- the one before it, the last bar opens as many steps after the first as there are later bars and
-- bars that the reported gaps count as missing.
pub last_opened-find_gaps :
    (first : Bar) (bars : List Bar)
    → 0 < step first.interval
    → IsSpaced (step first.interval) first.opened_at bars
    → last_opened first.opened_at bars
      ≡ first.opened_at
        +ℤ pos ((length bars + total_missing (find_gaps (first ∷ bars))) * step first.interval)
unfolding find_gaps
last_opened-find_gaps first bars u s =
    last_opened-gaps_after (step first.interval) first.opened_at bars u s
