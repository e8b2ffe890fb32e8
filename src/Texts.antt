-- ===== src/Texts.antt =====
-- Python's text by its characters, as the program cuts and compares it.
use Prim.Native.String.{[] as empty, ◌∷◌ as ◌:::◌}
use Prim.Native.String.append.{nil, cons}
use pgjp_trading.Prelude.{
  ℕ, zero, suc, ◌-◌, ◌<>◌, ◌≤◌, String, Bool, Option, none, some, ◌≡◌, refl, ap, ◌∙◌, ltb, str_eq,
  arith, if◌then◌else◌,
}
use pgjp_trading.Prelude.Int.{ℤ, pos, negsuc}

-- `len(s)`
abbrev pub len : String → ℕ
len empty = 0
len (c ::: s) = suc (len s)

-- `s[:n]`
abbrev pub take : ℕ → String → String
take zero s = ""
take (suc n) empty = ""
take (suc n) (c ::: s) = c ::: take n s

-- `s[n:]`
abbrev pub drop : ℕ → String → String
drop zero s = s
drop (suc n) empty = ""
drop (suc n) (c ::: s) = drop n s

-- `s.startswith(t)`
abbrev pub starts_with : String → String → Bool
starts_with s t = str_eq (take (len t) s) t

-- `s[n]` for `n` from the start: none is the `IndexError`.
abbrev pub item : ℕ → String → Option String
item n s = if ltb n (len s) then some (take 1 (drop n s)) else none

-- `s[i]`, where a negative `i` counts from the end.
abbrev pub index : ℤ → String → Option String
index (pos n) s = item n s
index (negsuc n) s = if ltb n (len s) then item (len s - suc n) s else none

pub drop-append : (s t : String) → drop (len s) (s <> t) ≡ t
drop-append empty t = nil t
drop-append (c ::: s) t = ap (drop (suc (len s))) (cons c s t) ∙ drop-append s t

pub take-append : (n : ℕ) (s t : String) → n ≤ len s → take n (s <> t) ≡ take n s
take-append zero s t h = refl
take-append (suc n) empty t h = ground (arith, h)
take-append (suc n) (c ::: s) t h =
    ap (take (suc n)) (cons c s t) ∙ ap (λ r. c ::: r) (take-append n s t (omega (arith, h)))
