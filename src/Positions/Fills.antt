-- ===== src/Positions/Fills.antt =====
-- app/portfolio/positions.py: the book is well formed, and follows the executions exactly.
use pgjp_trading.Prelude.{
  true, Option, none, some, List, [], ◌∷◌, ◌≡◌, refl, if◌then◌else◌, Bool-cases, inl, inr, filter,
  all, ap, sym, some_injective, ◌∙◌,
}
use pgjp_trading.Prelude.Int.{ℤ, pos, ◌+ℤ◌, ◌*ℤ◌, eqb_ℤ, eqb_ℤ_iff, +ℤ_assoc, +ℤ-zero}
use pgjp_trading.Enums.{sign}
use pgjp_trading.Keyed.{
  get, set, IsKeyed, get-set, get-pop, set-IsKeyed, pop-IsKeyed, set_all-IsKeyed,
}
use pgjp_trading.Positions.{
  Position, PositionBook, is_held, is_flat, quantity, quantity_or_zero, Execution, apply_fill,
  upsert, replace_all, touch,
}

-- Contract ids stand once, a position is stored under its own contract id, and none is flat.
abbrev pub IsValid : PositionBook → Type 0
IsValid book = IsKeyed (λ (p : Position). p.con_id) is_held book

upsert-IsValid : (p : Position) (book : PositionBook) → IsValid book → IsValid (upsert p book)
unfolding upsert
upsert-IsValid p book v = elim (Bool-cases (is_flat p)) [
  | inl e ↦ rw e (pop-IsKeyed (λ (q : Position). q.con_id) is_held p.con_id book v)
  | inr e ↦ rw e (set-IsKeyed (λ (q : Position). q.con_id) is_held p book (rw e refl) v)
]

apply_fill-IsValid :
    (x : Execution) (book : PositionBook) → IsValid book → IsValid (apply_fill x book).1
unfolding apply_fill
apply_fill-IsValid x book v =
    elim (Bool-cases
      (eqb_ℤ (quantity_or_zero (get x.con_id book) +ℤ x.quantity *ℤ sign x.side) (pos 0))) [
        | inl e ↦ rw e (pop-IsKeyed (λ (q : Position). q.con_id) is_held x.con_id book v)
        | inr e ↦ rw e (set-IsKeyed (λ (q : Position). q.con_id) is_held _ book (rw e refl) v)
      ]

-- One execution moves the quantity of its own contract by its signed quantity, and no other.
quantity-apply_fill :
    (c : ℤ) (x : Execution) (book : PositionBook)
    → quantity c (apply_fill x book).1
      ≡ (if eqb_ℤ x.con_id c then quantity c book +ℤ x.quantity *ℤ sign x.side else quantity c book)
unfolding apply_fill quantity
quantity-apply_fill c x book =
    elim (Bool-cases
      (eqb_ℤ (quantity_or_zero (get x.con_id book) +ℤ x.quantity *ℤ sign x.side) (pos 0))) [
        | inl e ↦
            rw (e, get-pop c x.con_id book)
              (elim (Bool-cases (eqb_ℤ x.con_id c)) [
                | inl f ↦ rw (f, ← (eqb_ℤ_iff x.con_id c).0 f) (sym ((eqb_ℤ_iff _ _).0 e))
                | inr f ↦ rw f refl
              ])
        | inr e ↦
            rw (e, get-set c x.con_id _ book)
              (elim (Bool-cases (eqb_ℤ x.con_id c)) [
                | inl f ↦ rw (f, ← (eqb_ℤ_iff x.con_id c).0 f) refl
                | inr f ↦ rw f refl
              ])
      ]

unfoldable pub apply_all : List Execution → PositionBook → PositionBook
apply_all [] book = book
apply_all (x ∷ xs) book = apply_all xs (apply_fill x book).1

pub apply_all-IsValid :
    (xs : List Execution) (book : PositionBook) → IsValid book → IsValid (apply_all xs book)
unfolding apply_all
apply_all-IsValid [] book v = v
apply_all-IsValid (x ∷ xs) book v =
    apply_all-IsValid xs (apply_fill x book).1 (apply_fill-IsValid x book v)

-- The signed quantity of a contract in a list of executions.
abbrev pub net : ℤ → List Execution → ℤ
net c [] = pos 0
net c (x ∷ xs) =
    let rest = net c xs in if eqb_ℤ x.con_id c then x.quantity *ℤ sign x.side +ℤ rest else rest

-- After any executions, each contract's quantity in the book is what it was plus the signed sum of
-- that contract's executions, flat and reversed positions included.
pub quantity-apply_all :
    (c : ℤ) (xs : List Execution) (book : PositionBook)
    → quantity c (apply_all xs book) ≡ quantity c book +ℤ net c xs
unfolding apply_all
quantity-apply_all c [] book = sym (+ℤ-zero (quantity c book))
quantity-apply_all c (x ∷ xs) book =
    quantity-apply_all c xs (apply_fill x book).1
    ∙ rw (quantity-apply_fill c x book) (elim (Bool-cases (eqb_ℤ x.con_id c)) [
      | inl f ↦ rw f (+ℤ_assoc (quantity c book) (x.quantity *ℤ sign x.side) (net c xs))
      | inr f ↦ rw f refl
    ])

-- The calls that change the book.
pub data Change : Type 0 where
  fill : Execution → Change
  put : Position → Change
  replace : List Position → Change
  touched : ℤ → ℤ → Change

unfoldable pub change : Change → PositionBook → PositionBook
change (Change.fill x) book = (apply_fill x book).1
change (Change.put p) book = upsert p book
change (Change.replace positions) book = replace_all positions
change (Change.touched con_id at) book = touch con_id at book

filter-all : (ps : List Position) → all is_held (filter is_held ps) ≡ true
filter-all [] = refl
filter-all (p ∷ ps) = elim (Bool-cases (is_flat p)) [
  | inl e ↦ rw e (filter-all ps)
  | inr e ↦ rw (e, filter-all ps) (rw e refl)
]

get-IsValid :
    (c : ℤ) (book : PositionBook) (p : Position)
    → IsValid book
    → get c book ≡ some p
    → (p.con_id ≡ c) × (is_held p ≡ true)
get-IsValid c [] p v e = cc
get-IsValid c ((k, q) ∷ rest) p (own, kept, fresh, v) e = elim (Bool-cases (eqb_ℤ k c)) [
  | inl f ↦
      let same : q ≡ p = some_injective (rw f at e) in
      (
        ap (λ (x : Position). x.con_id) (sym same) ∙ own ∙ (eqb_ℤ_iff k c).0 f,
        ap is_held (sym same) ∙ kept,
      )
  | inr f ↦ get-IsValid c rest p v (rw f at e)
]

touch-IsValid : (c at : ℤ) (book : PositionBook) → IsValid book → IsValid (touch c at book)
unfolding touch
touch-IsValid c at book v = go _ refl
  where
    go :
        (found : Option Position)
        → get c book ≡ found
        → IsValid (elim found [ none ↦ book | some p ↦ set c (record p { updated_at = at }) book ])
    go none e = v
    go (some p) e =
        let (own, kept) = get-IsValid c book p v e in
        rw (← own) (
          set-IsKeyed (λ (q : Position). q.con_id) is_held (record p { updated_at = at }) book kept
            v)

-- Whatever changes it, the book stays well formed: each contract stands in it once, under its own
-- contract id, and never with a flat position.
pub change-IsValid : (k : Change) (book : PositionBook) → IsValid book → IsValid (change k book)
unfolding change replace_all
change-IsValid (Change.fill x) book v = apply_fill-IsValid x book v
change-IsValid (Change.put p) book v = upsert-IsValid p book v
change-IsValid (Change.replace ps) book v =
    set_all-IsKeyed (λ (p : Position). p.con_id) is_held (filter is_held ps) [] (filter-all ps) tt
change-IsValid (Change.touched c at) book v = touch-IsValid c at book v
