-- ===== src/Order/Fills.antt =====
-- app/execution/order_models.py: what a sequence of fills does to an order.
use pgjp_trading.Prelude.{
  true, false, not, ◌&&◌, Option, List, [], ◌∷◌, ◌≡◌, refl, ap, arith, if◌then◌else◌, Bool-cases,
  inl, inr, String, Result, ok, err, is_some,
}
use pgjp_trading.Prelude.Int.{
  ℤ, pos, ◌+ℤ◌, ◌<ℤ◌, ◌≤ℤ◌, eqb_ℤ, ltb_ℤ, int_laws, +ℤ_parts, +ℤ_assoc, +ℤ-zero,
}
use pgjp_trading.Enums.{OrderStatus}
use pgjp_trading.Decimal.{Decimal}
use pgjp_trading.Order.{Order, OrderError, apply_fill}

-- The arguments of one call of `apply_fill`.
pub record Fill : Type 0 where
  pub quantity : ℤ
  pub price : Decimal
  pub commission : Option Decimal
  pub currency : Option String
  pub at : ℤ

abbrev pub total : List Fill → ℤ
total [] = pos 0
total (f ∷ fills) = f.quantity +ℤ total fills

abbrev pub ArePositive : List Fill → Type 0
ArePositive [] = Unit
ArePositive (f ∷ fills) = (pos 0 <ℤ f.quantity) × ArePositive fills

-- Fills one after the other, up to the first that is refused.
unfoldable pub apply_fills : List Fill → Order → Result OrderError Order
apply_fills [] o = ok o
apply_fills (f ∷ fills) o = elim (apply_fill f.quantity f.price f.commission f.currency f.at o) [
  | err e ↦ err e
  | ok o' ↦ apply_fills fills o'
]

abbrev status_of : ℤ → ℤ → OrderStatus
status_of filled quantity =
    if eqb_ℤ filled quantity then OrderStatus.filled else OrderStatus.partially_filled

-- The result is an order of the same quantity, filled this far.
abbrev pub IsFilledTo : ℤ → Order → Result OrderError Order → Type 0
IsFilledTo n o (err e) = ⊥
IsFilledTo n o (ok o') =
    (o'.filled_quantity ≡ n) × (o'.quantity ≡ o.quantity) × (o'.status ≡ status_of n o.quantity)

ltb_ℤ_of_le : (a b : ℤ) → b ≤ℤ a → ltb_ℤ a b ≡ false
ltb_ℤ_of_le a b h = ground arith

ltb_ℤ_of_lt : (a b : ℤ) → a <ℤ b → ltb_ℤ a b ≡ true
ltb_ℤ_of_lt a b h = ground arith

grown_is_nonzero : (a b : ℤ) → pos 0 ≤ℤ a → pos 0 <ℤ b → eqb_ℤ (a +ℤ b) (pos 0) ≡ false
grown_is_nonzero a b ha hb = ground (arith, +ℤ_parts a b)

module _ (f : Fill) (o : Order) where
  -- A positive fill that fits.
  apply_fill-fits :
      pos 0 <ℤ f.quantity
      → pos 0 ≤ℤ o.filled_quantity
      → o.filled_quantity +ℤ f.quantity ≤ℤ o.quantity
      → IsFilledTo
          (o.filled_quantity +ℤ f.quantity)
          o
          (apply_fill f.quantity f.price f.commission f.currency f.at o)
  unfolding apply_fill
  apply_fill-fits positive started fits =
      rw
        (
          ltb_ℤ_of_le o.quantity (o.filled_quantity +ℤ f.quantity) fits,
          grown_is_nonzero o.filled_quantity f.quantity started positive,
        )
        (elim (Bool-cases (is_some o.average_fill_price && not (eqb_ℤ o.filled_quantity (pos 0)))) [
          | inl e ↦ rw e (refl, refl, refl)
          | inr e ↦ rw e (refl, refl, refl)
        ])

  -- A fill that does not.
  apply_fill-over :
      o.quantity <ℤ o.filled_quantity +ℤ f.quantity
      → apply_fill f.quantity f.price f.commission f.currency f.at o ≡ err OrderError.over_fill
  unfolding apply_fill
  apply_fill-over over = rw (ltb_ℤ_of_lt o.quantity (o.filled_quantity +ℤ f.quantity) over) refl

total-positive : (fills : List Fill) → ArePositive fills → pos 0 ≤ℤ total fills
total-positive [] p = omega arith
total-positive (f ∷ fills) (pf, p) =
    omega (arith, +ℤ_parts f.quantity (total fills), total-positive fills p, pf)

within_total : (n q t l : ℤ) → pos 0 ≤ℤ t → n +ℤ (q +ℤ t) ≤ℤ l → n +ℤ q ≤ℤ l
within_total n q t l ht h = omega (int_laws, +ℤ_parts n (q +ℤ t), +ℤ_parts q t, +ℤ_parts n q)

retarget :
    (o o' : Order) (n d : ℤ) (r : Result OrderError Order)
    → o'.filled_quantity ≡ n
    → o'.quantity ≡ o.quantity
    → IsFilledTo (o'.filled_quantity +ℤ d) o' r
    → IsFilledTo (n +ℤ d) o r
retarget o o' n d (err e) en eq h = h
retarget o o' n d (ok p) en eq (a, b, c) = (cc, cc, cc)

-- Further fills, after a first result.
finish :
    (fills : List Fill) (n : ℤ) (o : Order) (r : Result OrderError Order)
    → ArePositive fills
    → pos 0 ≤ℤ n
    → n +ℤ total fills ≤ℤ o.quantity
    → IsFilledTo n o r
    → IsFilledTo (n +ℤ total fills) o (elim r [ err e ↦ err e | ok o' ↦ apply_fills fills o' ])
unfolding apply_fills
finish fills n o (err e) p started fits h = absurd h
finish [] n o (ok o') p started fits h = rw (+ℤ-zero n) h
finish (f ∷ fills) n o (ok o') (pf, p) started fits (en, eq, es) =
    rw (← +ℤ_assoc n f.quantity (total fills)) (
      finish fills (n +ℤ f.quantity) o _ p (omega (int_laws, started, pf))
        (rw (+ℤ_assoc n f.quantity (total fills)) fits)
        (retarget o o' n f.quantity _ en eq (
          apply_fill-fits f o' pf (rw en started) (
            rw (en, eq)
              (within_total n f.quantity (total fills) o.quantity (total-positive fills p) fits)))))

-- Positive fills whose total fits are all taken: the order's filled quantity grows by exactly their
-- total, its quantity is what it was, and it is FILLED when the two agree, else PARTIALLY_FILLED.
pub apply_fills-total :
    (f : Fill) (fills : List Fill) (o : Order)
    → ArePositive (f ∷ fills)
    → pos 0 ≤ℤ o.filled_quantity
    → o.filled_quantity +ℤ total (f ∷ fills) ≤ℤ o.quantity
    → IsFilledTo (o.filled_quantity +ℤ total (f ∷ fills)) o (apply_fills (f ∷ fills) o)
unfolding apply_fills
apply_fills-total f fills o p started fits =
    rw (← +ℤ_assoc o.filled_quantity f.quantity (total fills)) (
      finish fills (o.filled_quantity +ℤ f.quantity) o _ p.1 (omega (int_laws, started, p.0))
        (rw (+ℤ_assoc o.filled_quantity f.quantity (total fills)) fits)
        (apply_fill-fits f o p.0 started (
          within_total o.filled_quantity f.quantity (total fills) o.quantity
            (total-positive fills p.1) fits)))

refused_after :
    (fills : List Fill) (n : ℤ) (o : Order) (r : Result OrderError Order)
    → ((o' : Order)
        → o'.filled_quantity ≡ n
        → o'.quantity ≡ o.quantity
        → apply_fills fills o' ≡ err OrderError.over_fill)
    → IsFilledTo n o r
    → elim r [ err e ↦ err e | ok o' ↦ apply_fills fills o' ] ≡ err OrderError.over_fill
refused_after fills n o (err e) later h = absurd h
refused_after fills n o (ok o') later (en, eq, es) = later o' en eq

-- Positive fills whose total is more than is left of the order: the one that would overfill it is
-- refused with an error.
pub apply_fills-over :
    (fills : List Fill) (o : Order)
    → ArePositive fills
    → pos 0 ≤ℤ o.filled_quantity
    → o.filled_quantity ≤ℤ o.quantity
    → o.quantity <ℤ o.filled_quantity +ℤ total fills
    → apply_fills fills o ≡ err OrderError.over_fill
unfolding apply_fills
apply_fills-over [] o p started within over =
    absurd (omega (arith, +ℤ_parts o.filled_quantity (pos 0)))
apply_fills-over (f ∷ fills) o (pf, p) started within over =
    elim (Bool-cases (ltb_ℤ o.quantity (o.filled_quantity +ℤ f.quantity))) [
      | inl e ↦
          ap
            (λ (r : Result OrderError Order). elim r [
              | err e ↦ err e
              | ok o' ↦ apply_fills fills o'
            ])
            (apply_fill-over f o (ground (arith, e)))
      | inr e ↦
          refused_after fills _ o _
            (λ o' en eq.
              apply_fills-over fills o' p
                (rw en (omega (arith, +ℤ_parts o.filled_quantity f.quantity, started, pf)))
                (rw (en, eq) (ground (arith, e)))
                (rw (en, eq, +ℤ_assoc o.filled_quantity f.quantity (total fills)) over))
            (apply_fill-fits f o pf started (ground (arith, e)))
    ]
