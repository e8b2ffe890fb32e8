-- ===== src/Prelude/Members.antt =====
-- Enumerations: the members are told apart by a number, which the tactics compare.
use Prim.Native.Nat.{ℕ}
use mathlib.Core.Path.{◌≡◌, refl}
use mathlib.Core.List.{List, [], ◌∷◌, ◌++◌}
use pgjp_trading.Prelude.Lists.{is_empty}
use mathlib.Core.Bool.{Bool, true, false, not, ◌||◌, ◌&&◌}
use native.Mathlib.Omega.{arith}
use pgjp_trading.Prelude.Tests.{◌==◌, if◌then◌else◌}

pub record Enumeration (A : Type 0) : Type 0 where
  pub index : A → ℕ

-- `a is b` on members of an enumeration.
infix 50 ◌is◌
abbrev pub ◌is◌ : {A : Type 0} ⦃e : Enumeration A⦄ → A → A → Bool
◌is◌ ⦃e⦄ a b = e.index a == e.index b

module _ {A : Type 0} ⦃e : Enumeration A⦄ where
  -- `a in items`
  abbrev pub contains : A → List A → Bool
  contains a [] = false
  contains a (x ∷ xs) = a is x || contains a xs

  -- `if test: items.append(a)`
  abbrev pub append_if : Bool → A → List A → List A
  append_if test a items = if test then items ++ a ∷ [] else items

  pub contains-append :
      (a : A) (xs ys : List A) → contains a (xs ++ ys) ≡ (contains a xs || contains a ys)
  contains-append a [] ys = ground arith
  contains-append a (x ∷ xs) ys = ground (arith, contains-append a xs ys)

  pub contains-append_if :
      (a b : A) (test : Bool) (items : List A)
      → contains a (append_if test b items) ≡ (contains a items || test && a is b)
  contains-append_if a b true items = ground (arith, contains-append a items (b ∷ []))
  contains-append_if a b false items = ground arith

  -- Only the empty list contains nothing.
  pub not_contains_nil : (xs : List A) → ((a : A) → contains a xs ≡ false) → xs ≡ []
  not_contains_nil [] h = refl
  not_contains_nil (x ∷ xs) h = ground (arith, h x)

  pub is_empty-append_if :
      (a : A) (test : Bool) (items : List A)
      → is_empty (append_if test a items) ≡ (is_empty items && not test)
  is_empty-append_if a true [] = refl
  is_empty-append_if a true (x ∷ items) = refl
  is_empty-append_if a false [] = refl
  is_empty-append_if a false (x ∷ items) = refl
