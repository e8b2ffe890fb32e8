-- ===== src/Named.antt =====
-- A Python dict with text keys, as app/broker/mock_broker.py and app/contracts/resolver.py use it: a
-- list of pairs, in order of insertion. A value set again keeps its place.
use pgjp_trading.Prelude.{
  String, Option, none, some, List, [], ◌∷◌, ◌≡◌, refl, arith, if◌then◌else◌, str_eq, eq_iff,
}

module _ {A : Type 0} where
  abbrev pub get : String → List (String × A) → Option A
  get k [] = none
  get k ((j, a) ∷ rest) = if str_eq j k then some a else get k rest

  unfoldable pub set : String → A → List (String × A) → List (String × A)
  set k a [] = (k, a) ∷ []
  set k a ((j, b) ∷ rest) =
      let later = set k a rest in if str_eq j k then (k, a) ∷ rest else (j, b) ∷ later

  -- The dict after `pop(k, None)`.
  unfoldable pub pop : String → List (String × A) → List (String × A)
  pop k [] = []
  pop k ((j, b) ∷ rest) = let later = pop k rest in if str_eq j k then later else (j, b) ∷ later

  abbrev pub values : List (String × A) → List A
  values [] = []
  values ((k, a) ∷ rest) = a ∷ values rest

  pub get-set :
      (c k : String) (a : A) (d : List (String × A))
      → get c (set k a d) ≡ (if str_eq k c then some a else get c d)
  unfolding set
  get-set c k a [] = refl
  get-set c k a ((j, b) ∷ rest) =
      ground (arith, get-set c k a rest, eq_iff j k, eq_iff j c, eq_iff k c)

  pub get-pop :
      (c k : String) (d : List (String × A))
      → get c (pop k d) ≡ (if str_eq k c then none else get c d)
  unfolding pop
  get-pop c k [] = ground arith
  get-pop c k ((j, b) ∷ rest) = ground (arith, get-pop c k rest, eq_iff j k, eq_iff j c, eq_iff k c)
