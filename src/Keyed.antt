-- ===== src/Keyed.antt =====
-- A Python dict with integer keys, as app/portfolio/positions.py and app/portfolio/reconciliation.py
-- use it: a list of pairs, in order of insertion. A value set again keeps its place.
use pgjp_trading.Prelude.{
  Bool, true, Option, none, some, List, [], ◌∷◌, ◌≡◌, refl, arith, if◌then◌else◌, all, Bool-cases,
  inl, inr,
}
use pgjp_trading.Prelude.Int.{ℤ, eqb_ℤ, eqb_ℤ_iff}

module _ {A : Type 0} where
  abbrev pub get : ℤ → List (ℤ × A) → Option A
  get k [] = none
  get k ((j, a) ∷ rest) = if eqb_ℤ j k then some a else get k rest

  unfoldable pub set : ℤ → A → List (ℤ × A) → List (ℤ × A)
  set k a [] = (k, a) ∷ []
  set k a ((j, b) ∷ rest) =
      let later = set k a rest in if eqb_ℤ j k then (k, a) ∷ rest else (j, b) ∷ later

  -- `pop(k, None)`
  unfoldable pub pop : ℤ → List (ℤ × A) → List (ℤ × A)
  pop k [] = []
  pop k ((j, b) ∷ rest) = let later = pop k rest in if eqb_ℤ j k then later else (j, b) ∷ later

  pub get-set :
      (c k : ℤ) (a : A) (d : List (ℤ × A))
      → get c (set k a d) ≡ (if eqb_ℤ k c then some a else get c d)
  unfolding set
  get-set c k a [] = refl
  get-set c k a ((j, b) ∷ rest) = ground (arith, get-set c k a rest)

  pub get-pop :
      (c k : ℤ) (d : List (ℤ × A)) → get c (pop k d) ≡ (if eqb_ℤ k c then none else get c d)
  unfolding pop
  get-pop c k [] = ground arith
  get-pop c k ((j, b) ∷ rest) = ground (arith, get-pop c k rest)

  -- Keys stand once, and each value is stored under its own key and is kept by a test.
  abbrev pub IsKeyed : (A → ℤ) → (A → Bool) → List (ℤ × A) → Type 0
  IsKeyed id keep [] = Unit
  IsKeyed id keep ((k, a) ∷ rest) =
      (id a ≡ k) × (keep a ≡ true) × (get k rest ≡ none) × IsKeyed id keep rest

  pub set-IsKeyed :
      (id : A → ℤ) (keep : A → Bool) (a : A) (d : List (ℤ × A))
      → keep a ≡ true
      → IsKeyed id keep d
      → IsKeyed id keep (set (id a) a d)
  unfolding set
  set-IsKeyed id keep a [] kept v = (refl, kept, refl, tt)
  set-IsKeyed id keep a ((j, b) ∷ rest) kept (own, keeps, fresh, v) =
      elim (Bool-cases (eqb_ℤ j (id a))) [
        | inl e ↦ rw e (refl, kept, ground (arith, (eqb_ℤ_iff j (id a)).0 e), v)
        | inr e ↦
            rw e (
              own,
              keeps,
              ground (arith, get-set j (id a) a rest),
              set-IsKeyed id keep a rest kept v,
            )
      ]

  pub pop-IsKeyed :
      (id : A → ℤ) (keep : A → Bool) (k : ℤ) (d : List (ℤ × A))
      → IsKeyed id keep d
      → IsKeyed id keep (pop k d)
  unfolding pop
  pop-IsKeyed id keep k [] v = tt
  pop-IsKeyed id keep k ((j, b) ∷ rest) (own, keeps, fresh, v) = elim (Bool-cases (eqb_ℤ j k)) [
    | inl e ↦ rw e (pop-IsKeyed id keep k rest v)
    | inr e ↦ rw e (own, keeps, ground (arith, get-pop j k rest), pop-IsKeyed id keep k rest v)
  ]

  -- The values of a dict, in order.
  abbrev pub values : List (ℤ × A) → List A
  values [] = []
  values ((k, a) ∷ rest) = a ∷ values rest

  -- `{id(a): a for a in items}`, onto a dict.
  unfoldable pub set_all : (A → ℤ) → List A → List (ℤ × A) → List (ℤ × A)
  set_all id [] d = d
  set_all id (a ∷ items) d = set_all id items (set (id a) a d)

  abbrev pub or_get : Option A → Option A → Option A
  or_get (some a) other = some a
  or_get none other = other

  -- A keyed dict is rebuilt from its values.
  pub get-set_all-values :
      (id : A → ℤ) (keep : A → Bool) (c : ℤ) (d acc : List (ℤ × A))
      → IsKeyed id keep d
      → get c (set_all id (values d) acc) ≡ or_get (get c d) (get c acc)
  unfolding set_all
  get-set_all-values id keep c [] acc v = refl
  get-set_all-values id keep c ((k, a) ∷ rest) acc (own, keeps, fresh, v) =
      rw (get-set_all-values id keep c rest (set (id a) a acc) v, get-set c (id a) a acc, own)
        (elim (Bool-cases (eqb_ℤ k c)) [
          | inl e ↦ rw (e, ← (eqb_ℤ_iff k c).0 e, fresh) refl
          | inr e ↦ rw e refl
        ])

  pub set_all-IsKeyed :
      (id : A → ℤ) (keep : A → Bool) (items : List A) (d : List (ℤ × A))
      → all keep items ≡ true
      → IsKeyed id keep d
      → IsKeyed id keep (set_all id items d)
  unfolding set_all
  set_all-IsKeyed id keep [] d kept v = v
  set_all-IsKeyed id keep (a ∷ items) d kept v =
      set_all-IsKeyed id keep items (set (id a) a d) (ground arith)
        (set-IsKeyed id keep a d (ground arith) v)
