-- ===== src/Reconciliation/Sorted.antt =====
-- app/portfolio/reconciliation.py: `sorted` over a set of contract ids.
use pgjp_trading.Prelude.{Bool, ◌||◌, List, [], ◌∷◌, ◌≡◌, refl, arith, if◌then◌else◌, any}
use pgjp_trading.Prelude.Int.{ℤ, eqb_ℤ, ltb_ℤ}

-- Into an ascending list, an id that is there already once.
unfoldable pub insert_key : ℤ → List ℤ → List ℤ
insert_key k [] = k ∷ []
insert_key k (j ∷ rest) =
    let later = insert_key k rest in
    if eqb_ℤ k j then j ∷ rest else if ltb_ℤ k j then k ∷ j ∷ rest else j ∷ later

abbrev pub has_key : ℤ → List ℤ → Bool
has_key c ks = any (λ k. eqb_ℤ k c) ks

pub has_key-insert_key :
    (c k : ℤ) (ks : List ℤ) → has_key c (insert_key k ks) ≡ (eqb_ℤ k c || has_key c ks)
unfolding insert_key
has_key-insert_key c k [] = refl
has_key-insert_key c k (j ∷ rest) = ground (arith, has_key-insert_key c k rest)
