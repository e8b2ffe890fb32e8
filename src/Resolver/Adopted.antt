-- ===== src/Resolver/Adopted.antt =====
-- app/contracts/resolver.py: what the cache holds under a key was asked for by that key.
use pgjp_trading.Prelude.{
  ◌<>◌, String, Bool, true, false, none, some, ◌≡◌, refl, sym, ap, ◌∙◌, if◌then◌else◌, str_eq,
  eq_iff, arith, Bool-cases, inl, inr, some_injective,
}
use pgjp_trading.Contract.{ContractSpec, QualifiedContract, is_dated, not_empty}
use pgjp_trading.Product.{FuturesProduct, micro_solana, solana, spec}
use pgjp_trading.Texts.{take, drop, take-append, drop-append}
use pgjp_trading.Named.{get, set, get-set}
use pgjp_trading.Resolver.{Texting, Cache, spec_key, contract_key, validate_qualified}

-- The two products, and how the keys of their specifications begin.
abbrev pub product_of : Bool → FuturesProduct
product_of true = micro_solana
product_of false = solana

abbrev pub prefix : Bool → String
prefix true = "MSL:FUT:CME:"
prefix false = "SOL:FUT:CME:"

abbrev pub spec_of : Bool → String → ContractSpec
spec_of b month = spec (some month) (product_of b)

key_lem :
    (b : Bool) (month : String)
    → is_dated (some month) ≡ true
    → spec_key (spec_of b month) ≡ prefix b <> month
unfolding spec_key
key_lem true month h = rw (not_empty month h) refl
key_lem false month h = rw (not_empty month h) refl

first : (b : Bool) (month : String) → take 1 (prefix b <> month) ≡ take 1 (prefix b)
first true month = take-append 1 "MSL:FUT:CME:" month (omega arith)
first false month = take-append 1 "SOL:FUT:CME:" month (omega arith)

rest : (b : Bool) (month : String) → drop 12 (prefix b <> month) ≡ month
rest true month = drop-append "MSL:FUT:CME:" month
rest false month = drop-append "SOL:FUT:CME:" month

prefix_injective :
    (b b' : Bool) (m m' : String) → prefix b <> m ≡ prefix b' <> m' → (b ≡ b') × (m ≡ m')
prefix_injective b b' m m' h = (
  same b b' (sym (first b m) ∙ ap (take 1) h ∙ first b' m'),
  sym (rest b m) ∙ ap (drop 12) h ∙ rest b' m',
)
  where
    same : (b b' : Bool) → take 1 (prefix b) ≡ take 1 (prefix b') → b ≡ b'
    same true true e = refl
    same true false e = ground (arith, e, eq_iff "M" "S")
    same false true e = ground (arith, e, eq_iff "S" "M")
    same false false e = refl

contract_key-differs :
    (t : Texting) (c : QualifiedContract) (b : Bool) (m : String)
    → str_eq (contract_key t c) (prefix b <> m) ≡ false
unfolding contract_key
contract_key-differs t c b m =
    elim (Bool-cases (str_eq ("conid:" <> t.int_text c.con_id) (prefix b <> m))) [
      | inr e ↦ e
      | inl e ↦
          e
          ∙ clash b (
              sym (take-append 1 "conid:" (t.int_text c.con_id) (omega arith))
              ∙ ap (take 1) ((eq_iff _ _).0 e)
              ∙ first b m)
    ]
  where
    clash : (b : Bool) → "c" ≡ take 1 (prefix b) → true ≡ false
    clash true h = ground (arith, h, eq_iff "c" "M")
    clash false h = ground (arith, h, eq_iff "c" "S")

-- The cached contract of a product's specification is one that the checks pass.
abbrev pub IsSound : Texting → Cache → Type 0
IsSound t cache =
    (b : Bool) (month : String) (c : QualifiedContract)
    → is_dated (some month) ≡ true
    → get (spec_key (spec_of b month)) cache ≡ some c
    → validate_qualified t c (spec_of b month) ≡ none

pub adopted-IsSound :
    (t : Texting) (b : Bool) (month : String) (c : QualifiedContract) (cache : Cache)
    → is_dated (some month) ≡ true
    → validate_qualified t c (spec_of b month) ≡ none
    → IsSound t cache
    → IsSound t (set (contract_key t c) c (set (spec_key (spec_of b month)) c cache))
adopted-IsSound t b month c cache dated valid sound b' month' c' dated' h =
    elim (Bool-cases (str_eq (prefix b <> month) (prefix b' <> month'))) [
      | inl e ↦
          let (same_product, same_month) = prefix_injective b b' month month' ((eq_iff _ _).0 e) in
          let found = rw e at looked_up in
          rw (← same_product, ← same_month, ← some_injective found) valid
      | inr e ↦ sound b' month' c' dated' (rw (key_lem b' month' dated') (rw e at looked_up))
    ]
  where
    looked_up :
        (if str_eq (prefix b <> month) (prefix b' <> month')
          then some c
          else get (prefix b' <> month') cache)
        ≡ some c'
    looked_up =
        sym (
          ap (λ k. get k (set (contract_key t c) c (set (spec_key (spec_of b month)) c cache)))
            (key_lem b' month' dated')
          ∙ get-set (prefix b' <> month') (contract_key t c) c
              (set (spec_key (spec_of b month)) c cache)
          ∙ rw (contract_key-differs t c b' month') (
              get-set (prefix b' <> month') (spec_key (spec_of b month)) c cache
              ∙ rw (key_lem b month dated) refl))
        ∙ h

pub get-adopted :
    (t : Texting) (b : Bool) (month : String) (c : QualifiedContract) (cache : Cache)
    → is_dated (some month) ≡ true
    → get
        (spec_key (spec_of b month))
        (set (contract_key t c) c (set (spec_key (spec_of b month)) c cache))
      ≡ some c
get-adopted t b month c cache dated =
    get-set (spec_key (spec_of b month)) (contract_key t c) c _
    ∙ rw (key_lem b month dated, contract_key-differs t c b month)
        (get-set (prefix b <> month) (prefix b <> month) c cache ∙ rw ((eq_iff _ _).1 refl) refl)
