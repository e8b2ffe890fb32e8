-- ===== src/Resolver/Requested.antt =====
-- app/contracts/resolver.py: a resolved contract is the requested one, cached or not.
use pgjp_trading.Prelude.{
  subst, String, Bool, true, false, not, Option, none, some, ◌≡◌, refl, sym, ap, ◌∙◌, str_eq,
  eq_iff, arith, Bool-cases, inl, inr, if_holds, List, ◌∷◌, [],
}
use pgjp_trading.Prelude.Int.{pos, leb_ℤ}
use pgjp_trading.Contract.{ContractSpec, QualifiedContract, is_dated, not_empty, require_orderable}
use pgjp_trading.Product.{FuturesProduct, spec, get_product}
use pgjp_trading.Texts.{take, starts_with}
use pgjp_trading.Named.{get}
use pgjp_trading.Resolver.{
  Texting, Resolution, Cache, spec_key, spec_for, validate_qualified, Answer, resolve,
  ResolutionError, resolve_spec, answered, cached_or, build_spec, adopt,
}
use pgjp_trading.Resolver.Adopted.{product_of, spec_of, IsSound, adopted-IsSound}

-- A product that is looked up under a text.
abbrev pub IsFound : String → Option FuturesProduct → Type 0
IsFound text none = Unit
IsFound text (some p) = (b : Bool) × (p ≡ product_of b) × (text ≡ p.symbol)

pub get_product-IsFound :
    (strip upper : String → String) (symbol : String)
    → IsFound (upper (strip symbol)) (get_product strip upper symbol)
unfolding get_product
get_product-IsFound strip upper symbol = elim (Bool-cases (str_eq "MSL" (upper (strip symbol)))) [
  | inl e ↦ rw e (true, refl, sym ((eq_iff "MSL" (upper (strip symbol))).0 e))
  | inr e ↦ rw e (elim (Bool-cases (str_eq "SOL" (upper (strip symbol)))) [
    | inl f ↦ rw f (false, refl, sym ((eq_iff "SOL" (upper (strip symbol))).0 f))
    | inr f ↦ rw f tt
  ])
]

-- A built specification is that of a product and a month.
abbrev pub IsBuilt : String → Option String → Resolution ContractSpec → Type 0
IsBuilt text month (Resolution.resolved s) =
    (b : Bool) × (m : String) × (month ≡ some m)
    × (is_dated (some m) ≡ true)
    × (s ≡ spec_of b m)
    × (text ≡ (product_of b).symbol)
IsBuilt text month (Resolution.failed e) = Unit
IsBuilt text month (Resolution.passed e) = ⊥
IsBuilt text month Resolution.crashed = ⊥

pub spec_for-IsBuilt :
    (text : String) (month : Option String) (o : Option FuturesProduct)
    → IsFound text o
    → IsBuilt text month (spec_for month o)
unfolding require_orderable
spec_for-IsBuilt text month none h = tt
spec_for-IsBuilt text none (some p) h = tt
spec_for-IsBuilt text (some m) (some p) (b, same, own) =
    if_holds (IsBuilt text (some m)) (not (is_dated (some m))) _ _ tt (λ dated.
      let d : is_dated (some m) ≡ true = ground (arith, dated) in
      rw (not_empty m d)
        (b, m, refl, d, ap (spec (some m)) same, own ∙ ap (λ (q : FuturesProduct). q.symbol) same))

-- What resolving promises of a contract.
pub record IsRequested (t : Texting) (symbol : String) (month : Option String)
    (c : QualifiedContract) : Type 0 where
  pub supported :
      (b : Bool) × (t.upper (t.strip symbol) ≡ (product_of b).symbol)
      × (t.upper c.symbol ≡ t.upper (product_of b).symbol)
  pub dated :
      (m : String) × (month ≡ some m)
      × (is_dated (some m) ≡ true)
      × (starts_with c.expiration (take 6 m) ≡ true)
  pub identified : leb_ℤ c.con_id (pos 0) ≡ false

valid-IsRequested :
    (t : Texting) (symbol : String) (month : Option String) (b : Bool) (m : String)
    (c : QualifiedContract)
    → t.upper (t.strip symbol) ≡ (product_of b).symbol
    → month ≡ some m
    → is_dated (some m) ≡ true
    → validate_qualified t c (spec_of b m) ≡ none
    → IsRequested t symbol month c
unfolding validate_qualified
valid-IsRequested t symbol month b m c own same d valid = record {
  supported = (b, own, (eq_iff _ _).0 (ground (arith, valid)));
  dated = (m, same, d, ground (arith, valid, d));
  identified = ground (arith, valid);
}

abbrev Each : (QualifiedContract → Type 0) → Resolution QualifiedContract → Type 0
Each P (Resolution.resolved c) = P c
Each P (Resolution.failed e) = Unit
Each P (Resolution.passed e) = Unit
Each P Resolution.crashed = Unit

module _ (t : Texting) (symbol : String) (month : Option String) where
  -- A good answer and a sound cache.
  abbrev IsGood : Resolution QualifiedContract × Cache → Type 0
  IsGood (r, cache) = Each (IsRequested t symbol month) r × IsSound t cache

  module _ (ask : ContractSpec → Answer QualifiedContract) (b : Bool) (m : String)
      (own : t.upper (t.strip symbol) ≡ (product_of b).symbol) (same : month ≡ some m)
      (dated : is_dated (some m) ≡ true) (cache : Cache) (sound : IsSound t cache) where
    adopt-IsGood :
        (c : QualifiedContract) (o : Option ResolutionError)
        → validate_qualified t c (spec_of b m) ≡ o
        → IsGood (adopt t (spec_of b m) c cache o)
    adopt-IsGood c (some e) h = (tt, sound)
    adopt-IsGood c none h = (
      valid-IsRequested t symbol month b m c own same dated h,
      adopted-IsSound t b m c cache dated h sound,
    )

    answered-IsGood : (a : Answer QualifiedContract) → IsGood (answered t (spec_of b m) cache a)
    answered-IsGood (Answer.given c) = adopt-IsGood c _ refl
    answered-IsGood (Answer.broker_error e) = (tt, sound)
    answered-IsGood (Answer.contract_error e) = (tt, sound)
    answered-IsGood Answer.other_exception = (tt, sound)

    cached_or-IsGood :
        (o : Option QualifiedContract)
        → get (spec_key (spec_of b m)) cache ≡ o
        → IsGood (cached_or t (spec_of b m) ask cache o)
    cached_or-IsGood (some c) h =
        (valid-IsRequested t symbol month b m c own same dated (sound b m c dated h), sound)
    cached_or-IsGood none h = answered-IsGood (ask (spec_of b m))

  resolve_spec-IsGood :
      (ask : ContractSpec → Answer QualifiedContract) (cache : Cache) (r : Resolution ContractSpec)
      → IsSound t cache
      → IsBuilt (t.upper (t.strip symbol)) month r
      → IsGood (resolve_spec t ask cache r)
  resolve_spec-IsGood ask cache (Resolution.failed e) sound h = (tt, sound)
  resolve_spec-IsGood ask cache (Resolution.passed e) sound h = (tt, sound)
  resolve_spec-IsGood ask cache Resolution.crashed sound h = (tt, sound)
  resolve_spec-IsGood ask cache (Resolution.resolved s) sound (b, m, same, dated, is_spec, own) =
      subst (λ x. IsGood (resolve_spec t ask cache (Resolution.resolved x))) (sym is_spec)
        (cached_or-IsGood ask b m own same dated cache sound _ refl)

  pub resolve-IsGood :
      (ask : ContractSpec → Answer QualifiedContract) (cache : Cache)
      → IsSound t cache
      → IsGood (resolve t symbol month ask cache)
  unfolding resolve build_spec
  resolve-IsGood ask cache sound = resolve_spec-IsGood ask cache _ sound (
      spec_for-IsBuilt (t.upper (t.strip symbol)) month _
        (get_product-IsFound t.strip t.upper symbol))

-- One call of `resolve`: the symbol, the month, and what the broker answers to each specification.
pub record Call : Type 0 where
  pub symbol : String
  pub month : Option String
  pub ask : ContractSpec → Answer QualifiedContract

unfoldable pub resolve_all : Texting → List Call → Cache → Cache
resolve_all t [] cache = cache
resolve_all t (k ∷ ks) cache = resolve_all t ks (resolve t k.symbol k.month k.ask cache).1

resolve_all-IsSound :
    (t : Texting) (ks : List Call) (cache : Cache)
    → IsSound t cache
    → IsSound t (resolve_all t ks cache)
unfolding resolve_all
resolve_all-IsSound t [] cache sound = sound
resolve_all-IsSound t (k ∷ ks) cache sound =
    resolve_all-IsSound t ks _ (resolve-IsGood t k.symbol k.month k.ask cache sound).1

-- A contract that `resolve` returns, after any earlier calls on a new resolver and whatever the broker
-- answered to them and answers now, is the requested one: the symbol, stripped and in upper case, is a
-- supported product's and the contract's symbol in upper case is that product's; a month was given,
-- and the contract's expiration starts with its first six characters; and its id is positive.
pub resolve-IsRequested :
    (t : Texting) (ks : List Call) (symbol : String) (month : Option String)
    (ask : ContractSpec → Answer QualifiedContract) (c : QualifiedContract)
    → (resolve t symbol month ask (resolve_all t ks [])).0 ≡ Resolution.resolved c
    → IsRequested t symbol month c
resolve-IsRequested t ks symbol month ask c h =
    subst (Each (IsRequested t symbol month)) h
      (resolve-IsGood t symbol month ask (resolve_all t ks [])
        (resolve_all-IsSound t ks [] (λ b m x dated e. ground (arith, e)))).0
