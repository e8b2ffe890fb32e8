-- ===== src/Resolver/Cached.antt =====
-- app/contracts/resolver.py: the cache answers for a contract that was resolved.
use pgjp_trading.Prelude.{subst, String, Bool, true, Option, none, some, ◌≡◌, refl, sym, ap}
use pgjp_trading.Contract.{ContractSpec, QualifiedContract, is_dated}
use pgjp_trading.Named.{get}
use pgjp_trading.Resolver.{
  Texting, Resolution, ResolutionError, Answer, Cache, spec_key, build_spec, adopt, answered,
  cached_or, resolve_spec, resolve,
}
use pgjp_trading.Resolver.Adopted.{spec_of, get-adopted}
use pgjp_trading.Resolver.Requested.{IsBuilt, spec_for-IsBuilt, get_product-IsFound}

module _ (t : Texting) (ask later : ContractSpec → Answer QualifiedContract) (b : Bool) (m : String)
    (dated : is_dated (some m) ≡ true) (cache : Cache) where
  -- The second answer, from the first.
  abbrev Again : Resolution QualifiedContract × Cache → Type 0
  Again (r, after) =
      (c : QualifiedContract)
      → r ≡ Resolution.resolved c
      → cached_or t (spec_of b m) later after (get (spec_key (spec_of b m)) after)
        ≡ (Resolution.resolved c, after)

  adopt-Again :
      (c : QualifiedContract) (o : Option ResolutionError) → Again (adopt t (spec_of b m) c cache o)
  adopt-Again c (some e) d h = cc
  adopt-Again c none d h =
      rw (get-adopted t b m c cache dated) (ap (λ r. (r, (adopt t (spec_of b m) c cache none).1)) h)

  answered-Again : (a : Answer QualifiedContract) → Again (answered t (spec_of b m) cache a)
  answered-Again (Answer.given c) = adopt-Again c _
  answered-Again (Answer.broker_error e) = λ d h. cc
  answered-Again (Answer.contract_error e) = λ d h. cc
  answered-Again Answer.other_exception = λ d h. cc

  cached_or-Again :
      (o : Option QualifiedContract)
      → get (spec_key (spec_of b m)) cache ≡ o
      → Again (cached_or t (spec_of b m) ask cache o)
  cached_or-Again (some c) e d h = rw e (ap (λ r. (r, cache)) h)
  cached_or-Again none e d h = answered-Again (ask (spec_of b m)) d h

-- A contract that was resolved once is resolved again from the cache: the second call returns the same
-- contract whatever the broker would answer, and leaves the cache as it was.
pub resolve-resolved :
    (t : Texting) (symbol : String) (month : Option String)
    (ask later : ContractSpec → Answer QualifiedContract) (cache : Cache) (c : QualifiedContract)
    → (resolve t symbol month ask cache).0 ≡ Resolution.resolved c
    → resolve t symbol month later (resolve t symbol month ask cache).1
      ≡ (Resolution.resolved c, (resolve t symbol month ask cache).1)
unfolding resolve build_spec
resolve-resolved t symbol month ask later cache c h =
    go _
      (spec_for-IsBuilt (t.upper (t.strip symbol)) month _
        (get_product-IsFound t.strip t.upper symbol))
      h
  where
    go :
        (r : Resolution ContractSpec)
        → IsBuilt (t.upper (t.strip symbol)) month r
        → (resolve_spec t ask cache r).0 ≡ Resolution.resolved c
        → resolve_spec t later (resolve_spec t ask cache r).1 r
          ≡ (Resolution.resolved c, (resolve_spec t ask cache r).1)
    go (Resolution.failed e) built h = cc
    go (Resolution.passed e) built h = cc
    go Resolution.crashed built h = cc
    go (Resolution.resolved s) (b, m, same, dated, is_spec, own) h =
        subst
          (λ x.
            (resolve_spec t ask cache (Resolution.resolved x)).0 ≡ Resolution.resolved c
            → resolve_spec t later (resolve_spec t ask cache (Resolution.resolved x)).1
                (Resolution.resolved x)
              ≡ (Resolution.resolved c, (resolve_spec t ask cache (Resolution.resolved x)).1))
          (sym is_spec) (cached_or-Again t ask later b m dated cache _ refl c) h
