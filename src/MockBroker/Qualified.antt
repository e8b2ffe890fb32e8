-- ===== src/MockBroker/Qualified.antt =====
-- app/broker/mock_broker.py: the contracts that the simulated broker qualifies can be traded.
use pgjp_trading.Prelude.{
  subst, ◌is◌, ℕ, ◌<◌, ◌≤◌, String, true, false, not, Option, none, some, ◌≡◌, refl, sym,
  if◌then◌else◌, get_or, arith, if_holds, str_eq, is_some,
}
use pgjp_trading.Prelude.Int.{pos, leb_ℤ}
use pgjp_trading.Decimal.{zero_decimal, le_decimal}
use pgjp_trading.Broker.{BrokerError}
use pgjp_trading.Enums.{SecurityType, security_type_enumeration}
use pgjp_trading.Contract.{
  ContractSpec, QualifiedContract, check_qualified, spec_is_continuous, is_dated, not_empty,
}
use pgjp_trading.Product.{FuturesProduct, get_product}
use pgjp_trading.MockBroker.{Simulation, MockBroker, is_connected}
use pgjp_trading.MockBroker.Contracts.{
  Library, deterministic_con_id, month_code, Lookup, coded, details_of, get_contract_details,
  only_match, qualify_contract,
}

-- What holds of what is found.
abbrev pub Every : {A : Type 0} → (A → Type 0) → Lookup A → Type 0
Every P (Lookup.found a) = P a
Every P (Lookup.refused e) = Unit
Every P Lookup.crashed = Unit

-- A contract that is the future asked for, that passes its own checks, whose id is a positive number
-- of 31 bits apart from a broker's own, and whose multiplier is a number.
pub record IsSimulated (spec : ContractSpec) (c : QualifiedContract) : Type 0 where
  pub checked : check_qualified c ≡ none
  pub expiration : some c.expiration ≡ spec.last_trade_date_or_contract_month
  pub multiplier : is_some c.multiplier ≡ true
  pub con_id : (n : ℕ) × (c.con_id ≡ pos n) × (900000000 ≤ n) × (n < 990000000)

deterministic_con_id-range :
    (l : Library) (symbol expiry : String)
    → (900000000 ≤ deterministic_con_id l symbol expiry)
      × (deterministic_con_id l symbol expiry < 990000000)
unfolding deterministic_con_id
deterministic_con_id-range l symbol expiry = (omega arith, omega arith)

-- A product's tick is positive.
abbrev HasTick : Option FuturesProduct → Type 0
HasTick none = Unit
HasTick (some p) = le_decimal p.reference_min_tick zero_decimal ≡ false

get_product-HasTick :
    (strip upper : String → String) (symbol : String) → HasTick (get_product strip upper symbol)
unfolding get_product le_decimal
get_product-HasTick strip upper symbol =
    if_holds HasTick (str_eq "MSL" (upper (strip symbol))) _ _ refl
      (λ _. if_holds HasTick (str_eq "SOL" (upper (strip symbol))) _ _ refl (λ _. tt))

check_qualified-none :
    (c : QualifiedContract)
    → leb_ℤ c.con_id (pos 0) ≡ false
    → (c.sec_type is SecurityType.future) ≡ true
    → str_eq c.expiration "" ≡ false
    → le_decimal c.min_tick zero_decimal ≡ false
    → check_qualified c ≡ none
unfolding check_qualified
check_qualified-none c id type dated tick = ground (arith, id, type, dated, tick)

id_is_positive : (n : ℕ) → 900000000 ≤ n → leb_ℤ (pos n) (pos 0) ≡ false
id_is_positive n h = ground (arith, h)

module _ (l : Library) (spec : ContractSpec) where
  coded-IsSimulated :
      (expiry : String) (p : FuturesProduct) (code : Option String)
      → le_decimal p.reference_min_tick zero_decimal ≡ false
      → spec.last_trade_date_or_contract_month ≡ some expiry
      → is_dated (some expiry) ≡ true
      → Every (IsSimulated spec) (only_match (coded l spec.symbol expiry p code))
  coded-IsSimulated expiry p none tick dated h = tt
  coded-IsSimulated expiry p (some code) tick dated h = record {
    checked =
        check_qualified-none _
          (id_is_positive (deterministic_con_id l spec.symbol expiry)
            (deterministic_con_id-range l spec.symbol expiry).0)
          refl (not_empty expiry h) tick;
    expiration = sym dated;
    multiplier = refl;
    con_id = (
      deterministic_con_id l spec.symbol expiry,
      refl,
      (deterministic_con_id-range l spec.symbol expiry).0,
      (deterministic_con_id-range l spec.symbol expiry).1,
    );
  }

  details-IsSimulated :
      (p : Option FuturesProduct)
      → HasTick p
      → Every (IsSimulated spec) (only_match (details_of l spec p))
  details-IsSimulated none h = tt
  details-IsSimulated (some p) h = go spec.last_trade_date_or_contract_month refl
    where
      go :
          (month : Option String)
          → spec.last_trade_date_or_contract_month ≡ month
          → Every (IsSimulated spec) (
              only_match (
                if not (is_dated month)
                then Lookup.refused BrokerError.contract_error
                else coded l spec.symbol (get_or month "") p (month_code l (get_or month ""))))
      go none e = tt
      go (some expiry) e =
          if_holds (λ x. Every (IsSimulated spec) (only_match x)) (not (is_dated (some expiry))) _ _
            tt
            (λ dated. coded-IsSimulated expiry p (month_code l expiry) h e (ground (arith, dated)))

-- A contract that the simulated broker qualifies is the one asked for: its expiration is the
-- specification's contract month, it passes the checks of its own construction, its multiplier is a
-- number, and its id lies from 900000000 up to 990000000, so that it fits 31 bits.
pub qualify_contract-IsSimulated :
    (sim : Simulation) (l : Library) (spec : ContractSpec) (b : MockBroker) (c : QualifiedContract)
    → qualify_contract sim l spec b ≡ Lookup.found c
    → IsSimulated spec c
unfolding qualify_contract get_contract_details
qualify_contract-IsSimulated sim l spec b c h = subst (Every (IsSimulated spec)) h (
    if_holds (λ x. Every (IsSimulated spec) (only_match x)) (not (is_connected b)) _ _ tt
      (λ _.
        if_holds (λ x. Every (IsSimulated spec) (only_match x)) b.permission_denied _ _ tt
          (λ _.
            if_holds (λ x. Every (IsSimulated spec) (only_match x)) (spec_is_continuous spec) _ _ tt
              (λ _.
                details-IsSimulated l spec _
                  (get_product-HasTick sim.strip sim.upper spec.symbol)))))
