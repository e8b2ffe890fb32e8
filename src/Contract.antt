-- ===== src/Contract.antt =====
-- app/contracts/models.py: the request for a contract, and the answer that may carry an order. The
-- descriptive fields of the answer (hours, names, the raw reply) are left out.
use pgjp_trading.Prelude.{
  String, Bool, false, not, Option, none, some, ◌is◌, if◌then◌else◌, str_eq, ◌≡◌, true, arith,
}
use pgjp_trading.Prelude.Int.{ℤ, pos, leb_ℤ}
use pgjp_trading.Decimal.{Decimal, of_int, zero_decimal, le_decimal, abs_decimal, mul_decimal}
use pgjp_trading.Enums.{SecurityType, security_type_enumeration}

pub data ContractError : Type 0 where
  con_id_not_positive not_a_future no_expiration min_tick_not_positive : ContractError
  multiplier_not_numeric continuous undated : ContractError

pub record ContractSpec : Type 0 where
  pub symbol : String
  pub sec_type : SecurityType
  pub exchange : String
  pub currency : String
  pub last_trade_date_or_contract_month : Option String

-- `ContractSpec.is_continuous`
abbrev pub spec_is_continuous : ContractSpec → Bool
spec_is_continuous s = s.sec_type is SecurityType.continuous_future

-- `ContractSpec.is_dated`: neither `None` nor empty.
abbrev pub is_dated : Option String → Bool
is_dated none = false
is_dated (some s) = not (str_eq s "")

pub not_empty : (s : String) → is_dated (some s) ≡ true → str_eq s "" ≡ false
not_empty s h = ground (arith, h)

-- `ContractSpec.require_orderable`
unfoldable pub require_orderable : ContractSpec → Option ContractError
require_orderable s =
    if spec_is_continuous s
    then some ContractError.continuous
    else if not (is_dated s.last_trade_date_or_contract_month)
    then some ContractError.undated
    else none

-- `multiplier` is what `Decimal` reads from the text that the broker sent: none where it refuses. A
-- text such as NaN or Infinity, which `Decimal` reads as no finite number, is outside the model.
pub record QualifiedContract : Type 0 where
  pub con_id : ℤ
  pub symbol : String
  pub local_symbol : String
  pub sec_type : SecurityType
  pub exchange : String
  pub currency : String
  pub expiration : String
  pub multiplier : Option Decimal
  pub min_tick : Decimal

-- `QualifiedContract.__post_init__`: the error that refuses the value, or none.
unfoldable pub check_qualified : QualifiedContract → Option ContractError
check_qualified c =
    if leb_ℤ c.con_id (pos 0)
    then some ContractError.con_id_not_positive
    else if not (c.sec_type is SecurityType.future)
    then some ContractError.not_a_future
    else if str_eq c.expiration ""
    then some ContractError.no_expiration
    else if le_decimal c.min_tick zero_decimal
    then some ContractError.min_tick_not_positive
    else none

-- `QualifiedContract.is_continuous`
abbrev pub is_continuous : QualifiedContract → Bool
is_continuous c = false

-- `QualifiedContract.notional`; none is the `ContractError` of `multiplier_decimal`.
unfoldable pub notional : QualifiedContract → ℤ → Decimal → Option Decimal
notional c quantity price = elim c.multiplier [
  | none ↦ none
  | some multiplier ↦
      some (mul_decimal (mul_decimal (abs_decimal (of_int quantity)) multiplier) price)
]
