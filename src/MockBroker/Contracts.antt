-- ===== src/MockBroker/Contracts.antt =====
-- app/broker/mock_broker.py: the contracts that the simulated broker makes up.
use pgjp_trading.Prelude.{
  ℕ, ◌+◌, ◌%◌, ◌<>◌, String, not, Option, none, some, List, [], ◌∷◌, if◌then◌else◌, get_or,
}
use pgjp_trading.Prelude.Int.{ℤ, pos, ◌-ℤ◌}
use pgjp_trading.Enums.{SecurityType, security_type_enumeration}
use pgjp_trading.Texts.{take, drop, item, index}
use pgjp_trading.Contract.{ContractSpec, QualifiedContract, spec_is_continuous, is_dated}
use pgjp_trading.Product.{FuturesProduct, get_product}
use pgjp_trading.Broker.{BrokerError}
use pgjp_trading.MockBroker.{Simulation, MockBroker, is_connected}

-- What the contracts take from Python's library: the first four bytes of the SHA-256 digest of a text,
-- as a number, and `int` of a text, none for its `ValueError`.
pub record Library : Type 0 where
  pub digest : String → ℕ
  pub int : String → Option ℤ

-- `_deterministic_con_id`
unfoldable pub deterministic_con_id : Library → String → String → ℕ
deterministic_con_id l symbol expiry = 900000000 + l.digest (symbol <> ":" <> expiry) % 90000000

abbrev with_digit : Option String → String → Option String
with_digit none digit = none
with_digit (some letter) digit = some (letter <> digit)

abbrev pub month_letter : Option ℤ → Option String → Option String
month_letter none digit = none
month_letter (some month) none = none
month_letter (some month) (some digit) = with_digit (index (month -ℤ pos 1) "FGHJKMNQUVXZ") digit

-- `_month_code`: none where it raises a `ValueError` or an `IndexError`.
unfoldable pub month_code : Library → String → Option String
month_code l expiry = month_letter (l.int (drop 4 (take 6 expiry))) (item 3 expiry)

-- How a lookup ends: with contracts, with a `BrokerError`, or with the exception of `_month_code`.
pub data Lookup (A : Type 0) : Type 0 where
  found : A → Lookup A
  refused : BrokerError → Lookup A
  crashed : Lookup A

abbrev simulated_contract : Library → String → String → String → FuturesProduct → QualifiedContract
simulated_contract l symbol expiry code product = record {
  con_id = pos (deterministic_con_id l symbol expiry);
  symbol = product.symbol;
  local_symbol = product.symbol <> code;
  sec_type = SecurityType.future;
  exchange = product.exchange;
  currency = product.currency;
  expiration = expiry;
  multiplier = some product.reference_multiplier;
  min_tick = product.reference_min_tick;
}

abbrev pub coded :
    Library → String → String → FuturesProduct → Option String → Lookup (List QualifiedContract)
coded l symbol expiry product none = Lookup.crashed
coded l symbol expiry product (some code) =
    Lookup.found (simulated_contract l symbol expiry code product ∷ [])

-- `get_contract_details` once the product is looked up.
abbrev pub details_of :
    Library → ContractSpec → Option FuturesProduct → Lookup (List QualifiedContract)
details_of l spec none = Lookup.refused BrokerError.contract_error
details_of l spec (some product) =
    let expiry = get_or spec.last_trade_date_or_contract_month "" in
    if not (is_dated spec.last_trade_date_or_contract_month)
    then Lookup.refused BrokerError.contract_error
    else coded l spec.symbol expiry product (month_code l expiry)

-- `MockBroker.get_contract_details`
unfoldable pub get_contract_details :
    Simulation → Library → ContractSpec → MockBroker → Lookup (List QualifiedContract)
get_contract_details sim l spec b =
    if not (is_connected b)
    then Lookup.refused BrokerError.connection_error
    else if b.permission_denied
    then Lookup.refused BrokerError.permission_error
    else if spec_is_continuous spec
    then Lookup.refused BrokerError.contract_error
    else details_of l spec (get_product sim.strip sim.upper spec.symbol)

abbrev pub only_match : Lookup (List QualifiedContract) → Lookup QualifiedContract
only_match (Lookup.found []) = Lookup.refused BrokerError.contract_error
only_match (Lookup.found (c ∷ [])) = Lookup.found c
only_match (Lookup.found (c ∷ d ∷ rest)) = Lookup.refused BrokerError.contract_error
only_match (Lookup.refused e) = Lookup.refused e
only_match Lookup.crashed = Lookup.crashed

-- `MockBroker.qualify_contract`
unfoldable pub qualify_contract :
    Simulation → Library → ContractSpec → MockBroker → Lookup QualifiedContract
qualify_contract sim l spec b = only_match (get_contract_details sim l spec b)
