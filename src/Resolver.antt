-- ===== src/Resolver.antt =====
-- app/contracts/resolver.py: from a symbol and a contract month to a contract that the broker
-- confirms. A call gives its answer and the cache after it; log lines are left out. The broker's
-- `qualify_contract` is a parameter, and so are `str.strip`, `str.upper` and the text of an integer.
pub mod Requested
pub mod Adopted
pub mod Cached
use pgjp_trading.Prelude.{◌<>◌, String, not, ◌&&◌, Option, none, some, List, if◌then◌else◌, str_eq}
use pgjp_trading.Prelude.Int.{ℤ, pos, leb_ℤ}
use pgjp_trading.Enums.{SecurityType}
use pgjp_trading.Broker.{BrokerError}
use pgjp_trading.Contract.{
  ContractError, ContractSpec, QualifiedContract, is_dated, is_continuous, require_orderable,
}
use pgjp_trading.Product.{FuturesProduct, spec, get_product}
use pgjp_trading.Texts.{take, starts_with}
use pgjp_trading.Named.{get, set}

pub record Texting : Type 0 where
  pub strip : String → String
  pub upper : String → String
  pub int_text : ℤ → String

-- The reasons of a `ContractResolutionError`.
pub data ResolutionError : Type 0 where
  unsupported_symbol no_contract_month refused_by_broker : ResolutionError
  wrong_symbol continuous_answer no_con_id wrong_expiration : ResolutionError

-- How a call ends: it returns, it raises a `ContractResolutionError`, it lets a `ContractError` pass,
-- or it lets any other exception of the broker pass.
pub data Resolution (A : Type 0) : Type 0 where
  resolved : A → Resolution A
  failed : ResolutionError → Resolution A
  passed : ContractError → Resolution A
  crashed : Resolution A

-- How a lookup at the broker ends.
pub data Answer (A : Type 0) : Type 0 where
  given : A → Answer A
  broker_error : BrokerError → Answer A
  contract_error : ContractError → Answer A
  other_exception : Answer A

-- `ContractResolver._cache`
abbrev pub Cache : Type 0
Cache = List (String × QualifiedContract)

-- `SecurityType.value`
abbrev pub value : SecurityType → String
value SecurityType.future = "FUT"
value SecurityType.continuous_future = "CONTFUT"

abbrev expiry_text : Option String → String
expiry_text none = "UNDATED"
expiry_text (some month) = if str_eq month "" then "UNDATED" else month

-- `ContractSpec.key`
unfoldable pub spec_key : ContractSpec → String
spec_key s =
    (s.symbol <> (":" <> (value s.sec_type <> (":" <> (s.exchange <> ":")))))
    <> expiry_text s.last_trade_date_or_contract_month

-- `QualifiedContract.key`
unfoldable pub contract_key : Texting → QualifiedContract → String
contract_key t c = "conid:" <> t.int_text c.con_id

abbrev pub orderable : ContractSpec → Option ContractError → Resolution ContractSpec
orderable s none = Resolution.resolved s
orderable s (some e) = Resolution.passed e

abbrev pub spec_for : Option String → Option FuturesProduct → Resolution ContractSpec
spec_for month none = Resolution.failed ResolutionError.unsupported_symbol
spec_for month (some product) =
    if not (is_dated month)
    then Resolution.failed ResolutionError.no_contract_month
    else orderable (spec month product) (require_orderable (spec month product))

-- `ContractResolver.build_spec`
unfoldable pub build_spec : Texting → String → Option String → Resolution ContractSpec
build_spec t symbol month = spec_for month (get_product t.strip t.upper symbol)

abbrev requested : Option String → String
requested none = ""
requested (some month) = month

-- `ContractResolver._validate_qualified`: the reason of the error that it raises, or none.
unfoldable pub validate_qualified :
    Texting → QualifiedContract → ContractSpec → Option ResolutionError
validate_qualified t c s =
    let month = requested s.last_trade_date_or_contract_month in
    if not (str_eq (t.upper c.symbol) (t.upper s.symbol))
    then some ResolutionError.wrong_symbol
    else if is_continuous c
    then some ResolutionError.continuous_answer
    else if leb_ℤ c.con_id (pos 0)
    then some ResolutionError.no_con_id
    else if not (str_eq month "") && not (starts_with c.expiration (take 6 month))
    then some ResolutionError.wrong_expiration
    else none

-- `resolve` from the check of the broker's contract on.
abbrev pub adopt :
    Texting
    → ContractSpec
    → QualifiedContract
    → Cache
    → Option ResolutionError
    → Resolution QualifiedContract × Cache
adopt t s c cache (some e) = (Resolution.failed e, cache)
adopt t s c cache none =
    (Resolution.resolved c, set (contract_key t c) c (set (spec_key s) c cache))

-- `resolve` from the broker's answer on.
abbrev pub answered :
    Texting → ContractSpec → Cache → Answer QualifiedContract → Resolution QualifiedContract × Cache
answered t s cache (Answer.given c) = adopt t s c cache (validate_qualified t c s)
answered t s cache (Answer.broker_error e) =
    (Resolution.failed ResolutionError.refused_by_broker, cache)
answered t s cache (Answer.contract_error e) =
    (Resolution.failed ResolutionError.refused_by_broker, cache)
answered t s cache Answer.other_exception = (Resolution.crashed, cache)

abbrev pub cached_or :
    Texting
    → ContractSpec
    → (ContractSpec → Answer QualifiedContract)
    → Cache
    → Option QualifiedContract
    → Resolution QualifiedContract × Cache
cached_or t s ask cache (some c) = (Resolution.resolved c, cache)
cached_or t s ask cache none = answered t s cache (ask s)

abbrev pub resolve_spec :
    Texting
    → (ContractSpec → Answer QualifiedContract)
    → Cache
    → Resolution ContractSpec
    → Resolution QualifiedContract × Cache
resolve_spec t ask cache (Resolution.resolved s) = cached_or t s ask cache (get (spec_key s) cache)
resolve_spec t ask cache (Resolution.failed e) = (Resolution.failed e, cache)
resolve_spec t ask cache (Resolution.passed e) = (Resolution.passed e, cache)
resolve_spec t ask cache Resolution.crashed = (Resolution.crashed, cache)

-- `ContractResolver.resolve`
unfoldable pub resolve :
    Texting
    → String
    → Option String
    → (ContractSpec → Answer QualifiedContract)
    → Cache
    → Resolution QualifiedContract × Cache
resolve t symbol month ask cache = resolve_spec t ask cache (build_spec t symbol month)

abbrev candidates : Answer (List QualifiedContract) → Resolution (List QualifiedContract)
candidates (Answer.given contracts) = Resolution.resolved contracts
candidates (Answer.broker_error e) = Resolution.failed ResolutionError.refused_by_broker
candidates (Answer.contract_error e) = Resolution.passed e
candidates Answer.other_exception = Resolution.crashed

abbrev candidates_of :
    Option String
    → (ContractSpec → Answer (List QualifiedContract))
    → Option FuturesProduct
    → Resolution (List QualifiedContract)
candidates_of month ask none = Resolution.failed ResolutionError.unsupported_symbol
candidates_of month ask (some product) = candidates (ask (spec month product))

-- `ContractResolver.list_candidates`, with the broker's `get_contract_details`.
unfoldable pub list_candidates :
    Texting
    → String
    → Option String
    → (ContractSpec → Answer (List QualifiedContract))
    → Resolution (List QualifiedContract)
list_candidates t symbol month ask = candidates_of month ask (get_product t.strip t.upper symbol)
