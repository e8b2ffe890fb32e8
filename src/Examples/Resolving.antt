-- ===== src/Examples/Resolving.antt =====
-- The theorems on the contract resolver and on the simulated contracts at concrete inputs.
use pgjp_trading.Prelude.{true, false, some, none, [], ◌∷◌, ◌≡◌, refl}
use pgjp_trading.Prelude.Int.{pos, ◌-ℤ◌}
use pgjp_trading.Decimal.{zero_decimal}
use pgjp_trading.Enums.{ConnectionState}
use pgjp_trading.Broker.{BrokerError}
use pgjp_trading.Contract.{ContractSpec, QualifiedContract, require_orderable}
use pgjp_trading.Product.{get_product, spec, micro_solana}
use pgjp_trading.MockBroker.{Simulation, MockBroker, new_broker}
use pgjp_trading.MockBroker.Contracts.{
  Library, Lookup, qualify_contract, get_contract_details, deterministic_con_id, month_code,
}
use pgjp_trading.MockBroker.Qualified.{IsSimulated, qualify_contract-IsSimulated}
use pgjp_trading.Resolver.{Texting, Resolution, Answer, resolve, build_spec, validate_qualified}
use pgjp_trading.Resolver.Requested.{Call, resolve_all, IsRequested, resolve-IsRequested}
use pgjp_trading.Resolver.Cached.{resolve-resolved}
use pgjp_trading.Samples.{contract}

abbrev texting : Texting
texting = record { strip = λ s. s; upper = λ s. s; int_text = λ n. "900000001" }

-- The broker is down at first, then it answers.
abbrev first_call : Call
first_call = record {
  symbol = "MSL";
  month = some "202603";
  ask = λ s. Answer.broker_error BrokerError.connection_error;
}

abbrev answering : ContractSpec → Answer QualifiedContract
answering s = Answer.given contract

resolved_now :
    (resolve texting "MSL" (some "202603") answering (resolve_all texting (first_call ∷ []) [])).0
    ≡ Resolution.resolved contract
unfolding resolve build_spec get_product require_orderable resolve_all validate_qualified
resolved_now = refl

resolve-IsRequested_example : IsRequested texting "MSL" (some "202603") contract
resolve-IsRequested_example =
    resolve-IsRequested texting (first_call ∷ []) "MSL" (some "202603") answering contract
      resolved_now

resolve-resolved_example :
    resolve texting "MSL"
      (some "202603")
      first_call.ask
      (resolve texting "MSL" (some "202603") answering (resolve_all texting (first_call ∷ []) [])).1
    ≡ (
      Resolution.resolved contract,
      (resolve texting "MSL"
          (some "202603")
          answering
          (resolve_all texting (first_call ∷ []) [])).1,
    )
resolve-resolved_example =
    resolve-resolved texting "MSL" (some "202603") answering first_call.ask
      (resolve_all texting (first_call ∷ []) []) contract resolved_now

-- A digest of one, and the month of March.
abbrev library : Library
library = record { digest = λ s. 1; int = λ s. some (pos 3) }

abbrev simulation : Simulation
simulation = record {
  order_id = λ n. "mock-000001";
  execution_id = λ n. "mockexec-000001";
  contract_key = λ id. "conid:900000001";
  strip = λ s. s;
  upper = λ s. s;
  drift = λ key step. zero_decimal;
}

abbrev connected : MockBroker
connected = record (new_broker "DUMOCK0001" none false false [] true) {
  connection_state = ConnectionState.connected;
}

abbrev march : ContractSpec
march = spec (some "202603") micro_solana

qualified_now :
    qualify_contract simulation library march connected
    ≡ Lookup.found (record contract { local_symbol = "MSLH6" })
unfolding qualify_contract get_contract_details get_product month_code ◌-ℤ◌ deterministic_con_id
qualified_now = refl

qualify_contract-IsSimulated_example :
    IsSimulated march (record contract { local_symbol = "MSLH6" })
qualify_contract-IsSimulated_example =
    qualify_contract-IsSimulated simulation library march connected
      (record contract { local_symbol = "MSLH6" }) qualified_now
