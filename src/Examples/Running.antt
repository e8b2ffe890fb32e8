-- ===== src/Examples/Running.antt =====
-- The theorems on the running application at concrete inputs.
use pgjp_trading.Prelude.{◌≡◌, refl, true, false, some, List, [], ◌∷◌}
use pgjp_trading.Prelude.Int.{pos}
use pgjp_trading.Enums.{AccountType, ConnectionState}
use pgjp_trading.Broker.{AccountSummary}
use pgjp_trading.Gate
use pgjp_trading.Examples.Decisions.{cleared}
use pgjp_trading.Reconciliation.{
  succeeded, reconcile, compare_positions, compare_orders, sort_keys, compare_keys, by_id,
  compare_snapshots, compare_locals,
}
use pgjp_trading.Keyed.{set_all}
use pgjp_trading.Positions.{replace_all}
use pgjp_trading.Repository.{open_order_tuples}
use pgjp_trading.Application.{
  TradingApplication, BrokerReply, ConnectReply, start, after_connect, run_reconciliation,
  connect_with_backoff, compute_ready_state, ingest_fills,
}
use pgjp_trading.Application.Steps.{Step, step, run_steps, IsBacked, ready-IsBacked}
use pgjp_trading.Application.Contexts.{
  Surroundings, build_gate_context, broker_permission_ready, gate-reconciled,
}
use pgjp_trading.Samples.{armed, contract, gate_context}

abbrev surroundings : Surroundings
surroundings = record {
  connection_state = ConnectionState.connected;
  account_type = AccountType.simulated;
  age = λ c. some (pos 1000000);
  is_delayed = λ c. some false;
  strategy_enabled = true;
}

abbrev account : AccountSummary
account = record { account_type = AccountType.simulated; futures_permission = some true }

abbrev flat : BrokerReply
flat = BrokerReply.read (record { positions = []; open_orders = []; fills = [] })

-- The application connects, reconciles and resolves its contract.
abbrev steps : List Step
steps =
    Step.connecting ConnectReply.connected
    ∷ Step.after_connecting (pos 1) (some account) flat (some contract) false
    ∷ []

ready-IsBacked_example : IsBacked armed (run_steps armed steps (start [] [] []))
ready-IsBacked_example = ready-IsBacked armed [] [] [] steps

abbrev running : TradingApplication
running = run_steps armed steps (start [] [] [])

ready_context : build_gate_context armed surroundings true running ≡ gate_context
unfolding run_steps step after_connect run_reconciliation start connect_with_backoff
    compute_ready_state reconcile compare_positions compare_orders sort_keys compare_keys by_id
    set_all replace_all ingest_fills open_order_tuples compare_snapshots compare_locals
    build_gate_context broker_permission_ready
ready_context = refl

running-allowed :
    (Gate.evaluate armed (build_gate_context armed surroundings true running)).allowed ≡ true
running-allowed = rw ready_context cleared

gate-reconciled_example : succeeded running.reconciliation ≡ true
gate-reconciled_example = gate-reconciled armed [] [] [] steps surroundings true running-allowed
