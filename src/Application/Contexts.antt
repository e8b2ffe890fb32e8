-- ===== src/Application/Contexts.antt =====
-- app/main.py: what the transmit gate is told, and what its answer then says of the application.
use pgjp_trading.Prelude.{
  String, Bool, true, false, not, Option, none, some, List, ◌≡◌, Bool-cases, inl, inr, is_some,
}
use pgjp_trading.Prelude.Int.{ℤ, pos, ltb_ℤ}
use pgjp_trading.Enums.{AccountType, ConnectionState}
use pgjp_trading.Config.{Config}
use pgjp_trading.Contract.{QualifiedContract}
use pgjp_trading.Broker.{AccountSummary}
use pgjp_trading.Positions.{Position}
use pgjp_trading.Order.{Order}
use pgjp_trading.Reconciliation.{succeeded}
use pgjp_trading.Gate
use pgjp_trading.Gate.{GateContext, GateDecision}
use pgjp_trading.Gate.Clearance.{evaluate-allowed_iff}
use pgjp_trading.Application.{TradingApplication, start, handle_disconnect}
use pgjp_trading.Application.Steps.{Step, run_steps, ready-IsBacked}

-- `_broker_permission_ready`
unfoldable pub broker_permission_ready : Config → Option AccountSummary → Bool
broker_permission_ready c none = false
broker_permission_ready c (some account) = elim account.futures_permission [
  | some observed ↦ observed
  | none ↦ c.sol_futures_permission_ready
]

-- What `_build_gate_context` reads from the broker, the market data and the strategy; where there is
-- no strategy, it is not enabled.
pub record Surroundings : Type 0 where
  pub connection_state : ConnectionState
  pub account_type : AccountType
  pub age : QualifiedContract → Option ℤ
  pub is_delayed : QualifiedContract → Option Bool
  pub strategy_enabled : Bool

-- `contract is not None and contract.con_id > 0`
abbrev is_qualified : Option QualifiedContract → Bool
is_qualified none = false
is_qualified (some c) = ltb_ℤ (pos 0) c.con_id

abbrev age_of : Surroundings → Option QualifiedContract → Option ℤ
age_of s none = none
age_of s (some c) = s.age c

-- No quote counts as delayed.
abbrev delayed_of : Surroundings → Option QualifiedContract → Bool
delayed_of s none = true
delayed_of s (some c) = elim (s.is_delayed c) [ none ↦ true | some b ↦ b ]

-- `_build_gate_context`: a resolved contract is never continuous.
unfoldable pub build_gate_context : Config → Surroundings → Bool → TradingApplication → GateContext
build_gate_context c s risk_approved app = record {
  app_state = app.state;
  connection_state = s.connection_state;
  broker_account_type = s.account_type;
  contract_qualified = is_qualified app.contract;
  contract_is_continuous = not (is_some app.contract);
  account_available = is_some app.account;
  positions_reconciled = app.reconciliation.positions_reconciled;
  open_orders_reconciled = app.reconciliation.orders_reconciled;
  market_data_age_seconds = age_of s app.contract;
  market_data_is_delayed = delayed_of s app.contract;
  broker_permission_ready = broker_permission_ready c app.account;
  strategy_enabled = s.strategy_enabled;
  risk_approved = risk_approved;
}

-- After any steps of the application, whatever the broker answers in them: if the transmit gate lets
-- an order through in its present context, the last reconciliation succeeded in full.
pub gate-reconciled :
    (c : Config) (stored : List Position) (known : List String) (orders : List Order)
    (steps : List Step)
    → (s : Surroundings) (risk_approved : Bool)
    → (Gate.evaluate c (
        build_gate_context c s risk_approved
          (run_steps c steps (start stored known orders)))).allowed
      ≡ true
    → succeeded (run_steps c steps (start stored known orders)).reconciliation ≡ true
unfolding build_gate_context
gate-reconciled c stored known orders steps s risk_approved h =
    (ready-IsBacked c stored known orders steps (((evaluate-allowed_iff c _).0 h).ready)).0

-- Once a disconnect was handled, the gate refuses every order, whatever it was before.
pub handle_disconnect-refused :
    (c : Config) (s : Surroundings) (risk_approved : Bool) (app : TradingApplication)
    → (Gate.evaluate c (build_gate_context c s risk_approved (handle_disconnect app))).allowed
      ≡ false
unfolding build_gate_context handle_disconnect
handle_disconnect-refused c s risk_approved app =
    elim (Bool-cases
      (Gate.evaluate c (build_gate_context c s risk_approved (handle_disconnect app))).allowed) [
        | inl e ↦ cc (((evaluate-allowed_iff c _).0 e).account_available)
        | inr e ↦ e
      ]
