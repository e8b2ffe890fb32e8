-- ===== src/MockBroker/Operations.antt =====
-- app/broker/mock_broker.py: the calls that change the simulated broker, as one type, and the broker
-- after a sequence of them.
use pgjp_trading.Prelude.{String, Bool, List, [], ◌∷◌}
use pgjp_trading.Prelude.Int.{ℤ}
use pgjp_trading.Enums.{AccountType, ConnectionState}
use pgjp_trading.Contract.{QualifiedContract}
use pgjp_trading.Broker.{BrokerPosition, OrderRequest}
use pgjp_trading.MockBroker.{
  Simulation, MockBroker, seed_position, set_account_type, set_permission_denied, force_disconnect,
  connect, disconnect, get_account_summary, request_market_data, cancel_market_data,
}
use pgjp_trading.MockBroker.Orders.{place_order, modify_order, cancel_order, cancel_all_orders}

pub data Operation : Type 0 where
  seeded : BrokerPosition → Operation
  account_type : AccountType → Operation
  permission_denied : Bool → Operation
  forced_disconnect : ConnectionState → Operation
  connected : ℤ → Operation
  disconnected : Operation
  summary : ℤ → Operation
  data_requested : ℤ → QualifiedContract → Operation
  data_cancelled : QualifiedContract → Operation
  placed : ℤ → OrderRequest → Operation
  modified : OrderRequest → String → Operation
  cancelled : String → Operation
  all_cancelled : Operation

unfoldable pub perform : Simulation → Operation → MockBroker → MockBroker
perform sim (Operation.seeded p) b = seed_position p b
perform sim (Operation.account_type t) b = set_account_type t b
perform sim (Operation.permission_denied denied) b = set_permission_denied denied b
perform sim (Operation.forced_disconnect state) b = force_disconnect state b
perform sim (Operation.connected at) b = (connect at b).1
perform sim Operation.disconnected b = disconnect b
perform sim (Operation.summary at) b = (get_account_summary at b).1
perform sim (Operation.data_requested at c) b = (request_market_data sim at c b).1
perform sim (Operation.data_cancelled c) b = cancel_market_data sim c b
perform sim (Operation.placed at r) b = (place_order sim at r b).1
perform sim (Operation.modified r id) b = (modify_order r id b).1
perform sim (Operation.cancelled id) b = (cancel_order id b).1
perform sim Operation.all_cancelled b = (cancel_all_orders b).1

unfoldable pub perform_all : Simulation → List Operation → MockBroker → MockBroker
perform_all sim [] b = b
perform_all sim (o ∷ os) b = perform_all sim os (perform sim o b)
