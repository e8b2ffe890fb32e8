-- ===== src/MockBroker/Agreement.antt =====
-- app/broker/mock_broker.py with app/main.py and app/portfolio/: what the application makes of the
-- simulated broker's answers.
use pgjp_trading.Prelude.{
  ◌↔◌, String, Bool, true, Option, none, List, [], ◌∷◌, map, ◌≡◌, refl, sym, ap, ◌∙◌,
}
use pgjp_trading.Prelude.Int.{ℤ, pos, ◌+ℤ◌}
use pgjp_trading.Enums.{AccountType, order_type_enumeration}
use pgjp_trading.Contract.{QualifiedContract}
use pgjp_trading.Broker.{BrokerFill, BrokerPosition}
use pgjp_trading.Named
use pgjp_trading.Repository.{OpenOrder}
use pgjp_trading.Reconciliation.{reconcile, succeeded}
use pgjp_trading.Reconciliation.Matching.{OrdersAgree}
use pgjp_trading.Reconciliation.Agreement.{reconcile-succeeded_iff}
use pgjp_trading.Keyed.{values, set_all}
use pgjp_trading.Positions.{PositionBook, quantity}
use pgjp_trading.Positions.Fills.{net}
use pgjp_trading.Reconciliation.Deltas.{execution_of}
use pgjp_trading.Application.{execution_for, ingest_fills}
use pgjp_trading.Application.Ingestion.{is_known, quantity-ingest_fills, ingest_fills-IsValid}
use pgjp_trading.MockBroker.{Simulation, MockBroker, new_broker}
use pgjp_trading.MockBroker.Operations.{Operation, perform_all}
use pgjp_trading.MockBroker.Accounts.{held}
use pgjp_trading.MockBroker.Ledger.{MoveByFills, held-unseeded}
use pgjp_trading.MockBroker.Keys.{broker_quantity-held, perform_all-HasKeys}
use pgjp_trading.MockBroker.Numbering.{filled_ids, IsFormat}
use pgjp_trading.MockBroker.Numbering.Kept.{perform_all-Numbered, new_broker-Numbered}

-- An order that has a fill is not among the working orders, whatever was called before on a new
-- simulated broker, if it formats different numbers to different texts.
pub get-filled :
    (sim : Simulation) (os : List Operation) (account_id : String) (override : Option AccountType)
    (denied fail_connect fill_market : Bool) (initial : List BrokerPosition) (id : String)
    → IsFormat sim
    → is_known id (
        filled_ids
          (perform_all sim os
            (new_broker account_id override denied fail_connect initial fill_market)).fills)
      ≡ true
    → Named.get id
        (perform_all sim os
          (new_broker account_id override denied fail_connect initial fill_market)).open_orders
      ≡ none
get-filled sim os account_id override denied fail_connect fill_market initial id format h =
    (perform_all-Numbered sim format os _ (
        new_broker-Numbered sim format account_id override denied fail_connect initial
          fill_market)).settled
      id h

-- The two ways to read a fill move the same quantities.
net-execution_for :
    (c : ℤ) (contract : Option QualifiedContract) (fills : List BrokerFill)
    → net c (map (execution_for contract) fills) ≡ net c (map execution_of fills)
net-execution_for c contract [] = refl
net-execution_for c contract (f ∷ fills) = rw (net-execution_for c contract fills) refl

module _ (contract : Option QualifiedContract) (sim : Simulation) (os : List Operation)
    (account_id : String) (override : Option AccountType)
    (denied fail_connect fill_market : Bool) where
  -- A new simulated broker without positions, after the calls.
  abbrev broker : MockBroker
  broker = perform_all sim os (new_broker account_id override denied fail_connect [] fill_market)

  -- The application that has seen no fill and holds no position, after reading all fills.
  abbrev book : PositionBook
  book = (ingest_fills contract broker.fills ([], [])).1

  quantity-held : (c : ℤ) → IsFormat sim → MoveByFills c os → quantity c book ≡ held c broker
  unfolding quantity
  quantity-held c format h =
      quantity-ingest_fills c contract broker.fills [] []
      ∙ ap (λ fs. pos 0 +ℤ net c (map (execution_for contract) fs))
          (perform_all-Numbered sim format os _ (
            new_broker-Numbered sim format account_id override denied fail_connect []
              fill_market)).distinct
      ∙ ap (λ n. pos 0 +ℤ n) (net-execution_for c contract broker.fills)
      ∙ sym (held-unseeded c sim os account_id override denied fail_connect fill_market h)

  -- Let an application without positions read all fills of a simulated broker that started without
  -- positions, and reconcile its book with all that the broker reports. It succeeds exactly when the
  -- broker order ids of the two sides agree and the account could be read: the positions never stand
  -- in the way. Before it, any calls were made on the broker that seed no position, the multiplier of
  -- each ordered contract was a number, and different numbers were formatted to different texts.
  pub reconcile-simulated :
      (now : ℤ) (locals : List OpenOrder) (recent : List BrokerFill) (account_available : Bool)
      → IsFormat sim
      → ((c : ℤ) → MoveByFills c os)
      → (succeeded (
            reconcile now book
              (values broker.positions)
              (Named.values broker.open_orders)
              locals
              recent
              account_available)
          ≡ true)
        ↔ (OrdersAgree (Named.values broker.open_orders) locals × (account_available ≡ true))
  unfolding set_all
  reconcile-simulated now locals recent account_available format h =
      let iff =
        reconcile-succeeded_iff now book (values broker.positions) (Named.values broker.open_orders)
          locals recent account_available (ingest_fills-IsValid contract broker.fills [] [] tt) in
      (
        λ e. ((iff.0 e).1, (iff.0 e).2),
        λ (o, a). iff.1 (
          λ c.
              broker_quantity-held c broker.positions (perform_all-HasKeys sim os _ tt)
              ∙ sym (quantity-held c format (h c)),
          o,
          a,
        ),
      )
