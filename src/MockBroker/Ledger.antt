-- ===== src/MockBroker/Ledger.antt =====
-- app/broker/mock_broker.py: the simulated positions move by the fills.
use pgjp_trading.Prelude.{Bool, true, Option, List, [], ◌∷◌, ◌≡◌, is_some, if_after}
use pgjp_trading.Prelude.Int.{ℤ, pos, ◌+ℤ◌, ◌-ℤ◌, eqb_ℤ, int_laws}
use pgjp_trading.Enums.{order_type_enumeration, AccountType}
use pgjp_trading.Keyed.{get, get-set, get-pop}
use pgjp_trading.Keyed
use pgjp_trading.MockBroker.{
  Simulation, MockBroker, seed_position, set_account_type, set_permission_denied, force_disconnect,
  connect, disconnect, get_account_summary, request_market_data, cancel_market_data, is_connected,
  String, not, new_broker, false,
}
use pgjp_trading.MockBroker.Orders.{modify_order, cancel_order, cancel_all_orders}
use pgjp_trading.MockBroker.Operations.{Operation, perform, perform_all}
use pgjp_trading.MockBroker.Accounts.{
  held, net_fills, IsAccounted, same-IsAccounted, place_order-IsAccounted, request_market_data-same,
  modify_order-same,
}

-- A call moves a contract's position by fills only: it does not seed that position, and a contract
-- that it orders has a multiplier that is a number.
abbrev pub MovesByFills : ℤ → Operation → Type 0
MovesByFills c (Operation.seeded p) = eqb_ℤ p.con_id c ≡ false
MovesByFills c (Operation.placed at r) = is_some r.contract.multiplier ≡ true
MovesByFills c _ = Unit

perform-IsAccounted :
    (c base : ℤ) (sim : Simulation) (o : Operation) (b : MockBroker)
    → MovesByFills c o
    → IsAccounted c base b
    → IsAccounted c base (perform sim o b)
unfolding perform seed_position set_account_type set_permission_denied force_disconnect connect
    disconnect get_account_summary cancel_market_data cancel_order cancel_all_orders
perform-IsAccounted c base sim (Operation.seeded p) b h v =
    rw (get-set c p.con_id p b.positions, h) v
perform-IsAccounted c base sim (Operation.account_type t) b h v = v
perform-IsAccounted c base sim (Operation.permission_denied d) b h v = v
perform-IsAccounted c base sim (Operation.forced_disconnect s) b h v = v
perform-IsAccounted c base sim (Operation.connected at) b h v =
    if_after (IsAccounted c base) b.fail_connect _ _ v v
perform-IsAccounted c base sim Operation.disconnected b h v = v
perform-IsAccounted c base sim (Operation.summary at) b h v =
    if_after (IsAccounted c base) (not (is_connected b)) _ _ v v
perform-IsAccounted c base sim (Operation.data_requested at k) b h v =
    same-IsAccounted c base b (request_market_data sim at k b).1
      (request_market_data-same sim at k b) v
perform-IsAccounted c base sim (Operation.data_cancelled k) b h v = v
perform-IsAccounted c base sim (Operation.placed at r) b h v =
    place_order-IsAccounted c base sim at r b h v
perform-IsAccounted c base sim (Operation.modified r id) b h v =
    same-IsAccounted c base b (modify_order r id b).1 (modify_order-same r id b) v
perform-IsAccounted c base sim (Operation.cancelled id) b h v =
    if_after (IsAccounted c base) (not (is_connected b)) _ _ v v
perform-IsAccounted c base sim Operation.all_cancelled b h v =
    if_after (IsAccounted c base) (not (is_connected b)) _ _ v v

abbrev pub MoveByFills : ℤ → List Operation → Type 0
MoveByFills c [] = Unit
MoveByFills c (o ∷ os) = MovesByFills c o × MoveByFills c os

perform_all-IsAccounted :
    (c base : ℤ) (sim : Simulation) (os : List Operation) (b : MockBroker)
    → MoveByFills c os
    → IsAccounted c base b
    → IsAccounted c base (perform_all sim os b)
unfolding perform_all
perform_all-IsAccounted c base sim [] b h v = v
perform_all-IsAccounted c base sim (o ∷ os) b (h, hs) v =
    perform_all-IsAccounted c base sim os (perform sim o b) hs
      (perform-IsAccounted c base sim o b h v)

-- From any state of the simulated broker, and over any calls, connected or not and refused or not,
-- that do not seed the contract's own position and order only contracts whose multiplier is a number:
-- the contract's position moves by exactly the signed sum of its new fills.
pub held-perform_all :
    (c : ℤ) (sim : Simulation) (os : List Operation) (b : MockBroker)
    → MoveByFills c os
    → held c (perform_all sim os b)
      ≡ held c b -ℤ net_fills c b +ℤ net_fills c (perform_all sim os b)
held-perform_all c sim os b h =
    perform_all-IsAccounted c (held c b -ℤ net_fills c b) sim os b h (sub_add (held c b) _)
  where
    sub_add : (x y : ℤ) → x ≡ x -ℤ y +ℤ y
    sub_add x y = omega int_laws

-- Of a new broker without positions, none of which is seeded later, the position of a contract is the
-- signed sum of its fills alone.
pub held-unseeded :
    (c : ℤ) (sim : Simulation) (os : List Operation) (account_id : String)
    (override : Option AccountType) (denied fail_connect fill_market : Bool)
    → MoveByFills c os
    → held c
        (perform_all sim os (new_broker account_id override denied fail_connect [] fill_market))
      ≡ pos 0
        +ℤ net_fills c
            (perform_all sim os (new_broker account_id override denied fail_connect [] fill_market))
unfolding Keyed.set_all
held-unseeded c sim os account_id override denied fail_connect fill_market h =
    perform_all-IsAccounted c (pos 0) sim os _ h (omega int_laws)
