-- ===== src/MockBroker/Accounts.antt =====
-- app/broker/mock_broker.py: each call moves the position by the fill that it records.
use pgjp_trading.Prelude.{
  ◌is◌, ◌&&◌, true, Option, none, some, List, [], ◌∷◌, ◌++◌, map, ◌≡◌, refl, sym, Bool-cases, inl,
  inr, is_some, if◌then◌else◌, Option-cases, if_after,
}
use pgjp_trading.Prelude.Int.{ℤ, pos, ◌+ℤ◌, ◌*ℤ◌, eqb_ℤ, eqb_ℤ_iff, +ℤ_assoc, int_laws}
use pgjp_trading.Enums.{sign, OrderType, order_type_enumeration}
use pgjp_trading.Contract.{QualifiedContract}
use pgjp_trading.Broker.{BrokerFill, BrokerOrderSnapshot, OrderRequest, MarketDataTick, BrokerError}
use pgjp_trading.Positions.Fills.{net}
use pgjp_trading.Reconciliation.Deltas.{execution_of}
use pgjp_trading.Keyed.{get, get-set, get-pop}
use pgjp_trading.Named
use pgjp_trading.MockBroker.{
  Simulation, MockBroker, request_market_data, next_tick, is_connected, String, not,
}
use pgjp_trading.MockBroker.Orders.{
  held_quantity, apply_fill_to_positions, fill_at, simulate_fill, refusal, accept, place_order,
  modify_order, after_tick, unless_refused, modify_working,
}

-- The quantity of a contract in the simulated positions.
abbrev pub held : ℤ → MockBroker → ℤ
held c b = held_quantity (get c b.positions)

-- The signed sum of a contract's fills.
abbrev pub net_fills : ℤ → MockBroker → ℤ
net_fills c b = net c (map execution_of b.fills)

net-append :
    (c : ℤ) (fills : List BrokerFill) (f : BrokerFill)
    → net c (map execution_of (fills ++ f ∷ [])) ≡ (
        if eqb_ℤ f.con_id c
        then net c (map execution_of fills) +ℤ f.quantity *ℤ sign f.side
        else net c (map execution_of fills))
net-append c [] f = elim (Bool-cases (eqb_ℤ f.con_id c)) [
  | inl e ↦ rw e (omega int_laws)
  | inr e ↦ rw e refl
]
net-append c (g ∷ fills) f = rw (net-append c fills f) (elim (Bool-cases (eqb_ℤ f.con_id c)) [
  | inl e ↦ rw e (elim (Bool-cases (eqb_ℤ g.con_id c)) [
    | inl h ↦ rw h (sym (+ℤ_assoc _ _ _))
    | inr h ↦ rw h refl
  ])
  | inr e ↦ rw e refl
])

-- A fill of a contract with a multiplier moves the quantity of its own contract.
held-apply_fill_to_positions :
    (c : ℤ) (f : BrokerFill) (contract : QualifiedContract) (b : MockBroker)
    → is_some contract.multiplier ≡ true
    → held c (apply_fill_to_positions f contract b).1
      ≡ (if eqb_ℤ f.con_id c then held c b +ℤ f.quantity *ℤ sign f.side else held c b)
unfolding apply_fill_to_positions
held-apply_fill_to_positions c f contract b h =
    elim (Bool-cases
      (eqb_ℤ (held_quantity (get f.con_id b.positions) +ℤ f.quantity *ℤ sign f.side) (pos 0))) [
        | inl e ↦
            rw (e, get-pop c f.con_id b.positions)
              (elim (Bool-cases (eqb_ℤ f.con_id c)) [
                | inl g ↦ rw (g, ← (eqb_ℤ_iff f.con_id c).0 g) (sym ((eqb_ℤ_iff _ _).0 e))
                | inr g ↦ rw g refl
              ])
        | inr e ↦ elim (Option-cases contract.multiplier) [
          | inl none_is ↦ cc
          | inr (m, some_is) ↦
              rw (e, some_is, get-set c f.con_id _ b.positions)
                (elim (Bool-cases (eqb_ℤ f.con_id c)) [
                  | inl g ↦ rw (g, ← (eqb_ℤ_iff f.con_id c).0 g) refl
                  | inr g ↦ rw g refl
                ])
        ]
      ]

-- The position of a contract is a base, moved by the contract's fills.
abbrev pub IsAccounted : ℤ → ℤ → MockBroker → Type 0
IsAccounted c base b = held c b ≡ base +ℤ net_fills c b

fills-apply_fill_to_positions :
    (f : BrokerFill) (contract : QualifiedContract) (b : MockBroker)
    → (apply_fill_to_positions f contract b).1.fills ≡ b.fills
unfolding apply_fill_to_positions
fills-apply_fill_to_positions f contract b =
    elim (Bool-cases
      (eqb_ℤ (held_quantity (get f.con_id b.positions) +ℤ f.quantity *ℤ sign f.side) (pos 0))) [
        | inl e ↦ rw e refl
        | inr e ↦ elim (Option-cases contract.multiplier) [
          | inl m ↦ rw (e, m) refl
          | inr (m, g) ↦ rw (e, g) refl
        ]
      ]

fill_at-IsAccounted :
    (c base : ℤ) (sim : Simulation) (at : ℤ) (tick : MarketDataTick) (s : BrokerOrderSnapshot)
    (contract : QualifiedContract) (b : MockBroker)
    → is_some contract.multiplier ≡ true
    → IsAccounted c base b
    → IsAccounted c base (fill_at sim at tick s contract b).1
unfolding fill_at
fill_at-IsAccounted c base sim at tick s contract b m v =
    rw
      (
        held-apply_fill_to_positions c _ contract _ m,
        fills-apply_fill_to_positions _ contract _,
        net-append c b.fills _,
        v,
      )
      (elim (Bool-cases (eqb_ℤ s.con_id c)) [ inl e ↦ rw e (+ℤ_assoc _ _ _) | inr e ↦ rw e refl ])

-- The same positions and fills.
abbrev pub SameLedger : MockBroker → MockBroker → Type 0
SameLedger b after = (after.positions ≡ b.positions) × (after.fills ≡ b.fills)

pub same-IsAccounted :
    (c base : ℤ) (b after : MockBroker)
    → SameLedger b after
    → IsAccounted c base b
    → IsAccounted c base after
same-IsAccounted c base b after (ps, fs) v = rw (ps, fs) v

after_tick-IsAccounted :
    (c base : ℤ) (sim : Simulation) (at : ℤ) (tick : Option MarketDataTick)
    (s : BrokerOrderSnapshot) (contract : QualifiedContract) (b : MockBroker)
    → is_some contract.multiplier ≡ true
    → IsAccounted c base b
    → IsAccounted c base (after_tick sim at tick s contract b).1
after_tick-IsAccounted c base sim at none s contract b m v = v
after_tick-IsAccounted c base sim at (some tick) s contract b m v =
    fill_at-IsAccounted c base sim at tick s contract b m v

accept-IsAccounted :
    (c base : ℤ) (sim : Simulation) (at : ℤ) (r : OrderRequest) (b : MockBroker)
    → is_some r.contract.multiplier ≡ true
    → IsAccounted c base b
    → IsAccounted c base (accept sim at r b).1
unfolding accept simulate_fill next_tick
accept-IsAccounted c base sim at r b m v =
    elim (Bool-cases (r.order_type is OrderType.market && b.fill_market_orders)) [
      | inl e ↦ rw e (after_tick-IsAccounted c base sim at _ _ r.contract _ m v)
      | inr e ↦ rw e v
    ]

pub place_order-IsAccounted :
    (c base : ℤ) (sim : Simulation) (at : ℤ) (r : OrderRequest) (b : MockBroker)
    → is_some r.contract.multiplier ≡ true
    → IsAccounted c base b
    → IsAccounted c base (place_order sim at r b).1
unfolding place_order
place_order-IsAccounted c base sim at r b m v = go (refusal r b)
  where
    go :
        (o : Option (BrokerError × String))
        → IsAccounted c base (unless_refused o b (accept sim at r b)).1
    go none = accept-IsAccounted c base sim at r b m v
    go (some (e, message)) = v

-- Reads and controls leave the positions and the fills alone.
pub request_market_data-same :
    (sim : Simulation) (at : ℤ) (c : QualifiedContract) (b : MockBroker)
    → SameLedger b (request_market_data sim at c b).1
unfolding request_market_data next_tick
request_market_data-same sim at c b =
    if_after (SameLedger b) (not (is_connected b)) _ _ (refl, refl)
      (if_after (SameLedger b) b.permission_denied _ _ (refl, refl) (refl, refl))

modify_working-same :
    (r : OrderRequest) (id : String) (o : Option BrokerOrderSnapshot) (b : MockBroker)
    → SameLedger b (modify_working r id o b).1
modify_working-same r id none b = (refl, refl)
modify_working-same r id (some existing) b = (refl, refl)

pub modify_order-same :
    (r : OrderRequest) (id : String) (b : MockBroker) → SameLedger b (modify_order r id b).1
unfolding modify_order
modify_order-same r id b =
    if_after (SameLedger b) (not r.transmit) _ _ (refl, refl)
      (if_after (SameLedger b) (not (is_connected b)) _ _ (refl, refl)
        (modify_working-same r id (Named.get id b.open_orders) b))
