-- ===== src/Reconciliation.antt =====
-- app/portfolio/reconciliation.py: the comparison of the broker's state with the local state. `now` is
-- the reading of the clock. The detail texts, the descriptions and the log lines are left out.
pub mod Sorted
pub mod Agreement
pub mod Matching
pub mod Deltas
use pgjp_trading.Prelude.{
  ℕ, String, Bool, true, false, not, ◌&&◌, Option, none, some, List, [], ◌∷◌, ◌++◌, map,
  if◌then◌else◌, str_eq, length, is_empty, any,
}
use pgjp_trading.Prelude.Int.{ℤ, pos, ◌+ℤ◌, ◌*ℤ◌, ◌-ℤ◌, eqb_ℤ}
use pgjp_trading.Decimal.{Decimal, zero_decimal, add_decimal, is_zero_decimal}
use pgjp_trading.Enums.{sign}
use pgjp_trading.Broker.{BrokerPosition, BrokerOrderSnapshot, BrokerFill}
use pgjp_trading.Positions.{Position, PositionBook, from_broker, quantity_or_zero}
use pgjp_trading.Keyed.{get, set, values, set_all}
use pgjp_trading.Repository.{OpenOrder}
use pgjp_trading.Reconciliation.Sorted.{insert_key}

pub record PositionDiscrepancy : Type 0 where
  pub con_id : ℤ
  pub symbol : String
  pub local_quantity : ℤ
  pub broker_quantity : ℤ

-- `PositionDiscrepancy.delta`
abbrev pub delta : PositionDiscrepancy → ℤ
delta d = d.broker_quantity -ℤ d.local_quantity

pub data DiscrepancyKind : Type 0 where
  unknown_at_broker unknown_locally : DiscrepancyKind

pub record OrderDiscrepancy : Type 0 where
  pub broker_order_id : String
  pub symbol : String
  pub kind : DiscrepancyKind

pub record ReconciliationResult : Type 0 where
  pub positions_reconciled : Bool
  pub orders_reconciled : Bool
  pub account_available : Bool
  pub position_discrepancies : List PositionDiscrepancy
  pub order_discrepancies : List OrderDiscrepancy
  pub fills_seen : ℕ
  pub errors : List String
  pub broker_positions : List Position

-- `ReconciliationResult.succeeded`
abbrev pub succeeded : ReconciliationResult → Bool
succeeded r =
    r.positions_reconciled && r.orders_reconciled && r.account_available && is_empty r.errors

-- `{p.con_id: p for p in positions}`
unfoldable pub by_id : List Position → PositionBook
by_id positions = set_all (λ p. p.con_id) positions []

abbrev keys : List (ℤ × Position) → List ℤ
keys [] = []
keys ((k, p) ∷ rest) = k ∷ keys rest

-- `sorted(set(broker_by_id) | set(local_by_id))`
unfoldable pub sort_keys : List (ℤ × Position) → List ℤ → List ℤ
sort_keys [] sorted = sorted
sort_keys ((k, p) ∷ rest) sorted = sort_keys rest (insert_key k sorted)

abbrev pub symbol_of : Option Position → Option Position → String
symbol_of (some p) local = p.symbol
symbol_of none (some p) = p.symbol
symbol_of none none = "?"

-- The loop of `_compare_positions`.
unfoldable pub compare_keys : PositionBook → PositionBook → List ℤ → List PositionDiscrepancy
compare_keys broker_by_id local_by_id [] = []
compare_keys broker_by_id local_by_id (con_id ∷ rest) =
    let later = compare_keys broker_by_id local_by_id rest in
    let broker_position = get con_id broker_by_id in
    let local_position = get con_id local_by_id in
    if not (eqb_ℤ (quantity_or_zero broker_position) (quantity_or_zero local_position))
    then record {
      con_id = con_id;
      symbol = symbol_of broker_position local_position;
      local_quantity = quantity_or_zero local_position;
      broker_quantity = quantity_or_zero broker_position;
    }
      ∷ later
    else later

-- `Reconciler._compare_positions`
unfoldable pub compare_positions : PositionBook → List Position → List PositionDiscrepancy
compare_positions book broker_positions =
    let broker_by_id = by_id broker_positions in
    let local_by_id = by_id (values book) in
    compare_keys broker_by_id local_by_id (sort_keys broker_by_id (sort_keys local_by_id []))

-- Whether an id is in a set of ids.
abbrev pub has_id : String → List String → Bool
has_id id ids = any (λ i. str_eq i id) ids

abbrev pub broker_ids : List BrokerOrderSnapshot → List String
broker_ids snapshots = map (λ (o : BrokerOrderSnapshot). o.broker_order_id) snapshots

abbrev pub local_ids : List OpenOrder → List String
local_ids [] = []
local_ids ((internal, none, symbol) ∷ rest) = local_ids rest
local_ids ((internal, some id, symbol) ∷ rest) = id ∷ local_ids rest

-- The first loop of `_compare_orders`.
unfoldable pub compare_snapshots : List String → List BrokerOrderSnapshot → List OrderDiscrepancy
compare_snapshots known [] = []
compare_snapshots known (o ∷ rest) =
    let later = compare_snapshots known rest in
    if not (has_id o.broker_order_id known)
    then record {
      broker_order_id = o.broker_order_id;
      symbol = o.symbol;
      kind = DiscrepancyKind.unknown_locally;
    }
      ∷ later
    else later

-- The second loop.
unfoldable pub compare_locals : List String → List OpenOrder → List OrderDiscrepancy
compare_locals known [] = []
compare_locals known ((internal, none, symbol) ∷ rest) =
    record { broker_order_id = internal; symbol = symbol; kind = DiscrepancyKind.unknown_at_broker }
    ∷ compare_locals known rest
compare_locals known ((internal, some id, symbol) ∷ rest) =
    let later = compare_locals known rest in
    if not (has_id id known)
    then record { broker_order_id = id; symbol = symbol; kind = DiscrepancyKind.unknown_at_broker }
      ∷ later
    else later

-- `Reconciler._compare_orders`
unfoldable pub compare_orders : List BrokerOrderSnapshot → List OpenOrder → List OrderDiscrepancy
compare_orders snapshots locals =
    compare_snapshots (local_ids locals) snapshots ++ compare_locals (broker_ids snapshots) locals

-- `Reconciler.reconcile`
unfoldable pub reconcile :
    ℤ
    → PositionBook
    → List BrokerPosition
    → List BrokerOrderSnapshot
    → List OpenOrder
    → List BrokerFill
    → Bool
    → ReconciliationResult
reconcile now book broker_positions broker_open_orders local_open_orders broker_fills
      account_available =
    let broker_book = map (from_broker now) broker_positions in
    let position_discrepancies = compare_positions book broker_book in
    let order_discrepancies = compare_orders broker_open_orders local_open_orders in
    record {
      positions_reconciled = is_empty position_discrepancies;
      orders_reconciled = is_empty order_discrepancies;
      account_available = account_available;
      position_discrepancies = position_discrepancies;
      order_discrepancies = order_discrepancies;
      fills_seen = length broker_fills;
      errors = [];
      broker_positions = broker_book;
    }

abbrev pub or_zero : Option ℤ → ℤ
or_zero none = pos 0
or_zero (some d) = d

-- The loop of `fills_to_position_deltas`.
unfoldable pub add_fills : List BrokerFill → List (ℤ × ℤ) → List (ℤ × ℤ)
add_fills [] deltas = deltas
add_fills (f ∷ fills) deltas =
    add_fills fills
      (set f.con_id (or_zero (get f.con_id deltas) +ℤ f.quantity *ℤ sign f.side) deltas)

-- `fills_to_position_deltas`
unfoldable pub fills_to_position_deltas : List BrokerFill → List (ℤ × ℤ)
fills_to_position_deltas fills = add_fills fills []

-- `f.commission or Decimal("0")`
abbrev commission_of : Option Decimal → Decimal
commission_of none = zero_decimal
commission_of (some c) = if is_zero_decimal c then zero_decimal else c

sum_commissions : List BrokerFill → Decimal → Decimal
sum_commissions [] sum = sum
sum_commissions (f ∷ fills) sum =
    sum_commissions fills (add_decimal sum (commission_of f.commission))

-- `realized_commission`
unfoldable pub realized_commission : List BrokerFill → Decimal
unfolding sum_commissions
realized_commission fills = sum_commissions fills zero_decimal
