-- ===== src/Reconciliation/Agreement.antt =====
-- app/portfolio/reconciliation.py: when a reconciliation succeeds.
use pgjp_trading.Prelude.{
  Bool, true, false, ◌||◌, Option, none, some, List, [], map, ◌≡◌, ◌↔◌, refl, sym, ◌∙◌, arith,
  is_empty, is_some, Bool-cases, inl, inr,
}
use pgjp_trading.Prelude.Int.{ℤ, pos}
use pgjp_trading.Broker.{BrokerPosition, BrokerOrderSnapshot, BrokerFill}
use pgjp_trading.Keyed.{get, values, get-set_all-values, or_get}
use pgjp_trading.Positions.{
  Position, PositionBook, from_broker, quantity, quantity_or_zero, is_held,
}
use pgjp_trading.Positions.Fills.{IsValid}
use pgjp_trading.Repository.{OpenOrder}
use pgjp_trading.Reconciliation.Sorted.{has_key}
use pgjp_trading.Reconciliation.{
  reconcile, succeeded, by_id, sort_keys, compare_keys, compare_positions, compare_orders,
  compare_snapshots, compare_locals, broker_ids, local_ids,
}
use pgjp_trading.Reconciliation.Matching.{
  broker_quantity, OrdersAgree, by_id-quantity, has_key-sort_keys, compare_keys-empty,
  empty-compare_keys, compare_snapshots-empty, empty-compare_snapshots, compare_locals-empty,
  empty-compare_locals, is_empty-append, both_true,
}

compare_orders-empty :
    (snapshots : List BrokerOrderSnapshot) (locals : List OpenOrder)
    → (is_empty (compare_orders snapshots locals) ≡ true) ↔ OrdersAgree snapshots locals
unfolding compare_orders
compare_orders-empty snapshots locals = (there, back)
  where
    there : is_empty (compare_orders snapshots locals) ≡ true → OrdersAgree snapshots locals
    there h =
        let both =
          sym (
            is_empty-append (compare_snapshots (local_ids locals) snapshots)
              (compare_locals (broker_ids snapshots) locals))
          ∙ h in
        let (sub, identified) =
          compare_locals-empty (broker_ids snapshots) locals (ground (arith, both)) in
        (
          λ id.
              both_true _ _
                (compare_snapshots-empty (local_ids locals) snapshots (ground (arith, both)) id)
                (sub id),
          identified,
        )

    back : OrdersAgree snapshots locals → is_empty (compare_orders snapshots locals) ≡ true
    back (same, identified) =
        is_empty-append (compare_snapshots (local_ids locals) snapshots)
          (compare_locals (broker_ids snapshots) locals)
        ∙ rw
            (
              empty-compare_snapshots (local_ids locals) snapshots (λ id h. sym (same id) ∙ h),
              empty-compare_locals (broker_ids snapshots) locals (λ id h. same id ∙ h) identified,
            )
            refl

-- The two dicts that `_compare_positions` builds, by contract.
module _ (now : ℤ) (book : PositionBook) (reported : List BrokerPosition) (v : IsValid book) where
  broker_side :
      (c : ℤ)
      → quantity_or_zero (get c (by_id (map (from_broker now) reported)))
        ≡ broker_quantity c reported (pos 0)
  unfolding by_id
  broker_side c = by_id-quantity c now reported []

  local_side : (c : ℤ) → quantity_or_zero (get c (by_id (values book))) ≡ quantity c book
  unfolding by_id quantity
  local_side c =
      rw (get-set_all-values (λ (p : Position). p.con_id) is_held c book [] v) (other (get c book))
    where
      other :
          (found : Option Position) → quantity_or_zero (or_get found none) ≡ quantity_or_zero found
      other none = refl
      other (some p) = refl

  -- A contract that is in neither dict has no quantity in either.
  absent :
      (a b : Option Position)
      → (is_some a || (is_some b || false)) ≡ false
      → quantity_or_zero a ≡ quantity_or_zero b
  absent none none h = refl
  absent none (some b) h = cc
  absent (some a) b h = cc

  compared :
      (c : ℤ) (broker local : PositionBook)
      → is_empty (compare_keys broker local (sort_keys broker (sort_keys local []))) ≡ true
      → quantity_or_zero (get c broker) ≡ quantity_or_zero (get c local)
  compared c broker local h =
      elim (Bool-cases (has_key c (sort_keys broker (sort_keys local [])))) [
        | inl e ↦ compare_keys-empty broker local _ h c e
        | inr e ↦ absent _ _ (
            rw (has_key-sort_keys c broker (sort_keys local []), has_key-sort_keys c local []) at e)
      ]

  compare_positions-empty :
      (is_empty (compare_positions book (map (from_broker now) reported)) ≡ true)
      ↔ ((c : ℤ) → broker_quantity c reported (pos 0) ≡ quantity c book)
  unfolding compare_positions
  compare_positions-empty = (there, back)
    where
      broker : PositionBook
      broker = by_id (map (from_broker now) reported)

      local : PositionBook
      local = by_id (values book)

      there :
          is_empty (compare_keys broker local (sort_keys broker (sort_keys local []))) ≡ true
          → (c : ℤ) → broker_quantity c reported (pos 0) ≡ quantity c book
      there h c =
          sym (broker_side c)
          ∙ compared c (by_id (map (from_broker now) reported)) (by_id (values book)) h
          ∙ local_side c

      back :
          ((c : ℤ) → broker_quantity c reported (pos 0) ≡ quantity c book)
          → is_empty (compare_keys broker local (sort_keys broker (sort_keys local []))) ≡ true
      back agree =
          empty-compare_keys broker local _ (λ c. broker_side c ∙ agree c ∙ sym (local_side c))

-- A reconciliation succeeds exactly when, for every contract, the broker's quantity is the quantity
-- of the local book, the broker's open orders and the local open orders have the same broker order
-- ids, every local one has such an id, and the account could be read. The book is well formed.
pub reconcile-succeeded_iff :
    (now : ℤ) (book : PositionBook) (reported : List BrokerPosition)
    → (snapshots : List BrokerOrderSnapshot) (locals : List OpenOrder) (fills : List BrokerFill)
    → (account_available : Bool) → IsValid book
    → (succeeded (reconcile now book reported snapshots locals fills account_available) ≡ true) ↔ (
        ((c : ℤ) → broker_quantity c reported (pos 0) ≡ quantity c book)
        × OrdersAgree snapshots locals
        × (account_available ≡ true))
unfolding reconcile
reconcile-succeeded_iff now book reported snapshots locals fills account_available v =
    let positions = compare_positions-empty now book reported v in
    let orders = compare_orders-empty snapshots locals in
    (
      λ h. (positions.0 (ground (arith, h)), orders.0 (ground (arith, h)), ground (arith, h)),
      λ (p, o, a). rw (positions.1 p, orders.1 o, a) refl,
    )
