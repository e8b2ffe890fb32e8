-- ===== src/OrderManager/Durable.antt =====
-- app/execution/order_manager.py: an order is in its table, marked PENDING_SUBMIT, before it is sent.
use pgjp_trading.Prelude.{
  ◌<◌, ◌≡◌, refl, sym, ap, ◌∙◌, inl, inr, String, true, Option, none, some, List, ◌∷◌, arith,
  eq_iff, Bool-cases, Option-cases, Result, ok, err,
}
use pgjp_trading.Prelude.Int.{ℤ, pos, leb_ℤ}
use pgjp_trading.Enums.{OrderStatus}
use pgjp_trading.Contract.{QualifiedContract}
use pgjp_trading.Order.{
  Order, OrderError, OrderTerms, validate, fresh_order, build_order, was_transmitted,
  mark_pending_submit, require_transmittable_type,
}
use pgjp_trading.Risk.{RiskDecision}
use pgjp_trading.Gate.{GateDecision}
use pgjp_trading.Repository.{
  get_by_idempotency_key, get_by_idempotency_key-update, get_by_idempotency_key-append, has_id,
  write_columns, insert_new, insert_if_absent,
}
use pgjp_trading.Broker.{OrderRequest, PlaceReply}
use pgjp_trading.OrderManager.Pipeline.{
  Manager, Submission, Event, Store, save, settle, transmit, pass_type, pass_gate, pass_risk,
  pass_insertion, pass_build, submit_intent, idempotency_key,
}
use pgjp_trading.OrderManager.Approvals.{requests}

-- The call of the broker does not return.
abbrev pub crashing : Submission → Submission
crashing sub = record sub { place_order = λ request. PlaceReply.crashed }

-- The table has the order's row: under a key, with its id, side and quantity.
abbrev Stored : String → Order → Store → Type 0
Stored key o s =
    (row : Order) × (get_by_idempotency_key key s.orders ≡ some row)
    × (row.internal_order_id ≡ o.internal_order_id)
    × (row.side ≡ o.side)
    × (row.quantity ≡ o.quantity)

-- The table of orders has a row under the key that is PENDING_SUBMIT, and the last event is a request
-- for the id, side and quantity of that row, which asks to transmit.
pub record IsRecorded (key : String) (s : Store) : Type 0 where
  pub row : Order
  pub found : get_by_idempotency_key key s.orders ≡ some row
  pub pending : row.status ≡ OrderStatus.pending_submit
  pub order : Order
  pub request : OrderRequest
  pub earlier : List Event
  pub last : s.trace ≡ Event.sent order request ∷ earlier
  pub own : request.internal_order_id ≡ row.internal_order_id
  pub side : request.side ≡ row.side
  pub quantity : request.quantity ≡ row.quantity
  pub transmits : request.transmit ≡ true

module _ (m : Manager) (sub : Submission) (key : String) where
  -- If a step sends a request, the row is there.
  abbrev Recorded : Store → Store → Type 0
  Recorded s after = requests s.trace < requests after.trace → IsRecorded key after

  unsent : (s after : Store) → requests after.trace ≡ requests s.trace → Recorded s after
  unsent s after e h = absurd (omega (arith, e, h))

  transmit-IsRecorded :
      (risk : RiskDecision) (gate : GateDecision) (o : Order) (s : Store)
      → Stored key o s
      → Recorded s (transmit m (crashing sub) risk gate o s).1
  unfolding transmit save settle mark_pending_submit write_columns
  transmit-IsRecorded risk gate o s (row, found, id, side, quantity) h =
      elim (Bool-cases (leb_ℤ o.quantity (pos 0))) [
        | inl e ↦ absurd (omega (arith, rw e at h))
        | inr e ↦ rw e (record {
          row = write_columns (mark_pending_submit sub.now o) row;
          found =
              get_by_idempotency_key-update key (mark_pending_submit sub.now o) s.orders
              ∙ rw (found, (eq_iff row.internal_order_id o.internal_order_id).1 id) refl;
          pending = refl;
          order = _;
          request = _;
          earlier = _;
          last = refl;
          own = sym id;
          side = sym side;
          quantity = sym quantity;
          transmits = refl;
        })
      ]

  pass_gate-IsRecorded :
      (risk : RiskDecision) (gate : GateDecision) (o : Order) (s : Store)
      → Stored key o s
      → Recorded s (pass_gate m (crashing sub) risk gate o s).1
  unfolding pass_gate pass_type save
  pass_gate-IsRecorded risk gate o s stored = elim (Bool-cases gate.allowed) [
    | inr e ↦ rw e (unsent s _ refl)
    | inl e ↦ elim (Option-cases (require_transmittable_type o)) [
      | inl f ↦ rw (e, f, pass_type) (transmit-IsRecorded risk gate o s stored)
      | inr (error, f) ↦ rw (e, f, pass_type) (unsent s _ refl)
    ]
  ]

  pass_risk-IsRecorded :
      (decision : Option RiskDecision) (o : Order) (s : Store)
      → Stored key o s
      → Recorded s (pass_risk m (crashing sub) decision o s).1
  unfolding pass_risk save
  pass_risk-IsRecorded none o s stored = unsent s s refl
  pass_risk-IsRecorded (some risk) o s stored = elim (Bool-cases risk.approved) [
    | inr e ↦ simp e (unsent s _ refl)
    | inl e ↦ simp e (pass_gate-IsRecorded risk _ o _ stored)
  ]

  pass_insertion-IsRecorded :
      (o : Order) (s : Store) (found : Option Order)
      → o.idempotency_key ≡ key
      → get_by_idempotency_key key s.orders ≡ found
      → Recorded s (pass_insertion m (crashing sub) (insert_new found o s.orders) s).1
  unfolding insert_new pass_insertion
  pass_insertion-IsRecorded o s (some row) own e = elim (Bool-cases (was_transmitted row)) [
    | inl t ↦ rw t (unsent s s refl)
    | inr t ↦ simp t (pass_risk-IsRecorded _ row _ (row, e, refl, refl, refl))
  ]
  pass_insertion-IsRecorded o s none own e =
      elim (Bool-cases (has_id o.internal_order_id s.orders)) [
        | inl t ↦ rw t (unsent s s refl)
        | inr t ↦ rw t (
            pass_risk-IsRecorded _ o _ (
              o,
              get_by_idempotency_key-append key o s.orders
                  ∙ rw (e, (eq_iff o.idempotency_key key).1 own) refl,
              refl,
              refl,
              refl,
            ))
      ]

  pass_build-IsRecorded :
      (r : Result OrderError Order) (s : Store)
      → ((o : Order) → r ≡ ok o → o.idempotency_key ≡ key)
      → Recorded s (pass_build m (crashing sub) r s).1
  unfolding pass_build insert_if_absent
  pass_build-IsRecorded (err e) s own = unsent s s refl
  pass_build-IsRecorded (ok o) s own =
      pass_insertion-IsRecorded o s _ (own o refl)
        (ap (λ k. get_by_idempotency_key k s.orders) (sym (own o refl)))

built_key :
    (contract : QualifiedContract) (terms : OrderTerms) (id : String) (at : ℤ) (o : Order)
    → build_order contract terms id at ≡ ok o
    → o.idempotency_key ≡ terms.idempotency_key
unfolding build_order
built_key contract terms id at o h =
    elim (Option-cases (validate (fresh_order contract terms id at))) [
      | inl e ↦ cc (rw e at h)
      | inr (error, e) ↦ cc (rw e at h)
    ]

-- Whatever the store holds, if a submission sends a request and the call of the broker never returns,
-- so that nothing is written after it: the table of orders has a row under the submission's
-- idempotency key that is PENDING_SUBMIT, and the request is for that row's id, side and quantity.
pub submit_intent-IsRecorded :
    (m : Manager) (sub : Submission) (s : Store)
    → requests s.trace < requests (submit_intent m (crashing sub) s).1.trace
    → IsRecorded (idempotency_key m sub) (submit_intent m (crashing sub) s).1
unfolding submit_intent
submit_intent-IsRecorded m sub s =
    elim (Bool-cases (leb_ℤ sub.risk_context.order_quantity (pos 0))) [
      | inl e ↦ rw e (unsent m sub (idempotency_key m sub) s s refl)
      | inr e ↦ rw e (
          pass_build-IsRecorded m sub (idempotency_key m sub) _ s
            (λ o f. built_key sub.contract _ sub.internal_order_id sub.now o f))
    ]
