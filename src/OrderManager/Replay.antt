-- ===== src/OrderManager/Replay.antt =====
-- app/execution/order_manager.py: an intent that is submitted again.
use pgjp_trading.Prelude.{
  inl, inr, Bool-cases, ◌≡◌, refl, ◌∙◌, true, false, Option, none, some, List, [], ◌∷◌, arith,
  String, Bool-cases,
}
use pgjp_trading.Prelude.Int.{ℤ, pos, ◌<ℤ◌, leb_ℤ}
use pgjp_trading.Order.{
  Order, was_transmitted, mark_pending_submit, require_transmittable_type, build_order, fresh_order,
  validate,
}
use pgjp_trading.Risk
use pgjp_trading.Risk.{RiskDecision}
use pgjp_trading.Gate
use pgjp_trading.Gate.{GateDecision}
use pgjp_trading.Repository.{Insertion, get_by_idempotency_key, insert_if_absent, insert_new}
use pgjp_trading.Broker.{OrderRequest, PlaceReply}
use pgjp_trading.OrderManager.Pipeline.{
  Manager, Submission, Event, Store, OutcomeKind, save, settle, settle_result, transmit, pass_type,
  pass_gate, pass_risk, pass_insertion, pass_build, submit_intent, end_call, request_for, terms,
  idempotency_key,
}

-- The request that was sent last.
abbrev pub last_request : List Event → Option OrderRequest
last_request [] = none
last_request (Event.written o ∷ trace) = last_request trace
last_request (Event.sent o request ∷ trace) = some request

-- The order of the submission is well formed.
abbrev pub IsWellFormed : Manager → Submission → Type 0
IsWellFormed m sub =
    (pos 0 <ℤ sub.risk_context.order_quantity)
    × (validate (fresh_order sub.contract (terms m sub) sub.internal_order_id sub.now) ≡ none)

pub leb_ℤ_of_lt : (q : ℤ) → pos 0 <ℤ q → leb_ℤ q (pos 0) ≡ false
leb_ℤ_of_lt q h = ground arith

-- A well-formed order whose key has a row goes on with that row.
replayed :
    (m : Manager) (sub : Submission) (s : Store) (row : Order)
    → IsWellFormed m sub
    → get_by_idempotency_key (idempotency_key m sub) s.orders ≡ some row
    → submit_intent m sub s ≡ pass_insertion m sub (Insertion.inserted row false s.orders) s
unfolding submit_intent pass_build build_order insert_if_absent insert_new
replayed m sub s row (positive, valid) found =
    rw (leb_ℤ_of_lt sub.risk_context.order_quantity positive, valid, found) refl

-- An intent whose order may have reached the broker is a duplicate: nothing is written or sent.
pub submit_intent-duplicate :
    (m : Manager) (sub : Submission) (s : Store) (row : Order)
    → IsWellFormed m sub
    → get_by_idempotency_key (idempotency_key m sub) s.orders ≡ some row
    → was_transmitted row ≡ true
    → submit_intent m sub s ≡ end_call m sub OutcomeKind.duplicate (some row) s
submit_intent-duplicate m sub s row formed found out =
    replayed m sub s row formed found ∙ unfold pass_insertion in rw out refl

-- What the broker's answer leads to writes rows at most: it keeps whatever a write keeps of a trace.
pub settle-kept :
    {A : Type 0}
    → (g : List Event → A)
      (kept : (o : Order) (trace : List Event) → g (Event.written o ∷ trace) ≡ g trace)
      (m : Manager) (sub : Submission) (risk : RiskDecision) (gate : GateDecision) (o : Order)
      (reply : PlaceReply) (s : Store)
    → g (settle m sub risk gate o reply s).1.trace ≡ g s.trace
unfolding settle save
settle-kept g kept m sub risk gate o (PlaceReply.placed result) s = placed result.broker_order_id
  where
    placed :
        (id : Option String) → g (settle_result m sub risk gate result id o s).1.trace ≡ g s.trace
    placed none = unfold settle_result in kept _ s.trace
    placed (some id) = elim (Bool-cases result.accepted) [
      | inl e ↦ unfold settle_result in rw e (kept _ s.trace)
      | inr e ↦ unfold settle_result in rw e (kept _ s.trace)
    ]
settle-kept g kept m sub risk gate o (PlaceReply.raised error text) s = kept _ s.trace
settle-kept g kept m sub risk gate o PlaceReply.crashed s = refl

-- The request of `transmit` is for the order it is given.
pub transmit-last :
    (m : Manager) (sub : Submission) (risk : RiskDecision) (gate : GateDecision) (row : Order)
    → (s : Store) → pos 0 <ℤ row.quantity
    → last_request (transmit m sub risk gate row s).1.trace
      ≡ some (request_for m sub (mark_pending_submit sub.now row))
unfolding transmit mark_pending_submit save
transmit-last m sub risk gate row s h =
    rw (leb_ℤ_of_lt row.quantity h)
      (settle-kept last_request (λ o t. refl) m sub risk gate (mark_pending_submit sub.now row) _ _)

pub submit_intent-replay :
    (m : Manager) (sub : Submission) (s : Store) (row : Order) (risk : RiskDecision)
    → IsWellFormed m sub
    → get_by_idempotency_key (idempotency_key m sub) s.orders ≡ some row
    → was_transmitted row ≡ false
    → pos 0 <ℤ row.quantity
    → require_transmittable_type row ≡ none
    → Risk.evaluate m.config sub.risk_context ≡ some risk
    → risk.approved ≡ true
    → (Gate.evaluate m.config sub.gate_context).allowed ≡ true
    → last_request (submit_intent m sub s).1.trace
      ≡ some (request_for m sub (mark_pending_submit sub.now row))
submit_intent-replay m sub s row risk formed found kept positive sendable evaluated approved
      allowed =
    rw (replayed m sub s row formed found) (
      unfold pass_insertion in
      rw (kept, evaluated)
        (unfold pass_risk in
          simp approved (
            unfold pass_gate in
            rw (allowed, sendable)
              (unfold pass_type in transmit-last m sub risk _ row _ positive))))
