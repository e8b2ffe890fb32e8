-- ===== src/OrderManager/Approvals.antt =====
-- app/execution/order_manager.py: what must hold before a request is sent, and what is sent.
use pgjp_trading.Prelude.{
  ℕ, suc, ◌<◌, ◌≡◌, refl, inl, inr, true, false, Option, none, some, List, [], ◌∷◌, arith,
  Bool-cases, Result, ok, err,
}
use pgjp_trading.Prelude.Int.{pos, leb_ℤ}
use pgjp_trading.Order.{Order, OrderError, was_transmitted}
use pgjp_trading.Risk
use pgjp_trading.Risk.{RiskDecision}
use pgjp_trading.Risk.Approval.{evaluate-approved_iff}
use pgjp_trading.Risk.Conditions.{WithinControls, WithinLimits}
use pgjp_trading.Gate
use pgjp_trading.Gate.{GateDecision}
use pgjp_trading.Gate.Clearance.{Clearance, evaluate-allowed_iff}
use pgjp_trading.Repository.{Insertion}
use pgjp_trading.OrderManager.Pipeline.{
  Manager, Submission, Event, Store, save, pass_gate, pass_risk, pass_insertion, pass_build,
  submit_intent,
}

-- The number of requests in a trace.
abbrev pub requests : List Event → ℕ
requests [] = 0
requests (Event.written o ∷ trace) = requests trace
requests (Event.sent o request ∷ trace) = suc (requests trace)

module _ (m : Manager) (sub : Submission) where
  pass_gate-requests :
      (risk : RiskDecision) (gate : GateDecision) (o : Order) (s : Store)
      → requests s.trace < requests (pass_gate m sub risk gate o s).1.trace
      → gate.allowed ≡ true
  unfolding pass_gate save
  pass_gate-requests risk gate o s h = elim (Bool-cases gate.allowed) [
    | inl e ↦ e
    | inr e ↦ absurd (omega (arith, simp e at h))
  ]

  pass_risk-requests :
      (decision : Option RiskDecision) (o : Order) (s : Store)
      → requests s.trace < requests (pass_risk m sub decision o s).1.trace
      → (risk : RiskDecision) × (decision ≡ some risk)
        × (risk.approved ≡ true)
        × ((Gate.evaluate m.config sub.gate_context).allowed ≡ true)
  unfolding pass_risk save
  pass_risk-requests none o s h = absurd (omega arith)
  pass_risk-requests (some risk) o s h = elim (Bool-cases risk.approved) [
    | inl e ↦ (
      risk,
      refl,
      e,
      pass_gate-requests risk (Gate.evaluate m.config sub.gate_context) o _ (simp e at h),
    )
    | inr e ↦ absurd (omega (arith, simp e at h))
  ]

  pass_insertion-requests :
      (insertion : Insertion) (s : Store)
      → requests s.trace < requests (pass_insertion m sub insertion s).1.trace
      → (risk : RiskDecision) × (Risk.evaluate m.config sub.risk_context ≡ some risk)
        × (risk.approved ≡ true)
        × ((Gate.evaluate m.config sub.gate_context).allowed ≡ true)
  unfolding pass_insertion
  pass_insertion-requests Insertion.refused s h = absurd (omega arith)
  pass_insertion-requests (Insertion.inserted o true table) s h = pass_risk-requests _ o _ h
  pass_insertion-requests (Insertion.inserted o false table) s h =
      elim (Bool-cases (was_transmitted o)) [
        | inl e ↦ absurd (omega (arith, simp e at h))
        | inr e ↦ pass_risk-requests _ o _ (simp e at h)
      ]

  pass_build-requests :
      (r : Result OrderError Order) (s : Store)
      → requests s.trace < requests (pass_build m sub r s).1.trace
      → (risk : RiskDecision) × (Risk.evaluate m.config sub.risk_context ≡ some risk)
        × (risk.approved ≡ true)
        × ((Gate.evaluate m.config sub.gate_context).allowed ≡ true)
  unfolding pass_build
  pass_build-requests (err e) s h = absurd (omega arith)
  pass_build-requests (ok o) s h = pass_insertion-requests _ s h

  submit_intent-requests :
      (s : Store)
      → requests s.trace < requests (submit_intent m sub s).1.trace
      → (risk : RiskDecision) × (Risk.evaluate m.config sub.risk_context ≡ some risk)
        × (risk.approved ≡ true)
        × ((Gate.evaluate m.config sub.gate_context).allowed ≡ true)
  unfolding submit_intent
  submit_intent-requests s h = elim (Bool-cases (leb_ℤ sub.risk_context.order_quantity (pos 0))) [
    | inl e ↦ absurd (omega (arith, rw e at h))
    | inr e ↦ pass_build-requests _ s (rw e at h)
  ]

-- A submission that adds a request to the trace had both approvals: the risk manager's controls and
-- limits held for its context, and so did every interlock of the transmit gate.
pub submit_intent-approved :
    (m : Manager) (sub : Submission) (s : Store)
    → requests s.trace < requests (submit_intent m sub s).1.trace
    → WithinControls m.config sub.risk_context
      × WithinLimits m.config sub.risk_context
      × Clearance m.config sub.gate_context
submit_intent-approved m sub s h =
    let (risk, evaluated, approved, allowed) = submit_intent-requests m sub s h in
    let (controls, limits) =
      (evaluate-approved_iff m.config sub.risk_context risk evaluated).0 approved in
    (controls, limits, (evaluate-allowed_iff m.config sub.gate_context).0 allowed)
