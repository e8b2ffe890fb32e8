-- ===== src/OrderManager/Sound.antt =====
-- app/execution/order_manager.py: the steps of a submission keep the store and its trace in agreement.
use pgjp_trading.Prelude.{
  ◌≡◌, refl, inl, inr, String, true, Option, none, some, List, arith, eq_iff, Bool-cases, ◌∷◌,
  Option-cases,
}
use pgjp_trading.Prelude.Int.{pos, leb_ℤ}
use pgjp_trading.Enums.{order_status_enumeration}
use pgjp_trading.Order.{
  Order, was_transmitted, mark_pending_submit, mark_submitted, mark_status, mark_rejected,
  mark_error, mark_blocked, require_transmittable_type,
}
use pgjp_trading.Risk.{RiskDecision}
use pgjp_trading.Gate.{GateDecision}
use pgjp_trading.Repository.{get_by_idempotency_key, write_columns, get_by_idempotency_key-update}
use pgjp_trading.Broker.{BrokerError, PlaceOrderResult, PlaceReply}
use pgjp_trading.OrderManager.Pipeline.{
  Manager, Submission, Store, save, settle, settle_result, transmit, pass_gate, pass_risk,
  pass_type,
}
use pgjp_trading.OrderManager.Trace.{
  sends_of, IsTransmitted, IsSound, Holds, save-IsSound, send-IsSound, save-IsSound_unsent,
}

with_decision-IsSound :
    (s : Store) (decisions : List RiskDecision)
    → IsSound s
    → IsSound (record s { risk_decisions = decisions })
with_decision-IsSound s decisions v = record { once = v.once; backed = v.backed; unique = v.unique }

-- After the save of an order that may have reached the broker its row says so.
saved-IsTransmitted :
    (o : Order) (s : Store)
    → Holds s.orders o
    → was_transmitted o ≡ true
    → IsTransmitted (get_by_idempotency_key o.idempotency_key (save o s).orders)
unfolding save write_columns
saved-IsTransmitted o s (row, found, same) t =
    rw
      (
        get_by_idempotency_key-update o.idempotency_key o s.orders,
        found,
        (eq_iff row.internal_order_id o.internal_order_id).1 same,
      )
      t

module _ (m : Manager) (sub : Submission) where
  settle_result-IsSound :
      (risk : RiskDecision) (gate : GateDecision) (result : PlaceOrderResult) (id : Option String)
      (o : Order) (s : Store)
      → IsSound s
      → IsSound (settle_result m sub risk gate result id o s).1
  unfolding settle_result mark_rejected mark_submitted mark_status
  settle_result-IsSound risk gate result none o s v = save-IsSound _ s v refl
  settle_result-IsSound risk gate result (some id) o s v = elim (Bool-cases result.accepted) [
    | inl e ↦ rw e (save-IsSound _ s v (ground arith))
    | inr e ↦ rw e (save-IsSound _ s v refl)
  ]

  settle-IsSound :
      (risk : RiskDecision) (gate : GateDecision) (o : Order) (reply : PlaceReply) (s : Store)
      → IsSound s
      → IsSound (settle m sub risk gate o reply s).1
  unfolding settle mark_rejected mark_error
  settle-IsSound risk gate o (PlaceReply.placed result) s v =
      settle_result-IsSound risk gate result result.broker_order_id o s v
  settle-IsSound risk gate o (PlaceReply.raised BrokerError.permission_error text) s v =
      save-IsSound _ s v refl
  settle-IsSound risk gate o (PlaceReply.raised _ text) s v = save-IsSound _ s v refl
  settle-IsSound risk gate o PlaceReply.crashed s v = v

  transmit-IsSound :
      (risk : RiskDecision) (gate : GateDecision) (o : Order) (s : Store)
      → IsSound s
      → Holds s.orders o
      → sends_of o.idempotency_key s.trace ≡ 0
      → IsSound (transmit m sub risk gate o s).1
  unfolding transmit mark_pending_submit
  transmit-IsSound risk gate o s v held unsent =
      let o' = mark_pending_submit sub.now o in
      let v' : IsSound (save o' s) = save-IsSound o' s v refl in
      elim (Bool-cases (leb_ℤ o.quantity (pos 0))) [
        | inl e ↦ rw e v'
        | inr e ↦ rw e (
            settle-IsSound risk gate o' _ _ (
              send-IsSound o' _ (save o' s) v' (unfold save in unsent)
                (saved-IsTransmitted o' s held refl)))
      ]

  -- What the steps from the risk manager on need of the order: its row, and no request so far.
  unfoldable pub IsReady : Order → Store → Type 0
  IsReady o s = Holds s.orders o × (sends_of o.idempotency_key s.trace ≡ 0)

  pass_gate-IsSound :
      (risk : RiskDecision) (gate : GateDecision) (o : Order) (s : Store)
      → IsSound s
      → IsReady o s
      → IsSound (pass_gate m sub risk gate o s).1
  unfolding pass_gate pass_type mark_blocked IsReady
  pass_gate-IsSound risk gate o s v (held, unsent) = elim (Bool-cases gate.allowed) [
    | inr e ↦ rw e (save-IsSound_unsent _ s v held unsent)
    | inl e ↦ elim (Option-cases (require_transmittable_type o)) [
      | inl f ↦ rw (e, f, pass_type) (transmit-IsSound risk gate o s v held unsent)
      | inr (error, f) ↦ rw (e, f, pass_type) (save-IsSound_unsent _ s v held unsent)
    ]
  ]

  pub pass_risk-IsSound :
      (decision : Option RiskDecision) (o : Order) (s : Store)
      → IsSound s
      → IsReady o s
      → IsSound (pass_risk m sub decision o s).1
  unfolding pass_risk mark_blocked IsReady
  pass_risk-IsSound none o s v h = v
  pass_risk-IsSound (some risk) o s v (held, unsent) =
      let v' = with_decision-IsSound s (risk ∷ s.risk_decisions) v in
      elim (Bool-cases risk.approved) [
        | inr e ↦ simp e (save-IsSound_unsent _ _ v' held unsent)
        | inl e ↦ simp e (pass_gate-IsSound risk _ o _ v' (held, unsent))
      ]
