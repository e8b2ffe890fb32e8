-- ===== src/OrderManager/Once.antt =====
-- app/execution/order_manager.py: no idempotency key is ever sent to the broker twice.
use pgjp_trading.Prelude.{
  ◌≡◌, refl, inl, inr, String, Option, none, some, List, arith, eq_iff, Bool-cases, false, ◌∷◌,
  ◌++◌, [], ◌⊎◌, ap, if◌then◌else◌, str_eq, ◌∙◌, sym, some_injective, ◌≤◌, Result, ok, err,
}
use pgjp_trading.Prelude.Int.{pos, leb_ℤ}
use pgjp_trading.Enums.{order_status_enumeration}
use pgjp_trading.Order.{Order, was_transmitted, OrderError}
use pgjp_trading.Repository.{
  get_by_idempotency_key, has_id, insert_new, get_by_idempotency_key-append, has_id-get,
  get_by_idempotency_key-key, insert_if_absent,
}
use pgjp_trading.OrderManager.Pipeline.{
  Manager, Submission, Store, Event, pass_insertion, submit_intent, pass_build,
}
use pgjp_trading.OrderManager.Trace.{sends_of, IsTransmitted, IsSound, Holds, sends_of-zero}
use pgjp_trading.OrderManager.Sound.{IsReady, pass_risk-IsSound}

append-IsTransmitted :
    (found other : Option Order)
    → IsTransmitted found
    → IsTransmitted (elim found [ some row ↦ some row | none ↦ other ])
append-IsTransmitted none other h = absurd h
append-IsTransmitted (some row) other h = h

-- A row that is found after an insertion was there before, or is the new one.
inserted-cases :
    (o : Order) (table : List Order) (key : String) (row : Order)
    → get_by_idempotency_key key (table ++ o ∷ []) ≡ some row
    → (get_by_idempotency_key key table ≡ some row) ⊎ ((row ≡ o) × (o.idempotency_key ≡ key))
inserted-cases o table key row e =
    go (get_by_idempotency_key key table) (sym (get_by_idempotency_key-append key o table) ∙ e)
  where
    go :
        (found : Option Order)
        → elim found [
          | some x ↦ some x
          | none ↦ if str_eq o.idempotency_key key then some o else none
        ]
          ≡ some row
        → (found ≡ some row) ⊎ ((row ≡ o) × (o.idempotency_key ≡ key))
    go (some x) h = inl h
    go none h = elim (Bool-cases (str_eq o.idempotency_key key)) [
      | inl f ↦ inr (sym (some_injective (rw f at h)), (eq_iff o.idempotency_key key).0 f)
      | inr f ↦ cc (rw f at h)
    ]

-- The store after a new row was inserted.
module _ (o : Order) (s : Store) (v : IsSound s) where
  inserted_unique :
      has_id o.internal_order_id s.orders ≡ false
      → (j k : String) (q r : Order) → get_by_idempotency_key j (s.orders ++ o ∷ []) ≡ some q
      → get_by_idempotency_key k (s.orders ++ o ∷ []) ≡ some r
      → q.internal_order_id ≡ r.internal_order_id
      → j ≡ k
  inserted_unique fresh j k q r ej ek same = elim (inserted-cases o s.orders j q ej) [
    | inl f ↦ elim (inserted-cases o s.orders k r ek) [
      | inl g ↦ v.unique j k q r f g same
      | inr (e, g) ↦ absurd (old_id j q f (same ∙ ap (λ (x : Order). x.internal_order_id) e))
    ]
    | inr (d, f) ↦ elim (inserted-cases o s.orders k r ek) [
      | inl g ↦ absurd (old_id k r g (sym same ∙ ap (λ (x : Order). x.internal_order_id) d))
      | inr (e, g) ↦ sym f ∙ g
    ]
  ]
    where
      old_id :
          (key : String) (row : Order)
          → get_by_idempotency_key key s.orders ≡ some row
          → row.internal_order_id ≡ o.internal_order_id
          → ⊥
      old_id key row found ids =
          cc (has_id-get key s.orders row found, ap (λ (x : String). has_id x s.orders) ids, fresh)

  inserted-IsSound :
      get_by_idempotency_key o.idempotency_key s.orders ≡ none
      → has_id o.internal_order_id s.orders ≡ false
      → IsSound (record s { orders = s.orders ++ o ∷ []; trace = Event.written o ∷ s.trace })
  inserted-IsSound absent fresh = record {
    once = v.once;
    backed = λ key sent.
        rw (get_by_idempotency_key-append key o s.orders)
          (append-IsTransmitted (get_by_idempotency_key key s.orders) _ (v.backed key sent));
    unique = inserted_unique fresh;
  }

  inserted-Holds :
      get_by_idempotency_key o.idempotency_key s.orders ≡ none → Holds (s.orders ++ o ∷ []) o
  inserted-Holds absent = (
    o,
    rw (
      get_by_idempotency_key-append o.idempotency_key o s.orders,
      absent,
      (eq_iff o.idempotency_key o.idempotency_key).1 refl,
    ),
    refl,
  )

own_row :
    (o : Order) (table : List Order) (row : Order)
    → get_by_idempotency_key o.idempotency_key table ≡ some row
    → get_by_idempotency_key row.idempotency_key table ≡ some row
own_row o table row e =
    ap (λ k. get_by_idempotency_key k table)
      (get_by_idempotency_key-key o.idempotency_key table row e)
    ∙ e

module _ (m : Manager) (sub : Submission) where
  pass_insertion-IsSound :
      (o : Order) (s : Store) (found : Option Order)
      → IsSound s
      → get_by_idempotency_key o.idempotency_key s.orders ≡ found
      → IsSound (pass_insertion m sub (insert_new found o s.orders) s).1
  unfolding insert_new pass_insertion IsReady
  pass_insertion-IsSound o s (some row) v e = elim (Bool-cases (was_transmitted row)) [
    | inl t ↦ rw t v
    | inr t ↦ simp t (
        pass_risk-IsSound m sub _ row _ v (
          (row, own_row o s.orders row e, refl),
          sends_of-zero s row.idempotency_key v (rw (own_row o s.orders row e) (λ h. cc)),
        ))
  ]
  pass_insertion-IsSound o s none v e = elim (Bool-cases (has_id o.internal_order_id s.orders)) [
    | inl t ↦ rw t v
    | inr t ↦ rw t (
        pass_risk-IsSound m sub _ o _ (inserted-IsSound o s v e t)
          (inserted-Holds o s v e, sends_of-zero s o.idempotency_key v (rw e (λ h. h))))
  ]

  pass_build-IsSound :
      (r : Result OrderError Order) (s : Store) → IsSound s → IsSound (pass_build m sub r s).1
  unfolding pass_build insert_if_absent
  pass_build-IsSound (err e) s v = v
  pass_build-IsSound (ok o) s v = pass_insertion-IsSound o s _ v refl

  -- A submission keeps the invariant, whatever it is given and however the broker answers.
  pub submit_intent-IsSound : (s : Store) → IsSound s → IsSound (submit_intent m sub s).1
  unfolding submit_intent
  submit_intent-IsSound s v = elim (Bool-cases (leb_ℤ sub.risk_context.order_quantity (pos 0))) [
    | inl e ↦ rw e v
    | inr e ↦ rw e (pass_build-IsSound _ s v)
  ]

-- The store after a list of submissions, one after the other.
unfoldable pub submit_all : Manager → List Submission → Store → Store
submit_all m [] s = s
submit_all m (sub ∷ subs) s = submit_all m subs (submit_intent m sub s).1

submit_all-IsSound :
    (m : Manager) (subs : List Submission) (s : Store) → IsSound s → IsSound (submit_all m subs s)
unfolding submit_all
submit_all-IsSound m [] s v = v
submit_all-IsSound m (sub ∷ subs) s v =
    submit_all-IsSound m subs _ (submit_intent-IsSound m sub s v)

abbrev pub empty_store : Store
empty_store = record { orders = []; risk_decisions = []; trace = [] }

empty_store-IsSound : IsSound empty_store
unfolding get_by_idempotency_key
empty_store-IsSound = record {
  once = λ key. omega arith;
  backed = λ key sent. elim sent [ ];
  unique = λ j k q r ej ek same. cc;
}

-- From an empty database, whatever is submitted and in whatever order, with any answers of the
-- broker, exceptions included, and any contexts: at most one request is sent for an idempotency key.
pub submit_all-once :
    (m : Manager) (subs : List Submission) (key : String)
    → sends_of key (submit_all m subs empty_store).trace ≤ 1
submit_all-once m subs key = (submit_all-IsSound m subs empty_store empty_store-IsSound).once key
