-- ===== src/OrderManager/Trace.antt =====
-- app/execution/order_manager.py: the requests in a trace, and the invariant that ties them to the
-- table of orders.
use pgjp_trading.Prelude.{
  ℕ, suc, ◌≤◌, ◌≡◌, refl, sym, ap, ◌∙◌, inl, inr, String, true, Option, none, some, List, [], ◌∷◌,
  arith, if◌then◌else◌, str_eq, eq_iff, Bool-cases, ◌≢◌,
}
use native.Mathlib.Decide.{dec_lt}
use pgjp_trading.Order.{Order, was_transmitted}
use pgjp_trading.Repository.{
  get_by_idempotency_key, update, write_columns, rewrite_row, get_by_idempotency_key-update,
}
use pgjp_trading.Broker.{OrderRequest}
use pgjp_trading.OrderManager.Pipeline.{Event, Store, save}

-- How many requests a trace holds for orders with an idempotency key.
abbrev pub sends_of : String → List Event → ℕ
sends_of key [] = 0
sends_of key (Event.written o ∷ trace) = sends_of key trace
sends_of key (Event.sent o request ∷ trace) =
    let rest = sends_of key trace in if str_eq o.idempotency_key key then suc rest else rest

-- There is a row, and its order may have reached the broker.
abbrev pub IsTransmitted : Option Order → Type 0
IsTransmitted none = ⊥
IsTransmitted (some row) = was_transmitted row ≡ true

-- A key has at most one request, a key with a request has a row that says so, and two keys do not
-- share an order id.
pub record IsSound (s : Store) : Type 0 where
  pub once : (key : String) → sends_of key s.trace ≤ 1
  pub backed :
      (key : String)
      → 1 ≤ sends_of key s.trace
      → IsTransmitted (get_by_idempotency_key key s.orders)
  pub unique :
      (j k : String) (q r : Order)
      → get_by_idempotency_key j s.orders ≡ some q
      → get_by_idempotency_key k s.orders ≡ some r
      → q.internal_order_id ≡ r.internal_order_id
      → j ≡ k

-- The table has a row for the order's key, with the order's id.
abbrev pub Holds : List Order → Order → Type 0
Holds table o =
    (row : Order) × (get_by_idempotency_key o.idempotency_key table ≡ some row)
    × (row.internal_order_id ≡ o.internal_order_id)

-- A rewritten row is a row with its old id.
rewrite_row-eq_some :
    (o : Order) (found : Option Order) (q : Order)
    → rewrite_row o found ≡ some q
    → (row : Order) × (found ≡ some row) × (row.internal_order_id ≡ q.internal_order_id)
unfolding write_columns
rewrite_row-eq_some o none q e = cc
rewrite_row-eq_some o (some row) q e = (row, refl, ground arith)

update_unique :
    (s : Store) (o : Order)
    → IsSound s
    → (j k : String) (q r : Order) → get_by_idempotency_key j (update o s.orders) ≡ some q
    → get_by_idempotency_key k (update o s.orders) ≡ some r
    → q.internal_order_id ≡ r.internal_order_id
    → j ≡ k
update_unique s o v j k q r ej ek same =
    let (q', fj, hj) =
      rewrite_row-eq_some o (get_by_idempotency_key j s.orders) q
        (sym (get_by_idempotency_key-update j o s.orders) ∙ ej) in
    let (r', fk, hk) =
      rewrite_row-eq_some o (get_by_idempotency_key k s.orders) r
        (sym (get_by_idempotency_key-update k o s.orders) ∙ ek) in
    v.unique j k q' r' fj fk (hj ∙ same ∙ sym hk)

rewrite_row-IsTransmitted :
    (o : Order) (found : Option Order)
    → was_transmitted o ≡ true
    → IsTransmitted found
    → IsTransmitted (rewrite_row o found)
unfolding write_columns
rewrite_row-IsTransmitted o none t h = h
rewrite_row-IsTransmitted o (some row) t h = ground arith

-- Writing an order that may have reached the broker keeps the invariant.
pub save-IsSound :
    (o : Order) (s : Store) → IsSound s → was_transmitted o ≡ true → IsSound (save o s)
unfolding save
save-IsSound o s v t = record {
  once = v.once;
  backed = λ key sent.
      rw (get_by_idempotency_key-update key o s.orders)
        (rewrite_row-IsTransmitted o (get_by_idempotency_key key s.orders) t (v.backed key sent));
  unique = update_unique s o v;
}

rewrite_row_other :
    (o : Order) (found : Option Order)
    → ((row : Order) → found ≡ some row → row.internal_order_id ≢ o.internal_order_id)
    → rewrite_row o found ≡ found
rewrite_row_other o none other = refl
rewrite_row_other o (some row) other =
    ground (arith, eq_iff row.internal_order_id o.internal_order_id, other row refl)

-- So does writing an order for whose key nothing was sent.
pub save-IsSound_unsent :
    (o : Order) (s : Store)
    → IsSound s
    → Holds s.orders o
    → sends_of o.idempotency_key s.trace ≡ 0
    → IsSound (save o s)
unfolding save
save-IsSound_unsent o s v (held, found, same) unsent = record {
  once = v.once;
  backed = λ key sent.
      rw
        (
          get_by_idempotency_key-update key o s.orders,
          rewrite_row_other o (get_by_idempotency_key key s.orders)
              (λ row e ids. absurd (clash key sent row e ids)),
        )
        (v.backed key sent);
  unique = update_unique s o v;
}
  where
    clash :
        (key : String)
        → 1 ≤ sends_of key s.trace
        → (row : Order) → get_by_idempotency_key key s.orders ≡ some row
        → row.internal_order_id ≡ o.internal_order_id
        → ⊥
    clash key sent row e ids =
        let k : key ≡ o.idempotency_key =
          v.unique key o.idempotency_key row held e found (ids ∙ sym same) in
        absurd (omega (arith, ap (λ x. sends_of x s.trace) k))

-- A key with no row, or with a row that never reached the broker, has no request.
pub sends_of-zero :
    (s : Store) (key : String)
    → IsSound s
    → ¬ IsTransmitted (get_by_idempotency_key key s.orders)
    → sends_of key s.trace ≡ 0
sends_of-zero s key v h = elim (dec_lt 0 (sends_of key s.trace)) [
  | yes sent ↦ absurd (h (v.backed key sent))
  | no none_sent ↦ omega arith
]

-- The first request for a key keeps the invariant, once its row says that it is out.
pub send-IsSound :
    (o : Order) (request : OrderRequest) (s : Store)
    → IsSound s
    → sends_of o.idempotency_key s.trace ≡ 0
    → IsTransmitted (get_by_idempotency_key o.idempotency_key s.orders)
    → IsSound (record s { trace = Event.sent o request ∷ s.trace })
send-IsSound o request s v unsent row = record {
  once = λ key. elim (Bool-cases (str_eq o.idempotency_key key)) [
    | inl e ↦ rw e (
        omega (arith, ap (λ (k : String). sends_of k s.trace) ((eq_iff o.idempotency_key key).0 e)))
    | inr e ↦ rw e (v.once key)
  ];
  backed = λ key sent. elim (Bool-cases (str_eq o.idempotency_key key)) [
    | inl e ↦ rw (← (eq_iff o.idempotency_key key).0 e) row
    | inr e ↦ v.backed key (rw e at sent)
  ];
  unique = v.unique;
}
