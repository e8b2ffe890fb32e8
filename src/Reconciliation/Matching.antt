-- ===== src/Reconciliation/Matching.antt =====
-- app/portfolio/reconciliation.py: when each comparison finds nothing.
use pgjp_trading.Prelude.{
  String, Bool, true, ◌&&◌, ◌||◌, none, some, List, [], ◌∷◌, ◌++◌, map, ◌≡◌, refl, sym, ap, ◌∙◌,
  arith, if◌then◌else◌, str_eq, eq_iff, is_empty, is_some, Bool-cases, inl, inr,
}
use pgjp_trading.Prelude.Int.{ℤ, eqb_ℤ, eqb_ℤ_iff}
use pgjp_trading.Broker.{BrokerPosition, BrokerOrderSnapshot}
use pgjp_trading.Keyed.{get, set_all, get-set}
use pgjp_trading.Positions.{Position, PositionBook, from_broker, quantity_or_zero}
use pgjp_trading.Repository.{OpenOrder}
use pgjp_trading.Reconciliation.Sorted.{insert_key, has_key, has_key-insert_key}
use pgjp_trading.Reconciliation.{
  sort_keys, compare_keys, compare_snapshots, compare_locals, broker_ids, local_ids, has_id,
}

-- What the broker reports for a contract: its last position of that contract, else the default.
abbrev pub broker_quantity : ℤ → List BrokerPosition → ℤ → ℤ
broker_quantity c [] default = default
broker_quantity c (p ∷ ps) default =
    broker_quantity c ps (if eqb_ℤ p.con_id c then p.quantity else default)

-- Every local open order has a broker order id.
abbrev pub AreIdentified : List OpenOrder → Type 0
AreIdentified [] = Unit
AreIdentified ((internal, none, symbol) ∷ rest) = ⊥
AreIdentified ((internal, some id, symbol) ∷ rest) = AreIdentified rest

-- The two sides know the same broker order ids.
abbrev pub OrdersAgree : List BrokerOrderSnapshot → List OpenOrder → Type 0
OrdersAgree snapshots locals =
    ((id : String) → has_id id (broker_ids snapshots) ≡ has_id id (local_ids locals))
    × AreIdentified locals

pub by_id-quantity :
    (c at : ℤ) (ps : List BrokerPosition) (d : PositionBook)
    → quantity_or_zero (get c (set_all (λ (p : Position). p.con_id) (map (from_broker at) ps) d))
      ≡ broker_quantity c ps (quantity_or_zero (get c d))
unfolding set_all from_broker
by_id-quantity c at [] d = refl
by_id-quantity c at (p ∷ ps) d =
    by_id-quantity c at ps _
    ∙ ap (broker_quantity c ps) (
        rw (get-set c p.con_id _ d)
          (elim (Bool-cases (eqb_ℤ p.con_id c)) [ inl e ↦ rw e refl | inr e ↦ rw e refl ]))

pub has_key-sort_keys :
    (c : ℤ) (d : PositionBook) (ks : List ℤ)
    → has_key c (sort_keys d ks) ≡ (is_some (get c d) || has_key c ks)
unfolding sort_keys
has_key-sort_keys c [] ks = refl
has_key-sort_keys c ((k, p) ∷ rest) ks =
    has_key-sort_keys c rest (insert_key k ks) ∙ rw (has_key-insert_key c k ks) (ground arith)

module _ (broker local : PositionBook) where
  pub compare_keys-empty :
      (ks : List ℤ)
      → is_empty (compare_keys broker local ks) ≡ true
      → (c : ℤ) → has_key c ks ≡ true
      → quantity_or_zero (get c broker) ≡ quantity_or_zero (get c local)
  unfolding compare_keys
  compare_keys-empty [] h c known = cc
  compare_keys-empty (k ∷ ks) h c known =
      elim (Bool-cases (eqb_ℤ (quantity_or_zero (get k broker)) (quantity_or_zero (get k local)))) [
        | inr e ↦ cc (rw e at h)
        | inl e ↦ elim (Bool-cases (eqb_ℤ k c)) [
          | inl f ↦ rw (← (eqb_ℤ_iff k c).0 f) ((eqb_ℤ_iff _ _).0 e)
          | inr f ↦ compare_keys-empty ks (rw e at h) c (rw f at known)
        ]
      ]

  pub empty-compare_keys :
      (ks : List ℤ)
      → ((c : ℤ) → quantity_or_zero (get c broker) ≡ quantity_or_zero (get c local))
      → is_empty (compare_keys broker local ks) ≡ true
  unfolding compare_keys
  empty-compare_keys [] agree = refl
  empty-compare_keys (k ∷ ks) agree =
      rw
        ((eqb_ℤ_iff (quantity_or_zero (get k broker)) (quantity_or_zero (get k local))).1 (agree k))
        (empty-compare_keys ks agree)

pub compare_snapshots-empty :
    (known : List String) (snapshots : List BrokerOrderSnapshot)
    → is_empty (compare_snapshots known snapshots) ≡ true
    → (id : String) → has_id id (broker_ids snapshots) ≡ true
    → has_id id known ≡ true
unfolding compare_snapshots
compare_snapshots-empty known [] h id there = cc
compare_snapshots-empty known (o ∷ rest) h id there =
    elim (Bool-cases (has_id o.broker_order_id known)) [
      | inr e ↦ cc (rw e at h)
      | inl e ↦ elim (Bool-cases (str_eq o.broker_order_id id)) [
        | inl f ↦ rw (← (eq_iff o.broker_order_id id).0 f) e
        | inr f ↦ compare_snapshots-empty known rest (rw e at h) id (rw f at there)
      ]
    ]

-- The first id of a list is in it.
has_id-head : (id : String) (ids : List String) → has_id id (id ∷ ids) ≡ true
has_id-head id ids = rw ((eq_iff id id).1 refl) refl

-- So are the ids of its rest.
has_id-tail :
    (i id : String) (ids : List String) → has_id id ids ≡ true → has_id id (i ∷ ids) ≡ true
has_id-tail i id ids h = ground (arith, h)

pub empty-compare_snapshots :
    (known : List String) (snapshots : List BrokerOrderSnapshot)
    → ((id : String) → has_id id (broker_ids snapshots) ≡ true → has_id id known ≡ true)
    → is_empty (compare_snapshots known snapshots) ≡ true
unfolding compare_snapshots
empty-compare_snapshots known [] sub = refl
empty-compare_snapshots known (o ∷ rest) sub =
    rw (sub o.broker_order_id (has_id-head o.broker_order_id (broker_ids rest))) (
      empty-compare_snapshots known rest
        (λ id h. sub id (has_id-tail o.broker_order_id id (broker_ids rest) h)))

pub compare_locals-empty :
    (known : List String) (locals : List OpenOrder)
    → is_empty (compare_locals known locals) ≡ true
    → ((id : String) → has_id id (local_ids locals) ≡ true → has_id id known ≡ true)
      × AreIdentified locals
unfolding compare_locals
compare_locals-empty known [] h = (λ id there. cc, tt)
compare_locals-empty known ((internal, none, symbol) ∷ rest) h = cc
compare_locals-empty known ((internal, some i, symbol) ∷ rest) h =
    elim (Bool-cases (has_id i known)) [
      | inr e ↦ cc (rw e at h)
      | inl e ↦
          let (sub, identified) = compare_locals-empty known rest (rw e at h) in
          (
            λ id there. elim (Bool-cases (str_eq i id)) [
              | inl f ↦ rw (← (eq_iff i id).0 f) e
              | inr f ↦ sub id (rw f at there)
            ],
            identified,
          )
    ]

pub empty-compare_locals :
    (known : List String) (locals : List OpenOrder)
    → ((id : String) → has_id id (local_ids locals) ≡ true → has_id id known ≡ true)
    → AreIdentified locals
    → is_empty (compare_locals known locals) ≡ true
unfolding compare_locals
empty-compare_locals known [] sub identified = refl
empty-compare_locals known ((internal, none, symbol) ∷ rest) sub identified = absurd identified
empty-compare_locals known ((internal, some i, symbol) ∷ rest) sub identified =
    rw (sub i (has_id-head i (local_ids rest))) (
      empty-compare_locals known rest (λ id h. sub id (has_id-tail i id (local_ids rest) h))
        identified)

pub is_empty-append :
    {A : Type 0} → (xs ys : List A) → is_empty (xs ++ ys) ≡ (is_empty xs && is_empty ys)
is_empty-append [] ys = refl
is_empty-append (x ∷ xs) ys = refl

pub both_true : (a b : Bool) → (a ≡ true → b ≡ true) → (b ≡ true → a ≡ true) → a ≡ b
both_true a b f g = elim (Bool-cases a) [
  | inl e ↦ e ∙ sym (f e)
  | inr e ↦ elim (Bool-cases b) [ inl h ↦ g h ∙ sym h | inr h ↦ e ∙ sym h ]
]
