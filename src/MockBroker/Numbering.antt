-- ===== src/MockBroker/Numbering.antt =====
-- app/broker/mock_broker.py: the ids that the simulated broker gives orders and fills.
pub mod Kept
use pgjp_trading.Prelude.{
  ◌is◌, ◌&&◌, some, Option, Bool, not, ℕ, suc, ◌≤◌, String, true, false, ◌||◌, none, List, [], ◌∷◌,
  ◌++◌, map, ◌≡◌, refl, ap, arith, Bool-cases, inl, inr, str_eq, eq_iff, ◌∙◌, if_after,
}
use pgjp_trading.Broker.{
  BrokerFill, BrokerOrderSnapshot, BrokerPosition, OrderRequest, BrokerError, MarketDataTick,
}
use pgjp_trading.Application.Ingestion.{is_known, new_fills}
use pgjp_trading.Named.{get, set, pop, get-set, get-pop}
use pgjp_trading.MockBroker.{Simulation, new_broker}
use pgjp_trading.Prelude.Int.{ℤ}
use pgjp_trading.Decimal.{Decimal}
use pgjp_trading.Contract.{QualifiedContract}
use pgjp_trading.Enums.{AccountType, OrderType, order_type_enumeration}
use pgjp_trading.MockBroker.Orders.{
  apply_fill_to_positions, reposition, fill_at, after_tick, simulate_fill, refusal, snapshot_of,
  stored, accept, unless_refused, place_order, modify_working, modify_order, cancel_order,
  cancel_all_orders,
}
use pgjp_trading.MockBroker.Operations.{Operation, perform, perform_all}
use pgjp_trading.MockBroker.{
  MockBroker, is_connected, set_account_type, set_permission_denied, force_disconnect, connect,
  disconnect, get_account_summary, request_market_data, cancel_market_data, next_tick,
}

abbrev pub execution_ids : List BrokerFill → List String
execution_ids fills = map (λ (f : BrokerFill). f.execution_id) fills

-- The orders that have a fill.
abbrev pub filled_ids : List BrokerFill → List String
filled_ids fills = map (λ (f : BrokerFill). f.broker_order_id) fills

-- Different numbers are formatted to different texts.
pub record IsFormat (sim : Simulation) : Type 0 where
  pub orders : (m n : ℕ) → sim.order_id m ≡ sim.order_id n → m ≡ n
  pub executions : (m n : ℕ) → sim.execution_id m ≡ sim.execution_id n → m ≡ n

-- Of the working orders, the fills and the two counters: no id is in use that a later number gives,
-- each fill has its own id, and no filled order is working.
pub record IsNumbered (sim : Simulation) (orders : List (String × BrokerOrderSnapshot))
    (fills : List BrokerFill) (order_counter exec_counter : ℕ) : Type 0 where
  pub unused : (n : ℕ) → suc order_counter ≤ n → get (sim.order_id n) orders ≡ none
  pub unfilled :
      (n : ℕ) → suc order_counter ≤ n → is_known (sim.order_id n) (filled_ids fills) ≡ false
  pub unreported :
      (n : ℕ) → suc exec_counter ≤ n → is_known (sim.execution_id n) (execution_ids fills) ≡ false
  pub distinct : new_fills [] fills ≡ fills
  pub settled : (id : String) → is_known id (filled_ids fills) ≡ true → get id orders ≡ none

abbrev pub Numbered : Simulation → MockBroker → Type 0
Numbered sim b = IsNumbered sim b.open_orders b.fills b.order_counter b.exec_counter

is_known-append :
    (id x : String) (ids : List String)
    → is_known id (ids ++ x ∷ []) ≡ (is_known id ids || str_eq x id)
is_known-append id x [] = ground arith
is_known-append id x (y ∷ ids) = ground (arith, is_known-append id x ids)

map-append :
    (g : BrokerFill → String) (fills : List BrokerFill) (f : BrokerFill)
    → map g (fills ++ f ∷ []) ≡ map g fills ++ g f ∷ []
map-append g [] f = refl
map-append g (h ∷ fills) f = rw (map-append g fills f) refl

new_fills-append :
    (known : List String) (fills : List BrokerFill) (f : BrokerFill)
    → is_known f.execution_id known ≡ false
    → is_known f.execution_id (execution_ids fills) ≡ false
    → new_fills known (fills ++ f ∷ []) ≡ new_fills known fills ++ f ∷ []
unfolding new_fills
new_fills-append known [] f h g = rw h refl
new_fills-append known (x ∷ fills) f h g = elim (Bool-cases (is_known x.execution_id known)) [
  | inl e ↦ rw e (new_fills-append known fills f h (ground (arith, g)))
  | inr e ↦ rw e (
      ap (λ later. x ∷ later)
        (new_fills-append (x.execution_id ∷ known) fills f (ground (arith, g, h))
          (ground (arith, g))))
]

known_before :
    (fills : List BrokerFill) (id : String) (f : BrokerFill)
    → is_known id (filled_ids (fills ++ f ∷ [])) ≡ true
    → str_eq f.broker_order_id id ≡ false
    → is_known id (filled_ids fills) ≡ true
known_before fills id f h e =
    let g = rw (map-append (λ (x : BrokerFill). x.broker_order_id) fills f) at h in
    ground (arith, g, e, is_known-append id f.broker_order_id (filled_ids fills))

-- A later number's text is another text.
pub differs :
    (text : ℕ → String)
    → ((m n : ℕ) → text m ≡ text n → m ≡ n)
    → (m n : ℕ) → suc m ≤ n
    → str_eq (text m) (text n) ≡ false
differs text injective m n h = elim (Bool-cases (str_eq (text m) (text n))) [
  | inl e ↦ ground (arith, injective m n ((eq_iff (text m) (text n)).0 e), h)
  | inr e ↦ e
]

module _ (sim : Simulation) (format : IsFormat sim) (orders : List (String × BrokerOrderSnapshot))
    (fills : List BrokerFill) (oc ec : ℕ) (v : IsNumbered sim orders fills oc ec) where
  pub store-IsNumbered :
      (s : BrokerOrderSnapshot)
      → IsNumbered sim (set (sim.order_id (suc oc)) s orders) fills (suc oc) ec
  store-IsNumbered s = record {
    unused = λ n h.
        rw
          (
            get-set (sim.order_id n) (sim.order_id (suc oc)) s orders,
            differs sim.order_id format.orders (suc oc) n h,
          )
          (v.unused n (omega (arith, h)));
    unfilled = λ n h. v.unfilled n (omega (arith, h));
    unreported = v.unreported;
    distinct = v.distinct;
    settled = λ id h. rw (get-set id (sim.order_id (suc oc)) s orders) (
        ground (
          arith,
          eq_iff (sim.order_id (suc oc)) id,
          v.unfilled (suc oc) (omega arith),
          h,
          v.settled id h,
        ));
  }

  -- An order that is no later number's is filled.
  pub fill-IsNumbered :
      (f : BrokerFill)
      → f.execution_id ≡ sim.execution_id (suc ec)
      → ((n : ℕ) → suc oc ≤ n → str_eq f.broker_order_id (sim.order_id n) ≡ false)
      → IsNumbered sim (pop f.broker_order_id orders) (fills ++ f ∷ []) oc (suc ec)
  fill-IsNumbered f own given = record {
    unused =
        λ n h. rw (get-pop (sim.order_id n) f.broker_order_id orders, given n h) (v.unused n h);
    unfilled = λ n h.
        rw
          (
            map-append (λ (g : BrokerFill). g.broker_order_id) fills f,
            is_known-append (sim.order_id n) f.broker_order_id (filled_ids fills),
            given n h,
            v.unfilled n h,
          )
          refl;
    unreported = λ n h.
        rw
          (
            map-append (λ (g : BrokerFill). g.execution_id) fills f,
            is_known-append (sim.execution_id n) f.execution_id (execution_ids fills),
            own,
            differs sim.execution_id format.executions (suc ec) n h,
            v.unreported n (omega (arith, h)),
          )
          refl;
    distinct =
        new_fills-append [] fills f refl (rw own (v.unreported (suc ec) (omega arith)))
        ∙ ap (λ fs. fs ++ f ∷ []) v.distinct;
    settled = λ id h.
        rw (get-pop id f.broker_order_id orders) (elim (Bool-cases (str_eq f.broker_order_id id)) [
          | inl e ↦ rw e refl
          | inr e ↦ rw e (v.settled id (known_before fills id f h e))
        ]);
  }

  pub modify-IsNumbered :
      (id : String) (old s : BrokerOrderSnapshot)
      → get id orders ≡ some old
      → IsNumbered sim (set id s orders) fills oc ec
  modify-IsNumbered id old s working = record {
    unused = λ n h.
        rw (get-set (sim.order_id n) id s orders) (elim (Bool-cases (str_eq id (sim.order_id n))) [
          | inl e ↦ let same = (eq_iff id (sim.order_id n)).0 e in let free = v.unused n h in cc
          | inr e ↦ rw e (v.unused n h)
        ]);
    unfilled = v.unfilled;
    unreported = v.unreported;
    distinct = v.distinct;
    settled = λ j h. rw (get-set j id s orders) (elim (Bool-cases (str_eq id j)) [
      | inl e ↦ let same = (eq_iff id j).0 e in let free = v.settled j h in cc
      | inr e ↦ rw e (v.settled j h)
    ]);
  }

  pub cancel-IsNumbered : (id : String) → IsNumbered sim (pop id orders) fills oc ec
  cancel-IsNumbered id = record {
    unused = λ n h. rw (get-pop (sim.order_id n) id orders, v.unused n h) (ground arith);
    unfilled = v.unfilled;
    unreported = v.unreported;
    distinct = v.distinct;
    settled = λ j h. rw (get-pop j id orders, v.settled j h) (ground arith);
  }

  pub clear-IsNumbered : IsNumbered sim [] fills oc ec
  clear-IsNumbered = record {
    unused = λ n h. refl;
    unfilled = v.unfilled;
    unreported = v.unreported;
    distinct = v.distinct;
    settled = λ j h. refl;
  }
