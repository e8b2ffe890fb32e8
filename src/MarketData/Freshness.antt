-- ===== src/MarketData/Freshness.antt =====
-- app/market_data/manager.py: when a contract's data is fresh, and what refreshes it.
use pgjp_trading.Prelude.{
  suc, zero, ◌+◌, ℕ, Bool, true, false, ◌&&◌, Option, none, some, List, [], ◌∷◌, ◌≡◌, ◌↔◌, refl, ap,
  ◌∙◌, arith, if◌then◌else◌, Bool-cases, inl, inr, is_some, contains,
}
use pgjp_trading.Prelude.Int.{ℤ, pos, leb_ℤ, eqb_ℤ, eqb_ℤ_iff}
use pgjp_trading.Contract.{QualifiedContract}
use pgjp_trading.Broker.{MarketDataTick}
use pgjp_trading.Config.{Config}
use pgjp_trading.Gate
use pgjp_trading.Gate.{GateContext, GateReason, gate_reason_enumeration}
use pgjp_trading.Gate.Interlocks.{
  fails, is_age_missing, is_age_in_future, is_age_stale, evaluate-interlocks,
}
use pgjp_trading.Keyed.{get, get-set}
use pgjp_trading.MarketData.{
  Quote, age, is_fresh_quote, has_prices, quote_of, MarketDataManager, TickReply, record_tick, poll,
  subscribe, unsubscribe, clear, age_seconds, is_fresh,
}

-- The gate reports none of its reasons about the age of the data.
abbrev pub AgePasses : Config → GateContext → Type 0
AgePasses c ctx =
    (contains GateReason.market_data_age_not_configured (Gate.evaluate c ctx).reasons ≡ false)
    × (contains GateReason.market_data_unavailable (Gate.evaluate c ctx).reasons ≡ false)
    × (contains GateReason.market_data_timestamp_in_future (Gate.evaluate c ctx).reasons ≡ false)
    × (contains GateReason.market_data_stale (Gate.evaluate c ctx).reasons ≡ false)

-- The four interlocks together.
is_fresh-fails :
    (c : Config) (ctx : GateContext) (con_id now : ℤ) (m : MarketDataManager)
    → c.market_data_max_age_seconds ≡ m.max_age
    → ctx.market_data_age_seconds ≡ age_seconds con_id now m
    → (is_fresh con_id now m ≡ true) ↔ (
        (fails c ctx GateReason.market_data_age_not_configured ≡ false)
        × (fails c ctx GateReason.market_data_unavailable ≡ false)
        × (fails c ctx GateReason.market_data_timestamp_in_future ≡ false)
        × (fails c ctx GateReason.market_data_stale ≡ false))
unfolding is_fresh age_seconds is_fresh_quote
is_fresh-fails c ctx con_id now m same_limit same_age =
    rw (same_limit, same_age) (go (get con_id m.quotes))
  where
    go :
        (found : Option Quote)
        → (elim found [ none ↦ false | some q ↦ is_fresh_quote m.max_age now q ] ≡ true) ↔ (
            (leb_ℤ m.max_age (pos 0) ≡ false)
            × (is_age_missing (elim found [ none ↦ none | some q ↦ some (age now q) ]) ≡ false)
            × (is_age_in_future (elim found [ none ↦ none | some q ↦ some (age now q) ]) ≡ false)
            × (is_age_stale m.max_age (elim found [ none ↦ none | some q ↦ some (age now q) ])
                ≡ false))
    go none = (λ h. cc, λ h. cc (h.1))
    go (some q) = (
      λ h. (ground (arith, h), refl, ground (arith, h), ground (arith, h)),
      λ (a, b, d, e). ground (arith, a, d, e),
    )

-- Let the transmit gate decide on the age that the manager reports, with the manager's maximal age as
-- the configured one. The manager finds the contract's data fresh exactly when the gate's decision
-- holds none of the reasons about the age: that the maximal age is not configured, that there is no
-- data, that it is from the future, or that it is stale.
pub is_fresh-gate_iff :
    (c : Config) (ctx : GateContext) (con_id now : ℤ) (m : MarketDataManager)
    → c.market_data_max_age_seconds ≡ m.max_age
    → ctx.market_data_age_seconds ≡ age_seconds con_id now m
    → (is_fresh con_id now m ≡ true) ↔ AgePasses c ctx
is_fresh-gate_iff c ctx con_id now m same_limit same_age =
    rw
      (
        evaluate-interlocks c ctx GateReason.market_data_age_not_configured,
        evaluate-interlocks c ctx GateReason.market_data_unavailable,
        evaluate-interlocks c ctx GateReason.market_data_timestamp_in_future,
        evaluate-interlocks c ctx GateReason.market_data_stale,
      )
      (is_fresh-fails c ctx con_id now m same_limit same_age)

-- The operations of the manager.
pub data Call : Type 0 where
  polling : (QualifiedContract → TickReply) → QualifiedContract → Call
  subscribing : (QualifiedContract → TickReply) → QualifiedContract → Call
  unsubscribing : QualifiedContract → Call

unfoldable pub call : Call → MarketDataManager → MarketDataManager
call (Call.polling answer contract) m = (poll answer contract m).1
call (Call.subscribing answer contract) m = subscribe answer contract m
call (Call.unsubscribing contract) m = unsubscribe contract m

unfoldable pub call_all : List Call → MarketDataManager → MarketDataManager
call_all [] m = m
call_all (c ∷ calls) m = call_all calls (call c m)

-- The contract's broker gave a tick with a price in this call.
abbrev gives_price : TickReply → QualifiedContract → Bool
gives_price (TickReply.ticked tick) contract = has_prices (quote_of contract tick)
gives_price (TickReply.permission_refused text) contract = false
gives_price TickReply.request_failed contract = false

abbrev pub is_priced : ℤ → Call → Bool
is_priced con_id (Call.polling answer contract) =
    eqb_ℤ contract.con_id con_id && gives_price (answer contract) contract
is_priced con_id (Call.subscribing answer contract) =
    eqb_ℤ contract.con_id con_id && gives_price (answer contract) contract
is_priced con_id (Call.unsubscribing contract) = false

abbrev pub AreUnpriced : ℤ → List Call → Type 0
AreUnpriced con_id [] = Unit
AreUnpriced con_id (c ∷ calls) = (is_priced con_id c ≡ false) × AreUnpriced con_id calls

and_true : (a b : Bool) → b ≡ true → (a && b) ≡ false → a ≡ false
and_true a b hb h = ground (arith, hb, h)

record_tick-unpriced :
    (contract : QualifiedContract) (tick : MarketDataTick) (con_id : ℤ) (m : MarketDataManager)
    → (eqb_ℤ contract.con_id con_id && has_prices (quote_of contract tick)) ≡ false
    → get con_id (record_tick contract tick m).1.quotes ≡ get con_id m.quotes
unfolding record_tick
record_tick-unpriced contract tick con_id m h =
    elim (Bool-cases (has_prices (quote_of contract tick))) [
      | inl e ↦ simp e (
          get-set con_id contract.con_id (quote_of contract tick) m.quotes
          ∙ rw (and_true _ _ e h) refl)
      | inr e ↦ simp e refl
    ]

poll-unpriced :
    (answer : QualifiedContract → TickReply) (contract : QualifiedContract) (con_id : ℤ)
    (m : MarketDataManager)
    → (eqb_ℤ contract.con_id con_id && gives_price (answer contract) contract) ≡ false
    → get con_id (poll answer contract m).1.quotes ≡ get con_id m.quotes
unfolding poll
poll-unpriced answer contract con_id m h = go (answer contract) h
  where
    go :
        (reply : TickReply)
        → (eqb_ℤ contract.con_id con_id && gives_price reply contract) ≡ false
        → get con_id (poll (λ c. reply) contract m).1.quotes ≡ get con_id m.quotes
    go (TickReply.ticked tick) h =
        unfold poll in
        record_tick-unpriced contract tick con_id
          (record m { requested = contract.con_id ∷ m.requested }) h
    go (TickReply.permission_refused text) h = unfold poll in refl
    go TickReply.request_failed h = unfold poll in refl

call-unpriced :
    (c : Call) (con_id : ℤ) (m : MarketDataManager)
    → is_priced con_id c ≡ false
    → get con_id (call c m).quotes ≡ get con_id m.quotes
unfolding call subscribe unsubscribe
call-unpriced (Call.polling answer contract) con_id m h = poll-unpriced answer contract con_id m h
call-unpriced (Call.subscribing answer contract) con_id m h =
    elim (Bool-cases (is_some (get contract.con_id m.subscribed))) [
      | inl e ↦ rw e refl
      | inr e ↦ rw e (poll-unpriced answer contract con_id _ h)
    ]
call-unpriced (Call.unsubscribing contract) con_id m h = refl

call_all-unpriced :
    (calls : List Call) (con_id : ℤ) (m : MarketDataManager)
    → AreUnpriced con_id calls
    → get con_id (call_all calls m).quotes ≡ get con_id m.quotes
unfolding call_all
call_all-unpriced [] con_id m h = refl
call_all-unpriced (c ∷ calls) con_id m (h, hs) =
    call_all-unpriced calls con_id (call c m) hs ∙ call-unpriced c con_id m h

-- After the cache is cleared, and after any calls none of which brought the contract a tick with a
-- price, the contract's data has no age and is not fresh: a tick without a price refreshes nothing.
pub clear-stale :
    (calls : List Call) (con_id now : ℤ) (m : MarketDataManager)
    → AreUnpriced con_id calls
    → (age_seconds con_id now (call_all calls (clear m)) ≡ none)
      × (is_fresh con_id now (call_all calls (clear m)) ≡ false)
unfolding age_seconds is_fresh clear
clear-stale calls con_id now m h = (
  ap (λ (found : Option Quote). elim found [ none ↦ none | some q ↦ some (age now q) ])
      (call_all-unpriced calls con_id (clear m) h),
  ap
      (λ (found : Option Quote). elim found [
        | none ↦ false
        | some q ↦ is_fresh_quote (call_all calls (clear m)).max_age now q
      ])
      (call_all-unpriced calls con_id (clear m) h),
)

-- The requests for a contract.
abbrev pub requests_for : ℤ → List ℤ → ℕ
requests_for con_id [] = 0
requests_for con_id (c ∷ cs) = let n = requests_for con_id cs in if eqb_ℤ c con_id then suc n else n

record_tick-requested :
    (contract : QualifiedContract) (tick : MarketDataTick) (m : MarketDataManager)
    → (record_tick contract tick m).1.requested ≡ m.requested
unfolding record_tick
record_tick-requested contract tick m = elim (Bool-cases (has_prices (quote_of contract tick))) [
  | inl e ↦ simp e refl
  | inr e ↦ simp e refl
]

poll-requested :
    (answer : QualifiedContract → TickReply) (contract : QualifiedContract) (m : MarketDataManager)
    → (poll answer contract m).1.requested ≡ contract.con_id ∷ m.requested
unfolding poll
poll-requested answer contract m = go (answer contract)
  where
    go :
        (reply : TickReply)
        → (poll (λ c. reply) contract m).1.requested ≡ contract.con_id ∷ m.requested
    go (TickReply.ticked tick) = unfold poll in record_tick-requested contract tick _
    go (TickReply.permission_refused text) = unfold poll in refl
    go TickReply.request_failed = unfold poll in refl

-- One more request, and the rest of the count.
count_more :
    (n : ℕ) (con_id : ℤ) (cs : List ℤ)
    → n + requests_for con_id (con_id ∷ cs) ≡ suc n + requests_for con_id cs
count_more n con_id cs = rw ((eqb_ℤ_iff con_id con_id).1 refl) (omega arith)

-- Polls of one contract, one after the other.
unfoldable pub poll_times :
    ℕ → (QualifiedContract → TickReply) → QualifiedContract → MarketDataManager → MarketDataManager
poll_times zero answer contract m = m
poll_times (suc n) answer contract m = poll_times n answer contract (poll answer contract m).1

-- However often a contract is polled, the broker is asked every time, also where it refused the first
-- request for want of permission.
pub poll_times-requests :
    (n : ℕ) (answer : QualifiedContract → TickReply) (contract : QualifiedContract)
    (m : MarketDataManager)
    → requests_for contract.con_id (poll_times n answer contract m).requested
      ≡ n + requests_for contract.con_id m.requested
unfolding poll_times
poll_times-requests zero answer contract m = omega arith
poll_times-requests (suc n) answer contract m =
    poll_times-requests n answer contract (poll answer contract m).1
    ∙ ap (λ (cs : List ℤ). n + requests_for contract.con_id cs) (poll-requested answer contract m)
    ∙ count_more n contract.con_id m.requested
