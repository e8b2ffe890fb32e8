-- ===== src/Validator/Reasons.antt =====
-- app/signals/validator.py: the reasons of a rejection.
use pgjp_trading.Prelude.{
  String, Bool, true, not, ◌||◌, ◌&&◌, List, ◌≡◌, arith, str_eq, ltb, ◌is◌, contains,
  contains-append_if,
}
use pgjp_trading.Prelude.Int.{ℤ, pos, ◌-ℤ◌, ltb_ℤ, nat_abs}
use pgjp_trading.Intent.{TradeIntent}
use mathlib.Core.Bool.{and-true, and-false, or-false}
use pgjp_trading.Validator.{
  ValidationReason, validation_reason_enumeration, is_in, supported_futures_symbols,
  absolute_position_sanity_limit, SignalValidator, check_symbol, check_age, check_strategy,
  check_position, check_duplicate, collect_reasons, validate,
}

-- What each reason says of an intent, a clock and the ids seen.
abbrev pub applies : SignalValidator → ℤ → TradeIntent → List String → ValidationReason → Bool
applies v now intent seen ValidationReason.unknown_symbol =
    not (is_in (v.upper intent.symbol) supported_futures_symbols)
applies v now intent seen ValidationReason.symbol_mismatch =
    is_in (v.upper intent.symbol) supported_futures_symbols
    && not (str_eq (v.upper intent.symbol) v.configured_symbol)
applies v now intent seen ValidationReason.duplicate = is_in intent.intent_id seen
applies v now intent seen ValidationReason.stale =
    not (ltb_ℤ (now -ℤ intent.created_at) (pos 0))
    && ltb_ℤ v.max_signal_age (now -ℤ intent.created_at)
applies v now intent seen ValidationReason.future = ltb_ℤ (now -ℤ intent.created_at) (pos 0)
applies v now intent seen ValidationReason.strategy_mismatch =
    not (is_in (v.lower intent.strategy_name) v.known_strategies)
applies v now intent seen ValidationReason.position_unreasonable =
    ltb absolute_position_sanity_limit (nat_abs intent.requested_position)

-- The reason `k`, if that is `r` and it applies.
abbrev added :
    SignalValidator → ℤ → TradeIntent → List String → ValidationReason → ValidationReason → Bool
added v now intent seen r k = applies v now intent seen k && r is k

module _ (v : SignalValidator) (now : ℤ) (intent : TradeIntent) (seen : List String)
    (r : ValidationReason) where
  contains-check_symbol :
      (reasons : List ValidationReason)
      → contains r (check_symbol v now intent reasons) ≡ (
          contains r reasons
          || added v now intent seen r ValidationReason.unknown_symbol
          || added v now intent seen r ValidationReason.symbol_mismatch)
  unfolding check_symbol
  contains-check_symbol reasons = ground (
    arith,
    contains-append_if r ValidationReason.unknown_symbol true reasons,
    contains-append_if r ValidationReason.symbol_mismatch
        (not (str_eq (v.upper intent.symbol) v.configured_symbol)) reasons,
  )

  contains-check_age :
      (reasons : List ValidationReason)
      → contains r (check_age v now intent reasons) ≡ (
          contains r reasons
          || added v now intent seen r ValidationReason.future
          || added v now intent seen r ValidationReason.stale)
  unfolding check_age
  contains-check_age reasons = ground (
    arith,
    contains-append_if r ValidationReason.future true reasons,
    contains-append_if r ValidationReason.stale (ltb_ℤ v.max_signal_age (now -ℤ intent.created_at))
        reasons,
  )

  contains-check_strategy :
      (reasons : List ValidationReason)
      → contains r (check_strategy v now intent reasons)
        ≡ (contains r reasons || added v now intent seen r ValidationReason.strategy_mismatch)
  unfolding check_strategy
  contains-check_strategy reasons = simp (contains-append_if)

  contains-check_position :
      (reasons : List ValidationReason)
      → contains r (check_position v now intent reasons)
        ≡ (contains r reasons || added v now intent seen r ValidationReason.position_unreasonable)
  unfolding check_position
  contains-check_position reasons = simp (contains-append_if)

  contains-check_duplicate :
      (reasons : List ValidationReason)
      → contains r (check_duplicate v now intent seen reasons)
        ≡ (contains r reasons || added v now intent seen r ValidationReason.duplicate)
  unfolding check_duplicate
  contains-check_duplicate reasons = simp (contains-append_if)

ruleset check_laws = (
  contains-check_symbol, contains-check_age, contains-check_strategy, contains-check_position,
  contains-check_duplicate, and-true, and-false, or-false,
)

collected :
    (v : SignalValidator) (now : ℤ) (intent : TradeIntent) (seen : List String)
    (r : ValidationReason)
    → contains r (collect_reasons v now intent seen) ≡ applies v now intent seen r
unfolding collect_reasons
collected v now intent seen ValidationReason.unknown_symbol = simp check_laws
collected v now intent seen ValidationReason.symbol_mismatch = simp check_laws
collected v now intent seen ValidationReason.duplicate = simp check_laws
collected v now intent seen ValidationReason.stale = simp check_laws
collected v now intent seen ValidationReason.future = simp check_laws
collected v now intent seen ValidationReason.strategy_mismatch = simp check_laws
collected v now intent seen ValidationReason.position_unreasonable = simp check_laws

-- Whatever was seen so far, a reason is given exactly when what it says of the intent is so.
pub validate-reasons :
    (v : SignalValidator) (now : ℤ) (intent : TradeIntent) (seen : List String)
    (r : ValidationReason)
    → contains r (validate v now intent seen).0.reasons ≡ applies v now intent seen r
unfolding validate
validate-reasons v now intent seen r = collected v now intent seen r
