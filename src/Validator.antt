-- ===== src/Validator.antt =====
-- app/signals/validator.py: the first check of an intent. `upper` and `lower` stand for `str.upper`
-- and `str.lower`; times and ages are in microseconds.
pub mod Reasons
pub mod Once
use pgjp_trading.Prelude.{
  ℕ, String, Bool, true, false, not, ◌||◌, ◌&&◌, List, [], ◌∷◌, map, if◌then◌else◌, str_eq, any,
  is_empty, ltb, ◌is◌, Enumeration, append_if,
}
use pgjp_trading.Prelude.Int.{ℤ, pos, ◌-ℤ◌, ltb_ℤ, nat_abs}
use pgjp_trading.Intent.{TradeIntent}

pub data ValidationReason : Type 0 where
  unknown_symbol symbol_mismatch duplicate stale future strategy_mismatch position_unreasonable :
      ValidationReason

instance abbrev pub validation_reason_enumeration : Enumeration ValidationReason
validation_reason_enumeration = record {
  index = elim [
    | unknown_symbol ↦ 0
    | symbol_mismatch ↦ 1
    | duplicate ↦ 2
    | stale ↦ 3
    | future ↦ 4
    | strategy_mismatch ↦ 5
    | position_unreasonable ↦ 6
  ];
}

-- `x in items`
abbrev pub is_in : String → List String → Bool
is_in x items = any (λ i. str_eq i x) items

abbrev pub supported_futures_symbols : List String
supported_futures_symbols = "MSL" ∷ "SOL" ∷ []

abbrev pub absolute_position_sanity_limit : ℕ
absolute_position_sanity_limit = 10000

-- The fields that a `SignalValidator` is built with.
pub record SignalValidator : Type 0 where
  pub upper : String → String
  pub lower : String → String
  pub configured_symbol : String
  pub known_strategies : List String
  pub max_signal_age : ℤ

-- `SignalValidator.__init__`
unfoldable pub new :
    (String → String) → (String → String) → String → List String → ℤ → SignalValidator
new upper lower configured_symbol known_strategies max_signal_age = record {
  upper = upper;
  lower = lower;
  configured_symbol = upper configured_symbol;
  known_strategies = map lower known_strategies;
  max_signal_age = max_signal_age;
}

pub record SignalValidation : Type 0 where
  pub accepted : Bool
  pub reasons : List ValidationReason

-- `SignalValidator.seed_seen`
unfoldable pub seed_seen : List String → List String → List String
seed_seen [] seen = seen
seed_seen (id ∷ ids) seen = seed_seen ids (id ∷ seen)

module _ (v : SignalValidator) (now : ℤ) (intent : TradeIntent) where
  unfoldable pub check_symbol : List ValidationReason → List ValidationReason
  check_symbol reasons =
      let symbol = v.upper intent.symbol in
      if not (is_in symbol supported_futures_symbols)
      then append_if true ValidationReason.unknown_symbol reasons
      else append_if (not (str_eq symbol v.configured_symbol)) ValidationReason.symbol_mismatch
          reasons

  unfoldable pub check_age : List ValidationReason → List ValidationReason
  check_age reasons =
      let age = now -ℤ intent.created_at in
      if ltb_ℤ age (pos 0)
      then append_if true ValidationReason.future reasons
      else append_if (ltb_ℤ v.max_signal_age age) ValidationReason.stale reasons

  unfoldable pub check_strategy : List ValidationReason → List ValidationReason
  check_strategy reasons =
      append_if (not (is_in (v.lower intent.strategy_name) v.known_strategies))
        ValidationReason.strategy_mismatch reasons

  unfoldable pub check_position : List ValidationReason → List ValidationReason
  check_position reasons =
      append_if (ltb absolute_position_sanity_limit (nat_abs intent.requested_position))
        ValidationReason.position_unreasonable reasons

  unfoldable pub check_duplicate : List String → List ValidationReason → List ValidationReason
  check_duplicate seen reasons =
      append_if (is_in intent.intent_id seen) ValidationReason.duplicate reasons

  unfoldable pub collect_reasons : List String → List ValidationReason
  collect_reasons seen =
      check_duplicate seen (check_position (check_age (check_strategy (check_symbol []))))

  -- `SignalValidator.validate`, with the set of the ids seen.
  unfoldable pub validate : List String → SignalValidation × List String
  validate seen =
      let reasons = collect_reasons seen in
      let accepted = is_empty reasons in
      (
        record { accepted = accepted; reasons = reasons },
        if accepted then intent.intent_id ∷ seen else seen,
      )
