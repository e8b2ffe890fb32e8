-- ===== src/Validator/Once.antt =====
-- app/signals/validator.py: an intent is accepted once.
use pgjp_trading.Prelude.{
  ℕ, suc, ◌≤◌, String, true, false, ◌&&◌, List, [], ◌∷◌, ◌≡◌, refl, ap, arith, if◌then◌else◌,
  str_eq, eq_iff, is_empty-append_if, Bool-cases, inl, inr,
}
use pgjp_trading.Prelude.Int.{ℤ}
use pgjp_trading.Intent.{TradeIntent}
use pgjp_trading.Validator.{
  ValidationReason, validation_reason_enumeration, is_in, SignalValidator, SignalValidation,
  check_duplicate, check_position, check_age, check_strategy, check_symbol, collect_reasons,
  validate, seed_seen,
}

-- Intents validated one after the other, each at its time: the validations and the ids seen.
unfoldable pub validate_all :
    SignalValidator → List (ℤ × TradeIntent) → List String → List (TradeIntent × SignalValidation)
validate_all v [] seen = []
validate_all v ((now, intent) ∷ rest) seen =
    let (validation, seen') = validate v now intent seen in
    (intent, validation) ∷ validate_all v rest seen'

-- How often an intent id is accepted.
abbrev pub accepted_of : String → List (TradeIntent × SignalValidation) → ℕ
accepted_of id [] = 0
accepted_of id ((intent, validation) ∷ rest) =
    let n = accepted_of id rest in
    if validation.accepted && str_eq intent.intent_id id then suc n else n

-- An id that was seen is refused.
accepted-unseen :
    (v : SignalValidator) (now : ℤ) (intent : TradeIntent) (seen : List String)
    → (validate v now intent seen).0.accepted ≡ true
    → is_in intent.intent_id seen ≡ false
unfolding validate collect_reasons check_duplicate
accepted-unseen v now intent seen h = ground (
  arith,
  h,
  is_empty-append_if ValidationReason.duplicate (is_in intent.intent_id seen) (
      check_position v now intent
        (check_age v now intent (check_strategy v now intent (check_symbol v now intent [])))),
)

-- What the set of the ids seen becomes.
validate-seen :
    (v : SignalValidator) (now : ℤ) (intent : TradeIntent) (seen : List String)
    → (validate v now intent seen).1
      ≡ (if (validate v now intent seen).0.accepted then intent.intent_id ∷ seen else seen)
unfolding validate
validate-seen v now intent seen = refl

seen-never :
    (v : SignalValidator) (id : String) (items : List (ℤ × TradeIntent)) (seen : List String)
    → is_in id seen ≡ true
    → accepted_of id (validate_all v items seen) ≡ 0
unfolding validate_all
seen-never v id [] seen h = refl
seen-never v id ((now, intent) ∷ rest) seen h =
    elim (Bool-cases (validate v now intent seen).0.accepted) [
      | inl e ↦ elim (Bool-cases (str_eq intent.intent_id id)) [
        | inl f ↦ cc (
          accepted-unseen v now intent seen e,
          ap (λ i. is_in i seen) ((eq_iff intent.intent_id id).0 f),
          h,
        )
        | inr f ↦
            rw (validate-seen v now intent seen, e, f)
              (seen-never v id rest (intent.intent_id ∷ seen) (rw f h))
      ]
      | inr e ↦ rw (validate-seen v now intent seen, e) (seen-never v id rest seen h)
    ]

-- However many intents are validated, at whatever times, an intent id is accepted at most once.
pub validate_all-once :
    (v : SignalValidator) (id : String) (items : List (ℤ × TradeIntent)) (seen : List String)
    → accepted_of id (validate_all v items seen) ≤ 1
unfolding validate_all
validate_all-once v id [] seen = omega arith
validate_all-once v id ((now, intent) ∷ rest) seen =
    elim (Bool-cases (validate v now intent seen).0.accepted) [
      | inl e ↦ elim (Bool-cases (str_eq intent.intent_id id)) [
        | inl f ↦
            rw (validate-seen v now intent seen, e, f)
              (omega (arith, seen-never v id rest (intent.intent_id ∷ seen) (rw f refl)))
        | inr f ↦
            rw (validate-seen v now intent seen, e, f)
              (validate_all-once v id rest (intent.intent_id ∷ seen))
      ]
      | inr e ↦ rw (validate-seen v now intent seen, e) (validate_all-once v id rest seen)
    ]

seed_seen-keeps :
    (id : String) (ids seen : List String)
    → is_in id seen ≡ true
    → is_in id (seed_seen ids seen) ≡ true
unfolding seed_seen
seed_seen-keeps id [] seen h = h
seed_seen-keeps id (i ∷ ids) seen h = seed_seen-keeps id ids (i ∷ seen) (ground (arith, h))

seed_seen-all :
    (id : String) (ids seen : List String)
    → is_in id ids ≡ true
    → is_in id (seed_seen ids seen) ≡ true
unfolding seed_seen
seed_seen-all id [] seen h = cc
seed_seen-all id (i ∷ ids) seen h = elim (Bool-cases (str_eq i id)) [
  | inl e ↦ seed_seen-keeps id ids (i ∷ seen) (rw e refl)
  | inr e ↦ seed_seen-all id ids (i ∷ seen) (rw e at h)
]

-- An intent id that the set was seeded with, as after a restart, is never accepted.
pub validate_all-seeded :
    (v : SignalValidator) (id : String) (items : List (ℤ × TradeIntent)) (ids seen : List String)
    → is_in id ids ≡ true
    → accepted_of id (validate_all v items (seed_seen ids seen)) ≡ 0
validate_all-seeded v id items ids seen h =
    seen-never v id items (seed_seen ids seen) (seed_seen-all id ids seen h)
