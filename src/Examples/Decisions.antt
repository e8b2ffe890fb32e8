-- ===== src/Examples/Decisions.antt =====
-- The theorems on the transmit gate, the risk manager, the kill switch and the signal validator at
-- concrete inputs.
use pgjp_trading.Prelude.{
  inl, inr, ◌≡◌, ◌≤◌, ◌↔◌, ◌⊎◌, refl, true, false, Option, none, some, [], ◌∷◌, contains, String,
  arith,
}
use pgjp_trading.Prelude.Int.{pos}
use pgjp_trading.Decimal.{lt_decimal}
use pgjp_trading.Gate
use pgjp_trading.Gate.{GateReason, gate_reason_enumeration}
use pgjp_trading.Gate.Interlocks.{evaluate-interlocks}
use pgjp_trading.Gate.Clearance.{Clearance, evaluate-allowed_iff}
use pgjp_trading.Risk
use pgjp_trading.Risk.{unconfigured_limits, RiskContext, RiskReason, risk_reason_enumeration}
use pgjp_trading.Risk.Controls.{evaluate-controls}
use pgjp_trading.Risk.Approval.{evaluate-approved_iff, LacksMultiplier, evaluate-raises_iff}
use pgjp_trading.Risk.Conditions.{WithinControls, WithinLimits}
use pgjp_trading.Risk.Examples.{approval, approves}
use pgjp_trading.KillSwitch.{
  Reading, engaged, engage, get_state, state_key, is_true_text, set_state,
}
use pgjp_trading.KillSwitch.Latch.{Write, write_all, engaged-off_iff, engage-latches}
use pgjp_trading.Validator.{SignalValidator, validation_reason_enumeration}
use pgjp_trading.Validator.Once.{validate_all, accepted_of, validate_all-once}
use pgjp_trading.Samples.{armed, contract, intent, risk_context, gate_context}

-- The sample context clears the gate.
pub cleared : (Gate.evaluate armed gate_context).allowed ≡ true
cleared = (evaluate-allowed_iff armed gate_context).1 (record {
  kill_switch_off = refl;
  transmit_allowed = refl;
  live_enabled = λ e. cc;
  account_expected = refl;
  ready = refl;
  connected = refl;
  account_available = refl;
  qualified = refl;
  dated = refl;
  positions_reconciled = refl;
  orders_reconciled = refl;
  age_configured = omega arith;
  fresh = (omega arith, omega arith);
  real_time = refl;
  permission_declared = λ e. elim e [ inl f ↦ cc | inr f ↦ cc ];
  permission_at_broker = refl;
  strategy_configured = refl;
  strategy_on = refl;
  risk_approved = refl;
})

evaluate-allowed_iff_example :
    ((Gate.evaluate armed gate_context).allowed ≡ true) ↔ Clearance armed gate_context
evaluate-allowed_iff_example = evaluate-allowed_iff armed gate_context

evaluate-interlocks_example :
    contains GateReason.account_unavailable
      (Gate.evaluate armed (record gate_context { account_available = false })).reasons
    ≡ true
evaluate-interlocks_example =
    evaluate-interlocks armed (record gate_context { account_available = false })
      GateReason.account_unavailable

evaluate-approved_iff_example :
    (approval.approved ≡ true)
    ↔ (WithinControls armed risk_context × WithinLimits armed risk_context)
evaluate-approved_iff_example = evaluate-approved_iff armed risk_context approval approves

evaluate-controls_example : contains RiskReason.kill_switch approval.reasons ≡ false
evaluate-controls_example =
    evaluate-controls armed risk_context RiskReason.kill_switch approval approves

-- A contract whose multiplier is no number.
abbrev unpriced : RiskContext
unpriced = record risk_context { contract = some (record contract { multiplier = none }) }

evaluate-raises_iff_example :
    (Risk.evaluate armed unpriced ≡ none)
    ↔ LacksMultiplier armed.risk.max_notional_exposure_usd unpriced.contract
        unpriced.reference_price
evaluate-raises_iff_example = evaluate-raises_iff armed unpriced

-- It does raise.
raises : Risk.evaluate armed unpriced ≡ none
unfolding lt_decimal
raises = evaluate-raises_iff_example.1 (refl, refl, refl)

engaged-off_iff_example : (engaged false (some Reading.raised) ≡ false) ↔ (
    (false ≡ false)
    × ((some Reading.raised ≡ none)
        ⊎ ((v : Option String) × (some Reading.raised ≡ some (Reading.returned v))
            × (is_true_text v ≡ false))))
engaged-off_iff_example = engaged-off_iff false (some Reading.raised)

engage-latches_example :
    engaged false (
      some (
        Reading.returned (
          get_state state_key (
            write_all (Write.other "last_run_id" "run_2" refl ∷ []) (
              set_state "kill_switch_engaged_at" "t"
                (set_state "kill_switch_reason" "drill" (set_state state_key "true" [])))))))
    ≡ true
unfolding engage
engage-latches_example =
    engage-latches "drill" "t" [] _ (Write.other "last_run_id" "run_2" refl ∷ []) false refl

abbrev validator : SignalValidator
validator = record {
  upper = λ s. s;
  lower = λ s. s;
  configured_symbol = "MSL";
  known_strategies = "operator" ∷ [];
  max_signal_age = pos 60000000;
}

validate_all-once_example :
    accepted_of "int_1"
      (validate_all validator ((pos 2000000, intent) ∷ (pos 3000000, intent) ∷ []) [])
    ≤ 1
validate_all-once_example =
    validate_all-once validator "int_1" ((pos 2000000, intent) ∷ (pos 3000000, intent) ∷ []) []
