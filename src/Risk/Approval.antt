-- ===== src/Risk/Approval.antt =====
-- app/risk/manager.py: what an approval guarantees, and when there is none.
use pgjp_trading.Prelude.{
  ◌≡◌, refl, inl, inr, Option-cases, sym, ap, ◌∙◌, true, false, Option, none, some, [], arith,
  contains, ◌↔◌, not_contains_nil, is_empty, not, Bool, is_empty-append_if, ◌&&◌,
}
use pgjp_trading.Prelude.Int.{ℤ, pos, leb_ℤ, ltb_ℤ}
use pgjp_trading.Decimal.{Decimal, zero_decimal, lt_decimal, le_decimal}
use pgjp_trading.Config.{Config, all_configured, RiskLimits}
use pgjp_trading.Contract.{QualifiedContract, notional}
use pgjp_trading.Risk.Reason.{RiskReason, risk_reason_enumeration}
use pgjp_trading.Risk.{
  RiskContext, RiskDecision, projected_position, evaluate, decide_risk, exposure_of,
  check_notional_exposure, unconfigured_limits,
}
use pgjp_trading.Risk.Controls.{evaluate-controls}
use pgjp_trading.Risk.Failures.{fails, is_unpriceable, is_above, exposure_at}
use pgjp_trading.Risk.Conditions.{IsAffordable, WithinLimits, WithinControls}

-- `not (a <= b)` is `b < a`, and `not (a < b)` is `b <= a`.
lt_of_not_le : (a b : Decimal) → le_decimal a b ≡ false → lt_decimal b a ≡ true
unfolding lt_decimal le_decimal
lt_of_not_le a b h = ground arith

le_of_not_lt : (a b : Decimal) → lt_decimal a b ≡ false → le_decimal b a ≡ true
unfolding lt_decimal le_decimal
le_of_not_lt a b h = ground arith

decided-eq_nil :
    (c : Config) (ctx : RiskContext) (d : RiskDecision) (exposure : Option (Option RiskReason))
    → decide_risk c ctx exposure ≡ some d
    → d.approved ≡ true
    → d.reasons ≡ []
unfolding decide_risk
decided-eq_nil c ctx d none e h = cc
decided-eq_nil c ctx d (some outcome) e h = ground arith

approved-holds :
    (c : Config) (ctx : RiskContext) (d : RiskDecision)
    → evaluate c ctx ≡ some d
    → d.approved ≡ true
    → (r : RiskReason) → fails c ctx r ≡ false
unfolding evaluate
approved-holds c ctx d e h r =
    sym (evaluate-controls c ctx r d e)
    ∙ ap (contains r) (decided-eq_nil c ctx d (exposure_of c ctx) e h)

IsAffordable-of_tests :
    (ceiling : Decimal) (contract : Option QualifiedContract) (position : ℤ)
    (price : Option Decimal)
    → is_unpriceable contract price ≡ false
    → is_above ceiling (exposure_at contract position price) ≡ false
    → IsAffordable ceiling contract position price
IsAffordable-of_tests ceiling none position price p a = cc
IsAffordable-of_tests ceiling (some contract) position none p a = cc
IsAffordable-of_tests ceiling (some contract) position (some price) p a =
    (lt_of_not_le _ _ p, λ exposure e. le_of_not_lt _ _ (ground (arith, e)))

not_le_of_lt : (a b : Decimal) → lt_decimal b a ≡ true → le_decimal a b ≡ false
unfolding lt_decimal le_decimal
not_le_of_lt a b h = ground arith

not_lt_of_le : (a b : Decimal) → le_decimal b a ≡ true → lt_decimal a b ≡ false
unfolding lt_decimal le_decimal
not_lt_of_le a b h = ground arith

priced_of_affordable :
    (ceiling : Decimal) (contract : Option QualifiedContract) (position : ℤ)
    (price : Option Decimal)
    → IsAffordable ceiling contract position price
    → is_unpriceable contract price ≡ false
priced_of_affordable ceiling none position price v = absurd v
priced_of_affordable ceiling (some contract) position none v = absurd v
priced_of_affordable ceiling (some contract) position (some price) v = not_le_of_lt _ _ v.0

below_of_affordable :
    (ceiling : Decimal) (contract : Option QualifiedContract) (position : ℤ)
    (price : Option Decimal)
    → IsAffordable ceiling contract position price
    → is_above ceiling (exposure_at contract position price) ≡ false
below_of_affordable ceiling none position price v = refl
below_of_affordable ceiling (some contract) position none v = refl
below_of_affordable ceiling (some contract) position (some price) v =
    elim (Option-cases (notional contract position price)) [
      | inl e ↦ ground (arith, e)
      | inr (exposure, e) ↦ ground (arith, e, not_lt_of_le ceiling exposure (v.1 exposure e))
    ]

module _ (c : Config) (ctx : RiskContext) (holds : (r : RiskReason) → fails c ctx r ≡ false) where
  IsAffordable-of_holds :
      IsAffordable c.risk.max_notional_exposure_usd ctx.contract
        (projected_position ctx)
        ctx.reference_price
  IsAffordable-of_holds =
      IsAffordable-of_tests c.risk.max_notional_exposure_usd ctx.contract (projected_position ctx)
        ctx.reference_price
        (ground
          (arith, holds RiskReason.notional_not_configured, holds RiskReason.notional_unpriceable))
        (ground (
          arith,
          holds RiskReason.notional_not_configured,
          holds RiskReason.notional_unpriceable,
          holds RiskReason.notional_exceeded,
        ))

  within_of_holds : WithinLimits c ctx
  within_of_holds = record {
    quantity_positive = ground (arith, holds RiskReason.quantity_invalid);
    size_set = ground (arith, holds RiskReason.order_size_not_configured);
    size_kept =
        ground
          (arith, holds RiskReason.order_size_not_configured, holds RiskReason.order_size_exceeded);
    position_set = ground (arith, holds RiskReason.position_not_configured);
    position_kept =
        ground
          (arith, holds RiskReason.position_not_configured, holds RiskReason.position_exceeded);
    loss_set = lt_of_not_le _ _ (holds RiskReason.daily_loss_not_configured);
    loss_kept = lt_of_not_le _ _ (
        ground (
          arith,
          holds RiskReason.daily_loss_not_configured,
          holds RiskReason.daily_loss_exceeded,
        ));
    rate_set = ground (arith, holds RiskReason.orders_per_hour_not_configured);
    rate_kept = ground (
      arith,
      holds RiskReason.orders_per_hour_not_configured,
      holds RiskReason.orders_per_hour_exceeded,
    );
    open_set = ground (arith, holds RiskReason.open_orders_not_configured);
    open_kept =
        ground (
          arith,
          holds RiskReason.open_orders_not_configured,
          holds RiskReason.open_orders_exceeded,
        );
    exposure_set = lt_of_not_le _ _ (holds RiskReason.notional_not_configured);
    exposure_kept = IsAffordable-of_holds;
  }

  controls_of_holds : WithinControls c ctx
  controls_of_holds = record {
    switch_off = ground (arith, holds RiskReason.kill_switch);
    configured_switch_off = ground (arith, holds RiskReason.kill_switch);
    transmit_allowed = ground (arith, holds RiskReason.transmit_not_allowed);
    mode_enabled = λ e. ground (arith, holds RiskReason.trading_mode_disabled);
    strategy_configured = ground (arith, holds RiskReason.strategy_disabled);
    strategy_on = ground (arith, holds RiskReason.strategy_disabled);
    ready = ground (arith, holds RiskReason.app_not_ready);
    connected = ground (arith, holds RiskReason.broker_disconnected);
    positions_reconciled = ground (arith, holds RiskReason.positions_not_reconciled);
    orders_reconciled = ground (arith, holds RiskReason.orders_not_reconciled);
    account_available = ground (arith, holds RiskReason.account_unavailable);
    account =
        ground
          (arith, holds RiskReason.account_type_unknown, holds RiskReason.account_type_mismatch);
    qualified = ground (arith, holds RiskReason.contract_not_qualified);
    age_set = ground (arith, holds RiskReason.market_data_age_not_configured);
    recent = ground (
      arith,
      holds RiskReason.market_data_missing,
      holds RiskReason.market_data_stale,
      holds RiskReason.market_data_future,
      holds RiskReason.market_data_age_not_configured,
    );
    permission_declared = λ e. ground (arith, holds RiskReason.permission_not_ready);
    permission_at_broker = ground (arith, holds RiskReason.broker_permission_unknown);
    no_duplicate = holds RiskReason.duplicate_order;
  }

module _ (c : Config) (ctx : RiskContext) where
  holds_of_both :
      WithinControls c ctx → WithinLimits c ctx → (r : RiskReason) → fails c ctx r ≡ false
  holds_of_both v w RiskReason.kill_switch = ground arith
  holds_of_both v w RiskReason.daily_loss_not_configured = not_le_of_lt _ _ w.loss_set
  holds_of_both v w RiskReason.daily_loss_exceeded = ground (arith, not_le_of_lt _ _ w.loss_kept)
  holds_of_both v w RiskReason.notional_not_configured = not_le_of_lt _ _ w.exposure_set
  holds_of_both v w RiskReason.notional_unpriceable =
      ground (arith, priced_of_affordable _ _ _ _ w.exposure_kept)
  holds_of_both v w RiskReason.notional_exceeded =
      ground (arith, below_of_affordable _ _ _ _ w.exposure_kept)
  holds_of_both v w _ = ground arith

decided_of_nil :
    (c : Config) (ctx : RiskContext) (d : RiskDecision) (exposure : Option (Option RiskReason))
    → decide_risk c ctx exposure ≡ some d
    → d.reasons ≡ []
    → d.approved ≡ true
unfolding decide_risk
decided_of_nil c ctx d none e h = cc
decided_of_nil c ctx d (some outcome) e h = ground arith

-- Whenever the risk manager returns a decision, it approves if and only if every control and every
-- numeric limit is satisfied; so an approved order has every limit set, and keeps to each.
pub evaluate-approved_iff :
    (c : Config) (ctx : RiskContext) (d : RiskDecision)
    → evaluate c ctx ≡ some d
    → (d.approved ≡ true) ↔ (WithinControls c ctx × WithinLimits c ctx)
unfolding evaluate
evaluate-approved_iff c ctx d e = (
  λ h. (
    controls_of_holds c ctx (approved-holds c ctx d e h),
    within_of_holds c ctx (approved-holds c ctx d e h),
  ),
  λ v.
      decided_of_nil c ctx d (exposure_of c ctx) e
        (not_contains_nil _ (λ r. evaluate-controls c ctx r d e ∙ holds_of_both c ctx v.0 v.1 r)),
)

-- There is an exposure to compute, by a ceiling, a contract and a positive price, but the contract has
-- no numeric multiplier to compute it with.
abbrev pub LacksMultiplier : Decimal → Option QualifiedContract → Option Decimal → Type 0
LacksMultiplier ceiling none price = ⊥
LacksMultiplier ceiling (some contract) none = ⊥
LacksMultiplier ceiling (some contract) (some price) =
    (lt_decimal zero_decimal ceiling ≡ true)
    × (lt_decimal zero_decimal price ≡ true)
    × (contract.multiplier ≡ none)

decide_risk-none :
    (c : Config) (ctx : RiskContext) (exposure : Option (Option RiskReason))
    → (decide_risk c ctx exposure ≡ none) ↔ (exposure ≡ none)
unfolding decide_risk
decide_risk-none c ctx none = ground arith
decide_risk-none c ctx (some outcome) = ground arith

check_notional_exposure-none :
    (l : RiskLimits) (contract : Option QualifiedContract) (position : ℤ) (price : Option Decimal)
    → (check_notional_exposure l contract position price ≡ none)
      ↔ LacksMultiplier l.max_notional_exposure_usd contract price
unfolding check_notional_exposure notional lt_decimal le_decimal
check_notional_exposure-none l none position price = ground arith
check_notional_exposure-none l (some contract) position none = ground arith
check_notional_exposure-none l (some contract) position (some p) = ground arith

-- The risk manager returns no decision, since a check raises, in exactly one case: the exposure
-- ceiling is set, a contract is given whose multiplier is no number, and the reference price is
-- positive. On every other context it decides, whatever else is missing.
pub evaluate-raises_iff :
    (c : Config) (ctx : RiskContext)
    → (evaluate c ctx ≡ none)
      ↔ LacksMultiplier c.risk.max_notional_exposure_usd ctx.contract ctx.reference_price
unfolding evaluate
evaluate-raises_iff c ctx =
    let raises =
      check_notional_exposure-none c.risk ctx.contract (projected_position ctx)
        ctx.reference_price in
    (
      λ e. raises.0 ((decide_risk-none c ctx (exposure_of c ctx)).0 e),
      λ h. (decide_risk-none c ctx (exposure_of c ctx)).1 (raises.1 h),
    )

le_decimal-not_lt : (a b : Decimal) → not (le_decimal a b) ≡ lt_decimal b a
unfolding lt_decimal le_decimal
le_decimal-not_lt a b = ground arith

leb_ℤ-not_lt : (a b : ℤ) → not (leb_ℤ a b) ≡ ltb_ℤ b a
leb_ℤ-not_lt a b = ground arith

shuffle :
    (a b d e f g : Bool)
    → (((((b && a) && d) && e) && f) && g) ≡ (((((a && b) && d) && e) && f) && g)
shuffle a b d e f g = ground arith

-- The list of unconfigured limits is empty exactly when every limit is configured.
pub unconfigured_limits-all_configured :
    (l : RiskLimits) → is_empty (unconfigured_limits l) ≡ all_configured l
unfolding unconfigured_limits all_configured
unconfigured_limits-all_configured l =
    simp (is_empty-append_if, le_decimal-not_lt, leb_ℤ-not_lt)
      (shuffle (ltb_ℤ (pos 0) l.max_position_contracts) (ltb_ℤ (pos 0) l.max_order_size) _ _ _ _)
