-- ===== src/Posture/Approved.antt =====
-- app/safety/posture.py: what an approved posture says of the process, and that it fails closed.
use pgjp_trading.Prelude.{
  String, Bool, true, false, ◌&&◌, List, [], ◌∷◌, all, ◌≡◌, ◌↔◌, arith, str_eq, eq_iff, Bool-cases,
  inl, inr, ◌⊎◌,
}
use pgjp_trading.Prelude.Int.{pos}
use pgjp_trading.Decimal.{is_zero_decimal}
use pgjp_trading.Enums.{TradingMode, trading_mode_enumeration}
use pgjp_trading.Config.{Config}
use pgjp_trading.Posture.{
  PostureCheck, expected_check_names, evaluate_posture, posture_is_approved, are_within, has_name,
  names_of,
}

-- Mock mode with every switch off, the kill switch engaged, and no limit set.
pub record IsLockedDown (c : Config) (engaged : Bool) : Type 0 where
  pub mode : c.trading_mode ≡ TradingMode.mock
  pub transmit : c.allow_order_transmit ≡ false
  pub live : c.live_trading_enabled ≡ false
  pub kill_switch : engaged ≡ true
  pub permission : c.sol_futures_permission_ready ≡ false
  pub position : c.risk.max_position_contracts ≡ pos 0
  pub order_size : c.risk.max_order_size ≡ pos 0
  pub daily_loss : is_zero_decimal c.risk.max_daily_loss_usd ≡ true
  pub orders_per_hour : c.risk.max_orders_per_hour ≡ pos 0
  pub open_orders : c.risk.max_open_orders ≡ pos 0
  pub notional_exposure : is_zero_decimal c.risk.max_notional_exposure_usd ≡ true

-- The checks of the running process are approved exactly when it is in mock mode, with transmission,
-- live trading and the declared permission off, the kill switch engaged, and every limit zero.
pub posture_is_approved-evaluate_posture :
    (c : Config) (engaged : Bool)
    → (posture_is_approved (evaluate_posture c engaged) ≡ true) ↔ IsLockedDown c engaged
unfolding posture_is_approved evaluate_posture
posture_is_approved-evaluate_posture c engaged = (
  λ h. record {
    mode = ground (arith, h);
    transmit = ground (arith, h);
    live = ground (arith, h);
    kill_switch = ground (arith, h);
    permission = ground (arith, h);
    position = ground (arith, h);
    order_size = ground (arith, h);
    daily_loss = ground (arith, h);
    orders_per_hour = ground (arith, h);
    open_orders = ground (arith, h);
    notional_exposure = ground (arith, h);
  },
  λ v. ground (
    arith, v.mode, v.transmit, v.live, v.kill_switch, v.permission, v.position, v.order_size,
    v.daily_loss, v.orders_per_hour, v.open_orders, v.notional_exposure,
  ),
)

-- A check of the name stands in the list and passes.
abbrev pub Passes : String → List PostureCheck → Type 0
Passes name [] = ⊥
Passes name (k ∷ checks) = ((k.name ≡ name) × (k.ok ≡ true)) ⊎ Passes name checks

all-Passes :
    (name : String) (checks : List PostureCheck)
    → has_name name (names_of checks) ≡ true
    → all (λ (k : PostureCheck). k.ok) checks ≡ true
    → Passes name checks
all-Passes name [] h a = cc
all-Passes name (k ∷ checks) h a = elim (Bool-cases (str_eq k.name name)) [
  | inl e ↦ inl ((eq_iff k.name name).0 e, ground (arith, a))
  | inr e ↦ inr (all-Passes name checks (rw e at h) (ground (arith, a)))
]

within-has_name :
    (name : String) (names others : List String)
    → are_within names others ≡ true
    → has_name name names ≡ true
    → has_name name others ≡ true
within-has_name name [] others w h = cc
within-has_name name (n ∷ names) others w h = elim (Bool-cases (str_eq n name)) [
  | inl e ↦ rw (← (eq_iff n name).0 e) (ground (arith, w))
  | inr e ↦ within-has_name name names others (ground (arith, w)) (rw e at h)
]

approved_parts : (a b d : Bool) → (a && b && d) ≡ true → (b ≡ true) × (d ≡ true)
approved_parts a b d h = (ground (arith, h), ground (arith, h))

-- Any list of checks that is approved, wherever it comes from, has a passing check for each expected
-- name, so an empty or truncated list is never approved.
pub posture_is_approved-Passes :
    (checks : List PostureCheck) (name : String)
    → posture_is_approved checks ≡ true
    → has_name name expected_check_names ≡ true
    → Passes name checks
unfolding posture_is_approved
posture_is_approved-Passes checks name h e =
    let parts =
      approved_parts (are_within (names_of checks) expected_check_names)
        (are_within expected_check_names (names_of checks))
        (all (λ (k : PostureCheck). k.ok) checks) h in
    all-Passes name checks (within-has_name name expected_check_names (names_of checks) parts.0 e)
      parts.1
