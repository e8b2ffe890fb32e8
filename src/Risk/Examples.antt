-- ===== src/Risk/Examples.antt =====
-- The theorems on the risk manager at concrete inputs.
use pgjp_trading.Decimal.{le_decimal, lt_decimal, neg_decimal, mul_decimal, abs_decimal}
use pgjp_trading.Prelude.Int.{◌+ℤ◌, ◌*ℤ◌}
use pgjp_trading.Contract.{notional}
use pgjp_trading.Prelude.{◌≡◌, refl, true, some, []}
use pgjp_trading.Risk.{
  check_market_data, RiskDecision, evaluate, decide_risk, check_notional_exposure, collect_reasons,
  check_numeric_limits, extend, check_order_size, check_position_size, check_daily_loss,
  check_orders_per_hour, check_open_orders, check_account, check_age, check_contract,
  check_contract_of, check_duplicates, check_expected, check_identity, check_market_data,
  check_master_controls, check_permissions, check_system_state,
}
use pgjp_trading.Samples.{armed, risk_context}

abbrev pub approval : RiskDecision
approval = record { approved = true; reasons = [] }

pub approves : evaluate armed risk_context ≡ some approval
unfolding evaluate decide_risk check_notional_exposure le_decimal lt_decimal notional
    collect_reasons check_numeric_limits extend check_order_size check_position_size ◌+ℤ◌ ◌*ℤ◌
    check_daily_loss neg_decimal check_orders_per_hour check_open_orders mul_decimal abs_decimal
    check_account check_age check_contract check_contract_of check_duplicates check_expected
    check_identity check_market_data check_master_controls check_permissions check_system_state
approves = refl
