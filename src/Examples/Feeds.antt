-- ===== src/Examples/Feeds.antt =====
-- The theorems on market data and on the posture at concrete inputs.
use pgjp_trading.Prelude.{◌≡◌, ◌↔◌, refl, true, false, none, some, List, [], ◌∷◌}
use pgjp_trading.Prelude.Int.{pos, ◌-ℤ◌}
use pgjp_trading.Decimal.{of_int}
use pgjp_trading.Broker.{MarketDataTick}
use pgjp_trading.Config.{Config}
use pgjp_trading.Gate.{GateContext}
use pgjp_trading.MarketData.{MarketDataManager, TickReply, quote_of, age_seconds, is_fresh, clear}
use pgjp_trading.MarketData.Freshness.{AgePasses, is_fresh-gate_iff, Call, call_all, clear-stale}
use pgjp_trading.Posture.{PostureCheck, evaluate_posture, posture_is_approved}
use pgjp_trading.Posture.Approved.{IsLockedDown, posture_is_approved-evaluate_posture}
use pgjp_trading.Samples.{armed, contract, gate_context}

abbrev tick : MarketDataTick
tick = record {
  contract_key = "conid:900000001";
  received_at = pos 1000000;
  source = "mock";
  bid = some (of_int (pos 149));
  ask = some (of_int (pos 151));
  last = none;
  is_delayed = false;
}

abbrev manager : MarketDataManager
manager = record {
  max_age = pos 5000000;
  quotes = (pos 900000001, quote_of contract tick) ∷ [];
  subscribed = (pos 900000001, contract) ∷ [];
  permission_denied = [];
  requested = [];
}

-- The gate's context with the age of the manager's quote, one second.
abbrev aged : GateContext
aged = record gate_context { market_data_age_seconds = some (pos 1000000) }

abbrev limited : Config
limited = record armed { market_data_max_age_seconds = pos 5000000 }

is_fresh-gate_iff_example :
    (is_fresh (pos 900000001) (pos 2000000) manager ≡ true) ↔ AgePasses limited aged
unfolding age_seconds ◌-ℤ◌
is_fresh-gate_iff_example =
    is_fresh-gate_iff limited aged (pos 900000001) (pos 2000000) manager refl refl

-- A poll that brings a bid alone.
abbrev half_tick : Call
half_tick = Call.polling (λ c. TickReply.ticked (record tick { ask = none })) contract

clear-stale_example :
    (age_seconds (pos 900000001) (pos 2000000) (call_all (half_tick ∷ []) (clear manager)) ≡ none)
    × (is_fresh (pos 900000001) (pos 2000000) (call_all (half_tick ∷ []) (clear manager)) ≡ false)
clear-stale_example = clear-stale (half_tick ∷ []) (pos 900000001) (pos 2000000) manager (refl, tt)

posture_is_approved-evaluate_posture_example :
    (posture_is_approved (evaluate_posture armed true) ≡ true) ↔ IsLockedDown armed true
posture_is_approved-evaluate_posture_example = posture_is_approved-evaluate_posture armed true

-- The twelve checks, all passing.
abbrev passing : List PostureCheck
passing =
    record { name = "TRADING_MODE"; ok = true }
    ∷ record { name = "ALLOW_ORDER_TRANSMIT"; ok = true }
    ∷ record { name = "LIVE_TRADING_ENABLED"; ok = true }
    ∷ record { name = "KILL_SWITCH"; ok = true }
    ∷ record { name = "SOL_FUTURES_PERMISSION_READY"; ok = true }
    ∷ record { name = "MAX_POSITION_CONTRACTS"; ok = true }
    ∷ record { name = "MAX_ORDER_SIZE"; ok = true }
    ∷ record { name = "MAX_DAILY_LOSS_USD"; ok = true }
    ∷ record { name = "MAX_ORDERS_PER_HOUR"; ok = true }
    ∷ record { name = "MAX_OPEN_ORDERS"; ok = true }
    ∷ record { name = "MAX_NOTIONAL_EXPOSURE_USD"; ok = true }
    ∷ record { name = "CAN_TRANSMIT_LIVE_ORDERS"; ok = true }
    ∷ []

passing-approved : posture_is_approved passing ≡ true
unfolding posture_is_approved
passing-approved = refl
