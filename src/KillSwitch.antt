-- ===== src/KillSwitch.antt =====
-- app/safety/killswitch.py, and StateRepository of app/state/repositories.py, the store that it reads:
-- pairs of a key and a value. A read may raise: each read is a `Reading`.
pub mod Latch
use pgjp_trading.Prelude.{
  String, Bool, true, false, Option, none, some, List, [], ◌∷◌, if◌then◌else◌, str_eq, Result, ok,
  err,
}

abbrev pub StateTable : Type 0
StateTable = List (String × String)

-- `StateRepository.get_state`, where the database can be read.
abbrev pub get_state : String → StateTable → Option String
get_state key [] = none
get_state key ((k, v) ∷ rest) = if str_eq k key then some v else get_state key rest

-- `StateRepository.set_state`
unfoldable pub set_state : String → String → StateTable → StateTable
set_state key value [] = (key, value) ∷ []
set_state key value ((k, v) ∷ rest) =
    let later = set_state key value rest in
    if str_eq k key then (k, value) ∷ rest else (k, v) ∷ later

abbrev pub state_key : String
state_key = "kill_switch_latched"

abbrev pub reason_key : String
reason_key = "kill_switch_reason"

abbrev pub engaged_at_key : String
engaged_at_key = "kill_switch_engaged_at"

-- What a read of the store gives: it raises, or it returns a value or None.
pub data Reading : Type 0 where
  raised : Reading
  returned : Option String → Reading

-- `== "true"`
abbrev pub is_true_text : Option String → Bool
is_true_text none = false
is_true_text (some v) = str_eq v "true"

-- `KillSwitch.latched`, of the store's reading, if there is a store; an error where the read raises.
unfoldable pub latched : Option Reading → Result Unit Bool
latched none = ok false
latched (some Reading.raised) = err tt
latched (some (Reading.returned v)) = ok (is_true_text v)

or_engaged : Result Unit Bool → Bool
or_engaged (err e) = true
or_engaged (ok b) = b

-- `KillSwitch.engaged`
unfoldable pub engaged : Bool → Option Reading → Bool
unfolding latched or_engaged
engaged config_engaged reading = if config_engaged then true else or_engaged (latched reading)

-- `KillSwitch.engage`; none where there is no store.
unfoldable pub engage : String → String → Option StateTable → Option StateTable
engage reason engaged_at none = none
engage reason engaged_at (some table) = some (
    set_state engaged_at_key engaged_at
      (set_state reason_key reason (set_state state_key "true" table)))

pub record Description : Type 0 where
  pub engaged : Bool
  pub config_engaged : Bool
  pub latched : Bool
  pub reason : Option String
  pub engaged_at : Option String

-- The two reads of the details.
details : Option (Reading × Reading) → Option String × Option String
details none = (none, none)
details (some (Reading.returned reason, Reading.returned at)) = (reason, at)
details (some (Reading.returned reason, Reading.raised)) = (some "state_store_unreadable", none)
details (some (Reading.raised, at)) = (some "state_store_unreadable", none)

-- `KillSwitch.describe`: `first` and `second` are the two readings of the latch.
unfoldable pub describe :
    Bool → Option Reading → Option (Reading × Reading) → Option Reading → Description
unfolding details or_engaged
describe config_engaged first detail_readings second = record {
  engaged = engaged config_engaged second;
  config_engaged = config_engaged;
  latched = or_engaged (latched first);
  reason = (details detail_readings).0;
  engaged_at = (details detail_readings).1;
}
