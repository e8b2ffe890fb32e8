-- ===== src/KillSwitch/Latch.antt =====
-- app/safety/killswitch.py: when the switch is off, and that the latch is one-way.
use pgjp_trading.Prelude.{
  String, Bool, true, false, Option, none, some, List, [], ◌∷◌, ◌≡◌, some_injective, ◌↔◌, ◌⊎◌, inl,
  inr, refl, ◌∙◌, arith, if◌then◌else◌, str_eq, eq_iff,
}
use pgjp_trading.KillSwitch.{
  StateTable, get_state, set_state, state_key, reason_key, engaged_at_key, Reading, is_true_text,
  latched, engaged, engage,
}

pub get_state-set_state :
    (j k v : String) (table : StateTable)
    → get_state j (set_state k v table) ≡ (if str_eq k j then some v else get_state j table)
unfolding set_state
get_state-set_state j k v [] = refl
get_state-set_state j k v ((i, w) ∷ rest) =
    ground (arith, get_state-set_state j k v rest, eq_iff i k, eq_iff i j, eq_iff k j)

-- A later write of the application: another engagement, or a state under a key that is not the
-- latch's.
pub data Write : Type 0 where
  engagement : String → String → Write
  other : (key value : String) → str_eq key state_key ≡ false → Write

abbrev latch : String → String → StateTable → StateTable
latch reason at table =
    set_state engaged_at_key at (set_state reason_key reason (set_state state_key "true" table))

latch-true :
    (reason at : String) (table : StateTable)
    → get_state state_key (latch reason at table) ≡ some "true"
latch-true reason at table =
    get_state-set_state state_key engaged_at_key at _
    ∙ get_state-set_state state_key reason_key reason _
    ∙ get_state-set_state state_key state_key "true" table

unfoldable pub write_all : List Write → StateTable → StateTable
write_all [] table = table
write_all (Write.engagement reason at ∷ ws) table = write_all ws (latch reason at table)
write_all (Write.other key value differs ∷ ws) table = write_all ws (set_state key value table)

-- The switch is off only where the configuration does not engage it and either there is no store, or
-- the store was read and does not hold "true": an unreadable store engages it.
pub engaged-off_iff :
    (config_engaged : Bool) (reading : Option Reading)
    → (engaged config_engaged reading ≡ false) ↔ (
        (config_engaged ≡ false)
        × ((reading ≡ none)
            ⊎ ((v : Option String) × (reading ≡ some (Reading.returned v))
                × (is_true_text v ≡ false))))
unfolding engaged latched
engaged-off_iff true reading = (λ h. cc, λ (h, k). cc)
engaged-off_iff false none = (λ h. (refl, inl refl), λ h. refl)
engaged-off_iff false (some Reading.raised) = (λ h. cc, back)
  where
    back :
        (false ≡ false)
          × ((some Reading.raised ≡ none)
              ⊎ ((v : Option String) × (some Reading.raised ≡ some (Reading.returned v))
                  × (is_true_text v ≡ false)))
        → true ≡ false
    back (h, inl e) = cc
    back (h, inr (v, e, f)) = cc
engaged-off_iff false (some (Reading.returned v)) = (λ h. (refl, inr (v, refl, h)), back)
  where
    back :
        (false ≡ false)
          × ((some (Reading.returned v) ≡ none)
              ⊎ ((w : Option String) × (some (Reading.returned v) ≡ some (Reading.returned w))
                  × (is_true_text w ≡ false)))
        → is_true_text v ≡ false
    back (h, inl e) = cc
    back (h, inr (w, e, f)) = cc

write_all-latched :
    (ws : List Write) (table : StateTable)
    → get_state state_key table ≡ some "true"
    → get_state state_key (write_all ws table) ≡ some "true"
unfolding write_all
write_all-latched [] table h = h
write_all-latched (Write.engagement reason at ∷ ws) table h =
    write_all-latched ws _ (latch-true reason at table)
write_all-latched (Write.other key value differs ∷ ws) table h =
    write_all-latched ws _ (rw (get_state-set_state state_key key value table, differs) h)

-- Engaging the switch holds for good: after it, and after any later writes to the store but one under
-- the latch's own key, a readable store still engages the switch, whatever the configuration says.
pub engage-latches :
    (reason at : String) (table table' : StateTable) (ws : List Write) (config_engaged : Bool)
    → engage reason at (some table) ≡ some table'
    → engaged config_engaged (some (Reading.returned (get_state state_key (write_all ws table'))))
      ≡ true
unfolding engaged latched engage
engage-latches reason at table table' ws true e = refl
engage-latches reason at table table' ws false e =
    rw (write_all-latched ws table' (rw (← some_injective e) (latch-true reason at table))) refl
