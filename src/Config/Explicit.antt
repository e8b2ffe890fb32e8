-- ===== src/Config/Explicit.antt =====
-- app/config.py: a switch leaves its safe position only where the environment says so.
use pgjp_trading.Prelude.{
  String, Bool, true, false, not, Option, none, some, ◌≡◌, refl, Result, ok, Ensures, Ensures-bind,
  Ensures-nothing, subst, ◌>>=◌, str_eq, Bool-cases, inl, inr,
}
use pgjp_trading.Prelude.Int.{pos}
use pgjp_trading.Config.{IbkrConfig, ReconnectPolicy, RiskLimits, Config, ConfigError, List, ltb_ℤ}
use pgjp_trading.Config.Parsing.{
  Library, Environment, raw, stripped, is_literal, true_literals, false_literals, read_bool,
  parse_bool,
}
use pgjp_trading.Config.Environment.{
  Heading, Switches, read_heading, read_switches, ibkr_from_env, reconnect_from_env, risk_from_env,
  validated, from_env,
}
use pgjp_trading.Config.Ranges.{after_int, after_float, after_bool}

-- The variable is set, and its value, stripped and in lower case, is one of the literals.
abbrev pub IsGiven : Library → Environment → String → List String → Type 0
IsGiven l env name literals =
    (v : String) × (env name ≡ some v) × (is_literal literals (l.lower (l.strip v)) ≡ true)

abbrev literals_of : Bool → List String
literals_of true = true_literals
literals_of false = false_literals

-- A flag that is not the default was set.
abbrev IsDeliberate : Library → Environment → String → Bool → Bool → Type 0
IsDeliberate l env name default b = b ≡ not default → IsGiven l env name (literals_of (not default))

unchanged :
    (l : Library) (env : Environment) (name : String) (d : Bool) → IsDeliberate l env name d d
unchanged l env name true h = cc
unchanged l env name false h = cc

parse_bool-IsDeliberate :
    (l : Library) (env : Environment) (name : String) (default : Bool)
    → Ensures (IsDeliberate l env name default) (parse_bool l env name default)
unfolding parse_bool raw
parse_bool-IsDeliberate l env name default = go (env name) refl
  where
    known :
        (v : String)
        → env name ≡ some v
        → (d b : Bool) → is_literal (literals_of b) (l.lower (l.strip v)) ≡ true
        → IsDeliberate l env name d b
    known v e true true t h = cc
    known v e true false t h = (v, e, t)
    known v e false true t h = (v, e, t)
    known v e false false t h = cc

    set :
        (v : String)
        → env name ≡ some v
        → Ensures (IsDeliberate l env name default) (read_bool l name default (some (l.strip v)))
    set v e = elim (Bool-cases (is_literal true_literals (l.lower (l.strip v)))) [
      | inl t ↦ rw t (known v e default true t)
      | inr f ↦ elim (Bool-cases (is_literal false_literals (l.lower (l.strip v)))) [
        | inl t ↦ rw (f, t) (known v e default false t)
        | inr g ↦ rw (f, g) tt
      ]
    ]

    go :
        (o : Option String)
        → env name ≡ o
        → Ensures (IsDeliberate l env name default) (read_bool l name default (stripped l o))
    go none e = unchanged l env name default
    go (some v) e = elim (Bool-cases (str_eq (l.strip v) "")) [
      | inl t ↦ rw t (unchanged l env name default)
      | inr f ↦ rw f (set v e)
    ]

-- The switches that left their safe positions were set.
pub record IsExplicit (l : Library) (env : Environment) (s : Switches) : Type 0 where
  pub transmit : s.allow_order_transmit ≡ true → IsGiven l env "ALLOW_ORDER_TRANSMIT" true_literals
  pub live : s.live_trading_enabled ≡ true → IsGiven l env "LIVE_TRADING_ENABLED" true_literals
  pub kill : s.kill_switch ≡ false → IsGiven l env "KILL_SWITCH" false_literals
  pub permission :
      s.sol_futures_permission_ready ≡ true
      → IsGiven l env "SOL_FUTURES_PERMISSION_READY" true_literals

abbrev pub switches_of : Config → Switches
switches_of c = record {
  allow_order_transmit = c.allow_order_transmit;
  live_trading_enabled = c.live_trading_enabled;
  kill_switch = c.kill_switch;
  sol_futures_permission_ready = c.sol_futures_permission_ready;
}

after_flag :
    {B : Type 0} (Q : B → Type 0) (l : Library) (env : Environment) (name : String) (default : Bool)
    (f : Bool → Result ConfigError B)
    → ((b : Bool) → IsDeliberate l env name default b → Ensures Q (f b))
    → Ensures Q (parse_bool l env name default >>= f)
after_flag Q l env name default f =
    Ensures-bind (IsDeliberate l env name default) Q _ f
      (parse_bool-IsDeliberate l env name default)

read_switches-IsExplicit :
    (l : Library) (env : Environment) → Ensures (IsExplicit l env) (read_switches l env)
unfolding read_switches
read_switches-IsExplicit l env =
    after_flag (IsExplicit l env) l env "ALLOW_ORDER_TRANSMIT" false _ λ a p.
      after_flag (IsExplicit l env) l env "LIVE_TRADING_ENABLED" false _ λ b q.
        after_flag (IsExplicit l env) l env "KILL_SWITCH" true _ λ c r.
          after_flag (IsExplicit l env) l env "SOL_FUTURES_PERMISSION_READY" false _
            λ d s. record { transmit = p; live = q; kill = r; permission = s }

module _ (l : Library) (env : Environment) where
  abbrev HasSwitches : Config → Type 0
  HasSwitches c = IsExplicit l env (switches_of c)

  validated-HasSwitches :
      (c : Config) (o : Option ConfigError) → HasSwitches c → Ensures HasSwitches (validated c o)
  validated-HasSwitches c none h = h
  validated-HasSwitches c (some e) h = tt

  from_env-Ensures : Ensures HasSwitches (from_env l env)
  unfolding from_env
  from_env-Ensures =
      Ensures-bind (λ (h : Heading). Unit) HasSwitches (read_heading l env) _ (Ensures-nothing _)
        λ h u.
          Ensures-bind (IsExplicit l env) HasSwitches (read_switches l env) _
            (read_switches-IsExplicit l env)
            λ s explicit.
              Ensures-bind (λ (c : IbkrConfig). Unit) HasSwitches (ibkr_from_env l env) _
                (Ensures-nothing _)
                λ ibkr u.
                  Ensures-bind (λ (p : ReconnectPolicy). Unit) HasSwitches
                    (reconnect_from_env l env) _ (Ensures-nothing _)
                    λ reconnect u.
                      Ensures-bind (λ (r : RiskLimits). Unit) HasSwitches (risk_from_env l env) _
                        (Ensures-nothing _)
                        λ risk u.
                          after_float HasSwitches l env "MARKET_DATA_MAX_AGE_SECONDS" ltb_ℤ
                            l.seconds (pos 0) (pos 0) _ refl
                            λ max_age a.
                              after_float HasSwitches l env "MARKET_DATA_POLL_INTERVAL_SECONDS"
                                ltb_ℤ l.seconds (pos 1000000) (pos 50000) _ refl
                                λ poll b.
                                  after_float HasSwitches l env "RECONCILE_INTERVAL_SECONDS" ltb_ℤ
                                    l.seconds (pos 300000000) (pos 0) _ refl
                                    λ interval c.
                                      after_bool HasSwitches l env "STRATEGY_ENABLED" true _
                                        λ enabled.
                                          after_int HasSwitches l env "LOG_MAX_BYTES" (pos 10485760)
                                            (pos 1024) none _ (refl, refl)
                                            λ max_bytes d.
                                              after_int HasSwitches l env "LOG_BACKUP_COUNT"
                                                (pos 10) (pos 1) none _ (refl, refl)
                                                λ backups e.
                                                  after_int HasSwitches l env "HEALTH_PORT"
                                                    (pos 8787) (pos 0) (some (pos 65535)) _
                                                    (refl, refl)
                                                    λ port f. validated-HasSwitches _ _ explicit

-- A configuration allows transmission, enables live trading or declares the permission only where the
-- environment sets that variable to "true", "1", "yes" or "on", and has the kill switch off only where
-- KILL_SWITCH is set to "false", "0", "no" or "off", up to white space and upper case. So an unset,
-- empty or misspelt variable never arms the program.
pub from_env-IsExplicit :
    (l : Library) (env : Environment) (c : Config)
    → from_env l env ≡ ok c
    → IsExplicit l env (switches_of c)
from_env-IsExplicit l env c h = subst (Ensures (HasSwitches l env)) h (from_env-Ensures l env)
