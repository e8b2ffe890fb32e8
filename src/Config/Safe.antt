-- ===== src/Config/Safe.antt =====
-- app/config.py: what every configuration that is read from an environment satisfies.
use pgjp_trading.Prelude.{
  Ensures-nothing, ℕ, String, Bool, true, false, not, ◌||◌, Option, none, some, ◌≡◌, refl, arith,
  Bool-cases, inl, inr, ◌⊎◌, Result, ok, err, Ensures, Ensures-bind, Ensures-refuse, ◌==◌, ==_iff,
  subst,
}
use pgjp_trading.Prelude.Int.{ℤ, pos}
use pgjp_trading.Enums.{TradingMode, trading_mode_enumeration}
use pgjp_trading.Enums.Parsing.{parse, trading_modes}
use pgjp_trading.Texts.{len, take, drop}
use pgjp_trading.Config.{ConfigError, validate, Config, ltb_ℤ}
use pgjp_trading.Config.Parsing.{Library, Environment, raw, is_literal, parse_str}
use pgjp_trading.Config.Environment.{
  Heading, supported_symbols, valid_levels, valid_formats, is_between, read_both,
  validate_contract_month, check_month, mode_or_error, read_heading, from_env, Switches, validated,
  read_switches,
}
use pgjp_trading.Prelude.{◌is◌}
use pgjp_trading.Enums.{trading_mode_enumeration}
use pgjp_trading.Config.Environment.{
  from_env, validated, read_switches, ibkr_from_env, reconnect_from_env, risk_from_env,
}
use pgjp_trading.Config.Ranges.{
  InRange, AtLeast, AreLimits, AreEndpoints, IsBackoff, after_int, after_float, after_bool,
  risk_from_env-AreLimits, ibkr_from_env-AreEndpoints, reconnect_from_env-IsBackoff,
}
use pgjp_trading.Config.{validate}
use pgjp_trading.Prelude.Int.{pos}
use pgjp_trading.Prelude.{subst}

-- A text of six or eight digits, of which the fifth and the sixth are a month from 1 to 12, and the
-- first four a year from 2000 to 2100.
pub record IsMonth (l : Library) (text : String) : Type 0 where
  pub digits : l.is_digit text ≡ true
  pub length : (len text ≡ 6) ⊎ (len text ≡ 8)
  pub year : (n : ℤ) × (l.int (take 4 text) ≡ some n) × (is_between (pos 2000) (pos 2100) n ≡ true)
  pub month :
      (n : ℤ) × (l.int (drop 4 (take 6 text)) ≡ some n) × (is_between (pos 1) (pos 12) n ≡ true)

read_both-between :
    (P : Unit {0} → Type 0) (year month : Option ℤ) (rest : Result ConfigError Unit)
    → ((y m : ℤ)
        → year ≡ some y
        → month ≡ some m
        → is_between (pos 2000) (pos 2100) y ≡ true
        → is_between (pos 1) (pos 12) m ≡ true
        → P tt)
    → Ensures P (read_both year month rest)
read_both-between P none month rest h = tt
read_both-between P (some year) none rest h = tt
read_both-between P (some year) (some month) rest h =
    Ensures-refuse P (not (is_between (pos 2000) (pos 2100) year)) _ _ λ y.
      Ensures-refuse P (not (is_between (pos 1) (pos 12) month)) _ _
        λ m. anything rest (h year month refl refl (ground (arith, y)) (ground (arith, m)))
  where
    anything : (r : Result ConfigError Unit) → P tt → Ensures P r
    anything (ok tt) p = p
    anything (err e) p = tt

validate_contract_month-IsMonth :
    (l : Library) (text : String) → Ensures (λ u. IsMonth l text) (validate_contract_month l text)
unfolding validate_contract_month
validate_contract_month-IsMonth l text =
    Ensures-refuse (λ u. IsMonth l text)
      (not (l.is_digit text) || not (len text == 6 || len text == 8)) _ _
      λ form.
        read_both-between (λ u. IsMonth l text) (l.int (take 4 text)) (l.int (drop 4 (take 6 text)))
          _
          λ y m is_year is_month year month. record {
            digits = ground (arith, form);
            length = six_or_eight (len text) (ground (arith, form));
            year = (y, is_year, year);
            month = (m, is_month, month);
          }
  where
    six_or_eight : (n : ℕ) → (n == 6 || n == 8) ≡ true → (n ≡ 6) ⊎ (n ≡ 8)
    six_or_eight n h = elim (Bool-cases (n == 6)) [
      | inl e ↦ inl ((==_iff n 6).0 e)
      | inr e ↦ inr ((==_iff n 8).0 (ground (arith, h, e)))
    ]

not-not : {b : Bool} → not b ≡ false → b ≡ true
not-not {b} h = ground (arith, h)

-- A month, if there is one.
abbrev pub IsMonthOrNone : Library → Option String → Type 0
IsMonthOrNone l none = Unit
IsMonthOrNone l (some text) = IsMonth l text

pub record IsHeading (l : Library) (h : Heading) : Type 0 where
  pub symbol : is_literal supported_symbols h.symbol ≡ true
  pub month : IsMonthOrNone l h.contract_month

read_heading-IsHeading :
    (l : Library) (env : Environment) → Ensures (IsHeading l) (read_heading l env)
unfolding read_heading
read_heading-IsHeading l env =
    Ensures-bind (λ (m : TradingMode). Unit) (IsHeading l)
      (mode_or_error
        (parse l.strip l.lower trading_modes (parse_str l env "TRADING_MODE" "disabled")))
      _ (Ensures-nothing _)
      λ mode u.
        Ensures-refuse (IsHeading l)
          (not (
            is_literal supported_symbols
              (l.upper (parse_str l env "DEFAULT_FUTURES_SYMBOL" "MSL"))))
          _ _
          λ symbol.
            Ensures-refuse (IsHeading l)
              (not (is_literal valid_levels (l.upper (parse_str l env "LOG_LEVEL" "INFO")))) _ _
              λ level.
                Ensures-refuse (IsHeading l)
                  (not (is_literal valid_formats (l.lower (parse_str l env "LOG_FORMAT" "json")))) _
                  _
                  λ format.
                    Ensures-bind
                      (λ (u : Unit {0}). IsMonthOrNone l (raw l env "DEFAULT_CONTRACT_MONTH"))
                      (IsHeading l) (check_month l (raw l env "DEFAULT_CONTRACT_MONTH")) _
                      (checked (raw l env "DEFAULT_CONTRACT_MONTH"))
                      λ u month. record { symbol = not-not symbol; month = month }
  where
    checked : (o : Option String) → Ensures (λ u. IsMonthOrNone l o) (check_month l o)
    checked none = tt
    checked (some text) = validate_contract_month-IsMonth l text

-- What a configuration from an environment satisfies.
pub record IsSafe (l : Library) (c : Config) : Type 0 where
  pub limits : AreLimits c.risk
  pub endpoints : AreEndpoints c.ibkr
  pub backoff : IsBackoff c.reconnect
  pub symbol : is_literal supported_symbols c.default_futures_symbol ≡ true
  pub month : IsMonthOrNone l c.default_contract_month
  pub max_age : AtLeast ltb_ℤ (pos 0) c.market_data_max_age_seconds
  pub poll : AtLeast ltb_ℤ (pos 50000) c.market_data_poll_interval_seconds
  pub interval : AtLeast ltb_ℤ (pos 0) c.reconcile_interval_seconds
  pub port : InRange (pos 0) (some (pos 65535)) c.health_port
  pub armed : c.live_trading_enabled ≡ (c.trading_mode is TradingMode.live)

validate-armed :
    (c : Config) → validate c ≡ none → c.live_trading_enabled ≡ (c.trading_mode is TradingMode.live)
unfolding validate
validate-armed c h = ground (arith, h)

validated-IsSafe :
    (l : Library) (c : Config)
    → (validate c ≡ none → IsSafe l c)
    → Ensures (IsSafe l) (validated c (validate c))
validated-IsSafe l c h = go (validate c) h
  where
    go : (o : Option ConfigError) → (o ≡ none → IsSafe l c) → Ensures (IsSafe l) (validated c o)
    go none h = h refl
    go (some e) h = tt

from_env-Ensures : (l : Library) (env : Environment) → Ensures (IsSafe l) (from_env l env)
unfolding from_env
from_env-Ensures l env =
    Ensures-bind (IsHeading l) (IsSafe l) (read_heading l env) _ (read_heading-IsHeading l env)
      λ h heading.
        Ensures-bind (λ (s : Switches). Unit) (IsSafe l) (read_switches l env) _ (Ensures-nothing _)
          λ s u.
            Ensures-bind AreEndpoints (IsSafe l) (ibkr_from_env l env) _
              (ibkr_from_env-AreEndpoints l env)
              λ ibkr endpoints.
                Ensures-bind IsBackoff (IsSafe l) (reconnect_from_env l env) _
                  (reconnect_from_env-IsBackoff l env)
                  λ reconnect backoff.
                    Ensures-bind AreLimits (IsSafe l) (risk_from_env l env) _
                      (risk_from_env-AreLimits l env)
                      λ risk limits.
                        after_float (IsSafe l) l env "MARKET_DATA_MAX_AGE_SECONDS" ltb_ℤ l.seconds
                          (pos 0) (pos 0) _ refl
                          λ max_age a.
                            after_float (IsSafe l) l env "MARKET_DATA_POLL_INTERVAL_SECONDS" ltb_ℤ
                              l.seconds (pos 1000000) (pos 50000) _ refl
                              λ poll b.
                                after_float (IsSafe l) l env "RECONCILE_INTERVAL_SECONDS" ltb_ℤ
                                  l.seconds (pos 300000000) (pos 0) _ refl
                                  λ interval c.
                                    after_bool (IsSafe l) l env "STRATEGY_ENABLED" true _ λ enabled.
                                      after_int (IsSafe l) l env "LOG_MAX_BYTES" (pos 10485760)
                                        (pos 1024) none _ (refl, refl)
                                        λ max_bytes d.
                                          after_int (IsSafe l) l env "LOG_BACKUP_COUNT" (pos 10)
                                            (pos 1) none _ (refl, refl)
                                            λ backups e.
                                              after_int (IsSafe l) l env "HEALTH_PORT" (pos 8787)
                                                (pos 0) (some (pos 65535)) _ (refl, refl)
                                                λ port f. validated-IsSafe l _ (λ valid. record {
                                                  limits = limits;
                                                  endpoints = endpoints;
                                                  backoff = backoff;
                                                  symbol = heading.symbol;
                                                  month = heading.month;
                                                  max_age = a;
                                                  poll = b;
                                                  interval = c;
                                                  port = f;
                                                  armed = validate-armed _ valid;
                                                })

-- A configuration that is read from an environment, whatever it holds: no risk limit is negative; the
-- two ports lie from 1 to 65535 and differ, and so do the two client ids, of 31 bits; the first delay is
-- at least 0.1 s and at most the ceiling, and the factor at least 1; the symbol is a supported one; the
-- contract month, if there is one, has six or eight digits with a year from 2000 to 2100 and a month
-- from 1 to 12; ages and intervals are not negative; the health port fits 16 bits; and live trading is
-- enabled exactly in live mode.
pub from_env-IsSafe :
    (l : Library) (env : Environment) (c : Config) → from_env l env ≡ ok c → IsSafe l c
from_env-IsSafe l env c h = subst (Ensures (IsSafe l)) h (from_env-Ensures l env)
