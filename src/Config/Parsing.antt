-- ===== src/Config/Parsing.antt =====
-- app/config.py: the typed parsers of environment variables. Python's readings of text are parameters.
use pgjp_trading.Prelude.{
  String, Bool, true, false, Option, none, some, List, [], ◌∷◌, if◌then◌else◌, str_eq, any, Result,
  ok, err, refuse,
}
use pgjp_trading.Prelude.Int.{ℤ, ltb_ℤ}
use pgjp_trading.Decimal.{Decimal, lt_decimal}
use pgjp_trading.Config.{ConfigError}

-- What reads a text as a number gives: nothing where it raises, a value that is not finite, or a number.
pub data Number (A : Type 0) : Type 0 where
  refused : Number A
  not_finite : Number A
  finite : A → Number A

-- Python's methods and constructors: `str.strip`, `lower`, `upper`, `isdigit`, `int` (none where it
-- raises), `Decimal`, `float` of seconds in whole microseconds, and the exact value
-- of `float`.
pub record Library : Type 0 where
  pub strip : String → String
  pub lower : String → String
  pub upper : String → String
  pub is_digit : String → Bool
  pub int : String → Option ℤ
  pub decimal : String → Number Decimal
  pub seconds : String → Number ℤ
  pub factor : String → Number Decimal

-- An environment: the value of each variable that is set.
abbrev pub Environment : Type 0
Environment = String → Option String

abbrev pub stripped : Library → Option String → Option String
stripped l none = none
stripped l (some value) = if str_eq (l.strip value) "" then none else some (l.strip value)

-- `_raw`
unfoldable pub raw : Library → Environment → String → Option String
raw l env name = stripped l (env name)

abbrev pub true_literals : List String
true_literals = "true" ∷ "1" ∷ "yes" ∷ "on" ∷ []

abbrev pub false_literals : List String
false_literals = "false" ∷ "0" ∷ "no" ∷ "off" ∷ []

abbrev pub is_literal : List String → String → Bool
is_literal literals text = any (str_eq text) literals

abbrev pub read_bool : Library → String → Bool → Option String → Result ConfigError Bool
read_bool l name default none = ok default
read_bool l name default (some value) =
    if is_literal true_literals (l.lower value)
    then ok true
    else if is_literal false_literals (l.lower value)
    then ok false
    else err (ConfigError.not_boolean name)

-- `parse_bool`
unfoldable pub parse_bool : Library → Environment → String → Bool → Result ConfigError Bool
parse_bool l env name default = read_bool l name default (raw l env name)

abbrev pub above : ℤ → Option ℤ → Bool
above n none = false
above n (some maximum) = ltb_ℤ maximum n

abbrev pub check_int : String → ℤ → Option ℤ → Option ℤ → Result ConfigError ℤ
check_int name minimum maximum none = err (ConfigError.not_integer name)
check_int name minimum maximum (some n) =
    refuse (ltb_ℤ n minimum) (ConfigError.below_minimum name)
      (refuse (above n maximum) (ConfigError.above_maximum name) (ok n))

abbrev pub read_int : Library → String → ℤ → ℤ → Option ℤ → Option String → Result ConfigError ℤ
read_int l name default minimum maximum none = ok default
read_int l name default minimum maximum (some value) = check_int name minimum maximum (l.int value)

-- `parse_int`
unfoldable pub parse_int : Library → Environment → String → ℤ → ℤ → Option ℤ → Result ConfigError ℤ
parse_int l env name default minimum maximum =
    read_int l name default minimum maximum (raw l env name)

abbrev pub check_decimal : String → Decimal → Number Decimal → Result ConfigError Decimal
check_decimal name minimum Number.refused = err (ConfigError.not_decimal name)
check_decimal name minimum Number.not_finite = err (ConfigError.not_finite name)
check_decimal name minimum (Number.finite d) =
    refuse (lt_decimal d minimum) (ConfigError.below_minimum name) (ok d)

abbrev pub read_decimal :
    Library → String → Decimal → Decimal → Option String → Result ConfigError Decimal
read_decimal l name default minimum none = ok default
read_decimal l name default minimum (some value) = check_decimal name minimum (l.decimal value)

-- `parse_decimal`
unfoldable pub parse_decimal :
    Library → Environment → String → Decimal → Decimal → Result ConfigError Decimal
parse_decimal l env name default minimum = read_decimal l name default minimum (raw l env name)

-- A float is compared by the order of the form in which it is kept, microseconds or an exact value.
module _ {A : Type 0} (below : A → A → Bool) where
  abbrev pub check_float : String → A → Number A → Result ConfigError A
  check_float name minimum Number.refused = err (ConfigError.not_number name)
  check_float name minimum Number.not_finite = err (ConfigError.not_finite name)
  check_float name minimum (Number.finite n) =
      refuse (below n minimum) (ConfigError.below_minimum name) (ok n)

  abbrev pub read_float :
      (String → Number A) → String → A → A → Option String → Result ConfigError A
  read_float read name default minimum none = ok default
  read_float read name default minimum (some value) = check_float name minimum (read value)

  -- `parse_float`, by one of the two readings.
  unfoldable pub parse_float :
      Library → (String → Number A) → Environment → String → A → A → Result ConfigError A
  parse_float l read env name default minimum =
      read_float read name default minimum (raw l env name)

abbrev pub or_default : String → Option String → String
or_default default none = default
or_default default (some value) = value

-- `parse_str`
unfoldable pub parse_str : Library → Environment → String → String → String
parse_str l env name default = or_default default (raw l env name)
