-- ===== src/Intent.antt =====
-- app/signals/models.py: a strategy's proposed target position. Times are microseconds since the
-- epoch, a confidence is in millionths; the free-form metadata is left out.
use pgjp_trading.Prelude.{
  ℕ, String, Bool, not, ◌||◌, ◌&&◌, Option, none, some, [], ◌∷◌, ◌is◌, any, ◌==◌, if◌then◌else◌,
  leb,
}
use Prim.Native.Char.{code}
use pgjp_trading.Prelude.Int.{ℤ, pos, leb_ℤ, eqb_ℤ}
use pgjp_trading.Enums.{Direction, direction_enumeration}

pub record TradeIntent : Type 0 where
  pub strategy_name : String
  pub symbol : String
  pub direction : Direction
  pub requested_position : ℤ
  pub created_at : ℤ
  pub intent_id : String
  pub correlation_id : Option String
  pub confidence : Option ℤ
  pub contract_key : Option String

pub data SignalError : Type 0 where
  no_strategy_name no_symbol confidence_out_of_range : SignalError
  long_not_positive short_not_negative flat_not_zero : SignalError

-- The characters that `str.strip` removes.
is_space : ℕ → Bool
is_space c =
    leb 9 c && leb c 13
    || leb 28 c && leb c 32
    || any (◌==◌ c) (0x85 ∷ 0xa0 ∷ 0x1680 ∷ 0x2028 ∷ 0x2029 ∷ 0x202f ∷ 0x205f ∷ 0x3000 ∷ [])
    || leb 0x2000 c && leb c 0x200a

-- `not text.strip()`
is_blank : String → Bool
unfolding is_space
is_blank String.[] = Bool.true
is_blank (String.◌∷◌ c s) = is_space (code c) && is_blank s

-- `TradeIntent._check_direction_consistency`
unfoldable pub check_direction : Direction → ℤ → Option SignalError
check_direction direction target =
    if direction is Direction.long && leb_ℤ target (pos 0)
    then some SignalError.long_not_positive
    else if direction is Direction.short && leb_ℤ (pos 0) target
    then some SignalError.short_not_negative
    else if direction is Direction.flat && not (eqb_ℤ target (pos 0))
    then some SignalError.flat_not_zero
    else none

abbrev is_confidence : Option ℤ → Bool
is_confidence none = Bool.true
is_confidence (some x) = leb_ℤ (pos 0) x && leb_ℤ x (pos 1000000)

-- `TradeIntent.__post_init__`: the error that refuses the value, or none. Times carry no zone here,
-- so the check of the time zone has no counterpart.
unfoldable pub check_intent : TradeIntent → Option SignalError
unfolding is_blank check_direction
check_intent i =
    if is_blank i.strategy_name
    then some SignalError.no_strategy_name
    else if is_blank i.symbol
    then some SignalError.no_symbol
    else if not (is_confidence i.confidence)
    then some SignalError.confidence_out_of_range
    else check_direction i.direction i.requested_position

-- `TradeIntent.requires_order_from`
unfoldable pub requires_order_from : TradeIntent → ℤ → Bool
requires_order_from i current_position = not (eqb_ℤ i.requested_position current_position)

-- The parts that `TradeIntent.idempotency_key` hands to the digest of app/utilities/ids.py.
pub record KeyParts : Type 0 where
  pub intent_id : String
  pub strategy : String
  pub con_id : ℤ
  pub target : ℤ

unfoldable pub key_parts : TradeIntent → ℤ → KeyParts
key_parts i con_id = record {
  intent_id = i.intent_id;
  strategy = i.strategy_name;
  con_id = con_id;
  target = i.requested_position;
}
