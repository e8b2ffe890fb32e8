-- ===== src/Positions.antt =====
-- app/portfolio/positions.py: the local book of positions, a dict from contract ids. The `at` of a
-- call is its argument, or its reading of the clock.
pub mod Fills
use pgjp_trading.Prelude.{
  String, Bool, true, false, not, Option, none, some, List, [], ◌∷◌, if◌then◌else◌, ◌==◌, is_some,
  filter, ◌+◌,
}
use pgjp_trading.Prelude.Int.{ℤ, pos, ◌+ℤ◌, ◌*ℤ◌, eqb_ℤ, ltb_ℤ, nat_abs}
use pgjp_trading.Decimal.{Decimal, of_int, add_decimal, mul_decimal, div_decimal}
use pgjp_trading.Enums.{OrderSide, sign}
use pgjp_trading.Broker.{BrokerPosition}
use pgjp_trading.Keyed.{get, set, pop, values, set_all}

pub record Position : Type 0 where
  pub con_id : ℤ
  pub symbol : String
  pub local_symbol : String
  pub quantity : ℤ
  pub average_cost : Decimal
  pub updated_at : ℤ
  pub account_id : String
  pub source : String

abbrev pub is_flat : Position → Bool
is_flat p = eqb_ℤ p.quantity (pos 0)

abbrev pub is_long : Position → Bool
is_long p = ltb_ℤ (pos 0) p.quantity

-- `Position.from_broker`
unfoldable pub from_broker : ℤ → BrokerPosition → Position
from_broker at p = record {
  con_id = p.con_id;
  symbol = p.symbol;
  local_symbol = p.local_symbol;
  quantity = p.quantity;
  average_cost = p.average_cost;
  updated_at = at;
  account_id = p.account_id;
  source = "broker";
}

-- `PositionBook`
abbrev pub PositionBook : Type 0
PositionBook = List (ℤ × Position)

abbrev pub is_held : Position → Bool
is_held p = not (is_flat p)

-- `PositionBook.__init__`, and `replace_all`
unfoldable pub replace_all : List Position → PositionBook
replace_all positions = set_all (λ p. p.con_id) (filter is_held positions) []

abbrev pub quantity_or_zero : Option Position → ℤ
quantity_or_zero none = pos 0
quantity_or_zero (some p) = p.quantity

-- `PositionBook.quantity`
unfoldable pub quantity : ℤ → PositionBook → ℤ
quantity con_id book = quantity_or_zero (get con_id book)

-- `PositionBook.upsert`
unfoldable pub upsert : Position → PositionBook → PositionBook
upsert p book = if is_flat p then pop p.con_id book else set p.con_id p book

-- The arguments of `apply_fill`, with the time.
pub record Execution : Type 0 where
  pub con_id : ℤ
  pub symbol : String
  pub local_symbol : String
  pub side : OrderSide
  pub quantity : ℤ
  pub price : Decimal
  pub at : ℤ

-- The average cost after a fill of `delta` at a price.
unfoldable pub average_cost : Option Position → ℤ → Decimal → Decimal
average_cost none delta price = price
average_cost (some p) delta price =
    if is_flat p
    then price
    else (let held = of_int (pos (nat_abs p.quantity)) in
        let added = of_int (pos (nat_abs delta)) in
        if same (is_long p) (ltb_ℤ (pos 0) delta)
        then div_decimal (add_decimal (mul_decimal p.average_cost held) (mul_decimal price added))
            (of_int (pos (nat_abs p.quantity + nat_abs delta)))
        else p.average_cost)
  where
    same : Bool → Bool → Bool
    same true b = b
    same false b = not b

abbrev account_of : Option Position → String
account_of none = ""
account_of (some p) = p.account_id

-- The position after a fill that does not close it.
abbrev filled_position : Execution → Option Position → Position
filled_position x existing =
    let delta = x.quantity *ℤ sign x.side in
    record {
      con_id = x.con_id;
      symbol = x.symbol;
      local_symbol = x.local_symbol;
      quantity = quantity_or_zero existing +ℤ delta;
      average_cost = average_cost existing delta x.price;
      updated_at = x.at;
      account_id = account_of existing;
      source = "local";
    }

-- `PositionBook.apply_fill`: the position it returns, and the book.
unfoldable pub apply_fill : Execution → PositionBook → Option Position × PositionBook
apply_fill x book =
    let existing = get x.con_id book in
    let updated = filled_position x existing in
    if is_flat updated then (none, pop x.con_id book) else (some updated, set x.con_id updated book)

-- `PositionBook.touch`
unfoldable pub touch : ℤ → ℤ → PositionBook → PositionBook
touch con_id at book = elim (get con_id book) [
  | none ↦ book
  | some p ↦ set con_id (record p { updated_at = at }) book
]
