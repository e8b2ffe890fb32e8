-- ===== src/Bars.antt =====
-- app/backtest/models.py and app/backtest/store.py: historical bars, their gaps, and their table.
-- Times are microseconds; a row's key is its source, symbol, interval and opening time.
pub mod Stored
pub mod Gaps
use pgjp_trading.Prelude.{
  ℕ, zero, suc, ◌+◌, ◌-◌, ◌*◌, ◌/◌, String, Bool, true, false, not, ◌&&◌, ◌||◌, Option, none, some,
  List, [], ◌∷◌, ◌++◌, if◌then◌else◌, str_eq, any, filter, get_or, length,
}
use pgjp_trading.Prelude.Int.{ℤ, pos, pos_part, ◌+ℤ◌, ◌-ℤ◌, ltb_ℤ, leb_ℤ, eqb_ℤ}
use pgjp_trading.Decimal.{Decimal, lt_decimal, le_decimal, zero_decimal}
use pgjp_trading.Named.{get}

pub record Bar : Type 0 where
  pub source : String
  pub symbol : String
  pub interval : String
  pub opened_at : ℤ
  pub open_price : Decimal
  pub high : Decimal
  pub low : Decimal
  pub close : Decimal
  pub volume : Decimal

-- `INTERVAL_SECONDS`
abbrev pub interval_seconds : List (String × ℕ)
interval_seconds = ("1m", 60) ∷ ("5m", 300) ∷ ("15m", 900) ∷ ("1h", 3600) ∷ ("1d", 86400) ∷ []

-- The length of an interval in microseconds, for one that is known, as every bar's is.
abbrev pub step : String → ℕ
step interval = get_or (get interval interval_seconds) 0 * 1000000

-- `PROXY_SOURCES`
abbrev proxy_sources : List String
proxy_sources = "binance" ∷ "coinbase" ∷ "kraken" ∷ []

pub data BarError : Type 0 where
  no_source unknown_interval high_below_low : BarError
  open_outside close_outside negative_volume : BarError

abbrev is_known : Option ℕ → Bool
is_known none = false
is_known (some n) = true

-- `Bar.__post_init__`: the error that refuses the bar, or none.
unfoldable pub check_bar : (strip : String → String) → Bar → Option BarError
check_bar strip b =
    if str_eq (strip b.source) ""
    then some BarError.no_source
    else if not (is_known (get b.interval interval_seconds))
    then some BarError.unknown_interval
    else if lt_decimal b.high b.low
    then some BarError.high_below_low
    else if not (le_decimal b.low b.open_price && le_decimal b.open_price b.high)
    then some BarError.open_outside
    else if not (le_decimal b.low b.close && le_decimal b.close b.high)
    then some BarError.close_outside
    else if lt_decimal b.volume zero_decimal
    then some BarError.negative_volume
    else none

-- `Bar.is_proxy`
unfoldable pub is_proxy : (lower : String → String) → Bar → Bool
is_proxy lower b = any (str_eq (lower b.source)) proxy_sources

-- `Bar.closed_at`
unfoldable pub closed_at : Bar → ℤ
closed_at b = b.opened_at +ℤ pos (step b.interval)

pub record BarGap : Type 0 where
  pub after : ℤ
  pub before : ℤ
  pub missing_bars : ℕ

-- `find_gaps` from a bar on, by the step of the series.
unfoldable pub gaps_after : ℕ → ℤ → List Bar → List BarGap
gaps_after unit previous [] = []
gaps_after unit previous (current ∷ bars) =
    let elapsed = current.opened_at -ℤ previous in
    let rest = gaps_after unit current.opened_at bars in
    if ltb_ℤ (pos unit) elapsed
    then record {
      after = previous;
      before = current.opened_at;
      missing_bars = pos_part elapsed / unit - 1;
    }
      ∷ rest
    else rest

-- `find_gaps`
unfoldable pub find_gaps : List Bar → List BarGap
find_gaps [] = []
find_gaps (first ∷ bars) = gaps_after (step first.interval) first.opened_at bars

-- `(source, symbol, interval, opened_at)`
abbrev pub same_key : Bar → Bar → Bool
same_key a b =
    str_eq a.source b.source
    && str_eq a.symbol b.symbol
    && str_eq a.interval b.interval
    && eqb_ℤ a.opened_at b.opened_at

abbrev pub is_stored : Bar → List Bar → Bool
is_stored b table = any (same_key b) table

-- `INSERT OR IGNORE`: how many rows it adds, and the table.
abbrev pub insert : Bar → List Bar → ℕ × List Bar
insert b table = if is_stored b table then (0, table) else (1, table ++ b ∷ [])

-- `BarRepository.insert_many`
unfoldable pub insert_many : List Bar → List Bar → ℕ × List Bar
insert_many [] table = (0, table)
insert_many (b ∷ bars) table =
    let (added, table') = insert b table in
    let (more, after) = insert_many bars table' in (added + more, after)

-- `ORDER BY opened_at ASC`
abbrev insert_by_time : Bar → List Bar → List Bar
insert_by_time b [] = b ∷ []
insert_by_time b (c ∷ bars) =
    let later = insert_by_time b bars in
    if ltb_ℤ c.opened_at b.opened_at then c ∷ later else b ∷ c ∷ bars

abbrev by_time : List Bar → List Bar
by_time [] = []
by_time (b ∷ bars) = insert_by_time b (by_time bars)

abbrev is_from : Option ℤ → Bar → Bool
is_from none b = true
is_from (some start) b = leb_ℤ start b.opened_at

abbrev is_before : Option ℤ → Bar → Bool
is_before none b = true
is_before (some end) b = ltb_ℤ b.opened_at end

-- `BarRepository.load`
unfoldable pub load :
    (source symbol interval : String) → (start end : Option ℤ) → List Bar → List Bar
load source symbol interval start end table = by_time (
    filter
      (λ b.
        str_eq b.source source
        && str_eq b.symbol symbol
        && str_eq b.interval interval
        && is_from start b
        && is_before end b)
      table)
