-- ===== src/MarketData.antt =====
-- app/market_data/manager.py and app/market_data/models.py: the freshest quote of each subscribed
-- contract. A contract's key, `conid:` and its id, is the id here; sizes, listeners and log lines are
-- left out. Times are in microseconds.
pub mod Freshness
use pgjp_trading.Prelude.{
  String, Bool, true, false, not, ◌&&◌, Option, none, some, List, [], ◌∷◌, is_some, if◌then◌else◌,
}
use pgjp_trading.Prelude.Int.{ℤ, pos, ◌-ℤ◌, leb_ℤ}
use pgjp_trading.Decimal.{Decimal}
use pgjp_trading.Contract.{QualifiedContract}
use pgjp_trading.Broker.{MarketDataTick, mid_price}
use pgjp_trading.Keyed.{get, set, pop, values}

pub record Quote : Type 0 where
  pub con_id : ℤ
  pub symbol : String
  pub received_at : ℤ
  pub source : String
  pub bid : Option Decimal
  pub ask : Option Decimal
  pub last : Option Decimal
  pub is_delayed : Bool

-- `Quote.age_seconds`
abbrev pub age : ℤ → Quote → ℤ
age now q = now -ℤ q.received_at

-- `Quote.is_fresh`
unfoldable pub is_fresh_quote : ℤ → ℤ → Quote → Bool
is_fresh_quote max_age now q =
    if leb_ℤ max_age (pos 0) then false else leb_ℤ (pos 0) (age now q) && leb_ℤ (age now q) max_age

-- `Quote.has_prices`
abbrev pub has_prices : Quote → Bool
has_prices q = is_some (mid_price q.bid q.ask q.last)

-- `requested` lists the contract ids for which the broker was asked, the latest first.
pub record MarketDataManager : Type 0 where
  pub max_age : ℤ
  pub quotes : List (ℤ × Quote)
  pub subscribed : List (ℤ × QualifiedContract)
  pub permission_denied : List (ℤ × String)
  pub requested : List ℤ

-- How `Broker.request_market_data` ends; an error has its text.
pub data TickReply : Type 0 where
  ticked : MarketDataTick → TickReply
  permission_refused : String → TickReply
  request_failed : TickReply

abbrev pub quote_of : QualifiedContract → MarketDataTick → Quote
quote_of contract tick = record {
  con_id = contract.con_id;
  symbol = contract.symbol;
  received_at = tick.received_at;
  source = tick.source;
  bid = tick.bid;
  ask = tick.ask;
  last = tick.last;
  is_delayed = tick.is_delayed;
}

-- `MarketDataManager.record_tick`
unfoldable pub record_tick :
    QualifiedContract → MarketDataTick → MarketDataManager → Option Quote × MarketDataManager
record_tick contract tick m =
    let quote = quote_of contract tick in
    if not (has_prices quote)
    then (none, m)
    else (some quote, record m { quotes = set quote.con_id quote m.quotes })

-- The first refusal for a contract is kept.
abbrev deny : ℤ → String → List (ℤ × String) → List (ℤ × String)
deny con_id text denied = if is_some (get con_id denied) then denied else set con_id text denied

after_request : QualifiedContract → TickReply → MarketDataManager → Option Quote × MarketDataManager
after_request contract (TickReply.ticked tick) m = record_tick contract tick m
after_request contract (TickReply.permission_refused text) m =
    (none, record m { permission_denied = deny contract.con_id text m.permission_denied })
after_request contract TickReply.request_failed m = (none, m)

-- `MarketDataManager.poll`: `answer` is how the broker answers.
unfoldable pub poll :
    (QualifiedContract → TickReply)
    → QualifiedContract
    → MarketDataManager
    → Option Quote × MarketDataManager
unfolding after_request
poll answer contract m =
    after_request contract (answer contract)
      (record m { requested = contract.con_id ∷ m.requested })

-- `MarketDataManager.subscribe`
unfoldable pub subscribe :
    (QualifiedContract → TickReply) → QualifiedContract → MarketDataManager → MarketDataManager
subscribe answer contract m =
    if is_some (get contract.con_id m.subscribed)
    then m
    else (poll answer contract
        (record m { subscribed = set contract.con_id contract m.subscribed })).1

-- `MarketDataManager.unsubscribe`
unfoldable pub unsubscribe : QualifiedContract → MarketDataManager → MarketDataManager
unsubscribe contract m = record m { subscribed = pop contract.con_id m.subscribed }

-- `MarketDataManager.clear`
unfoldable pub clear : MarketDataManager → MarketDataManager
clear m = record m { quotes = []; subscribed = [] }

add_quote : Option Quote → List Quote → List Quote
add_quote none quotes = quotes
add_quote (some q) quotes = q ∷ quotes

-- The loop of `poll_all`.
poll_each :
    (QualifiedContract → TickReply)
    → List QualifiedContract
    → MarketDataManager
    → List Quote × MarketDataManager
poll_each answer [] m = ([], m)
poll_each answer (contract ∷ contracts) m =
    let (quote, m') = poll answer contract m in
    let (quotes, m'') = poll_each answer contracts m' in (add_quote quote quotes, m'')

-- `MarketDataManager.poll_all`
unfoldable pub poll_all :
    (QualifiedContract → TickReply) → MarketDataManager → List Quote × MarketDataManager
unfolding poll_each add_quote
poll_all answer m = poll_each answer (values m.subscribed) m

-- `MarketDataManager.latest`
abbrev pub latest : ℤ → MarketDataManager → Option Quote
latest con_id m = get con_id m.quotes

-- `MarketDataManager.age_seconds`
unfoldable pub age_seconds : ℤ → ℤ → MarketDataManager → Option ℤ
age_seconds con_id now m = elim (get con_id m.quotes) [ none ↦ none | some q ↦ some (age now q) ]

-- `MarketDataManager.is_fresh`
unfoldable pub is_fresh : ℤ → ℤ → MarketDataManager → Bool
is_fresh con_id now m = elim (get con_id m.quotes) [
  | none ↦ false
  | some q ↦ is_fresh_quote m.max_age now q
]
