-- ===== src/Product.antt =====
-- app/contracts/solana.py: the two products, and their lookup. Descriptions are left out, and so is
-- the trading class, which is the symbol. `strip` and `upper` are Python's methods on text.
use pgjp_trading.Prelude.{String, Option, none, List, [], ◌∷◌}
use pgjp_trading.Prelude.Int.{pos}
use pgjp_trading.Decimal.{Decimal, of_int}
use pgjp_trading.Enums.{SecurityType}
use pgjp_trading.Contract.{ContractSpec}
use pgjp_trading.Named.{get}

-- `reference_multiplier` is what `Decimal` reads from the text.
pub record FuturesProduct : Type 0 where
  pub symbol : String
  pub exchange : String
  pub currency : String
  pub reference_multiplier : Decimal
  pub reference_min_tick : Decimal
  pub mock_reference_price : Decimal

-- `FuturesProduct.spec`
abbrev pub spec : Option String → FuturesProduct → ContractSpec
spec contract_month p = record {
  symbol = p.symbol;
  sec_type = SecurityType.future;
  exchange = p.exchange;
  currency = p.currency;
  last_trade_date_or_contract_month = contract_month;
}

-- `FuturesProduct.continuous_spec`
abbrev pub continuous_spec : FuturesProduct → ContractSpec
continuous_spec p = record {
  symbol = p.symbol;
  sec_type = SecurityType.continuous_future;
  exchange = p.exchange;
  currency = p.currency;
  last_trade_date_or_contract_month = none;
}

abbrev pub micro_solana : FuturesProduct
micro_solana = record {
  symbol = "MSL";
  exchange = "CME";
  currency = "USD";
  reference_multiplier = of_int (pos 25);
  reference_min_tick = record { coefficient = pos 5; places = 2 };
  mock_reference_price = record { coefficient = pos 15000; places = 2 };
}

abbrev pub solana : FuturesProduct
solana = record {
  symbol = "SOL";
  exchange = "CME";
  currency = "USD";
  reference_multiplier = of_int (pos 500);
  reference_min_tick = record { coefficient = pos 5; places = 2 };
  mock_reference_price = record { coefficient = pos 15000; places = 2 };
}

-- `PRODUCTS`
abbrev pub products : List (String × FuturesProduct)
products = ("MSL", micro_solana) ∷ ("SOL", solana) ∷ []

-- `get_product`: none is the `KeyError`.
unfoldable pub get_product : (strip upper : String → String) → String → Option FuturesProduct
get_product strip upper symbol = get (upper (strip symbol)) products
