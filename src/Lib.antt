-- ===== src/Lib.antt =====
-- PGJP trading: a futures trading system in Python (app/), modelled and verified.
--
-- The program watches one futures contract, turns the intents of a strategy or an operator into
-- orders, and sends them to a broker behind a chain of checks: the signal validator
-- (app/signals/validator.py), the risk manager (app/risk/), the transmit gate and the kill switch
-- (app/safety/). The order manager (app/execution/order_manager.py) runs that chain and keeps each
-- order in a SQLite table (app/state/repositories.py). The application (app/main.py) connects,
-- ingests fills into the position book (app/portfolio/positions.py), and reconciles its book and its
-- orders with the broker's (app/portfolio/reconciliation.py) before it is READY.
--
-- Which file models which part:
--   Prelude       tests on numbers, results, enumerations, lists and signed integers
--   Enums         app/enums.py, with the parsing of members in Parsing
--   Decimal       the operations of Python's `decimal.Decimal` that the program uses: 28 digits,
--                 rounded half to even, with no bound on the exponent
--   Config        app/config.py: the configuration and its checks, and in its children the typed
--                 parsers (Parsing) and the reading of the environment (Environment)
--   Contract      app/contracts/models.py
--   Intent        app/signals/models.py
--   Validator     app/signals/validator.py
--   Gate          app/safety/gate.py: `TransmitGate.evaluate` is `evaluate`, and each of its
--                 `_check_...` methods a function from the reasons so far to the reasons after it
--   KillSwitch    app/safety/killswitch.py and `StateRepository`
--   Risk          app/risk/manager.py and app/risk/limits.py, in the same form
--   Order         app/execution/order_models.py: a method that changes an order is a function to the
--                 new order
--   Repository    app/state/repositories.py: `OrderRepository`, as functions on a list of rows
--   Broker        app/broker/models.py, and how a call of `Broker.place_order` may end
--   OrderManager  app/execution/order_manager.py: `submit_intent` in the steps that it takes
--                 (Pipeline), on a store of rows with a trace of the writes and the requests
--   Product, Resolver   app/contracts/solana.py and app/contracts/resolver.py
--   MockBroker    app/broker/mock_broker.py: the session and its data, and in its children the orders
--                 (Orders), the contracts (Contracts) and all calls as one type (Operations)
--   Keyed, Named, Texts   Python dicts with integer and with text keys, and text by characters
--   Positions     app/portfolio/positions.py
--   Reconciliation app/portfolio/reconciliation.py
--   MarketData    app/market_data/: quotes, polling and freshness
--   Posture       app/safety/posture.py
--   Application   app/main.py: the state of `TradingApplication`, with the operations of its loop as
--                 functions and, in Steps, as steps that may come in any order; Intents takes one
--                 intent from the validator to the order manager
--   OperatorOrder app/execution/operator_order.py: the operator's command, over Application
--   Bars          app/backtest/models.py and app/backtest/store.py, without the summary of a series
--   Samples, Examples   concrete values, and the theorems applied to them
--
-- State is passed explicitly. What the code reads from outside is an argument: the clock, drawn ids,
-- the digest of an idempotency key, `str.upper` and `str.lower`, and every answer of the broker,
-- exceptions included. Times are whole microseconds. An exception is `none` or a value of an error
-- type. Every loop is a recursion on a list, so no bound or fuel is needed.
--
-- Not modelled: log lines, recorded events, descriptions and JSON; the text form of table columns;
-- two processes writing to the database at once; the adapter to the broker's client library; the
-- command line, the health server, and the download and parsing of historical bars; the delay of
-- `ReconnectPolicy.delay_for_attempt`, which is floating-point arithmetic that can overflow; a contract
-- whose multiplier is the text of NaN or of an infinity.
pub mod Prelude
pub mod Enums
pub mod Decimal
pub mod Config
pub mod Contract
pub mod Intent
pub mod Gate
pub mod Risk
pub mod Order
pub mod Repository
pub mod Broker
pub mod OrderManager
pub mod Texts
pub mod Named
pub mod Product
pub mod MockBroker
pub mod Resolver
pub mod Keyed
pub mod Positions
pub mod Reconciliation
pub mod KillSwitch
pub mod Validator
pub mod MarketData
pub mod Posture
pub mod Application
pub mod OperatorOrder
pub mod Bars
pub mod Samples
pub mod Examples
