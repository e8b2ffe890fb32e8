-- ===== src/Config/Ranges.antt =====
-- app/config.py: the ranges that the typed parsers and the sections of the configuration keep.
use pgjp_trading.Prelude.{
  Ensures-nothing, ◌>>=◌, ℕ, ◌≤◌, ◌≢◌, String, Bool, false, Option, none, some, ◌≡◌, refl, arith,
  Result, Ensures, Ensures-bind, Ensures-refuse,
}
use pgjp_trading.Prelude.Int.{ℤ, pos, ltb_ℤ, eqb_ℤ, pos_part}
use pgjp_trading.Decimal.{Decimal, zero_decimal, lt_decimal}
use pgjp_trading.Enums.{trading_mode_enumeration}
use pgjp_trading.Config.{RiskLimits, IbkrConfig, ReconnectPolicy, ConfigError}
use pgjp_trading.Config.Parsing.{
  Library, Environment, Number, raw, above, check_int, read_int, parse_int, check_decimal,
  read_decimal, parse_decimal, check_float, read_float, parse_float, parse_bool,
}
use pgjp_trading.Config.Environment.{one, ibkr_from_env, reconnect_from_env, risk_from_env}

abbrev pub InRange : ℤ → Option ℤ → ℤ → Type 0
InRange minimum maximum n = (ltb_ℤ n minimum ≡ false) × (above n maximum ≡ false)

pub parse_int-InRange :
    (l : Library) (env : Environment) (name : String) (default minimum : ℤ) (maximum : Option ℤ)
    → InRange minimum maximum default
    → Ensures (InRange minimum maximum) (parse_int l env name default minimum maximum)
unfolding parse_int
parse_int-InRange l env name default minimum maximum h = go (raw l env name)
  where
    checked : (o : Option ℤ) → Ensures (InRange minimum maximum) (check_int name minimum maximum o)
    checked none = tt
    checked (some n) = Ensures-refuse (InRange minimum maximum) (ltb_ℤ n minimum) _ _ (λ low.
        Ensures-refuse (InRange minimum maximum) (above n maximum) _ _ (λ high. (low, high)))

    go :
        (o : Option String)
        → Ensures (InRange minimum maximum) (read_int l name default minimum maximum o)
    go none = h
    go (some value) = checked (l.int value)

-- In a given order.
abbrev pub AtLeast : {A : Type 0} → (A → A → Bool) → A → A → Type 0
AtLeast below minimum n = below n minimum ≡ false

parse_float-AtLeast :
    {A : Type 0}
    → (below : A → A → Bool) (l : Library) (read : String → Number A) (env : Environment)
      (name : String) (default minimum : A)
    → AtLeast below minimum default
    → Ensures (AtLeast below minimum) (parse_float below l read env name default minimum)
unfolding parse_float
parse_float-AtLeast {A} below l read env name default minimum h = go (raw l env name)
  where
    checked : (n : Number A) → Ensures (AtLeast below minimum) (check_float below name minimum n)
    checked Number.refused = tt
    checked Number.not_finite = tt
    checked (Number.finite n) =
        Ensures-refuse (AtLeast below minimum) (below n minimum) _ _ (λ low. low)

    go :
        (o : Option String)
        → Ensures (AtLeast below minimum) (read_float below read name default minimum o)
    go none = h
    go (some value) = checked (read value)

abbrev NotBelow : Decimal → Decimal → Type 0
NotBelow minimum d = lt_decimal d minimum ≡ false

parse_decimal-NotBelow :
    (l : Library) (env : Environment) (name : String) (default minimum : Decimal)
    → NotBelow minimum default
    → Ensures (NotBelow minimum) (parse_decimal l env name default minimum)
unfolding parse_decimal
parse_decimal-NotBelow l env name default minimum h = go (raw l env name)
  where
    checked : (n : Number Decimal) → Ensures (NotBelow minimum) (check_decimal name minimum n)
    checked Number.refused = tt
    checked Number.not_finite = tt
    checked (Number.finite d) =
        Ensures-refuse (NotBelow minimum) (lt_decimal d minimum) _ _ (λ low. low)

    go : (o : Option String) → Ensures (NotBelow minimum) (read_decimal l name default minimum o)
    go none = h
    go (some value) = checked (l.decimal value)

-- No limit is negative.
pub record AreLimits (r : RiskLimits) : Type 0 where
  pub position : ltb_ℤ r.max_position_contracts (pos 0) ≡ false
  pub size : ltb_ℤ r.max_order_size (pos 0) ≡ false
  pub loss : lt_decimal r.max_daily_loss_usd zero_decimal ≡ false
  pub orders : ltb_ℤ r.max_orders_per_hour (pos 0) ≡ false
  pub working : ltb_ℤ r.max_open_orders (pos 0) ≡ false
  pub notional : lt_decimal r.max_notional_exposure_usd zero_decimal ≡ false

module _ {B : Type 0} (Q : B → Type 0) (l : Library) (env : Environment) (name : String) where
  pub after_int :
      (default minimum : ℤ) (maximum : Option ℤ) (f : ℤ → Result ConfigError B)
      → InRange minimum maximum default
      → ((n : ℤ) → InRange minimum maximum n → Ensures Q (f n))
      → Ensures Q (parse_int l env name default minimum maximum >>= f)
  after_int default minimum maximum f h =
      Ensures-bind (InRange minimum maximum) Q _ f
        (parse_int-InRange l env name default minimum maximum h)

  pub after_float :
      {A : Type 0}
      → (below : A → A → Bool) (read : String → Number A) (default minimum : A)
        (f : A → Result ConfigError B)
      → AtLeast below minimum default
      → ((n : A) → AtLeast below minimum n → Ensures Q (f n))
      → Ensures Q (parse_float below l read env name default minimum >>= f)
  after_float below read default minimum f h =
      Ensures-bind (AtLeast below minimum) Q _ f
        (parse_float-AtLeast below l read env name default minimum h)

  pub after_decimal :
      (default minimum : Decimal) (f : Decimal → Result ConfigError B)
      → NotBelow minimum default
      → ((d : Decimal) → NotBelow minimum d → Ensures Q (f d))
      → Ensures Q (parse_decimal l env name default minimum >>= f)
  after_decimal default minimum f h =
      Ensures-bind (NotBelow minimum) Q _ f (parse_decimal-NotBelow l env name default minimum h)

  -- Whatever a flag is read as.
  pub after_bool :
      (default : Bool) (f : Bool → Result ConfigError B)
      → ((b : Bool) → Ensures Q (f b))
      → Ensures Q (parse_bool l env name default >>= f)
  after_bool default f h =
      Ensures-bind (λ (b : Bool). Unit) Q _ f (Ensures-nothing (parse_bool l env name default))
        (λ b u. h b)

zero-NotBelow : NotBelow zero_decimal zero_decimal
unfolding lt_decimal
zero-NotBelow = refl

pub risk_from_env-AreLimits :
    (l : Library) (env : Environment) → Ensures AreLimits (risk_from_env l env)
unfolding risk_from_env
risk_from_env-AreLimits l env =
    after_int AreLimits l env "MAX_POSITION_CONTRACTS" (pos 0) (pos 0) none _ (refl, refl)
      λ a p.
        after_int AreLimits l env "MAX_ORDER_SIZE" (pos 0) (pos 0) none _ (refl, refl)
          λ b q.
            after_decimal AreLimits l env "MAX_DAILY_LOSS_USD" zero_decimal zero_decimal _
              zero-NotBelow
              λ c r.
                after_int AreLimits l env "MAX_ORDERS_PER_HOUR" (pos 0) (pos 0) none _ (refl, refl)
                  λ d s.
                    after_int AreLimits l env "MAX_OPEN_ORDERS" (pos 0) (pos 0) none _ (refl, refl)
                      λ e t.
                        after_decimal AreLimits l env "MAX_NOTIONAL_EXPOSURE_USD" zero_decimal
                          zero_decimal _ zero-NotBelow
                          λ f u. record {
                            position = p.0;
                            size = q.0;
                            loss = r;
                            orders = s.0;
                            working = t.0;
                            notional = u;
                          }

-- The ports are two different ports, and the client ids two different numbers of 31 bits.
pub record AreEndpoints (c : IbkrConfig) : Type 0 where
  pub paper : (1 ≤ c.paper_port) × (c.paper_port ≤ 65535)
  pub live : (1 ≤ c.live_port) × (c.live_port ≤ 65535)
  pub ports : c.paper_port ≢ c.live_port
  pub clients : (c.client_id ≤ 2147483647) × (c.admin_client_id ≤ 2147483647)
  pub own : c.client_id ≢ c.admin_client_id

InRange-ℕ :
    (n : ℤ) (low high : ℕ)
    → InRange (pos low) (some (pos high)) n
    → (low ≤ pos_part n) × (pos_part n ≤ high)
InRange-ℕ n low high (a, b) = (ground (arith, a), ground (arith, a, b))

different :
    (m n : ℤ) (a b c d : ℕ)
    → InRange (pos a) (some (pos b)) m
    → InRange (pos c) (some (pos d)) n
    → eqb_ℤ m n ≡ false
    → pos_part m ≢ pos_part n
different m n a b c d p q h e = ground (arith, p, q, h, e)

pub ibkr_from_env-AreEndpoints :
    (l : Library) (env : Environment) → Ensures AreEndpoints (ibkr_from_env l env)
unfolding ibkr_from_env
ibkr_from_env-AreEndpoints l env =
    after_int AreEndpoints l env "IB_PAPER_PORT" (pos 4002) (pos 1) (some (pos 65535)) _
      (refl, refl)
      λ a p.
        after_int AreEndpoints l env "IB_LIVE_PORT" (pos 4001) (pos 1) (some (pos 65535)) _
          (refl, refl)
          λ b q. Ensures-refuse AreEndpoints (eqb_ℤ a b) _ _ λ ports.
            after_int AreEndpoints l env "IB_CLIENT_ID" (pos 10) (pos 0) (some (pos 2147483647)) _
              (refl, refl)
              λ c r.
                after_int AreEndpoints l env "IB_ADMIN_CLIENT_ID" (pos 110) (pos 0)
                  (some (pos 2147483647)) _ (refl, refl)
                  λ d s. Ensures-refuse AreEndpoints (eqb_ℤ c d) _ _ λ own.
                    after_float AreEndpoints l env "IB_CONNECT_TIMEOUT_SECONDS" ltb_ℤ l.seconds
                      (pos 15000000) (pos 1000000) _ refl
                      λ e t. record {
                        paper = InRange-ℕ a 1 65535 p;
                        live = InRange-ℕ b 1 65535 q;
                        ports = different a b 1 65535 1 65535 p q ports;
                        clients = ((InRange-ℕ c 0 2147483647 r).1, (InRange-ℕ d 0 2147483647 s).1);
                        own = different c d 0 2147483647 0 2147483647 r s own;
                      }

-- The delays are at least a tenth of a second, the first is at most the ceiling, and the
-- multiplier is at least one.
pub record IsBackoff (p : ReconnectPolicy) : Type 0 where
  pub initial : 100000 ≤ p.initial_seconds
  pub ceiling : p.initial_seconds ≤ p.max_seconds
  pub multiplier : lt_decimal p.multiplier one ≡ false

two-NotBelow : NotBelow one (record { coefficient = pos 2; places = 0 })
unfolding lt_decimal
two-NotBelow = refl

pub reconnect_from_env-IsBackoff :
    (l : Library) (env : Environment) → Ensures IsBackoff (reconnect_from_env l env)
unfolding reconnect_from_env
reconnect_from_env-IsBackoff l env =
    after_float IsBackoff l env "RECONNECT_INITIAL_SECONDS" ltb_ℤ l.seconds (pos 2000000)
      (pos 100000) _ refl
      λ a p.
        after_float IsBackoff l env "RECONNECT_MAX_SECONDS" ltb_ℤ l.seconds (pos 300000000)
          (pos 100000) _ refl
          λ b q. Ensures-refuse IsBackoff (ltb_ℤ b a) _ _ λ ordered.
            after_float IsBackoff l env "RECONNECT_MULTIPLIER" lt_decimal l.factor _ one _
              two-NotBelow
              λ c r.
                after_int IsBackoff l env "RECONNECT_MAX_ATTEMPTS" (pos 0) (pos 0) none _
                  (refl, refl)
                  λ d s. record {
                    initial = ground (arith, p);
                    ceiling = ground (arith, ordered, q);
                    multiplier = r;
                  }
