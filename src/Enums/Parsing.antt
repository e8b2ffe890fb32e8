-- ===== src/Enums/Parsing.antt =====
-- app/enums.py: `_ParsableEnum.parse`, for each enumeration that inherits it. `str.strip` and
-- `str.lower` are parameters.
use pgjp_trading.Prelude.{
  String, Option, some, List, [], ◌∷◌, ◌≡◌, sym, ap, ◌∙◌, find, str_eq, eq_iff, ◌⊎◌, Bool-cases,
  inl, inr, ◌↔◌, some_injective, ◌⊎◌,
}
use pgjp_trading.Enums.{TradingMode, AccountType, OrderSide, OrderType, TimeInForce, Direction}

-- The members of an enumeration, in order, with their values.
pub record Parsable (A : Type 0) : Type 0 where
  pub members : List A
  pub value : A → String

abbrev pub trading_modes : Parsable TradingMode
trading_modes = record {
  members = TradingMode.disabled ∷ TradingMode.mock ∷ TradingMode.paper ∷ TradingMode.live ∷ [];
  value = elim [
    | TradingMode.disabled ↦ "disabled"
    | TradingMode.mock ↦ "mock"
    | TradingMode.paper ↦ "paper"
    | TradingMode.live ↦ "live"
  ];
}

abbrev pub account_types : Parsable AccountType
account_types = record {
  members = AccountType.unknown ∷ AccountType.simulated ∷ AccountType.paper ∷ AccountType.live ∷ [];
  value = elim [
    | AccountType.unknown ↦ "unknown"
    | AccountType.simulated ↦ "simulated"
    | AccountType.paper ↦ "paper"
    | AccountType.live ↦ "live"
  ];
}

abbrev pub order_sides : Parsable OrderSide
order_sides = record {
  members = OrderSide.buy ∷ OrderSide.sell ∷ [];
  value = elim [ OrderSide.buy ↦ "BUY" | OrderSide.sell ↦ "SELL" ];
}

abbrev pub order_types : Parsable OrderType
order_types = record {
  members =
      OrderType.market ∷ OrderType.limit ∷ OrderType.stop ∷ OrderType.stop_limit ∷ OrderType.bracket
      ∷ [];
  value = elim [
    | OrderType.market ↦ "MARKET"
    | OrderType.limit ↦ "LIMIT"
    | OrderType.stop ↦ "STOP"
    | OrderType.stop_limit ↦ "STOP_LIMIT"
    | OrderType.bracket ↦ "BRACKET"
  ];
}

abbrev pub times_in_force : Parsable TimeInForce
times_in_force = record {
  members = TimeInForce.day ∷ TimeInForce.gtc ∷ TimeInForce.ioc ∷ TimeInForce.fok ∷ [];
  value = elim [
    | TimeInForce.day ↦ "DAY"
    | TimeInForce.gtc ↦ "GTC"
    | TimeInForce.ioc ↦ "IOC"
    | TimeInForce.fok ↦ "FOK"
  ];
}

abbrev pub directions : Parsable Direction
directions = record {
  members = Direction.long ∷ Direction.short ∷ Direction.flat ∷ [];
  value = elim [ Direction.long ↦ "LONG" | Direction.short ↦ "SHORT" | Direction.flat ↦ "FLAT" ];
}

-- `parse`: none is the `ValueError`.
unfoldable pub parse :
    {A : Type 0} → (strip lower : String → String) → Parsable A → String → Option A
parse strip lower e text = find (λ m. str_eq (lower (e.value m)) (lower (strip text))) e.members

-- A member of the list.
abbrev pub IsMember : {A : Type 0} → A → List A → Type 0
IsMember a [] = ⊥
IsMember a (x ∷ xs) = (a ≡ x) ⊎ IsMember a xs

-- The values have no white space around them, and no two are the same in lower case.
pub record AreValues {A : Type 0} (strip lower : String → String) (e : Parsable A) : Type 0 where
  pub bare : (a : A) → strip (e.value a) ≡ e.value a
  pub distinct : (a b : A) → lower (e.value a) ≡ lower (e.value b) → a ≡ b

find-value :
    {A : Type 0} (lower : String → String) (e : Parsable A) (text : String) (a : A) (ms : List A)
    → ((x y : A) → lower (e.value x) ≡ lower (e.value y) → x ≡ y)
    → lower (e.value a) ≡ text
    → IsMember a ms
    → find (λ m. str_eq (lower (e.value m)) text) ms ≡ some a
find-value lower e text a [] distinct h mem = elim mem [ ]
find-value lower e text a (x ∷ xs) distinct h (inl same) =
    rw ((eq_iff (lower (e.value x)) text).1 (ap (λ y. lower (e.value y)) (sym same) ∙ h))
      (ap some (sym same))
find-value lower e text a (x ∷ xs) distinct h (inr later) =
    elim (Bool-cases (str_eq (lower (e.value x)) text)) [
      | inl t ↦ rw t (ap some (distinct x a ((eq_iff _ _).0 t ∙ sym h)))
      | inr t ↦ rw t (find-value lower e text a xs distinct h later)
    ]

find_sound :
    {A : Type 0} (lower : String → String) (e : Parsable A) (text : String) (a : A) (ms : List A)
    → find (λ m. str_eq (lower (e.value m)) text) ms ≡ some a
    → lower (e.value a) ≡ text
find_sound lower e text a [] h = cc
find_sound lower e text a (x ∷ xs) h = elim (Bool-cases (str_eq (lower (e.value x)) text)) [
  | inl t ↦ ap (λ y. lower (e.value y)) (sym (some_injective (rw t at h))) ∙ (eq_iff _ _).0 t
  | inr t ↦ find_sound lower e text a xs (rw t at h)
]

-- A text is parsed to a member exactly when it is that member's value, up to white space around the
-- text and upper case; so each member is parsed back from its own value. The values have no white
-- space around them and differ in lower case.
pub parse-value_iff :
    {A : Type 0} (strip lower : String → String) (e : Parsable A) (a : A)
    → AreValues strip lower e
    → IsMember a e.members
    → ((text : String)
        → (parse strip lower e text ≡ some a) ↔ (lower (e.value a) ≡ lower (strip text)))
      × (parse strip lower e (e.value a) ≡ some a)
unfolding parse
parse-value_iff strip lower e a values mem = (
  λ text. (
    find_sound lower e (lower (strip text)) a e.members,
    λ h. find-value lower e (lower (strip text)) a e.members values.distinct h mem,
  ),
  find-value lower e _ a e.members values.distinct (ap lower (sym (values.bare a))) mem,
)
