-- ===== src/Application/Ingestion.antt =====
-- app/main.py: fills are applied to the book once.
use pgjp_trading.Prelude.{
  String, Bool, true, false, Option, List, [], ◌∷◌, map, ◌≡◌, refl, arith, if◌then◌else◌,
  Bool-cases, inl, inr, any, str_eq, eq_iff,
}
use pgjp_trading.Prelude.Int.{ℤ, ◌+ℤ◌}
use pgjp_trading.Contract.{QualifiedContract}
use pgjp_trading.Broker.{BrokerFill}
use pgjp_trading.Positions.{PositionBook, quantity, apply_fill}
use pgjp_trading.Positions.Fills.{IsValid, apply_all-IsValid, apply_all, net, quantity-apply_all}
use pgjp_trading.Application.{execution_for, record_fill, ingest_fills}

abbrev pub is_known : String → List String → Bool
is_known id known = any (λ i. str_eq i id) known

-- The fills with an execution id that is neither known nor that of an earlier fill.
unfoldable pub new_fills : List String → List BrokerFill → List BrokerFill
new_fills known [] = []
new_fills known (f ∷ fills) =
    if is_known f.execution_id known
    then new_fills known fills
    else f ∷ new_fills (f.execution_id ∷ known) fills

abbrev noted : Bool → String → List String → Bool × List String
noted b id known = if b then (false, known) else (true, id ∷ known)

-- One fill, known or new.
ingest-step :
    (contract : Option QualifiedContract) (f : BrokerFill) (fills : List BrokerFill)
    (known : List String) (book : PositionBook)
    → ingest_fills contract (f ∷ fills) (known, book) ≡ (
        if is_known f.execution_id known
        then ingest_fills contract fills (known, book)
        else ingest_fills contract fills
            (f.execution_id ∷ known, (apply_fill (execution_for contract f) book).1))
unfolding ingest_fills record_fill
ingest-step contract f fills known book = go (is_known f.execution_id known)
  where
    go :
        (b : Bool)
        → ingest_fills contract fills (
          (noted b f.execution_id known).1,
          if (noted b f.execution_id known).0
              then (apply_fill (execution_for contract f) book).1
              else book,
        )
          ≡ (if b
              then ingest_fills contract fills (known, book)
              else ingest_fills contract fills
                  (f.execution_id ∷ known, (apply_fill (execution_for contract f) book).1))
    go true = refl
    go false = refl

-- The book takes exactly the executions of the new fills.
ingested-book :
    (contract : Option QualifiedContract) (fills : List BrokerFill) (known : List String)
    (book : PositionBook)
    → (ingest_fills contract fills (known, book)).1
      ≡ apply_all (map (execution_for contract) (new_fills known fills)) book
unfolding new_fills apply_all ingest_fills
ingested-book contract [] known book = refl
ingested-book contract (f ∷ fills) known book = elim (Bool-cases (is_known f.execution_id known)) [
  | inl e ↦
      rw (ingest-step contract f fills known book, e) (ingested-book contract fills known book)
  | inr e ↦
      rw (ingest-step contract f fills known book, e)
        (ingested-book contract fills (f.execution_id ∷ known) _)
]

ingested-keeps :
    (contract : Option QualifiedContract) (fills : List BrokerFill) (id : String)
    (known : List String) (book : PositionBook)
    → is_known id known ≡ true
    → is_known id (ingest_fills contract fills (known, book)).0 ≡ true
unfolding ingest_fills
ingested-keeps contract [] id known book h = h
ingested-keeps contract (f ∷ fills) id known book h =
    elim (Bool-cases (is_known f.execution_id known)) [
      | inl e ↦
          rw (ingest-step contract f fills known book, e)
            (ingested-keeps contract fills id known book h)
      | inr e ↦
          rw (ingest-step contract f fills known book, e)
            (ingested-keeps contract fills id (f.execution_id ∷ known) _ (ground (arith, h)))
    ]

-- Every fill of a list is known.
abbrev pub AreKnown : List BrokerFill → List String → Type 0
AreKnown [] known = Unit
AreKnown (f ∷ fills) known = (is_known f.execution_id known ≡ true) × AreKnown fills known

ingested-AreKnown :
    (contract : Option QualifiedContract) (fills : List BrokerFill) (known : List String)
    (book : PositionBook)
    → AreKnown fills (ingest_fills contract fills (known, book)).0
unfolding ingest_fills
ingested-AreKnown contract [] known book = tt
ingested-AreKnown contract (f ∷ fills) known book =
    elim (Bool-cases (is_known f.execution_id known)) [
      | inl e ↦
          rw (ingest-step contract f fills known book, e)
            (
              ingested-keeps contract fills f.execution_id known book e,
              ingested-AreKnown contract fills known book,
            )
      | inr e ↦
          rw (ingest-step contract f fills known book, e)
            (
              ingested-keeps contract fills f.execution_id (f.execution_id ∷ known) _
                  (rw ((eq_iff f.execution_id f.execution_id).1 refl) refl),
              ingested-AreKnown contract fills (f.execution_id ∷ known) _,
            )
    ]

ingest-AreKnown :
    (contract : Option QualifiedContract) (fills : List BrokerFill) (known : List String)
    (book : PositionBook)
    → AreKnown fills known
    → ingest_fills contract fills (known, book) ≡ (known, book)
unfolding ingest_fills
ingest-AreKnown contract [] known book h = refl
ingest-AreKnown contract (f ∷ fills) known book (e, h) =
    rw (ingest-step contract f fills known book, e) (ingest-AreKnown contract fills known book h)

-- Reading the same fills again changes nothing: neither the known executions nor the book, whichever
-- contract is selected by then.
pub ingest_fills-again :
    (contract later : Option QualifiedContract) (fills : List BrokerFill) (known : List String)
    (book : PositionBook)
    → ingest_fills later fills (ingest_fills contract fills (known, book))
      ≡ ingest_fills contract fills (known, book)
ingest_fills-again contract later fills known book =
    ingest-AreKnown later fills (ingest_fills contract fills (known, book)).0
      (ingest_fills contract fills (known, book)).1 (ingested-AreKnown contract fills known book)

-- Ingesting fills moves each contract's quantity by the signed sum of the executions whose id was not
-- known, each id counted once, and by nothing else.
pub quantity-ingest_fills :
    (c : ℤ) (contract : Option QualifiedContract) (fills : List BrokerFill) (known : List String)
    (book : PositionBook)
    → quantity c (ingest_fills contract fills (known, book)).1
      ≡ quantity c book +ℤ net c (map (execution_for contract) (new_fills known fills))
quantity-ingest_fills c contract fills known book =
    rw (ingested-book contract fills known book)
      (quantity-apply_all c (map (execution_for contract) (new_fills known fills)) book)

-- A well-formed book stays well formed.
pub ingest_fills-IsValid :
    (contract : Option QualifiedContract) (fills : List BrokerFill) (known : List String)
    (book : PositionBook)
    → IsValid book
    → IsValid (ingest_fills contract fills (known, book)).1
ingest_fills-IsValid contract fills known book v =
    rw (ingested-book contract fills known book)
      (apply_all-IsValid (map (execution_for contract) (new_fills known fills)) book v)
