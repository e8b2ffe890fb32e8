-- ===== src/Bars/Stored.antt =====
-- app/backtest/store.py: importing bars a second time.
use pgjp_trading.Prelude.{
  Bool, true, ◌&&◌, List, [], ◌∷◌, ◌++◌, ◌≡◌, refl, any, all, eq_iff, arith, Bool-cases, inl, inr,
}
use pgjp_trading.Prelude.Int.{eqb_ℤ_iff}
use pgjp_trading.Bars.{Bar, same_key, is_stored, insert, insert_many}

all_true : {a b c d : Bool} → a ≡ true → b ≡ true → c ≡ true → d ≡ true → (a && b && c && d) ≡ true
all_true ha hb hc hd = ground arith

same_key_self : (b : Bar) → same_key b b ≡ true
same_key_self b =
    all_true ((eq_iff b.source b.source).1 refl) ((eq_iff b.symbol b.symbol).1 refl)
      ((eq_iff b.interval b.interval).1 refl) ((eqb_ℤ_iff b.opened_at b.opened_at).1 refl)

any-append_left : (p : Bar → Bool) (xs ys : List Bar) → any p xs ≡ true → any p (xs ++ ys) ≡ true
any-append_left p [] ys h = ground arith
any-append_left p (x ∷ xs) ys h = elim (Bool-cases (p x)) [
  | inl e ↦ rw e refl
  | inr e ↦ rw e (any-append_left p xs ys (ground arith))
]

any-append_last :
    (p : Bar → Bool) (x : Bar) (xs : List Bar) → p x ≡ true → any p (xs ++ x ∷ []) ≡ true
any-append_last p x [] h = ground arith
any-append_last p x (y ∷ xs) h = ground (arith, any-append_last p x xs h)

is_stored-insert :
    (b c : Bar) (table : List Bar)
    → is_stored b table ≡ true
    → is_stored b (insert c table).1 ≡ true
is_stored-insert b c table h = elim (Bool-cases (is_stored c table)) [
  | inl e ↦ rw e h
  | inr e ↦ rw e (any-append_left (same_key b) table (c ∷ []) h)
]

is_stored-insert_self : (b : Bar) (table : List Bar) → is_stored b (insert b table).1 ≡ true
is_stored-insert_self b table = elim (Bool-cases (is_stored b table)) [
  | inl e ↦ rw e e
  | inr e ↦ rw e (any-append_last (same_key b) b table (same_key_self b))
]

is_stored-insert_many :
    (b : Bar) (bars table : List Bar)
    → is_stored b table ≡ true
    → is_stored b (insert_many bars table).1 ≡ true
unfolding insert_many
is_stored-insert_many b [] table h = h
is_stored-insert_many b (c ∷ bars) table h =
    is_stored-insert_many b bars (insert c table).1 (is_stored-insert b c table h)

all_stored-insert_many :
    (bars table : List Bar) → all (λ b. is_stored b (insert_many bars table).1) bars ≡ true
unfolding insert_many
all_stored-insert_many [] table = refl
all_stored-insert_many (b ∷ bars) table =
    rw (is_stored-insert_many b bars (insert b table).1 (is_stored-insert_self b table))
      (all_stored-insert_many bars (insert b table).1)

insert_many-stored :
    (bars table : List Bar)
    → all (λ b. is_stored b table) bars ≡ true
    → insert_many bars table ≡ (0, table)
unfolding insert_many
insert_many-stored [] table h = refl
insert_many-stored (b ∷ bars) table h = elim (Bool-cases (is_stored b table)) [
  | inl e ↦ rw e (rw (insert_many-stored bars table (ground arith)) refl)
  | inr e ↦ ground arith
]

-- Whatever the table holds, importing the bars that were just imported adds no row and leaves every
-- row as it is.
pub insert_many-again :
    (bars table : List Bar)
    → insert_many bars (insert_many bars table).1 ≡ (0, (insert_many bars table).1)
insert_many-again bars table =
    insert_many-stored bars (insert_many bars table).1 (all_stored-insert_many bars table)
