-- ===== src/Repository/Rows.antt =====
-- app/state/repositories.py: the rows of the table `orders` by their two unique columns, the primary
-- key `internal_order_id` and `idempotency_key`.
use pgjp_trading.Prelude.{
  ◌≡◌, refl, String, Bool, true, false, Option, none, some, List, [], ◌∷◌, ◌++◌, if◌then◌else◌,
  str_eq, eq_iff, find, arith,
}
use pgjp_trading.Order.{Order}

-- `OrderRepository.get`
unfoldable pub get : String → List Order → Option Order
get id table = find (λ o. str_eq o.internal_order_id id) table

-- `OrderRepository.get_by_idempotency_key`
unfoldable pub get_by_idempotency_key : String → List Order → Option Order
get_by_idempotency_key key [] = none
get_by_idempotency_key key (o ∷ table) =
    if str_eq o.idempotency_key key then some o else get_by_idempotency_key key table

-- What `insert_if_absent` returns, with the table after it, or that it raises `DatabaseError`.
pub data Insertion : Type 0 where
  inserted : Order → Bool → List Order → Insertion
  refused : Insertion

unfoldable pub has_id : String → List Order → Bool
has_id id [] = false
has_id id (o ∷ table) = if str_eq o.internal_order_id id then true else has_id id table

-- `OrderRepository.insert_if_absent`, one caller at a time: the insertion breaks a UNIQUE constraint
-- only by the primary key, and no row with the idempotency key is then found.
unfoldable pub insert_new : Option Order → Order → List Order → Insertion
insert_new (some existing) o table = Insertion.inserted existing false table
insert_new none o table =
    if has_id o.internal_order_id table
    then Insertion.refused
    else Insertion.inserted o true (table ++ o ∷ [])

unfoldable pub insert_if_absent : Order → List Order → Insertion
unfolding insert_new
insert_if_absent o table = insert_new (get_by_idempotency_key o.idempotency_key table) o table

-- The columns that `OrderRepository.update` writes.
unfoldable pub write_columns : Order → Order → Order
write_columns o row = record row {
  updated_at = o.updated_at;
  transmitted_at = o.transmitted_at;
  status = o.status;
  broker_order_id = o.broker_order_id;
  filled_quantity = o.filled_quantity;
  average_fill_price = o.average_fill_price;
  commission = o.commission;
  commission_currency = o.commission_currency;
  error_code = o.error_code;
  error_message = o.error_message;
  block_reasons = o.block_reasons;
  account_type = o.account_type;
}

-- `OrderRepository.update`
unfoldable pub update : Order → List Order → List Order
update o [] = []
update o (row ∷ table) =
    (if str_eq row.internal_order_id o.internal_order_id then write_columns o row else row)
    ∷ update o table

-- The row of a key after an update is the old one, rewritten if it has the order's id.
abbrev pub rewrite_row : Order → Option Order → Option Order
rewrite_row o none = none
rewrite_row o (some row) =
    some (if str_eq row.internal_order_id o.internal_order_id then write_columns o row else row)

-- A lookup after an update finds the row that it found before, rewritten if the update was for it.
pub get_by_idempotency_key-update :
    (key : String) (o : Order) (table : List Order)
    → get_by_idempotency_key key (update o table) ≡ rewrite_row o (get_by_idempotency_key key table)
unfolding get_by_idempotency_key update write_columns
get_by_idempotency_key-update key o [] = refl
get_by_idempotency_key-update key o (row ∷ table) =
    ground (arith, get_by_idempotency_key-update key o table)

-- A row that a key finds has that key.
pub get_by_idempotency_key-key :
    (key : String) (table : List Order) (row : Order)
    → get_by_idempotency_key key table ≡ some row
    → row.idempotency_key ≡ key
unfolding get_by_idempotency_key
get_by_idempotency_key-key key [] row e = cc
get_by_idempotency_key-key key (x ∷ table) row e =
    ground (arith, eq_iff x.idempotency_key key, get_by_idempotency_key-key key table row)

pub get_by_idempotency_key-append :
    (key : String) (o : Order) (table : List Order)
    → get_by_idempotency_key key (table ++ o ∷ []) ≡ elim (get_by_idempotency_key key table) [
      | some row ↦ some row
      | none ↦ if str_eq o.idempotency_key key then some o else none
    ]
unfolding get_by_idempotency_key
get_by_idempotency_key-append key o [] = ground arith
get_by_idempotency_key-append key o (x ∷ table) =
    ground (arith, get_by_idempotency_key-append key o table)

-- A row that a key finds is among the ids of the table.
pub has_id-get :
    (key : String) (table : List Order) (row : Order)
    → get_by_idempotency_key key table ≡ some row
    → has_id row.internal_order_id table ≡ true
unfolding get_by_idempotency_key has_id
has_id-get key [] row e = cc
has_id-get key (x ∷ table) row e =
    ground (arith, eq_iff x.internal_order_id row.internal_order_id, has_id-get key table row)
