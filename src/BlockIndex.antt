-- ===== src/BlockIndex.antt =====
-- src/cache/BlockIndex.{h,cpp}: the index of a block in memory. The recursive mutex is held by every
-- method for its whole time, but for the waiting loop of `getFileCursorForTransactionNr`.
pub mod Entries
pub mod Cursors
pub mod Validity
pub mod Search
pub mod Persist
use gradido_node.Prelude.{
  ℕ, ◌+◌, ◌-◌, ◌%◌, ◌^◌, Bool, true, false, ◌&&◌, ◌||◌, not, List, [], ◌∷◌, ◌++◌, Option, none,
  some, ltb, leb, ◌==◌, if◌then◌else◌, length, take, ℤ, pos, negsuc, ltb_ℤ, Outcome, ok, throw,
  invalid_data, block_index_exception, invalid_file_cursor, is_some,
}
use gradido_node.OrderedMap.{Map, find, insert, assign}
use gradido_node.IndexFile.Reader.{Indices}

-- `struct BlockIndexEntry`
pub record Entry : Type 0 where
  pub transaction_nr : ℕ
  pub address_indices : List ℕ
  pub coin_community_id_index : ℕ
  pub transaction_type : ℕ
  pub address_indice_count : ℕ

abbrev pub Months : Type 0
Months = Map (List Entry)

pub record BlockIndex : Type 0 where
  pub max_transaction_nr : ℕ
  pub min_transaction_nr : ℕ
  pub transaction_nrs_file_cursors : Map ℤ
  pub year_month_address_index_entries : Map Months
  pub dirty : Bool

-- The constructor.
unfoldable pub new_index : BlockIndex
new_index = record {
  max_transaction_nr = 0;
  min_transaction_nr = 0;
  transaction_nrs_file_cursors = [];
  year_month_address_index_entries = [];
  dirty = false;
}

-- `reset`, and what `exit` leaves in memory: the maps and both bounds are cleared.
unfoldable pub clear : BlockIndex → BlockIndex
clear x = record x {
  max_transaction_nr = 0;
  min_transaction_nr = 0;
  transaction_nrs_file_cursors = [];
  year_month_address_index_entries = [];
}

-- The bounds take a transaction number in.
unfoldable pub widen : ℕ → BlockIndex → BlockIndex
widen nr x = record x {
  max_transaction_nr = if ltb x.max_transaction_nr nr then nr else x.max_transaction_nr;
  min_transaction_nr =
      if x.min_transaction_nr == 0 || ltb nr x.min_transaction_nr then nr else x.min_transaction_nr;
}

abbrev value_or {ℓ} : {A : Type ℓ} → A → Option A → A
value_or a none = a
value_or _ (some b) = b

-- The entries of a month, and none if the month or its year is not there.
unfoldable pub month_entries : ℕ → ℕ → Map Months → List Entry
month_entries year month ym = value_or [] (find month (value_or [] (find year ym)))

unfoldable pub last_entry : List Entry → Option Entry
last_entry [] = none
last_entry (e ∷ []) = some e
last_entry (e ∷ f ∷ es) = last_entry (f ∷ es)

-- The year and the month are made if they are not there, and the entries of the month set.
unfoldable pub set_month : ℕ → ℕ → List Entry → Map Months → Map Months
set_month year month es ym = assign year (assign month es (value_or [] (find year ym))) ym

abbrev pub is_zero : ℤ → Bool
is_zero (pos n) = n == 0
is_zero (negsuc n) = false

-- `addFileCursorForTransaction`
unfoldable pub add_file_cursor : ℕ → ℤ → BlockIndex → Outcome Bool × BlockIndex
add_file_cursor nr cursor x =
    if ltb_ℤ cursor (pos 0)
    then (ok false, x)
    else if is_zero cursor && ltb x.min_transaction_nr nr
    then (throw invalid_file_cursor, x)
    else elim (find nr x.transaction_nrs_file_cursors) [
      | none ↦ (
        ok true,
        record x {
          dirty = true;
          transaction_nrs_file_cursors = insert nr cursor x.transaction_nrs_file_cursors;
        },
      )
      | some old ↦
          if is_zero old
          then (
            ok true,
            record x {
              dirty = true;
              transaction_nrs_file_cursors = assign nr cursor x.transaction_nrs_file_cursors;
            },
          )
          else (ok false, record x { dirty = true })
    ]

unfoldable pub entry_of : Indices → Entry
entry_of i = record {
  transaction_nr = i.transaction_nr;
  address_indices = take i.address_indice_count i.address_indices;
  coin_community_id_index = i.coin_community_id_index;
  transaction_type = i.transaction_type;
  address_indice_count = i.address_indice_count % 256;
}

-- The month is not empty and ends with a number that is not below the new one.
unfoldable pub out_of_order : List Entry → ℕ → Bool
unfolding last_entry
out_of_order es nr = elim (last_entry es) [ none ↦ false | some e ↦ leb nr e.transaction_nr ]

abbrev with_result {ℓ} : {A B : Type ℓ} → B → Outcome A × BlockIndex → Outcome B × BlockIndex
with_result b (ok _, x) = (ok b, x)
with_result b (throw e, x) = (throw e, x)

-- The bounds take the number in, and the year and the month are there.
unfoldable pub make_month : Indices → BlockIndex → BlockIndex
make_month i x0 =
    let x = widen i.transaction_nr (record x0 { dirty = true }) in
    let ym = x.year_month_address_index_entries in
    record x {
      year_month_address_index_entries =
          set_month i.year i.month (month_entries i.year i.month ym) ym;
    }

-- `push_back` of the new entry.
unfoldable pub push_entry : Indices → BlockIndex → BlockIndex
push_entry i x =
    let ym = x.year_month_address_index_entries in
    record x {
      year_month_address_index_entries =
          set_month i.year i.month (month_entries i.year i.month ym ++ entry_of i ∷ []) ym;
    }

-- `addIndicesForTransaction` of the receiver interface. What it changed before it throws stays.
unfoldable pub add_indices : Indices → BlockIndex → Outcome Bool × BlockIndex
add_indices i x0 =
    let x = make_month i x0 in
    if ltb 256 i.address_indice_count
    then (throw invalid_data, x)
    else if out_of_order (month_entries i.year i.month x.year_month_address_index_entries)
        i.transaction_nr
    then (throw block_index_exception, x)
    else with_result true (add_file_cursor i.transaction_nr i.file_cursor (push_entry i x))

-- What `addIndicesForTransaction` asks of a NodeTransactionEntry.
pub record NodeTransactionEntry : Type 0 where
  pub transaction_type : ℕ
  pub coin_community_id : List ℕ
  pub year : ℕ
  pub month : ℕ
  pub transaction_nr : ℕ
  pub file_cursor : ℤ
  pub address_indices : List ℕ

-- `getCommunityIdIndex` of the FileBasedProvider is asked if the id is not empty; the number of
-- address indices is cast to uint16_t.
unfoldable pub indices_of_entry : (List ℕ → ℕ) → NodeTransactionEntry → Indices
indices_of_entry community_index t = record {
  transaction_type = t.transaction_type;
  coin_community_id_index =
      if length t.coin_community_id == 0 then 0 else community_index t.coin_community_id;
  year = t.year;
  month = t.month;
  transaction_nr = t.transaction_nr;
  file_cursor = t.file_cursor;
  address_indices = t.address_indices;
  address_indice_count = length t.address_indices % 2 ^ 16;
}

-- The first call of `addFileCursorForTransaction`, for a file cursor that is known.
unfoldable pub add_known_cursor : NodeTransactionEntry → BlockIndex → Outcome Bool × BlockIndex
add_known_cursor t x =
    if ltb_ℤ t.file_cursor (pos 0)
    then (ok false, x)
    else add_file_cursor t.transaction_nr t.file_cursor x

abbrev and_then {ℓ} :
    {A : Type ℓ}
    → Outcome A × BlockIndex
    → (BlockIndex → Outcome A × BlockIndex)
    → Outcome A × BlockIndex
and_then (ok _, x) f = f x
and_then (throw e, x) f = (throw e, x)

-- `addIndicesForTransaction` of a new transaction.
unfoldable pub add_transaction :
    (List ℕ → ℕ) → NodeTransactionEntry → BlockIndex → Outcome Bool × BlockIndex
add_transaction community_index t x =
    and_then (add_known_cursor t (widen t.transaction_nr x))
      (add_indices (indices_of_entry community_index t))

unfoldable pub first_and_last : List Entry → ℕ × ℕ
unfolding last_entry
first_and_last [] = (0, 0)
first_and_last (e ∷ es) = elim (last_entry (e ∷ es)) [
  | none ↦ (0, 0)
  | some l ↦ (e.transaction_nr, l.transaction_nr)
]

-- `findTransactionsForMonthYear`. The source does not look whether a month that is there has entries;
-- for an empty one this gives zeros.
unfoldable pub find_transactions_for_month_year : ℕ → ℕ → BlockIndex → ℕ × ℕ
unfolding month_entries first_and_last
find_transactions_for_month_year year month x =
    first_and_last (month_entries year month x.year_month_address_index_entries)

unfoldable pub has_transaction_nr : ℕ → BlockIndex → Bool
has_transaction_nr nr x = leb x.min_transaction_nr nr && leb nr x.max_transaction_nr

-- The subtraction of two uint64_t and the sum wrap.
unfoldable pub get_transactions_count : BlockIndex → ℕ
get_transactions_count x =
    if x.max_transaction_nr == 0 && x.min_transaction_nr == 0
    then 0
    else (x.max_transaction_nr + 2 ^ 64 - x.min_transaction_nr + 1) % 2 ^ 64
