-- ===== src/Tests/Indices.antt =====
-- The block index at concrete inputs.
use gradido_node.Prelude.{
  take, ◌%◌, ℕ, ◌<◌, ◌≡◌, refl, true, ◌&&◌, if◌then◌else◌, ◌==◌, List, [], ◌∷◌, ◌++◌, length, pos,
  ℤ, ok, ◌>>=◌, arith, some, inl, inr, ltb, All, Bool, suc, zero,
}
use gradido_node.OrderedMap.{Map, find, insert, assign}
use gradido_node.IndexFile.{
  IndexFile, empty_file, push, size, add_year_block, add_month_block, add_data_block,
  new_data_block,
}
use gradido_node.IndexFile.Codec.{IsWritable}
use gradido_node.IndexFile.Scanning.{deliver}
use gradido_node.IndexFile.Reader.{Indices}
use gradido_node.Tests.Files.{platform}
use gradido_node.BlockIndex.{
  Entry, BlockIndex, NodeTransactionEntry, new_index, add_indices, make_month, month_entries,
  last_entry, push_entry, set_month, add_file_cursor, add_transaction, entry_of, out_of_order,
  widen,
}
use gradido_node.BlockIndex.Validity.{
  IsValid, new_index-IsValid, add_indices-IsValid, add_transaction-IsValid,
}
use gradido_node.BlockIndex.Cursors.{entries_at, add_indices-entries}
use gradido_node.BlockIndex.Search.{
  asc, Filter, Surroundings, find_transactions, count_transactions, visited_months, key_of,
  is_matching_filter, prefiltered, get_oldest_year_month, get_newest_year_month, first_key,
  last_key, contains,
}
use gradido_node.BlockIndex.Search.Results.{
  IsOrderly, IsUnpaged, reference_search, find_transactions-reference, count_transactions-find,
}
use gradido_node.BlockIndex.Search.Paging.{filled_months, length-find_transactions_page}
use gradido_node.BlockIndex.Persist.{
  serialize, is_unused, save_years, save_months, save_entries, save_entry, write_into_file,
  load_from_file, receive, get_file_cursor_for_transaction_nr,
}
use gradido_node.BlockIndex.Persist.Saved.{saved_years, blocks_of, write_into_file-load_from_file}
use gradido_node.BlockIndex.Persist.Waiting.{get_file_cursor_for_transaction_nr_waits}

abbrev call : Indices
call = record {
  transaction_type = 2;
  coin_community_id_index = 0;
  year = 2024;
  month = 5;
  transaction_nr = 1;
  file_cursor = pos 0;
  address_indices = 7 ∷ 8 ∷ [];
  address_indice_count = 2;
}

abbrev transaction : NodeTransactionEntry
transaction = record {
  transaction_type = 2;
  coin_community_id = [];
  year = 2024;
  month = 5;
  transaction_nr = 1;
  file_cursor = pos 0;
  address_indices = 7 ∷ 8 ∷ [];
}

abbrev entry : ℕ → Entry
entry nr = record {
  transaction_nr = nr;
  address_indices = 7 ∷ 8 ∷ [];
  coin_community_id_index = 0;
  transaction_type = 2;
  address_indice_count = 2;
}

-- Two months with an entry each.
abbrev pub index : BlockIndex
index = record {
  max_transaction_nr = 2;
  min_transaction_nr = 1;
  transaction_nrs_file_cursors = (1, pos 0) ∷ (2, pos 40) ∷ [];
  year_month_address_index_entries = (2024, (5, entry 1 ∷ []) ∷ (6, entry 2 ∷ []) ∷ []) ∷ [];
  dirty = true;
}

index-IsValid : IsValid index
index-IsValid = record {
  bounds = inr (omega arith, omega arith);
  years = (omega arith, tt);
  rows = (
    (
      (omega arith, (omega arith, tt)),
      (
        (omega arith, omega arith, omega arith, tt),
        ((omega arith, omega arith, omega arith, tt), tt),
      ),
    ),
    tt,
  );
  cursors = (omega arith, (omega arith, tt));
}

add_indices-IsValid_example : IsValid (add_indices call new_index).1
add_indices-IsValid_example = add_indices-IsValid call new_index (omega arith) new_index-IsValid

add_transaction-IsValid_example : IsValid (add_transaction (λ id. 1) transaction new_index).1
add_transaction-IsValid_example =
    add_transaction-IsValid (λ id. 1) transaction new_index (omega arith) new_index-IsValid

taken : (add_indices call new_index).0 ≡ ok true
unfolding add_indices make_month month_entries out_of_order last_entry push_entry add_file_cursor
    widen new_index find set_month entry_of insert assign
taken = refl

add_indices-entries_example : entries_at 2024 5 (add_indices call new_index).1 ≡ (
    if (2024 == 2024) && (5 == 5)
    then entries_at 2024 5 new_index
      ++ record {
        transaction_nr = call.transaction_nr;
        address_indices = take call.address_indice_count call.address_indices;
        coin_community_id_index = call.coin_community_id_index;
        transaction_type = call.transaction_type;
        address_indice_count = call.address_indice_count % 256;
      }
        ∷ []
    else entries_at 2024 5 new_index)
unfolding add_indices
add_indices-entries_example =
    add_indices-entries call new_index 2024 5 (omega arith) new_index-IsValid taken

abbrev pub surroundings : Surroundings
surroundings = record {
  no_type = 0;
  community_index = λ id. 1;
  public_key_index = λ key. 7;
  interval = λ old new f. old ∷ new ∷ [];
  months_in_order = λ d months. months;
  entries_in_order = λ d es. es;
}

abbrev filter : (ℕ → Bool) → Filter
filter has_capacity_left = record {
  min_transaction_nr = 1;
  max_transaction_nr = 0;
  transaction_type = 2;
  coin_community_id = [];
  involved_public_key = 9 ∷ [];
  search_direction = asc;
  skip_entries_count = 0;
  has_capacity_left = has_capacity_left;
}

abbrev pub unpaged : Filter
unpaged = filter (λ n. true)

abbrev paged : Filter
paged = filter (λ n. ltb n 1)

pub surroundings-IsOrderly : IsOrderly surroundings
surroundings-IsOrderly = record { ascending = λ es. refl; either = λ d es. inl refl }

pub unpaged-IsUnpaged : IsUnpaged unpaged
unpaged-IsUnpaged = record { skips_none = refl; never_full = λ n. refl }

find_transactions-reference_example :
    find_transactions surroundings unpaged index ≡ reference_search surroundings unpaged index
find_transactions-reference_example =
    find_transactions-reference surroundings unpaged index surroundings-IsOrderly unpaged-IsUnpaged
      index-IsValid

count_transactions-find_example :
    count_transactions surroundings unpaged index
    ≡ length (find_transactions surroundings unpaged index)
count_transactions-find_example =
    count_transactions-find surroundings unpaged index surroundings-IsOrderly unpaged-IsUnpaged

length-find_transactions_page_example :
    length (find_transactions surroundings paged index)
    ≡ filled_months surroundings paged 7
        (record { skips_none = refl; one = λ n. refl })
        (visited_months surroundings paged index)
        index.year_month_address_index_entries
unfolding visited_months is_matching_filter key_of prefiltered get_oldest_year_month
    get_newest_year_month first_key last_key month_entries find contains
length-find_transactions_page_example =
    length-find_transactions_page surroundings paged 7
      (record { skips_none = refl; one = λ n. refl }) index refl refl (refl, (refl, tt))

-- The file cursor of transaction 2 is set during the first sleep.
abbrev cursors_after : ℕ → Map ℤ
cursors_after zero = (2, pos 0) ∷ []
cursors_after (suc n) = (2, pos 40) ∷ []

zero_before : (j : ℕ) → j < 1 → find 2 (cursors_after j) ≡ some (pos 0)
unfolding find
zero_before zero h = refl
zero_before (suc j) h = absurd (omega arith)

get_file_cursor_for_transaction_nr_waits_example :
    get_file_cursor_for_transaction_nr cursors_after 2 ≡ some (pos 40)
unfolding find
get_file_cursor_for_transaction_nr_waits_example =
    get_file_cursor_for_transaction_nr_waits 1 cursors_after 2 (pos 40) (omega arith) (omega arith)
      (omega arith) zero_before refl refl

abbrev saved_file : IndexFile
saved_file = record { data_blocks = blocks_of index; data_block_sum_size = 61 }

writable : All (IsWritable platform) (blocks_of index)
unfolding new_data_block find
writable = (
  omega arith,
  (
    omega arith,
    (
      record {
        nr_fits = omega arith;
        cursor_fits = ground arith;
        type_fits = omega arith;
        type_known = refl;
        coin_fits = omega arith;
        count_fits = omega arith;
        count_eq = refl;
        indices_fit = omega arith;
      },
      (
        omega arith,
        (
          record {
            nr_fits = omega arith;
            cursor_fits = ground arith;
            type_fits = omega arith;
            type_known = refl;
            coin_fits = omega arith;
            count_fits = omega arith;
            count_eq = refl;
            indices_fit = omega arith;
          },
          tt,
        ),
      ),
    ),
  ),
)

write_into_file-load_from_file_example :
    (bytes : List ℕ) × (write_into_file platform index ≡ ok (some bytes))
    × (load_from_file platform bytes new_index ≡ (
        deliver receive
          (saved_years index.transaction_nrs_file_cursors index.year_month_address_index_entries)
          new_index
        >>= λ z'. ok (true, z')))
unfolding serialize is_unused save_years save_months save_entries save_entry add_year_block
    add_month_block add_data_block push size empty_file find new_data_block
write_into_file-load_from_file_example =
    write_into_file-load_from_file platform index new_index saved_file refl writable
      (tt, (tt, (refl, (tt, (refl, tt))))) (omega arith)
