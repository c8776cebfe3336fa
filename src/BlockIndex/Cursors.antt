-- ===== src/BlockIndex/Cursors.antt =====
-- src/cache/BlockIndex.cpp: what a call that succeeds has put into the index.
use gradido_node.Prelude.{
  take, ◌%◌, ℕ, ◌≤◌, ◌<◌, ◌≡◌, inl, inr, refl, ◌∙◌, true, ◌&&◌, List, [], ◌∷◌, ◌++◌, Option, none,
  some, arith, ◌==◌, if◌then◌else◌, Option-cases, ok, ℤ, pos,
}
use gradido_node.OrderedMap.{Map, find, Above, find-insert, find-assign}
use gradido_node.IndexFile.Reader.{Indices}
use gradido_node.BlockIndex.{
  Entry, Months, BlockIndex, widen, month_entries, set_month, add_file_cursor, entry_of,
  add_indices, make_month, push_entry, has_transaction_nr, is_zero,
}
use gradido_node.BlockIndex.Entries.{AllValues, month_entries-set_month}
use gradido_node.BlockIndex.Validity.{
  IsValid, IsYear, make_month-IsValid, with_result-state, make_month_reaches,
}

abbrev pub entries_at : ℕ → ℕ → BlockIndex → List Entry
entries_at y m x = month_entries y m x.year_month_address_index_entries

module _ (lo hi : ℕ) where
  sorted_months : (ym : Map Months) → AllValues (IsYear lo hi) ym → AllValues (λ ms. Above 0 ms) ym
  sorted_months [] a = tt
  sorted_months ((y, ms) ∷ ym) a = (a.0.0, sorted_months ym a.1)

entries_at-set :
    (y m y' m' : ℕ) (es : List Entry) (x : BlockIndex)
    → IsValid x
    → month_entries y' m' (set_month y m es x.year_month_address_index_entries)
      ≡ (if (y == y') && (m == m') then es else entries_at y' m' x)
entries_at-set y m y' m' es x v =
    month_entries-set_month y m y' m' es _ v.years (sorted_months _ _ _ v.rows)

make_month-entries :
    (i : Indices) (x : BlockIndex) (y m : ℕ)
    → IsValid x
    → entries_at y m (make_month i x) ≡ entries_at y m x
unfolding make_month widen
make_month-entries i x y m v =
    month_entries-set_month i.year i.month y m (entries_at i.year i.month x) _ v.years
      (sorted_months _ _ _ v.rows)
    ∙ ground arith

push_entry-entries :
    (i : Indices) (x : BlockIndex) (y m : ℕ)
    → IsValid x
    → entries_at y m (push_entry i x) ≡ (
        if (i.year == y) && (i.month == m)
        then entries_at i.year i.month x ++ entry_of i ∷ []
        else entries_at y m x)
unfolding push_entry
push_entry-entries i x y m v = entries_at-set i.year i.month y m _ x v

add_file_cursor-rows :
    (nr : ℕ) (cursor : ℤ) (x : BlockIndex)
    → (add_file_cursor nr cursor x).1.year_month_address_index_entries
      ≡ x.year_month_address_index_entries
unfolding add_file_cursor
add_file_cursor-rows nr cursor x = ground arith

-- Where adding a transaction to a valid index does not throw, an entry stands at the end of its month
-- with the transaction number, type and community of the call and as many of its address indices as
-- the call says, and every other month has the entries that it had.
pub add_indices-entries :
    (i : Indices) (x : BlockIndex) (y m : ℕ)
    → 1 ≤ i.transaction_nr
    → IsValid x
    → (add_indices i x).0 ≡ ok true
    → entries_at y m (add_indices i x).1 ≡ (
        if (i.year == y) && (i.month == m)
        then entries_at y m x
          ++ record {
            transaction_nr = i.transaction_nr;
            address_indices = take i.address_indice_count i.address_indices;
            coin_community_id_index = i.coin_community_id_index;
            transaction_type = i.transaction_type;
            address_indice_count = i.address_indice_count % 256;
          }
            ∷ []
        else entries_at y m x)
unfolding add_indices entry_of
add_indices-entries i x y m h v taken =
    let x' = make_month i x in
    let v' = make_month-IsValid i x h v in
    let x'' = push_entry i x' in
    ground (
      arith,
      with_result-state true (add_file_cursor i.transaction_nr i.file_cursor x''),
      add_file_cursor-rows i.transaction_nr i.file_cursor x'',
      push_entry-entries i x' y m v',
      make_month-entries i x y m v,
      make_month-entries i x i.year i.month v,
    )

add_file_cursor-bounds :
    (nr : ℕ) (cursor : ℤ) (x : BlockIndex)
    → ((add_file_cursor nr cursor x).1.min_transaction_nr ≡ x.min_transaction_nr)
      × ((add_file_cursor nr cursor x).1.max_transaction_nr ≡ x.max_transaction_nr)
unfolding add_file_cursor
add_file_cursor-bounds nr cursor x = ground arith

push_entry-bounds :
    (i : Indices) (x : BlockIndex)
    → ((push_entry i x).min_transaction_nr ≡ x.min_transaction_nr)
      × ((push_entry i x).max_transaction_nr ≡ x.max_transaction_nr)
unfolding push_entry
push_entry-bounds i x = (refl, refl)

abbrev pub settled : Option ℤ → ℤ → ℤ
settled none c = c
settled (some old) c = if is_zero old then c else old

-- After a call of `addIndicesForTransaction` the index says that it has the transaction number, also
-- where the call threw and the entry was not taken.
pub add_indices_claims :
    (i : Indices) (x : BlockIndex) → has_transaction_nr i.transaction_nr (add_indices i x).1 ≡ true
unfolding add_indices has_transaction_nr
add_indices_claims i x = ground (
  arith,
  make_month_reaches i x,
  push_entry-bounds i (make_month i x),
  with_result-state true
      (add_file_cursor i.transaction_nr i.file_cursor (push_entry i (make_month i x))),
  add_file_cursor-bounds i.transaction_nr i.file_cursor (push_entry i (make_month i x)),
)

-- The file cursor of a transaction is kept if it is there and not zero, and is otherwise the new one;
-- the others stay. It holds for a file cursor that is greater than zero, in a valid index.
add_file_cursor-find :
    (nr n : ℕ) (c : ℕ) (x : BlockIndex)
    → IsValid x
    → 0 < c
    → find n (add_file_cursor nr (pos c) x).1.transaction_nrs_file_cursors ≡ (
        if nr == n
        then some (settled (find nr x.transaction_nrs_file_cursors) (pos c))
        else find n x.transaction_nrs_file_cursors)
unfolding add_file_cursor
add_file_cursor-find nr n c x v h = elim (Option-cases (find nr x.transaction_nrs_file_cursors)) [
  | inl new ↦
      ground (arith, find-insert nr n (pos c) 0 x.transaction_nrs_file_cursors v.cursors, new)
  | inr (old, there) ↦
      ground (arith, find-assign nr n (pos c) 0 x.transaction_nrs_file_cursors v.cursors, there)
]
