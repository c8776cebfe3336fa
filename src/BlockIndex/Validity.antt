-- ===== src/BlockIndex/Validity.antt =====
-- src/cache/BlockIndex.cpp: what every call leaves true of the index, also where it throws.
use gradido_node.Prelude.{
  ℕ, suc, ◌≤◌, ◌≡◌, ◌⊎◌, inl, inr, refl, Bool, true, false, List, [], ◌∷◌, arith, ltb, Bool-cases,
  Outcome, ok, throw, ℤ, pos, ltb_ℤ,
}
use gradido_node.OrderedMap.{Map, find, assign, Above, assign-Above, insert-Above}
use gradido_node.IndexFile.Reader.{Indices}
use gradido_node.BlockIndex.{
  Entry, Months, BlockIndex, NodeTransactionEntry, new_index, widen, month_entries, set_month,
  add_file_cursor, entry_of, out_of_order, add_indices, add_transaction, add_known_cursor,
  indices_of_entry, value_or, make_month, push_entry, with_result, and_then,
}
use gradido_node.BlockIndex.Entries.{
  Within, Within-raise, Within-append, AllValues, AllValues-assign, AllValues-value_or,
}

-- The months of a year are sorted, and the entries of each ascend between the bounds.
abbrev pub IsYear : ℕ → ℕ → Months → Type 0
IsYear lo hi ms = Above 0 ms × AllValues (Within lo hi) ms

pub record IsValid (x : BlockIndex) : Type 0 where
  pub bounds :
      ((x.min_transaction_nr ≡ 0) × (x.max_transaction_nr ≡ 0))
      ⊎ ((1 ≤ x.min_transaction_nr) × (x.min_transaction_nr ≤ x.max_transaction_nr))
  pub years : Above 0 x.year_month_address_index_entries
  pub rows :
      AllValues
        (IsYear x.min_transaction_nr x.max_transaction_nr)
        x.year_month_address_index_entries
  pub cursors : Above 0 x.transaction_nrs_file_cursors

pub new_index-IsValid : IsValid new_index
unfolding new_index
new_index-IsValid = record { bounds = inl (refl, refl); years = tt; rows = tt; cursors = tt }

pub add_file_cursor-IsValid :
    (nr : ℕ) (cursor : ℤ) (x : BlockIndex) → IsValid x → IsValid (add_file_cursor nr cursor x).1
unfolding add_file_cursor
add_file_cursor-IsValid nr cursor x v = ground (
  arith,
  insert-Above nr 0 cursor x.transaction_nrs_file_cursors,
  assign-Above nr 0 cursor x.transaction_nrs_file_cursors,
)

-- New bounds that reach further down and up keep the rows.
module _ (lo hi lo' hi' : ℕ) (up : hi ≤ hi') (down : (hi ≡ 0) ⊎ (lo' ≤ lo)) where
  Within-widen : (es : List Entry) → Within lo hi es → Within lo' hi' es
  Within-widen [] w = tt
  Within-widen (e ∷ es) w =
      let rest = Within-raise (suc e.transaction_nr) hi hi' es up w.3 in
      (omega arith, w.1, omega arith, rest)

  months_widen : (ms : Months) → AllValues (Within lo hi) ms → AllValues (Within lo' hi') ms
  months_widen [] a = tt
  months_widen ((m, es) ∷ ms) a = (Within-widen es a.0, months_widen ms a.1)

  years_widen : (ym : Map Months) → AllValues (IsYear lo hi) ym → AllValues (IsYear lo' hi') ym
  years_widen [] a = tt
  years_widen ((y, ms) ∷ ym) a = ((a.0.0, months_widen ms a.0.1), years_widen ym a.1)

pub widen-IsValid : (nr : ℕ) (x : BlockIndex) → 1 ≤ nr → IsValid x → IsValid (widen nr x)
unfolding widen
widen-IsValid nr x h v = record {
  bounds = ground arith;
  years = v.years;
  rows =
      years_widen x.min_transaction_nr x.max_transaction_nr _ _ (ground arith) (ground arith)
        x.year_month_address_index_entries v.rows;
  cursors = v.cursors;
}

with_dirty : (x : BlockIndex) → IsValid x → IsValid (record x { dirty = true })
with_dirty x v = record { bounds = v.bounds; years = v.years; rows = v.rows; cursors = v.cursors }

-- The number that was taken in lies between the bounds.
widen_reaches :
    (nr : ℕ) (x : BlockIndex)
    → ((widen nr x).min_transaction_nr ≤ nr) × (nr ≤ (widen nr x).max_transaction_nr)
unfolding widen
widen_reaches nr x = ground arith

pub make_month_reaches :
    (i : Indices) (x : BlockIndex)
    → ((make_month i x).min_transaction_nr ≤ i.transaction_nr)
      × (i.transaction_nr ≤ (make_month i x).max_transaction_nr)
unfolding make_month
make_month_reaches i x = widen_reaches i.transaction_nr (record x { dirty = true })

module _ (lo hi : ℕ) where
  set_month-rows :
      (y m : ℕ) (es : List Entry) (ym : Map Months)
      → Above 0 ym
      → AllValues (IsYear lo hi) ym
      → Within lo hi es
      → Above 0 (set_month y m es ym) × AllValues (IsYear lo hi) (set_month y m es ym)
  unfolding set_month
  set_month-rows y m es ym a r w =
      let year = AllValues-value_or (IsYear lo hi) [] y ym (tt, tt) r in
      let ms = value_or [] (find y ym) in
      let year' : IsYear lo hi (assign m es ms) = (
        assign-Above m 0 es ms (omega arith) year.0,
        AllValues-assign (Within lo hi) m es ms w year.1,
      ) in
      (
        assign-Above y 0 (assign m es ms) ym (omega arith) a,
        AllValues-assign (IsYear lo hi) y (assign m es ms) ym year' r,
      )

  pub month_entries-Within :
      (y m : ℕ) (ym : Map Months)
      → AllValues (IsYear lo hi) ym
      → Within lo hi (month_entries y m ym)
  unfolding month_entries
  month_entries-Within y m ym r =
      AllValues-value_or (Within lo hi) [] m (value_or [] (find y ym)) tt
        (AllValues-value_or (IsYear lo hi) [] y ym (tt, tt) r).1

-- A row is set in an index that is valid.
set_month-IsValid :
    (y m : ℕ) (es : List Entry) (x : BlockIndex)
    → IsValid x
    → Within x.min_transaction_nr x.max_transaction_nr es
    → IsValid (record x {
      year_month_address_index_entries = set_month y m es x.year_month_address_index_entries;
    })
set_month-IsValid y m es x v w =
    let rows = set_month-rows x.min_transaction_nr x.max_transaction_nr y m es _ v.years v.rows w in
    record { bounds = v.bounds; years = rows.0; rows = rows.1; cursors = v.cursors }

pub make_month-IsValid :
    (i : Indices) (x : BlockIndex) → 1 ≤ i.transaction_nr → IsValid x → IsValid (make_month i x)
unfolding make_month
make_month-IsValid i x h v =
    let w = widen i.transaction_nr (record x { dirty = true }) in
    let u = widen-IsValid i.transaction_nr (record x { dirty = true }) h (with_dirty x v) in
    set_month-IsValid i.year i.month _ w u
      (month_entries-Within w.min_transaction_nr w.max_transaction_nr i.year i.month _ u.rows)

pub push_entry-IsValid :
    (i : Indices) (x : BlockIndex)
    → IsValid x
    → 1 ≤ i.transaction_nr
    → x.min_transaction_nr ≤ i.transaction_nr
    → i.transaction_nr ≤ x.max_transaction_nr
    → out_of_order
        (month_entries i.year i.month x.year_month_address_index_entries)
        i.transaction_nr
      ≡ false
    → IsValid (push_entry i x)
unfolding push_entry entry_of
push_entry-IsValid i x v h lo hi o = set_month-IsValid i.year i.month _ x v (
    Within-append x.min_transaction_nr x.max_transaction_nr _ (entry_of i)
      (month_entries-Within x.min_transaction_nr x.max_transaction_nr i.year i.month _ v.rows) lo h
      hi o)

pub with_result-state : (b : Bool) (r : Outcome Bool × BlockIndex) → (with_result b r).1 ≡ r.1
with_result-state b (ok _, x) = refl
with_result-state b (throw _, x) = refl

-- Adding a transaction with a positive number keeps the index valid, whether the call succeeds or
-- throws: years and months are sorted, the numbers of each month ascend, and every number lies
-- between the two bounds, which are both zero only in an index without entries.
pub add_indices-IsValid :
    (i : Indices) (x : BlockIndex) → 1 ≤ i.transaction_nr → IsValid x → IsValid (add_indices i x).1
unfolding add_indices
add_indices-IsValid i x h v =
    let x' = make_month i x in
    let v' = make_month-IsValid i x h v in
    elim (Bool-cases (ltb 256 i.address_indice_count)) [
      | inl many ↦ rw many v'
      | inr few ↦
          rw few
            (elim (Bool-cases (
              out_of_order (month_entries i.year i.month x'.year_month_address_index_entries)
                i.transaction_nr)) [
                  | inl behind ↦ rw behind v'
                  | inr ahead ↦
                      rw (ahead, with_result-state true _)
                        (add_file_cursor-IsValid i.transaction_nr i.file_cursor (push_entry i x') (
                          push_entry-IsValid i x' v' h (make_month_reaches i x).0
                            (make_month_reaches i x).1 ahead))
                ])
    ]

add_known_cursor-IsValid :
    (t : NodeTransactionEntry) (x : BlockIndex) → IsValid x → IsValid (add_known_cursor t x).1
unfolding add_known_cursor
add_known_cursor-IsValid t x v = elim (Bool-cases (ltb_ℤ t.file_cursor (pos 0))) [
  | inl unknown ↦ rw unknown v
  | inr known ↦ rw known (add_file_cursor-IsValid t.transaction_nr t.file_cursor x v)
]

and_then-IsValid :
    (r : Outcome Bool × BlockIndex) (f : BlockIndex → Outcome Bool × BlockIndex)
    → IsValid r.1
    → ((y : BlockIndex) → IsValid y → IsValid (f y).1)
    → IsValid (and_then r f).1
and_then-IsValid (ok b, x) f v h = h x v
and_then-IsValid (throw e, x) f v h = v

indices_of_entry-nr :
    (f : List ℕ → ℕ) (t : NodeTransactionEntry)
    → 1 ≤ t.transaction_nr
    → 1 ≤ (indices_of_entry f t).transaction_nr
unfolding indices_of_entry
indices_of_entry-nr f t h = h

-- Adding the entry of a transaction with a positive number keeps the index valid, whether the call
-- succeeds or throws, and whatever its file cursor is.
pub add_transaction-IsValid :
    (community_index : List ℕ → ℕ) (t : NodeTransactionEntry) (x : BlockIndex)
    → 1 ≤ t.transaction_nr
    → IsValid x
    → IsValid (add_transaction community_index t x).1
unfolding add_transaction
add_transaction-IsValid f t x h v =
    and_then-IsValid (add_known_cursor t (widen t.transaction_nr x))
      (add_indices (indices_of_entry f t))
      (add_known_cursor-IsValid t _ (widen-IsValid t.transaction_nr x h v))
      λ y u. add_indices-IsValid (indices_of_entry f t) y (indices_of_entry-nr f t h) u
