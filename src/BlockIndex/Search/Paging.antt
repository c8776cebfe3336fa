-- ===== src/BlockIndex/Search/Paging.antt =====
-- src/cache/BlockIndex.cpp: `findTransactions` with a page. The inner loop ends when the page is
-- full, but the outer one goes on to the next month.
use gradido_node.Prelude.{
  ℕ, suc, ◌+◌, ◌≡◌, true, false, List, [], ◌∷◌, ◌++◌, length, length-append, ltb, All, some, arith,
}
use gradido_node.OrderedMap.{Map}
use gradido_node.BlockIndex.{Entry, BlockIndex, Months, month_entries}
use gradido_node.BlockIndex.Search.{
  Filter, YearMonth, Surroundings, is_used, visit, scan_month, scan_months, prefiltered, key_of,
  visited_months, find_transactions,
}

-- A page of one transaction, from the start.
pub record IsSinglePage (f : Filter) : Type 0 where
  pub skips_none : f.skip_entries_count ≡ 0
  pub one : (n : ℕ) → f.has_capacity_left n ≡ ltb n 1

module _ (s : Surroundings) (f : Filter) (key : ℕ) (u : IsSinglePage f) where
  abbrev pub month_in_order : YearMonth → Map Months → List Entry
  month_in_order t ym = s.entries_in_order f.search_direction (month_entries t.0 t.1 ym)

  scan_month-first :
      (e : Entry) (es : List Entry) (st : List ℕ × ℕ)
      → is_used s f key e ≡ true
      → length (scan_month s f key (e ∷ es) st).0 ≡ suc (length st.0)
  unfolding scan_month visit
  scan_month-first e es st h = ground (
    arith,
    u.skips_none,
    u.one (length (st.0 ++ e.transaction_nr ∷ [])),
    length-append st.0 (e.transaction_nr ∷ []),
  )

  abbrev pub HeadMatches : List Entry → Type 0
  HeadMatches [] = Unit
  HeadMatches (e ∷ es) = is_used s f key e ≡ true

  abbrev pub is_filled : List Entry → ℕ
  is_filled [] = 0
  is_filled (e ∷ es) = 1

  abbrev pub filled_months : List YearMonth → Map Months → ℕ
  filled_months [] ym = 0
  filled_months (t ∷ ts) ym = is_filled (month_in_order t ym) + filled_months ts ym

  scan_month-filled :
      (es : List Entry) (st : List ℕ × ℕ)
      → HeadMatches es
      → length (scan_month s f key es st).0 ≡ is_filled es + length st.0
  unfolding scan_month
  scan_month-filled [] st h = omega arith
  scan_month-filled (e ∷ es) st h = omega (arith, scan_month-first e es st h)

  scan_months-filled :
      (ts : List YearMonth) (ym : Map Months) (st : List ℕ × ℕ)
      → All (λ t. HeadMatches (month_in_order t ym)) ts
      → length (scan_months s f key ts ym st).0 ≡ filled_months ts ym + length st.0
  unfolding scan_months
  scan_months-filled [] ym st h = omega arith
  scan_months-filled ((y, m) ∷ ts) ym st h =
      let es = month_in_order (y, m) ym in
      omega (
        arith,
        scan_month-filled es st h.0,
        scan_months-filled ts ym (scan_month s f key es st) h.1,
      )

  -- With a page of one transaction the search gives as many transactions as there are months with
  -- entries, where the first entry of each such month matches the filter, the public key of the
  -- filter is known and the bounds of the block do not end the search.
  pub length-find_transactions_page :
      (x : BlockIndex)
      → key_of s f ≡ some key
      → prefiltered f x ≡ false
      → All
          (λ t. HeadMatches (month_in_order t x.year_month_address_index_entries))
          (visited_months s f x)
      → length (find_transactions s f x)
        ≡ filled_months (visited_months s f x) x.year_month_address_index_entries
  unfolding find_transactions
  length-find_transactions_page x known inside h = ground (
    arith,
    scan_months-filled (visited_months s f x) x.year_month_address_index_entries ([], 0) h,
  )
