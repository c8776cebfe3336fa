-- ===== src/BlockIndex/Search/Results.antt =====
-- src/cache/BlockIndex.cpp: what `findTransactions` and `countTransactions` find.
use mathlib.Core.List.{reverse-cons}
use gradido_node.Prelude.{
  ℕ, suc, ◌≤◌, ◌≡◌, ◌⊎◌, inl, inr, refl, sym, ap, ◌∙◌, true, false, List, [], ◌∷◌, ◌++◌, reverse,
  append-nil, append_assoc, length, length-append, none, some, arith, Option-cases, if◌then◌else◌,
}
use gradido_node.OrderedMap.{Map}
use gradido_node.BlockIndex.{Entry, BlockIndex, Months, month_entries}
use gradido_node.BlockIndex.Entries.{Within}
use gradido_node.BlockIndex.Validity.{IsValid, month_entries-Within}
use gradido_node.BlockIndex.Search.{
  SearchDirection, asc, Filter, YearMonth, Surroundings, is_matching_filter, is_used, is_stopped,
  visit, scan_month, scan_months, prefiltered, key_of, visited_months, find_transactions,
  count_month, count_months, count_transactions,
}

length-reverse : (ns : List ℕ) → length (reverse ns) ≡ length ns
length-reverse [] = refl
length-reverse (n ∷ ns) =
    omega
      (arith, ap length (reverse-cons n ns), length-append (reverse ns) (n ∷ []), length-reverse ns)

-- `iterateRangeInOrder` visits a range forwards or backwards, and forwards for ASC.
pub record IsOrderly (s : Surroundings) : Type 0 where
  pub ascending : (es : List Entry) → s.entries_in_order asc es ≡ es
  pub either :
      (d : SearchDirection) (es : List Entry)
      → (s.entries_in_order d es ≡ es) ⊎ (s.entries_in_order d es ≡ reverse es)

-- A filter that asks for everything on one page.
pub record IsUnpaged (f : Filter) : Type 0 where
  pub skips_none : f.skip_entries_count ≡ 0
  pub never_full : (n : ℕ) → f.has_capacity_left n ≡ true

module _ (s : Surroundings) (f : Filter) (key : ℕ) where
  -- The numbers of the entries that match.
  abbrev pub matching : List Entry → List ℕ
  matching [] = []
  matching (e ∷ es) = if is_used s f key e then e.transaction_nr ∷ matching es else matching es

  abbrev pub all_matching : List YearMonth → Map Months → List ℕ
  all_matching [] ym = []
  all_matching ((y, m) ∷ ts) ym =
      matching (s.entries_in_order f.search_direction (month_entries y m ym)) ++ all_matching ts ym

  never_stopped : (e : Entry) → is_stopped s f key e ≡ false
  unfolding is_matching_filter
  never_stopped e = ground arith

  module _ (u : IsUnpaged f) where
    visit-all :
        (e : Entry) (st : List ℕ × ℕ)
        → (visit s f key e st).0
          ≡ (if is_used s f key e then st.0 ++ e.transaction_nr ∷ [] else st.0)
    unfolding visit
    visit-all e st = ground (arith, u.skips_none)

    scan_month-all :
        (es : List Entry) (st : List ℕ × ℕ) → (scan_month s f key es st).0 ≡ st.0 ++ matching es
    unfolding scan_month
    scan_month-all [] st = sym (append-nil st.0)
    scan_month-all (e ∷ es) st = ground (
      arith,
      u.never_full (length (visit s f key e st).0),
      never_stopped e,
      visit-all e st,
      scan_month-all es (visit s f key e st),
      append_assoc st.0 (e.transaction_nr ∷ []) (matching es),
    )

    scan_months-all :
        (ts : List YearMonth) (ym : Map Months) (st : List ℕ × ℕ)
        → (scan_months s f key ts ym st).0 ≡ st.0 ++ all_matching ts ym
    unfolding scan_months
    scan_months-all [] ym st = sym (append-nil st.0)
    scan_months-all ((y, m) ∷ ts) ym st =
        let es = s.entries_in_order f.search_direction (month_entries y m ym) in
        scan_months-all ts ym (scan_month s f key es st)
        ∙ ap (λ (l : List ℕ). l ++ all_matching ts ym) (scan_month-all es st)
        ∙ append_assoc st.0 (matching es) (all_matching ts ym)

  -- Where the prefilter answers, no entry of a valid index matches.
  module _ (x : BlockIndex) (out : prefiltered f x ≡ true) where
    not_used :
        (lo : ℕ) (e : Entry)
        → x.min_transaction_nr ≤ lo
        → lo ≤ e.transaction_nr
        → e.transaction_nr ≤ x.max_transaction_nr
        → is_used s f key e ≡ false
    unfolding prefiltered is_matching_filter
    not_used lo e a b c = ground arith

    matching-none :
        (lo : ℕ) (es : List Entry)
        → x.min_transaction_nr ≤ lo
        → Within lo x.max_transaction_nr es
        → matching es ≡ []
    matching-none lo [] a w = refl
    matching-none lo (e ∷ es) a w =
        rw (not_used lo e a w.0 w.2) (matching-none (suc e.transaction_nr) es (omega arith) w.3)

  matching-append : (es gs : List Entry) → matching (es ++ gs) ≡ matching es ++ matching gs
  matching-append [] gs = refl
  matching-append (e ∷ es) gs = ground (arith, matching-append es gs)

  matching-reverse : (es : List Entry) → matching (reverse es) ≡ reverse (matching es)
  matching-reverse [] = refl
  matching-reverse (e ∷ es) = ground (
    arith,
    reverse-cons e es,
    matching-append (reverse es) (e ∷ []),
    matching-reverse es,
    reverse-cons e.transaction_nr (matching es),
    append-nil (reverse (matching es)),
  )

  module _ (o : IsOrderly s) where
    matching_in_order :
        (d : SearchDirection) (es : List Entry)
        → (matching (s.entries_in_order d es) ≡ matching es)
          ⊎ (matching (s.entries_in_order d es) ≡ reverse (matching es))
    matching_in_order d es = elim (o.either d es) [
      | inl same ↦ inl (ap matching same)
      | inr back ↦ inr (ap matching back ∙ matching-reverse es)
    ]

    all_matching-none :
        (x : BlockIndex) (ts : List YearMonth)
        → IsValid x
        → prefiltered f x ≡ true
        → all_matching ts x.year_month_address_index_entries ≡ []
    all_matching-none x [] v out = refl
    all_matching-none x ((y, m) ∷ ts) v out =
        let es = month_entries y m x.year_month_address_index_entries in
        let w = month_entries-Within x.min_transaction_nr x.max_transaction_nr y m _ v.rows in
        let empty = matching-none x out x.min_transaction_nr es (omega arith) w in
        let rest = all_matching-none x ts v out in
        elim (matching_in_order f.search_direction es) [
          | inl same ↦ rw (same, empty) rest
          | inr back ↦ rw (back, empty) rest
        ]

    length-matching_in_order :
        (d : SearchDirection) (es : List Entry)
        → length (matching (s.entries_in_order d es)) ≡ length (matching es)
    length-matching_in_order d es = elim (matching_in_order d es) [
      | inl same ↦ ap length same
      | inr back ↦ ap length back ∙ length-reverse (matching es)
    ]

    count_month-eq : (es : List Entry) → count_month s f key es ≡ length (matching es)
    unfolding count_month
    count_month-eq [] = refl
    count_month-eq (e ∷ es) = ground (arith, count_month-eq es)

    count_months-eq :
        (ts : List YearMonth) (ym : Map Months)
        → count_months s f key ts ym ≡ length (all_matching ts ym)
    unfolding count_months
    count_months-eq [] ym = refl
    count_months-eq ((y, m) ∷ ts) ym =
        let es = month_entries y m ym in
        omega (
          arith,
          count_month-eq (s.entries_in_order asc es),
          length-matching_in_order asc es,
          length-matching_in_order f.search_direction es,
          count_months-eq ts ym,
          length-append (matching (s.entries_in_order f.search_direction es)) (all_matching ts ym),
        )

module _ (s : Surroundings) (f : Filter) (x : BlockIndex) where
  -- The search by definition: every entry of every month in question is looked at.
  abbrev pub reference_search : List ℕ
  reference_search = elim (key_of s f) [
    | none ↦ []
    | some key ↦ all_matching s f key (visited_months s f x) x.year_month_address_index_entries
  ]

  -- For a filter without pages, and surroundings that visit a range forwards or backwards, and forwards
  -- for ASC, the search in a valid index gives the numbers of all entries that match, month by month
  -- and in the order of the search, also where it ends early on the bounds of the block.
  pub find_transactions-reference :
      IsOrderly s → IsUnpaged f → IsValid x → find_transactions s f x ≡ reference_search
  unfolding find_transactions
  find_transactions-reference o u v =
      let ts = visited_months s f x in
      let ym = x.year_month_address_index_entries in
      elim (Option-cases (key_of s f)) [
        | inl unknown ↦ ground arith
        | inr (key, known) ↦
            ground
              (arith, scan_months-all s f key u ts ym ([], 0), all_matching-none s f key o x ts v)
      ]

  -- For a filter without pages, and surroundings that visit a range forwards or backwards, and forwards
  -- for ASC, the count is the number of transactions that the search finds.
  pub count_transactions-find :
      IsOrderly s → IsUnpaged f → count_transactions s f x ≡ length (find_transactions s f x)
  unfolding find_transactions count_transactions
  count_transactions-find o u =
      let ts = visited_months s f x in
      let ym = x.year_month_address_index_entries in
      elim (Option-cases (key_of s f)) [
        | inl unknown ↦ ground arith
        | inr (key, known) ↦
            ground (arith, scan_months-all s f key u ts ym ([], 0), count_months-eq s f key o ts ym)
      ]
