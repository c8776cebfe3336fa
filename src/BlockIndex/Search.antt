-- ===== src/BlockIndex/Search.antt =====
-- src/cache/BlockIndex.{h,cpp}: `findTransactions`, `countTransactions` and
-- `BlockIndexEntry::isMatchingFilter`.
pub mod Results
pub mod Paging
use gradido_node.Prelude.{
  ℕ, ◌+◌, Bool, true, false, ◌&&◌, ◌||◌, not, List, [], ◌∷◌, ◌++◌, ltb, leb, ◌==◌, if◌then◌else◌,
  length, take, Option, none, some,
}
use gradido_node.BlockIndex.{Entry, BlockIndex, Months, month_entries}
use gradido_node.OrderedMap.{Map}

pub data SearchDirection : Type 0 where
  asc desc : SearchDirection

-- The flags of FilterResult that the code tests.
pub data FilterResult : Type 0 where
  dismiss used stopped : FilterResult

-- What the code reads of gradido::blockchain::Filter and its pagination. A text is empty where the
-- filter does not restrict it; the public key is empty too where there is none.
pub record Filter : Type 0 where
  pub min_transaction_nr : ℕ
  pub max_transaction_nr : ℕ
  pub transaction_type : ℕ
  pub coin_community_id : List ℕ
  pub involved_public_key : List ℕ
  pub search_direction : SearchDirection
  pub skip_entries_count : ℕ
  pub has_capacity_left : ℕ → Bool

abbrev pub YearMonth : Type 0
YearMonth = ℕ × ℕ

-- What the search takes from gradido_blockchain and from the node: the number of
-- TransactionType::NONE, `getCommunityIdIndex`, the index of a public key in the dictionary (zero if
-- it is not there), the months of an interval from the oldest to the newest month that is cut to the
-- filter, and the order in which `iterateRangeInOrder` visits entries and months.
pub record Surroundings : Type 0 where
  pub no_type : ℕ
  pub community_index : List ℕ → ℕ
  pub public_key_index : List ℕ → ℕ
  pub interval : YearMonth → YearMonth → Filter → List YearMonth
  pub months_in_order : SearchDirection → List YearMonth → List YearMonth
  pub entries_in_order : SearchDirection → List Entry → List Entry

-- The loop over the address indices.
unfoldable pub contains : ℕ → List ℕ → Bool
contains k [] = false
contains k (i ∷ is) = (k == i) || contains k is

unfoldable pub first_key : Map Months → YearMonth
first_key [] = (0, 0)
first_key ((y, []) ∷ ym) = (y, 0)
first_key ((y, (m, _) ∷ _) ∷ ym) = (y, m)

last_key_of {ℓ} : {V : Type ℓ} → Map V → ℕ
last_key_of [] = 0
last_key_of ((k, _) ∷ []) = k
last_key_of ((k, _) ∷ (j, v) ∷ m) = last_key_of ((j, v) ∷ m)

unfoldable pub last_key : Map Months → YearMonth
unfolding last_key_of
last_key [] = (0, 0)
last_key ((y, ms) ∷ []) = (y, last_key_of ms)
last_key ((y, ms) ∷ (z, ns) ∷ ym) = last_key ((z, ns) ∷ ym)

-- `getOldestYearMonth` and `getNewestYearMonth`; a year without months does not occur.
unfoldable pub get_oldest_year_month : BlockIndex → YearMonth
get_oldest_year_month x = first_key x.year_month_address_index_entries

unfoldable pub get_newest_year_month : BlockIndex → YearMonth
get_newest_year_month x = last_key x.year_month_address_index_entries

-- No number of the block can lie between the bounds of the filter.
unfoldable pub prefiltered : Filter → BlockIndex → Bool
prefiltered f x =
    not (f.min_transaction_nr == 0) && ltb x.max_transaction_nr f.min_transaction_nr
    || not (f.max_transaction_nr == 0) && ltb f.max_transaction_nr x.min_transaction_nr

module _ (s : Surroundings) where
  -- `BlockIndexEntry::isMatchingFilter`: only as many indices as the count says are compared.
  unfoldable pub is_matching_filter : Filter → ℕ → Entry → FilterResult
  is_matching_filter f key e =
      let coin =
        if length f.coin_community_id == 0 then 0 else s.community_index f.coin_community_id in
      if not (f.transaction_type == s.no_type) && not (f.transaction_type == e.transaction_type)
      then dismiss
      else if not (coin == 0) && not (coin == e.coin_community_id_index)
      then dismiss
      else if not (f.min_transaction_nr == 0) && ltb e.transaction_nr f.min_transaction_nr
      then dismiss
      else if not (f.max_transaction_nr == 0) && ltb f.max_transaction_nr e.transaction_nr
      then dismiss
      else if not (key == 0) && not (contains key (take e.address_indice_count e.address_indices))
      then dismiss
      else used

  abbrev pub is_used : Filter → ℕ → Entry → Bool
  is_used f key e = elim (is_matching_filter f key e) [ used ↦ true | _ ↦ false ]

  -- The result and the cursor of the pagination, after an entry.
  unfoldable pub visit : Filter → ℕ → Entry → List ℕ × ℕ → List ℕ × ℕ
  visit f key e (result, cursor) =
      if is_used f key e
      then (
        if leb f.skip_entries_count cursor then result ++ e.transaction_nr ∷ [] else result,
        cursor + 1,
      )
      else (result, cursor)

  abbrev is_stopped : Filter → ℕ → Entry → Bool
  is_stopped f key e = elim (is_matching_filter f key e) [ stopped ↦ true | _ ↦ false ]

  -- The inner loop, over the entries of a month. It ends when the page is full.
  unfoldable pub scan_month : Filter → ℕ → List Entry → List ℕ × ℕ → List ℕ × ℕ
  scan_month f key [] st = st
  scan_month f key (e ∷ es) st =
      let st' = visit f key e st in
      let rest = scan_month f key es st' in
      if not (f.has_capacity_left (length st'.0)) || is_stopped f key e then st' else rest

  -- The outer loop, over the months. A month that is not there has no entries. The end of the inner
  -- loop does not end the outer one.
  unfoldable pub scan_months : Filter → ℕ → List YearMonth → Map Months → List ℕ × ℕ → List ℕ × ℕ
  scan_months f key [] ym st = st
  scan_months f key ((y, m) ∷ ts) ym st =
      scan_months f key ts ym
        (scan_month f key (s.entries_in_order f.search_direction (month_entries y m ym)) st)

  -- The index of the public key: zero if the filter names none, and none if it is not known.
  unfoldable pub key_of : Filter → Option ℕ
  key_of f =
      if length f.involved_public_key == 0
      then some 0
      else if s.public_key_index f.involved_public_key == 0
      then none
      else some (s.public_key_index f.involved_public_key)

  unfoldable pub visited_months : Filter → BlockIndex → List YearMonth
  visited_months f x =
      s.months_in_order f.search_direction
        (s.interval (get_oldest_year_month x) (get_newest_year_month x) f)

  unfoldable pub find_transactions : Filter → BlockIndex → List ℕ
  find_transactions f x = if prefiltered f x then [] else elim (key_of f) [
    | none ↦ []
    | some key ↦
        (scan_months f key (visited_months f x) x.year_month_address_index_entries ([], 0)).0
  ]

  unfoldable pub count_month : Filter → ℕ → List Entry → ℕ
  count_month f key [] = 0
  count_month f key (e ∷ es) = (if is_used f key e then 1 else 0) + count_month f key es

  unfoldable pub count_months : Filter → ℕ → List YearMonth → Map Months → ℕ
  count_months f key [] ym = 0
  count_months f key ((y, m) ∷ ts) ym =
      count_month f key (s.entries_in_order asc (month_entries y m ym)) + count_months f key ts ym

  unfoldable pub count_transactions : Filter → BlockIndex → ℕ
  count_transactions f x = if prefiltered f x then 0 else elim (key_of f) [
    | none ↦ 0
    | some key ↦ count_months f key (visited_months f x) x.year_month_address_index_entries
  ]
