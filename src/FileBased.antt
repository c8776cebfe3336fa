-- ===== src/FileBased.antt =====
-- src/blockchain/FileBased.{h,cpp}: the blocks of a community's blockchain and the searches over them. The
-- mutex is recursive and held by every method for its whole time. A block is what `cache::Block` offers:
-- its index and its transactions; the construction and `init` of one is given from outside.
pub mod Adding
pub mod Noting
pub mod Added
pub mod Iterating
pub mod Searching
pub mod Filtering
use gradido_node.Prelude.{
  ℕ, zero, suc, ◌+◌, ◌-◌, Bool, true, false, not, ◌&&◌, ◌||◌, List, [], ◌∷◌, ◌++◌, Option, none,
  some, ltb, leb, ◌==◌, if◌then◌else◌, length, ℤ, pos, negsuc, Outcome, ok, throw, ◌>>=◌,
  out_of_fuel, out_of_range,
}
use gradido_node.BlockIndex.{BlockIndex, get_transactions_count, has_transaction_nr}
use gradido_node.BlockIndex.Search.{
  SearchDirection, asc, desc, Filter, Surroundings, find_transactions, count_transactions,
}
use gradido_node.ExpireCache.{ExpireCache}
use gradido_node.LevelDb.{LevelDb}
use gradido_node.State.{State, read_int32_state, update_state_number}

-- What the blockchain calls of a block.
pub record BlockCalls (B T : Type 0) : Type 0 where
  pub block_index : B → BlockIndex
  pub get_transaction : ℕ → B → Outcome T

pub record FileBased (C D : Type 0) : Type 0 where
  pub blockchain_state : State D
  pub cached_blocks : C

-- The numbers that `findAllFast` has, and the size of the pages in its copy of the filter.
pub record FoundFast : Type 0 where
  pub numbers : List ℕ
  pub left : ℕ

-- A block number that was read from the state; none below zero is ever written.
abbrev pub block_number : ℤ → Outcome ℕ
block_number (pos nr) = ok nr
block_number (negsuc n) = throw out_of_range

-- Where `iterateBlocks` starts, and the block after one.
unfoldable pub first_nr : SearchDirection → ℕ → ℕ
first_nr desc last = last
first_nr asc last = 1

unfoldable pub next_nr : SearchDirection → ℕ → ℕ
next_nr desc nr = nr - 1
next_nr asc nr = suc nr

module _ {B T C D : Type 0} (db : LevelDb D) (cache : ExpireCache ℕ B C) (calls : BlockCalls B T)
    (last_block_nr : List ℕ) (init_block : ℕ → Outcome (Bool × B)) where
  unfoldable pub read_last_block_nr : FileBased C D → Outcome ℕ
  read_last_block_nr b =
      read_int32_state db last_block_nr (pos 1) b.blockchain_state >>= block_number

  -- The state takes a higher block number in.
  unfoldable pub raise_last_block_nr : ℕ → ℕ → FileBased C D → Outcome (FileBased C D)
  raise_last_block_nr nr last b =
      if ltb last nr
      then (update_state_number db last_block_nr (pos nr) b.blockchain_state >>= λ s.
          ok (record b { blockchain_state = s }))
      else ok b

  -- A block that was not there yet may be the new last one.
  unfoldable pub note_new_block : Bool → ℕ → FileBased C D → Outcome (FileBased C D)
  note_new_block true nr b = ok b
  note_new_block false nr b = read_last_block_nr b >>= λ last. raise_last_block_nr nr last b

  unfoldable pub load_block : ℕ → FileBased C D → Bool × B → Outcome (B × FileBased C D)
  load_block nr b (existed, block) = note_new_block existed nr b >>= λ b'.
      ok (block, record b' { cached_blocks = cache.add nr block b'.cached_blocks })

  unfoldable pub cached_or_loaded : ℕ → Option B × FileBased C D → Outcome (B × FileBased C D)
  cached_or_loaded nr (some block, b) = ok (block, b)
  cached_or_loaded nr (none, b) = init_block nr >>= load_block nr b

  -- `getBlock`
  unfoldable pub get_block : ℕ → FileBased C D → Outcome (B × FileBased C D)
  get_block nr b =
      let (found, c) = cache.get nr b.cached_blocks in
      cached_or_loaded nr (found, record b { cached_blocks = c })

  module _ {ℓ} {R : Type ℓ} (func : B → R → Outcome (Bool × R)) where
    -- The loop of `iterateBlocks`, which ends at an empty block too. A round goes to another block, so as
    -- many rounds as there are blocks, and one, are enough.
    unfoldable pub iterate_from :
        ℕ → SearchDirection → ℕ → ℕ → R × FileBased C D → Outcome (R × FileBased C D)
    iterate_from zero direction last nr (r, b) = throw out_of_fuel
    iterate_from (suc n) direction last nr (r, b) = get_block nr b >>= λ (block, b').
        if get_transactions_count (calls.block_index block) == 0
        then ok (r, b')
        else (func block r >>= λ (again, r').
            let next = next_nr direction nr in
            let rest = iterate_from n direction last next (r', b') in
            if again && leb 1 next && leb next last then rest else ok (r', b'))

    -- `iterateBlocks`
    unfoldable pub iterate_blocks :
        SearchDirection → R → FileBased C D → Outcome (R × FileBased C D)
    iterate_blocks direction r b = read_last_block_nr b >>= λ last.
        iterate_from (suc last) direction last (first_nr direction last) (r, b)

  -- A filter with the size of its pages, and the filter with another size; zero is one page for all.
  module _ (s : Surroundings) (resized : ℕ → Filter) (size : ℕ) (remaining : ℕ → ℕ) where
    -- The body of the loop in `findAllFast`, from the numbers found and the size of the copy on. The
    -- difference to the number found is the one of the type of the size.
    unfoldable pub find_fast : B → FoundFast → Outcome (Bool × FoundFast)
    find_fast block r =
        let numbers = r.numbers ++ find_transactions s (resized r.left) (calls.block_index block) in
        let left = if size == 0 then r.left else remaining (length numbers) in
        ok (size == 0 || not (left == 0), record { numbers = numbers; left = left })

    -- `findAllFast`
    unfoldable pub find_all_fast : FileBased C D → Outcome (FoundFast × FileBased C D)
    find_all_fast b =
        iterate_blocks find_fast (resized size).search_direction
          (record { numbers = []; left = size }) b

    unfoldable pub count_block : B → ℕ → Outcome (Bool × ℕ)
    count_block block count =
        ok (true, count + count_transactions s (resized size) (calls.block_index block))

    -- `findAllResultCount`
    unfoldable pub find_all_result_count : FileBased C D → Outcome (ℕ × FileBased C D)
    find_all_result_count b = iterate_blocks count_block (resized size).search_direction 0 b

  abbrev found_transaction : FileBased C D → Outcome T → Outcome (Option T × FileBased C D)
  found_transaction b result = result >>= λ t. ok (some t, b)

  -- The loop of `getTransactionForId`, over the block numbers downwards.
  unfoldable pub search_down : ℕ → ℕ → FileBased C D → Outcome (Option T × FileBased C D)
  search_down zero id b = ok (none, b)
  search_down (suc nr) id b = get_block (suc nr) b >>= λ (block, b').
      let rest = search_down nr id b' in
      if has_transaction_nr id (calls.block_index block)
      then found_transaction b' (calls.get_transaction id block)
      else rest

  -- `getTransactionForId`, where the last block number is above zero.
  unfoldable pub get_transaction_for_id : ℕ → FileBased C D → Outcome (Option T × FileBased C D)
  get_transaction_for_id id b = read_last_block_nr b >>= λ last. search_down last id b
