-- ===== src/FileBased/Filtering.antt =====
-- src/blockchain/FileBased.cpp, findAll: the transactions that a filter with a function of its own uses.
-- `Filter::matches` with that function is a parameter, which says of a transaction whether it is used and
-- whether the search stops.
pub mod Taken
use gradido_node.Prelude.{
  ℕ, ◌+◌, Bool, true, false, not, ◌&&◌, ◌||◌, List, [], ◌∷◌, ◌++◌, ◌==◌, if◌then◌else◌, length,
  Outcome, ok, ◌>>=◌,
}
use gradido_node.BlockIndex.Search.{Filter, Surroundings, find_transactions}
use gradido_node.ExpireCache.{ExpireCache}
use gradido_node.LevelDb.{LevelDb}
use gradido_node.FileBased.{BlockCalls, FileBased, iterate_blocks}

-- The local state of `findAll`: its result, the size of the pages in the copy of the filter, and whether
-- the function has stopped the search.
pub record Found (T : Type 0) : Type 0 where
  pub transactions : List T
  pub left : ℕ
  pub stopped : Bool

module _ {B T C D : Type 0} (db : LevelDb D) (cache : ExpireCache ℕ B C) (calls : BlockCalls B T)
    (last_block_nr : List ℕ) (init_block : ℕ → Outcome (Bool × B)) (s : Surroundings)
    (resized : ℕ → Filter) (size : ℕ) (remaining : ℕ → ℕ) (matches : T → Bool × Bool) where
  -- The transaction is put into the result if it is used.
  abbrev pub take_in : Bool → T → Found T → Found T
  take_in true t r = record r { transactions = r.transactions ++ t ∷ [] }
  take_in false t r = r

  -- The loop over the numbers of a block. The Boolean says whether the function goes on behind the loop.
  unfoldable pub take_all : B → List ℕ → Found T → Outcome (Bool × Found T)
  take_all block [] r = ok (true, r)
  take_all block (nr ∷ nrs) r =
      if (resized size).has_capacity_left (length r.transactions)
      then (calls.get_transaction nr block >>= λ t.
          let r' = take_in (matches t).0 t r in
          let rest = take_all block nrs r' in
          if (matches t).1 then ok (true, record r' { stopped = true }) else rest)
      else ok (false, r)

  -- What stands behind the loop.
  abbrev pub after_loop : Bool × Found T → Outcome (Bool × Found T)
  after_loop (false, r) = ok (false, r)
  after_loop (true, r) =
      let left = if size == 0 then r.left else remaining (length r.transactions) in
      ok ((size == 0 || not (left == 0)) && not r.stopped, record r { left = left })

  unfoldable pub find_in : B → Found T → Outcome (Bool × Found T)
  find_in block r =
      take_all block (find_transactions s (resized r.left) (calls.block_index block)) r
      >>= after_loop

  -- `findAll`
  unfoldable pub find_all : FileBased C D → Outcome (Found T × FileBased C D)
  find_all b =
      iterate_blocks db cache calls last_block_nr init_block find_in (resized size).search_direction
        (record { transactions = []; left = size; stopped = false }) b
