-- ===== src/FileBased/Searching.antt =====
-- src/blockchain/FileBased.cpp, findAllFast and findAllResultCount: one beside the other.
use gradido_node.Prelude.{
  ℕ, zero, suc, ◌≡◌, refl, ap, sym, Bool, true, ◌&&◌, leb, ◌==◌, List, [], ◌++◌, length,
  length-append, Outcome, ok, throw, ◌>>=◌, arith, Bool-cases, inl, inr,
}
use gradido_node.BlockIndex.{get_transactions_count}
use gradido_node.BlockIndex.Search.{
  SearchDirection, Filter, Surroundings, find_transactions, count_transactions,
}
use gradido_node.BlockIndex.Search.Results.{IsOrderly, IsUnpaged, count_transactions-find}
use gradido_node.ExpireCache.{ExpireCache}
use gradido_node.LevelDb.{LevelDb}
use gradido_node.FileBased.{
  BlockCalls, FileBased, FoundFast, get_block, next_nr, first_nr, iterate_from, iterate_blocks,
  read_last_block_nr, find_fast, find_all_fast, count_block, find_all_result_count,
}

pub bind_alike {ℓ κ ν} :
    {A : Type ℓ} {B : Type κ} {C : Type ν} (call : Outcome A) (f : A → Outcome B)
    (g : A → Outcome C) (h : B → Outcome C)
    → ((a : A) → g a ≡ f a >>= h)
    → call >>= g ≡ call >>= f >>= h
bind_alike (ok a) f g h same = same a
bind_alike (throw e) f g h same = refl

module _ {B T C D : Type 0} (db : LevelDb D) (cache : ExpireCache ℕ B C) (calls : BlockCalls B T)
    (last_block_nr : List ℕ) (init_block : ℕ → Outcome (Bool × B)) where
  -- Two loops over the blocks whose states keep step, and which never stop early.
  module _ {R S : Type 0} (f : B → R → Outcome (Bool × R)) (g : B → S → Outcome (Bool × S))
      (view : R → S) (step : B → R → R) (P : R → Type 0)
      (f_steps : (block : B) (r : R) → P r → f block r ≡ ok (true, step block r))
      (g_steps : (block : B) (r : R) → P r → g block (view r) ≡ ok (true, view (step block r)))
      (kept : (block : B) (r : R) → P r → P (step block r)) where
    pub iterate_from-alike :
        (n : ℕ) (d : SearchDirection) (last nr : ℕ) (r : R) (b : FileBased C D)
        → P r
        → iterate_from db cache calls last_block_nr init_block g n d last nr (view r, b)
          ≡ iterate_from db cache calls last_block_nr init_block f n d last nr (r, b)
            >>= λ (r', b'). ok (view r', b')
    unfolding iterate_from
    iterate_from-alike zero d last nr r b p = refl
    iterate_from-alike (suc n) d last nr r b p =
        bind_alike (get_block db cache calls last_block_nr init_block nr b) _ _ _ (λ (block, b').
          elim (Bool-cases (get_transactions_count (calls.block_index block) == 0)) [
            | inl empty ↦ rw empty refl
            | inr filled ↦
                rw (filled, f_steps block r p, g_steps block r p)
                  (elim (Bool-cases (leb 1 (next_nr d nr) && leb (next_nr d nr) last)) [
                    | inl more ↦ rw more (
                        iterate_from-alike n d last (next_nr d nr) (step block r) b'
                          (kept block r p))
                    | inr done ↦ rw done refl
                  ])
          ])

  module _ (s : Surroundings) (resized : ℕ → Filter) (remaining : ℕ → ℕ) where
    abbrev pub next_found : B → FoundFast → FoundFast
    next_found block r = record {
      numbers = r.numbers ++ find_transactions s (resized r.left) (calls.block_index block);
      left = r.left;
    }

    pub find_fast_steps :
        (block : B) (r : FoundFast)
        → r.left ≡ 0
        → find_fast db cache calls last_block_nr init_block s resized 0 remaining block r
          ≡ ok (true, next_found block r)
    unfolding find_fast
    find_fast_steps block r e = refl

  module _ (s : Surroundings) (resized : ℕ → Filter) (remaining : ℕ → ℕ) (o : IsOrderly s)
      (u : IsUnpaged (resized 0)) where
    count_block_steps :
        (block : B) (r : FoundFast)
        → r.left ≡ 0
        → count_block db cache calls last_block_nr init_block s resized 0 remaining block
            (length r.numbers)
          ≡ ok (true, length (next_found s resized remaining block r).numbers)
    unfolding count_block
    count_block_steps block r e =
        let x = calls.block_index block in
        let here : length (find_transactions s (resized r.left) x)
            ≡ count_transactions s (resized 0) x =
          rw e (sym (count_transactions-find s (resized 0) x o u)) in
        ap (λ n. ok (true, n))
          (omega (arith, here, length-append r.numbers (find_transactions s (resized r.left) x)))

    -- For a filter without pages, and surroundings that visit a range forwards or backwards, and forwards for
    -- ASC, findAllResultCount counts exactly the transactions that findAllFast gives, over all blocks, with
    -- the same exceptions and the same blocks loaded.
    pub find_all_result_count-find_all_fast :
        (b : FileBased C D)
        → find_all_result_count db cache calls last_block_nr init_block s resized 0 remaining b
          ≡ find_all_fast db cache calls last_block_nr init_block s resized 0 remaining b
            >>= λ (r, b'). ok (length r.numbers, b')
    unfolding find_all_result_count find_all_fast iterate_blocks
    find_all_result_count-find_all_fast b =
        bind_alike (read_last_block_nr db cache calls last_block_nr init_block b) _ _ _ (λ last.
          iterate_from-alike
            (find_fast db cache calls last_block_nr init_block s resized 0 remaining)
            (count_block db cache calls last_block_nr init_block s resized 0 remaining)
            (λ (r : FoundFast). length r.numbers) (next_found s resized remaining)
            (λ (r : FoundFast). r.left ≡ 0) (find_fast_steps s resized remaining) count_block_steps
            (λ block r e. e) (suc last) (resized 0).search_direction last
            (first_nr (resized 0).search_direction last) (record { numbers = []; left = 0 }) b refl)
