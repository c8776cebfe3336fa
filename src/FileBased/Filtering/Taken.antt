-- ===== src/FileBased/Filtering/Taken.antt =====
-- src/blockchain/FileBased.cpp, findAll beside findAllFast.
use gradido_node.Prelude.{
  ℕ, suc, length, ◌≡◌, refl, ap, sym, ◌∙◌, Bool, true, false, List, [], ◌∷◌, ◌++◌, append_assoc,
  append-nil, All, if◌then◌else◌, Outcome, ok, ◌>>=◌, Bool-cases, inl, inr,
}
use gradido_node.BlockIndex.Search.{Filter, Surroundings, find_transactions}
use gradido_node.BlockIndex.Search.Results.{IsUnpaged}
use gradido_node.ExpireCache.{ExpireCache}
use gradido_node.LevelDb.{LevelDb}
use gradido_node.FileBased.{
  BlockCalls, FileBased, FoundFast, first_nr, iterate_blocks, read_last_block_nr, find_fast,
  find_all_fast,
}
use gradido_node.FileBased.Searching.{bind_alike, iterate_from-alike, next_found, find_fast_steps}
use gradido_node.FileBased.Filtering.{Found, take_all, find_in, find_all}

-- The transactions of numbers that a filter function uses, in their order.
abbrev pub used : {T : Type 0} → (T → Bool × Bool) → (ℕ → T) → List ℕ → List T
used matches transaction_of [] = []
used matches transaction_of (nr ∷ nrs) =
    if (matches (transaction_of nr)).0
    then transaction_of nr ∷ used matches transaction_of nrs
    else used matches transaction_of nrs

used-append :
    {T : Type 0} (matches : T → Bool × Bool) (transaction_of : ℕ → T) (xs ys : List ℕ)
    → used matches transaction_of (xs ++ ys)
      ≡ used matches transaction_of xs ++ used matches transaction_of ys
used-append matches transaction_of [] ys = refl
used-append matches transaction_of (x ∷ xs) ys = elim (Bool-cases (matches (transaction_of x)).0) [
  | inl taken ↦
      rw taken (ap (λ ts. transaction_of x ∷ ts) (used-append matches transaction_of xs ys))
  | inr left_out ↦ rw left_out (used-append matches transaction_of xs ys)
]

-- What `findAll` has where `findAllFast` has its numbers.
abbrev pub found : {T : Type 0} → (T → Bool × Bool) → (ℕ → T) → FoundFast → Found T
found matches transaction_of r = record {
  transactions = used matches transaction_of r.numbers;
  left = r.left;
  stopped = false;
}

module _ {B T C D : Type 0} (db : LevelDb D) (cache : ExpireCache ℕ B C) (calls : BlockCalls B T)
    (last_block_nr : List ℕ) (init_block : ℕ → Outcome (Bool × B)) (s : Surroundings)
    (resized : ℕ → Filter) (remaining : ℕ → ℕ) (matches : T → Bool × Bool) (transaction_of : ℕ → T)
    (u : IsUnpaged (resized 0)) (goes_on : (t : T) → (matches t).1 ≡ false) where
  abbrev with_transactions : Found T → List T → Found T
  with_transactions r ts = record r { transactions = ts }

  take_all_lem :
      (block : B) (nrs : List ℕ) (r : Found T)
      → All (λ nr. calls.get_transaction nr block ≡ ok (transaction_of nr)) nrs
      → take_all db cache calls last_block_nr init_block s resized 0 remaining matches block nrs r
        ≡ ok (true, with_transactions r (r.transactions ++ used matches transaction_of nrs))
  unfolding take_all
  take_all_lem block [] r known =
      ap (λ ts. ok (true, with_transactions r ts)) (sym (append-nil r.transactions))
  take_all_lem block (nr ∷ nrs) r (here, known) =
      rw (u.never_full (length r.transactions), here, goes_on (transaction_of nr))
        (elim (Bool-cases (matches (transaction_of nr)).0) [
          | inl taken ↦ rw taken (
              take_all_lem block nrs
                (with_transactions r (r.transactions ++ transaction_of nr ∷ [])) known
              ∙ ap (λ ts. ok (true, with_transactions r ts))
                  (append_assoc r.transactions (transaction_of nr ∷ [])
                    (used matches transaction_of nrs)))
          | inr left_out ↦ rw left_out (take_all_lem block nrs r known)
        ])

  module _
      (known : (block : B)
        → All
            (λ nr. calls.get_transaction nr block ≡ ok (transaction_of nr))
            (find_transactions s (resized 0) (calls.block_index block))) where
    find_in_steps :
        (block : B) (r : FoundFast)
        → r.left ≡ 0
        → find_in db cache calls last_block_nr init_block s resized 0 remaining matches block
            (found matches transaction_of r)
          ≡ ok (
            true,
            found matches transaction_of
                (next_found db cache calls last_block_nr init_block s resized remaining block r),
          )
    unfolding find_in
    find_in_steps block r e =
        let nrs = find_transactions s (resized 0) (calls.block_index block) in
        let r0 : Found T = record {
          transactions = used matches transaction_of r.numbers;
          left = 0;
          stopped = false;
        } in
        rw (e, take_all_lem block nrs r0 (known block))
          (ap (λ ts. ok (true, with_transactions r0 ts))
            (sym (used-append matches transaction_of r.numbers nrs)))

    -- For a filter without pages and a filter function that never stops the search, where every block answers
    -- the numbers that its index gives, findAll gives exactly the transactions to the numbers of
    -- findAllFast that the function uses, in the same order, with the same exceptions and the same
    -- blocks loaded.
    pub find_all-find_all_fast :
        (b : FileBased C D)
        → find_all db cache calls last_block_nr init_block s resized 0 remaining matches b
          ≡ find_all_fast db cache calls last_block_nr init_block s resized 0 remaining b
            >>= λ (r, b'). ok (found matches transaction_of r, b')
    unfolding find_all find_all_fast iterate_blocks
    find_all-find_all_fast b =
        bind_alike (read_last_block_nr db cache calls last_block_nr init_block b) _ _ _ (λ last.
          iterate_from-alike db cache calls last_block_nr init_block
            (find_fast db cache calls last_block_nr init_block s resized 0 remaining)
            (find_in db cache calls last_block_nr init_block s resized 0 remaining matches)
            (found matches transaction_of)
            (next_found db cache calls last_block_nr init_block s resized remaining)
            (λ (r : FoundFast). r.left ≡ 0)
            (find_fast_steps db cache calls last_block_nr init_block s resized remaining)
            find_in_steps (λ block r e. e) (suc last) (resized 0).search_direction last
            (first_nr (resized 0).search_direction last) (record { numbers = []; left = 0 }) b refl)
