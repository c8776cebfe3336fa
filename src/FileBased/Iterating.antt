-- ===== src/FileBased/Iterating.antt =====
-- src/blockchain/FileBased.cpp, iterateBlocks: that the loop ends, and two loops beside each other.
use gradido_node.Prelude.{
  ℕ, zero, suc, ◌-◌, ◌<◌, ◌≡◌, ◌≢◌, refl, Bool, true, false, ◌&&◌, leb, ◌==◌, ℤ, pos, negsuc, ltb,
  Option, none, some, Option-cases, List, Outcome, ok, throw, ◌>>=◌, out_of_fuel, arith, Bool-cases,
  inl, inr,
}
use gradido_node.BlockIndex.{get_transactions_count}
use gradido_node.BlockIndex.Search.{SearchDirection, asc, desc}
use gradido_node.ExpireCache.{ExpireCache}
use gradido_node.Decimal.{to_string_int}
use gradido_node.LevelDb
use gradido_node.LevelDb.{LevelDb, LevelDbWrapper, Status, fine, io_error, other_error, stored}
use gradido_node.State.{State, read_with, read_int32_state, update_state, update_state_number}
use gradido_node.FileBased.{
  BlockCalls, FileBased, block_number, raise_last_block_nr, note_new_block, load_block,
  cached_or_loaded, get_block, next_nr, first_nr, iterate_from, iterate_blocks, read_last_block_nr,
}

-- How many rounds are left at most.
abbrev pub rounds : SearchDirection → ℕ → ℕ → ℕ
rounds desc last nr = nr
rounds asc last nr = suc last - nr

rounds_fall :
    (n : ℕ) (d : SearchDirection) (last nr : ℕ)
    → leb 1 (next_nr d nr) ≡ true
    → leb (next_nr d nr) last ≡ true
    → rounds d last nr < suc n
    → rounds d last (next_nr d nr) < n
unfolding next_nr
rounds_fall n desc last nr low high few = ground arith
rounds_fall n asc last nr low high few = ground arith

bind_total {ℓ κ} :
    {A : Type ℓ} {B : Type κ} (call : Outcome A) (next : A → Outcome B)
    → call ≢ throw out_of_fuel
    → ((a : A) → call ≡ ok a → next a ≢ throw out_of_fuel)
    → call >>= next ≢ throw out_of_fuel
bind_total (ok a) next here after = after a refl
bind_total (throw e) next here after = λ h. here (ground arith)

-- The state throws other exceptions only.
module _ {D : Type 0} (db : LevelDb D) where
  read_int32_state-total :
      (k : List ℕ) (z : ℤ) (s : State D) → read_int32_state db k z s ≢ throw out_of_fuel
  unfolding read_int32_state read_with LevelDb.get_value_for_key
  read_int32_state-total k z s h = elim (Option-cases (LevelDb.get db k s.state_file.folder)) [
    | inl missing ↦ ground arith
    | inr (text, found) ↦ ground arith
  ]

  stored-total : (w : LevelDbWrapper D) (r : Status × D) → stored db w r ≢ throw out_of_fuel
  stored-total w (fine, d) h = ground arith
  stored-total w (io_error, d) h = ground arith
  stored-total w (other_error, d) h = ground arith

  set_key_value-total :
      (k v : List ℕ) (w : LevelDbWrapper D) → LevelDb.set_key_value db k v w ≢ throw out_of_fuel
  unfolding LevelDb.set_key_value
  set_key_value-total k v w = elim (Bool-cases w.is_open) [
    | inl running ↦
        rw running (stored-total (record w { is_open = true }) (LevelDb.put db k v w.folder))
    | inr closed ↦ rw closed (λ h. ground arith)
  ]

  update_state_number-total :
      (k : List ℕ) (z : ℤ) (s : State D) → update_state_number db k z s ≢ throw out_of_fuel
  unfolding update_state_number update_state
  update_state_number-total k z s = elim (Bool-cases s.initialized) [
    | inl ready ↦ rw ready (
        bind_total (LevelDb.set_key_value db k (to_string_int z) s.state_file) _
          (set_key_value-total k (to_string_int z) s.state_file) (λ w e h. ground arith))
    | inr not_ready ↦ rw not_ready (λ h. ground arith)
  ]

module _ {B T C D : Type 0} (db : LevelDb D) (cache : ExpireCache ℕ B C) (calls : BlockCalls B T)
    (last_block_nr : List ℕ) (init_block : ℕ → Outcome (Bool × B))
    (ready : (nr : ℕ) → init_block nr ≢ throw out_of_fuel) where
  block_number-total : (z : ℤ) → block_number z ≢ throw out_of_fuel
  block_number-total (pos n) h = ground arith
  block_number-total (negsuc n) h = ground arith

  read_last_block_nr-total :
      (b : FileBased C D)
      → read_last_block_nr db cache calls last_block_nr init_block b ≢ throw out_of_fuel
  unfolding read_last_block_nr
  read_last_block_nr-total b =
      bind_total (read_int32_state db last_block_nr (pos 1) b.blockchain_state) block_number
        (read_int32_state-total db last_block_nr (pos 1) b.blockchain_state)
        (λ z e. block_number-total z)

  note_new_block-total :
      (existed : Bool) (nr : ℕ) (b : FileBased C D)
      → note_new_block db cache calls last_block_nr init_block existed nr b ≢ throw out_of_fuel
  unfolding note_new_block raise_last_block_nr
  note_new_block-total true nr b = λ h. ground arith
  note_new_block-total false nr b =
      bind_total (read_last_block_nr db cache calls last_block_nr init_block b) _
        (read_last_block_nr-total b)
        (λ last e. elim (Bool-cases (ltb last nr)) [
          | inl higher ↦ rw higher (
              bind_total (update_state_number db last_block_nr (pos nr) b.blockchain_state) _
                (update_state_number-total db last_block_nr (pos nr) b.blockchain_state)
                (λ s e h. ground arith))
          | inr not_higher ↦ rw not_higher (λ h. ground arith)
        ])

  cached_or_loaded-total :
      (nr : ℕ) (r : Option B × FileBased C D)
      → cached_or_loaded db cache calls last_block_nr init_block nr r ≢ throw out_of_fuel
  unfolding cached_or_loaded load_block
  cached_or_loaded-total nr (some block, b) = λ h. ground arith
  cached_or_loaded-total nr (none, b) =
      bind_total (init_block nr) _ (ready nr) (λ (existed, block) e.
        bind_total (note_new_block db cache calls last_block_nr init_block existed nr b) _
          (note_new_block-total existed nr b) (λ b' e' h. ground arith))

  served :
      (nr : ℕ) (b : FileBased C D)
      → get_block db cache calls last_block_nr init_block nr b ≢ throw out_of_fuel
  unfolding get_block
  served nr b = cached_or_loaded-total nr _

  module _ {R : Type 0} (func : B → R → Outcome (Bool × R))
      (total : (block : B) (r : R) → func block r ≢ throw out_of_fuel) where
    iterate_from-total :
        (n : ℕ) (d : SearchDirection) (last nr : ℕ) (r : R) (b : FileBased C D)
        → rounds d last nr < n
        → iterate_from db cache calls last_block_nr init_block func n d last nr (r, b)
          ≢ throw out_of_fuel
    unfolding iterate_from
    iterate_from-total zero d last nr r b few = absurd (omega arith)
    iterate_from-total (suc n) d last nr r b few =
        bind_total (get_block db cache calls last_block_nr init_block nr b) _ (served nr b)
          (λ (block, b') e.
            elim (Bool-cases (get_transactions_count (calls.block_index block) == 0)) [
              | inl empty ↦ rw empty (λ h. ground arith)
              | inr filled ↦ rw filled (
                  bind_total (func block r) _ (total block r) (λ (again, r') e'.
                    elim (Bool-cases (again && leb 1 (next_nr d nr) && leb (next_nr d nr) last)) [
                      | inl more ↦ rw more (
                          iterate_from-total n d last (next_nr d nr) r' b'
                            (rounds_fall n d last nr (ground arith) (ground arith) few))
                      | inr done ↦ rw done (λ h. ground arith)
                    ]))
            ])

    -- The loop over the blocks ends, forwards and backwards, whatever the blocks are and whatever is done with each,
    -- as long as loading a block and what is done with it end.
    pub iterate_blocks-total :
        (d : SearchDirection) (r : R) (b : FileBased C D)
        → iterate_blocks db cache calls last_block_nr init_block func d r b ≢ throw out_of_fuel
    unfolding iterate_blocks first_nr
    iterate_blocks-total desc r b =
        bind_total (read_last_block_nr db cache calls last_block_nr init_block b) _
          (read_last_block_nr-total b)
          (λ last e. iterate_from-total (suc last) desc last last r b (omega arith))
    iterate_blocks-total asc r b =
        bind_total (read_last_block_nr db cache calls last_block_nr init_block b) _
          (read_last_block_nr-total b)
          (λ last e. iterate_from-total (suc last) asc last 1 r b (omega arith))
