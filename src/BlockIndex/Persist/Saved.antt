-- ===== src/BlockIndex/Persist/Saved.antt =====
-- src/cache/BlockIndex.cpp, serialize, writeIntoFile and loadFromFile: what a file holds of an index.
use gradido_node.Prelude.{
  ℕ, ◌+◌, ◌^◌, ◌<◌, ◌≡◌, refl, sym, ap, ◌∙◌, Bool, true, List, [], ◌∷◌, ◌++◌, append_assoc,
  append-nil, Option, none, some, take, ℤ, pos, Outcome, ok, ◌>>=◌, >>=-eq-ok, All, arith, map,
}
use gradido_node.OrderedMap.{Map, find}
use gradido_node.IndexFile.{
  Platform, IndexFile, Block, year_block, month_block, data_block, new_data_block, empty_file, push,
  add_year_block, add_month_block, add_data_block,
}
use gradido_node.IndexFile.Codec.{IsWritable}
use gradido_node.IndexFile.Scanning.{entries, deliver, IsPlaced}
use gradido_node.IndexFile.Writing.{
  IsSized, push-IsSized, total_size, file_bytes, write_to_file-bytes,
}
use gradido_node.IndexFile.RoundTrip.{write_to_file-read}
use gradido_node.IndexFile.Reader.{Indices, indices_at, read_from_file}
use gradido_node.BlockIndex.{Entry, Months, BlockIndex}
use gradido_node.BlockIndex.Persist.{
  save_entry, save_entries, save_months, save_years, serialize, write_serialized, write_into_file,
  receive, load_from_file,
}

-- The data block of an entry; an entry without a file cursor is never saved.
abbrev cursor_or_zero : Option ℤ → ℤ
cursor_or_zero none = pos 0
cursor_or_zero (some c) = c

abbrev pub block_of : Map ℤ → Entry → Block
block_of cursors e = data_block (
    new_data_block e.transaction_nr (cursor_or_zero (find e.transaction_nr cursors))
      e.transaction_type e.coin_community_id_index (take e.address_indice_count e.address_indices))

abbrev pub blocks_of_months : Map ℤ → Months → List Block
blocks_of_months cursors [] = []
blocks_of_months cursors ((m, es) ∷ ms) =
    month_block m ∷ map (block_of cursors) es ++ blocks_of_months cursors ms

abbrev pub blocks_of_years : Map ℤ → Map Months → List Block
blocks_of_years cursors [] = []
blocks_of_years cursors ((y, ms) ∷ ys) =
    year_block y ∷ blocks_of_months cursors ms ++ blocks_of_years cursors ys

module _ (p : Platform) where
  -- The file holds these blocks behind those that it had.
  abbrev IsPushed : List Block → IndexFile → IndexFile → Type 0
  IsPushed bs t t' = (t'.data_blocks ≡ t.data_blocks ++ bs) × (IsSized p t → IsSized p t')

  pushed : (b : Block) (t : IndexFile) → IsPushed (b ∷ []) t (push p b t)
  unfolding push
  pushed b t = (refl, push-IsSized p b t)

  then-IsPushed :
      (xs ys : List Block) (t u v : IndexFile)
      → IsPushed xs t u
      → IsPushed ys u v
      → IsPushed (xs ++ ys) t v
  then-IsPushed xs ys t u v (e, f) (g, h) =
      (g ∙ ap (λ (l : List Block). l ++ ys) e ∙ append_assoc t.data_blocks xs ys, λ s. h (f s))

  save_entry-IsPushed :
      (cursors : Map ℤ) (o : Option ℤ) (e : Entry) (t u : IndexFile)
      → find e.transaction_nr cursors ≡ o
      → save_entry p o e t ≡ ok u
      → IsPushed (block_of cursors e ∷ []) t u
  unfolding save_entry add_data_block
  save_entry-IsPushed cursors none e t u f h = absurd (ground arith)
  save_entry-IsPushed cursors (some c) e t u f h =
      let same : push p _ t ≡ u = ground arith in rw (f, sym same) (pushed _ t)

  save_entries-IsPushed :
      (cursors : Map ℤ) (es : List Entry) (t u : IndexFile)
      → save_entries p cursors es t ≡ ok u
      → IsPushed (map (block_of cursors) es) t u
  unfolding save_entries
  save_entries-IsPushed cursors [] t u h =
      let same : t ≡ u = ground arith in rw (sym same) (sym (append-nil t.data_blocks), λ s. s)
  save_entries-IsPushed cursors (e ∷ es) t u h =
      let (v, first, rest) =
        >>=-eq-ok (save_entry p (find e.transaction_nr cursors) e t) (save_entries p cursors es)
          h in
      then-IsPushed (block_of cursors e ∷ []) (map (block_of cursors) es) t v u
        (save_entry-IsPushed cursors _ e t v refl first) (save_entries-IsPushed cursors es v u rest)

  save_months-IsPushed :
      (cursors : Map ℤ) (ms : Months) (t u : IndexFile)
      → save_months p cursors ms t ≡ ok u
      → IsPushed (blocks_of_months cursors ms) t u
  unfolding save_months add_month_block
  save_months-IsPushed cursors [] t u h =
      let same : t ≡ u = ground arith in rw (sym same) (sym (append-nil t.data_blocks), λ s. s)
  save_months-IsPushed cursors ((m, es) ∷ ms) t u h =
      let (v, first, rest) =
        >>=-eq-ok (save_entries p cursors es (add_month_block p m t)) (save_months p cursors ms)
          h in
      then-IsPushed (month_block m ∷ map (block_of cursors) es) (blocks_of_months cursors ms) t v u
        (then-IsPushed (month_block m ∷ []) (map (block_of cursors) es) t (push p (month_block m) t)
          v (pushed (month_block m) t) (save_entries-IsPushed cursors es _ v first))
        (save_months-IsPushed cursors ms v u rest)

  save_years-IsPushed :
      (cursors : Map ℤ) (ys : Map Months) (t u : IndexFile)
      → save_years p cursors ys t ≡ ok u
      → IsPushed (blocks_of_years cursors ys) t u
  unfolding save_years add_year_block
  save_years-IsPushed cursors [] t u h =
      let same : t ≡ u = ground arith in rw (sym same) (sym (append-nil t.data_blocks), λ s. s)
  save_years-IsPushed cursors ((y, ms) ∷ ys) t u h =
      let (v, first, rest) =
        >>=-eq-ok (save_months p cursors ms (add_year_block p y t)) (save_years p cursors ys) h in
      then-IsPushed (year_block y ∷ blocks_of_months cursors ms) (blocks_of_years cursors ys) t v u
        (then-IsPushed (year_block y ∷ []) (blocks_of_months cursors ms) t (push p (year_block y) t)
          v (pushed (year_block y) t) (save_months-IsPushed cursors ms _ v first))
        (save_years-IsPushed cursors ys v u rest)

-- The calls of the receiver for a saved index, in the order of the years, of the months and of each
-- month's entries: as many address indices as the entry counts, cut to a uint8_t.
abbrev pub saved_entry : Map ℤ → ℕ → ℕ → Entry → Indices
saved_entry cursors y m e = indices_at y m (
    new_data_block e.transaction_nr (cursor_or_zero (find e.transaction_nr cursors))
      e.transaction_type e.coin_community_id_index (take e.address_indice_count e.address_indices))

abbrev pub saved_month : Map ℤ → ℕ → ℕ → List Entry → List Indices
saved_month cursors y m es = map (saved_entry cursors y m) es

abbrev pub saved_months : Map ℤ → ℕ → Months → List Indices
saved_months cursors y [] = []
saved_months cursors y ((m, es) ∷ ms) = saved_month cursors y m es ++ saved_months cursors y ms

abbrev pub saved_years : Map ℤ → Map Months → List Indices
saved_years cursors [] = []
saved_years cursors ((y, ms) ∷ ys) = saved_months cursors y ms ++ saved_years cursors ys

entries-month :
    (cursors : Map ℤ) (y m : ℕ) (es : List Entry) (bs : List Block)
    → entries y m (map (block_of cursors) es ++ bs) ≡ saved_month cursors y m es ++ entries y m bs
entries-month cursors y m [] bs = refl
entries-month cursors y m (e ∷ es) bs =
    ap (λ (l : List Indices). saved_entry cursors y m e ∷ l) (entries-month cursors y m es bs)

entries-months :
    (cursors : Map ℤ) (y m : ℕ) (ms : Months) (bs : List Block) (rest : List Indices)
    → ((n : ℕ) → entries y n bs ≡ rest)
    → entries y m (blocks_of_months cursors ms ++ bs) ≡ saved_months cursors y ms ++ rest
entries-months cursors y m [] bs rest h = h m
entries-months cursors y m ((m', es) ∷ ms) bs rest h =
    ap (entries y m') (append_assoc (map (block_of cursors) es) (blocks_of_months cursors ms) bs)
    ∙ entries-month cursors y m' es (blocks_of_months cursors ms ++ bs)
    ∙ ap (λ (l : List Indices). saved_month cursors y m' es ++ l)
        (entries-months cursors y m' ms bs rest h)
    ∙ sym (append_assoc (saved_month cursors y m' es) (saved_months cursors y ms) rest)

entries-years :
    (cursors : Map ℤ) (y m : ℕ) (ys : Map Months)
    → entries y m (blocks_of_years cursors ys) ≡ saved_years cursors ys
entries-years cursors y m [] = refl
entries-years cursors y m ((y', ms) ∷ ys) =
    entries-months cursors y' m ms (blocks_of_years cursors ys) (saved_years cursors ys)
      (λ n. entries-years cursors y' n ys)

-- The blocks of an index.
abbrev pub blocks_of : BlockIndex → List Block
blocks_of x = blocks_of_years x.transaction_nrs_file_cursors x.year_month_address_index_entries

serialize_saved :
    (p : Platform) (x : BlockIndex) (t : IndexFile)
    → serialize p x ≡ ok (some t)
    → save_years p x.transaction_nrs_file_cursors x.year_month_address_index_entries empty_file
      ≡ ok t
unfolding serialize
serialize_saved p x t h = ground arith

serialize-held :
    (p : Platform) (x : BlockIndex) (t : IndexFile)
    → serialize p x ≡ ok (some t)
    → (t.data_blocks ≡ blocks_of x) × IsSized p t
unfolding empty_file
serialize-held p x t h =
    let (held, sized) =
      save_years-IsPushed p x.transaction_nrs_file_cursors x.year_month_address_index_entries
        empty_file t (serialize_saved p x t h) in
    (held, sized (omega arith))

-- An index that was written into its file is loaded by giving exactly its entries to the receiver, an
-- index z, in the order of the years, the months and the entries of a month, each with its file cursor;
-- an exception of the receiver passes through. It holds where serializing gives a file, the blocks of
-- the index fit their types, the file cursors are not negative, and the file stays below 2 ^ 64 bytes.
pub write_into_file-load_from_file :
    (p : Platform) (x z : BlockIndex) (t : IndexFile)
    → serialize p x ≡ ok (some t)
    → All (IsWritable p) (blocks_of x)
    → All IsPlaced (blocks_of x)
    → total_size p (blocks_of x) + 34 < 2 ^ 64
    → (bytes : List ℕ) × (write_into_file p x ≡ ok (some bytes))
      × (load_from_file p bytes z ≡ (
          deliver receive
            (saved_years x.transaction_nrs_file_cursors x.year_month_address_index_entries)
            z
          >>= λ z'. ok (true, z')))
unfolding write_into_file write_serialized load_from_file
write_into_file-load_from_file p x z t h w c small =
    let (held, sized) = serialize-held p x t h in
    let w' : All (IsWritable p) t.data_blocks = rw held w in
    let c' : All IsPlaced t.data_blocks = rw held c in
    let size : t.data_block_sum_size ≡ total_size p (blocks_of x) =
      sized ∙ ap (total_size p) held in
    let written = write_to_file-bytes p t sized w' (omega arith) in
    let back = write_to_file-read p receive t z sized w' c' (omega arith) in
    let reading : List ℕ × IndexFile → Outcome (Bool × BlockIndex) =
      λ (bytes, t'). read_from_file p receive bytes z in
    let told : entries 0 0 t.data_blocks
        ≡ saved_years x.transaction_nrs_file_cursors x.year_month_address_index_entries =
      ap (entries 0 0) held
      ∙ entries-years x.transaction_nrs_file_cursors 0 0 x.year_month_address_index_entries in
    (
      file_bytes p t.data_blocks,
      ap (λ (o : Outcome (Option IndexFile)). o >>= write_serialized p) h
          ∙ ap
              (λ (o : Outcome (List ℕ × IndexFile)).
                ◌>>=◌ {B = Option (List ℕ)} o (λ (bytes, t'). ok (some bytes)))
              written,
      sym (ap (λ (o : Outcome (List ℕ × IndexFile)). o >>= reading) written)
          ∙ back
          ∙ ap
              (λ (is : List Indices).
                ◌>>=◌ {B = Bool × BlockIndex} (deliver receive is z) (λ z'. ok (true, z')))
              told,
    )
