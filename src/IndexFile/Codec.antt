-- ===== src/IndexFile/Codec.antt =====
-- src/model/files/BlockIndex.cpp: a block that was written is read again, field by field.
use mathlib.Core.List.{flatten}
use gradido_node.Prelude.{
  ℕ, ◌+◌, ◌*◌, ◌^◌, ◌<◌, ◌≡◌, refl, ap, ◌∙◌, true, List, [], ◌∷◌, ◌++◌, append_assoc, append-nil,
  length, All, length-append, take-append, drop-append, IsInt32, signed32, bits32, signed32-bits32,
  bits32-lt, ok, arith,
}
use gradido_node.Bytes.{le_bytes, le_value, length-le_bytes, le_value-le_bytes}
use gradido_node.VirtualFile.Laws.{at, read-at}
use gradido_node.IndexFile.{
  Platform, DataBlock, Block, block_type, year_block, month_block, data_block, size, written,
  index_bytes,
}
use gradido_node.IndexFile.Reader.{indices_of, read_data_block, read_block, next_round, more}

-- The fields of a data block fit their types, and the count is that of the indices.
pub record IsDataWritable (p : Platform) (d : DataBlock) : Type 0 where
  pub nr_fits : d.transaction_nr < 2 ^ 64
  pub cursor_fits : IsInt32 d.file_cursor
  pub type_fits : d.transaction_type < 256 ^ p.type_size
  pub type_known : p.is_type d.transaction_type ≡ true
  pub coin_fits : d.coin_community_id_index < 2 ^ 32
  pub count_fits : d.address_indices_count < 256
  pub count_eq : length d.address_indices ≡ d.address_indices_count
  pub indices_fit : All (λ i. i < 2 ^ 32) d.address_indices

abbrev pub IsWritable : Platform → Block → Type 0
IsWritable p (year_block y) = y < 2 ^ 16
IsWritable p (month_block m) = m < 2 ^ 8
IsWritable p (data_block d) = IsDataWritable p d

-- The bytes of a block.
abbrev pub encode : Platform → Block → List ℕ
encode p b = flatten (written p b)

length-index_bytes : (is : List ℕ) → length (index_bytes is) ≡ 4 * length is
unfolding index_bytes
length-index_bytes [] = refl
length-index_bytes (i ∷ is) = omega (
  arith,
  length-append (le_bytes 4 i) (index_bytes is),
  length-le_bytes 4 i,
  length-index_bytes is,
)

indices_of-index_bytes :
    (is : List ℕ) → All (λ i. i < 2 ^ 32) is → indices_of (length is) (index_bytes is) ≡ is
unfolding indices_of index_bytes
indices_of-index_bytes [] h = refl
indices_of-index_bytes (i ∷ is) h =
    let split = take-append (le_bytes 4 i) (index_bytes is) in
    let rest = drop-append (le_bytes 4 i) (index_bytes is) in
    ground (
      arith,
      length-le_bytes 4 i,
      split,
      rest,
      le_value-le_bytes 4 i h.0,
      indices_of-index_bytes is h.1,
    )

pub length-encode : (p : Platform) (b : Block) → IsWritable p b → length (encode p b) ≡ size p b
unfolding written size flatten
length-encode p (year_block y) w =
    omega (arith, length-append {0}, length-le_bytes 1 0xad, length-le_bytes 2 y)
length-encode p (month_block m) w =
    omega (arith, length-append {0}, length-le_bytes 1 0x50, length-le_bytes 1 m)
length-encode p (data_block d) w = omega (
  arith,
  length-append {0},
  length-le_bytes 1 0xdd,
  length-le_bytes 8 d.transaction_nr,
  length-le_bytes 4 (bits32 d.file_cursor),
  length-le_bytes p.type_size d.transaction_type,
  length-le_bytes 4 d.coin_community_id_index,
  length-le_bytes 1 d.address_indices_count,
  length-index_bytes d.address_indices,
)

module _ (p : Platform) (b x1 x2 x3 x4 x5 x6 after : List ℕ) where
  -- The six reads of a data block, over the bytes that they meet.
  read_data_block_bytes :
      length x1 ≡ 8
      → length x2 ≡ 4
      → length x3 ≡ p.type_size
      → p.is_type (le_value x3) ≡ true
      → length x4 ≡ 4
      → length x5 ≡ 1
      → length x6 ≡ 4 * le_value x5
      → length b + (17 + p.type_size + (length x6 + length after)) < 2 ^ 64
      → read_data_block p (at b (x1 ++ (x2 ++ (x3 ++ (x4 ++ (x5 ++ (x6 ++ after)))))))
        ≡ ok (
          record {
            transaction_nr = le_value x1;
            file_cursor = signed32 (le_value x2);
            transaction_type = le_value x3;
            coin_community_id_index = le_value x4;
            address_indices_count = le_value x5;
            address_indices = indices_of (le_value x5) x6;
          },
          at (b ++ x1 ++ x2 ++ x3 ++ x4 ++ x5 ++ x6) after,
        )
  unfolding read_data_block
  read_data_block_bytes e1 e2 e3 known e4 e5 e6 h =
      let s5 = x6 ++ after in
      let s4 = x5 ++ s5 in
      let s3 = x4 ++ s4 in
      let s2 = x3 ++ s3 in
      let s1 = x2 ++ s2 in
      rw (
        read-at 8 b x1 s1 e1 (omega (arith, length-append {0})),
        read-at 4 (b ++ x1) x2 s2 e2 (omega (arith, length-append {0})),
        read-at p.type_size (b ++ x1 ++ x2) x3 s3 e3 (omega (arith, length-append {0})),
        known,
        read-at 4 (b ++ x1 ++ x2 ++ x3) x4 s4 e4 (omega (arith, length-append {0})),
        read-at 1 (b ++ x1 ++ x2 ++ x3 ++ x4) x5 s5 e5 (omega (arith, length-append {0})),
        read-at (4 * le_value x5) (b ++ x1 ++ x2 ++ x3 ++ x4 ++ x5) x6 after e6
            (omega (arith, length-append {0})),
      )

module _ (p : Platform) where
  -- The bytes of a data block behind its type.
  abbrev data_bytes : DataBlock → List ℕ
  data_bytes d =
      le_bytes 8 d.transaction_nr
      ++ (le_bytes 4 (bits32 d.file_cursor)
          ++ (le_bytes p.type_size d.transaction_type
              ++ (le_bytes 4 d.coin_community_id_index
                  ++ (le_bytes 1 d.address_indices_count ++ index_bytes d.address_indices))))

  data_block_eq :
      (d : DataBlock)
      → IsDataWritable p d
      → record {
        transaction_nr = le_value (le_bytes 8 d.transaction_nr);
        file_cursor = signed32 (le_value (le_bytes 4 (bits32 d.file_cursor)));
        transaction_type = le_value (le_bytes p.type_size d.transaction_type);
        coin_community_id_index = le_value (le_bytes 4 d.coin_community_id_index);
        address_indices_count = le_value (le_bytes 1 d.address_indices_count);
        address_indices =
            indices_of
              (le_value (le_bytes 1 d.address_indices_count))
              (index_bytes d.address_indices);
      }
        ≡ d
  data_block_eq d w = ground (
    arith,
    le_value-le_bytes 8 d.transaction_nr w.nr_fits,
    le_value-le_bytes 4 (bits32 d.file_cursor) (bits32-lt d.file_cursor w.cursor_fits),
    signed32-bits32 d.file_cursor w.cursor_fits,
    le_value-le_bytes p.type_size d.transaction_type w.type_fits,
    le_value-le_bytes 4 d.coin_community_id_index w.coin_fits,
    le_value-le_bytes 1 d.address_indices_count w.count_fits,
    w.count_eq,
    indices_of-index_bytes d.address_indices w.indices_fit,
  )

  read_data_block-at :
      (d : DataBlock) (b after : List ℕ)
      → IsDataWritable p d
      → length b + (size p (data_block d) + length after) < 2 ^ 64
      → read_data_block p (at b (data_bytes d ++ after)) ≡ ok (d, at (b ++ data_bytes d) after)
  unfolding size
  read_data_block-at d b after w h =
      let x1 = le_bytes 8 d.transaction_nr in
      let x2 = le_bytes 4 (bits32 d.file_cursor) in
      let x3 = le_bytes p.type_size d.transaction_type in
      let x4 = le_bytes 4 d.coin_community_id_index in
      let x5 = le_bytes 1 d.address_indices_count in
      let x6 = index_bytes d.address_indices in
      let count : le_value x5 ≡ d.address_indices_count =
        le_value-le_bytes 1 d.address_indices_count w.count_fits in
      let size6 : length x6 ≡ 4 * d.address_indices_count =
        omega (arith, length-index_bytes d.address_indices, w.count_eq) in
      let got =
        read_data_block_bytes p b x1 x2 x3 x4 x5 x6 after (length-le_bytes 8 d.transaction_nr)
          (length-le_bytes 4 (bits32 d.file_cursor))
          (length-le_bytes p.type_size d.transaction_type)
          (rw (le_value-le_bytes p.type_size d.transaction_type w.type_fits) w.type_known)
          (length-le_bytes 4 d.coin_community_id_index) (length-le_bytes 1 d.address_indices_count)
          (omega arith) (omega arith) in
      let same =
        got
        ∙ ap (λ (e : DataBlock). ok (e, at (b ++ x1 ++ x2 ++ x3 ++ x4 ++ x5 ++ x6) after))
            (data_block_eq d w) in
      simp append_assoc (simp append_assoc at same)

  -- The bytes of a block behind its type.
  abbrev body : Block → List ℕ
  body (year_block y) = le_bytes 2 y
  body (month_block m) = le_bytes 1 m
  body (data_block d) = data_bytes d

  encode-body : (x : Block) → encode p x ≡ le_bytes 1 (block_type x) ++ body x
  unfolding written flatten block_type
  encode-body (year_block y) = simp append-nil
  encode-body (month_block m) = simp append-nil
  encode-body (data_block d) = simp append-nil

  pub next_round-type :
      (t : ℕ) (b rest : List ℕ)
      → t < 256
      → length b + (1 + length rest) < 2 ^ 64
      → next_round p (at b (le_bytes 1 t ++ rest)) ≡ read_block p t (at (b ++ le_bytes 1 t) rest)
  unfolding next_round
  next_round-type t b rest small h =
      rw (read-at 1 b (le_bytes 1 t) rest (length-le_bytes 1 t) h, le_value-le_bytes 1 t small)

  read_block-body :
      (x : Block) (b after : List ℕ)
      → IsWritable p x
      → length b + (size p x + length after) < 2 ^ 64
      → read_block p (block_type x) (at b (body x ++ after)) ≡ ok (more x (at (b ++ body x) after))
  unfolding read_block size block_type
  read_block-body (year_block y) b after w h = rw (
    read-at 2 b (le_bytes 2 y) after (length-le_bytes 2 y) (omega arith),
    le_value-le_bytes 2 y w,
  )
  read_block-body (month_block m) b after w h = rw (
    read-at 1 b (le_bytes 1 m) after (length-le_bytes 1 m) (omega arith),
    le_value-le_bytes 1 m w,
  )
  read_block-body (data_block d) b after w h = rw (read_data_block-at d b after w h)

  block_type-lt : (x : Block) → block_type x < 256
  unfolding block_type
  block_type-lt (year_block y) = omega arith
  block_type-lt (month_block m) = omega arith
  block_type-lt (data_block d) = omega arith

  -- The loop reads a block that was written, and stands behind it.
  pub next_round-encode :
      (x : Block) (b after : List ℕ)
      → IsWritable p x
      → length b + (1 + size p x + length after) < 2 ^ 64
      → next_round p (at b (encode p x ++ after)) ≡ ok (more x (at (b ++ encode p x) after))
  next_round-encode x b after w h =
      let t = le_bytes 1 (block_type x) in
      let sizes = length-encode p x w in
      rw (encode-body x, append_assoc t (body x) after)
        (next_round-type (block_type x) b (body x ++ after) (block_type-lt x) (
            omega (
              arith,
              sizes,
              ap length (encode-body x),
              length-append {0},
              length-le_bytes 1 (block_type x),
            ))
          ∙ read_block-body x (b ++ t) after w
              (omega (arith, length-append {0}, length-le_bytes 1 (block_type x)))
          ∙ ap (λ (l : List ℕ). ok (more x (at l after))) (append_assoc b t (body x)))
