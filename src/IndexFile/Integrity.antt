-- ===== src/IndexFile/Integrity.antt =====
-- src/model/files/BlockIndex.{h,cpp}: what the hash at the end of an index file protects.
-- `DataBlock::updateHash` leaves the transaction type out, which `writeIntoFile` writes.
use gradido_node.Prelude.{
  ℕ, ◌+◌, ◌^◌, ◌<◌, ◌≡◌, refl, ◌∙◌, true, List, [], ◌∷◌, ◌++◌, All, Outcome, ok, ◌>>=◌,
}
use gradido_node.Bytes.{le_bytes}
use gradido_node.IndexFile.{
  Platform, Block, year_block, month_block, data_block, hash_type, hash_updates,
}
use gradido_node.IndexFile.Reader.{Indices, read_from_file}
use gradido_node.IndexFile.Codec.{IsWritable}
use gradido_node.IndexFile.Writing.{encode_all, hash_input, total_size}
use gradido_node.IndexFile.Scanning.{IsPlaced, entries, deliver}
use gradido_node.IndexFile.RoundTrip.{read_from_file-blocks, bytes_eq_self}

-- Other transaction types in the data blocks.
abbrev pub retype_block : (ℕ → ℕ) → Block → Block
retype_block g (year_block y) = year_block y
retype_block g (month_block m) = month_block m
retype_block g (data_block d) = data_block (record d { transaction_type = g d.transaction_type })

abbrev pub retype : (ℕ → ℕ) → List Block → List Block
retype g [] = []
retype g (b ∷ bs) = retype_block g b ∷ retype g bs

hash_updates-retype_block :
    (p : Platform) (g : ℕ → ℕ) (b : Block) → hash_updates p (retype_block g b) ≡ hash_updates p b
unfolding hash_updates
hash_updates-retype_block p g (year_block y) = refl
hash_updates-retype_block p g (month_block m) = refl
hash_updates-retype_block p g (data_block d) = refl

hash_input-retype :
    (p : Platform) (g : ℕ → ℕ) (bs : List Block) → hash_input p (retype g bs) ≡ hash_input p bs
hash_input-retype p g [] = refl
hash_input-retype p g (b ∷ bs) = rw (hash_updates-retype_block p g b, hash_input-retype p g bs)

-- If the transaction types of a written index file are changed to other known types and the hash at
-- its end is left as it was, the file is read without complaint and the receiver gets the changed
-- types, where the fields fit, the file cursors are not negative and the file stays below 2 ^ 64 bytes.
pub read_from_file_retyped :
    (p : Platform) {R : Type 0} (receive : Indices → R → Outcome R) (g : ℕ → ℕ) (bs : List Block)
    (r : R)
    → All (IsWritable p) (retype g bs)
    → All IsPlaced (retype g bs)
    → total_size p (retype g bs) + 34 < 2 ^ 64
    → read_from_file p receive
        (encode_all p (retype g bs) ++ (le_bytes 1 hash_type ++ p.hash (hash_input p bs)))
        r
      ≡ (deliver receive (entries 0 0 (retype g bs)) r >>= λ r'. ok (true, r'))
read_from_file_retyped p receive g bs r w c h = rw (← hash_input-retype p g bs) (
    read_from_file-blocks p receive (retype g bs) (p.hash (hash_input p (retype g bs))) r w c
      (p.length-hash _) h
    ∙ rw (bytes_eq_self (p.hash (hash_input p (retype g bs)))))
