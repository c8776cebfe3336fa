-- ===== src/VirtualFile/Laws.antt =====
-- Reading and writing a virtual file, over a buffer that is split at the cursor.
use gradido_node.Prelude.{
  ℕ, suc, ◌+◌, ◌^◌, ◌≤◌, ◌<◌, ◌≡◌, ap, ◌∙◌, List, [], ◌∷◌, ◌++◌, arith, length, drop, length-append,
  take-append, drop-append, append_assoc, ok, throw, buffer_overflow,
}
use gradido_node.VirtualFile.{VirtualFile, read, write, contents}

-- The file whose cursor stands between `before` and `after`.
abbrev pub at : List ℕ → List ℕ → VirtualFile
at before after = record { buffer = before ++ after; cursor = length before }

-- Bytes that are there are read, and the cursor moves behind them.
pub read-at :
    (n : ℕ) (before xs after : List ℕ)
    → length xs ≡ n
    → length before + (n + length after) < 2 ^ 64
    → read n (at before (xs ++ after)) ≡ ok (xs, at (before ++ xs) after)
unfolding read
read-at n before xs after e h = ground (
  arith,
  length-append before (xs ++ after),
  length-append before xs,
  length-append xs after,
  drop-append before (xs ++ after),
  take-append xs after,
  append_assoc before xs after,
)

-- A read past the end throws.
pub read_past_end :
    (n : ℕ) (before after : List ℕ)
    → length after < n
    → length before + n < 2 ^ 64
    → read n (at before after) ≡ throw buffer_overflow
unfolding read
read_past_end n before after h k = ground (arith, length-append before after)

drop-add :
    (before src after : List ℕ)
    → drop (length before + length src) (before ++ after) ≡ drop (length src) after
drop-add [] src after = ap (λ (k : ℕ). drop k after) (omega arith)
drop-add (b ∷ before) src after =
    ap (λ (k : ℕ). drop k (b ∷ before ++ after))
      (let e : suc (length before) + length src ≡ suc (length before + length src) = omega arith in
        e)
    ∙ drop-add before src after

pub write-at :
    (src before after : List ℕ)
    → length src ≤ length after
    → length before + length after < 2 ^ 64
    → write src (at before after) ≡ ok (at (before ++ src) (drop (length src) after))
unfolding write
write-at src before after h k = ground (
  arith,
  length-append before after,
  length-append before src,
  take-append before after,
  drop-add before src after,
  append_assoc before src (drop (length src) after),
)

pub contents-at : (before after : List ℕ) → contents (at before after) ≡ before
unfolding contents
contents-at before after = take-append before after
