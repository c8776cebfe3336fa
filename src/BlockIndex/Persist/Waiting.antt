-- ===== src/BlockIndex/Persist/Waiting.antt =====
-- src/cache/BlockIndex.cpp, getFileCursorForTransactionNr: the wait for a file cursor.
use gradido_node.Prelude.{
  ℕ, zero, suc, ◌+◌, ◌≤◌, ◌<◌, ◌≡◌, sym, lt→ltb, ap, ◌∙◌, true, false, Option, some, ltb, ℤ, pos,
  arith,
}
use gradido_node.OrderedMap.{Map, find}
use gradido_node.BlockIndex.{is_zero}
use gradido_node.BlockIndex.Persist.{wait_for_cursor, get_file_cursor_for_transaction_nr}

pub at_index :
    (cursors : ℕ → Map ℤ) (nr i j : ℕ) (o : Option ℤ)
    → i ≡ j
    → find nr (cursors i) ≡ o
    → find nr (cursors j) ≡ o
at_index cursors nr i j o e h = sym (ap (λ (k : ℕ). find nr (cursors k)) e) ∙ h

pub wait_for_cursor_found :
    (n : ℕ) (cursors : ℕ → Map ℤ) (k nr : ℕ) (c : ℤ)
    → find nr (cursors k) ≡ some c
    → is_zero c ≡ false
    → wait_for_cursor n cursors k nr ≡ some c
unfolding wait_for_cursor
wait_for_cursor_found zero cursors k nr c e ne = e
wait_for_cursor_found (suc n) cursors k nr c e ne = ground arith

pub wait_for_cursor_zero :
    (n : ℕ) (cursors : ℕ → Map ℤ) (k nr : ℕ)
    → find nr (cursors k) ≡ some (pos 0)
    → wait_for_cursor (suc n) cursors k nr ≡ wait_for_cursor n cursors (suc k) nr
unfolding wait_for_cursor
wait_for_cursor_zero n cursors k nr e = ground arith

pub wait_for_cursor_lem :
    (n d : ℕ) (cursors : ℕ → Map ℤ) (k nr : ℕ) (c : ℤ)
    → d ≤ n
    → ((j : ℕ) → j < d → find nr (cursors (k + j)) ≡ some (pos 0))
    → find nr (cursors (k + d)) ≡ some c
    → is_zero c ≡ false
    → wait_for_cursor n cursors k nr ≡ some c
wait_for_cursor_lem n zero cursors k nr c le zeros e ne =
    wait_for_cursor_found n cursors k nr c (at_index cursors nr (k + 0) k (some c) (omega arith) e)
      ne
wait_for_cursor_lem zero (suc d) cursors k nr c le zeros e ne = absurd (omega arith)
wait_for_cursor_lem (suc n) (suc d) cursors k nr c le zeros e ne =
    wait_for_cursor_zero n cursors k nr
      (at_index cursors nr (k + 0) k (some (pos 0)) (omega arith) (zeros 0 (omega arith)))
    ∙ wait_for_cursor_lem n d cursors (suc k) nr c (omega arith)
        (λ j h.
          at_index cursors nr (k + suc j) (suc k + j) (some (pos 0)) (omega arith)
            (zeros (suc j) (omega arith)))
        (at_index cursors nr (k + suc d) (suc k + d) (some c) (omega arith) e) ne

-- A transaction above 1 whose file cursor is 0 at first and is set while the index waits, at most 100
-- sleeps later, is answered with the file cursor that was set.
pub get_file_cursor_for_transaction_nr_waits :
    (d : ℕ) (cursors : ℕ → Map ℤ) (nr : ℕ) (c : ℤ)
    → 1 < nr
    → 0 < d
    → d ≤ 100
    → ((j : ℕ) → j < d → find nr (cursors j) ≡ some (pos 0))
    → find nr (cursors d) ≡ some c
    → is_zero c ≡ false
    → get_file_cursor_for_transaction_nr cursors nr ≡ some c
unfolding get_file_cursor_for_transaction_nr
get_file_cursor_for_transaction_nr_waits d cursors nr c many some_d few zeros e ne =
    let found : wait_for_cursor 100 cursors 0 nr ≡ some c =
      wait_for_cursor_lem 100 d cursors 0 nr c few
        (λ j h. at_index cursors nr j (0 + j) (some (pos 0)) (omega arith) (zeros j h))
        (at_index cursors nr d (0 + d) (some c) (omega arith) e) ne in
    let first : find nr (cursors 0) ≡ some (pos 0) = zeros 0 some_d in
    let above : ltb 1 nr ≡ true = lt→ltb 1 nr many in ground arith
