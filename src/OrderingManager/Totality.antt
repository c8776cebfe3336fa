-- ===== src/OrderingManager/Totality.antt =====
-- src/controller/SimpleOrderingManager.cpp, ThreadFunction: the loop comes to its end.
use gradido_node.Prelude.{
  ℕ, zero, suc, ◌+◌, ◌-◌, ◌≤◌, ◌<◌, ◌≡◌, ◌≢◌, ◌⊎◌, inl, inr, refl, sym, ap, ◌∙◌, Bool, true, false,
  List, [], ◌∷◌, ◌++◌, Option, none, some, ◌==◌, if◌then◌else◌, arith, Outcome, ok, throw, length,
  is_some, All, ◌>>=◌,
}
use gradido_node.OrderedMap.{Map}
use gradido_node.OrderingManager.{
  Transaction, Work, dropped, Manager, World, erase_first, check_pairing, Exit, returned, continued,
  settle, handle, round_of, round, count_after, thread_loop, thread_function, Fate, missing,
}
use gradido_node.OrderingManager.Sequence.{IsServed, IsLater, IsDue, is_due}
use gradido_node.OrderingManager.Rounds.{
  LeavesHistory, IsFaithful, IsReadable, IsRound, waited, retried, taken, settle-IsRound,
  check_pairing_sound, check_pairing_missing, thread_loop-IsLater,
}

-- The call returns, and has done one round.
abbrev pub IsDone : World → Manager → Outcome (Exit × Manager) → Type 0
IsDone e m o = (x : Exit) × (m' : Manager) × (o ≡ ok (x, m')) × IsRound e m x m'

pub handle-IsRound :
    (e : World) (w : Work) (m : Manager) (t : ℕ) (ts : Map Work) (o : Option Transaction)
    → m.transactions ≡ (t, w) ∷ ts
    → IsFaithful e
    → is_some o ≡ true
    → is_some w.transaction_id ≡ true
    → IsDue m w
    → IsDone e m (handle e w m o)
unfolding handle IsFaithful
handle-IsRound e w m t ts none q f a r d = absurd (ground arith)
handle-IsRound e w m t ts (some u) q f a r d =
    settle-IsRound e w m t ts (check_pairing e w u) q f r d (check_pairing_sound e w u f)
      (check_pairing_missing e w u)

pub drop-IsRound :
    (e : World) (w : Work) (m : Manager) (t : ℕ) (ts : Map Work)
    → m.transactions ≡ (t, w) ∷ ts
    → IsRound e m continued (erase_first dropped w m)
unfolding erase_first
drop-IsRound e w m t ts q = taken (t, w) (rw q refl)

-- One of two outcomes.
abbrev if-IsDone :
    (e : World) (m : Manager) (b : Bool) (o p : Outcome (Exit × Manager))
    → (b ≡ true → IsDone e m o)
    → (b ≡ false → IsDone e m p)
    → IsDone e m (if b then o else p)
if-IsDone e m true o p f g = f refl
if-IsDone e m false o p f g = g refl

pub round_of-IsRound :
    (e : World) (m : Manager) (ts : Map Work)
    → m.transactions ≡ ts
    → IsFaithful e
    → All IsReadable ts
    → IsDone e m (round_of e m ts)
unfolding round_of
round_of-IsRound e m [] q f r = (returned, m, refl, waited)
round_of-IsRound e m ((t, w) ∷ ts) q f ((has, id), r) =
    let wait : IsDone e m (ok (returned, m)) = (returned, m, refl, waited) in
    if-IsDone e m _ _ _ (λ _. wait)
      (λ ended.
        if-IsDone e m _ _ _ (λ _. wait)
          (λ near.
            if-IsDone e m _ _ _ (λ _. (continued, _, refl, drop-IsRound e w m t ts q))
              (λ fresh.
                handle-IsRound e w m t ts w.task.transaction q f (has (ground arith)) id
                  (is_due m w near fresh))))

-- From the round `last` on every message is timed out.
abbrev pub IsTimedOut : World → ℕ × Work → Type 0
IsTimedOut e (_, w) = w.put_into_list_time + e.max_timespan < e.now

-- The messages that are left have what the messages had, and a round or a message is used up.
abbrev IsCloser : (ℕ → World) → ℕ → ℕ → ℕ → Manager → Type 0
IsCloser worlds last k size m =
    All IsReadable m.transactions
    × ((j : ℕ) → last ≤ j → All (IsTimedOut (worlds j)) m.transactions)
    × ((last - suc k) + length m.transactions < (last - k) + size)

pub round-IsCloser :
    (worlds : ℕ → World) (last k : ℕ) (e : World) (m m' : Manager) (x : Exit)
    → worlds k ≡ e
    → IsRound e m x m'
    → All IsReadable m.transactions
    → ((j : ℕ) → last ≤ j → All (IsTimedOut (worlds j)) m.transactions)
    → (x ≡ returned) ⊎ IsCloser worlds last k (length m.transactions) m'
round-IsCloser worlds last k e m m' x same waited r t = inl refl
round-IsCloser worlds last k e m m' x same (retried s w ts q early) r t =
    let begun : ¬ (last ≤ k) = λ h.
      let g = t k h in
      let g' : All (IsTimedOut (worlds k)) ((s, w) ∷ ts) = rw q at g in
      let g'' : IsTimedOut e (s, w) = rw (sym same) (g'.0) in omega arith in
    inr (r, t, omega arith)
round-IsCloser worlds last k e m m' x same (taken tw q) r t =
    let r' : All IsReadable (tw ∷ m'.transactions) = rw q at r in
    let t' : (j : ℕ) → last ≤ j → All (IsTimedOut (worlds j)) (tw ∷ m'.transactions) =
      λ j h. let g = t j h in rw q at g in
    inr (r'.1, (λ j h. (t' j h).1), rw q (omega arith))

pub choose :
    (m : Manager) (b : Bool) (o : Outcome Manager)
    → (b ≡ false → (m' : Manager) × (o ≡ ok m'))
    → (m' : Manager) × (elim b [ true ↦ ok m | false ↦ o ] ≡ ok m')
choose m true o f = (m, refl)
choose m false o f = f refl

-- What the other threads do between two rounds: they handle no message, what they push is readable and timed
-- out from the round `last` on, and after round k they push `left k - left (k + 1)` messages at most.
pub record OthersPush (worlds : ℕ → World) (others : ℕ → Manager → Manager) (last : ℕ)
    (left : ℕ → ℕ) : Type 0 where
  pub leaves : LeavesHistory others
  pub readable :
      (k : ℕ) (m : Manager)
      → All IsReadable m.transactions
      → All IsReadable (others k m).transactions
  pub timed_out :
      (k : ℕ) (m : Manager) (j : ℕ)
      → last ≤ j
      → All (IsTimedOut (worlds j)) m.transactions
      → All (IsTimedOut (worlds j)) (others k m).transactions
  pub grows :
      (k : ℕ) (m : Manager)
      → length (others k m).transactions + left (suc k) ≤ length m.transactions + left k

module _ (worlds : ℕ → World) (others : ℕ → Manager → Manager) where
  pub go_round :
      (n : ℕ) (k count : ℕ) (x : Exit) (m1 : Manager) (o : Outcome (Exit × Manager))
      → o ≡ ok (x, m1)
      → (x ≢ returned
          → (m' : Manager) × (thread_loop n worlds others
                (suc k)
                (count_after count x)
                (others k m1)
              ≡ ok m'))
      → (m' : Manager) × (◌>>=◌ {B = Manager} o (λ (exit, m2). elim (count_after count exit == 0) [
        | true ↦ ok m2
        | false ↦ thread_loop n worlds others (suc k) (count_after count exit) (others k m2)
      ])
          ≡ ok m')
  go_round n k count x m1 (throw e) h more = absurd (ground arith)
  go_round n k count x m1 (ok (y, m2)) h more =
      let sx : y ≡ x = ground arith in
      let sm : m2 ≡ m1 = ground arith in
      let moves : (count_after count y == 0) ≡ false → y ≢ returned = λ go h.
        let c : count_after count y ≡ count_after count returned = ap (count_after count) h in
        ground arith in
      rw (sx, sm) (choose m1 _ _ (λ go. more (λ h. moves (rw sx go) (sx ∙ h))))

  pub thread_loop-total :
      (fuel last : ℕ) (left : ℕ → ℕ) (k count : ℕ) (m : Manager)
      → OthersPush worlds others last left
      → ((j : ℕ) → IsFaithful (worlds j))
      → All IsReadable m.transactions
      → ((j : ℕ) → last ≤ j → All (IsTimedOut (worlds j)) m.transactions)
      → (last - k) + (length m.transactions + left k) < fuel
      → (m' : Manager) × (thread_loop fuel worlds others k count m ≡ ok m')
  unfolding thread_loop round
  thread_loop-total zero last left k count m p f r t lt = absurd (omega arith)
  thread_loop-total (suc n) last left k count m p f r t lt =
      let (x, m1, h, done) = round_of-IsRound (worlds k) m m.transactions refl (f k) r in
      let h' : round (worlds k) m ≡ ok (x, m1) = h in
      let c : ℕ = count_after count x in
      let more : x ≢ returned
          → (m' : Manager) × (thread_loop n worlds others (suc k) c (others k m1) ≡ ok m') =
        λ ne. elim (round-IsCloser worlds last k (worlds k) m m1 x refl done r t) [
          | inl end ↦ absurd (ne end)
          | inr (r1, t1, less) ↦
              thread_loop-total n last left (suc k) c (others k m1) p f (p.readable k m1 r1)
                (λ j late. p.timed_out k m1 j late (t1 j late)) (omega (arith, p.grows k m1))
        ] in
      go_round n k count x m1 _ h' more

  -- Where the node's own community is known, the calls for a message throw at most what is caught, the
  -- notifications of failures throw nothing, a finished task has a transaction, every message has
  -- its transaction id, the other threads push at most `left 0` messages, and from the round `last` on every
  -- message is timed out: a call of the thread's function returns within `last` rounds, one for every message,
  -- also the pushed ones, and one more, and throws nothing. What it did to the messages is a history that
  -- serves the sequence numbers of the topic in order and, from 1 on, each once, from the last sequence
  -- number before the call to the one after it, and drops only what was served before.
  pub thread_function-total :
      (fuel last : ℕ) (left : ℕ → ℕ) (m : Manager)
      → OthersPush worlds others last left
      → ((j : ℕ) → IsFaithful (worlds j))
      → All IsReadable m.transactions
      → ((j : ℕ) → last ≤ j → All (IsTimedOut (worlds j)) m.transactions)
      → last + (length m.transactions + left 0) < fuel
      → (m' : Manager) × (thread_function fuel worlds others m ≡ ok m')
        × (h : List (ℕ × Fate)) × (m'.history ≡ m.history ++ h)
        × IsServed m.last_sequence_number h m'.last_sequence_number
  unfolding thread_function IsLater
  thread_function-total fuel last left m p f r t lt =
      let (m', e) = thread_loop-total fuel last left 0 0 m p f r t (omega arith) in
      let (g, eq, along) = thread_loop-IsLater fuel worlds others 0 0 m m' p.leaves e in
      (m', e, g, eq, along)

-- Whatever a call of the thread's function returns with, it handled the messages along the sequence
-- numbers of the topic: every number from 1 on once and in order, dropping only what was served before.
pub thread_function-IsServed :
    (fuel : ℕ) (worlds : ℕ → World) (others : ℕ → Manager → Manager) (m m' : Manager)
    → LeavesHistory others
    → thread_function fuel worlds others m ≡ ok m'
    → (h : List (ℕ × Fate)) × (m'.history ≡ m.history ++ h)
      × IsServed m.last_sequence_number h m'.last_sequence_number
unfolding thread_function IsLater
thread_function-IsServed fuel worlds others m m' o e =
    thread_loop-IsLater fuel worlds others 0 0 m m' o e

pub round_of_due :
    (e : World) (w : Work) (m : Manager) (k : ℕ) (ts : Map Work)
    → w.task.is_task_finished ≡ true
    → IsDue m w
    → round_of e m ((k, w) ∷ ts) ≡ handle e w m w.task.transaction
unfolding round_of IsDue
round_of_due e w m k ts fin d = ground arith

-- A message whose pair is missing when the thread's function is called is not tried again in that
-- call: the function returns at once, as the count of transactions is still 0, and nothing has
-- changed.
pub thread_function_missing :
    (fuel : ℕ) (worlds : ℕ → World) (others : ℕ → Manager → Manager) (m : Manager) (k : ℕ)
    (w : Work) (ts : Map Work) (t : Transaction)
    → m.transactions ≡ (k, w) ∷ ts
    → w.task.is_task_finished ≡ true
    → w.task.transaction ≡ some t
    → IsDue m w
    → check_pairing (worlds 0) w t ≡ missing
    → thread_function (suc fuel) worlds others m ≡ ok m
unfolding thread_function thread_loop round handle settle
thread_function_missing fuel worlds others m k w ts t q fin has d p =
    let h : round_of (worlds 0) m m.transactions ≡ ok (continued, m) =
      ap (round_of (worlds 0) m) q
      ∙ round_of_due (worlds 0) w m k ts fin d
      ∙ ap (handle (worlds 0) w m) has
      ∙ ap (settle (worlds 0) w m) p in
    rw h refl
