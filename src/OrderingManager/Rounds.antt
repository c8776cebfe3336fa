-- ===== src/OrderingManager/Rounds.antt =====
-- src/controller/SimpleOrderingManager.cpp, ThreadFunction: the loop over the rounds.
use gradido_node.Prelude.{
  ℕ, zero, suc, ◌+◌, ◌≤◌, ◌≡◌, ◌≢◌, inl, inr, refl, sym, ap, ◌∙◌, Bool, true, false, ◌∷◌, Option,
  none, some, ◌==◌, if◌then◌else◌, arith, invalid_data, throw, Outcome, ok, >>=-eq-ok, length,
  is_some, Bool-cases, ◌>>=◌,
}
use gradido_node.OrderedMap.{Map}
use gradido_node.OrderingManager.{
  Called, returns, throws_gradido, throws_other, handled, noted, created, told, Transaction, Task,
  Work, Fate, processed, skipped, Manager, World, erase_first, close, process_transaction, Pairing,
  complete, missing, crashed, failed, check_task, check_pair, check_pairing, Exit, returned,
  continued, counted, process_and_close, conclude, count_rest, settle, round, count_after,
  thread_loop,
}
use gradido_node.OrderingManager.Sequence.{
  IsLater, IsLater-same, IsLater-trans, round_of-IsLater, IsDue, known-IsDue, close-ok, closed,
}

pub round-IsLater : (e : World) (m m' : Manager) (x : Exit) → round e m ≡ ok (x, m') → IsLater m m'
unfolding round
round-IsLater e m m' x h = round_of-IsLater e m m' m.transactions x h

-- The other threads handle no message.
pub record LeavesHistory (others : ℕ → Manager → Manager) : Type 0 where
  pub history_eq : (k : ℕ) (m : Manager) → (others k m).history ≡ m.history
  pub number_eq : (k : ℕ) (m : Manager) → (others k m).last_sequence_number ≡ m.last_sequence_number

pub thread_loop-IsLater :
    (fuel : ℕ) (worlds : ℕ → World) (others : ℕ → Manager → Manager) (k count : ℕ) (m m' : Manager)
    → LeavesHistory others
    → thread_loop fuel worlds others k count m ≡ ok m'
    → IsLater m m'
unfolding thread_loop
thread_loop-IsLater zero worlds others k count m m' o h = ground arith
thread_loop-IsLater (suc n) worlds others k count m m' o h =
    let ((x, m1), first, rest) = >>=-eq-ok (round (worlds k) m) _ h in
    let now : IsLater m m1 = round-IsLater (worlds k) m m1 x first in
    elim (Bool-cases (count_after count x == 0)) [
      | inl stop ↦
          let same : m1 ≡ m' = (let r2 : ok m1 ≡ ok m' = rw stop at rest in cc) in rw (sym same) now
      | inr go ↦
          let rest' : thread_loop n worlds others (suc k) (count_after count x) (others k m1)
              ≡ ok m' =
            rw go at rest in
          let between : IsLater m1 (others k m1) =
            IsLater-same m1 (others k m1) (o.history_eq k m1) (o.number_eq k m1) in
          IsLater-trans m m1 m' now (
            IsLater-trans m1 (others k m1) m' between (
              thread_loop-IsLater n worlds others (suc k) (count_after count x) (others k m1) m' o
                rest'))
    ]

-- The exceptions that a round can meet are ruled out by these: the node's own community is known, the
-- calls of `processTransaction` throw none but a GradidoBlockchainException, the notifications of failed
-- and skipped transactions throw none, and a finished task of a pair has a transaction.
unfoldable pub IsFaithful : World → Type 0
IsFaithful e =
    (e.own_community_known ≡ true)
    × ((w : Work)
        → (e.create_and_add w ≢ throws_other)
          × (e.update_known w ≢ throws_other)
          × (e.notificate_failed w ≡ returns)
          × (e.notificate_skipped w ≡ returns))
    × ((g id : ℕ) (p : Task)
        → e.find_pair g id ≡ some p
        → p.is_task_finished ≡ true
        → is_some p.transaction ≡ true)

-- The message has its transaction when its task has finished, and its transaction id.
abbrev pub IsReadable : ℕ × Work → Type 0
IsReadable (_, w) =
    (w.task.is_task_finished ≡ true → is_some w.task.transaction ≡ true)
    × (is_some w.transaction_id ≡ true)

-- What a round does: it waits, it leaves a message whose pair is missing and whose time is not up, or
-- it takes the first message out.
pub data IsRound : World → Manager → Exit → Manager → Type 0 where
  waited : {e : World} {m : Manager} → IsRound e m returned m
  retried :
      {e : World} {m : Manager} (t : ℕ) (w : Work) (ts : Map Work)
      → m.transactions ≡ (t, w) ∷ ts
      → e.now ≤ w.put_into_list_time + e.max_timespan
      → IsRound e m continued m
  taken :
      {e : World} {m m' : Manager} {x : Exit} (tw : ℕ × Work)
      → m.transactions ≡ tw ∷ m'.transactions
      → IsRound e m x m'

pub check_task_sound :
    (e : World) (t : Transaction) (o : Option Task)
    → ((p : Task) → o ≡ some p → p.is_task_finished ≡ true → is_some p.transaction ≡ true)
    → check_task e t o ≢ crashed
unfolding check_task
check_task_sound e t none f h = ground arith
check_task_sound e t (some p) f h = ground (arith, f p refl)

pub check_pair_sound :
    (e : World) (t : Transaction) (o : Option ℕ) → IsFaithful e → check_pair e t o ≢ crashed
unfolding check_pair IsFaithful
check_pair_sound e t none f h = ground arith
check_pair_sound e t (some id) f h = check_task_sound e t _ (f.2 t.other_group id) h

pub check_pairing_sound :
    (e : World) (w : Work) (t : Transaction) → IsFaithful e → check_pairing e w t ≢ crashed
unfolding check_pairing
check_pairing_sound e w t f h = ground (arith, check_pair_sound e t t.pairing_id f)

pub check_pairing_missing :
    (e : World) (w : Work) (t : Transaction)
    → check_pairing e w t ≡ missing
    → e.now ≤ w.put_into_list_time + e.max_timespan
unfolding check_pairing
check_pairing_missing e w t h = ground arith

-- A round that takes out the first message.
abbrev IsTaking : Manager → Map Work → Outcome (Exit × Manager) → Type 0
IsTaking m ts o = (x : Exit) × (m' : Manager) × (o ≡ ok (x, m')) × (m'.transactions ≡ ts)

-- The call returns with the sequence number noted or not.
abbrev pub IsKnown : Manager → Outcome Manager → Type 0
IsKnown m o = (k : ℕ) × (o ≡ ok (record m { known_sequence_number = k }))

handled-IsKnown : (m : Manager) (a b : Called) → a ≡ returns → IsKnown m (handled a b m)
handled-IsKnown m returns returns h = (m.last_sequence_number, refl)
handled-IsKnown m returns throws_gradido h = (m.known_sequence_number, refl)
handled-IsKnown m returns throws_other h = (m.known_sequence_number, refl)
handled-IsKnown m throws_gradido b h = absurd (ground arith)
handled-IsKnown m throws_other b h = absurd (ground arith)

noted-IsKnown :
    (e : World) (w : Work) (m : Manager) (c : Called)
    → c ≢ throws_other
    → e.notificate_failed w ≡ returns
    → IsKnown m (noted e w c m)
noted-IsKnown e w m returns caught told = (m.last_sequence_number, refl)
noted-IsKnown e w m throws_gradido caught told =
    handled-IsKnown m (e.notificate_failed w) (e.update_known_again w) told
noted-IsKnown e w m throws_other caught told = absurd (caught refl)

created-IsKnown :
    (e : World) (w : Work) (m : Manager) (c : Called)
    → c ≢ throws_other
    → e.update_known w ≢ throws_other
    → e.notificate_failed w ≡ returns
    → IsKnown m (created e w c m)
created-IsKnown e w m returns caught noted_too told =
    noted-IsKnown e w m (e.update_known w) noted_too told
created-IsKnown e w m throws_gradido caught noted_too told =
    handled-IsKnown m (e.notificate_failed w) (e.update_known_again w) told
created-IsKnown e w m throws_other caught noted_too told = absurd (caught refl)

pub process_transaction-IsKnown :
    (e : World) (w : Work) (m : Manager)
    → IsFaithful e
    → is_some w.transaction_id ≡ true
    → IsKnown m (process_transaction e w m)
unfolding process_transaction IsFaithful
process_transaction-IsKnown e w m f r =
    let (caught, noted_too, told_failed, told_skipped) = f.1 w in
    rw f.0 (
      by_id w.transaction_id r
        (created-IsKnown e w m (e.create_and_add w) caught noted_too told_failed))
  where
    by_id :
        {o : Outcome Manager} (id : Option ℕ)
        → is_some id ≡ true
        → IsKnown m o
        → IsKnown m (elim id [ none ↦ throw invalid_data | some _ ↦ o ])
    by_id none r k = absurd (ground arith)
    by_id (some id) r k = k

pub process_and_close-ok :
    (e : World) (w : Work) (m : Manager)
    → IsFaithful e
    → is_some w.transaction_id ≡ true
    → IsDue m w
    → (k : ℕ) × (process_and_close e w m
        ≡ ok (closed processed w (record m { known_sequence_number = k })))
unfolding process_and_close
process_and_close-ok e w m f r d =
    let (k, known_eq) = process_transaction-IsKnown e w m f r in
    (
      k,
      ap (λ (o : Outcome Manager). o >>= close processed w) known_eq
          ∙ close-ok processed w _ (known-IsDue m w k d),
    )

pub taking :
    (m m' : Manager) (ts : Map Work) (o : Outcome Manager) (f : Manager → Exit)
    → o ≡ ok m'
    → m'.transactions ≡ ts
    → IsTaking m ts (◌>>=◌ {B = Exit × Manager} o (λ n. ok (f n, n)))
taking m m' ts o f h q =
    (f m', m', ap (λ (o' : Outcome Manager). ◌>>=◌ {B = Exit × Manager} o' (λ n. ok (f n, n))) h, q)

pub if-IsTaking :
    (m : Manager) (ts : Map Work) (b : Bool) (o p : Outcome Manager)
    (k : Manager → Outcome (Exit × Manager))
    → IsTaking m ts (o >>= k)
    → IsTaking m ts (p >>= k)
    → IsTaking m ts ((if b then o else p) >>= k)
if-IsTaking m ts true o p k a b = a
if-IsTaking m ts false o p k a b = b

pub closed_rest :
    (f : Fate) (w : Work) (m : Manager) (k t : ℕ) (ts : Map Work)
    → m.transactions ≡ (t, w) ∷ ts
    → (closed f w (record m { known_sequence_number = k })).transactions ≡ ts
unfolding erase_first
closed_rest f w m k t ts q = rw q refl

pub conclude-IsTaking :
    (e : World) (w : Work) (m : Manager) (t : ℕ) (ts : Map Work)
    → m.transactions ≡ (t, w) ∷ ts
    → IsFaithful e
    → is_some w.transaction_id ≡ true
    → IsDue m w
    → IsTaking m ts (conclude e w m >>= count_rest)
unfolding conclude
conclude-IsTaking e w m t ts q own r d =
    let size : Manager → Exit = λ n. counted (length n.transactions) in
    let (k, done_eq) = process_and_close-ok e w m own r d in
    if-IsTaking m ts w.task.is_success _ _ count_rest
      (taking m _ ts _ size done_eq (closed_rest processed w m k t ts q))
      (taking m _ ts _ size (close-ok skipped w m d)
        (closed_rest skipped w m m.known_sequence_number t ts q))

told_lem : (c : Called) (o : Outcome Manager) → c ≡ returns → told c o ≡ o
told_lem returns o h = refl
told_lem throws_gradido o h = absurd (ground arith)
told_lem throws_other o h = absurd (ground arith)

skipped_told : (e : World) (w : Work) → IsFaithful e → e.notificate_skipped w ≡ returns
unfolding IsFaithful
skipped_told e w f = let (caught, noted_too, told_failed, told_skipped) = f.1 w in told_skipped

pub settle-IsRound :
    (e : World) (w : Work) (m : Manager) (t : ℕ) (ts : Map Work) (p : Pairing)
    → m.transactions ≡ (t, w) ∷ ts
    → IsFaithful e
    → is_some w.transaction_id ≡ true
    → IsDue m w
    → p ≢ crashed
    → (p ≡ missing → e.now ≤ w.put_into_list_time + e.max_timespan)
    → (x : Exit) × (m' : Manager) × (settle e w m p ≡ ok (x, m')) × IsRound e m x m'
unfolding settle
settle-IsRound e w m t ts complete q own r d c l =
    let (x, m', h, rest) = conclude-IsTaking e w m t ts q own r d in
    (x, m', h, taken (t, w) (q ∙ ap (λ (l : Map Work). (t, w) ∷ l) (sym rest)))
settle-IsRound e w m t ts missing q own r d c l = (continued, m, refl, retried t w ts q (l refl))
settle-IsRound e w m t ts crashed q own r d c l = absurd (c refl)
settle-IsRound e w m t ts (failed f) q own r d c l =
    let (x, m', h, rest) =
      taking m (closed f w m) ts _ (λ n. continued)
        (told_lem (e.notificate_skipped w) (close f w m) (skipped_told e w own) ∙ close-ok f w m d)
        (closed_rest f w m m.known_sequence_number t ts q) in
    (x, m', h, taken (t, w) (q ∙ ap (λ (l : Map Work). (t, w) ∷ l) (sym rest)))
