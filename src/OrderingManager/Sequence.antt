-- ===== src/OrderingManager/Sequence.antt =====
-- src/controller/SimpleOrderingManager.cpp, ThreadFunction: what the thread did against the sequence
-- numbers of the topic.
use gradido_node.Prelude.{
  ℕ, zero, suc, ◌+◌, ◌%◌, ◌^◌, ◌≤◌, ◌<◌, ◌≡◌, ◌⊎◌, inl, inr, refl, sym, ap, ◌∙◌, Bool, true, false,
  ◌&&◌, List, [], ◌∷◌, ◌++◌, append_assoc, append-nil, Option, none, some, ltb, leb, ◌==◌, arith,
  Bool-cases, ok_injective, community_not_found, invalid_data, Outcome, ok, throw, ◌>>=◌, >>=-eq-ok,
  length, not,
}
use mathlib.Core.Path.{subst}
use gradido_node.OrderedMap.{Map}
use gradido_node.OrderingManager.{
  Called, returns, throws_gradido, throws_other, known, handled, noted, created, told, Transaction,
  Task, Work, Fate, processed, skipped, timed_out, target_unknown, pairing_id_invalid,
  pairing_invalid, dropped, Manager, World, update_sequence_number, erase_first, close,
  process_transaction, Pairing, complete, missing, crashed, failed, check_task, check_pair,
  check_pairing, Exit, continued, counted, process_and_close, conclude, settle, handle, round_of,
}

abbrev is_dropped : Fate → Bool
is_dropped dropped = true
is_dropped processed = false
is_dropped skipped = false
is_dropped timed_out = false
is_dropped target_unknown = false
is_dropped pairing_id_invalid = false
is_dropped pairing_invalid = false

-- The history of an ideal topic reader between two sequence numbers: it serves each number once and
-- in order, and drops what it has served before. A topic may start with the number 0.
pub data IsServed : ℕ → List (ℕ × Fate) → ℕ → Type 0 where
  done : {l : ℕ} → IsServed l [] l
  served :
      {l l' : ℕ} {f : Fate} {h : List (ℕ × Fate)}
      → is_dropped f ≡ false
      → IsServed (suc l) h l'
      → IsServed l ((suc l, f) ∷ h) l'
  numbered_zero :
      {l' : ℕ} {f : Fate} {h : List (ℕ × Fate)}
      → is_dropped f ≡ false
      → IsServed 0 h l'
      → IsServed 0 ((0, f) ∷ h) l'
  late :
      {n l l' : ℕ} {h : List (ℕ × Fate)}
      → 0 < l
      → n ≤ l
      → IsServed l h l'
      → IsServed l ((n, dropped) ∷ h) l'

pub IsServed-append :
    {l l' l'' : ℕ} {g h : List (ℕ × Fate)}
    → IsServed l g l'
    → IsServed l' h l''
    → IsServed l (g ++ h) l''
IsServed-append done b = b
IsServed-append (served e a) b = served e (IsServed-append a b)
IsServed-append (numbered_zero e a) b = numbered_zero e (IsServed-append a b)
IsServed-append (late z e a) b = late z e (IsServed-append a b)

-- The state m' continues m by a served piece of history.
unfoldable pub IsLater : Manager → Manager → Type 0
IsLater m m' =
    (h : List (ℕ × Fate)) × (m'.history ≡ m.history ++ h)
    × IsServed m.last_sequence_number h m'.last_sequence_number

pub IsLater-refl : (m : Manager) → IsLater m m
unfolding IsLater
IsLater-refl m = ([], sym (append-nil m.history), done)

-- The other threads leave the history and the sequence number alone.
pub IsLater-same :
    (a b : Manager)
    → b.history ≡ a.history
    → b.last_sequence_number ≡ a.last_sequence_number
    → IsLater a b
unfolding IsLater
IsLater-same a b h n = (
  [],
  h ∙ sym (append-nil a.history),
  subst (λ l. IsServed a.last_sequence_number [] l) (sym n) done,
)

pub IsLater-trans : (a b c : Manager) → IsLater a b → IsLater b c → IsLater a c
unfolding IsLater
IsLater-trans a b c (g, eg, sg) (h, eh, sh) =
    (g ++ h, eh ∙ ap (λ x. x ++ h) eg ∙ append_assoc a.history g h, IsServed-append sg sh)

-- The message is the next one that the thread waits for, or any with at most the number 1 at the start.
unfoldable pub IsDue : Manager → Work → Type 0
IsDue m w =
    (w.sequence_number ≤ (m.last_sequence_number + 1) % 2 ^ 64)
    × ((m.last_sequence_number < w.sequence_number) ⊎ (m.last_sequence_number ≡ 0))

pub mod_le : (a : ℕ) → a % 2 ^ 64 ≤ a
mod_le a = omega arith

abbrev pub closed : Fate → Work → Manager → Manager
closed f w m = record (erase_first f w m) { last_sequence_number = w.sequence_number }

pub close-ok : (f : Fate) (w : Work) (m : Manager) → IsDue m w → close f w m ≡ ok (closed f w m)
unfolding IsDue close update_sequence_number erase_first
close-ok f w m (a, b) = ground (arith, mod_le (m.last_sequence_number + 1))

pub one-IsServed :
    (f : Fate) (n l : ℕ)
    → is_dropped f ≡ false
    → n ≤ suc l
    → (l < n) ⊎ (l ≡ 0)
    → IsServed l ((n, f) ∷ []) n
one-IsServed f zero zero d h a = numbered_zero d done
one-IsServed f zero (suc l) d h (inl a) = absurd (omega arith)
one-IsServed f zero (suc l) d h (inr a) = absurd (omega arith)
one-IsServed f (suc n) l d h a = let same : n ≡ l = omega arith in rw same (served d done)

-- The history entry of a message that is due.
pub due-IsServed :
    (f : Fate) (w : Work) (m : Manager)
    → is_dropped f ≡ false
    → IsDue m w
    → IsServed m.last_sequence_number ((w.sequence_number, f) ∷ []) w.sequence_number
unfolding IsDue
due-IsServed f w m d (a, b) =
    one-IsServed f w.sequence_number m.last_sequence_number d
      (omega (arith, mod_le (m.last_sequence_number + 1))) b

pub closed-IsLater :
    (f : Fate) (w : Work) (m : Manager)
    → is_dropped f ≡ false
    → IsDue m w
    → IsLater m (closed f w m)
unfolding IsLater erase_first
closed-IsLater f w m d a = ((w.sequence_number, f) ∷ [], refl, due-IsServed f w m d a)

set_known :
    (m m' : Manager)
    → ok (known m) ≡ ok m'
    → (k : ℕ) × (m' ≡ record m { known_sequence_number = k })
set_known m m' h = (m.last_sequence_number, sym (ok_injective (known m) m' h))

handled-ok :
    (m m' : Manager) (a b : Called)
    → handled a b m ≡ ok m'
    → (k : ℕ) × (m' ≡ record m { known_sequence_number = k })
handled-ok m m' returns returns h = set_known m m' h
handled-ok m m' returns throws_gradido h = (m.known_sequence_number, sym (ok_injective m m' h))
handled-ok m m' returns throws_other h = (m.known_sequence_number, sym (ok_injective m m' h))
handled-ok m m' throws_gradido b h = absurd (ground arith)
handled-ok m m' throws_other b h = absurd (ground arith)

noted-ok :
    (e : World) (w : Work) (m m' : Manager) (c : Called)
    → noted e w c m ≡ ok m'
    → (k : ℕ) × (m' ≡ record m { known_sequence_number = k })
noted-ok e w m m' returns h = set_known m m' h
noted-ok e w m m' throws_gradido h =
    handled-ok m m' (e.notificate_failed w) (e.update_known_again w) h
noted-ok e w m m' throws_other h = absurd (ground arith)

created-ok :
    (e : World) (w : Work) (m m' : Manager) (c : Called)
    → created e w c m ≡ ok m'
    → (k : ℕ) × (m' ≡ record m { known_sequence_number = k })
created-ok e w m m' returns h = noted-ok e w m m' (e.update_known w) h
created-ok e w m m' throws_gradido h =
    handled-ok m m' (e.notificate_failed w) (e.update_known_again w) h
created-ok e w m m' throws_other h = absurd (ground arith)

pub process_transaction-ok :
    (e : World) (w : Work) (m : Manager) {m' : Manager}
    → process_transaction e w m ≡ ok m'
    → (k : ℕ) × (m' ≡ record m { known_sequence_number = k })
unfolding process_transaction
process_transaction-ok e w m {m'} h = elim (Bool-cases e.own_community_known) [
  | inl own ↦ by_id w.transaction_id (rw own at h)
  | inr unknown ↦
      (let no : throw community_not_found ≡ ok m' = rw unknown at h in absurd (ground arith))
]
  where
    by_id :
        (id : Option ℕ)
        → (elim id [ none ↦ throw invalid_data | some _ ↦ created e w (e.create_and_add w) m ])
          ≡ ok m'
        → (k : ℕ) × (m' ≡ record m { known_sequence_number = k })
    by_id none h = absurd (ground arith)
    by_id (some id) h = created-ok e w m m' (e.create_and_add w) h

pub IsLater-known :
    (m m' : Manager) (k : ℕ) → IsLater (record m { known_sequence_number = k }) m' → IsLater m m'
unfolding IsLater
IsLater-known m m' k h = h

pub close-IsLater :
    (f : Fate) (w : Work) (m m' : Manager)
    → is_dropped f ≡ false
    → IsDue m w
    → close f w m ≡ ok m'
    → IsLater m m'
close-IsLater f w m m' d a h =
    let same : ok m' ≡ ok (closed f w m) = sym h ∙ close-ok f w m a in
    let equal : m' ≡ closed f w m = cc in rw equal (closed-IsLater f w m d a)

pub known-IsDue :
    (m : Manager) (w : Work) (k : ℕ) → IsDue m w → IsDue (record m { known_sequence_number = k }) w
unfolding IsDue
known-IsDue m w k h = h

pub processed-IsLater :
    (e : World) (w : Work) (m m' : Manager)
    → IsDue m w
    → process_and_close e w m ≡ ok m'
    → IsLater m m'
unfolding process_and_close
processed-IsLater e w m m' d h =
    let (m1, p, c) = >>=-eq-ok (process_transaction e w m) (close processed w) h in
    let (k, s) = process_transaction-ok e w m p in
    let c' : close processed w (record m { known_sequence_number = k }) ≡ ok m' =
      ap (close processed w) (sym s) ∙ c in
    IsLater-known m m' k (close-IsLater processed w _ m' refl (known-IsDue m w k d) c')

pub conclude-IsLater :
    (e : World) (w : Work) (m m' : Manager) → IsDue m w → conclude e w m ≡ ok m' → IsLater m m'
unfolding conclude
conclude-IsLater e w m m' d h =
    ground (arith, processed-IsLater e w m m' d, close-IsLater skipped w m m' refl d)

pub after_ok :
    (o : Outcome Manager) (f : Manager → Exit) (m' : Manager) (x : Exit)
    → ◌>>=◌ {B = Exit × Manager} o (λ m. ok (f m, m)) ≡ ok (x, m')
    → o ≡ ok m'
after_ok (ok m) f m' x h = ground arith
after_ok (throw e) f m' x h = ground arith

-- The checks never give up a message as one that was served before.
abbrev IsProper : Pairing → Type 0
IsProper (failed f) = is_dropped f ≡ false
IsProper complete = Unit
IsProper missing = Unit
IsProper crashed = Unit

pub check_task-IsProper :
    (e : World) (t : Transaction) (o : Option Task) → IsProper (check_task e t o)
unfolding check_task
check_task-IsProper e t none = tt
check_task-IsProper e t (some p) = ground arith

pub check_pair-IsProper : (e : World) (t : Transaction) (o : Option ℕ) → IsProper (check_pair e t o)
unfolding check_pair
check_pair-IsProper e t none = refl
check_pair-IsProper e t (some id) = check_task-IsProper e t (e.find_pair t.other_group id)

pub check_pairing-IsProper :
    (e : World) (w : Work) (t : Transaction) → IsProper (check_pairing e w t)
unfolding check_pairing
check_pairing-IsProper e w t = ground (arith, check_pair-IsProper e t t.pairing_id)

told-ok : (c : Called) (o : Outcome Manager) (m' : Manager) → told c o ≡ ok m' → o ≡ ok m'
told-ok returns o m' h = h
told-ok throws_gradido o m' h = absurd (ground arith)
told-ok throws_other o m' h = absurd (ground arith)

pub settle-IsLater :
    (e : World) (w : Work) (m m' : Manager) (x : Exit) (p : Pairing)
    → IsProper p
    → IsDue m w
    → settle e w m p ≡ ok (x, m')
    → IsLater m m'
unfolding settle
settle-IsLater e w m m' x complete q d h =
    conclude-IsLater e w m m' d (after_ok _ (λ m. counted (length m.transactions)) m' x h)
settle-IsLater e w m m' x missing q d h =
    let same : m ≡ m' = ground arith in rw (sym same) (IsLater-refl m)
settle-IsLater e w m m' x crashed q d h = ground arith
settle-IsLater e w m m' x (failed f) q d h =
    close-IsLater f w m m' q d
      (told-ok (e.notificate_skipped w) (close f w m) m' (after_ok _ (λ m. continued) m' x h))

pub handle-IsLater :
    (e : World) (w : Work) (m m' : Manager) (x : Exit) (t : Option Transaction)
    → IsDue m w
    → handle e w m t ≡ ok (x, m')
    → IsLater m m'
unfolding handle
handle-IsLater e w m m' x none d h = ground arith
handle-IsLater e w m m' x (some t) d h =
    settle-IsLater e w m m' x (check_pairing e w t) (check_pairing-IsProper e w t) d h

pub dropped-IsLater :
    (w : Work) (m : Manager)
    → 0 < m.last_sequence_number
    → w.sequence_number ≤ m.last_sequence_number
    → IsLater m (erase_first dropped w m)
unfolding IsLater erase_first
dropped-IsLater w m z h = ((w.sequence_number, dropped) ∷ [], refl, late z h done)

pub is_due :
    (m : Manager) (w : Work)
    → ltb ((m.last_sequence_number + 1) % 2 ^ 64) w.sequence_number ≡ false
    → (not (m.last_sequence_number == 0) && leb w.sequence_number m.last_sequence_number) ≡ false
    → IsDue m w
unfolding IsDue
is_due m w a b = ground arith

pub round_of-IsLater :
    (e : World) (m m' : Manager) (ts : Map Work) (x : Exit)
    → round_of e m ts ≡ ok (x, m')
    → IsLater m m'
unfolding round_of
round_of-IsLater e m m' [] x h = let same : m ≡ m' = ground arith in rw (sym same) (IsLater-refl m)
round_of-IsLater e m m' ((_, w) ∷ ts) x h = ground (
  arith,
  IsLater-refl m,
  is_due m w,
  dropped-IsLater w m,
  handle-IsLater e w m m' x w.task.transaction,
)
