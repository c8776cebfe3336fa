-- ===== src/OrderedMap.antt =====
-- std::map and std::multimap over numbers: pairs in the order of their keys.
pub mod Multi
use gradido_node.Prelude.{
  ℕ, suc, ◌≤◌, ◌<◌, ◌≡◌, ◌≢◌, refl, Bool, true, false, List, [], ◌∷◌, ◌++◌, Option, none, some, ltb,
  ◌==◌, if◌then◌else◌, arith, length, append_assoc, ==_refl, Bool-cases, inl, inr,
}

abbrev pub Map {ℓ} : Type ℓ → Type ℓ
Map V = List (ℕ × V)

module _ {ℓ} {V : Type ℓ} where
  unfoldable pub find : ℕ → Map V → Option V
  find k [] = none
  find k ((j, v) ∷ m) = if j == k then some v else find k m

  -- `insert`: a key that is there keeps its value.
  unfoldable pub insert : ℕ → V → Map V → Map V
  insert k v [] = (k, v) ∷ []
  insert k v ((j, w) ∷ m) =
      if ltb k j then (k, v) ∷ (j, w) ∷ m else if k == j then (j, w) ∷ m else (j, w) ∷ insert k v m

  -- An assignment through an iterator or `operator[]`.
  unfoldable pub assign : ℕ → V → Map V → Map V
  assign k v [] = (k, v) ∷ []
  assign k v ((j, w) ∷ m) =
      if ltb k j then (k, v) ∷ (j, w) ∷ m else if k == j then (k, v) ∷ m else (j, w) ∷ assign k v m

  unfoldable pub erase : ℕ → Map V → Map V
  erase k [] = []
  erase k ((j, w) ∷ m) = if k == j then m else (j, w) ∷ erase k m

  -- The keys ascend, from a lower bound on.
  abbrev pub Above : ℕ → Map V → Type 0
  Above b [] = Unit
  Above b ((k, v) ∷ m) = (b ≤ k) × Above (suc k) m

  abbrev pub IsSorted : Map V → Type 0
  IsSorted m = Above 0 m

  pub Above-weaken : (b c : ℕ) (m : Map V) → b ≤ c → Above c m → Above b m
  Above-weaken b c [] h a = tt
  Above-weaken b c ((k, v) ∷ m) h a = (omega arith, a.1)

  pub find_below : (b k : ℕ) (m : Map V) → Above b m → k < b → find k m ≡ none
  unfolding find
  find_below b k [] a h = refl
  find_below b k ((j, v) ∷ m) a h = ground (arith, find_below (suc j) k m a.1)

  pub find-insert :
      (k j : ℕ) (v : V) (b : ℕ) (m : Map V)
      → Above b m
      → find k m ≡ none
      → find j (insert k v m) ≡ (if k == j then some v else find j m)
  unfolding find insert
  find-insert k j v b [] a e = refl
  find-insert k j v b ((i, w) ∷ m) a e =
      ground (arith, find-insert k j v (suc i) m a.1, find_below (suc i) k m a.1)

  pub find-assign :
      (k j : ℕ) (v : V) (b : ℕ) (m : Map V)
      → Above b m
      → find j (assign k v m) ≡ (if k == j then some v else find j m)
  unfolding find assign
  find-assign k j v b [] a = refl
  find-assign k j v b ((i, w) ∷ m) a = ground (arith, find-assign k j v (suc i) m a.1)

  pub find-erase :
      (k j : ℕ) (b : ℕ) (m : Map V)
      → Above b m
      → find j (erase k m) ≡ (if k == j then none else find j m)
  unfolding find erase
  find-erase k j b [] a = ground arith
  find-erase k j b ((i, w) ∷ m) a =
      ground (arith, find-erase k j (suc i) m a.1, find_below (suc i) k m a.1)

  pub insert-Above : (k b : ℕ) (v : V) (m : Map V) → b ≤ k → Above b m → Above b (insert k v m)
  unfolding insert
  insert-Above k b v [] h a = (h, tt)
  insert-Above k b v ((i, w) ∷ m) h a = ground (arith, insert-Above k (suc i) v m)

  pub assign-Above : (k b : ℕ) (v : V) (m : Map V) → b ≤ k → Above b m → Above b (assign k v m)
  unfolding assign
  assign-Above k b v [] h a = (h, tt)
  assign-Above k b v ((i, w) ∷ m) h a = ground (arith, assign-Above k (suc i) v m)

  pub erase-Above : (k b : ℕ) (m : Map V) → Above b m → Above b (erase k m)
  unfolding erase
  erase-Above k b [] a = tt
  erase-Above k b ((i, w) ∷ m) a =
      ground (arith, erase-Above k (suc i) m a.1, Above-weaken b (suc i) m)

  pub length-insert :
      (k : ℕ) (v : V) (b : ℕ) (m : Map V)
      → Above b m
      → find k m ≡ none
      → length (insert k v m) ≡ suc (length m)
  unfolding find insert
  length-insert k v b [] a e = refl
  length-insert k v b ((i, w) ∷ m) a e = ground (arith, length-insert k v (suc i) m a.1)

  pub insert_kept :
      (k : ℕ) (v w : V) (b : ℕ) (m : Map V) → Above b m → find k m ≡ some w → insert k v m ≡ m
  unfolding find insert
  insert_kept k v w b [] a e = absurd (ground arith)
  insert_kept k v w b ((i, u) ∷ m) a e =
      ground (arith, insert_kept k v w (suc i) m a.1, find_below (suc i) k m a.1)
