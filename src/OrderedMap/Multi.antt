-- ===== src/OrderedMap/Multi.antt =====
-- std::multimap over numbers: equal keys stand in the order in which they were inserted.
use gradido_node.Prelude.{
  ℕ, suc, ◌≤◌, ◌≡◌, refl, ap, [], ◌∷◌, ◌++◌, Bool-cases, inl, inr, All, ltb, if◌then◌else◌, arith,
  length,
}
use gradido_node.OrderedMap.{Map}

-- A map with one more entry: at one place under its key, and with nothing else changed.
pub record Inserted {ℓ} {V : Type ℓ} (k : ℕ) (v : V) (m m' : Map V) : Type ℓ where
  pub before : Map V
  pub after : Map V
  pub old : m ≡ before ++ after
  pub new : m' ≡ before ++ (k, v) ∷ after

module _ {ℓ} {V : Type ℓ} where
  -- `insert`: behind the entries whose key is not greater.
  unfoldable pub insert_multi : ℕ → V → Map V → Map V
  insert_multi k v [] = (k, v) ∷ []
  insert_multi k v ((j, w) ∷ m) =
      if ltb k j then (k, v) ∷ (j, w) ∷ m else (j, w) ∷ insert_multi k v m

  -- The keys never fall, from a lower bound on.
  abbrev pub FromMulti : ℕ → Map V → Type 0
  FromMulti b [] = Unit
  FromMulti b ((k, v) ∷ m) = (b ≤ k) × FromMulti k m

  pub FromMulti-weaken : (a b : ℕ) (m : Map V) → a ≤ b → FromMulti b m → FromMulti a m
  FromMulti-weaken a b [] h f = tt
  FromMulti-weaken a b ((k, v) ∷ m) h f = (omega arith, f.1)

  pub insert_multi-FromMulti :
      (k b : ℕ) (v : V) (m : Map V) → b ≤ k → FromMulti b m → FromMulti b (insert_multi k v m)
  unfolding insert_multi
  insert_multi-FromMulti k b v [] h a = (h, tt)
  insert_multi-FromMulti k b v ((i, w) ∷ m) h a = ground (arith, insert_multi-FromMulti k i v m)

  pub length-insert_multi :
      (k : ℕ) (v : V) (m : Map V) → length (insert_multi k v m) ≡ suc (length m)
  unfolding insert_multi
  length-insert_multi k v [] = refl
  length-insert_multi k v ((i, w) ∷ m) = ground (arith, length-insert_multi k v m)

  pub insert_multi-Inserted : (k : ℕ) (v : V) (m : Map V) → Inserted k v m (insert_multi k v m)
  unfolding insert_multi
  insert_multi-Inserted k v [] = record { before = []; after = []; old = refl; new = refl }
  insert_multi-Inserted k v ((j, w) ∷ m) =
      let rest = insert_multi-Inserted k v m in
      elim (Bool-cases (ltb k j)) [
        | inl first ↦ rw first (record { before = []; after = (j, w) ∷ m; old = refl; new = refl })
        | inr behind ↦ rw behind (record {
          before = (j, w) ∷ rest.before;
          after = rest.after;
          old = ap (λ (l : Map V). (j, w) ∷ l) rest.old;
          new = ap (λ (l : Map V). (j, w) ∷ l) rest.new;
        })
      ]

  -- Every value stands under the key that it has itself.
  abbrev pub AreKeyed : (V → ℕ) → Map V → Type 0
  AreKeyed key [] = Unit
  AreKeyed key ((k, v) ∷ m) = (k ≡ key v) × AreKeyed key m

  pub insert_multi-AreKeyed :
      (key : V → ℕ) (k : ℕ) (v : V) (m : Map V)
      → k ≡ key v
      → AreKeyed key m
      → AreKeyed key (insert_multi k v m)
  unfolding insert_multi
  insert_multi-AreKeyed key k v [] e a = (e, tt)
  insert_multi-AreKeyed key k v ((j, w) ∷ m) e a =
      let rest = insert_multi-AreKeyed key k v m e a.1 in
      elim (Bool-cases (ltb k j)) [
        | inl first ↦ rw first (e, a)
        | inr behind ↦ rw behind (a.0, rest)
      ]

  pub insert_multi-All :
      (P : ℕ × V → Type 0) (k : ℕ) (v : V) (m : Map V)
      → P (k, v)
      → All P m
      → All P (insert_multi k v m)
  unfolding insert_multi
  insert_multi-All P k v [] p a = (p, tt)
  insert_multi-All P k v ((j, w) ∷ m) p a =
      let rest = insert_multi-All P k v m p a.1 in
      elim (Bool-cases (ltb k j)) [
        | inl first ↦ rw first (p, a)
        | inr behind ↦ rw behind (a.0, rest)
      ]
