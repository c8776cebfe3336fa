-- ===== src/BlockIndex/Entries.antt =====
-- src/cache/BlockIndex.cpp: the lists of entries, and years of months as maps of maps.
use gradido_node.Prelude.{
  ℕ, suc, ◌≤◌, ◌<◌, ◌≡◌, inl, inr, false, List, [], ◌∷◌, ◌++◌, some, arith, ltb, ◌==◌,
  if◌then◌else◌, ◌&&◌, Option-cases, Bool-cases,
}
use mathlib.Core.Path.{subst}
use gradido_node.OrderedMap.{Map, find, assign, find-assign, Above}
use gradido_node.BlockIndex.{Entry, Months, out_of_order, month_entries, set_month, value_or}

-- Transaction numbers ascend, from a lower bound on, are positive and at most `hi`.
abbrev pub Within : ℕ → ℕ → List Entry → Type 0
Within lo hi [] = Unit
Within lo hi (e ∷ es) =
    (lo ≤ e.transaction_nr)
    × (1 ≤ e.transaction_nr)
    × (e.transaction_nr ≤ hi)
    × Within (suc e.transaction_nr) hi es

pub Within-raise : (lo hi hi' : ℕ) (es : List Entry) → hi ≤ hi' → Within lo hi es → Within lo hi' es
Within-raise lo hi hi' [] h w = tt
Within-raise lo hi hi' (e ∷ es) h w =
    (w.0, w.1, omega arith, Within-raise (suc e.transaction_nr) hi hi' es h w.3)

above_last :
    (lo hi nr : ℕ) (f : Entry) (es : List Entry)
    → Within lo hi (f ∷ es)
    → out_of_order (f ∷ es) nr ≡ false
    → f.transaction_nr < nr
unfolding out_of_order
above_last lo hi nr f [] w o = ground arith
above_last lo hi nr f (g ∷ es) w o =
    let later = above_last (suc f.transaction_nr) hi nr g es w.3 o in
    let first : suc f.transaction_nr ≤ g.transaction_nr = w.3.0 in omega arith

pub Within-append :
    (lo hi : ℕ) (es : List Entry) (e : Entry)
    → Within lo hi es
    → lo ≤ e.transaction_nr
    → 1 ≤ e.transaction_nr
    → e.transaction_nr ≤ hi
    → out_of_order es e.transaction_nr ≡ false
    → Within lo hi (es ++ e ∷ [])
unfolding out_of_order
Within-append lo hi [] e w a b c o = (a, b, c, tt)
Within-append lo hi (f ∷ []) e w a b c o = ground arith
Within-append lo hi (f ∷ g ∷ es) e w a b c o = (
  w.0,
  w.1,
  w.2,
  Within-append (suc f.transaction_nr) hi (g ∷ es) e w.3
      (above_last lo hi e.transaction_nr f (g ∷ es) w o) b c o,
)

-- Every value of the map satisfies the predicate.
abbrev pub AllValues {ℓ κ} : {V : Type ℓ} → (V → Type κ) → Map V → Type κ
AllValues P [] = Unit
AllValues P ((k, v) ∷ m) = P v × AllValues P m

module _ {ℓ κ} {V : Type ℓ} (P : V → Type κ) where
  pub AllValues-assign :
      (k : ℕ) (v : V) (m : Map V) → P v → AllValues P m → AllValues P (assign k v m)
  unfolding assign
  AllValues-assign k v [] p a = (p, tt)
  AllValues-assign k v ((j, w) ∷ m) p a =
      let rest = AllValues-assign k v m p a.1 in
      elim (Bool-cases (ltb k j)) [
        | inl lt ↦ rw lt (p, a)
        | inr ge ↦
            rw ge
              (elim (Bool-cases (k == j)) [ inl eq ↦ rw eq (p, a.1) | inr ne ↦ rw ne (a.0, rest) ])
      ]

  pub AllValues-find : (k : ℕ) (v : V) (m : Map V) → find k m ≡ some v → AllValues P m → P v
  unfolding find
  AllValues-find k v [] e a = cc
  AllValues-find k v ((j, w) ∷ m) e a = elim (Bool-cases (j == k)) [
    | inl eq ↦ let found : some w ≡ some v = rw eq at e in let same : w ≡ v = cc in subst P same a.0
    | inr ne ↦ AllValues-find k v m (rw ne at e) a.1
  ]

  pub AllValues-value_or :
      (d : V) (k : ℕ) (m : Map V) → P d → AllValues P m → P (value_or d (find k m))
  AllValues-value_or d k m p a = elim (Option-cases (find k m)) [
    | inl e ↦ rw e p
    | inr (v, e) ↦ rw e (AllValues-find k v m e a)
  ]

-- The entries of another month stay, and those of the month are the new ones.
pub month_entries-set_month :
    (y m y' m' : ℕ) (es : List Entry) (ym : Map Months)
    → Above 0 ym
    → AllValues (λ ms. Above 0 ms) ym
    → month_entries y' m' (set_month y m es ym)
      ≡ (if (y == y') && (m == m') then es else month_entries y' m' ym)
unfolding month_entries set_month
month_entries-set_month y m y' m' es ym a b = elim (Option-cases (find y ym)) [
  | inl new ↦
      ground (arith, find-assign y y' (assign m es []) 0 ym a, find-assign m m' es 0 [] tt, new)
  | inr (ms, old) ↦ ground (
    arith,
    find-assign y y' (assign m es ms) 0 ym a,
    find-assign m m' es 0 ms (AllValues-find (λ ns. Above 0 ns) y ms ym old b),
    old,
  )
]
