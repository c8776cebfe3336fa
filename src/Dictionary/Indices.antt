-- ===== src/Dictionary/Indices.antt =====
-- src/cache/Dictionary.cpp: strings and their indices.
use gradido_node.Prelude.{
  ℕ, zero, suc, ◌+◌, ◌%◌, ◌^◌, ◌≤◌, ◌<◌, ◌≡◌, ◌≢◌, ◌⊎◌, inl, inr, refl, sym, ap, ◌∙◌, List, ◌∷◌,
  Option, none, some, true, false, Bool-cases, Outcome, ok, throw, level_db_status, arith,
  Option-cases,
}
use gradido_node.OrderedMap.{find, insert, IsSorted, find-insert, insert-Above, insert_kept}
use gradido_node.IndexFile.RoundTrip.{bytes_eq_self, bytes_eq-eq}
use gradido_node.Dictionary.{
  Store, Dictionary, same_or_zero, confirm, find_index_for_string, get_index_for_string,
  get_string_for_index, kept, failed, found_or_added, store, add_if_missing,
  get_or_add_index_for_string,
}
use gradido_node.Dictionary.Laws.{IsStore}

pub same_or_zero-suc :
    (string : List ℕ) (j i : ℕ) (o : Option (List ℕ))
    → same_or_zero string j o ≡ suc i
    → (j ≡ suc i) × (o ≡ some string)
unfolding same_or_zero
same_or_zero-suc string j i none h = absurd (ground arith)
same_or_zero-suc string j i (some value) h = ground (arith, bytes_eq-eq string value)

module _ {S : Type 0} (db : Store S) (octet : List ℕ → ℕ) where
  -- Every index of the reverse lookup is one of a string in the file with that octet.
  pub record IsValid (d : Dictionary S) : Type 0 where
    pub is_sorted : IsSorted d.reverse_lookup
    pub is_backed :
        (o i : ℕ)
        → find o d.reverse_lookup ≡ some i
        → (1 ≤ i) × (i ≤ d.last_index) × (s : List ℕ) × (db.get d.file i ≡ some s) × (octet s ≡ o)

  module _ (laws : IsStore db) where
    -- What the reverse lookup finds after a string was stored under the next index.
    pub found_after :
        (string : List ℕ) (d : Dictionary S)
        → IsValid d
        → (o i : ℕ) → find o (insert (octet string) (suc d.last_index) d.reverse_lookup) ≡ some i
        → ((octet string ≡ o) × (i ≡ suc d.last_index)) ⊎ (find o d.reverse_lookup ≡ some i)
    found_after string d v o i h = elim (Option-cases (find (octet string) d.reverse_lookup)) [
      | inl absent ↦
          let e =
            find-insert (octet string) o (suc d.last_index) 0 d.reverse_lookup v.is_sorted absent in
          ground arith
      | inr (w, present) ↦ inr (
          rw
            (insert_kept (octet string) (suc d.last_index) w 0 d.reverse_lookup v.is_sorted present)
            at h)
    ]

    pub stored :
        (string : List ℕ) (d : Dictionary S)
        → (db.set d.file (suc d.last_index) string).0 ≡ true
        → IsValid d
        → (o i : ℕ)
        → ((octet string ≡ o) × (i ≡ suc d.last_index)) ⊎ (find o d.reverse_lookup ≡ some i)
        → (1 ≤ i)
          × (i ≤ suc d.last_index)
          × (s : List ℕ) × (db.get (db.set d.file (suc d.last_index) string).1 i ≡ some s)
          × (octet s ≡ o)
    stored string d put v o i (inl (same, new)) = (
      omega arith,
      omega arith,
      string,
      ap (db.get (db.set d.file (suc d.last_index) string).1) new
          ∙ laws.get-set d.file (suc d.last_index) string put,
      same,
    )
    stored string d put v o i (inr old) =
        let (low, high, s, e, same) = v.is_backed o i old in
        (
          low,
          omega arith,
          s,
          laws.get-set_other d.file (suc d.last_index) i string put (omega arith) ∙ e,
          same,
        )

    -- The state after a string was stored under the next index.
    pub store-IsValid :
        (string : List ℕ) (d : Dictionary S)
        → (db.set d.file (suc d.last_index) string).0 ≡ true
        → IsValid d
        → IsValid (kept db octet (suc d.last_index) string d)
    unfolding kept
    store-IsValid string d put v = record {
      is_sorted =
          insert-Above (octet string) 0 (suc d.last_index) d.reverse_lookup (omega arith)
            v.is_sorted;
      is_backed = λ o i h. stored string d put v o i (found_after string d v o i h);
    }

    pub confirm_sound :
        (file : S) (string : List ℕ) (o : Option ℕ) (i : ℕ)
        → confirm db octet file string o ≡ suc i
        → (o ≡ some (suc i)) × (db.get file (suc i) ≡ some string)
    unfolding confirm
    confirm_sound file string none i h = absurd (ground arith)
    confirm_sound file string (some j) i h =
        let (same, found) = same_or_zero-suc string j i (db.get file j) h in
        (ap (λ (k : ℕ). some k) same, ap (db.get file) (sym same) ∙ found)

    pub confirm_kept :
        (string : List ℕ) (d : Dictionary S) (i : ℕ)
        → confirm db octet d.file string (find (octet string) d.reverse_lookup) ≡ suc i
        → get_string_for_index db octet (suc i) d ≡ ok string
    unfolding get_string_for_index
    confirm_kept string d i h =
        let (a, b) = confirm_sound d.file string (find (octet string) d.reverse_lookup) i h in
        ground arith

    pub next_index :
        (d : Dictionary S)
        → d.last_index + 1 < 2 ^ 32
        → (d.last_index + 1) % 2 ^ 32 ≡ suc d.last_index
    next_index d h = omega arith

    -- The indices in use keep their strings when a string is stored under the next index.
    pub store-others :
        (string : List ℕ) (d : Dictionary S) (j : ℕ)
        → (db.set d.file (suc d.last_index) string).0 ≡ true
        → j ≤ d.last_index
        → get_string_for_index db octet j (kept db octet (suc d.last_index) string d)
          ≡ get_string_for_index db octet j d
    unfolding kept get_string_for_index
    store-others string d j put h =
        let e = laws.get-set_other d.file (suc d.last_index) j string put (omega arith) in
        ground arith

    pub store-own :
        (string : List ℕ) (d : Dictionary S)
        → (db.set d.file (suc d.last_index) string).0 ≡ true
        → get_string_for_index db octet
            (suc d.last_index)
            (kept db octet (suc d.last_index) string d)
          ≡ ok string
    unfolding kept get_string_for_index
    store-own string d put =
        let e = laws.get-set d.file (suc d.last_index) string put in ground arith

    pub stored_last :
        (string : List ℕ) (d : Dictionary S)
        → suc d.last_index ≤ (kept db octet (suc d.last_index) string d).last_index
    unfolding kept
    stored_last string d = omega arith

    pub stored_grown :
        (string : List ℕ) (d : Dictionary S)
        → d.last_index ≤ (kept db octet (suc d.last_index) string d).last_index
    unfolding kept
    stored_grown string d = omega arith

    pub add_if_missing-suc :
        (string : List ℕ) (d : Dictionary S) (i j : ℕ)
        → i ≡ suc j
        → add_if_missing db octet string d i ≡ (ok (suc j), d)
    unfolding add_if_missing
    add_if_missing-suc string d i j h = ground arith

    -- What `get_or_add_index_for_string` promises.
    abbrev pub IsAdded : List ℕ → Dictionary S → ℕ × Dictionary S → Type 0
    IsAdded string d (i, d') =
        IsValid d'
        × (1 ≤ i)
        × (i ≤ d'.last_index)
        × (d.last_index ≤ d'.last_index)
        × (get_string_for_index db octet i d' ≡ ok string)
        × ((j : ℕ)
            → j ≤ d.last_index
            → get_string_for_index db octet j d' ≡ get_string_for_index db octet j d)

    -- The string is added, or the put fails and only the last index is raised.
    abbrev pub IsAddedOrFails : List ℕ → Dictionary S → Outcome ℕ × Dictionary S → Type 0
    IsAddedOrFails string d r =
        ((x : ℕ × Dictionary S) × (r ≡ (ok x.0, x.1)) × IsAdded string d x)
        ⊎ (((db.set d.file (suc d.last_index) string).0 ≡ false)
            × (r ≡ (
              throw level_db_status,
              record d {
                last_index = suc d.last_index;
                file = (db.set d.file (suc d.last_index) string).1;
              },
            )))

    pub store-IsAdded :
        (string : List ℕ) (d : Dictionary S)
        → IsValid d
        → IsAddedOrFails string d (store db octet (suc d.last_index) (suc d.last_index) string d)
    unfolding store failed
    store-IsAdded string d v = elim (Bool-cases (db.set d.file (suc d.last_index) string).0) [
      | inl put ↦ inl (
        (suc d.last_index, kept db octet (suc d.last_index) string d),
        rw put refl,
        (
          store-IsValid string d put v,
          omega arith,
          stored_last string d,
          stored_grown string d,
          store-own string d put,
          (λ j h. store-others string d j put h),
        ),
      )
      | inr broken ↦ inr (broken, rw broken refl)
    ]

    pub add_if_missing-IsAdded :
        (string : List ℕ) (d : Dictionary S) (i : ℕ)
        → IsValid d
        → d.last_index + 1 < 2 ^ 32
        → confirm db octet d.file string (find (octet string) d.reverse_lookup) ≡ i
        → IsAddedOrFails string d (add_if_missing db octet string d i)
    unfolding add_if_missing
    add_if_missing-IsAdded string d zero v fits h =
        rw (next_index d fits) (store-IsAdded string d v)
    add_if_missing-IsAdded string d (suc i) v fits h =
        let (a, b) = confirm_sound d.file string (find (octet string) d.reverse_lookup) i h in
        let (low, high, _, _, _) = v.is_backed (octet string) (suc i) a in
        inl (
          (suc i, d),
          add_if_missing-suc string d (suc i) i refl,
          (v, low, high, omega arith, confirm_kept string d i h, λ j le. refl),
        )

    -- With a lawful store, a valid dictionary whose next index fits in 32 bits gives every string that
    -- is not empty an index from 1 on and stays valid: the string stands under that index, and every
    -- index up to the last one before the call keeps its string. Otherwise the put of the new index has
    -- failed: the call throws, and the last index is raised while the reverse lookup is as it was.
    pub get_or_add_index_for_string-IsAdded :
        (b : ℕ) (bs : List ℕ) (d : Dictionary S)
        → IsValid d
        → d.last_index + 1 < 2 ^ 32
        → IsAddedOrFails (b ∷ bs) d (get_or_add_index_for_string db octet (b ∷ bs) d)
    unfolding get_or_add_index_for_string found_or_added find_index_for_string
    get_or_add_index_for_string-IsAdded b bs d v fits =
        add_if_missing-IsAdded (b ∷ bs) d _ v fits refl

    pub confirm-own :
        (string : List ℕ) (d : Dictionary S) (i : ℕ)
        → find (octet string) d.reverse_lookup ≡ some i
        → db.get d.file i ≡ some string
        → confirm db octet d.file string (find (octet string) d.reverse_lookup) ≡ i
    unfolding confirm same_or_zero
    confirm-own string d i h e = ground (arith, bytes_eq_self string)

    pub confirm-other :
        (string other : List ℕ) (d : Dictionary S) (i : ℕ)
        → find (octet string) d.reverse_lookup ≡ some i
        → db.get d.file i ≡ some other
        → string ≢ other
        → confirm db octet d.file string (find (octet string) d.reverse_lookup) ≡ 0
    unfolding confirm same_or_zero
    confirm-other string other d i h e ne = ground (arith, bytes_eq-eq string other)

    pub store_colliding :
        (string : List ℕ) (d : Dictionary S) (i : ℕ)
        → IsValid d
        → find (octet string) d.reverse_lookup ≡ some i
        → find (octet string) (kept db octet (suc d.last_index) string d).reverse_lookup ≡ some i
    unfolding kept
    store_colliding string d i v h =
        rw (insert_kept (octet string) (suc d.last_index) i 0 d.reverse_lookup v.is_sorted h) h

    pub store_colliding_file :
        (string other : List ℕ) (d : Dictionary S) (i : ℕ)
        → i ≤ d.last_index
        → (db.set d.file (suc d.last_index) string).0 ≡ true
        → db.get d.file i ≡ some other
        → db.get (kept db octet (suc d.last_index) string d).file i ≡ some other
    unfolding kept
    store_colliding_file string other d i h put e =
        laws.get-set_other d.file (suc d.last_index) i string put (omega arith) ∙ e

    pub added :
        (b : ℕ) (bs other : List ℕ) (d : Dictionary S) (i : ℕ)
        → d.last_index + 1 < 2 ^ 32
        → find (octet (b ∷ bs)) d.reverse_lookup ≡ some i
        → db.get d.file i ≡ some other
        → b ∷ bs ≢ other
        → (db.set d.file (suc d.last_index) (b ∷ bs)).0 ≡ true
        → get_or_add_index_for_string db octet (b ∷ bs) d
          ≡ (ok (suc d.last_index), kept db octet (suc d.last_index) (b ∷ bs) d)
    unfolding get_or_add_index_for_string found_or_added find_index_for_string add_if_missing store
    added b bs other d i fits h e ne put =
        rw (confirm-other (b ∷ bs) other d i h e ne, next_index d fits, put) refl

    -- Two different strings with the same octet: with a lawful store and a valid dictionary with room
    -- for two more indices, a string whose octet is the key of another string gets a new index every
    -- time it is asked for, here twice in a row, where both puts succeed.
    pub get_or_add_index_for_string_colliding :
        (b : ℕ) (bs other : List ℕ) (d : Dictionary S) (i : ℕ)
        → IsValid d
        → d.last_index + 2 < 2 ^ 32
        → find (octet (b ∷ bs)) d.reverse_lookup ≡ some i
        → db.get d.file i ≡ some other
        → b ∷ bs ≢ other
        → (db.set d.file (suc d.last_index) (b ∷ bs)).0 ≡ true
        → (db.set (db.set d.file (suc d.last_index) (b ∷ bs)).1 (suc (suc d.last_index)) (b ∷ bs)).0
          ≡ true
        → (d' d'' : Dictionary S) × (get_or_add_index_for_string db octet (b ∷ bs) d
            ≡ (ok (suc d.last_index), d'))
          × (get_or_add_index_for_string db octet (b ∷ bs) d' ≡ (ok (suc (suc d.last_index)), d''))
    unfolding kept
    get_or_add_index_for_string_colliding b bs other d i v fits h e ne put put_again =
        let (low, high, _, _, _) = v.is_backed (octet (b ∷ bs)) i h in
        let d' : Dictionary S = kept db octet (suc d.last_index) (b ∷ bs) d in
        (
          d',
          _,
          added b bs other d i (omega arith) h e ne put,
          added b bs other d' i (omega arith) (store_colliding (b ∷ bs) d i v h)
              (store_colliding_file (b ∷ bs) other d i high put e) ne put_again,
        )

    -- Without collisions a string that is asked for has its own entry or none.
    pub missing_absent :
        (string : List ℕ) (d : Dictionary S)
        → IsValid d
        → ((i : ℕ) (t : List ℕ) → db.get d.file i ≡ some t → octet t ≡ octet string → t ≡ string)
        → confirm db octet d.file string (find (octet string) d.reverse_lookup) ≡ 0
        → find (octet string) d.reverse_lookup ≡ none
    missing_absent string d v inj h = elim (Option-cases (find (octet string) d.reverse_lookup)) [
      | inl absent ↦ absent
      | inr (i, present) ↦
          let (low, _, s, e, o) = v.is_backed (octet string) i present in
          let same : s ≡ string = inj i s e o in
          let zero_index : i ≡ 0 = sym (confirm-own string d i present (rw (sym same) e)) ∙ h in
          absurd (omega arith)
    ]

    pub store-find :
        (string : List ℕ) (d : Dictionary S)
        → IsValid d
        → find (octet string) d.reverse_lookup ≡ none
        → find (octet string) (kept db octet (suc d.last_index) string d).reverse_lookup
          ≡ some (suc d.last_index)
    unfolding kept
    store-find string d v h =
        let e =
          find-insert (octet string) (octet string) (suc d.last_index) 0 d.reverse_lookup
            v.is_sorted h in
        ground arith

    pub store-get :
        (string : List ℕ) (d : Dictionary S)
        → (db.set d.file (suc d.last_index) string).0 ≡ true
        → db.get (kept db octet (suc d.last_index) string d).file (suc d.last_index) ≡ some string
    unfolding kept
    store-get string d put = laws.get-set d.file (suc d.last_index) string put

    pub add_if_missing-confirm :
        (string : List ℕ) (d : Dictionary S) (i : ℕ)
        → IsValid d
        → ((i : ℕ) (t : List ℕ) → db.get d.file i ≡ some t → octet t ≡ octet string → t ≡ string)
        → d.last_index + 1 < 2 ^ 32
        → (db.set d.file (suc d.last_index) string).0 ≡ true
        → confirm db octet d.file string (find (octet string) d.reverse_lookup) ≡ i
        → (j : ℕ) × (d' : Dictionary S) × (add_if_missing db octet string d i ≡ (ok (suc j), d'))
          × (confirm db octet d'.file string (find (octet string) d'.reverse_lookup) ≡ suc j)
    unfolding add_if_missing store
    add_if_missing-confirm string d zero v inj fits put h =
        rw (next_index d fits, put)
          (
            d.last_index,
            kept db octet (suc d.last_index) string d,
            refl,
            confirm-own string (kept db octet (suc d.last_index) string d) (suc d.last_index)
                (store-find string d v (missing_absent string d v inj h)) (store-get string d put),
          )
    add_if_missing-confirm string d (suc i) v inj fits put h =
        (i, d, add_if_missing-suc string d (suc i) i refl, h)

    -- Where no other string of the file has the octet of a string that is not empty, the store is lawful,
    -- the dictionary is valid, the next index fits in 32 bits and its put succeeds: after the string was given its index,
    -- looking it up finds that index, and asking again returns it and changes nothing.
    pub get_or_add_index_for_string_stable :
        (b : ℕ) (bs : List ℕ) (d : Dictionary S)
        → IsValid d
        → ((i : ℕ) (t : List ℕ) → db.get d.file i ≡ some t → octet t ≡ octet (b ∷ bs) → t ≡ b ∷ bs)
        → d.last_index + 1 < 2 ^ 32
        → (db.set d.file (suc d.last_index) (b ∷ bs)).0 ≡ true
        → (i : ℕ) × (d' : Dictionary S) × (get_or_add_index_for_string db octet (b ∷ bs) d
            ≡ (ok i, d'))
          × (get_index_for_string db octet (b ∷ bs) d' ≡ ok i)
          × (get_or_add_index_for_string db octet (b ∷ bs) d' ≡ (ok i, d'))
    unfolding get_or_add_index_for_string found_or_added get_index_for_string find_index_for_string
    get_or_add_index_for_string_stable b bs d v inj fits put =
        let (j, d', e, again) = add_if_missing-confirm (b ∷ bs) d _ v inj fits put refl in
        let found : get_index_for_string db octet (b ∷ bs) d' ≡ ok (suc j) = ground arith in
        (suc j, d', e, found, add_if_missing-suc (b ∷ bs) d' _ j again)
