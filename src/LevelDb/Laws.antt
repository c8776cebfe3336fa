-- ===== src/LevelDb/Laws.antt =====
-- src/model/files/LevelDBWrapper.cpp: what the code relies on in leveldb, and the file on top of it.
use gradido_node.Prelude.{
  ℕ, ◌≡◌, ◌≢◌, refl, ap, sym, ◌∙◌, true, List, some, ok, arith, null_pointer, guarded_lem,
  ok_injective,
}
use mathlib.Core.Path.{subst}
use gradido_node.LevelDb.{
  Status, fine, io_error, other_error, LevelDb, LevelDbWrapper, stored, set_key_value,
}

-- A put that succeeds is seen by `Get`, and the other keys keep their values.
pub record IsLevelDb {D : Type 0} (db : LevelDb D) : Type 0 where
  pub get-put :
      (k v : List ℕ) (d : D) → (db.put k v d).0 ≡ fine → db.get k (db.put k v d).1 ≡ some v
  pub get-put_other :
      (k j v : List ℕ) (d : D)
      → (db.put k v d).0 ≡ fine
      → k ≢ j
      → db.get j (db.put k v d).1 ≡ db.get j d

module _ {D : Type 0} (db : LevelDb D) where
  -- What a value that was set leaves.
  pub record HasSet (k v : List ℕ) (w w' : LevelDbWrapper D) : Type 0 where
    pub open_before : w.is_open ≡ true
    pub open_eq : w'.is_open ≡ true
    pub found : db.get k w'.folder ≡ some v
    pub others : (j : List ℕ) → k ≢ j → db.get j w'.folder ≡ db.get j w.folder

  module _ (laws : IsLevelDb db) where
    stored_lem :
        (k v : List ℕ) (w w' : LevelDbWrapper D)
        → w.is_open ≡ true
        → (r : Status × D) → db.put k v w.folder ≡ r
        → stored db w r ≡ ok w'
        → HasSet k v w w'
    stored_lem k v w w' running (io_error, d) e done = absurd (ground arith)
    stored_lem k v w w' running (other_error, d) e done = absurd (ground arith)
    stored_lem k v w w' running (fine, d) e done =
        let is_fine : (db.put k v w.folder).0 ≡ fine = ap (λ (r : Status × D). r.0) e in
        let is_d : (db.put k v w.folder).1 ≡ d = ap (λ (r : Status × D). r.1) e in
        let w_eq : record w { folder = d } ≡ w' = ok_injective (record w { folder = d }) w' done in
        subst (HasSet k v w) w_eq (record {
          open_before = running;
          open_eq = running;
          found = ap (db.get k) (sym is_d) ∙ laws.get-put k v w.folder is_fine;
          others = λ j ne. ap (db.get j) (sym is_d) ∙ laws.get-put_other k j v w.folder is_fine ne;
        })

    pub set_key_value_lem :
        (k v : List ℕ) (w w' : LevelDbWrapper D) → set_key_value db k v w ≡ ok w' → HasSet k v w w'
    unfolding set_key_value
    set_key_value_lem k v w w' e =
        let (running, done) = guarded_lem null_pointer w.is_open _ w' e in
        stored_lem k v w w' running (db.put k v w.folder) refl done
