-- ===== src/TransactionHash.antt =====
-- src/cache/TransactionHash.{h,cpp}: the transactions that were seen, by the first bytes of their first
-- signature. A transaction stands for that signature and has one; SignatureOctet is a parameter, as is
-- the first signature of the transaction with a number in the blockchain (none where it has no such
-- transaction).
use gradido_node.Prelude.{
  ℕ, ◌≡◌, ap, sym, Bool, false, List, Option, none, some, Outcome, ok, throw, arith, already_exist,
  null_pointer,
}
use mathlib.Core.Path.{subst}
use gradido_node.IndexFile.Reader.{bytes_eq}
use gradido_node.ExpireCache.{ExpireCache, IsCache}

module _ {C : Type 0} (octet : List ℕ → ℕ) (cache : ExpireCache ℕ ℕ C) where
  abbrev pub push_new : List ℕ → ℕ → Option ℕ × C → Outcome (Unit {0}) × C
  push_new signature id (some nr, c) = (throw already_exist, c)
  push_new signature id (none, c) = (ok tt, cache.add (octet signature) id c)

  -- `push`
  unfoldable pub push : List ℕ → ℕ → C → Outcome (Unit {0}) × C
  push signature id c = push_new signature id (cache.get (octet signature) c)

  module _ (first_signature_of : ℕ → Outcome (Option (List ℕ))) where
    -- The check for a hash collision.
    abbrev pub is_same : List ℕ → Outcome (Option (List ℕ)) → Outcome Bool
    is_same signature (throw e) = throw e
    is_same signature (ok none) = throw null_pointer
    is_same signature (ok (some other)) = ok (bytes_eq other signature)

    abbrev pub has_found : List ℕ → Option ℕ × C → Outcome Bool × C
    has_found signature (none, c) = (ok false, c)
    has_found signature (some nr, c) = (is_same signature (first_signature_of nr), c)

    -- `has`
    unfoldable pub has : List ℕ → C → Outcome Bool × C
    has signature c = has_found signature (cache.get (octet signature) c)

    module _ (laws : IsCache cache) where
      has-added :
          (signature other : List ℕ) (id : ℕ) (c : C)
          → octet other ≡ octet signature
          → first_signature_of id ≡ ok (some signature)
          → (has other (cache.add (octet signature) id c)).0 ≡ ok (bytes_eq signature other)
      unfolding has
      has-added signature other id c alike stored =
          let found : (cache.get (octet other) (cache.add (octet signature) id c)).0 ≡ some id =
            rw alike (laws.get-add c (octet signature) id) in
          subst
            (λ o.
              (has_found other
                (o, (cache.get (octet other) (cache.add (octet signature) id c)).1)).0
              ≡ ok (bytes_eq signature other))
            (sym found) (ap (is_same other) stored)

      -- A transaction that was pushed with success and stands in the blockchain is found again, and one with
      -- another signature of the same first bytes is not taken for it.
      pub push-has :
          (signature other : List ℕ) (id : ℕ) (c : C)
          → octet other ≡ octet signature
          → first_signature_of id ≡ ok (some signature)
          → (push signature id c).0 ≡ ok tt
          → (has other (push signature id c).1).0 ≡ ok (bytes_eq signature other)
      unfolding push
      push-has signature other id c alike stored done =
          push_new-has signature other id (cache.get (octet signature) c) alike stored done
        where
          push_new-has :
              (signature other : List ℕ) (id : ℕ) (found : Option ℕ × C)
              → octet other ≡ octet signature
              → first_signature_of id ≡ ok (some signature)
              → (push_new signature id found).0 ≡ ok tt
              → (has other (push_new signature id found).1).0 ≡ ok (bytes_eq signature other)
          push_new-has signature other id (some nr, c) alike stored done = absurd (ground arith)
          push_new-has signature other id (none, c) alike stored done =
              has-added signature other id c alike stored
