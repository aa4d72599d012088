-- ===== src/Dict/GoMap.antt =====
-- Go's `map[string]V`, which both dictionaries and the sets are built on: an association list with
-- one entry for each key. The list is in one of the orders in which a `range` may visit the map.
use mudis.Prelude.{
  ◌+◌, Bytes, List, [], ◌∷◌, Option, none, some, beq, beq_iff, if◌then◌else◌, ◌≡◌, refl, arith,
  length,
}

abbrev pub GoMap : Type 0 → Type 0
GoMap V = List (Bytes × V)

module _ {V : Type 0} where
  -- `m[key]` with its second result.
  unfoldable pub lookup : Bytes → GoMap V → Option V
  lookup k [] = none
  lookup k ((j, v) ∷ m) = if beq j k then some v else lookup k m

  -- `m[key] = val`
  unfoldable pub insert : Bytes → V → GoMap V → GoMap V
  insert k v [] = (k, v) ∷ []
  insert k v ((j, w) ∷ m) = if beq j k then (j, v) ∷ m else (j, w) ∷ insert k v m

  -- `delete(m, key)`
  unfoldable pub delete : Bytes → GoMap V → GoMap V
  delete k [] = []
  delete k ((j, w) ∷ m) = let rest = delete k m in if beq j k then rest else (j, w) ∷ rest

  abbrev pub keys : GoMap V → List Bytes
  keys [] = []
  keys ((k, _) ∷ m) = k ∷ keys m

  -- No key stands twice.
  abbrev pub IsUnique : GoMap V → Type 0
  IsUnique [] = Unit
  IsUnique ((k, _) ∷ m) = (lookup k m ≡ none) × IsUnique m

  pub lookup-insert :
      (k j : Bytes) (v : V) (m : GoMap V)
      → lookup j (insert k v m) ≡ (if beq k j then some v else lookup j m)
  unfolding lookup insert
  lookup-insert k j v [] = refl
  lookup-insert k j v ((i, w) ∷ m) =
      ground (arith, beq_iff i k, beq_iff i j, beq_iff k j, lookup-insert k j v m)

  pub lookup-delete :
      (k j : Bytes) (m : GoMap V) → lookup j (delete k m) ≡ (if beq k j then none else lookup j m)
  unfolding lookup delete
  lookup-delete k j [] = ground arith
  lookup-delete k j ((i, w) ∷ m) =
      ground (arith, beq_iff i k, beq_iff i j, beq_iff k j, lookup-delete k j m)

  pub insert-IsUnique : (k : Bytes) (v : V) (m : GoMap V) → IsUnique m → IsUnique (insert k v m)
  unfolding insert lookup
  insert-IsUnique k v [] h = (refl, tt)
  insert-IsUnique k v ((i, w) ∷ m) h =
      ground (arith, beq_iff i k, beq_iff k i, insert-IsUnique k v m, lookup-insert k i v m)

  pub delete-IsUnique : (k : Bytes) (m : GoMap V) → IsUnique m → IsUnique (delete k m)
  unfolding delete lookup
  delete-IsUnique k [] h = tt
  delete-IsUnique k ((i, w) ∷ m) h =
      ground (arith, beq_iff i k, beq_iff k i, delete-IsUnique k m, lookup-delete k i m)

  -- A key that is not there adds an entry; a delete of a key that is there takes one away.
  pub length-insert :
      (k : Bytes) (v : V) (m : GoMap V)
      → length (insert k v m) ≡ (elim (lookup k m) [ none ↦ length m + 1 | some _ ↦ length m ])
  unfolding insert lookup
  length-insert k v [] = omega arith
  length-insert k v ((i, w) ∷ m) = ground (arith, length-insert k v m)

  pub delete_absent : (k : Bytes) (m : GoMap V) → lookup k m ≡ none → delete k m ≡ m
  unfolding delete lookup
  delete_absent k [] h = refl
  delete_absent k ((i, w) ∷ m) h = ground (arith, delete_absent k m)

  pub length-delete :
      (k : Bytes) (m : GoMap V)
      → IsUnique m
      → length m
        ≡ (elim (lookup k m) [ none ↦ length (delete k m) | some _ ↦ length (delete k m) + 1 ])
  unfolding delete lookup
  length-delete k [] h = refl
  length-delete k ((i, w) ∷ m) h = ground (arith, beq_iff i k, length-delete k m, delete_absent k m)
