-- ===== src/Dict.antt =====
-- datastruct/dict: the interface `Dict` as the database uses it, with the laws that it relies on.
pub mod GoMap
pub mod Simple
pub mod Concurrent
pub mod Sync
pub mod Refine
use mudis.Prelude.{ℕ, Bytes, List, [], ◌∷◌, Option, none, some, beq, if◌then◌else◌, ◌≡◌}

-- 1 for a key that is bound, 0 for one that is not, and the other way round.
abbrev pub bound : {V : Type 0} → Option V → ℕ
bound none = 0
bound (some _) = 1

abbrev pub absent : {V : Type 0} → Option V → ℕ
absent none = 1
absent (some _) = 0

-- The methods that the commands call, and what they say of `get` and of their results.
pub record Dict (V : Type 0) : Type 1 where
  pub Carrier : Type 0
  pub get : Carrier → Bytes → Option V
  pub put : Carrier → Bytes → V → Carrier × ℕ
  pub put_if_absent : Carrier → Bytes → V → Carrier × ℕ
  pub put_if_exists : Carrier → Bytes → V → Carrier × ℕ
  pub remove : Carrier → Bytes → Carrier × ℕ
  pub clear : Carrier → Carrier
  pub get-put :
      (d : Carrier) (k j : Bytes) (v : V)
      → get (put d k v).0 j ≡ (if beq k j then some v else get d j)
  pub put_result : (d : Carrier) (k : Bytes) (v : V) → (put d k v).1 ≡ absent (get d k)
  pub get-put_if_absent :
      (d : Carrier) (k j : Bytes) (v : V)
      → get (put_if_absent d k v).0 j
        ≡ (elim (get d k) [ none ↦ if beq k j then some v else get d j | some _ ↦ get d j ])
  pub put_if_absent_result :
      (d : Carrier) (k : Bytes) (v : V) → (put_if_absent d k v).1 ≡ absent (get d k)
  pub get-put_if_exists :
      (d : Carrier) (k j : Bytes) (v : V)
      → get (put_if_exists d k v).0 j
        ≡ (elim (get d k) [ none ↦ get d j | some _ ↦ if beq k j then some v else get d j ])
  pub put_if_exists_result :
      (d : Carrier) (k : Bytes) (v : V) → (put_if_exists d k v).1 ≡ bound (get d k)
  pub get-remove :
      (d : Carrier) (k j : Bytes) → get (remove d k).0 j ≡ (if beq k j then none else get d j)
  pub remove_result : (d : Carrier) (k : Bytes) → (remove d k).1 ≡ bound (get d k)
  pub get-clear : (d : Carrier) (k : Bytes) → get (clear d) k ≡ none
