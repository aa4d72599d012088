-- ===== src/Dict/Sync.antt =====
-- datastruct/dict/sync_dict_syncmap.go, over `sync.Map` of Go's package sync, which is a parameter with
-- what its documentation says of Load, Store, Delete and Range.
pub mod Laws
use mudis.Dict.GoMap.{GoMap, lookup, IsUnique, keys}
use mudis.Prelude.{
  ℕ, zero, suc, ◌+◌, Bytes, List, [], ◌∷◌, Option, none, some, Bool, true, false, if◌then◌else◌,
  ◌==◌, leb, length, set, replicate, beq, ◌≡◌,
}

-- `entries` is the visit of `Range`; without concurrent writes it visits every entry once.
pub record SyncMap (V : Type 0) : Type 1 where
  pub Carrier : Type 0
  pub empty : Carrier
  pub load : Carrier → Bytes → Option V
  pub store : Carrier → Bytes → V → Carrier
  pub delete : Carrier → Bytes → Carrier
  pub entries : Carrier → GoMap V
  pub load-store :
      (m : Carrier) (k j : Bytes) (v : V)
      → load (store m k v) j ≡ (if beq k j then some v else load m j)
  pub load-delete :
      (m : Carrier) (k j : Bytes) → load (delete m k) j ≡ (if beq k j then none else load m j)
  pub load-empty : (k : Bytes) → load empty k ≡ none
  pub lookup-entries : (m : Carrier) (k : Bytes) → lookup k (entries m) ≡ load m k
  pub entries-IsUnique : (m : Carrier) → IsUnique (entries m)

-- The loop of `Len` over the visited entries.
count_loop : {V : Type 0} → ℕ → GoMap V → ℕ
count_loop length [] = length
count_loop length (_ ∷ m) = count_loop (length + 1) m

-- The loop of `Keys`.
keys_loop : ℕ → List Bytes → List Bytes → List Bytes
keys_loop i result [] = result
keys_loop i result (k ∷ ks) = keys_loop (i + 1) (set result i k) ks

-- The loop of `RandomDistinctKeys`; `none` is the panic of an index out of range.
distinct_loop : ℕ → ℕ → List Bytes → List Bytes → Option (List Bytes)
distinct_loop limit i result [] = some result
distinct_loop limit i result (k ∷ ks) =
    let rest = distinct_loop limit (i + 1) (set result i k) ks in
    if leb limit i then none else if i + 1 == limit then some (set result i k) else rest

-- A round of `RandomKeys` takes the first key of a visit.
first_key : List Bytes → Bytes
first_key [] = []
first_key (k ∷ _) = k

module _ {V : Type 0} (M : SyncMap V) where
  unfoldable pub make_sync : M.Carrier
  make_sync = M.empty

  unfoldable pub get : M.Carrier → Bytes → Option V
  get m key = M.load m key

  unfoldable pub len : M.Carrier → ℕ
  unfolding count_loop
  len m = count_loop 0 (M.entries m)

  unfoldable pub put : M.Carrier → Bytes → V → M.Carrier × ℕ
  put m key val = (M.store m key val, (elim (M.load m key) [ some _ ↦ 0 | none ↦ 1 ]))

  unfoldable pub put_if_absent : M.Carrier → Bytes → V → M.Carrier × ℕ
  put_if_absent m key val = elim (M.load m key) [ some _ ↦ (m, 0) | none ↦ (M.store m key val, 1) ]

  unfoldable pub put_if_exists : M.Carrier → Bytes → V → M.Carrier × ℕ
  put_if_exists m key val = elim (M.load m key) [ some _ ↦ (M.store m key val, 1) | none ↦ (m, 0) ]

  unfoldable pub remove : M.Carrier → Bytes → M.Carrier × ℕ
  remove m key = (M.delete m key, (elim (M.load m key) [ some _ ↦ 1 | none ↦ 0 ]))

  unfoldable pub all_keys : M.Carrier → List Bytes
  unfolding keys_loop len
  all_keys m = keys_loop 0 (replicate (len m) []) (keys (M.entries m))

  -- The visit of `ForEach`: what the consumer answers is dropped.
  for_each_loop {ℓ} : {S : Type ℓ} → (Bytes → V → S → S × Bool) → GoMap V → S → S
  for_each_loop consumer [] s = s
  for_each_loop consumer ((k, v) ∷ m) s = for_each_loop consumer m (consumer k v s).0

  unfoldable pub for_each {ℓ} : {S : Type ℓ} → M.Carrier → (Bytes → V → S → S × Bool) → S → S
  unfolding for_each_loop
  for_each m consumer s = for_each_loop consumer (M.entries m) s

  -- Each round is a visit of its own, and `Range` need not visit in one order: `visits` are the keys
  -- in the orders of the rounds.
  unfoldable pub random_keys : List (List Bytes) → List Bytes
  unfolding first_key
  random_keys [] = []
  random_keys (visit ∷ visits) = first_key visit ∷ random_keys visits

  unfoldable pub random_distinct_keys : M.Carrier → ℕ → Option (List Bytes)
  unfolding distinct_loop
  random_distinct_keys m limit = distinct_loop limit 0 (replicate limit []) (keys (M.entries m))

  unfoldable pub clear : M.Carrier → M.Carrier
  unfolding make_sync
  clear m = make_sync
