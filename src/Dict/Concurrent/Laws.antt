-- ===== src/Dict/Concurrent/Laws.antt =====
-- The dictionary of shards is a `Dict`.
use mudis.Prelude.Int.{negsuc, pos, ℤ}
use mudis.Dict.{Dict, absent, bound}
use mudis.Dict.GoMap.{GoMap, lookup, insert, delete, lookup-insert, lookup-delete}
use mudis.Dict.Concurrent.{
  insert, put_if_absent, put_if_exists, delete, remove, put, clear, make_concurrent, fnv32, lookup,
  GoMap, set_shard, shard_index, get_shard, compute_capacity, ConcurrentDict, get, spread,
}
use mudis.Prelude.{
  length-replicate, ap, beq_iff, beq, Bytes, Option, none, some, if◌then◌else◌, Bool-cases, inl,
  inr, ◌==◌, false, ℕ, zero, suc, ◌+◌, ◌-◌, ◌%◌, ◌/◌, ◌≤◌, ◌<◌, ◌^◌, min, List, [], ◌∷◌, length,
  get_or, set, replicate, ◌≡◌, ◌≢◌, refl, arith,
}
use Prim.Native.Nat.{bit_and, digits, bit_and-bitwise}

-- A mask bounds what it lets through.
digits-mask : (n a b : ℕ) → digits (λ b. zero) min n a b ≤ a
digits-mask zero zero b = omega arith
digits-mask zero (suc a) b = omega arith
digits-mask (suc n) zero b = omega arith
digits-mask (suc n) (suc a) b = omega (arith, digits-mask n (suc a / 2) (b / 2))

bit_and-mask : (a b : ℕ) → bit_and a b ≤ a
bit_and-mask a b = rw (bit_and-bitwise a b) (digits-mask a a b)

pub spread_bound : (n h : ℕ) → 0 < n → spread n h < n
unfolding spread
spread_bound n h p = omega (arith, bit_and-mask ((n % 2 ^ 32 + (2 ^ 32 - 1)) % 2 ^ 32) h)

module _ {ℓ} {A : Type ℓ} where
  pub length-set : (xs : List A) (i : ℕ) (x : A) → length (set xs i x) ≡ length xs
  length-set [] i x = refl
  length-set (y ∷ xs) zero x = refl
  length-set (y ∷ xs) (suc i) x = omega (arith, length-set xs i x)

  pub get_or-set : (xs : List A) (i : ℕ) (x y : A) → i < length xs → get_or (set xs i x) i y ≡ x
  get_or-set [] i x y h = elim h [ ]
  get_or-set (z ∷ xs) zero x y h = refl
  get_or-set (z ∷ xs) (suc i) x y h = get_or-set xs i x y (omega arith)

  pub get_or-set_other :
      (xs : List A) (i j : ℕ) (x y : A) → i ≢ j → get_or (set xs i x) j y ≡ get_or xs j y
  get_or-set_other [] i j x y h = refl
  get_or-set_other (z ∷ xs) zero zero x y h = absurd (h refl)
  get_or-set_other (z ∷ xs) zero (suc j) x y h = refl
  get_or-set_other (z ∷ xs) (suc i) zero x y h = refl
  get_or-set_other (z ∷ xs) (suc i) (suc j) x y h =
      get_or-set_other xs i j x y (λ e. h (omega arith))

  pub get_or-replicate : (n i : ℕ) (x : A) → get_or (replicate n x) i x ≡ x
  get_or-replicate zero i x = refl
  get_or-replicate (suc n) zero x = refl
  get_or-replicate (suc n) (suc i) x = get_or-replicate n i x

compute_capacity_positive : (n : ℤ) → 0 < compute_capacity n
unfolding compute_capacity
compute_capacity_positive (pos n) = ground arith
compute_capacity_positive (negsuc n) = omega arith

pub make-HasShards : (V : Type 0) (n : ℤ) → 0 < length (make_concurrent {V = V} n).table
unfolding make_concurrent
make-HasShards V n =
    omega
      (arith, compute_capacity_positive n, length-replicate {A = GoMap V} (compute_capacity n) [])

module _ {V : Type 0} where
  -- There is a shard for every key.
  abbrev pub HasShards : ConcurrentDict V → Type 0
  HasShards d = 0 < length d.table

  different :
      (d : ConcurrentDict V) (k j : Bytes)
      → spread (length d.table) (fnv32 k) ≢ spread (length d.table) (fnv32 j)
      → beq k j ≡ false
  different d k j p = elim (Bool-cases (beq k j)) [
    | inl e ↦ absurd (p (ap (λ key. spread (length d.table) (fnv32 key)) ((beq_iff k j).0 e)))
    | inr e ↦ e
  ]

  -- A key's shard is replaced by a map in which only that key differs.
  get-set_shard :
      (d : ConcurrentDict V) (k j : Bytes) (m : GoMap V) (r : Option V)
      → HasShards d
      → lookup j m ≡ (if beq k j then r else lookup j (get_shard d k))
      → get (set_shard d k m) j ≡ (if beq k j then r else get d j)
  unfolding get get_shard set_shard shard_index
  get-set_shard d k j m r h e =
      let index : Bytes → ℕ = λ key. spread (length d.table) (fnv32 key) in
      rw (length-set d.table (index k) m) (elim (Bool-cases (index k == index j)) [
        | inl same ↦
            let p : index k ≡ index j = ground arith in
            rw (← p)
              (rw (get_or-set d.table (index k) m [] (spread_bound (length d.table) (fnv32 k) h)) e)
        | inr other ↦
            let p : index k ≢ index j = ground arith in
            rw (get_or-set_other d.table _ _ m [] p, different d k j p)
      ])

  pub set_shard-HasShards :
      (d : ConcurrentDict V) (k : Bytes) (m : GoMap V) → HasShards d → HasShards (set_shard d k m)
  unfolding set_shard
  set_shard-HasShards d k m h = rw length-set h

  pub put-HasShards :
      (d : ConcurrentDict V) (k : Bytes) (v : V) → HasShards d → HasShards (put d k v).0
  unfolding put
  put-HasShards d k v h = ground (arith, set_shard-HasShards d k (insert k v (get_shard d k)) h)

  pub put_if_absent-HasShards :
      (d : ConcurrentDict V) (k : Bytes) (v : V) → HasShards d → HasShards (put_if_absent d k v).0
  unfolding put_if_absent
  put_if_absent-HasShards d k v h =
      ground (arith, set_shard-HasShards d k (insert k v (get_shard d k)) h)

  pub put_if_exists-HasShards :
      (d : ConcurrentDict V) (k : Bytes) (v : V) → HasShards d → HasShards (put_if_exists d k v).0
  unfolding put_if_exists
  put_if_exists-HasShards d k v h =
      ground (arith, set_shard-HasShards d k (insert k v (get_shard d k)) h)

  pub remove-HasShards : (d : ConcurrentDict V) (k : Bytes) → HasShards d → HasShards (remove d k).0
  unfolding remove
  remove-HasShards d k h = ground (arith, set_shard-HasShards d k (delete k (get_shard d k)) h)

  pub get-make : (n : ℤ) (k : Bytes) → get (make_concurrent {V = V} n) k ≡ none
  unfolding get get_shard make_concurrent lookup
  get-make n k = rw get_or-replicate

  pub clear-HasShards : (d : ConcurrentDict V) → HasShards (clear d)
  unfolding clear
  clear-HasShards d = make-HasShards V (pos d.shard_count)

  pub get-clear : (d : ConcurrentDict V) (k : Bytes) → get (clear d) k ≡ none
  unfolding clear
  get-clear d k = get-make (pos d.shard_count) k

  get-insert :
      (d : ConcurrentDict V) (k j : Bytes) (v : V)
      → HasShards d
      → get (set_shard d k (insert k v (get_shard d k))) j ≡ (if beq k j then some v else get d j)
  get-insert d k j v h =
      get-set_shard d k j (insert k v (get_shard d k)) (some v) h
        (lookup-insert k j v (get_shard d k))

  get-delete :
      (d : ConcurrentDict V) (k j : Bytes)
      → HasShards d
      → get (set_shard d k (delete k (get_shard d k))) j ≡ (if beq k j then none else get d j)
  get-delete d k j h =
      get-set_shard d k j (delete k (get_shard d k)) none h (lookup-delete k j (get_shard d k))

  pub get-put :
      (d : ConcurrentDict V) (k j : Bytes) (v : V)
      → HasShards d
      → get (put d k v).0 j ≡ (if beq k j then some v else get d j)
  unfolding put get get_shard
  get-put d k j v h = ground (arith, get-insert d k j v h)

  pub put_result : (d : ConcurrentDict V) (k : Bytes) (v : V) → (put d k v).1 ≡ absent (get d k)
  unfolding get put
  put_result d k v = ground arith

  pub get-put_if_absent :
      (d : ConcurrentDict V) (k j : Bytes) (v : V)
      → HasShards d
      → get (put_if_absent d k v).0 j
        ≡ (elim (get d k) [ none ↦ if beq k j then some v else get d j | some _ ↦ get d j ])
  unfolding get put_if_absent
  get-put_if_absent d k j v h = ground (arith, get-insert d k j v h)

  pub put_if_absent_result :
      (d : ConcurrentDict V) (k : Bytes) (v : V) → (put_if_absent d k v).1 ≡ absent (get d k)
  unfolding get put_if_absent
  put_if_absent_result d k v = ground arith

  pub get-put_if_exists :
      (d : ConcurrentDict V) (k j : Bytes) (v : V)
      → HasShards d
      → get (put_if_exists d k v).0 j
        ≡ (elim (get d k) [ none ↦ get d j | some _ ↦ if beq k j then some v else get d j ])
  unfolding get put_if_exists
  get-put_if_exists d k j v h = ground (arith, get-insert d k j v h)

  pub put_if_exists_result :
      (d : ConcurrentDict V) (k : Bytes) (v : V) → (put_if_exists d k v).1 ≡ bound (get d k)
  unfolding get put_if_exists
  put_if_exists_result d k v = ground arith

  pub get-remove :
      (d : ConcurrentDict V) (k j : Bytes)
      → HasShards d
      → get (remove d k).0 j ≡ (if beq k j then none else get d j)
  unfolding get remove
  get-remove d k j h = ground (arith, get-delete d k j h, beq_iff k j)

  pub remove_result : (d : ConcurrentDict V) (k : Bytes) → (remove d k).1 ≡ bound (get d k)
  unfolding get remove
  remove_result d k = ground arith

-- It implements the interface, where it has shards.
abbrev pub concurrent_dict : (V : Type 0) → Dict V
concurrent_dict V = record {
  Carrier = (d : ConcurrentDict V) × HasShards d;
  get = λ c k. get c.0 k;
  put = λ c k v. (((put c.0 k v).0, put-HasShards c.0 k v c.1), (put c.0 k v).1);
  put_if_absent = λ c k v.
      (((put_if_absent c.0 k v).0, put_if_absent-HasShards c.0 k v c.1), (put_if_absent c.0 k v).1);
  put_if_exists = λ c k v.
      (((put_if_exists c.0 k v).0, put_if_exists-HasShards c.0 k v c.1), (put_if_exists c.0 k v).1);
  remove = λ c k. (((remove c.0 k).0, remove-HasShards c.0 k c.1), (remove c.0 k).1);
  clear = λ c. (clear c.0, clear-HasShards c.0);
  get-put = λ c k j v. get-put c.0 k j v c.1;
  put_result = λ c k v. put_result c.0 k v;
  get-put_if_absent = λ c k j v. get-put_if_absent c.0 k j v c.1;
  put_if_absent_result = λ c k v. put_if_absent_result c.0 k v;
  get-put_if_exists = λ c k j v. get-put_if_exists c.0 k j v c.1;
  put_if_exists_result = λ c k v. put_if_exists_result c.0 k v;
  get-remove = λ c k j. get-remove c.0 k j c.1;
  remove_result = λ c k. remove_result c.0 k;
  get-clear = λ c k. get-clear c.0 k;
}
