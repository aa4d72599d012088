-- ===== src/Dict/Concurrent/Count.antt =====
-- The atomic counter of the concurrent dictionary against the entries of its shards.
use mudis.Dict.GoMap.{
  insert, delete, insert-IsUnique, delete-IsUnique, length-insert, length-delete, lookup, GoMap,
  IsUnique,
}
use mudis.Dict.Concurrent.{
  add_count, decrease_count, put, put_if_absent, put_if_exists, remove, ConcurrentDict, shard_index,
  get_shard, set_shard, fnv32,
}
use mudis.Dict.Concurrent.Laws.{set_shard-HasShards, spread_bound, HasShards}
use mudis.Prelude.{
  Option, none, some, refl, arith, ℕ, zero, suc, ◌+◌, ◌%◌, ◌^◌, ◌<◌, Bytes, List, [], ◌∷◌, length,
  get_or, set, All, ◌≡◌,
}

module _ {V : Type 0} where
  -- The number of entries in all shards.
  abbrev pub entries : List (GoMap V) → ℕ
  entries [] = 0
  entries (m ∷ table) = length m + entries table

  entries-set :
      (table : List (GoMap V)) (i : ℕ) (m : GoMap V)
      → i < length table
      → entries (set table i m) + length (get_or table i []) ≡ entries table + length m
  entries-set [] i m h = elim h [ ]
  entries-set (n ∷ table) zero m h = omega arith
  entries-set (n ∷ table) (suc i) m h = omega (arith, entries-set table i m (omega arith))

  All-set :
      (table : List (GoMap V)) (i : ℕ) (m : GoMap V)
      → All IsUnique table
      → IsUnique m
      → All IsUnique (set table i m)
  All-set [] i m a u = tt
  All-set (n ∷ table) zero m a u = (u, a.1)
  All-set (n ∷ table) (suc i) m a u = (a.0, All-set table i m a.1 u)

  All-get_or : (table : List (GoMap V)) (i : ℕ) → All IsUnique table → IsUnique (get_or table i [])
  All-get_or [] i a = tt
  All-get_or (n ∷ table) zero a = a.0
  All-get_or (n ∷ table) (suc i) a = All-get_or table i a.1

  -- There are shards, no shard has a key twice, and the counter counts the entries, as 32 bits.
  abbrev pub IsCounted : ConcurrentDict V → Type 0
  IsCounted d = HasShards d × All IsUnique d.table × (d.count ≡ entries d.table % 2 ^ 32)

  entries-set_shard :
      (d : ConcurrentDict V) (k : Bytes) (m : GoMap V)
      → HasShards d
      → entries (set_shard d k m).table + length (get_shard d k) ≡ entries d.table + length m
  unfolding set_shard get_shard shard_index
  entries-set_shard d k m h = entries-set d.table _ m (spread_bound (length d.table) (fnv32 k) h)

  count-set_shard :
      (d : ConcurrentDict V) (k : Bytes) (m : GoMap V) → (set_shard d k m).count ≡ d.count
  unfolding set_shard
  count-set_shard d k m = refl

  set_shard-All :
      (d : ConcurrentDict V) (k : Bytes) (m : GoMap V)
      → All IsUnique d.table
      → IsUnique m
      → All IsUnique (set_shard d k m).table
  unfolding set_shard
  set_shard-All d k m a u = All-set d.table _ m a u

  get_shard-IsUnique :
      (d : ConcurrentDict V) (k : Bytes) → All IsUnique d.table → IsUnique (get_shard d k)
  unfolding get_shard
  get_shard-IsUnique d k a = All-get_or d.table _ a

  -- A shard is replaced, and the counter set.
  recount :
      (d : ConcurrentDict V) (k : Bytes) (m : GoMap V) (c : ℕ)
      → IsCounted d
      → IsUnique m
      → c ≡ entries (set_shard d k m).table % 2 ^ 32
      → IsCounted (record (set_shard d k m) { count = c })
  recount d k m c (h, a, _) u e = (set_shard-HasShards d k m h, set_shard-All d k m a u, e)

  inserted :
      (d : ConcurrentDict V) (k : Bytes) (v : V)
      → IsCounted d
      → lookup k (get_shard d k) ≡ none
      → IsCounted (add_count (set_shard d k (insert k v (get_shard d k))))
  unfolding add_count
  inserted d k v (h, a, c) e =
      recount d k (insert k v (get_shard d k)) _ (h, a, c)
        (insert-IsUnique k v (get_shard d k) (get_shard-IsUnique d k a))
        (omega (
          arith,
          c,
          count-set_shard d k (insert k v (get_shard d k)),
          rw e at (length-insert k v (get_shard d k)),
          entries-set_shard d k (insert k v (get_shard d k)) h,
        ))

  overwritten :
      (d : ConcurrentDict V) (k : Bytes) (v w : V)
      → IsCounted d
      → lookup k (get_shard d k) ≡ some w
      → IsCounted (set_shard d k (insert k v (get_shard d k)))
  overwritten d k v w (h, a, c) e =
      recount d k (insert k v (get_shard d k)) _ (h, a, c)
        (insert-IsUnique k v (get_shard d k) (get_shard-IsUnique d k a))
        (omega (
          arith,
          c,
          count-set_shard d k (insert k v (get_shard d k)),
          rw e at (length-insert k v (get_shard d k)),
          entries-set_shard d k (insert k v (get_shard d k)) h,
        ))

  deleted :
      (d : ConcurrentDict V) (k : Bytes) (w : V)
      → IsCounted d
      → lookup k (get_shard d k) ≡ some w
      → IsCounted (decrease_count (set_shard d k (delete k (get_shard d k))))
  unfolding decrease_count
  deleted d k w (h, a, c) e =
      recount d k (delete k (get_shard d k)) _ (h, a, c)
        (delete-IsUnique k (get_shard d k) (get_shard-IsUnique d k a))
        (omega (
          arith,
          c,
          count-set_shard d k (delete k (get_shard d k)),
          rw e at (length-delete k (get_shard d k) (get_shard-IsUnique d k a)),
          entries-set_shard d k (delete k (get_shard d k)) h,
        ))

  pub put-IsCounted :
      (d : ConcurrentDict V) (k : Bytes) (v : V) → IsCounted d → IsCounted (put d k v).0
  unfolding put
  put-IsCounted d k v h = go (lookup k (get_shard d k)) refl
    where
      go : (o : Option V) → lookup k (get_shard d k) ≡ o → IsCounted (put d k v).0
      go none e = rw (put, e) (inserted d k v h e)
      go (some w) e = rw (put, e) (overwritten d k v w h e)

  pub put_if_absent-IsCounted :
      (d : ConcurrentDict V) (k : Bytes) (v : V) → IsCounted d → IsCounted (put_if_absent d k v).0
  unfolding put_if_absent
  put_if_absent-IsCounted d k v h = go (lookup k (get_shard d k)) refl
    where
      go : (o : Option V) → lookup k (get_shard d k) ≡ o → IsCounted (put_if_absent d k v).0
      go none e = rw (put_if_absent, e) (inserted d k v h e)
      go (some w) e = rw (put_if_absent, e) h

  pub put_if_exists-IsCounted :
      (d : ConcurrentDict V) (k : Bytes) (v : V) → IsCounted d → IsCounted (put_if_exists d k v).0
  unfolding put_if_exists
  put_if_exists-IsCounted d k v h = go (lookup k (get_shard d k)) refl
    where
      go : (o : Option V) → lookup k (get_shard d k) ≡ o → IsCounted (put_if_exists d k v).0
      go none e = rw (put_if_exists, e) h
      go (some w) e = rw (put_if_exists, e) (overwritten d k v w h e)

  pub remove-IsCounted : (d : ConcurrentDict V) (k : Bytes) → IsCounted d → IsCounted (remove d k).0
  unfolding remove
  remove-IsCounted d k h = go (lookup k (get_shard d k)) refl
    where
      go : (o : Option V) → lookup k (get_shard d k) ≡ o → IsCounted (remove d k).0
      go none e = rw (remove, e) h
      go (some w) e = rw (remove, e) (deleted d k w h e)
