-- ===== src/Dict/Concurrent/Calls.antt =====
-- The counter of the concurrent dictionary over sequences of calls.
use mudis.Dict.Refine.{
  Call, call, get_call, put_call, put_if_absent_call, put_if_exists_call, remove_call, clear_call,
}
use mudis.Dict.GoMap.{GoMap, IsUnique}
use mudis.Dict.Concurrent.{ConcurrentDict, make_concurrent, compute_capacity, clear, len}
use mudis.Dict.Concurrent.Laws.{make-HasShards, concurrent_dict}
use mudis.Dict.Concurrent.Count.{
  entries, IsCounted, put-IsCounted, put_if_absent-IsCounted, put_if_exists-IsCounted,
  remove-IsCounted,
}
use mudis.Prelude.Int.{ℤ, pos}
use mudis.Prelude.{ℕ, zero, suc, ◌^◌, ◌<◌, List, [], ◌∷◌, replicate, All, ◌≡◌, refl, arith}

module _ (V : Type 0) where
  entries-replicate : (n : ℕ) → entries (replicate {A = GoMap V} n []) ≡ 0
  entries-replicate zero = refl
  entries-replicate (suc n) = omega (arith, entries-replicate n)

  All-replicate : (n : ℕ) → All (IsUnique {V = V}) (replicate n [])
  All-replicate zero = tt
  All-replicate (suc n) = (tt, All-replicate n)

  pub make-IsCounted : (n : ℤ) → IsCounted (make_concurrent {V = V} n)
  unfolding make_concurrent
  make-IsCounted n =
      (make-HasShards V n, All-replicate (compute_capacity n), rw entries-replicate refl)

  -- The dictionary behind a sequence of calls.
  abbrev pub after : (concurrent_dict V).Carrier → List (Call V) → (concurrent_dict V).Carrier
  after d [] = d
  after d (c ∷ calls) = after (call (concurrent_dict V) d c).0 calls

  call-IsCounted :
      (d : (concurrent_dict V).Carrier) (c : Call V)
      → IsCounted d.0
      → IsCounted (call (concurrent_dict V) d c).0.0
  call-IsCounted d (get_call k) h = h
  call-IsCounted d (put_call k v) h = put-IsCounted d.0 k v h
  call-IsCounted d (put_if_absent_call k v) h = put_if_absent-IsCounted d.0 k v h
  call-IsCounted d (put_if_exists_call k v) h = put_if_exists-IsCounted d.0 k v h
  call-IsCounted d (remove_call k) h = remove-IsCounted d.0 k h
  call-IsCounted d clear_call h = unfold clear in make-IsCounted (pos d.0.shard_count)

  pub after-IsCounted :
      (calls : List (Call V)) (d : (concurrent_dict V).Carrier)
      → IsCounted d.0
      → IsCounted (after d calls).0
  after-IsCounted [] d h = h
  after-IsCounted (c ∷ calls) d h = after-IsCounted calls _ (call-IsCounted d c h)

  pub len-IsCounted :
      (d : ConcurrentDict V)
      → IsCounted d
      → entries d.table < 2 ^ 31
      → len d ≡ pos (entries d.table)
  unfolding len
  len-IsCounted d (h, a, c) l = ground arith

-- After any sequence of calls on a new concurrent dictionary of any number of shards, `Len` is the
-- number of entries in all its shards, while there are fewer than 2 to the power of 31.
pub len-calls :
    (V : Type 0) (shards : ℤ) (calls : List (Call V))
    → entries (after V (make_concurrent shards, make-HasShards V shards) calls).0.table < 2 ^ 31
    → len (after V (make_concurrent shards, make-HasShards V shards) calls).0
      ≡ pos (entries (after V (make_concurrent shards, make-HasShards V shards) calls).0.table)
len-calls V shards calls = len-IsCounted V _ (
    after-IsCounted V calls (make_concurrent shards, make-HasShards V shards)
      (make-IsCounted V shards))
