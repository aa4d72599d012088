-- ===== src/Dict/Concurrent/Placed.antt =====
-- datastruct/dict/sync_dict_concurrenthashmap.go: every key stands in its own shard, over calls.
use mudis.Dict.Refine.{
  Call, call, get_call, put_call, put_if_absent_call, put_if_exists_call, remove_call, clear_call,
}
use mudis.Dict.GoMap.{GoMap, lookup, insert, delete, lookup-insert, lookup-delete}
use mudis.Dict.Concurrent.{
  ConcurrentDict, shard_index, get_shard, set_shard, add_count, decrease_count, put, put_if_absent,
  put_if_exists, remove, clear, fnv32, make_concurrent, compute_capacity,
}
use mudis.Dict.Concurrent.Calls.{after}
use mudis.Dict.Concurrent.Laws.{
  concurrent_dict, HasShards, length-set, get_or-replicate, spread_bound,
}
use mudis.Prelude.{
  ℕ, zero, suc, ◌<◌, Bytes, List, [], ◌∷◌, none, beq, beq_iff, length, get_or, set, Bool-cases,
  Option-cases, ◌≡◌, ◌≢◌, inl, inr, refl, sym, ap, ◌∙◌, arith, false,
}
use mudis.Prelude.Int.{ℤ, pos}

module _ {V : Type 0} where
  -- No key stands in another shard than its own.
  abbrev pub IsPlaced : ConcurrentDict V → Type 0
  IsPlaced d = (i : ℕ) (j : Bytes) → i ≢ shard_index d j → lookup j (get_or d.table i []) ≡ none

  index-set_shard :
      (d : ConcurrentDict V) (k : Bytes) (m : GoMap V) (j : Bytes)
      → shard_index (set_shard d k m) j ≡ shard_index d j
  unfolding shard_index set_shard
  index-set_shard d k m j = rw (length-set d.table (shard_index d k) m) refl

  shard_bound : (d : ConcurrentDict V) (k : Bytes) → HasShards d → shard_index d k < length d.table
  unfolding shard_index
  shard_bound d k h = spread_bound (length d.table) (fnv32 k) h

  lookup-set :
      (table : List (GoMap V)) (a i : ℕ) (m : GoMap V) (j : Bytes)
      → a < length table
      → lookup j (get_or table i []) ≡ none
      → (a ≡ i → lookup j m ≡ none)
      → lookup j (get_or (set table a m) i []) ≡ none
  lookup-set [] a i m j h e f = absurd (omega arith)
  lookup-set (t ∷ table) zero zero m j h e f = f refl
  lookup-set (t ∷ table) zero (suc i) m j h e f = e
  lookup-set (t ∷ table) (suc a) zero m j h e f = e
  lookup-set (t ∷ table) (suc a) (suc i) m j h e f =
      lookup-set table a i m j (omega arith) e (λ s. f (ap suc s))

  set_shard-IsPlaced :
      (d : ConcurrentDict V) (k : Bytes) (m : GoMap V)
      → HasShards d
      → IsPlaced d
      → ((j : Bytes) → shard_index d k ≢ shard_index d j → lookup j m ≡ none)
      → IsPlaced (set_shard d k m)
  unfolding set_shard
  set_shard-IsPlaced d k m h p q i j n =
      let other : i ≢ shard_index d j = λ e. n (e ∙ sym (index-set_shard d k m j)) in
      lookup-set d.table (shard_index d k) i m j (shard_bound d k h) (p i j other)
        (λ e. q j (λ s. other (sym e ∙ s)))

  insert-IsPlaced :
      (d : ConcurrentDict V) (k : Bytes) (v : V)
      → HasShards d
      → IsPlaced d
      → IsPlaced (set_shard d k (insert k v (get_shard d k)))
  insert-IsPlaced d k v h p = set_shard-IsPlaced d k _ h p (λ j n.
      let e : lookup j (get_shard d k) ≡ none = unfold get_shard in p (shard_index d k) j n in
      let o : beq k j ≡ false = elim (Bool-cases (beq k j)) [
        | inl s ↦ absurd (n (ap (shard_index d) ((beq_iff k j).0 s)))
        | inr s ↦ s
      ] in
      rw (lookup-insert k j v (get_shard d k), o) e)

  delete-IsPlaced :
      (d : ConcurrentDict V) (k : Bytes)
      → HasShards d
      → IsPlaced d
      → IsPlaced (set_shard d k (delete k (get_shard d k)))
  delete-IsPlaced d k h p = set_shard-IsPlaced d k _ h p (λ j n.
      let e : lookup j (get_shard d k) ≡ none = unfold get_shard in p (shard_index d k) j n in
      rw (lookup-delete k j (get_shard d k)) (ground (arith, e)))

  pub put-IsPlaced :
      (d : ConcurrentDict V) (k : Bytes) (v : V) → HasShards d → IsPlaced d → IsPlaced (put d k v).0
  unfolding put shard_index lookup
  put-IsPlaced d k v h p = elim (Option-cases (lookup k (get_shard d k))) [
    | inl e ↦ rw (put, e) (unfold add_count in insert-IsPlaced d k v h p)
    | inr (w, e) ↦ rw (put, e) (insert-IsPlaced d k v h p)
  ]

  pub put_if_absent-IsPlaced :
      (d : ConcurrentDict V) (k : Bytes) (v : V)
      → HasShards d
      → IsPlaced d
      → IsPlaced (put_if_absent d k v).0
  unfolding put_if_absent shard_index lookup
  put_if_absent-IsPlaced d k v h p = elim (Option-cases (lookup k (get_shard d k))) [
    | inl e ↦ rw (put_if_absent, e) (unfold add_count in insert-IsPlaced d k v h p)
    | inr (w, e) ↦ rw (put_if_absent, e) p
  ]

  pub put_if_exists-IsPlaced :
      (d : ConcurrentDict V) (k : Bytes) (v : V)
      → HasShards d
      → IsPlaced d
      → IsPlaced (put_if_exists d k v).0
  unfolding put_if_exists shard_index lookup
  put_if_exists-IsPlaced d k v h p = elim (Option-cases (lookup k (get_shard d k))) [
    | inl e ↦ rw (put_if_exists, e) p
    | inr (w, e) ↦ rw (put_if_exists, e) (insert-IsPlaced d k v h p)
  ]

  pub remove-IsPlaced :
      (d : ConcurrentDict V) (k : Bytes) → HasShards d → IsPlaced d → IsPlaced (remove d k).0
  unfolding remove shard_index lookup
  remove-IsPlaced d k h p = elim (Option-cases (lookup k (get_shard d k))) [
    | inl e ↦ rw (remove, e) p
    | inr (w, e) ↦ rw (remove, e) (unfold decrease_count in delete-IsPlaced d k h p)
  ]

module _ (V : Type 0) where
  pub make-IsPlaced : (n : ℤ) → IsPlaced (make_concurrent {V = V} n)
  unfolding make_concurrent lookup
  make-IsPlaced n i j _ = rw (get_or-replicate {A = GoMap V} (compute_capacity n) i []) refl

  pub call-IsPlaced :
      (d : (concurrent_dict V).Carrier) (c : Call V)
      → IsPlaced d.0
      → IsPlaced (call (concurrent_dict V) d c).0.0
  call-IsPlaced (d, h) (get_call k) p = p
  call-IsPlaced (d, h) (put_call k v) p = put-IsPlaced d k v h p
  call-IsPlaced (d, h) (put_if_absent_call k v) p = put_if_absent-IsPlaced d k v h p
  call-IsPlaced (d, h) (put_if_exists_call k v) p = put_if_exists-IsPlaced d k v h p
  call-IsPlaced (d, h) (remove_call k) p = remove-IsPlaced d k h p
  call-IsPlaced (d, h) clear_call p = unfold clear in make-IsPlaced (pos d.shard_count)

  pub after-IsPlaced :
      (calls : List (Call V)) (d : (concurrent_dict V).Carrier)
      → IsPlaced d.0
      → IsPlaced (after V d calls).0
  after-IsPlaced [] d p = p
  after-IsPlaced (c ∷ calls) d p = after-IsPlaced calls _ (call-IsPlaced d c p)
