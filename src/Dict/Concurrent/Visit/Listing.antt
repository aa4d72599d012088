-- ===== src/Dict/Concurrent/Visit/Listing.antt =====
-- datastruct/dict/sync_dict_concurrenthashmap.go: Keys behind calls of the interface.
use mudis.Dict.{bound}
use mudis.Dict.Refine.{Call}
use mudis.Dict.Concurrent.{make_concurrent, get, get_shard, shard_index}
use mudis.Dict.Concurrent.Laws.{concurrent_dict, make-HasShards}
use mudis.Dict.Concurrent.Calls.{after, after-IsCounted, make-IsCounted, len-IsCounted}
use mudis.Dict.Concurrent.Count.{entries}
use mudis.Dict.Concurrent.Placed.{after-IsPlaced, make-IsPlaced}
use mudis.Dict.Concurrent.Visit.{all_keys, for_each}
use mudis.Dict.Concurrent.Visit.Laws.{
  times, times-visit_table, shard_keys, visit_table-keep, visit_table-collect_key,
}
use mudis.Prelude.{
  ℕ, ◌+◌, ◌<◌, ◌^◌, Bytes, List, [], map, some, true, ◌≡◌, ◌∙◌, refl, ap, sym, arith,
}
use mudis.Prelude.Int.{ℤ}

-- Behind any calls on a new dictionary of shards that leave fewer than 2 to the power of 31 entries,
-- `Keys` does not panic and lists each key that is bound exactly once, and no other text.
pub all_keys-times :
    (V : Type 0) (shards : ℤ) (calls : List (Call V))
    → entries (after V (make_concurrent shards, make-HasShards V shards) calls).0.table < 2 ^ 31
    → (ks : List Bytes) × (all_keys
          (after V (make_concurrent shards, make-HasShards V shards) calls).0
        ≡ some ks)
      × ((j : Bytes)
          → times j (map some ks)
            ≡ bound (get (after V (make_concurrent shards, make-HasShards V shards) calls).0 j))
unfolding all_keys for_each get get_shard
all_keys-times V shards calls small =
    let start : (concurrent_dict V).Carrier = (make_concurrent shards, make-HasShards V shards) in
    let d = after V start calls in
    let u = after-IsCounted V calls start (make-IsCounted V shards) in
    let p = after-IsPlaced V calls start (make-IsPlaced V shards) in
    let zero_add : (n : ℕ) → 0 + n ≡ n = λ n. omega arith in
    (
      shard_keys d.0.table,
      rw (all_keys, len-IsCounted V d.0 u small)
          (ap some (visit_table-collect_key d.0.table [] 0 refl)),
      λ j.
          ap (times j) (sym (visit_table-keep d.0.table []))
          ∙ times-visit_table (λ _. true) j d.0.table (shard_index d.0 j) [] u.1 (λ i n. p i j n)
          ∙ zero_add _,
    )
