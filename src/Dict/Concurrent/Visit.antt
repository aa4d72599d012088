-- ===== src/Dict/Concurrent/Visit.antt =====
-- datastruct/dict/sync_dict_concurrenthashmap.go: ForEach and Keys, where no writer comes between.
pub mod Laws
pub mod Listing
use mudis.Dict.GoMap.{GoMap}
use mudis.Dict.Concurrent.{ConcurrentDict, len}
use mudis.Prelude.Int.{pos, negsuc}
use mudis.Prelude.{
  ℕ, suc, Bytes, List, [], ◌∷◌, ◌++◌, Option, none, some, Bool, true, false, ltb, if◌then◌else◌,
  length, set, replicate,
}

module _ {ℓ} {V : Type 0} {S : Type ℓ} (consumer : Bytes → V → S → S × Bool) where
  -- The closure over one shard, which the consumer may leave; `s` is what the consumer changes.
  unfoldable pub visit_shard : GoMap V → S → S
  visit_shard [] s = s
  visit_shard ((key, value) ∷ m) s =
      let (s', continues) = consumer key value s in
      let rest = visit_shard m s' in if continues then rest else s'

  -- The loop over the shards.
  unfoldable pub visit_table : List (GoMap V) → S → S
  unfolding visit_shard
  visit_table [] s = s
  visit_table (m ∷ table) s = visit_table table (visit_shard m s)

  unfoldable pub for_each : ConcurrentDict V → S → S
  unfolding visit_table
  for_each d s = visit_table d.table s

module _ {V : Type 0} where
  -- The consumer of `Keys`, on the slice and the index.
  unfoldable pub collect_key : Bytes → V → List Bytes × ℕ → (List Bytes × ℕ) × Bool
  collect_key key val (keys, i) =
      if ltb i (length keys) then ((set keys i key, suc i), true) else ((keys ++ key ∷ [], i), true)

  -- `none` is the panic of `make` with a length below 0.
  unfoldable pub all_keys : ConcurrentDict V → Option (List Bytes)
  unfolding for_each collect_key
  all_keys d = elim (len d) [
    | pos size ↦ some (for_each collect_key d (replicate size [], 0)).0
    | negsuc _ ↦ none
  ]
