-- ===== src/Dict/Concurrent.antt =====
-- datastruct/dict/sync_dict_concurrenthashmap.go: the dictionary of shards, which the database uses.
-- Each operation holds its shard's lock from its lookup to its write, so it is one step here.
pub mod Laws
pub mod Count
pub mod Calls
pub mod Placed
pub mod Visit
use mudis.Dict.GoMap.{GoMap, lookup, insert, delete}
use mudis.Prelude.Int.{ℤ, pos, negsuc}
use mudis.Prelude.{
  ℕ, suc, ◌+◌, ◌-◌, ◌*◌, ◌/◌, ◌%◌, ◌^◌, Bytes, [], ◌∷◌, List, Option, none, some, leb, ltb,
  if◌then◌else◌, length, get_or, set, replicate,
}
use Prim.Native.Nat.{bit_and, bit_or, bit_xor}

-- `count` is an int32 as its 32 bits.
pub record ConcurrentDict (V : Type 0) : Type 0 where
  pub table : List (GoMap V)
  pub count : ℕ
  pub shard_count : ℕ

-- `n |= n >> k`, with the power of two that the shift divides by.
fold_bits : ℕ → ℕ → ℕ
fold_bits n power = bit_or n (n / power)

-- The test `n < 0` of the source is never true of a number above 16, and `n + 1` does not wrap for a
-- table that fits into memory.
unfoldable pub compute_capacity : ℤ → ℕ
unfolding fold_bits
compute_capacity (negsuc n) = 16
compute_capacity (pos param) =
    if leb param 16
    then 16
    else fold_bits
        (fold_bits (fold_bits (fold_bits (fold_bits (param - 1) (2 ^ 1)) (2 ^ 2)) (2 ^ 4)) (2 ^ 8))
        (2 ^ 16)
      + 1

fnv_loop : ℕ → Bytes → ℕ
fnv_loop hash [] = hash
fnv_loop hash (c ∷ key) = fnv_loop (bit_xor (hash * 16777619 % 2 ^ 32) c) key

unfoldable pub fnv32 : Bytes → ℕ
unfolding fnv_loop
fnv32 key = fnv_loop 2166136261 key

-- `uint32(len(dict.table)) - 1`, masked with the hash code.
unfoldable pub spread : ℕ → ℕ → ℕ
spread table_length hash_code = bit_and ((table_length % 2 ^ 32 + (2 ^ 32 - 1)) % 2 ^ 32) hash_code

module _ {V : Type 0} where
  unfoldable pub make_concurrent : ℤ → ConcurrentDict V
  make_concurrent n = record {
    table = replicate (compute_capacity n) [];
    count = 0;
    shard_count = compute_capacity n;
  }

  unfoldable pub shard_index : ConcurrentDict V → Bytes → ℕ
  shard_index d key = spread (length d.table) (fnv32 key)

  -- The map of the key's shard.
  unfoldable pub get_shard : ConcurrentDict V → Bytes → GoMap V
  unfolding shard_index
  get_shard d key = get_or d.table (shard_index d key) []

  -- The key's shard with another map.
  unfoldable pub set_shard : ConcurrentDict V → Bytes → GoMap V → ConcurrentDict V
  unfolding shard_index
  set_shard d key m = record d { table = set d.table (shard_index d key) m }

  unfoldable pub add_count : ConcurrentDict V → ConcurrentDict V
  add_count d = record d { count = (d.count + 1) % 2 ^ 32 }

  unfoldable pub decrease_count : ConcurrentDict V → ConcurrentDict V
  decrease_count d = record d { count = (d.count + (2 ^ 32 - 1)) % 2 ^ 32 }

  unfoldable pub get : ConcurrentDict V → Bytes → Option V
  unfolding get_shard
  get d key = lookup key (get_shard d key)

  -- `int(atomic.LoadInt32(&dict.count))`
  unfoldable pub len : ConcurrentDict V → ℤ
  len d = if ltb d.count (2 ^ 31) then pos d.count else negsuc (2 ^ 32 - 1 - d.count)

  unfoldable pub put : ConcurrentDict V → Bytes → V → ConcurrentDict V × ℕ
  unfolding get_shard set_shard add_count
  put d key val = elim (lookup key (get_shard d key)) [
    | some _ ↦ (set_shard d key (insert key val (get_shard d key)), 0)
    | none ↦ (add_count (set_shard d key (insert key val (get_shard d key))), 1)
  ]

  unfoldable pub put_if_absent : ConcurrentDict V → Bytes → V → ConcurrentDict V × ℕ
  unfolding get_shard set_shard add_count
  put_if_absent d key val = elim (lookup key (get_shard d key)) [
    | some _ ↦ (d, 0)
    | none ↦ (add_count (set_shard d key (insert key val (get_shard d key))), 1)
  ]

  unfoldable pub put_if_exists : ConcurrentDict V → Bytes → V → ConcurrentDict V × ℕ
  unfolding get_shard set_shard
  put_if_exists d key val = elim (lookup key (get_shard d key)) [
    | some _ ↦ (set_shard d key (insert key val (get_shard d key)), 1)
    | none ↦ (d, 0)
  ]

  unfoldable pub remove : ConcurrentDict V → Bytes → ConcurrentDict V × ℕ
  unfolding get_shard set_shard decrease_count
  remove d key = elim (lookup key (get_shard d key)) [
    | some _ ↦ (decrease_count (set_shard d key (delete key (get_shard d key))), 1)
    | none ↦ (d, 0)
  ]

  unfoldable pub clear : ConcurrentDict V → ConcurrentDict V
  clear d = make_concurrent (pos d.shard_count)
