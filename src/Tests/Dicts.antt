-- ===== src/Tests/Dicts.antt =====
-- Dictionaries and sets.
use mudis.Dict.Refine.{
  Call, put_call, put_if_absent_call, remove_call, get_call, returns, returns-concurrent,
  returns-sync,
}
use mudis.Dict.Concurrent.{
  add_count, decrease_count, ConcurrentDict, make_concurrent, len, compute_capacity, put,
  put_if_absent, remove, set_shard, get_shard, shard_index, spread, fnv32,
}
use mudis.Dict.Concurrent.Laws.{concurrent_dict, make-HasShards}
use mudis.Dict.Concurrent.Count.{entries}
use mudis.Dict.Concurrent.Calls.{after, len-calls}
use mudis.Dict.Simple
use mudis.Dict.Simple.{SimpleDict}
use mudis.Dict.Simple.Laws.{simple_dict}
use mudis.Dict.GoMap.{
  GoMap, lookup, insert, delete, IsUnique, insert-IsUnique, delete-IsUnique, lookup-insert,
  lookup-delete,
}
use mudis.Dict.Sync.{SyncMap, make_sync}
use mudis.Dict.Sync.Laws.{sync_dict}
use mudis.Set
use mudis.Set.{Set}
use mudis.Prelude.Int.{pos}
use mudis.Prelude.{refl, ◌^◌, ◌<◌, List, arith, beq, [], ℕ, ◌∷◌, ◌≡◌, codes}

abbrev two_keys : SimpleDict ℕ
two_keys = record { m = (codes "a", 1) ∷ (codes "b", 2) ∷ [] }

abbrev left : Set
left = Set.make (codes "a" ∷ codes "b" ∷ [])

abbrev right : Set
right = Set.make (codes "b" ∷ codes "c" ∷ [])

abbrev some_calls : List (Call ℕ)
some_calls =
    put_call (codes "a") 1
    ∷ put_if_absent_call (codes "b") 2
    ∷ put_call (codes "a") 3
    ∷ remove_call (codes "b")
    ∷ get_call (codes "a")
    ∷ []

returns-concurrent_example :
    returns (concurrent_dict ℕ) (make_concurrent (pos 3), make-HasShards ℕ (pos 3)) some_calls
    ≡ returns (simple_dict ℕ) Simple.make_simple some_calls
returns-concurrent_example = returns-concurrent ℕ (pos 3) some_calls

abbrev behind_calls : ConcurrentDict ℕ
behind_calls = (after ℕ (make_concurrent (pos 3), make-HasShards ℕ (pos 3)) some_calls).0

few_entries : entries behind_calls.table < 2 ^ 31
unfolding make_concurrent compute_capacity put put_if_absent remove set_shard get_shard shard_index
    add_count decrease_count spread fnv32 lookup insert delete beq
few_entries = omega arith

len-calls_example : len behind_calls ≡ pos (entries behind_calls.table)
len-calls_example = len-calls ℕ (pos 3) some_calls few_entries

-- `sync.Map` as Go's map without repeated keys.
abbrev unique_map : SyncMap ℕ
unique_map = record {
  Carrier = (m : GoMap ℕ) × IsUnique m;
  empty = ([], tt);
  load = λ m k. lookup k m.0;
  store = λ m k v. (insert k v m.0, insert-IsUnique k v m.0 m.1);
  delete = λ m k. (delete k m.0, delete-IsUnique k m.0 m.1);
  entries = λ m. m.0;
  load-store = λ m k j v. lookup-insert k j v m.0;
  load-delete = λ m k j. lookup-delete k j m.0;
  load-empty = λ k. unfold lookup in refl;
  lookup-entries = λ m k. refl;
  entries-IsUnique = λ m. m.1;
}

abbrev three_calls : List (Call ℕ)
three_calls = put_call (codes "a") 1 ∷ put_if_absent_call (codes "a") 2 ∷ get_call (codes "a") ∷ []

returns-sync_example :
    returns (sync_dict unique_map) (make_sync unique_map) three_calls
    ≡ returns (simple_dict ℕ) Simple.make_simple three_calls
returns-sync_example = returns-sync ℕ unique_map three_calls
