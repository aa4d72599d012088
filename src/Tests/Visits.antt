-- ===== src/Tests/Visits.antt =====
-- KEYS and Keys on a dictionary of shards.
use mudis.Dict.{bound}
use mudis.Dict.Refine.{Call, put_call, remove_call}
use mudis.Dict.Concurrent.{
  make_concurrent, get, compute_capacity, fnv32, spread, shard_index, get_shard, set_shard,
  add_count, decrease_count, put, remove,
}
use mudis.Dict.GoMap.{lookup, insert, delete}
use mudis.Dict.Concurrent.Count.{entries}
use mudis.Dict.Concurrent.Visit.{all_keys}
use mudis.Dict.Concurrent.Visit.Laws.{times}
use mudis.Dict.Concurrent.Visit.Listing.{all_keys-times}
use mudis.Dict.Concurrent.Laws.{make-HasShards}
use mudis.Dict.Concurrent.Calls.{after}
use mudis.Database.{Entity, string}
use mudis.Prelude.{codes, List, [], ◌∷◌, none, some, ◌≡◌, ◌<◌, ◌^◌, Bytes, beq, map, arith}
use mudis.Prelude.Int.{pos}

abbrev calls : List (Call Entity)
calls =
    put_call (codes "apple") (string (some (codes "1")))
    ∷ put_call (codes "bee") (string none)
    ∷ put_call (codes "ant") (string (some (codes "2")))
    ∷ remove_call (codes "apple")
    ∷ []

few_entries :
    entries (after Entity (make_concurrent (pos 16), make-HasShards Entity (pos 16)) calls).0.table
    < 2 ^ 31
unfolding make_concurrent compute_capacity fnv32 spread shard_index get_shard set_shard add_count
    decrease_count put remove lookup insert delete beq
few_entries = omega arith

all_keys-times_example :
    (ks : List Bytes) × (all_keys
        (after Entity (make_concurrent (pos 16), make-HasShards Entity (pos 16)) calls).0
      ≡ some ks)
    × ((j : Bytes)
        → times j (map some ks)
          ≡ bound (
              get
                (after Entity (make_concurrent (pos 16), make-HasShards Entity (pos 16)) calls).0
                j))
all_keys-times_example = all_keys-times Entity (pos 16) calls few_entries
