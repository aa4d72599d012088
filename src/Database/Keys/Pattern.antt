-- ===== src/Database/Keys/Pattern.antt =====
-- database/keys.go: KEYS, on the dictionary of shards that `makeDB` of database/db.go gives a database.
use mudis.Dict.Concurrent.Laws.{concurrent_dict}
use mudis.Dict.Concurrent.Visit.{for_each}
use mudis.Dict.Concurrent.Visit.Laws.{times}
use mudis.Reply.{Slice, multi_bulk}
use mudis.Wildcard.{Item, compile_pattern, is_match}
use mudis.Database.{Entity, State, Outcome, done, panic}
use mudis.Prelude.{ℕ, Bytes, List, [], ◌∷◌, ◌++◌, some, Bool, true, if◌then◌else◌}

-- The consumer of `execKeys`.
unfoldable pub match_key : List Item → Bytes → Entity → List Slice → List Slice × Bool
match_key pattern key val result =
    (if is_match pattern key then result ++ some key ∷ [] else result, true)

unfoldable pub exec_keys :
    State (concurrent_dict Entity) → List Bytes → Outcome (concurrent_dict Entity).Carrier
unfolding match_key for_each
exec_keys db [] = panic db
exec_keys db (arg ∷ _) =
    done (multi_bulk (for_each (match_key (compile_pattern arg)) db.contents.0 [])) db

-- How often a text is replied.
abbrev pub times_replied : Bytes → Outcome (concurrent_dict Entity).Carrier → ℕ
times_replied j (done (multi_bulk rs) db) = times j rs
times_replied j _ = 0
