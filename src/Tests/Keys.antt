-- ===== src/Tests/Keys.antt =====
-- The key commands on a database of two keys.
use mudis.Dict.Simple.Laws.{simple_dict}
use mudis.Dict.Simple
use mudis.Dict.GoMap.{lookup}
use mudis.Dict.{Dict}
use mudis.Reply.{ok_reply}
use mudis.Database.{Entity, string, State, reply_of, state_of, get_entity}
use mudis.Database.Keys.{exec_rename}
use mudis.Database.Keys.Laws.{get_entity-rename}
use mudis.Prelude.{refl, beq, none, if◌then◌else◌, ◌≡◌, [], ◌∷◌, some, Bytes, codes}

abbrev key_dict : Dict Entity
key_dict = simple_dict Entity

abbrev a : Bytes
a = codes "a"

abbrev b : Bytes
b = codes "b"

abbrev two_values : State key_dict
two_values = record {
  contents = record { m = (a, string (some (codes "1"))) ∷ (b, string (some (codes "2"))) ∷ [] };
  aof = [];
}

-- A key renamed to itself is lost.
get_entity-rename_example :
    (reply_of (exec_rename key_dict two_values (a ∷ a ∷ [])) ≡ some ok_reply)
    × (get_entity key_dict (state_of (exec_rename key_dict two_values (a ∷ a ∷ []))) a ≡ (
        if beq a a
        then none
        else if beq a a
        then some (string (some (codes "1")))
        else get_entity key_dict two_values a))
unfolding get_entity Simple.get lookup beq
get_entity-rename_example =
    get_entity-rename key_dict two_values a a a (string (some (codes "1"))) refl
