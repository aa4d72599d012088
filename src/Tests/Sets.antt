-- ===== src/Tests/Sets.antt =====
-- The set commands on a database of two sets.
use mudis.Dict.Simple.Laws.{simple_dict}
use mudis.Dict.Simple
use mudis.Dict.GoMap.{lookup}
use mudis.Database.Sets.{get_as_set, as_set}
use mudis.Dict.{Dict}
use mudis.Set
use mudis.Database.{get_entity, Entity, hash_set, State}
use mudis.Database.Sets.Algebra.{exec_s_inter, exec_s_union, exec_s_diff}
use mudis.Database.Sets.Algebra.Laws.{member_at, in_all, in_some}
use mudis.Database.Sets.Algebra.Exact.{
  RepliesAll, s_inter-RepliesAll, s_union-RepliesAll, s_diff-RepliesAll,
}
use mudis.Prelude.{refl, not, none, ◌&&◌, some, beq, [], ◌∷◌, Bytes, codes}

abbrev sets : Dict Entity
sets = simple_dict Entity

abbrev p : Bytes
p = codes "p"

abbrev q : Bytes
q = codes "q"

abbrev two_sets : State sets
two_sets = record {
  contents = record {
    m =
        (p, hash_set (Set.make (codes "a" ∷ codes "b" ∷ [])))
        ∷ (q, hash_set (Set.make (codes "b" ∷ codes "c" ∷ [])))
        ∷ [];
  };
  aof = [];
}

s_inter-RepliesAll_example :
    RepliesAll sets two_sets
      (exec_s_inter sets two_sets (p ∷ q ∷ []))
      (λ j. in_all sets two_sets j (p ∷ q ∷ []))
unfolding get_as_set get_entity as_set Simple.get lookup beq
s_inter-RepliesAll_example = s_inter-RepliesAll sets two_sets p (q ∷ []) (
  (some (Set.make (codes "a" ∷ codes "b" ∷ [])), refl),
  ((some (Set.make (codes "b" ∷ codes "c" ∷ [])), refl), tt),
)

s_union-RepliesAll_example :
    RepliesAll sets two_sets
      (exec_s_union sets two_sets (p ∷ codes "x" ∷ q ∷ []))
      (λ j. in_some sets two_sets j (p ∷ codes "x" ∷ q ∷ []))
unfolding get_as_set get_entity as_set Simple.get lookup beq
s_union-RepliesAll_example = s_union-RepliesAll sets two_sets (p ∷ codes "x" ∷ q ∷ []) (
  (some (Set.make (codes "a" ∷ codes "b" ∷ [])), refl),
  ((none, refl), ((some (Set.make (codes "b" ∷ codes "c" ∷ [])), refl), tt)),
)

s_diff-RepliesAll_example :
    RepliesAll sets two_sets
      (exec_s_diff sets two_sets (p ∷ q ∷ []))
      (λ j. member_at sets two_sets p j && not (in_some sets two_sets j (q ∷ [])))
unfolding get_as_set get_entity as_set Simple.get lookup beq
s_diff-RepliesAll_example = s_diff-RepliesAll sets two_sets p (q ∷ []) (
  (some (Set.make (codes "a" ∷ codes "b" ∷ [])), refl),
  ((some (Set.make (codes "b" ∷ codes "c" ∷ [])), refl), tt),
)
