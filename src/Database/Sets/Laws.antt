-- ===== src/Database/Sets/Laws.antt =====
-- SADD and SREM, as SISMEMBER shows them.
use mudis.Dict.{Dict}
use mudis.Set
use mudis.Set.{Set}
use mudis.Set.Laws.{contains, has-add, has-remove, has-make}
use mudis.Reply.{int}
use mudis.Database.{
  Entity, hash_set, State, reply_of, state_of, get_entity, put_entity, remove, add_aof,
}
use mudis.Database.Sets.{
  get_as_set, as_set, or_init, add_members, remove_members, exec_s_add, exec_s_rem,
  exec_s_is_member,
}
use mudis.Database.Sets.Algebra.Laws.{has_no_member, member_at, HasNoOther}
use mudis.Prelude.Int.{pos}
use mudis.Prelude.{
  ℕ, ◌+◌, Bytes, List, [], ◌∷◌, none, some, if◌then◌else◌, beq_refl, ◌&&◌, ◌||◌, not, ◌≡◌, refl,
  arith,
}

has-add_members :
    (s : Set) (n : ℕ) (ms : List Bytes) (j : Bytes)
    → Set.has (add_members s n ms).0 j ≡ (contains j ms || Set.has s j)
unfolding add_members
has-add_members s n [] j = refl
has-add_members s n (m ∷ ms) j =
    ground (arith, has-add_members (Set.add s m).0 (n + (Set.add s m).1) ms j, has-add s m j)

has-remove_members :
    (s : Set) (n : ℕ) (ms : List Bytes) (j : Bytes)
    → Set.has (remove_members s n ms).0 j ≡ (not (contains j ms) && Set.has s j)
unfolding remove_members
has-remove_members s n [] j = refl
has-remove_members s n (m ∷ ms) j =
    ground
      (arith, has-remove_members (Set.remove s m).0 (n + (Set.remove s m).1) ms j, has-remove s m j)

module _ (D : Dict Entity) (db : State D) where
  -- SADD at a key that is absent or holds a set: afterwards SISMEMBER replies 1 exactly for the new
  -- members and for those that were members before.
  pub is_member-s_add :
      (k : Bytes) (ms : List Bytes) (j : Bytes)
      → HasNoOther D db k
      → reply_of (exec_s_is_member D (state_of (exec_s_add D db (k ∷ ms))) (k ∷ j ∷ []))
        ≡ some (int (pos (if contains j ms || member_at D db k j then 1 else 0)))
  unfolding exec_s_is_member exec_s_add get_as_set as_set get_entity put_entity add_aof or_init
  is_member-s_add k ms j (none, e) = ground (
    arith,
    D.get-put db.contents k k (hash_set (add_members (Set.make []) 0 ms).0),
    beq_refl k,
    has-add_members (Set.make []) 0 ms j,
    has-make [] j,
  )
  is_member-s_add k ms j (some s, e) = ground (
    arith,
    D.get-put db.contents k k (hash_set (add_members s 0 ms).0),
    beq_refl k,
    has-add_members s 0 ms j,
  )

  -- SREM at a key that is absent or holds a set: afterwards SISMEMBER replies 1 exactly for the
  -- members that were there before and are not among its arguments.
  pub is_member-s_rem :
      (k : Bytes) (ms : List Bytes) (j : Bytes)
      → HasNoOther D db k
      → reply_of (exec_s_is_member D (state_of (exec_s_rem D db (k ∷ ms))) (k ∷ j ∷ []))
        ≡ some (int (pos (if not (contains j ms) && member_at D db k j then 1 else 0)))
  unfolding exec_s_is_member exec_s_rem get_as_set as_set get_entity put_entity add_aof remove
  is_member-s_rem k ms j (none, e) = ground arith
  is_member-s_rem k ms j (some s, e) = ground (
    arith,
    D.get-put db.contents k k (hash_set (remove_members s 0 ms).0),
    beq_refl k,
    D.get-remove (D.put db.contents k (hash_set (remove_members s 0 ms).0)).0 k k,
    has-remove_members s 0 ms j,
    has_no_member (remove_members s 0 ms).0 j,
  )
