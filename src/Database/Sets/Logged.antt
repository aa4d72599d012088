-- ===== src/Database/Sets/Logged.antt =====
-- database/set.go: what the commands on sets hand to the log.
use mudis.Database.Recorded.{Recorded}
use mudis.Dict.{Dict}
use mudis.Set.{Set}
use mudis.Reply.{wrong_type_err}
use mudis.Database.{Entity, string, list, hash_set, State, get_entity, add_aof}
use mudis.Database.Sets.{
  as_set, get_as_set, exec_s_add, exec_s_is_member, exec_s_card, exec_s_members,
}
use mudis.Prelude.{
  Bytes, codes, List, [], ◌∷◌, Option, none, some, ok, err, ◌≡◌, ◌⊎◌, inl, inr, refl, arith,
}

as_set-cases :
    (e : Option Entity) → (as_set e ≡ err wrong_type_err) ⊎ ((s : Option Set) × (as_set e ≡ ok s))
unfolding as_set
as_set-cases none = inr (_, refl)
as_set-cases (some (string s)) = inl refl
as_set-cases (some (list l)) = inl refl
as_set-cases (some (hash_set s)) = inr (_, refl)

module _ (D : Dict Entity) (db : State D) where
  get_as_set-cases :
      (key : Bytes)
      → (get_as_set D db key ≡ err wrong_type_err)
        ⊎ ((s : Option Set) × (get_as_set D db key ≡ ok s))
  unfolding get_as_set
  get_as_set-cases key = as_set-cases (get_entity D db key)

  pub s_add-Recorded : (args : List Bytes) → Recorded (codes "sadd") args db (exec_s_add D db args)
  unfolding exec_s_add add_aof
  s_add-Recorded [] = ground arith
  s_add-Recorded (key ∷ args) = elim (get_as_set-cases key) [
    | inl e ↦ rw (exec_s_add, e) (inr refl, λ e. cc)
    | inr (s, e) ↦ rw (exec_s_add, e) (inl refl, λ e. cc)
  ]

  pub s_is_member-Recorded :
      (args : List Bytes) → Recorded (codes "sismember") args db (exec_s_is_member D db args)
  unfolding exec_s_is_member
  s_is_member-Recorded [] = ground arith
  s_is_member-Recorded (key ∷ []) = ground arith
  s_is_member-Recorded (key ∷ member ∷ args) = elim (get_as_set-cases key) [
    | inl e ↦ ground arith
    | inr (s, e) ↦ ground arith
  ]

  pub s_card-Recorded :
      (args : List Bytes) → Recorded (codes "scard") args db (exec_s_card D db args)
  unfolding exec_s_card
  s_card-Recorded [] = ground arith
  s_card-Recorded (key ∷ args) = elim (get_as_set-cases key) [
    | inl e ↦ ground arith
    | inr (s, e) ↦ ground arith
  ]

  pub s_members-Recorded :
      (args : List Bytes) → Recorded (codes "smembers") args db (exec_s_members D db args)
  unfolding exec_s_members
  s_members-Recorded [] = ground arith
  s_members-Recorded (key ∷ args) = elim (get_as_set-cases key) [
    | inl e ↦ ground arith
    | inr (s, e) ↦ ground arith
  ]
