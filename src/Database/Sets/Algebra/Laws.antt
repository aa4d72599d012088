-- ===== src/Database/Sets/Algebra/Laws.antt =====
-- database/set.go: what the loops of SINTER, SUNION and SDIFF find.
use mudis.Dict.{Dict}
use mudis.Dict.GoMap.{GoMap, lookup}
use mudis.Dict.Simple
use mudis.Set
use mudis.Set.{Set}
use mudis.Set.Laws.{has-make, has-intersect, has-union, has-diff, contains-to_slice}
use mudis.Reply.{Reply}
use mudis.Database.{Entity, State}
use mudis.Database.Sets.{get_as_set}
use mudis.Database.Sets.Algebra.{Stop, failed, nothing, inter_loop, union_loop, diff_loop}
use mudis.Prelude.{
  Bytes, List, [], ◌∷◌, Option, none, some, Bool, true, false, ◌≡◌, refl, arith, ◌||◌, ◌&&◌, not,
  Result, ok, err, length, ◌∙◌, All,
}

-- A set of length 0 has no member.
pub has_no_member : (s : Set) (j : Bytes) → Set.len s ≡ 0 → Set.has s j ≡ false
unfolding Set.len Set.has Simple.len Simple.get
has_no_member s j h = go s.dict.m h
  where
    go : (m : GoMap (Unit {0})) → length m ≡ 0 → Set.is_some (lookup j m) ≡ false
    go [] h = unfold lookup in refl
    go (x ∷ m) h = absurd (omega arith)

-- A copy has the same members.
pub has-copy : (s : Set) (j : Bytes) → Set.has (Set.make (Set.to_slice s)) j ≡ Set.has s j
has-copy s j = has-make (Set.to_slice s) j ∙ contains-to_slice s j

module _ (D : Dict Entity) (db : State D) where
  -- The key is absent or holds a set.
  abbrev pub HasNoOther : Bytes → Type 0
  HasNoOther k = (r : Option Set) × (get_as_set D db k ≡ ok r)

  -- Membership at a key; an absent key has no members.
  abbrev pub in_option : Option Set → Bytes → Bool
  in_option none j = false
  in_option (some s) j = Set.has s j

  abbrev pub in_found : Result Reply (Option Set) → Bytes → Bool
  in_found (err _) j = false
  in_found (ok r) j = in_option r j

  abbrev pub member_at : Bytes → Bytes → Bool
  member_at k j = in_found (get_as_set D db k) j

  abbrev pub in_all : Bytes → List Bytes → Bool
  in_all j [] = true
  in_all j (k ∷ ks) = member_at k j && in_all j ks

  abbrev pub in_some : Bytes → List Bytes → Bool
  in_some j [] = false
  in_some j (k ∷ ks) = member_at k j || in_some j ks

  -- What a loop has found; the nil set counts as `base`.
  abbrev pub in_result : Bool → Result Stop (Option Set) → Bytes → Bool
  in_result base (ok none) j = base
  in_result base (ok (some s)) j = Set.has s j
  in_result base (err _) j = false

  -- The loop found the nil set, a set or an empty result, and no error.
  abbrev pub settled : Bool → Result Stop (Option Set) → Bool
  settled nil_too (ok (some _)) = true
  settled nil_too (ok none) = nil_too
  settled nil_too (err nothing) = true
  settled nil_too (err (failed _)) = false

  pub inter_loop-settled :
      (r : Set) (ks : List Bytes)
      → All HasNoOther ks
      → settled false (inter_loop D db (some r) ks) ≡ true
  unfolding inter_loop
  inter_loop-settled r [] h = refl
  inter_loop-settled r (k ∷ ks) ((none, e), h) = ground arith
  inter_loop-settled r (k ∷ ks) ((some s, e), h) =
      ground (arith, inter_loop-settled (Set.intersect r s) ks h)

  pub in_result-inter_loop :
      (r : Set) (ks : List Bytes) (j : Bytes)
      → All HasNoOther ks
      → in_result false (inter_loop D db (some r) ks) j ≡ (Set.has r j && in_all j ks)
  unfolding inter_loop
  in_result-inter_loop r [] j h = ground arith
  in_result-inter_loop r (k ∷ ks) j ((none, e), h) = ground arith
  in_result-inter_loop r (k ∷ ks) j ((some s, e), h) = ground (
    arith,
    in_result-inter_loop (Set.intersect r s) ks j h,
    has-intersect r s j,
    has_no_member (Set.intersect r s) j,
  )

  pub union_loop-settled :
      (r : Option Set) (ks : List Bytes)
      → All HasNoOther ks
      → settled true (union_loop D db r ks) ≡ true
  unfolding union_loop
  union_loop-settled none [] h = refl
  union_loop-settled (some r) [] h = refl
  union_loop-settled r (k ∷ ks) ((none, e), h) = ground (arith, union_loop-settled r ks h)
  union_loop-settled none (k ∷ ks) ((some s, e), h) =
      ground (arith, union_loop-settled (some (Set.make (Set.to_slice s))) ks h)
  union_loop-settled (some r) (k ∷ ks) ((some s, e), h) =
      ground (arith, union_loop-settled (some (Set.union r s)) ks h)

  pub in_result-union_loop :
      (r : Option Set) (ks : List Bytes) (j : Bytes)
      → All HasNoOther ks
      → in_result false (union_loop D db r ks) j ≡ (in_option r j || in_some j ks)
  unfolding union_loop
  in_result-union_loop none [] j h = refl
  in_result-union_loop (some r) [] j h = ground arith
  in_result-union_loop none (k ∷ ks) j ((none, e), h) =
      ground (arith, in_result-union_loop none ks j h)
  in_result-union_loop (some r) (k ∷ ks) j ((none, e), h) =
      ground (arith, in_result-union_loop (some r) ks j h)
  in_result-union_loop none (k ∷ ks) j ((some s, e), h) =
      ground (arith, in_result-union_loop (some (Set.make (Set.to_slice s))) ks j h, has-copy s j)
  in_result-union_loop (some r) (k ∷ ks) j ((some s, e), h) =
      ground (arith, in_result-union_loop (some (Set.union r s)) ks j h, has-union r s j)

  pub diff_loop-settled :
      (r : Set) (ks : List Bytes)
      → All HasNoOther ks
      → settled true (diff_loop D db false (some r) ks) ≡ true
  unfolding diff_loop
  diff_loop-settled r [] h = refl
  diff_loop-settled r (k ∷ ks) ((none, e), h) = ground (arith, diff_loop-settled r ks h)
  diff_loop-settled r (k ∷ ks) ((some s, e), h) =
      ground (arith, diff_loop-settled (Set.diff r s) ks h)

  pub in_result-diff_loop :
      (r : Set) (ks : List Bytes) (j : Bytes)
      → All HasNoOther ks
      → in_result false (diff_loop D db false (some r) ks) j ≡ (Set.has r j && not (in_some j ks))
  unfolding diff_loop
  in_result-diff_loop r [] j h = ground arith
  in_result-diff_loop r (k ∷ ks) j ((none, e), h) = ground (arith, in_result-diff_loop r ks j h)
  in_result-diff_loop r (k ∷ ks) j ((some s, e), h) = ground (
    arith,
    in_result-diff_loop (Set.diff r s) ks j h,
    has-diff r s j,
    has_no_member (Set.diff r s) j,
  )
