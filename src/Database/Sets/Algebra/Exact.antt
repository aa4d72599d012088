-- ===== src/Database/Sets/Algebra/Exact.antt =====
-- database/set.go: the replies of SINTER, SUNION and SDIFF.
use mudis.Dict.{Dict}
use mudis.Dict.GoMap.{GoMap, lookup, keys, IsUnique}
use mudis.Dict.Simple
use mudis.Dict.Simple.Laws.{length-keys, IsValid}
use mudis.Set
use mudis.Set.{Set}
use mudis.Set.Laws.{make-IsValid, intersect-IsValid, union-IsValid, diff-IsValid}
use mudis.Reply.Framing.{wire_nothing}
use mudis.Reply.{Reply, Slice, multi_bulk, empty_multi_bulk, to_bytes}
use mudis.Database.{Entity, State, Outcome, done}
use mudis.Database.Sets.{array_loop, members_of}
use mudis.Database.Sets.Algebra.{
  inter_reply, members_reply, Stop, failed, nothing, inter_loop, union_loop, diff_loop,
  exec_s_inter, exec_s_union, exec_s_diff,
}
use mudis.Database.Sets.Algebra.Laws.{
  HasNoOther, member_at, in_all, in_some, in_result, settled, has-copy, inter_loop-settled,
  in_result-inter_loop, union_loop-settled, in_result-union_loop, diff_loop-settled,
  in_result-diff_loop,
}
use mudis.Prelude.{
  ℕ, suc, ◌+◌, Bytes, List, [], ◌∷◌, ◌++◌, Option, none, some, Bool, true, false, beq, beq_iff, ◌≡◌,
  refl, arith, ◌&&◌, not, Result, ok, err, map, length, replicate, set, set-append, append_assoc,
  length-append, ◌∙◌, sym, ap, All, if◌then◌else◌, ◌==◌,
}

array_loop-append :
    (filled : List Slice) (ks : List Bytes)
    → array_loop (length filled) (filled ++ replicate (length ks) none) ks ≡ filled ++ map some ks
unfolding array_loop
array_loop-append filled [] = refl
array_loop-append filled (k ∷ ks) =
    let n : length filled + 1 ≡ length (filled ++ some k ∷ []) =
      omega (arith, length-append filled (some k ∷ [])) in
    let s : set (filled ++ none ∷ replicate (length ks) none) (length filled) (some k)
        ≡ (filled ++ some k ∷ []) ++ replicate (length ks) none =
      set-append filled (replicate (length ks) none) none (some k)
      ∙ sym (append_assoc filled (some k ∷ []) (replicate (length ks) none)) in
    rw (s, n)
      (array_loop-append (filled ++ some k ∷ []) ks
        ∙ append_assoc filled (some k ∷ []) (map some ks))

-- The array that is replied lists the keys of the set.
pub members_of-keys : (s : Set) → members_of s ≡ map some (keys s.dict.m)
unfolding members_of Set.len Simple.len
members_of-keys s = rw (← length-keys s.dict.m) (array_loop-append [] (keys s.dict.m))

-- How often a text stands in a list.
abbrev pub times : Bytes → List Bytes → ℕ
times j [] = 0
times j (k ∷ ks) = if beq k j then suc (times j ks) else times j ks

times-keys :
    (m : GoMap (Unit {0})) (j : Bytes)
    → IsUnique m
    → times j (keys m) ≡ (if Set.is_some (lookup j m) then 1 else 0)
unfolding lookup
times-keys [] j u = refl
times-keys ((k, v) ∷ m) j (h, u) = ground (arith, beq_iff k j, times-keys m j u)

times-members :
    (s : Set) (j : Bytes)
    → IsValid s.dict
    → times j (keys s.dict.m) ≡ (if Set.has s j then 1 else 0)
unfolding Set.has Simple.get
times-members s j u = times-keys s.dict.m j u

-- A set that was found keeps no member twice.
abbrev IsFound : Result Stop (Option Set) → Type 0
IsFound (ok (some s)) = IsValid s.dict
IsFound (ok none) = Unit
IsFound (err _) = Unit

IsFound-stop :
    (b : Bool) (rest : Result Stop (Option Set))
    → IsFound rest
    → IsFound (if b then err nothing else rest)
IsFound-stop true rest h = tt
IsFound-stop false rest h = h

module _ (D : Dict Entity) (db : State D) where
  -- The command did not panic and left the database as it was. On the wire its reply is the array
  -- of some texts without a nil, in which each text that passes the test stands once, and no other.
  abbrev pub RepliesAll : Outcome D.Carrier → (Bytes → Bool) → Type 0
  RepliesAll out test =
      (r : Reply) × (ts : List Bytes) × (out ≡ done r db)
      × (to_bytes r ≡ to_bytes (multi_bulk (map some ts)))
      × ((j : Bytes) → times j ts ≡ (if test j then 1 else 0))

  inter_reply-RepliesAll :
      (res : Result Stop (Option Set)) (test : Bytes → Bool)
      → settled D db false res ≡ true
      → IsFound res
      → ((j : Bytes) → in_result D db false res j ≡ test j)
      → RepliesAll (inter_reply D db res) test
  unfolding inter_reply
  inter_reply-RepliesAll (ok none) test h u e = cc
  inter_reply-RepliesAll (ok (some s)) test h u e = (
    multi_bulk (members_of s),
    keys s.dict.m,
    refl,
    ap (λ a. to_bytes (multi_bulk a)) (members_of-keys s),
    λ j. times-members s j u ∙ ap (λ b. if b then 1 else 0) (e j),
  )
  inter_reply-RepliesAll (err nothing) test h u e =
      (empty_multi_bulk, [], refl, wire_nothing, λ j. ap (λ b. if b then 1 else 0) (e j))
  inter_reply-RepliesAll (err (failed f)) test h u e = cc

  members_reply-RepliesAll :
      (res : Result Stop (Option Set)) (test : Bytes → Bool)
      → settled D db true res ≡ true
      → IsFound res
      → ((j : Bytes) → in_result D db false res j ≡ test j)
      → RepliesAll (members_reply D db res) test
  unfolding members_reply
  members_reply-RepliesAll (ok none) test h u e =
      (empty_multi_bulk, [], refl, wire_nothing, λ j. ap (λ b. if b then 1 else 0) (e j))
  members_reply-RepliesAll (ok (some s)) test h u e = (
    multi_bulk (members_of s),
    keys s.dict.m,
    refl,
    ap (λ a. to_bytes (multi_bulk a)) (members_of-keys s),
    λ j. times-members s j u ∙ ap (λ b. if b then 1 else 0) (e j),
  )
  members_reply-RepliesAll (err nothing) test h u e =
      (empty_multi_bulk, [], refl, wire_nothing, λ j. ap (λ b. if b then 1 else 0) (e j))
  members_reply-RepliesAll (err (failed f)) test h u e = cc

  inter_loop-IsFound :
      (r : Set) (ks : List Bytes)
      → IsValid r.dict
      → All (HasNoOther D db) ks
      → IsFound (inter_loop D db (some r) ks)
  unfolding inter_loop
  inter_loop-IsFound r [] u h = u
  inter_loop-IsFound r (k ∷ ks) u ((none, e), h) = rw (inter_loop, e) tt
  inter_loop-IsFound r (k ∷ ks) u ((some s, e), h) =
      rw (inter_loop, e)
        (IsFound-stop (Set.len (Set.intersect r s) == 0) _
          (inter_loop-IsFound (Set.intersect r s) ks (intersect-IsValid r s) h))

  union_loop-IsFound :
      (r : Option Set) (ks : List Bytes)
      → IsFound (ok r)
      → All (HasNoOther D db) ks
      → IsFound (union_loop D db r ks)
  unfolding union_loop
  union_loop-IsFound r [] u h = u
  union_loop-IsFound r (k ∷ ks) u ((none, e), h) = rw (union_loop, e) (union_loop-IsFound r ks u h)
  union_loop-IsFound none (k ∷ ks) u ((some s, e), h) =
      rw (union_loop, e)
        (union_loop-IsFound (some (Set.make (Set.to_slice s))) ks (make-IsValid (Set.to_slice s)) h)
  union_loop-IsFound (some r) (k ∷ ks) u ((some s, e), h) =
      rw (union_loop, e) (union_loop-IsFound (some (Set.union r s)) ks (union-IsValid r s) h)

  diff_loop-IsFound :
      (r : Set) (ks : List Bytes)
      → IsValid r.dict
      → All (HasNoOther D db) ks
      → IsFound (diff_loop D db false (some r) ks)
  unfolding diff_loop
  diff_loop-IsFound r [] u h = u
  diff_loop-IsFound r (k ∷ ks) u ((none, e), h) = rw (diff_loop, e) (diff_loop-IsFound r ks u h)
  diff_loop-IsFound r (k ∷ ks) u ((some s, e), h) =
      rw (diff_loop, e)
        (IsFound-stop (Set.len (Set.diff r s) == 0) _
          (diff_loop-IsFound (Set.diff r s) ks (diff-IsValid r s) h))

  -- SINTER of keys that are absent or hold sets does not panic and changes nothing; on the wire it
  -- replies an array in which each text stands once that is a member at every key, and no other.
  pub s_inter-RepliesAll :
      (k : Bytes) (ks : List Bytes)
      → All (HasNoOther D db) (k ∷ ks)
      → RepliesAll (exec_s_inter D db (k ∷ ks)) (λ j. in_all D db j (k ∷ ks))
  unfolding exec_s_inter inter_loop
  s_inter-RepliesAll k ks ((none, e), h) =
      inter_reply-RepliesAll (inter_loop D db none (k ∷ ks)) (λ j. in_all D db j (k ∷ ks))
        (ground arith) (rw (inter_loop, e) tt) (λ j. ground arith)
  s_inter-RepliesAll k ks ((some s, e), h) =
      let r : Set = Set.make (Set.to_slice s) in
      let u = make-IsValid (Set.to_slice s) in
      inter_reply-RepliesAll (inter_loop D db none (k ∷ ks)) (λ j. in_all D db j (k ∷ ks))
        (rw (inter_loop, e) (inter_loop-settled D db r ks h))
        (rw (inter_loop, e) (inter_loop-IsFound r ks u h))
        (λ j. ground (arith, has-copy s j, in_result-inter_loop D db r ks j h))

  -- SUNION of keys that are absent or hold sets does not panic and changes nothing; on the wire it
  -- replies an array in which each text stands once that is a member at some key, and no other.
  pub s_union-RepliesAll :
      (ks : List Bytes)
      → All (HasNoOther D db) ks
      → RepliesAll (exec_s_union D db ks) (λ j. in_some D db j ks)
  unfolding exec_s_union
  s_union-RepliesAll ks h =
      members_reply-RepliesAll (union_loop D db none ks) (λ j. in_some D db j ks)
        (union_loop-settled D db none ks h) (union_loop-IsFound none ks tt h)
        (λ j. ground (arith, in_result-union_loop D db none ks j h))

  -- SDIFF of keys that are absent or hold sets does not panic and changes nothing; on the wire it
  -- replies an array in which each text stands once that is a member at the first key and at no
  -- other one, and no other text.
  pub s_diff-RepliesAll :
      (k : Bytes) (ks : List Bytes)
      → All (HasNoOther D db) (k ∷ ks)
      → RepliesAll (exec_s_diff D db (k ∷ ks)) (λ j. member_at D db k j && not (in_some D db j ks))
  unfolding exec_s_diff diff_loop
  s_diff-RepliesAll k ks ((none, e), h) =
      members_reply-RepliesAll (diff_loop D db true none (k ∷ ks))
        (λ j. member_at D db k j && not (in_some D db j ks)) (ground arith) (rw (diff_loop, e) tt)
        (λ j. ground arith)
  s_diff-RepliesAll k ks ((some s, e), h) =
      let r : Set = Set.make (Set.to_slice s) in
      let u = make-IsValid (Set.to_slice s) in
      members_reply-RepliesAll (diff_loop D db true none (k ∷ ks))
        (λ j. member_at D db k j && not (in_some D db j ks))
        (rw (diff_loop, e) (diff_loop-settled D db r ks h))
        (rw (diff_loop, e) (diff_loop-IsFound r ks u h))
        (λ j. ground (arith, has-copy s j, in_result-diff_loop D db r ks j h))
