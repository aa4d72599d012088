-- ===== src/Set/Laws.antt =====
-- Membership in the sets that the operations build, their lengths, and that no member is kept twice.
use mudis.Dict.GoMap.{GoMap, lookup, keys}
use mudis.Dict.Simple
use mudis.Dict.Simple.{SimpleDict}
use mudis.Dict.Simple.Laws.{length-keys, IsValid, get-put, get-remove, put-IsValid, remove-IsValid}
use mudis.Set.{
  Set, is_some, add, remove, has, len, add_all, make, slice_loop, to_slice, keep_common,
  keep_others, intersect, union, diff,
}
use mudis.Prelude.{
  Bool-cases, inl, inr, set-append, ◌+◌, Bytes, List, [], ◌∷◌, ◌++◌, Bool, true, false, ltb, length,
  set, replicate, not, beq, beq_iff, ◌≡◌, refl, arith, ◌&&◌, ◌||◌, append_assoc, length-append, ◌∙◌,
  sym,
}

-- Whether a text stands in a list.
abbrev pub contains : Bytes → List Bytes → Bool
contains j [] = false
contains j (k ∷ ks) = beq k j || contains j ks

pub has-add : (s : Set) (k j : Bytes) → has (add s k).0 j ≡ (beq k j || has s j)
unfolding has add
has-add s k j = rw (get-put s.dict k j tt, is_some) (ground arith)

pub has-remove : (s : Set) (k j : Bytes) → has (remove s k).0 j ≡ (not (beq k j) && has s j)
unfolding has remove
has-remove s k j = rw (get-remove s.dict k j, is_some) (ground arith)

contains-keys : (j : Bytes) (m : GoMap (Unit {0})) → contains j (keys m) ≡ is_some (lookup j m)
unfolding lookup
contains-keys j [] = refl
contains-keys j ((k, v) ∷ m) = ground (arith, contains-keys j m)

pub has-contains : (s : Set) (j : Bytes) → contains j (keys s.dict.m) ≡ has s j
unfolding has Simple.get
has-contains s j = contains-keys j s.dict.m

has-add_all :
    (s : Set) (ks : List Bytes) (j : Bytes) → has (add_all s ks) j ≡ (contains j ks || has s j)
unfolding add_all
has-add_all s [] j = refl
has-add_all s (k ∷ ks) j = ground (arith, has-add_all (add s k).0 ks j, has-add s k j)

has_empty : (j : Bytes) → has (make []) j ≡ false
unfolding make has Simple.get Simple.make_simple lookup
has_empty j = refl

-- `Make` holds exactly the given members.
pub has-make : (ks : List Bytes) (j : Bytes) → has (make ks) j ≡ contains j ks
unfolding make
has-make ks j = ground (arith, has-add_all (record { dict = Simple.make_simple }) ks j, has_empty j)

has-keep_common :
    (s r : Set) (ks : List Bytes) (j : Bytes)
    → has (keep_common s r ks) j ≡ ((contains j ks && has s j) || has r j)
unfolding keep_common
has-keep_common s r [] j = refl
has-keep_common s r (k ∷ ks) j = ground (
  arith,
  has-keep_common s (add r k).0 ks j,
  has-keep_common s r ks j,
  has-add r k j,
  beq_iff k j,
)

has-keep_others :
    (s r : Set) (ks : List Bytes) (j : Bytes)
    → has (keep_others s r ks) j ≡ ((contains j ks && not (has s j)) || has r j)
unfolding keep_others
has-keep_others s r [] j = refl
has-keep_others s r (k ∷ ks) j = ground (
  arith,
  has-keep_others s (add r k).0 ks j,
  has-keep_others s r ks j,
  has-add r k j,
  beq_iff k j,
)

-- `Intersect` holds exactly the members of both sets.
pub has-intersect : (s t : Set) (j : Bytes) → has (intersect s t) j ≡ (has s j && has t j)
unfolding intersect
has-intersect s t j =
    ground (arith, has-keep_common s (make []) (keys t.dict.m) j, has-contains t j, has_empty j)

-- `Union` holds exactly the members of either set.
pub has-union : (s t : Set) (j : Bytes) → has (union s t) j ≡ (has s j || has t j)
unfolding union
has-union s t j = ground (
  arith,
  has-add_all (add_all (make []) (keys t.dict.m)) (keys s.dict.m) j,
  has-add_all (make []) (keys t.dict.m) j,
  has-contains t j,
  has-contains s j,
  has_empty j,
)

-- `Diff` holds exactly the members of the first set that the second does not have.
pub has-diff : (s t : Set) (j : Bytes) → has (diff s t) j ≡ (has s j && not (has t j))
unfolding diff
has-diff s t j =
    ground (arith, has-keep_others t (make []) (keys s.dict.m) j, has-contains s j, has_empty j)

-- `ToSlice` lists the keys of the dictionary.
slice_loop-append :
    (done ks : List Bytes)
    → slice_loop (length done) (done ++ replicate (length ks) []) ks ≡ done ++ ks
unfolding slice_loop
slice_loop-append done [] = refl
slice_loop-append done (k ∷ ks) =
    let n : length done + 1 ≡ length (done ++ k ∷ []) =
      omega (arith, length-append done (k ∷ [])) in
    let b : ltb (length done) (length (done ++ [] ∷ replicate (length ks) [])) ≡ true =
      ground (arith, length-append done ([] ∷ replicate (length ks) [])) in
    let s : set (done ++ [] ∷ replicate (length ks) []) (length done) k
        ≡ (done ++ k ∷ []) ++ replicate (length ks) [] =
      set-append done (replicate (length ks) []) [] k
      ∙ sym (append_assoc done (k ∷ []) (replicate (length ks) [])) in
    rw b (rw (s, n) (slice_loop-append (done ++ k ∷ []) ks ∙ append_assoc done (k ∷ []) ks))

to_slice-keys : (s : Set) → to_slice s ≡ keys s.dict.m
unfolding to_slice Simple.len
to_slice-keys s = rw (← length-keys s.dict.m) (slice_loop-append [] (keys s.dict.m))

-- The slice of a set holds exactly its members, as many as its length says.
pub contains-to_slice : (s : Set) (j : Bytes) → contains j (to_slice s) ≡ has s j
contains-to_slice s j = rw to_slice-keys (has-contains s j)

pub length-to_slice : (s : Set) → length (to_slice s) ≡ len s
unfolding len Simple.len
length-to_slice s = rw to_slice-keys (length-keys s.dict.m)

-- No member is kept twice, whatever is added.
pub add-IsValid : (s : Set) (k : Bytes) → IsValid s.dict → IsValid (add s k).0.dict
unfolding add
add-IsValid s k h = put-IsValid s.dict k tt h

pub set-remove-IsValid : (s : Set) (k : Bytes) → IsValid s.dict → IsValid (remove s k).0.dict
unfolding remove
set-remove-IsValid s k h = remove-IsValid s.dict k h

add_all-IsValid : (s : Set) (ks : List Bytes) → IsValid s.dict → IsValid (add_all s ks).dict
unfolding add_all
add_all-IsValid s [] h = h
add_all-IsValid s (k ∷ ks) h = add_all-IsValid (add s k).0 ks (add-IsValid s k h)

pub make-IsValid : (ks : List Bytes) → IsValid (make ks).dict
unfolding make Simple.make_simple
make-IsValid ks = add_all-IsValid (record { dict = Simple.make_simple }) ks tt

keep_common-IsValid :
    (s r : Set) (ks : List Bytes) → IsValid r.dict → IsValid (keep_common s r ks).dict
unfolding keep_common
keep_common-IsValid s r [] h = h
keep_common-IsValid s r (k ∷ ks) h = elim (Bool-cases (has s k)) [
  | inl e ↦ rw (keep_common, e) (keep_common-IsValid s (add r k).0 ks (add-IsValid r k h))
  | inr e ↦ rw (keep_common, e) (keep_common-IsValid s r ks h)
]

keep_others-IsValid :
    (s r : Set) (ks : List Bytes) → IsValid r.dict → IsValid (keep_others s r ks).dict
unfolding keep_others
keep_others-IsValid s r [] h = h
keep_others-IsValid s r (k ∷ ks) h = elim (Bool-cases (has s k)) [
  | inl e ↦ rw (keep_others, e) (keep_others-IsValid s r ks h)
  | inr e ↦ rw (keep_others, e) (keep_others-IsValid s (add r k).0 ks (add-IsValid r k h))
]

pub intersect-IsValid : (s t : Set) → IsValid (intersect s t).dict
unfolding intersect
intersect-IsValid s t = keep_common-IsValid s (make []) (keys t.dict.m) (make-IsValid [])

pub union-IsValid : (s t : Set) → IsValid (union s t).dict
unfolding union
union-IsValid s t =
    add_all-IsValid (add_all (make []) (keys t.dict.m)) (keys s.dict.m)
      (add_all-IsValid (make []) (keys t.dict.m) (make-IsValid []))

pub diff-IsValid : (s t : Set) → IsValid (diff s t).dict
unfolding diff
diff-IsValid s t = keep_others-IsValid t (make []) (keys s.dict.m) (make-IsValid [])
