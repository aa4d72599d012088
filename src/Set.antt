-- ===== src/Set.antt =====
-- datastruct/set: string sets over the simple dictionary, whose values are nil.
pub mod Laws
use mudis.Dict.GoMap.{keys}
use mudis.Dict.Simple
use mudis.Dict.Simple.{SimpleDict}
use mudis.Prelude.{
  ℕ, zero, suc, ◌+◌, Bytes, List, [], ◌∷◌, ◌++◌, Option, none, some, Bool, true, false,
  if◌then◌else◌, ltb, length, set, replicate, not,
}

pub record Set : Type 0 where
  pub dict : SimpleDict (Unit {0})

unfoldable pub add : Set → Bytes → Set × ℕ
add s val = let (d, n) = Simple.put s.dict val tt in (record { dict = d }, n)

unfoldable pub remove : Set → Bytes → Set × ℕ
remove s val = let (d, n) = Simple.remove s.dict val in (record { dict = d }, n)

abbrev pub is_some : Option (Unit {0}) → Bool
is_some none = false
is_some (some _) = true

unfoldable pub has : Set → Bytes → Bool
has s val = is_some (Simple.get s.dict val)

unfoldable pub len : Set → ℕ
len s = Simple.len s.dict

add_all : Set → List Bytes → Set
add_all s [] = s
add_all s (k ∷ ks) = add_all (add s k).0 ks

-- `Make(members...)`
unfoldable pub make : List Bytes → Set
unfolding add_all
make members = add_all (record { dict = Simple.make_simple }) members

-- The consumer of `ToSlice` over the keys in the order of the visit.
slice_loop : ℕ → List Bytes → List Bytes → List Bytes
slice_loop i slice [] = slice
slice_loop i slice (k ∷ ks) =
    slice_loop (i + 1) (if ltb i (length slice) then set slice i k else slice ++ k ∷ []) ks

unfoldable pub to_slice : Set → List Bytes
unfolding slice_loop len
to_slice s = slice_loop 0 (replicate (len s) []) (keys s.dict.m)

-- The consumers of `Intersect` and `Diff` over the visited members.
keep_common : Set → Set → List Bytes → Set
keep_common s result [] = result
keep_common s result (k ∷ ks) = keep_common s (if has s k then (add result k).0 else result) ks

keep_others : Set → Set → List Bytes → Set
keep_others s result [] = result
keep_others s result (k ∷ ks) =
    keep_others s (if not (has s k) then (add result k).0 else result) ks

unfoldable pub intersect : Set → Set → Set
unfolding keep_common
intersect s another = keep_common s (make []) (keys another.dict.m)

unfoldable pub union : Set → Set → Set
unfolding add_all
union s another = add_all (add_all (make []) (keys another.dict.m)) (keys s.dict.m)

unfoldable pub diff : Set → Set → Set
unfolding keep_others
diff s another = keep_others another (make []) (keys s.dict.m)

unfoldable pub random_distinct_members : Set → ℕ → List Bytes
random_distinct_members s limit = Simple.random_distinct_keys s.dict limit
