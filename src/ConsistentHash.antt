-- ===== src/ConsistentHash.antt =====
-- lib/consistenthash/consistenthash.go: the ring of the nodes' hashes. The hash function is a
-- parameter; `sort.Ints` and `sort.Search` do what their documentation says.
pub mod Search
pub mod Laws
pub mod Agree
use mudis.Prelude.{
  ℕ, zero, suc, ◌+◌, Bytes, List, [], ◌∷◌, ◌++◌, Option, none, some, Bool, true, false, ◌==◌, leb,
  length, get_or, if◌then◌else◌,
}

-- `map[int]string`
abbrev pub HashMap : Type 0
HashMap = List (ℕ × Bytes)

pub record NodeMap : Type 0 where
  pub node_hashs : List ℕ
  pub nodehash_map : HashMap

unfoldable pub make_node_map : NodeMap
make_node_map = record { node_hashs = []; nodehash_map = [] }

unfoldable pub store : ℕ → Bytes → HashMap → HashMap
store hash key [] = (hash, key) ∷ []
store hash key ((h, k) ∷ m) =
    let rest = store hash key m in if h == hash then (h, key) ∷ m else (h, k) ∷ rest

-- A missing key reads as the empty string.
unfoldable pub load : ℕ → HashMap → Bytes
load hash [] = []
load hash ((h, k) ∷ m) = let rest = load hash m in if h == hash then k else rest

unfoldable pub insert_sorted : ℕ → List ℕ → List ℕ
insert_sorted x [] = x ∷ []
insert_sorted x (y ∷ ys) = let rest = insert_sorted x ys in if leb x y then x ∷ y ∷ ys else y ∷ rest

-- `sort.Ints`
unfoldable pub sort_ints : List ℕ → List ℕ
unfolding insert_sorted
sort_ints [] = []
sort_ints (x ∷ xs) = insert_sorted x (sort_ints xs)

-- `sort.Search` for the first hash that is not below.
unfoldable pub search : ℕ → List ℕ → ℕ
search hash [] = 0
search hash (x ∷ xs) = let rest = search hash xs in if leb hash x then 0 else suc rest

unfoldable pub is_empty : NodeMap → Bool
is_empty m = length m.node_hashs == 0

module _ (hash_func : Bytes → ℕ) where
  -- The loop of `AddNode`; an empty key is skipped.
  unfoldable pub add_loop : NodeMap → List Bytes → NodeMap
  unfolding store
  add_loop m [] = m
  add_loop m ([] ∷ keys) = add_loop m keys
  add_loop m ((c ∷ key) ∷ keys) =
      let hash = hash_func (c ∷ key) in
      add_loop
        (record {
          node_hashs = m.node_hashs ++ (hash ∷ []);
          nodehash_map = store hash (c ∷ key) m.nodehash_map;
        })
        keys

  unfoldable pub add_node : NodeMap → List Bytes → NodeMap
  unfolding add_loop sort_ints
  add_node m keys = let m' = add_loop m keys in record m' { node_hashs = sort_ints m'.node_hashs }

  unfoldable pub pick_node : NodeMap → Bytes → Bytes
  unfolding search load is_empty
  pick_node m key =
      let idx = search (hash_func key) m.node_hashs in
      let at = (if idx == length m.node_hashs then 0 else idx) in
      if is_empty m then [] else load (get_or m.node_hashs at 0) m.nodehash_map
