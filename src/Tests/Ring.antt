-- ===== src/Tests/Ring.antt =====
-- The hash ring of the cluster, with three nodes.
use mudis.ConsistentHash.{is_empty, make_node_map, add_node, pick_node}
use mudis.ConsistentHash.Search.{distance}
use mudis.ConsistentHash.Laws.{OneOf, pick_node-nearest}
use mudis.Prelude.{ℕ, ◌≤◌, ◌^◌, ◌%◌, Bytes, codes, [], ◌∷◌, length, All, ◌≡◌, ◌⊎◌, refl, arith}

-- A hash that is the length of the key.
abbrev pub hash_func : Bytes → ℕ
hash_func k = length k % 2 ^ 32

pick_node-nearest_example :
    OneOf
      (pick_node hash_func
        (add_node hash_func make_node_map
          (codes "10.0.0.1:80" ∷ codes "b:80" ∷ [] ∷ codes "c:6379" ∷ []))
        (codes "foobar"))
      (codes "10.0.0.1:80" ∷ codes "b:80" ∷ [] ∷ codes "c:6379" ∷ [])
    × All
        (λ k.
          (k ≡ [])
          ⊎ (distance (hash_func (codes "foobar")) (
                hash_func (
                  pick_node hash_func
                    (add_node hash_func make_node_map
                      (codes "10.0.0.1:80" ∷ codes "b:80" ∷ [] ∷ codes "c:6379" ∷ []))
                    (codes "foobar")))
              ≤ distance (hash_func (codes "foobar")) (hash_func k)))
        (codes "10.0.0.1:80" ∷ codes "b:80" ∷ [] ∷ codes "c:6379" ∷ [])
unfolding is_empty add_node make_node_map
pick_node-nearest_example =
    pick_node-nearest hash_func (codes "10.0.0.1:80" ∷ codes "b:80" ∷ [] ∷ codes "c:6379" ∷ [])
      (codes "foobar") (λ k. omega arith) refl
