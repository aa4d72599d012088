-- ===== src/ConsistentHash/Laws.antt =====
-- lib/consistenthash/consistenthash.go: which node the ring picks.
use mudis.ConsistentHash.Search.{
  distance, picked, Nearest, All-snoc, All-snoc_back, sort-IsSorted, sort-All, sort-All_back,
  nearest, picked-All,
}
use mudis.ConsistentHash.{
  HashMap, NodeMap, make_node_map, store, load, sort_ints, is_empty, add_loop, add_node, pick_node,
}
use mathlib.Core.Path.{subst}
use mudis.Prelude.{
  ℕ, ◌^◌, ◌≤◌, ◌<◌, Bytes, List, [], ◌∷◌, false, ◌==◌, length, if◌then◌else◌, All, ◌≡◌, ◌⊎◌, inl,
  inr, refl, arith, ap, ◌∙◌, sym, Bool-cases, ==_iff,
}

abbrev pub OneOf : Bytes → List Bytes → Type 0
OneOf k [] = ⊥
OneOf k (x ∷ xs) = (k ≡ x) ⊎ OneOf k xs

module _ (hash_func : Bytes → ℕ) where
  load-store :
      (h g : ℕ) (k : Bytes) (m : HashMap) → load g (store h k m) ≡ (if h == g then k else load g m)
  unfolding load store
  load-store h g k [] = refl
  load-store h g k ((i, j) ∷ m) = ground (arith, load-store h g k m)

  -- Every hash of the ring leads to a node that has it, and of which the predicate holds.
  abbrev Named : (Bytes → Type 0) → List ℕ → HashMap → Type 0
  Named Q hs m = All (λ h. (hash_func (load h m) ≡ h) × Q (load h m)) hs

  Named-store :
      (Q : Bytes → Type 0) (hs : List ℕ) (m : HashMap) (k : Bytes)
      → Q k
      → Named Q hs m
      → Named Q hs (store (hash_func k) k m)
  Named-store Q [] m k q n = tt
  Named-store Q (h ∷ hs) m k q (e, n) = (
    subst (λ b. (hash_func b ≡ h) × Q b) (sym (load-store (hash_func k) h k m))
        (elim (Bool-cases (hash_func k == h)) [
          | inl c ↦ rw c ((==_iff (hash_func k) h).0 c, q)
          | inr c ↦ rw c e
        ]),
    Named-store Q hs m k q n,
  )

  Named-here :
      (Q : Bytes → Type 0) (m : HashMap) (k : Bytes)
      → Q k
      → (hash_func (load (hash_func k) (store (hash_func k) k m)) ≡ hash_func k)
        × Q (load (hash_func k) (store (hash_func k) k m))
  Named-here Q m k q =
      subst (λ b. (hash_func b ≡ hash_func k) × Q b)
        (sym (
          load-store (hash_func k) (hash_func k) k m
          ∙ rw ((==_iff (hash_func k) (hash_func k)).1 refl) refl))
        (refl, q)

  add_loop-Named :
      (Q : Bytes → Type 0) (keys : List Bytes) (m : NodeMap)
      → ((k : Bytes) → OneOf k keys → Q k)
      → Named Q m.node_hashs m.nodehash_map
      → Named Q (add_loop hash_func m keys).node_hashs (add_loop hash_func m keys).nodehash_map
  unfolding add_loop
  add_loop-Named Q [] m f n = n
  add_loop-Named Q ([] ∷ keys) m f n = add_loop-Named Q keys m (λ k i. f k (inr i)) n
  add_loop-Named Q ((c ∷ key) ∷ keys) m f n =
      let q : Q (c ∷ key) = f (c ∷ key) (inl refl) in
      let m' : HashMap = store (hash_func (c ∷ key)) (c ∷ key) m.nodehash_map in
      add_loop-Named Q keys _ (λ k i. f k (inr i))
        (All-snoc (λ h. (hash_func (load h m') ≡ h) × Q (load h m')) m.node_hashs
          (hash_func (c ∷ key)) (Named-store Q m.node_hashs m.nodehash_map (c ∷ key) q n)
          (Named-here Q m.nodehash_map (c ∷ key) q))

  -- What holds of all hashes behind the loop holds of those before and of the keys.
  pub add_loop-All :
      (P : ℕ → Type 0) (keys : List Bytes) (m : NodeMap)
      → All P (add_loop hash_func m keys).node_hashs
      → All P m.node_hashs × All (λ k. (k ≡ []) ⊎ P (hash_func k)) keys
  unfolding add_loop
  add_loop-All P [] m a = (a, tt)
  add_loop-All P ([] ∷ keys) m a = let (b, c) = add_loop-All P keys m a in (b, (inl refl, c))
  add_loop-All P ((c ∷ key) ∷ keys) m a =
      let (a', d) = add_loop-All P keys _ a in
      let (b, p) = All-snoc_back P m.node_hashs (hash_func (c ∷ key)) a' in (b, (inr p, d))

  add_loop-below :
      ((k : Bytes) → hash_func k < 2 ^ 32)
      → (keys : List Bytes) (m : NodeMap) → All (λ x. x < 2 ^ 32) m.node_hashs
      → All (λ x. x < 2 ^ 32) (add_loop hash_func m keys).node_hashs
  unfolding add_loop
  add_loop-below w [] m a = a
  add_loop-below w ([] ∷ keys) m a = add_loop-below w keys m a
  add_loop-below w ((c ∷ key) ∷ keys) m a =
      add_loop-below w keys _
        (All-snoc (λ x. x < 2 ^ 32) m.node_hashs (hash_func (c ∷ key)) a (w (c ∷ key)))

  -- On a ring of 32-bit hashes that nodes with any keys were added to and that is not empty, PickNode
  -- returns one of the keys, and its hash is the nearest at or behind the hash of the key looked up,
  -- around the ring: no node with a key that is not empty lies nearer.
  pub pick_node-nearest :
      (keys : List Bytes) (key : Bytes)
      → ((k : Bytes) → hash_func k < 2 ^ 32)
      → is_empty (add_node hash_func make_node_map keys) ≡ false
      → OneOf (pick_node hash_func (add_node hash_func make_node_map keys) key) keys
        × All
            (λ k.
              (k ≡ [])
              ⊎ (distance
                    (hash_func key)
                    (hash_func (pick_node hash_func (add_node hash_func make_node_map keys) key))
                  ≤ distance (hash_func key) (hash_func k)))
            keys
  unfolding add_node make_node_map is_empty pick_node
  pick_node-nearest keys key w e =
      let m : NodeMap = add_loop hash_func (record { node_hashs = []; nodehash_map = [] }) keys in
      let hs : List ℕ = sort_ints m.node_hashs in
      let at : ℕ = picked (hash_func key) hs in
      let l : 0 < length hs = ground (arith, e) in
      let b : All (λ x. x < 2 ^ 32) hs =
        sort-All (λ x. x < 2 ^ 32) m.node_hashs (add_loop-below w keys _ tt) in
      let Good : ℕ → Type 0 =
        λ h. (hash_func (load h m.nodehash_map) ≡ h) × OneOf (load h m.nodehash_map) keys in
      let n : All Good hs =
        sort-All Good m.node_hashs (add_loop-Named (λ k. OneOf k keys) keys _ (λ k i. i) tt) in
      let p : Good at = picked-All Good (hash_func key) hs l n in
      let near : Nearest (hash_func key) at m.node_hashs =
        sort-All_back (λ x. distance (hash_func key) at ≤ distance (hash_func key) x) m.node_hashs
          (nearest (hash_func key) hs (sort-IsSorted m.node_hashs) b l) in
      let q : pick_node hash_func (add_node hash_func make_node_map keys) key
          ≡ load at m.nodehash_map =
        rw e refl in
      (
        subst (λ k. OneOf k keys) (sym q) p.1,
        subst
            (λ d.
              All
                (λ k.
                  (k ≡ []) ⊎ (distance (hash_func key) d ≤ distance (hash_func key) (hash_func k)))
                keys)
            (sym (ap hash_func q ∙ p.0))
            (add_loop-All (λ x. distance (hash_func key) at ≤ distance (hash_func key) x) keys _
              near).1,
      )
