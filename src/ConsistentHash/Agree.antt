-- ===== src/ConsistentHash/Agree.antt =====
-- lib/consistenthash/consistenthash.go: rings that were filled in different orders.
use mudis.ConsistentHash.Search.{distance, sort-All_back, All-map}
use mudis.ConsistentHash.Laws.{OneOf, add_loop-All, pick_node-nearest}
use mudis.ConsistentHash.{
  NodeMap, make_node_map, is_empty, sort_ints, add_loop, add_node, pick_node,
}
use mudis.Prelude.{
  ℕ, ◌^◌, ◌≤◌, ◌<◌, Bytes, List, [], ◌∷◌, true, false, ◌==◌, length, All, ◌≡◌, ◌≢◌, ◌⊎◌, inl, inr,
  refl, arith, Bool-cases,
}

pub OneOf-All :
    (P : Bytes → Type 0) (k : Bytes) (keys : List Bytes) → OneOf k keys → All P keys → P k
OneOf-All P k [] i a = elim i [ ]
OneOf-All P k (x ∷ xs) (inl e) (p, a) = rw e p
OneOf-All P k (x ∷ xs) (inr i) (p, a) = OneOf-All P k xs i a

-- Every member of the first list is one of the second.
abbrev pub Within : List Bytes → List Bytes → Type 0
Within keys others = All (λ k. OneOf k others) keys

abbrev pub Named : List Bytes → Type 0
Named keys = All (λ k. k ≢ []) keys

-- No two keys of the list have the same hash.
abbrev pub Distinct : (Bytes → ℕ) → List Bytes → Type 0
Distinct hash_func keys =
    (j k : Bytes) → OneOf j keys → OneOf k keys → hash_func j ≡ hash_func k → j ≡ k

distance_inj :
    (h x y : ℕ) → h < 2 ^ 32 → x < 2 ^ 32 → y < 2 ^ 32 → distance h x ≡ distance h y → x ≡ y
distance_inj h x y a b c e = ground arith

All-nothing : (xs : List ℕ) → (length xs == 0) ≡ true → All (λ x. ⊥) xs
All-nothing [] e = tt
All-nothing (x ∷ xs) e = absurd (ground arith)

module _ (hash_func : Bytes → ℕ) where
  pub ring-not_empty :
      (k : Bytes) (keys : List Bytes)
      → OneOf k keys
      → Named keys
      → is_empty (add_node hash_func make_node_map keys) ≡ false
  unfolding is_empty add_node
  ring-not_empty k keys i n = elim (Bool-cases (is_empty (add_node hash_func make_node_map keys))) [
    | inr e ↦ e
    | inl e ↦
        let m : NodeMap = add_loop hash_func make_node_map keys in
        let none_of =
          add_loop-All hash_func (λ x. ⊥) keys make_node_map
            (sort-All_back (λ x. ⊥) m.node_hashs (All-nothing (sort_ints m.node_hashs) e)) in
        absurd (elim (OneOf-All (λ k. (k ≡ []) ⊎ ⊥) k keys i none_of.1) [
          | inl z ↦ OneOf-All (λ k. k ≢ []) k keys i n z
          | inr z ↦ z
        ])
  ]

  pub Within-Named : (keys others : List Bytes) → Within others keys → Named keys → Named others
  Within-Named keys others back n =
      All-map (λ k. OneOf k keys) (λ k. k ≢ []) (λ k i. OneOf-All (λ k. k ≢ []) k keys i n) others
        back

  -- What `keys` picks is at least as near as every member.
  pick_node-le :
      (keys : List Bytes) (key k : Bytes)
      → ((k : Bytes) → hash_func k < 2 ^ 32)
      → Named keys
      → OneOf k keys
      → OneOf (pick_node hash_func (add_node hash_func make_node_map keys) key) keys
        × (distance
              (hash_func key)
              (hash_func (pick_node hash_func (add_node hash_func make_node_map keys) key))
            ≤ distance (hash_func key) (hash_func k))
  pick_node-le keys key k w n i =
      let (member, near) = pick_node-nearest hash_func keys key w (ring-not_empty k keys i n) in
      (
        member,
        elim (OneOf-All
            (λ k.
              (k ≡ [])
              ⊎ (distance (hash_func key)
                    (hash_func (pick_node hash_func (add_node hash_func make_node_map keys) key))
                  ≤ distance (hash_func key) (hash_func k)))
            k keys i near) [ inl z ↦ absurd (OneOf-All (λ k. k ≢ []) k keys i n z) | inr z ↦ z ],
      )

  pub pick_node-OneOf :
      (keys : List Bytes) (key : Bytes)
      → ((k : Bytes) → hash_func k < 2 ^ 32)
      → 0 < length keys
      → Named keys
      → OneOf (pick_node hash_func (add_node hash_func make_node_map keys) key) keys
  pick_node-OneOf [] key w l n = absurd (omega arith)
  pick_node-OneOf (k ∷ keys) key w l n = (pick_node-le (k ∷ keys) key k w n (inl refl)).0

  -- Two rings of the same nodes, added in any two orders, pick the same node for every key, if
  -- there is a node, their keys are not empty and no two of them have the same 32-bit hash.
  pub pick_node-agree :
      (keys others : List Bytes) (key : Bytes)
      → ((k : Bytes) → hash_func k < 2 ^ 32)
      → 0 < length keys
      → Named keys
      → Distinct hash_func keys
      → Within keys others
      → Within others keys
      → pick_node hash_func (add_node hash_func make_node_map keys) key
        ≡ pick_node hash_func (add_node hash_func make_node_map others) key
  pick_node-agree keys others key w l n d there back =
      let a : Bytes = pick_node hash_func (add_node hash_func make_node_map keys) key in
      let b : Bytes = pick_node hash_func (add_node hash_func make_node_map others) key in
      let i : OneOf a keys = pick_node-OneOf keys key w l n in
      let i' : OneOf a others = OneOf-All (λ k. OneOf k others) a keys i there in
      let n' : Named others = Within-Named keys others back n in
      let (j, le) = pick_node-le others key a w n' i' in
      let j' : OneOf b keys = OneOf-All (λ k. OneOf k keys) b others j back in
      let (_, ge) = pick_node-le keys key b w n j' in
      d a b i j'
        (distance_inj (hash_func key) (hash_func a) (hash_func b) (w key) (w a) (w b) (omega arith))
