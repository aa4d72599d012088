-- ===== src/LinkedList/Nodes.antt =====
-- What `Add`, the insertion before a node, the removal of a node and a write to a node leave.
use mudis.LinkedList.{
  add_behind, Node, Heap, LinkedList, write, set_val, alloc, link_next, add, insert_before,
  remove_node, take_node,
}
use mudis.LinkedList.Seg.{
  Cells, has, head_ptr, last_ptr, Seg, Distinct, Below, IsList, Seg-append, frame, frame-write,
  Distinct-append, Below-append, Below-suc, Below-has, head_ptr-append, last_ptr-append,
}
use mudis.LinkedList.Links.{
  load_lem, set_next_lem, set_prev_lem, set_val_lem, link_next-LeadsTo, link_prev-ComesFrom, Parts,
  IsList-Parts, with_heap,
}
use mudis.Prelude.{
  ap, Bool-cases, inl, inr, true, false, ◌==◌, ℕ, ◌+◌, ◌-◌, ◌<◌, [], ◌∷◌, ◌++◌, none, some, length,
  ◌≡◌, ◌∙◌, sym, refl, arith, ok, length-append,
}

below_self : (n m : ℕ) → m ≡ n + 1 → n < m
below_self n m e = omega arith

module _ {A : Type 0} where
  write_self : (h : Heap A) (a : ℕ) (n : Node A) → write h a n a ≡ some n
  unfolding write
  write_self h a n = ground arith

  write_other : (h : Heap A) (a b : ℕ) (n : Node A) → (b == a) ≡ false → write h a n b ≡ h b
  unfolding write
  write_other h a b n e = rw e

  alloc_fresh : (l : LinkedList A) (n : Node A) → (alloc l n).fresh ≡ l.fresh + 1
  unfolding alloc
  alloc_fresh l n = refl

  add_to_last :
      (l : LinkedList A) (v : A) (t : ℕ) (l' : LinkedList A)
      → l.last ≡ some t
      → link_next (alloc l (record { val = v; prev = some t; next = none })) (some t) (some l.fresh)
        ≡ ok l'
      → add l v ≡ ok (record l' { last = some l.fresh; size = l'.size + 1 })
  unfolding add add_behind link_next
  add_to_last l v t l' e f = ap (λ p. add_behind l p v) e ∙ (rw f refl)

  -- An address among nodes is none that is not among them.
  other : (a b : ℕ) (xs : Cells A) → has b xs ≡ true → has a xs ≡ false → (b == a) ≡ false
  other a b xs i o = elim (Bool-cases (b == a)) [
    | inl e ↦ let same : b ≡ a = ground arith in cc
    | inr e ↦ e
  ]

  -- Two segments that meet make a list.
  joined :
      (l : LinkedList A) (xs ys : Cells A)
      → Seg l.heap none xs (head_ptr ys none)
      → Seg l.heap (last_ptr none xs) ys none
      → l.first ≡ head_ptr xs (head_ptr ys none)
      → l.last ≡ last_ptr (last_ptr none xs) ys
      → l.size ≡ length xs + length ys
      → Distinct xs
      → Distinct ys
      → ((b : ℕ) → has b xs ≡ true → has b ys ≡ false)
      → Below l.fresh xs
      → Below l.fresh ys
      → IsList l (xs ++ ys)
  joined l xs ys s t f e n dx dy apart bx by = record {
    chain = Seg-append l.heap none xs ys none s t;
    first = f ∙ sym (head_ptr-append xs ys none);
    last = e ∙ sym (last_ptr-append none xs ys);
    size = omega (arith, length-append xs ys);
    distinct = Distinct-append xs ys dx dy apart;
    below = Below-append l.fresh xs ys bx by;
  }

  pub set_val-IsList :
      (l : LinkedList A) (xs : Cells A) (a : ℕ) (v w : A) (ys : Cells A)
      → IsList l (xs ++ (a, v) ∷ ys)
      → (l' : LinkedList A) × (set_val l a w ≡ ok l') × IsList l' (xs ++ (a, w) ∷ ys)
  set_val-IsList l xs a v w ys is =
      let n : Node A = record { val = w; prev = last_ptr none xs; next = head_ptr ys none } in
      let l' : LinkedList A = with_heap l (write l.heap a n) in
      (
        l',
        set_val_lem l a w _ p.node,
        joined l' xs ((a, w) ∷ ys) (frame-write l.heap none xs (some a) a n p.left p.not_left)
            (
              unfold write in ground arith,
              frame-write l.heap (some a) ys none a n p.right p.not_right,
            )
            p.first p.last p.size p.distinct_left (p.not_right, p.distinct_right)
            (λ b i. ground (arith, p.apart b, p.not_left)) p.below_left (p.below, p.below_right),
      )
    where
      p : Parts l xs a v ys
      p = IsList-Parts l xs a v ys is

  pub remove_node-IsList :
      (l : LinkedList A) (xs : Cells A) (a : ℕ) (v : A) (ys : Cells A)
      → IsList l (xs ++ (a, v) ∷ ys)
      → (l' : LinkedList A) × (remove_node l a ≡ ok l')
        × IsList l' (xs ++ ys)
        × (l'.heap a ≡ some (record { val = v; prev = none; next = none }))
  unfolding remove_node
  remove_node-IsList l xs a v ys is =
      let (l₁, e₁, k₁) =
        link_next-LeadsTo l xs (some a) (head_ptr ys none) p.left p.first p.distinct_left in
      let node₁ : l₁.heap a
          ≡ some (record { val = v; prev = last_ptr none xs; next = head_ptr ys none }) =
        k₁.same a p.not_left ∙ p.node in
      let right₁ : Seg l₁.heap (some a) ys none =
        frame l.heap l₁.heap (some a) ys none p.right
          (λ b i. k₁.same b (ground (arith, p.apart b))) in
      let (l₂, e₂, k₂) =
        link_prev-ComesFrom l₁ ys (some a) (last_ptr none xs) right₁ (k₁.last ∙ p.last)
          p.distinct_right in
      let node₂ : l₂.heap a
          ≡ some (record { val = v; prev = last_ptr none xs; next = head_ptr ys none }) =
        k₂.same a p.not_right ∙ node₁ in
      let left₂ : Seg l₂.heap none xs (head_ptr ys none) =
        frame l₁.heap l₂.heap none xs (head_ptr ys none) k₁.chain
          (λ b i. k₂.same b (p.apart b i)) in
      let n₃ : Node A = record { val = v; prev = none; next = head_ptr ys none } in
      let n₄ : Node A = record { val = v; prev = none; next = none } in
      let h₃ : Heap A = write l₂.heap a n₃ in
      let h₄ : Heap A = write h₃ a n₄ in
      let node₃ : h₃ a ≡ some n₃ = write_self l₂.heap a n₃ in
      (
        record (with_heap l₂ h₄) { size = l₂.size - 1 },
        rw
            (
              load_lem l.heap a _ p.node,
              e₁,
              load_lem l₁.heap a _ node₁,
              e₂,
              set_prev_lem l₂ a none _ node₂,
              set_next_lem (with_heap l₂ h₃) a none n₃ node₃,
            )
            refl,
        joined (record (with_heap l₂ h₄) { size = l₂.size - 1 }) xs ys
            (frame-write h₃ none xs (head_ptr ys none) a n₄
              (frame-write l₂.heap none xs (head_ptr ys none) a n₃ left₂ p.not_left) p.not_left)
            (frame-write h₃ (last_ptr none xs) ys none a n₄
              (frame-write l₂.heap (last_ptr none xs) ys none a n₃ k₂.chain p.not_right)
              p.not_right)
            (k₂.first ∙ k₁.first) k₂.last (omega (arith, k₂.size, k₁.size, p.size)) p.distinct_left
            p.distinct_right p.apart (rw (k₂.fresh, k₁.fresh) p.below_left)
            (rw (k₂.fresh, k₁.fresh) p.below_right),
        write_self h₃ a n₄,
      )
    where
      p : Parts l xs a v ys
      p = IsList-Parts l xs a v ys is

  pub take_node-IsList :
      (l : LinkedList A) (xs : Cells A) (a : ℕ) (v : A) (ys : Cells A)
      → IsList l (xs ++ (a, v) ∷ ys)
      → (l' : LinkedList A) × (take_node l (some a) ≡ ok (l', v)) × IsList l' (xs ++ ys)
  unfolding take_node
  take_node-IsList l xs a v ys is =
      let (l', e, is', n) = remove_node-IsList l xs a v ys is in
      (l', rw (e, load_lem l'.heap a _ n) refl, is')

  -- The node goes between the segments.
  pub insert_before-IsList :
      (l : LinkedList A) (xs : Cells A) (a : ℕ) (v w : A) (ys : Cells A)
      → IsList l (xs ++ (a, v) ∷ ys)
      → (l' : LinkedList A) × (insert_before l (some a) w ≡ ok l')
        × IsList l' (xs ++ (l.fresh, w) ∷ (a, v) ∷ ys)
  unfolding insert_before
  insert_before-IsList l xs a v w ys is =
      let f : ℕ = l.fresh in
      let fx : has f xs ≡ false = Below-has f xs p.below_left in
      let fy : has f ys ≡ false = Below-has f ys p.below_right in
      let fa : (f == a) ≡ false = let lt : a < f = p.below in ground arith in
      let af : (a == f) ≡ false = let lt : a < f = p.below in ground arith in
      let n : Node A = record { val = w; prev = last_ptr none xs; next = some a } in
      let l₀ : LinkedList A = alloc l n in
      let (l₁, e₁, k₁) =
        link_next-LeadsTo l₀ xs (some a) (some f)
          (frame-write l.heap none xs (some a) f n p.left fx) p.first p.distinct_left in
      let node_a : l₁.heap a
          ≡ some (record { val = v; prev = last_ptr none xs; next = head_ptr ys none }) =
        k₁.same a p.not_left ∙ (write_other l.heap f a n af ∙ p.node) in
      let node_f : l₁.heap f ≡ some n = k₁.same f fx ∙ write_self l.heap f n in
      let c : Node A = record { val = v; prev = some f; next = head_ptr ys none } in
      let h₂ : Heap A = write l₁.heap a c in
      let right : Seg h₂ (some a) ys none =
        frame-write l₁.heap (some a) ys none a c
          (frame l.heap l₁.heap (some a) ys none p.right (λ b i.
            k₁.same b (ground (arith, p.apart b)) ∙ write_other l.heap f b n (other f b ys i fy)))
          p.not_right in
      (
        record (with_heap l₁ h₂) { size = l₁.size + 1 },
        rw (load_lem l.heap a _ p.node, e₁, set_prev_lem l₁ a (some f) _ node_a) refl,
        joined (record (with_heap l₁ h₂) { size = l₁.size + 1 }) xs ((f, w) ∷ (a, v) ∷ ys)
            (frame-write l₁.heap none xs (some f) a c k₁.chain p.not_left)
            (write_other l₁.heap a f c fa ∙ node_f, (write_self l₁.heap a c, right)) k₁.first
            (k₁.last ∙ p.last) (omega (arith, k₁.size, p.size)) p.distinct_left
            (rw (fa, fy) refl, (p.not_right, p.distinct_right))
            (λ b i. rw (other f b xs i fx, other a b xs i p.not_left, p.apart b i) refl)
            (Below-suc f l₁.fresh xs (k₁.fresh ∙ alloc_fresh l n) p.below_left)
            (
              below_self f l₁.fresh (k₁.fresh ∙ alloc_fresh l n),
              Below-suc f l₁.fresh ((a, v) ∷ ys) (k₁.fresh ∙ alloc_fresh l n)
                  (p.below, p.below_right),
            ),
      )
    where
      p : Parts l xs a v ys
      p = IsList-Parts l xs a v ys is

  pub last_some : (b : ℕ) (xs : Cells A) → (t : ℕ) × (last_ptr (some b) xs ≡ some t)
  last_some b [] = (b, refl)
  last_some b ((c, w) ∷ xs) = last_some c xs

  pub add-IsList :
      (l : LinkedList A) (xs : Cells A) (v : A)
      → IsList l xs
      → (l' : LinkedList A) × (add l v ≡ ok l') × IsList l' (xs ++ (l.fresh, v) ∷ [])
  unfolding add
  add-IsList l [] v is =
      let n : Node A = record { val = v; prev = none; next = none } in
      (
        record (alloc l n) { first = some l.fresh; last = some l.fresh; size = l.size + 1 },
        rw is.last refl,
        record {
          chain = (unfold alloc in write_self l.heap l.fresh n, tt);
          first = refl;
          last = refl;
          size = omega (arith, is.size);
          distinct = (refl, tt);
          below = (unfold alloc in omega arith, tt);
        },
      )
  add-IsList l ((b, w) ∷ xs) v is =
      let f : ℕ = l.fresh in
      let cs : Cells A = (b, w) ∷ xs in
      let (t, et) = last_some b xs in
      let n : Node A = record { val = v; prev = some t; next = none } in
      let fx : has f cs ≡ false = Below-has f cs is.below in
      let (l₁, e₁, k₁) =
        link_next-LeadsTo (alloc l n) cs none (some f)
          (unfold alloc in frame-write l.heap none cs none f n is.chain fx) is.first is.distinct in
      let node_f : l₁.heap f ≡ some (record { val = v; prev = last_ptr none cs; next = none }) =
        k₁.same f fx ∙ (rw et (unfold alloc in write_self l.heap f n)) in
      (
        record l₁ { last = some f; size = l₁.size + 1 },
        add_to_last l v t l₁ (is.last ∙ et) (rw et at e₁),
        joined (record l₁ { last = some f; size = l₁.size + 1 }) cs ((f, v) ∷ []) k₁.chain
            (node_f, tt) k₁.first refl (omega (arith, k₁.size, is.size)) is.distinct (refl, tt)
            (λ a i. rw (other f a cs i fx) refl)
            (Below-suc f l₁.fresh cs (k₁.fresh ∙ alloc_fresh l n) is.below)
            (below_self f l₁.fresh (k₁.fresh ∙ alloc_fresh l n), tt),
      )
