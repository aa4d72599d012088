-- ===== src/LinkedList/Links.antt =====
-- How the operations relink nodes: `add`, the insertion before a node, the removal of a node.
use mudis.LinkedList.{
  set_val, set_prev, Node, link_prev, Ptr, Heap, LinkedList, write, load, set_next, link_next,
}
use mudis.LinkedList.Seg.{
  Below, last_ptr-append, head_ptr-append, Seg-split, Distinct-split, Below-split, IsList, has,
  frame-write, head_ptr, Cells, last_ptr, Seg, Distinct, SameOutside,
}
use mudis.Prelude.{
  ◌<◌, length-append, true, false, length, suc, ◌+◌, refl, ◌++◌, none, ℕ, [], ◌∷◌, some, ◌≡◌, ◌∙◌,
  arith, ok,
}

module _ {A : Type 0} where
  -- A list whose heap is another one.
  abbrev pub with_heap : LinkedList A → Heap A → LinkedList A
  with_heap l g = record l { heap = g }

  pub load_lem : (h : Heap A) (a : ℕ) (n : Node A) → h a ≡ some n → load h (some a) ≡ ok n
  unfolding load
  load_lem h a n e = rw (load, e)

  pub set_next_lem :
      (l : LinkedList A) (a : ℕ) (q : Ptr) (n : Node A)
      → l.heap a ≡ some n
      → set_next l a q ≡ ok (with_heap l (write l.heap a (record n { next = q })))
  unfolding set_next
  set_next_lem l a q n e = rw (load_lem l.heap a n e)

  pub set_prev_lem :
      (l : LinkedList A) (a : ℕ) (q : Ptr) (n : Node A)
      → l.heap a ≡ some n
      → set_prev l a q ≡ ok (with_heap l (write l.heap a (record n { prev = q })))
  unfolding set_prev
  set_prev_lem l a q n e = rw (load_lem l.heap a n e)

  pub set_val_lem :
      (l : LinkedList A) (a : ℕ) (v : A) (n : Node A)
      → l.heap a ≡ some n
      → set_val l a v ≡ ok (with_heap l (write l.heap a (record n { val = v })))
  unfolding set_val
  set_val_lem l a v n e = rw (load_lem l.heap a n e)

  -- The next pointer of the last node of a segment is set.
  set_next-Seg :
      (l : LinkedList A) (p : Ptr) (b : ℕ) (w : A) (xs : Cells A) (m q : Ptr)
      → Seg l.heap p ((b, w) ∷ xs) m
      → Distinct ((b, w) ∷ xs)
      → (g : Heap A) × (link_next l (last_ptr (some b) xs) q ≡ ok (with_heap l g))
        × Seg g p ((b, w) ∷ xs) q
        × SameOutside ((b, w) ∷ xs) l.heap g
  unfolding link_next set_next load write
  set_next-Seg l p b w [] m q s d = (
    write l.heap b (record { val = w; prev = p; next = q }),
    ground arith,
    ground arith,
    ground arith,
  )
  set_next-Seg l p b w ((c, u) ∷ xs) m q s d =
      let (g, e, t, same) = set_next-Seg l (some b) c u xs m q s.1 d.1 in
      (g, e, (same b d.0 ∙ s.0, t), λ a o. same a (ground arith))

  -- `l'` is `l` with the segment `xs` from the list's start leading to `q`.
  pub record LeadsTo (q : Ptr) (xs : Cells A) (l l' : LinkedList A) : Type 0 where
    pub chain : Seg l'.heap none xs q
    pub first : l'.first ≡ head_ptr xs q
    pub same : SameOutside xs l.heap l'.heap
    pub last : l'.last ≡ l.last
    pub size : l'.size ≡ l.size
    pub fresh : l'.fresh ≡ l.fresh

  pub link_next-LeadsTo :
      (l : LinkedList A) (xs : Cells A) (m q : Ptr)
      → Seg l.heap none xs m
      → l.first ≡ head_ptr xs m
      → Distinct xs
      → (l' : LinkedList A) × (link_next l (last_ptr none xs) q ≡ ok l') × LeadsTo q xs l l'
  link_next-LeadsTo l [] m q s f d = (
    record l { first = q },
    unfold link_next in refl,
    record { chain = tt; first = refl; same = λ a o. refl; last = refl; size = refl; fresh = refl },
  )
  link_next-LeadsTo l ((b, w) ∷ xs) m q s f d =
      let (g, e, t, same) = set_next-Seg l none b w xs m q s d in
      (
        with_heap l g,
        e,
        record { chain = t; first = f; same = same; last = refl; size = refl; fresh = refl },
      )

  -- `l'` is `l` with the segment `ys` to the list's end coming from `q`.
  pub record ComesFrom (q : Ptr) (ys : Cells A) (l l' : LinkedList A) : Type 0 where
    pub chain : Seg l'.heap q ys none
    pub last : l'.last ≡ last_ptr q ys
    pub same : SameOutside ys l.heap l'.heap
    pub first : l'.first ≡ l.first
    pub size : l'.size ≡ l.size
    pub fresh : l'.fresh ≡ l.fresh

  pub link_prev-ComesFrom :
      (l : LinkedList A) (ys : Cells A) (p q : Ptr)
      → Seg l.heap p ys none
      → l.last ≡ last_ptr p ys
      → Distinct ys
      → (l' : LinkedList A) × (link_prev l (head_ptr ys none) q ≡ ok l') × ComesFrom q ys l l'
  link_prev-ComesFrom l [] p q s e d = (
    record l { last = q },
    unfold link_prev in refl,
    record { chain = tt; last = refl; same = λ a o. refl; first = refl; size = refl; fresh = refl },
  )
  link_prev-ComesFrom l ((b, w) ∷ ys) p q s e d =
      let n : Node A = record { val = w; prev = q; next = head_ptr ys none } in
      (
        with_heap l (write l.heap b n),
        unfold link_prev in set_prev_lem l b q _ s.0,
        record {
          chain = (unfold write in ground arith, frame-write l.heap (some b) ys none b n s.1 d.0);
          last = e;
          same = λ a o. unfold write in ground arith;
          first = refl;
          size = refl;
          fresh = refl;
        },
      )

  -- What a split list says of its parts.
  pub record Parts (l : LinkedList A) (xs : Cells A) (a : ℕ) (v : A) (ys : Cells A) : Type 0 where
    pub left : Seg l.heap none xs (some a)
    pub node :
        l.heap a ≡ some (record { val = v; prev = last_ptr none xs; next = head_ptr ys none })
    pub right : Seg l.heap (some a) ys none
    pub first : l.first ≡ head_ptr xs (some a)
    pub last : l.last ≡ last_ptr (some a) ys
    pub size : l.size ≡ length xs + suc (length ys)
    pub distinct_left : Distinct xs
    pub distinct_right : Distinct ys
    pub not_left : has a xs ≡ false
    pub not_right : has a ys ≡ false
    pub apart : (b : ℕ) → has b xs ≡ true → has b ys ≡ false
    pub below_left : Below l.fresh xs
    pub below : a < l.fresh
    pub below_right : Below l.fresh ys

  pub IsList-Parts :
      (l : LinkedList A) (xs : Cells A) (a : ℕ) (v : A) (ys : Cells A)
      → IsList l (xs ++ (a, v) ∷ ys)
      → Parts l xs a v ys
  IsList-Parts l xs a v ys is =
      let (s, t) = Seg-split l.heap none xs ((a, v) ∷ ys) none is.chain in
      let (dx, dy, apart) = Distinct-split xs ((a, v) ∷ ys) is.distinct in
      let (bx, by) = Below-split l.fresh xs ((a, v) ∷ ys) is.below in
      record {
        left = s;
        node = t.0;
        right = t.1;
        first = is.first ∙ head_ptr-append xs ((a, v) ∷ ys) none;
        last = is.last ∙ last_ptr-append none xs ((a, v) ∷ ys);
        size = omega (arith, is.size, length-append xs ((a, v) ∷ ys));
        distinct_left = dx;
        distinct_right = dy.1;
        not_left = ground (arith, apart a);
        not_right = dy.0;
        apart = λ b i. ground (arith, apart b);
        below_left = bx;
        below = by.0;
        below_right = by.1;
      }
