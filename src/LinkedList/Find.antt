-- ===== src/LinkedList/Find.antt =====
-- `find` reaches the node at its index, from the nearer end.
use mudis.LinkedList.{nil_pointer, Ptr, Node, Heap, LinkedList, load, find_next, find_prev, find}
use mudis.LinkedList.Seg.{Cells, head_ptr, last_ptr, Seg, IsList}
use mudis.LinkedList.Links.{load_lem, Parts, IsList-Parts}
use mudis.Prelude.{
  err, Option-cases, ℕ, zero, suc, ◌-◌, ◌/◌, [], ◌∷◌, ◌++◌, some, none, length, ltb, ◌≡◌, refl,
  arith, ok, Bool-cases, inl, inr,
}

module _ {A : Type 0} where
  find_next-Seg :
      (h : Heap A) (p : Ptr) (xs : Cells A) (a : ℕ)
      → Seg h p xs (some a)
      → find_next h (length xs) (head_ptr xs (some a)) ≡ ok (some a)
  unfolding find_next
  find_next-Seg h p [] a s = refl
  find_next-Seg h p ((b, v) ∷ xs) a s = rw (load_lem h b _ s.0) (find_next-Seg h (some b) xs a s.1)

  -- The last step of the walk back.
  find_prev_last :
      (h : Heap A) (i : ℕ) (n : Ptr) (b : ℕ) (c : Node A)
      → find_prev h i n ≡ ok (some b)
      → h b ≡ some c
      → find_prev h (suc i) n ≡ ok c.prev
  unfolding find_prev
  find_prev_last h zero n b c e k =
      let q : n ≡ some b = ground arith in rw (q, load_lem h b c k) refl
  find_prev_last h (suc i) none b c e k = unfold load in cc
  find_prev_last h (suc i) (some a) b c e k = elim (Option-cases (h a)) [
    | inl z ↦
        let r : load h (some a) ≡ err nil_pointer = rw (load, z) refl in
        let f : err nil_pointer ≡ ok (some b) = rw r at e in cc
    | inr (d, z) ↦
        rw (load_lem h a d z) (find_prev_last h i d.prev b c (rw (load_lem h a d z) at e) k)
  ]

  find_prev-Seg :
      (h : Heap A) (p : Ptr) (ys : Cells A)
      → Seg h p ys none
      → find_prev h (length ys) (last_ptr p ys) ≡ ok p
  find_prev-Seg h p [] s = unfold find_prev in refl
  find_prev-Seg h p ((b, v) ∷ ys) s =
      find_prev_last h (length ys) (last_ptr (some b) ys) b _ (find_prev-Seg h (some b) ys s.1) s.0

  pub find_lem :
      (l : LinkedList A) (xs : Cells A) (a : ℕ) (v : A) (ys : Cells A)
      → IsList l (xs ++ (a, v) ∷ ys)
      → find l (length xs) ≡ ok (some a)
  unfolding find
  find_lem l xs a v ys is = elim (Bool-cases (ltb (length xs) (l.size / 2))) [
    | inl near ↦ rw (near, p.first) (find_next-Seg l.heap none xs a p.left)
    | inr far ↦
        let n : l.size - 1 - length xs ≡ length ys = omega (arith, p.size) in
        rw (far, n, p.last) (find_prev-Seg l.heap (some a) ys p.right)
  ]
    where
      p : Parts l xs a v ys
      p = IsList-Parts l xs a v ys is
