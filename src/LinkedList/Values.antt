-- ===== src/LinkedList/Values.antt =====
-- The operations on a list that stands for some values, as operations on those values.
use mudis.LinkedList.{
  LinkedList, empty, add, get, set_at, insert, remove, remove_last, find, index_out_of_bound,
}
use mudis.LinkedList.Loops.{make}
use mudis.LinkedList.Seg.{Cells, IsList, Stands, values, values-append}
use mudis.LinkedList.Links.{load_lem, IsList-Parts}
use mudis.LinkedList.Nodes.{add-IsList, insert_before-IsList, take_node-IsList, set_val-IsList}
use mudis.LinkedList.Find.{find_lem}
use mudis.Prelude.Int.{pos}
use mudis.Prelude.{
  ℕ, suc, ◌+◌, ◌≤◌, List, [], ◌∷◌, ◌++◌, some, none, true, false, length, ltb, leb, ◌==◌, ◌≡◌, ◌∙◌,
  sym, refl, ap, arith, ok, err, length-append, append-nil, append_assoc,
}

module _ {A : Type 0} where
  pub length-values : (xs : Cells A) → length (values xs) ≡ length xs
  length-values [] = refl
  length-values (x ∷ xs) = omega (arith, length-values xs)

  pub values-split :
      (xs : Cells A) (us : List A) (v : A) (ws : List A)
      → values xs ≡ us ++ v ∷ ws
      → (ys : Cells A) × (a : ℕ) × (zs : Cells A) × (xs ≡ ys ++ (a, v) ∷ zs)
        × (values ys ≡ us)
        × (values zs ≡ ws)
  values-split [] [] v ws e = cc
  values-split [] (u ∷ us) v ws e = cc
  values-split ((a, w) ∷ xs) [] v ws e = ([], a, xs, ground arith, refl, ground arith)
  values-split ((a, w) ∷ xs) (u ∷ us) v ws e =
      let (ys, b, zs, f, g, h) = values-split xs us v ws (ground arith) in
      ((a, w) ∷ ys, b, zs, ground arith, ground arith, h)

  module _ (l : LinkedList A) where
    pub size_of : (vs : List A) → Stands l vs → l.size ≡ length vs
    size_of vs (xs, is, e) = rw (← e) (is.size ∙ sym (length-values xs))

    pub add-Stands :
        (vs : List A) (v : A)
        → Stands l vs
        → (l' : LinkedList A) × (add l v ≡ ok l') × Stands l' (vs ++ v ∷ [])
    add-Stands vs v (xs, is, e) =
        let (l', f, is') = add-IsList l xs v is in
        (l', f, (xs ++ (l.fresh, v) ∷ [], is', values-append xs _ ∙ ap (λ us. us ++ v ∷ []) e))

    module _ (us : List A) (v : A) (ws : List A) (s : Stands l (us ++ v ∷ ws)) where
      -- The list in two parts and the node between them.
      record Split : Type 0 where
        before : Cells A
        at : ℕ
        behind : Cells A
        list : IsList l (before ++ (at, v) ∷ behind)
        before_values : values before ≡ us
        behind_values : values behind ≡ ws
        index : length before ≡ length us
        size : l.size ≡ length us + suc (length ws)

      split : Split
      split =
          let (ys, a, zs, f, g, h) = values-split s.0 us v ws s.2 in
          record {
            before = ys;
            at = a;
            behind = zs;
            list = rw f at s.1;
            before_values = g;
            behind_values = h;
            index = sym (length-values ys) ∙ ap length g;
            size = omega (arith, size_of (us ++ v ∷ ws) s, length-append us (v ∷ ws));
          }

      open split use {before, at, behind, list, before_values, behind_values, index, size}

      values_with : (mid : Cells A) → values (before ++ (mid ++ behind)) ≡ us ++ (values mid ++ ws)
      values_with mid = rw (values-append, values-append, before_values, behind_values) refl

      find_split : find l (length us) ≡ ok (some at)
      find_split = rw (← index) (find_lem l before at v behind list)

      pub get-Stands : get l (pos (length us)) ≡ ok v
      unfolding get
      get-Stands =
          let b : leb l.size (length us) ≡ false = ground (arith, size) in
          rw (b, find_split, load_lem l.heap at _ (IsList-Parts l before at v behind list).node)
            refl

      pub set_at-Stands :
          (w : A)
          → (l' : LinkedList A) × (set_at l (pos (length us)) w ≡ ok l') × Stands l' (us ++ w ∷ ws)
      unfolding set_at
      set_at-Stands w =
          let b : ltb l.size (length us) ≡ false = ground (arith, size) in
          let (l', e, is) = set_val-IsList l before at v w behind list in
          (l', rw (b, find_split) e, (before ++ (at, w) ∷ behind, is, values_with ((at, w) ∷ [])))

      pub insert_inside :
          (w : A)
          → (l' : LinkedList A) × (insert l (pos (length us)) w ≡ ok l')
            × Stands l' (us ++ w ∷ v ∷ ws)
      unfolding insert
      insert_inside w =
          let b : ltb l.size (length us) ≡ false = ground (arith, size) in
          let c : (length us == l.size) ≡ false = ground (arith, size) in
          let (l', e, is) = insert_before-IsList l before at v w behind list in
          (
            l',
            rw (b, c, find_split) e,
            (
              before ++ (l.fresh, w) ∷ (at, v) ∷ behind,
              is,
              values_with ((l.fresh, w) ∷ (at, v) ∷ []),
            ),
          )

      -- Remove at an index of the list returns the value there, and the others stand in their
      -- order.
      pub remove-Stands :
          (l' : LinkedList A) × (remove l (pos (length us)) ≡ ok (l', v)) × Stands l' (us ++ ws)
      unfolding remove
      remove-Stands =
          let b : leb l.size (length us) ≡ false = ground (arith, size) in
          let (l', e, is) = take_node-IsList l before at v behind list in
          (l', rw (b, find_split) e, (before ++ behind, is, values_with []))

    -- Insert at an index up to the size, on a list whose nodes stand for values, does not panic,
    -- and the new value stands at that index between the others.
    pub insert-Stands :
        (us : List A) (w : A) (ws : List A)
        → Stands l (us ++ ws)
        → (l' : LinkedList A) × (insert l (pos (length us)) w ≡ ok l') × Stands l' (us ++ w ∷ ws)
    insert-Stands us w (v ∷ ws) s = insert_inside us v ws s w
    insert-Stands us w [] s =
        let e : us ++ [] ≡ us = append-nil us in
        let t : Stands l us = rw e at s in
        let n : l.size ≡ length us = size_of us t in
        let b : ltb l.size (length us) ≡ false = ground arith in
        let c : (length us == l.size) ≡ true = ground arith in
        let (l', f, k) = add-Stands us w t in (l', unfold insert in rw (b, c) f, k)

    -- RemoveLast returns the last value, and the others stand in their order.
    pub remove_last-Stands :
        (us : List A) (v : A)
        → Stands l (us ++ v ∷ [])
        → (l' : LinkedList A) × (remove_last l ≡ ok (l', some v)) × Stands l' us
    unfolding remove_last
    remove_last-Stands us v s =
        let t = split us v [] s in go t.before t.at t.behind t.list t.before_values t.behind_values
      where
        go :
            (xs : Cells A) (a : ℕ) (ys : Cells A)
            → IsList l (xs ++ (a, v) ∷ ys)
            → values xs ≡ us
            → values ys ≡ []
            → (l' : LinkedList A) × (remove_last l ≡ ok (l', some v)) × Stands l' us
        go xs a (y ∷ ys) is e n = cc
        go xs a [] is e n =
            let (l', f, k) = take_node-IsList l xs a v [] is in
            (
              l',
              rw (remove_last, (IsList-Parts l xs a v [] is).last, f) refl,
              (xs, rw append-nil at k, e),
            )

    pub remove_last_empty : Stands l [] → remove_last l ≡ ok (l, none)
    unfolding remove_last
    remove_last_empty ([], is, e) = rw is.last refl
    remove_last_empty ((a, v) ∷ xs, is, e) = cc

    pub get_outside :
        (vs : List A) (i : ℕ) → Stands l vs → length vs ≤ i → get l (pos i) ≡ err index_out_of_bound
    unfolding get
    get_outside vs i s h = let n : l.size ≡ length vs = size_of vs s in ground arith

    pub remove_outside :
        (vs : List A) (i : ℕ)
        → Stands l vs
        → length vs ≤ i
        → remove l (pos i) ≡ err index_out_of_bound
    unfolding remove
    remove_outside vs i s h = let n : l.size ≡ length vs = size_of vs s in ground arith

  pub empty-Stands : Stands (empty {A = A}) []
  unfolding empty
  empty-Stands = (
    [],
    record { chain = tt; first = refl; last = refl; size = refl; distinct = tt; below = tt },
    refl,
  )

  pub make-Stands :
      (l : LinkedList A) (us vs : List A)
      → Stands l us
      → (l' : LinkedList A) × (make l vs ≡ ok l') × Stands l' (us ++ vs)
  unfolding make
  make-Stands l us [] s = (l, refl, rw append-nil s)
  make-Stands l us (v ∷ vs) s =
      let (l', e, k) = add-Stands l us v s in
      let (l'', f, m) = make-Stands l' (us ++ v ∷ []) vs k in (l'', rw e f, rw append_assoc at m)
