-- ===== src/LinkedList/Seg.antt =====
-- Segments of linked nodes, and what a list stands for.
use mudis.LinkedList.{Ptr, Node, Heap, LinkedList, write}
use mudis.Prelude.{
  ◌+◌, ℕ, ◌<◌, List, [], ◌∷◌, ◌++◌, none, some, Bool, true, false, ◌||◌, ◌==◌, length, ◌≡◌, refl,
  arith,
}

-- The nodes of a list in order: address and value.
abbrev pub Cells : Type 0 → Type 0
Cells A = List (ℕ × A)

module _ {A : Type 0} where
  abbrev pub has : ℕ → Cells A → Bool
  has a [] = false
  has a ((b, _) ∷ xs) = (a == b) || has a xs

  -- The pointer to the first node, or the one behind the segment; the same from the other end.
  abbrev pub head_ptr : Cells A → Ptr → Ptr
  head_ptr [] n = n
  head_ptr ((a, _) ∷ xs) n = some a

  abbrev pub last_ptr : Ptr → Cells A → Ptr
  last_ptr p [] = p
  last_ptr p ((a, _) ∷ xs) = last_ptr (some a) xs

  -- The nodes of `xs` are linked both ways, with `p` before them and `n` behind them.
  abbrev pub Seg : Heap A → Ptr → Cells A → Ptr → Type 0
  Seg h p [] n = Unit
  Seg h p ((a, v) ∷ xs) n =
      (h a ≡ some (record { val = v; prev = p; next = head_ptr xs n })) × Seg h (some a) xs n

  abbrev pub Distinct : Cells A → Type 0
  Distinct [] = Unit
  Distinct ((a, _) ∷ xs) = (has a xs ≡ false) × Distinct xs

  -- Every address is below the next allocation.
  abbrev pub Below : ℕ → Cells A → Type 0
  Below n [] = Unit
  Below n ((a, _) ∷ xs) = (a < n) × Below n xs

  pub record IsList (l : LinkedList A) (xs : Cells A) : Type 0 where
    pub chain : Seg l.heap none xs none
    pub first : l.first ≡ head_ptr xs none
    pub last : l.last ≡ last_ptr none xs
    pub size : l.size ≡ length xs
    pub distinct : Distinct xs
    pub below : Below l.fresh xs

  abbrev pub values : Cells A → List A
  values [] = []
  values ((_, v) ∷ xs) = v ∷ values xs

  -- The list stands for these values.
  abbrev pub Stands : LinkedList A → List A → Type 0
  Stands l vs = (xs : Cells A) × IsList l xs × (values xs ≡ vs)

  -- The heaps agree outside the nodes of `xs`.
  abbrev pub SameOutside : Cells A → Heap A → Heap A → Type 0
  SameOutside xs h g = (a : ℕ) → has a xs ≡ false → g a ≡ h a

  pub has-append : (a : ℕ) (xs ys : Cells A) → has a (xs ++ ys) ≡ (has a xs || has a ys)
  has-append a [] ys = refl
  has-append a (x ∷ xs) ys = ground (arith, has-append a xs ys)

  pub head_ptr-append :
      (xs ys : Cells A) (n : Ptr) → head_ptr (xs ++ ys) n ≡ head_ptr xs (head_ptr ys n)
  head_ptr-append [] ys n = refl
  head_ptr-append (x ∷ xs) ys n = refl

  pub last_ptr-append :
      (p : Ptr) (xs ys : Cells A) → last_ptr p (xs ++ ys) ≡ last_ptr (last_ptr p xs) ys
  last_ptr-append p [] ys = refl
  last_ptr-append p (x ∷ xs) ys = last_ptr-append (some x.0) xs ys

  pub values-append : (xs ys : Cells A) → values (xs ++ ys) ≡ values xs ++ values ys
  values-append [] ys = refl
  values-append (x ∷ xs) ys = ground (arith, values-append xs ys)

  pub Seg-append :
      (h : Heap A) (p : Ptr) (xs ys : Cells A) (n : Ptr)
      → Seg h p xs (head_ptr ys n)
      → Seg h (last_ptr p xs) ys n
      → Seg h p (xs ++ ys) n
  Seg-append h p [] ys n s t = t
  Seg-append h p (x ∷ xs) ys n s t =
      (rw (head_ptr-append xs ys n) s.0, Seg-append h (some x.0) xs ys n s.1 t)

  pub Seg-split :
      (h : Heap A) (p : Ptr) (xs ys : Cells A) (n : Ptr)
      → Seg h p (xs ++ ys) n
      → Seg h p xs (head_ptr ys n) × Seg h (last_ptr p xs) ys n
  Seg-split h p [] ys n s = (tt, s)
  Seg-split h p (x ∷ xs) ys n s =
      let (t, u) = Seg-split h (some x.0) xs ys n s.1 in
      ((rw (head_ptr-append xs ys n) at s.0, t), u)

  -- A segment survives any change outside its nodes.
  pub frame :
      (h g : Heap A) (p : Ptr) (xs : Cells A) (n : Ptr)
      → Seg h p xs n
      → ((a : ℕ) → has a xs ≡ true → g a ≡ h a)
      → Seg g p xs n
  frame h g p [] n s same = tt
  frame h g p ((a, v) ∷ xs) n s same =
      (ground (arith, same a), frame h g (some a) xs n s.1 (λ b i. same b (ground arith)))

  pub frame-write :
      (h : Heap A) (p : Ptr) (xs : Cells A) (n : Ptr) (a : ℕ) (c : Node A)
      → Seg h p xs n
      → has a xs ≡ false
      → Seg (write h a c) p xs n
  unfolding write
  frame-write h p xs n a c s out = frame h (write h a c) p xs n s (ground arith)

  pub Distinct-split :
      (xs ys : Cells A)
      → Distinct (xs ++ ys)
      → Distinct xs × Distinct ys × ((a : ℕ) → has a xs ≡ true → has a ys ≡ false)
  Distinct-split [] ys d = (tt, d, λ a i. cc)
  Distinct-split ((b, v) ∷ xs) ys d =
      let (dx, dy, apart) = Distinct-split xs ys d.1 in
      (
        (ground (arith, has-append b xs ys), dx),
        dy,
        λ a i. ground (arith, apart a, has-append b xs ys),
      )

  pub Distinct-append :
      (xs ys : Cells A)
      → Distinct xs
      → Distinct ys
      → ((a : ℕ) → has a xs ≡ true → has a ys ≡ false)
      → Distinct (xs ++ ys)
  Distinct-append [] ys dx dy apart = dy
  Distinct-append ((b, v) ∷ xs) ys dx dy apart = (
    ground (arith, has-append b xs ys, apart b),
    Distinct-append xs ys dx.1 dy (λ a i. apart a (ground arith)),
  )

  pub Below-append : (n : ℕ) (xs ys : Cells A) → Below n xs → Below n ys → Below n (xs ++ ys)
  Below-append n [] ys b c = c
  Below-append n (x ∷ xs) ys b c = (b.0, Below-append n xs ys b.1 c)

  pub Below-split : (n : ℕ) (xs ys : Cells A) → Below n (xs ++ ys) → Below n xs × Below n ys
  Below-split n [] ys b = (tt, b)
  Below-split n (x ∷ xs) ys b = let (c, d) = Below-split n xs ys b.1 in ((b.0, c), d)

  pub Below-suc : (n m : ℕ) (xs : Cells A) → m ≡ n + 1 → Below n xs → Below m xs
  Below-suc n m [] h b = tt
  Below-suc n m (x ∷ xs) h b = (omega arith, Below-suc n m xs h b.1)

  pub Below-has : (n : ℕ) (xs : Cells A) → Below n xs → has n xs ≡ false
  Below-has n [] b = refl
  Below-has n ((a, v) ∷ xs) b = ground (arith, Below-has n xs b.1)
