-- ===== src/ConsistentHash/Search.antt =====
-- The sorted hashes, and the one that the binary search finds.
use mudis.ConsistentHash.{insert_sorted, sort_ints, search}
use mathlib.Core.Path.{subst}
use mudis.Prelude.{
  ℕ, zero, suc, ◌+◌, ◌-◌, ◌^◌, ◌≤◌, ◌<◌, List, [], ◌∷◌, ◌++◌, true, false, ◌==◌, leb, length,
  get_or, if◌then◌else◌, All, ◌≡◌, ◌⊎◌, inl, inr, refl, arith, sym, Bool-cases, ==_iff,
}

-- How far a point of the ring lies behind another.
abbrev pub distance : ℕ → ℕ → ℕ
distance a b = if leb a b then b - a else b + 2 ^ 32 - a

abbrev IsSorted : List ℕ → Type 0
IsSorted [] = Unit
IsSorted (x ∷ xs) = All (λ y. x ≤ y) xs × IsSorted xs

module _ (P : ℕ → Type 0) where
  insert-All : (x : ℕ) (xs : List ℕ) → P x → All P xs → All P (insert_sorted x xs)
  unfolding insert_sorted
  insert-All x [] p a = (p, tt)
  insert-All x (y ∷ ys) p (q, a) = elim (Bool-cases (leb x y)) [
    | inl h ↦ rw h (p, (q, a))
    | inr h ↦ rw h (q, insert-All x ys p a)
  ]

  insert-All_back : (x : ℕ) (xs : List ℕ) → All P (insert_sorted x xs) → P x × All P xs
  unfolding insert_sorted
  insert-All_back x [] a = a
  insert-All_back x (y ∷ ys) a = elim (Bool-cases (leb x y)) [
    | inl h ↦ rw h at a
    | inr h ↦ let (q, b) = rw h at a in let (p, c) = insert-All_back x ys b in (p, (q, c))
  ]

  pub sort-All : (xs : List ℕ) → All P xs → All P (sort_ints xs)
  unfolding sort_ints
  sort-All [] a = tt
  sort-All (x ∷ xs) (p, a) = insert-All x (sort_ints xs) p (sort-All xs a)

  pub sort-All_back : (xs : List ℕ) → All P (sort_ints xs) → All P xs
  unfolding sort_ints
  sort-All_back [] a = tt
  sort-All_back (x ∷ xs) a =
      let (p, b) = insert-All_back x (sort_ints xs) a in (p, sort-All_back xs b)

pub All-map :
    {A : Type 0} (P Q : A → Type 0) (f : (x : A) → P x → Q x) (xs : List A) → All P xs → All Q xs
All-map P Q f [] a = tt
All-map P Q f (x ∷ xs) (p, a) = (f x p, All-map P Q f xs a)

pub All-snoc : (P : ℕ → Type 0) (xs : List ℕ) (x : ℕ) → All P xs → P x → All P (xs ++ (x ∷ []))
All-snoc P [] x a p = (p, tt)
All-snoc P (y ∷ ys) x (q, a) p = (q, All-snoc P ys x a p)

pub All-snoc_back : (P : ℕ → Type 0) (xs : List ℕ) (x : ℕ) → All P (xs ++ (x ∷ [])) → All P xs × P x
All-snoc_back P [] x (p, _) = (tt, p)
All-snoc_back P (y ∷ ys) x (q, a) = let (b, p) = All-snoc_back P ys x a in ((q, b), p)

All-both : (P Q : ℕ → Type 0) (xs : List ℕ) → All P xs → All Q xs → All (λ x. P x × Q x) xs
All-both P Q [] a b = tt
All-both P Q (x ∷ xs) (p, a) (q, b) = ((p, q), All-both P Q xs a b)

All-get_or : (P : ℕ → Type 0) (xs : List ℕ) (i : ℕ) → i < length xs → All P xs → P (get_or xs i 0)
All-get_or P [] i h a = absurd (omega arith)
All-get_or P (x ∷ xs) zero h (p, a) = p
All-get_or P (x ∷ xs) (suc i) h (p, a) = All-get_or P xs i (omega arith) a

All-le : (x y : ℕ) (xs : List ℕ) → x ≤ y → All (λ z. y ≤ z) xs → All (λ z. x ≤ z) xs
All-le x y [] h a = tt
All-le x y (z ∷ zs) h (p, a) = (omega arith, All-le x y zs h a)

insert-IsSorted : (x : ℕ) (xs : List ℕ) → IsSorted xs → IsSorted (insert_sorted x xs)
unfolding insert_sorted
insert-IsSorted x [] s = (tt, tt)
insert-IsSorted x (y ∷ ys) (a, s) = elim (Bool-cases (leb x y)) [
  | inl h ↦ rw h ((ground arith, All-le x y ys (ground arith) a), (a, s))
  | inr h ↦ rw h (insert-All (λ z. y ≤ z) x ys (ground arith) a, insert-IsSorted x ys s)
]

pub sort-IsSorted : (xs : List ℕ) → IsSorted (sort_ints xs)
unfolding sort_ints
sort-IsSorted [] = tt
sort-IsSorted (x ∷ xs) = insert-IsSorted x (sort_ints xs) (sort-IsSorted xs)

-- The hash that `PickNode` looks up.
abbrev pub picked : ℕ → List ℕ → ℕ
picked h xs = get_or xs (if search h xs == length xs then 0 else search h xs) 0

search-le : (h : ℕ) (xs : List ℕ) → search h xs ≤ length xs
unfolding search
search-le h [] = omega arith
search-le h (x ∷ xs) = ground (arith, search-le h xs)

All-below : (h : ℕ) (xs : List ℕ) → search h xs ≡ length xs → All (λ x. x < h) xs
unfolding search
All-below h [] e = tt
All-below h (x ∷ xs) e = elim (Bool-cases (leb h x)) [
  | inl b ↦ absurd (ground arith)
  | inr b ↦ (ground arith, All-below h xs (ground arith))
]

-- The value is not below the point, and what is below the value is below the point.
abbrev Above : ℕ → ℕ → List ℕ → Type 0
Above h m xs = (h ≤ m) × All (λ x. (x < h) ⊎ (m ≤ x)) xs

search-here : (h x : ℕ) (xs : List ℕ) → leb h x ≡ true → search h (x ∷ xs) ≡ 0
unfolding search
search-here h x xs b = rw b refl

search-there : (h x : ℕ) (xs : List ℕ) → leb h x ≡ false → search h (x ∷ xs) ≡ suc (search h xs)
unfolding search
search-there h x xs b = rw b refl

first-Above :
    (h : ℕ) (xs : List ℕ)
    → IsSorted xs
    → search h xs < length xs
    → Above h (get_or xs (search h xs) 0) xs
first-Above h [] s l = absurd (omega arith)
first-Above h (x ∷ xs) (a, s) l = elim (Bool-cases (leb h x)) [
  | inl b ↦
      subst (λ i. Above h (get_or (x ∷ xs) i 0) (x ∷ xs)) (sym (search-here h x xs b))
        (
          ground arith,
          (inr (omega arith), All-map (λ y. x ≤ y) (λ y. (y < h) ⊎ (x ≤ y)) (λ y p. inr p) xs a),
        )
  | inr b ↦
      let e : search h (x ∷ xs) ≡ suc (search h xs) = search-there h x xs b in
      let (p, q) = first-Above h xs s (omega arith) in
      subst (λ i. Above h (get_or (x ∷ xs) i 0) (x ∷ xs)) (sym e) (p, (inl (ground arith), q))
]

distance-wraps : (h y x : ℕ) → y < h → (x < h) × (y ≤ x) → distance h y ≤ distance h x
distance-wraps h y x b (c, d) = ground arith

distance-ahead : (h m x : ℕ) → h ≤ m → m < 2 ^ 32 → (x < h) ⊎ (m ≤ x) → distance h m ≤ distance h x
distance-ahead h m x p b r = elim r [ inl c ↦ ground arith | inr d ↦ ground arith ]

picked-wraps : (h : ℕ) (xs : List ℕ) → search h xs ≡ length xs → picked h xs ≡ get_or xs 0 0
picked-wraps h xs e = rw ((==_iff (search h xs) (length xs)).1 e) refl

picked-ahead :
    (h : ℕ) (xs : List ℕ)
    → (search h xs == length xs) ≡ false
    → picked h xs ≡ get_or xs (search h xs) 0
picked-ahead h xs e = rw e refl

-- All the points lie at least as far behind as the one that is picked.
abbrev pub Nearest : ℕ → ℕ → List ℕ → Type 0
Nearest h m xs = All (λ x. distance h m ≤ distance h x) xs

pub nearest :
    (h : ℕ) (xs : List ℕ)
    → IsSorted xs
    → All (λ x. x < 2 ^ 32) xs
    → 0 < length xs
    → Nearest h (picked h xs) xs
nearest h [] s b l = absurd (omega arith)
nearest h (y ∷ ys) s b l = elim (Bool-cases (search h (y ∷ ys) == length (y ∷ ys))) [
  | inl e ↦
      let e' : search h (y ∷ ys) ≡ length (y ∷ ys) =
        (==_iff (search h (y ∷ ys)) (length (y ∷ ys))).0 e in
      let below : All (λ x. x < h) (y ∷ ys) = All-below h (y ∷ ys) e' in
      let above : All (λ x. y ≤ x) (y ∷ ys) = (omega arith, s.0) in
      subst (λ m. Nearest h m (y ∷ ys)) (sym (picked-wraps h (y ∷ ys) e'))
        (All-map _ _ (λ x. distance-wraps h y x below.0) (y ∷ ys)
          (All-both (λ x. x < h) (λ x. y ≤ x) (y ∷ ys) below above))
  | inr e ↦
      let i : search h (y ∷ ys) < length (y ∷ ys) = ground (arith, search-le h (y ∷ ys)) in
      let m : ℕ = get_or (y ∷ ys) (search h (y ∷ ys)) 0 in
      let (p, q) = first-Above h (y ∷ ys) s i in
      subst (λ m. Nearest h m (y ∷ ys)) (sym (picked-ahead h (y ∷ ys) e))
        (All-map (λ x. (x < h) ⊎ (m ≤ x)) (λ x. distance h m ≤ distance h x)
          (λ x.
            distance-ahead h m x p (All-get_or (λ x. x < 2 ^ 32) (y ∷ ys) (search h (y ∷ ys)) i b))
          (y ∷ ys) q)
]

pub picked-All : (P : ℕ → Type 0) (h : ℕ) (xs : List ℕ) → 0 < length xs → All P xs → P (picked h xs)
picked-All P h xs l a =
    All-get_or P xs (if search h xs == length xs then 0 else search h xs)
      (ground (arith, search-le h xs)) a
