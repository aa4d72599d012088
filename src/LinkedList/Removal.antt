-- ===== src/LinkedList/Removal.antt =====
-- What the three methods that remove by value leave of a list's values.
use mudis.LinkedList.{LinkedList}
use mudis.LinkedList.Loops.{
  reaches, remove_loop, remove_all_by_val, remove_by_val, reverse_remove_by_val,
}
use mudis.LinkedList.Seg.{Cells, Stands, values, last_ptr, head_ptr}
use mudis.LinkedList.Erase.{erase, remove_loop-erase, remove_loop_back-erase, last_ptr-reverse_onto}
use mudis.Prelude.Int.{pos}
use mudis.Prelude.{
  Bool-cases, inl, inr, none, ℕ, zero, suc, ◌+◌, min, List, [], ◌∷◌, Bool, true, false, ◌==◌, ◌≡◌,
  ◌∙◌, sym, refl, ap, arith, ok, if◌then◌else◌, reverse_onto, reverse_twice, length-reverse_onto,
}

module _ {A : Type 0} (same : A → Bool) where
  -- The values that do not match, the number of those that do, and the values without the first
  -- `n` that match.
  abbrev pub without : List A → List A
  without [] = []
  without (v ∷ vs) = let rest = without vs in if same v then rest else v ∷ rest

  abbrev pub matching : List A → ℕ
  matching [] = 0
  matching (v ∷ vs) = if same v then suc (matching vs) else matching vs

  abbrev pub without_first : ℕ → List A → List A
  without_first zero vs = vs
  without_first (suc n) [] = []
  without_first (suc n) (v ∷ vs) =
      let hit = without_first n vs in
      let miss = without_first (suc n) vs in if same v then hit else v ∷ miss

  erase-without :
      (r : ℕ) (vs : List A) → erase same (λ n. false) r vs ≡ (without vs, r + matching vs)
  erase-without r [] = ground arith
  erase-without r (v ∷ vs) = elim (Bool-cases (same v)) [
    | inl hit ↦ rw hit (erase-without (r + 1) vs ∙ ap (λ n. (without vs, n)) (omega arith))
    | inr miss ↦ rw miss (ap (λ e. (v ∷ e.0, e.1)) (erase-without r vs))
  ]

  erase-without_first :
      (r n : ℕ) (vs : List A)
      → erase same (reaches (pos (r + suc n))) r vs
        ≡ (without_first (suc n) vs, r + min (suc n) (matching vs))
  erase-without_first r n [] = ap (λ m. ([], m)) (omega arith)
  erase-without_first r n (v ∷ vs) = elim (Bool-cases (same v)) [
    | inl hit ↦
        elim n
          as (λ k.
            erase same (reaches (pos (r + suc k))) r (v ∷ vs)
            ≡ (without_first (suc k) (v ∷ vs), r + min (suc k) (matching (v ∷ vs)))) [
              | zero ↦
                  let e : (r + 1 == r + 1) ≡ true = ground arith in
                  rw (hit, e) (ap (λ m. (vs, m)) (omega arith))
              | suc m ↦
                  let e : (r + 1 == r + suc (suc m)) ≡ false = ground arith in
                  let f : r + suc (suc m) ≡ r + 1 + suc m = omega arith in
                  rw (hit, e)
                    (ap (λ k. erase same (reaches (pos k)) (r + 1) vs) f
                      ∙ erase-without_first (r + 1) m vs
                      ∙ ap (λ k. (without_first (suc m) vs, k)) (omega arith))
            ]
    | inr miss ↦
        let e : (r == r + suc n) ≡ false = ground arith in
        rw (miss, e) (ap (λ x. (v ∷ x.0, x.1)) (erase-without_first r n vs))
  ]

  erase_all : (vs : List A) → erase same (λ n. false) 0 vs ≡ (without vs, matching vs)
  erase_all vs = erase-without 0 vs ∙ ap (λ n. (without vs, n)) (omega arith)

  erase_some :
      (n : ℕ) (vs : List A)
      → erase same (reaches (pos (suc n))) 0 vs
        ≡ (without_first (suc n) vs, min (suc n) (matching vs))
  erase_some n vs =
      ap (λ k. erase same (reaches (pos k)) 0 vs) (omega arith)
      ∙ erase-without_first 0 n vs
      ∙ ap (λ m. (without_first (suc n) vs, m)) (omega arith)

  values-reverse_onto :
      (xs ys : Cells A) → values (reverse_onto xs ys) ≡ reverse_onto (values xs) (values ys)
  values-reverse_onto [] ys = refl
  values-reverse_onto (x ∷ xs) ys = values-reverse_onto xs (x ∷ ys)

  -- RemoveAllByVal ends without a panic, removes the values that match, returns their number, and
  -- keeps the others in order.
  pub remove_all_by_val-Stands :
      (l : LinkedList A) (vs : List A)
      → Stands l vs
      → (l' : LinkedList A) × (remove_all_by_val same l ≡ ok (l', matching vs))
        × Stands l' (without vs)
  unfolding remove_all_by_val
  remove_all_by_val-Stands l vs (xs, is, e) =
      let (l', zs, m, f, is', g) =
        remove_loop-erase same (λ n. false) xs [] l (l.size + 1) 0 is (ground (arith, is.size)) in
      let h : ◌≡◌ {A = List A × ℕ} (values zs, m) (without vs, matching vs) =
        rw (← e) (g ∙ erase_all (values xs)) in
      (
        l',
        rw (← ap (λ r. r.1) h)
            (ap (λ p. remove_loop same (λ c. c.next) (λ n. false) (l.size + 1) l p 0) is.first ∙ f),
        (zs, is', ap (λ r. r.0) h),
      )

  -- RemoveByVal with a count above 0 ends without a panic, removes the first values that match, as
  -- many as the count says or as there are, returns their number, and keeps the others in order.
  pub remove_by_val-Stands :
      (l : LinkedList A) (vs : List A) (n : ℕ)
      → Stands l vs
      → (l' : LinkedList A) × (remove_by_val same l (pos (suc n))
          ≡ ok (l', min (suc n) (matching vs)))
        × Stands l' (without_first (suc n) vs)
  unfolding remove_by_val
  remove_by_val-Stands l vs n (xs, is, e) =
      let (l', zs, m, f, is', g) =
        remove_loop-erase same (reaches (pos (suc n))) xs [] l (l.size + 1) 0 is
          (ground (arith, is.size)) in
      let h : ◌≡◌ {A = List A × ℕ} (values zs, m)
          (without_first (suc n) vs, min (suc n) (matching vs)) =
        rw (← e) (g ∙ erase_some n (values xs)) in
      (
        l',
        rw (← ap (λ r. r.1) h) (
            ap (λ p. remove_loop same (λ c. c.next) (reaches (pos (suc n))) (l.size + 1) l p 0)
              is.first
            ∙ f),
        (zs, is', ap (λ r. r.0) h),
      )

  -- ReverseRemoveByVal with a count above 0 ends without a panic, removes the last values that
  -- match, as many as the count says or as there are, returns their number, and keeps the others
  -- in order.
  pub reverse_remove_by_val-Stands :
      (l : LinkedList A) (vs : List A) (n : ℕ)
      → Stands l vs
      → (l' : LinkedList A) × (reverse_remove_by_val same l (pos (suc n))
          ≡ ok (l', min (suc n) (matching (reverse_onto vs []))))
        × Stands l' (reverse_onto (without_first (suc n) (reverse_onto vs [])) [])
  unfolding reverse_remove_by_val
  reverse_remove_by_val-Stands l vs n (xs, is, e) =
      let back : Cells A = reverse_onto xs [] in
      let twice : reverse_onto back [] ≡ xs = reverse_twice xs [] in
      let start : l.last ≡ head_ptr back none =
        is.last ∙ ap (last_ptr none) (sym twice) ∙ last_ptr-reverse_onto same (λ n. false) back in
      let (l', zs, m, f, is', g) =
        remove_loop_back-erase same (reaches (pos (suc n))) back [] l (l.size + 1) 0 (rw twice is)
          (ground (arith, is.size, length-reverse_onto xs [])) in
      let vals : values back ≡ reverse_onto vs [] =
        values-reverse_onto xs [] ∙ ap (λ us. reverse_onto us []) e in
      let h : ◌≡◌ {A = List A × ℕ} (values zs, m)
          (
            without_first (suc n) (reverse_onto vs []),
            min (suc n) (matching (reverse_onto vs [])),
          ) =
        rw (← vals) (g ∙ erase_some n (values back)) in
      (
        l',
        rw (← ap (λ r. r.1) h) (
            ap (λ p. remove_loop same (λ c. c.prev) (reaches (pos (suc n))) (l.size + 1) l p 0)
              start
            ∙ f),
        (reverse_onto zs [], is', values-reverse_onto zs [] ∙ ap (λ r. reverse_onto r.0 []) h),
      )
