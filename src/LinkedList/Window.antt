-- ===== src/LinkedList/Window.antt =====
-- `Range`, as a window on the values.
use mudis.LinkedList.{LinkedList, Heap, Ptr}
use mudis.LinkedList.Loops.{range, range_loop}
use mudis.LinkedList.Seg.{Cells, Stands, Seg, values, head_ptr}
use mudis.LinkedList.Links.{load_lem}
use mudis.LinkedList.Values.{length-values, size_of}
use mudis.Prelude.Int.{pos}
use mudis.Prelude.{
  ℕ, zero, suc, ◌+◌, ◌-◌, ◌≤◌, ◌<◌, List, [], ◌∷◌, ◌++◌, Option, some, none, true, false, length,
  ltb, leb, ◌≡◌, ◌∙◌, sym, refl, ap, arith, ok, take, drop, map, replicate, length-append,
  append_assoc, set-append,
}

module _ {A : Type 0} (start stop : ℕ) where
  -- Between `start` and `stop` the values fill the slice.
  range_loop-fill :
      (xs : Cells A) (h : Heap A) (p : Ptr) (fuel i : ℕ) (done : List (Option A)) (left : ℕ)
      → Seg h p xs none
      → length xs < fuel
      → start ≤ i
      → stop ≡ i + left
      → left ≤ length xs
      → range_loop start stop h fuel
          (head_ptr xs none)
          i
          (length done)
          (done ++ replicate left none)
        ≡ ok (done ++ map some (take left (values xs)))
  unfolding range_loop
  range_loop-fill xs h p zero i done left s f b e c = absurd (omega arith)
  range_loop-fill [] h p (suc fuel) i done zero s f b e c = refl
  range_loop-fill [] h p (suc fuel) i done (suc left) s f b e c = absurd (omega arith)
  range_loop-fill ((a, v) ∷ xs) h p (suc fuel) i done zero s f b e c =
      let t₁ : ltb i stop ≡ false = ground arith in
      let t₂ : leb stop i ≡ true = ground arith in
      let t₃ : leb start i ≡ true = ground arith in rw (load_lem h a _ s.0, t₃, t₁, t₂) refl
  range_loop-fill ((a, v) ∷ xs) h p (suc fuel) i done (suc left) s f b e c =
      let t₁ : ltb i stop ≡ true = ground arith in
      let t₃ : leb start i ≡ true = ground arith in
      let n : length done + 1 ≡ length (done ++ some v ∷ []) =
        omega (arith, length-append done (some v ∷ [])) in
      rw
        (
          load_lem h a _ s.0,
          t₃,
          t₁,
          set-append done (replicate left none) none (some v),
          n,
          ← append_assoc done (some v ∷ []) (replicate left none),
          ← append_assoc done (some v ∷ []) (map some (take left (values xs))),
        )
        (range_loop-fill xs h (some a) fuel (i + 1) (done ++ some v ∷ []) left s.1 (omega arith)
          (omega arith) (omega arith) (omega arith))

  range_loop-skip :
      (xs : Cells A) (h : Heap A) (p : Ptr) (fuel i skip : ℕ)
      → Seg h p xs none
      → length xs < fuel
      → start ≡ i + skip
      → start ≤ stop
      → stop ≤ i + length xs
      → range_loop start stop h fuel (head_ptr xs none) i 0 (replicate (stop - start) none)
        ≡ ok (map some (take (stop - start) (drop skip (values xs))))
  unfolding range_loop
  range_loop-skip xs h p fuel i zero s f b o c =
      range_loop-fill xs h p fuel i [] (stop - start) s f (omega arith) (omega arith) (omega arith)
  range_loop-skip xs h p zero i (suc skip) s f b o c = absurd (omega arith)
  range_loop-skip [] h p (suc fuel) i (suc skip) s f b o c = absurd (omega arith)
  range_loop-skip ((a, v) ∷ xs) h p (suc fuel) i (suc skip) s f b o c =
      let t₁ : leb start i ≡ false = ground arith in
      let t₂ : leb stop i ≡ false = ground arith in
      rw (load_lem h a _ s.0, t₁, t₂)
        (range_loop-skip xs h (some a) fuel (i + 1) skip s.1 (omega arith) (omega arith) o
          (omega arith))

module _ {A : Type 0} where
  -- Range with bounds in order and within the list does not panic, and returns the values between
  -- them.
  pub range-Stands :
      (l : LinkedList A) (vs : List A) (start stop : ℕ)
      → Stands l vs
      → start < length vs
      → start ≤ stop
      → stop ≤ length vs
      → range l (pos start) (pos stop) ≡ ok (map some (take (stop - start) (drop start vs)))
  unfolding range
  range-Stands l vs start stop (xs, is, e) b o c =
      let n : l.size ≡ length vs = size_of l vs (xs, is, e) in
      let m : length vs ≡ length xs = ap length (sym e) ∙ length-values xs in
      let t₁ : leb l.size start ≡ false = ground arith in
      let t₂ : ltb stop start ≡ false = ground arith in
      let t₃ : ltb l.size stop ≡ false = ground arith in
      rw (t₁, t₂, t₃)
        (ap (λ p. range_loop start stop l.heap (l.size + 1) p 0 0 (replicate (stop - start) none))
            is.first
          ∙ range_loop-skip start stop xs l.heap none (l.size + 1) 0 start is.chain (omega arith)
              (omega arith) o (omega arith)
          ∙ ap (λ us. ok (map some (take (stop - start) (drop start us)))) e)
