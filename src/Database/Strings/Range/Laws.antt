-- ===== src/Database/Strings/Range/Laws.antt =====
-- The slice that GETRANGE takes is in bounds; what SETRANGE leaves of a string.
use mudis.Prelude.Int.{ℤ, pos, negsuc}
use mudis.Database.Strings.Range.{overwrite_loop, overwrite, index_range}
use mudis.Prelude.{
  drop_all, take_all, refl, inr, length-replicate, append_assoc, set-append, ◌∙◌, ltb→lt, set,
  length-append, take-append-drop, inl, true, false, drop-drop, ltb, Bool-cases, leb, length-drop,
  ◌-◌, length-take, append-nil, sym, drop, replicate, ◌+◌, ◌++◌, length, take, ℕ, ◌≤◌, ◌<◌, Bytes,
  [], ◌∷◌, some, ◌≡◌, arith,
}

-- The slice expression of GETRANGE never panics: its bounds are in order and within the string.
pub index_range_bounds :
    (size : ℕ) (start stop : ℤ) (i j : ℕ)
    → index_range size start stop ≡ some (i, j)
    → (i ≤ j) × (j ≤ size) × (i < size)
unfolding index_range
index_range_bounds size (pos a) (pos b) i j h = ground arith
index_range_bounds size (pos a) (negsuc b) i j h = ground arith
index_range_bounds size (negsuc a) (pos b) i j h = ground arith
index_range_bounds size (negsuc a) (negsuc b) i j h = ground arith

-- Past the old length the loop appends.
overwrite_loop-past :
    (n : ℕ) (pre v : Bytes) → n ≤ length pre → overwrite_loop n (length pre) pre v ≡ pre ++ v
unfolding overwrite_loop
overwrite_loop-past n pre [] h = sym (append-nil pre)
overwrite_loop-past n pre (c ∷ v) h =
    let b : leb n (length pre) ≡ true = ground arith in
    let l : length pre + 1 ≡ length (pre ++ c ∷ []) = omega (arith, length-append pre (c ∷ [])) in
    rw (b, l)
      (overwrite_loop-past n (pre ++ c ∷ []) v (omega (arith, length-append pre (c ∷ [])))
        ∙ append_assoc pre (c ∷ []) v)

-- Within it the loop replaces, and goes on behind it.
overwrite_loop-within :
    (n : ℕ) (pre mid v : Bytes)
    → n ≡ length pre + length mid
    → overwrite_loop n (length pre) (pre ++ mid) v ≡ pre ++ (v ++ drop (length v) mid)
unfolding overwrite_loop
overwrite_loop-within n pre mid [] h = refl
overwrite_loop-within n pre [] (c ∷ v) h =
    rw (append-nil, append-nil) (overwrite_loop-past n pre (c ∷ v) (omega arith))
overwrite_loop-within n pre (x ∷ mid) (c ∷ v) h =
    let b : leb n (length pre) ≡ false = ground arith in
    let l : length pre + 1 ≡ length (pre ++ c ∷ []) = omega (arith, length-append pre (c ∷ [])) in
    let s : set (pre ++ x ∷ mid) (length pre) c ≡ (pre ++ c ∷ []) ++ mid =
      set-append pre mid x c ∙ sym (append_assoc pre (c ∷ []) mid) in
    rw b (
      rw (s, l)
        (overwrite_loop-within n (pre ++ c ∷ []) mid v (omega (arith, length-append pre (c ∷ [])))
          ∙ append_assoc pre (c ∷ []) (v ++ drop (length v) mid)))

-- The loop from the place where a string is cut.
overwrite_loop-cut :
    (offset : ℕ) (s v : Bytes)
    → offset ≤ length s
    → overwrite_loop (length s) offset s v ≡ take offset s ++ (v ++ drop (offset + length v) s)
overwrite_loop-cut offset s v l =
    let n : length (take offset s) ≡ offset = omega (arith, length-take offset s) in
    let m : length s ≡ length (take offset s) + length (drop offset s) =
      omega (arith, length-take offset s, length-drop offset s) in
    rw (drop-drop (length v) offset s, n, take-append-drop offset s) at
      (overwrite_loop-within (length s) (take offset s) (drop offset s) v m)

-- SETRANGE keeps the bytes before the offset, fills a gap with zero bytes, puts the value there and
-- keeps what lies behind the value.
pub overwrite_lem :
    (s : Bytes) (offset : ℕ) (v : Bytes)
    → overwrite s offset v
      ≡ take offset s ++ (replicate (offset - length s) 0 ++ (v ++ drop (offset + length v) s))
unfolding overwrite
overwrite_lem s offset v = elim (Bool-cases (ltb (length s) offset)) [
  | inl short ↦
      let zeros : Bytes = replicate (offset - length s) 0 in
      let l : length s < offset = ltb→lt (length s) offset short in
      let n : length (s ++ zeros) ≡ offset =
        omega (arith, length-append s zeros, length-replicate {A = ℕ} (offset - length s) 0) in
      rw short (
        overwrite_loop-cut offset (s ++ zeros) v (omega arith)
        ∙ (rw
            (
              take_all offset (s ++ zeros) (omega arith),
              drop_all (offset + length v) (s ++ zeros) (omega arith),
              take_all offset s (omega arith),
              drop_all (offset + length v) s (omega arith),
              append-nil,
            )
            (append_assoc s zeros v)))
  | inr long ↦
      let z : offset - length s ≡ 0 = ground arith in
      rw (long, z) (overwrite_loop-cut offset s v (ground arith))
]
