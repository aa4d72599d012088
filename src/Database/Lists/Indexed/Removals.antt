-- ===== src/Database/Lists/Indexed/Removals.antt =====
-- LREM, as an operation on the values under a key.
use mudis.LinkedList.{LinkedList}
use mudis.LinkedList.Seg.{Stands}
use mudis.LinkedList.Removal.{
  without, matching, without_first, remove_all_by_val-Stands, remove_by_val-Stands,
  reverse_remove_by_val-Stands,
}
use mudis.Dict.{Dict}
use mudis.Strconv.{parse_int}
use mudis.Utils.{bytes_equals}
use mudis.Reply.{Slice, int}
use mudis.Database.{Entity, State, to_cmd_line, reply_of, state_of, done}
use mudis.Database.Lists.Indexed.{exec_l_rem, remove_count}
use mudis.Database.Lists.Indexed.Index.{reverse}
use mudis.Database.Lists.Holds.{
  Holds, Runs-put_or_remove, SameElsewhere, put_or_remove-Holds, put_or_remove-SameElsewhere,
  put_or_remove-aof,
}
use mudis.Prelude.Int.{ℤ, pos, negsuc, sub64, max_int, ◌≤ℤ◌}
use mudis.Prelude.{
  ℕ, zero, suc, ◌-◌, ◌<◌, min, Bytes, List, [], ◌∷◌, ◌++◌, some, ok, ltb, ◌≡◌, refl, ap, arith, inl,
  inr, if◌then◌else◌, Bool-cases,
}

-- What LREM leaves of the values, and how many it removes: for a count of 0 all values equal to
-- `w`, else that many of them from the front, or from the back for a negative count.
abbrev pub left_by : Bytes → ℤ → List Slice → List Slice × ℕ
left_by w (pos zero) vs =
    (without (λ v. bytes_equals v (some w)) vs, matching (λ v. bytes_equals v (some w)) vs)
left_by w (pos (suc n)) vs = (
  without_first (λ v. bytes_equals v (some w)) (suc n) vs,
  min (suc n) (matching (λ v. bytes_equals v (some w)) vs),
)
left_by w (negsuc n) vs = (
  reverse (without_first (λ v. bytes_equals v (some w)) (suc n) (reverse vs)),
  min (suc n) (matching (λ v. bytes_equals v (some w)) (reverse vs)),
)

left_by_nothing : (w : Bytes) (i : ℤ) → left_by w i [] ≡ ([], 0)
left_by_nothing w (pos zero) = refl
left_by_nothing w (pos (suc n)) = ap (λ m. ([], m)) (omega arith)
left_by_nothing w (negsuc n) = ap (λ m. ([], m)) (omega arith)

negated : (n : ℕ) → n < max_int → sub64 (pos 0) (negsuc n) ≡ pos (suc n)
unfolding sub64
negated n h = ground arith

remove_count-left_by :
    (w : Bytes) (i : ℤ) (l : LinkedList Slice) (vs : List Slice)
    → negsuc (max_int - 1) ≤ℤ i
    → Stands l vs
    → (l' : LinkedList Slice) × (remove_count w i l ≡ ok (l', (left_by w i vs).1))
      × Stands l' (left_by w i vs).0
unfolding remove_count
remove_count-left_by w (pos zero) l vs h s =
    remove_all_by_val-Stands (λ v. bytes_equals v (some w)) l vs s
remove_count-left_by w (pos (suc n)) l vs h s =
    remove_by_val-Stands (λ v. bytes_equals v (some w)) l vs n s
remove_count-left_by w (negsuc n) l vs h s =
    rw (negated n (omega (arith, h)))
      (reverse_remove_by_val-Stands (λ v. bytes_equals v (some w)) l vs n s)

module _ (D : Dict Entity) (db : State D) (k : Bytes) where
  -- LREM, unless its count is the least 64-bit integer, removes the first values that equal its
  -- argument, as many as the count says, the last ones for a negative count, all for 0; it replies
  -- their number, keeps the others in order, changes no other key, and logs its line if it removed
  -- one.
  pub l_rem-left_by :
      (vs : List Slice) (count w : Bytes) (i : ℤ)
      → Holds D db k vs
      → parse_int count ≡ ok i
      → negsuc (max_int - 1) ≤ℤ i
      → (reply_of (exec_l_rem D db (k ∷ count ∷ w ∷ [])) ≡ some (int (pos (left_by w i vs).1)))
        × Holds D (state_of (exec_l_rem D db (k ∷ count ∷ w ∷ []))) k (left_by w i vs).0
        × SameElsewhere D db (state_of (exec_l_rem D db (k ∷ count ∷ w ∷ []))) k
        × ((state_of (exec_l_rem D db (k ∷ count ∷ w ∷ []))).aof ≡ (
            if ltb 0 (left_by w i vs).1
            then db.aof ++ to_cmd_line "lrem" (k ∷ count ∷ w ∷ []) ∷ []
            else db.aof))
  unfolding exec_l_rem
  l_rem-left_by [] count w i h p q =
      let e : exec_l_rem D db (k ∷ count ∷ w ∷ []) ≡ done (int (pos 0)) db =
        rw (exec_l_rem, p, h) refl in
      (
        rw (e, left_by_nothing w i) refl,
        rw (e, left_by_nothing w i) h,
        rw e (λ j. ground arith),
        rw (e, left_by_nothing w i) refl,
      )
  l_rem-left_by (v ∷ vs) count w i (l, e, s) p q =
      let (l', f, t) = remove_count-left_by w i l (v ∷ vs) q s in
      let r =
        Runs-put_or_remove D db k l' (int (pos (left_by w i (v ∷ vs)).1))
          (to_cmd_line "lrem" (k ∷ count ∷ w ∷ [])) (left_by w i (v ∷ vs)).0 t in
      elim (Bool-cases (ltb 0 (left_by w i (v ∷ vs)).1)) [
        | inl some_removed ↦ (
          rw (exec_l_rem, p, e, f) refl,
          rw (exec_l_rem, p, e, f, some_removed) r.holds,
          rw (exec_l_rem, p, e, f, some_removed) r.elsewhere,
          rw (exec_l_rem, p, e, f, some_removed) r.log,
        )
        | inr none_removed ↦ (
          rw (exec_l_rem, p, e, f) refl,
          rw (exec_l_rem, p, e, f, none_removed) (put_or_remove-Holds D db k l' _ t),
          rw (exec_l_rem, p, e, f, none_removed) (put_or_remove-SameElsewhere D db k l'),
          rw (exec_l_rem, p, e, f, none_removed) (put_or_remove-aof D db k l'),
        )
      ]
