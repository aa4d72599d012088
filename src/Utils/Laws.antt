-- ===== src/Utils/Laws.antt =====
-- `BytesEquals` decides equality, and `ConvertRange` is the arithmetic of GETRANGE.
use mudis.Prelude.Int.{neg_part, pos_part, ℤ, pos, negsuc, add64, sub64, InRange, max_int}
use mudis.Reply.{Slice}
use mudis.Utils.{same_bytes, bytes_equals, convert_range, convert_end, in_order, out_of_bounds}
use mudis.Database.Strings.Range.{index_range, start_index, end_index}
use mudis.Prelude.{
  zero, ltb, ℕ, suc, ◌≤◌, ◌+◌, ◌-◌, ◌<◌, Bytes, [], ◌∷◌, Option, none, some, true, length,
  if◌then◌else◌, ◌≡◌, ◌↔◌, refl, arith,
}

same_bytes→eq : (a b : Bytes) → length a ≡ length b → same_bytes a b ≡ true → a ≡ b
unfolding same_bytes
same_bytes→eq [] [] l h = refl
same_bytes→eq [] (y ∷ ys) l h = absurd (omega arith)
same_bytes→eq (x ∷ xs) [] l h = absurd (omega arith)
same_bytes→eq (x ∷ xs) (y ∷ ys) l h = ground (arith, same_bytes→eq xs ys)

same_bytes_refl : (a : Bytes) → same_bytes a a ≡ true
unfolding same_bytes
same_bytes_refl [] = refl
same_bytes_refl (x ∷ xs) = ground (arith, same_bytes_refl xs)

-- `BytesEquals` answers true exactly for equal slices, where nil and the empty slice differ.
pub bytes_equals_iff : (a b : Slice) → (bytes_equals a b ≡ true) ↔ (a ≡ b)
unfolding bytes_equals
bytes_equals_iff none none = (λ h. refl, λ h. refl)
bytes_equals_iff none (some b) = (λ h. cc, λ h. cc)
bytes_equals_iff (some a) none = (λ h. cc, λ h. cc)
bytes_equals_iff (some a) (some b) =
    (λ h. ground (arith, same_bytes→eq a b), λ h. ground (arith, same_bytes_refl a))

abbrev pub as_pair : Option (ℕ × ℕ) → ℤ × ℤ
as_pair none = out_of_bounds
as_pair (some (i, j)) = (pos i, pos j)

neg_parts :
    (n : ℕ)
    → n ≤ max_int
    → (pos_part (sub64 (pos 0) (pos n)) ≡ 0) × (neg_part (sub64 (pos 0) (pos n)) ≡ n)
unfolding sub64
neg_parts zero h = (refl, refl)
neg_parts (suc n) h = ground arith

from_end :
    (size n : ℕ) → n < size → size ≤ max_int → add64 (pos size) (negsuc n) ≡ pos (size - suc n)
unfolding add64
from_end size n h k = ground arith

plus_one : (a : ℕ) → a < max_int → add64 (pos a) (pos 1) ≡ pos (a + 1)
unfolding add64
plus_one a h = ground arith

end_agrees :
    (size i : ℕ) (end : ℤ)
    → size ≤ max_int
    → i < size
    → InRange end
    → convert_end (pos i) end (pos size)
      ≡ as_pair (elim (end_index size end) [
        | none ↦ none
        | some j ↦ if ltb j i then none else some (i, j)
      ])
unfolding convert_end in_order end_index
end_agrees size i (pos n) h k l = ground (arith, neg_parts size h, plus_one n)
end_agrees size i (negsuc n) h k l =
    ground (arith, neg_parts size h, from_end size n, plus_one (size - suc n))

-- For every size and every pair of 64-bit indices `ConvertRange` and the tests of GETRANGE agree.
pub convert_range-index_range :
    (size : ℕ) (start end : ℤ)
    → size ≤ max_int
    → InRange start
    → InRange end
    → convert_range start end (pos size) ≡ as_pair (index_range size start end)
convert_range-index_range size (pos n) end h k l =
    unfold convert_range index_range start_index in
    ground (arith, neg_parts size h, end_agrees size n end)
convert_range-index_range size (negsuc n) end h k l =
    unfold convert_range index_range start_index in
    ground (arith, neg_parts size h, from_end size n, end_agrees size (size - suc n) end)
