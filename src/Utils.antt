-- ===== src/Utils.antt =====
-- lib/utils/utils.go: comparisons of byte slices, and the conversion of a range. `ToCmdLine2` and
-- `ToCmdLine3` are `to_cmd_line` of Database.antt.
pub mod Laws
use mudis.Prelude.Int.{ℤ, pos, negsuc, ltb_ℤ, add64, sub64}
use mudis.Reply.{Slice}
use mudis.Prelude.{
  ℕ, Bytes, List, [], ◌∷◌, Option, none, some, Bool, true, false, ◌==◌, length, if◌then◌else◌, beq,
  not, map,
}

-- The loop of `BytesEquals` over two slices of the same length.
same_bytes : Bytes → Bytes → Bool
same_bytes (x ∷ xs) (y ∷ ys) = let rest = same_bytes xs ys in if x == y then rest else false
same_bytes _ _ = true

-- A nil slice equals only a nil slice.
unfoldable pub bytes_equals : Slice → Slice → Bool
unfolding same_bytes
bytes_equals none none = true
bytes_equals none (some _) = false
bytes_equals (some _) none = false
bytes_equals (some a) (some b) = if length a == length b then same_bytes a b else false

-- (-1, -1)
abbrev pub out_of_bounds : ℤ × ℤ
out_of_bounds = (negsuc 0, negsuc 0)

in_order : ℤ → ℤ → ℤ × ℤ
in_order start end = if ltb_ℤ end start then out_of_bounds else (start, end)

convert_end : ℤ → ℤ → ℤ → ℤ × ℤ
convert_end start end size =
    if ltb_ℤ end (sub64 (pos 0) size)
    then out_of_bounds
    else if ltb_ℤ end (pos 0)
    then in_order start (add64 (add64 size end) (pos 1))
    else if ltb_ℤ end size
    then in_order start (add64 end (pos 1))
    else in_order start size

unfoldable pub convert_range : ℤ → ℤ → ℤ → ℤ × ℤ
unfolding in_order convert_end
convert_range start end size =
    if ltb_ℤ start (sub64 (pos 0) size)
    then out_of_bounds
    else if ltb_ℤ start (pos 0)
    then convert_end (add64 size start) end size
    else if not (ltb_ℤ start size)
    then out_of_bounds
    else convert_end start end size
