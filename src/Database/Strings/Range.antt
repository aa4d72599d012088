-- ===== src/Database/Strings/Range.antt =====
-- The index arithmetic of GETRANGE and of utils.ConvertRange, and the writes of SETRANGE.
pub mod Laws
use mudis.Prelude.Int.{ℤ, pos, negsuc}
use mudis.Prelude.{
  ℕ, suc, ◌+◌, ◌-◌, Bytes, [], ◌∷◌, ◌++◌, Option, none, some, leb, ltb, length, if◌then◌else◌,
  replicate, set,
}

-- The start of a range as a slice index; `none` is out of range.
unfoldable pub start_index : ℕ → ℤ → Option ℕ
start_index size (pos n) = if leb size n then none else some n
start_index size (negsuc n) = if ltb size (suc n) then none else some (size - suc n)

-- The end of a range, which is inclusive, as an exclusive slice index.
unfoldable pub end_index : ℕ → ℤ → Option ℕ
end_index size (pos n) = if ltb n size then some (n + 1) else some size
end_index size (negsuc n) = if ltb size (suc n) then none else some (size - suc n + 1)

-- The tests of `execGetRange` between the value and its slice; `none` is the null reply.
unfoldable pub index_range : ℕ → ℤ → ℤ → Option (ℕ × ℕ)
unfolding start_index end_index
index_range size start stop = elim (start_index size start) [
  | none ↦ none
  | some i ↦ elim (end_index size stop) [
    | none ↦ none
    | some j ↦ if ltb j i then none else some (i, j)
  ]
]

-- A byte outside the string reads as 0.
unfoldable pub overwrite_loop : ℕ → ℕ → Bytes → Bytes → Bytes
overwrite_loop bytes_len idx bytes [] = bytes
overwrite_loop bytes_len idx bytes (c ∷ value) =
    overwrite_loop bytes_len (idx + 1)
      (if leb bytes_len idx then bytes ++ c ∷ [] else set bytes idx c) value

-- The padding with zero bytes up to the offset, and the loop over the value.
unfoldable pub overwrite : Bytes → ℕ → Bytes → Bytes
unfolding overwrite_loop
overwrite bytes offset value =
    let padded =
      (if ltb (length bytes) offset then bytes ++ replicate (offset - length bytes) 0 else bytes) in
    overwrite_loop (length padded) offset padded value
