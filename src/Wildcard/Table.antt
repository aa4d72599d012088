-- ===== src/Wildcard/Table.antt =====
-- The table of `IsMatch` against matching from the end.
use mudis.Wildcard.{Item, is_all, accepts, first_row, next_cells, rows, last_cell, is_match}
use mudis.Prelude.{
  reverse_onto, ℕ, Bytes, List, [], ◌∷◌, Bool, true, false, ◌&&◌, ◌||◌, if◌then◌else◌, ◌≡◌, refl,
  arith, sym,
}

-- Whether a pattern matches a text, both read from their ends: a star takes one more byte or none,
-- any other item takes one byte that it accepts.
abbrev pub matches : List Item → Bytes → Bool
matches [] [] = true
matches [] (c ∷ s) = false
matches (i ∷ p) [] = is_all i && matches p []
matches (i ∷ p) (c ∷ s) =
    let more = matches (i ∷ p) s in
    let skip = matches p (c ∷ s) in
    let one = matches p s in if is_all i then more || skip else accepts i c && one

-- The cells behind the one of the items `p`, in the row of the text `s`.
abbrev cells : List Item → List Item → Bytes → List Bool
cells p [] s = []
cells p (i ∷ items) s = matches (i ∷ p) s ∷ cells (i ∷ p) items s

cons_eq : {v w : Bool} {xs ys : List Bool} → v ≡ w → xs ≡ ys → v ∷ xs ≡ w ∷ ys
cons_eq e f = rw (e, f)

first_row-cells :
    (p items : List Item) (v : Bool) → v ≡ matches p [] → first_row v items ≡ cells p items []
unfolding first_row
first_row-cells p [] v h = refl
first_row-cells p (i ∷ items) v h =
    let e : (v && is_all i) ≡ matches (i ∷ p) [] = ground arith in
    cons_eq e (first_row-cells (i ∷ p) items (v && is_all i) e)

next_cells-cells :
    (c : ℕ) (p items : List Item) (s : Bytes) (v : Bool)
    → v ≡ matches p (c ∷ s)
    → next_cells c v (matches p s ∷ cells p items s) items ≡ cells p items (c ∷ s)
unfolding next_cells
next_cells-cells c p [] s v h = refl
next_cells-cells c p (i ∷ items) s v h =
    let w : Bool = if is_all i then matches (i ∷ p) s || v else matches p s && accepts i c in
    let e : w ≡ matches (i ∷ p) (c ∷ s) = ground arith in
    cons_eq e (next_cells-cells c (i ∷ p) items s w e)

rows-cells :
    (items : List Item) (t s : Bytes)
    → rows items (matches [] s ∷ cells [] items s) t
      ≡ matches [] (reverse_onto t s) ∷ cells [] items (reverse_onto t s)
unfolding rows
rows-cells items [] s = refl
rows-cells items (c ∷ t) s =
    rw (next_cells-cells c [] items s false refl) (rows-cells items t (c ∷ s))

last_cell-cells :
    (p items : List Item) (s : Bytes)
    → last_cell (matches p s) (cells p items s) ≡ matches (reverse_onto items p) s
unfolding last_cell
last_cell-cells p [] s = refl
last_cell-cells p (i ∷ items) s = last_cell-cells (i ∷ p) items s

no_items : (s : Bytes) (c : ℕ) (t : Bytes) → matches [] (reverse_onto s (c ∷ t)) ≡ false
no_items [] c t = refl
no_items (d ∷ s) c t = no_items s d (c ∷ t)

-- The table of `IsMatch` decides whether the items match the text: read from their ends, a star
-- takes any number of bytes, and any other item takes one byte that it accepts.
pub is_match-matches :
    (items : List Item) (s : Bytes)
    → is_match items s ≡ matches (reverse_onto items []) (reverse_onto s [])
unfolding is_match last_cell
is_match-matches [] [] = refl
is_match-matches [] (c ∷ s) = sym (no_items s c [])
is_match-matches (i ∷ items) s =
    rw (first_row-cells [] (i ∷ items) true refl, rows-cells (i ∷ items) s [])
      (last_cell-cells [] (i ∷ items) (reverse_onto s []))
