-- ===== src/Tests/Nodes.antt =====
-- The linked list on a list of three nodes.
use mudis.LinkedList.{LinkedList, Node, insert}
use mudis.LinkedList.Loops.{reverse_remove_by_val}
use mudis.LinkedList.Seg.{Stands}
use mudis.LinkedList.Values.{insert-Stands}
use mudis.LinkedList.Removal.{without_first, matching, reverse_remove_by_val-Stands}
use mudis.Prelude.Int.{pos}
use mudis.Prelude.{
  ℕ, min, [], ◌∷◌, none, some, ◌==◌, length, ok, reverse_onto, ◌≡◌, refl, arith, Option,
  if◌then◌else◌,
}

abbrev node : ℕ → Option (Node ℕ)
node i =
    if i == 0
    then some (record { val = 7; prev = none; next = some 1 })
    else if i == 1
    then some (record { val = 8; prev = some 0; next = some 2 })
    else if i == 2
    then some (record { val = 7; prev = some 1; next = none })
    else none

abbrev three : LinkedList ℕ
three = record { first = some 0; last = some 2; size = 3; heap = node; fresh = 3 }

three-Stands : Stands three (7 ∷ 8 ∷ 7 ∷ [])
three-Stands = (
  (0, 7) ∷ (1, 8) ∷ (2, 7) ∷ [],
  record {
    chain = (refl, (refl, (refl, tt)));
    first = refl;
    last = refl;
    size = refl;
    distinct = (refl, (refl, (refl, tt)));
    below = (omega arith, (omega arith, (omega arith, tt)));
  },
  refl,
)

insert-Stands_example :
    (l' : LinkedList ℕ) × (insert three (pos (length {A = ℕ} (7 ∷ []))) 9 ≡ ok l')
    × Stands l' (7 ∷ 9 ∷ 8 ∷ 7 ∷ [])
insert-Stands_example = insert-Stands three (7 ∷ []) 9 (8 ∷ 7 ∷ []) three-Stands

reverse_remove_by_val-Stands_example :
    (l' : LinkedList ℕ) × (reverse_remove_by_val (λ v. v == 7) three (pos 1)
      ≡ ok (l', min 1 (matching (λ v. v == 7) (reverse_onto (7 ∷ 8 ∷ 7 ∷ []) []))))
    × Stands l' (reverse_onto (without_first (λ v. v == 7) 1 (reverse_onto (7 ∷ 8 ∷ 7 ∷ []) [])) [])
reverse_remove_by_val-Stands_example =
    reverse_remove_by_val-Stands (λ v. v == 7) three (7 ∷ 8 ∷ 7 ∷ []) 0 three-Stands
