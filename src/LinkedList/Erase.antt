-- ===== src/LinkedList/Erase.antt =====
-- The loops that remove by value, as the removal of values.
use mudis.LinkedList.{Ptr, Node, LinkedList}
use mudis.LinkedList.Loops.{remove_match, remove_loop}
use mudis.LinkedList.Seg.{Cells, head_ptr, last_ptr, IsList, values, last_ptr-append}
use mudis.LinkedList.Links.{load_lem, Parts, IsList-Parts}
use mudis.LinkedList.Nodes.{remove_node-IsList}
use mudis.Prelude.{
  reverse_onto, reverse_onto_append, ℕ, zero, suc, ◌+◌, ◌<◌, List, [], ◌∷◌, ◌++◌, Bool, none, some,
  length, ◌≡◌, refl, ap, arith, ok, append_assoc, if◌then◌else◌, Bool-cases, inl, inr,
}

-- The values without those that match, up to the one where `stop` says so, and the number removed.
abbrev pub erase : {A : Type 0} → (A → Bool) → (ℕ → Bool) → ℕ → List A → List A × ℕ
erase same stop removed [] = ([], removed)
erase same stop removed (v ∷ vs) =
    let n = if same v then removed + 1 else removed in
    let rest = erase same stop n vs in
    if stop n
    then (if same v then (vs, n) else (v ∷ vs, n))
    else (if same v then rest else (v ∷ rest.0, rest.1))

module _ {A : Type 0} (same : A → Bool) (stop : ℕ → Bool) where
  -- What a loop from the nodes `ys` on leaves behind the nodes `xs`.
  abbrev pub Erased : LinkedList A → Cells A → Cells A → ℕ → ℕ → Ptr → (Node A → Ptr) → Type 0
  Erased l xs ys fuel removed n step =
      (l' : LinkedList A) × (zs : Cells A) × (m : ℕ) × (remove_loop same step stop fuel l n removed
        ≡ ok (l', m))
      × IsList l' (xs ++ zs)
      × ((values zs, m) ≡ erase same stop removed (values ys))

  pub remove_loop-erase :
      (ys xs : Cells A) (l : LinkedList A) (fuel removed : ℕ)
      → IsList l (xs ++ ys)
      → length ys < fuel
      → Erased l xs ys fuel removed (head_ptr ys none) (λ c. c.next)
  unfolding remove_loop remove_match
  remove_loop-erase ys xs l zero removed is h = absurd (omega arith)
  remove_loop-erase [] xs l (suc fuel) removed is h = (l, [], removed, refl, is, refl)
  remove_loop-erase ((a, v) ∷ ys) xs l (suc fuel) removed is h =
      let p : Parts l xs a v ys = IsList-Parts l xs a v ys is in
      elim (Bool-cases (same v)) [
        | inl hit ↦
            let (l₁, e, is₁, n) = remove_node-IsList l xs a v ys is in
            elim (Bool-cases (stop (removed + 1))) [
              | inl done ↦ (
                l₁,
                ys,
                removed + 1,
                rw (load_lem l.heap a _ p.node, hit, e, done) refl,
                is₁,
                rw (hit, done) refl,
              )
              | inr more ↦
                  let (l₂, zs, m, f, is₂, g) =
                    remove_loop-erase ys xs l₁ fuel (removed + 1) is₁ (omega arith) in
                  (
                    l₂,
                    zs,
                    m,
                    rw (load_lem l.heap a _ p.node, hit, e, more) f,
                    is₂,
                    rw (hit, more) g,
                  )
            ]
        | inr miss ↦ elim (Bool-cases (stop removed)) [
          | inl done ↦ (
            l,
            (a, v) ∷ ys,
            removed,
            rw (load_lem l.heap a _ p.node, miss, done) refl,
            is,
            rw (miss, done) refl,
          )
          | inr more ↦
              let (l₂, zs, m, f, is₂, g) =
                remove_loop-erase ys (xs ++ (a, v) ∷ []) l fuel removed
                  (rw (append_assoc xs ((a, v) ∷ []) ys) is) (omega arith) in
              (
                l₂,
                (a, v) ∷ zs,
                m,
                rw (load_lem l.heap a _ p.node, miss, more) f,
                rw append_assoc at is₂,
                rw (miss, more) (ap (λ r. (v ∷ r.0, r.1)) g),
              )
        ]
      ]

  pub last_ptr-reverse_onto : (rs : Cells A) → last_ptr none (reverse_onto rs []) ≡ head_ptr rs none
  last_ptr-reverse_onto [] = refl
  last_ptr-reverse_onto (c ∷ rs) =
      rw (reverse_onto_append rs (c ∷ []), last_ptr-append none (reverse_onto rs []) (c ∷ [])) refl

  -- The same from the other end: the nodes `rs` stand before `ys`, read backwards.
  pub remove_loop_back-erase :
      (rs ys : Cells A) (l : LinkedList A) (fuel removed : ℕ)
      → IsList l (reverse_onto rs ys)
      → length rs < fuel
      → (l' : LinkedList A) × (zs : Cells A) × (m : ℕ) × (remove_loop same
            (λ c. c.prev)
            stop
            fuel
            l
            (head_ptr rs none)
            removed
          ≡ ok (l', m))
        × IsList l' (reverse_onto zs ys)
        × ((values zs, m) ≡ erase same stop removed (values rs))
  unfolding remove_loop remove_match
  remove_loop_back-erase rs ys l zero removed is h = absurd (omega arith)
  remove_loop_back-erase [] ys l (suc fuel) removed is h = (l, [], removed, refl, is, refl)
  remove_loop_back-erase ((a, v) ∷ rs) ys l (suc fuel) removed is h =
      let xs : Cells A = reverse_onto rs [] in
      let is' : IsList l (xs ++ (a, v) ∷ ys) = rw (reverse_onto_append rs ((a, v) ∷ ys)) at is in
      let n : l.heap a
          ≡ some (record { val = v; prev = head_ptr rs none; next = head_ptr ys none }) =
        rw (last_ptr-reverse_onto rs) at ((IsList-Parts l xs a v ys is').node) in
      elim (Bool-cases (same v)) [
        | inl hit ↦
            let (l₁, e, is₁, _) = remove_node-IsList l xs a v ys is' in
            let is₂ : IsList l₁ (reverse_onto rs ys) = rw (← reverse_onto_append rs ys) at is₁ in
            elim (Bool-cases (stop (removed + 1))) [
              | inl done ↦ (
                l₁,
                rs,
                removed + 1,
                rw (load_lem l.heap a _ n, hit, e, done) refl,
                is₂,
                rw (hit, done) refl,
              )
              | inr more ↦
                  let (l₂, zs, m, f, is₃, g) =
                    remove_loop_back-erase rs ys l₁ fuel (removed + 1) is₂ (omega arith) in
                  (l₂, zs, m, rw (load_lem l.heap a _ n, hit, e, more) f, is₃, rw (hit, more) g)
            ]
        | inr miss ↦ elim (Bool-cases (stop removed)) [
          | inl done ↦ (
            l,
            (a, v) ∷ rs,
            removed,
            rw (load_lem l.heap a _ n, miss, done) refl,
            is,
            rw (miss, done) refl,
          )
          | inr more ↦
              let (l₂, zs, m, f, is₂, g) =
                remove_loop_back-erase rs ((a, v) ∷ ys) l fuel removed is (omega arith) in
              (
                l₂,
                (a, v) ∷ zs,
                m,
                rw (load_lem l.heap a _ n, miss, more) f,
                is₂,
                rw (miss, more) (ap (λ r. (v ∷ r.0, r.1)) g),
              )
        ]
      ]
