-- ===== src/LinkedList/Loops.antt =====
-- datastruct/list/linked.go: the methods that walk through a list.
use mudis.LinkedList.{
  Ptr, Node, Heap, LinkedList, Panic, start_out_of_range, stop_out_of_range, endless, load,
  remove_node, add,
}
use mudis.Prelude.Int.{ℤ, pos, negsuc}
use mudis.Prelude.{
  ℕ, zero, suc, ◌+◌, ◌-◌, List, [], ◌∷◌, Option, none, some, Bool, true, false, Result, ok, err,
  ◌>>=◌, if◌then◌else◌, ltb, leb, ◌==◌, ◌&&◌, ◌||◌, set, replicate,
}

-- `removed == count`; a negative count is never reached.
abbrev pub reaches : ℤ → ℕ → Bool
reaches (pos count) removed = removed == count
reaches (negsuc count) removed = false

module _ {A : Type 0} where
  -- A matching node is removed and counted.
  unfoldable pub remove_match : Bool → LinkedList A → ℕ → ℕ → Result Panic (LinkedList A × ℕ)
  unfolding remove_node
  remove_match true l a removed = do l' ← remove_node l a; ok (l', removed + 1)
  remove_match false l a removed = ok (l, removed)

  -- The loops that remove by value, from the node `n` on: `step` leads to the following node, and
  -- `stop` tests the number of nodes removed behind each round.
  unfoldable pub remove_loop :
      (A → Bool)
      → (Node A → Ptr)
      → (ℕ → Bool)
      → ℕ
      → LinkedList A
      → Ptr
      → ℕ
      → Result Panic (LinkedList A × ℕ)
  unfolding load remove_match
  remove_loop same step stop zero l n removed = err endless
  remove_loop same step stop (suc fuel) l none removed = ok (l, removed)
  remove_loop same step stop (suc fuel) l (some a) removed = do
    c ← load l.heap (some a)
    r ← remove_match (same c.val) l a removed
    if stop r.1 then ok r else remove_loop same step stop fuel r.0 (step c) r.1

  -- `same` is `utils.Equals` with the value to remove.
  unfoldable pub remove_all_by_val : (A → Bool) → LinkedList A → Result Panic (LinkedList A × ℕ)
  unfolding remove_loop
  remove_all_by_val same l =
      remove_loop same (λ c. c.next) (λ removed. false) (l.size + 1) l l.first 0

  unfoldable pub remove_by_val : (A → Bool) → LinkedList A → ℤ → Result Panic (LinkedList A × ℕ)
  unfolding remove_loop
  remove_by_val same l count =
      remove_loop same (λ c. c.next) (reaches count) (l.size + 1) l l.first 0

  unfoldable pub reverse_remove_by_val :
      (A → Bool) → LinkedList A → ℤ → Result Panic (LinkedList A × ℕ)
  unfolding remove_loop
  reverse_remove_by_val same l count =
      remove_loop same (λ c. c.prev) (reaches count) (l.size + 1) l l.last 0

  -- A consumer keeps a state, and answers whether to go on.
  for_each_loop {ℓ} :
      {S : Type ℓ} → (ℕ → A → S → S × Bool) → Heap A → ℕ → Ptr → ℕ → S → Result Panic S
  unfolding load
  for_each_loop consumer h zero n i s = err endless
  for_each_loop consumer h (suc fuel) none i s = ok s
  for_each_loop consumer h (suc fuel) (some a) i s = do
    c ← load h (some a)
    let r = consumer i c.val s
    if r.1 then for_each_loop consumer h fuel c.next (i + 1) r.0 else ok r.0

  unfoldable pub for_each {ℓ} :
      {S : Type ℓ} → (ℕ → A → S → S × Bool) → LinkedList A → S → Result Panic S
  unfolding for_each_loop
  for_each consumer l s = for_each_loop consumer l.heap (l.size + 1) l.first 0 s

  -- The loop of `Range` writes the values between `start` and `stop` at `at` and behind it.
  unfoldable pub range_loop :
      ℕ → ℕ → Heap A → ℕ → Ptr → ℕ → ℕ → List (Option A) → Result Panic (List (Option A))
  unfolding load
  range_loop start stop h zero n i at slice = err endless
  range_loop start stop h (suc fuel) none i at slice = ok slice
  range_loop start stop h (suc fuel) (some a) i at slice = do
    c ← load h (some a)
    if leb start i && ltb i stop
        then range_loop start stop h fuel c.next (i + 1) (at + 1) (set slice at (some c.val))
        else if leb stop i
        then ok slice
        else range_loop start stop h fuel c.next (i + 1) at slice

  -- The slice is made of nil interfaces.
  unfoldable pub range : LinkedList A → ℤ → ℤ → Result Panic (List (Option A))
  unfolding range_loop
  range l (negsuc start) stop = err start_out_of_range
  range l (pos start) (negsuc stop) =
      if leb l.size start then err start_out_of_range else err stop_out_of_range
  range l (pos start) (pos stop) =
      if leb l.size start
      then err start_out_of_range
      else if ltb stop start || ltb l.size stop
      then err stop_out_of_range
      else range_loop start stop l.heap (l.size + 1) l.first 0 0 (replicate (stop - start) none)

  -- `Make`
  unfoldable pub make : LinkedList A → List A → Result Panic (LinkedList A)
  unfolding add
  make l [] = ok l
  make l (v ∷ vals) = do l' ← add l v; make l' vals
