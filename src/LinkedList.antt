-- ===== src/LinkedList.antt =====
-- datastruct/list/linked.go: a doubly linked list on its own heap of nodes. No node is shared between
-- lists, so a list is its header with the heap that its pointers lead into. Methods are called on
-- lists that are there: a nil receiver is not modelled.
pub mod Loops
pub mod Seg
pub mod Links
pub mod Nodes
pub mod Find
pub mod Values
pub mod Erase
pub mod Removal
pub mod Window
use mudis.Prelude.Int.{ℤ, pos, negsuc}
use mudis.Prelude.{
  ℕ, zero, suc, ◌+◌, ◌-◌, ◌/◌, List, [], ◌∷◌, Option, none, some, Bool, true, false, Result, ok,
  err, ◌>>=◌, if◌then◌else◌, ltb, leb, ◌==◌, ◌&&◌, ◌||◌, set, replicate,
}

-- An address, or nil.
abbrev pub Ptr : Type 0
Ptr = Option ℕ

pub record Node (A : Type 0) : Type 0 where
  pub val : A
  pub prev : Ptr
  pub next : Ptr

abbrev pub Heap : Type 0 → Type 0
Heap A = ℕ → Option (Node A)

-- `fresh` is the address of the next allocation.
pub record LinkedList (A : Type 0) : Type 0 where
  pub first : Ptr
  pub last : Ptr
  pub size : ℕ
  pub heap : Heap A
  pub fresh : ℕ

-- The panics of the code, a nil dereference, and a loop that does not end on its fuel.
pub data Panic : Type 0 where
  index_out_of_bound start_out_of_range stop_out_of_range nil_pointer endless : Panic

module _ {A : Type 0} where
  unfoldable pub write : Heap A → ℕ → Node A → Heap A
  write h a n b = if b == a then some n else h b

  unfoldable pub load : Heap A → Ptr → Result Panic (Node A)
  load h none = err nil_pointer
  load h (some a) = elim (h a) [ none ↦ err nil_pointer | some n ↦ ok n ]

  -- `p.next = q`, `p.prev = q`, `p.val = v`
  unfoldable pub set_next : LinkedList A → ℕ → Ptr → Result Panic (LinkedList A)
  unfolding load write
  set_next l a q = do
    n ← load l.heap (some a)
    ok (record l { heap = write l.heap a (record n { next = q }) })

  unfoldable pub set_prev : LinkedList A → ℕ → Ptr → Result Panic (LinkedList A)
  unfolding load write
  set_prev l a q = do
    n ← load l.heap (some a)
    ok (record l { heap = write l.heap a (record n { prev = q }) })

  unfoldable pub set_val : LinkedList A → ℕ → A → Result Panic (LinkedList A)
  unfolding load write
  set_val l a v = do
    n ← load l.heap (some a)
    ok (record l { heap = write l.heap a (record n { val = v }) })

  -- A new node.
  unfoldable pub alloc : LinkedList A → Node A → LinkedList A
  unfolding write
  alloc l n = record l { heap = write l.heap l.fresh n; fresh = l.fresh + 1 }

  -- A nil `p` stands for the list's own end.
  unfoldable pub link_next : LinkedList A → Ptr → Ptr → Result Panic (LinkedList A)
  unfolding set_next
  link_next l none q = ok (record l { first = q })
  link_next l (some p) q = set_next l p q

  unfoldable pub link_prev : LinkedList A → Ptr → Ptr → Result Panic (LinkedList A)
  unfolding set_prev
  link_prev l none q = ok (record l { last = q })
  link_prev l (some p) q = set_prev l p q

  unfoldable pub empty : LinkedList A
  empty = record { first = none; last = none; size = 0; heap = λ a. none; fresh = 0 }

  -- What `Add` does behind the last node `t`.
  add_behind : LinkedList A → Ptr → A → Result Panic (LinkedList A)
  unfolding alloc set_next
  add_behind l none v =
      let l' = alloc l (record { val = v; prev = none; next = none }) in
      ok (record l' { first = some l.fresh; last = some l.fresh; size = l.size + 1 })
  add_behind l (some t) v = do
    l' ← set_next (alloc l (record { val = v; prev = some t; next = none })) t (some l.fresh)
    ok (record l' { last = some l.fresh; size = l'.size + 1 })

  unfoldable pub add : LinkedList A → A → Result Panic (LinkedList A)
  unfolding add_behind
  add l v = add_behind l l.last v

  -- The two loops of `find`, by the number of their steps.
  unfoldable pub find_next : Heap A → ℕ → Ptr → Result Panic Ptr
  unfolding load
  find_next h zero n = ok n
  find_next h (suc i) n = do c ← load h n; find_next h i c.next

  unfoldable pub find_prev : Heap A → ℕ → Ptr → Result Panic Ptr
  unfolding load
  find_prev h zero n = ok n
  find_prev h (suc i) n = do c ← load h n; find_prev h i c.prev

  unfoldable pub find : LinkedList A → ℕ → Result Panic Ptr
  unfolding find_next find_prev
  find l index =
      if ltb index (l.size / 2)
      then find_next l.heap index l.first
      else find_prev l.heap (l.size - 1 - index) l.last

  unfoldable pub get : LinkedList A → ℤ → Result Panic A
  unfolding find load
  get l (negsuc index) = err index_out_of_bound
  get l (pos index) =
      if leb l.size index
      then err index_out_of_bound
      else do n ← find l index; c ← load l.heap n; ok c.val

  unfoldable pub set_at : LinkedList A → ℤ → A → Result Panic (LinkedList A)
  unfolding find set_val
  set_at l (negsuc index) v = err index_out_of_bound
  set_at l (pos index) v =
      if ltb l.size index
      then err index_out_of_bound
      else do n ← find l index; elim n [ none ↦ err nil_pointer | some a ↦ set_val l a v ]

  -- The node goes in before the pivot.
  unfoldable pub insert_before : LinkedList A → Ptr → A → Result Panic (LinkedList A)
  unfolding load alloc link_next set_prev
  insert_before l none v = err nil_pointer
  insert_before l (some pivot) v = do
    c ← load l.heap (some pivot)
    l₁ ←
        link_next (alloc l (record { val = v; prev = c.prev; next = some pivot })) c.prev
          (some l.fresh)
    l₂ ← set_prev l₁ pivot (some l.fresh)
    ok (record l₂ { size = l₂.size + 1 })

  unfoldable pub insert : LinkedList A → ℤ → A → Result Panic (LinkedList A)
  unfolding find insert_before add
  insert l (negsuc index) v = err index_out_of_bound
  insert l (pos index) v =
      if ltb l.size index
      then err index_out_of_bound
      else if index == l.size
      then add l v
      else do pivot ← find l index; insert_before l pivot v

  -- The links of the removed node are cleared.
  unfoldable pub remove_node : LinkedList A → ℕ → Result Panic (LinkedList A)
  unfolding load link_next link_prev set_next set_prev
  remove_node l a = do
    c ← load l.heap (some a)
    l₁ ← link_next l c.prev c.next
    d ← load l₁.heap (some a)
    l₂ ← link_prev l₁ d.next d.prev
    l₃ ← set_prev l₂ a none
    l₄ ← set_next l₃ a none
    ok (record l₄ { size = l₄.size - 1 })

  -- The node is removed, and its value read.
  unfoldable pub take_node : LinkedList A → Ptr → Result Panic (LinkedList A × A)
  unfolding remove_node load
  take_node l none = err nil_pointer
  take_node l (some a) = do l' ← remove_node l a; c ← load l'.heap (some a); ok (l', c.val)

  unfoldable pub remove : LinkedList A → ℤ → Result Panic (LinkedList A × A)
  unfolding find take_node
  remove l (negsuc index) = err index_out_of_bound
  remove l (pos index) =
      if leb l.size index then err index_out_of_bound else do n ← find l index; take_node l n

  -- `none` is the nil that an empty list returns.
  unfoldable pub remove_last : LinkedList A → Result Panic (LinkedList A × Option A)
  unfolding take_node
  remove_last l = elim l.last [
    | none ↦ ok (l, none)
    | some a ↦ do (l', v) ← take_node l (some a); ok (l', some v)
  ]

  unfoldable pub length : LinkedList A → ℕ
  length l = l.size
