-- ===== src/Standalone/Laws.antt =====
-- A command line works on one database, the selected one.
use mudis.Standalone.{Standalone, Answer, exec, exec_at, exec_select, finish}
use mudis.Database.{CmdLine, CmdTable}
use mudis.Prelude.Int.{ℤ, pos, negsuc}
use mudis.Prelude.{
  ℕ, zero, suc, Bytes, codes, List, [], ◌∷◌, Bool, true, false, ◌==◌, length, set, get_elem?,
  to_lower, beq, ◌≡◌, ◌≢◌, refl, arith, ap, Bool-cases, inl, inr, Option-cases,
}

-- The line is answered by SELECT, or panics, and does not reach a database.
abbrev pub is_select : CmdLine → Bool
is_select [] = true
is_select (name ∷ args) = beq (to_lower name) (codes "select")

pub length-set : {A : Type 0} (xs : List A) (i : ℕ) (x : A) → length (set xs i x) ≡ length xs
length-set [] i x = refl
length-set (y ∷ ys) zero x = refl
length-set (y ∷ ys) (suc i) x = omega (arith, length-set ys i x)

get_elem?-set_other :
    {A : Type 0} (xs : List A) (i j : ℕ) (x : A) → i ≢ j → get_elem? (set xs i x) j ≡ get_elem? xs j
get_elem?-set_other [] i j x h = refl
get_elem?-set_other (y ∷ ys) zero zero x h = absurd (h refl)
get_elem?-set_other (y ∷ ys) zero (suc j) x h = refl
get_elem?-set_other (y ∷ ys) (suc i) zero x h = refl
get_elem?-set_other (y ∷ ys) (suc i) (suc j) x h =
    get_elem?-set_other ys i j x (λ e. h (omega (arith, e)))

module _ {C : Type 0} (append_only : Bool) (table : CmdTable C) (mdb : Standalone C) where
  -- What a call leaves of the databases, other than the one with the index `j`.
  abbrev pub Keeps : Answer C → ℕ → Type 0
  Keeps answer j =
      (length answer.server.db_set ≡ length mdb.db_set)
      × (get_elem? answer.server.db_set j ≡ get_elem? mdb.db_set j)

  pub exec_select-server :
      (c : ℤ) (args : List Bytes) → (exec_select append_only table mdb c args).server ≡ mdb
  unfolding exec_select
  exec_select-server c [] = refl
  exec_select-server c (arg ∷ args) = ground arith

  exec_at-Keeps :
      (c : ℤ) (line : CmdLine) (j : ℕ) → c ≢ pos j → Keeps (exec_at append_only table mdb c line) j
  unfolding exec_at finish
  exec_at-Keeps (negsuc n) line j h = (refl, refl)
  exec_at-Keeps (pos i) line j h = elim (Option-cases (get_elem? mdb.db_set i)) [
    | inl e ↦ (rw (exec_at, e) refl, rw (exec_at, e) refl)
    | inr (db, e) ↦ (
      rw (exec_at, e) (length-set mdb.db_set i _),
      rw (exec_at, e) (get_elem?-set_other mdb.db_set i j _ (λ k. h (ap pos k))),
    )
  ]

  -- A command line changes no database but the selected one, and makes and drops none.
  pub exec-Keeps :
      (c : ℤ) (line : CmdLine) (j : ℕ) → c ≢ pos j → Keeps (exec append_only table mdb c line) j
  unfolding exec
  exec-Keeps c [] j h = (refl, refl)
  exec-Keeps c (name ∷ args) j h = elim (Bool-cases (beq (to_lower name) (codes "select"))) [
    | inl e ↦ elim (Bool-cases (length (name ∷ args) == 2)) [
      | inl f ↦ rw (exec, e, f, exec_select-server c args) (refl, refl)
      | inr f ↦ rw (exec, e, f) (refl, refl)
    ]
    | inr e ↦ rw (exec, e) (exec_at-Keeps c (name ∷ args) j h)
  ]

  exec_at-selected_db :
      (c : ℤ) (line : CmdLine) → (exec_at append_only table mdb c line).selected_db ≡ c
  unfolding exec_at
  exec_at-selected_db (negsuc n) line = refl
  exec_at-selected_db (pos i) line = elim (Option-cases (get_elem? mdb.db_set i)) [
    | inl e ↦ rw (exec_at, e) refl
    | inr (db, e) ↦ rw (exec_at, e) refl
  ]

  -- Only SELECT changes what the client has selected.
  pub exec-selected_db :
      (c : ℤ) (name : Bytes) (args : CmdLine)
      → is_select (name ∷ args) ≡ false
      → (exec append_only table mdb c (name ∷ args)).selected_db ≡ c
  unfolding exec
  exec-selected_db c name args s = rw s (exec_at-selected_db c (name ∷ args))
