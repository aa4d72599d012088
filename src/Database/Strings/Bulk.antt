-- ===== src/Database/Strings/Bulk.antt =====
-- MSET, MSETNX and MGET: many keys at once.
use mudis.Prelude.Int.{pos}
use mudis.Dict.{Dict, bound}
use mudis.Reply.{ok_reply, int, syntax_err}
use mudis.Database.{
  Entity, string, done, reply_of, state_of, add_aof, State, get_entity, put_entity,
}
use mudis.Database.Strings.Logged.{put_all-aof}
use mudis.Database.Strings.{is_even, pairs, put_all, any_exists, exec_m_set, exec_m_set_nx}
use mudis.Prelude.{
  ℕ, zero, suc, ◌+◌, ◌*◌, ◌/◌, ◌==◌, get_or, not, codes, ◌++◌, Option-cases, inr, inl, Bool-cases,
  Bytes, List, [], ◌∷◌, Option, none, some, length, if◌then◌else◌, beq, ◌≡◌, ◌∙◌, ap, true, false,
  refl, arith, ◌%◌,
}

-- The value of the last pair with the key, if there is one.
abbrev pub last_value : Bytes → List (Bytes × Bytes) → Option Bytes
last_value j [] = none
last_value j ((k, v) ∷ rest) = elim (last_value j rest) [
  | some w ↦ some w
  | none ↦ if beq k j then some v else none
]

-- What the key holds after the pairs were written one after the other.
abbrev pub written : Option Bytes → Option Entity → Option Entity
written (some v) e = some (string (some v))
written none e = e

-- The keys are the arguments at even places, and each value stands behind its key; the first `n`
-- pairs are looked through from the last one.
abbrev pub value_at : List Bytes → Bytes → ℕ → Option Bytes
value_at args j zero = none
value_at args j (suc n) =
    if beq (get_or args (2 * n) []) j then some (get_or args (2 * n + 1) []) else value_at args j n

key_behind : (n : ℕ) → 2 * suc n ≡ suc (suc (2 * n))
key_behind n = omega arith

value_behind : (n : ℕ) → suc (suc (2 * n)) + 1 ≡ suc (suc (2 * n + 1))
value_behind n = omega arith

half_behind : (n : ℕ) → suc (suc n) / 2 ≡ suc (n / 2)
half_behind n = omega arith

value_at-cons :
    (k v : Bytes) (args : List Bytes) (j : Bytes) (n : ℕ)
    → value_at (k ∷ v ∷ args) j (suc n)
      ≡ (elim (value_at args j n) [ some w ↦ some w | none ↦ if beq k j then some v else none ])
value_at-cons k v args j zero = refl
value_at-cons k v args j (suc n) = elim (Bool-cases (beq (get_or args (2 * n) []) j)) [
  | inl e ↦ rw (key_behind n, value_behind n, e) refl
  | inr e ↦ rw (key_behind n, value_behind n, e) (value_at-cons k v args j n)
]

value_at-pairs :
    (args : List Bytes) (j : Bytes) → value_at args j (length args / 2) ≡ last_value j (pairs args)
unfolding pairs
value_at-pairs [] j = refl
value_at-pairs (k ∷ []) j = refl
value_at-pairs (k ∷ v ∷ args) j =
    rw (half_behind (length args))
      (value_at-cons k v args j (length args / 2) ∙ rw (value_at-pairs args j) refl)

module _ (D : Dict Entity) where
  get_entity-put_all :
      (db : State D) (kvs : List (Bytes × Bytes)) (j : Bytes)
      → get_entity D (put_all D db kvs) j ≡ written (last_value j kvs) (get_entity D db j)
  unfolding put_all get_entity put_entity
  get_entity-put_all db [] j = refl
  get_entity-put_all db ((k, v) ∷ rest) j = ground (
    arith,
    get_entity-put_all (put_entity D db k (string (some v))) rest j,
    D.get-put db.contents k j (string (some v)),
  )

  -- How many of the first `n` keys are bound.
  abbrev pub count_bound : State D → List Bytes → ℕ → ℕ
  count_bound db args zero = 0
  count_bound db args (suc n) =
      bound (get_entity D db (get_or args (2 * n) [])) + count_bound db args n

  count_bound-cons :
      (db : State D) (k v : Bytes) (args : List Bytes) (n : ℕ)
      → count_bound db (k ∷ v ∷ args) (suc n) ≡ bound (get_entity D db k) + count_bound db args n
  count_bound-cons db k v args zero = refl
  count_bound-cons db k v args (suc n) =
      rw (key_behind n) (omega (arith, count_bound-cons db k v args n))

  any_exists-count_bound :
      (db : State D) (args : List Bytes)
      → any_exists D db (pairs args) ≡ not (count_bound db args (length args / 2) == 0)
  unfolding any_exists pairs
  any_exists-count_bound db [] = refl
  any_exists-count_bound db (k ∷ []) = refl
  any_exists-count_bound db (k ∷ v ∷ args) =
      rw (half_behind (length args), count_bound-cons db k v args (length args / 2))
        (elim (Option-cases (get_entity D db k)) [
          | inl e ↦
              let zero_add : (n : ℕ) → 0 + n ≡ n = λ n. omega arith in
              rw (any_exists, e, zero_add) (any_exists-count_bound db args)
          | inr (w, e) ↦
              let some_bound : (n : ℕ) → (1 + n == 0) ≡ false = λ n. ground arith in
              rw (any_exists, e, some_bound) refl
        ])

  -- MSET of an even number of arguments writes every pair, the last one of a key counting, and
  -- leaves the other keys alone.
  pub get_entity-m_set :
      (db : State D) (args : List Bytes) (j : Bytes)
      → length args % 2 ≡ 0
      → (reply_of (exec_m_set D db args) ≡ some ok_reply)
        × (get_entity D (state_of (exec_m_set D db args)) j
            ≡ written (last_value j (pairs args)) (get_entity D db j))
  unfolding exec_m_set add_aof get_entity
  get_entity-m_set db args j h = ground (arith, get_entity-put_all db (pairs args) j)

  -- MSETNX of an even number of arguments is all or nothing: the arguments at even places are the
  -- keys. If some of them is bound it replies 0, no key changes and nothing is logged. Otherwise it
  -- replies 1, logs its line, and each key holds the argument behind its last occurrence.
  pub m_set_nx_all_or_nothing :
      (db : State D) (args : List Bytes) (j : Bytes)
      → length args % 2 ≡ 0
      → let unbound = count_bound db args (length args / 2) == 0 in
        let out = exec_m_set_nx D db args in
        (reply_of out ≡ some (int (pos (if unbound then 1 else 0))))
        × (get_entity D (state_of out) j ≡ (
            if unbound
            then written (value_at args j (length args / 2)) (get_entity D db j)
            else get_entity D db j))
        × ((state_of out).aof
            ≡ (if unbound then db.aof ++ (codes "msetnx" ∷ args) ∷ [] else db.aof))
  unfolding exec_m_set_nx add_aof get_entity
  m_set_nx_all_or_nothing db args j h =
      let even : is_even args ≡ true = unfold is_even in ground arith in
      elim (Bool-cases (count_bound db args (length args / 2) == 0)) [
        | inl e ↦
            let f : any_exists D db (pairs args) ≡ false =
              any_exists-count_bound db args ∙ ap not e in
            rw (exec_m_set_nx, even, f, e)
              (
                refl,
                rw (value_at-pairs args j) (get_entity-put_all db (pairs args) j),
                ap (λ l. l ++ (codes "msetnx" ∷ args) ∷ []) (put_all-aof D db (pairs args) db),
              )
        | inr e ↦
            let f : any_exists D db (pairs args) ≡ true =
              any_exists-count_bound db args ∙ ap not e in
            rw (exec_m_set_nx, even, f, e) (refl, refl, refl)
      ]

  -- MSET and MSETNX of an odd number of arguments are refused and change nothing.
  pub odd_refused :
      (db : State D) (args : List Bytes)
      → length args % 2 ≡ 1
      → (exec_m_set D db args ≡ done syntax_err db) × (exec_m_set_nx D db args ≡ done syntax_err db)
  unfolding exec_m_set exec_m_set_nx
  odd_refused db args h = ground arith
