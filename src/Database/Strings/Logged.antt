-- ===== src/Database/Strings/Logged.antt =====
-- database/string.go: what the commands on strings hand to the log.
use mudis.Database.Recorded.{Recorded}
use mudis.Dict.{Dict}
use mudis.Strconv.{NumError}
use mudis.Reply.{wrong_type_err}
use mudis.Database.{
  Entity, string, list, hash_set, State, add_aof, get_entity, put_entity, put_if_absent,
  put_if_exists,
}
use mudis.Database.Strings.{
  exec_get, exec_set, exec_set_nx, exec_m_set, exec_m_get, exec_m_set_nx, exec_str_len, exec_append,
  exec_set_range, exec_get_range, get_as_string, as_string, store_by, put_all, any_exists,
  set_range, is_even, pairs,
}
use mudis.Prelude.{
  Bytes, codes, List, [], ◌∷◌, ◌++◌, Option, none, some, ok, err, ◌≡◌, ◌⊎◌, inl, inr, refl, ap,
  arith, Bool-cases,
}

as_string-cases :
    (e : Option Entity)
    → (as_string e ≡ err wrong_type_err) ⊎ ((s : Option Bytes) × (as_string e ≡ ok s))
unfolding as_string
as_string-cases none = inr (_, refl)
as_string-cases (some (string s)) = inr (_, refl)
as_string-cases (some (list l)) = inl refl
as_string-cases (some (hash_set s)) = inl refl

module _ (D : Dict Entity) (db : State D) where
  -- The test of the type fails with one error.
  pub get_as_string-cases :
      (key : Bytes)
      → (get_as_string D db key ≡ err wrong_type_err)
        ⊎ ((s : Option Bytes) × (get_as_string D db key ≡ ok s))
  unfolding get_as_string
  get_as_string-cases key = as_string-cases (get_entity D db key)

  pub get-Recorded : (args : List Bytes) → Recorded (codes "get") args db (exec_get D db args)
  unfolding exec_get
  get-Recorded [] = ground arith
  get-Recorded (key ∷ args) = elim (get_as_string-cases key) [
    | inl e ↦ ground arith
    | inr (s, e) ↦ ground arith
  ]

  pub set-Recorded : (args : List Bytes) → Recorded (codes "set") args db (exec_set D db args)
  unfolding exec_set add_aof store_by put_entity put_if_absent put_if_exists
  set-Recorded args = ground arith

  pub set_nx-Recorded :
      (args : List Bytes) → Recorded (codes "setnx") args db (exec_set_nx D db args)
  unfolding exec_set_nx add_aof
  set_nx-Recorded args = ground arith

  pub put_all-aof : (ps : List (Bytes × Bytes)) (s : State D) → (put_all D s ps).aof ≡ s.aof
  unfolding put_all put_entity
  put_all-aof [] s = refl
  put_all-aof ((k, v) ∷ ps) s = put_all-aof ps (put_entity D s k (string (some v)))

  pub m_set-Recorded : (args : List Bytes) → Recorded (codes "mset") args db (exec_m_set D db args)
  unfolding exec_m_set add_aof
  m_set-Recorded args = elim (Bool-cases (is_even args)) [
    | inl e ↦
        rw (exec_m_set, e)
          (inl (ap (λ l. l ++ (codes "mset" ∷ args) ∷ []) (put_all-aof (pairs args) db)), λ e. cc)
    | inr e ↦ rw (exec_m_set, e) (inr refl, λ e. cc)
  ]

  pub m_get-Recorded : (args : List Bytes) → Recorded (codes "mget") args db (exec_m_get D db args)
  unfolding exec_m_get
  m_get-Recorded args = ground arith

  pub m_set_nx-Recorded :
      (args : List Bytes) → Recorded (codes "msetnx") args db (exec_m_set_nx D db args)
  unfolding exec_m_set_nx add_aof
  m_set_nx-Recorded args = elim (Bool-cases (is_even args)) [
    | inl e ↦ elim (Bool-cases (any_exists D db (pairs args))) [
      | inl f ↦ rw (exec_m_set_nx, e, f) (inr refl, λ e. cc)
      | inr f ↦
          rw (exec_m_set_nx, e, f)
            (
              inl (ap (λ l. l ++ (codes "msetnx" ∷ args) ∷ []) (put_all-aof (pairs args) db)),
              λ e. cc,
            )
    ]
    | inr e ↦ rw (exec_m_set_nx, e) (inr refl, λ e. cc)
  ]

  pub str_len-Recorded :
      (args : List Bytes) → Recorded (codes "strlen") args db (exec_str_len D db args)
  unfolding exec_str_len
  str_len-Recorded [] = ground arith
  str_len-Recorded (key ∷ args) = elim (get_as_string-cases key) [
    | inl e ↦ ground arith
    | inr (s, e) ↦ ground arith
  ]

  pub append-Recorded :
      (args : List Bytes) → Recorded (codes "append") args db (exec_append D db args)
  unfolding exec_append add_aof
  append-Recorded [] = ground arith
  append-Recorded (key ∷ []) = ground arith
  append-Recorded (key ∷ value ∷ args) = elim (get_as_string-cases key) [
    | inl e ↦ ground arith
    | inr (s, e) ↦ ground arith
  ]

  module _ (error_text : NumError → Bytes → Bytes) where
    pub set_range-Recorded :
        (args : List Bytes)
        → Recorded (codes "setRange") args db (exec_set_range D error_text db args)
    unfolding exec_set_range set_range add_aof
    set_range-Recorded [] = ground arith
    set_range-Recorded (key ∷ []) = ground arith
    set_range-Recorded (key ∷ offset ∷ []) = ground arith
    set_range-Recorded (key ∷ offset ∷ value ∷ args) = elim (get_as_string-cases key) [
      | inl e ↦ ground arith
      | inr (s, e) ↦ ground arith
    ]

    pub get_range-Recorded :
        (args : List Bytes)
        → Recorded (codes "getrange") args db (exec_get_range D error_text db args)
    unfolding exec_get_range
    get_range-Recorded [] = ground arith
    get_range-Recorded (key ∷ []) = ground arith
    get_range-Recorded (key ∷ start ∷ []) = ground arith
    get_range-Recorded (key ∷ start ∷ stop ∷ args) = elim (get_as_string-cases key) [
      | inl e ↦ ground arith
      | inr (s, e) ↦ ground arith
    ]
