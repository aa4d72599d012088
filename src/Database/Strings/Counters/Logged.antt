-- ===== src/Database/Strings/Counters/Logged.antt =====
-- database/string.go: what the counters hand to the log.
use mudis.Database.Recorded.{Recorded}
use mudis.Dict.{Dict}
use mudis.Strconv.{parse_int}
use mudis.Database.{Entity, State, add_aof}
use mudis.Database.Strings.Logged.{get_as_string-cases}
use mudis.Database.Strings.Counters.{
  exec_incr, exec_incr_by, exec_decr, exec_decr_by, count, count_to, start_at,
}
use mudis.Prelude.Int.{ℤ}
use mudis.Prelude.{Bytes, codes, List, [], ◌∷◌, inl, inr, arith, Result-cases}

module _ (D : Dict Entity) (db : State D) where
  count-Recorded :
      (word : Bytes) (args : List Bytes) (key text : Bytes) (next : ℤ → ℤ) (n : ℤ)
      → Recorded word args db (count D db (word ∷ args) key next text n)
  unfolding count count_to start_at add_aof
  count-Recorded word args key text next n = elim (get_as_string-cases D db key) [
    | inl e ↦ ground arith
    | inr (s, e) ↦ ground arith
  ]

  pub incr-Recorded : (args : List Bytes) → Recorded (codes "incr") args db (exec_incr D db args)
  unfolding exec_incr
  incr-Recorded [] = ground arith
  incr-Recorded (key ∷ args) = count-Recorded (codes "incr") (key ∷ args) key _ _ _

  pub decr-Recorded : (args : List Bytes) → Recorded (codes "decr") args db (exec_decr D db args)
  unfolding exec_decr
  decr-Recorded [] = ground arith
  decr-Recorded (key ∷ args) = count-Recorded (codes "decr") (key ∷ args) key _ _ _

  pub incr_by-Recorded :
      (args : List Bytes) → Recorded (codes "incrby") args db (exec_incr_by D db args)
  unfolding exec_incr_by
  incr_by-Recorded [] = ground arith
  incr_by-Recorded (key ∷ []) = ground arith
  incr_by-Recorded (key ∷ delta ∷ args) = elim (Result-cases (parse_int delta)) [
    | inl (e, p) ↦ ground arith
    | inr (n, p) ↦
        rw (exec_incr_by, p) (count-Recorded (codes "incrby") (key ∷ delta ∷ args) key _ _ _)
  ]

  pub decr_by-Recorded :
      (args : List Bytes) → Recorded (codes "decrby") args db (exec_decr_by D db args)
  unfolding exec_decr_by
  decr_by-Recorded [] = ground arith
  decr_by-Recorded (key ∷ []) = ground arith
  decr_by-Recorded (key ∷ delta ∷ args) = elim (Result-cases (parse_int delta)) [
    | inl (e, p) ↦ ground arith
    | inr (n, p) ↦
        rw (exec_decr_by, p) (count-Recorded (codes "decrby") (key ∷ delta ∷ args) key _ _ _)
  ]
