-- ===== src/Database/Strings/Counters.antt =====
-- database/string.go: INCR, INCRBY, DECR and DECRBY.
pub mod Laws
pub mod Logged
use mudis.Prelude.Int.{ℤ, pos, negsuc, add64, sub64}
use mudis.Strconv.{parse_int, format_int}
use mudis.Dict.{Dict}
use mudis.Reply.{Reply, int, standard_err}
use mudis.Database.{
  Entity, string, CmdLine, Outcome, done, panic, to_cmd_line, add_aof, State, put_entity,
}
use mudis.Prelude.{Bytes, codes, List, [], ◌∷◌, none, some, ok, err}
use mudis.Database.Strings.{get_as_string}

abbrev pub not_integer : Reply
not_integer = standard_err (codes "ERR value is not an integer or out of range")

module _ (D : Dict Entity) where
  -- What the four counters do with a value that is there: `next` is the new number.
  count_to : State D → CmdLine → Bytes → (ℤ → ℤ) → Bytes → Outcome D.Carrier
  unfolding put_entity
  count_to db line key next s = elim (parse_int s) [
    | err e ↦ done not_integer db
    | ok val ↦
        done (int (next val))
          (add_aof line (put_entity D db key (string (some (format_int (next val))))))
  ]

  -- What they do with a key that is not there.
  start_at : State D → CmdLine → Bytes → Bytes → ℤ → Outcome D.Carrier
  unfolding put_entity
  start_at db line key text n =
      done (int n) (add_aof line (put_entity D db key (string (some text))))

  count : State D → CmdLine → Bytes → (ℤ → ℤ) → Bytes → ℤ → Outcome D.Carrier
  unfolding count_to start_at
  count db line key next text n = elim (get_as_string D db key) [
    | err e ↦ done e db
    | ok none ↦ start_at db line key text n
    | ok (some s) ↦ count_to db line key next s
  ]

  unfoldable pub exec_incr : State D → List Bytes → Outcome D.Carrier
  unfolding count
  exec_incr db [] = panic db
  exec_incr db (key ∷ rest) =
      count db (to_cmd_line "incr" (key ∷ rest)) key (λ val. add64 val (pos 1)) (codes "1") (pos 1)

  unfoldable pub exec_incr_by : State D → List Bytes → Outcome D.Carrier
  unfolding count
  exec_incr_by db (key ∷ raw_delta ∷ rest) = elim (parse_int raw_delta) [
    | err e ↦ done not_integer db
    | ok delta ↦
        count db (to_cmd_line "incrby" (key ∷ raw_delta ∷ rest)) key (λ val. add64 val delta)
          raw_delta delta
  ]
  exec_incr_by db _ = panic db

  unfoldable pub exec_decr : State D → List Bytes → Outcome D.Carrier
  unfolding count
  exec_decr db [] = panic db
  exec_decr db (key ∷ rest) =
      count db (to_cmd_line "decr" (key ∷ rest)) key (λ val. sub64 val (pos 1)) (codes "-1")
        (negsuc 0)

  unfoldable pub exec_decr_by : State D → List Bytes → Outcome D.Carrier
  unfolding count
  exec_decr_by db (key ∷ raw_delta ∷ rest) = elim (parse_int raw_delta) [
    | err e ↦ done not_integer db
    | ok delta ↦
        count db (to_cmd_line "decrby" (key ∷ raw_delta ∷ rest)) key (λ val. sub64 val delta)
          (format_int (sub64 (pos 0) delta)) (sub64 (pos 0) delta)
  ]
  exec_decr_by db _ = panic db
