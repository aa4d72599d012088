-- ===== src/Tests/Strings.antt =====
-- The string commands on a database of two keys.
use mudis.Dict.Simple.{SimpleDict}
use mudis.Dict.Simple.Laws.{simple_dict}
use mudis.Dict.Simple
use mudis.Dict.GoMap.{lookup}
use mudis.Dict.{Dict}
use mudis.Strconv.{format_int, format_uint, digits, parse_int, parse_uint, parse_digits, is_digit}
use mudis.Reply.{bulk, int, null_bulk}
use mudis.Database.{Entity, string, State, reply_of, state_of, get_entity}
use mudis.Database.Strings.{get_as_string, as_string, exec_get, exec_m_set_nx, exec_get_set}
use mudis.Database.Strings.Counters.{exec_incr_by}
use mudis.Database.Strings.Laws.{get_set_absent_not_logged}
use mudis.Database.Strings.Bulk.{m_set_nx_all_or_nothing, count_bound, value_at, written}
use mudis.Database.Strings.Counters.Laws.{incr_by_adds, incr_by_wraps}
use mudis.Prelude.Int.{◌+ℤ◌, max_int, pos, negsuc}
use mudis.Prelude.{
  ◌++◌, ◌==◌, ◌+◌, arith, ◌-◌, ◌^◌, beq, [], refl, if◌then◌else◌, List, ◌∷◌, ◌≡◌, some, Bytes,
  codes,
}

abbrev entities : Dict Entity
entities = simple_dict Entity

abbrev n_key : Bytes
n_key = codes "n"

abbrev s_key : Bytes
s_key = codes "s"

-- `s` holds "hi", `n` holds "41".
abbrev db : State entities
db = record {
  contents = record {
    m = (s_key, string (some (codes "hi"))) ∷ (n_key, string (some (codes "41"))) ∷ [];
  };
  aof = [];
}

get_set_absent_not_logged_example :
    (reply_of (exec_get_set entities db (codes "x" ∷ codes "v" ∷ [])) ≡ some null_bulk)
    × (reply_of (
          exec_get entities
            (state_of (exec_get_set entities db (codes "x" ∷ codes "v" ∷ [])))
            (codes "x" ∷ []))
        ≡ some (bulk (some (codes "v"))))
    × ((state_of (exec_get_set entities db (codes "x" ∷ codes "v" ∷ []))).aof ≡ [])
unfolding get_entity Simple.get lookup beq
get_set_absent_not_logged_example =
    get_set_absent_not_logged entities db (codes "x") (codes "v") refl

abbrev two_pairs : List Bytes
two_pairs = codes "x" ∷ codes "1" ∷ s_key ∷ codes "2" ∷ []

-- `s` is bound, so `x` is not written.
m_set_nx_all_or_nothing_example :
    (reply_of (exec_m_set_nx entities db two_pairs)
      ≡ some (int (pos (if count_bound entities db two_pairs 2 == 0 then 1 else 0))))
    × (get_entity entities (state_of (exec_m_set_nx entities db two_pairs)) (codes "x") ≡ (
        if count_bound entities db two_pairs 2 == 0
        then written (value_at two_pairs (codes "x") 2) (get_entity entities db (codes "x"))
        else get_entity entities db (codes "x")))
    × ((state_of (exec_m_set_nx entities db two_pairs)).aof ≡ (
        if count_bound entities db two_pairs 2 == 0
        then db.aof ++ (codes "msetnx" ∷ two_pairs) ∷ []
        else db.aof))
m_set_nx_all_or_nothing_example = m_set_nx_all_or_nothing entities db two_pairs (codes "x") refl

incr_by_adds_example :
    (reply_of (exec_incr_by entities db (n_key ∷ codes "-50" ∷ []))
      ≡ some (int (pos 41 +ℤ negsuc 49)))
    × (reply_of (
          exec_get entities
            (state_of (exec_incr_by entities db (n_key ∷ codes "-50" ∷ [])))
            (n_key ∷ []))
        ≡ some (bulk (some (format_int (pos 41 +ℤ negsuc 49)))))
unfolding get_as_string get_entity as_string Simple.get lookup beq format_int format_uint digits
    parse_int parse_uint parse_digits is_digit ◌+ℤ◌
incr_by_adds_example =
    incr_by_adds entities db n_key (codes "-50") (pos 41) (negsuc 49) refl refl (omega arith)
      (omega arith) (omega arith)

-- 41 and the largest integer.
incr_by_wraps_example :
    reply_of (exec_incr_by entities db (n_key ∷ codes "9223372036854775807" ∷ []))
    ≡ some (int (negsuc (2 ^ 64 - 1 - (41 + max_int))))
unfolding get_as_string get_entity as_string Simple.get lookup beq format_int format_uint digits
    parse_int parse_uint parse_digits is_digit
incr_by_wraps_example =
    incr_by_wraps entities db n_key (codes "9223372036854775807") 41 max_int refl refl (omega arith)
      (omega arith) (omega arith)
