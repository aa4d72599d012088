-- ===== src/Database/Strings/Counters/Laws.antt =====
-- What the counters store and reply.
use mudis.Prelude.Int.{ℤ, pos, negsuc, InRange, max_int, add64, ◌+ℤ◌, add64_exact}
use mudis.Strconv.{parse_int, format_int}
use mudis.Strconv.RoundTrip.{parse_int-format_int}
use mudis.Dict.{Dict}
use mudis.Reply.{int, bulk}
use mudis.Database.{Entity, string, done, reply_of, state_of, add_aof, State, put_entity}
use mudis.Database.Strings.{get_as_string, exec_get}
use mudis.Database.Strings.Counters.{exec_incr_by, not_integer}
use mudis.Prelude.{ℕ, ◌+◌, ◌-◌, ◌^◌, ◌≤◌, ◌<◌, Bytes, [], ◌∷◌, some, ok, err, beq_refl, ◌≡◌, arith}

add64-wraps :
    (v d : ℕ)
    → v ≤ max_int
    → d ≤ max_int
    → max_int < v + d
    → add64 (pos v) (pos d) ≡ negsuc (2 ^ 64 - 1 - (v + d))
unfolding add64
add64-wraps v d h k l = ground arith

module _ (D : Dict Entity) (db : State D) (k raw : Bytes) where
  -- INCRBY on a number in range, where the sum is in range too: the reply is the sum, and GET then
  -- replies its decimal text.
  pub incr_by_adds :
      (v d : ℤ)
      → get_as_string D db k ≡ ok (some (format_int v))
      → parse_int raw ≡ ok d
      → InRange v
      → InRange d
      → InRange (v +ℤ d)
      → (reply_of (exec_incr_by D db (k ∷ raw ∷ [])) ≡ some (int (v +ℤ d)))
        × (reply_of (exec_get D (state_of (exec_incr_by D db (k ∷ raw ∷ []))) (k ∷ []))
            ≡ some (bulk (some (format_int (v +ℤ d)))))
  unfolding exec_incr_by exec_get get_as_string put_entity add_aof
  incr_by_adds v d h p rv rd rs = ground (
    arith,
    parse_int-format_int v rv,
    add64_exact v d rv rd rs,
    beq_refl k,
    D.get-put db.contents k k (string (some (format_int (v +ℤ d)))),
  )

  -- Two positive numbers whose sum does not fit: INCRBY does not refuse, and replies a negative
  -- number, the sum less 2 to the power of 64.
  pub incr_by_wraps :
      (v d : ℕ)
      → get_as_string D db k ≡ ok (some (format_int (pos v)))
      → parse_int raw ≡ ok (pos d)
      → v ≤ max_int
      → d ≤ max_int
      → max_int < v + d
      → reply_of (exec_incr_by D db (k ∷ raw ∷ [])) ≡ some (int (negsuc (2 ^ 64 - 1 - (v + d))))
  unfolding exec_incr_by
  incr_by_wraps v d h p rv rd rs =
      ground (arith, parse_int-format_int (pos v) rv, add64-wraps v d rv rd rs)

  -- A value that is no 64-bit integer is refused, and nothing changes.
  pub incr_by_not_integer :
      (s : Bytes) (e : _) (d : ℤ)
      → get_as_string D db k ≡ ok (some s)
      → parse_int s ≡ err e
      → parse_int raw ≡ ok d
      → exec_incr_by D db (k ∷ raw ∷ []) ≡ done not_integer db
  unfolding exec_incr_by
  incr_by_not_integer s e d h p q = ground arith
