-- ===== src/Aof/Steps.antt =====
-- The rounds of `LoadAof` on the lines that `handleAof` writes.
use mudis.Aof.{line_to_bytes, select_line, load_loop, Loaded, panics, words}
use mudis.Standalone.{
  AofPayload, Standalone, Answer, exec, exec_at, exec_select, finish, reply_or_unknown, add_aof,
}
use mudis.Standalone.Laws.{is_select, length-set}
use mudis.Parser.{Ending, parse_stream, reply, Channel, Payload}
use mudis.Parser.RoundTrip.{IsPlain, parse_stream-to_bytes}
use mudis.Strconv.{format_uint, digits, is_digit}
use mudis.Strconv.RoundTrip.{parse_int-format_uint, All-format_uint, IsDigit, digits-ne-nil}
use mudis.Reply.{multi_bulk, to_bytes, is_error_reply, ok_reply}
use mudis.Database.{CmdLine, CmdTable, Db, state_of}
use mudis.Database
use mudis.Prelude.Int.{ℤ, pos, max_int}
use mudis.Prelude.{
  ℕ, zero, suc, ◌+◌, ◌-◌, ◌^◌, ◌<◌, ◌≤◌, Bytes, codes, List, [], ◌∷◌, ◌++◌, none, some, Bool, false,
  leb, ltb, length, set, get_elem?, map, All, to_lower, beq, ◌≡◌, ◌≢◌, refl, arith, ap, ◌∙◌,
  Bool-cases, inl, inr, Option-cases, ◌/◌, ◌%◌, split_at, get_elem?-append, length-append,
}

-- A payload that a log of `n` databases can bring back: a line that reaches a database, of words that the
-- parser reads.
pub record IsLogged (n : ℕ) (p : AofPayload) : Type 0 where
  pub index : p.db_index < n
  pub plain : All IsPlain p.cmd_line
  pub length : length p.cmd_line ≤ 2 ^ 32 - 1
  pub reaches : is_select p.cmd_line ≡ false

module _ {C : Type 0} (table : CmdTable C) where
  -- The line is run on its database, and what it logs is dropped.
  abbrev pub run : List (Db C) → AofPayload → List (Db C)
  run dbs p = elim (get_elem? dbs p.db_index) [
    | none ↦ dbs
    | some db ↦
        set dbs p.db_index
          (record (state_of (Database.exec table (record db { aof = [] }) p.cmd_line)) { aof = [] })
  ]

  abbrev pub replay : List (Db C) → List AofPayload → List (Db C)
  replay dbs [] = dbs
  replay dbs (p ∷ ps) = replay (run dbs p) ps

module _ {C : Type 0} (append_only : Bool) (table : CmdTable C) where
  -- No command line gets the reply without bytes.
  abbrev pub Answers : Type 0
  Answers =
      (db : Db C) (line : CmdLine)
      → is_error_reply (reply_or_unknown append_only table (Database.exec table db line)) ≢ none

  -- Loading a stream on the databases `dbs`, with `c` selected.
  unfoldable pub load_stream : List (Db C) → ℕ → Channel → Loaded C
  load_stream dbs c channel =
      load_loop append_only table channel.ending (record { db_set = dbs; aof_chan = none }) (pos c)
        channel.payloads

  words-map : (line : CmdLine) → words (map some line) ≡ line
  unfolding words
  words-map [] = refl
  words-map (w ∷ line) = ap (λ l. w ∷ l) (words-map line)

  pub length-run : (dbs : List (Db C)) (p : AofPayload) → length (run table dbs p) ≡ length dbs
  length-run dbs p =
      elim (get_elem? dbs p.db_index)
        as (λ o.
          length (elim o [
            | none ↦ dbs
            | some db ↦
                set dbs p.db_index
                  (record (state_of (Database.exec table (record db { aof = [] }) p.cmd_line)) {
                    aof = [];
                  })
          ])
          ≡ length dbs) [ none ↦ refl | some db ↦ length-set dbs p.db_index _ ]

  exec-run :
      (dbs : List (Db C)) (i : ℕ) (line : CmdLine)
      → i < length dbs
      → is_select line ≡ false
      → (db : Db C) × (exec append_only table
            (record { db_set = dbs; aof_chan = none })
            (pos i)
            line
          ≡ record {
            result = reply_or_unknown append_only table (Database.exec table db line);
            server = record {
              db_set = run table dbs (record { cmd_line = line; db_index = i });
              aof_chan = none;
            };
            selected_db = pos i;
          })
  unfolding exec exec_at finish add_aof
  exec-run dbs i [] h s = cc
  exec-run dbs i (name ∷ args) h s =
      let (us, db, ws, e, f) = split_at dbs i h in
      let g : get_elem? dbs i ≡ some db = rw (e, ← f) (get_elem?-append us db ws) in
      (record db { aof = [] }, rw (exec, s, exec_at, g, run) refl)

  -- A round of the loop of `LoadAof` behind the call of `Exec`.
  abbrev behind : Ending → List Payload → Answer C → Loaded C
  behind end ps answer = elim (is_error_reply answer.result) [
    | none ↦ panics
    | some _ ↦ load_loop append_only table end answer.server answer.selected_db ps
  ]

  loop_answer :
      (end : Ending) (ps : List Payload) (mdb : Standalone C) (c : ℤ) (line : CmdLine)
      (answer : Answer C) (b : Bool)
      → exec append_only table mdb c line ≡ answer
      → is_error_reply answer.result ≡ some b
      → load_loop append_only table end mdb c (reply (multi_bulk (map some line)) ∷ ps)
        ≡ load_loop append_only table end answer.server answer.selected_db ps
  unfolding load_loop
  loop_answer end ps mdb c line answer b e f =
      ap (λ l. behind end ps (exec append_only table mdb c l)) (words-map line)
      ∙ ap (behind end ps) e
      ∙ (rw (behind, f) refl)

  loop_step :
      (end : Ending) (ps : List Payload) (dbs : List (Db C)) (c : ℕ) (line : CmdLine)
      → Answers
      → c < length dbs
      → is_select line ≡ false
      → load_loop append_only table end
          (record { db_set = dbs; aof_chan = none })
          (pos c)
          (reply (multi_bulk (map some line)) ∷ ps)
        ≡ load_loop append_only table end
            (record {
              db_set = run table dbs (record { cmd_line = line; db_index = c });
              aof_chan = none;
            })
            (pos c)
            ps
  unfolding load_loop
  loop_step end ps dbs c line a h s =
      let (db, e) = exec-run dbs c line h s in
      elim (Option-cases
        (is_error_reply (reply_or_unknown append_only table (Database.exec table db line)))) [
          | inl n ↦ absurd (a db line n)
          | inr (b, f) ↦ loop_answer end ps _ (pos c) line _ b e f
        ]

  pub step :
      (dbs : List (Db C)) (c : ℕ) (line : CmdLine) (rest : Bytes)
      → Answers
      → IsLogged (length dbs) (record { cmd_line = line; db_index = c })
      → load_stream dbs c (parse_stream (line_to_bytes line ++ rest))
        ≡ load_stream
            (run table dbs (record { cmd_line = line; db_index = c }))
            c
            (parse_stream rest)
  unfolding load_stream line_to_bytes
  step dbs c [] rest a h = cc h.reaches
  step dbs c (w ∷ ws) rest a h =
      ap (load_stream dbs c) (parse_stream-to_bytes w ws rest h.plain h.length)
      ∙ loop_step (parse_stream rest).ending (parse_stream rest).payloads dbs c (w ∷ ws) a h.index
          h.reaches

  exec-select :
      (dbs : List (Db C)) (c i : ℕ)
      → i < length dbs
      → i ≤ max_int
      → exec append_only table (record { db_set = dbs; aof_chan = none }) (pos c) (select_line i)
        ≡ record {
          result = ok_reply;
          server = record { db_set = dbs; aof_chan = none };
          selected_db = pos i;
        }
  unfolding exec to_lower beq
  exec-select dbs c i h b =
      let n : leb (length dbs) i ≡ false = ground arith in
      rw (exec_select, parse_int-format_uint i b, n) refl

  loop_select :
      (end : Ending) (ps : List Payload) (dbs : List (Db C)) (c i : ℕ)
      → i < length dbs
      → length dbs + 3 ≤ max_int
      → load_loop append_only table end
          (record { db_set = dbs; aof_chan = none })
          (pos c)
          (reply (multi_bulk (map some (select_line i))) ∷ ps)
        ≡ load_loop append_only table end (record { db_set = dbs; aof_chan = none }) (pos i) ps
  loop_select end ps dbs c i h b =
      loop_answer end ps _ (pos c) (select_line i)
        (record {
          result = ok_reply;
          server = record { db_set = dbs; aof_chan = none };
          selected_db = pos i;
        })
        false (exec-select dbs c i h (omega arith)) (unfold is_error_reply to_bytes in refl)

  length-digits : (f n : ℕ) → length (digits f n) ≤ f
  unfolding digits
  length-digits zero n = omega arith
  length-digits (suc f) n = elim (Bool-cases (ltb n 10)) [
    | inl small ↦ rw small (omega arith)
    | inr large ↦ rw large (
        omega
          (arith, length-append (digits f (n / 10)) ((n % 10 + 48) ∷ []), length-digits f (n / 10)))
  ]

  IsPlain-format_uint : (i : ℕ) → i + 4 ≤ max_int → IsPlain (format_uint i)
  unfolding format_uint is_digit
  IsPlain-format_uint i h =
      go (digits (suc i) i) (digits-ne-nil i i) (length-digits (suc i) i)
        (unfold format_uint in All-format_uint i)
    where
      go : (s : Bytes) → s ≢ [] → length s ≤ suc i → All IsDigit s → IsPlain s
      go [] n k d = n refl
      go (c ∷ s) n k d = unfold is_digit in (ground (arith, d.0), omega arith)

  pub step_select :
      (dbs : List (Db C)) (c i : ℕ) (rest : Bytes)
      → i < length dbs
      → length dbs + 3 ≤ max_int
      → load_stream dbs c (parse_stream (line_to_bytes (select_line i) ++ rest))
        ≡ load_stream dbs i (parse_stream rest)
  unfolding load_stream line_to_bytes
  step_select dbs c i rest h b =
      let plain : All IsPlain (select_line i) =
        ((ground arith, omega arith), (IsPlain-format_uint i (omega arith), tt)) in
      ap (load_stream dbs c)
        (parse_stream-to_bytes (codes "SELECT") (format_uint i ∷ []) rest plain (omega arith))
      ∙ loop_select (parse_stream rest).ending (parse_stream rest).payloads dbs c i h b
