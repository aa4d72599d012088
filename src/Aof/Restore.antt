-- ===== src/Aof/Restore.antt =====
-- aof/aof.go with database/standalone_database.go: what clients do to the databases, and what loading
-- the log makes of them.
use mathlib.Core.Path.{subst}
use mudis.Aof.Durable.{Durable, Written, exec-cases, exec-word, Durable-Answers}
use mudis.Aof.{AofHandler, handle_aof, load_aof, loaded}
use mudis.Aof.Log.{Appends}
use mudis.Aof.Steps.{IsLogged, run, replay}
use mudis.Aof.Replay.{load-handle_aof}
use mudis.Handler.Laws.{IsRequest}
use mudis.Standalone.{AofPayload, Standalone, exec, exec_at, finish, add_aof}
use mudis.Standalone.Laws.{is_select, length-set, exec_select-server}
use mudis.Database
use mudis.Database.{CmdLine, CmdTable, Db, Outcome, state_of}
use mudis.Prelude.Int.{ℤ, pos, negsuc, max_int}
use mudis.Prelude.{
  ℕ, zero, suc, ◌+◌, ◌≤◌, ◌<◌, Bytes, codes, List, [], ◌∷◌, ◌++◌, Option, none, some, Bool, true,
  false, beq, All, All-append, length, set, get_elem?, ◌≡◌, inl, inr, refl, sym, ap, ◌∙◌, arith,
  append-nil, append_assoc, ◌==◌, Option-cases, Bool-cases,
}

-- A database with no line left to hand to the log.
abbrev pub IsSettled : {C : Type 0} → List (Db C) → Type 0
IsSettled = All (λ db. db.aof ≡ [])

-- The databases behind command lines from any clients, each with the index that its client selected.
abbrev pub serve_lines :
    {C : Type 0} → CmdTable C → Standalone C → List (ℤ × CmdLine) → Standalone C
serve_lines table mdb [] = mdb
serve_lines table mdb ((c, line) ∷ lines) =
    serve_lines table (exec true table mdb c line).server lines

-- What was sent on the channel.
abbrev pub queued : Option (List AofPayload) → List AofPayload
queued none = []
queued (some ps) = ps

module _ {C : Type 0} where
  set-get : (dbs : List (Db C)) (i : ℕ) (db : Db C) → get_elem? dbs i ≡ some db → set dbs i db ≡ dbs
  set-get [] i db e = refl
  set-get (x ∷ dbs) zero db e = cc
  set-get (x ∷ dbs) (suc i) db e = ap (λ l. x ∷ l) (set-get dbs i db e)

  get-lt : (dbs : List (Db C)) (i : ℕ) (db : Db C) → get_elem? dbs i ≡ some db → i < length dbs
  get-lt [] i db e = absurd (cc)
  get-lt (x ∷ dbs) zero db e = omega arith
  get-lt (x ∷ dbs) (suc i) db e = omega (arith, get-lt dbs i db e)

  get-IsSettled :
      (dbs : List (Db C)) (i : ℕ) (db : Db C)
      → IsSettled dbs
      → get_elem? dbs i ≡ some db
      → db.aof ≡ []
  get-IsSettled [] i db s e = absurd (cc)
  get-IsSettled (x ∷ dbs) zero db (s, _) e =
      let q : x ≡ db = cc in ap (λ (d : Db C). d.aof) (sym q) ∙ s
  get-IsSettled (x ∷ dbs) (suc i) db (_, s) e = get-IsSettled dbs i db s e

  set-IsSettled :
      (dbs : List (Db C)) (i : ℕ) (db : Db C)
      → IsSettled dbs
      → db.aof ≡ []
      → IsSettled (set dbs i db)
  set-IsSettled [] i db s e = tt
  set-IsSettled (x ∷ dbs) zero db (_, s) e = (e, s)
  set-IsSettled (x ∷ dbs) (suc i) db (h, s) e = (h, set-IsSettled dbs i db s e)

  replay-append :
      (table : CmdTable C) (dbs : List (Db C)) (ps qs : List AofPayload)
      → replay table dbs (ps ++ qs) ≡ replay table (replay table dbs ps) qs
  replay-append table dbs [] qs = refl
  replay-append table dbs (p ∷ ps) qs = replay-append table (run table dbs p) ps qs

  -- The lines that a step sent to the log make the step's databases out of those before it.
  record Follows (table : CmdTable C) (mdb mdb' : Standalone C) : Type 0 where
    ps : List AofPayload
    sent : (q : List AofPayload) → mdb.aof_chan ≡ some q → mdb'.aof_chan ≡ some (q ++ ps)
    replayed : replay table mdb.db_set ps ≡ mdb'.db_set
    settled : IsSettled mdb'.db_set
    logged : All (IsLogged (length mdb.db_set)) ps
    same_length : length mdb'.db_set ≡ length mdb.db_set

  unchanged :
      (table : CmdTable C) (mdb : Standalone C) → IsSettled mdb.db_set → Follows table mdb mdb
  unchanged table mdb s = record {
    ps = [];
    sent = λ q e. e ∙ ap some (sym (append-nil q));
    replayed = refl;
    settled = s;
    logged = tt;
    same_length = refl;
  }

  chained :
      (table : CmdTable C) (m m' m'' : Standalone C)
      → Follows table m m'
      → Follows table m' m''
      → Follows table m m''
  chained table m m' m'' f g = record {
    ps = f.ps ++ g.ps;
    sent = λ q e. g.sent (q ++ f.ps) (f.sent q e) ∙ ap some (append_assoc q f.ps g.ps);
    replayed =
        replay-append table m.db_set f.ps g.ps
        ∙ ap (λ dbs. replay table dbs g.ps) f.replayed
        ∙ g.replayed;
    settled = g.settled;
    logged =
        All-append (IsLogged (length m.db_set)) f.ps g.ps f.logged
          (subst (λ n. All (IsLogged n) g.ps) f.same_length g.logged);
    same_length = g.same_length ∙ f.same_length;
  }

  select-server :
      (table : CmdTable C) (mdb : Standalone C) (c : ℤ) (name : Bytes) (args : List Bytes)
      → is_select (name ∷ args) ≡ true
      → (exec true table mdb c (name ∷ args)).server ≡ mdb
  unfolding exec
  select-server table mdb c name args e = elim (Bool-cases (length (name ∷ args) == 2)) [
    | inl f ↦ rw (exec, e, f) (exec_select-server true table mdb c args)
    | inr f ↦ rw (exec, e, f) refl
  ]

  module _ (table : CmdTable C) (durable : Durable table) where
    at-Follows :
        (mdb : Standalone C) (i : ℕ) (db : Db C) (name : Bytes) (args : List Bytes)
        → get_elem? mdb.db_set i ≡ some db
        → IsSettled mdb.db_set
        → IsRequest (name ∷ args)
        → is_select (name ∷ args) ≡ false
        → Written name args
            (record db { aof = [] })
            (Database.exec table (record db { aof = [] }) (name ∷ args))
        → Follows table mdb
            (finish true table mdb i (Database.exec table (record db { aof = [] }) (name ∷ args)))
    unfolding finish add_aof
    at-Follows mdb i db name args g s r n (inl (word, e, p, l)) =
        let out : Outcome C = Database.exec table (record db { aof = [] }) (name ∷ args) in
        record {
          ps = record { cmd_line = word ∷ args; db_index = i } ∷ [];
          sent = λ q f.
              ap (λ c. add_aof true i (state_of out).aof c) f
              ∙ ap (λ a. add_aof true i a (some q)) l;
          replayed =
              rw (run, g)
                (ap (λ (o : Outcome C). set mdb.db_set i (record (state_of o) { aof = [] }))
                  (exec-word table (record db { aof = [] }) word name args e));
          settled = set-IsSettled mdb.db_set i _ s refl;
          logged = (
            record {
              index = get-lt mdb.db_set i db g;
              plain = (p, r.0.1);
              length = r.2;
              reaches = ap (λ w. beq w (codes "select")) e ∙ n;
            },
            tt,
          );
          same_length = length-set mdb.db_set i _;
        }
    at-Follows mdb i db name args g s r n (inr k) =
        let out : Outcome C = Database.exec table (record db { aof = [] }) (name ∷ args) in
        let same : record db { aof = [] } ≡ db =
          ap (λ a. record db { aof = a }) (sym (get-IsSettled mdb.db_set i db s g)) in
        record {
          ps = [];
          sent = λ q f.
              ap (λ c. add_aof true i (state_of out).aof c) f
              ∙ ap (λ (d : Db C). add_aof true i d.aof (some q)) k;
          replayed = sym (
              ap (λ (d : Db C). set mdb.db_set i (record d { aof = [] })) k
              ∙ set-get mdb.db_set i (record db { aof = [] }) (g ∙ ap some (sym same)));
          settled = set-IsSettled mdb.db_set i _ s refl;
          logged = tt;
          same_length = length-set mdb.db_set i _;
        }

    exec_at-Follows :
        (mdb : Standalone C) (c : ℤ) (name : Bytes) (args : List Bytes)
        → IsSettled mdb.db_set
        → IsRequest (name ∷ args)
        → is_select (name ∷ args) ≡ false
        → Follows table mdb (exec_at true table mdb c (name ∷ args)).server
    unfolding exec_at
    exec_at-Follows mdb (negsuc n) name args s r h = unchanged table mdb s
    exec_at-Follows mdb (pos i) name args s r h = elim (Option-cases (get_elem? mdb.db_set i)) [
      | inl e ↦ subst (Follows table mdb) (rw (exec_at, e) refl) (unchanged table mdb s)
      | inr (db, e) ↦ subst (Follows table mdb) (rw (exec_at, e) refl) (
          at-Follows mdb i db name args e s r h
            (exec-cases table durable (record db { aof = [] }) name args).0)
    ]

    exec-Follows :
        (mdb : Standalone C) (c : ℤ) (line : CmdLine)
        → IsSettled mdb.db_set
        → IsRequest line
        → Follows table mdb (exec true table mdb c line).server
    unfolding exec
    exec-Follows mdb c [] s r = unchanged table mdb s
    exec-Follows mdb c (name ∷ args) s r = elim (Bool-cases (is_select (name ∷ args))) [
      | inl e ↦
          subst (Follows table mdb) (sym (select-server table mdb c name args e))
            (unchanged table mdb s)
      | inr e ↦
          subst (Follows table mdb) (rw (exec, e) refl) (exec_at-Follows mdb c name args s r e)
    ]

    serve_lines-Follows :
        (lines : List (ℤ × CmdLine)) (mdb : Standalone C)
        → IsSettled mdb.db_set
        → All (λ (l : ℤ × CmdLine). IsRequest l.1) lines
        → Follows table mdb (serve_lines table mdb lines)
    serve_lines-Follows [] mdb s r = unchanged table mdb s
    serve_lines-Follows ((c, line) ∷ lines) mdb s (r, rs) =
        let f : Follows table mdb (exec true table mdb c line).server =
          exec-Follows mdb c line s r in
        chained table mdb _ _ f (serve_lines-Follows lines _ f.settled rs)

    module _ {File : Type 0} (write : File → Bytes → File × Bool) (contents : File → Bytes) where
      -- With commands that hand their own words to the log or leave the database as it was, on a file
      -- that takes every write and was empty: whatever plain lines clients send, in whatever order
      -- and on whatever databases, loading the file that the handler wrote on the databases of the
      -- start makes exactly the databases of the end.
      pub load-serve_lines :
          (mdb : Standalone C) (h : AofHandler File) (lines : List (ℤ × CmdLine))
          → Appends write contents
          → contents h.aof_file ≡ []
          → mdb.aof_chan ≡ some []
          → IsSettled mdb.db_set
          → All (λ (l : ℤ × CmdLine). IsRequest l.1) lines
          → length mdb.db_set + 3 ≤ max_int
          → load_aof true table 0
              (some (
                contents
                  (handle_aof write h (queued (serve_lines table mdb lines).aof_chan)).aof_file))
              mdb
            ≡ loaded (record mdb { db_set = (serve_lines table mdb lines).db_set })
      load-serve_lines mdb h lines w e q s r b =
          let f : Follows table mdb (serve_lines table mdb lines) =
            serve_lines-Follows lines mdb s r in
          ap
            (λ chan.
              load_aof true table 0 (some (contents (handle_aof write h (queued chan)).aof_file))
                mdb)
            (f.sent [] q)
          ∙ load-handle_aof true table write contents mdb h f.ps w e
              (Durable-Answers true table durable) f.logged b
          ∙ ap (λ dbs. loaded (record mdb { db_set = dbs })) f.replayed
