-- ===== src/Aof/Durable.antt =====
-- aof/aof.go with database/db.go: one command line, what it hands to the log and what the log does.
use mathlib.Core.Path.{subst}
use mudis.Database.Recorded.{Recorded}
use mudis.Parser.RoundTrip.{IsPlain}
use mudis.Dict.GoMap.{lookup}
use mudis.Reply.{no_reply, unknown_err, is_error_reply, standard_err, arg_num_err}
use mudis.Reply.Framing.{is_error_reply_iff}
use mudis.Database
use mudis.Database.{
  CmdLine, CmdTable, Command, Db, Outcome, done, panic, state_of, reply_of, validate_arity,
}
use mudis.Standalone.{reply_or_unknown}
use mudis.Aof.Steps.{Answers}
use mudis.Prelude.Int.{ℤ, pos, negsuc}
use mudis.Prelude.{
  codes, Bytes, List, [], ◌∷◌, ◌++◌, none, some, Bool, beq, beq_iff, to_lower, All, ◌≡◌, ◌≢◌, ◌⊎◌,
  inl, inr, refl, ap, ◌∙◌, Option-cases, Bool-cases, if◌then◌else◌,
}

validate-word :
    (arity : ℤ) (word name : Bytes) (args : List Bytes)
    → validate_arity arity (word ∷ args) ≡ validate_arity arity (name ∷ args)
unfolding validate_arity
validate-word (pos n) word name args = refl
validate-word (negsuc n) word name args = refl

module _ {C : Type 0} where
  -- A command under its name in the table, with the word that it writes to the log.
  pub record IsDurable (key : Bytes) (cmd : Command C) : Type 0 where
    pub word : Bytes
    pub named : to_lower word ≡ key
    pub plain : IsPlain word
    pub records : (db : Db C) (args : List Bytes) → Recorded word args db (cmd.executor db args)

  abbrev pub Durable : CmdTable C → Type 0
  Durable = All (λ (entry : Bytes × Command C). IsDurable entry.0 entry.1)

  lookup-Durable :
      (key : Bytes) (cmd : Command C) (table : CmdTable C)
      → Durable table
      → lookup key table ≡ some cmd
      → IsDurable key cmd
  unfolding lookup
  lookup-Durable key cmd [] d e = absurd (cc)
  lookup-Durable key cmd ((k, c) ∷ table) (h, d) e = elim (Bool-cases (beq k key)) [
    | inl b ↦
        let q : some c ≡ some cmd = rw b at e in
        let q' : c ≡ cmd = cc in
        subst (λ c. IsDurable key c) q' (subst (λ k. IsDurable k c) ((beq_iff k key).0 b) h)
    | inr b ↦ let q : lookup key table ≡ some cmd = rw b at e in lookup-Durable key cmd table d q
  ]

  -- The line that was handed to the log is the one that was run, but for the spelling of its name.
  abbrev pub Written : Bytes → List Bytes → Db C → Outcome C → Type 0
  Written name args db out =
      ((word : Bytes) × (to_lower word ≡ to_lower name)
        × IsPlain word
        × ((state_of out).aof ≡ db.aof ++ (word ∷ args) ∷ []))
      ⊎ (state_of out ≡ db)

  module _ (table : CmdTable C) (durable : Durable table) where
    pub exec-cases :
        (db : Db C) (name : Bytes) (args : List Bytes)
        → Written name args db (Database.exec table db (name ∷ args))
          × (reply_of (Database.exec table db (name ∷ args)) ≢ some no_reply)
    unfolding Database.exec
    exec-cases db name args = elim (Option-cases (lookup (to_lower name) table)) [
      | inl e ↦ rw (Database.exec, e) (inr refl, λ q. cc)
      | inr (cmd, e) ↦
          let d : IsDurable (to_lower name) cmd =
            lookup-Durable (to_lower name) cmd table durable e in
          elim (Bool-cases (validate_arity cmd.arity (name ∷ args))) [
            | inr f ↦ rw (Database.exec, e, f) (inr refl, λ q. cc)
            | inl f ↦
                let (kept, bytes) = d.records db args in
                rw (Database.exec, e, f)
                  (elim kept [ inl l ↦ inl (d.word, d.named, d.plain, l) | inr k ↦ inr k ], bytes)
          ]
    ]

  -- The spelling of a command's name does not matter.
  pub exec-word :
      (table : CmdTable C) (db : Db C) (word name : Bytes) (args : List Bytes)
      → to_lower word ≡ to_lower name
      → Database.exec table db (word ∷ args) ≡ Database.exec table db (name ∷ args)
  unfolding Database.exec
  exec-word table db word name args e = elim (Option-cases (lookup (to_lower name) table)) [
    | inl l ↦
        let l' : lookup (to_lower word) table ≡ none = ap (λ k. lookup k table) e ∙ l in
        rw (Database.exec, l, l')
          (ap (λ w. done (standard_err (codes "ERR unknown command '" ++ (w ++ codes "'"))) db) e)
    | inr (cmd, l) ↦
        let l' : lookup (to_lower word) table ≡ some cmd = ap (λ k. lookup k table) e ∙ l in
        rw (Database.exec, l, l', validate-word cmd.arity word name args)
          (ap
            (λ w.
              if validate_arity cmd.arity (name ∷ args)
              then cmd.executor db args
              else done (arg_num_err w) db)
            e)
  ]

  reply-bytes :
      (append_only : Bool) (table : CmdTable C) (out : Outcome C)
      → reply_of out ≢ some no_reply
      → is_error_reply (reply_or_unknown append_only table out) ≢ none
  unfolding reply_or_unknown
  reply-bytes append_only table (done r db) h = λ e. cc (is_error_reply_iff r (λ q. h (ap some q)))
  reply-bytes append_only table (panic db) h = λ e. cc (is_error_reply_iff unknown_err (λ q. cc))

  pub Durable-Answers :
      (append_only : Bool) (table : CmdTable C) → Durable table → Answers append_only table
  unfolding Database.exec
  Durable-Answers append_only table d db [] = reply-bytes append_only table (panic db) (λ q. cc)
  Durable-Answers append_only table d db (name ∷ args) =
      reply-bytes append_only table _ (exec-cases table d db name args).1
