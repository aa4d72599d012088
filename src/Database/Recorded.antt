-- ===== src/Database/Recorded.antt =====
-- database/db.go: what a command hands to `addAof`.
use mudis.Reply.{no_reply}
use mudis.Database.{Db, Outcome, state_of, reply_of}
use mudis.Prelude.{Bytes, List, [], ◌∷◌, ◌++◌, some, ◌≡◌, ◌≢◌, ◌⊎◌}

-- The command handed one line to the log, its own words, or left the database as it was; and its
-- reply has bytes.
abbrev pub Recorded : {C : Type 0} → Bytes → List Bytes → Db C → Outcome C → Type 0
Recorded word args db out =
    (((state_of out).aof ≡ db.aof ++ (word ∷ args) ∷ []) ⊎ (state_of out ≡ db))
    × (reply_of out ≢ some no_reply)
