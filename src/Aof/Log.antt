-- ===== src/Aof/Log.antt =====
-- What `handleAof` writes on a file that takes every write.
use mudis.Aof.{
  AofHandler, line_to_bytes, select_line, handle_payload, handle_loop, handle_aof, write_line,
}
use mudis.Standalone.{AofPayload}
use mudis.Prelude.{
  ℕ, Bytes, List, [], ◌∷◌, ◌++◌, Bool, true, ◌==◌, if◌then◌else◌, append_assoc, append-nil, ◌≡◌,
  refl, arith, Bool-cases, inl, inr, ◌∙◌, ap,
}

-- The bytes of the payloads behind a line for the database `c`.
abbrev pub log : ℕ → List AofPayload → Bytes
log c [] = []
log c (p ∷ ps) =
    if p.db_index == c
    then line_to_bytes p.cmd_line ++ log p.db_index ps
    else line_to_bytes (select_line p.db_index) ++ (line_to_bytes p.cmd_line ++ log p.db_index ps)

abbrev pub last_db : ℕ → List AofPayload → ℕ
last_db c [] = c
last_db c (p ∷ ps) = last_db p.db_index ps

module _ {File : Type 0} (write : File → Bytes → File × Bool) (contents : File → Bytes) where
  -- No write fails, and each appends its bytes.
  abbrev pub Appends : Type 0
  Appends =
      (f : File) (b : Bytes) → ((write f b).1 ≡ true) × (contents (write f b).0 ≡ contents f ++ b)

  module _ (appends : Appends) where
    handle_payload_lem :
        (h : AofHandler File) (p : AofPayload) (ps : List AofPayload)
        → (contents (handle_payload write h p).aof_file ++ log p.db_index ps
            ≡ contents h.aof_file ++ log h.current_db (p ∷ ps))
          × ((handle_payload write h p).current_db ≡ p.db_index)
          × ((handle_payload write h p).read_locks ≡ h.read_locks)
    unfolding handle_payload write_line
    handle_payload_lem h p ps = elim (Bool-cases (p.db_index == h.current_db)) [
      | inl same ↦ (
        rw (same, (appends h.aof_file (line_to_bytes p.cmd_line)).1)
            (append_assoc (contents h.aof_file) _ _),
        rw same (ground (arith, same)),
        rw same (omega arith),
      )
      | inr other ↦
          let f : File = (write h.aof_file (line_to_bytes (select_line p.db_index))).0 in
          let (s, t) = appends h.aof_file (line_to_bytes (select_line p.db_index)) in
          (
            rw (other, s, (appends f (line_to_bytes p.cmd_line)).1, t) (simp append_assoc),
            rw (other, s) refl,
            rw (other, s) (omega arith),
          )
    ]

    handle_loop_lem :
        (ps : List AofPayload) (h : AofHandler File)
        → (contents (handle_loop write h ps).aof_file ≡ contents h.aof_file ++ log h.current_db ps)
          × ((handle_loop write h ps).current_db ≡ last_db h.current_db ps)
          × ((handle_loop write h ps).read_locks ≡ h.read_locks)
    unfolding handle_loop
    handle_loop_lem [] h = (rw append-nil refl, refl, refl)
    handle_loop_lem (p ∷ ps) h =
        let h' : AofHandler File = handle_payload write h p in
        let (a, b, c) = handle_payload_lem h p ps in
        let (x, y, z) = handle_loop_lem ps h' in
        (x ∙ ap (λ n. contents h'.aof_file ++ log n ps) b ∙ a, y ∙ ap (λ n. last_db n ps) b, z ∙ c)

    -- Every line is written once, in order, behind a SELECT line where its database is not that of
    -- the line before; at the end no lock is held that was not held before.
    pub handle_aof-log :
        (h : AofHandler File) (ps : List AofPayload)
        → (contents (handle_aof write h ps).aof_file ≡ contents h.aof_file ++ log 0 ps)
          × ((handle_aof write h ps).current_db ≡ last_db 0 ps)
          × ((handle_aof write h ps).read_locks ≡ h.read_locks)
    unfolding handle_aof
    handle_aof-log h ps = handle_loop_lem ps (record h { current_db = 0 })
