-- ===== src/Handler/Laws.antt =====
-- Requests that a client sends one behind the other, on a connection that takes every write.
use mudis.Handler.{
  DatabaseFace, Session, returned, client_write, run_request, result_bytes, handle_loop, handle,
  close_client,
}
use mudis.Aof.{line_to_bytes, words}
use mudis.Parser.{parse_stream, parse0, round, read_line, read_bytes}
use mudis.Parser.RoundTrip.{IsPlain, parse_stream-to_bytes}
use mudis.Database.{CmdLine}
use mudis.Prelude.Int.{pos}
use mudis.Prelude.{
  ◌-◌, ◌^◌, ◌<◌, ◌≤◌, Bytes, List, [], ◌∷◌, ◌++◌, Bool, true, false, some, map, length, All, ◌≡◌,
  refl, ap, ◌∙◌, sym, arith, append-nil,
}

-- The bytes of the requests, one behind the other.
abbrev pub requests : List CmdLine → Bytes
requests [] = []
requests (line ∷ lines) = line_to_bytes line ++ requests lines

-- A request that the parser reads whole.
abbrev pub IsRequest : CmdLine → Type 0
IsRequest line = All IsPlain line × (0 < length line) × (length line ≤ 2 ^ 32 - 1)

-- A reply is one write, if it has bytes.
abbrev pub frame : Bytes → List Bytes
frame [] = []
frame (b ∷ bs) = (b ∷ bs) ∷ []

-- The requests are run in their order, and each is answered before the next is run.
abbrev pub serve : {S : Type 0} → DatabaseFace S → Session S → List CmdLine → Session S
serve d s [] = s
serve d s (line ∷ lines) =
    let (result, db, c) = d.exec s.db s.selected_db line in
    serve d
      (record s { db = db; selected_db = c; written = s.written ++ frame (result_bytes result) })
      lines

words-map : (line : CmdLine) → words (map some line) ≡ line
unfolding words
words-map [] = refl
words-map (w ∷ line) = ap (λ l. w ∷ l) (words-map line)

module _ {S : Type 0} (d : DatabaseFace S) (takes : List Bytes → Bool)
    (is_closed_text : Bytes → Bool) (always : (written : List Bytes) → takes written ≡ true) where
  client_write-frame :
      (s : Session S) (b : Bytes)
      → client_write d takes is_closed_text s b
        ≡ (record s { written = s.written ++ frame b }, false)
  unfolding client_write
  client_write-frame s [] = ap (λ w. (record s { written = w }, false)) (sym (append-nil s.written))
  client_write-frame s (b ∷ bs) = rw (client_write, always s.written) refl

  run_request-serve :
      (s : Session S) (line : CmdLine)
      → run_request d takes is_closed_text s line ≡ serve d s (line ∷ [])
  unfolding run_request
  run_request-serve s line =
      let (result, db, c) = d.exec s.db s.selected_db line in
      ap (λ x. x.0)
        (client_write-frame (record s { db = db; selected_db = c }) (result_bytes result))

  loop_request :
      (s : Session S) (line : CmdLine) (rest : Bytes)
      → IsRequest line
      → handle_loop d takes is_closed_text
          (parse_stream (line_to_bytes line ++ rest)).ending
          s
          (parse_stream (line_to_bytes line ++ rest)).payloads
        ≡ handle_loop d takes is_closed_text
            (parse_stream rest).ending
            (serve d s (line ∷ []))
            (parse_stream rest).payloads
  unfolding handle_loop line_to_bytes
  loop_request s [] rest (p, b, l) = absurd (omega arith)
  loop_request s (w ∷ ws) rest (p, b, l) =
      ap (λ c. handle_loop d takes is_closed_text c.ending s c.payloads)
        (parse_stream-to_bytes w ws rest p l)
      ∙ ap
          (λ line.
            handle_loop d takes is_closed_text (parse_stream rest).ending
              (run_request d takes is_closed_text s line) (parse_stream rest).payloads)
          (words-map (w ∷ ws))
      ∙ ap
          (λ s'.
            handle_loop d takes is_closed_text (parse_stream rest).ending s'
              (parse_stream rest).payloads)
          (run_request-serve s (w ∷ ws))

  loop_requests :
      (lines : List CmdLine) (s : Session S)
      → All IsRequest lines
      → handle_loop d takes is_closed_text
          (parse_stream (requests lines)).ending
          s
          (parse_stream (requests lines)).payloads
        ≡ returned (record (serve d s lines) { is_closed = true })
  unfolding handle_loop close_client parse_stream parse0 round read_line read_bytes
  loop_requests [] s r = refl
  loop_requests (line ∷ lines) s (r, rs) =
      loop_request s line (requests lines) r ∙ loop_requests lines (serve d s (line ∷ [])) rs

  -- On a connection that takes every write, a client that sends plain requests and then closes its
  -- side is served all of them, each answered once and in order, and its connection is closed
  -- behind them.
  pub handle-serve :
      (db : S) (lines : List CmdLine)
      → All IsRequest lines
      → handle d takes is_closed_text false db (requests lines)
        ≡ returned
            (record (serve d
              (record { db = db; selected_db = pos 0; written = []; is_closed = false })
              lines) { is_closed = true })
  unfolding handle
  handle-serve db lines r = loop_requests lines _ r
