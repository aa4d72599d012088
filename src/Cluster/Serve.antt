-- ===== src/Cluster/Serve.antt =====
-- cluster/com.go with resp/client: a request that goes to a peer and its reply that comes back.
use mudis.Cluster.Peers.{World, received, first_reply, sent, join, face, serve, exec_on}
use mudis.Cluster.{Answer}
use mudis.Handler.{DatabaseFace, handle, result_bytes}
use mudis.Handler.Laws.{IsRequest, frame, handle-serve}
use mudis.Aof.{line_to_bytes}
use mudis.Parser.Replies.{Crosses, to_bytes-ReadsBack}
use mudis.Parser.{
  Channel, Payload, reply, failure, eof, unexpected_eof, protocol_error, parse_stream,
}
use mudis.Parser.Errors.{FailsFirst, parse_stream-FailsFirst}
use mudis.Reply.Framing.{error-to_bytes}
use mudis.Reply.{Reply, standard_err, to_bytes, is_error_reply}
use mudis.Database.{CmdLine, CmdTable}
use mudis.Prelude.Int.{pos}
use mudis.Prelude.{
  ℕ, suc, Bytes, List, [], ◌∷◌, Option, some, Bool, true, false, ◌≡◌, refl, ap, ◌∙◌, sym,
  append-nil,
}

abbrev pub IsError : Reply → Type 0
IsError r = is_error_reply r ≡ some true

pub standard_err-IsError : (s : Bytes) → IsError (standard_err s)
unfolding is_error_reply to_bytes
standard_err-IsError s = refl

first_reply-IsError : (ps : List Payload) → FailsFirst ps → IsError (first_reply ps)
unfolding first_reply
first_reply-IsError [] f = standard_err-IsError _
first_reply-IsError (reply r ∷ ps) (text, e) = rw e (standard_err-IsError text)
first_reply-IsError (failure eof ∷ ps) f = standard_err-IsError _
first_reply-IsError (failure unexpected_eof ∷ ps) f = standard_err-IsError _
first_reply-IsError (failure (protocol_error msg) ∷ ps) f = standard_err-IsError _

-- An error of a peer is received as an error.
pub received-IsError : (r : Reply) → IsError r → IsError (received (to_bytes r))
unfolding received
received-IsError r h =
    let (t, e) = error-to_bytes r h in
    rw e (first_reply-IsError (parse_stream (b'-' ∷ t)).payloads (parse_stream-FailsFirst t))

-- A reply that the protocol carries is received as one with the same bytes.
pub to_bytes-received : (r : Reply) → Crosses r → to_bytes (received (to_bytes r)) ≡ to_bytes r
unfolding received first_reply
to_bytes-received r h =
    let (r', e, b) = to_bytes-ReadsBack r [] h in
    ap (λ bytes. to_bytes (received bytes)) (sym (append-nil (to_bytes r)))
    ∙ ap (λ (c : Channel). to_bytes (first_reply c.payloads)) e
    ∙ b

join-frame : (b : Bytes) → join (frame b) ≡ b
join-frame [] = refl
join-frame (c ∷ b) = append-nil (c ∷ b)

module _ {C : Type 0} (hash_func : Bytes → ℕ) (append_only : Bool) (table : CmdTable C)
    (peers : Bytes → List Bytes) (borrow : Bytes → Option Bytes) where
  -- A peer that is reached runs the request, and its reply comes back as the bytes are read.
  pub serve-exec_on :
      (hops : ℕ) (w : World C) (peer : Bytes) (line : CmdLine)
      → IsRequest line
      → serve hash_func append_only table peers borrow (suc hops) w peer line ≡ (
          let a = exec_on hash_func append_only table peers borrow hops peer w (pos 0) line in
          (received (to_bytes a.result), a.world))
  unfolding serve result_bytes
  serve-exec_on hops w peer line r =
      let d : DatabaseFace (World C) =
        face hash_func append_only table peers borrow
          (serve hash_func append_only table peers borrow hops) peer in
      let a : Answer (World C) =
        exec_on hash_func append_only table peers borrow hops peer w (pos 0) line in
      ap (λ bytes. sent (handle d (λ written. true) (λ text. false) false w bytes))
        (sym (append-nil (line_to_bytes line)))
      ∙ ap sent
          (handle-serve d (λ written. true) (λ text. false) (λ written. refl) w (line ∷ []) (r, tt))
      ∙ ap (λ bytes. (received bytes, a.world)) (join-frame (to_bytes a.result))
