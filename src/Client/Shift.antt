-- ===== src/Client/Shift.antt =====
-- resp/client/client.go: a connection that is lost, and what later requests are answered by.
use mudis.Client.{
  Request, replied, Client, make_client, enqueue, close_conn, is_written, attempt, retry, guarded,
  write_request, after_write, do_request, finish_request, sends, writes, waits, reads, reads_error,
  Reach, here, next,
}
use mudis.Reply.{Reply}
use mudis.Database.{CmdLine}
use mudis.Prelude.{Bytes, [], ◌∷◌, Bool, true, false, ◌≡◌, refl, arith}

-- A state in which the second of two requests got the peer's reply to the first.
abbrev pub Shifted : Bytes → Bytes → CmdLine → CmdLine → Bool → Bool → Reply → Reply → Type 0
Shifted name other args rest b b' v error =
    (c : Client) × Reach make_client c
    × (c.finished
        ≡ (record { args = name ∷ args; heartbeat = b }, replied error)
          ∷ (record { args = other ∷ rest; heartbeat = b' }, replied v)
          ∷ [])
    × (c.replies ≡ (name ∷ args, v) ∷ [])
    × (c.wire ≡ (other ∷ rest) ∷ [])

-- For any two requests with arguments, any reply and any error of a connection that ended, a new
-- client comes to a state in which the first request got the error, the second got the peer's reply
-- to the first, and the peer has replied to nothing else.
pub reply_shifts :
    (name other : Bytes) (args rest : CmdLine) (b b' : Bool) (v error : Reply)
    → Shifted name other args rest b b' v error
unfolding make_client enqueue close_conn do_request guarded write_request retry attempt after_write
    finish_request
reply_shifts name other args rest b b' v error =
    let req : Request = record { args = name ∷ args; heartbeat = b } in
    let req' : Request = record { args = other ∷ rest; heartbeat = b' } in
    (
      _,
      next
          (next
            (next
              (next
                (next
                  (next (next (next here (sends req (omega arith))) (sends req' (omega arith)))
                    (writes req (req' ∷ []) false (λ i. is_written) refl refl))
                  (waits req refl (omega arith)))
                (reads_error req [] 0 error refl refl))
              (writes req' [] true (λ i. is_written) refl refl))
            (waits req' refl (omega arith)))
          (reads req' [] (name ∷ args) ((other ∷ rest) ∷ []) v refl refl refl),
      refl,
      refl,
      refl,
    )
