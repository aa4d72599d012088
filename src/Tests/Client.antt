-- ===== src/Tests/Client.antt =====
-- A client that sends PING and is answered.
use mudis.Client.{
  Client, make_client, heartbeat_request, enqueue, not_closed, do_request, finish_request, guarded,
  write_request, after_write, write, sends, writes, waits, reads, Reach, here, next,
}
use mudis.Client.Order.{InOrder, Reach-InOrder}
use mudis.Client.Queues.{Conserved, Reach-Conserved}
use mudis.Client.Shift.{Shifted, reply_shifts}
use mudis.Reply.{status, standard_err}
use mudis.Prelude.{codes, [], ◌∷◌, ◌++◌, none, true, false, ◌≡◌, refl, arith}

abbrev queued : Client
queued = enqueue heartbeat_request make_client

abbrev written : Client
written = do_request true (λ i. not_closed) heartbeat_request (record queued { pending_reqs = [] })

abbrev awaited : Client
awaited = record written {
  writing = none;
  waiting_reqs = written.waiting_reqs ++ heartbeat_request ∷ [];
}

abbrev answered : Client
answered = finish_request heartbeat_request (status (codes "PONG")) (record awaited {
  wire = [];
  waiting_reqs = [];
  replies = awaited.replies ++ (codes "PING" ∷ [], status (codes "PONG")) ∷ [];
})

run : Reach make_client answered
unfolding make_client enqueue do_request guarded write_request after_write write finish_request
run =
    next
      (next
        (next (next here (sends heartbeat_request (omega arith)))
          (writes heartbeat_request [] true (λ i. not_closed) refl refl))
        (waits heartbeat_request refl (omega arith)))
      (reads heartbeat_request [] (codes "PING" ∷ []) [] (status (codes "PONG")) refl refl refl)

no_loss : answered.losses ≡ 0
unfolding make_client enqueue do_request guarded write_request after_write write finish_request
no_loss = refl

Reach-InOrder_example : InOrder answered
Reach-InOrder_example = Reach-InOrder answered run no_loss

Reach-Conserved_example : Conserved answered
Reach-Conserved_example = Reach-Conserved answered run

reply_shifts_example :
    Shifted
      (codes "GET")
      (codes "SET")
      (codes "a" ∷ [])
      (codes "b" ∷ codes "1" ∷ [])
      false
      false
      (status (codes "x"))
      (standard_err (codes "EOF"))
reply_shifts_example =
    reply_shifts (codes "GET") (codes "SET") (codes "a" ∷ []) (codes "b" ∷ codes "1" ∷ []) false
      false (status (codes "x")) (standard_err (codes "EOF"))
