-- ===== src/Client/Order.antt =====
-- resp/client/client.go: which request a reply is handed to.
use mathlib.Core.Path.{subst}
use mudis.Client.{
  Request, Outcome, replied, broken, Client, make_client, enqueue, close_conn, dial, write, Attempt,
  not_closed, not_dialled, not_written, is_written, attempt, retry, guarded, write_request,
  after_write, do_request, finish_request, Step, sends, writes, waits, reads, reads_error, loses,
  Reach, here, next,
}
use mudis.Reply.{Reply}
use mudis.Database.{CmdLine}
use mudis.Prelude.{
  ℕ, zero, suc, ◌+◌, ◌≤◌, List, [], ◌∷◌, ◌++◌, Option, none, some, Bool, true, false, map,
  append-nil, ◌≡◌, refl, sym, ap, ◌∙◌, arith,
}

abbrev pub one : Option Request → List Request
one none = []
one (some req) = req ∷ []

-- The requests that were written and have no outcome, in their order.
abbrev pub in_flight : Client → List Request
in_flight c = c.waiting_reqs ++ one c.writing

abbrev pub args_of : List Request → List CmdLine
args_of = map (λ (req : Request). req.args)

-- The replies that were handed to requests, with the lines of these.
abbrev pub delivered : List (Request × Outcome) → List (CmdLine × Reply)
delivered [] = []
delivered ((req, replied v) ∷ done) = (req.args, v) ∷ delivered done
delivered ((req, broken) ∷ done) = delivered done

delivered-append :
    (xs ys : List (Request × Outcome)) → delivered (xs ++ ys) ≡ delivered xs ++ delivered ys
delivered-append [] ys = refl
delivered-append ((req, replied v) ∷ xs) ys = ap (λ l. (req.args, v) ∷ l) (delivered-append xs ys)
delivered-append ((req, broken) ∷ xs) ys = delivered-append xs ys

args_of-append : (xs ys : List Request) → args_of (xs ++ ys) ≡ args_of xs ++ args_of ys
args_of-append [] ys = refl
args_of-append (x ∷ xs) ys = ap (λ l. x.args ∷ l) (args_of-append xs ys)

-- No error waits for a request, the lines on the connection are those of the requests in flight, and
-- every reply of the peer was handed to a request with the line that it replies to.
abbrev pub InOrder : Client → Type 0
InOrder c = (c.ended ≡ 0) × (c.wire ≡ args_of (in_flight c)) × (delivered c.finished ≡ c.replies)

-- A client that has lost no more connections than before has written nothing in the loop.
abbrev Tried : Client → Client × Bool → Type 0
Tried c (d, done) = (c.losses ≤ d.losses) × (d.losses ≤ c.losses → (d ≡ c) × (done ≡ false))

Tried-lost :
    (k : ℕ) (c d : Client) (r : Client × Bool) → c.losses + 1 ≤ d.losses → Tried d r → Tried c r
Tried-lost k c d (e, done) l (le, same) = (omega arith, λ h. absurd (omega arith))

attempt-Tried :
    (a : Attempt) (again : Client → Client × Bool) (req : Request) (c : Client)
    → ((d : Client) → Tried d (again d))
    → Tried c (attempt a again req c)
unfolding attempt close_conn dial write
attempt-Tried not_closed again req c h = h c
attempt-Tried not_dialled again req c h =
    Tried-lost 0 c (close_conn c) _ (omega arith) (h (close_conn c))
attempt-Tried not_written again req c h =
    Tried-lost 0 c (dial (close_conn c)) _ (omega arith) (h (dial (close_conn c)))
attempt-Tried is_written again req c h = (omega arith, λ k. absurd (omega arith))

retry-Tried :
    (n : ℕ) (attempts : ℕ → Attempt) (req : Request) (c : Client) → Tried c (retry n attempts req c)
unfolding retry
retry-Tried zero attempts req c = (omega arith, λ h. (refl, refl))
retry-Tried (suc n) attempts req c =
    attempt-Tried (attempts n) (retry n attempts req) req c (retry-Tried n attempts req)

-- What holds while no connection is lost.
abbrev Steady : Client → Type 0
Steady c = c.losses ≡ 0 → InOrder c

failed-Steady :
    (c : Client) (req : Request)
    → Steady c
    → Steady (record c { finished = c.finished ++ (req, broken) ∷ [] })
failed-Steady c req s l =
    let (e, w, d) = s l in
    (e, w, delivered-append c.finished ((req, broken) ∷ []) ∙ append-nil (delivered c.finished) ∙ d)

written-Steady :
    (c : Client) (req : Request)
    → c.writing ≡ none
    → Steady c
    → Steady (record c { wire = c.wire ++ req.args ∷ []; writing = some req })
written-Steady c req n s l =
    let (e, w, d) = s l in
    let w' : c.wire ≡ args_of c.waiting_reqs =
      w ∙ ap args_of (ap (λ o. c.waiting_reqs ++ one o) n ∙ append-nil c.waiting_reqs) in
    (e, ap (λ l. l ++ req.args ∷ []) w' ∙ sym (args_of-append c.waiting_reqs (req ∷ [])), d)

retried-Steady :
    (c : Client) (req : Request) (r : Client × Bool)
    → Tried c r
    → Steady c
    → Steady (after_write req r)
unfolding after_write
retried-Steady c req (d, true) (le, same) s l = absurd (cc ((same (omega arith)).1))
retried-Steady c req (d, false) (le, same) s l =
    let e : d ≡ c = (same (omega arith)).0 in failed-Steady d req (subst Steady (sym e) s) l

written_first-Steady :
    (first : Bool) (attempts : ℕ → Attempt) (req : Request) (c : Client)
    → c.writing ≡ none
    → Steady c
    → Steady (after_write req (write_request first attempts req c))
unfolding write_request
written_first-Steady true attempts req c n s = unfold after_write write in written-Steady c req n s
written_first-Steady false attempts req c n s =
    retried-Steady c req (retry 3 attempts req c) (retry-Tried 3 attempts req c) s

guarded-Steady : (args : CmdLine) (c d : Client) → Steady c → Steady d → Steady (guarded args c d)
unfolding guarded
guarded-Steady [] c d s t = s
guarded-Steady (_ ∷ _) c d s t = t

Step-Steady : {c d : Client} → Step c d → Steady c → Steady d
unfolding enqueue do_request finish_request close_conn
Step-Steady (sends req h) s l = s l
Step-Steady {c} (writes req rest first attempts p n) s l =
    guarded-Steady req.args _ _ s
      (written_first-Steady first attempts req (record c { pending_reqs = rest }) n s) l
Step-Steady {c} (waits req n h) s l =
    let (e, w, d) = s l in
    (e, w ∙ ap args_of (ap (λ o. c.waiting_reqs ++ one o) n ∙ sym (append-nil _)), d)
Step-Steady {c} (reads req rest line lines v r w q) s l =
    let (e, i, d) = s l in
    let k : line ∷ lines ≡ req.args ∷ args_of (rest ++ one c.writing) =
      sym w ∙ i ∙ ap (λ xs. args_of (xs ++ one c.writing)) q in
    let same : req.args ≡ line = cc in
    (
      e,
      cc,
      delivered-append c.finished ((req, replied v) ∷ [])
          ∙ ap (λ ds. ds ++ (req.args, v) ∷ []) d
          ∙ ap (λ a. c.replies ++ (a, v) ∷ []) same,
    )
Step-Steady (reads_error req rest n v e q) s l = absurd (omega (arith, (s l).0, e))
Step-Steady (loses r) s l = absurd (omega arith)

make_client-Steady : Steady make_client
unfolding make_client
make_client-Steady l = (refl, refl, refl)

Reach-Steady : {c : Client} → Reach make_client c → Steady c
Reach-Steady here = make_client-Steady
Reach-Steady (next r st) = Step-Steady st (Reach-Steady r)

-- In every state that a client comes to while it loses no connection, no error waits for a request,
-- the lines on the connection are those of the requests in flight, in their order, and every reply
-- of the peer was handed to a request with the line that it replies to.
pub Reach-InOrder : (c : Client) → Reach make_client c → c.losses ≡ 0 → InOrder c
Reach-InOrder c r = Reach-Steady r
