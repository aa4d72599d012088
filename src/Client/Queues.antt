-- ===== src/Client/Queues.antt =====
-- resp/client/client.go: where a request is, from its sending to its outcome.
use mudis.Client.{
  Request, Outcome, replied, broken, Client, make_client, enqueue, close_conn, dial, write, Attempt,
  not_closed, not_dialled, not_written, is_written, attempt, retry, guarded, write_request,
  after_write, do_request, finish_request, chan_size, Step, sends, writes, waits, reads,
  reads_error, loses, Reach, here, next,
}
use mudis.Client.Order.{one}
use mudis.Database.{CmdLine}
use mudis.Prelude.{
  ℕ, zero, suc, ◌+◌, ◌≤◌, List, [], ◌∷◌, ◌++◌, none, Bool, true, false, length, length-append,
  if◌then◌else◌, ◌≡◌, refl, ap, arith,
}

-- The requests that ended.
abbrev pub ended_requests : List (Request × Outcome) → List Request
ended_requests [] = []
ended_requests ((req, _) ∷ done) = req ∷ ended_requests done

abbrev pub count : (Request → Bool) → List Request → ℕ
count p [] = 0
count p (req ∷ reqs) = (if p req then 1 else 0) + count p reqs

count-append :
    (p : Request → Bool) (xs ys : List Request) → count p (xs ++ ys) ≡ count p xs + count p ys
count-append p [] ys = omega arith
count-append p (x ∷ xs) ys = omega (arith, count-append p xs ys)

count-ended :
    (p : Request → Bool) (xs ys : List (Request × Outcome))
    → count p (ended_requests (xs ++ ys))
      ≡ count p (ended_requests xs) + count p (ended_requests ys)
count-ended p [] ys = omega arith
count-ended p (x ∷ xs) ys = omega (arith, count-ended p xs ys)

-- Where the requests that pass a test are.
abbrev pub placed : (Request → Bool) → Client → ℕ
placed p c =
    count p c.pending_reqs
    + count p (one c.writing)
    + count p c.waiting_reqs
    + count p c.dropped
    + count p (ended_requests c.finished)

-- The queues and the history of requests are the same.
abbrev SameQueues : Client → Client → Type 0
SameQueues c d =
    (d.pending_reqs ≡ c.pending_reqs)
    × (d.waiting_reqs ≡ c.waiting_reqs)
    × (d.writing ≡ c.writing)
    × (d.sent ≡ c.sent)
    × (d.dropped ≡ c.dropped)
    × (d.finished ≡ c.finished)

attempt-SameQueues :
    (a : Attempt) (again : Client → Client × Bool) (req : Request) (c : Client)
    → ((d : Client) → SameQueues d (again d).0)
    → SameQueues c (attempt a again req c).0
unfolding attempt close_conn dial write
attempt-SameQueues not_closed again req c h = h c
attempt-SameQueues not_dialled again req c h = h (close_conn c)
attempt-SameQueues not_written again req c h = h (dial (close_conn c))
attempt-SameQueues is_written again req c h = (refl, refl, refl, refl, refl, refl)

retry-SameQueues :
    (n : ℕ) (attempts : ℕ → Attempt) (req : Request) (c : Client)
    → SameQueues c (retry n attempts req c).0
unfolding retry
retry-SameQueues zero attempts req c = (refl, refl, refl, refl, refl, refl)
retry-SameQueues (suc n) attempts req c =
    attempt-SameQueues (attempts n) (retry n attempts req) req c (retry-SameQueues n attempts req)

write_request-SameQueues :
    (first : Bool) (attempts : ℕ → Attempt) (req : Request) (c : Client)
    → SameQueues c (write_request first attempts req c).0
unfolding write_request write
write_request-SameQueues true attempts req c = (refl, refl, refl, refl, refl, refl)
write_request-SameQueues false attempts req c = retry-SameQueues 3 attempts req c

-- The request that `handleWrite` took is placed once more.
abbrev Placed : Request → Client → Client → Type 0
Placed req c d =
    (d.sent ≡ c.sent)
    × ((p : Request → Bool) → placed p d ≡ placed p c + (if p req then 1 else 0))
    × (d.pending_reqs ≡ c.pending_reqs)
    × (d.waiting_reqs ≡ c.waiting_reqs)

after_write-Placed :
    (req : Request) (c : Client) (r : Client × Bool)
    → c.writing ≡ none
    → SameQueues c r.0
    → Placed req c (after_write req r)
unfolding after_write
after_write-Placed req c (d, true) n (a, b, w, s, r, f) = (
  s,
  λ p. omega (
    arith,
    ap (count p) a,
    ap (count p) b,
    ap (λ o. count p (one o)) n,
    ap (count p) r,
    ap (λ x. count p (ended_requests x)) f,
  ),
  a,
  b,
)
after_write-Placed req c (d, false) n (a, b, w, s, r, f) = (
  s,
  λ p. omega (
    arith,
    ap (count p) a,
    ap (count p) b,
    ap (λ o. count p (one o)) w,
    ap (count p) r,
    ap (λ x. count p (ended_requests x)) f,
    count-ended p d.finished ((req, broken) ∷ []),
  ),
  a,
  b,
)

guarded-Placed :
    (args : CmdLine) (req : Request) (c d : Client)
    → Placed req c d
    → Placed req c (guarded args (record c { dropped = c.dropped ++ req ∷ [] }) d)
unfolding guarded
guarded-Placed [] req c d h =
    (refl, λ p. omega (arith, count-append p c.dropped (req ∷ [])), refl, refl)
guarded-Placed (_ ∷ _) req c d h = h

-- A request stands once in one of the places, however often it was sent, and the channels are
-- within their sizes.
abbrev pub Conserved : Client → Type 0
Conserved c =
    ((p : Request → Bool) → count p c.sent ≡ placed p c)
    × (length c.pending_reqs ≤ chan_size)
    × (length c.waiting_reqs ≤ chan_size)

written-Conserved :
    (req : Request) (rest : List Request) (c d : Client)
    → c.pending_reqs ≡ req ∷ rest
    → Conserved c
    → Placed req (record c { pending_reqs = rest }) d
    → Conserved d
written-Conserved req rest c d e (k, l, m) (s, pl, a, b) = (
  λ p. omega (arith, ap (count p) s, k p, pl p, ap (count p) e),
  omega (arith, ap (λ (x : List Request). length x) a, ap (λ (x : List Request). length x) e),
  omega (arith, ap (λ (x : List Request). length x) b),
)

Step-Conserved : {c d : Client} → Step c d → Conserved c → Conserved d
unfolding enqueue do_request finish_request close_conn
Step-Conserved {c} (sends req h) (k, l, m) = (
  λ p.
      omega
        (arith, k p, count-append p c.sent (req ∷ []), count-append p c.pending_reqs (req ∷ [])),
  omega (arith, length-append c.pending_reqs (req ∷ [])),
  m,
)
Step-Conserved {c} (writes req rest first attempts e n) h =
    let c' : Client = record c { pending_reqs = rest } in
    let d : Client = after_write req (write_request first attempts req c') in
    written-Conserved req rest c
      (guarded req.args (record c' { dropped = c'.dropped ++ req ∷ [] }) d) e h
      (guarded-Placed req.args req c' d (
        after_write-Placed req c' (write_request first attempts req c') n
          (write_request-SameQueues first attempts req c')))
Step-Conserved {c} (waits req n h) (k, l, m) = (
  λ p. omega (arith, k p, count-append p c.waiting_reqs (req ∷ []), ap (λ o. count p (one o)) n),
  l,
  omega (arith, length-append c.waiting_reqs (req ∷ [])),
)
Step-Conserved {c} (reads req rest line lines v r w q) (k, l, m) = (
  λ p. omega (arith, k p, ap (count p) q, count-ended p c.finished ((req, replied v) ∷ [])),
  l,
  omega (arith, ap (λ (x : List Request). length x) q),
)
Step-Conserved {c} (reads_error req rest n v e q) (k, l, m) = (
  λ p. omega (arith, k p, ap (count p) q, count-ended p c.finished ((req, replied v) ∷ [])),
  l,
  omega (arith, ap (λ (x : List Request). length x) q),
)
Step-Conserved (loses r) h = h

make_client-Conserved : Conserved make_client
unfolding make_client
make_client-Conserved = (λ p. refl, omega arith, omega arith)

-- In every state that a client comes to, each request that was sent stands exactly once among the
-- pending ones, the one being written, the waiting ones, those dropped for having no arguments and
-- those that ended, and the two channels hold at most 256 requests each.
pub Reach-Conserved : (c : Client) → Reach make_client c → Conserved c
Reach-Conserved c here = make_client-Conserved
Reach-Conserved c (next r st) = Step-Conserved st (Reach-Conserved _ r)
