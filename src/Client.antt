-- ===== src/Client.antt =====
-- resp/client/client.go: the client that keeps requests in flight, a state with its goroutines as steps.
-- The peer, its connections and the clock are the environment: it chooses the step.
pub mod Order
pub mod Queues
pub mod Shift
use mudis.Reply.{Reply, standard_err}
use mudis.Database.{CmdLine}
use mudis.Prelude.{
  ℕ, zero, suc, ◌+◌, ◌<◌, codes, List, [], ◌∷◌, ◌++◌, Option, none, some, Bool, true, false, length,
  if◌then◌else◌, ◌≡◌,
}

pub record Request : Type 0 where
  pub args : CmdLine
  pub heartbeat : Bool

-- What a request ends with: its reply, or its `err`.
pub data Outcome : Type 0 where
  replied : Reply → Outcome
  broken : Outcome

abbrev pub chan_size : ℕ
chan_size = 256

-- The two channels, the request that `doRequest` has written and not yet put on the second, and the
-- connection: the lines on it that the peer has not replied to, and whether its `handleRead` reads.
-- `ended` counts the calls of `handleRead` whose connection ended and whose error waits for a request.
-- The rest is history: the requests sent, those dropped for having no arguments, those that ended,
-- the peer's replies, and how often a connection was lost or closed.
pub record Client : Type 0 where
  pub pending_reqs : List Request
  pub writing : Option Request
  pub waiting_reqs : List Request
  pub wire : List CmdLine
  pub reading : Bool
  pub ended : ℕ
  pub sent : List Request
  pub dropped : List Request
  pub finished : List (Request × Outcome)
  pub replies : List (CmdLine × Reply)
  pub losses : ℕ

-- `MakeClient` and `Start`
unfoldable pub make_client : Client
make_client = record {
  pending_reqs = [];
  writing = none;
  waiting_reqs = [];
  wire = [];
  reading = true;
  ended = 0;
  sent = [];
  dropped = [];
  finished = [];
  replies = [];
  losses = 0;
}

-- `client.pendingReqs <- request` of `Send` and `doHeartbeat`.
unfoldable pub enqueue : Request → Client → Client
enqueue req c = record c { pending_reqs = c.pending_reqs ++ req ∷ []; sent = c.sent ++ req ∷ [] }

abbrev pub heartbeat_request : Request
heartbeat_request = record { args = codes "PING" ∷ []; heartbeat = true }

-- `conn.Close`, or the peer closes: what is on the connection is lost, and its `handleRead` ends
-- with the parser's error.
unfoldable pub close_conn : Client → Client
close_conn c = record c {
  wire = [];
  reading = false;
  ended = if c.reading then c.ended + 1 else c.ended;
  losses = c.losses + 1;
}

-- `net.Dial`, and the goroutine that reads.
unfoldable pub dial : Client → Client
dial c = record c { reading = true }

unfoldable pub write : Request → Client → Client
write req c = record c { wire = c.wire ++ req.args ∷ [] }

-- One round of the loop of `doRequest`: the old connection is not closed, no new one is made, the
-- write on the new one fails, or the request is written.
pub data Attempt : Type 0 where
  not_closed : Attempt
  not_dialled : Attempt
  not_written : Attempt
  is_written : Attempt

-- `handleConnectionError` and the write; whether `err` is nil behind them, or goes into the next round.
unfoldable pub attempt : Attempt → (Client → Client × Bool) → Request → Client → Client × Bool
unfolding close_conn dial write
attempt not_closed again req c = again c
attempt not_dialled again req c = again (close_conn c)
attempt not_written again req c = again (dial (close_conn c))
attempt is_written again req c = (write req (dial (close_conn c)), true)

-- The loop, for so many rounds.
unfoldable pub retry : ℕ → (ℕ → Attempt) → Request → Client → Client × Bool
unfolding attempt
retry zero attempts req c = (c, false)
retry (suc n) attempts req c = attempt (attempts n) (retry n attempts req) req c

-- The first write and the loop.
unfoldable pub write_request : Bool → (ℕ → Attempt) → Request → Client → Client × Bool
unfolding write retry
write_request first attempts req c = if first then (write req c, true) else retry 3 attempts req c

-- Behind the loop; the request is put on `waitingReqs` in a step of its own.
unfoldable pub after_write : Request → Client × Bool → Client
after_write req (c, true) = record c { writing = some req }
after_write req (c, false) = record c { finished = c.finished ++ (req, broken) ∷ [] }

-- `len(req.args) == 0`
unfoldable pub guarded : CmdLine → Client → Client → Client
guarded [] without otherwise = without
guarded (_ ∷ _) without otherwise = otherwise

unfoldable pub do_request : Bool → (ℕ → Attempt) → Request → Client → Client
unfolding guarded write_request after_write
do_request first attempts req c =
    guarded req.args (record c { dropped = c.dropped ++ req ∷ [] })
      (after_write req (write_request first attempts req c))

-- `finishRequest` with the request that it receives.
unfoldable pub finish_request : Request → Reply → Client → Client
finish_request req v c = record c { finished = c.finished ++ (req, replied v) ∷ [] }

-- `Send` behind its wait, which `timeout` ends or the request's outcome.
unfoldable pub send_result : Bool → Outcome → Reply
send_result true out = standard_err (codes "server time out")
send_result false (replied v) = v
send_result false broken = standard_err (codes "request failed")

-- The steps of the goroutines and of the peer. A channel that is full blocks its sender, and
-- an empty one its receiver.
pub data Step (c : Client) : Client → Type 0 where
  sends : (req : Request) → length c.pending_reqs < chan_size → Step c (enqueue req c)
  -- `handleWrite`
  writes :
      (req : Request) (rest : List Request) (first : Bool) (attempts : ℕ → Attempt)
      → c.pending_reqs ≡ req ∷ rest
      → c.writing ≡ none
      → Step c (do_request first attempts req (record c { pending_reqs = rest }))
  -- `client.waitingReqs <- req`
  waits :
      (req : Request)
      → c.writing ≡ some req
      → length c.waiting_reqs < chan_size
      → Step c (record c { writing = none; waiting_reqs = c.waiting_reqs ++ req ∷ [] })
  -- The peer replies to the next line, and `handleRead` hands the reply to the next request.
  reads :
      (req : Request) (rest : List Request) (line : CmdLine) (lines : List CmdLine) (v : Reply)
      → c.reading ≡ true
      → c.wire ≡ line ∷ lines
      → c.waiting_reqs ≡ req ∷ rest
      → Step c (
          finish_request req v
            (record c { wire = lines; waiting_reqs = rest; replies = c.replies ++ (line, v) ∷ [] }))
  -- A `handleRead` whose connection ended hands its error to the next request.
  reads_error :
      (req : Request) (rest : List Request) (n : ℕ) (v : Reply)
      → c.ended ≡ suc n
      → c.waiting_reqs ≡ req ∷ rest
      → Step c (finish_request req v (record c { ended = n; waiting_reqs = rest }))
  -- The connection is lost.
  loses : c.reading ≡ true → Step c (close_conn c)

pub data Reach (s : Client) : Client → Type 0 where
  here : Reach s s
  next : {t u : Client} → Reach s t → Step t u → Reach s u
