-- ===== src/Cluster/Peers.antt =====
-- cluster/com.go with resp/client: the nodes of a cluster that serve one another. The request and the
-- reply go over the connection as bytes; each request finds it with no bytes left over from another,
-- which a reply that the protocol does not carry would leave (resp/reply/reply.go). `borrow` is the
-- pool, with the dialling of its factory: the text of its error, if it has one.
use mudis.Cluster.{ClusterDatabase, Answer, Network, make_cluster_database, exec}
use mudis.Handler.{DatabaseFace, Served, returned, waiting, handle}
use mudis.Parser.{Payload, reply, failure, protocol_error, parse_stream}
use mudis.Aof.{line_to_bytes}
use mudis.Standalone
use mudis.Standalone.{Standalone}
use mudis.Reply.{Reply, standard_err}
use mudis.Database.{CmdLine, CmdTable}
use mudis.Prelude.Int.{ℤ}
use mudis.Prelude.{
  ℕ, zero, suc, Bytes, codes, List, [], ◌∷◌, ◌++◌, Option, some, Bool, true, false, beq,
  if◌then◌else◌,
}

-- `Send` of a request that was not answered within `maxWait`.
abbrev pub time_out : Reply
time_out = standard_err (codes "server time out")

-- `handleRead` with the first payload; the end of the bytes is not the end of the connection.
unfoldable pub first_reply : List Payload → Reply
first_reply [] = time_out
first_reply (reply r ∷ _) = r
first_reply (failure (protocol_error msg) ∷ _) = standard_err (codes "protocol error: " ++ msg)
first_reply (failure _ ∷ _) = time_out

-- What the client makes of the bytes that come back.
unfoldable pub received : Bytes → Reply
unfolding first_reply
received bytes = first_reply (parse_stream bytes).payloads

abbrev pub join : List Bytes → Bytes
join [] = []
join (b ∷ bs) = b ++ join bs

-- The databases of all nodes.
abbrev pub World : Type 0 → Type 0
World C = Bytes → Standalone C

abbrev pub update : {C : Type 0} → World C → Bytes → Standalone C → World C
update w name mdb = λ n. if beq n name then mdb else w n

abbrev pub sent : {C : Type 0} → Served (World C) → Reply × World C
sent (returned s) = (received (join s.written), s.db)
sent (waiting s) = (received (join s.written), s.db)

-- `peers` is the configuration of every node.
module _ {C : Type 0} (hash_func : Bytes → ℕ) (append_only : Bool) (table : CmdTable C)
    (peers : Bytes → List Bytes) (borrow : Bytes → Option Bytes) where
  abbrev pub node : Bytes → ClusterDatabase
  node self = make_cluster_database hash_func self (peers self)

  -- What a node reaches, by the way that a request to a peer is answered.
  abbrev pub network : (World C → Bytes → CmdLine → Reply × World C) → Bytes → Network (World C)
  network send self = record {
    local = λ w c line.
        let a = Standalone.exec append_only table (w self) c line in
        record { result = a.result; world = update w self a.server; selected_db = a.selected_db };
    borrow = λ w peer. borrow peer;
    send = send;
  }

  -- The database of a node as its handler has it.
  abbrev pub face : (World C → Bytes → CmdLine → Reply × World C) → Bytes → DatabaseFace (World C)
  face send self = record {
    exec = λ w c line.
        let a = exec hash_func (network send self) (node self) w c line in
        (some a.result, a.world, a.selected_db);
  }

  -- `Send` to a peer that is served within so many relays; beyond these, it has timed out. The
  -- connection is one that selected no database.
  unfoldable pub serve : ℕ → World C → Bytes → CmdLine → Reply × World C
  serve zero w peer line = (time_out, w)
  serve (suc hops) w peer line = sent (
      handle (face (serve hops) peer) (λ written. true) (λ text. false) false w
        (line_to_bytes line))

  -- `Exec` on a node.
  abbrev pub exec_on : ℕ → Bytes → World C → ℤ → CmdLine → Answer (World C)
  exec_on hops self = exec hash_func (network (serve hops) self) (node self)
