-- ===== src/Cluster.antt =====
-- cluster: a node of the cluster, its router and the commands that it relays. The node's own database
-- and the pools of the clients of its peers are a parameter, `Network`, over the world's state.
pub mod Peers
pub mod Serve
pub mod Owner
pub mod SameAnswer
pub mod Relay
pub mod Deletion
use mudis.Prelude.Int.{ℤ, pos, add64}
use mudis.Strconv.{format_int}
use mudis.Reply.{Reply, ok_reply, unknown_err, int, standard_err, is_error_reply, error_text}
use mudis.ConsistentHash.{NodeMap, make_node_map, add_node, pick_node}
use mudis.Database.{CmdLine}
use mudis.Dict.GoMap.{GoMap, lookup, insert}
use mudis.Prelude.{
  ℕ, Bytes, codes, List, [], ◌∷◌, ◌++◌, Option, none, some, Bool, true, false, ◌==◌, length,
  if◌then◌else◌, to_lower, beq,
}

-- The struct without its database and its pools: `peer_connection` has the keys of the map of pools.
pub record ClusterDatabase : Type 0 where
  pub self : Bytes
  pub nodes : List Bytes
  pub peer_picker : NodeMap
  pub peer_connection : List Bytes

-- `MakeClusterDatabase` of `config.Properties.Self` and `config.Properties.Peers`.
unfoldable pub make_cluster_database : (Bytes → ℕ) → Bytes → List Bytes → ClusterDatabase
make_cluster_database hash_func self peers =
    let nodes = peers ++ self ∷ [] in
    record {
      self = self;
      nodes = nodes;
      peer_picker = add_node hash_func make_node_map nodes;
      peer_connection = peers;
    }

-- What a database or a peer replies, and the world and the connection's index behind it.
pub record Answer (W : Type 0) : Type 0 where
  pub result : Reply
  pub world : W
  pub selected_db : ℤ

-- `cluster.db.Exec`; the text of the error of `BorrowObject`, if it has one; `Client.Send`.
pub record Network (W : Type 0) : Type 0 where
  pub local : W → ℤ → CmdLine → Answer W
  pub borrow : W → Bytes → Option Bytes
  pub send : W → Bytes → CmdLine → Reply × W

-- What a command replies; `none` is a panic.
pub record Call (W : Type 0) : Type 0 where
  pub reply : Option Reply
  pub world : W
  pub selected_db : ℤ

-- The replies of all nodes, by node.
pub record Broadcast (W : Type 0) : Type 0 where
  pub replies : GoMap Reply
  pub world : W
  pub selected_db : ℤ

-- The functions of the router.
pub data CmdFunc : Type 0 where
  ping : CmdFunc
  del : CmdFunc
  default_func : CmdFunc
  rename : CmdFunc
  flush_db : CmdFunc

abbrev pub make_router : GoMap CmdFunc
make_router =
    (codes "ping", ping)
    ∷ (codes "del", del)
    ∷ (codes "exists", default_func)
    ∷ (codes "type", default_func)
    ∷ (codes "rename", rename)
    ∷ (codes "renamenx", rename)
    ∷ (codes "set", default_func)
    ∷ (codes "setnx", default_func)
    ∷ (codes "get", default_func)
    ∷ (codes "getset", default_func)
    ∷ (codes "flushdb", flush_db)
    ∷ []

-- `_, ok := m[key]`
unfoldable pub contains : Bytes → List Bytes → Bool
contains key [] = false
contains key (k ∷ keys) = let rest = contains key keys in if beq k key then true else rest

-- How the loop over the replies ends: by a panic, with an error's text, or with the sum.
pub data Total : Type 0 where
  panics : Total
  failed : Bytes → Total
  summed : ℤ → Total

-- `v.(reply.ErrorReply)` and its `Error()`.
failure_of : Reply → Total
failure_of v = elim (error_text v) [ none ↦ panics | some text ↦ failed text ]

as_int : Reply → Option ℤ
as_int (int code) = some code
as_int _ = none

-- The loop of `Del`; a reply that is neither an error nor an integer dereferences a nil pointer.
unfoldable pub del_loop : ℤ → GoMap Reply → Total
unfolding failure_of as_int
del_loop deleted [] = summed deleted
del_loop deleted ((_, v) ∷ replies) = elim (is_error_reply v) [
  | none ↦ panics
  | some true ↦ failure_of v
  | some false ↦ elim (as_int v) [
    | none ↦ panics
    | some code ↦ del_loop (add64 deleted code) replies
  ]
]

-- The loop of `FlushDB`.
unfoldable pub flush_loop : GoMap Reply → Total
unfolding failure_of
flush_loop [] = summed (pos 0)
flush_loop ((_, v) ∷ replies) = elim (is_error_reply v) [
  | none ↦ panics
  | some true ↦ failure_of v
  | some false ↦ flush_loop replies
]

abbrev pub error_occurs : Bytes → Reply
error_occurs text = standard_err (codes "error occurs: " ++ text)

del_reply : Total → Option Reply
del_reply panics = none
del_reply (failed text) = some (error_occurs text)
del_reply (summed deleted) = some (int deleted)

flush_reply : Total → Option Reply
flush_reply panics = none
flush_reply (failed text) = some (error_occurs text)
flush_reply (summed _) = some ok_reply

-- `utils.ToCmdLine("SELECT", strconv.Itoa(c.GetDBIndex()))`
unfoldable pub select_line : ℤ → CmdLine
select_line c = codes "SELECT" ∷ format_int c ∷ []

module _ {W : Type 0} (hash_func : Bytes → ℕ) (net : Network W) (cluster : ClusterDatabase) where
  -- `getPeerClient`: the text of its error, if it has one.
  unfoldable pub get_peer_client : W → Bytes → Option Bytes
  get_peer_client w peer =
      if contains peer cluster.peer_connection
      then net.borrow w peer
      else some (codes "connection factory not found")

  unfoldable pub relay : W → ℤ → Bytes → CmdLine → Answer W
  unfolding get_peer_client
  relay w c peer args =
      if beq peer cluster.self then net.local w c args else (elim (get_peer_client w peer) [
        | some text ↦ record { result = standard_err text; world = w; selected_db = c }
        | none ↦
            let selected = net.send w peer (select_line c) in
            let answered = net.send selected.1 peer args in
            record { result = answered.0; world = answered.1; selected_db = c }
      ])

  -- The loop of `broadcast`.
  unfoldable pub broadcast_loop : List Bytes → W → ℤ → CmdLine → GoMap Reply → Broadcast W
  broadcast_loop [] w c args result = record { replies = result; world = w; selected_db = c }
  broadcast_loop (node ∷ nodes) w c args result =
      let a = relay w c node args in
      broadcast_loop nodes a.world a.selected_db args (insert node a.result result)

  unfoldable pub broadcast : W → ℤ → CmdLine → Broadcast W
  broadcast w c args = broadcast_loop cluster.nodes w c args []

  unfoldable pub answered : Answer W → Call W
  answered a = record { reply = some a.result; world = a.world; selected_db = a.selected_db }

  -- `defaultFunc`; a line with no key panics.
  unfoldable pub exec_default : W → ℤ → CmdLine → Call W
  unfolding answered
  exec_default w c (name ∷ key ∷ args) =
      answered (relay w c (pick_node hash_func cluster.peer_picker key) (name ∷ key ∷ args))
  exec_default w c _ = record { reply = none; world = w; selected_db = c }

  -- `Rename`
  unfoldable pub exec_rename : W → ℤ → CmdLine → Call W
  unfolding answered
  exec_rename w c (name ∷ src ∷ dest ∷ []) =
      let src_peer = pick_node hash_func cluster.peer_picker src in
      if beq src_peer (pick_node hash_func cluster.peer_picker dest)
      then answered (relay w c src_peer (name ∷ src ∷ dest ∷ []))
      else record {
        reply = some (standard_err (codes "ERR rename must within one slot in cluster mode"));
        world = w;
        selected_db = c;
      }
  exec_rename w c _ = record {
    reply = some (standard_err (codes "ERR wrong number of arguments for 'rename' command"));
    world = w;
    selected_db = c;
  }

  -- `Del`
  unfoldable pub exec_del : W → ℤ → CmdLine → Call W
  unfolding broadcast del_reply
  exec_del w c args =
      let b = broadcast w c args in
      record {
        reply = del_reply (del_loop (pos 0) b.replies);
        world = b.world;
        selected_db = b.selected_db;
      }

  -- `FlushDB`
  unfoldable pub exec_flush_db : W → ℤ → CmdLine → Call W
  unfolding broadcast flush_reply
  exec_flush_db w c args =
      let b = broadcast w c args in
      record {
        reply = flush_reply (flush_loop b.replies);
        world = b.world;
        selected_db = b.selected_db;
      }

  unfoldable pub run : CmdFunc → W → ℤ → CmdLine → Call W
  unfolding answered
  run ping w c line = answered (net.local w c line)
  run del w c line = exec_del w c line
  run default_func w c line = exec_default w c line
  run rename w c line = exec_rename w c line
  run flush_db w c line = exec_flush_db w c line

  -- A panic is recovered and answered by the unknown error.
  unfoldable pub recovered : Call W → Answer W
  recovered r = record {
    result = elim r.reply [ none ↦ unknown_err | some v ↦ v ];
    world = r.world;
    selected_db = r.selected_db;
  }

  -- `Exec`
  unfoldable pub exec : W → ℤ → CmdLine → Answer W
  unfolding run recovered
  exec w c [] = record { result = unknown_err; world = w; selected_db = c }
  exec w c (name ∷ args) = elim (lookup (to_lower name) make_router) [
    | none ↦ record {
      result = standard_err (
          codes "ERR unknown command '"
          ++ (to_lower name ++ codes "', or not supported in cluster mode"));
      world = w;
      selected_db = c;
    }
    | some f ↦ recovered (run f w c (name ∷ args))
  ]
