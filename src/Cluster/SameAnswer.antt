-- ===== src/Cluster/SameAnswer.antt =====
-- cluster/router.go: what the clients of the nodes are answered to a command with one key.
use mudis.Cluster.Peers.{World, update, exec_on, received}
use mudis.Parser.Replies.{Crosses}
use mudis.Cluster.Serve.{to_bytes-received}
use mudis.Cluster.{Answer, default_func, make_router}
use mudis.ConsistentHash.{make_node_map, add_node, pick_node}
use mudis.ConsistentHash.Laws.{OneOf}
use mudis.ConsistentHash.Agree.{Within, Named, Distinct}
use mudis.Handler.Laws.{IsRequest}
use mudis.Dict.GoMap.{lookup}
use mudis.Standalone
use mudis.Standalone.{Standalone}
use mudis.Reply.{Reply, to_bytes}
use mudis.Database.{CmdLine, CmdTable}
use mudis.Prelude.Int.{pos}
use mudis.Prelude.{
  ℕ, suc, ◌<◌, ◌^◌, Bytes, List, [], ◌∷◌, ◌++◌, Option, none, some, Bool, true, false, refl, beq,
  if◌then◌else◌, to_lower, ◌≡◌, ap, ◌∙◌,
}
use mudis.Cluster.Owner.{at_owner, exec-owner}

either_bytes :
    (same : Bool) (r : Reply)
    → Crosses r
    → to_bytes (if same then r else received (to_bytes r)) ≡ to_bytes r
either_bytes true r h = refl
either_bytes false r h = to_bytes-received r h

module _ {C : Type 0} (hash_func : Bytes → ℕ) (append_only : Bool) (table : CmdTable C)
    (peers : Bytes → List Bytes) (borrow : Bytes → Option Bytes) where
  -- On a cluster whose nodes know one another, with names that are not empty and have different
  -- hashes of 32 bits, and where every connection is to be had, take a plain request for one key
  -- on the database 0, to which the database of the node that the ring picks for the key gives a
  -- reply that the protocol carries: one line, a 64-bit integer, or values that are not nil, not
  -- empty and not begun by `$`. On every node it is run once, by that database, no other database
  -- changes, and the answer on the wire is that reply, whether the node is the one picked or
  -- relays the request to it.
  pub exec-same_answer :
      (names : List Bytes)
      → ((k : Bytes) → hash_func k < 2 ^ 32)
      → Named names
      → Distinct hash_func names
      → ((n : Bytes)
          → OneOf n names
          → Within names (peers n ++ n ∷ []) × Within (peers n ++ n ∷ []) names)
      → ((n : Bytes) → OneOf n names → borrow n ≡ none)
      → (hops : ℕ) (n : Bytes) → OneOf n names
      → (w : World C) (name key : Bytes) (args : CmdLine)
      → lookup (to_lower name) make_router ≡ some default_func
      → IsRequest (name ∷ key ∷ args)
      → Crosses
          (at_owner hash_func append_only table peers borrow w
            (pick_node hash_func (add_node hash_func make_node_map names) key)
            (name ∷ key ∷ args)).result
      → (let owner = pick_node hash_func (add_node hash_func make_node_map names) key in
          let a = at_owner hash_func append_only table peers borrow w owner (name ∷ key ∷ args) in
          let b =
            exec_on hash_func append_only table peers borrow
              (suc hops)
              n
              w
              (pos 0)
              (name ∷ key ∷ args) in
          (to_bytes b.result ≡ to_bytes a.result)
          × (b.world ≡ update w owner a.server)
          × (b.selected_db ≡ pos 0))
  exec-same_answer names h nd ds known reached hops n o w name key args d r c =
      let owner : Bytes = pick_node hash_func (add_node hash_func make_node_map names) key in
      let a : Standalone.Answer C =
        at_owner hash_func append_only table peers borrow w owner (name ∷ key ∷ args) in
      let e =
        exec-owner hash_func append_only table peers borrow names h nd ds known reached hops n o w
          name key args d r in
      (
        ap (λ (b : Answer (World C)). to_bytes b.result) e ∙ either_bytes (beq owner n) a.result c,
        ap (λ (b : Answer (World C)). b.world) e,
        ap (λ (b : Answer (World C)). b.selected_db) e,
      )
