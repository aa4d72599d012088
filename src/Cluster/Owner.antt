-- ===== src/Cluster/Owner.antt =====
-- cluster/router.go: a command with one key, which goes to the node that the ring picks for the key.
use mudis.Cluster.Relay.{
  OneOf-contains, OneOf-other, OneOf-length, exec-relay, relay-self, relay-peer, exec-select,
}
use mudis.Cluster.Peers.{World, update, network, node, serve, exec_on, received}
use mudis.Cluster.Serve.{serve-exec_on}
use mudis.Cluster.{
  ClusterDatabase, Answer, Network, default_func, make_router, relay, make_cluster_database,
  select_line,
}
use mudis.ConsistentHash.{make_node_map, add_node, pick_node}
use mudis.ConsistentHash.Laws.{OneOf}
use mudis.ConsistentHash.Agree.{
  OneOf-All, Within, Named, Distinct, pick_node-agree, pick_node-OneOf,
}
use mudis.Handler.Laws.{IsRequest}
use mudis.Dict.GoMap.{lookup}
use mudis.Strconv.{format_int, format_uint, digits}
use mudis.Standalone
use mudis.Standalone.{Standalone}
use mudis.Standalone.Laws.{is_select, exec-selected_db}
use mudis.Reply.{Reply, to_bytes}
use mudis.Database.{CmdLine, CmdTable}
use mudis.Prelude.Int.{pos}
use mudis.Prelude.{
  ℕ, suc, ◌<◌, ◌^◌, Bytes, codes, List, [], ◌∷◌, ◌++◌, Option, none, some, Bool, false, beq,
  beq_iff, length, if◌then◌else◌, to_lower, ◌≡◌, ◌≢◌, inl, inr, sym, ap, ◌∙◌, arith, Bool-cases,
}

select_line-IsRequest : IsRequest (select_line (pos 0))
unfolding select_line format_int format_uint digits
select_line-IsRequest =
    (((λ e. cc, omega arith), ((λ e. cc, omega arith), tt)), omega arith, omega arith)

not-select :
    (name : Bytes)
    → lookup (to_lower name) make_router ≡ some default_func
    → is_select (name ∷ []) ≡ false
unfolding lookup beq
not-select name d = elim (Bool-cases (beq (to_lower name) (codes "select"))) [
  | inr e ↦ e
  | inl e ↦
      let q : lookup (codes "select") make_router ≡ some default_func =
        rw ((beq_iff (to_lower name) (codes "select")).0 e) at d in
      absurd (cc)
]

module _ {C : Type 0} (hash_func : Bytes → ℕ) (append_only : Bool) (table : CmdTable C)
    (peers : Bytes → List Bytes) (borrow : Bytes → Option Bytes) where
  -- What the owner's database makes of the line.
  abbrev pub at_owner : World C → Bytes → CmdLine → Standalone.Answer C
  at_owner w owner line = Standalone.exec append_only table (w owner) (pos 0) line

  -- On the node itself.
  exec-own :
      (hops : ℕ) (n : Bytes) (w : World C) (name key : Bytes) (args : CmdLine)
      → lookup (to_lower name) make_router ≡ some default_func
      → pick_node hash_func (node hash_func append_only table peers borrow n).peer_picker key ≡ n
      → exec_on hash_func append_only table peers borrow hops n w (pos 0) (name ∷ key ∷ args)
        ≡ record {
          result = (at_owner w n (name ∷ key ∷ args)).result;
          world = update w n (at_owner w n (name ∷ key ∷ args)).server;
          selected_db = pos 0;
        }
  unfolding make_cluster_database
  exec-own hops n w name key args d e =
      let line : CmdLine = name ∷ key ∷ args in
      let net : Network (World C) =
        network hash_func append_only table peers borrow
          (serve hash_func append_only table peers borrow hops) n in
      let self : ClusterDatabase = make_cluster_database hash_func n (peers n) in
      let a : Standalone.Answer C = at_owner w n line in
      exec-relay hash_func net self w (pos 0) name key args d
      ∙ ap (λ p. relay hash_func net self w (pos 0) p line) e
      ∙ relay-self hash_func net self w (pos 0) line
      ∙ ap (λ c. record { result = a.result; world = update w n a.server; selected_db = c })
          (exec-selected_db append_only table (w n) (pos 0) name (key ∷ args) (not-select name d))

  -- From a node to the owner, a peer of it, and back.
  exec-other :
      (hops : ℕ) (n owner : Bytes) (w : World C) (name key : Bytes) (args : CmdLine)
      → lookup (to_lower name) make_router ≡ some default_func
      → IsRequest (name ∷ key ∷ args)
      → owner ≢ n
      → OneOf owner (peers n)
      → borrow owner ≡ none
      → pick_node hash_func (node hash_func append_only table peers borrow n).peer_picker key
        ≡ owner
      → pick_node hash_func (node hash_func append_only table peers borrow owner).peer_picker key
        ≡ owner
      → exec_on hash_func append_only table peers borrow (suc hops) n w (pos 0) (name ∷ key ∷ args)
        ≡ record {
          result = received (to_bytes (at_owner w owner (name ∷ key ∷ args)).result);
          world = update w owner (at_owner w owner (name ∷ key ∷ args)).server;
          selected_db = pos 0;
        }
  unfolding make_cluster_database
  exec-other hops n owner w name key args d r ne o b e f =
      let line : CmdLine = name ∷ key ∷ args in
      let send : World C → Bytes → CmdLine → Reply × World C =
        serve hash_func append_only table peers borrow (suc hops) in
      let net : Network (World C) = network hash_func append_only table peers borrow send n in
      let self : ClusterDatabase = make_cluster_database hash_func n (peers n) in
      exec-relay hash_func net self w (pos 0) name key args d
      ∙ ap (λ p. relay hash_func net self w (pos 0) p line) e
      ∙ relay-peer hash_func net self w (pos 0) owner line ne (OneOf-contains owner (peers n) o) b
      ∙ ap
          (λ (a : Reply × World C).
            let replied = send a.1 owner line in
            let answer : Answer (World C) = record {
              result = replied.0;
              world = replied.1;
              selected_db = pos 0;
            } in
            answer)
          (serve-exec_on hash_func append_only table peers borrow hops w owner (select_line (pos 0))
            select_line-IsRequest)
      ∙ ap
          (λ (w' : World C).
            let replied = send w' owner line in
            let answer : Answer (World C) = record {
              result = replied.0;
              world = replied.1;
              selected_db = pos 0;
            } in
            answer)
          (exec-select hash_func
            (network hash_func append_only table peers borrow
              (serve hash_func append_only table peers borrow hops) owner)
            (make_cluster_database hash_func owner (peers owner)) w (pos 0) (pos 0))
      ∙ ap
          (λ (a : Reply × World C).
            let answer : Answer (World C) = record {
              result = a.0;
              world = a.1;
              selected_db = pos 0;
            } in
            answer)
          (serve-exec_on hash_func append_only table peers borrow hops w owner line r)
      ∙ ap
          (λ (a : Answer (World C)).
            let answer : Answer (World C) = record {
              result = received (to_bytes a.result);
              world = a.world;
              selected_db = pos 0;
            } in
            answer)
          (exec-own hops owner w name key args d f)

  -- The command is run once, by the database of the owner. On another node the result is what the
  -- client reads off the bytes of the reply.
  pub exec-owner :
      (names : List Bytes)
      → ((k : Bytes) → hash_func k < 2 ^ 32)
      → Named names
      → Distinct hash_func names
      → ((n : Bytes)
          → OneOf n names
          → Within names (peers n ++ n ∷ []) × Within (peers n ++ n ∷ []) names)
      → ((n : Bytes) → OneOf n names → borrow n ≡ none)
      → (hops : ℕ) (n : Bytes) → OneOf n names
      → (w : World C) (name key : Bytes) (args : CmdLine)
      → lookup (to_lower name) make_router ≡ some default_func
      → IsRequest (name ∷ key ∷ args)
      → exec_on hash_func append_only table peers borrow (suc hops) n w (pos 0) (name ∷ key ∷ args)
        ≡ (let owner = pick_node hash_func (add_node hash_func make_node_map names) key in
            let a = at_owner w owner (name ∷ key ∷ args) in
            record {
              result = if beq owner n then a.result else received (to_bytes a.result);
              world = update w owner a.server;
              selected_db = pos 0;
            })
  unfolding make_cluster_database
  exec-owner names h nd ds known reached hops n o w name key args d r =
      let owner : Bytes = pick_node hash_func (add_node hash_func make_node_map names) key in
      let l : 0 < length names = OneOf-length n names o in
      let oo : OneOf owner names = pick_node-OneOf hash_func names key h l nd in
      let picks : (m : Bytes)
          → OneOf m names
          → pick_node hash_func (add_node hash_func make_node_map (peers m ++ m ∷ [])) key ≡ owner =
        λ m i. sym (
          pick_node-agree hash_func names (peers m ++ m ∷ []) key h l nd ds (known m i).0
            (known m i).1) in
      elim (Bool-cases (beq owner n)) [
        | inl e ↦
            let own : owner ≡ n = (beq_iff owner n).0 e in
            rw e (
              exec-own (suc hops) n w name key args d (picks n o ∙ own)
              ∙ ap
                  (λ m.
                    let answer : Answer (World C) = record {
                      result = (at_owner w m (name ∷ key ∷ args)).result;
                      world = update w m (at_owner w m (name ∷ key ∷ args)).server;
                      selected_db = pos 0;
                    } in
                    answer)
                  (sym own))
        | inr e ↦
            let other : owner ≢ n = λ q. cc ((beq_iff owner n).1 q) in
            let op : OneOf owner (peers n) =
              OneOf-other owner n (peers n)
                (OneOf-All (λ k. OneOf k (peers n ++ n ∷ [])) owner names oo (known n o).0) other in
            rw e (
              exec-other hops n owner w name key args d r other op (reached owner oo) (picks n o)
                (picks owner oo))
      ]
