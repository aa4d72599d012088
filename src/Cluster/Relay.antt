-- ===== src/Cluster/Relay.antt =====
-- cluster/com.go and cluster/router.go: what a relay comes to, at the node itself and at a peer.
use mudis.Cluster.{
  ClusterDatabase, Network, default_func, make_router, contains, get_peer_client, relay, answered,
  exec_default, run, recovered, exec, select_line,
}
use mudis.ConsistentHash.{pick_node}
use mudis.ConsistentHash.Laws.{OneOf}
use mudis.Dict.GoMap.{lookup}
use mudis.Database.{CmdLine}
use mudis.Prelude.Int.{ℤ}
use mudis.Prelude.{
  ℕ, ◌<◌, Bytes, List, [], ◌∷◌, ◌++◌, none, some, true, beq, beq_iff, beq_ne, beq_refl, length,
  to_lower, ◌≡◌, ◌≢◌, inl, inr, refl, sym, arith,
}

pub OneOf-contains : (k : Bytes) (keys : List Bytes) → OneOf k keys → contains k keys ≡ true
unfolding contains
OneOf-contains k [] i = elim i [ ]
OneOf-contains k (x ∷ xs) (inl e) = rw ((beq_iff x k).1 (sym e)) refl
OneOf-contains k (x ∷ xs) (inr i) = ground (arith, OneOf-contains k xs i)

pub OneOf-other :
    (k n : Bytes) (keys : List Bytes) → OneOf k (keys ++ n ∷ []) → k ≢ n → OneOf k keys
OneOf-other k n [] (inl e) d = absurd (d e)
OneOf-other k n [] (inr i) d = elim i [ ]
OneOf-other k n (x ∷ xs) (inl e) d = inl e
OneOf-other k n (x ∷ xs) (inr i) d = inr (OneOf-other k n xs i d)

pub OneOf-length : (k : Bytes) (keys : List Bytes) → OneOf k keys → 0 < length keys
OneOf-length k [] i = elim i [ ]
OneOf-length k (x ∷ xs) i = omega arith

module _ {W : Type 0} (hash_func : Bytes → ℕ) (net : Network W) (cluster : ClusterDatabase) where
  -- A command with one key is the relay to the node that the ring picks.
  pub exec-relay :
      (w : W) (c : ℤ) (name key : Bytes) (args : CmdLine)
      → lookup (to_lower name) make_router ≡ some default_func
      → exec hash_func net cluster w c (name ∷ key ∷ args)
        ≡ relay hash_func net cluster w c
            (pick_node hash_func cluster.peer_picker key)
            (name ∷ key ∷ args)
  unfolding exec run exec_default answered recovered
  exec-relay w c name key args d = rw (exec, d) refl

  pub relay-self :
      (w : W) (c : ℤ) (line : CmdLine)
      → relay hash_func net cluster w c cluster.self line ≡ net.local w c line
  unfolding relay
  relay-self w c line = rw (beq_refl cluster.self) refl

  pub relay-peer :
      (w : W) (c : ℤ) (peer : Bytes) (line : CmdLine)
      → peer ≢ cluster.self
      → contains peer cluster.peer_connection ≡ true
      → net.borrow w peer ≡ none
      → relay hash_func net cluster w c peer line ≡ (
          let selected = net.send w peer (select_line c) in
          let replied = net.send selected.1 peer line in
          record { result = replied.0; world = replied.1; selected_db = c })
  unfolding relay get_peer_client
  relay-peer w c peer line ne k b =
      rw (relay, beq_ne peer cluster.self ne, get_peer_client, k, b) refl

  -- SELECT is no command of the router.
  pub exec-select : (w : W) (c i : ℤ) → ((exec hash_func net cluster w c (select_line i)).world ≡ w)
  unfolding exec select_line lookup beq to_lower
  exec-select w c i = refl
