-- ===== src/Cluster/Deletion.antt =====
-- cluster/del.go: DEL on a cluster, where every node broadcasts the line to all the others.
use mathlib.Core.Path.{subst}
use mudis.Cluster.Peers.{World, serve, exec_on}
use mudis.Cluster.Serve.{IsError, standard_err-IsError, received-IsError, serve-exec_on}
use mudis.Cluster.{
  ClusterDatabase, Answer, Network, Total, panics, failed, summed, del_loop, del_reply, failure_of,
  as_int, del, make_router, get_peer_client, relay, broadcast_loop, broadcast, exec_del, run,
  recovered, exec, make_cluster_database,
}
use mudis.ConsistentHash.Laws.{OneOf}
use mudis.Handler.Laws.{IsRequest}
use mudis.Dict.GoMap.{GoMap, lookup, insert, lookup-insert}
use mudis.Reply.{Reply, unknown_err, is_error_reply, error_text, to_bytes}
use mudis.Database.{CmdLine, CmdTable}
use mudis.Prelude.Int.{ℤ, pos, add64}
use mudis.Prelude.{
  ℕ, zero, suc, Bytes, codes, List, [], ◌∷◌, ◌++◌, Option, none, some, Bool, true, false, beq,
  beq_iff, beq_ne, to_lower, ◌≡◌, ◌≢◌, ◌⊎◌, inl, inr, refl, sym, ◌∙◌, Option-cases, Bool-cases,
}

OneOf-append : (k : Bytes) (xs ys : List Bytes) → OneOf k xs → OneOf k (xs ++ ys)
OneOf-append k [] ys i = elim i [ ]
OneOf-append k (x ∷ xs) ys (inl e) = inl e
OneOf-append k (x ∷ xs) ys (inr i) = inr (OneOf-append k xs ys i)

-- The node's reply is an error.
abbrev Fails : Bytes → GoMap Reply → Type 0
Fails p m = (v : Reply) × (lookup p m ≡ some v) × IsError v

insert-Fails :
    (p name : Bytes) (v : Reply) (m : GoMap Reply)
    → (name ≡ p → IsError v)
    → (Fails p m) ⊎ (name ≡ p)
    → Fails p (insert name v m)
insert-Fails p name v m h f = elim (Bool-cases (beq name p)) [
  | inl e ↦ (v, lookup-insert name p v m ∙ rw e refl, h ((beq_iff name p).0 e))
  | inr e ↦ elim f [
    | inl (u, l, i) ↦ (u, lookup-insert name p v m ∙ rw e l, i)
    | inr k ↦ absurd (cc ((beq_iff name p).1 k))
  ]
]

-- The loop did not come to a sum.
abbrev NotSummed : Total → Type 0
NotSummed panics = Unit
NotSummed (failed _) = Unit
NotSummed (summed _) = ⊥

text-NotSummed : (text : Option Bytes) → NotSummed (elim text [ none ↦ panics | some t ↦ failed t ])
text-NotSummed none = tt
text-NotSummed (some t) = tt

-- What `Exec` replies for a total.
reply_of : Total → Reply
unfolding del_reply
reply_of t = elim (del_reply t) [ none ↦ unknown_err | some v ↦ v ]

reply_of-IsError : (t : Total) → NotSummed t → IsError (reply_of t)
unfolding reply_of is_error_reply to_bytes
reply_of-IsError panics h = refl
reply_of-IsError (failed text) h = refl
reply_of-IsError (summed deleted) h = elim h [ ]

del_loop-NotSummed :
    (p : Bytes) (deleted : ℤ) (m : GoMap Reply) → Fails p m → NotSummed (del_loop deleted m)
unfolding del_loop lookup failure_of
del_loop-NotSummed p deleted [] (v, l, i) = absurd (cc)
del_loop-NotSummed p deleted ((name, u) ∷ m) (v, l, i) = elim (Option-cases (is_error_reply u)) [
  | inl e ↦ rw (del_loop, e) tt
  | inr (true, e) ↦ rw (del_loop, e) (text-NotSummed (error_text u))
  | inr (false, e) ↦ elim (Bool-cases (beq name p)) [
    | inl k ↦ let q : some u ≡ some v = rw k at l in absurd (cc)
    | inr k ↦
        let l' : lookup p m ≡ some v = rw k at l in
        elim (Option-cases (as_int u)) [
          | inl f ↦ rw (del_loop, e, f) tt
          | inr (code, f) ↦
              rw (del_loop, e, f) (del_loop-NotSummed p (add64 deleted code) m (v, l', i))
        ]
  ]
]

module _ {W : Type 0} (hash_func : Bytes → ℕ) (net : Network W) (cluster : ClusterDatabase) where
  broadcast_loop-Fails :
      (p : Bytes) (args : CmdLine)
      → ((w : W) (c : ℤ) → IsError (relay hash_func net cluster w c p args).result)
      → (nodes : List Bytes) (w : W) (c : ℤ) (m : GoMap Reply) → (Fails p m) ⊎ OneOf p nodes
      → Fails p (broadcast_loop hash_func net cluster nodes w c args m).replies
  unfolding broadcast_loop
  broadcast_loop-Fails p args h [] w c m (inl f) = f
  broadcast_loop-Fails p args h [] w c m (inr i) = elim i [ ]
  broadcast_loop-Fails p args h (name ∷ nodes) w c m i =
      let a : Answer W = relay hash_func net cluster w c name args in
      let failing : (name ≡ p) → IsError a.result =
        λ e. subst (λ n. IsError (relay hash_func net cluster w c n args).result) (sym e) (h w c) in
      elim i [
        | inl f ↦
            broadcast_loop-Fails p args h nodes a.world a.selected_db _
              (inl (insert-Fails p name a.result m failing (inl f)))
        | inr (inl e) ↦
            broadcast_loop-Fails p args h nodes a.world a.selected_db _
              (inl (insert-Fails p name a.result m failing (inr (sym e))))
        | inr (inr o) ↦ broadcast_loop-Fails p args h nodes a.world a.selected_db _ (inr o)
      ]

  relay-IsError :
      (p : Bytes) (line : CmdLine)
      → p ≢ cluster.self
      → ((w : W) → IsError (net.send w p line).0)
      → (w : W) (c : ℤ) → IsError (relay hash_func net cluster w c p line).result
  unfolding relay
  relay-IsError p line ne h w c = elim (Option-cases (get_peer_client hash_func net cluster w p)) [
    | inl e ↦ rw (relay, beq_ne p cluster.self ne, e) (h _)
    | inr (text, e) ↦ rw (relay, beq_ne p cluster.self ne, e) (standard_err-IsError text)
  ]

  -- DEL is answered by an error if a node answers it by one.
  exec-del-IsError :
      (p name : Bytes) (args : CmdLine)
      → lookup (to_lower name) make_router ≡ some del
      → OneOf p cluster.nodes
      → ((w : W) (c : ℤ) → IsError (relay hash_func net cluster w c p (name ∷ args)).result)
      → (w : W) (c : ℤ) → IsError (exec hash_func net cluster w c (name ∷ args)).result
  unfolding exec run exec_del broadcast recovered reply_of
  exec-del-IsError p name args d o h w c =
      rw (exec, d)
        (reply_of-IsError _ (
          del_loop-NotSummed p (pos 0) _
            (broadcast_loop-Fails p (name ∷ args) h cluster.nodes w c [] (inr o))))

module _ {C : Type 0} (hash_func : Bytes → ℕ) (append_only : Bool) (table : CmdTable C)
    (peers : Bytes → List Bytes) (borrow : Bytes → Option Bytes) where
  -- What a node replies where a peer of it does not serve the line.
  del-IsError :
      (hops : ℕ) (n p name : Bytes) (args : CmdLine)
      → lookup (to_lower name) make_router ≡ some del
      → OneOf p (peers n)
      → p ≢ n
      → ((w : World C)
          → IsError (serve hash_func append_only table peers borrow hops w p (name ∷ args)).0)
      → (w : World C) (c : ℤ)
      → IsError (exec_on hash_func append_only table peers borrow hops n w c (name ∷ args)).result
  unfolding make_cluster_database
  del-IsError hops n p name args d o ne h w c =
      exec-del-IsError hash_func _ _ p name args d (OneOf-append p (peers n) (n ∷ []) o)
        (relay-IsError hash_func _ _ p (name ∷ args) ne h) w c

  -- Where every node of a cluster has another one among its peers, DEL is answered by an error on
  -- every node, however many relays from node to node are waited for.
  pub del_fails :
      (names : List Bytes)
      → ((n : Bytes) → OneOf n names → (p : Bytes) × OneOf p names × OneOf p (peers n) × (p ≢ n))
      → (hops : ℕ) (n : Bytes) → OneOf n names
      → (name : Bytes) (args : CmdLine) → lookup (to_lower name) make_router ≡ some del
      → IsRequest (name ∷ args)
      → (w : World C) (c : ℤ)
      → IsError (exec_on hash_func append_only table peers borrow hops n w c (name ∷ args)).result
  del_fails names linked zero n o name args d r w c =
      let (p, _, pp, ne) = linked n o in
      del-IsError zero n p name args d pp ne
        (unfold serve in λ w'. standard_err-IsError (codes "server time out")) w c
  del_fails names linked (suc hops) n o name args d r w c =
      let (p, op, pp, ne) = linked n o in
      del-IsError (suc hops) n p name args d pp ne
        (λ w'.
          subst (λ a. IsError a.0)
            (sym (serve-exec_on hash_func append_only table peers borrow hops w' p (name ∷ args) r))
            (received-IsError _ (del_fails names linked hops p op name args d r w' (pos 0))))
        w c
