-- ===== src/Tests/Cluster.antt =====
-- A cluster of two nodes that know one another.
use mudis.Cluster.{default_func, del, make_router}
use mudis.Cluster.Peers.{World, update, exec_on, received, time_out}
use mudis.Cluster.Serve.{IsError}
use mudis.Cluster.Owner.{at_owner}
use mudis.Cluster.SameAnswer.{exec-same_answer}
use mudis.Cluster.Deletion.{del_fails}
use mudis.ConsistentHash.{make_node_map, add_node, pick_node}
use mudis.ConsistentHash.Laws.{OneOf}
use mudis.ConsistentHash.Agree.{Distinct, Within, pick_node-agree}
use mudis.Database
use mudis.Dict.Simple
use mudis.Database.{CmdLine, CmdTable, register_command, validate_arity}
use mudis.Database.Strings.{exec_get, get_as_string}
use mudis.Dict.GoMap.{lookup, insert}
use mudis.Tests.Lists.{dict}
use mudis.Tests.Server.{server}
use mudis.Tests.Ring.{hash_func}
use mudis.Reply.{to_bytes, null_bulk, bulk}
use mudis.Standalone
use mudis.Parser.{parse_stream, parse0, round, read_line, read_bytes}
use mudis.Parser.Replies.{Crosses}
use mudis.Prelude.Int.{pos}
use mudis.Prelude.{
  Bytes, codes, List, [], ◌∷◌, ◌++◌, some, none, some, beq, to_lower, if◌then◌else◌, ◌≡◌, ◌≢◌, inl,
  inr, refl, sym, arith, ◌∙◌, ap, true,
}

abbrev near : Bytes
near = codes "a:80"

abbrev far : Bytes
far = codes "bb:80"

abbrev names : List Bytes
names = near ∷ far ∷ []

abbrev peers : Bytes → List Bytes
peers n = if beq n near then far ∷ [] else near ∷ []

abbrev get_table : CmdTable dict.Carrier
get_table = register_command "get" (exec_get dict) (pos 2) []

abbrev get_line : CmdLine
get_line = codes "GET" ∷ codes "key" ∷ []

names-Distinct : Distinct hash_func names
names-Distinct j k (inl p) (inl q) e = p ∙ sym q
names-Distinct j k (inr (inl p)) (inr (inl q)) e = p ∙ sym q
names-Distinct j k (inl p) (inr (inl q)) e =
    absurd (omega (arith, ap hash_func p, ap hash_func q, e))
names-Distinct j k (inr (inl p)) (inl q) e =
    absurd (omega (arith, ap hash_func p, ap hash_func q, e))
names-Distinct j k (inr (inr z)) i e = elim z [ ]
names-Distinct j k i (inr (inr z)) e = elim z [ ]

get_default : lookup (to_lower (codes "GET")) make_router ≡ some default_func
unfolding lookup to_lower beq
get_default = refl

del_routed : lookup (to_lower (codes "DEL")) make_router ≡ some del
unfolding lookup to_lower beq
del_routed = refl

known :
    (n : Bytes)
    → OneOf n names
    → Within names (peers n ++ n ∷ []) × Within (peers n ++ n ∷ []) names
unfolding beq
known n (inl e) = rw e ((inr (inl refl), (inl refl, tt)), (inr (inl refl), (inl refl, tt)))
known n (inr (inl e)) = rw e ((inl refl, (inr (inl refl), tt)), (inl refl, (inr (inl refl), tt)))
known n (inr (inr z)) = elim z [ ]

linked : (n : Bytes) → OneOf n names → (p : Bytes) × OneOf p names × OneOf p (peers n) × (p ≢ n)
unfolding beq
linked n (inl e) = (far, inr (inl refl), rw e (inl refl), rw e (λ d. cc))
linked n (inr (inl e)) = (near, inl refl, rw e (inl refl), rw e (λ d. cc))
linked n (inr (inr z)) = elim z [ ]

abbrev world : World dict.Carrier
world n = server

pick_node-agree_example :
    pick_node hash_func (add_node hash_func make_node_map names) (codes "key")
    ≡ pick_node hash_func (add_node hash_func make_node_map (far ∷ near ∷ [])) (codes "key")
pick_node-agree_example =
    pick_node-agree hash_func names (far ∷ near ∷ []) (codes "key") (λ k. omega arith) (omega arith)
      ((λ e. cc), ((λ e. cc), tt)) names-Distinct (inr (inl refl), (inl refl, tt))
      (inr (inl refl), (inl refl, tt))

got : (Standalone.exec true get_table server (pos 0) get_line).result ≡ null_bulk
unfolding Standalone.exec beq to_lower Database.exec lookup register_command insert validate_arity
    exec_get get_as_string Simple.get
got = refl

got-Crosses : Crosses (Standalone.exec true get_table server (pos 0) get_line).result
got-Crosses = rw got tt

exec-same_answer_example :
    (let owner = pick_node hash_func (add_node hash_func make_node_map names) (codes "key") in
      let a = at_owner hash_func true get_table peers (λ p. none) world owner get_line in
      let b = exec_on hash_func true get_table peers (λ p. none) 1 near world (pos 0) get_line in
      (to_bytes b.result ≡ to_bytes a.result)
      × (b.world ≡ update world owner a.server)
      × (b.selected_db ≡ pos 0))
exec-same_answer_example =
    exec-same_answer hash_func true get_table peers (λ p. none) names (λ k. omega arith)
      ((λ e. cc), ((λ e. cc), tt)) names-Distinct known (λ n i. refl) 0 near (inl refl) world
      (codes "GET") (codes "key") [] get_default
      (((λ e. cc, omega arith), ((λ e. cc, omega arith), tt)), omega arith, omega arith) got-Crosses

del_fails_example :
    IsError
      (exec_on hash_func true get_table peers
        (λ p. none)
        7
        near
        world
        (pos 0)
        (codes "DEL" ∷ codes "key" ∷ [])).result
del_fails_example =
    del_fails hash_func true get_table peers (λ p. none) names linked 7 near (inl refl)
      (codes "DEL") (codes "key" ∷ []) del_routed
      (((λ e. cc, omega arith), ((λ e. cc, omega arith), tt)), omega arith, omega arith) world
      (pos 0)

-- The empty value does not cross.
empty_value_times_out : received (to_bytes (bulk (some []))) ≡ time_out
unfolding received parse_stream parse0 round read_line to_bytes read_bytes
empty_value_times_out = refl
