-- ===== src/Database/Lists/Holds.antt =====
-- What a key holds, as a list of values: an absent key holds none.
use mudis.LinkedList
use mudis.LinkedList.{LinkedList}
use mudis.LinkedList.Seg.{Stands}
use mudis.LinkedList.Values.{empty-Stands, size_of, insert-Stands, add-Stands}
use mudis.Dict.{Dict}
use mudis.Reply.{Slice, Reply}
use mudis.Database.{
  CmdLine, add_aof, Outcome, done, state_of, reply_of, Entity, list, State, get_entity, put_entity,
  remove,
}
use mudis.Database.Lists.{
  get_or_init_list, as_list, insert_all, add_all, get_as_list, put_list, put_or_remove,
}
use mudis.Prelude.{
  ap, Bool, length, ◌<◌, if◌then◌else◌, Bytes, List, [], ◌∷◌, ◌++◌, none, some, true, false, ◌==◌,
  ok, map, beq, beq_refl, reverse_onto, append_assoc, append-nil, ◌≡◌, refl, arith,
}

pub insert_all_lem :
    (l : LinkedList Slice) (vs : List Slice) (ws : List Bytes)
    → Stands l vs
    → (l' : LinkedList Slice) × (insert_all l ws ≡ ok l')
      × Stands l' (reverse_onto (map some ws) vs)
unfolding insert_all
insert_all_lem l vs [] s = (l, refl, s)
insert_all_lem l vs (w ∷ ws) s =
    let (l₁, e, t) = insert-Stands l [] (some w) vs s in
    let (l₂, f, u) = insert_all_lem l₁ (some w ∷ vs) ws t in (l₂, rw e f, u)

pub add_all_lem :
    (l : LinkedList Slice) (vs : List Slice) (ws : List Bytes)
    → Stands l vs
    → (l' : LinkedList Slice) × (add_all l ws ≡ ok l') × Stands l' (vs ++ map some ws)
unfolding add_all
add_all_lem l vs [] s = (l, refl, rw append-nil s)
add_all_lem l vs (w ∷ ws) s =
    let (l₁, e, t) = add-Stands l vs (some w) s in
    let (l₂, f, u) = add_all_lem l₁ (vs ++ some w ∷ []) ws t in (l₂, rw e f, rw append_assoc at u)

module _ (D : Dict Entity) where
  abbrev pub Holds : State D → Bytes → List Slice → Type 0
  Holds db k [] = get_as_list D db k ≡ ok none
  Holds db k (v ∷ vs) =
      (l : LinkedList Slice) × (get_as_list D db k ≡ ok (some l)) × Stands l (v ∷ vs)

  -- Only `k` changed.
  abbrev pub SameElsewhere : State D → State D → Bytes → Type 0
  SameElsewhere db db' k =
      (j : Bytes) → get_entity D db' j ≡ (if beq k j then get_entity D db' j else get_entity D db j)

  -- A command replies `r`, leaves `vs` under `k` and every other key as it was, and logs `line`.
  pub record Runs (db : State D) (out : Outcome D.Carrier) (r : Reply) (k : Bytes) (vs : List Slice)
      (line : CmdLine) : Type 0 where
    pub reply : reply_of out ≡ some r
    pub holds : Holds (state_of out) k vs
    pub elsewhere : SameElsewhere db (state_of out) k
    pub log : (state_of out).aof ≡ db.aof ++ line ∷ []

  pub Holds-elsewhere :
      (db db' : State D) (k j : Bytes) (vs : List Slice)
      → SameElsewhere db db' k
      → beq k j ≡ false
      → Holds db j vs
      → Holds db' j vs
  unfolding get_as_list
  Holds-elsewhere db db' k j [] el h g = ground (arith, el j)
  Holds-elsewhere db db' k j (v ∷ vs) el h (l, e, s) = (l, ground (arith, el j), s)

  pub Holds-add_aof :
      (db : State D) (k : Bytes) (line : CmdLine) (vs : List Slice)
      → Holds db k vs
      → Holds (add_aof line db) k vs
  unfolding add_aof get_as_list get_entity
  Holds-add_aof db k line [] h = h
  Holds-add_aof db k line (v ∷ vs) h = h

  module _ (db : State D) (k : Bytes) (l : LinkedList Slice) where
    pub get-put_list : get_as_list D (put_list D db k l) k ≡ ok (some l)
    unfolding get_as_list put_list get_entity put_entity as_list
    get-put_list = rw (D.get-put, beq_refl k) refl

    pub put_list-SameElsewhere : SameElsewhere db (put_list D db k l) k
    unfolding get_entity put_list put_entity
    put_list-SameElsewhere j = ground (arith, D.get-put db.contents k j (list l))

    pub put_or_remove-SameElsewhere : SameElsewhere db (put_or_remove D db k l) k
    unfolding put_or_remove remove get_entity put_list put_entity
    put_or_remove-SameElsewhere j = ground (
      arith,
      D.get-put db.contents k j (list l),
      D.get-remove (D.put db.contents k (list l)).0 k j,
    )

    pub put_list-Holds :
        (vs : List Slice) → 0 < length vs → Stands l vs → Holds (put_list D db k l) k vs
    put_list-Holds [] p s = absurd (omega arith)
    put_list-Holds (v ∷ vs) p s = (l, get-put_list, s)

    pub put_or_remove-Holds : (vs : List Slice) → Stands l vs → Holds (put_or_remove D db k l) k vs
    unfolding put_or_remove remove get_as_list get_entity as_list LinkedList.length
    put_or_remove-Holds [] s =
        let n : (l.size == 0) ≡ true = ground (arith, size_of l [] s) in
        rw (n, D.get-remove, beq_refl k) refl
    put_or_remove-Holds (v ∷ vs) s =
        let n : (l.size == 0) ≡ false = ground (arith, size_of l (v ∷ vs) s) in
        (l, rw n get-put_list, s)

    pub put_or_remove-aof : (put_or_remove D db k l).aof ≡ db.aof
    unfolding put_or_remove put_list put_entity remove LinkedList.length
    put_or_remove-aof = ground arith

    pub Runs-put_or_remove :
        (r : Reply) (line : CmdLine) (vs : List Slice)
        → Stands l vs
        → Runs db (done r (add_aof line (put_or_remove D db k l))) r k vs line
    unfolding add_aof get_entity
    Runs-put_or_remove r line vs s = record {
      reply = refl;
      holds = Holds-add_aof (put_or_remove D db k l) k line vs (put_or_remove-Holds vs s);
      elsewhere = put_or_remove-SameElsewhere;
      log = rw put_or_remove-aof refl;
    }

  -- The list that `getOrInitList` returns, and the database that it leaves.
  module _ (db : State D) (k : Bytes) where
    pub get_or_init_lem :
        (vs : List Slice)
        → Holds db k vs
        → (db' : State D) × (l : LinkedList Slice) × (b : Bool) × (get_or_init_list D db k
            ≡ ok (db', l, b))
          × Stands l vs
          × SameElsewhere db db' k
          × (db'.aof ≡ db.aof)
    unfolding get_or_init_list put_list put_entity
    get_or_init_lem [] h = (
      put_list D db k LinkedList.empty,
      LinkedList.empty,
      true,
      rw (get_or_init_list, h) refl,
      empty-Stands,
      put_list-SameElsewhere db k LinkedList.empty,
      refl,
    )
    get_or_init_lem (v ∷ vs) (l, e, s) =
        (db, l, false, rw (get_or_init_list, e) refl, s, (λ j. ground arith), refl)

    pub Runs-put_list :
        (db' : State D) (l : LinkedList Slice) (line : CmdLine) (vs : List Slice)
        → SameElsewhere db db' k
        → db'.aof ≡ db.aof
        → 0 < length vs
        → Stands l vs
        → (r q : Reply) → r ≡ q
        → Runs db (done r (add_aof line (put_list D db' k l))) q k vs line
    unfolding add_aof get_entity put_list put_entity
    Runs-put_list db' l line vs el a p s r q i = record {
      reply = ap some i;
      holds = Holds-add_aof (put_list D db' k l) k line vs (put_list-Holds db' k l vs p s);
      elsewhere = λ j. ground (arith, put_list-SameElsewhere db' k l j, el j);
      log = rw a refl;
    }

    -- The list under a key that holds some value.
    pub there :
        (vs : List Slice)
        → 0 < length vs
        → Holds db k vs
        → (l : LinkedList Slice) × (get_as_list D db k ≡ ok (some l)) × Stands l vs
    there [] p h = absurd (omega arith)
    there (v ∷ vs) p h = h
