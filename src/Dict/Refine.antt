-- ===== src/Dict/Refine.antt =====
-- Two dictionaries behind the interface of datastruct/dict/dict.go: the concurrent one of the
-- database or the one over `sync.Map`, and the simple one.
use mudis.Dict.{Dict}
use mudis.Dict.Simple
use mudis.Dict.Simple.Laws.{simple_dict, get-clear}
use mudis.Dict.Concurrent.{make_concurrent}
use mudis.Dict.Concurrent.Laws.{concurrent_dict, make-HasShards, get-make}
use mudis.Dict.Sync.{SyncMap, make_sync}
use mudis.Dict.Sync
use mudis.Dict.Sync.Laws.{sync_dict}
use mudis.Prelude.Int.{ℤ}
use mudis.Prelude.{ℕ, Bytes, List, [], ◌∷◌, Option, ◌≡◌, refl, arith, ap, ◌∙◌, sym}

-- A call of a method, and what it returns.
pub data Call (V : Type 0) : Type 0 where
  get_call : Bytes → Call V
  put_call : Bytes → V → Call V
  put_if_absent_call : Bytes → V → Call V
  put_if_exists_call : Bytes → V → Call V
  remove_call : Bytes → Call V
  clear_call : Call V

pub data Returned (V : Type 0) : Type 0 where
  found : Option V → Returned V
  result : ℕ → Returned V
  nothing : Returned V

module _ {V : Type 0} where
  abbrev pub call : (D : Dict V) → D.Carrier → Call V → D.Carrier × Returned V
  call D d (get_call k) = (d, found (D.get d k))
  call D d (put_call k v) = ((D.put d k v).0, result (D.put d k v).1)
  call D d (put_if_absent_call k v) = ((D.put_if_absent d k v).0, result (D.put_if_absent d k v).1)
  call D d (put_if_exists_call k v) = ((D.put_if_exists d k v).0, result (D.put_if_exists d k v).1)
  call D d (remove_call k) = ((D.remove d k).0, result (D.remove d k).1)
  call D d clear_call = (D.clear d, nothing)

  -- What the calls return, one after the other.
  abbrev pub returns : (D : Dict V) → D.Carrier → List (Call V) → List (Returned V)
  returns D d [] = []
  returns D d (c ∷ calls) = (call D d c).1 ∷ returns D (call D d c).0 calls

  module _ (D E : Dict V) where
    abbrev Agree : D.Carrier → E.Carrier → Type 0
    Agree d e = (k : Bytes) → D.get d k ≡ E.get e k

    same_result :
        (d : D.Carrier) (e : E.Carrier) (c : Call V) → Agree d e → (call D d c).1 ≡ (call E e c).1
    same_result d e (get_call k) a = ap found (a k)
    same_result d e (put_call k v) a = ap result (rw (D.put_result, E.put_result, a k))
    same_result d e (put_if_absent_call k v) a =
        ap result (rw (D.put_if_absent_result, E.put_if_absent_result, a k))
    same_result d e (put_if_exists_call k v) a =
        ap result (rw (D.put_if_exists_result, E.put_if_exists_result, a k))
    same_result d e (remove_call k) a = ap result (rw (D.remove_result, E.remove_result, a k))
    same_result d e clear_call a = refl

    call-Agree :
        (d : D.Carrier) (e : E.Carrier) (c : Call V)
        → Agree d e
        → Agree (call D d c).0 (call E e c).0
    call-Agree d e (get_call k) a j = a j
    call-Agree d e (put_call k v) a j = rw (D.get-put, E.get-put, a j)
    call-Agree d e (put_if_absent_call k v) a j =
        ground (arith, D.get-put_if_absent d k j v, E.get-put_if_absent e k j v, a k, a j)
    call-Agree d e (put_if_exists_call k v) a j =
        ground (arith, D.get-put_if_exists d k j v, E.get-put_if_exists e k j v, a k, a j)
    call-Agree d e (remove_call k) a j = rw (D.get-remove, E.get-remove, a j)
    call-Agree d e clear_call a j = rw (D.get-clear, E.get-clear)

    -- Dictionaries that answer alike return the same for any sequence of calls.
    returns-Agree :
        (calls : List (Call V)) (d : D.Carrier) (e : E.Carrier)
        → Agree d e
        → returns D d calls ≡ returns E e calls
    returns-Agree [] d e a = refl
    returns-Agree (c ∷ calls) d e a =
        rw (same_result d e c a, returns-Agree calls _ _ (call-Agree d e c a))

-- A new concurrent dictionary of any number of shards and a new simple one return the same for any
-- sequence of calls of Get, Put, PutIfAbsent, PutIfExists, Remove and Clear.
pub returns-concurrent :
    (V : Type 0) (shards : ℤ) (calls : List (Call V))
    → returns (concurrent_dict V) (make_concurrent shards, make-HasShards V shards) calls
      ≡ returns (simple_dict V) Simple.make_simple calls
unfolding Simple.make_simple Simple.clear
returns-concurrent V shards calls =
    returns-Agree (concurrent_dict V) (simple_dict V) calls _ _
      (λ k. get-make shards k ∙ sym (get-clear Simple.make_simple k))

-- A new dictionary over any map that keeps to what is documented of `sync.Map` and a new simple one
-- return the same for any sequence of calls of Get, Put, PutIfAbsent, PutIfExists, Remove and Clear.
pub returns-sync :
    (V : Type 0) (M : SyncMap V) (calls : List (Call V))
    → returns (sync_dict M) (make_sync M) calls ≡ returns (simple_dict V) Simple.make_simple calls
unfolding Simple.make_simple Simple.clear Sync.make_sync Sync.get
returns-sync V M calls =
    returns-Agree (sync_dict M) (simple_dict V) calls _ _
      (λ k. M.load-empty k ∙ sym (get-clear Simple.make_simple k))
