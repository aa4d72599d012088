-- ===== src/Dict/Sync/Laws.antt =====
-- The dictionary over `sync.Map` is a `Dict`, and its listing holds every key once.
use mudis.Dict.{Dict, absent, bound}
use mudis.Dict.GoMap.{GoMap, keys}
use mudis.Dict.Sync.{
  SyncMap, get, put, put_if_absent, put_if_exists, remove, clear, make_sync, len, count_loop,
  all_keys, keys_loop,
}
use mudis.Prelude.{
  ℕ, ◌+◌, Bytes, List, [], ◌∷◌, ◌++◌, none, some, beq, if◌then◌else◌, length, set, replicate, ◌≡◌,
  refl, arith, ap, ◌∙◌, sym, set-append, append_assoc, length-append,
}

module _ {V : Type 0} (M : SyncMap V) where
  pub get-put :
      (m : M.Carrier) (k j : Bytes) (v : V)
      → get M (put M m k v).0 j ≡ (if beq k j then some v else get M m j)
  unfolding get put
  get-put m k j v = M.load-store m k j v

  pub put_result : (m : M.Carrier) (k : Bytes) (v : V) → (put M m k v).1 ≡ absent (get M m k)
  unfolding get put
  put_result m k v = ground arith

  pub get-put_if_absent :
      (m : M.Carrier) (k j : Bytes) (v : V)
      → get M (put_if_absent M m k v).0 j
        ≡ (elim (get M m k) [ none ↦ if beq k j then some v else get M m j | some _ ↦ get M m j ])
  unfolding get put_if_absent
  get-put_if_absent m k j v = ground (arith, M.load-store m k j v)

  pub put_if_absent_result :
      (m : M.Carrier) (k : Bytes) (v : V) → (put_if_absent M m k v).1 ≡ absent (get M m k)
  unfolding get put_if_absent
  put_if_absent_result m k v = ground arith

  pub get-put_if_exists :
      (m : M.Carrier) (k j : Bytes) (v : V)
      → get M (put_if_exists M m k v).0 j
        ≡ (elim (get M m k) [ none ↦ get M m j | some _ ↦ if beq k j then some v else get M m j ])
  unfolding get put_if_exists
  get-put_if_exists m k j v = ground (arith, M.load-store m k j v)

  pub put_if_exists_result :
      (m : M.Carrier) (k : Bytes) (v : V) → (put_if_exists M m k v).1 ≡ bound (get M m k)
  unfolding get put_if_exists
  put_if_exists_result m k v = ground arith

  pub get-remove :
      (m : M.Carrier) (k j : Bytes)
      → get M (remove M m k).0 j ≡ (if beq k j then none else get M m j)
  unfolding get remove
  get-remove m k j = M.load-delete m k j

  pub remove_result : (m : M.Carrier) (k : Bytes) → (remove M m k).1 ≡ bound (get M m k)
  unfolding get remove
  remove_result m k = ground arith

  pub get-clear : (m : M.Carrier) (k : Bytes) → get M (clear M m) k ≡ none
  unfolding get clear make_sync
  get-clear m k = M.load-empty k

  -- The dictionary implements the interface.
  abbrev pub sync_dict : Dict V
  sync_dict = record {
    Carrier = M.Carrier;
    get = get M;
    put = put M;
    put_if_absent = put_if_absent M;
    put_if_exists = put_if_exists M;
    remove = remove M;
    clear = clear M;
    get-put = get-put;
    put_result = put_result;
    get-put_if_absent = get-put_if_absent;
    put_if_absent_result = put_if_absent_result;
    get-put_if_exists = get-put_if_exists;
    put_if_exists_result = put_if_exists_result;
    get-remove = get-remove;
    remove_result = remove_result;
    get-clear = get-clear;
  }

  count_loop-length : (n : ℕ) (m : GoMap V) → count_loop n m ≡ n + length (keys m)
  unfolding count_loop
  count_loop-length n [] = omega arith
  count_loop-length n ((k, v) ∷ m) = omega (arith, count_loop-length (n + 1) m)

  keys_loop-append :
      (done ks : List Bytes)
      → keys_loop (length done) (done ++ replicate (length ks) []) ks ≡ done ++ ks
  unfolding keys_loop
  keys_loop-append done [] = refl
  keys_loop-append done (k ∷ ks) =
      let n : length done + 1 ≡ length (done ++ k ∷ []) =
        omega (arith, length-append done (k ∷ [])) in
      let s : set (done ++ [] ∷ replicate (length ks) []) (length done) k
          ≡ (done ++ k ∷ []) ++ replicate (length ks) [] =
        set-append done (replicate (length ks) []) [] k
        ∙ sym (append_assoc done (k ∷ []) (replicate (length ks) [])) in
      rw (keys_loop, s, n) (keys_loop-append (done ++ k ∷ []) ks ∙ append_assoc done (k ∷ []) ks)

  -- Keys lists the keys of the visit, each at its place, and Len is their number.
  pub all_keys-entries :
      (m : M.Carrier)
      → (all_keys M m ≡ keys (M.entries m)) × (len M m ≡ length (keys (M.entries m)))
  unfolding all_keys len
  all_keys-entries m =
      let n : count_loop 0 (M.entries m) ≡ length (keys (M.entries m)) =
        omega (arith, count_loop-length 0 (M.entries m)) in
      (
        ap (λ i. keys_loop 0 (replicate i []) (keys (M.entries m))) n
            ∙ keys_loop-append [] (keys (M.entries m)),
        n,
      )
