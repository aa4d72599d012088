-- ===== src/Dict/Simple/Laws.antt =====
-- The simple dictionary keeps one entry for each key and is a `Dict`; what its key listings return.
use mudis.Dict.{Dict, absent, bound}
use mudis.Dict.GoMap.{
  GoMap, lookup, keys, IsUnique, lookup-insert, lookup-delete, insert-IsUnique, delete-IsUnique,
  length-insert, length-delete,
}
use mudis.Dict.Simple.{
  SimpleDict, get, len, put, put_if_absent, put_if_exists, remove, all_keys, keys_loop,
  distinct_loop, random_distinct_keys, clear,
}
use mudis.Prelude.{
  set-append, sym, min, ◌∙◌, ℕ, zero, suc, ◌+◌, ◌-◌, ◌≤◌, ◌<◌, Bytes, List, [], ◌∷◌, ◌++◌, none,
  some, beq, if◌then◌else◌, length, set, replicate, take, ◌≡◌, refl, arith, get_elem?, ◌==◌, true,
  false, append_assoc, length-append, ap, ltb,
}

module _ {V : Type 0} where
  pub get-put :
      (d : SimpleDict V) (k j : Bytes) (v : V)
      → get (put d k v).0 j ≡ (if beq k j then some v else get d j)
  unfolding get put
  get-put d k j v = lookup-insert k j v d.m

  pub put_result : (d : SimpleDict V) (k : Bytes) (v : V) → (put d k v).1 ≡ absent (get d k)
  unfolding get put
  put_result d k v = ground arith

  pub get-put_if_absent :
      (d : SimpleDict V) (k j : Bytes) (v : V)
      → get (put_if_absent d k v).0 j
        ≡ (elim (get d k) [ none ↦ if beq k j then some v else get d j | some _ ↦ get d j ])
  unfolding get put_if_absent
  get-put_if_absent d k j v = ground (arith, lookup-insert k j v d.m)

  pub put_if_absent_result :
      (d : SimpleDict V) (k : Bytes) (v : V) → (put_if_absent d k v).1 ≡ absent (get d k)
  unfolding get put_if_absent
  put_if_absent_result d k v = ground arith

  pub get-put_if_exists :
      (d : SimpleDict V) (k j : Bytes) (v : V)
      → get (put_if_exists d k v).0 j
        ≡ (elim (get d k) [ none ↦ get d j | some _ ↦ if beq k j then some v else get d j ])
  unfolding get put_if_exists
  get-put_if_exists d k j v = ground (arith, lookup-insert k j v d.m)

  pub put_if_exists_result :
      (d : SimpleDict V) (k : Bytes) (v : V) → (put_if_exists d k v).1 ≡ bound (get d k)
  unfolding get put_if_exists
  put_if_exists_result d k v = ground arith

  pub get-remove :
      (d : SimpleDict V) (k j : Bytes) → get (remove d k).0 j ≡ (if beq k j then none else get d j)
  unfolding get remove
  get-remove d k j = lookup-delete k j d.m

  pub remove_result : (d : SimpleDict V) (k : Bytes) → (remove d k).1 ≡ bound (get d k)
  unfolding get remove
  remove_result d k = ground arith

  pub get-clear : (d : SimpleDict V) (k : Bytes) → get (clear d) k ≡ none
  unfolding get clear lookup
  get-clear d k = refl

-- The simple dictionary implements the interface.
abbrev pub simple_dict : (V : Type 0) → Dict V
simple_dict V = record {
  Carrier = SimpleDict V;
  get = get;
  put = put;
  put_if_absent = put_if_absent;
  put_if_exists = put_if_exists;
  remove = remove;
  clear = clear;
  get-put = get-put;
  put_result = put_result;
  get-put_if_absent = get-put_if_absent;
  put_if_absent_result = put_if_absent_result;
  get-put_if_exists = get-put_if_exists;
  put_if_exists_result = put_if_exists_result;
  get-remove = get-remove;
  remove_result = remove_result;
  get-clear = get-clear;
}

abbrev pub IsValid : {V : Type 0} → SimpleDict V → Type 0
IsValid d = IsUnique d.m

module _ {V : Type 0} where
  pub put-IsValid : (d : SimpleDict V) (k : Bytes) (v : V) → IsValid d → IsValid (put d k v).0
  unfolding put
  put-IsValid d k v h = insert-IsUnique k v d.m h

  pub remove-IsValid : (d : SimpleDict V) (k : Bytes) → IsValid d → IsValid (remove d k).0
  unfolding remove
  remove-IsValid d k h = delete-IsUnique k d.m h

  -- The result of `Put` is what it adds to the length.
  pub len-put : (d : SimpleDict V) (k : Bytes) (v : V) → len (put d k v).0 ≡ len d + (put d k v).1
  unfolding len put
  len-put d k v = ground (arith, length-insert k v d.m)

  -- On a dictionary without repeated keys the result of `Remove` is what it takes from the length.
  pub len-remove :
      (d : SimpleDict V) (k : Bytes) → IsValid d → len (remove d k).0 + (remove d k).1 ≡ len d
  unfolding len remove
  len-remove d k h = ground (arith, length-delete k d.m h)

  pub length-keys : (m : GoMap V) → length (keys m) ≡ length m
  length-keys [] = refl
  length-keys ((k, v) ∷ m) = ap suc (length-keys m)

keys_loop-tail :
    (x : Bytes) (rest ks : List Bytes) (i : ℕ)
    → get_elem? (keys_loop (x ∷ rest) ks) (suc i) ≡ get_elem? rest i
unfolding keys_loop
keys_loop-tail x rest [] i = refl
keys_loop-tail x rest (k ∷ ks) i = keys_loop-tail k rest ks i

get_elem?-replicate : (n i : ℕ) → i < n → get_elem? (replicate {A = Bytes} n []) i ≡ some []
get_elem?-replicate zero i h = elim h [ ]
get_elem?-replicate (suc n) zero h = refl
get_elem?-replicate (suc n) (suc i) h = get_elem?-replicate n i (omega arith)

-- `result` holds the keys so far, and room for the `r` keys to come.
distinct_loop-take :
    (limit r : ℕ) (done ks : List Bytes)
    → length done ≤ limit
    → r ≡ min (limit - length done) (length ks)
    → distinct_loop limit (length done) (done ++ replicate r []) ks ≡ done ++ take r ks
unfolding distinct_loop
distinct_loop-take limit zero done [] b h = refl
distinct_loop-take limit (suc r) done [] b h = absurd (omega arith)
distinct_loop-take limit zero done (k ∷ ks) b h =
    let e : (length done == limit) ≡ true = ground arith in rw (e, distinct_loop) refl
distinct_loop-take limit (suc r) done (k ∷ ks) b h =
    let e : (length done == limit) ≡ false = ground arith in
    let n : length done + 1 ≡ length (done ++ k ∷ []) =
      omega (arith, length-append done (k ∷ [])) in
    let s : set (done ++ [] ∷ replicate r []) (length done) k ≡ (done ++ k ∷ []) ++ replicate r [] =
      set-append done (replicate r []) [] k ∙ sym (append_assoc done (k ∷ []) (replicate r [])) in
    rw (e, distinct_loop)
      (rw (s, n)
        (distinct_loop-take limit r (done ++ k ∷ []) ks (omega arith) (omega arith)
          ∙ append_assoc done (k ∷ []) (take r ks)))

module _ {V : Type 0} where
  keys_blank :
      (m : GoMap V) (i : ℕ)
      → suc i < length m
      → get_elem? (keys_loop (replicate (length m) []) (keys m)) (suc i) ≡ some []
  keys_blank [] i h = elim h [ ]
  keys_blank ((k, v) ∷ m) i h =
      keys_loop-tail [] (replicate (length m) []) (k ∷ keys m) i
      ∙ get_elem?-replicate (length m) i (omega arith)

  -- Past its first place the listing of the keys holds empty strings, whatever the keys are.
  pub all_keys_blank :
      (d : SimpleDict V) (i : ℕ) → suc i < len d → get_elem? (all_keys d) (suc i) ≡ some []
  unfolding all_keys len
  all_keys_blank d i h = keys_blank d.m i h

  -- The random distinct keys are the first keys of the visit, as many as asked for or as there are.
  pub random_distinct_keys-take :
      (d : SimpleDict V) (limit : ℕ)
      → random_distinct_keys d limit ≡ take (min limit (len d)) (keys d.m)
  unfolding random_distinct_keys len
  random_distinct_keys-take d limit =
      let size : (if ltb (length d.m) limit then length d.m else limit) ≡ min limit (length d.m) =
        ground arith in
      rw size (
        distinct_loop-take limit (min limit (length d.m)) [] (keys d.m) (omega arith)
          (omega (arith, length-keys d.m)))
