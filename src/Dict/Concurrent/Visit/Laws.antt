-- ===== src/Dict/Concurrent/Visit/Laws.antt =====
-- datastruct/dict/sync_dict_concurrenthashmap.go: what ForEach collects with a test on the keys.
use mudis.Dict.{bound}
use mudis.Dict.GoMap.{GoMap, lookup, IsUnique, keys}
use mudis.Dict.Concurrent.Count.{entries}
use mudis.Dict.Concurrent.Visit.{visit_shard, visit_table, collect_key}
use mudis.Prelude.{
  ℕ, zero, suc, ◌+◌, map, length, length-replicate, length-append, append_assoc, append-nil,
  replicate, set, set-append, ltb, ap, ◌∙◌, sym, Bytes, List, [], ◌∷◌, ◌++◌, Option, none, some,
  Bool, true, beq, beq_iff, get_or, All, if◌then◌else◌, ◌≡◌, ◌≢◌, refl, arith,
}

-- How often a text stands among values.
abbrev pub times : Bytes → List (Option Bytes) → ℕ
times j [] = 0
times j (none ∷ rs) = times j rs
times j (some t ∷ rs) = if beq t j then suc (times j rs) else times j rs

times-snoc :
    (j t : Bytes) (rs : List (Option Bytes))
    → times j (rs ++ some t ∷ []) ≡ times j rs + (if beq t j then 1 else 0)
times-snoc j t [] = ground arith
times-snoc j t (none ∷ rs) = times-snoc j t rs
times-snoc j t (some r ∷ rs) = ground (arith, times-snoc j t rs)

module _ {V : Type 0} (f : Bytes → Bool) where
  -- The consumer that keeps the keys that pass the test, and goes on.
  abbrev pub keep : Bytes → V → List (Option Bytes) → List (Option Bytes) × Bool
  keep key val rs = (if f key then rs ++ some key ∷ [] else rs, true)

  times-visit_shard :
      (j : Bytes) (m : GoMap V) (rs : List (Option Bytes))
      → IsUnique m
      → times j (visit_shard keep m rs) ≡ times j rs + (if f j then bound (lookup j m) else 0)
  unfolding visit_shard lookup
  times-visit_shard j [] rs u = ground arith
  times-visit_shard j ((k, v) ∷ m) rs (h, u) = ground (
    arith,
    beq_iff k j,
    times-snoc j k rs,
    times-visit_shard j m rs u,
    times-visit_shard j m (rs ++ some k ∷ []) u,
  )

  -- Each key that passes the test is kept as often as it stands in its shard.
  pub times-visit_table :
      (j : Bytes) (table : List (GoMap V)) (a : ℕ) (rs : List (Option Bytes))
      → All IsUnique table
      → ((i : ℕ) → i ≢ a → lookup j (get_or table i []) ≡ none)
      → times j (visit_table keep table rs)
        ≡ times j rs + (if f j then bound (lookup j (get_or table a [])) else 0)
  unfolding visit_table lookup
  times-visit_table j [] a rs u h = ground arith
  times-visit_table j (m ∷ table) zero rs (u, us) h =
      let first = times-visit_shard j m rs u in
      let rest =
        times-visit_table j table zero (visit_shard keep m rs) us
          (λ i n. h (suc i) (λ e. ground arith)) in
      let e = h 1 (λ e. ground arith) in ground arith
  times-visit_table j (m ∷ table) (suc a) rs (u, us) h =
      let first = times-visit_shard j m rs u in
      let rest =
        times-visit_table j table a (visit_shard keep m rs) us
          (λ i n. h (suc i) (λ e. n (omega arith))) in
      let e = h 0 (λ e. ground arith) in ground arith

map-append : (ks js : List Bytes) → map some (ks ++ js) ≡ map some ks ++ map some js
map-append [] js = refl
map-append (k ∷ ks) js = ap (λ l. some k ∷ l) (map-append ks js)

replicate-add : (m n : ℕ) (x : Bytes) → replicate (m + n) x ≡ replicate m x ++ replicate n x
replicate-add zero n x = let e : zero + n ≡ n = omega arith in rw e refl
replicate-add (suc m) n x =
    let e : suc m + n ≡ suc (m + n) = omega arith in rw e (ap (λ l. x ∷ l) (replicate-add m n x))

module _ {V : Type 0} where
  -- The keys of all shards, in the order of the loops.
  abbrev pub shard_keys : List (GoMap V) → List Bytes
  shard_keys [] = []
  shard_keys (m ∷ table) = keys m ++ shard_keys table

  length-keys : (m : GoMap V) → length (keys m) ≡ length m
  length-keys [] = refl
  length-keys ((k, v) ∷ m) = ap suc (length-keys m)

  length-shard_keys : (table : List (GoMap V)) → length (shard_keys table) ≡ entries table
  length-shard_keys [] = refl
  length-shard_keys (m ∷ table) =
      omega
        (arith, length-append (keys m) (shard_keys table), length-keys m, length-shard_keys table)

  collect_key_lem :
      (k : Bytes) (v : V) (filled : List Bytes) (x : Bytes) (t : List Bytes) (i : ℕ)
      → i ≡ length filled
      → collect_key k v (filled ++ x ∷ t, i) ≡ ((filled ++ k ∷ t, suc i), true)
  unfolding collect_key
  collect_key_lem k v filled x t i e =
      let room : ltb i (length (filled ++ x ∷ t)) ≡ true =
        ground (arith, length-append filled (x ∷ t)) in
      let written : set (filled ++ x ∷ t) i k ≡ filled ++ k ∷ t = rw e (set-append filled t x k) in
      rw (room, written) refl

  visit_shard-collect_key :
      (m : GoMap V) (filled spare rest : List Bytes) (i : ℕ)
      → i ≡ length filled
      → length spare ≡ length m
      → visit_shard collect_key m (filled ++ (spare ++ rest), i)
        ≡ (filled ++ (keys m ++ rest), i + length m)
  unfolding visit_shard
  visit_shard-collect_key [] filled [] rest i e l = ap (λ n. (filled ++ rest, n)) (omega arith)
  visit_shard-collect_key [] filled (x ∷ spare) rest i e l = absurd (omega arith)
  visit_shard-collect_key (_ ∷ m) filled [] rest i e l = absurd (omega arith)
  visit_shard-collect_key ((k, v) ∷ m) filled (x ∷ spare) rest i e l =
      let next =
        visit_shard-collect_key m (filled ++ k ∷ []) spare rest (suc i)
          (omega (arith, length-append filled (k ∷ []))) (omega arith) in
      let before = append_assoc filled (k ∷ []) (spare ++ rest) in
      let behind = append_assoc filled (k ∷ []) (keys m ++ rest) in
      let sum : suc i + length m ≡ i + suc (length m) = omega arith in
      rw (collect_key_lem k v filled x (spare ++ rest) i e) (
        ap (λ l. visit_shard collect_key m (l, suc i)) (sym before)
        ∙ next
        ∙ ap (λ l. (l, suc i + length m)) behind
        ∙ ap (λ n. (filled ++ k ∷ (keys m ++ rest), n)) sum)

  -- An empty slot for each entry is filled, and no key is put behind them.
  pub visit_table-collect_key :
      (table : List (GoMap V)) (filled : List Bytes) (i : ℕ)
      → i ≡ length filled
      → (visit_table collect_key table (filled ++ replicate (entries table) [], i)).0
        ≡ filled ++ shard_keys table
  unfolding visit_table
  visit_table-collect_key [] filled i e = refl
  visit_table-collect_key (m ∷ table) filled i e =
      let first =
        visit_shard-collect_key m filled (replicate (length m) []) (replicate (entries table) []) i
          e (length-replicate (length m) []) in
      let next =
        visit_table-collect_key table (filled ++ keys m) (i + length m)
          (omega (arith, length-append filled (keys m), length-keys m)) in
      ap (λ l. (visit_table collect_key table (visit_shard collect_key m (filled ++ l, i))).0)
        (replicate-add (length m) (entries table) [])
      ∙ ap (λ s. (visit_table collect_key table s).0) first
      ∙ ap (λ l. (visit_table collect_key table (l, i + length m)).0)
          (sym (append_assoc filled (keys m) (replicate (entries table) [])))
      ∙ next
      ∙ append_assoc filled (keys m) (shard_keys table)

  visit_shard-keep :
      (m : GoMap V) (rs : List (Option Bytes))
      → visit_shard (keep (λ _. true)) m rs ≡ rs ++ map some (keys m)
  unfolding visit_shard
  visit_shard-keep [] rs = sym (append-nil rs)
  visit_shard-keep ((k, v) ∷ m) rs =
      visit_shard-keep m (rs ++ some k ∷ []) ∙ append_assoc rs (some k ∷ []) (map some (keys m))

  pub visit_table-keep :
      (table : List (GoMap V)) (rs : List (Option Bytes))
      → visit_table (keep (λ _. true)) table rs ≡ rs ++ map some (shard_keys table)
  unfolding visit_table
  visit_table-keep [] rs = sym (append-nil rs)
  visit_table-keep (m ∷ table) rs =
      ap (visit_table (keep (λ _. true)) table) (visit_shard-keep m rs)
      ∙ visit_table-keep table (rs ++ map some (keys m))
      ∙ append_assoc rs (map some (keys m)) (map some (shard_keys table))
      ∙ ap (λ l. rs ++ l) (sym (map-append (keys m) (shard_keys table)))
