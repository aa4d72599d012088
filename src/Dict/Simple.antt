-- ===== src/Dict/Simple.antt =====
-- datastruct/dict/simple_dict.go
pub mod Laws
use mudis.Dict.GoMap.{GoMap, lookup, insert, delete, keys}
use mudis.Prelude.{
  ℕ, zero, suc, ◌+◌, Bytes, List, [], ◌∷◌, Option, none, some, if◌then◌else◌, length, set,
  replicate, Bool, true, false, ◌==◌, ltb, min,
}

pub record SimpleDict (V : Type 0) : Type 0 where
  pub m : GoMap V

-- The loop of `Keys` writes each key at `result[i]`, and `i` stays 0.
keys_loop : List Bytes → List Bytes → List Bytes
keys_loop result [] = result
keys_loop result (k ∷ ks) = keys_loop (set result 0 k) ks

-- The loop of `RandomDistinctKeys` over the keys in the order of the visit.
distinct_loop : ℕ → ℕ → List Bytes → List Bytes → List Bytes
distinct_loop limit i result [] = result
distinct_loop limit i result (k ∷ ks) =
    let more = distinct_loop limit (i + 1) (set result i k) ks in
    if i == limit then result else more

module _ {V : Type 0} where
  unfoldable pub make_simple : SimpleDict V
  make_simple = record { m = [] }

  unfoldable pub get : SimpleDict V → Bytes → Option V
  get d key = lookup key d.m

  unfoldable pub len : SimpleDict V → ℕ
  len d = length d.m

  unfoldable pub put : SimpleDict V → Bytes → V → SimpleDict V × ℕ
  put d key val =
      (record { m = insert key val d.m }, (elim (lookup key d.m) [ some _ ↦ 0 | none ↦ 1 ]))

  unfoldable pub put_if_absent : SimpleDict V → Bytes → V → SimpleDict V × ℕ
  put_if_absent d key val = elim (lookup key d.m) [
    | some _ ↦ (d, 0)
    | none ↦ (record { m = insert key val d.m }, 1)
  ]

  unfoldable pub put_if_exists : SimpleDict V → Bytes → V → SimpleDict V × ℕ
  put_if_exists d key val = elim (lookup key d.m) [
    | some _ ↦ (record { m = insert key val d.m }, 1)
    | none ↦ (d, 0)
  ]

  unfoldable pub remove : SimpleDict V → Bytes → SimpleDict V × ℕ
  remove d key = (record { m = delete key d.m }, (elim (lookup key d.m) [ some _ ↦ 1 | none ↦ 0 ]))

  unfoldable pub all_keys : SimpleDict V → List Bytes
  unfolding keys_loop
  all_keys d = keys_loop (replicate (length d.m) []) (keys d.m)

  -- The visit of `ForEach` with a consumer that keeps a state and may stop the visit.
  for_each_loop {ℓ} : {S : Type ℓ} → (Bytes → V → S → S × Bool) → GoMap V → S → S
  for_each_loop consumer [] s = s
  for_each_loop consumer ((k, v) ∷ m) s =
      let (s', goes_on) = consumer k v s in
      elim goes_on [ true ↦ for_each_loop consumer m s' | false ↦ s' ]

  unfoldable pub for_each {ℓ} : {S : Type ℓ} → SimpleDict V → (Bytes → V → S → S × Bool) → S → S
  unfolding for_each_loop
  for_each d consumer s = for_each_loop consumer d.m s

  -- A limit that is not negative; a negative one panics in `make`.
  unfoldable pub random_distinct_keys : SimpleDict V → ℕ → List Bytes
  unfolding distinct_loop
  random_distinct_keys d limit =
      let size = if ltb (length d.m) limit then length d.m else limit in
      distinct_loop limit 0 (replicate size []) (keys d.m)

  unfoldable pub clear : SimpleDict V → SimpleDict V
  unfolding make_simple
  clear d = make_simple
