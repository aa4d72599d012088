-- ===== src/Database/Lists/Indexed/Index.antt =====
-- What the signed indices of the list commands mean: an index below zero counts from the end.
use mudis.Database.Strings.Range.{start_index}
use mudis.Database.Lists.Indexed.{range_start, range_stop}
use mudis.Prelude.Int.{ℤ, pos, negsuc}
use mudis.Prelude.{
  ℕ, zero, suc, ◌+◌, ◌-◌, ◌<◌, ◌≤◌, min, List, [], ◌∷◌, ◌++◌, Option, none, some, length, ltb,
  get_elem?, set, take, drop, reverse_onto, reverse_onto-append, reverse_twice, length-reverse_onto,
  reverse_onto_append, split_at, get_elem?-append, get_elem?_outside, set-append, take_same,
  length-drop, drop_all, length-append, ◌⊎◌, inl, inr, Bool-cases, if◌then◌else◌, ◌≡◌, refl, sym,
  ap, ◌∙◌, arith,
}

-- Where a range begins, and where it ends, exclusively.
abbrev pub lower : ℕ → ℤ → ℕ
lower n (pos start) = start
lower n (negsuc m) = n - suc m

abbrev pub upper : ℕ → ℤ → ℕ
upper n (pos stop) = stop + 1
upper n (negsuc m) = n - m

module _ {A : Type 0} where
  abbrev pub reverse : List A → List A
  reverse xs = reverse_onto xs []

  abbrev pub at_index : List A → ℤ → Option A
  at_index vs (pos n) = get_elem? vs n
  at_index vs (negsuc n) = get_elem? (reverse vs) n

  abbrev pub set_index : List A → ℤ → A → List A
  set_index vs (pos n) w = set vs n w
  set_index vs (negsuc n) w = reverse (set (reverse vs) n w)

  abbrev pub window : List A → ℤ → ℤ → List A
  window vs start stop =
      let from = lower (length vs) start in take (upper (length vs) stop - from) (drop from vs)

  -- The value at an index that is in range, and the values around it.
  pub record Located (vs : List A) (i : ℤ) : Type 0 where
    pub before : List A
    pub value : A
    pub behind : List A
    pub list : vs ≡ before ++ value ∷ behind
    pub start : start_index (length vs) i ≡ some (length before)
    pub found : at_index vs i ≡ some value
    pub replaced : (w : A) → set_index vs i w ≡ before ++ w ∷ behind

  from_end :
      (us : List A) (v : A) (ws : List A) → reverse (us ++ v ∷ ws) ≡ reverse ws ++ v ∷ reverse us
  from_end us v ws = reverse_onto-append us (v ∷ ws) [] ∙ reverse_onto_append ws (v ∷ reverse us)

  length-reverse : (vs : List A) → length (reverse vs) ≡ length vs
  length-reverse vs = omega (arith, length-reverse_onto vs [])

  from_end-Located :
      (us : List A) (v : A) (ws : List A) → Located (us ++ v ∷ ws) (negsuc (length ws))
  unfolding start_index
  from_end-Located us v ws =
      let n : length (us ++ v ∷ ws) ≡ length us + suc (length ws) = length-append us (v ∷ ws) in
      let m : length (reverse ws) ≡ length ws = length-reverse ws in
      record {
        before = us;
        value = v;
        behind = ws;
        list = refl;
        start = ground (arith, n);
        found =
            ap (λ zs. get_elem? zs (length ws)) (from_end us v ws)
            ∙ ap (get_elem? (reverse ws ++ v ∷ reverse us)) (sym m)
            ∙ get_elem?-append (reverse ws) v (reverse us);
        replaced = λ w.
            ap (λ zs. reverse (set zs (length ws) w)) (from_end us v ws)
            ∙ ap (λ k. reverse (set (reverse ws ++ v ∷ reverse us) k w)) (sym m)
            ∙ ap reverse (set-append (reverse ws) (reverse us) v w)
            ∙ ap reverse (sym (from_end us w ws))
            ∙ reverse_twice (us ++ w ∷ ws) [];
      }

  pub locate :
      (vs : List A) (i : ℤ)
      → Located vs i ⊎ ((start_index (length vs) i ≡ none) × (at_index vs i ≡ none))
  unfolding start_index
  locate vs (pos n) = elim (Bool-cases (ltb n (length vs))) [
    | inl h ↦
        let (us, v, ws, e, f) = split_at vs n (ground arith) in
        inl (record {
          before = us;
          value = v;
          behind = ws;
          list = e;
          start = ground arith;
          found = rw (e, ← f) (get_elem?-append us v ws);
          replaced = λ w. rw (e, ← f) (set-append us ws v w);
        })
    | inr h ↦ inr (ground arith, get_elem?_outside vs n (ground arith))
  ]
  locate vs (negsuc n) = elim (Bool-cases (ltb n (length vs))) [
    | inl h ↦
        let (us, v, ws, e, f) = split_at vs (length vs - suc n) (ground arith) in
        let k : length vs ≡ length us + suc (length ws) = ap length e ∙ length-append us (v ∷ ws) in
        let m : length ws ≡ n = ground arith in inl (rw (e, ← m) (from_end-Located us v ws))
    | inr h ↦
        inr (ground arith, get_elem?_outside (reverse vs) n (ground (arith, length-reverse vs)))
  ]

  abbrev no_values : List A
  no_values = []

  take_nothing : (m : ℕ) → take m [] ≡ no_values
  take_nothing zero = refl
  take_nothing (suc m) = refl

  pub window_nothing : (start stop : ℤ) → window no_values start stop ≡ []
  window_nothing start stop =
      ap (take (upper 0 stop - lower 0 start)) (drop_all (lower 0 start) [] (omega arith))
      ∙ take_nothing _

  -- The bounds that LRANGE computes cut the window out.
  pub range_start-window :
      (vs : List A) (start stop : ℤ)
      → range_start (length vs) start ≡ none
      → window vs start stop ≡ []
  unfolding range_start
  range_start-window vs (negsuc n) stop h = ground arith
  range_start-window vs (pos n) stop h =
      ap (take (upper (length vs) stop - n)) (drop_all n vs (ground arith)) ∙ take_nothing _

  pub range_bounds :
      (vs : List A) (start stop : ℤ) (i : ℕ)
      → 0 < length vs
      → range_start (length vs) start ≡ some i
      → (i < length vs)
        × (i ≡ lower (length vs) start)
        × (range_stop (length vs) stop ≤ length vs)
        × (range_stop (length vs) stop ≡ min (upper (length vs) stop) (length vs))
  unfolding range_start range_stop
  range_bounds vs (pos n) (pos m) i p h = (ground arith, ground arith, ground arith, ground arith)
  range_bounds vs (pos n) (negsuc m) i p h =
      (ground arith, ground arith, ground arith, ground arith)
  range_bounds vs (negsuc n) (pos m) i p h =
      (ground arith, ground arith, ground arith, ground arith)
  range_bounds vs (negsuc n) (negsuc m) i p h =
      (ground arith, ground arith, ground arith, ground arith)

  pub take-window :
      (vs : List A) (start stop : ℤ) (i : ℕ)
      → 0 < length vs
      → range_start (length vs) start ≡ some i
      → take
          ((if ltb (range_stop (length vs) stop) i then i else range_stop (length vs) stop) - i)
          (drop i vs)
        ≡ window vs start stop
  take-window vs start stop i p h =
      let (a, b, c, d) = range_bounds vs start stop i p h in
      rw (← b) (take_same _ _ (drop i vs) (ground (arith, a, b, c, d, length-drop i vs)))

  set_back :
      (vs : List A) (n : ℕ) (u w : A)
      → get_elem? vs n ≡ some u
      → (get_elem? (set vs n w) n ≡ some w) × (set (set vs n w) n u ≡ vs)
  set_back [] n u w h = cc
  set_back (v ∷ vs) zero u w h = (refl, ground arith)
  set_back (v ∷ vs) (suc n) u w h = let (e, f) = set_back vs n u w h in (e, ap (λ xs. v ∷ xs) f)

  -- A value that replaced another at an index is found there, and the other can be put back.
  pub set_index_back :
      (vs : List A) (i : ℤ) (u w : A)
      → at_index vs i ≡ some u
      → (at_index (set_index vs i w) i ≡ some w) × (set_index (set_index vs i w) i u ≡ vs)
  set_index_back vs (pos n) u w h = set_back vs n u w h
  set_index_back vs (negsuc n) u w h =
      let (e, f) = set_back (reverse vs) n u w h in
      let r : reverse (reverse (set (reverse vs) n w)) ≡ set (reverse vs) n w =
        reverse_twice _ [] in
      (rw r e, ap (λ xs. reverse (set xs n u)) r ∙ ap reverse f ∙ reverse_twice vs [])
