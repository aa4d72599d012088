-- ===== src/Config/Written.antt =====
-- config/config.go: what `parse` reads of a file that is written as entries, one on a line.
use mudis.Config.{
  split_lines, extend_first, drop_cr, scan, index_any, trim_left, trim, is_comment, read_line,
  read_lines, max_token,
}
use mudis.Dict.GoMap.{GoMap, insert}
use mudis.Prelude.{
  ℕ, suc, ◌+◌, ◌<◌, ◌≤◌, Bytes, List, [], ◌∷◌, ◌++◌, map, some, false, to_lower, ok, length, drop,
  All, All-append, reverse_onto, reverse_twice, take-append, length-append, ◌≡◌, ◌≢◌, refl, ap, ◌∙◌,
  arith,
}

-- No space and no end of a line.
abbrev pub IsInner : ℕ → Type 0
IsInner c = (c ≢ 10) × (c ≢ 13) × (c ≢ 32)

abbrev pub IsWord : Bytes → Type 0
IsWord = All IsInner

-- A byte of a line.
abbrev pub IsOnLine : ℕ → Type 0
IsOnLine c = (c ≢ 10) × (c ≢ 13)

pub data Entry : Type 0 where
  set_to : Bytes → Bytes → Entry
  comment : Bytes → Entry
  blank : Entry

abbrev pub line : Entry → Bytes
line (set_to key value) = key ++ 32 ∷ value
line (comment text) = 35 ∷ text
line blank = []

-- The file, each line of which ends with a line feed.
abbrev pub write : List Entry → Bytes
write [] = []
write (e ∷ es) = line e ++ 10 ∷ write es

-- A key is a word that starts no comment, a value is a word, and a line fits the scanner.
abbrev pub IsEntry : Entry → Type 0
IsEntry (set_to key value) =
    (1 ≤ length key)
    × (is_comment key ≡ false)
    × IsWord key
    × IsWord value
    × (length key + length value + 1 < max_token)
IsEntry (comment text) = All IsOnLine text × (length text + 1 < max_token)
IsEntry blank = Unit

IsWord-IsOnLine : (s : Bytes) → IsWord s → All IsOnLine s
IsWord-IsOnLine [] h = tt
IsWord-IsOnLine (c ∷ s) ((a, b, _), t) = ((a, b), IsWord-IsOnLine s t)

line-IsOnLine : (e : Entry) → IsEntry e → All IsOnLine (line e)
line-IsOnLine (set_to key value) (_, _, k, v, _) =
    All-append IsOnLine key (32 ∷ value) (IsWord-IsOnLine key k)
      ((λ e. cc, λ e. cc), IsWord-IsOnLine value v)
line-IsOnLine (comment text) (h, _) = ((λ e. cc, λ e. cc), h)
line-IsOnLine blank h = tt

line-length : (e : Entry) → IsEntry e → length (line e) < max_token
line-length (set_to key value) (_, _, _, _, h) = omega (arith, length-append key (32 ∷ value))
line-length (comment text) (_, h) = omega arith
line-length blank h = omega arith

split_lines-line : (l s : Bytes) → All IsOnLine l → split_lines (l ++ 10 ∷ s) ≡ l ∷ split_lines s
unfolding split_lines extend_first
split_lines-line [] s h = refl
split_lines-line (c ∷ l) s ((n, _), h) = rw (split_lines-line l s h) (ground arith)

split_lines-write : (es : List Entry) → All IsEntry es → split_lines (write es) ≡ map line es
unfolding split_lines
split_lines-write [] h = refl
split_lines-write (e ∷ es) (h, hs) =
    rw (split_lines-line (line e) (write es) (line-IsOnLine e h), split_lines-write es hs)

drop_cr_lem : (l : Bytes) → All IsOnLine l → drop_cr l ≡ l
unfolding drop_cr
drop_cr_lem [] h = refl
drop_cr_lem (c ∷ []) ((_, n), _) = ground arith
drop_cr_lem (c ∷ d ∷ l) (_, h) = ap (λ t. c ∷ t) (drop_cr_lem (d ∷ l) h)

scan-lines : (es : List Entry) → All IsEntry es → scan (map line es) ≡ ok (map line es)
unfolding scan
scan-lines [] h = refl
scan-lines (e ∷ es) (h, hs) =
    let short = line-length e h in
    rw (scan-lines es hs, drop_cr_lem (line e) (line-IsOnLine e h)) (ground arith)

pub scan-write :
    (es : List Entry) → All IsEntry es → scan (split_lines (write es)) ≡ ok (map line es)
scan-write es h = rw (split_lines-write es h) (scan-lines es h)

index_any-word : (key s : Bytes) → IsWord key → index_any 32 (key ++ 32 ∷ s) ≡ some (length key)
unfolding index_any
index_any-word [] s h = refl
index_any-word (c ∷ key) s ((_, _, n), h) = rw (index_any-word key s h) (ground arith)

trim_left_lem : (s : Bytes) → IsWord s → trim_left s ≡ s
unfolding trim_left
trim_left_lem [] h = refl
trim_left_lem (c ∷ s) ((_, _, n), h) = ground arith

reverse_onto-IsWord : (s t : Bytes) → IsWord s → IsWord t → IsWord (reverse_onto s t)
reverse_onto-IsWord [] t h k = k
reverse_onto-IsWord (c ∷ s) t (a, h) k = reverse_onto-IsWord s (c ∷ t) h (a, k)

trim_lem : (s : Bytes) → IsWord s → trim s ≡ s
unfolding trim
trim_lem s h =
    rw (trim_left_lem s h, trim_left_lem (reverse_onto s []) (reverse_onto-IsWord s [] h tt))
      (reverse_twice s [])

-- What a line puts into the map.
abbrev pub put : GoMap Bytes → Entry → GoMap Bytes
put m (set_to key []) = m
put m (set_to key (c ∷ s)) = insert (to_lower key) (c ∷ s) m
put m (comment text) = m
put m blank = m

abbrev pub put_all : GoMap Bytes → List Entry → GoMap Bytes
put_all m [] = m
put_all m (e ∷ es) = put_all (put m e) es

is_comment-append :
    (key s : Bytes) → 1 ≤ length key → is_comment key ≡ false → is_comment (key ++ s) ≡ false
unfolding is_comment
is_comment-append [] s h e = absurd (omega arith)
is_comment-append (c ∷ key) s h e = e

drop_separator : (key : Bytes) (c : ℕ) (s : Bytes) → drop (suc (length key)) (key ++ c ∷ s) ≡ s
drop_separator [] c s = refl
drop_separator (_ ∷ key) c s = drop_separator key c s

read_line-set_to :
    (m : GoMap Bytes) (key value : Bytes)
    → IsEntry (set_to key value)
    → read_line m (key ++ 32 ∷ value) ≡ put m (set_to key value)
unfolding read_line
read_line-set_to m key [] (some_key, no_comment, k, v, _) =
    let n = length-append key (32 ∷ []) in
    rw (is_comment-append key (32 ∷ []) some_key no_comment, index_any-word key [] k) (ground arith)
read_line-set_to m key (c ∷ s) (some_key, no_comment, k, v, _) =
    let n = length-append key (32 ∷ c ∷ s) in
    rw
      (
        is_comment-append key (32 ∷ c ∷ s) some_key no_comment,
        index_any-word key (c ∷ s) k,
        take-append key (32 ∷ c ∷ s),
        drop_separator key 32 (c ∷ s),
        trim_lem (c ∷ s) v,
      )
      (ground arith)

read_line-line : (m : GoMap Bytes) (e : Entry) → IsEntry e → read_line m (line e) ≡ put m e
read_line-line m (set_to key value) h = read_line-set_to m key value h
read_line-line m (comment text) h = unfold read_line is_comment in refl
read_line-line m blank h = unfold read_line is_comment index_any in refl

pub read_lines-write :
    (m : GoMap Bytes) (es : List Entry) → All IsEntry es → read_lines m (map line es) ≡ put_all m es
unfolding read_lines
read_lines-write m [] h = refl
read_lines-write m (e ∷ es) (h, hs) =
    ap (λ m'. read_lines m' (map line es)) (read_line-line m e h) ∙ read_lines-write (put m e) es hs
