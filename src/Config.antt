-- ===== src/Config.antt =====
-- config/config.go: the property file, and main.go, which chooses between it and the defaults.
-- The lines are those of bufio's Scanner; a field is found by its `cfg` tag, as reflection does.
pub mod Written
pub mod Latest
pub mod RoundTrip
use mudis.Dict.GoMap.{GoMap, lookup, insert}
use mudis.Strconv.{parse_int}
use mudis.Prelude.{
  ℕ, zero, suc, ◌-◌, Bytes, codes, List, [], ◌∷◌, Option, none, some, Bool, true, false, ltb, leb,
  ◌==◌, ◌&&◌, if◌then◌else◌, beq, to_lower, Result, ok, err, length, take, drop, reverse_onto,
}
use mudis.Prelude.Int.{ℤ, pos}

pub record ServerProperties : Type 0 where
  pub bind : Bytes
  pub port : ℤ
  pub append_only : Bool
  pub append_filename : Bytes
  pub max_clients : ℤ
  pub require_pass : Bytes
  pub databases : ℤ
  pub peers : List Bytes
  pub self : Bytes

-- `&ServerProperties{}`; a nil slice of peers is an empty one.
unfoldable pub no_properties : ServerProperties
no_properties = record {
  bind = [];
  port = pos 0;
  append_only = false;
  append_filename = [];
  max_clients = pos 0;
  require_pass = [];
  databases = pos 0;
  peers = [];
  self = [];
}

-- `logger.Fatal` ends the process.
pub data Fatal : Type 0 where
  line_too_long : Fatal

-- `defaultProperties` of main.go
unfoldable pub default_properties : ServerProperties
unfolding no_properties
default_properties = record no_properties { bind = codes "0.0.0.0"; port = pos 6379 }

-- A byte in front of the first of the lines.
unfoldable pub extend_first : ℕ → List Bytes → List Bytes
extend_first c [] = (c ∷ []) ∷ []
extend_first c (l ∷ ls) = (c ∷ l) ∷ ls

-- The lines between line feeds; nothing behind the last one is no line.
unfoldable pub split_lines : Bytes → List Bytes
unfolding extend_first
split_lines [] = []
split_lines (c ∷ s) = let rest = split_lines s in if c == 10 then [] ∷ rest else extend_first c rest

-- The carriage return at the end of a line is dropped.
unfoldable pub drop_cr : Bytes → Bytes
drop_cr [] = []
drop_cr (c ∷ []) = if c == 13 then [] else c ∷ []
drop_cr (c ∷ d ∷ s) = c ∷ drop_cr (d ∷ s)

-- `bufio.MaxScanTokenSize`
abbrev pub max_token : ℕ
max_token = 65536

-- What `Scan` and `Text` give until the end, or `Err`.
unfoldable pub scan : List Bytes → Result Fatal (List Bytes)
unfolding drop_cr
scan [] = ok []
scan (l ∷ ls) =
    let rest : Result Fatal (List Bytes) = elim (scan ls) [
      | ok ms ↦ ok (drop_cr l ∷ ms)
      | err e ↦ err e
    ] in
    if leb max_token (length l) then err line_too_long else rest

-- `strings.IndexAny` for one byte; `none` is -1.
unfoldable pub index_any : ℕ → Bytes → Option ℕ
index_any sep [] = none
index_any sep (c ∷ s) =
    let rest : Option ℕ = elim (index_any sep s) [ none ↦ none | some i ↦ some (suc i) ] in
    if c == sep then some zero else rest

unfoldable pub trim_left : Bytes → Bytes
trim_left [] = []
trim_left (c ∷ s) = let rest = trim_left s in if c == b' ' then rest else c ∷ s

-- `strings.Trim(_, " ")`
unfoldable pub trim : Bytes → Bytes
unfolding trim_left
trim s = reverse_onto (trim_left (reverse_onto (trim_left s) [])) []

-- `strings.Split`
unfoldable pub split : ℕ → Bytes → List Bytes
unfolding extend_first
split sep [] = [] ∷ []
split sep (c ∷ s) = let rest = split sep s in if c == sep then [] ∷ rest else extend_first c rest

unfoldable pub is_comment : Bytes → Bool
is_comment [] = false
is_comment (c ∷ _) = c == b'#'

-- One round of the loop over the lines.
unfoldable pub read_line : GoMap Bytes → Bytes → GoMap Bytes
unfolding is_comment index_any trim
read_line raw_map line =
    let read : GoMap Bytes = elim (index_any b' ' line) [
      | none ↦ raw_map
      | some pivot ↦
          let read_row =
            insert (to_lower (take pivot line)) (trim (drop (suc pivot) line)) raw_map in
          if ltb 0 pivot && ltb pivot (length line - 1) then read_row else raw_map
    ] in
    if is_comment line then raw_map else read

unfoldable pub read_lines : GoMap Bytes → List Bytes → GoMap Bytes
read_lines raw_map [] = raw_map
read_lines raw_map (line ∷ lines) = read_lines (read_line raw_map line) lines

-- The kind of a field, with the assignment to it.
pub data Setter : Type 0 where
  string_field : (Bytes → ServerProperties → ServerProperties) → Setter
  int_field : (ℤ → ServerProperties → ServerProperties) → Setter
  bool_field : (Bool → ServerProperties → ServerProperties) → Setter
  slice_field : (List Bytes → ServerProperties → ServerProperties) → Setter

-- The fields in their order, by their tags.
unfoldable pub fields : List (Bytes × Setter)
fields =
    (codes "bind", string_field (λ v c. record c { bind = v }))
    ∷ (codes "port", int_field (λ v c. record c { port = v }))
    ∷ (codes "appendOnly", bool_field (λ v c. record c { append_only = v }))
    ∷ (codes "appendFilename", string_field (λ v c. record c { append_filename = v }))
    ∷ (codes "maxclients", int_field (λ v c. record c { max_clients = v }))
    ∷ (codes "requirepass", string_field (λ v c. record c { require_pass = v }))
    ∷ (codes "databases", int_field (λ v c. record c { databases = v }))
    ∷ (codes "peers", slice_field (λ v c. record c { peers = v }))
    ∷ (codes "self", string_field (λ v c. record c { self = v }))
    ∷ []

-- The `switch` on the field's kind.
unfoldable pub set_field : Setter → Bytes → ServerProperties → ServerProperties
unfolding split
set_field (string_field assign) value config = assign value config
set_field (int_field assign) value config = elim (parse_int value) [
  | ok z ↦ assign z config
  | err _ ↦ config
]
set_field (bool_field assign) value config = assign (beq (codes "yes") value) config
set_field (slice_field assign) value config = assign (split b',' value) config

-- `if ok { ... }`
unfoldable pub fill : Setter → Option Bytes → ServerProperties → ServerProperties
unfolding set_field
fill setter none config = config
fill setter (some value) config = set_field setter value config

-- The loop over the fields.
unfoldable pub fill_fields :
    GoMap Bytes → List (Bytes × Setter) → ServerProperties → ServerProperties
unfolding fill
fill_fields raw_map [] config = config
fill_fields raw_map ((key, setter) ∷ rest) config =
    fill_fields raw_map rest (fill setter (lookup (to_lower key) raw_map) config)

unfoldable pub parse : Bytes → Result Fatal ServerProperties
parse src = elim (scan (split_lines src)) [
  | ok lines ↦ ok (fill_fields (read_lines [] lines) fields no_properties)
  | err e ↦ err e
]

-- The properties that `main` sets: by `SetupConfig` where the file is there.
unfoldable pub setup : Option Bytes → Result Fatal ServerProperties
setup none = ok default_properties
setup (some src) = parse src
