-- ===== src/Config/RoundTrip.antt =====
-- config/config.go: properties that are written as a file and read back.
use mudis.Config.Written.{Entry, set_to, IsEntry, write}
use mudis.Config.Latest.{or_known, parse-settle}
use mudis.Config.{
  ServerProperties, string_field, int_field, bool_field, slice_field, no_properties, fields, fill,
  set_field, split, extend_first, parse,
}
use mudis.Strconv.{format_int, format_uint, digits}
use mudis.Strconv.RoundTrip.{digits-ne-nil, parse_int-format_int}
use mudis.Prelude.{
  suc, ◌≤◌, Bytes, codes, List, [], ◌∷◌, ◌++◌, none, some, Bool, true, false, beq, to_lower, ok,
  length, All, ◌≡◌, ◌≢◌, refl, ap, ◌∙◌, arith,
}
use mudis.Prelude.Int.{ℤ, pos, negsuc, InRange}

-- `strings.Join(_, ",")`
abbrev pub join : List Bytes → Bytes
join [] = []
join (p ∷ []) = p
join (p ∷ q ∷ ps) = p ++ 44 ∷ join (q ∷ ps)

abbrev pub yes_no : Bool → Bytes
yes_no true = codes "yes"
yes_no false = codes "no"

-- A line for each field.
abbrev pub entries : ServerProperties → List Entry
entries c =
    set_to (codes "bind") c.bind
    ∷ set_to (codes "port") (format_int c.port)
    ∷ set_to (codes "appendonly") (yes_no c.append_only)
    ∷ set_to (codes "appendfilename") c.append_filename
    ∷ set_to (codes "maxclients") (format_int c.max_clients)
    ∷ set_to (codes "requirepass") c.require_pass
    ∷ set_to (codes "databases") (format_int c.databases)
    ∷ set_to (codes "peers") (join c.peers)
    ∷ set_to (codes "self") c.self
    ∷ []

abbrev pub IsPeer : Bytes → Type 0
IsPeer p = (1 ≤ length p) × All (λ c. c ≢ 44) p

split-word : (p : Bytes) → All (λ c. c ≢ 44) p → split 44 p ≡ p ∷ []
unfolding split extend_first
split-word [] h = refl
split-word (c ∷ p) (n, h) = rw (split-word p h) (ground arith)

split-append : (p s : Bytes) → All (λ c. c ≢ 44) p → split 44 (p ++ 44 ∷ s) ≡ p ∷ split 44 s
unfolding split extend_first
split-append [] s h = refl
split-append (c ∷ p) s (n, h) = rw (split-append p s h) (ground arith)

split-join : (p : Bytes) (ps : List Bytes) → All IsPeer (p ∷ ps) → split 44 (join (p ∷ ps)) ≡ p ∷ ps
split-join p [] ((_, h), _) = split-word p h
split-join p (q ∷ ps) ((_, h), hs) =
    split-append p (join (q ∷ ps)) h ∙ ap (λ t. p ∷ t) (split-join q ps hs)

known_lem : (v : Bytes) → 1 ≤ length v → or_known v none ≡ some v
known_lem [] h = absurd (omega arith)
known_lem (c ∷ s) h = refl

length-join : (p : Bytes) (ps : List Bytes) → 1 ≤ length p → 1 ≤ length (join (p ∷ ps))
length-join p [] h = h
length-join [] (q ∷ ps) h = absurd (omega arith)
length-join (c ∷ p) (q ∷ ps) h = omega arith

fill_string :
    (assign : Bytes → ServerProperties → ServerProperties) (v : Bytes) (config : ServerProperties)
    → assign [] config ≡ config
    → fill (string_field assign) (or_known v none) config ≡ assign v config
unfolding fill set_field
fill_string assign [] config e = cc
fill_string assign (c ∷ s) config e = refl

length_nonempty : (s : Bytes) → s ≢ [] → 1 ≤ length s
length_nonempty [] h = absurd (h refl)
length_nonempty (c ∷ s) h = omega arith

length-format_int : (z : ℤ) → 1 ≤ length (format_int z)
unfolding format_int format_uint
length-format_int (pos n) = length_nonempty (digits (suc n) n) (digits-ne-nil n n)
length-format_int (negsuc n) = omega arith

fill_int :
    (assign : ℤ → ServerProperties → ServerProperties) (z : ℤ) (config : ServerProperties)
    → InRange z
    → fill (int_field assign) (or_known (format_int z) none) config ≡ assign z config
unfolding fill
fill_int assign z config h =
    rw (known_lem (format_int z) (length-format_int z), set_field, parse_int-format_int z h) refl

fill_bool :
    (assign : Bool → ServerProperties → ServerProperties) (b : Bool) (config : ServerProperties)
    → fill (bool_field assign) (or_known (yes_no b) none) config ≡ assign b config
unfolding fill set_field beq
fill_bool assign true config = refl
fill_bool assign false config = refl

fill_slice :
    (assign : List Bytes → ServerProperties → ServerProperties) (ps : List Bytes)
    (config : ServerProperties)
    → assign [] config ≡ config
    → All IsPeer ps
    → fill (slice_field assign) (or_known (join ps) none) config ≡ assign ps config
unfolding fill set_field
fill_slice assign [] config e h = cc
fill_slice assign (p ∷ ps) config e h =
    rw (known_lem (join (p ∷ ps)) (length-join p ps h.0.0), split-join p ps h) refl

-- Properties whose 64-bit integers are in range, whose peers are not empty and hold no comma, and
-- whose values are words on lines that fit the scanner, are read back from the file that holds a
-- line for each field, its key in small letters.
pub parse-entries :
    (c : ServerProperties)
    → All IsEntry (entries c)
    → InRange c.port
    → InRange c.max_clients
    → InRange c.databases
    → All IsPeer c.peers
    → parse (write (entries c)) ≡ ok c
unfolding fields no_properties to_lower beq
parse-entries c h port max_clients databases peers =
    let d1 = record no_properties { bind = c.bind } in
    let d2 = record d1 { port = c.port } in
    let d3 = record d2 { append_only = c.append_only } in
    let d4 = record d3 { append_filename = c.append_filename } in
    let d5 = record d4 { max_clients = c.max_clients } in
    let d6 = record d5 { require_pass = c.require_pass } in
    let d7 = record d6 { databases = c.databases } in
    let d8 = record d7 { peers = c.peers } in
    parse-settle (entries c) h
    ∙ ap ok (
        rw
          (
            fill_string (λ v d. record d { bind = v }) c.bind no_properties refl,
            fill_int (λ v d. record d { port = v }) c.port d1 port,
            fill_bool (λ v d. record d { append_only = v }) c.append_only d2,
            fill_string (λ v d. record d { append_filename = v }) c.append_filename d3 refl,
            fill_int (λ v d. record d { max_clients = v }) c.max_clients d4 max_clients,
            fill_string (λ v d. record d { require_pass = v }) c.require_pass d5 refl,
            fill_int (λ v d. record d { databases = v }) c.databases d6 databases,
            fill_slice (λ v d. record d { peers = v }) c.peers d7 refl peers,
            fill_string (λ v d. record d { self = v }) c.self d8 refl,
          )
          refl)
