-- ===== src/Config/Latest.antt =====
-- config/config.go: which of the lines that name a field decides it.
use mudis.Config.Written.{
  Entry, set_to, comment, blank, IsEntry, write, put_all, scan-write, read_lines-write,
}
use mudis.Config.{ServerProperties, Setter, no_properties, fields, fill, fill_fields, parse}
use mudis.Dict.GoMap.{GoMap, lookup, insert, lookup-insert}
use mudis.Prelude.{
  Bytes, List, [], ◌∷◌, Option, none, some, beq, to_lower, ok, All, if◌then◌else◌, ◌≡◌, refl, ap,
  ◌∙◌, arith,
}

abbrev pub or_known : Bytes → Option Bytes → Option Bytes
or_known [] known = known
or_known (c ∷ s) known = some (c ∷ s)

-- The last value that is not empty on a line whose key is this one in any letter case.
abbrev pub latest : Bytes → Option Bytes → List Entry → Option Bytes
latest key known [] = known
latest key known (set_to j value ∷ es) =
    latest key (if beq (to_lower j) (to_lower key) then or_known value known else known) es
latest key known (comment text ∷ es) = latest key known es
latest key known (blank ∷ es) = latest key known es

-- Each field with the last line that names it.
abbrev pub settle : List (Bytes × Setter) → List Entry → ServerProperties → ServerProperties
settle [] es config = config
settle ((key, setter) ∷ rest) es config = settle rest es (fill setter (latest key none es) config)

lookup-put_all :
    (key : Bytes) (m : GoMap Bytes) (es : List Entry)
    → lookup (to_lower key) (put_all m es) ≡ latest key (lookup (to_lower key) m) es
lookup-put_all key m [] = refl
lookup-put_all key m (set_to j [] ∷ es) =
    let e : lookup (to_lower key) m ≡ (
        if beq (to_lower j) (to_lower key)
        then lookup (to_lower key) m
        else lookup (to_lower key) m) =
      ground arith in
    lookup-put_all key m es ∙ ap (λ o. latest key o es) e
lookup-put_all key m (set_to j (c ∷ s) ∷ es) =
    rw
      (
        lookup-put_all key (insert (to_lower j) (c ∷ s) m) es,
        lookup-insert (to_lower j) (to_lower key) (c ∷ s) m,
      )
      refl
lookup-put_all key m (comment text ∷ es) = lookup-put_all key m es
lookup-put_all key m (blank ∷ es) = lookup-put_all key m es

fill_fields-settle :
    (rows : List (Bytes × Setter)) (es : List Entry) (config : ServerProperties)
    → fill_fields (put_all [] es) rows config ≡ settle rows es config
unfolding fill_fields
fill_fields-settle [] es config = refl
fill_fields-settle ((key, setter) ∷ rest) es config =
    let e : lookup (to_lower key) (put_all [] es) ≡ latest key none es =
      unfold lookup in lookup-put_all key [] es in
    rw e (fill_fields-settle rest es (fill setter (latest key none es) config))

-- A file of entries whose lines fit the scanner is read without an error, and each field is filled
-- with the last value that is not empty on a line whose key is the field's tag in any letter case.
pub parse-settle :
    (es : List Entry) → All IsEntry es → parse (write es) ≡ ok (settle fields es no_properties)
unfolding parse
parse-settle es h =
    rw (parse, scan-write es h, read_lines-write [] es h)
      (ap ok (fill_fields-settle fields es no_properties))
