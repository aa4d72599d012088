-- ===== src/Wildcard.antt =====
-- lib/wildcard/wildcard.go: patterns and the table that matches them. Texts are of ASCII, where a
-- `range` over a string visits its bytes.
pub mod Table
use mudis.Prelude.{
  ℕ, Bytes, List, [], ◌∷◌, ◌++◌, Bool, true, false, ◌&&◌, ◌||◌, not, leb, ltb, ◌==◌, if◌then◌else◌,
}

pub data TypeCode : Type 0 where
  normal all any set_symbol rang_symbol neg_symbol : TypeCode

-- A Go map of bytes is the list of its keys.
pub record Item : Type 0 where
  pub character : ℕ
  pub members : Bytes
  pub type_code : TypeCode

member_of : Bytes → ℕ → Bool
member_of [] c = false
member_of (k ∷ ks) c = k == c || member_of ks c

without : Bytes → ℕ → Bytes
without [] c = []
without (k ∷ ks) c = let rest = without ks c in if k == c then rest else k ∷ rest

least : ℕ → Bytes → ℕ
least min [] = min
least min (k ∷ ks) = least (if ltb k min then k else min) ks

greatest : ℕ → Bytes → ℕ
greatest max [] = max
greatest max (k ∷ ks) = greatest (if ltb max k then k else max) ks

unfoldable pub holds : Item → ℕ → Bool
unfolding member_of least greatest
holds i c = elim i.type_code [
  | set_symbol ↦ member_of i.members c
  | rang_symbol ↦
      member_of i.members c || (leb (least 255 i.members) c && leb c (greatest 0 i.members))
  | _ ↦ not (member_of i.members c)
]

-- The variables of the loop of `CompilePattern`.
pub record Compiling : Type 0 where
  pub items : List Item
  pub escape : Bool
  pub in_set : Bool
  pub set : Bytes

abbrev single : TypeCode → ℕ → Item
single t c = record { character = c; members = []; type_code = t }

append_item : Item → Compiling → Compiling
append_item i st = record st { items = st.items ++ i ∷ [] }

-- The item that `]` closes.
close_set : Bytes → Item
unfolding member_of without
close_set set =
    let ranged = member_of set b'-' in
    let set' = if ranged then without set b'-' else set in
    let negated = member_of set' b'^' in
    let set'' = if negated then without set' b'^' else set' in
    record {
      character = 0;
      members = set'';
      type_code = if negated then neg_symbol else if ranged then rang_symbol else set_symbol;
    }

compile_step : Compiling → ℕ → Compiling
unfolding append_item close_set
compile_step st c =
    if st.escape
    then record (append_item (single normal c) st) { escape = false }
    else if c == b'*'
    then append_item (single all 0) st
    else if c == b'?'
    then append_item (single any 0) st
    else if c == 92
    then record st { escape = true }
    else if c == b'['
    then (if st.in_set
        then record st { set = c ∷ st.set }
        else record st { in_set = true; set = [] })
    else if c == b']'
    then (if st.in_set
        then record (append_item (close_set st.set) st) { in_set = false }
        else append_item (single normal c) st)
    else if st.in_set
    then record st { set = c ∷ st.set }
    else append_item (single normal c) st

compile_loop : Compiling → Bytes → Compiling
unfolding compile_step
compile_loop st [] = st
compile_loop st (c ∷ src) = compile_loop (compile_step st c) src

-- The items of the pattern.
unfoldable pub compile_pattern : Bytes → List Item
unfolding compile_loop
compile_pattern src =
    (compile_loop (record { items = []; escape = false; in_set = false; set = [] }) src).items

unfoldable pub is_all : Item → Bool
is_all i = elim i.type_code [ all ↦ true | _ ↦ false ]

-- The test of one byte by an item that is no star.
unfoldable pub accepts : Item → ℕ → Bool
unfolding holds
accepts i c = elim i.type_code [
  | any ↦ true
  | normal ↦ c == i.character
  | all ↦ false
  | _ ↦ holds i c
]

-- `table[0][j]` from `table[0][j-1]` on.
first_row : Bool → List Item → List Bool
unfolding is_all
first_row left [] = []
first_row left (i ∷ items) = let v = left && is_all i in v ∷ first_row v items

-- `table[i][j]` from `table[i][j-1]` and the row above from `table[i-1][j-1]` on.
next_cells : ℕ → Bool → List Bool → List Item → List Bool
unfolding is_all accepts
next_cells c left (diagonal ∷ above ∷ row) (i ∷ items) =
    let v = if is_all i then above || left else diagonal && accepts i c in
    v ∷ next_cells c v (above ∷ row) items
next_cells c left row items = []

-- The rows of the table, one for each byte.
rows : List Item → List Bool → Bytes → List Bool
unfolding next_cells
rows items row [] = row
rows items row (c ∷ s) = rows items (false ∷ next_cells c false row items) s

last_cell : Bool → List Bool → Bool
last_cell v [] = v
last_cell v (w ∷ row) = last_cell w row

-- `table[m][n]`
unfoldable pub is_match : List Item → Bytes → Bool
unfolding first_row rows last_cell
is_match [] [] = true
is_match [] (c ∷ s) = false
is_match (i ∷ items) s = last_cell false (rows (i ∷ items) (true ∷ first_row true (i ∷ items)) s)
