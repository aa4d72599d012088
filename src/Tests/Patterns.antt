-- ===== src/Tests/Patterns.antt =====
-- A compiled pattern on two keys.
use mudis.Wildcard.{Item, compile_pattern, is_match, is_all, accepts, holds}
use mudis.Wildcard.Table.{matches, is_match-matches}
use mudis.Prelude.{reverse_onto, List, codes, true, false, [], ◌≡◌, refl}

abbrev items : List Item
items = compile_pattern (codes "h[a-c]*")

is_match-matches_example :
    is_match items (codes "habit")
    ≡ matches (reverse_onto items []) (reverse_onto (codes "habit") [])
is_match-matches_example = is_match-matches items (codes "habit")

habit_matches : is_match items (codes "habit") ≡ true
unfolding compile_pattern is_match is_all accepts holds
habit_matches = refl

hobby_fails : is_match items (codes "hobby") ≡ false
unfolding compile_pattern is_match is_all accepts holds
hobby_fails = refl
