-- ===== src/Tests/Requests.antt =====
-- Requests on the wire, replies, and index ranges.
use mudis.Reply.{multi_bulk, to_bytes}
use mudis.Parser.{out_of_fuel, parse_stream, send, reply, left_open}
use mudis.Parser.RoundTrip.{parse_stream-to_bytes}
use mudis.Parser.Termination.{parse_stream_ends}
use mudis.Parser.Faults.{empty_argument_crashes}
use mudis.Database.Strings.Range.{overwrite_loop, overwrite}
use mudis.Database.Strings.Range.Laws.{overwrite_lem}
use mudis.Prelude.{
  ◌+◌, drop, length, ◌-◌, replicate, ◌++◌, refl, take, arith, ◌∷◌, ◌≢◌, map, ◌≡◌, some, Bytes,
  codes, [],
}

abbrev get_word : Bytes
get_word = codes "GET"

abbrev a_key : Bytes
a_key = codes "key"

abbrev ping_request : Bytes
ping_request = to_bytes (multi_bulk (some (codes "PING") ∷ []))

-- A request is read back, and the one behind it is parsed next.
parse_stream-to_bytes_example :
    parse_stream (to_bytes (multi_bulk (map some (get_word ∷ a_key ∷ []))) ++ ping_request)
    ≡ send (reply (multi_bulk (map some (get_word ∷ a_key ∷ []))) ∷ []) (parse_stream ping_request)
parse_stream-to_bytes_example =
    parse_stream-to_bytes get_word (a_key ∷ []) ping_request
      ((λ e. cc, omega arith), ((λ e. cc, omega arith), tt)) (omega arith)

parse_stream_ends_example : (parse_stream (codes "*1")).ending ≢ out_of_fuel
parse_stream_ends_example = parse_stream_ends (codes "*1")

-- `APPEND "" key` kills the parser, `SET key ""` is answered twice.
empty_argument_crashes_example :
    parse_stream (
      to_bytes (multi_bulk (map some (codes "APPEND" ∷ []) ++ some [] ∷ some a_key ∷ []))
      ++ ping_request)
    ≡ record { payloads = []; ending = left_open }
empty_argument_crashes_example =
    empty_argument_crashes (codes "APPEND" ∷ []) (some a_key) [] ping_request
      ((λ e. cc, omega arith), tt) (omega arith)

overwrite_lem_example :
    overwrite (codes "abc") 5 (codes "xy")
    ≡ take 5 (codes "abc")
      ++ (replicate (5 - length (codes "abc")) 0
          ++ (codes "xy" ++ drop (5 + length (codes "xy")) (codes "abc")))
overwrite_lem_example = overwrite_lem (codes "abc") 5 (codes "xy")

-- The zero bytes of the gap.
overwrite_gap : overwrite (codes "a") 3 (codes "b") ≡ 97 ∷ 0 ∷ 0 ∷ 98 ∷ []
unfolding overwrite overwrite_loop
overwrite_gap = refl
