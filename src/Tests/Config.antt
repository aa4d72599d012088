-- ===== src/Tests/Config.antt =====
-- The property file of the repository, and files that are written as entries.
use mudis.Config.{
  ServerProperties, parse, setup, no_properties, fields, default_properties, is_comment, scan,
  split_lines, fill_fields, read_lines, read_line,
}
use mudis.Config.Written.{Entry, set_to, comment, blank, write}
use mudis.Config.Latest.{settle, parse-settle}
use mudis.Config.RoundTrip.{entries, parse-entries}
use mudis.Dict.GoMap.{lookup, insert}
use mudis.Strconv.{parse_int, parse_uint, parse_digits, is_digit, format_int, format_uint, digits}
use mudis.Prelude.{
  codes, Bytes, List, ◌∷◌, [], true, ok, none, some, beq, to_lower, ◌≡◌, refl, arith,
}
use mudis.Prelude.Int.{pos}

-- redis.conf
abbrev redis_conf : Bytes
redis_conf =
    codes
      "bind 0.0.0.0\nport 6380\n\nappendonly yes\nappendfilename appendonly.aof\n\nself 127.0.0.1:6380\npeers 127.0.0.1:6381"

abbrev redis_properties : ServerProperties
redis_properties = record {
  bind = codes "0.0.0.0";
  port = pos 6380;
  append_only = true;
  append_filename = codes "appendonly.aof";
  max_clients = pos 0;
  require_pass = [];
  databases = pos 0;
  peers = codes "127.0.0.1:6381" ∷ [];
  self = codes "127.0.0.1:6380";
}

redis_conf_read : parse redis_conf ≡ ok redis_properties
unfolding parse no_properties lookup insert beq to_lower parse_int parse_uint parse_digits is_digit
    scan split_lines fill_fields fields read_lines read_line
redis_conf_read = refl

-- A file without a port, and no file.
port_missing : setup (some (codes "bind ::1")) ≡ ok (record no_properties { bind = codes "::1" })
unfolding setup parse no_properties lookup insert beq to_lower parse_int parse_uint parse_digits
    is_digit scan split_lines fill_fields fields read_lines read_line
port_missing = refl

file_missing : setup none ≡ ok (record no_properties { bind = codes "0.0.0.0"; port = pos 6379 })
unfolding setup default_properties
file_missing = refl

abbrev two_ports : List Entry
two_ports =
    comment (codes " the server")
    ∷ set_to (codes "PORT") (codes "1")
    ∷ blank
    ∷ set_to (codes "bind") []
    ∷ set_to (codes "port") (codes "6379")
    ∷ []

parse-settle_example : parse (write two_ports) ≡ ok (settle fields two_ports no_properties)
unfolding is_comment
parse-settle_example = parse-settle two_ports (ground arith)

parse-entries_example : parse (write (entries redis_properties)) ≡ ok redis_properties
unfolding is_comment format_int format_uint digits
parse-entries_example =
    parse-entries redis_properties (ground arith) (omega arith) (omega arith) (omega arith)
      (ground arith)
