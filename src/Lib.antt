-- ===== src/Lib.antt =====
-- Mudis, a Redis-compatible server in Go: its wire protocol, its data structures and the commands of
-- one database.
--
-- A client's bytes go through the parser (resp/parser/parser.go) into requests, a request is
-- dispatched by name to a command of the database (database/), which works on the dictionary of
-- entities (datastruct/), hands the lines that change something to the append-only log, and answers
-- with a reply (resp/reply/), which is serialized for the client. The parser reads the replies too,
-- in the client and when the log is replayed.
--
-- Which file is about which code:
--   Prelude           numbers, integers of 64 bits, lists, byte strings, results
--   Strconv           ParseUint, ParseInt, Itoa and FormatInt of Go's package strconv, by its
--                     documentation
--   Reply             resp/reply: the reply structs, ToBytes, IsErrorReply, Error
--   Parser            resp/parser/parser.go: readLine, the header parsers, readBody, parse0;
--                     Parser/Replies has the replies that it reads back
--   Dict              datastruct/dict/dict.go: the interface, as a record of operations and laws
--   Dict/GoMap        Go's map of strings, as an association list
--   Dict/Simple       datastruct/dict/simple_dict.go
--   Dict/Concurrent   datastruct/dict/sync_dict_concurrenthashmap.go; ForEach and Keys in Visit
--   Dict/Sync         datastruct/dict/sync_dict_syncmap.go
--   Dict/Refine       calls of the interface, on the three dictionaries
--   Set               datastruct/set/set.go
--   LinkedList        datastruct/list/linked.go: its methods on a heap of nodes, those that walk through
--                     the list in Loops; below it the linked segments of nodes (Seg, Links, Nodes), and
--                     the methods as operations on the values of a list (Values, Removal, Window)
--   Database          database/db.go, database/command.go: access to entities, dispatch, arity
--   Database/Strings  database/string.go, with the counters and the ranges below it
--   Database/Keys     database/keys.go, with KEYS in Pattern, and database/ping.go
--   Database/Sets     database/set.go, with SINTER, SUNION, SDIFF and their STORE forms in Algebra
--   Database/Lists    database/list.go: the commands at the ends of a list; the others in Indexed and
--                     Move, the undo functions in Undo; Holds is what a key holds as values
--   Database/Dispatch the dispatch with a registered command
--   Standalone        database/standalone_database.go: SELECT and Exec on the databases
--   Aof               aof/aof.go: handleAof, AddAof and LoadAof; Aof/Durable, Aof/Commands and
--                     Aof/Restore with what the commands of Database hand to the log
--   Handler           resp/handler/handler.go: Handle, with Write of resp/connection/conn.go
--   Utils             lib/utils/utils.go: BytesEquals and ConvertRange
--   Wildcard          lib/wildcard/wildcard.go: patterns and the table of IsMatch
--   ConsistentHash    lib/consistenthash/consistenthash.go: the ring of the nodes
--   Config            config/config.go: the property file; Config/Written and Config/RoundTrip are files
--                     as entries, one on a line
--   Client            resp/client/client.go: its channels and goroutines, as steps
--   Cluster           cluster: a node, its router and what it relays; Cluster/Peers is the network
--                     of nodes that serve one another, with the bytes on the connection
--   Tests             the theorems at concrete inputs
--
-- How state is modelled. A database is a record of the dictionary and the lines handed to `addAof`
-- so far; the dictionary is a parameter of the commands with the laws of the interface, which the
-- three dictionaries satisfy. An operation of the concurrent dictionary holds its shard's lock for
-- all it does, and is one step; so is one of the dictionary over sync.Map, where no other writer
-- comes between its calls of the map. A command maps a database and its arguments to a
-- reply and the new database, or to a panic with the database as it was left. A set or a list
-- that Go changes in place is stored again under its key. A linked list is its header with the heap
-- of its nodes, a method maps it to a new one or to a panic. The log's handler and the client's
-- handler are functions of the payloads that they receive; the file, the network and the database of
-- a client's handler are parameters. The parser's loop is a function of the whole stream of
-- bytes into the payloads sent and the way the goroutine ends: the channel is closed, or it is left
-- open after a panic.
--
-- Bounds and fuel. Integers of type int and int64 wrap around at 64 bits, lengths are natural
-- numbers. `parse0` takes a step of fuel for each round; a round that goes on consumes a byte, so the
-- length of the stream and one more is enough. A loop over a list takes a step of fuel for each node,
-- and the size and one more is enough for a list that stands for values.
--
-- Taken as given. The visit of a Go map goes in the order of the association list. `ToLower` and
-- `ToUpper` are those of ASCII, and patterns are of ASCII. Memory that `make` asks for is there,
-- except that a negative length panics. `sync.Map` does what its documentation says. A byte slice
-- that was stored is not changed through another name. The text of a strconv error is a parameter.
-- A request to a peer finds a connection with no bytes left on it from another one.
--
-- Not modelled: sockets, goroutines and timers (tcp, the rest of resp/client and resp/connection), the
-- start and the end of the log's and the client's handler, logging, Contains of the linked list,
-- and the listings and commands that draw at random.

pub mod Prelude
pub mod Strconv
pub mod Reply
pub mod Parser
pub mod Dict
pub mod Set
pub mod LinkedList
pub mod Database
pub mod Utils
pub mod Wildcard
pub mod Standalone
pub mod Aof
pub mod Handler
pub mod ConsistentHash
pub mod Cluster
pub mod Client
pub mod Config
pub mod Tests
