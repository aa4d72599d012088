-- ===== src/Aof/Commands.antt =====
-- The `init` functions of database: the commands that hand their own words to the log or leave the
-- database as it was, whatever the dictionary and the stored lists and sets are.
use mathlib.Core.Path.{subst}
use mudis.Aof.Durable.{IsDurable, Durable}
use mudis.Database.Recorded.{Recorded}
use mudis.Parser.RoundTrip.{IsPlain}
use mudis.Dict.{Dict}
use mudis.Dict.GoMap.{insert}
use mudis.Strconv.{NumError}
use mudis.Database.{Entity, CmdTable, Command, Db, ExecFunc, register_command}
use mudis.Database.Keys.{
  ping, exec_del, exec_exists, exec_flush_db, exec_type, exec_rename, exec_rename_nx,
}
use mudis.Database.Keys.Logged.{
  del-Recorded, exists-Recorded, flush_db-Recorded, type-Recorded, rename-Recorded,
  rename_nx-Recorded, ping-Recorded,
}
use mudis.Database.Strings.{
  exec_get, exec_set, exec_set_nx, exec_m_set, exec_m_get, exec_m_set_nx, exec_str_len, exec_append,
  exec_set_range, exec_get_range,
}
use mudis.Database.Strings.Logged.{
  get-Recorded, set-Recorded, set_nx-Recorded, m_set-Recorded, m_get-Recorded, m_set_nx-Recorded,
  str_len-Recorded, append-Recorded, set_range-Recorded, get_range-Recorded,
}
use mudis.Database.Strings.Counters.{exec_incr, exec_incr_by, exec_decr, exec_decr_by}
use mudis.Database.Strings.Counters.Logged.{
  incr-Recorded, incr_by-Recorded, decr-Recorded, decr_by-Recorded,
}
use mudis.Database.Sets.{exec_s_add, exec_s_is_member, exec_s_card, exec_s_members}
use mudis.Database.Sets.Logged.{
  s_add-Recorded, s_is_member-Recorded, s_card-Recorded, s_members-Recorded,
}
use mudis.Database.Lists.{
  exec_l_len, exec_l_pop, exec_r_pop, exec_l_push, exec_l_push_x, exec_r_push, exec_r_push_x,
}
use mudis.Database.Lists.Indexed.{exec_l_index, exec_l_set}
use mudis.Database.Lists.Indexed.Logged.{l_index-Recorded, l_set-Recorded}
use mudis.Database.Lists.Logged.{
  l_len-Recorded, l_pop-Recorded, r_pop-Recorded, l_push-Recorded, l_push_x-Recorded,
  r_push-Recorded, r_push_x-Recorded,
}
use mudis.Prelude.Int.{ℤ, pos, negsuc}
use mudis.Prelude.{
  Bytes, String, codes, List, [], ◌∷◌, beq, beq_iff, to_lower, ◌≡◌, inl, inr, refl, sym, arith,
  Bool-cases,
}

module _ {C : Type 0} where
  insert-Durable :
      (key : Bytes) (cmd : Command C) (table : CmdTable C)
      → IsDurable key cmd
      → Durable table
      → Durable (insert key cmd table)
  unfolding insert
  insert-Durable key cmd [] h d = (h, tt)
  insert-Durable key cmd ((k, c) ∷ table) h (g, d) = elim (Bool-cases (beq k key)) [
    | inl e ↦ rw e (subst (λ j. IsDurable j cmd) (sym ((beq_iff k key).0 e)) h, d)
    | inr e ↦ rw e (g, insert-Durable key cmd table h d)
  ]

  -- `RegisterCommand` of a command with the word that it writes.
  register-Durable :
      (name word : String) (executor : ExecFunc C) (arity : ℤ) (table : CmdTable C)
      → to_lower (codes word) ≡ to_lower (codes name)
      → IsPlain (codes word)
      → ((db : Db C) (args : List Bytes) → Recorded (codes word) args db (executor db args))
      → Durable table
      → Durable (register_command name executor arity table)
  unfolding register_command
  register-Durable name word executor arity table n p r d =
      insert-Durable (to_lower (codes name)) (record { executor = executor; arity = arity }) table
        (record { word = codes word; named = n; plain = p; records = r }) d

module _ (D : Dict Entity) (error_text : NumError → Bytes → Bytes) where
  -- Those of keys.go and ping.go.
  unfoldable pub key_commands : CmdTable D.Carrier → CmdTable D.Carrier
  key_commands table = register_command "RenameNx" (exec_rename_nx D) (pos 3) (
      register_command "Rename" (exec_rename D) (pos 3) (
        register_command "Type" (exec_type D) (pos 2) (
          register_command "FlushDB" (exec_flush_db D) (negsuc 0) (
            register_command "Exists" (exec_exists D) (negsuc 1) (
              register_command "Del" (exec_del D) (negsuc 1)
                (register_command "ping" ping (negsuc 0) table))))))

  key_commands-Durable : (table : CmdTable D.Carrier) → Durable table → Durable (key_commands table)
  unfolding key_commands to_lower
  key_commands-Durable table d =
      register-Durable "RenameNx" "renamenx" _ _ _ refl (λ e. cc, omega arith)
        (rename_nx-Recorded D)
        (register-Durable "Rename" "rename" _ _ _ refl (λ e. cc, omega arith) (rename-Recorded D)
          (register-Durable "Type" "type" _ _ _ refl (λ e. cc, omega arith) (type-Recorded D)
            (register-Durable "FlushDB" "flushdb" _ _ _ refl (λ e. cc, omega arith)
              (flush_db-Recorded D)
              (register-Durable "Exists" "exists" _ _ _ refl (λ e. cc, omega arith)
                (exists-Recorded D)
                (register-Durable "Del" "del" _ _ _ refl (λ e. cc, omega arith) (del-Recorded D)
                  (register-Durable "ping" "ping" _ _ _ refl (λ e. cc, omega arith)
                    (ping-Recorded D) d))))))

  -- Those of string.go.
  unfoldable pub string_commands : CmdTable D.Carrier → CmdTable D.Carrier
  string_commands table = register_command "GetRange" (exec_get_range D error_text) (pos 4) (
      register_command "SetRange" (exec_set_range D error_text) (pos 4) (
        register_command "Append" (exec_append D) (pos 3) (
          register_command "StrLen" (exec_str_len D) (pos 2) (
            register_command "DecrBy" (exec_decr_by D) (pos 3) (
              register_command "Decr" (exec_decr D) (pos 2) (
                register_command "IncrBy" (exec_incr_by D) (pos 3) (
                  register_command "Incr" (exec_incr D) (pos 2) (
                    register_command "Get" (exec_get D) (pos 2) (
                      register_command "MSetNX" (exec_m_set_nx D) (negsuc 2) (
                        register_command "MGet" (exec_m_get D) (negsuc 1) (
                          register_command "MSet" (exec_m_set D) (negsuc 2) (
                            register_command "SetNx" (exec_set_nx D) (pos 3)
                              (register_command "Set" (exec_set D) (negsuc 2) table)))))))))))))

  string_commands-Durable :
      (table : CmdTable D.Carrier) → Durable table → Durable (string_commands table)
  unfolding string_commands to_lower
  string_commands-Durable table d =
      register-Durable "GetRange" "getrange" _ _ _ refl (λ e. cc, omega arith)
        (λ db. get_range-Recorded D db error_text)
        (register-Durable "SetRange" "setRange" _ _ _ refl (λ e. cc, omega arith)
          (λ db. set_range-Recorded D db error_text)
          (register-Durable "Append" "append" _ _ _ refl (λ e. cc, omega arith)
            (λ db. append-Recorded D db)
            (register-Durable "StrLen" "strlen" _ _ _ refl (λ e. cc, omega arith)
              (λ db. str_len-Recorded D db)
              (register-Durable "DecrBy" "decrby" _ _ _ refl (λ e. cc, omega arith)
                (λ db. decr_by-Recorded D db)
                (register-Durable "Decr" "decr" _ _ _ refl (λ e. cc, omega arith)
                  (λ db. decr-Recorded D db)
                  (register-Durable "IncrBy" "incrby" _ _ _ refl (λ e. cc, omega arith)
                    (λ db. incr_by-Recorded D db)
                    (register-Durable "Incr" "incr" _ _ _ refl (λ e. cc, omega arith)
                      (λ db. incr-Recorded D db)
                      (register-Durable "Get" "get" _ _ _ refl (λ e. cc, omega arith)
                        (λ db. get-Recorded D db)
                        (register-Durable "MSetNX" "msetnx" _ _ _ refl (λ e. cc, omega arith)
                          (λ db. m_set_nx-Recorded D db)
                          (register-Durable "MGet" "mget" _ _ _ refl (λ e. cc, omega arith)
                            (λ db. m_get-Recorded D db)
                            (register-Durable "MSet" "mset" _ _ _ refl (λ e. cc, omega arith)
                              (λ db. m_set-Recorded D db)
                              (register-Durable "SetNx" "setnx" _ _ _ refl (λ e. cc, omega arith)
                                (λ db. set_nx-Recorded D db)
                                (register-Durable "Set" "set" _ _ _ refl (λ e. cc, omega arith)
                                  (λ db. set-Recorded D db) d)))))))))))))

  -- Those of set.go.
  unfoldable pub set_commands : CmdTable D.Carrier → CmdTable D.Carrier
  set_commands table = register_command "SMembers" (exec_s_members D) (pos 2) (
      register_command "SCard" (exec_s_card D) (pos 2) (
        register_command "SIsMember" (exec_s_is_member D) (pos 3)
          (register_command "SAdd" (exec_s_add D) (negsuc 2) table)))

  set_commands-Durable : (table : CmdTable D.Carrier) → Durable table → Durable (set_commands table)
  unfolding set_commands to_lower
  set_commands-Durable table d =
      register-Durable "SMembers" "smembers" _ _ _ refl (λ e. cc, omega arith)
        (λ db. s_members-Recorded D db)
        (register-Durable "SCard" "scard" _ _ _ refl (λ e. cc, omega arith)
          (λ db. s_card-Recorded D db)
          (register-Durable "SIsMember" "sismember" _ _ _ refl (λ e. cc, omega arith)
            (λ db. s_is_member-Recorded D db)
            (register-Durable "SAdd" "sadd" _ _ _ refl (λ e. cc, omega arith)
              (λ db. s_add-Recorded D db) d)))

  -- Those of list.go.
  unfoldable pub list_commands : CmdTable D.Carrier → CmdTable D.Carrier
  list_commands table = register_command "lset" (exec_l_set D) (pos 4) (
      register_command "lindex" (exec_l_index D) (pos 3) (
        register_command "llen" (exec_l_len D) (pos 2) (
          register_command "rpop" (exec_r_pop D) (pos 2) (
            register_command "lpop" (exec_l_pop D) (pos 2) (
              register_command "rpushX" (exec_r_push_x D) (negsuc 2) (
                register_command "rpush" (exec_r_push D) (negsuc 2) (
                  register_command "lpushx" (exec_l_push_x D) (negsuc 2)
                    (register_command "lpush" (exec_l_push D) (negsuc 2) table))))))))

  list_commands-Durable :
      (table : CmdTable D.Carrier) → Durable table → Durable (list_commands table)
  unfolding list_commands to_lower
  list_commands-Durable table d =
      register-Durable "lset" "lset" _ _ _ refl (λ e. cc, omega arith) (λ db. l_set-Recorded D db)
        (register-Durable "lindex" "lindex" _ _ _ refl (λ e. cc, omega arith)
          (λ db. l_index-Recorded D db)
          (register-Durable "llen" "llen" _ _ _ refl (λ e. cc, omega arith)
            (λ db. l_len-Recorded D db)
            (register-Durable "rpop" "rpop" _ _ _ refl (λ e. cc, omega arith)
              (λ db. r_pop-Recorded D db)
              (register-Durable "lpop" "lpop" _ _ _ refl (λ e. cc, omega arith)
                (λ db. l_pop-Recorded D db)
                (register-Durable "rpushX" "rpushx" _ _ _ refl (λ e. cc, omega arith)
                  (λ db. r_push_x-Recorded D db)
                  (register-Durable "rpush" "rpush" _ _ _ refl (λ e. cc, omega arith)
                    (λ db. r_push-Recorded D db)
                    (register-Durable "lpushx" "lpushx" _ _ _ refl (λ e. cc, omega arith)
                      (λ db. l_push_x-Recorded D db)
                      (register-Durable "lpush" "lpush" _ _ _ refl (λ e. cc, omega arith)
                        (λ db. l_push-Recorded D db) d))))))))

  unfoldable pub commands : CmdTable D.Carrier
  commands = string_commands (set_commands (list_commands (key_commands [])))

  -- PING, DEL, EXISTS, FLUSHDB, TYPE, RENAME, RENAMENX, SET, SETNX, MSET, MGET, MSETNX, GET, INCR, INCRBY,
  -- DECR, DECRBY, STRLEN, APPEND, SETRANGE, GETRANGE, SADD, SISMEMBER, SCARD, SMEMBERS, LPUSH, LPUSHX,
  -- RPUSH, RPUSHX, LPOP, RPOP, LLEN, LINDEX and LSET each hand their own words to the log, or leave the
  -- database as it was, and reply with bytes.
  pub commands-Durable : Durable commands
  unfolding commands
  commands-Durable =
      string_commands-Durable _
        (set_commands-Durable _ (list_commands-Durable _ (key_commands-Durable [] tt)))
