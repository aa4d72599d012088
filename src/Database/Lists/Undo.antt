-- ===== src/Database/Lists/Undo.antt =====
-- database/list.go: the functions that give the command lines by which a command on lists is undone,
-- and its `init` and `prepareRPopLPush`.
pub mod Laws
use mudis.Prelude.Int.{ℤ, pos, negsuc}
use mudis.Strconv.{parse_int}
use mudis.Dict.{Dict}
use mudis.LinkedList
use mudis.LinkedList.{LinkedList}
use mudis.Reply.{Slice}
use mudis.Database.{Entity, State, CmdLine, CmdTable, register_command, to_cmd_line}
use mudis.Database.Strings.Range.{start_index}
use mudis.Database.Lists.{
  get_as_list, exec_l_push, exec_l_push_x, exec_l_pop, exec_l_len, exec_r_push, exec_r_push_x,
  exec_r_pop,
}
use mudis.Database.Lists.Indexed.{exec_l_index, exec_l_range, exec_l_rem, exec_l_set}
use mudis.Database.Lists.Move.{exec_r_pop_l_push}
use mudis.Prelude.{
  ℕ, zero, suc, ◌+◌, ◌-◌, Bytes, codes, List, [], ◌∷◌, Option, none, some, ok, err, ◌==◌, length,
  if◌then◌else◌, replicate, String,
}

-- A nil element reads as the empty word of a command line.
abbrev pub as_word : Slice → Bytes
as_word none = []
as_word (some s) = s

module _ (D : Dict Entity) where
  -- The element at an index of a list that is there and not empty, in a command line.
  undo_with : State D → Bytes → (ℕ → ℕ) → (Bytes → List CmdLine) → Option (List CmdLine)
  undo_with db key index lines = elim (get_as_list D db key) [
    | err e ↦ some []
    | ok none ↦ some []
    | ok (some l) ↦
        if LinkedList.length l == 0
        then some []
        else elim (LinkedList.get l (pos (index (LinkedList.length l)))) [
          | err e ↦ none
          | ok element ↦ some (lines (as_word element))
        ]
  ]

  -- `none` is a panic of the function, here and below.
  unfoldable pub undo_l_pop : State D → List Bytes → Option (List CmdLine)
  unfolding undo_with
  undo_l_pop db [] = none
  undo_l_pop db (key ∷ _) = undo_with db key (λ n. 0) (λ e. to_cmd_line "LPUSH" (key ∷ e ∷ []) ∷ [])

  unfoldable pub undo_r_pop : State D → List Bytes → Option (List CmdLine)
  unfolding undo_with
  undo_r_pop db [] = none
  undo_r_pop db (key ∷ _) =
      undo_with db key (λ n. n - 1) (λ e. to_cmd_line "RPUSH" (key ∷ e ∷ []) ∷ [])

  unfoldable pub undo_r_pop_l_push : State D → List Bytes → Option (List CmdLine)
  unfolding undo_with
  undo_r_pop_l_push db (source_key ∷ dest_key ∷ _) =
      undo_with db source_key (λ n. n - 1)
        (λ e. to_cmd_line "RPUSH" (source_key ∷ e ∷ []) ∷ to_cmd_line "LPOP" (dest_key ∷ []) ∷ [])
  undo_r_pop_l_push db _ = none

  unfoldable pub undo_l_push : State D → List Bytes → Option (List CmdLine)
  undo_l_push db [] = none
  undo_l_push db (key ∷ values) = some (replicate (length values) (to_cmd_line "LPOP" (key ∷ [])))

  unfoldable pub undo_r_push : State D → List Bytes → Option (List CmdLine)
  undo_r_push db [] = none
  undo_r_push db (key ∷ values) = some (replicate (length values) (to_cmd_line "RPOP" (key ∷ [])))

  unfoldable pub undo_l_set : State D → List Bytes → Option (List CmdLine)
  undo_l_set db (key ∷ index ∷ _) = elim (parse_int index) [
    | err e ↦ some []
    | ok i ↦ elim (get_as_list D db key) [
      | err e ↦ some []
      | ok none ↦ some []
      | ok (some l) ↦ elim (start_index (LinkedList.length l) i) [
        | none ↦ some []
        | some j ↦ elim (LinkedList.get l (pos j)) [
          | err e ↦ none
          | ok value ↦ some (to_cmd_line "LSET" (key ∷ index ∷ as_word value ∷ []) ∷ [])
        ]
      ]
    ]
  ]
  undo_l_set db _ = none

  -- `init`, for the commands of this file.
  unfoldable pub list_commands : CmdTable D.Carrier
  unfolding register_command
  list_commands = register_command "lrange" (exec_l_range D) (pos 4) (
      register_command "lset" (exec_l_set D) (pos 4) (
        register_command "lindex" (exec_l_index D) (pos 3) (
          register_command "llen" (exec_l_len D) (pos 2) (
            register_command "lrem" (exec_l_rem D) (pos 4) (
              register_command "rpoplpush" (exec_r_pop_l_push D) (pos 3) (
                register_command "rpop" (exec_r_pop D) (pos 2) (
                  register_command "lpop" (exec_l_pop D) (pos 2) (
                    register_command "rpushX" (exec_r_push_x D) (negsuc 2) (
                      register_command "rpush" (exec_r_push D) (negsuc 2) (
                        register_command "lpushx" (exec_l_push_x D) (negsuc 2)
                          (register_command "lpush" (exec_l_push D) (negsuc 2) [])))))))))))

-- The keys that RPOPLPUSH writes, and those that it reads.
unfoldable pub prepare_r_pop_l_push : List Bytes → Option (List Bytes × List Bytes)
prepare_r_pop_l_push (source_key ∷ dest_key ∷ _) = some (source_key ∷ dest_key ∷ [], [])
prepare_r_pop_l_push _ = none
