-- ===== src/Arg/Command.antt =====
-- `bs_arg_parse`, `bs_arg_cleanup` and `set_all_defaults` of arg.c.
use libbase.Base.{Bool, true, false, not, ◌&&◌, Option, none, some, List, [], ◌∷◌, if◌then◌else◌}
use libbase.Base.Int.{ℤ}
use libbase.Memory.{Ptr, abort, fault, Cmd, pure, ◌>>=◌, ◌>>◌}
use libbase.Text.{Text, starts_with}
use libbase.Arg.{
  Value, a_bool, an_int, a_string, a_uint32, Spec, bool_spec, enum_spec, string_spec, uint32_spec,
  Arg, Vars, store, Mode, no_extra, extra_values, extra_args, dashes, Found, no_name, missing_value,
  no_arg, found, find_matching_arg, lookup_enum, parse_arg,
}
use libbase.Arg.Check.{check_arg}

-- A string is freed and its variable set to NULL.
abbrev pub free_string : Ptr → Value → Cmd Vars (Unit {0})
free_string p (a_string (some s)) = store p (a_string none)
free_string p v = pure tt

abbrev pub cleanup_spec : Spec → Ptr → Cmd Vars (Unit {0})
cleanup_spec (string_spec d) p = λ m. free_string p (m p) m
cleanup_spec s p = pure tt

-- A loop ends at an argument without a name.
abbrev pub if_named : Option Text → Cmd Vars (Unit {0}) → Cmd Vars (Unit {0})
if_named none m = pure tt
if_named (some name) m = m

unfoldable pub cleanup : List Arg → Cmd Vars (Unit {0})
cleanup [] = pure tt
cleanup (a ∷ args) = if_named a.name (do cleanup_spec a.spec a.value_ptr; cleanup args)

-- The default of an enum has to be in its table.
abbrev pub store_found : Ptr → Option ℤ → Cmd Vars (Unit {0})
store_found p none = λ m. abort
store_found p (some n) = store p (an_int n)

unfoldable pub set_default : Spec → Ptr → Cmd Vars (Unit {0})
set_default (bool_spec d) p = store p (a_bool d)
set_default (enum_spec d table) p = store_found p (lookup_enum table d)
set_default (string_spec d) p = store p (a_string d)
set_default (uint32_spec d low high) p = store p (a_uint32 d)

unfoldable pub set_all_defaults : List Arg → Cmd Vars (Unit {0})
set_all_defaults [] = pure tt
set_all_defaults (a ∷ args) =
    if_named a.name (do set_default a.spec a.value_ptr; set_all_defaults args)

abbrev pub first : List Text → Option Text
first [] = none
first (s ∷ argv) = some s

abbrev pub keep : Text → Option (List Text) → Option (List Text)
keep s none = none
keep s (some extra) = some (s ∷ extra)

-- One round of the loop. `next` and `skip` are what it does for the strings behind, from the next
-- one or from the one after that.
abbrev pub after_match :
    Text
    → Found
    → Cmd Vars (Option (List Text))
    → Cmd Vars (Option (List Text))
    → Cmd Vars (Option (List Text))
after_match s no_name next skip = λ m. fault
after_match s missing_value next skip = pure none
after_match s no_arg next skip = do extra ← next; pure (keep s extra)
after_match s (found a v used) next skip = do
  parsed ← parse_arg a v
  if parsed then (if used then skip else next) else pure none

-- The first loop of `bs_arg_parse` over the strings behind the program's name. The flag is set while
-- the next string is the value of the argument before it. The result is the strings that are not
-- consumed, or nothing if an argument is in error.
unfoldable pub parse_from : List Arg → Bool → List Text → Cmd Vars (Option (List Text))
parse_from args skip [] = pure (some [])
parse_from args true (s ∷ argv) = parse_from args false argv
parse_from args false (s ∷ argv) =
    after_match s (find_matching_arg args s (first argv)) (parse_from args false argv)
      (parse_from args true argv)

abbrev pub none_has_dashes : List Text → Bool
none_has_dashes [] = true
none_has_dashes (s ∷ argv) = not (starts_with dashes s) && none_has_dashes argv

abbrev pub is_nil : List Text → Bool
is_nil [] = true
is_nil (s ∷ argv) = false

unfoldable pub allows : Mode → List Text → Bool
allows no_extra extra = is_nil extra
allows extra_values extra = none_has_dashes extra
allows extra_args extra = true

-- What follows the first loop: the value that `bs_arg_parse` returns, and what `argv` then has behind
-- the program's name, unless an argument was in error.
abbrev pub conclude : List Arg → Mode → Option (List Text) → Cmd Vars (Bool × Option (List Text))
conclude args mode none = do cleanup args; pure (false, none)
conclude args mode (some extra) =
    if allows mode extra then pure (true, some extra) else do cleanup args; pure (false, some extra)

unfoldable pub parse : List Arg → Mode → List Text → Cmd Vars (Bool × Option (List Text))
parse args mode argv =
    if not (check_arg args)
    then pure (false, some argv)
    else do set_all_defaults args; extra ← parse_from args false argv; conclude args mode extra
