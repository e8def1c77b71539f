-- ===== src/Arg.antt =====
-- arg.h and arg.c. The variables that the arguments are stored in are a map from their addresses; a
-- list of arguments ends where the source has its sentinel. Memory for copies of strings is taken to
-- be there.
pub mod Check
pub mod Command
pub mod Names
pub mod Match
pub mod Unique
pub mod Line
pub mod Parse
pub mod Cleanup
pub mod Range
mod Tests
use libbase.Base.{
  ℕ, zero, suc, ◌+◌, ◌-◌, ◌%◌, ◌^◌, Bool, true, false, not, ◌&&◌, ◌||◌, Option, none, some, List,
  [], ◌∷◌, ◌++◌, length, drop, ltb, leb, ◌==◌, if◌then◌else◌,
}
use libbase.Base.Int.{ℤ, pos}
use libbase.Memory.{Ptr, null, ok, abort, Cmd, pure, ◌>>=◌, ◌>>◌, assert, update}
use libbase.Text.{Text, eq_text, starts_with, isalpha, isalnum}
use libbase.Strutil.{strconvert_uint64}

-- What a variable holds: a bool, the number of an enum, a string or NULL, or an unsigned number.
pub data Value : Type 0 where
  a_bool : Bool → Value
  an_int : ℤ → Value
  a_string : Option Text → Value
  a_uint32 : ℕ → Value

-- `bs_arg_enum_table_t`, up to the entry without a name.
pub record EnumEntry : Type 0 where
  pub entry_name : Text
  pub entry_value : ℤ

-- The type of an argument, with the fields of its member of the union but for `value_ptr`.
pub data Spec : Type 0 where
  bool_spec : Bool → Spec
  enum_spec : Text → List EnumEntry → Spec
  string_spec : Option Text → Spec
  uint32_spec : ℕ → ℕ → ℕ → Spec

-- `bs_arg_t`, with `value_ptr` taken out of the union.
pub record Arg : Type 0 where
  pub name : Option Text
  pub spec : Spec
  pub value_ptr : Ptr

-- The memory of the variables.
abbrev pub Vars : Type 0
Vars = Ptr → Value

abbrev pub store : Ptr → Value → Cmd Vars (Unit {0})
store p v = λ m. ok tt (update m p v)

-- `bs_arg_mode_t`
pub data Mode : Type 0 where
  no_extra : Mode
  extra_values : Mode
  extra_args : Mode

-- `bs_arg_match_t`
pub data MatchType : Type 0 where
  no_match : MatchType
  match_with_equal_sign : MatchType
  match_with_two_args : MatchType
  match_bool : MatchType
  match_bool_override_with_no : MatchType

-- `--` and `no`
abbrev pub dashes : Text
dashes = 45 ∷ 45 ∷ []

abbrev pub no : Text
no = 110 ∷ 111 ∷ []

abbrev pub text_true : Text
text_true = 116 ∷ 114 ∷ 117 ∷ 101 ∷ []

abbrev pub text_false : Text
text_false = 102 ∷ 97 ∷ 108 ∷ 115 ∷ 101 ∷ []

abbrev pub is_bool : Spec → Bool
is_bool (bool_spec d) = true
is_bool s = false

-- The value that a match points to: none, a string of its own, or the next argument, which may be
-- missing.
pub data ValueRef : Type 0 where
  no_value : ValueRef
  own_value : Text → ValueRef
  next_value : Option Text → ValueRef

-- What follows a matching name: `=` and a value, or the end.
abbrev pub after_name : Text → Option Text → MatchType × ValueRef
after_name [] next = (match_with_two_args, next_value next)
after_name (c ∷ value) next =
    if c == 61 then (match_with_equal_sign, own_value value) else (no_match, no_value)

unfoldable pub match_name : Spec → Text → Text → Option Text → MatchType × ValueRef
match_name spec name argv next =
    if is_bool spec
    then (if eq_text argv name
        then (match_bool, no_value)
        else if starts_with no argv && eq_text (drop 2 argv) name
        then (match_bool_override_with_no, no_value)
        else (no_match, no_value))
    else if starts_with name argv
    then after_name (drop (length name) argv) next
    else (no_match, no_value)

-- `get_match_type`, of an argument with the name `name`.
unfoldable pub get_match_type : Spec → Text → Text → Option Text → MatchType × ValueRef
get_match_type spec name argv next =
    if not (starts_with dashes argv)
    then (no_match, no_value)
    else match_name spec name (drop 2 argv) next

-- The result of `find_matching_arg`: an argument without a name, on which `strcmp` faults, a missing
-- value, no argument, or an argument with its value and whether that is the next string of `argv`.
pub data Found : Type 0 where
  no_name : Found
  missing_value : Found
  no_arg : Found
  found : Arg → Text → Bool → Found

-- The body of the loop of `find_matching_arg`; `rest` is what the loop does for the next arguments.
abbrev pub found_by : Arg → MatchType × ValueRef → Found → Found
found_by a (match_with_equal_sign, own_value v) rest = found a v false
found_by a (match_with_two_args, next_value none) rest = missing_value
found_by a (match_with_two_args, next_value (some v)) rest = found a v true
found_by a (match_bool, v) rest = found a text_true false
found_by a (match_bool_override_with_no, v) rest = found a text_false false
found_by a v rest = rest

abbrev pub found_if_named : Arg → Option Text → Text → Option Text → Found → Found
found_if_named a none argv next rest = if starts_with dashes argv then no_name else rest
found_if_named a (some name) argv next rest = found_by a (get_match_type a.spec name argv next) rest

unfoldable pub find_matching_arg : List Arg → Text → Option Text → Found
find_matching_arg [] argv next = no_arg
find_matching_arg (a ∷ args) argv next =
    found_if_named a a.name argv next (find_matching_arg args argv next)

unfoldable pub lookup_enum : List EnumEntry → Text → Option ℤ
lookup_enum [] name = none
lookup_enum (e ∷ table) name =
    if eq_text e.entry_name name then some e.entry_value else lookup_enum table name

-- What each of `parse_bool`, `parse_enum`, `parse_string` and `parse_uint32` stores, or nothing if it
-- returns false. That the number fits is asserted.
unfoldable pub parse_bool : Text → Option Value
parse_bool v =
    if eq_text text_true v
    then some (a_bool true)
    else if eq_text text_false v
    then some (a_bool false)
    else none

abbrev pub some_int : Option ℤ → Option Value
some_int none = none
some_int (some n) = some (an_int n)

unfoldable pub parse_enum : List EnumEntry → Text → Option Value
parse_enum table v = some_int (lookup_enum table v)

unfoldable pub parse_string : Text → Option Value
parse_string v = some (a_string (some v))

abbrev pub in_range : ℕ → ℕ → Option ℕ → Cmd Vars (Option Value)
in_range low high none = pure none
in_range low high (some n) =
    if ltb n low
    then pure none
    else if ltb high n
    then pure none
    else do assert (leb n (2 ^ 32 - 1)); pure (some (a_uint32 (n % 2 ^ 32)))

unfoldable pub parse_uint32 : ℕ → ℕ → Text → Cmd Vars (Option Value)
parse_uint32 low high v = in_range low high (strconvert_uint64 v 10)

unfoldable pub parse_value : Spec → Text → Cmd Vars (Option Value)
parse_value (bool_spec d) v = pure (parse_bool v)
parse_value (enum_spec d table) v = pure (parse_enum table v)
parse_value (string_spec d) v = pure (parse_string v)
parse_value (uint32_spec d low high) v = parse_uint32 low high v

abbrev pub store_if : Ptr → Option Value → Cmd Vars Bool
store_if p none = pure false
store_if p (some v) = do store p v; pure true

unfoldable pub parse_arg : Arg → Text → Cmd Vars Bool
parse_arg a v = do value ← parse_value a.spec v; store_if a.value_ptr value
