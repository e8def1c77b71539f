-- ===== src/Arg/Tests.antt =====
-- Instances of the theorems on arg.c.
use libbase.Base.{true, false, ◌≡◌, refl, arith, none, some, List, [], ◌∷◌}
use libbase.Memory.{ok, Returns, update}
use libbase.Text.{Text, eq_text, starts_with, isspace, isdigit, isalpha, isalnum}
use libbase.Strutil.{
  strconvert_uint64, strtoull, scan_number, skip_space, skip_sign, has_digit, base_of, skip_0x,
  scan_digits, digit_value, ends_number, converted,
}
use libbase.Arg.{
  a_bool, a_string, a_uint32, bool_spec, string_spec, uint32_spec, Arg, Vars, no_extra,
  extra_values, match_with_equal_sign, own_value, get_match_type, match_name, find_matching_arg,
  no_arg, found_by, parse_value, parse_string, parse_uint32, parse_arg,
}
use libbase.Arg.Check.{is_name_valid, insert_name, check_spec, check_named, check_from, check_arg}
use libbase.Arg.Command.{cleanup, set_default, set_all_defaults, parse_from, allows, parse}
use libbase.Arg.Line.{Item, one_string, two_strings, set_flag, word, command_line, effects, words}
use libbase.Arg.Unique.{find_matching_arg_unique}
use libbase.Arg.Parse.{parse-command_line}
use libbase.Arg.Cleanup.{AllFreed, parse-AllFreed}
use libbase.Arg.Range.{IsWithin, parse_uint32-IsWithin}

-- `n`, from 1 to 100, `f` and `s`.
abbrev number : Arg
number = record { name = some (110 ∷ []); spec = uint32_spec 5 1 100; value_ptr = 1 }

abbrev flag : Arg
flag = record { name = some (102 ∷ []); spec = bool_spec false; value_ptr = 2 }

abbrev string : Arg
string = record { name = some (115 ∷ []); spec = string_spec none; value_ptr = 3 }

abbrev three_args : List Arg
three_args = number ∷ flag ∷ string ∷ []

abbrev nothing_yet : Vars
nothing_yet p = a_bool false

abbrev three_defaults : Vars
three_defaults =
    update (update (update nothing_yet 1 (a_uint32 5)) 2 (a_bool false)) 3 (a_string none)

three_args_checked : check_arg three_args ≡ true
unfolding check_arg check_from check_named check_spec insert_name is_name_valid isalpha isalnum
    isdigit eq_text
three_args_checked = refl

three_defaults_stored : set_all_defaults three_args nothing_yet ≡ ok tt three_defaults
unfolding set_all_defaults set_default
three_defaults_stored = refl

-- `--n=42 x --f --s -v`
abbrev some_items : List Item
some_items =
    one_string (uint32_spec 5 1 100) (110 ∷ []) 1 (52 ∷ 50 ∷ []) (a_uint32 42)
    ∷ word (120 ∷ [])
    ∷ set_flag false (102 ∷ []) 2
    ∷ two_strings (string_spec none) (115 ∷ []) 3 (45 ∷ 118 ∷ []) (a_string (some (45 ∷ 118 ∷ [])))
    ∷ []

number_42 :
    (m : Vars) → parse_value (uint32_spec 5 1 100) (52 ∷ 50 ∷ []) m ≡ ok (some (a_uint32 42)) m
unfolding parse_value parse_uint32 strconvert_uint64 strtoull scan_number skip_space skip_sign
    has_digit base_of skip_0x scan_digits digit_value ends_number converted isspace isdigit isalpha
    starts_with
number_42 m = refl

string_v :
    (m : Vars)
    → parse_value (string_spec none) (45 ∷ 118 ∷ []) m
      ≡ ok (some (a_string (some (45 ∷ 118 ∷ [])))) m
unfolding parse_value parse_string
string_v m = refl

no_dashes : starts_with (45 ∷ 45 ∷ []) (120 ∷ []) ≡ false
unfolding starts_with
no_dashes = refl

values_allowed : allows extra_values (words some_items) ≡ true
unfolding allows starts_with
values_allowed = refl

parse-command_line_example :
    parse three_args extra_values (command_line some_items) nothing_yet
    ≡ ok (true, some ((120 ∷ []) ∷ [])) (effects some_items three_defaults)
parse-command_line_example =
    parse-command_line three_args extra_values some_items nothing_yet three_defaults
      three_args_checked three_defaults_stored
      (
        (([], flag ∷ string ∷ [], refl), refl, number_42),
        (
          no_dashes,
          (
            (number ∷ [], string ∷ [], refl),
            (((number ∷ flag ∷ [], [], refl), refl, string_v), tt),
          ),
        ),
      )
      values_allowed

-- `--s=x`
s_matches :
    get_match_type (string_spec none) (115 ∷ []) (45 ∷ 45 ∷ 115 ∷ 61 ∷ 120 ∷ []) none
    ≡ (match_with_equal_sign, own_value (120 ∷ []))
unfolding get_match_type match_name starts_with
s_matches = refl

find_matching_arg_unique_example :
    find_matching_arg three_args (45 ∷ 45 ∷ 115 ∷ 61 ∷ 120 ∷ []) none
    ≡ found_by string
        (get_match_type (string_spec none) (115 ∷ []) (45 ∷ 45 ∷ 115 ∷ 61 ∷ 120 ∷ []) none)
        no_arg
find_matching_arg_unique_example =
    find_matching_arg_unique (number ∷ flag ∷ []) [] (string_spec none) (115 ∷ []) 3
      (45 ∷ 45 ∷ 115 ∷ 61 ∷ 120 ∷ []) none three_args_checked (rw s_matches (ground arith))

-- `--s=x extra`, where nothing extra is allowed: the copy of `x` is freed.
abbrev refused_line : List Text
refused_line = (45 ∷ 45 ∷ 115 ∷ 61 ∷ 120 ∷ []) ∷ (101 ∷ []) ∷ []

refused :
    parse three_args no_extra refused_line nothing_yet
    ≡ ok
        (false, some ((101 ∷ []) ∷ []))
        (update (update three_defaults 3 (a_string (some (120 ∷ [])))) 3 (a_string none))
unfolding parse parse_from find_matching_arg get_match_type match_name starts_with parse_arg
    parse_value parse_string allows cleanup set_all_defaults set_default check_arg check_from
    check_named check_spec insert_name is_name_valid isalpha isalnum isdigit eq_text update
refused = refl

parse-AllFreed_example :
    AllFreed three_args
      (update (update three_defaults 3 (a_string (some (120 ∷ [])))) 3 (a_string none))
parse-AllFreed_example =
    parse-AllFreed three_args no_extra refused_line (some ((101 ∷ []) ∷ [])) nothing_yet
      (update (update three_defaults 3 (a_string (some (120 ∷ [])))) 3 (a_string none))
      three_args_checked refused

parse_uint32-IsWithin_example :
    Returns
      (λ r u. (u ≡ nothing_yet) × IsWithin 1 100 r)
      (parse_uint32 1 100 (52 ∷ 50 ∷ []) nothing_yet)
parse_uint32-IsWithin_example =
    parse_uint32-IsWithin 1 100 (52 ∷ 50 ∷ []) nothing_yet (ground arith)
