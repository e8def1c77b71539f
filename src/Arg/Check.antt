-- ===== src/Arg/Check.antt =====
-- `check_arg` and `is_name_valid` of arg.c. The tree of the names is the list of the names in it:
-- `bs_avltree_insert` without overwriting fails just for a name that is there.
use libbase.Base.{
  ℕ, ◌%◌, Bool, true, false, not, ◌&&◌, ◌||◌, Option, none, some, List, [], ◌∷◌, ◌++◌, leb, ◌==◌,
  if◌then◌else◌,
}
use libbase.Memory.{Ptr, null}
use libbase.Text.{Text, eq_text, isalpha, isalnum}
use libbase.Arg.{EnumEntry, Spec, bool_spec, enum_spec, string_spec, uint32_spec, Arg, no}

-- `c & 0x80`
abbrev pub high_bit : ℕ → Bool
high_bit c = leb 128 (c % 256)

abbrev pub is_name_char : ℕ → Bool
is_name_char c = not (high_bit c) && (isalnum c || c == 45 || c == 95)

abbrev pub all_name_chars : Text → Bool
all_name_chars [] = true
all_name_chars (c ∷ s) = is_name_char c && all_name_chars s

unfoldable pub is_name_valid : Text → Bool
is_name_valid [] = false
is_name_valid (c ∷ s) = (isalpha c || high_bit c) && all_name_chars s

abbrev pub has_name : Text → List Text → Bool
has_name n [] = false
has_name n (m ∷ names) = eq_text m n || has_name n names

-- `bs_avltree_insert(tree_ptr, name, node, false)`: whether it succeeds, and the names then.
unfoldable pub insert_name : Text → List Text → Bool × List Text
insert_name n names = if has_name n names then (false, names) else (true, n ∷ names)

abbrev pub is_empty : List EnumEntry → Bool
is_empty [] = true
is_empty (e ∷ table) = false

-- The `switch` of the loop, after the name is in the tree.
unfoldable pub check_spec : Spec → Text → Bool → List Text → Bool × List Text
check_spec (bool_spec d) name given names =
    let inserted = insert_name (no ++ name) names in (given && inserted.0, inserted.1)
check_spec (enum_spec d table) name given names = (given && not (is_empty table), names)
check_spec (string_spec d) name given names = (given, names)
check_spec (uint32_spec d low high) name given names = (given, names)

-- One round of the loop: whether it leaves `retval` true, and the names then.
unfoldable pub check_named : Option Text → Spec → Ptr → List Text → Bool × List Text
check_named none spec value_ptr names = (false, names)
check_named (some name) spec value_ptr names =
    let inserted = insert_name name names in
    if not (is_name_valid name)
    then (false, names)
    else if not inserted.0
    then (false, names)
    else check_spec spec name (not (value_ptr == null)) inserted.1

unfoldable pub check_from : List Arg → List Text → Bool
check_from [] names = true
check_from (a ∷ args) names =
    let round = check_named a.name a.spec a.value_ptr names in round.0 && check_from args round.1

unfoldable pub check_arg : List Arg → Bool
check_arg args = check_from args []
