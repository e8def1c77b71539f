-- ===== src/Arg/Parse.antt =====
-- `bs_arg_parse` on a command line that is written from what it is to read.
use libbase.Base.{
  Bool, true, false, ◌≡◌, ◌≢◌, refl, arith, ◌∙◌, ap, sym, subst, Option, some, List, [], ◌∷◌, ◌++◌,
  if◌then◌else◌,
}
use libbase.Memory.{Ptr, ok, Cmd, update}
use libbase.Text.{Text, eq_text, starts_with}
use libbase.Arg.{
  Value, a_bool, Spec, bool_spec, Arg, Vars, Mode, dashes, no, text_true, text_false, MatchType,
  ValueRef, no_match, match_with_equal_sign, match_with_two_args, match_bool,
  match_bool_override_with_no, no_value, own_value, next_value, get_match_type, no_arg, found,
  found_by, find_matching_arg, parse_value, parse_bool, parse_arg,
}
use libbase.Arg.Check.{check_arg}
use libbase.Arg.Names.{AreNamed, keys, check_from-AreNamed}
use libbase.Arg.Command.{set_all_defaults, first, after_match, parse_from, allows, parse}
use libbase.Arg.Unique.{find_matching_arg_unique, found_if_named-some}
use libbase.Arg.Line.{
  Item, one_string, two_strings, set_flag, unset_flag, word, command_line, effects, words, Has,
  Takes, AllFit, match_one_string, match_two_strings, match_set_flag, match_unset_flag,
}

-- An argument that is in the list and matches is found.
find-Has :
    (args : List Arg) (s : Spec) (n : Text) (p : Ptr) (argv : Text) (next : Option Text)
    (r : MatchType × ValueRef)
    → check_arg args ≡ true
    → Has args s n p
    → get_match_type s n argv next ≡ r
    → r ≢ (no_match, no_value)
    → find_matching_arg args argv next
      ≡ found_by (record { name = some n; spec = s; value_ptr = p }) r no_arg
find-Has args s n p argv next r c (xs, ys, e) g m =
    let unique =
      find_matching_arg_unique xs ys s n p argv next (subst (λ l. check_arg l ≡ true) e c)
        (λ h. m (sym g ∙ h)) in
    ap (λ l. find_matching_arg l argv next) e
    ∙ unique
    ∙ ap (λ t. found_by (record { name = some n; spec = s; value_ptr = p }) t no_arg) g

-- A word is no argument.
find-word :
    (args : List Arg) (names : List Text) (w : Text) (next : Option Text)
    → AreNamed args names
    → starts_with dashes w ≡ false
    → find_matching_arg args w next ≡ no_arg
unfolding find_matching_arg get_match_type
find-word [] names w next a e = refl
find-word (x ∷ args) names w next a e =
    let rest = find-word args (keys x.spec a.0.name ++ names) w next a.1 e in
    let here =
      found_if_named-some x x.name a.0.name w next (find_matching_arg args w next) a.0.given in
    here ∙ rw e rest

parse_arg-stores :
    (a : Arg) (v : Text) (x : Value) (m : Vars)
    → parse_value a.spec v m ≡ ok (some x) m
    → parse_arg a v m ≡ ok true (update m a.value_ptr x)
unfolding parse_arg
parse_arg-stores a v x m e = rw e refl

-- A round of the loop for an argument that is found.
round-stores :
    (a : Arg) (v s : Text) (x : Value) (used : Bool) (next skip : Cmd Vars (Option (List Text)))
    (m : Vars)
    → parse_value a.spec v m ≡ ok (some x) m
    → after_match s (found a v used) next skip m
      ≡ (if used then skip else next) (update m a.value_ptr x)
round-stores a v s x used next skip m e = rw (parse_arg-stores a v x m e) refl

-- What the loop does in the variables `m` for the rest of a command line.
abbrev Reads : List Arg → List Item → Type 0
Reads args items =
    (m : Vars)
    → parse_from args false (command_line items) m ≡ ok (some (words items)) (effects items m)

module _ (args : List Arg) (c : check_arg args ≡ true) (items : List Item)
    (rest : Reads args items) where
  Reads-one_string :
      (s : Spec) (n : Text) (p : Ptr) (v : Text) (x : Value)
      → Takes args s n p v x
      → Reads args (one_string s n p v x ∷ items)
  unfolding parse_from
  Reads-one_string s n p v x (has, b, e) m =
      let argv = dashes ++ n ++ 61 ∷ v in
      let next = first (command_line items) in
      let f =
        find-Has args s n p argv next (match_with_equal_sign, own_value v) c has
          (match_one_string s n b v next) (ground arith) in
      rw f (
        round-stores (record { name = some n; spec = s; value_ptr = p }) v argv x false
          (parse_from args false (command_line items)) (parse_from args true (command_line items)) m
          (e m)
        ∙ rest (update m p x))

  Reads-two_strings :
      (s : Spec) (n : Text) (p : Ptr) (v : Text) (x : Value)
      → Takes args s n p v x
      → Reads args (two_strings s n p v x ∷ items)
  unfolding parse_from
  Reads-two_strings s n p v x (has, b, e) m =
      let argv = dashes ++ n in
      let f =
        find-Has args s n p argv (some v) (match_with_two_args, next_value (some v)) c has
          (match_two_strings s n b (some v)) (ground arith) in
      rw f (
        round-stores (record { name = some n; spec = s; value_ptr = p }) v argv x true
          (parse_from args false (v ∷ command_line items))
          (parse_from args false (command_line items)) m (e m)
        ∙ rest (update m p x))

  Reads-set_flag :
      (d : Bool) (n : Text) (p : Ptr)
      → Has args (bool_spec d) n p
      → Reads args (set_flag d n p ∷ items)
  unfolding parse_from parse_value parse_bool eq_text
  Reads-set_flag d n p has m =
      let argv = dashes ++ n in
      let next = first (command_line items) in
      let f =
        find-Has args (bool_spec d) n p argv next (match_bool, no_value) c has
          (match_set_flag d n next) (ground arith) in
      rw f (
        round-stores (record { name = some n; spec = bool_spec d; value_ptr = p }) text_true argv
          (a_bool true) false (parse_from args false (command_line items))
          (parse_from args true (command_line items)) m refl
        ∙ rest (update m p (a_bool true)))

  Reads-unset_flag :
      (d : Bool) (n : Text) (p : Ptr)
      → Has args (bool_spec d) n p
      → Reads args (unset_flag d n p ∷ items)
  unfolding parse_from parse_value parse_bool eq_text
  Reads-unset_flag d n p has m =
      let argv = dashes ++ no ++ n in
      let next = first (command_line items) in
      let f =
        find-Has args (bool_spec d) n p argv next (match_bool_override_with_no, no_value) c has
          (match_unset_flag d n next) (ground arith) in
      rw f (
        round-stores (record { name = some n; spec = bool_spec d; value_ptr = p }) text_false argv
          (a_bool false) false (parse_from args false (command_line items))
          (parse_from args true (command_line items)) m refl
        ∙ rest (update m p (a_bool false)))

  Reads-word : (w : Text) → starts_with dashes w ≡ false → Reads args (word w ∷ items)
  unfolding parse_from check_arg
  Reads-word w e m =
      let f = find-word args [] w (first (command_line items)) (check_from-AreNamed args [] c) e in
      rw (f, rest m) refl

Reads-all :
    (args : List Arg)
    → check_arg args ≡ true
    → (items : List Item) → AllFit args items
    → Reads args items
unfolding parse_from
Reads-all args c [] fit m = refl
Reads-all args c (one_string s n p v x ∷ items) fit m =
    Reads-one_string args c items (Reads-all args c items fit.1) s n p v x fit.0 m
Reads-all args c (two_strings s n p v x ∷ items) fit m =
    Reads-two_strings args c items (Reads-all args c items fit.1) s n p v x fit.0 m
Reads-all args c (set_flag d n p ∷ items) fit m =
    Reads-set_flag args c items (Reads-all args c items fit.1) d n p fit.0 m
Reads-all args c (unset_flag d n p ∷ items) fit m =
    Reads-unset_flag args c items (Reads-all args c items fit.1) d n p fit.0 m
Reads-all args c (word w ∷ items) fit m =
    Reads-word args c items (Reads-all args c items fit.1) w fit.0 m

-- Of arguments that `check_arg` accepts and whose defaults can be stored, a command line that is
-- written from items that fit them is read back: `bs_arg_parse` returns true if the mode allows the
-- words, each argument's variable holds the value last given or else its default, and the words are
-- what is left, in their order.
pub parse-command_line :
    (args : List Arg) (mode : Mode) (items : List Item) (before defaults : Vars)
    → check_arg args ≡ true
    → set_all_defaults args before ≡ ok tt defaults
    → AllFit args items
    → allows mode (words items) ≡ true
    → parse args mode (command_line items) before
      ≡ ok (true, some (words items)) (effects items defaults)
unfolding parse
parse-command_line args mode items before defaults c d fit allowed =
    rw (c, d, Reads-all args c items fit defaults, allowed) refl
