-- ===== src/Arg/Line.antt =====
-- Command lines for `bs_arg_parse` of arg.c, written from the arguments and the words that are to be
-- read, and how each string matches.
use libbase.Base.{
  suc, Bool, true, false, ◌≡◌, refl, arith, ◌∙◌, ap, sym, subst, Option, some, List, [], ◌∷◌, ◌++◌,
  length, drop, drop_front, Bool-cases, inl, inr, append-nil,
}
use libbase.Memory.{Ptr, ok, update}
use libbase.Text.{Text, eq_text, eq_text_refl, eq_of_eq_text, starts_with, starts_with-append}
use libbase.Arg.{
  Value, a_bool, Spec, bool_spec, is_bool, Arg, Vars, dashes, no, match_with_equal_sign,
  match_with_two_args, match_bool, match_bool_override_with_no, no_value, own_value, next_value,
  get_match_type, match_name, parse_value,
}

-- What may stand in a command line: an argument with its value, in one string or in two, a bool that
-- is set or, with `no`, unset, and a word that is no argument.
pub data Item : Type 0 where
  one_string : Spec → Text → Ptr → Text → Value → Item
  two_strings : Spec → Text → Ptr → Text → Value → Item
  set_flag : Bool → Text → Ptr → Item
  unset_flag : Bool → Text → Ptr → Item
  word : Text → Item

-- How it is written, in front of what follows.
abbrev pub written : Item → List Text → List Text
written (one_string s n p v x) argv = (dashes ++ n ++ 61 ∷ v) ∷ argv
written (two_strings s n p v x) argv = (dashes ++ n) ∷ v ∷ argv
written (set_flag d n p) argv = (dashes ++ n) ∷ argv
written (unset_flag d n p) argv = (dashes ++ no ++ n) ∷ argv
written (word w) argv = w ∷ argv

abbrev pub command_line : List Item → List Text
command_line [] = []
command_line (i ∷ items) = written i (command_line items)

-- The variables after one, and after all of them.
abbrev pub effect : Item → Vars → Vars
effect (one_string s n p v x) m = update m p x
effect (two_strings s n p v x) m = update m p x
effect (set_flag d n p) m = update m p (a_bool true)
effect (unset_flag d n p) m = update m p (a_bool false)
effect (word w) m = m

abbrev pub effects : List Item → Vars → Vars
effects [] m = m
effects (i ∷ items) m = effects items (effect i m)

abbrev pub words_and : Item → List Text → List Text
words_and (word w) ws = w ∷ ws
words_and i ws = ws

abbrev pub words : List Item → List Text
words [] = []
words (i ∷ items) = words_and i (words items)

-- An argument of the list.
abbrev pub Has : List Arg → Spec → Text → Ptr → Type 0
Has args s n p =
    (xs : List Arg) × (ys : List Arg) × (args
      ≡ xs ++ record { name = some n; spec = s; value_ptr = p } ∷ ys)

-- An argument that takes the value `v`, as `x`.
abbrev pub Takes : List Arg → Spec → Text → Ptr → Text → Value → Type 0
Takes args s n p v x =
    Has args s n p × (is_bool s ≡ false) × ((m : Vars) → parse_value s v m ≡ ok (some x) m)

-- Items that fit the arguments.
abbrev pub Fits : List Arg → Item → Type 0
Fits args (one_string s n p v x) = Takes args s n p v x
Fits args (two_strings s n p v x) = Takes args s n p v x
Fits args (set_flag d n p) = Has args (bool_spec d) n p
Fits args (unset_flag d n p) = Has args (bool_spec d) n p
Fits args (word w) = starts_with dashes w ≡ false

abbrev pub AllFit : List Arg → List Item → Type 0
AllFit args [] = Unit
AllFit args (i ∷ items) = Fits args i × AllFit args items

module _ (s : Spec) (n : Text) (b : is_bool s ≡ false) where
  pub match_one_string :
      (v : Text) (next : Option Text)
      → get_match_type s n (dashes ++ n ++ 61 ∷ v) next ≡ (match_with_equal_sign, own_value v)
  unfolding get_match_type match_name starts_with
  match_one_string v next =
      let d : drop (length n) (n ++ 61 ∷ v) ≡ 61 ∷ v =
        ap (λ i. drop i (n ++ 61 ∷ v)) (omega arith) ∙ drop_front n (61 ∷ v) 0 in
      rw (b, starts_with-append n (61 ∷ v), d) refl

  pub match_two_strings :
      (next : Option Text)
      → get_match_type s n (dashes ++ n) next ≡ (match_with_two_args, next_value next)
  unfolding get_match_type match_name starts_with
  match_two_strings next =
      let w : starts_with n n ≡ true =
        subst (λ l. starts_with n l ≡ true) (append-nil n) (starts_with-append n []) in
      let d : drop (length n) n ≡ [] =
        ap (λ l. drop (length n) l) (sym (append-nil n))
        ∙ ap (λ i. drop i (n ++ [])) (omega arith)
        ∙ drop_front n [] 0 in
      rw (b, w, d) refl

pub match_set_flag :
    (d : Bool) (n : Text) (next : Option Text)
    → get_match_type (bool_spec d) n (dashes ++ n) next ≡ (match_bool, no_value)
unfolding get_match_type match_name starts_with
match_set_flag d n next = rw (eq_text_refl n) refl

no_prefix : (n : Text) → eq_text (no ++ n) n ≡ false
no_prefix n = elim (Bool-cases (eq_text (no ++ n) n)) [
  | inr f ↦ f
  | inl f ↦
      let e : suc (suc (length n)) ≡ length n = ap length (eq_of_eq_text (no ++ n) n f) in
      let no : ⊥ = omega arith in elim no [ ]
]

pub match_unset_flag :
    (d : Bool) (n : Text) (next : Option Text)
    → get_match_type (bool_spec d) n (dashes ++ no ++ n) next
      ≡ (match_bool_override_with_no, no_value)
unfolding get_match_type match_name starts_with
match_unset_flag d n next = rw (no_prefix n, eq_text_refl n) refl
