-- ===== src/Subprocess/Tests.antt =====
-- Runs of the splitting of a command line, and instances of its theorems.
use libbase.Base.{suc, length, ap, ◌∙◌, ◌≡◌, refl, none, some, List, [], ◌∷◌, true}
use libbase.Text.{Text, isalpha, isdigit}
use libbase.Tokenizer.{split_next_token, split_from, state_transition, is_final, char_type}
use libbase.Subprocess.{
  EnvVar, populate_env_var, is_variable_assignment, put_token, split_tokens, split_command,
}
use libbase.Subprocess.Split.{is_name, IsWord, command_line, split_command-command_line}
use libbase.Subprocess.Fuel.{split_command-some}
use libbase.Subprocess.Match.{match_name, match_name-IsRegexec}

-- `A=1`
abbrev a_is_1 : EnvVar
a_is_1 = record { name = 65 ∷ []; value = 49 ∷ [] }

named_a : is_name (65 ∷ []) ≡ true
unfolding isalpha
named_a = refl

ls-IsWord : IsWord (108 ∷ 115 ∷ [])
unfolding isalpha isdigit
ls-IsWord v n e =
    let f : none ≡ some (0, suc (length v.name)) =
      ap match_name e ∙ match_name-IsRegexec.matches v n in
    cc f

split_command-command_line_example :
    split_command match_name
      (command_line (a_is_1 ∷ []) ((108 ∷ 115 ∷ []) ∷ (97 ∷ 32 ∷ 98 ∷ []) ∷ []))
    ≡ some (a_is_1 ∷ [], (108 ∷ 115 ∷ []) ∷ (97 ∷ 32 ∷ 98 ∷ []) ∷ [])
split_command-command_line_example =
    split_command-command_line match_name (a_is_1 ∷ [])
      ((108 ∷ 115 ∷ []) ∷ (97 ∷ 32 ∷ 98 ∷ []) ∷ []) match_name-IsRegexec (named_a, tt) ls-IsWord

split_command-some_example :
    (r : List EnvVar × List Text) × (split_command match_name (97 ∷ 32 ∷ 34 ∷ []) ≡ some r)
split_command-some_example = split_command-some match_name (97 ∷ 32 ∷ 34 ∷ [])

-- `a` and two blanks: an empty argument is added.
split_trailing_blanks :
    split_command match_name (97 ∷ 32 ∷ 32 ∷ []) ≡ some ([], (97 ∷ []) ∷ [] ∷ [])
unfolding split_command split_tokens put_token is_variable_assignment populate_env_var isalpha
    isdigit split_next_token split_from state_transition is_final char_type
split_trailing_blanks = refl
