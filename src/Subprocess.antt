-- ===== src/Subprocess.antt =====
-- The splitting of a command line into variable assignments and arguments, of subprocess.c. Memory
-- is taken to be there. `regexec` of the expression for an assignment is a parameter: where the
-- match starts and where it ends.
pub mod Split
pub mod Fuel
pub mod Match
mod Tests
use libbase.Base.{
  ℕ, zero, suc, ◌+◌, ◌-◌, Bool, true, false, not, ◌||◌, Option, none, some, List, [], ◌∷◌, ◌++◌,
  length, take, drop, ltb, ◌==◌, if◌then◌else◌,
}
use libbase.Text.{Text}
use libbase.Tokenizer.{split_next_token}

-- `_env_var_t`
pub record EnvVar : Type 0 where
  pub name : Text
  pub value : Text

unfoldable pub populate_env_var : Text → ℕ → Text → EnvVar
populate_env_var name name_len value = record { name = take name_len name; value = value }

abbrev pub is_nil : List Text → Bool
is_nil [] = true
is_nil (s ∷ argv) = false

abbrev pub env_var_of : Text → Option (ℕ × ℕ) → Option EnvVar
env_var_of word none = none
env_var_of word (some (rm_so, rm_eo)) =
    if not (rm_so == 0) || ltb rm_eo 2
    then none
    else some (populate_env_var word (rm_eo - rm_so - 1) (drop rm_eo word))

-- Where the loop of `_split_command` puts a token.
abbrev pub put_argument : List EnvVar → List Text → Text → Option EnvVar → List EnvVar × List Text
put_argument env argv token none = (env, argv ++ token ∷ [])
put_argument env argv token (some v) = (env ++ v ∷ [], argv)

module _ (regexec : Text → Option (ℕ × ℕ)) where
  -- `_is_variable_assignment`: the variable, if the word is an assignment.
  unfoldable pub is_variable_assignment : Text → Option EnvVar
  is_variable_assignment word = env_var_of word (regexec word)

  unfoldable pub put_token : List EnvVar → List Text → Text → List EnvVar × List Text
  put_token env argv token =
      put_argument env argv token (if is_nil argv then is_variable_assignment token else none)

  -- One round of the loop, with the token and what is behind it; `next` does the other rounds.
  abbrev pub after_token :
      (Text → List EnvVar → List Text → Option (List EnvVar × List Text))
      → List EnvVar
      → List Text
      → Option (Option (Text × Option Text))
      → Option (List EnvVar × List Text)
  after_token next env argv none = some (env, argv)
  after_token next env argv (some none) = none
  after_token next env argv (some (some (token, none))) = some (put_token env argv token)
  after_token next env argv (some (some (token, some line))) =
      let put = put_token env argv token in next line put.0 put.1

  -- The loop, which is given a number of rounds. It has no result if these do not do.
  unfoldable pub split_tokens :
      ℕ → Text → List EnvVar → List Text → Option (List EnvVar × List Text)
  split_tokens zero line env argv = none
  split_tokens (suc fuel) line env argv =
      after_token (split_tokens fuel) env argv (split_next_token line)

  -- `_split_command`: the variables and the arguments.
  unfoldable pub split_command : Text → Option (List EnvVar × List Text)
  split_command cmd = split_tokens (suc (length cmd)) cmd [] []
