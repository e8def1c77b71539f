-- ===== src/Subprocess/Split.antt =====
-- `_split_command` on a command line of quoted words.
use libbase.Base.{
  ℕ, zero, suc, ◌+◌, ◌-◌, ◌≤◌, ◌<◌, Bool, true, false, ◌&&◌, ◌||◌, ◌≡◌, ◌≢◌, refl, arith, ◌∙◌, ap,
  sym, Option, none, some, List, [], ◌∷◌, ◌++◌, append_assoc, append-nil, length, length-append,
  take, drop, take_front, drop_front, ltb, ◌==◌,
}
use libbase.Text.{Text, isalpha, isdigit}
use libbase.Tokenizer.{split_next_token}
use libbase.Tokenizer.Quote.{quote, escaped, split_next_token-quote}
use libbase.Subprocess.{
  EnvVar, populate_env_var, is_nil, env_var_of, is_variable_assignment, put_argument, put_token,
  after_token, split_tokens, split_command,
}

-- The name of a variable: `[a-zA-Z_][a-zA-Z_0-9]*`.
abbrev pub is_name_start : ℕ → Bool
is_name_start c = isalpha c || c == 95

abbrev pub is_name_rest : Text → Bool
is_name_rest [] = true
is_name_rest (c ∷ s) = (is_name_start c || isdigit c) && is_name_rest s

abbrev pub is_name : Text → Bool
is_name [] = false
is_name (c ∷ s) = is_name_start c && is_name_rest s

abbrev pub assignment : EnvVar → Text
assignment v = v.name ++ 61 ∷ v.value

-- A word that is no assignment.
abbrev pub IsWord : Text → Type 0
IsWord word = (v : EnvVar) → is_name v.name ≡ true → word ≢ assignment v

-- What regex(3) says of the expression `^[a-zA-Z_][a-zA-Z_0-9]*=`.
pub record IsRegexec (regexec : Text → Option (ℕ × ℕ)) : Type 0 where
  pub matches :
      (v : EnvVar) → is_name v.name ≡ true → regexec (assignment v) ≡ some (0, suc (length v.name))
  pub no_match : (word : Text) → IsWord word → regexec word ≡ none

-- Words in double quotes, each with a blank behind it.
abbrev pub quoted_words : List Text → Text
quoted_words [] = []
quoted_words (w ∷ ws) = quote w (32 ∷ quoted_words ws)

-- A command line of assignments and arguments.
abbrev pub command_line : List EnvVar → List Text → Text
command_line [] args = quoted_words args
command_line (v ∷ vars) args = quote (assignment v) (32 ∷ command_line vars args)

abbrev pub AreNamed : List EnvVar → Type 0
AreNamed [] = Unit
AreNamed (v ∷ vars) = (is_name v.name ≡ true) × AreNamed vars

-- The first argument is no assignment.
abbrev pub StartsWithWord : List Text → Type 0
StartsWithWord [] = Unit
StartsWithWord (w ∷ args) = IsWord w

is_name-length : (n : Text) → is_name n ≡ true → 0 < length n
is_name-length [] e = absurd (ground arith)
is_name-length (c ∷ n) e = omega arith

module _ (regexec : Text → Option (ℕ × ℕ)) where
  split-quote :
      (fuel : ℕ) (w rest : Text) (env : List EnvVar) (argv : List Text)
      → split_tokens regexec (suc fuel) (quote w (32 ∷ rest)) env argv
        ≡ split_tokens regexec fuel rest
            (put_token regexec env argv w).0
            (put_token regexec env argv w).1
  unfolding split_tokens
  split-quote fuel w rest env argv =
      ap (after_token regexec (split_tokens regexec fuel) env argv) (split_next_token-quote w rest)

  put_token-more :
      (env : List EnvVar) (argv : List Text) (w : Text)
      → is_nil argv ≡ false
      → put_token regexec env argv w ≡ (env, argv ++ w ∷ [])
  unfolding put_token
  put_token-more env argv w e = rw e refl

  is_nil-snoc : (argv : List Text) (w : Text) → is_nil (argv ++ w ∷ []) ≡ false
  is_nil-snoc [] w = refl
  is_nil-snoc (a ∷ argv) w = refl

  -- The arguments behind the first one.
  split-more :
      (fuel : ℕ) (args : List Text) (env : List EnvVar) (argv : List Text)
      → length args < fuel
      → is_nil argv ≡ false
      → split_tokens regexec fuel (quoted_words args) env argv ≡ some (env, argv ++ args)
  unfolding split_tokens split_next_token
  split-more zero args env argv lt e = let no : ⊥ = omega arith in elim no [ ]
  split-more (suc fuel) [] env argv lt e = ap (λ l. some (env, l)) (sym (append-nil argv))
  split-more (suc fuel) (w ∷ args) env argv lt e =
      let rest = split-more fuel args env (argv ++ w ∷ []) (omega arith) (is_nil-snoc argv w) in
      let put = put_token-more env argv w e in
      split-quote fuel w (quoted_words args) env argv
      ∙ ap (λ r. split_tokens regexec fuel (quoted_words args) r.0 r.1) put
      ∙ rest
      ∙ ap (λ l. some (env, l)) (append_assoc argv (w ∷ []) args)

  split-args :
      (fuel : ℕ) (args : List Text) (env : List EnvVar)
      → IsRegexec regexec
      → StartsWithWord args
      → length args < fuel
      → split_tokens regexec fuel (quoted_words args) env [] ≡ some (env, args)
  unfolding split_tokens split_next_token put_token is_variable_assignment
  split-args zero args env l s lt = let no : ⊥ = omega arith in elim no [ ]
  split-args (suc fuel) [] env l s lt = refl
  split-args (suc fuel) (w ∷ args) env l s lt =
      let put : put_token regexec env [] w ≡ (env, w ∷ []) =
        ap (λ o. put_argument env [] w (env_var_of w o)) (l.no_match w s) in
      split-quote fuel w (quoted_words args) env []
      ∙ ap (λ r. split_tokens regexec fuel (quoted_words args) r.0 r.1) put
      ∙ split-more fuel args env (w ∷ []) (omega arith) refl

  -- An assignment in front of the arguments.
  put_token-assignment :
      (env : List EnvVar) (v : EnvVar)
      → IsRegexec regexec
      → is_name v.name ≡ true
      → put_token regexec env [] (assignment v) ≡ (env ++ v ∷ [], [])
  unfolding put_token is_variable_assignment populate_env_var
  put_token-assignment env v l e =
      let pos = is_name-length v.name e in
      let b : ltb (suc (length v.name)) 2 ≡ false = ground arith in
      let i : suc (length v.name) - 0 - 1 ≡ length v.name + 0 = omega arith in
      let j : suc (length v.name) ≡ length v.name + 1 = omega arith in
      let n : take (suc (length v.name) - 0 - 1) (assignment v) ≡ v.name =
        ap (λ k. take k (assignment v)) i
        ∙ take_front v.name (61 ∷ v.value) 0
        ∙ append-nil v.name in
      let d : drop (suc (length v.name)) (assignment v) ≡ v.value =
        ap (λ k. drop k (assignment v)) j ∙ drop_front v.name (61 ∷ v.value) 1 in
      rw (l.matches v e, b, n, d) refl

  split-vars :
      (fuel : ℕ) (vars : List EnvVar) (args : List Text) (env : List EnvVar)
      → IsRegexec regexec
      → AreNamed vars
      → StartsWithWord args
      → length vars + length args < fuel
      → split_tokens regexec fuel (command_line vars args) env [] ≡ some (env ++ vars, args)
  split-vars fuel [] args env l a s lt =
      split-args fuel args env l s (omega arith) ∙ ap (λ e. some (e, args)) (sym (append-nil env))
  split-vars zero (v ∷ vars) args env l a s lt = let no : ⊥ = omega arith in elim no [ ]
  split-vars (suc fuel) (v ∷ vars) args env l a s lt =
      split-quote fuel (assignment v) (command_line vars args) env []
      ∙ ap (λ r. split_tokens regexec fuel (command_line vars args) r.0 r.1)
          (put_token-assignment env v l a.0)
      ∙ split-vars fuel vars args (env ++ v ∷ []) l a.1 s (omega arith)
      ∙ ap (λ e. some (e, args)) (append_assoc env (v ∷ []) vars)

  quote-length : (w rest : Text) → length rest < length (quote w (32 ∷ rest))
  quote-length w rest = omega (arith, length-append (escaped w) (34 ∷ 32 ∷ rest))

  quoted_words-length : (args : List Text) → length args ≤ length (quoted_words args)
  quoted_words-length [] = omega arith
  quoted_words-length (w ∷ args) =
      omega (arith, quote-length w (quoted_words args), quoted_words-length args)

  command_line-length :
      (vars : List EnvVar) (args : List Text)
      → length vars + length args ≤ length (command_line vars args)
  command_line-length [] args = omega (arith, quoted_words-length args)
  command_line-length (v ∷ vars) args =
      omega
        (arith, quote-length (assignment v) (command_line vars args), command_line-length vars args)

  -- A command line of variable assignments with valid names and then of arguments, the first of which
  -- is no assignment, all in double quotes, is split into these variables and these arguments.
  pub split_command-command_line :
      (vars : List EnvVar) (args : List Text)
      → IsRegexec regexec
      → AreNamed vars
      → StartsWithWord args
      → split_command regexec (command_line vars args) ≡ some (vars, args)
  unfolding split_command
  split_command-command_line vars args l a s =
      split-vars (suc (length (command_line vars args))) vars args [] l a s
        (omega (arith, command_line-length vars args))
