-- ===== src/Subprocess/Fuel.antt =====
-- The number of rounds of the loop of `_split_command`, of subprocess.c.
use libbase.Base.{
  ℕ, zero, suc, ◌≤◌, ◌<◌, ◌≡◌, refl, arith, ◌∙◌, ap, subst, Option, none, some, List, [], ◌∷◌, ◌++◌,
  length, if◌then◌else◌, Bool-cases, inl, inr,
}
use libbase.Text.{Text}
use libbase.Tokenizer.{
  State, initial, split_from, split_next_token, state_transition, is_final, char_type,
  end_of_string,
}
use libbase.Tokenizer.Quote.{split_next_token-some}
use libbase.Subprocess.{EnvVar, put_token, after_token, split_tokens, split_command}

-- What is behind a token is shorter than the string.
abbrev Shorter : ℕ → Option Text → Type 0
Shorter n none = Unit
Shorter n (some rest) = length rest < n

Shorter-le : (m n : ℕ) (o : Option Text) → m ≤ n → Shorter m o → Shorter n o
Shorter-le m n none le s = tt
Shorter-le m n (some rest) le s = omega arith

split_from-Shorter :
    (s : State) (word token : Text) (r : Text × Option Text)
    → split_from s word token ≡ some r
    → Shorter (length word) r.1
unfolding split_from
split_from-Shorter s [] token r e =
    elim (Bool-cases (is_final (state_transition s end_of_string).0)) [
      | inl f ↦
          let g = rw f at e in
          let same : (token, none) ≡ r = cc g in subst (λ x. Shorter 0 x.1) same tt
      | inr f ↦ let g = rw f at e in absurd (ground arith)
    ]
split_from-Shorter s (c ∷ word) token r e =
    let next = state_transition s (char_type c) in
    let token' = if next.1 then token ++ c ∷ [] else token in
    elim (Bool-cases (is_final next.0)) [
      | inl f ↦
          let g = rw f at e in
          let same : (token', some word) ≡ r = cc g in
          let lt : length word < suc (length word) = omega arith in
          subst (λ x. Shorter (suc (length word)) x.1) same lt
      | inr f ↦
          let g = rw f at e in
          Shorter-le (length word) (suc (length word)) r.1 (omega arith)
            (split_from-Shorter next.0 word token' r g)
    ]

-- What the tokenizer makes of a string: a token and what is behind it, if the string is not empty.
split_next_token-Shorter :
    (c : ℕ) (word : Text)
    → (r : Text × Option Text) × (split_next_token (c ∷ word) ≡ some (some r))
      × Shorter (length (c ∷ word)) r.1
unfolding split_next_token
split_next_token-Shorter c word =
    let (r, e) = split_next_token-some c word in
    let f : split_from initial (c ∷ word) [] ≡ some r = cc e in
    (r, e, split_from-Shorter initial (c ∷ word) [] r f)

module _ (regexec : Text → Option (ℕ × ℕ)) where
  after_token-some :
      (fuel : ℕ) (env : List EnvVar) (argv : List Text) (t : Text) (o : Option Text)
      → ((line : Text) (env' : List EnvVar) (argv' : List Text)
          → length line < fuel
          → (r : List EnvVar × List Text) × (split_tokens regexec fuel line env' argv' ≡ some r))
      → Shorter fuel o
      → (r : List EnvVar × List Text) × (after_token regexec
            (split_tokens regexec fuel)
            env
            argv
            (some (some (t, o)))
          ≡ some r)
  after_token-some fuel env argv t none next s = (put_token regexec env argv t, refl)
  after_token-some fuel env argv t (some line) next s =
      next line (put_token regexec env argv t).0 (put_token regexec env argv t).1 s

  split_tokens-some :
      (fuel : ℕ) (line : Text) (env : List EnvVar) (argv : List Text)
      → length line < fuel
      → (r : List EnvVar × List Text) × (split_tokens regexec fuel line env argv ≡ some r)
  unfolding split_tokens split_next_token
  split_tokens-some zero line env argv lt = let no : ⊥ = omega arith in elim no [ ]
  split_tokens-some (suc fuel) [] env argv lt = ((env, argv), refl)
  split_tokens-some (suc fuel) (c ∷ word) env argv lt =
      let (t, e, s) = split_next_token-Shorter c word in
      let small = Shorter-le (length (c ∷ word)) fuel t.1 (omega arith) s in
      let (r, f) = after_token-some fuel env argv t.0 t.1 (split_tokens-some fuel) small in
      (r, ap (after_token regexec (split_tokens regexec fuel) env argv) e ∙ f)

  -- The loop of `_split_command` ends for every command line, within one round more than the line has
  -- characters, and no token is read behind the end of the line.
  pub split_command-some :
      (cmd : Text) → (r : List EnvVar × List Text) × (split_command regexec cmd ≡ some r)
  unfolding split_command
  split_command-some cmd = split_tokens-some (suc (length cmd)) cmd [] [] (omega arith)
