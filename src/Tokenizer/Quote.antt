-- ===== src/Tokenizer/Quote.antt =====
-- The tokenizer ends within its string, and takes a quoted text as one token.
use libbase.Base.{
  ℕ, true, false, ◌≡◌, refl, ◌∙◌, ap, sym, Option, none, some, List, [], ◌∷◌, ◌++◌, append_assoc,
  append-nil, ◌==◌, if◌then◌else◌, Bool-cases, inl, inr, ◌⊎◌, eq_of_==,
}
use libbase.Tokenizer.{
  State, initial, quoted, quoted_escape, in_token, token_escape, final, single_quoted,
  single_escape, also_final, end_of_string, state_transition, is_final, char_type, split_from,
  split_next_token,
}

end-final : (s : State) → is_final s ≡ false → is_final (state_transition s end_of_string).0 ≡ true
unfolding is_final state_transition
end-final initial e = refl
end-final quoted e = refl
end-final quoted_escape e = refl
end-final in_token e = refl
end-final token_escape e = refl
end-final final e = sym e
end-final single_quoted e = refl
end-final single_escape e = refl
end-final also_final e = sym e

split_from-some :
    (s : State) (word token : List ℕ)
    → is_final s ≡ false
    → (r : List ℕ × Option (List ℕ)) × (split_from s word token ≡ some r)
unfolding split_from
split_from-some s [] token e = ((token, none), rw (end-final s e))
split_from-some s (c ∷ word) token e =
    let next = state_transition s (char_type c) in
    let token' = if next.1 then token ++ c ∷ [] else token in
    elim (Bool-cases (is_final next.0)) [
      | inl f ↦ ((token', some word), rw f)
      | inr f ↦ let (r, g) = split_from-some next.0 word token' f in (r, rw (f, g))
    ]

-- `_split_next_token` of a string that is not empty returns a token and does not read behind the
-- end of the string.
pub split_next_token-some :
    (c : ℕ) (word : List ℕ)
    → (r : List ℕ × Option (List ℕ)) × (split_next_token (c ∷ word) ≡ some (some r))
unfolding split_next_token is_final
split_next_token-some c word =
    let (r, e) = split_from-some initial (c ∷ word) [] refl in (r, ap (λ o. some o) e)

-- A text in double quotes: a backslash before each quote and backslash.
abbrev pub escaped : List ℕ → List ℕ
escaped [] = []
escaped (c ∷ w) =
    if c == 34 then 92 ∷ 34 ∷ escaped w else if c == 92 then 92 ∷ 92 ∷ escaped w else c ∷ escaped w

abbrev pub quote : List ℕ → List ℕ → List ℕ
quote w rest = 34 ∷ (escaped w ++ 34 ∷ rest)

plain :
    (c : ℕ)
    → (c == 34) ≡ false
    → (c == 92) ≡ false
    → state_transition quoted (char_type c) ≡ (quoted, true)
unfolding state_transition char_type
plain c e f =
    rw (e, f)
      (elim (Bool-cases (c == 39)) [
        | inl g ↦ rw g
        | inr g ↦ elim (Bool-cases (c == 32)) [
          | inl h ↦ rw (g, h)
          | inr h ↦ elim (Bool-cases (c == 9)) [ inl i ↦ rw (g, h, i) | inr i ↦ rw (g, h, i) ]
        ]
      ])

step :
    (c : ℕ) (word token : List ℕ)
    → state_transition quoted (char_type c) ≡ (quoted, true)
    → split_from quoted (c ∷ word) token ≡ split_from quoted word (token ++ c ∷ [])
unfolding split_from is_final
step c word token e = rw e

step_escaped :
    (c : ℕ) (word token : List ℕ)
    → state_transition quoted_escape (char_type c) ≡ (quoted, true)
    → split_from quoted (92 ∷ c ∷ word) token ≡ split_from quoted word (token ++ c ∷ [])
unfolding split_from is_final state_transition char_type
step_escaped c word token e = rw e

close : (rest token : List ℕ) → split_from quoted (34 ∷ 32 ∷ rest) token ≡ some (token, some rest)
unfolding split_from state_transition is_final char_type
close rest token = refl

-- The two characters that are escaped.
special :
    (c : ℕ) → (c ≡ 34) ⊎ (c ≡ 92) → state_transition quoted_escape (char_type c) ≡ (quoted, true)
unfolding state_transition char_type
special c (inl e) = rw e refl
special c (inr e) = rw e refl

split_from-escaped :
    (w rest token : List ℕ)
    → split_from quoted (escaped w ++ 34 ∷ 32 ∷ rest) token ≡ some (token ++ w, some rest)
split_from-escaped [] rest token =
    close rest token ∙ ap (λ x. some (x, some rest)) (sym (append-nil token))
split_from-escaped (c ∷ w) rest token =
    let go =
      split_from-escaped w rest (token ++ c ∷ [])
      ∙ ap (λ x. some (x, some rest)) (append_assoc token (c ∷ []) w) in
    let tail = escaped w ++ 34 ∷ 32 ∷ rest in
    elim (Bool-cases (c == 34)) [
      | inl e ↦
          let z = eq_of_== c 34 e in
          rw e (
            ap (λ x. split_from quoted (92 ∷ x ∷ tail) token) (sym z)
            ∙ step_escaped c tail token (special c (inl z))
            ∙ go)
      | inr e ↦ elim (Bool-cases (c == 92)) [
        | inl f ↦
            let z = eq_of_== c 92 f in
            rw (e, f)
              (ap (λ x. split_from quoted (92 ∷ x ∷ tail) token) (sym z)
                ∙ step_escaped c tail token (special c (inr z))
                ∙ go)
        | inr f ↦ rw (e, f) (step c tail token (plain c e f) ∙ go)
      ]
    ]

open_quote : (word : List ℕ) → split_from initial (34 ∷ word) [] ≡ split_from quoted word []
unfolding split_from state_transition is_final char_type
open_quote word = refl

-- `_split_next_token` of a text in double quotes, with a backslash before each quote and backslash
-- of it, and with a blank behind it, returns that text as one token and goes on behind the blank.
pub split_next_token-quote :
    (w rest : List ℕ) → split_next_token (quote w (32 ∷ rest)) ≡ some (some (w, some rest))
unfolding split_next_token
split_next_token-quote w rest =
    ap (λ o. some o) (open_quote (escaped w ++ 34 ∷ 32 ∷ rest) ∙ split_from-escaped w rest [])
