-- ===== src/Tokenizer/Tests.antt =====
-- Runs of the tokenizer, and instances of its theorems.
use libbase.Base.{ℕ, ◌≡◌, refl, Option, none, some, List, [], ◌∷◌}
use libbase.Tokenizer.{split_next_token, split_from, state_transition, is_final, char_type}
use libbase.Tokenizer.Quote.{quote, split_next_token-some, split_next_token-quote}

-- `a` and two blanks: the token, then an empty one.
trailing_blanks : split_next_token (97 ∷ 32 ∷ 32 ∷ []) ≡ some (some (97 ∷ [], some (32 ∷ [])))
unfolding split_next_token split_from state_transition is_final char_type
trailing_blanks = refl

blank_token : split_next_token (32 ∷ []) ≡ some (some ([], none))
unfolding split_next_token split_from state_transition is_final char_type
blank_token = refl

split_next_token-some_example :
    (r : List ℕ × Option (List ℕ)) × (split_next_token (34 ∷ 97 ∷ 92 ∷ []) ≡ some (some r))
split_next_token-some_example = split_next_token-some 34 (97 ∷ 92 ∷ [])

split_next_token-quote_example :
    split_next_token (quote (97 ∷ 34 ∷ 32 ∷ []) (32 ∷ 98 ∷ []))
    ≡ some (some (97 ∷ 34 ∷ 32 ∷ [], some (98 ∷ [])))
split_next_token-quote_example = split_next_token-quote (97 ∷ 34 ∷ 32 ∷ []) (98 ∷ [])
