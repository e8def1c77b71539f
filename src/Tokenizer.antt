-- ===== src/Tokenizer.antt =====
-- The splitting of a command line into tokens, of subprocess.c. A string is the list of its
-- characters before the NUL, as numbers; reading on behind the NUL has no result. Memory for the
-- token is taken to be there.
pub mod Quote
mod Tests
use libbase.Base.{
  ℕ, Bool, true, false, Option, none, some, List, [], ◌∷◌, ◌++◌, ◌==◌, if◌then◌else◌,
}

-- The character types.
pub data CharType : Type 0 where
  alpha : CharType
  blank : CharType
  escape : CharType
  double_quote : CharType
  end_of_string : CharType
  single_quote : CharType

-- The states of the automaton, by their row of the table.
pub data State : Type 0 where
  initial : State
  quoted : State
  quoted_escape : State
  in_token : State
  token_escape : State
  final : State
  single_quoted : State
  single_escape : State
  also_final : State

-- The next state, and whether the character is part of the token. The loop ends in the final
-- states and never reads a transition of theirs; their first entry, -1, is what `is_final` tests.
unfoldable pub state_transition : State → CharType → State × Bool
state_transition initial alpha = (in_token, true)
state_transition initial blank = (initial, false)
state_transition initial escape = (token_escape, false)
state_transition initial double_quote = (quoted, false)
state_transition initial end_of_string = (also_final, false)
state_transition initial single_quote = (single_quoted, false)
state_transition quoted escape = (quoted_escape, false)
state_transition quoted double_quote = (in_token, false)
state_transition quoted end_of_string = (final, false)
state_transition quoted t = (quoted, true)
state_transition quoted_escape end_of_string = (final, false)
state_transition quoted_escape t = (quoted, true)
state_transition in_token alpha = (in_token, true)
state_transition in_token blank = (final, false)
state_transition in_token escape = (token_escape, false)
state_transition in_token double_quote = (quoted, false)
state_transition in_token end_of_string = (final, false)
state_transition in_token single_quote = (single_quoted, false)
state_transition token_escape end_of_string = (final, false)
state_transition token_escape t = (in_token, true)
state_transition single_quoted escape = (single_escape, false)
state_transition single_quoted end_of_string = (final, false)
state_transition single_quoted single_quote = (in_token, false)
state_transition single_quoted t = (single_quoted, true)
state_transition single_escape end_of_string = (final, false)
state_transition single_escape t = (single_quoted, true)
state_transition final t = (initial, false)
state_transition also_final t = (initial, false)

-- The rows that start with a negative output.
unfoldable pub is_final : State → Bool
is_final final = true
is_final also_final = true
is_final s = false

unfoldable pub char_type : ℕ → CharType
char_type c =
    if c == 92
    then escape
    else if c == 34
    then double_quote
    else if c == 39
    then single_quote
    else if c == 32
    then blank
    else if c == 9
    then blank
    else alpha

-- One round of the loop for a character, and all of them from a state. The result is the token and
-- where the next one starts, if the string did not end.
unfoldable pub split_from : State → List ℕ → List ℕ → Option (List ℕ × Option (List ℕ))
split_from s [] token =
    if is_final (state_transition s end_of_string).0 then some (token, none) else none
split_from s (c ∷ word) token =
    let next = state_transition s (char_type c) in
    let token' = if next.1 then token ++ c ∷ [] else token in
    let rest = split_from next.0 word token' in
    if is_final next.0 then some (token', some word) else rest

-- No token is left at the end of the string: the outer `none` of the result.
unfoldable pub split_next_token : List ℕ → Option (Option (List ℕ × Option (List ℕ)))
split_next_token [] = none
split_next_token (c ∷ word) = some (split_from initial (c ∷ word) [])
