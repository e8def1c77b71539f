-- ===== src/Text.antt =====
-- Strings, and what the source uses of string.h and ctype.h, in the C locale. A string is the list
-- of its characters before the NUL, as numbers.
use libbase.Base.{
  ℕ, Bool, true, false, ◌&&◌, ◌||◌, ◌≡◌, refl, arith, ◌∙◌, ap, List, [], ◌∷◌, ◌++◌, ltb, leb, ◌==◌,
  ==_refl, eq_of_==, if◌then◌else◌, Bool-cases, inl, inr,
}
use libbase.Base.Int.{ℤ, pos, negsuc}

abbrev pub Text : Type 0
Text = List ℕ

-- `0 == strcmp(s, t)`
unfoldable pub eq_text : Text → Text → Bool
eq_text [] [] = true
eq_text [] (d ∷ t) = false
eq_text (c ∷ s) [] = false
eq_text (c ∷ s) (d ∷ t) = c == d && eq_text s t

-- The sign of `strcmp(s, t)`.
unfoldable pub strcmp : Text → Text → ℤ
strcmp [] [] = pos 0
strcmp [] (d ∷ t) = negsuc 0
strcmp (c ∷ s) [] = pos 1
strcmp (c ∷ s) (d ∷ t) = if ltb c d then negsuc 0 else if ltb d c then pos 1 else strcmp s t

-- `0 == strncmp(s, prefix, strlen(prefix))`
unfoldable pub starts_with : Text → Text → Bool
starts_with [] s = true
starts_with (d ∷ prefix) [] = false
starts_with (d ∷ prefix) (c ∷ s) = c == d && starts_with prefix s

abbrev pub between : ℕ → ℕ → ℕ → Bool
between low high c = leb low c && leb c high

unfoldable pub isspace : ℕ → Bool
isspace c = c == 32 || between 9 13 c

unfoldable pub isdigit : ℕ → Bool
isdigit c = between 48 57 c

unfoldable pub isalpha : ℕ → Bool
isalpha c = between 65 90 c || between 97 122 c

unfoldable pub isalnum : ℕ → Bool
isalnum c = isalpha c || isdigit c

pub eq_text_refl : (s : Text) → eq_text s s ≡ true
unfolding eq_text
eq_text_refl [] = refl
eq_text_refl (c ∷ s) = rw (==_refl c) (eq_text_refl s)

pub eq_of_eq_text : (s t : Text) → eq_text s t ≡ true → s ≡ t
unfolding eq_text
eq_of_eq_text [] [] e = refl
eq_of_eq_text [] (d ∷ t) e = ground arith
eq_of_eq_text (c ∷ s) [] e = ground arith
eq_of_eq_text (c ∷ s) (d ∷ t) e = elim (Bool-cases (c == d)) [
  | inl f ↦
      let g = rw f at e in ap (λ x. x ∷ s) (eq_of_== c d f) ∙ ap (λ l. d ∷ l) (eq_of_eq_text s t g)
  | inr f ↦ let g = rw f at e in ground arith
]

pub starts_with-append : (p s : Text) → starts_with p (p ++ s) ≡ true
unfolding starts_with
starts_with-append [] s = refl
starts_with-append (d ∷ p) s = rw (==_refl d) (starts_with-append p s)

-- What starts with a prefix is the prefix and the rest behind it.
pub append-starts_with : (p s : Text) → starts_with p s ≡ true → (t : Text) × (s ≡ p ++ t)
unfolding starts_with
append-starts_with [] s e = (s, refl)
append-starts_with (d ∷ p) [] e = ground arith
append-starts_with (d ∷ p) (c ∷ s) e = elim (Bool-cases (c == d)) [
  | inl f ↦
      let g = rw f at e in
      let (t, h) = append-starts_with p s g in
      (t, ap (λ x. x ∷ s) (eq_of_== c d f) ∙ ap (λ l. d ∷ l) h)
  | inr f ↦ let g = rw f at e in absurd (ground arith)
]
