-- ===== src/Subprocess/Match.antt =====
-- A matcher of the expression for a variable assignment, for the instances of theorems that take one.
use libbase.Base.{
  ℕ, suc, ◌+◌, true, false, ◌||◌, ◌≡◌, refl, arith, ◌∙◌, ap, Option, none, some, [], ◌∷◌, ◌++◌,
  length, ◌==◌, eq_of_==, if◌then◌else◌, Bool-cases, Option-cases, inl, inr,
}
use libbase.Text.{Text, isalpha, isdigit}
use libbase.Subprocess.{EnvVar}
use libbase.Subprocess.Split.{is_name_start, is_name_rest, is_name, assignment, IsRegexec}

-- What is behind the first character, after `n` characters.
abbrev pub scan_name : ℕ → Text → Option (ℕ × ℕ)
scan_name n [] = none
scan_name n (c ∷ s) =
    let rest = scan_name (suc n) s in
    if c == 61 then some (0, suc n) else if is_name_start c || isdigit c then rest else none

abbrev pub match_name : Text → Option (ℕ × ℕ)
match_name [] = none
match_name (c ∷ s) = if is_name_start c then scan_name 1 s else none

name_char-plain : (c : ℕ) → (is_name_start c || isdigit c) ≡ true → (c == 61) ≡ false
unfolding isalpha isdigit
name_char-plain c e = ground arith

scan_name-matches :
    (n : ℕ) (s value : Text)
    → is_name_rest s ≡ true
    → scan_name n (s ++ 61 ∷ value) ≡ some (0, suc (n + length s))
scan_name-matches n [] value e = ap (λ k. some (0, k)) (omega arith)
scan_name-matches n (c ∷ s) value e = elim (Bool-cases (is_name_start c || isdigit c)) [
  | inl f ↦
      let g = rw f at e in
      rw (name_char-plain c f, f)
        (scan_name-matches (suc n) s value g ∙ ap (λ k. some (0, k)) (omega arith))
  | inr f ↦ let g = rw f at e in absurd (ground arith)
]

match_name-matches :
    (n value : Text) → is_name n ≡ true → match_name (n ++ 61 ∷ value) ≡ some (0, suc (length n))
match_name-matches [] value e = absurd (ground arith)
match_name-matches (c ∷ n) value e = elim (Bool-cases (is_name_start c)) [
  | inl f ↦
      let g = rw f at e in
      rw f (scan_name-matches 1 n value g ∙ ap (λ k. some (0, k)) (omega arith))
  | inr f ↦ let g = rw f at e in absurd (ground arith)
]

-- What is scanned is the rest of a name, and a value.
scan_name-assignment :
    (n : ℕ) (s : Text) (r : ℕ × ℕ)
    → scan_name n s ≡ some r
    → (v : EnvVar) × (is_name_rest v.name ≡ true) × (s ≡ assignment v)
scan_name-assignment n [] r e = absurd (ground arith)
scan_name-assignment n (c ∷ s) r e = elim (Bool-cases (c == 61)) [
  | inl f ↦ (record { name = []; value = s }, refl, ap (λ d. d ∷ s) (eq_of_== c 61 f))
  | inr f ↦ elim (Bool-cases (is_name_start c || isdigit c)) [
    | inl g ↦
        let h = rw (f, g) at e in
        let (v, w, a) = scan_name-assignment (suc n) s r h in
        (record { name = c ∷ v.name; value = v.value }, rw g w, ap (λ l. c ∷ l) a)
    | inr g ↦ let h = rw (f, g) at e in absurd (ground arith)
  ]
]

match_name-assignment :
    (word : Text) (r : ℕ × ℕ)
    → match_name word ≡ some r
    → (v : EnvVar) × (is_name v.name ≡ true) × (word ≡ assignment v)
match_name-assignment [] r e = absurd (ground arith)
match_name-assignment (c ∷ s) r e = elim (Bool-cases (is_name_start c)) [
  | inl f ↦
      let g = rw f at e in
      let (v, w, a) = scan_name-assignment 1 s r g in
      (record { name = c ∷ v.name; value = v.value }, rw f w, ap (λ l. c ∷ l) a)
  | inr f ↦ let g = rw f at e in absurd (ground arith)
]

pub match_name-IsRegexec : IsRegexec match_name
match_name-IsRegexec = record {
  matches = λ v e. match_name-matches v.name v.value e;
  no_match = λ word w. elim (Option-cases (match_name word)) [
    | inl e ↦ e
    | inr (r, e) ↦ let (v, n, a) = match_name-assignment word r e in absurd (w v n a)
  ];
}
