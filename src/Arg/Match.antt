-- ===== src/Arg/Match.antt =====
-- `find_matching_arg` of arg.c on arguments that `check_arg` accepts.
use libbase.Base.{
  ℕ, Bool, true, false, ◌&&◌, ◌||◌, ◌≡◌, refl, arith, ◌∙◌, ap, sym, subst, Option, none, some, List,
  [], ◌∷◌, ◌++◌, drop, length, ◌==◌, Bool-cases, inl, inr, ◌⊎◌, append-nil, drop_front,
  if◌then◌else◌,
}
use libbase.Text.{
  Text, eq_text, eq_text_refl, eq_of_eq_text, starts_with, append-starts_with, isalpha, isalnum,
  isdigit,
}
use libbase.Arg.{
  Spec, bool_spec, enum_spec, string_spec, uint32_spec, Arg, no, no_match, MatchType, ValueRef,
  no_value, match_name, get_match_type, Found, no_arg, found_by, dashes, after_name, is_bool,
}
use libbase.Arg.Check.{high_bit, is_name_valid, is_name_char, all_name_chars, has_name}
use libbase.Arg.Names.{keys, and_left, and_right}

-- A text up to its first `=`.
abbrev pub key_of : Text → Text
key_of [] = []
key_of (c ∷ s) = if c == 61 then [] else c ∷ key_of s

pub name_char-plain : (c : ℕ) → is_name_char c ≡ true → (c == 61) ≡ false
unfolding isalpha isalnum isdigit
name_char-plain c e = ground arith

pub all_name_chars-key : (n t : Text) → all_name_chars n ≡ true → key_of (n ++ t) ≡ n ++ key_of t
all_name_chars-key [] t e = refl
all_name_chars-key (c ∷ n) t e = elim (Bool-cases (is_name_char c)) [
  | inl f ↦
      let g = rw f at e in
      let plain = name_char-plain c f in rw plain (ap (λ l. c ∷ l) (all_name_chars-key n t g))
  | inr f ↦ let g = rw f at e in absurd (ground arith)
]

first_char-plain : (c : ℕ) → (isalpha c || high_bit c) ≡ true → (c == 61) ≡ false
unfolding isalpha
first_char-plain c e = ground arith

-- No `=` stands in a valid name.
pub is_name_valid-key : (n t : Text) → is_name_valid n ≡ true → key_of (n ++ t) ≡ n ++ key_of t
unfolding is_name_valid
is_name_valid-key [] t e = absurd (ground arith)
is_name_valid-key (c ∷ n) t e = elim (Bool-cases (isalpha c || high_bit c)) [
  | inl f ↦
      let g = rw f at e in
      let plain = first_char-plain c f in rw plain (ap (λ l. c ∷ l) (all_name_chars-key n t g))
  | inr f ↦ let g = rw f at e in absurd (ground arith)
]

-- An argument that matches: what stands before the `=` is one of its names, and the loop ends there.
pub record Matched (s : Spec) (n argv : Text) (next : Option Text) : Type 0 where
  pub key : has_name (key_of (drop 2 argv)) (keys s n) ≡ true
  pub decides :
      (a : Arg) (rest : Found)
      → found_by a (get_match_type s n argv next) rest
        ≡ found_by a (get_match_type s n argv next) no_arg

has_name_first : (n m : Text) (names : List Text) → n ≡ m → has_name n (m ∷ names) ≡ true
has_name_first n m names e = rw (e, eq_text_refl m) refl

abbrev Decides : MatchType × ValueRef → Type 0
Decides r = (a : Arg) (rest : Found) → found_by a r rest ≡ found_by a r no_arg

-- What one of the kinds of match says of the text behind the dashes.
abbrev Says : Spec → Text → Text → MatchType × ValueRef → Type 0
Says s n body r =
    (r ≡ (no_match, no_value)) ⊎ ((has_name (key_of body) (keys s n) ≡ true) × Decides r)

after_name-Says :
    (s : Spec) (n t : Text) (next : Option Text)
    → has_name n (keys s n) ≡ true
    → is_name_valid n ≡ true
    → Says s n (n ++ t) (after_name t next)
after_name-Says s n [] none k v = inr (
  subst (λ m. has_name m (keys s n) ≡ true) (sym (is_name_valid-key n [] v ∙ append-nil n)) k,
  λ a rest. refl,
)
after_name-Says s n [] (some w) k v = inr (
  subst (λ m. has_name m (keys s n) ≡ true) (sym (is_name_valid-key n [] v ∙ append-nil n)) k,
  λ a rest. refl,
)
after_name-Says s n (c ∷ t) next k v = elim (Bool-cases (c == 61)) [
  | inr f ↦ inl (rw f refl)
  | inl f ↦
      let e : key_of (n ++ c ∷ t) ≡ n = is_name_valid-key n (c ∷ t) v ∙ rw f (append-nil n) in
      inr (subst (λ m. has_name m (keys s n) ≡ true) (sym e) k, rw f (λ a rest. refl))
]

-- The three types of argument that take a value.
valued-Says :
    (s : Spec) (n body : Text) (next : Option Text)
    → is_bool s ≡ false
    → has_name n (keys s n) ≡ true
    → is_name_valid n ≡ true
    → Says s n body (match_name s n body next)
unfolding match_name
valued-Says s n body next b k v = elim (Bool-cases (starts_with n body)) [
  | inr f ↦ inl (rw (b, f) refl)
  | inl f ↦
      let (t, e) = append-starts_with n body f in
      let d : drop (length n) body ≡ t =
        ap (λ l. drop (length n) l) e
        ∙ ap (λ i. drop i (n ++ t)) (omega arith)
        ∙ drop_front n t 0 in
      let r : match_name s n body next ≡ after_name t next = rw (b, f, d) refl in
      subst (Says s n body) (sym r)
        (subst (λ l. Says s n l (after_name t next)) (sym e) (after_name-Says s n t next k v))
]

text_key : (n : Text) → is_name_valid n ≡ true → key_of n ≡ n
text_key n v = ap key_of (sym (append-nil n)) ∙ is_name_valid-key n [] v ∙ append-nil n

keys_name : (s : Spec) (n : Text) → has_name n (keys s n) ≡ true
keys_name (bool_spec d) n = elim (Bool-cases (eq_text (no ++ n) n)) [
  | inl f ↦ rw f refl
  | inr f ↦ rw (f, eq_text_refl n) refl
]
keys_name (enum_spec d table) n = has_name_first n n [] refl
keys_name (string_spec d) n = has_name_first n n [] refl
keys_name (uint32_spec d low high) n = has_name_first n n [] refl

bool-Says :
    (d : Bool) (n body : Text) (next : Option Text)
    → is_name_valid n ≡ true
    → Says (bool_spec d) n body (match_name (bool_spec d) n body next)
unfolding match_name
bool-Says d n body next v = elim (Bool-cases (eq_text body n)) [
  | inl f ↦
      let e : key_of body ≡ n = ap key_of (eq_of_eq_text body n f) ∙ text_key n v in
      inr (
        subst (λ m. has_name m (keys (bool_spec d) n) ≡ true) (sym e) (keys_name (bool_spec d) n),
        rw f (λ a rest. refl),
      )
  | inr f ↦ elim (Bool-cases (starts_with no body && eq_text (drop 2 body) n)) [
    | inr g ↦ inl (rw (f, g) refl)
    | inl g ↦
        let (t, h) =
          append-starts_with no body (and_left (starts_with no body) (eq_text (drop 2 body) n) g) in
        let i = and_right (starts_with no body) (eq_text (drop 2 body) n) g in
        let j : t ≡ n = eq_of_eq_text t n (subst (λ l. eq_text (drop 2 l) n ≡ true) h i) in
        let e : key_of body ≡ no ++ n =
          ap key_of h ∙ ap (λ l. no ++ l) (ap key_of j ∙ text_key n v) in
        inr (has_name_first (key_of body) (no ++ n) (n ∷ []) e, rw (f, g) (λ a rest. refl))
  ]
]

match_name-Says :
    (s : Spec) (n body : Text) (next : Option Text)
    → is_name_valid n ≡ true
    → Says s n body (match_name s n body next)
match_name-Says (bool_spec d) n body next v = bool-Says d n body next v
match_name-Says (enum_spec d table) n body next v =
    valued-Says (enum_spec d table) n body next refl (keys_name (enum_spec d table) n) v
match_name-Says (string_spec d) n body next v =
    valued-Says (string_spec d) n body next refl (keys_name (string_spec d) n) v
match_name-Says (uint32_spec d low high) n body next v =
    valued-Says (uint32_spec d low high) n body next refl (keys_name (uint32_spec d low high) n) v

pub get_match_type-cases :
    (s : Spec) (n argv : Text) (next : Option Text)
    → is_name_valid n ≡ true
    → (get_match_type s n argv next ≡ (no_match, no_value)) ⊎ Matched s n argv next
unfolding get_match_type
get_match_type-cases s n argv next v = elim (Bool-cases (starts_with dashes argv)) [
  | inr f ↦ inl (rw f refl)
  | inl f ↦
      let r : get_match_type s n argv next ≡ match_name s n (drop 2 argv) next = rw f refl in
      elim (match_name-Says s n (drop 2 argv) next v) [
        | inl g ↦ inl (r ∙ g)
        | inr (k, d) ↦ inr (record { key = k; decides = subst Decides (sym r) d })
      ]
]
