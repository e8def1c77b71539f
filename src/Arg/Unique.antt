-- ===== src/Arg/Unique.antt =====
-- `find_matching_arg` of arg.c, on arguments of which one matches.
use libbase.Base.{
  true, false, ◌≡◌, ◌≢◌, refl, arith, ◌∙◌, ap, subst, Option, some, List, [], ◌∷◌, ◌++◌, drop,
  Bool-cases, inl, inr,
}
use libbase.Memory.{Ptr}
use libbase.Text.{Text, eq_text, eq_of_eq_text}
use libbase.Arg.{
  Spec, is_bool, bool_spec, enum_spec, string_spec, uint32_spec, Arg, no, no_match, no_value,
  get_match_type, Found, no_arg, found_by, found_if_named, find_matching_arg,
}
use libbase.Arg.Check.{has_name, is_name_valid, check_arg}
use libbase.Arg.Names.{keys, IsNamed, AreNamed, check_from-AreNamed}
use libbase.Arg.Match.{key_of, Matched, get_match_type-cases}

has_name-append :
    (k : Text) (xs ys : List Text)
    → has_name k (xs ++ ys) ≡ false
    → (has_name k xs ≡ false) × (has_name k ys ≡ false)
has_name-append k [] ys e = (refl, e)
has_name-append k (x ∷ xs) ys e = elim (Bool-cases (eq_text x k)) [
  | inl f ↦ let g = rw f at e in absurd (ground arith)
  | inr f ↦ let g = rw f at e in let r = has_name-append k xs ys g in (rw f r.0, r.1)
]

only_name :
    (n k : Text) (names : List Text)
    → has_name k (n ∷ []) ≡ true
    → has_name n names ≡ false
    → has_name k names ≡ false
only_name n k names e f = elim (Bool-cases (eq_text n k)) [
  | inl g ↦ subst (λ m. has_name m names ≡ false) (eq_of_eq_text n k g) f
  | inr g ↦ let h = rw g at e in absurd (ground arith)
]

key-fresh :
    (s : Spec) (n : Text) (names : List Text) (k : Text)
    → has_name n names ≡ false
    → (is_bool s ≡ true → has_name (no ++ n) names ≡ false)
    → has_name k (keys s n) ≡ true
    → has_name k names ≡ false
key-fresh (bool_spec d) n names k f g e = elim (Bool-cases (eq_text (no ++ n) k)) [
  | inl h ↦ subst (λ m. has_name m names ≡ false) (eq_of_eq_text (no ++ n) k h) (g refl)
  | inr h ↦ let i = rw h at e in only_name n k names i f
]
key-fresh (enum_spec d table) n names k f g e = only_name n k names e f
key-fresh (string_spec d) n names k f g e = only_name n k names e f
key-fresh (uint32_spec d low high) n names k f g e = only_name n k names e f

-- The names of an argument are not among those before it.
keys-fresh :
    (s : Spec) (n : Text) (p : Ptr) (names : List Text) (k : Text)
    → IsNamed (record { name = some n; spec = s; value_ptr = p }) names
    → has_name k (keys s n) ≡ true
    → has_name k names ≡ false
keys-fresh s n p names k w e =
    let same : w.name ≡ n = cc w.given in
    let fresh = subst (λ m. has_name m names ≡ false) same w.fresh in
    key-fresh s n names k fresh
      (subst (λ m. is_bool s ≡ true → has_name (no ++ m) names ≡ false) same w.fresh_no) e

pub AreNamed-fresh :
    (xs ys : List Arg) (s : Spec) (n : Text) (p : Ptr) (names : List Text) (k : Text)
    → AreNamed (xs ++ record { name = some n; spec = s; value_ptr = p } ∷ ys) names
    → has_name k (keys s n) ≡ true
    → has_name k names ≡ false
AreNamed-fresh [] ys s n p names k w e = keys-fresh s n p names k w.0 e
AreNamed-fresh (x ∷ xs) ys s n p names k w e =
    (has_name-append k (keys x.spec w.0.name) names
      (AreNamed-fresh xs ys s n p (keys x.spec w.0.name ++ names) k w.1 e)).1

pub found_if_named-some :
    (a : Arg) (o : Option Text) (n argv : Text) (next : Option Text) (rest : Found)
    → o ≡ some n
    → found_if_named a o argv next rest ≡ found_by a (get_match_type a.spec n argv next) rest
found_if_named-some a o n argv next rest e = ap (λ x. found_if_named a x argv next rest) e

-- An argument that matches is found, whatever stands before it.
found_behind :
    (xs ys : List Arg) (s : Spec) (n : Text) (p : Ptr) (names : List Text) (argv : Text)
    (next : Option Text)
    → AreNamed (xs ++ record { name = some n; spec = s; value_ptr = p } ∷ ys) names
    → Matched s n argv next
    → find_matching_arg (xs ++ record { name = some n; spec = s; value_ptr = p } ∷ ys) argv next
      ≡ found_by
          (record { name = some n; spec = s; value_ptr = p })
          (get_match_type s n argv next)
          no_arg
unfolding find_matching_arg
found_behind [] ys s n p names argv next w m =
    m.decides (record { name = some n; spec = s; value_ptr = p }) (find_matching_arg ys argv next)
found_behind (x ∷ xs) ys s n p names argv next w m =
    let k = key_of (drop 2 argv) in
    let rest = found_behind xs ys s n p (keys x.spec w.0.name ++ names) argv next w.1 m in
    let all = xs ++ record { name = some n; spec = s; value_ptr = p } ∷ ys in
    let here =
      found_if_named-some x x.name w.0.name argv next (find_matching_arg all argv next) w.0.given in
    elim (get_match_type-cases x.spec w.0.name argv next w.0.valid) [
      | inl e ↦ here ∙ ap (λ r. found_by x r (find_matching_arg all argv next)) e ∙ rest
      | inr other ↦
          let no_other =
            (has_name-append k (keys x.spec w.0.name) names
              (AreNamed-fresh xs ys s n p (keys x.spec w.0.name ++ names) k w.1 m.key)).0 in
          absurd (cc (no_other, other.key))
    ]

AreNamed-valid :
    (xs ys : List Arg) (s : Spec) (n : Text) (p : Ptr) (names : List Text)
    → AreNamed (xs ++ record { name = some n; spec = s; value_ptr = p } ∷ ys) names
    → is_name_valid n ≡ true
AreNamed-valid [] ys s n p names w =
    let same : w.0.name ≡ n = cc w.0.given in subst (λ m. is_name_valid m ≡ true) same w.0.valid
AreNamed-valid (x ∷ xs) ys s n p names w =
    AreNamed-valid xs ys s n p (keys x.spec w.0.name ++ names) w.1

-- Of arguments that `check_arg` accepts, one that a string matches is the one that is found for it,
-- with its value, wherever it stands in the list.
pub find_matching_arg_unique :
    (xs ys : List Arg) (s : Spec) (n : Text) (p : Ptr) (argv : Text) (next : Option Text)
    → check_arg (xs ++ record { name = some n; spec = s; value_ptr = p } ∷ ys) ≡ true
    → get_match_type s n argv next ≢ (no_match, no_value)
    → find_matching_arg (xs ++ record { name = some n; spec = s; value_ptr = p } ∷ ys) argv next
      ≡ found_by
          (record { name = some n; spec = s; value_ptr = p })
          (get_match_type s n argv next)
          no_arg
unfolding check_arg
find_matching_arg_unique xs ys s n p argv next c m =
    let w =
      check_from-AreNamed (xs ++ record { name = some n; spec = s; value_ptr = p } ∷ ys) [] c in
    elim (get_match_type-cases s n argv next (AreNamed-valid xs ys s n p [] w)) [
      | inl e ↦ absurd (m e)
      | inr matched ↦ found_behind xs ys s n p [] argv next w matched
    ]
