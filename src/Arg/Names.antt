-- ===== src/Arg/Names.antt =====
-- The names of arguments that `check_arg` of arg.c accepts, with those that `no` makes of the bools.
use libbase.Base.{
  Bool, true, false, not, ◌&&◌, ◌||◌, ◌≡◌, refl, arith, subst, Option, none, some, List, [], ◌∷◌,
  ◌++◌, ◌==◌, Bool-cases, inl, inr,
}
use libbase.Memory.{Ptr, null}
use libbase.Text.{Text, eq_text}
use libbase.Arg.{Spec, bool_spec, enum_spec, string_spec, uint32_spec, Arg, no, is_bool}
use libbase.Arg.Check.{is_name_valid, has_name, insert_name, check_spec, check_named, check_from}

-- The names that an argument takes.
abbrev pub keys : Spec → Text → List Text
keys (bool_spec d) n = (no ++ n) ∷ n ∷ []
keys s n = n ∷ []

-- What a round leaves true says: the name is valid and none of the names so far, nor is `no` with it
-- for a bool.
pub record IsNamed (a : Arg) (names : List Text) : Type 0 where
  pub name : Text
  pub given : a.name ≡ some name
  pub valid : is_name_valid name ≡ true
  pub fresh : has_name name names ≡ false
  pub fresh_no : is_bool a.spec ≡ true → has_name (no ++ name) names ≡ false
  pub after : (check_named a.name a.spec a.value_ptr names).1 ≡ keys a.spec name ++ names

-- Every argument is named apart from those before it.
abbrev pub AreNamed : List Arg → List Text → Type 0
AreNamed [] names = Unit
AreNamed (a ∷ args) names = (n : IsNamed a names) × AreNamed args (keys a.spec n.name ++ names)

pub and_left : (b c : Bool) → (b && c) ≡ true → b ≡ true
and_left true c e = refl
and_left false c e = e

pub and_right : (b c : Bool) → (b && c) ≡ true → c ≡ true
and_right true c e = e
and_right false c e = ground arith

insert_name-fresh :
    (n : Text) (names : List Text)
    → (insert_name n names).0 ≡ true
    → (has_name n names ≡ false) × ((insert_name n names).1 ≡ n ∷ names)
unfolding insert_name
insert_name-fresh n names e = elim (Bool-cases (has_name n names)) [
  | inl f ↦ let g = rw f at e in absurd (ground arith)
  | inr f ↦ (f, rw f refl)
]

or_false : (b c : Bool) → (b || c) ≡ false → c ≡ false
or_false true c e = ground arith
or_false false c e = e

check_spec-fresh :
    (s : Spec) (n : Text) (given : Bool) (names : List Text)
    → (check_spec s n given (n ∷ names)).0 ≡ true
    → (is_bool s ≡ true → has_name (no ++ n) names ≡ false)
      × ((check_spec s n given (n ∷ names)).1 ≡ keys s n ++ names)
unfolding check_spec
check_spec-fresh (bool_spec d) n given names e =
    let f = insert_name-fresh (no ++ n) (n ∷ names) (and_right given _ e) in
    ((λ _. or_false (eq_text n (no ++ n)) (has_name (no ++ n) names) f.0), f.1)
check_spec-fresh (enum_spec d table) n given names e = ((λ b. absurd (ground arith)), refl)
check_spec-fresh (string_spec d) n given names e = ((λ b. absurd (ground arith)), refl)
check_spec-fresh (uint32_spec d low high) n given names e = ((λ b. absurd (ground arith)), refl)

named :
    (o : Option Text) (s : Spec) (p : Ptr) (names : List Text)
    → (check_named o s p names).0 ≡ true
    → IsNamed (record { name = o; spec = s; value_ptr = p }) names
unfolding check_named
named none s p names e = absurd (ground arith)
named (some n) s p names e = elim (Bool-cases (is_name_valid n)) [
  | inr v ↦ let g = rw v at e in absurd (ground arith)
  | inl v ↦ elim (Bool-cases ((insert_name n names).0)) [
    | inr i ↦ let g = rw (v, i) at e in absurd (ground arith)
    | inl i ↦
        let f = insert_name-fresh n names i in
        let g = rw (v, i, f.1) at e in
        let h = check_spec-fresh s n (not (p == null)) names g in
        record {
          name = n;
          given = refl;
          valid = v;
          fresh = f.0;
          fresh_no = h.0;
          after = rw (v, i, f.1) h.1;
        }
  ]
]

pub check_from-AreNamed :
    (args : List Arg) (names : List Text) → check_from args names ≡ true → AreNamed args names
unfolding check_from
check_from-AreNamed [] names e = tt
check_from-AreNamed (a ∷ args) names e =
    let round = check_named a.name a.spec a.value_ptr names in
    let n = named a.name a.spec a.value_ptr names (and_left round.0 (check_from args round.1) e) in
    let rest : check_from args (keys a.spec n.name ++ names) ≡ true =
      subst (λ l. check_from args l ≡ true) n.after
        (and_right round.0 (check_from args round.1) e) in
    (n, check_from-AreNamed args (keys a.spec n.name ++ names) rest)
