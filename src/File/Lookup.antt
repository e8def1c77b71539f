-- ===== src/File/Lookup.antt =====
-- `bs_file_resolve_and_lookup_from_paths` of file.c.
use libbase.Base.{
  ℕ, Bool, true, ◌≡◌, refl, ap, Option, none, some, List, [], ◌∷◌, ◌==◌, if◌then◌else◌, Bool-cases,
  inl, inr,
}
use libbase.Memory.{Outcome, Returns, ok, abort, fault, out_of_fuel, Cmd}
use libbase.Text.{Text}
use libbase.File.{
  Resolved, resolved, not_resolved, name_too_long, run_in, join_resolve_path, has_type,
  take_if_found, lookup_from_paths,
}

-- Where a path, if it is resolved, is taken.
abbrev pub accepted : (Text → Bool) → Resolved → Option Text
accepted takes (resolved path) = if takes path then some path else none
accepted takes r = none

abbrev pub first_of : Option Text → Option Text → Option Text
first_of none o = o
first_of (some path) o = some path

abbrev pub first_accepted : (Text → Bool) → List Resolved → Option Text
first_accepted takes [] = none
first_accepted takes (r ∷ rs) = first_of (accepted takes r) (first_accepted takes rs)

run_in-ok :
    {S : Type 0} (s : S) (o : Outcome (List ℕ) Resolved) (x : Resolved)
    → Returns (λ r u. r ≡ x) o
    → run_in s o ≡ ok x s
run_in-ok s (ok r u) x e = ap (λ y. ok y s) e
run_in-ok s abort x e = elim e [ ]
run_in-ok s fault x e = elim e [ ]
run_in-ok s out_of_fuel x e = elim e [ ]

module _ (path_max : ℕ) (home : Option Text) (realpath : Text → Option Text)
    (stat : Text → Option ℕ) (file_type : ℕ → ℕ) (array buf : List ℕ) (fname : Text)
    (mode : ℕ) where
  -- What joining each path with the file name gives.
  abbrev pub Joins : List Text → List Resolved → Type 0
  Joins [] [] = Unit
  Joins [] (r ∷ rs) = ⊥
  Joins (p ∷ paths) [] = ⊥
  Joins (p ∷ paths) (r ∷ rs) =
      Returns (λ x u. x ≡ r) (join_resolve_path path_max home realpath array p fname buf)
      × Joins paths rs

  -- Any file, or one of the type.
  abbrev pub takes : Text → Bool
  takes path =
      if mode == 0 then true else has_type path_max home realpath stat file_type mode (stat path)

  take-accepted :
      (r : Resolved) (rs : List Resolved) (next : Cmd (Unit {0}) (Option Text))
      → next tt ≡ ok (first_accepted takes rs) tt
      → take_if_found path_max home realpath stat file_type mode r next tt
        ≡ ok (first_accepted takes (r ∷ rs)) tt
  take-accepted not_resolved rs next e = e
  take-accepted name_too_long rs next e = e
  take-accepted (resolved path) rs next e = elim (Bool-cases (mode == 0)) [
    | inl f ↦ rw f refl
    | inr f ↦ elim (Bool-cases (has_type path_max home realpath stat file_type mode (stat path))) [
      | inl g ↦ rw (f, g) refl
      | inr g ↦ rw (f, g) e
    ]
  ]

  -- The lookup gives the first of the resolved paths that is of the type that is looked for, or of any
  -- type if the mode is 0, and NULL if there is none: paths that are not resolved or of another type
  -- do not end it.
  pub lookup_from_paths-first_accepted :
      (paths : List Text) (rs : List Resolved)
      → Joins paths rs
      → lookup_from_paths path_max home realpath stat file_type array buf fname paths mode tt
        ≡ ok (first_accepted takes rs) tt
  unfolding lookup_from_paths
  lookup_from_paths-first_accepted [] [] j = refl
  lookup_from_paths-first_accepted [] (r ∷ rs) j = elim j [ ]
  lookup_from_paths-first_accepted (p ∷ paths) [] j = elim j [ ]
  lookup_from_paths-first_accepted (p ∷ paths) (r ∷ rs) j =
      rw (run_in-ok tt (join_resolve_path path_max home realpath array p fname buf) r j.0) (
        take-accepted r rs
          (lookup_from_paths path_max home realpath stat file_type array buf fname paths mode)
          (lookup_from_paths-first_accepted paths rs j.1))
