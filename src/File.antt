-- ===== src/File.antt =====
-- The paths of file.c. What `getenv`, `realpath` and `stat` say are parameters: the home directory,
-- the resolved path and the mode of a file. `path_max` is the size of the arrays that paths are put
-- together in, which hold anything at first.
pub mod Buffer
pub mod Path
pub mod Lookup
mod Tests
use libbase.Base.{
  ℕ, zero, suc, ◌==◌, Bool, true, false, Option, none, some, List, [], ◌∷◌, leb, ltb, drop,
  if◌then◌else◌,
}
use libbase.Memory.{Outcome, ok, abort, fault, out_of_fuel, Cmd, pure, ◌>>=◌}
use libbase.Text.{Text}
use libbase.Strutil.{strappend, startswith}

-- What is returned: a path, or NULL with `errno` of `realpath` or with ENAMETOOLONG.
pub data Resolved : Type 0 where
  resolved : Text → Resolved
  not_resolved : Resolved
  name_too_long : Resolved

-- A string in an array, up to the NUL.
unfoldable pub c_string : List ℕ → Option Text
c_string [] = none
c_string (zero ∷ buf) = some []
c_string (suc c ∷ buf) = elim (c_string buf) [ none ↦ none | some s ↦ some (suc c ∷ s) ]

-- `a`, a slash and `b`, put together in an array.
unfoldable pub joined : ℕ → Text → Text → Cmd (List ℕ) ℕ
joined path_max a b = do
  i ← strappend path_max 0 a
  j ← strappend path_max i (47 ∷ [])
  strappend path_max j b

abbrev pub run_in : {S : Type 0} → S → Outcome (List ℕ) Resolved → Outcome S Resolved
run_in s (ok r u) = ok r s
run_in s abort = abort
run_in s fault = fault
run_in s out_of_fuel = out_of_fuel

-- What a function does with an array of its own.
abbrev pub with_array : {S : Type 0} → List ℕ → Cmd (List ℕ) Resolved → Cmd S Resolved
with_array array m = λ s. run_in s (m array)

-- `~/`
abbrev pub home_prefix : Text
home_prefix = 126 ∷ 47 ∷ []

abbrev pub real : Option Text → Resolved
real none = not_resolved
real (some path) = resolved path

module _ (path_max : ℕ) (home : Option Text) (realpath : Text → Option Text) where
  abbrev pub resolve_string : Option Text → Cmd (List ℕ) Resolved
  resolve_string none = λ buf. fault
  resolve_string (some path) = pure (real (realpath path))

  abbrev pub resolve_home : Option Text → Text → Cmd (List ℕ) Resolved
  resolve_home none path = pure (real (realpath path))
  resolve_home (some dir) path = do
    i ← joined path_max dir (drop 2 path)
    if leb path_max i then pure name_too_long else λ buf. resolve_string (c_string buf) buf

  -- `bs_file_resolve_path`; the state is `expanded_path`.
  unfoldable pub resolve_path : Text → Cmd (List ℕ) Resolved
  resolve_path path =
      if startswith path home_prefix then resolve_home home path else pure (real (realpath path))

  abbrev pub resolve_joined : List ℕ → Option Text → Cmd (List ℕ) Resolved
  resolve_joined array none = λ buf. fault
  resolve_joined array (some path) = with_array array (resolve_path path)

  -- `bs_file_join_resolve_path`; the state is `path`, and `array` is what `expanded_path` holds.
  unfoldable pub join_resolve_path : List ℕ → Text → Text → Cmd (List ℕ) Resolved
  join_resolve_path array path fname = do
    pos ← joined path_max path fname
    if ltb path_max pos then pure name_too_long else λ buf. resolve_joined array (c_string buf) buf

  -- `file_type mode` is `mode & S_IFMT`.
  module _ (stat : Text → Option ℕ) (file_type : ℕ → ℕ) where
    -- Whether the type of a file is the one that is looked for.
    abbrev pub has_type : ℕ → Option ℕ → Bool
    has_type mode none = false
    has_type mode (some st_mode) = file_type st_mode == file_type mode

    abbrev pub take_if_found :
        ℕ → Resolved → Cmd (Unit {0}) (Option Text) → Cmd (Unit {0}) (Option Text)
    take_if_found mode not_resolved next = next
    take_if_found mode name_too_long next = next
    take_if_found mode (resolved path) next =
        if mode == 0
        then pure (some path)
        else if has_type mode (stat path)
        then pure (some path)
        else next

    -- `bs_file_resolve_and_lookup_from_paths`; the arrays are those of the two functions above.
    unfoldable pub lookup_from_paths :
        List ℕ → List ℕ → Text → List Text → ℕ → Cmd (Unit {0}) (Option Text)
    lookup_from_paths array buf fname [] mode = pure none
    lookup_from_paths array buf fname (path ∷ paths) mode = do
      r ← with_array buf (join_resolve_path array path fname)
      take_if_found mode r (lookup_from_paths array buf fname paths mode)
