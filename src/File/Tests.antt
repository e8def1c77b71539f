-- ===== src/File/Tests.antt =====
-- Runs of the model of file.c, and instances of its theorems.
use libbase.Base.{true, ℕ, ◌≡◌, refl, arith, Option, none, some, List, [], ◌∷◌}
use libbase.Base.Int.{pos}
use libbase.Strutil.Append.{HoldsText}
use libbase.File.Buffer.{read_buffer}
use libbase.File.Buffer.Read.{read_buffer-IsRead}
use libbase.Memory.{Returns, ok}
use libbase.Text.{Text, starts_with}
use libbase.Strutil.{memmove, put_text, strappend, startswith}
use libbase.File.{
  resolved, name_too_long, c_string, joined, resolve_path, join_resolve_path, lookup_from_paths,
}
use libbase.File.Path.{resolve_path-home, join_resolve_path-resolve_path}
use libbase.File.Lookup.{lookup_from_paths-first_accepted}

-- Every path but the empty one is real.
abbrev every_path : Text → Option Text
every_path [] = none
every_path path = some path

-- Eight bytes that were not written to.
abbrev eight : List ℕ
eight = 9 ∷ 9 ∷ 9 ∷ 9 ∷ 9 ∷ 9 ∷ 9 ∷ 9 ∷ []

-- `~/b` at home in `/a`.
resolve_path-home_example :
    Returns
      (λ r u. r ≡ resolved (47 ∷ 97 ∷ 47 ∷ 98 ∷ []))
      (resolve_path 8 (some (47 ∷ 97 ∷ [])) every_path (126 ∷ 47 ∷ 98 ∷ []) eight)
resolve_path-home_example =
    resolve_path-home 8 (47 ∷ 97 ∷ []) (98 ∷ []) every_path eight refl (omega arith) (omega arith)
      ((λ e. ground arith), ((λ e. ground arith), tt)) ((λ e. ground arith), tt)

-- `/a` and `b`
plain_path :
    Returns
      (λ r u. r ≡ resolved (47 ∷ 97 ∷ 47 ∷ 98 ∷ []))
      (resolve_path 8 none every_path (47 ∷ 97 ∷ 47 ∷ 98 ∷ []) eight)
unfolding resolve_path startswith starts_with
plain_path = refl

join_resolve_path-resolve_path_example :
    Returns
      (λ r u. r ≡ resolved (47 ∷ 97 ∷ 47 ∷ 98 ∷ []))
      (join_resolve_path 8 none every_path eight (47 ∷ 97 ∷ []) (98 ∷ []) eight)
join_resolve_path-resolve_path_example =
    join_resolve_path-resolve_path 8 none every_path eight eight (47 ∷ 97 ∷ []) (98 ∷ [])
      (resolved (47 ∷ 97 ∷ 47 ∷ 98 ∷ [])) refl (omega arith) (omega arith)
      ((λ e. ground arith), ((λ e. ground arith), tt)) ((λ e. ground arith), tt) plain_path

-- A path that takes all of an array of four bytes is cut off, and the rest of it is resolved.
abbrev four : List ℕ
four = 9 ∷ 9 ∷ 9 ∷ 9 ∷ []

join_cut_off :
    join_resolve_path 4 none every_path four (97 ∷ 98 ∷ []) (99 ∷ []) four
    ≡ ok (resolved (97 ∷ 98 ∷ 47 ∷ [])) (97 ∷ 98 ∷ 47 ∷ 0 ∷ [])
unfolding join_resolve_path joined strappend put_text memmove c_string resolve_path startswith
    starts_with
join_cut_off = refl

-- The first path is too long, the second is taken, since it has the type 4.
abbrev long_path : Text
long_path = 97 ∷ 98 ∷ 97 ∷ 98 ∷ 97 ∷ 98 ∷ []

too_long :
    Returns
      (λ x u. x ≡ name_too_long)
      (join_resolve_path 8 none every_path eight long_path (99 ∷ 99 ∷ []) eight)
unfolding join_resolve_path joined strappend put_text memmove
too_long = refl

short :
    Returns
      (λ x u. x ≡ resolved (97 ∷ 47 ∷ 99 ∷ 99 ∷ []))
      (join_resolve_path 8 none every_path eight (97 ∷ []) (99 ∷ 99 ∷ []) eight)
unfolding join_resolve_path joined strappend put_text memmove c_string resolve_path startswith
    starts_with
short = refl

lookup_from_paths-first_accepted_example :
    lookup_from_paths 8 none every_path
      (λ path. some 4)
      (λ mode. mode)
      eight
      eight
      (99 ∷ 99 ∷ [])
      (long_path ∷ (97 ∷ []) ∷ [])
      4
      tt
    ≡ ok (some (97 ∷ 47 ∷ 99 ∷ 99 ∷ [])) tt
lookup_from_paths-first_accepted_example =
    lookup_from_paths-first_accepted 8 none every_path (λ path. some 4) (λ mode. mode) eight eight
      (99 ∷ 99 ∷ []) 4 (long_path ∷ (97 ∷ []) ∷ [])
      (name_too_long ∷ resolved (97 ∷ 47 ∷ 99 ∷ 99 ∷ []) ∷ []) (too_long, (short, tt))

-- A file of two bytes.
abbrev opened : Text → Option ℕ
opened fname = some 3

abbrev two_bytes : ℕ → ℕ → Option (List ℕ)
two_bytes fd n = some (104 ∷ 105 ∷ [])

read_buffer-IsRead_example :
    Returns
      (λ n u. (n ≡ pos 2) × (true ≡ true → HoldsText u (104 ∷ 105 ∷ [])))
      (read_buffer opened (λ fd. true) two_bytes (47 ∷ []) 8 eight)
read_buffer-IsRead_example =
    read_buffer-IsRead opened (λ fd. true) two_bytes (47 ∷ []) 3 eight refl (omega arith)
      (omega arith)
