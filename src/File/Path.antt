-- ===== src/File/Path.antt =====
-- `bs_file_resolve_path` and `bs_file_join_resolve_path` of file.c.
use libbase.Base.{
  ℕ, zero, suc, ◌+◌, ◌-◌, ◌^◌, ◌≤◌, ◌<◌, true, false, ◌≡◌, ◌≢◌, refl, arith, ◌∙◌, ap, sym, subst,
  Option, some, List, [], ◌∷◌, ◌++◌, append_assoc, length, length-append, take_all, leb, ltb,
  Bool-cases, inl, inr, if◌then◌else◌,
}
use libbase.Memory.{
  Outcome, abort, fault, out_of_fuel, Returns, Returns-and_then, Returns-weaken, and_then, ok, pure,
}
use libbase.Text.{Text, starts_with}
use libbase.Strutil.{strappend, startswith}
use libbase.Strutil.Append.{HoldsText, strappend-buffer}
use libbase.File.{
  Resolved, run_in, name_too_long, c_string, joined, home_prefix, real, resolve_path,
  join_resolve_path, resolve_joined, resolve_string,
}

-- A string of C has no NUL in it.
abbrev pub IsText : Text → Type 0
IsText [] = Unit
IsText (c ∷ s) = (c ≢ 0) × IsText s

pub c_string-HoldsText : (s buf : List ℕ) → IsText s → HoldsText buf s → c_string buf ≡ some s
unfolding c_string
c_string-HoldsText [] buf t (rest, e) = ap c_string e
c_string-HoldsText (zero ∷ s) buf t (rest, e) = absurd (t.0 refl)
c_string-HoldsText (suc c ∷ s) buf t (rest, e) =
    let r = c_string-HoldsText s (s ++ 0 ∷ rest) t.1 (rest, refl) in ap c_string e ∙ rw r refl

pub IsText-append : (s t : Text) → IsText s → IsText t → IsText (s ++ t)
IsText-append [] t a b = b
IsText-append (c ∷ s) t a b = (a.0, IsText-append s t a.1 b)

-- An array with a string in it, or one that was not written to, for the empty string.
abbrev Holds : ℕ → Text → List ℕ → Type 0
Holds size s buf = (y : ℕ) × (rest : List ℕ) × (buf ≡ s ++ y ∷ rest) × (length buf ≡ size)

Holds-HoldsText : (size : ℕ) (s u : List ℕ) → HoldsText u s → length u ≡ size → Holds size s u
Holds-HoldsText size s u (rest, e) l = (0, rest, e, l)

Holds-unwritten : (size : ℕ) (buf : List ℕ) → length buf ≡ size → 0 < size → Holds size [] buf
Holds-unwritten size [] l lt = let no : ⊥ = omega arith in elim no [ ]
Holds-unwritten size (y ∷ rest) l lt = (y, rest, refl, l)

-- After something is appended: the position, and the string if it fits.
abbrev Appended : ℕ → Text → ℕ → List ℕ → Type 0
Appended size s n u = (n ≡ length s) × (length u ≡ size) × (length s < size → HoldsText u s)

append-Appended :
    (size : ℕ) (s str buf : List ℕ)
    → Holds size s buf
    → length s + length str + 1 < 2 ^ 64
    → Returns (Appended size (s ++ str)) (strappend size (length s) str buf)
append-Appended size s str buf (y, rest, e, l) small =
    let size' : length (s ++ y ∷ rest) ≡ size = ap length (sym e) ∙ l in
    let len = length-append s str in
    subst (λ b. Returns (Appended size (s ++ str)) (strappend size (length s) str b)) (sym e)
      (subst (λ z. Returns (Appended size (s ++ str)) (strappend z (length s) str (s ++ y ∷ rest)))
        size'
        (Returns-weaken (Appended size (s ++ str))
          (strappend (length (s ++ y ∷ rest)) (length s) str (s ++ y ∷ rest))
          (λ n u r. (
            r.0 ∙ sym len,
            r.1 ∙ size',
            λ lt.
                subst (HoldsText u) (take_all (length (s ++ y ∷ rest) - 1) (s ++ str) (omega arith))
                  r.2,
          ))
          (strappend-buffer s y rest str small)))

-- Nothing is appended behind the end.
append_full :
    (size pos : ℕ) (str buf : List ℕ) → size ≤ pos → strappend size pos str buf ≡ ok size buf
unfolding strappend
append_full size pos str buf le = let e : leb size pos ≡ true = ground arith in rw e refl

-- Whether the three parts fit, and the string if they do.
abbrev pub Joined : ℕ → Text → ℕ → List ℕ → Type 0
Joined size s n u =
    (length s < size → (n ≡ length s) × HoldsText u s) × (size ≤ length s → size ≤ n)

module _ (size : ℕ) (a b : Text) (small : length a + 1 + length b + 1 < 2 ^ 64) where
  whole : Text
  whole = a ++ 47 ∷ b

  whole-length : length whole ≡ length a + 1 + length b
  unfolding whole
  whole-length = omega (arith, length-append a (47 ∷ b))

  last_Joined :
      (k : ℕ) (v : List ℕ)
      → (a ++ 47 ∷ []) ++ b ≡ a ++ 47 ∷ b
      → Appended size ((a ++ 47 ∷ []) ++ b) k v
      → Joined size (a ++ 47 ∷ b) k v
  last_Joined k v all q =
      let r : Appended size (a ++ 47 ∷ b) k v = subst (λ l. Appended size l k v) all q in
      ((λ lt. (r.0, r.2 lt)), λ le. omega (arith, r.0))

  -- The last part.
  join_last :
      (n : ℕ) (u : List ℕ)
      → Appended size (a ++ 47 ∷ []) n u
      → Returns (Joined size whole) (strappend size n b u)
  unfolding whole
  join_last n u r =
      let la = length-append a (47 ∷ []) in
      let lw = length-append a (47 ∷ b) in
      let n_is : n ≡ length (a ++ 47 ∷ []) = r.0 in
      elim (Bool-cases (leb size n)) [
        | inl e ↦
            let full : size ≤ n = ground arith in
            subst (λ o. Returns (Joined size (a ++ 47 ∷ b)) o) (sym (append_full size n b u full))
              ((λ lt. let no : ⊥ = omega arith in elim no [ ]), λ le. omega arith)
        | inr e ↦
            let lt : length (a ++ 47 ∷ []) < size = ground arith in
            let all : (a ++ 47 ∷ []) ++ b ≡ a ++ 47 ∷ b = append_assoc a (47 ∷ []) b in
            subst (λ k. Returns (Joined size (a ++ 47 ∷ b)) (strappend size k b u)) (sym n_is)
              (Returns-weaken (Joined size (a ++ 47 ∷ b))
                (strappend size (length (a ++ 47 ∷ [])) b u) (λ k v q. last_Joined k v all q)
                (append-Appended size (a ++ 47 ∷ []) b u
                  (Holds-HoldsText size (a ++ 47 ∷ []) u (r.2 lt) r.1) (omega arith)))
      ]

  -- The first two parts, of which the first may already be too long.
  join_slash :
      (n : ℕ) (u : List ℕ)
      → Appended size a n u
      → Returns
          (Joined size whole)
          (and_then (strappend size n (47 ∷ []) u) (λ j. strappend size j b))
  unfolding whole
  join_slash n u r =
      let lw = length-append a (47 ∷ b) in
      let n_is : n ≡ length a = r.0 in
      elim (Bool-cases (leb size n)) [
        | inl e ↦
            let full : size ≤ n = ground arith in
            subst (λ o. Returns (Joined size (a ++ 47 ∷ b)) (and_then o (λ j. strappend size j b)))
              (sym (append_full size n (47 ∷ []) u full))
              (subst (λ o. Returns (Joined size (a ++ 47 ∷ b)) o)
                (sym (append_full size size b u (omega arith)))
                ((λ lt. let no : ⊥ = omega arith in elim no [ ]), λ le. omega arith))
        | inr e ↦
            let lt : length a < size = ground arith in
            subst
              (λ k.
                Returns (Joined size (a ++ 47 ∷ b))
                  (and_then (strappend size k (47 ∷ []) u) (λ j. strappend size j b)))
              (sym n_is)
              (Returns-and_then (Joined size (a ++ 47 ∷ b)) (strappend size (length a) (47 ∷ []) u)
                (λ j. strappend size j b)
                (append-Appended size a (47 ∷ []) u (Holds-HoldsText size a u (r.2 lt) r.1)
                  (omega arith))
                (λ k v q. join_last k v q))
      ]

  -- All three parts, in an array of any contents.
  pub joined-Joined :
      (buf : List ℕ)
      → length buf ≡ size
      → 0 < size
      → Returns (Joined size (a ++ 47 ∷ b)) (joined size a b buf)
  unfolding joined whole
  joined-Joined buf l pos =
      Returns-and_then (Joined size (a ++ 47 ∷ b)) (strappend size 0 a buf)
        (λ i. λ u. and_then (strappend size i (47 ∷ []) u) (λ j. strappend size j b))
        (append-Appended size [] a buf (Holds-unwritten size buf l pos) (omega arith))
        (λ n u r. join_slash n u r)

-- `bs_file_resolve_path` of `~/` and a path, where there is a home directory: the path behind the home
-- directory and a slash is resolved, if it is shorter than the array it is put together in, and is
-- too long otherwise.
pub resolve_path-home :
    (path_max : ℕ) (dir rest : Text) (realpath : Text → Option Text) (buf : List ℕ)
    → length buf ≡ path_max
    → 0 < path_max
    → length dir + 1 + length rest + 1 < 2 ^ 64
    → IsText dir
    → IsText rest
    → Returns
        (λ r u. r ≡ (
          if ltb (length (dir ++ 47 ∷ rest)) path_max
          then real (realpath (dir ++ 47 ∷ rest))
          else name_too_long))
        (resolve_path path_max (some dir) realpath (home_prefix ++ rest) buf)
unfolding resolve_path startswith starts_with
resolve_path-home path_max dir rest realpath buf l pos small td tr =
    let whole = dir ++ 47 ∷ rest in
    Returns-and_then
      (λ r u. r ≡ (if ltb (length whole) path_max then real (realpath whole) else name_too_long))
      (joined path_max dir rest buf)
      (λ i. if leb path_max i then pure name_too_long else λ u.
        resolve_string path_max (some dir) realpath (c_string u) u)
      (joined-Joined path_max dir rest small buf l pos)
      (λ n u r. elim (Bool-cases (ltb (length whole) path_max)) [
        | inl e ↦
            let (n_is, holds) = r.0 (ground arith) in
            let f : leb path_max n ≡ false = ground arith in
            let c =
              c_string-HoldsText whole u
                (IsText-append dir (47 ∷ rest) td ((λ g. let no : ⊥ = omega arith in no), tr))
                holds in
            rw (e, f, c) refl
        | inr e ↦
            let le : path_max ≤ n = r.1 (ground arith) in
            let f : leb path_max n ≡ true = ground arith in rw (e, f) refl
      ])

pub run_in-Returns :
    {S : Type 0} (s : S) (o : Outcome (List ℕ) Resolved) (x : Resolved)
    → Returns (λ r u. r ≡ x) o
    → Returns (λ r u. r ≡ x) (run_in s o)
run_in-Returns s (ok r u) x e = e
run_in-Returns s abort x e = e
run_in-Returns s fault x e = e
run_in-Returns s out_of_fuel x e = e

-- `bs_file_join_resolve_path` of a path and a file name that are, with a slash between them, shorter
-- than the array they are put together in does what `bs_file_resolve_path` does on them.
pub join_resolve_path-resolve_path :
    (path_max : ℕ) (home : Option Text) (realpath : Text → Option Text) (array buf : List ℕ)
    (path fname : Text) (x : Resolved)
    → length buf ≡ path_max
    → length (path ++ 47 ∷ fname) < path_max
    → path_max < 2 ^ 64
    → IsText path
    → IsText fname
    → Returns (λ r u. r ≡ x) (resolve_path path_max home realpath (path ++ 47 ∷ fname) array)
    → Returns (λ r u. r ≡ x) (join_resolve_path path_max home realpath array path fname buf)
unfolding join_resolve_path
join_resolve_path-resolve_path path_max home realpath array buf path fname x l lt small tp tf run =
    let whole = path ++ 47 ∷ fname in
    let lw = length-append path (47 ∷ fname) in
    Returns-and_then (λ r u. r ≡ x) (joined path_max path fname buf)
      (λ pos. if ltb path_max pos then pure name_too_long else λ u.
        resolve_joined path_max home realpath array (c_string u) u)
      (joined-Joined path_max path fname (omega arith) buf l (omega arith))
      (λ n u r.
        let (n_is, holds) = r.0 lt in
        let f : ltb path_max n ≡ false = ground arith in
        let c =
          c_string-HoldsText whole u
            (IsText-append path (47 ∷ fname) tp ((λ g. let no : ⊥ = omega arith in no), tf))
            holds in
        rw (f, c) (run_in-Returns u (resolve_path path_max home realpath whole array) x run))
