-- ===== src/PtrVector/Erase.antt =====
-- `bs_ptr_vector_erase`, `bs_ptr_vector_at` and `bs_ptr_vector_size` on the list that a vector holds.
use libbase.Base.{
  ℕ, ◌+◌, ◌-◌, ◌≤◌, true, false, ◌≡◌, refl, arith, ◌∙◌, ap, sym, List, [], ◌∷◌, ◌++◌, append_assoc,
  append-nil, length, length-append, drop, ltb, leb,
}
use libbase.Memory.{Ptr, ok, abort, Returns}
use libbase.Block.{take-append, drop-suc, length-drop, get_elem?-middle}
use libbase.PtrVector.{PtrVector, move_down, erase, at, size}
use libbase.PtrVector.Push.{vector_of, IsVector, vector_eq}

module _ (xs ys rest : List Ptr) (x : Ptr) where
  abbrev left_over : List Ptr
  left_over = drop (length xs + length ys) (xs ++ x ∷ (ys ++ rest))

  move_down-middle :
      move_down (xs ++ x ∷ (ys ++ rest)) (length xs) (length ys) ≡ xs ++ ys ++ left_over
  move_down-middle =
      rw (take-append xs (x ∷ (ys ++ rest)), drop-suc xs (ys ++ rest) x, take-append ys rest) refl

  consumed_less : length (xs ++ x ∷ ys) - 1 ≡ length (xs ++ ys)
  consumed_less = omega (arith, length-append xs (x ∷ ys), length-append xs ys)

  erase-last :
      ys ≡ []
      → Returns
          (λ s u. (s ≡ true) × IsVector u (xs ++ ys))
          (erase (length xs) (vector_of (xs ++ x ∷ ys) rest))
  unfolding erase
  erase-last z =
      let n = length-append xs (x ∷ ys) in
      let l = ap (λ k. length k) z in
      let e : leb (length (xs ++ x ∷ ys)) (length xs) ≡ false = ground arith in
      let f : ltb (length xs + 1) (length (xs ++ x ∷ ys)) ≡ false = ground arith in
      let b : xs ++ x ∷ ys ++ rest ≡ xs ++ ys ++ x ∷ rest =
        rw z (append_assoc xs (x ∷ []) rest ∙ ap (λ l. l ++ x ∷ rest) (sym (append-nil xs))) in
      rw (e, f) (refl, (x ∷ rest, vector_eq _ _ _ _ _ _ (ap (λ l. length l) b) consumed_less b))

  erase-inner :
      1 ≤ length ys
      → Returns
          (λ s u. (s ≡ true) × IsVector u (xs ++ ys))
          (erase (length xs) (vector_of (xs ++ x ∷ ys) rest))
  unfolding erase
  erase-inner z =
      let all = xs ++ x ∷ (ys ++ rest) in
      let c : length all ≡ length (xs ++ ys ++ left_over) = omega (
        arith,
        length-append xs (x ∷ (ys ++ rest)),
        length-append ys rest,
        length-append (xs ++ ys) left_over,
        length-append xs ys,
        length-drop (length xs + length ys) all,
      ) in
      let n = length-append xs (x ∷ ys) in
      let e : leb (length (xs ++ x ∷ ys)) (length xs) ≡ false = ground arith in
      let f : ltb (length xs + 1) (length (xs ++ x ∷ ys)) ≡ true = ground arith in
      let m : length (xs ++ x ∷ ys) - length xs - 1 ≡ length ys = omega arith in
      rw (e, f, m, append_assoc xs (x ∷ ys) rest, move_down-middle)
        (refl, (left_over, vector_eq _ _ _ _ _ _ c consumed_less refl))

  by_length :
      (zs : List Ptr)
      → ys ≡ zs
      → Returns
          (λ s u. (s ≡ true) × IsVector u (xs ++ ys))
          (erase (length xs) (vector_of (xs ++ x ∷ ys) rest))
  by_length [] e = erase-last e
  by_length (z ∷ zs) e = erase-inner (omega (arith, ap (λ l. length l) e))

  erase-middle :
      Returns
        (λ s u. (s ≡ true) × IsVector u (xs ++ ys))
        (erase (length xs) (vector_of (xs ++ x ∷ ys) rest))
  erase-middle = by_length ys refl

  at-middle : at (length xs) (vector_of (xs ++ x ∷ ys) rest) ≡ ok x (vector_of (xs ++ x ∷ ys) rest)
  unfolding at
  at-middle =
      let e : ltb (length xs) (length (xs ++ x ∷ ys)) ≡ true =
        ground (arith, length-append xs (x ∷ ys)) in
      rw (e, append_assoc xs (x ∷ ys) rest, get_elem?-middle xs (ys ++ rest) x)

-- `bs_ptr_vector_erase` at a position of the vector returns true and takes the element there, and
-- no other, out of the list that the vector holds.
pub erase-append :
    (xs ys : List Ptr) (x : Ptr) (v : PtrVector)
    → IsVector v (xs ++ x ∷ ys)
    → Returns (λ s u. (s ≡ true) × IsVector u (xs ++ ys)) (erase (length xs) v)
erase-append xs ys x v (rest, i) = rw i (erase-middle xs ys rest x)

-- `bs_ptr_vector_at` returns the element at a position of the vector, and changes nothing.
pub at-append :
    (xs ys : List Ptr) (x : Ptr) (v : PtrVector)
    → IsVector v (xs ++ x ∷ ys)
    → at (length xs) v ≡ ok x v
at-append xs ys x v (rest, i) = rw i (at-middle xs ys rest x)

-- Behind the end of the vector, `bs_ptr_vector_erase` returns false and changes nothing, and
-- `bs_ptr_vector_at` fails its assertion. The end is what `bs_ptr_vector_size` returns.
pub erase-outside :
    (xs : List Ptr) (pos : ℕ) (v : PtrVector)
    → IsVector v xs
    → length xs ≤ pos
    → (size v ≡ ok (length xs) v) × (erase pos v ≡ ok false v) × (at pos v ≡ abort)
unfolding erase at size
erase-outside xs pos v (rest, i) le =
    let e : leb (length xs) pos ≡ true = ground arith in
    let f : ltb pos (length xs) ≡ false = ground arith in rw (i, e, f) (refl, refl, refl)
