-- ===== src/PtrStack/Pop.antt =====
-- `bs_ptr_stack_pop` and `bs_ptr_stack_peek` take and read elements from the top.
use libbase.Base.{
  ℕ, ◌-◌, ◌≤◌, true, false, ◌≡◌, refl, arith, List, [], ◌∷◌, ◌++◌, append_assoc, length,
  length-append, leb,
}
use libbase.Memory.{Ptr, null, ok, Returns}
use libbase.Block.{get_elem?-middle}
use libbase.PtrStack.{PtrStack, pop, peek}
use libbase.PtrStack.Push.{IsStack}

-- `bs_ptr_stack_pop` returns the top of the stack, and the stack holds what is below it.
pub pop-append :
    (xs : List Ptr) (x : Ptr) (v : PtrStack)
    → IsStack v (xs ++ x ∷ [])
    → Returns (λ p u. (p ≡ x) × IsStack u xs) (pop v)
unfolding pop
pop-append xs x v (rest, i) =
    let n = length-append xs (x ∷ []) in
    let e : leb (length (xs ++ x ∷ [])) 0 ≡ false = ground arith in
    let m : length (xs ++ x ∷ []) - 1 ≡ length xs = omega arith in
    let a = append_assoc xs (x ∷ []) rest in
    rw (i, e, m, a, get_elem?-middle xs rest x) (refl, (x ∷ rest, refl))

-- `bs_ptr_stack_peek` returns the element that `index` others are on top of, and changes nothing.
pub peek-append :
    (xs ys : List Ptr) (x : Ptr) (v : PtrStack)
    → IsStack v (xs ++ x ∷ ys)
    → peek (length ys) v ≡ ok x v
unfolding peek
peek-append xs ys x v (rest, i) =
    let n = length-append xs (x ∷ ys) in
    let e : leb (length (xs ++ x ∷ ys)) (length ys) ≡ false = ground arith in
    let m : length (xs ++ x ∷ ys) - length ys - 1 ≡ length xs = omega arith in
    rw (i, e, m, append_assoc xs (x ∷ ys) rest, get_elem?-middle xs (ys ++ rest) x)

-- `bs_ptr_stack_peek` returns NULL if the stack has not more than `index` elements, and so does
-- `bs_ptr_stack_pop` if it has none; the stack stays as it is.
pub peek-outside :
    (xs : List Ptr) (index : ℕ) (v w : PtrStack)
    → IsStack v xs
    → IsStack w []
    → length xs ≤ index
    → (peek index v ≡ ok null v) × (pop w ≡ ok null w)
unfolding peek pop
peek-outside xs index v w (rest, i) (more, j) le =
    let e : leb (length xs) index ≡ true = ground arith in (rw (i, e), rw j)
