-- ===== src/Block.antt =====
-- Blocks of pointers that `realloc` allocates, for ptr_vector.c and ptr_stack.c. A block is the list
-- of its cells.
pub mod Extend
use libbase.Base.{
  ℕ, zero, suc, ◌+◌, ◌-◌, ◌∙◌, ◌*◌, ◌/◌, ◌%◌, ◌^◌, ◌≤◌, ◌<◌, ◌≡◌, refl, ap, arith, Option, none,
  some, List, [], ◌∷◌, ◌++◌, append_assoc, length, length-append, get_elem?, set, take, drop,
}
use libbase.Memory.{Ptr}

-- `realloc(block, bytes)`: a new block, or nothing. The cells of a new block that the old one did not have hold anything.
abbrev pub Realloc : Type 0
Realloc = List Ptr → ℕ → Option (List Ptr)

-- What the C standard says of `realloc` to a larger size: a new block has the size asked for and
-- starts with what the old one held.
abbrev pub IsRealloc : Realloc → Type 0
IsRealloc realloc =
    (old : List Ptr) (bytes : ℕ) (new : List Ptr)
    → realloc old bytes ≡ some new
    → length old * 8 ≤ bytes
    → (length new ≡ bytes / 8) × (rest : List Ptr) × (new ≡ old ++ rest)

-- `size_t` wraps around.
abbrev pub size_t : ℕ → ℕ
size_t n = n % 2 ^ 64

pub set-append : (xs ys : List Ptr) (y p : Ptr) → set (xs ++ y ∷ ys) (length xs) p ≡ xs ++ p ∷ ys
set-append [] ys y p = refl
set-append (x ∷ xs) ys y p = ap (λ l. x ∷ l) (set-append xs ys y p)

pub get_elem?-append :
    (xs ys : List Ptr) (i : ℕ) → i < length xs → get_elem? (xs ++ ys) i ≡ get_elem? xs i
get_elem?-append [] ys i lt = elim lt [ ]
get_elem?-append (x ∷ xs) ys zero lt = refl
get_elem?-append (x ∷ xs) ys (suc i) lt = get_elem?-append xs ys i (omega arith)

pub get_elem?-middle : (xs ys : List Ptr) (y : Ptr) → get_elem? (xs ++ y ∷ ys) (length xs) ≡ some y
get_elem?-middle [] ys y = refl
get_elem?-middle (x ∷ xs) ys y = get_elem?-middle xs ys y

pub take-append : (xs ys : List Ptr) → take (length xs) (xs ++ ys) ≡ xs
take-append [] ys = refl
take-append (x ∷ xs) ys = ap (λ l. x ∷ l) (take-append xs ys)

pub drop-append : (xs ys : List Ptr) → drop (length xs) (xs ++ ys) ≡ ys
drop-append [] ys = refl
drop-append (x ∷ xs) ys = drop-append xs ys

pub length-drop : (n : ℕ) (xs : List Ptr) → length (drop n xs) ≡ length xs - n
length-drop zero xs = omega arith
length-drop (suc n) [] = omega arith
length-drop (suc n) (x ∷ xs) = length-drop n xs ∙ omega arith

pub drop-suc : (xs ys : List Ptr) (y : Ptr) → drop (length xs + 1) (xs ++ y ∷ ys) ≡ ys
drop-suc [] ys y = refl
drop-suc (x ∷ xs) ys y =
    let e : suc (length xs) + 1 ≡ suc (length xs + 1) = omega arith in
    ap (λ k. drop k (x ∷ (xs ++ y ∷ ys))) e ∙ drop-suc xs ys y
