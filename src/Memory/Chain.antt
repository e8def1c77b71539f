-- ===== src/Memory/Chain.antt =====
-- Lists of nodes: which pointers they are, and their first and last.
use libbase.Base.{
  Bool, true, false, ◌||◌, List, [], ◌∷◌, ◌++◌, ◌≡◌, ◌≢◌, refl, ◌∙◌, arith, ◌==◌, ==_comm,
  Bool-cases, inl, inr,
}
use libbase.Memory.{Ptr, null}

abbrev pub has : Ptr → List Ptr → Bool
has a [] = false
has a (x ∷ xs) = a == x || has a xs

-- The pointers are distinct, and none is NULL.
abbrev pub IsFresh : List Ptr → Type 0
IsFresh [] = Unit
IsFresh (x ∷ xs) = (x ≢ null) × (has x xs ≡ false) × IsFresh xs

abbrev pub first_or : Ptr → List Ptr → Ptr
first_or d [] = d
first_or d (x ∷ xs) = x

abbrev pub last_or : Ptr → List Ptr → Ptr
last_or d [] = d
last_or d (x ∷ xs) = last_or x xs

pub has-append : (a : Ptr) (xs ys : List Ptr) → has a (xs ++ ys) ≡ (has a xs || has a ys)
has-append a [] ys = refl
has-append a (x ∷ xs) ys = ground (arith, has-append a xs ys)

pub last_or-append : (d : Ptr) (xs ys : List Ptr) → last_or d (xs ++ ys) ≡ last_or (last_or d xs) ys
last_or-append d [] ys = refl
last_or-append d (x ∷ xs) ys = last_or-append x xs ys

pub first_or-append :
    (d : Ptr) (xs ys : List Ptr) → first_or d (xs ++ ys) ≡ first_or (first_or d ys) xs
first_or-append d [] ys = refl
first_or-append d (x ∷ xs) ys = refl

-- Two fresh lists with no pointer in common.
abbrev pub Apart : List Ptr → List Ptr → Type 0
Apart xs ys = (a : Ptr) → has a xs ≡ true → has a ys ≡ false

pub IsFresh-append : (xs ys : List Ptr) → IsFresh (xs ++ ys) → IsFresh xs × IsFresh ys × Apart xs ys
IsFresh-append [] ys f = (tt, f, λ a h. ground arith)
IsFresh-append (x ∷ xs) ys f =
    let (l, r, d) = IsFresh-append xs ys f.2 in
    (ground (arith, has-append x xs ys), r, λ a h. ground (arith, d a, has-append x xs ys))

pub append-IsFresh : (xs ys : List Ptr) → IsFresh xs → IsFresh ys → Apart xs ys → IsFresh (xs ++ ys)
append-IsFresh [] ys l r d = r
append-IsFresh (x ∷ xs) ys l r d =
    let rest = append-IsFresh xs ys l.2 r (λ a h. d a (ground arith)) in
    (l.0, ground (arith, has-append x xs ys, d x), rest)

-- What stands last in a list is in it, and it is not NULL.
pub has-last_or : (x : Ptr) (xs : List Ptr) → has (last_or x xs) (x ∷ xs) ≡ true
has-last_or x [] = ground arith
has-last_or x (y ∷ ys) = ground (arith, has-last_or y ys)

pub ne_null_of_has : (a : Ptr) (xs : List Ptr) → IsFresh xs → has a xs ≡ true → a ≢ null
ne_null_of_has a [] f h = ground arith
ne_null_of_has a (x ∷ xs) f h = ground (arith, ne_null_of_has a xs)

-- A pointer outside a list differs from what stands in it.
pub ==_of_out : (a b : Ptr) (xs : List Ptr) → has a xs ≡ true → has b xs ≡ false → (a == b) ≡ false
==_of_out a b [] i o = ground arith
==_of_out a b (x ∷ xs) i o = ground (arith, ==_of_out a b xs)

-- The last pointer of a longer list is not the first.
pub ==_last_or : (x y : Ptr) (ys : List Ptr) → IsFresh (x ∷ y ∷ ys) → (x == last_or y ys) ≡ false
==_last_or x y ys f =
    ==_comm x (last_or y ys) ∙ ==_of_out (last_or y ys) x (y ∷ ys) (has-last_or y ys) f.1

pub last_or_ne_null : (x : Ptr) (xs : List Ptr) → IsFresh (x ∷ xs) → last_or x xs ≢ null
last_or_ne_null x xs f = ne_null_of_has (last_or x xs) (x ∷ xs) f (has-last_or x xs)

-- A new pointer behind a list.
pub snoc-IsFresh : (a : Ptr) (xs : List Ptr) → IsFresh (a ∷ xs) → IsFresh (xs ++ a ∷ [])
snoc-IsFresh a xs f =
    append-IsFresh xs (a ∷ []) f.2 (f.0, refl, tt) (λ b i. ground (arith, ==_of_out b a xs i f.1))

pub out_of_Apart : (xs ys : List Ptr) (p : Ptr) → Apart xs ys → has p ys ≡ true → has p xs ≡ false
out_of_Apart xs ys p d i = elim (Bool-cases (has p xs)) [ inl e ↦ cc (d p e) | inr e ↦ e ]

-- A list with a pointer `p` in the middle: it is in neither part.
pub record IsMiddle (xs : List Ptr) (p : Ptr) (ys : List Ptr) : Type 0 where
  pub before : IsFresh xs
  pub after : IsFresh (p ∷ ys)
  pub apart : Apart xs ys
  pub out : has p xs ≡ false

pub IsFresh-IsMiddle :
    (xs : List Ptr) (p : Ptr) (ys : List Ptr) → IsFresh (xs ++ p ∷ ys) → IsMiddle xs p ys
IsFresh-IsMiddle xs p ys f =
    let (l, r, d) = IsFresh-append xs (p ∷ ys) f in
    record {
      before = l;
      after = r;
      apart = λ a h. ground (arith, d a h);
      out = out_of_Apart xs (p ∷ ys) p d (ground arith);
    }
