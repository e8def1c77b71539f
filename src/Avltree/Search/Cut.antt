-- ===== src/Avltree/Search/Cut.antt =====
-- What a search tree promises of its nodes in order, for one key, and the search for that key in the
-- list of the nodes.
use libbase.Base.{
  Bool, true, false, ◌≡◌, refl, arith, List, [], ◌∷◌, ◌++◌, Bool-cases, inl, inr, ap, ◌∙◌,
  if◌then◌else◌,
}
use libbase.Base.Int.{
  ℤ, pos, ltb_ℤ, is_zero, negative-is_zero, positive-is_zero, positive-negative, zero-positive,
}
use libbase.Memory.{Ptr, null}

module _ {K : Type 0} (cmp : Ptr → K → ℤ) (k : K) where
  -- The node comes before, after or at the key.
  abbrev pub is_below : Ptr → Bool
  is_below p = ltb_ℤ (cmp p k) (pos 0)

  abbrev pub is_above : Ptr → Bool
  is_above p = ltb_ℤ (pos 0) (cmp p k)

  abbrev pub is_at : Ptr → Bool
  is_at p = is_zero (cmp p k)

  abbrev pub All : (Ptr → Bool) → List Ptr → Type 0
  All f [] = Unit
  All f (x ∷ xs) = (f x ≡ true) × All f xs

  -- In order, nodes before the key, at most one at the key, and nodes after it.
  abbrev pub IsCut : List Ptr → Type 0
  IsCut [] = Unit
  IsCut (x ∷ xs) = (is_below x ≡ false → All is_above xs) × IsCut xs

  -- The node at the key, or NULL.
  abbrev pub at_key : List Ptr → Ptr
  at_key [] = null
  at_key (x ∷ xs) = if is_at x then x else at_key xs

  -- The list with a node put before the first one that is not before the key.
  abbrev pub insert_sorted : Ptr → List Ptr → List Ptr
  insert_sorted n [] = n ∷ []
  insert_sorted n (x ∷ xs) = if is_below x then x ∷ insert_sorted n xs else n ∷ x ∷ xs

  All-middle : (f : Ptr → Bool) (xs ys : List Ptr) (x : Ptr) → All f (xs ++ x ∷ ys) → f x ≡ true
  All-middle f [] ys x a = a.0
  All-middle f (y ∷ xs) ys x a = All-middle f xs ys x a.1

  All-left : (f : Ptr → Bool) (xs ys : List Ptr) → All f (xs ++ ys) → All f xs
  All-left f [] ys a = tt
  All-left f (y ∷ xs) ys a = (a.0, All-left f xs ys a.1)

  pub IsCut-left : (xs ys : List Ptr) → IsCut (xs ++ ys) → IsCut xs
  IsCut-left [] ys c = tt
  IsCut-left (x ∷ xs) ys c = (λ h. All-left is_above xs ys (c.0 h), IsCut-left xs ys c.1)

  pub IsCut-right : (xs ys : List Ptr) → IsCut (xs ++ ys) → IsCut ys
  IsCut-right [] ys c = c
  IsCut-right (x ∷ xs) ys c = IsCut-right xs ys c.1

  All-below :
      (x : Ptr) (xs ys : List Ptr) → is_above x ≡ false → IsCut (xs ++ x ∷ ys) → All is_below xs
  All-below x [] ys e c = tt
  All-below x (y ∷ xs) ys e c = elim (Bool-cases (is_below y)) [
    | inl h ↦ (h, All-below x xs ys e c.1)
    | inr h ↦ (let m = All-middle is_above xs ys x (c.0 h) in ground arith)
  ]

  at_key-below : (xs ys : List Ptr) → All is_below xs → at_key (xs ++ ys) ≡ at_key ys
  at_key-below [] ys a = refl
  at_key-below (x ∷ xs) ys a = rw (negative-is_zero (cmp x k) a.0) (at_key-below xs ys a.1)

  at_key-above : (xs : List Ptr) → All is_above xs → at_key xs ≡ null
  at_key-above [] a = refl
  at_key-above (x ∷ xs) a = rw (positive-is_zero (cmp x k) a.0) (at_key-above xs a.1)

  insert_sorted-below :
      (n : Ptr) (xs ys : List Ptr)
      → All is_below xs
      → insert_sorted n (xs ++ ys) ≡ xs ++ insert_sorted n ys
  insert_sorted-below n [] ys a = refl
  insert_sorted-below n (x ∷ xs) ys a = rw (a.0) (ap (λ l. x ∷ l) (insert_sorted-below n xs ys a.1))

  -- The search and the insertion at a node: the node is at the key, the key is to its left, or to
  -- its right.
  pub at_key-at :
      (xs ys : List Ptr) (x : Ptr)
      → is_at x ≡ true
      → IsCut (xs ++ x ∷ ys)
      → at_key (xs ++ x ∷ ys) ≡ x
  at_key-at xs ys x e c =
      at_key-below xs (x ∷ ys) (All-below x xs ys (zero-positive (cmp x k) e) c) ∙ rw e

  pub at_key-left :
      (xs ys : List Ptr) (x : Ptr)
      → is_above x ≡ true
      → IsCut (xs ++ x ∷ ys)
      → at_key (xs ++ x ∷ ys) ≡ at_key xs
  at_key-left [] ys x e c =
      rw (positive-is_zero (cmp x k) e) (at_key-above ys (c.0 (positive-negative (cmp x k) e)))
  at_key-left (y ∷ xs) ys x e c = ap (λ p. if is_at y then y else p) (at_key-left xs ys x e c.1)

  pub at_key-right :
      (xs ys : List Ptr) (x : Ptr)
      → is_below x ≡ true
      → is_above x ≡ false
      → IsCut (xs ++ x ∷ ys)
      → at_key (xs ++ x ∷ ys) ≡ at_key ys
  at_key-right xs ys x e f c =
      at_key-below xs (x ∷ ys) (All-below x xs ys f c) ∙ rw (negative-is_zero (cmp x k) e)

  pub insert_sorted-left :
      (n : Ptr) (xs ys : List Ptr) (x : Ptr)
      → is_above x ≡ true
      → insert_sorted n (xs ++ x ∷ ys) ≡ insert_sorted n xs ++ x ∷ ys
  insert_sorted-left n [] ys x e = rw (positive-negative (cmp x k) e)
  insert_sorted-left n (y ∷ xs) ys x e = elim (Bool-cases (is_below y)) [
    | inl h ↦ rw h (ap (λ l. y ∷ l) (insert_sorted-left n xs ys x e))
    | inr h ↦ rw h
  ]

  pub insert_sorted-right :
      (n : Ptr) (xs ys : List Ptr) (x : Ptr)
      → is_below x ≡ true
      → is_above x ≡ false
      → IsCut (xs ++ x ∷ ys)
      → insert_sorted n (xs ++ x ∷ ys) ≡ xs ++ x ∷ insert_sorted n ys
  insert_sorted-right n xs ys x e f c =
      insert_sorted-below n xs (x ∷ ys) (All-below x xs ys f c) ∙ rw e
