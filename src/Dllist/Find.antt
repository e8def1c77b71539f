-- ===== src/Dllist/Find.antt =====
-- The loops of dllist.c that only read: `bs_dllist_size`, `bs_dllist_empty`, `bs_dllist_find`,
-- `bs_dllist_contains` and `assert_consistency`.
use libbase.Base.{
  ℕ, zero, suc, ◌+◌, ◌<◌, Bool, true, ◌||◌, List, [], ◌∷◌, ◌≡◌, refl, arith, ◌∙◌, ap, ◌==◌,
  if◌then◌else◌, length, ==_of_ne, ==_refl, Bool-cases, inl, inr,
}
use libbase.Memory.{Ptr, null, Heap, ok, pure}
use libbase.Memory.Chain.{has, IsFresh, first_or, last_or, last_or_ne_null}
use libbase.Dllist.{
  Node, node, Dllist, size_from, size, empty, find_from, find, contains, consistent_from,
  assert_consistency,
}
use libbase.Dllist.Seg.{Seg, IsList, of_list, eq_of_list, Seg-last, load-ok, before_last}

abbrev pub first_match : (Ptr → Bool) → List Ptr → Ptr
first_match f [] = null
first_match f (x ∷ xs) = if f x then x else first_match f xs

module _ (d : Dllist) where
  size_from-length :
      (fuel : ℕ) (p : Ptr) (xs : List Ptr) (n : ℕ)
      → IsFresh xs
      → Seg d.nodes p null xs
      → length xs < fuel
      → size_from fuel (first_or null xs) n d ≡ ok (n + length xs) d
  unfolding size_from
  size_from-length zero p xs n f s lt = elim lt [ ]
  size_from-length (suc fuel) p [] n f s lt = ap (λ k. ok k d) (omega arith)
  size_from-length (suc fuel) p (x ∷ xs) n f s lt =
      rw (==_of_ne x null f.0, load-ok d x (node p (first_or null xs)) f.0 s.0)
        (size_from-length fuel x xs (n + 1) f.2 s.1 (omega arith) ∙ ap (λ k. ok k d) (omega arith))

  find_from-first_match :
      (fuel : ℕ) (g : Ptr → Bool) (p : Ptr) (xs : List Ptr)
      → IsFresh xs
      → Seg d.nodes p null xs
      → length xs < fuel
      → find_from fuel (λ q. pure (g q)) (first_or null xs) d ≡ ok (first_match g xs) d
  unfolding find_from
  find_from-first_match zero g p xs f s lt = elim lt [ ]
  find_from-first_match (suc fuel) g p [] f s lt = refl
  find_from-first_match (suc fuel) g p (x ∷ xs) f s lt = elim (Bool-cases (g x)) [
    | inl e ↦ rw (==_of_ne x null f.0, e)
    | inr e ↦
        rw (==_of_ne x null f.0, e, load-ok d x (node p (first_or null xs)) f.0 s.0)
          (find_from-first_match fuel g x xs f.2 s.1 (omega arith))
  ]

  consistent_from-ok :
      (fuel : ℕ) (p : Ptr) (xs : List Ptr)
      → IsFresh xs
      → Seg d.nodes p null xs
      → (last_or d.tail xs == d.tail) ≡ true
      → length xs < fuel
      → consistent_from fuel (first_or null xs) d ≡ ok tt d
  unfolding consistent_from
  consistent_from-ok zero p xs f s t lt = elim lt [ ]
  consistent_from-ok (suc fuel) p [] f s t lt = refl
  consistent_from-ok (suc fuel) p (x ∷ []) f s t lt =
      rw (==_of_ne x null f.0, load-ok d x (node p null) f.0 s.0, t)
        (consistent_from-ok fuel x [] tt tt (==_refl d.tail) (omega arith))
  consistent_from-ok (suc fuel) p (x ∷ y ∷ ys) f s t lt =
      rw
        (
          ==_of_ne x null f.0,
          load-ok d x (node p y) f.0 s.0,
          ==_of_ne y null f.2.0,
          load-ok d y (node x (first_or null ys)) f.2.0 s.1.0,
          ==_refl x,
        )
        (consistent_from-ok fuel x (y ∷ ys) f.2 s.1 t (omega arith))

first_match-has :
    (p : Ptr) (xs : List Ptr)
    → IsFresh xs
    → (first_match (λ q. q == p) xs == p) ≡ (p == null || has p xs)
first_match-has p [] f = ground arith
first_match-has p (x ∷ xs) f = ground (arith, first_match-has p xs)

module _ (h : Heap Node) (xs : List Ptr) (fuel : ℕ) where
  find-of_list :
      (g : Ptr → Bool)
      → IsFresh xs
      → Seg h null null xs
      → length xs < fuel
      → find fuel (λ q. pure (g q)) (of_list h xs) ≡ ok (first_match g xs) (of_list h xs)
  unfolding find
  find-of_list g f s lt = find_from-first_match (of_list h xs) fuel g null xs f s lt

  pub contains-of_list :
      (p : Ptr)
      → IsFresh xs
      → Seg h null null xs
      → length xs < fuel
      → contains fuel p (of_list h xs) ≡ ok (p == null || has p xs) (of_list h xs)
  unfolding contains
  contains-of_list p f s lt =
      rw (find-of_list (λ q. q == p) f s lt)
        (ap (λ b. ok b (of_list h xs)) (first_match-has p xs f))

  size-of_list :
      IsFresh xs
      → Seg h null null xs
      → length xs < fuel
      → size fuel (of_list h xs) ≡ ok (length xs) (of_list h xs)
  unfolding size
  size-of_list f s lt =
      size_from-length (of_list h xs) fuel null xs 0 f s lt
      ∙ ap (λ k. ok k (of_list h xs)) (omega arith)

empty-of_list :
    (h : Heap Node) (xs : List Ptr)
    → IsFresh xs
    → empty (of_list h xs) ≡ ok (length xs == 0) (of_list h xs)
unfolding empty
empty-of_list h [] f = refl
empty-of_list h (x ∷ xs) f =
    rw (==_of_ne x null f.0) (ap (λ b. ok b (of_list h (x ∷ xs))) (ground arith))

consistency-of_list :
    (h : Heap Node) (xs : List Ptr) (fuel : ℕ)
    → IsFresh xs
    → Seg h null null xs
    → length xs < fuel
    → assert_consistency fuel (of_list h xs) ≡ ok tt (of_list h xs)
unfolding assert_consistency
consistency-of_list h [] fuel f s lt = refl
consistency-of_list h (x ∷ xs) fuel f s lt =
    let d = of_list h (x ∷ xs) in
    let ne = last_or_ne_null x xs f in
    rw
      (
        ==_of_ne x null f.0,
        ==_of_ne (last_or x xs) null ne,
        load-ok d x (node null (first_or null xs)) f.0 s.0,
        load-ok d (last_or x xs) (node (before_last null x xs) null) ne
            (Seg-last h null null x xs s),
      )
      (consistent_from-ok d fuel null (x ∷ xs) f s (==_refl (last_or x xs)) lt)

module _ (d : Dllist) (xs : List Ptr) (fuel : ℕ) (is : IsList d xs)
    (enough : length xs < fuel) where
  -- `bs_dllist_size` counts the nodes, and `bs_dllist_empty` says whether there is none.
  pub size-length : (size fuel d ≡ ok (length xs) d) × (empty d ≡ ok (length xs == 0) d)
  size-length =
      rw (eq_of_list d xs is)
        (size-of_list d.nodes xs fuel is.fresh is.links enough, empty-of_list d.nodes xs is.fresh)

  -- `bs_dllist_find` returns the first node that passes a test which changes nothing, and NULL if
  -- none does.
  pub find-first_match : (g : Ptr → Bool) → find fuel (λ q. pure (g q)) d ≡ ok (first_match g xs) d
  find-first_match g =
      rw (eq_of_list d xs is) (find-of_list d.nodes xs fuel g is.fresh is.links enough)

  -- `bs_dllist_contains` says whether a pointer is a node of the list, and says so of NULL always.
  pub contains-has : (p : Ptr) → contains fuel p d ≡ ok (p == null || has p xs) d
  contains-has p =
      rw (eq_of_list d xs is) (contains-of_list d.nodes xs fuel p is.fresh is.links enough)

  -- No assertion of `assert_consistency` fails, and it changes nothing.
  pub assert_consistency-ok : assert_consistency fuel d ≡ ok tt d
  assert_consistency-ok =
      rw (eq_of_list d xs is) (consistency-of_list d.nodes xs fuel is.fresh is.links enough)
