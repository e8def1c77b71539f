-- ===== src/PtrVector/Push.antt =====
-- `bs_ptr_vector_init` and `bs_ptr_vector_push_back`: the vector holds a list, and one element more.
use libbase.Base.{
  ℕ, suc, ◌+◌, ◌*◌, ◌^◌, ◌<◌, true, false, ◌≡◌, refl, arith, ◌∙◌, ap, sym, ◌⊎◌, inl, inr, none,
  some, List, [], ◌∷◌, ◌++◌, append_assoc, length, length-append, ltb, leb, Option-cases,
}
use libbase.Memory.{Ptr, ok, Returns}
use libbase.Block.{Realloc, IsRealloc, size_t, set-append}
use libbase.PtrVector.{PtrVector, initial_size, grow, init, reserve, store, push_back}

-- A vector that holds a list, with free cells behind it.
abbrev pub vector_of : List Ptr → List Ptr → PtrVector
vector_of xs rest = record {
  capacity = length (xs ++ rest);
  consumed = length xs;
  elements = xs ++ rest;
}

abbrev pub IsVector : PtrVector → List Ptr → Type 0
IsVector v xs = (rest : List Ptr) × (v ≡ vector_of xs rest)

-- The number of bytes that the next growth asks for.
abbrev pub next_bytes : List Ptr → ℕ
next_bytes xs = size_t (size_t (length (xs ++ []) + initial_size) * 8)

pub vector_eq :
    (c c' n n' : ℕ) (e e' : List Ptr)
    → c ≡ c'
    → n ≡ n'
    → e ≡ e'
    → (let v : PtrVector = record { capacity = c; consumed = n; elements = e } in v)
      ≡ record { capacity = c'; consumed = n'; elements = e' }
vector_eq c c' n n' e e' p q r = rw (p, q, r)

module _ (realloc : Realloc) (law : IsRealloc realloc) (xs : List Ptr) where
  grow-new :
      (new : List Ptr)
      → (length xs + 1024) * 8 < 2 ^ 64
      → realloc (xs ++ []) (next_bytes xs) ≡ some new
      → length new ≡ length xs + 1024
      → (rest : List Ptr) → new ≡ xs ++ [] ++ rest
      → (y : Ptr) × (ys : List Ptr) × (grow realloc (vector_of xs [])
          ≡ ok true (vector_of xs (y ∷ ys)))
  unfolding grow
  grow-new new lt e l [] f =
      let len = length-append xs [] in
      let len' = length-append (xs ++ []) [] in
      let z = ap (λ x. length x) f in let no : ⊥ = omega arith in elim no [ ]
  grow-new new lt e l (y ∷ ys) f =
      let len = length-append xs [] in
      (
        y,
        ys,
        rw e (
            ap (λ v. ok true v)
              (vector_eq _ _ _ _ _ _
                (omega (
                  arith,
                  ap (λ x. length x) f,
                  length-append (xs ++ []) (y ∷ ys),
                  length-append xs (y ∷ ys),
                ))
                refl (f ∙ append_assoc xs [] (y ∷ ys)))),
      )

  grow-some :
      (new : List Ptr)
      → (length xs + 1024) * 8 < 2 ^ 64
      → realloc (xs ++ []) (next_bytes xs) ≡ some new
      → (y : Ptr) × (ys : List Ptr) × (grow realloc (vector_of xs [])
          ≡ ok true (vector_of xs (y ∷ ys)))
  unfolding grow
  grow-some new lt e =
      let len = length-append xs [] in
      let l = law (xs ++ []) (next_bytes xs) new e (omega arith) in
      grow-new new lt e (omega (arith, l.0)) l.1 l.2

  reserve-free :
      (fuel : ℕ) (y : Ptr) (ys : List Ptr)
      → reserve realloc (suc fuel) (vector_of xs (y ∷ ys)) ≡ ok true (vector_of xs (y ∷ ys))
  unfolding reserve
  reserve-free fuel y ys =
      let e : leb (length (xs ++ y ∷ ys)) (length xs) ≡ false =
        ground (arith, length-append xs (y ∷ ys)) in
      rw e

  full : leb (length (xs ++ [])) (length xs) ≡ true
  full = ground (arith, length-append xs [])

  reserve-none :
      (fuel : ℕ)
      → realloc (xs ++ []) (next_bytes xs) ≡ none
      → reserve realloc (suc fuel) (vector_of xs []) ≡ ok false (vector_of xs [])
  unfolding reserve grow
  reserve-none fuel e = rw (full, e)

  reserve-grown :
      (fuel : ℕ) (y : Ptr) (ys : List Ptr)
      → grow realloc (vector_of xs []) ≡ ok true (vector_of xs (y ∷ ys))
      → reserve realloc (suc (suc fuel)) (vector_of xs []) ≡ ok true (vector_of xs (y ∷ ys))
  unfolding reserve
  reserve-grown fuel y ys g = rw (full, g) (reserve-free fuel y ys)

  store-append :
      (p y : Ptr) (ys : List Ptr)
      → store p (vector_of xs (y ∷ ys)) ≡ ok tt (vector_of (xs ++ p ∷ []) ys)
  unfolding store
  store-append p y ys =
      let e : ltb (length xs) (length (xs ++ y ∷ ys)) ≡ true =
        ground (arith, length-append xs (y ∷ ys)) in
      rw (e, set-append xs ys y p)
        (ap (λ v. ok tt v)
          (vector_eq _ _ _ _ _ _
            (omega (
              arith,
              length-append xs (y ∷ ys),
              length-append (xs ++ p ∷ []) ys,
              length-append xs (p ∷ []),
            ))
            (omega (arith, length-append xs (p ∷ []))) (sym (append_assoc xs (p ∷ []) ys))))

  push_back-vector_of :
      (fuel : ℕ) (p : Ptr) (rest : List Ptr)
      → (length xs + 1024) * 8 < 2 ^ 64
      → Returns
          (λ s u.
            ((s ≡ true) × IsVector u (xs ++ p ∷ []))
            ⊎ ((s ≡ false)
                × (u ≡ vector_of xs rest)
                × (realloc (xs ++ rest) (next_bytes xs) ≡ none)))
          (push_back realloc (suc (suc fuel)) p (vector_of xs rest))
  unfolding push_back
  push_back-vector_of fuel p (y ∷ ys) lt =
      rw (reserve-free (suc fuel) y ys, store-append p y ys) (inl (refl, (ys, refl)))
  push_back-vector_of fuel p [] lt = elim (Option-cases (realloc (xs ++ []) (next_bytes xs))) [
    | inl e ↦ rw (reserve-none (suc fuel) e) (inr (refl, refl, e))
    | inr (new, e) ↦
        let (y, ys, g) = grow-some new lt e in
        rw (reserve-grown fuel y ys g, store-append p y ys) (inl (refl, (ys, refl)))
  ]

  -- For a `realloc` that keeps what a block holds, and while the size of the next larger block is
  -- less than 2^64 bytes: `bs_ptr_vector_push_back` on a vector that holds `xs` returns true and
  -- the vector holds `xs` and `p` behind it; or `realloc` had no memory, and it returns false and
  -- changes nothing. Two rounds of its loop are enough.
  pub push_back-IsVector :
      (fuel : ℕ) (p : Ptr) (v : PtrVector)
      → IsVector v xs
      → (length xs + 1024) * 8 < 2 ^ 64
      → Returns
          (λ s u.
            ((s ≡ true) × IsVector u (xs ++ p ∷ []))
            ⊎ ((s ≡ false) × (u ≡ v) × (realloc v.elements (next_bytes xs) ≡ none)))
          (push_back realloc (suc (suc fuel)) p v)
  push_back-IsVector fuel p v (rest, i) lt = rw i (push_back-vector_of fuel p rest lt)

grow-none :
    (realloc : Realloc)
    → realloc [] (next_bytes []) ≡ none
    → grow realloc (vector_of [] []) ≡ ok false (vector_of [] [])
unfolding grow
grow-none realloc e = rw e

-- `bs_ptr_vector_init` returns true and the vector is empty, whatever it was before, also if
-- `realloc` had no memory.
pub init-IsVector :
    (realloc : Realloc) (law : IsRealloc realloc) (v : PtrVector)
    → Returns (λ s u. (s ≡ true) × IsVector u []) (init realloc v)
unfolding init
init-IsVector realloc law v = elim (Option-cases (realloc [] (next_bytes []))) [
  | inl e ↦ rw (grow-none realloc e) (refl, ([], refl))
  | inr (new, e) ↦
      let (y, ys, g) = grow-some realloc law [] new (omega arith) e in rw g (refl, (y ∷ ys, refl))
]
