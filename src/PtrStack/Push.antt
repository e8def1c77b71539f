-- ===== src/PtrStack/Push.antt =====
-- `bs_ptr_stack_push` puts an element on the stack.
use libbase.Base.{
  ℕ, ◌+◌, ◌*◌, ◌^◌, ◌≤◌, ◌<◌, true, false, ◌≡◌, ◌≢◌, refl, arith, ◌∙◌, ap, sym, ◌⊎◌, inl, inr, none,
  some, List, [], ◌∷◌, ◌++◌, append_assoc, length, length-append, ltb, leb, ==_of_ne, Option-cases,
  Bool-cases,
}
use libbase.Memory.{Ptr, null, ok, Returns}
use libbase.Block.{Realloc, IsRealloc, size_t, set-append}
use libbase.PtrStack.{PtrStack, initial_size, grow_stack, store, push}

-- A stack that holds a list, its top last, with free cells behind it.
abbrev pub stack_of : List Ptr → List Ptr → PtrStack
stack_of xs rest = record { size = length (xs ++ rest); pos = length xs; data_ptr = xs ++ rest }

abbrev pub IsStack : PtrStack → List Ptr → Type 0
IsStack s xs = (rest : List Ptr) × (s ≡ stack_of xs rest)

-- The number of bytes that the next growth asks for.
abbrev pub next_bytes : PtrStack → ℕ
next_bytes s = size_t (size_t (s.size + initial_size) * 8)

pub stack_eq :
    (c c' n n' : ℕ) (e e' : List Ptr)
    → c ≡ c'
    → n ≡ n'
    → e ≡ e'
    → (let s : PtrStack = record { size = c; pos = n; data_ptr = e } in s)
      ≡ record { size = c'; pos = n'; data_ptr = e' }
stack_eq c c' n n' e e' p q r = rw (p, q, r)

module _ (realloc : Realloc) (law : IsRealloc realloc) (xs : List Ptr) where
  grow_stack-new :
      (rest new : List Ptr)
      → length (xs ++ rest) + 1024 < 2 ^ 61
      → realloc (xs ++ rest) (next_bytes (stack_of xs rest)) ≡ some new
      → length new ≡ length (xs ++ rest) + 1024
      → (more : List Ptr) → new ≡ xs ++ rest ++ more
      → grow_stack realloc (stack_of xs rest) ≡ ok true (stack_of xs (rest ++ more))
  unfolding grow_stack
  grow_stack-new rest new lt e l more f =
      let g = f ∙ append_assoc xs rest more in
      rw e
        (ap (λ s. ok true s) (stack_eq _ _ _ _ _ _ (omega (arith, l, ap (λ x. length x) g)) refl g))

  grow_stack-none :
      (rest : List Ptr)
      → realloc (xs ++ rest) (next_bytes (stack_of xs rest)) ≡ none
      → grow_stack realloc (stack_of xs rest) ≡ ok false (stack_of xs rest)
  unfolding grow_stack
  grow_stack-none rest e = rw e

  store-append :
      (p y : Ptr) (ys : List Ptr)
      → store p (stack_of xs (y ∷ ys)) ≡ ok tt (stack_of (xs ++ p ∷ []) ys)
  unfolding store
  store-append p y ys =
      let e : ltb (length xs) (length (xs ++ y ∷ ys)) ≡ true =
        ground (arith, length-append xs (y ∷ ys)) in
      rw (e, set-append xs ys y p)
        (ap (λ s. ok tt s)
          (stack_eq _ _ _ _ _ _
            (omega (
              arith,
              length-append xs (y ∷ ys),
              length-append (xs ++ p ∷ []) ys,
              length-append xs (p ∷ []),
            ))
            (omega (arith, length-append xs (p ∷ []))) (sym (append_assoc xs (p ∷ []) ys))))

  -- What a push does once there is a free cell.
  store-free :
      (p : Ptr) (rest : List Ptr)
      → 1 ≤ length rest
      → (ys : List Ptr) × (store p (stack_of xs rest) ≡ ok tt (stack_of (xs ++ p ∷ []) ys))
  store-free p [] lt = elim lt [ ]
  store-free p (y ∷ ys) lt = (ys, store-append p y ys)

  push-stack_of :
      (p : Ptr) (rest : List Ptr)
      → p ≢ null
      → length (xs ++ rest) + 1024 < 2 ^ 61
      → Returns
          (λ s u.
            ((s ≡ true) × IsStack u (xs ++ p ∷ []))
            ⊎ ((s ≡ false)
                × (u ≡ stack_of xs rest)
                × (realloc (xs ++ rest) (next_bytes (stack_of xs rest)) ≡ none)))
          (push realloc p (stack_of xs rest))
  unfolding push
  push-stack_of p rest np lt = elim (Bool-cases (leb (length (xs ++ rest)) (length xs + 1))) [
    | inr e ↦
        let z : 1 ≤ length rest = ground (arith, length-append xs rest) in
        let (ys, g) = store-free p rest z in rw (==_of_ne p null np, e, g) (inl (refl, (ys, refl)))
    | inl e ↦ elim (Option-cases (realloc (xs ++ rest) (next_bytes (stack_of xs rest)))) [
      | inl f ↦ rw (==_of_ne p null np, e, grow_stack-none rest f) (inr (refl, refl, f))
      | inr (new, f) ↦
          let l = law (xs ++ rest) (next_bytes (stack_of xs rest)) new f (omega arith) in
          let g = grow_stack-new rest new lt f (omega (arith, l.0)) l.1 l.2 in
          let m = length-append (xs ++ rest) l.1 in
          let z : 1 ≤ length (rest ++ l.1) =
            omega (arith, length-append rest l.1, m, l.0, ap (λ x. length x) l.2) in
          let (ys, k) = store-free p (rest ++ l.1) z in
          rw (==_of_ne p null np, e, g, k) (inl (refl, (ys, refl)))
    ]
  ]

  -- For a `realloc` that keeps what a block holds, and while the next larger block has less than
  -- 2^61 elements: `bs_ptr_stack_push` of a pointer that is not NULL returns true and the pointer is
  -- on top of the stack; or `realloc` had no memory, and it returns false and changes nothing.
  pub push-append :
      (p : Ptr) (v : PtrStack)
      → IsStack v xs
      → p ≢ null
      → v.size + 1024 < 2 ^ 61
      → Returns
          (λ s u.
            ((s ≡ true) × IsStack u (xs ++ p ∷ []))
            ⊎ ((s ≡ false) × (u ≡ v) × (realloc v.data_ptr (next_bytes v) ≡ none)))
          (push realloc p v)
  push-append p v (rest, i) np lt =
      rw i (push-stack_of p rest np (omega (arith, ap (λ s. s.size) i)))
