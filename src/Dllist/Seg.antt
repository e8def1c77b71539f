-- ===== src/Dllist/Seg.antt =====
-- What a `bs_dllist_t` stands for: the list of its nodes, by their links in both directions.
use libbase.Base.{List, [], ◌∷◌, ◌++◌, ◌≡◌, refl, arith, some, false, ◌≢◌, ◌∙◌, ap, sym, ==_of_ne}
use libbase.Memory.{Ptr, null, Heap, ok, write, write_self, write_ne}
use libbase.Memory.Chain.{has, IsFresh, first_or, last_or, ==_last_or, first_or-append}
use libbase.Dllist.{Node, node, Dllist, load, set_prev, set_next}

-- The nodes `xs` are linked in this order, between `p` in front of the first and `n` behind the last.
abbrev pub Seg : Heap Node → Ptr → Ptr → List Ptr → Type 0
Seg h p n [] = Unit
Seg h p n (x ∷ xs) = (h x ≡ some (node p (first_or n xs))) × Seg h x n xs

-- The node in front of the last.
abbrev pub before_last : Ptr → Ptr → List Ptr → Ptr
before_last p x [] = p
before_last p x (y ∷ ys) = before_last x y ys

module _ (h : Heap Node) where
  pub Seg-write :
      (a p n : Ptr) (c : Node) (xs : List Ptr)
      → has a xs ≡ false
      → Seg h p n xs
      → Seg (write h a c) p n xs
  Seg-write a p n c [] out s = tt
  Seg-write a p n c (x ∷ xs) out s =
      (write_ne h a x c (ground arith) ∙ s.0, Seg-write a x n c xs (ground arith) s.1)

  pub Seg-append :
      (p n : Ptr) (xs ys : List Ptr)
      → Seg h p (first_or n ys) xs
      → Seg h (last_or p xs) n ys
      → Seg h p n (xs ++ ys)
  Seg-append p n [] ys l r = r
  Seg-append p n (x ∷ xs) ys l r =
      (l.0 ∙ ap (λ q. some (node p q)) (sym (first_or-append n xs ys)), Seg-append x n xs ys l.1 r)

  pub Seg-split :
      (p n : Ptr) (xs ys : List Ptr)
      → Seg h p n (xs ++ ys)
      → Seg h p (first_or n ys) xs × Seg h (last_or p xs) n ys
  Seg-split p n [] ys s = (tt, s)
  Seg-split p n (x ∷ xs) ys s =
      let (l, r) = Seg-split x n xs ys s.1 in
      ((s.0 ∙ ap (λ q. some (node p q)) (first_or-append n xs ys), l), r)

  -- What the last node holds.
  pub Seg-last :
      (p n x : Ptr) (xs : List Ptr)
      → Seg h p n (x ∷ xs)
      → h (last_or x xs) ≡ some (node (before_last p x xs) n)
  Seg-last p n x [] s = s.0
  Seg-last p n x (y ∷ ys) s = Seg-last x n y ys s.1

-- The memory in which the node behind the list `xs`, or the one in front of it, is replaced.
abbrev pub end_at : Heap Node → Ptr → Ptr → List Ptr → Heap Node
end_at h p c [] = h
end_at h p c (x ∷ xs) = write h (last_or x xs) (node (before_last p x xs) c)

abbrev pub start_at : Heap Node → Ptr → Ptr → List Ptr → Heap Node
start_at h n c [] = h
start_at h n c (x ∷ xs) = write h x (node c (first_or n xs))

module _ (h : Heap Node) (p n c : Ptr) where
  pub Seg-start_at : (xs : List Ptr) → IsFresh xs → Seg h p n xs → Seg (start_at h n c xs) c n xs
  Seg-start_at [] f s = tt
  Seg-start_at (x ∷ xs) f s = (
    write_self h x (node c (first_or n xs)),
    Seg-write h x x n (node c (first_or n xs)) xs f.1 s.1,
  )

Seg-end_at_cons :
    (h : Heap Node) (p n c x : Ptr) (xs : List Ptr)
    → IsFresh (x ∷ xs)
    → Seg h p n (x ∷ xs)
    → Seg (end_at h p c (x ∷ xs)) p c (x ∷ xs)
Seg-end_at_cons h p n c x [] f s = (write_self h x (node p c), tt)
Seg-end_at_cons h p n c x (y ∷ ys) f s = (
  write_ne h (last_or y ys) x (node (before_last x y ys) c) (==_last_or x y ys f) ∙ s.0,
  Seg-end_at_cons h x n c y ys f.2 s.1,
)

pub Seg-end_at :
    (h : Heap Node) (p n c : Ptr) (xs : List Ptr)
    → IsFresh xs
    → Seg h p n xs
    → Seg (end_at h p c xs) p c xs
Seg-end_at h p n c [] f s = tt
Seg-end_at h p n c (x ∷ xs) f s = Seg-end_at_cons h p n c x xs f s

-- The list `xs` in memory `h`, and what it means that `d` holds it.
abbrev pub of_list : Heap Node → List Ptr → Dllist
of_list h xs = record { head = first_or null xs; tail = last_or null xs; nodes = h }

pub record IsList (d : Dllist) (xs : List Ptr) : Type 0 where
  pub fresh : IsFresh xs
  pub links : Seg d.nodes null null xs
  pub head : d.head ≡ first_or null xs
  pub tail : d.tail ≡ last_or null xs

pub eq_of_list : (d : Dllist) (xs : List Ptr) → IsList d xs → d ≡ of_list d.nodes xs
eq_of_list d xs is = λ i. record { head = is.head i; tail = is.tail i; nodes = d.nodes }

pub of_list-IsList :
    (h : Heap Node) (xs : List Ptr) → IsFresh xs → Seg h null null xs → IsList (of_list h xs) xs
of_list-IsList h xs f s = record { fresh = f; links = s; head = refl; tail = refl }

module _ (d : Dllist) (a : Ptr) (n : Node) (ne : a ≢ null) (e : d.nodes a ≡ some n) where
  pub load-ok : load a d ≡ ok n d
  unfolding load
  load-ok = rw (==_of_ne a null ne, e)

  pub set_prev-ok :
      (v : Ptr) → set_prev a v d ≡ ok tt (record d { nodes = write d.nodes a (node v n.next) })
  unfolding set_prev
  set_prev-ok v = rw load-ok

  pub set_next-ok :
      (v : Ptr) → set_next a v d ≡ ok tt (record d { nodes = write d.nodes a (node n.prev v) })
  unfolding set_next
  set_next-ok v = rw load-ok
