-- ===== src/Dllist/Push.antt =====
-- `bs_dllist_push_back` and `bs_dllist_push_front` on the list of nodes.
use libbase.Base.{List, [], ◌∷◌, ◌++◌, ◌≡◌, some, ◌∙◌, arith, ==_of_ne, ==_comm}
use libbase.Memory.{Ptr, null, Heap, ok, Returns, write, write_self, write_ne}
use libbase.Memory.Chain.{
  IsFresh, first_or, last_or, last_or_ne_null, last_or-append, has-last_or, ==_of_out, snoc-IsFresh,
}
use libbase.Dllist.{Node, node, Dllist, push_back, push_front}
use libbase.Dllist.Seg.{
  Seg, end_at, start_at, IsList, of_list, eq_of_list, of_list-IsList, Seg-write, Seg-append,
  Seg-last, Seg-end_at, Seg-start_at, before_last, load-ok, set_prev-ok, set_next-ok,
}

-- A node of no list.
abbrev pub orphan : Node
orphan = node null null

-- The memory after a push at either end.
abbrev pub pushed_back : Heap Node → List Ptr → Ptr → Heap Node
pushed_back h [] p = h
pushed_back h (x ∷ xs) p = end_at (write h p (node (last_or x xs) null)) null p (x ∷ xs)

abbrev pub pushed_front : Heap Node → List Ptr → Ptr → Heap Node
pushed_front h [] p = h
pushed_front h (x ∷ xs) p = start_at (write h p (node null x)) null p (x ∷ xs)

module _ (h : Heap Node) (p : Ptr) (e : h p ≡ some orphan) where
  pub push_back-of_list :
      (xs : List Ptr)
      → IsFresh (p ∷ xs)
      → Seg h null null xs
      → push_back p (of_list h xs) ≡ ok tt (of_list (pushed_back h xs p) (xs ++ p ∷ []))
  unfolding push_back
  push_back-of_list [] f s = rw (load-ok (of_list h []) p orphan f.0 e)
  push_back-of_list (x ∷ xs) f s =
      let last = last_or x xs in
      let d = of_list h (x ∷ xs) in
      let c = node last null in
      let d1 = of_list (write h p c) (x ∷ xs) in
      let ne = last_or_ne_null x xs f.2 in
      let l = node (before_last null x xs) null in
      rw (
        load-ok d p orphan f.0 e,
        ==_of_ne last null ne,
        ==_of_ne x null f.2.0,
        load-ok d last l ne (Seg-last h null null x xs s),
        set_prev-ok d p orphan f.0 e last,
        set_next-ok d1 last l ne
            (Seg-last (write h p c) null null x xs (Seg-write h p null null c (x ∷ xs) f.1 s)) p,
        last_or-append x xs (p ∷ []),
      )

  pub push_front-of_list :
      (xs : List Ptr)
      → IsFresh (p ∷ xs)
      → Seg h null null xs
      → push_front p (of_list h xs) ≡ ok tt (of_list (pushed_front h xs p) (p ∷ xs))
  unfolding push_front
  push_front-of_list [] f s = rw (load-ok (of_list h []) p orphan f.0 e)
  push_front-of_list (x ∷ xs) f s =
      let last = last_or x xs in
      let d = of_list h (x ∷ xs) in
      let d1 = of_list (write h p (node null x)) (x ∷ xs) in
      let l = node null (first_or null xs) in
      rw (
        load-ok d p orphan f.0 e,
        ==_of_ne x null f.2.0,
        ==_of_ne last null (last_or_ne_null x xs f.2),
        load-ok d x l f.2.0 s.0,
        set_next-ok d p orphan f.0 e x,
        set_prev-ok d1 x l f.2.0 (write_ne h p x (node null x) (ground arith) ∙ s.0) p,
      )

  pub Seg-pushed_back :
      (xs : List Ptr)
      → IsFresh (p ∷ xs)
      → Seg h null null xs
      → Seg (pushed_back h xs p) null null (xs ++ p ∷ [])
  Seg-pushed_back [] f s = (e, tt)
  Seg-pushed_back (x ∷ xs) f s =
      let last = last_or x xs in
      let c = node last null in
      let h1 = write h p c in
      let d = node (before_last null x xs) p in
      let out = ==_of_out last p (x ∷ xs) (has-last_or x xs) f.1 in
      Seg-append (end_at h1 null p (x ∷ xs)) null null (x ∷ xs) (p ∷ [])
        (Seg-end_at h1 null null p (x ∷ xs) f.2 (Seg-write h p null null c (x ∷ xs) f.1 s))
        (write_ne h1 last p d (==_comm p last ∙ out) ∙ write_self h p c, tt)

  pub Seg-pushed_front :
      (xs : List Ptr)
      → IsFresh (p ∷ xs)
      → Seg h null null xs
      → Seg (pushed_front h xs p) null null (p ∷ xs)
  Seg-pushed_front [] f s = (e, tt)
  Seg-pushed_front (x ∷ xs) f s =
      let c = node null x in
      let h1 = write h p c in
      (
        write_ne h1 x p (node p (first_or null xs)) (ground arith) ∙ write_self h p c,
        Seg-start_at h1 null null p (x ∷ xs) f.2 (Seg-write h p null null c (x ∷ xs) f.1 s),
      )

module _ (d : Dllist) (xs : List Ptr) (p : Ptr) (is : IsList d xs) where
  -- `bs_dllist_push_back` puts a node of no list behind the last.
  pub push_back-append :
      IsFresh (p ∷ xs)
      → d.nodes p ≡ some orphan
      → Returns (λ _ d'. IsList d' (xs ++ p ∷ [])) (push_back p d)
  push_back-append f e =
      rw (eq_of_list d xs is, push_back-of_list d.nodes p e xs f is.links)
        (of_list-IsList _ (xs ++ p ∷ []) (snoc-IsFresh p xs f)
          (Seg-pushed_back d.nodes p e xs f is.links))

  -- `bs_dllist_push_front` puts a node of no list in front of the first.
  pub push_front-cons :
      IsFresh (p ∷ xs)
      → d.nodes p ≡ some orphan
      → Returns (λ _ d'. IsList d' (p ∷ xs)) (push_front p d)
  push_front-cons f e =
      rw (eq_of_list d xs is, push_front-of_list d.nodes p e xs f is.links)
        (of_list-IsList _ (p ∷ xs) f (Seg-pushed_front d.nodes p e xs f is.links))
