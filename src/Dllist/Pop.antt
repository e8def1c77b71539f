-- ===== src/Dllist/Pop.antt =====
-- `bs_dllist_pop_back` and `bs_dllist_pop_front` on the list of nodes.
use libbase.Base.{List, [], ◌∷◌, ◌++◌, ◌≡◌, refl, some, ◌∙◌, arith, ==_of_ne, ==_comm, ==_refl}
use libbase.Memory.{Ptr, null, Heap, ok, Returns, write, write_self, write_ne}
use libbase.Memory.Chain.{
  IsFresh, first_or, last_or, last_or_ne_null, last_or-append, has-last_or, ==_of_out,
  IsFresh-IsMiddle,
}
use libbase.Dllist.{Node, node, Dllist, pop_back, pop_front}
use libbase.Dllist.Seg.{
  Seg, end_at, start_at, IsList, of_list, eq_of_list, of_list-IsList, Seg-write, Seg-last,
  Seg-end_at, Seg-start_at, Seg-split, before_last, load-ok, set_prev-ok, set_next-ok,
}
use libbase.Dllist.Push.{orphan}

-- On an empty list both return NULL and change nothing.
pub pop-nil : (d : Dllist) → IsList d [] → (pop_back d ≡ ok null d) × (pop_front d ≡ ok null d)
unfolding pop_back pop_front
pop-nil d is = rw (eq_of_list d [] is) (refl, refl)

module _ (h : Heap Node) (p : Ptr) where
  pop_front-of_list :
      (xs : List Ptr)
      → IsFresh (p ∷ xs)
      → Seg h null null (p ∷ xs)
      → pop_front (of_list h (p ∷ xs))
        ≡ ok p (of_list (write (start_at h null null xs) p orphan) xs)
  unfolding pop_front
  pop_front-of_list [] f s = rw (
    ==_of_ne p null f.0,
    load-ok (of_list h (p ∷ [])) p orphan f.0 s.0,
    ==_refl p,
    set_next-ok (of_list h []) p orphan f.0 s.0 null,
  )
  pop_front-of_list (y ∷ ys) f s =
      let n = node p (first_or null ys) in
      let m = node null (first_or null ys) in
      let c = node null y in
      rw (
        ==_of_ne p null f.0,
        ==_of_ne (last_or y ys) null (last_or_ne_null y ys f.2),
        load-ok (of_list h (p ∷ y ∷ ys)) p c f.0 s.0,
        ==_of_ne y null f.2.0,
        set_prev-ok (of_list h (y ∷ ys)) y n f.2.0 s.1.0 null,
        set_next-ok (of_list (write h y m) (y ∷ ys)) p c f.0 (write_ne h y p m (ground arith) ∙ s.0)
            null,
      )

  pop_back-of_list :
      (xs : List Ptr)
      → IsFresh (xs ++ p ∷ [])
      → Seg h null null (xs ++ p ∷ [])
      → pop_back (of_list h (xs ++ p ∷ []))
        ≡ ok p (of_list (write (end_at h null null xs) p orphan) xs)
  unfolding pop_back
  pop_back-of_list [] f s = rw (
    ==_of_ne p null f.0,
    load-ok (of_list h (p ∷ [])) p orphan f.0 s.0,
    ==_refl p,
    set_prev-ok (of_list h []) p orphan f.0 s.0 null,
  )
  pop_back-of_list (x ∷ xs) f s =
      let mid = IsFresh-IsMiddle (x ∷ xs) p [] f in
      let (l, r) = Seg-split h null null (x ∷ xs) (p ∷ []) s in
      let last = last_or x xs in
      let n = node (before_last null x xs) p in
      let m = node (before_last null x xs) null in
      let ne = last_or_ne_null x xs mid.before in
      let d : Dllist = record { head = x; tail = p; nodes = h } in
      let apart = ==_comm p last ∙ ==_of_out last p (x ∷ xs) (has-last_or x xs) mid.out in
      rw (
        last_or-append x xs (p ∷ []),
        ==_of_ne p null mid.after.0,
        ==_of_ne x null mid.before.0,
        load-ok d p (node last null) mid.after.0 r.0,
        ==_of_ne last null ne,
        set_next-ok (of_list h (x ∷ xs)) last n ne (Seg-last h null p x xs l) null,
        set_prev-ok (of_list (write h last m) (x ∷ xs)) p (node last null) mid.after.0
            (write_ne h last p m apart ∙ r.0) null,
      )

-- What a pop of `p` leaves: `p` is returned, and is a node of no list; the others are linked as
-- before.
abbrev pub Popped : Ptr → List Ptr → Ptr → Dllist → Type 0
Popped p xs q d' = (q ≡ p) × IsList d' xs × (d'.nodes p ≡ some orphan)

module _ (d : Dllist) (xs : List Ptr) (p : Ptr) where
  -- `bs_dllist_pop_front` takes the first node off the list.
  pub pop_front-cons : IsList d (p ∷ xs) → Returns (Popped p xs) (pop_front d)
  pop_front-cons is =
      let f = is.fresh in
      let links = Seg-start_at d.nodes p null null xs f.2 is.links.1 in
      let h1 = start_at d.nodes null null xs in
      rw (eq_of_list d (p ∷ xs) is, pop_front-of_list d.nodes p xs f is.links)
        (
          refl,
          of_list-IsList _ xs f.2 (Seg-write h1 p null null orphan xs f.1 links),
          write_self h1 p orphan,
        )

  -- `bs_dllist_pop_back` takes the last node off the list.
  pub pop_back-append : IsList d (xs ++ p ∷ []) → Returns (Popped p xs) (pop_back d)
  pop_back-append is =
      let mid = IsFresh-IsMiddle xs p [] is.fresh in
      let h1 = end_at d.nodes null null xs in
      let (l, r) = Seg-split d.nodes null null xs (p ∷ []) is.links in
      let links = Seg-end_at d.nodes null p null xs mid.before l in
      rw (eq_of_list d (xs ++ p ∷ []) is, pop_back-of_list d.nodes p xs is.fresh is.links)
        (
          refl,
          of_list-IsList _ xs mid.before (Seg-write h1 p null null orphan xs mid.out links),
          write_self h1 p orphan,
        )
