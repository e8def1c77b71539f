-- ===== src/Dllist/Insert.antt =====
-- `bs_dllist_insert_node_before`.
use libbase.Base.{
  ℕ, ◌<◌, List, [], ◌∷◌, ◌++◌, ◌≡◌, some, ◌∙◌, ap, sym, arith, length, false, ◌==◌, ==_of_ne,
  ==_comm,
}
use libbase.Memory.{Ptr, null, Heap, ok, Returns, write, write_self, write_ne}
use libbase.Memory.Chain.{
  has, IsFresh, first_or, last_or, last_or_ne_null, last_or-append, has-last_or, ==_of_out,
  IsFresh-IsMiddle, has-append,
}
use libbase.Dllist.{Node, node, Dllist, insert_node_before}
use libbase.Dllist.Seg.{
  Seg, end_at, IsList, of_list, eq_of_list, of_list-IsList, Seg-write, Seg-append, Seg-last,
  Seg-end_at, Seg-split, before_last, load-ok, set_prev-ok, set_next-ok,
}
use libbase.Dllist.Push.{orphan, pushed_front, push_front-of_list, Seg-pushed_front}
use libbase.Dllist.Find.{contains-of_list}
use libbase.Dllist.Remove.{found, Seg-end_at_outside}

-- The memory with the node `p` between `xs` and `r`, if `xs` is not empty.
abbrev pub inserted : Heap Node → List Ptr → Ptr → Ptr → List Ptr → Heap Node
inserted h [] p r ys = pushed_front h (r ∷ ys) p
inserted h (x ∷ xs) p r ys =
    let last = last_or x xs in
    let linked = write (end_at h null p (x ∷ xs)) p (node last null) in
    write (write linked r (node p (first_or null ys))) p (node last r)

-- A pointer outside `xs ++ r ∷ ys` is outside the parts.
before :
    (p : Ptr) (xs : List Ptr) (r : Ptr) (ys : List Ptr)
    → has p (xs ++ r ∷ ys) ≡ false
    → has p xs ≡ false
before p xs r ys o = ground (arith, has-append p xs (r ∷ ys))

ne_middle :
    (p : Ptr) (xs : List Ptr) (r : Ptr) (ys : List Ptr)
    → has p (xs ++ r ∷ ys) ≡ false
    → (p == r) ≡ false
ne_middle p xs r ys o = ground (arith, has-append p xs (r ∷ ys))

module _ (h : Heap Node) (p r : Ptr) (e : h p ≡ some orphan) where
  insert-of_list :
      (fuel : ℕ) (xs ys : List Ptr)
      → IsFresh (p ∷ xs ++ r ∷ ys)
      → Seg h null null (xs ++ r ∷ ys)
      → length (xs ++ r ∷ ys) < fuel
      → insert_node_before fuel r p (of_list h (xs ++ r ∷ ys))
        ≡ ok tt (of_list (inserted h xs p r ys) (xs ++ p ∷ r ∷ ys))
  unfolding insert_node_before
  insert-of_list fuel [] ys f s lt =
      rw
        (
          contains-of_list h (r ∷ ys) fuel r f.2 s lt,
          found [] ys r,
          load-ok (of_list h (r ∷ ys)) p orphan f.0 e,
          load-ok (of_list h (r ∷ ys)) r (node null (first_or null ys)) f.2.0 s.0,
        )
        (push_front-of_list h p e (r ∷ ys) f s)
  insert-of_list fuel (x ∷ xs) ys f s lt =
      let mid = IsFresh-IsMiddle (x ∷ xs) r ys f.2 in
      let (l, q) = Seg-split h null null (x ∷ xs) (r ∷ ys) s in
      let last = last_or x xs in
      let ne = last_or_ne_null x xs mid.before in
      let zs = x ∷ xs ++ p ∷ r ∷ ys in
      let d = of_list h (x ∷ xs ++ r ∷ ys) in
      let n = node last (first_or null ys) in
      let m = node (before_last null x xs) p in
      let h1 = write h last m in
      let h2 = write h1 p (node last null) in
      let h3 = write h2 r (node p (first_or null ys)) in
      let p_last =
        ==_comm p last
        ∙ ==_of_out last p (x ∷ xs) (has-last_or x xs) (before p (x ∷ xs) r ys f.1) in
      let r_last = ==_comm r last ∙ ==_of_out last r (x ∷ xs) (has-last_or x xs) mid.out in
      let p_r = ne_middle p (x ∷ xs) r ys f.1 in
      let e1 = write_ne h last p m p_last ∙ e in
      let r1 = write_ne h last r m r_last ∙ q.0 in
      let r2 = write_ne h1 p r (node last null) (==_comm r p ∙ p_r) ∙ r1 in
      let e3 = write_ne h2 r p (node p (first_or null ys)) p_r ∙ write_self h1 p (node last null) in
      rw
        (
          contains-of_list h (x ∷ xs ++ r ∷ ys) fuel r f.2 s lt,
          found (x ∷ xs) ys r,
          load-ok d p orphan f.0 e,
          load-ok d r n mid.after.0 q.0,
          ==_of_ne last null ne,
          set_next-ok d last (node (before_last null x xs) r) ne (Seg-last h null r x xs l) p,
          load-ok (record d { nodes = h1 }) r n mid.after.0 r1,
          set_prev-ok (record d { nodes = h1 }) p orphan f.0 e1 last,
          set_prev-ok (record d { nodes = h2 }) r n mid.after.0 r2 p,
          set_next-ok (record d { nodes = h3 }) p (node last null) f.0 e3 r,
        )
        (ap (λ t. ok tt (record { head = x; tail = t; nodes = inserted h (x ∷ xs) p r ys }))
          (last_or-append x xs (r ∷ ys) ∙ sym (last_or-append x xs (p ∷ r ∷ ys))))

insert-IsFresh : (p : Ptr) (xs zs : List Ptr) → IsFresh (p ∷ xs ++ zs) → IsFresh (xs ++ p ∷ zs)
insert-IsFresh p [] zs f = f
insert-IsFresh p (x ∷ xs) zs f = (
  f.2.0,
  ground (arith, has-append x xs (p ∷ zs), has-append x xs zs),
  insert-IsFresh p xs zs (f.0, ground arith, f.2.2),
)

after :
    (p : Ptr) (xs : List Ptr) (r : Ptr) (ys : List Ptr)
    → has p (xs ++ r ∷ ys) ≡ false
    → has p ys ≡ false
after p xs r ys o = ground (arith, has-append p xs (r ∷ ys))

Seg-inserted :
    (h : Heap Node) (p r : Ptr) (xs ys : List Ptr)
    → h p ≡ some orphan
    → IsFresh (p ∷ xs ++ r ∷ ys)
    → Seg h null null (xs ++ r ∷ ys)
    → Seg (inserted h xs p r ys) null null (xs ++ p ∷ r ∷ ys)
Seg-inserted h p r [] ys e f s = Seg-pushed_front h p e (r ∷ ys) f s
Seg-inserted h p r (x ∷ xs) ys e f s =
    let zs = x ∷ xs in
    let mid = IsFresh-IsMiddle zs r ys f.2 in
    let (l, q) = Seg-split h null null zs (r ∷ ys) s in
    let last = last_or x xs in
    let h1 = end_at h null p zs in
    let c2 = node last null in
    let c3 = node p (first_or null ys) in
    let c4 = node last r in
    let h2 = write h1 p c2 in
    let h3 = write h2 r c3 in
    let p_zs = before p zs r ys f.1 in
    let p_ys = after p zs r ys f.1 in
    let p_r = ne_middle p zs r ys f.1 in
    let left1 = Seg-write h1 p null p c2 zs p_zs (Seg-end_at h null r p zs mid.before l) in
    let left = Seg-write h3 p null p c4 zs p_zs (Seg-write h2 r null p c3 zs mid.out left1) in
    let right1 = Seg-end_at_outside h p r null zs ys mid.apart q.1 in
    let right2 =
      Seg-write h2 r r null c3 ys mid.after.1 (Seg-write h1 p r null c2 ys p_ys right1) in
    Seg-append (write h3 p c4) null null zs (p ∷ r ∷ ys) left (
      write_self h3 p c4,
      (
        write_ne h3 p r c4 (==_comm r p ∙ p_r) ∙ write_self h2 r c3,
        Seg-write h3 p r null c4 ys p_ys right2,
      ),
    )

-- `bs_dllist_insert_node_before` puts a node of no list in front of a node of the list.
pub insert-append :
    (d : Dllist) (xs ys : List Ptr) (p r : Ptr) (fuel : ℕ)
    → IsList d (xs ++ r ∷ ys)
    → IsFresh (p ∷ xs ++ r ∷ ys)
    → d.nodes p ≡ some orphan
    → length (xs ++ r ∷ ys) < fuel
    → Returns (λ _ d'. IsList d' (xs ++ p ∷ r ∷ ys)) (insert_node_before fuel r p d)
insert-append d xs ys p r fuel is f e lt =
    rw (eq_of_list d (xs ++ r ∷ ys) is, insert-of_list d.nodes p r e fuel xs ys f is.links lt)
      (of_list-IsList _ (xs ++ p ∷ r ∷ ys) (insert-IsFresh p xs (r ∷ ys) f)
        (Seg-inserted d.nodes p r xs ys e f is.links))
