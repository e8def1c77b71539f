-- ===== src/Dllist/Remove.antt =====
-- `bs_dllist_remove` and `bs_dllist_insert_node_before` in the middle of a list.
use libbase.Base.{
  ℕ, ◌<◌, List, [], ◌∷◌, ◌++◌, ◌||◌, true, false, ◌≡◌, refl, some, ◌∙◌, ap, sym, arith, ◌==◌,
  length, ◌≢◌, ==_of_ne, ==_comm, ==_refl,
}
use libbase.Memory.{Ptr, null, Heap, ok, abort, Returns, write, write_self, write_ne, write-write}
use libbase.Memory.Chain.{
  has, IsFresh, first_or, last_or, last_or_ne_null, last_or-append, first_or-append, has-last_or,
  has-append, ==_of_out, IsMiddle, IsFresh-IsMiddle, append-IsFresh, Apart, out_of_Apart,
}
use libbase.Dllist.{Node, node, Dllist, unlink_left, unlink_right, remove}
use libbase.Dllist.Seg.{
  Seg, end_at, start_at, IsList, of_list, eq_of_list, of_list-IsList, Seg-write, Seg-append,
  Seg-last, Seg-end_at, Seg-start_at, Seg-split, load-ok, set_prev-ok, set_next-ok,
}
use libbase.Dllist.Push.{orphan}
use libbase.Dllist.Find.{contains-of_list, contains-has}

-- The memory without the node `p` between `xs` and `ys`.
abbrev pub removed : Heap Node → List Ptr → Ptr → List Ptr → Heap Node
removed h xs p ys =
    write (start_at (end_at h null (first_or null ys) xs) null (last_or null xs) ys) p orphan

-- A member of the list is found in it.
pub found : (xs ys : List Ptr) (p : Ptr) → (p == null || has p (xs ++ p ∷ ys)) ≡ true
found xs ys p = ground (arith, has-append p xs (p ∷ ys))

unlink_left-ok :
    (h : Heap Node) (p t : Ptr) (xs ys : List Ptr)
    → IsMiddle xs p ys
    → Seg h null p xs
    → h p ≡ some (node (last_or null xs) (first_or null ys))
    → unlink_left p (record { head = first_or p xs; tail = t; nodes = h })
      ≡ ok tt (record {
        head = first_or (first_or null ys) xs;
        tail = t;
        nodes = end_at h null (first_or null ys) xs;
      })
unfolding unlink_left
unlink_left-ok h p t [] ys mid s e =
    let d : Dllist = record { head = p; tail = t; nodes = h } in
    rw (load-ok d p (node null (first_or null ys)) mid.after.0 e, ==_refl p)
unlink_left-ok h p t (x ∷ xs) ys mid s e =
    let d : Dllist = record { head = x; tail = t; nodes = h } in
    let ne = last_or_ne_null x xs mid.before in
    rw (
      load-ok d p (node (last_or x xs) (first_or null ys)) mid.after.0 e,
      ==_of_ne (last_or x xs) null ne,
      set_next-ok d (last_or x xs) _ ne (Seg-last h null p x xs s) (first_or null ys),
    )

unlink_right-ok :
    (h : Heap Node) (p g : Ptr) (xs ys : List Ptr)
    → IsMiddle xs p ys
    → Seg h p null ys
    → h p ≡ some (node (last_or null xs) (first_or null ys))
    → unlink_right p (record { head = g; tail = last_or p ys; nodes = h })
      ≡ ok tt (record {
        head = g;
        tail = last_or (last_or null xs) ys;
        nodes = start_at h null (last_or null xs) ys;
      })
unfolding unlink_right
unlink_right-ok h p g xs [] mid s e =
    let d : Dllist = record { head = g; tail = p; nodes = h } in
    rw (load-ok d p (node (last_or null xs) null) mid.after.0 e, ==_refl p)
unlink_right-ok h p g xs (y ∷ ys) mid s e =
    let d : Dllist = record { head = g; tail = last_or y ys; nodes = h } in
    let ne = mid.after.2.0 in
    rw (
      load-ok d p (node (last_or null xs) y) mid.after.0 e,
      ==_of_ne y null ne,
      set_prev-ok d y _ ne s.0 (last_or null xs),
    )

-- Replacing the end of `xs`, or the start of `ys`, leaves a node outside alone.
pub end_at-outside :
    (h : Heap Node) (c p : Ptr) (xs : List Ptr) → has p xs ≡ false → end_at h null c xs p ≡ h p
end_at-outside h c p [] out = refl
end_at-outside h c p (x ∷ xs) out =
    write_ne h (last_or x xs) p _
      (==_comm p (last_or x xs) ∙ ==_of_out (last_or x xs) p (x ∷ xs) (has-last_or x xs) out)

pub start_at-outside :
    (h : Heap Node) (c p : Ptr) (ys : List Ptr) → has p ys ≡ false → start_at h null c ys p ≡ h p
start_at-outside h c p [] out = refl
start_at-outside h c p (y ∷ ys) out = write_ne h y p _ (ground arith)

pub Seg-end_at_outside :
    (h : Heap Node) (c q n : Ptr) (xs ys : List Ptr)
    → Apart xs ys
    → Seg h q n ys
    → Seg (end_at h null c xs) q n ys
Seg-end_at_outside h c q n [] ys d s = s
Seg-end_at_outside h c q n (x ∷ xs) ys d s =
    Seg-write h (last_or x xs) q n _ ys (d (last_or x xs) (has-last_or x xs)) s

Seg-start_at_outside :
    (h : Heap Node) (c q n : Ptr) (xs ys : List Ptr)
    → Apart xs ys
    → Seg h q n xs
    → Seg (start_at h null c ys) q n xs
Seg-start_at_outside h c q n xs [] d s = s
Seg-start_at_outside h c q n xs (y ∷ ys) d s =
    Seg-write h y q n _ xs (out_of_Apart xs (y ∷ ys) y d (ground arith)) s

module _ (h : Heap Node) (p : Ptr) (xs ys : List Ptr) (f : IsFresh (xs ++ p ∷ ys)) where
  mid : IsMiddle xs p ys
  mid = IsFresh-IsMiddle xs p ys f

  split_list :
      of_list h (xs ++ p ∷ ys) ≡ record { head = first_or p xs; tail = last_or p ys; nodes = h }
  split_list = λ i. record {
    head = first_or-append null xs (p ∷ ys) i;
    tail = last_or-append null xs (p ∷ ys) i;
    nodes = h;
  }

  join_list :
      (g : Heap Node)
      → record {
        head = first_or (first_or null ys) xs;
        tail = last_or (last_or null xs) ys;
        nodes = g;
      }
        ≡ of_list g (xs ++ ys)
  join_list g = λ i. record {
    head = sym (first_or-append null xs ys) i;
    tail = sym (last_or-append null xs ys) i;
    nodes = g;
  }

  module _ (s : Seg h null null (xs ++ p ∷ ys)) where
    pub remove-of_list :
        (fuel : ℕ)
        → length (xs ++ p ∷ ys) < fuel
        → remove fuel p (of_list h (xs ++ p ∷ ys)) ≡ ok tt (of_list (removed h xs p ys) (xs ++ ys))
    unfolding remove
    remove-of_list fuel lt =
        let (l, r) = Seg-split h null null xs (p ∷ ys) s in
        let a = last_or null xs in
        let b = first_or null ys in
        let h1 = end_at h null b xs in
        let h2 = start_at h1 null a ys in
        let e1 = end_at-outside h b p xs mid.out ∙ r.0 in
        let e2 = start_at-outside h1 a p ys mid.after.1 ∙ e1 in
        let d2 : Dllist = record { head = first_or b xs; tail = last_or a ys; nodes = h2 } in
        let d3 : Dllist = record d2 { nodes = write h2 p (node null b) } in
        rw
          (
            contains-of_list h (xs ++ p ∷ ys) fuel p f s lt,
            found xs ys p,
            split_list,
            unlink_left-ok h p (last_or p ys) xs ys mid l r.0,
            unlink_right-ok h1 p (first_or b xs) xs ys mid
                (Seg-end_at_outside h b p null xs ys mid.apart r.1) e1,
            set_prev-ok d2 p (node a b) mid.after.0 e2 null,
            set_next-ok d3 p (node null b) mid.after.0 (write_self h2 p (node null b)) null,
            write-write h2 p (node null b) orphan,
          )
          (ap (ok tt) (join_list (removed h xs p ys)))

    pub removed-IsList : IsList (of_list (removed h xs p ys) (xs ++ ys)) (xs ++ ys)
    removed-IsList =
        let (l, r) = Seg-split h null null xs (p ∷ ys) s in
        let a = last_or null xs in
        let b = first_or null ys in
        let h1 = end_at h null b xs in
        let h2 = start_at h1 null a ys in
        let left =
          Seg-start_at_outside h1 a null b xs ys mid.apart
            (Seg-end_at h null p b xs mid.before l) in
        let right =
          Seg-start_at h1 p null a ys mid.after.2
            (Seg-end_at_outside h b p null xs ys mid.apart r.1) in
        of_list-IsList (removed h xs p ys) (xs ++ ys)
          (append-IsFresh xs ys mid.before mid.after.2 mid.apart)
          (Seg-append (removed h xs p ys) null null xs ys
            (Seg-write h2 p null b orphan xs mid.out left)
            (Seg-write h2 p a null orphan ys mid.after.1 right))

-- `bs_dllist_remove` of a node of the list takes it off, links its neighbours with one another, and
-- leaves it a node of no list.
pub remove-append :
    (d : Dllist) (xs ys : List Ptr) (p : Ptr) (fuel : ℕ)
    → IsList d (xs ++ p ∷ ys)
    → length (xs ++ p ∷ ys) < fuel
    → Returns (λ _ d'. IsList d' (xs ++ ys) × (d'.nodes p ≡ some orphan)) (remove fuel p d)
remove-append d xs ys p fuel is lt =
    rw (eq_of_list d (xs ++ p ∷ ys) is, remove-of_list d.nodes p xs ys is.fresh is.links fuel lt)
      (removed-IsList d.nodes p xs ys is.fresh is.links, write_self _ p orphan)

-- A pointer that is no node of the list fails the assertion of `bs_dllist_remove`.
pub remove-abort :
    (d : Dllist) (xs : List Ptr) (p : Ptr) (fuel : ℕ)
    → IsList d xs
    → length xs < fuel
    → p ≢ null
    → has p xs ≡ false
    → remove fuel p d ≡ abort
unfolding remove
remove-abort d xs p fuel is lt ne out = rw (contains-has d xs fuel is lt p, ==_of_ne p null ne, out)
