-- ===== src/Dequeue/Push.antt =====
-- `bs_dequeue_push_front` and `bs_dequeue_push_back` on the list of nodes.
use libbase.Base.{List, [], ◌∷◌, ◌++◌, ◌≡◌, refl, some, ◌∙◌, ==_of_ne, ==_comm}
use libbase.Memory.{Ptr, null, Heap, ok, Returns, write, write_self, write_ne}
use libbase.Memory.Chain.{
  IsFresh, first_or, last_or, last_or_ne_null, last_or-append, has-last_or, ==_of_out, snoc-IsFresh,
}
use libbase.Dequeue.{Dequeue, push_front, push_back}
use libbase.Dequeue.Chain.{
  Links, IsQueue, of_list, eq_of_list, load_next-ok, set_next-ok, Links-write, Links-write_last,
  Links-append, Links-last,
}

-- The memory after a push at the back: the new node ends the list, and the old last one leads to it.
abbrev pub linked_back : Heap Ptr → List Ptr → Ptr → Heap Ptr
linked_back h [] node = write h node null
linked_back h (x ∷ xs) node = write (write h node null) (last_or x xs) node

module _ (h : Heap Ptr) (node old : Ptr) (e : h node ≡ some old) where
  pub push_front-of_list :
      (xs : List Ptr)
      → IsFresh (node ∷ xs)
      → push_front node (of_list h xs)
        ≡ ok tt (of_list (write h node (first_or null xs)) (node ∷ xs))
  unfolding push_front
  push_front-of_list [] f =
      let h1 = write h node null in
      let q1 : Dequeue = record { nodes = h1; head = node; tail = null } in
      rw (
        set_next-ok (of_list h []) node old null f.0 e,
        load_next-ok q1 node null f.0 (write_self h node null),
      )
  push_front-of_list (x ∷ xs) f = rw (
    set_next-ok (of_list h (x ∷ xs)) node old x f.0 e,
    ==_of_ne _ null (last_or_ne_null x xs f.2),
  )

  pub push_back-of_list :
      (xs : List Ptr)
      → IsFresh (node ∷ xs)
      → Links h null xs
      → push_back node (of_list h xs) ≡ ok tt (of_list (linked_back h xs node) (xs ++ node ∷ []))
  unfolding push_back
  push_back-of_list [] f l = rw (set_next-ok (of_list h []) node old null f.0 e)
  push_back-of_list (x ∷ xs) f l =
      let last = last_or x xs in
      let q1 : Dequeue = of_list (write h node null) (x ∷ xs) in
      let ne = last_or_ne_null x xs f.2 in
      let end = Links-last q1.nodes null x xs (Links-write h node null null (x ∷ xs) f.1 l) in
      rw (
        set_next-ok (of_list h (x ∷ xs)) node old null f.0 e,
        ==_of_ne last null ne,
        load_next-ok q1 last null ne end,
        set_next-ok q1 last null node ne end,
        last_or-append x xs (node ∷ []),
      )

  pub Links-back :
      (xs : List Ptr)
      → IsFresh (node ∷ xs)
      → Links h null xs
      → Links (linked_back h xs node) null (xs ++ node ∷ [])
  Links-back [] f l = (write_self h node null, tt)
  Links-back (x ∷ xs) f l =
      let h1 = write h node null in
      let last = last_or x xs in
      let out = ==_of_out last node (x ∷ xs) (has-last_or x xs) f.1 in
      Links-append _ null (x ∷ xs) (node ∷ [])
        (Links-write_last h1 node null x xs f.2 (Links-write h node null null (x ∷ xs) f.1 l))
        (write_ne h1 last node node (==_comm node last ∙ out) ∙ write_self h node null, tt)

module _ (q : Dequeue) (xs : List Ptr) (node old : Ptr) (is : IsQueue q xs) where
  -- `bs_dequeue_push_front` puts a node that is not queued in front of the queue.
  pub push_front-cons :
      IsFresh (node ∷ xs)
      → q.nodes node ≡ some old
      → Returns (λ _ q'. IsQueue q' (node ∷ xs)) (push_front node q)
  push_front-cons f e =
      rw (eq_of_list q xs is, push_front-of_list q.nodes node old e xs f)
        (record {
          fresh = f;
          links = (
            write_self q.nodes node (first_or null xs),
            Links-write q.nodes node (first_or null xs) null xs f.1 is.links,
          );
          head = refl;
          tail = refl;
        })

  -- `bs_dequeue_push_back` puts a node that is not queued behind the queue.
  pub push_back-append :
      IsFresh (node ∷ xs)
      → q.nodes node ≡ some old
      → Returns (λ _ q'. IsQueue q' (xs ++ node ∷ [])) (push_back node q)
  push_back-append f e =
      rw (eq_of_list q xs is, push_back-of_list q.nodes node old e xs f is.links)
        (record {
          fresh = snoc-IsFresh node xs f;
          links = Links-back q.nodes node old e xs f is.links;
          head = refl;
          tail = refl;
        })
