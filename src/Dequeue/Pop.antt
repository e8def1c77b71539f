-- ===== src/Dequeue/Pop.antt =====
-- `bs_dequeue_pop` on the list of nodes.
use libbase.Base.{List, [], ◌∷◌, ◌≡◌, refl, some, ==_of_ne, ==_refl, ==_comm}
use libbase.Memory.{Ptr, null, Heap, ok, Returns, write, write_self}
use libbase.Memory.Chain.{IsFresh, ==_last_or}
use libbase.Dequeue.{Dequeue, pop}
use libbase.Dequeue.Chain.{
  Links, IsQueue, of_list, eq_of_list, load_next-ok, set_next-ok, Links-write,
}

-- On an empty queue `bs_dequeue_pop` returns NULL and changes nothing.
pub pop-nil : (q : Dequeue) → IsQueue q [] → pop q ≡ ok null q
unfolding pop
pop-nil q is = rw (eq_of_list q [] is)

module _ (h : Heap Ptr) (x : Ptr) where
  pub pop-of_list :
      (xs : List Ptr)
      → IsFresh (x ∷ xs)
      → Links h null (x ∷ xs)
      → pop (of_list h (x ∷ xs)) ≡ ok x (of_list (write h x null) xs)
  unfolding pop
  pop-of_list [] f l = rw (
    ==_of_ne x null f.0,
    load_next-ok (of_list h (x ∷ [])) x null f.0 l.0,
    ==_refl x,
    set_next-ok (of_list h []) x null null f.0 l.0,
  )
  pop-of_list (y ∷ ys) f l = rw (
    ==_of_ne x null f.0,
    load_next-ok (of_list h (x ∷ y ∷ ys)) x y f.0 l.0,
    ==_comm _ x,
    ==_last_or x y ys f,
    set_next-ok (of_list h (y ∷ ys)) x y null f.0 l.0,
  )

-- `bs_dequeue_pop` returns the first node, leaves the others queued, and clears its link.
pub pop-cons :
    (q : Dequeue) (x : Ptr) (xs : List Ptr)
    → IsQueue q (x ∷ xs)
    → Returns (λ node q'. (node ≡ x) × IsQueue q' xs × (q'.nodes x ≡ some null)) (pop q)
pop-cons q x xs is =
    let f = is.fresh in
    rw (eq_of_list q (x ∷ xs) is, pop-of_list q.nodes x xs f is.links)
      (
        refl,
        record {
          fresh = f.2;
          links = Links-write q.nodes x null null xs f.1 is.links.1;
          head = refl;
          tail = refl;
        },
        write_self q.nodes x null,
      )
