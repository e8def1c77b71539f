-- ===== src/Dequeue/Chain.antt =====
-- What a `bs_dequeue_t` stands for: the list of its nodes.
use libbase.Base.{false, List, [], ◌∷◌, ◌++◌, ◌≡◌, arith, some, ◌≢◌, ◌∙◌, ap, sym, ==_of_ne}
use libbase.Memory.{Ptr, null, Heap, ok, write, write_self, write_ne}
use libbase.Memory.Chain.{has, IsFresh, first_or, last_or, ==_last_or, first_or-append}
use libbase.Dequeue.{Dequeue, load_next, set_next}

-- The `next_ptr` of each node is the one behind it, and that of the last is `n`.
abbrev pub Links : Heap Ptr → Ptr → List Ptr → Type 0
Links h n [] = Unit
Links h n (x ∷ xs) = (h x ≡ some (first_or n xs)) × Links h n xs

pub record IsQueue (q : Dequeue) (xs : List Ptr) : Type 0 where
  pub fresh : IsFresh xs
  pub links : Links q.nodes null xs
  pub head : q.head ≡ first_or null xs
  pub tail : q.tail ≡ last_or null xs

-- The queue of the nodes `xs` in memory `h`.
abbrev pub of_list : Heap Ptr → List Ptr → Dequeue
of_list h xs = record { head = first_or null xs; tail = last_or null xs; nodes = h }

pub eq_of_list : (q : Dequeue) (xs : List Ptr) → IsQueue q xs → q ≡ of_list q.nodes xs
eq_of_list q xs is = λ i. record { head = is.head i; tail = is.tail i; nodes = q.nodes }

-- Runs of one read and one write.
pub load_next-ok :
    (q : Dequeue) (p n : Ptr) → p ≢ null → q.nodes p ≡ some n → load_next p q ≡ ok n q
unfolding load_next
load_next-ok q p n ne e = rw (==_of_ne p null ne, e)

pub set_next-ok :
    (q : Dequeue) (p n c : Ptr)
    → p ≢ null
    → q.nodes p ≡ some n
    → set_next p c q ≡ ok tt (record q { nodes = write q.nodes p c })
unfolding set_next
set_next-ok q p n c ne e = rw (load_next-ok q p n ne e)

module _ (h : Heap Ptr) where
  pub Links-write :
      (a c n : Ptr) (xs : List Ptr) → has a xs ≡ false → Links h n xs → Links (write h a c) n xs
  Links-write a c n [] out l = tt
  Links-write a c n (x ∷ xs) out l =
      (write_ne h a x c (ground arith) ∙ l.0, Links-write a c n xs (ground arith) l.1)

  -- A write to the last node makes the list end in another pointer.
  pub Links-write_last :
      (c n x : Ptr) (xs : List Ptr)
      → IsFresh (x ∷ xs)
      → Links h n (x ∷ xs)
      → Links (write h (last_or x xs) c) c (x ∷ xs)
  Links-write_last c n x [] f l = (write_self h x c, tt)
  Links-write_last c n x (y ∷ ys) f l =
      (write_ne h (last_or y ys) x c (==_last_or x y ys f) ∙ l.0, Links-write_last c n y ys f.2 l.1)

  pub Links-append :
      (n : Ptr) (xs ys : List Ptr)
      → Links h (first_or n ys) xs
      → Links h n ys
      → Links h n (xs ++ ys)
  Links-append n [] ys l r = r
  Links-append n (x ∷ xs) ys l r =
      (l.0 ∙ ap some (sym (first_or-append n xs ys)), Links-append n xs ys l.1 r)

  -- What the last node holds.
  pub Links-last : (n x : Ptr) (xs : List Ptr) → Links h n (x ∷ xs) → h (last_or x xs) ≡ some n
  Links-last n x [] l = l.0
  Links-last n x (y ∷ ys) l = Links-last n y ys l.1
