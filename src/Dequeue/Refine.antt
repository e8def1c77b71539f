-- ===== src/Dequeue/Refine.antt =====
-- Any sequence of calls of dequeue.h against a list.
use libbase.Base.{some, List, [], ◌∷◌, ◌++◌, ◌≡◌, refl, ap, ◌==◌, inl, inr, Bool-cases}
use libbase.Memory.{
  Ptr, null, Heap, Cmd, pure, ◌>>=◌, ◌>>◌, Returns, Returns-and_then, write, write_self,
}
use libbase.Memory.Chain.{IsFresh, first_or, last_or, snoc-IsFresh}
use libbase.Dequeue.{Dequeue, push_front, push_back, pop}
use libbase.Dequeue.Chain.{Links, IsQueue, of_list, eq_of_list, Links-write}
use libbase.Dequeue.Push.{linked_back, push_front-of_list, push_back-of_list, Links-back}
use libbase.Dequeue.Pop.{pop-nil, pop-of_list}

pub data Op : Type 0 where
  front : Ptr → Op
  back : Ptr → Op
  take : Op

-- What the calls return: the nodes that `bs_dequeue_pop` gave, NULL for an empty queue.
unfoldable pub run : List Op → Cmd Dequeue (List Ptr)
run [] = pure []
run (front n ∷ ops) = do push_front n; run ops
run (back n ∷ ops) = do push_back n; run ops
run (take ∷ ops) = do n ← pop; ns ← run ops; pure (n ∷ ns)

-- The same calls on a list.
abbrev pub results : List Op → List Ptr → List Ptr
results [] xs = []
results (front n ∷ ops) xs = results ops (n ∷ xs)
results (back n ∷ ops) xs = results ops (xs ++ n ∷ [])
results (take ∷ ops) [] = null ∷ results ops []
results (take ∷ ops) (x ∷ xs) = x ∷ results ops xs

abbrev pub left : List Op → List Ptr → List Ptr
left [] xs = xs
left (front n ∷ ops) xs = left ops (n ∷ xs)
left (back n ∷ ops) xs = left ops (xs ++ n ∷ [])
left (take ∷ ops) [] = left ops []
left (take ∷ ops) (x ∷ xs) = left ops xs

-- Each node that is pushed is not queued at that time.
abbrev pub IsLegal : List Op → List Ptr → Type 0
IsLegal [] xs = Unit
IsLegal (front n ∷ ops) xs = IsFresh (n ∷ xs) × IsLegal ops (n ∷ xs)
IsLegal (back n ∷ ops) xs = IsFresh (n ∷ xs) × IsLegal ops (xs ++ n ∷ [])
IsLegal (take ∷ ops) [] = IsLegal ops []
IsLegal (take ∷ ops) (x ∷ xs) = IsLegal ops xs

abbrev pub IsNode : Heap Ptr → Ptr → Type 0
IsNode h p = (n : Ptr) × (h p ≡ some n)

-- Each node that is pushed is there.
abbrev pub AreNodes : Heap Ptr → List Op → Type 0
AreNodes h [] = Unit
AreNodes h (front n ∷ ops) = IsNode h n × AreNodes h ops
AreNodes h (back n ∷ ops) = IsNode h n × AreNodes h ops
AreNodes h (take ∷ ops) = AreNodes h ops

module _ (h : Heap Ptr) (p c : Ptr) where
  IsNode-write : (n : Ptr) → IsNode h n → IsNode (write h p c) n
  unfolding write
  IsNode-write n (m, e) = elim (Bool-cases (n == p)) [ inl t ↦ (c, rw t) | inr t ↦ (m, rw t e) ]

  AreNodes-write : (ops : List Op) → AreNodes h ops → AreNodes (write h p c) ops
  AreNodes-write [] a = tt
  AreNodes-write (front n ∷ ops) a = (IsNode-write n a.0, AreNodes-write ops a.1)
  AreNodes-write (back n ∷ ops) a = (IsNode-write n a.0, AreNodes-write ops a.1)
  AreNodes-write (take ∷ ops) a = AreNodes-write ops a

AreNodes-linked_back :
    (h : Heap Ptr) (xs : List Ptr) (n : Ptr) (ops : List Op)
    → AreNodes h ops
    → AreNodes (linked_back h xs n) ops
AreNodes-linked_back h [] n ops a = AreNodes-write h n null ops a
AreNodes-linked_back h (x ∷ xs) n ops a =
    AreNodes-write (write h n null) (last_or x xs) n ops (AreNodes-write h n null ops a)

-- A run on the queue of `xs` ends in the queue of what is left, and returns what the list returns.
abbrev Refines : List Op → List Ptr → List Ptr → Dequeue → Type 0
Refines ops xs out q' = (out ≡ results ops xs) × IsQueue q' (left ops xs)

run-of_list :
    (ops : List Op) (h : Heap Ptr) (xs : List Ptr)
    → IsFresh xs
    → Links h null xs
    → IsLegal ops xs
    → AreNodes h ops
    → Returns (Refines ops xs) (run ops (of_list h xs))
unfolding run
run-of_list [] h xs f l legal a = (refl, record { fresh = f; links = l; head = refl; tail = refl })
run-of_list (front n ∷ ops) h xs f l legal a = rw (push_front-of_list h n a.0.0 a.0.1 xs legal.0) (
    run-of_list ops (write h n (first_or null xs)) (n ∷ xs) legal.0
      (write_self h n (first_or null xs), Links-write h n (first_or null xs) null xs legal.0.1 l)
      legal.1 (AreNodes-write h n (first_or null xs) ops a.1))
run-of_list (back n ∷ ops) h xs f l legal a = rw (push_back-of_list h n a.0.0 a.0.1 xs legal.0 l) (
    run-of_list ops (linked_back h xs n) (xs ++ n ∷ []) (snoc-IsFresh n xs legal.0)
      (Links-back h n a.0.0 a.0.1 xs legal.0 l) legal.1 (AreNodes-linked_back h xs n ops a.1))
run-of_list (take ∷ ops) h [] f l legal a =
    rw (pop-nil (of_list h []) (record { fresh = tt; links = tt; head = refl; tail = refl })) (
      Returns-and_then _ (run ops (of_list h [])) (λ ns. pure (null ∷ ns))
        (run-of_list ops h [] tt tt legal a) (λ ns q' r. (ap (λ l. null ∷ l) r.0, r.1)))
run-of_list (take ∷ ops) h (x ∷ xs) f l legal a =
    let h1 = write h x null in
    rw (pop-of_list h x xs f l) (
      Returns-and_then _ (run ops (of_list h1 xs)) (λ ns. pure (x ∷ ns))
        (run-of_list ops h1 xs f.2 (Links-write h x null null xs f.1 l.1) legal
          (AreNodes-write h x null ops a))
        (λ ns q' r. (ap (λ l. x ∷ l) r.0, r.1)))

-- From a queue that holds `xs`, any calls of push_front, push_back and pop whose pushed nodes are
-- there and not queued when they are pushed run to the end, and pop the nodes that a list of `xs`
-- gives, NULL where it is empty; the queue then holds what is left of the list.
pub run_refines :
    (ops : List Op) (q : Dequeue) (xs : List Ptr)
    → IsQueue q xs
    → IsLegal ops xs
    → AreNodes q.nodes ops
    → Returns (λ out q'. (out ≡ results ops xs) × IsQueue q' (left ops xs)) (run ops q)
run_refines ops q xs is legal a =
    rw (eq_of_list q xs is) (run-of_list ops q.nodes xs is.fresh is.links legal a)
