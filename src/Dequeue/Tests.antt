-- ===== src/Dequeue/Tests.antt =====
-- The theorems about dequeue.h at concrete queues, and the scenario of `bs_dequeue_back_test`.
use libbase.Base.{List, [], ◌∷◌, ◌≡◌, refl, arith, some}
use libbase.Memory.{Ptr, null, Heap, Returns, write}
use libbase.Dequeue.{Dequeue, push_front, push_back, pop, load_next, set_next}
use libbase.Dequeue.Chain.{IsQueue}
use libbase.Dequeue.Refine.{Op, front, back, take, run, results, left, run_refines}

-- Three nodes that are not linked.
abbrev memory : Heap Ptr
memory = λ p. some null

abbrev fresh : Dequeue
fresh = record { head = null; tail = null; nodes = memory }

-- bs_dequeue_back_test, with the nodes 1, 2 and 3.
abbrev script : List Op
script =
    back 1
    ∷ back 2
    ∷ take
    ∷ take
    ∷ take
    ∷ back 1
    ∷ front 2
    ∷ back 3
    ∷ take
    ∷ take
    ∷ take
    ∷ take
    ∷ []

abbrev outcome : List Ptr
outcome = 1 ∷ 2 ∷ 0 ∷ 2 ∷ 1 ∷ 3 ∷ 0 ∷ []

back_test : Returns (λ out _. out ≡ outcome) (run script fresh)
unfolding run push_front push_back pop load_next set_next write
back_test = refl

run_refines_example :
    Returns (λ out q'. (out ≡ results script []) × IsQueue q' (left script [])) (run script fresh)
run_refines_example =
    run_refines script fresh [] (record { fresh = tt; links = tt; head = refl; tail = refl })
      (ground arith) ((0, refl), ((0, refl), ((0, refl), ((0, refl), ((0, refl), tt)))))
