-- ===== src/PtrStack/Tests.antt =====
-- Runs of the model of ptr_stack.c with a `realloc` that always has memory, and instances of its
-- theorems.
use libbase.Base.{true, false, ◌≡◌, refl, arith, ◌⊎◌, none, [], ◌∷◌}
use libbase.Memory.{Returns}
use libbase.Block.Extend.{extend, extend-IsRealloc}
use libbase.PtrStack.{PtrStack, push}
use libbase.PtrStack.Push.{stack_of, IsStack, next_bytes, push-append}

abbrev two : PtrStack
two = stack_of (7 ∷ 8 ∷ []) (0 ∷ [])

two-IsStack : IsStack two (7 ∷ 8 ∷ [])
two-IsStack = (0 ∷ [], refl)

push-append_example :
    Returns
      (λ s u.
        ((s ≡ true) × IsStack u (7 ∷ 8 ∷ 9 ∷ []))
        ⊎ ((s ≡ false) × (u ≡ two) × (extend two.data_ptr (next_bytes two) ≡ none)))
      (push extend 9 two)
push-append_example =
    push-append extend extend-IsRealloc (7 ∷ 8 ∷ []) 9 two two-IsStack (λ e. ground arith)
      (omega arith)
