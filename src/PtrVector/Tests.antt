-- ===== src/PtrVector/Tests.antt =====
-- Instances of the theorems on ptr_vector.c, with a `realloc` that always has memory.
use libbase.Base.{true, false, ◌≡◌, refl, arith, ◌⊎◌, none, [], ◌∷◌}
use libbase.Memory.{Returns}
use libbase.Block.Extend.{extend, extend-IsRealloc}
use libbase.PtrVector.{PtrVector, push_back, erase}
use libbase.PtrVector.Push.{vector_of, IsVector, next_bytes, push_back-IsVector}
use libbase.PtrVector.Erase.{erase-append}

-- A vector without a free cell.
abbrev three : PtrVector
three = vector_of (7 ∷ 8 ∷ 9 ∷ []) []

three-IsVector : IsVector three (7 ∷ 8 ∷ 9 ∷ [])
three-IsVector = ([], refl)

push_back-IsVector_example :
    Returns
      (λ s u.
        ((s ≡ true) × IsVector u (7 ∷ 8 ∷ 9 ∷ 5 ∷ []))
        ⊎ ((s ≡ false)
            × (u ≡ three)
            × (extend three.elements (next_bytes (7 ∷ 8 ∷ 9 ∷ [])) ≡ none)))
      (push_back extend 2 5 three)
push_back-IsVector_example =
    push_back-IsVector extend extend-IsRealloc (7 ∷ 8 ∷ 9 ∷ []) 0 5 three three-IsVector
      (omega arith)

erase-append_example : Returns (λ s u. (s ≡ true) × IsVector u (7 ∷ 9 ∷ [])) (erase 1 three)
erase-append_example = erase-append (7 ∷ []) (9 ∷ []) 8 three three-IsVector
