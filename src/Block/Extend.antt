-- ===== src/Block/Extend.antt =====
-- A `realloc` that always has memory, for the instances of theorems that take one.
use libbase.Base.{
  ℕ, zero, suc, ◌-◌, ◌/◌, ◌≡◌, refl, sym, arith, ◌∙◌, ap, Option, none, some, List, [], ◌∷◌, ◌++◌,
  length, length-append,
}
use libbase.Memory.{Ptr}
use libbase.Block.{Realloc, IsRealloc}

abbrev zeros : ℕ → List Ptr
zeros zero = []
zeros (suc n) = 0 ∷ zeros n

length-zeros : (n : ℕ) → length (zeros n) ≡ n
length-zeros zero = refl
length-zeros (suc n) = ap suc (length-zeros n)

abbrev contents : Option (List Ptr) → List Ptr
contents none = []
contents (some new) = new

-- More memory, with NULL in the new cells.
abbrev pub extend : Realloc
extend old bytes = some (old ++ zeros (bytes / 8 - length old))

pub extend-IsRealloc : IsRealloc extend
extend-IsRealloc old bytes new e le =
    let more = zeros (bytes / 8 - length old) in
    let f = ap contents e in
    let n : length (old ++ more) ≡ bytes / 8 =
      omega (arith, length-append old more, length-zeros (bytes / 8 - length old)) in
    (ap (λ x. length x) (sym f) ∙ n, more, sym f)
