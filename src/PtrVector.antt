-- ===== src/PtrVector.antt =====
-- ptr_vector.h and ptr_vector.c: a vector of pointers that grows by 1024 elements. `realloc` is a
-- parameter.
pub mod Push
pub mod Erase
mod Tests
use libbase.Base.{
  ℕ, zero, suc, ◌+◌, ◌-◌, ◌*◌, Bool, true, false, Option, none, some, List, [], ◌++◌, length,
  get_elem?, set, take, drop, ltb, leb, if◌then◌else◌, Option-cases,
}
use libbase.Memory.{Ptr, ok, fault, out_of_fuel, Cmd, pure, ◌>>=◌, ◌>>◌, assert}
use libbase.Block.{Realloc, size_t}

-- `bs_ptr_vector_t`, with the block that `elements_ptr` points to; no block has no cells.
pub record PtrVector : Type 0 where
  pub capacity : ℕ
  pub consumed : ℕ
  pub elements : List Ptr

-- `INITIAL_SIZE`
abbrev pub initial_size : ℕ
initial_size = 1024

abbrev pub grown : PtrVector → ℕ → Option (List Ptr) → PtrVector
grown v new_size none = v
grown v new_size (some new) = record v { capacity = new_size; elements = new }

abbrev pub succeeded : Option (List Ptr) → Bool
succeeded none = false
succeeded (some new) = true

unfoldable pub grow : Realloc → Cmd PtrVector Bool
grow realloc = λ v.
    let new_size = size_t (v.capacity + initial_size) in
    let new = realloc v.elements (size_t (new_size * 8)) in
    ok (succeeded new) (grown v new_size new)

unfoldable pub init : Realloc → Cmd PtrVector Bool
init realloc = do
  (λ v. ok tt (record { capacity = 0; consumed = 0; elements = [] }))
  success ← grow realloc
  pure true

unfoldable pub fini : Cmd PtrVector (Unit {0})
fini = λ v. ok tt (record { capacity = 0; consumed = 0; elements = [] })

unfoldable pub size : Cmd PtrVector ℕ
size = λ v. ok v.consumed v

-- `elements_ptr[consumed++] = data_ptr`
unfoldable pub store : Ptr → Cmd PtrVector (Unit {0})
store p = λ v.
    if ltb v.consumed (length v.elements)
    then ok tt (record v { consumed = v.consumed + 1; elements = set v.elements v.consumed p })
    else fault

unfoldable pub reserve : Realloc → ℕ → Cmd PtrVector Bool
reserve realloc zero = λ v. out_of_fuel
reserve realloc (suc fuel) = λ v.
    if leb v.capacity v.consumed
    then (do success ← grow realloc; if success then reserve realloc fuel else pure false) v
    else ok true v

unfoldable pub push_back : Realloc → ℕ → Ptr → Cmd PtrVector Bool
push_back realloc fuel p = do
  success ← reserve realloc fuel
  if success then (do store p; pure true) else pure false

-- `memmove` of `n` cells to `pos` from the next one.
abbrev pub move_down : List Ptr → ℕ → ℕ → List Ptr
move_down cells pos n = take pos cells ++ take n (drop (pos + 1) cells) ++ drop (pos + n) cells

unfoldable pub erase : ℕ → Cmd PtrVector Bool
erase pos = λ v.
    if leb v.consumed pos
    then ok false v
    else if ltb (pos + 1) v.consumed
    then ok true (record v {
      consumed = v.consumed - 1;
      elements = move_down v.elements pos (v.consumed - pos - 1);
    })
    else ok true (record v { consumed = v.consumed - 1 })

-- `elements_ptr[pos]`
abbrev pub fetch : Option Ptr → Cmd PtrVector Ptr
fetch none = λ v. fault
fetch (some p) = pure p

unfoldable pub at : ℕ → Cmd PtrVector Ptr
at pos = do (λ v. assert (ltb pos v.consumed) v); (λ v. fetch (get_elem? v.elements pos) v)
