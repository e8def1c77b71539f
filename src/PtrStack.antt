-- ===== src/PtrStack.antt =====
-- ptr_stack.h and ptr_stack.c: a stack of pointers that grows by 1024 elements. `realloc` is a
-- parameter.
pub mod Push
pub mod Pop
mod Tests
use libbase.Base.{
  ℕ, ◌+◌, ◌-◌, ◌*◌, Bool, true, false, not, Option, none, some, List, [], length, get_elem?, set,
  ltb, leb, ◌==◌, if◌then◌else◌,
}
use libbase.Memory.{Ptr, null, ok, fault, Cmd, pure, ◌>>=◌, ◌>>◌, assert}
use libbase.Block.{Realloc, size_t}

-- `bs_ptr_stack_t`, with the block that `data_ptr` points to; no block has no cells.
pub record PtrStack : Type 0 where
  pub size : ℕ
  pub pos : ℕ
  pub data_ptr : List Ptr

-- `INITIAL_SIZE`
abbrev pub initial_size : ℕ
initial_size = 1024

abbrev pub grown : PtrStack → ℕ → Option (List Ptr) → PtrStack
grown s new_size none = s
grown s new_size (some new) = record s { size = new_size; data_ptr = new }

abbrev pub succeeded : Option (List Ptr) → Bool
succeeded none = false
succeeded (some new) = true

unfoldable pub grow_stack : Realloc → Cmd PtrStack Bool
grow_stack realloc = λ s.
    let new_size = size_t (s.size + initial_size) in
    let new = realloc s.data_ptr (size_t (new_size * 8)) in
    ok (succeeded new) (grown s new_size new)

unfoldable pub init : Realloc → Cmd PtrStack Bool
init realloc = do (λ s. ok tt (record { size = 0; pos = 0; data_ptr = [] })); grow_stack realloc

unfoldable pub fini : Cmd PtrStack (Unit {0})
fini = λ s. ok tt (record { size = 0; pos = 0; data_ptr = [] })

-- `bs_ptr_stack_destroy`, which then frees the stack.
unfoldable pub destroy : Cmd PtrStack (Unit {0})
destroy = fini

-- `bs_ptr_stack_create`, with whether there is memory for the stack; false is for NULL.
unfoldable pub create : Realloc → Bool → Cmd PtrStack Bool
create realloc false = pure false
create realloc true = do
  initialized ← init realloc
  if initialized then pure true else (do destroy; pure false)

-- `data_ptr[pos++] = elem_ptr`
unfoldable pub store : Ptr → Cmd PtrStack (Unit {0})
store p = λ s.
    if ltb s.pos (length s.data_ptr)
    then ok tt (record s { pos = s.pos + 1; data_ptr = set s.data_ptr s.pos p })
    else fault

unfoldable pub push : Realloc → Ptr → Cmd PtrStack Bool
push realloc elem_ptr = do
  assert (not (elem_ptr == null))
  success ← (λ s. (if leb s.size (s.pos + 1) then grow_stack realloc else pure true) s)
  if success then (do store elem_ptr; pure true) else pure false

-- `data_ptr[index]`
abbrev pub fetch : Option Ptr → Cmd PtrStack Ptr
fetch none = λ s. fault
fetch (some p) = pure p

unfoldable pub pop : Cmd PtrStack Ptr
pop = λ s.
    if leb s.pos 0
    then ok null s
    else fetch (get_elem? s.data_ptr (s.pos - 1)) (record s { pos = s.pos - 1 })

unfoldable pub peek : ℕ → Cmd PtrStack Ptr
peek index =
    λ s. if leb s.pos index then ok null s else fetch (get_elem? s.data_ptr (s.pos - index - 1)) s
