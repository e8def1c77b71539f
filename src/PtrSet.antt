-- ===== src/PtrSet.antt =====
-- ptr_set.c and ptr_set.h: a set of pointers, in an AVL tree. `avlnode` is the first member of a
-- holder, which therefore has the address of its node.
pub mod Compare
pub mod Elements
pub mod Holder
pub mod Calls
pub mod Any
pub mod Inserted
mod Tests
use libbase.Base.{
  ℕ, ◌+◌, ◌-◌, ◌%◌, ◌^◌, Bool, true, false, not, [], Option, none, some, ◌==◌, if◌then◌else◌,
}
use libbase.Base.Int.{ℤ, pos, int32}
use libbase.Memory.{
  Ptr, null, Outcome, ok, abort, fault, out_of_fuel, Cmd, pure, ◌>>=◌, ◌>>◌, when, update,
}
use libbase.Avltree.{Avltree, alive}
use libbase.Avltree.Search.{lookup, min, size}
use libbase.Avltree.Insert.{insert as tree_insert}
use libbase.Avltree.Delete.{delete}
use libbase.Avltree.Life.{Nodes, create as tree_create, destroy as tree_destroy}

-- `bs_ptr_set_t`, with its tree and the elements that the holders have.
pub record PtrSet : Type 0 where
  pub tree : Avltree
  pub elem : Ptr → ℕ

-- The difference of two `size_t`, returned as an `int`.
unfoldable pub elem_compare : (Ptr → ℕ) → Ptr → ℕ → ℤ
elem_compare elem node key = int32 (pos ((key + (2 ^ 64 - elem node)) % 2 ^ 64))

-- A call for the tree of the set.
abbrev pub with_tree : {A : Type 0} → Outcome Avltree A → (Ptr → ℕ) → Outcome PtrSet A
with_tree (ok a t) elem = ok a (record { tree = t; elem = elem })
with_tree abort elem = abort
with_tree fault elem = fault
with_tree out_of_fuel elem = out_of_fuel

abbrev pub on_tree : {A : Type 0} → ((Ptr → ℕ → ℤ) → Cmd Avltree A) → Cmd PtrSet A
on_tree m = λ s. with_tree (m (elem_compare s.elem) s.tree) s.elem

abbrev set_of : (Ptr → ℕ) → Option Avltree → Option PtrSet
set_of elem none = none
set_of elem (some t) = some (record { tree = t; elem = elem })

-- Whether there is memory for the set, and for its tree. The tree has no destructor.
unfoldable pub create : Bool → Bool → Nodes → (Ptr → ℕ) → Option PtrSet
create has_memory has_tree_memory nodes elem =
    if has_memory then set_of elem (tree_create has_tree_memory false nodes) else none

unfoldable pub destroy : ℕ → PtrSet → Outcome Nodes (Unit {0})
destroy fuel s = tree_destroy fuel s.tree

-- `logged_calloc` gave a holder at `p`, which gets its element.
unfoldable pub make_holder : Ptr → ℕ → Cmd PtrSet (Unit {0})
make_holder p e = λ s.
    let t = s.tree in
    ok tt (record {
      tree = record t {
        parent = update t.parent p null;
        left = update t.left p null;
        right = update t.right p null;
        balance = update t.balance p (pos 0);
        live = update t.live p true;
      };
      elem = update s.elem p e;
    })

-- `free(holder_ptr)`
unfoldable pub free_holder : Ptr → Cmd PtrSet (Unit {0})
free_holder p = λ s.
    let t = s.tree in
    ok tt (record { tree = record t { live = update t.live p false }; elem = s.elem })

-- `logged_calloc` gives a holder, or NULL.
unfoldable pub insert : ℕ → Option Ptr → ℕ → Cmd PtrSet Bool
insert fuel none e = pure false
insert fuel (some holder) e = do
  make_holder holder e
  rv ← on_tree (λ cmp. tree_insert cmp fuel e holder false)
  when (not rv) (free_holder holder)
  pure rv

unfoldable pub erase : ℕ → ℕ → Cmd PtrSet (Unit {0})
erase fuel e = do
  node ← on_tree (λ cmp. delete cmp fuel e)
  when (not (node == null)) (free_holder node)

unfoldable pub contains : ℕ → ℕ → Cmd PtrSet Bool
contains fuel e = do node ← on_tree (λ cmp. lookup cmp fuel e); pure (not (node == null))

-- `holder_ptr->elem_ptr` is read through the node.
unfoldable pub any : ℕ → Cmd PtrSet ℕ
any fuel = do
  node ← on_tree (λ cmp. min fuel)
  if node == null
      then pure null
      else (λ s. if alive s.tree.live node then ok (s.elem node) s else fault)

unfoldable pub empty : Cmd PtrSet Bool
empty = do n ← on_tree (λ cmp. size); pure (n == 0)
