-- ===== src/Avltree/Life.antt =====
-- `bs_avltree_create`, `bs_avltree_flush` and `bs_avltree_destroy` of avltree.c. The nodes belong to
-- the caller: their memory is there before the tree is created and after it is destroyed.
pub mod Clear
pub mod Flush
use libbase.Base.{ℕ, zero, suc, Bool, not, List, Option, none, some, ◌==◌, if◌then◌else◌}
use libbase.Base.Int.{ℤ}
use libbase.Memory.{
  Ptr, null, Outcome, ok, abort, fault, out_of_fuel, Cmd, pure, ◌>>=◌, ◌>>◌, assert,
}
use libbase.Avltree.{
  Avltree, alive, guard, get_root, get_parent, get_left, get_right, set_root, set_left, set_right,
}
use libbase.Avltree.Search.{size}
use libbase.Avltree.Insert.{call_destroy, clear_node}
use libbase.Avltree.Delete.{count_down}

-- The memory of the nodes.
pub record Nodes : Type 0 where
  pub parent : Ptr → Ptr
  pub left : Ptr → Ptr
  pub right : Ptr → Ptr
  pub balance : Ptr → ℤ
  pub live : Ptr → Bool
  pub destroyed : List Ptr

-- `calloc` gives memory for the tree, or NULL.
unfoldable pub create : Bool → Bool → Nodes → Option Avltree
create has_memory has_destroy nodes =
    if has_memory
    then some (record {
      root = null;
      nodes = 0;
      has_destroy = has_destroy;
      parent = nodes.parent;
      left = nodes.left;
      right = nodes.right;
      balance = nodes.balance;
      live = nodes.live;
      destroyed = nodes.destroyed;
    })
    else none

-- The loop of `bs_avltree_flush`.
unfoldable pub flush_from : ℕ → Ptr → Cmd Avltree (Unit {0})
flush_from zero node = λ t. out_of_fuel
flush_from (suc fuel) node = if node == null then pure tt else do
  l ← get_left node
  if not (l == null) then flush_from fuel l else do
    r ← get_right node
    if not (r == null) then flush_from fuel r else do
      parent ← get_parent node
      clear_node node
      call_destroy node
      count_down
      if parent == null then pure tt else do
        pl ← get_left parent
        if pl == node then set_left parent null else set_right parent null
        flush_from fuel parent

unfoldable pub flush : ℕ → Cmd Avltree (Unit {0})
flush fuel = do root ← get_root; flush_from fuel root; set_root null; n ← size; assert (n == 0)

-- `free(tree_ptr)`: what is left is the memory of the nodes.
abbrev pub freed : Outcome Avltree (Unit {0}) → Outcome Nodes (Unit {0})
freed (ok a t) = ok a (record {
  parent = t.parent;
  left = t.left;
  right = t.right;
  balance = t.balance;
  live = t.live;
  destroyed = t.destroyed;
})
freed abort = abort
freed fault = fault
freed out_of_fuel = out_of_fuel

unfoldable pub destroy : ℕ → Avltree → Outcome Nodes (Unit {0})
destroy fuel t = freed (flush fuel t)
