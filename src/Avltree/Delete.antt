-- ===== src/Avltree/Delete.antt =====
-- `bs_avltree_delete`, `bs_avltree_node_delete` and `bs_avltree_node_exchange` of avltree.c.
mod Tests
pub mod Trade
pub mod Wired
pub mod Exchange
pub mod Parents
pub mod Renamed
pub mod Lower
pub mod Least
pub mod Lift
pub mod Step
pub mod Retrace
pub mod Detach
pub mod Without
pub mod Key
use libbase.Base.{
  ℕ, zero, suc, ◌+◌, ◌-◌, ◌%◌, ◌^◌, Bool, true, false, not, ◌&&◌, Option, none, some, ◌==◌,
  if◌then◌else◌,
}
use libbase.Base.Int.{ℤ, pos, negsuc, ◌+ℤ◌, ◌-ℤ◌, ltb_ℤ, is_zero}
use libbase.Memory.{Ptr, null, ok, fault, out_of_fuel, Cmd, pure, ◌>>=◌, ◌>>◌, assert, when, update}
use libbase.Avltree.{
  Avltree, alive, guard, get_root, get_parent, get_left, get_right, get_balance, set_root,
  set_parent, set_left, set_right, set_balance, rot_left, rot_right,
}
use libbase.Avltree.Search.{lookup, node_min}
use libbase.Avltree.Insert.{copy_node, clear_node}

-- Where a node is below its parent: 0 for the root, -1 to the left and 1 to the right.
unfoldable pub position : Ptr → Cmd Avltree ℤ
position p = do
  pp ← get_parent p
  if pp == null then pure (pos 0) else do
    l ← get_left pp
    if l == p then pure (negsuc 0) else do r ← get_right pp; assert (r == p); pure (pos 1)

-- The three `memcpy`, the first and the last of which use a node on the stack.
unfoldable pub swap_members : Ptr → Ptr → Cmd Avltree (Unit {0})
swap_members node1 node2 = do
  pp ← get_parent node1
  l ← get_left node1
  r ← get_right node1
  b ← get_balance node1
  copy_node node1 node2
  set_parent node2 pp
  set_left node2 l
  set_right node2 r
  set_balance node2 b

-- A node that got the members of its direct neighbour points to itself where it is to point to the
-- neighbour.
unfoldable pub point_away : Ptr → Ptr → Cmd Avltree (Unit {0})
point_away node other = do
  pp ← get_parent node
  when (pp == node) (set_parent node other)
  l ← get_left node
  when (l == node) (set_left node other)
  r ← get_right node
  when (r == node) (set_right node other)

unfoldable pub adopt_children : Ptr → Cmd Avltree (Unit {0})
adopt_children node = do
  l ← get_left node
  when (not (l == null)) (set_parent l node)
  r ← get_right node
  when (not (r == null)) (set_parent r node)

-- The parent of `node`, or the root, leads to it on the side where the other node was.
unfoldable pub put_at : ℤ → Ptr → Cmd Avltree (Unit {0})
put_at at node =
    if is_zero at
    then set_root node
    else do pp ← get_parent node; if ltb_ℤ at (pos 0) then set_left pp node else set_right pp node

unfoldable pub node_exchange : Ptr → Ptr → Cmd Avltree (Unit {0})
node_exchange node1 node2 = do
  pos1 ← position node1
  pos2 ← position node2
  swap_members node1 node2
  point_away node1 node2
  point_away node2 node1
  adopt_children node1
  adopt_children node2
  put_at pos2 node1
  put_at pos1 node2

-- `tree_ptr->nodes--`, of type `size_t`.
unfoldable pub count_down : Cmd Avltree (Unit {0})
count_down = λ t. ok tt (record t { nodes = (t.nodes + (2 ^ 64 - 1)) % 2 ^ 64 })

-- The branches of the loop for a parent whose balance is -2 or 2: nothing, if the loop ends, or the
-- root of the subtree.
unfoldable pub lift_left : Ptr → Cmd Avltree (Option Ptr)
lift_left parent = do
  l ← get_left parent
  assert (not (l == null))
  lb ← get_balance l
  if ltb_ℤ (pos 0) lb
      then (do
        same ← rot_left l
        same' ← rot_right parent
        node ← get_parent parent
        pure (some node))
      else (do
        ll ← get_left l
        assert (not (ll == null))
        same ← rot_right parent
        if same then pure none else do node ← get_parent parent; pure (some node))

unfoldable pub lift_right : Ptr → Cmd Avltree (Option Ptr)
lift_right parent = do
  r ← get_right parent
  assert (not (r == null))
  rb ← get_balance r
  if ltb_ℤ rb (pos 0)
      then (do
        same ← rot_right r
        same' ← rot_left parent
        node ← get_parent parent
        pure (some node))
      else (do
        rr ← get_right r
        assert (not (rr == null))
        same ← rot_left parent
        if same then pure none else do node ← get_parent parent; pure (some node))

-- The body of the loop up to the choice of the next node: nothing, if the loop ends.
unfoldable pub retrace_step : Ptr → Bool → Cmd Avltree (Option Ptr)
retrace_step parent removed_left = do
  b ← get_balance parent
  if removed_left then set_balance parent (b +ℤ pos 1) else set_balance parent (b -ℤ pos 1)
  b' ← get_balance parent
  if is_zero b'
      then pure (some parent)
      else if is_zero (b' +ℤ pos 2)
      then lift_left parent
      else if is_zero (b' -ℤ pos 2)
      then lift_right parent
      else pure none

-- On with the parent of the node, if there is one.
abbrev pub go_on : (Ptr → Bool → Cmd Avltree (Unit {0})) → Option Ptr → Cmd Avltree (Unit {0})
go_on loop none = pure tt
go_on loop (some node) = do
  pp ← get_parent node
  if pp == null then pure tt else do l ← get_left pp; loop pp (l == node)

unfoldable pub retrace : ℕ → Ptr → Bool → Cmd Avltree (Unit {0})
retrace zero parent removed_left = λ t. out_of_fuel
retrace (suc fuel) parent removed_left = do
  next ← retrace_step parent removed_left
  go_on (λ p s. retrace fuel p s) next

-- The node, which has no children, is taken out below its parent.
unfoldable pub detach : ℕ → Ptr → Cmd Avltree (Unit {0})
detach fuel node = do
  parent ← get_parent node
  if parent == null then (do set_root null; count_down; clear_node node) else do
    l ← get_left parent
    if l == node then set_left parent null else set_right parent null
    clear_node node
    retrace fuel parent (l == node)
    count_down

-- The exchange with the only child, if there is one.
unfoldable pub sink : Ptr → Cmd Avltree (Unit {0})
sink node = do
  l ← get_left node
  r ← get_right node
  let leaf_node = if not (l == null) then l else r
  when (not (leaf_node == null)) (node_exchange node leaf_node)

unfoldable pub node_delete : ℕ → Ptr → Cmd Avltree (Unit {0})
node_delete fuel node = do
  l ← get_left node
  r ← get_right node
  when (not (l == null) && not (r == null))
      (do next_larger ← node_min fuel r; node_exchange node next_larger)
  sink node
  detach fuel node

unfoldable pub delete : {K : Type 0} → (Ptr → K → ℤ) → ℕ → K → Cmd Avltree Ptr
delete cmp fuel k = do
  node ← lookup cmp fuel k
  if node == null then pure null else do node_delete fuel node; pure node
