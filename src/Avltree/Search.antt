-- ===== src/Avltree/Search.antt =====
-- The calls of avltree.c that walk the tree and change nothing. `cmp p k` is what the callback of
-- the tree says of the node `p` and the key `k`.
pub mod Cut
pub mod Ends
pub mod Next
pub mod Lookup
use libbase.Base.{ℕ, zero, suc, ◌+◌, Bool, true, false, not, ◌&&◌, ◌==◌, if◌then◌else◌, ltb}
use libbase.Base.Int.{ℤ, pos, negsuc, ltb_ℤ, is_zero}
use libbase.Memory.{Ptr, null, ok, fault, out_of_fuel, Cmd, pure, ◌>>=◌}
use libbase.Avltree.{Avltree, alive, get_root, get_left, get_right, get_parent, guard}

-- The callback reads the node.
abbrev pub call_cmp : {K : Type 0} → (Ptr → K → ℤ) → Ptr → K → Cmd Avltree ℤ
call_cmp cmp p k = guard p (pure (cmp p k))

unfoldable pub lookup_from : {K : Type 0} → (Ptr → K → ℤ) → ℕ → K → Ptr → Cmd Avltree Ptr
lookup_from cmp zero k p = λ t. out_of_fuel
lookup_from cmp (suc fuel) k p = if p == null then pure null else do
  c ← call_cmp cmp p k
  if is_zero c
      then pure p
      else if ltb_ℤ (pos 0) c
      then (do l ← get_left p; lookup_from cmp fuel k l)
      else (do r ← get_right p; lookup_from cmp fuel k r)

unfoldable pub lookup : {K : Type 0} → (Ptr → K → ℤ) → ℕ → K → Cmd Avltree Ptr
lookup cmp fuel k = do root ← get_root; lookup_from cmp fuel k root

unfoldable pub node_min : ℕ → Ptr → Cmd Avltree Ptr
node_min zero p = λ t. out_of_fuel
node_min (suc fuel) p = do l ← get_left p; if l == null then pure p else node_min fuel l

unfoldable pub node_max : ℕ → Ptr → Cmd Avltree Ptr
node_max zero p = λ t. out_of_fuel
node_max (suc fuel) p = do r ← get_right p; if r == null then pure p else node_max fuel r

unfoldable pub min : ℕ → Cmd Avltree Ptr
min fuel = do root ← get_root; if root == null then pure null else node_min fuel root

unfoldable pub max : ℕ → Cmd Avltree Ptr
max fuel = do root ← get_root; if root == null then pure null else node_max fuel root

unfoldable pub size : Cmd Avltree ℕ
size = λ t. ok t.nodes t

-- The second loop of `bs_avltree_node_next`, and of `bs_avltree_node_prev`: up while the node is
-- the right, or the left, child.
unfoldable pub up_right_edge : ℕ → Ptr → Cmd Avltree Ptr
up_right_edge zero p = λ t. out_of_fuel
up_right_edge (suc fuel) p = do
  pp ← get_parent p
  if pp == null
      then pure null
      else do r ← get_right pp; if p == r then up_right_edge fuel pp else pure pp

unfoldable pub up_left_edge : ℕ → Ptr → Cmd Avltree Ptr
up_left_edge zero p = λ t. out_of_fuel
up_left_edge (suc fuel) p = do
  pp ← get_parent p
  if pp == null
      then pure null
      else do l ← get_left pp; if p == l then up_left_edge fuel pp else pure pp

unfoldable pub node_next : ℕ → Ptr → Cmd Avltree Ptr
node_next fuel p = do
  r ← get_right p
  if not (r == null) then node_min fuel r else up_right_edge fuel p

unfoldable pub node_prev : ℕ → Ptr → Cmd Avltree Ptr
node_prev fuel p = do
  l ← get_left p
  if not (l == null) then node_max fuel l else up_left_edge fuel p

-- The order of addresses.
unfoldable pub cmp_ptr : Ptr → Ptr → ℤ
cmp_ptr node_key key =
    if ltb node_key key then negsuc 0 else if ltb key node_key then pos 1 else pos 0
