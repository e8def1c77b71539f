-- ===== src/Avltree/Verify.antt =====
-- `bs_avltree_node_size`, `bs_avltree_node_height` and `bs_avltree_verify_node` of avltree.c.
pub mod Height
pub mod Sorted
use libbase.Base.{
  ℕ, zero, suc, ◌+◌, ◌%◌, ◌^◌, Bool, true, false, not, ◌||◌, Option, none, some, ◌==◌,
  if◌then◌else◌, ltb,
}
use libbase.Base.Int.{ℤ, pos, ◌-ℤ◌, ltb_ℤ, is_zero, int32}
use libbase.Memory.{Ptr, null, out_of_fuel, Cmd, pure, ◌>>=◌, ◌>>◌, assert}
use libbase.Avltree.{Avltree, get_root, get_parent, get_left, get_right, get_balance}
use libbase.Avltree.Search.{call_cmp}

unfoldable pub node_size : ℕ → Ptr → Cmd Avltree ℕ
node_size zero p = λ t. out_of_fuel
node_size (suc fuel) p = if p == null then pure 0 else do
  l ← get_left p
  size_left ← node_size fuel l
  r ← get_right p
  size_right ← node_size fuel r
  pure ((1 + size_left + size_right) % 2 ^ 64)

unfoldable pub node_height : ℕ → Ptr → Cmd Avltree ℕ
node_height zero p = λ t. out_of_fuel
node_height (suc fuel) p = do
  l ← get_left p
  size_left ← if l == null then pure 0 else node_height fuel l
  r ← get_right p
  size_right ← if r == null then pure 0 else node_height fuel r
  pure ((if ltb size_right size_left then size_left + 1 else size_right + 1) % 2 ^ 64)

-- The node is the root, or a child of its parent.
unfoldable pub verify_parent : Ptr → Cmd Avltree (Unit {0})
verify_parent node = do
  pp ← get_parent node
  if pp == null
      then (do root ← get_root; assert (root == node))
      else do l ← get_left pp; r ← get_right pp; assert (node == l || node == r)

-- The node is between the keys, where these are not NULL.
unfoldable pub verify_min : {K : Type 0} → (Ptr → K → ℤ) → Ptr → Option K → Cmd Avltree (Unit {0})
verify_min cmp node none = pure tt
verify_min cmp node (some k) = do c ← call_cmp cmp node k; assert (ltb_ℤ (pos 0) c)

unfoldable pub verify_max : {K : Type 0} → (Ptr → K → ℤ) → Ptr → Option K → Cmd Avltree (Unit {0})
verify_max cmp node none = pure tt
verify_max cmp node (some k) = do c ← call_cmp cmp node k; assert (ltb_ℤ c (pos 0))

-- What is done for the left, and the right, child: the height of its subtree, 0 if there is none.
abbrev pub verify_child :
    (Ptr → Cmd Avltree (Unit {0})) → (Ptr → Cmd Avltree ℕ) → Ptr → Ptr → Cmd Avltree ℤ
verify_child verify height node child = if child == null then pure (pos 0) else do
  pp ← get_parent child
  assert (pp == node)
  verify child
  h ← height child
  pure (int32 (pos h))

-- `key_from` says which key a node has, or NULL, which it does if there is no such callback.
unfoldable pub verify_node :
    {K : Type 0}
    → (Ptr → K → ℤ)
    → (Ptr → Option K)
    → ℕ
    → Ptr
    → Option K
    → Option K
    → Cmd Avltree (Unit {0})
verify_node cmp key_from zero node min max = λ t. out_of_fuel
verify_node cmp key_from (suc fuel) node min max = if node == null then pure tt else do
  verify_parent node
  verify_min cmp node min
  verify_max cmp node max
  l ← get_left node
  height_left ←
      verify_child (λ p. verify_node cmp key_from fuel p min (key_from node))
        (λ p. node_height fuel p) node l
  r ← get_right node
  height_right ←
      verify_child (λ p. verify_node cmp key_from fuel p (key_from node) max)
        (λ p. node_height fuel p) node r
  b ← get_balance node
  assert (is_zero (b -ℤ (height_right -ℤ height_left)))
