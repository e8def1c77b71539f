-- ===== src/Avltree/Insert.antt =====
-- `bs_avltree_insert` and `bs_avltree_node_replace` of avltree.c. The callback that destroys a node
-- frees it: the node is recorded and its address holds no node afterwards.
pub mod Seek
pub mod Attach
pub mod Raise
pub mod Settle
pub mod Order
pub mod Grow
pub mod Rotations
pub mod New
pub mod Keep
use libbase.Base.{
  ℕ, zero, suc, ◌+◌, ◌%◌, ◌^◌, Bool, true, false, not, ◌||◌, ◌∷◌, ◌==◌, if◌then◌else◌,
}
use libbase.Base.Int.{ℤ, pos, negsuc, ◌+ℤ◌, ◌-ℤ◌, ltb_ℤ, is_zero}
use libbase.Memory.{Ptr, null, ok, fault, out_of_fuel, Cmd, pure, ◌>>=◌, ◌>>◌, when, update}
use libbase.Avltree.{
  Avltree, alive, guard, get_root, get_parent, get_left, get_right, get_balance, set_root,
  set_parent, set_left, set_right, set_balance, rot_left, rot_right,
}
use libbase.Avltree.Search.{call_cmp}

-- `tree_ptr->destroy(p)`, if there is such a callback.
unfoldable pub call_destroy : Ptr → Cmd Avltree (Unit {0})
call_destroy p = λ t.
    if t.has_destroy
    then ok tt (record t { live = update t.live p false; destroyed = p ∷ t.destroyed })
    else ok tt t

-- `memcpy(dest, src, sizeof(bs_avltree_node_t))`
unfoldable pub copy_node : Ptr → Ptr → Cmd Avltree (Unit {0})
copy_node dest src = do
  pp ← get_parent src
  set_parent dest pp
  l ← get_left src
  set_left dest l
  r ← get_right src
  set_right dest r
  b ← get_balance src
  set_balance dest b

-- `memset(p, 0, sizeof(bs_avltree_node_t))`
unfoldable pub clear_node : Ptr → Cmd Avltree (Unit {0})
clear_node p = do set_parent p null; set_left p null; set_right p null; set_balance p (pos 0)

unfoldable pub node_replace : Ptr → Ptr → Cmd Avltree (Unit {0})
node_replace old new = do
  copy_node new old
  clear_node old
  call_destroy old
  pp ← get_parent new
  if pp == null
      then set_root new
      else do pl ← get_left pp; if pl == old then set_left pp new else set_right pp new
  l ← get_left new
  when (not (l == null)) (set_parent l new)
  r ← get_right new
  when (not (r == null)) (set_parent r new)

-- Where the first loop ends: at a node with the key, or below the node `parent`, with the last node
-- on the way whose balance is not zero and with what the callback last returned.
pub data Descent : Type 0 where
  matches : Ptr → Descent
  bottom : Ptr → Ptr → ℤ → Descent

unfoldable pub descend :
    {K : Type 0} → (Ptr → K → ℤ) → ℕ → K → Ptr → Ptr → Ptr → ℤ → Cmd Avltree Descent
descend cmp zero k p parent non_balanced c = λ t. out_of_fuel
descend cmp (suc fuel) k p parent non_balanced c =
    if p == null then pure (bottom parent non_balanced c) else do
      b ← get_balance p
      c' ← call_cmp cmp p k
      if is_zero c'
          then pure (matches p)
          else if ltb_ℤ (pos 0) c'
          then (do
            l ← get_left p
            descend cmp fuel k l p (if is_zero b then non_balanced else p) c')
          else (do
            r ← get_right p
            descend cmp fuel k r p (if is_zero b then non_balanced else p) c')

-- The second loop: up along the balanced parents, each of which gets the balance of the side that
-- grew. It returns the last node that it came from.
unfoldable pub raise : ℕ → Ptr → Ptr → Ptr → Cmd Avltree Ptr
raise zero node parent non_balanced = λ t. out_of_fuel
raise (suc fuel) node parent non_balanced = if parent == non_balanced then pure node else do
  l ← get_left parent
  b ← get_balance parent
  if l == node then set_balance parent (b -ℤ pos 1) else set_balance parent (b +ℤ pos 1)
  pp ← get_parent parent
  raise fuel parent pp non_balanced

-- The last part: the first parent that was not balanced. `node` is its child on the way.
unfoldable pub grow_left : Ptr → Ptr → Cmd Avltree (Unit {0})
grow_left non_balanced node = do
  b ← get_balance non_balanced
  set_balance non_balanced (b -ℤ pos 1)
  b' ← get_balance non_balanced
  when (ltb_ℤ b' (negsuc 0)) (do
    nb ← get_balance node
    when (ltb_ℤ (pos 0) nb) (do changed ← rot_left node; pure tt)
    changed ← rot_right non_balanced
    pure tt)

unfoldable pub grow_right : Ptr → Ptr → Cmd Avltree (Unit {0})
grow_right non_balanced node = do
  b ← get_balance non_balanced
  set_balance non_balanced (b +ℤ pos 1)
  b' ← get_balance non_balanced
  when (ltb_ℤ (pos 1) b') (do
    nb ← get_balance node
    when (ltb_ℤ nb (pos 0)) (do changed ← rot_right node; pure tt)
    changed ← rot_left non_balanced
    pure tt)

-- `tree_ptr->nodes++`, of type `size_t`.
unfoldable pub count_up : Cmd Avltree (Unit {0})
count_up = λ t. ok tt (record t { nodes = (t.nodes + 1) % 2 ^ 64 })

-- The new node becomes a child of `parent`, on the side of what the callback returned for it.
unfoldable pub attach : Ptr → Ptr → ℤ → Cmd Avltree (Unit {0})
attach new parent c = do
  count_up
  set_parent new parent
  pp ← get_parent new
  if pp == null
      then set_root new
      else if ltb_ℤ (pos 0) c
      then set_left parent new
      else set_right parent new

unfoldable pub regrow : ℕ → Ptr → Ptr → Ptr → Cmd Avltree (Unit {0})
regrow fuel new parent non_balanced = do
  node ← raise fuel new parent non_balanced
  if non_balanced == null then pure tt else do
    l ← get_left non_balanced
    if l == node then grow_left non_balanced node else grow_right non_balanced node

-- What follows the first loop.
unfoldable pub insert_at : ℕ → Ptr → Bool → Descent → Cmd Avltree Bool
insert_at fuel new true (matches p) = do node_replace p new; pure true
insert_at fuel new false (matches p) = pure false
insert_at fuel new do_overwrite (bottom parent non_balanced c) = do
  attach new parent c
  pp ← get_parent new
  when (not (pp == null)) (regrow fuel new parent non_balanced)
  pure true

unfoldable pub insert : {K : Type 0} → (Ptr → K → ℤ) → ℕ → K → Ptr → Bool → Cmd Avltree Bool
insert cmp fuel k new do_overwrite = do
  root ← get_root
  d ← descend cmp fuel k root null null (pos 0)
  insert_at fuel new do_overwrite d
