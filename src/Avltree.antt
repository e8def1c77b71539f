-- ===== src/Avltree.antt =====
-- avltree.h and avltree.c: an intrusive balanced search tree. Each member of `bs_avltree_node_t` is
-- a map from the addresses of nodes to its values. A loop runs on fuel: one round for each node on
-- its path, and one to see the end.
pub mod Shape
mod Tests
pub mod Relink
pub mod Balanced
pub mod Rotate
pub mod Search
pub mod Insert
pub mod Delete
pub mod Life
pub mod Verify
use libbase.Base.{
  ℕ, zero, suc, ◌+◌, ◌-◌, Bool, true, false, not, ◌&&◌, List, [], ◌∷◌, ◌==◌, if◌then◌else◌,
}
use libbase.Base.Int.{ℤ, pos, negsuc, ◌+ℤ◌, ◌-ℤ◌, ltb_ℤ, is_zero, int8}
use libbase.Memory.{Ptr, null, ok, fault, out_of_fuel, Cmd, pure, ◌>>=◌, ◌>>◌, assert, when, update}

-- `bs_avltree_t`, with the memory that holds the nodes: their members, which addresses hold a node,
-- and the nodes that `destroy` was called with, last first.
pub record Avltree : Type 0 where
  pub root : Ptr
  pub nodes : ℕ
  pub has_destroy : Bool
  pub parent : Ptr → Ptr
  pub left : Ptr → Ptr
  pub right : Ptr → Ptr
  pub balance : Ptr → ℤ
  pub live : Ptr → Bool
  pub destroyed : List Ptr

-- Whether `p` points to a node.
unfoldable pub alive : (Ptr → Bool) → Ptr → Bool
alive live p = if p == null then false else live p

-- A read or write through `p` faults if it points to no node.
abbrev pub guard : {A : Type 0} → Ptr → Cmd Avltree A → Cmd Avltree A
guard p m = λ t. if alive t.live p then m t else fault

abbrev pub get_parent : Ptr → Cmd Avltree Ptr
get_parent p = guard p (λ t. ok (t.parent p) t)

abbrev pub get_left : Ptr → Cmd Avltree Ptr
get_left p = guard p (λ t. ok (t.left p) t)

abbrev pub get_right : Ptr → Cmd Avltree Ptr
get_right p = guard p (λ t. ok (t.right p) t)

abbrev pub get_balance : Ptr → Cmd Avltree ℤ
get_balance p = guard p (λ t. ok (t.balance p) t)

abbrev pub get_root : Cmd Avltree Ptr
get_root = λ t. ok t.root t

abbrev pub set_parent : Ptr → Ptr → Cmd Avltree (Unit {0})
set_parent p v = guard p (λ t. ok tt (record t { parent = update t.parent p v }))

abbrev pub set_left : Ptr → Ptr → Cmd Avltree (Unit {0})
set_left p v = guard p (λ t. ok tt (record t { left = update t.left p v }))

abbrev pub set_right : Ptr → Ptr → Cmd Avltree (Unit {0})
set_right p v = guard p (λ t. ok tt (record t { right = update t.right p v }))

-- The member is an `int8_t`.
abbrev pub set_balance : Ptr → ℤ → Cmd Avltree (Unit {0})
set_balance p b = guard p (λ t. ok tt (record t { balance = update t.balance p (int8 b) }))

abbrev pub set_root : Ptr → Cmd Avltree (Unit {0})
set_root p = λ t. ok tt (record t { root = p })

-- The balances in `bs_avltree_rot_right`.
unfoldable pub rebalance_right : Ptr → Ptr → Cmd Avltree (Unit {0})
rebalance_right node left = do
  nb ← get_balance node
  set_balance node (nb +ℤ pos 1)
  lb ← get_balance left
  when (ltb_ℤ lb (pos 0)) (do b ← get_balance node; set_balance node (b -ℤ lb))
  lb' ← get_balance left
  set_balance left (lb' +ℤ pos 1)
  nb' ← get_balance node
  when (ltb_ℤ (pos 0) nb') (do b ← get_balance left; set_balance left (b +ℤ nb'))

-- The links in `bs_avltree_rot_right` and `bs_avltree_rot_left` from the parent of `node`, which
-- `child` takes over.
unfoldable pub relink_parent : Ptr → Ptr → Cmd Avltree (Unit {0})
relink_parent node child = do
  p ← get_parent node
  set_parent child p
  cp ← get_parent child
  if cp == null
      then set_root child
      else do l ← get_left cp; if l == node then set_left cp child else set_right cp child

unfoldable pub rot_right : Ptr → Cmd Avltree Bool
rot_right node = do
  left ← get_left node
  lb ← get_balance left
  rebalance_right node left
  lr ← get_right left
  set_left node lr
  nl ← get_left node
  when (not (nl == null)) (set_parent nl node)
  relink_parent node left
  set_right left node
  set_parent node left
  pure (is_zero lb)

-- The balances in `bs_avltree_rot_left`.
unfoldable pub rebalance_left : Ptr → Ptr → Cmd Avltree (Unit {0})
rebalance_left node right = do
  nb ← get_balance node
  set_balance node (nb -ℤ pos 1)
  rb ← get_balance right
  when (ltb_ℤ (pos 0) rb) (do b ← get_balance node; set_balance node (b -ℤ rb))
  rb' ← get_balance right
  set_balance right (rb' -ℤ pos 1)
  nb' ← get_balance node
  when (ltb_ℤ nb' (pos 0)) (do b ← get_balance right; set_balance right (b +ℤ nb'))

unfoldable pub rot_left : Ptr → Cmd Avltree Bool
rot_left node = do
  right ← get_right node
  rb ← get_balance right
  rebalance_left node right
  rl ← get_left right
  set_right node rl
  when (not (rl == null)) (set_parent rl node)
  relink_parent node right
  set_left right node
  set_parent node right
  pure (is_zero rb)
