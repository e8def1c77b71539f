-- ===== src/Avltree/Rotate.antt =====
-- The parts that `bs_avltree_rot_right` and `bs_avltree_rot_left` share: what they do to the maps.
pub mod Balance
pub mod Right
pub mod Left
pub mod Around
pub mod Height
