-- ===== src/Avltree/Rotate/Right/Run.antt =====
-- The run of `bs_avltree_rot_right`, as an equation between memories.
use libbase.Base.{false, ◌≡◌, refl, arith, ◌∙◌, ◌==◌}
use libbase.Base.Int.{ℤ, is_zero}
use libbase.Memory.{Ptr, ok, update, update_self, update_ne}
use libbase.Avltree.{Avltree, relink_parent, rebalance_right, rot_right}
use libbase.Avltree.Shape.{
  Tree, leaf, node, Ctx, root_of, parent_of, ==_of_hit, hit_self, IsDistinct, CtxShape,
  CtxShape-frame, Holds,
}
use libbase.Avltree.Relink.{
  link_left, link_right, link_root, link_back, hit_root-le, link_back-outside, ne_null_of_alive,
  relink_parent-ok,
}
use libbase.Avltree.Rotate.Balance.{down_right, up_right, Rebalanced}

-- The tree after the rotation round `p`.
abbrev pub rotated_right : Tree → Ptr → ℤ → Tree → Ptr → ℤ → Tree → Tree
rotated_right a x bx m p b r = node a x (up_right b bx) (node m p (down_right b bx) r)

-- The memory before the links from around change.
abbrev moved : Avltree → (Ptr → ℤ) → Ptr → Tree → Avltree
moved t after p m = record t {
  balance = after;
  left = update t.left p (root_of m);
  parent = link_back t.parent m p;
}

-- The memory after the rotation.
abbrev pub turned : Avltree → (Ptr → ℤ) → Ctx → Ptr → Ptr → Tree → Avltree
turned t after c x p m = record t {
  balance = after;
  root = link_root t.root c x;
  parent = update (update (link_back t.parent m p) x (parent_of c)) p x;
  left = link_left (update t.left p (root_of m)) c x;
  right = update (link_right t.right c x) x p;
}

module _ (t : Avltree) (c : Ctx) (a r : Tree) (x p : Ptr) (bx b : ℤ) where
  -- No node of the subtree is that above it, and its two upper nodes differ.
  pub apart : (m : Tree) → IsDistinct (node (node a x bx m) p b r) c → (x == p) ≡ false
  apart m d = ==_of_hit x p (omega (arith, d x, hit_self x))

  module _ (after : Ptr → ℤ) where
    moved-CtxShape :
        (m : Tree)
        → Holds t c (node (node a x bx m) p b r)
        → ((q : Ptr) → (q == p) ≡ false → (q == x) ≡ false → after q ≡ t.balance q)
        → CtxShape (moved t after p m) p c
    moved-CtxShape m h same =
        CtxShape-frame t (moved t after p m) p c refl
          (λ q i.
            let d = h.distinct q in
            let qp = ==_of_hit q p (omega arith) in
            let qx = ==_of_hit q x (omega arith) in
            record {
              is_alive = refl;
              parent = link_back-outside t.parent q p m (omega (arith, hit_root-le q m));
              left = update_ne t.left p (root_of m) q qp;
              right = refl;
              balance = same q qp qx;
            })
          h.around

    relinked :
        (m : Tree)
        → Holds t c (node (node a x bx m) p b r)
        → ((q : Ptr) → (q == p) ≡ false → (q == x) ≡ false → after q ≡ t.balance q)
        → relink_parent p x (moved t after p m)
          ≡ ok tt (record (moved t after p m) {
            root = link_root t.root c x;
            parent = update (link_back t.parent m p) x (parent_of c);
            left = link_left (update t.left p (root_of m)) c x;
            right = link_right t.right c x;
          })
    relinked m h same =
        let d = h.distinct p in
        let out =
          link_back-outside t.parent p p m (omega (arith, d, hit_self p, hit_root-le p m)) in
        relink_parent-ok (moved t after p m) p x c h.shape.0.is_alive h.shape.1.0.is_alive
          (out ∙ h.shape.0.parent) (moved-CtxShape m h same) (omega (arith, d, hit_self p))

  pub rot_right-turned :
      (m : Tree) (rb : Rebalanced t p x (down_right b bx) (up_right b bx) (rebalance_right p x t))
      → Holds t c (node (node a x bx m) p b r)
      → rot_right p t ≡ ok (is_zero bx) (turned t rb.after c x p m)
  unfolding rot_right
  rot_right-turned leaf rb h =
      let s = h.shape.0 in
      let sx = h.shape.1.0 in
      simp (
        s.is_alive,
        sx.is_alive,
        s.left,
        sx.balance,
        rb.ends,
        sx.right,
        update_self,
        relinked rb.after leaf h rb.same,
      )
  rot_right-turned (node ml z bz mr) rb h =
      let m = node ml z bz mr in
      let az = h.shape.1.2.0.is_alive in
      simp (
        h.shape.0.is_alive,
        h.shape.1.0.is_alive,
        h.shape.0.left,
        h.shape.1.0.balance,
        rb.ends,
        h.shape.1.0.right,
        update_self,
        az,
        ne_null_of_alive t.live z az,
        relinked rb.after m h rb.same,
      )
