-- ===== src/Avltree/Rotate/Right.antt =====
-- `bs_avltree_rot_right` turns the subtree round its root, and nothing else.
pub mod Run
use libbase.Base.{ℕ, suc, ◌+◌, ◌≤◌, Bool, true, false, ◌≡◌, refl, arith, ◌∙◌, ◌==◌, ==_comm}
use libbase.Base.Int.{ℤ, is_zero}
use libbase.Memory.{Ptr, null, ok, Returns, update, update_self, update_ne}
use libbase.Avltree.{Avltree, alive, relink_parent, rebalance_right, rot_right}
use libbase.Avltree.Shape.{
  Tree, leaf, node, Ctx, top, in_left, in_right, root_of, parent_of, hit, count, count_ctx,
  ==_of_hit, hit_self, IsDistinct, At, Shape, CtxShape, Same, At-frame, Shape-frame, CtxShape-frame,
  Holds, Keeps,
}
use libbase.Avltree.Relink.{
  link_left, link_right, link_root, link_back, hit_root, hit_parent, hit_root-le, hit_parent-le,
  link_left-outside, link_right-outside, link_left-congr, link_back-outside, ne_null_of_alive,
  relink_parent-ok,
}
use libbase.Avltree.Rotate.Around.{Leads, Leads-CtxShape}
use libbase.Avltree.Rotate.Balance.{down_right, up_right, Rebalanced, rebalance_right-Rebalanced}
use libbase.Avltree.Rotate.Right.Run.{rotated_right, turned, apart, rot_right-turned}

module _ (t : Avltree) (c : Ctx) (a r : Tree) (x p : Ptr) (bx b : ℤ) where
  module _ (after : Ptr → ℤ)
      (same : (q : Ptr) → (q == p) ≡ false → (q == x) ≡ false → after q ≡ t.balance q) where
    -- A node that is not among those whose members are written.
    turned-Same :
        (m : Tree) (q : Ptr)
        → hit q p ≡ 0
        → hit q x ≡ 0
        → hit_root q m ≡ 0
        → hit_parent q c ≡ 0
        → Same t (turned t after c x p m) q
    turned-Same m q hp hx hm hc =
        let qp = ==_of_hit q p hp in
        let qx = ==_of_hit q x hx in
        record {
          is_alive = refl;
          parent =
              update_ne (update (link_back t.parent m p) x (parent_of c)) p x q qp
              ∙ update_ne (link_back t.parent m p) x (parent_of c) q qx
              ∙ link_back-outside t.parent q p m hm;
          left =
              link_left-outside (update t.left p (root_of m)) q x c hc
              ∙ update_ne t.left p (root_of m) q qp;
          right = update_ne (link_right t.right c x) x p q qx ∙ link_right-outside t.right q x c hc;
          balance = same q qp qx;
        }

    turned-middle :
        (m : Tree) → Holds t c (node (node a x bx m) p b r) → Shape (turned t after c x p m) p m
    turned-middle leaf h = tt
    turned-middle (node ml z bz mr) h =
        let m = node ml z bz mr in
        let u = turned t after c x p m in
        let d = h.distinct z in
        let zp = ==_of_hit z p (omega (arith, d, hit_self z)) in
        let zx = ==_of_hit z x (omega (arith, d, hit_self z)) in
        let zc : hit_parent z c ≡ 0 = omega (arith, d, hit_self z, hit_parent-le z c) in
        let s = h.shape.1.2 in
        (
          record {
            is_alive = s.0.is_alive;
            parent =
                update_ne (update (link_back t.parent m p) x (parent_of c)) p x z zp
                ∙ update_ne (link_back t.parent m p) x (parent_of c) z zx
                ∙ update_self t.parent z p;
            left =
                link_left-outside (update t.left p z) z x c zc
                ∙ update_ne t.left p z z zp
                ∙ s.0.left;
            right =
                update_ne (link_right t.right c x) x p z zx
                ∙ link_right-outside t.right z x c zc
                ∙ s.0.right;
            balance = same z zp zx ∙ s.0.balance;
          },
          Shape-frame t u z ml
              (λ q i.
                turned-Same m q (omega (arith, h.distinct q)) (omega (arith, h.distinct q))
                  (omega (arith, h.distinct q)) (omega (arith, h.distinct q, hit_parent-le q c)))
              s.1,
          Shape-frame t u z mr
              (λ q i.
                turned-Same m q (omega (arith, h.distinct q)) (omega (arith, h.distinct q))
                  (omega (arith, h.distinct q)) (omega (arith, h.distinct q, hit_parent-le q c)))
              s.2,
        )

    turned-outside :
        (m w : Tree) (pp : Ptr)
        → Holds t c (node (node a x bx m) p b r)
        → ((q : Ptr) → count q w + hit q p + hit q x + count q m + count_ctx q c ≤ 1)
        → Shape t pp w
        → Shape (turned t after c x p m) pp w
    turned-outside m w pp h apart = Shape-frame t (turned t after c x p m) pp w (λ q i.
        turned-Same m q (omega (arith, apart q)) (omega (arith, apart q))
          (omega (arith, apart q, hit_root-le q m)) (omega (arith, apart q, hit_parent-le q c)))

    turned-CtxShape :
        (m : Tree) → Holds t c (node (node a x bx m) p b r) → CtxShape (turned t after c x p m) x c
    turned-CtxShape m h =
        let u = turned t after c x p m in
        Leads-CtxShape t u c p x (λ q. omega (arith, h.distinct q)) h.around
          (record {
            root = refl;
            same = λ q i z.
                turned-Same m q (omega (arith, h.distinct q)) (omega (arith, h.distinct q))
                  (omega (arith, h.distinct q, hit_root-le q m)) z;
            is_alive = λ q i. refl;
            parent = λ q i.
                let d = h.distinct q in
                update_ne (update (link_back t.parent m p) x (parent_of c)) p x q
                  (==_of_hit q p (omega arith))
                ∙ update_ne (link_back t.parent m p) x (parent_of c) q (==_of_hit q x (omega arith))
                ∙ link_back-outside t.parent q p m (omega (arith, hit_root-le q m));
            left = λ q i.
                link_left-congr (update t.left p (root_of m)) t.left x q
                  (update_ne t.left p (root_of m) q (==_of_hit q p (omega (arith, h.distinct q))))
                  c;
            right = λ q i.
                update_ne (link_right t.right c x) x p q
                  (==_of_hit q x (omega (arith, h.distinct q)));
            balance = λ q i.
                same q (==_of_hit q p (omega (arith, h.distinct q)))
                  (==_of_hit q x (omega (arith, h.distinct q)));
          })

    turned-Holds :
        (m : Tree)
        → Holds t c (node (node a x bx m) p b r)
        → after p ≡ down_right b bx
        → after x ≡ up_right b bx
        → Holds (turned t after c x p m) c (rotated_right a x bx m p b r)
    turned-Holds m h ep ex =
        let dx = h.distinct x in
        let dp = h.distinct p in
        let s = h.shape in
        let xp = ==_of_hit x p (omega (arith, dx, hit_self x)) in
        let px = ==_of_hit p x (omega (arith, dp, hit_self p)) in
        let xc : hit_parent x c ≡ 0 = omega (arith, dx, hit_self x, hit_parent-le x c) in
        let pc : hit_parent p c ≡ 0 = omega (arith, dp, hit_self p, hit_parent-le p c) in
        let back = link_back t.parent m p in
        record {
          shape = (
            record {
              is_alive = s.1.0.is_alive;
              parent =
                  update_ne (update back x (parent_of c)) p x x xp
                  ∙ update_self back x (parent_of c);
              left =
                  link_left-outside (update t.left p (root_of m)) x x c xc
                  ∙ update_ne t.left p (root_of m) x xp
                  ∙ s.1.0.left;
              right = update_self (link_right t.right c x) x p;
              balance = ex;
            },
            turned-outside m a x h (λ q. omega (arith, h.distinct q)) s.1.1,
            (
              record {
                is_alive = s.0.is_alive;
                parent = update_self (update back x (parent_of c)) p x;
                left =
                    link_left-outside (update t.left p (root_of m)) p x c pc
                    ∙ update_self t.left p (root_of m);
                right =
                    update_ne (link_right t.right c x) x p p px
                    ∙ link_right-outside t.right p x c pc
                    ∙ s.0.right;
                balance = ep;
              },
              turned-middle m h,
              turned-outside m r p h (λ q. omega (arith, h.distinct q)) s.2,
            ),
          );
          around = turned-CtxShape m h;
          distinct = λ q. omega (arith, h.distinct q);
        }

  -- The run returns whether the node that comes up was balanced, and the links round the subtree and
  -- in it are those of the turned subtree.
  pub rot_right-Holds :
      (m : Tree)
      → Holds t c (node (node a x bx m) p b r)
      → Returns
          (λ s u. (s ≡ is_zero bx) × Keeps t u × Holds u c (rotated_right a x bx m p b r))
          (rot_right p t)
  rot_right-Holds m h =
      let rb =
        rebalance_right-Rebalanced t p x b bx h.shape.0.is_alive h.shape.1.0.is_alive
          h.shape.0.balance h.shape.1.0.balance (apart t c a r x p bx b m h.distinct) in
      rw (rot_right-turned t c a r x p bx b m rb h) (
        refl,
        record { nodes = refl; live = refl; destroyed = refl },
        turned-Holds rb.after rb.same m h rb.down rb.up,
      )
