-- ===== src/Avltree/Rotate/Left.antt =====
-- `bs_avltree_rot_left` turns the subtree round its root, and nothing else.
pub mod Run
use libbase.Base.{ℕ, suc, ◌+◌, ◌≤◌, Bool, true, false, ◌≡◌, refl, arith, ◌∙◌, ◌==◌, ==_comm}
use libbase.Base.Int.{ℤ, is_zero}
use libbase.Memory.{Ptr, null, ok, Returns, update, update_self, update_ne}
use libbase.Avltree.{Avltree, alive, relink_parent, rebalance_left, rot_left}
use libbase.Avltree.Shape.{
  Tree, leaf, node, Ctx, top, in_right, in_left, root_of, parent_of, hit, count, count_ctx,
  ==_of_hit, hit_self, IsDistinct, At, Shape, CtxShape, Same, At-frame, Shape-frame, CtxShape-frame,
  Holds, Keeps,
}
use libbase.Avltree.Relink.{
  link_right, link_left, link_root, link_back, hit_root, hit_parent, hit_root-le, hit_parent-le,
  link_right-outside, link_left-outside, link_right-congr, link_back-outside, ne_null_of_alive,
  relink_parent-ok,
}
use libbase.Avltree.Rotate.Around.{Leads, Leads-CtxShape}
use libbase.Avltree.Rotate.Balance.{down_left, up_left, Rebalanced, rebalance_left-Rebalanced}
use libbase.Avltree.Rotate.Left.Run.{rotated_left, turned, apart, rot_left-turned}

module _ (t : Avltree) (c : Ctx) (a r : Tree) (x p : Ptr) (bx b : ℤ) where
  module _ (after : Ptr → ℤ)
      (same : (q : Ptr) → (q == p) ≡ false → (q == x) ≡ false → after q ≡ t.balance q) where
    -- A node that is not among those whose members are written.
    turned-Same :
        (m : Tree) (q : Ptr)
        → hit q p ≡ 0
        → hit q x ≡ 0
        → hit_root q m ≡ 0
        → hit_parent q c ≡ 0
        → Same t (turned t after c x p m) q
    turned-Same m q hp hx hm hc =
        let qp = ==_of_hit q p hp in
        let qx = ==_of_hit q x hx in
        record {
          is_alive = refl;
          parent =
              update_ne (update (link_back t.parent m p) x (parent_of c)) p x q qp
              ∙ update_ne (link_back t.parent m p) x (parent_of c) q qx
              ∙ link_back-outside t.parent q p m hm;
          right =
              link_right-outside (update t.right p (root_of m)) q x c hc
              ∙ update_ne t.right p (root_of m) q qp;
          left = update_ne (link_left t.left c x) x p q qx ∙ link_left-outside t.left q x c hc;
          balance = same q qp qx;
        }

    turned-middle :
        (m : Tree) → Holds t c (node a p b (node m x bx r)) → Shape (turned t after c x p m) p m
    turned-middle leaf h = tt
    turned-middle (node ml z bz mr) h =
        let m = node ml z bz mr in
        let u = turned t after c x p m in
        let d = h.distinct z in
        let zp = ==_of_hit z p (omega (arith, d, hit_self z)) in
        let zx = ==_of_hit z x (omega (arith, d, hit_self z)) in
        let zc : hit_parent z c ≡ 0 = omega (arith, d, hit_self z, hit_parent-le z c) in
        let s = h.shape.2.1 in
        (
          record {
            is_alive = s.0.is_alive;
            parent =
                update_ne (update (link_back t.parent m p) x (parent_of c)) p x z zp
                ∙ update_ne (link_back t.parent m p) x (parent_of c) z zx
                ∙ update_self t.parent z p;
            right =
                link_right-outside (update t.right p z) z x c zc
                ∙ update_ne t.right p z z zp
                ∙ s.0.right;
            left =
                update_ne (link_left t.left c x) x p z zx
                ∙ link_left-outside t.left z x c zc
                ∙ s.0.left;
            balance = same z zp zx ∙ s.0.balance;
          },
          Shape-frame t u z ml
              (λ q i.
                turned-Same m q (omega (arith, h.distinct q)) (omega (arith, h.distinct q))
                  (omega (arith, h.distinct q)) (omega (arith, h.distinct q, hit_parent-le q c)))
              s.1,
          Shape-frame t u z mr
              (λ q i.
                turned-Same m q (omega (arith, h.distinct q)) (omega (arith, h.distinct q))
                  (omega (arith, h.distinct q)) (omega (arith, h.distinct q, hit_parent-le q c)))
              s.2,
        )

    turned-outside :
        (m w : Tree) (pp : Ptr)
        → Holds t c (node a p b (node m x bx r))
        → ((q : Ptr) → count q w + hit q p + hit q x + count q m + count_ctx q c ≤ 1)
        → Shape t pp w
        → Shape (turned t after c x p m) pp w
    turned-outside m w pp h apart = Shape-frame t (turned t after c x p m) pp w (λ q i.
        turned-Same m q (omega (arith, apart q)) (omega (arith, apart q))
          (omega (arith, apart q, hit_root-le q m)) (omega (arith, apart q, hit_parent-le q c)))

    turned-CtxShape :
        (m : Tree) → Holds t c (node a p b (node m x bx r)) → CtxShape (turned t after c x p m) x c
    turned-CtxShape m h =
        let u = turned t after c x p m in
        Leads-CtxShape t u c p x (λ q. omega (arith, h.distinct q)) h.around
          (record {
            root = refl;
            same = λ q i z.
                turned-Same m q (omega (arith, h.distinct q)) (omega (arith, h.distinct q))
                  (omega (arith, h.distinct q, hit_root-le q m)) z;
            is_alive = λ q i. refl;
            parent = λ q i.
                let d = h.distinct q in
                update_ne (update (link_back t.parent m p) x (parent_of c)) p x q
                  (==_of_hit q p (omega arith))
                ∙ update_ne (link_back t.parent m p) x (parent_of c) q (==_of_hit q x (omega arith))
                ∙ link_back-outside t.parent q p m (omega (arith, hit_root-le q m));
            right = λ q i.
                link_right-congr (update t.right p (root_of m)) t.right x q
                  (update_ne t.right p (root_of m) q (==_of_hit q p (omega (arith, h.distinct q))))
                  c;
            left = λ q i.
                update_ne (link_left t.left c x) x p q
                  (==_of_hit q x (omega (arith, h.distinct q)));
            balance = λ q i.
                same q (==_of_hit q p (omega (arith, h.distinct q)))
                  (==_of_hit q x (omega (arith, h.distinct q)));
          })

    turned-Holds :
        (m : Tree)
        → Holds t c (node a p b (node m x bx r))
        → after p ≡ down_left b bx
        → after x ≡ up_left b bx
        → Holds (turned t after c x p m) c (rotated_left a p b m x bx r)
    turned-Holds m h ep ex =
        let dx = h.distinct x in
        let dp = h.distinct p in
        let s = h.shape in
        let xp = ==_of_hit x p (omega (arith, dx, hit_self x)) in
        let px = ==_of_hit p x (omega (arith, dp, hit_self p)) in
        let xc : hit_parent x c ≡ 0 = omega (arith, dx, hit_self x, hit_parent-le x c) in
        let pc : hit_parent p c ≡ 0 = omega (arith, dp, hit_self p, hit_parent-le p c) in
        let back = link_back t.parent m p in
        record {
          shape = (
            record {
              is_alive = s.2.0.is_alive;
              parent =
                  update_ne (update back x (parent_of c)) p x x xp
                  ∙ update_self back x (parent_of c);
              right =
                  link_right-outside (update t.right p (root_of m)) x x c xc
                  ∙ update_ne t.right p (root_of m) x xp
                  ∙ s.2.0.right;
              left = update_self (link_left t.left c x) x p;
              balance = ex;
            },
            (
              record {
                is_alive = s.0.is_alive;
                parent = update_self (update back x (parent_of c)) p x;
                right =
                    link_right-outside (update t.right p (root_of m)) p x c pc
                    ∙ update_self t.right p (root_of m);
                left =
                    update_ne (link_left t.left c x) x p p px
                    ∙ link_left-outside t.left p x c pc
                    ∙ s.0.left;
                balance = ep;
              },
              turned-outside m a p h (λ q. omega (arith, h.distinct q)) s.1,
              turned-middle m h,
            ),
            turned-outside m r x h (λ q. omega (arith, h.distinct q)) s.2.2,
          );
          around = turned-CtxShape m h;
          distinct = λ q. omega (arith, h.distinct q);
        }

  -- The run returns whether the node that comes up was balanced, and the links round the subtree and
  -- in it are those of the turned subtree.
  pub rot_left-Holds :
      (m : Tree)
      → Holds t c (node a p b (node m x bx r))
      → Returns
          (λ s u. (s ≡ is_zero bx) × Keeps t u × Holds u c (rotated_left a p b m x bx r))
          (rot_left p t)
  rot_left-Holds m h =
      let rb =
        rebalance_left-Rebalanced t p x b bx h.shape.0.is_alive h.shape.2.0.is_alive
          h.shape.0.balance h.shape.2.0.balance (apart t c a r x p bx b m h.distinct) in
      rw (rot_left-turned t c a r x p bx b m rb h) (
        refl,
        record { nodes = refl; live = refl; destroyed = refl },
        turned-Holds rb.after rb.same m h rb.down rb.up,
      )
