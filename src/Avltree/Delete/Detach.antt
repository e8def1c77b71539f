-- ===== src/Avltree/Delete/Detach.antt =====
-- The node to delete, which has no children any more, is taken out of the tree.
use libbase.Base.{
  ℕ, ◌+◌, ◌-◌, ◌%◌, ◌^◌, ◌≤◌, true, false, ◌≡◌, refl, arith, ◌∙◌, ap, List, ◌==◌, ==_refl,
}
use libbase.Base.Int.{ℤ, pos, int8}
use libbase.Memory.{Ptr, null, ok, update, update_ne, Returns, Returns-and_then, ◌>>◌}
use libbase.Avltree.{Avltree, alive}
use libbase.Avltree.Shape.{
  Tree, leaf, node, Ctx, top, in_left, in_right, plug, parent_of, inorder, count_ctx, hit_self,
  Same, Holds, Shape-frame,
}
use libbase.Avltree.Balanced.{IsAvl, CtxAvl}
use libbase.Avltree.Relink.{
  link_left, link_right, link_root, hit_parent, link_left-outside, link_right-outside,
  ne_null_of_alive, root_of-ne,
}
use libbase.Avltree.Rotate.Around.{Leads-CtxShape}
use libbase.Avltree.Search.Next.{depth}
use libbase.Avltree.Insert.{clear_node}
use libbase.Avltree.Insert.Attach.{ne_of_count}
use libbase.Avltree.Delete.{detach, retrace, count_down}
use libbase.Avltree.Delete.Retrace.{Retraced, is_left, retrace-Retraced}

-- The memory holds an AVL tree of the nodes `xs`, and one node less is counted.
pub record Deleted (t u : Avltree) (xs : List Ptr) : Type 0 where
  pub tree : Tree
  pub holds : Holds u top tree
  pub balanced : IsAvl tree
  pub order : inorder tree ≡ xs
  pub nodes : u.nodes ≡ (t.nodes + (2 ^ 64 - 1)) % 2 ^ 64
  pub live : u.live ≡ t.live
  pub destroyed : u.destroyed ≡ t.destroyed

-- The memory with the links to the node gone, and its members zero.
abbrev pub detached : Avltree → Ctx → Ptr → Avltree
detached t c p = record t {
  root = link_root t.root c null;
  parent = update t.parent p null;
  left = update (link_left t.left c null) p null;
  right = update (link_right t.right c null) p null;
  balance = update t.balance p (pos 0);
}

pub clear_node-zero :
    (t : Avltree) (p : Ptr)
    → alive t.live p ≡ true
    → clear_node p t
      ≡ ok tt (record t {
        parent = update t.parent p null;
        left = update t.left p null;
        right = update t.right p null;
        balance = update t.balance p (pos 0);
      })
unfolding clear_node int8
clear_node-zero t p a = rw (a, a, a, a) refl

module _ (t : Avltree) (p : Ptr) where
  detached-Same :
      (c : Ctx) (q : Ptr) → (q == p) ≡ false → hit_parent q c ≡ 0 → Same t (detached t c p) q
  detached-Same c q e z = record {
    is_alive = refl;
    parent = update_ne t.parent p null q e;
    left = update_ne (link_left t.left c null) p null q e ∙ link_left-outside t.left q null c z;
    right =
        update_ne (link_right t.right c null) p null q e ∙ link_right-outside t.right q null c z;
    balance = update_ne t.balance p (pos 0) q e;
  }

  detached-Holds :
      (c : Ctx) (b : ℤ) → Holds t c (node leaf p b leaf) → Holds (detached t c p) c leaf
  detached-Holds c b h =
      let o : count_ctx p c ≡ 0 = omega (arith, h.distinct p, hit_self p) in
      record {
        shape = tt;
        around =
            Leads-CtxShape t (detached t c p) c p null (λ q. omega (arith, h.distinct q)) h.around
              (record {
                root = refl;
                same = λ q i z. detached-Same c q (ne_of_count q p c i o) z;
                is_alive = λ q i. refl;
                parent = λ q i. update_ne t.parent p null q (ne_of_count q p c i o);
                left = λ q i. update_ne (link_left t.left c null) p null q (ne_of_count q p c i o);
                right =
                    λ q i. update_ne (link_right t.right c null) p null q (ne_of_count q p c i o);
                balance = λ q i. update_ne t.balance p (pos 0) q (ne_of_count q p c i o);
              });
        distinct = λ q. omega (arith, h.distinct q);
      }

  -- The loop, and the count after it.
  counted :
      (fuel : ℕ) (c : Ctx)
      → Returns
          (λ _ u. Retraced (detached t c p) u (inorder (plug c leaf)))
          (retrace fuel (parent_of c) (is_left c) (detached t c p))
      → Returns
          (λ _ u. Deleted t u (inorder (plug c leaf)))
          ((do retrace fuel (parent_of c) (is_left c); count_down) (detached t c p))
  unfolding count_down
  counted fuel c r =
      Returns-and_then _ (retrace fuel (parent_of c) (is_left c) (detached t c p)) (λ _. count_down)
        r
        λ _ u y. record {
          tree = y.tree;
          holds = record {
            shape =
                Shape-frame u (record u { nodes = (u.nodes + (2 ^ 64 - 1)) % 2 ^ 64 }) null y.tree
                  (λ q i. record {
                    is_alive = refl;
                    parent = refl;
                    left = refl;
                    right = refl;
                    balance = refl;
                  })
                  y.holds.shape;
            around = y.holds.around;
            distinct = y.holds.distinct;
          };
          balanced = y.balanced;
          order = y.order;
          nodes = ap (λ n. (n + (2 ^ 64 - 1)) % 2 ^ 64) y.keeps.nodes;
          live = y.keeps.live;
          destroyed = y.keeps.destroyed;
        }

  pub detach-Deleted :
      (fuel : ℕ) (c : Ctx) (b : ℤ)
      → CtxAvl 1 c
      → depth c ≤ fuel
      → Holds t c (node leaf p b leaf)
      → Returns (λ _ u. Deleted t u (inorder (plug c leaf))) (detach fuel p t)
  unfolding detach count_down
  detach-Deleted fuel top b g le h =
      let s = h.shape.0 in
      let t1 : Avltree = record t { root = null; nodes = (t.nodes + (2 ^ 64 - 1)) % 2 ^ 64 } in
      rw (s.is_alive, s.parent, clear_node-zero t1 p s.is_alive)
        (record {
          tree = leaf;
          holds = record { shape = tt; around = refl; distinct = λ q. omega arith };
          balanced = tt;
          order = refl;
          nodes = refl;
          live = refl;
          destroyed = refl;
        })
  detach-Deleted fuel (in_left c q b' r) b g le h =
      let s = h.shape.0 in
      let i = h.around.0 in
      let n = ne_null_of_alive t.live q i.is_alive in
      let t1 : Avltree = record t { left = update t.left q null } in
      rw
        (
          s.is_alive,
          s.parent,
          n,
          i.is_alive,
          i.left,
          ==_refl p,
          i.is_alive,
          clear_node-zero t1 p s.is_alive,
        )
        (counted fuel (in_left c q b' r) (
          retrace-Retraced fuel (detached t (in_left c q b' r) p) (in_left c q b' r) leaf tt g n le
            (detached-Holds (in_left c q b' r) b h)))
  detach-Deleted fuel (in_right c l q b') b g le h =
      let s = h.shape.0 in
      let i = h.around.0 in
      let n = ne_null_of_alive t.live q i.is_alive in
      let o = root_of-ne t.live p l s.is_alive (omega (arith, h.distinct p, hit_self p)) in
      let t1 : Avltree = record t { right = update t.right q null } in
      rw
        (
          s.is_alive,
          s.parent,
          n,
          i.is_alive,
          i.left,
          o,
          i.is_alive,
          clear_node-zero t1 p s.is_alive,
        )
        (counted fuel (in_right c l q b') (
          retrace-Retraced fuel (detached t (in_right c l q b') p) (in_right c l q b') leaf tt g n
            le (detached-Holds (in_right c l q b') b h)))
