-- ===== src/Avltree/Delete/Key.antt =====
-- `bs_avltree_node_delete` and `bs_avltree_delete` as a whole.
use libbase.Base.{
  ℕ, ◌+◌, ◌-◌, ◌%◌, ◌^◌, ◌≤◌, ◌<◌, false, not, ◌&&◌, ◌≡◌, ◌≢◌, refl, arith, ◌∙◌, sym, ap, subst,
  List, ◌++◌, ◌==◌, ≤-larger, append-nil, [],
}
use libbase.Base.Int.{ℤ}
use libbase.Memory.{
  Ptr, null, ok, Returns, Returns-and_then, Returns-weaken, pure, ◌>>=◌, ◌>>◌, when,
}
use libbase.Avltree.{Avltree}
use libbase.Avltree.Shape.{
  Tree, leaf, node, Ctx, top, in_left, in_right, plug, root_of, inorder, height, hit_self, Holds,
  Keeps-trans,
}
use libbase.Avltree.Balanced.{IsAvl, CtxAvl, plug-IsAvl}
use libbase.Avltree.Search.{node_min}
use libbase.Avltree.Search.Cut.{IsCut, at_key}
use libbase.Avltree.Search.Lookup.{lookup-at_key}
use libbase.Avltree.Search.Next.{before, after, depth, inorder-plug}
use libbase.Avltree.Delete.{node_exchange, sink, detach, node_delete, delete}
use libbase.Avltree.Delete.Wired.{locate}
use libbase.Avltree.Delete.Lower.{sink-Sunk}
use libbase.Avltree.Delete.Least.{lower-Lowered}
use libbase.Avltree.Delete.Detach.{Deleted, detach-Deleted}
use libbase.Avltree.Delete.Without.{without, without-order, count-at_key}

depth-plug : (c : Ctx) (x : Tree) → depth c + height x ≤ height (plug c x)
depth-plug top x = omega arith
depth-plug (in_left c p b r) x =
    omega (arith, depth-plug c (node x p b r), ≤-larger (height x) (height r))
depth-plug (in_right c l p b) x =
    omega (arith, depth-plug c (node l p b x), ≤-larger (height l) (height x))

drop_nil : (xs ys : List Ptr) → xs ++ [] ++ ys ≡ xs ++ ys
drop_nil xs ys = simp append-nil

-- Let the memory hold an AVL tree with the node `p`. For at least as many rounds as the tree is
-- high, `bs_avltree_node_delete` returns, no assertion fails, and the memory holds an AVL tree of
-- the other nodes, in the same order.
pub node_delete-Deleted :
    (t : Avltree) (c : Ctx) (l r : Tree) (p : Ptr) (b : ℤ) (fuel : ℕ)
    → IsAvl (node l p b r)
    → CtxAvl (height (node l p b r)) c
    → Holds t c (node l p b r)
    → depth c + height (node l p b r) ≤ fuel
    → Returns
        (λ _ u. Deleted t u (without p (inorder (plug c (node l p b r)))))
        (node_delete fuel p t)
unfolding node_delete
node_delete-Deleted t c l r p b fuel a g h le =
    let s = h.shape.0 in
    let others = before c ++ inorder l ++ inorder r ++ after c in
    let order : others ≡ without p (inorder (plug c (node l p b r))) = sym (
      ap (without p) (inorder-plug c (node l p b r))
      ∙ without-order p c l r (omega (arith, h.distinct p, hit_self p))
          (omega (arith, h.distinct p, hit_self p))) in
    rw (s.is_alive, s.left, s.is_alive, s.right)
      (Returns-and_then _
        (when (not (root_of l == null) && not (root_of r == null))
          (do next_larger ← node_min fuel (root_of r); node_exchange p next_larger) t)
        (λ _. do sink p; detach fuel p)
        (lower-Lowered t c l r p b fuel a g h (omega (arith, ≤-larger (height l) (height r))))
        λ _ u y.
          Returns-and_then _ (sink p u) (λ _. detach fuel p)
            (sink-Sunk u y.above y.l y.r p y.b y.edge y.balanced y.around y.holds)
            λ _ v z.
              let k = Keeps-trans t u v y.keeps z.keeps in
              Returns-weaken _ (detach fuel p v)
                (λ _ w d. record {
                  tree = d.tree;
                  holds = d.holds;
                  balanced = d.balanced;
                  order =
                      d.order
                      ∙ inorder-plug z.above leaf
                      ∙ drop_nil (before z.above) (after z.above)
                      ∙ z.order
                      ∙ y.order
                      ∙ order;
                  nodes = d.nodes ∙ ap (λ n. (n + (2 ^ 64 - 1)) % 2 ^ 64) k.nodes;
                  live = d.live ∙ k.live;
                  destroyed = d.destroyed ∙ k.destroyed;
                })
                (detach-Deleted v p fuel z.above z.b z.around
                  (omega (arith, z.not_deeper, y.not_deeper)) z.holds))

module _ {K : Type 0} (cmp : Ptr → K → ℤ) (k : K) (t : Avltree) (fuel : ℕ) (x : Tree) where
  -- Let the memory hold an AVL tree whose nodes in order are cut by the key, with a node at the key.
  -- For more rounds than the tree is high, `bs_avltree_delete` returns that node, and no assertion
  -- in it fails. The memory then holds an AVL tree; its nodes in order are those of before without
  -- the returned one; the count of nodes is one less, as a `size_t`, and no node was freed or handed
  -- to the destructor.
  pub delete-Deleted :
      Holds t top x
      → IsAvl x
      → IsCut cmp k (inorder x)
      → at_key cmp k (inorder x) ≢ null
      → height x < fuel
      → Returns
          (λ p u. (p ≡ at_key cmp k (inorder x)) × Deleted t u (without p (inorder x)))
          (delete cmp fuel k t)
  unfolding delete
  delete-Deleted h a i z lt =
      let p = at_key cmp k (inorder x) in
      let e : (p == null) ≡ false = ground arith in
      let y = locate t p x h (count-at_key cmp k x e) in
      let v = plug-IsAvl y.above (node y.l p y.b y.r) (subst IsAvl (sym y.whole) a) in
      let run =
        node_delete-Deleted t y.above y.l y.r p y.b fuel v.0 v.1 y.holds
          (omega (arith, depth-plug y.above (node y.l p y.b y.r), ap height y.whole)) in
      rw (lookup-at_key cmp k t fuel x h i lt, e)
        (Returns-and_then _ (node_delete fuel p t) (λ _. pure p) run
          λ _ u d. (refl, subst (λ w. Deleted t u (without p (inorder w))) y.whole d))

  -- If no node of the tree is at the key, `bs_avltree_delete` returns NULL and changes nothing.
  pub delete_missing :
      Holds t top x
      → IsCut cmp k (inorder x)
      → at_key cmp k (inorder x) ≡ null
      → height x < fuel
      → delete cmp fuel k t ≡ ok null t
  unfolding delete
  delete_missing h i z lt = rw (lookup-at_key cmp k t fuel x h i lt, z) refl
