-- ===== src/Avltree/Delete/Retrace.antt =====
-- The loop of `bs_avltree_node_delete` balances the tree.
use libbase.Base.{
  ℕ, zero, suc, ◌+◌, ◌≤◌, Bool, true, false, ◌≡◌, refl, arith, ◌∙◌, sym, ap, List, ◌++◌, Option,
  none, some, ◌==◌, ==_refl, larger, subst,
}
use libbase.Memory.{Ptr, null, Returns, Returns-and_then, Returns-weaken}
use libbase.Avltree.{Avltree}
use libbase.Avltree.Shape.{
  Tree, leaf, node, Ctx, top, in_left, in_right, plug, root_of, parent_of, inorder, height,
  hit_self, Holds, Keeps, Keeps-trans,
}
use libbase.Avltree.Balanced.{IsAvl, CtxAvl, IsAvl-plug}
use libbase.Avltree.Relink.{ne_null_of_alive, root_of-ne}
use libbase.Avltree.Search.Next.{before, after, depth, inorder-plug}
use libbase.Avltree.Insert.Rotations.{IsNode, Holds-up_left, Holds-up_right}
use libbase.Avltree.Insert.New.{Holds-plug}
use libbase.Avltree.Delete.{retrace, retrace_step, go_on}
use libbase.Avltree.Delete.Lift.{Lifted}
use libbase.Avltree.Delete.Step.{step_left, step_right}

-- The memory holds an AVL tree of the nodes `xs`.
pub record Retraced (t u : Avltree) (xs : List Ptr) : Type 0 where
  pub tree : Tree
  pub holds : Holds u top tree
  pub balanced : IsAvl tree
  pub order : inorder tree ≡ xs
  pub keeps : Keeps t u

-- Whether a hole is on the left of the node above it.
abbrev pub is_left : Ctx → Bool
is_left top = false
is_left (in_left c p b r) = true
is_left (in_right c l p b) = false

plug-order :
    (c : Ctx) (x y : Tree) → inorder x ≡ inorder y → inorder (plug c x) ≡ inorder (plug c y)
plug-order c x y e =
    inorder-plug c x ∙ ap (λ xs. before c ++ xs ++ after c) e ∙ sym (inorder-plug c y)

-- What the loop does from a hole whose subtree is one less high than what is around it expects.
abbrev Climbs : ℕ → Type 0
Climbs fuel =
    (t : Avltree) (c : Ctx) (x : Tree)
    → IsAvl x
    → CtxAvl (height x + 1) c
    → (parent_of c == null) ≡ false
    → depth c ≤ fuel
    → Holds t c x
    → Returns (λ _ u. Retraced t u (inorder (plug c x))) (retrace fuel (parent_of c) (is_left c) t)

module _ (fuel : ℕ) (climbs : Climbs fuel) where
  -- From a subtree that is one less high to its parent.
  go_on-Retraced :
      (t : Avltree) (c : Ctx) (x : Tree)
      → IsNode x
      → IsAvl x
      → CtxAvl (height x + 1) c
      → depth c ≤ fuel
      → Holds t c x
      → Returns
          (λ _ u. Retraced t u (inorder (plug c x)))
          (go_on (λ p s. retrace fuel p s) (some (root_of x)) t)
  go_on-Retraced t c leaf i a g le h = elim i [ ]
  go_on-Retraced t top (node l p b r) i a g le h =
      rw (h.shape.0.is_alive, h.shape.0.parent)
        (record {
          tree = node l p b r;
          holds = h;
          balanced = a;
          order = refl;
          keeps = record { nodes = refl; live = refl; destroyed = refl };
        })
  go_on-Retraced t (in_left c q b' r') (node l p b r) i a g le h =
      let s = h.around.0 in
      let n = ne_null_of_alive t.live q s.is_alive in
      rw (h.shape.0.is_alive, h.shape.0.parent, n, s.is_alive, s.left, ==_refl p)
        (climbs t (in_left c q b' r') (node l p b r) a g n le h)
  go_on-Retraced t (in_right c l' q b') (node l p b r) i a g le h =
      let s = h.around.0 in
      let n = ne_null_of_alive t.live q s.is_alive in
      let o = root_of-ne t.live p l' h.shape.0.is_alive (omega (arith, h.distinct p, hit_self p)) in
      rw (h.shape.0.is_alive, h.shape.0.parent, n, s.is_alive, s.left, o)
        (climbs t (in_right c l' q b') (node l p b r) a g n le h)

  after_step :
      (t u : Avltree) (c : Ctx) (k : ℕ) (x : Tree) (n : Option Ptr)
      → CtxAvl k c
      → depth c ≤ fuel
      → Lifted t u c k (inorder x) n
      → Returns (λ _ v. Retraced t v (inorder (plug c x))) (go_on (λ p s. retrace fuel p s) n u)
  after_step t u c k x none g le y = record {
    tree = plug c y.tree;
    holds = Holds-plug u c y.tree y.holds;
    balanced = IsAvl-plug c y.tree k y.balanced y.verdict g;
    order = plug-order c y.tree x y.order;
    keeps = y.keeps;
  }
  after_step t u c k x (some n) g le y =
      let run =
        go_on-Retraced u c y.tree y.verdict.0 y.balanced
          (subst (λ h. CtxAvl h c) (sym (y.verdict.2)) g) le y.holds in
      let run' =
        subst
          (λ m.
            Returns (λ _ v. Retraced u v (inorder (plug c y.tree)))
              (go_on (λ p s. retrace fuel p s) (some m) u))
          (y.verdict.1) run in
      Returns-weaken _ (go_on (λ p s. retrace fuel p s) (some n) u)
        (λ _ v z. record {
          tree = z.tree;
          holds = z.holds;
          balanced = z.balanced;
          order = z.order ∙ plug-order c y.tree x y.order;
          keeps = Keeps-trans t u v y.keeps z.keeps;
        })
        run'

pub retrace-Retraced : (fuel : ℕ) → Climbs fuel
unfolding retrace
retrace-Retraced fuel t top x a g n le h = absurd (ground arith)
retrace-Retraced zero t (in_left c p b r) x a g n le h = absurd (omega arith)
retrace-Retraced zero t (in_right c l p b) x a g n le h = absurd (omega arith)
retrace-Retraced (suc fuel) t (in_left c p b r) x a g n le h =
    Returns-and_then _ (retrace_step p true t) (λ m. go_on (λ q s. retrace fuel q s) m)
      (step_left t c x r p b a g.1 g.0 (Holds-up_left t c x r p b h))
      λ m u y.
        after_step fuel (retrace-Retraced fuel) t u c (larger (height x + 1) (height r) + 1)
          (node x p b r) m g.2 (omega arith) y
retrace-Retraced (suc fuel) t (in_right c l p b) x a g n le h =
    Returns-and_then _ (retrace_step p false t) (λ m. go_on (λ q s. retrace fuel q s) m)
      (step_right t c l x p b a g.1 g.0 (Holds-up_right t c l x p b h))
      λ m u y.
        after_step fuel (retrace-Retraced fuel) t u c (larger (height l) (height x + 1) + 1)
          (node l p b x) m g.2 (omega arith) y
