-- ===== src/Avltree/Delete/Step.antt =====
-- One round of the loop of `bs_avltree_node_delete`.
use libbase.Base.{
  ℕ, zero, suc, ◌+◌, true, false, ◌≡◌, refl, arith, sym, subst, List, Option, larger,
}
use libbase.Base.Int.{ℤ, pos, negsuc, ◌+ℤ◌, ◌-ℤ◌, int8, is_zero}
use libbase.Memory.{Ptr, Returns, Returns-weaken, update_self}
use libbase.Avltree.{Avltree}
use libbase.Avltree.Shape.{Tree, node, Ctx, inorder, height, Holds}
use libbase.Avltree.Balanced.{Skew, IsAvl}
use libbase.Avltree.Insert.Raise.{weighed, weighed-Holds}
use libbase.Avltree.Delete.{retrace_step, lift_left, lift_right}
use libbase.Avltree.Delete.Lift.{Lifted}
use libbase.Avltree.Delete.Lift.Right.{lift_right-Lifted}
use libbase.Avltree.Delete.Lift.Left.{lift_left-Lifted}

Lifted-weighed :
    (t u : Avltree) (c : Ctx) (h h' : ℕ) (xs : List Ptr) (n : Option Ptr) (p : Ptr) (b : ℤ)
    → h ≡ h'
    → Lifted (weighed t p b) u c h xs n
    → Lifted t u c h' xs n
Lifted-weighed t u c h h' xs n p b e y =
    subst (λ k. Lifted t u c k xs n) e
      (record {
        tree = y.tree;
        holds = y.holds;
        balanced = y.balanced;
        order = y.order;
        verdict = y.verdict;
        keeps = record {
          nodes = y.keeps.nodes;
          live = y.keeps.live;
          destroyed = y.keeps.destroyed;
        };
      })

larger_by-left : (a b : ℕ) → a + 1 ≡ b → larger a b + 1 ≡ larger (a + 1) b + 1
larger_by-left a b e = ground arith

larger_left : (a b : ℕ) → a + 1 ≡ b + 1 → larger a b + 1 + 1 ≡ larger (a + 1) b + 1
larger_left a b e = ground arith

larger_by-right : (a b : ℕ) → b ≡ a + 1 → larger b a + 1 ≡ larger b (a + 1) + 1
larger_by-right a b e = ground arith

larger_right : (a b : ℕ) → a + 1 ≡ b + 1 → larger b a + 1 + 1 ≡ larger b (a + 1) + 1
larger_right a b e = ground arith

over_left : (a b : ℕ) → b ≡ a + 1 + 1 → a + 3 ≡ larger (a + 1) b + 1
over_left a b e = ground arith

over_right : (a b : ℕ) → b ≡ a + 1 + 1 → a + 3 ≡ larger b (a + 1) + 1
over_right a b e = ground arith

-- The left subtree is one less high than the balance of its parent says. After the round the subtree
-- of the parent is balanced; the round says whether it is as high as it was.
pub step_left :
    (t : Avltree) (c : Ctx) (x r : Tree) (p : Ptr) (b : ℤ)
    → IsAvl x
    → IsAvl r
    → Skew b (height x + 1) (height r)
    → Holds t c (node x p b r)
    → Returns
        (λ n u. Lifted t u c (larger (height x + 1) (height r) + 1) (inorder (node x p b r)) n)
        (retrace_step p true t)
unfolding retrace_step is_zero int8 ◌+ℤ◌ ◌-ℤ◌
step_left t c x r p (pos zero) ax ar e h =
    let s = h.shape.0 in
    rw (s.is_alive, s.balance, s.is_alive, s.is_alive, update_self t.balance p (pos 1))
      (record {
        tree = node x p (pos 1) r;
        holds = weighed-Holds t c x r p (pos 0) (pos 1) h;
        balanced = (sym e, ax, ar);
        order = refl;
        verdict = larger_by-left (height x) (height r) e;
        keeps = record { nodes = refl; live = refl; destroyed = refl };
      })
step_left t c x r p (negsuc zero) ax ar e h =
    let s = h.shape.0 in
    rw (s.is_alive, s.balance, s.is_alive, s.is_alive, update_self t.balance p (pos 0))
      (record {
        tree = node x p (pos 0) r;
        holds = weighed-Holds t c x r p (negsuc 0) (pos 0) h;
        balanced = (omega arith, ax, ar);
        order = refl;
        verdict = (tt, refl, larger_left (height x) (height r) e);
        keeps = record { nodes = refl; live = refl; destroyed = refl };
      })
step_left t c x r p (pos (suc zero)) ax ar e h =
    let s = h.shape.0 in
    let k : height x + 3 ≡ larger (height x + 1) (height r) + 1 =
      over_left (height x) (height r) e in
    rw (s.is_alive, s.balance, s.is_alive, s.is_alive, update_self t.balance p (pos 2))
      (Returns-weaken _ (lift_right p (weighed t p (pos 2)))
        (λ n u y. Lifted-weighed t u c (height x + 3) _ _ n p (pos 2) k y)
        (lift_right-Lifted (weighed t p (pos 2)) c x r p ax ar (omega arith)
          (weighed-Holds t c x r p (pos 1) (pos 2) h)))
step_left t c x r p (pos (suc (suc n))) ax ar e h = elim e [ ]
step_left t c x r p (negsuc (suc n)) ax ar e h = elim e [ ]

-- The mirror image.
pub step_right :
    (t : Avltree) (c : Ctx) (l x : Tree) (p : Ptr) (b : ℤ)
    → IsAvl x
    → IsAvl l
    → Skew b (height l) (height x + 1)
    → Holds t c (node l p b x)
    → Returns
        (λ n u. Lifted t u c (larger (height l) (height x + 1) + 1) (inorder (node l p b x)) n)
        (retrace_step p false t)
unfolding retrace_step is_zero int8 ◌+ℤ◌ ◌-ℤ◌
step_right t c l x p (pos zero) ax al e h =
    let s = h.shape.0 in
    rw (s.is_alive, s.balance, s.is_alive, s.is_alive, update_self t.balance p (negsuc 0))
      (record {
        tree = node l p (negsuc 0) x;
        holds = weighed-Holds t c l x p (pos 0) (negsuc 0) h;
        balanced = (e, al, ax);
        order = refl;
        verdict = larger_by-right (height x) (height l) e;
        keeps = record { nodes = refl; live = refl; destroyed = refl };
      })
step_right t c l x p (pos (suc zero)) ax al e h =
    let s = h.shape.0 in
    rw (s.is_alive, s.balance, s.is_alive, s.is_alive, update_self t.balance p (pos 0))
      (record {
        tree = node l p (pos 0) x;
        holds = weighed-Holds t c l x p (pos 1) (pos 0) h;
        balanced = (omega arith, al, ax);
        order = refl;
        verdict = (tt, refl, larger_right (height x) (height l) e);
        keeps = record { nodes = refl; live = refl; destroyed = refl };
      })
step_right t c l x p (negsuc zero) ax al e h =
    let s = h.shape.0 in
    let k : height x + 3 ≡ larger (height l) (height x + 1) + 1 =
      over_right (height x) (height l) e in
    rw (s.is_alive, s.balance, s.is_alive, s.is_alive, update_self t.balance p (negsuc 1))
      (Returns-weaken _ (lift_left p (weighed t p (negsuc 1)))
        (λ n u y. Lifted-weighed t u c (height x + 3) _ _ n p (negsuc 1) k y)
        (lift_left-Lifted (weighed t p (negsuc 1)) c x l p ax al (omega arith)
          (weighed-Holds t c l x p (negsuc 0) (negsuc 1) h)))
step_right t c l x p (pos (suc (suc n))) ax al e h = elim e [ ]
step_right t c l x p (negsuc (suc n)) ax al e h = elim e [ ]
