-- ===== src/Avltree/Delete/Lift/Right.antt =====
-- The rotations to the left of a subtree that leans to the right.
use libbase.Base.{ℕ, zero, suc, ◌+◌, ◌≤◌, true, false, ◌≡◌, refl, arith, append_assoc, Option, some}
use libbase.Base.Int.{ℤ, pos, negsuc, ltb_ℤ, is_zero}
use libbase.Memory.{Ptr, pure, ◌>>=◌, Returns, Returns-and_then, Returns-weaken}
use libbase.Avltree.{Avltree, get_parent, rot_left, rot_right}
use libbase.Avltree.Shape.{
  Tree, leaf, node, Ctx, in_right, inorder, height, Holds, Keeps, Keeps-trans,
}
use libbase.Avltree.Balanced.{IsAvl}
use libbase.Avltree.Relink.{ne_null_of_alive}
use libbase.Avltree.Rotate.Balance.{down_right, up_right}
use libbase.Avltree.Rotate.Right.{rot_right-Holds}
use libbase.Avltree.Rotate.Left.{rot_left-Holds}
use libbase.Avltree.Rotate.Right.Run.{rotated_right}
use libbase.Avltree.Rotate.Left.Run.{rotated_left}
use libbase.Avltree.Insert.Seek.{Holds-right}
use libbase.Avltree.Insert.Rotations.{Holds-up_right}
use libbase.Avltree.Delete.{lift_right}
use libbase.Avltree.Delete.Lift.{Lifted, outer-alive, end}
use libbase.Avltree.Delete.Lift.RestoreRight.{turned_twice, turned_once, turned_same}

-- A rotation, and the root of the turned subtree.
turned :
    (t : Avltree) (c : Ctx) (l m a : Tree) (p y : Ptr) (b by : ℤ)
    → Holds t c (node l p b (node m y by a))
    → Returns
        (λ n u. (n ≡ some y) × Keeps t u × Holds u c (rotated_left l p b m y by a))
        ((do same ← rot_left p; n ← get_parent p; pure (some n)) t)
turned t c l m a p y b by h =
    Returns-and_then _ (rot_left p t) _ (rot_left-Holds t c l a y p by b m h)
      λ s u k. rw (k.2.shape.1.0.is_alive, k.2.shape.1.0.parent) (refl, k.1, k.2)

leans_left : ltb_ℤ (negsuc 0) (pos 0) ≡ true
unfolding ltb_ℤ
leans_left = refl

leans_right : (n : ℕ) → ltb_ℤ (pos n) (pos 0) ≡ false
unfolding ltb_ℤ
leans_right n = ground arith

module _ (t : Avltree) (c : Ctx) (x : Tree) (p y : Ptr) (ax : IsAvl x) where
  abbrev Result : Tree → Option Ptr → Avltree → Type 0
  Result r n u = Lifted t u c (height x + 3) (inorder (node x p (pos 2) r)) n

  -- The right child leans to the left, and is turned first.
  twice :
      (n a k : Tree) (z : Ptr) (bz : ℤ)
      → IsAvl (node (node n z bz k) y (negsuc 0) a)
      → height (node (node n z bz k) y (negsuc 0) a) ≡ height x + 2
      → Holds t c (node x p (pos 2) (node (node n z bz k) y (negsuc 0) a))
      → Returns (Result (node (node n z bz k) y (negsuc 0) a)) (lift_right p t)
  unfolding lift_right
  twice n a k z bz v e h =
      let s = h.shape.0 in
      let s' = h.shape.2.0 in
      let r = node (node n z bz k) y (negsuc 0) a in
      let m = node k y (down_right (negsuc 0) bz) a in
      let w = turned_twice x n k a p y z bz ax v e in
      rw
        (
          s.is_alive,
          s.right,
          ne_null_of_alive t.live y s'.is_alive,
          s'.is_alive,
          s'.balance,
          leans_left,
        )
        (Returns-and_then _ (rot_right y t) _
          (rot_right-Holds t (in_right c x p (pos 2)) n a z y bz (negsuc 0) k
            (Holds-right t c x r p (pos 2) h))
          λ same u g.
            Returns-weaken _ ((do same' ← rot_left p; d ← get_parent p; pure (some d)) u)
              (λ d u' f. record {
                tree = rotated_left x p (pos 2) n z (up_right (negsuc 0) bz) m;
                holds = f.2;
                balanced = w.0;
                order = simp append_assoc;
                verdict = rw (f.0) (tt, refl, omega (arith, w.1));
                keeps = Keeps-trans t u u' g.1 f.1;
              })
              (turned u c x n m p z (pos 2) (up_right (negsuc 0) bz)
                (Holds-up_right u c x (rotated_right n z bz k y (negsuc 0) a) p (pos 2) g.2)))

  module _ (m a : Tree) (by : ℤ) (h : Holds t c (node x p (pos 2) (node m y by a)))
      (outer : 1 ≤ height a) where
    lift_right-once :
        ltb_ℤ by (pos 0) ≡ false → lift_right p t ≡ (do same ← rot_left p; end p same) t
    unfolding lift_right
    lift_right-once f =
        let s = h.shape.0 in
        let s' = h.shape.2.0 in
        rw
          (
            s.is_alive,
            s.right,
            ne_null_of_alive t.live y s'.is_alive,
            s'.is_alive,
            s'.balance,
            f,
            s'.is_alive,
            s'.right,
            outer-alive t y a h.shape.2.2 outer,
          )
          refl

  -- The right child leans to the right.
  once :
      (m a : Tree)
      → IsAvl (node m y (pos 1) a)
      → height (node m y (pos 1) a) ≡ height x + 2
      → Holds t c (node x p (pos 2) (node m y (pos 1) a))
      → Returns (Result (node m y (pos 1) a)) (lift_right p t)
  unfolding is_zero
  once m a v e h =
      let w = turned_once x m a p y ax v e in
      rw (lift_right-once m a (pos 1) h (ground (arith, v.0)) (leans_right 1)) (
        Returns-and_then _ (rot_left p t) (end p) (rot_left-Holds t c x a y p (pos 1) (pos 2) m h)
          λ same u g.
            let i = g.2.shape.1.0 in
            rw (g.0, i.is_alive, i.parent)
              (record {
                tree = rotated_left x p (pos 2) m y (pos 1) a;
                holds = g.2;
                balanced = w.0;
                order = simp append_assoc;
                verdict = (tt, refl, omega (arith, w.1));
                keeps = g.1;
              }))

  -- The right child is balanced.
  same :
      (m a : Tree)
      → IsAvl (node m y (pos 0) a)
      → height (node m y (pos 0) a) ≡ height x + 2
      → Holds t c (node x p (pos 2) (node m y (pos 0) a))
      → Returns (Result (node m y (pos 0) a)) (lift_right p t)
  unfolding is_zero
  same m a v e h =
      let w = turned_same x m a p y ax v e in
      rw (lift_right-once m a (pos 0) h (ground (arith, v.0)) (leans_right 0)) (
        Returns-and_then _ (rot_left p t) (end p) (rot_left-Holds t c x a y p (pos 0) (pos 2) m h)
          λ s u g. rw (g.0) (record {
            tree = rotated_left x p (pos 2) m y (pos 0) a;
            holds = g.2;
            balanced = w.0;
            order = simp append_assoc;
            verdict = w.1;
            keeps = g.1;
          }))

-- The tree leans to the right by two. The rotations balance it, and the call returns nothing if the
-- tree is as high as before, and its root if it is one less high.
pub lift_right-Lifted :
    (t : Avltree) (c : Ctx) (x r : Tree) (p : Ptr)
    → IsAvl x
    → IsAvl r
    → height r ≡ height x + 2
    → Holds t c (node x p (pos 2) r)
    → Returns (λ n u. Lifted t u c (height x + 3) (inorder (node x p (pos 2) r)) n) (lift_right p t)
lift_right-Lifted t c x leaf p ax ar e h = absurd (omega arith)
lift_right-Lifted t c x (node m y (pos zero) a) p ax ar e h = same t c x p y ax m a ar e h
lift_right-Lifted t c x (node m y (pos (suc zero)) a) p ax ar e h = once t c x p y ax m a ar e h
lift_right-Lifted t c x (node m y (pos (suc (suc n))) a) p ax ar e h = elim (ar.0) [ ]
lift_right-Lifted t c x (node leaf y (negsuc zero) a) p ax ar e h = absurd (ground (arith, ar.0))
lift_right-Lifted t c x (node (node n z bz k) y (negsuc zero) a) p ax ar e h =
    twice t c x p y ax n a k z bz ar e h
lift_right-Lifted t c x (node m y (negsuc (suc n)) a) p ax ar e h = elim (ar.0) [ ]
