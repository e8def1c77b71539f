-- ===== src/Avltree/Delete/Lift/Left.antt =====
-- The rotations to the right of a subtree that leans to the left.
use libbase.Base.{zero, suc, ◌+◌, ◌≤◌, true, false, ◌≡◌, refl, arith, append_assoc, Option, some}
use libbase.Base.Int.{ℤ, pos, negsuc, ltb_ℤ, is_zero}
use libbase.Memory.{Ptr, pure, ◌>>=◌, Returns, Returns-and_then, Returns-weaken}
use libbase.Avltree.{Avltree, get_parent, rot_left, rot_right}
use libbase.Avltree.Shape.{
  Tree, leaf, node, Ctx, in_left, inorder, height, Holds, Keeps, Keeps-trans,
}
use libbase.Avltree.Balanced.{IsAvl}
use libbase.Avltree.Relink.{ne_null_of_alive}
use libbase.Avltree.Rotate.Balance.{down_left, up_left}
use libbase.Avltree.Rotate.Right.{rot_right-Holds}
use libbase.Avltree.Rotate.Left.{rot_left-Holds}
use libbase.Avltree.Rotate.Right.Run.{rotated_right}
use libbase.Avltree.Rotate.Left.Run.{rotated_left}
use libbase.Avltree.Insert.Seek.{Holds-left}
use libbase.Avltree.Insert.Rotations.{Holds-up_left}
use libbase.Avltree.Delete.{lift_left}
use libbase.Avltree.Delete.Lift.{Lifted, outer-alive, end}
use libbase.Avltree.Delete.Lift.RestoreLeft.{turned_twice, turned_once, turned_same}

-- A rotation, and the root of the turned subtree.
turned :
    (t : Avltree) (c : Ctx) (l m a : Tree) (p y : Ptr) (b by : ℤ)
    → Holds t c (node (node a y by m) p b l)
    → Returns
        (λ n u. (n ≡ some y) × Keeps t u × Holds u c (rotated_right a y by m p b l))
        ((do same ← rot_right p; n ← get_parent p; pure (some n)) t)
turned t c l m a p y b by h =
    Returns-and_then _ (rot_right p t) _ (rot_right-Holds t c a l y p by b m h)
      λ s u k. rw (k.2.shape.2.0.is_alive, k.2.shape.2.0.parent) (refl, k.1, k.2)

leans_right : ltb_ℤ (pos 0) (pos 1) ≡ true
unfolding ltb_ℤ
leans_right = refl

leans_left : ltb_ℤ (pos 0) (negsuc 0) ≡ false
unfolding ltb_ℤ
leans_left = refl

leans_neither : ltb_ℤ (pos 0) (pos 0) ≡ false
unfolding ltb_ℤ
leans_neither = refl

module _ (t : Avltree) (c : Ctx) (x : Tree) (p y : Ptr) (ax : IsAvl x) where
  abbrev Result : Tree → Option Ptr → Avltree → Type 0
  Result r n u = Lifted t u c (height x + 3) (inorder (node r p (negsuc 1) x)) n

  -- The right child leans to the left, and is turned first.
  twice :
      (n a k : Tree) (z : Ptr) (bz : ℤ)
      → IsAvl (node a y (pos 1) (node k z bz n))
      → height (node a y (pos 1) (node k z bz n)) ≡ height x + 2
      → Holds t c (node (node a y (pos 1) (node k z bz n)) p (negsuc 1) x)
      → Returns (Result (node a y (pos 1) (node k z bz n))) (lift_left p t)
  unfolding lift_left
  twice n a k z bz v e h =
      let s = h.shape.0 in
      let s' = h.shape.1.0 in
      let r = node a y (pos 1) (node k z bz n) in
      let m = node a y (down_left (pos 1) bz) k in
      let w = turned_twice x n k a p y z bz ax v e in
      rw
        (
          s.is_alive,
          s.left,
          ne_null_of_alive t.live y s'.is_alive,
          s'.is_alive,
          s'.balance,
          leans_right,
        )
        (Returns-and_then _ (rot_left y t) _
          (rot_left-Holds t (in_left c p (negsuc 1) x) a n z y bz (pos 1) k
            (Holds-left t c r x p (negsuc 1) h))
          λ same u g.
            Returns-weaken _ ((do same' ← rot_right p; d ← get_parent p; pure (some d)) u)
              (λ d u' f. record {
                tree = rotated_right m z (up_left (pos 1) bz) n p (negsuc 1) x;
                holds = f.2;
                balanced = w.0;
                order = simp append_assoc;
                verdict = rw (f.0) (tt, refl, omega (arith, w.1));
                keeps = Keeps-trans t u u' g.1 f.1;
              })
              (turned u c x n m p z (negsuc 1) (up_left (pos 1) bz)
                (Holds-up_left u c (rotated_left a y (pos 1) k z bz n) x p (negsuc 1) g.2)))

  module _ (m a : Tree) (by : ℤ) (h : Holds t c (node (node a y by m) p (negsuc 1) x))
      (outer : 1 ≤ height a) where
    lift_left-once :
        ltb_ℤ (pos 0) by ≡ false → lift_left p t ≡ (do same ← rot_right p; end p same) t
    unfolding lift_left
    lift_left-once f =
        let s = h.shape.0 in
        let s' = h.shape.1.0 in
        rw
          (
            s.is_alive,
            s.left,
            ne_null_of_alive t.live y s'.is_alive,
            s'.is_alive,
            s'.balance,
            f,
            s'.is_alive,
            s'.left,
            outer-alive t y a h.shape.1.1 outer,
          )
          refl

  -- The right child leans to the right.
  once :
      (m a : Tree)
      → IsAvl (node a y (negsuc 0) m)
      → height (node a y (negsuc 0) m) ≡ height x + 2
      → Holds t c (node (node a y (negsuc 0) m) p (negsuc 1) x)
      → Returns (Result (node a y (negsuc 0) m)) (lift_left p t)
  unfolding is_zero
  once m a v e h =
      let w = turned_once x m a p y ax v e in
      rw (lift_left-once m a (negsuc 0) h (ground (arith, v.0)) leans_left) (
        Returns-and_then _ (rot_right p t) (end p)
          (rot_right-Holds t c a x y p (negsuc 0) (negsuc 1) m h)
          λ same u g.
            let i = g.2.shape.2.0 in
            rw (g.0, i.is_alive, i.parent)
              (record {
                tree = rotated_right a y (negsuc 0) m p (negsuc 1) x;
                holds = g.2;
                balanced = w.0;
                order = simp append_assoc;
                verdict = (tt, refl, omega (arith, w.1));
                keeps = g.1;
              }))

  -- The right child is balanced.
  same :
      (m a : Tree)
      → IsAvl (node a y (pos 0) m)
      → height (node a y (pos 0) m) ≡ height x + 2
      → Holds t c (node (node a y (pos 0) m) p (negsuc 1) x)
      → Returns (Result (node a y (pos 0) m)) (lift_left p t)
  unfolding is_zero
  same m a v e h =
      let w = turned_same x m a p y ax v e in
      rw (lift_left-once m a (pos 0) h (ground (arith, v.0)) leans_neither) (
        Returns-and_then _ (rot_right p t) (end p)
          (rot_right-Holds t c a x y p (pos 0) (negsuc 1) m h)
          λ s u g. rw (g.0) (record {
            tree = rotated_right a y (pos 0) m p (negsuc 1) x;
            holds = g.2;
            balanced = w.0;
            order = simp append_assoc;
            verdict = w.1;
            keeps = g.1;
          }))

-- The tree leans to the left by two. The rotations balance it, and the call returns nothing if the
-- tree is as high as before, and its root if it is one less high.
pub lift_left-Lifted :
    (t : Avltree) (c : Ctx) (x r : Tree) (p : Ptr)
    → IsAvl x
    → IsAvl r
    → height r ≡ height x + 2
    → Holds t c (node r p (negsuc 1) x)
    → Returns
        (λ n u. Lifted t u c (height x + 3) (inorder (node r p (negsuc 1) x)) n)
        (lift_left p t)
lift_left-Lifted t c x leaf p ax ar e h = absurd (omega arith)
lift_left-Lifted t c x (node a y (pos zero) m) p ax ar e h = same t c x p y ax m a ar e h
lift_left-Lifted t c x (node a y (negsuc zero) m) p ax ar e h = once t c x p y ax m a ar e h
lift_left-Lifted t c x (node a y (negsuc (suc n)) m) p ax ar e h = elim (ar.0) [ ]
lift_left-Lifted t c x (node a y (pos (suc zero)) leaf) p ax ar e h = absurd (ground (arith, ar.0))
lift_left-Lifted t c x (node a y (pos (suc zero)) (node k z bz n)) p ax ar e h =
    twice t c x p y ax n a k z bz ar e h
lift_left-Lifted t c x (node a y (pos (suc (suc n))) m) p ax ar e h = elim (ar.0) [ ]
