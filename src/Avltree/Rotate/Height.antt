-- ===== src/Avltree/Rotate/Height.antt =====
-- What the result of a rotation says of the height of the subtree.
use libbase.Base.{zero, suc, ◌+◌, false, ◌≡◌, arith, ◌==◌, ◌∙◌}
use libbase.Base.Int.{ℤ, pos, negsuc, is_zero, ltb_ℤ}
use libbase.Memory.{Ptr, Returns, Returns-weaken}
use libbase.Avltree.{Avltree, rot_right, rot_left}
use libbase.Avltree.Shape.{Tree, node, Ctx, height, Holds}
use libbase.Avltree.Balanced.{IsAvl}
use libbase.Avltree.Rotate.Right.{rot_right-Holds}
use libbase.Avltree.Rotate.Left.{rot_left-Holds}
use libbase.Avltree.Rotate.Right.Run.{rotated_right}
use libbase.Avltree.Rotate.Left.Run.{rotated_left}

right_height :
    (a m r : Tree) (x p : Ptr) (bx b : ℤ)
    → IsAvl (node a x bx m)
    → height (node a x bx m) ≡ height r + 2
    → ltb_ℤ (pos 0) bx ≡ false
    → is_zero bx ≡ (height (rotated_right a x bx m p b r) == height (node (node a x bx m) p b r))
unfolding is_zero ltb_ℤ
right_height a m r x p (pos zero) b v e f = ground (arith, v.0)
right_height a m r x p (pos (suc n)) b v e f = ground arith
right_height a m r x p (negsuc zero) b v e f = ground (arith, v.0)
right_height a m r x p (negsuc (suc n)) b v e f = elim (v.0) [ ]

left_height :
    (l m a : Tree) (p x : Ptr) (b bx : ℤ)
    → IsAvl (node m x bx a)
    → height (node m x bx a) ≡ height l + 2
    → ltb_ℤ bx (pos 0) ≡ false
    → is_zero bx ≡ (height (rotated_left l p b m x bx a) == height (node l p b (node m x bx a)))
unfolding is_zero ltb_ℤ
left_height l m a p x b (negsuc n) v e f = ground arith
left_height l m a p x b (pos zero) v e f = ground (arith, v.0)
left_height l m a p x b (pos (suc zero)) v e f = ground (arith, v.0)
left_height l m a p x b (pos (suc (suc n))) v e f = elim (v.0) [ ]

-- A rotation to the right of a subtree whose balanced left child is two higher than its right one,
-- and does not lean to the right, returns whether the subtree is as high afterwards as it was
-- before, and holds the turned subtree.
pub rot_right-height :
    (t : Avltree) (c : Ctx) (a m r : Tree) (x p : Ptr) (bx b : ℤ)
    → Holds t c (node (node a x bx m) p b r)
    → IsAvl (node a x bx m)
    → height (node a x bx m) ≡ height r + 2
    → ltb_ℤ (pos 0) bx ≡ false
    → Returns
        (λ s u.
          (s ≡ (height (rotated_right a x bx m p b r) == height (node (node a x bx m) p b r)))
          × Holds u c (rotated_right a x bx m p b r))
        (rot_right p t)
rot_right-height t c a m r x p bx b h v e f =
    Returns-weaken _ (rot_right p t) (λ s u k. (k.0 ∙ right_height a m r x p bx b v e f, k.2))
      (rot_right-Holds t c a r x p bx b m h)

-- The mirror image: a rotation to the left returns whether the subtree is as high as before.
pub rot_left-height :
    (t : Avltree) (c : Ctx) (l m a : Tree) (p x : Ptr) (b bx : ℤ)
    → Holds t c (node l p b (node m x bx a))
    → IsAvl (node m x bx a)
    → height (node m x bx a) ≡ height l + 2
    → ltb_ℤ bx (pos 0) ≡ false
    → Returns
        (λ s u.
          (s ≡ (height (rotated_left l p b m x bx a) == height (node l p b (node m x bx a))))
          × Holds u c (rotated_left l p b m x bx a))
        (rot_left p t)
rot_left-height t c l m a p x b bx h v e f =
    Returns-weaken _ (rot_left p t) (λ s u k. (k.0 ∙ left_height l m a p x b bx v e f, k.2))
      (rot_left-Holds t c l a x p bx b m h)
