-- ===== src/Avltree/Delete/Lift/RestoreRight.antt =====
-- The heights of a subtree that leaned to the right, after its rotations.
use libbase.Base.{◌+◌, ◌≡◌, refl, arith, ◌∙◌, larger}
use libbase.Base.Int.{ℤ, pos, negsuc, ltb_ℤ, ◌+ℤ◌, ◌-ℤ◌, int8, is_zero}
use libbase.Memory.{Ptr}
use libbase.Avltree.Shape.{Tree, leaf, node, height}
use libbase.Avltree.Balanced.{IsAvl}
use libbase.Avltree.Rotate.Balance.{down_right, up_right, down_left, up_left}
use libbase.Avltree.Rotate.Left.Run.{rotated_left}
use libbase.Avltree.Insert.Settle.{Restored, IsGrown, grown_right, grown_right-Restored}

-- The turned subtree is balanced, and one less high than before the removal.
turned_back :
    (x r : Tree) (p : Ptr)
    → IsAvl x
    → IsAvl r
    → IsGrown r
    → height r ≡ height x + 2
    → Restored (height x + 2) (grown_right x p (pos 1) r)
unfolding is_zero
turned_back x r p ax ar g e =
    let y = grown_right-Restored (height x + 1) x r p (pos 1) ar g (omega arith) ax refl refl in
    let k : larger (height x) (height x + 1) + 1 ≡ height x + 2 = ground arith in (y.0, y.1 ∙ k)

pub turned_twice :
    (x n k a : Tree) (p y z : Ptr) (bz : ℤ)
    → IsAvl x
    → IsAvl (node (node n z bz k) y (negsuc 0) a)
    → height (node (node n z bz k) y (negsuc 0) a) ≡ height x + 2
    → Restored (height x + 2) (
        rotated_left x p
          (pos 2)
          n
          z
          (up_right (negsuc 0) bz)
          (node k y (down_right (negsuc 0) bz) a))
unfolding ltb_ℤ int8 ◌+ℤ◌ is_zero
turned_twice x n k a p y z bz ax v e =
    turned_back x (node (node n z bz k) y (negsuc 0) a) p ax v (λ le. refl) e

pub turned_once :
    (x m a : Tree) (p y : Ptr)
    → IsAvl x
    → IsAvl (node m y (pos 1) a)
    → height (node m y (pos 1) a) ≡ height x + 2
    → Restored (height x + 2) (rotated_left x p (pos 2) m y (pos 1) a)
unfolding ltb_ℤ int8 ◌+ℤ◌ is_zero
turned_once x leaf a p y ax v e = turned_back x (node leaf y (pos 1) a) p ax v (λ le. refl) e
turned_once x (node n z bz k) a p y ax v e =
    turned_back x (node (node n z bz k) y (pos 1) a) p ax v (λ le. refl) e

-- If the child was balanced, the subtree is as high as before the removal.
pub turned_same :
    (x m a : Tree) (p y : Ptr)
    → IsAvl x
    → IsAvl (node m y (pos 0) a)
    → height (node m y (pos 0) a) ≡ height x + 2
    → Restored (height x + 3) (rotated_left x p (pos 2) m y (pos 0) a)
unfolding ltb_ℤ int8 ◌+ℤ◌ ◌-ℤ◌ down_left up_left
turned_same x m a p y ax v e =
    ((ground (arith, v.0), (ground (arith, v.0), ax, v.1), v.2), ground (arith, v.0))
