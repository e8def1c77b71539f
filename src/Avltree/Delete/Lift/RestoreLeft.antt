-- ===== src/Avltree/Delete/Lift/RestoreLeft.antt =====
-- The heights of a subtree that leaned to the left, after its rotations.
use libbase.Base.{◌+◌, ◌≡◌, refl, arith, ◌∙◌, larger}
use libbase.Base.Int.{ℤ, pos, negsuc, ltb_ℤ, ◌+ℤ◌, ◌-ℤ◌, int8, is_zero}
use libbase.Memory.{Ptr}
use libbase.Avltree.Shape.{Tree, leaf, node, height}
use libbase.Avltree.Balanced.{IsAvl}
use libbase.Avltree.Rotate.Balance.{down_right, up_right, down_left, up_left}
use libbase.Avltree.Rotate.Right.Run.{rotated_right}
use libbase.Avltree.Insert.Settle.{Restored, IsGrown, grown_left, grown_left-Restored}

-- The turned subtree is balanced, and one less high than before the removal.
turned_back :
    (x r : Tree) (p : Ptr)
    → IsAvl x
    → IsAvl r
    → IsGrown r
    → height r ≡ height x + 2
    → Restored (height x + 2) (grown_left r p (negsuc 0) x)
unfolding is_zero
turned_back x r p ax ar g e =
    let y = grown_left-Restored (height x + 1) r x p (negsuc 0) ar g (omega arith) ax refl refl in
    let k : larger (height x + 1) (height x) + 1 ≡ height x + 2 = ground arith in (y.0, y.1 ∙ k)

pub turned_twice :
    (x n k a : Tree) (p y z : Ptr) (bz : ℤ)
    → IsAvl x
    → IsAvl (node a y (pos 1) (node k z bz n))
    → height (node a y (pos 1) (node k z bz n)) ≡ height x + 2
    → Restored
        (height x + 2)
        (rotated_right (node a y (down_left (pos 1) bz) k) z (up_left (pos 1) bz) n p (negsuc 1) x)
unfolding ltb_ℤ int8 ◌-ℤ◌ is_zero
turned_twice x n k a p y z bz ax v e =
    turned_back x (node a y (pos 1) (node k z bz n)) p ax v (λ le. refl) e

pub turned_once :
    (x m a : Tree) (p y : Ptr)
    → IsAvl x
    → IsAvl (node a y (negsuc 0) m)
    → height (node a y (negsuc 0) m) ≡ height x + 2
    → Restored (height x + 2) (rotated_right a y (negsuc 0) m p (negsuc 1) x)
unfolding ltb_ℤ int8 ◌-ℤ◌ is_zero
turned_once x leaf a p y ax v e = turned_back x (node a y (negsuc 0) leaf) p ax v (λ le. refl) e
turned_once x (node n z bz k) a p y ax v e =
    turned_back x (node a y (negsuc 0) (node n z bz k)) p ax v (λ le. refl) e

-- If the child was balanced, the subtree is as high as before the removal.
pub turned_same :
    (x m a : Tree) (p y : Ptr)
    → IsAvl x
    → IsAvl (node a y (pos 0) m)
    → height (node a y (pos 0) m) ≡ height x + 2
    → Restored (height x + 3) (rotated_right a y (pos 0) m p (negsuc 1) x)
unfolding ltb_ℤ int8 ◌+ℤ◌ ◌-ℤ◌ down_right up_right
turned_same x m a p y ax v e =
    ((ground (arith, v.0), v.1, (ground (arith, v.0), v.2, ax)), ground (arith, v.0))
