-- ===== src/Avltree/Insert/Settle.antt =====
-- The last part of `bs_avltree_insert`, on trees: the first parent that was not balanced, with one
-- subtree that grew, is balanced again, and as high as before.
use libbase.Base.{ℕ, zero, suc, ◌+◌, ◌≤◌, false, ◌≡◌, arith, larger, if◌then◌else◌}
use libbase.Base.Int.{ℤ, pos, negsuc, ltb_ℤ, ◌+ℤ◌, ◌-ℤ◌, int8, is_zero}
use libbase.Memory.{Ptr}
use libbase.Avltree.Shape.{Tree, leaf, node, Ctx, top, in_left, in_right, plug, height}
use libbase.Avltree.Balanced.{Skew, IsAvl}
use libbase.Avltree.Rotate.Balance.{down_right, up_right, down_left, up_left}
use libbase.Avltree.Rotate.Right.Run.{rotated_right}
use libbase.Avltree.Rotate.Left.Run.{rotated_left}

-- The rotation round a child that leans the other way, before the one round `p`.
abbrev pub prepare_left : Tree → Tree
prepare_left (node a y by (node m z bz n)) =
    if ltb_ℤ (pos 0) by then rotated_left a y by m z bz n else node a y by (node m z bz n)
prepare_left x = x

abbrev pub prepare_right : Tree → Tree
prepare_right (node (node m z bz n) y by a) =
    if ltb_ℤ by (pos 0) then rotated_right m z bz n y by a else node (node m z bz n) y by a
prepare_right x = x

abbrev pub turn_right : Tree → Ptr → ℤ → Tree → Tree
turn_right leaf p b r = node leaf p b r
turn_right (node a y by m) p b r = rotated_right a y by m p b r

abbrev pub turn_left : Tree → Ptr → ℤ → Tree → Tree
turn_left l p b leaf = node l p b leaf
turn_left l p b (node m y by a) = rotated_left l p b m y by a

-- The tree after its left, or right, subtree `x` grew.
abbrev pub grown_left : Tree → Ptr → ℤ → Tree → Tree
grown_left x p b r =
    if ltb_ℤ (int8 (b -ℤ pos 1)) (negsuc 0)
    then turn_right (prepare_left x) p (int8 (b -ℤ pos 1)) r
    else node x p (int8 (b -ℤ pos 1)) r

abbrev pub grown_right : Tree → Ptr → ℤ → Tree → Tree
grown_right l p b x =
    if ltb_ℤ (pos 1) (int8 (b +ℤ pos 1))
    then turn_left l p (int8 (b +ℤ pos 1)) (prepare_right x)
    else node l p (int8 (b +ℤ pos 1)) x

-- A tree that just grew leans to a side, unless it is a new leaf.
abbrev pub IsGrown : Tree → Type 0
IsGrown leaf = ⊥
IsGrown (node l p b r) = 2 ≤ height (node l p b r) → is_zero b ≡ false

-- What the balancing restores.
abbrev pub Restored : ℕ → Tree → Type 0
Restored h x = IsAvl x × (height x ≡ h)

pub grown_left-Restored :
    (h : ℕ) (x r : Tree) (p : Ptr) (b : ℤ)
    → IsAvl x
    → IsGrown x
    → height x ≡ h + 1
    → IsAvl r
    → Skew b h (height r)
    → is_zero b ≡ false
    → Restored (larger h (height r) + 1) (grown_left x p b r)
unfolding ltb_ℤ int8 ◌+ℤ◌ ◌-ℤ◌ is_zero down_right up_right down_left up_left
grown_left-Restored h x r p (pos zero) ax g e ar s z = ground arith
grown_left-Restored h x r p (pos (suc zero)) ax g e ar s z = ((omega arith, ax, ar), ground arith)
grown_left-Restored h x r p (pos (suc (suc n))) ax g e ar s z = elim s [ ]
grown_left-Restored h x r p (negsuc (suc n)) ax g e ar s z = elim s [ ]
grown_left-Restored h leaf r p (negsuc zero) ax g e ar s z = elim g [ ]
grown_left-Restored h (node a y (pos zero) m) r p (negsuc zero) ax g e ar s z =
    ground (arith, g (omega arith))
grown_left-Restored h (node a y (negsuc zero) leaf) r p (negsuc zero) ax g e ar s z =
    ((ground arith, ax.1, (ground arith, ax.2, ar)), ground arith)
grown_left-Restored h (node a y (negsuc zero) (node m w bz n)) r p (negsuc zero) ax g e ar s z =
    ((ground arith, ax.1, (ground arith, ax.2, ar)), ground arith)
grown_left-Restored h (node a y (pos (suc zero)) leaf) r p (negsuc zero) ax g e ar s z =
    ground (arith, ax.0)
grown_left-Restored h (node a y (pos (suc zero)) (node m w (pos zero) n)) r p (negsuc zero) ax g e
      ar s z =
    ((ground arith, (ground arith, ax.1, ax.2.1), (ground arith, ax.2.2, ar)), ground arith)
grown_left-Restored h (node a y (pos (suc zero)) (node m w (pos (suc zero)) n)) r p (negsuc zero) ax
      g e ar s z =
    ((ground arith, (ground arith, ax.1, ax.2.1), (ground arith, ax.2.2, ar)), ground arith)
grown_left-Restored h (node a y (pos (suc zero)) (node m w (negsuc zero) n)) r p (negsuc zero) ax g
      e ar s z =
    ((ground arith, (ground arith, ax.1, ax.2.1), (ground arith, ax.2.2, ar)), ground arith)
grown_left-Restored h (node a y (pos (suc zero)) (node m w (pos (suc (suc k))) n)) r p (negsuc zero)
      ax g e ar s z =
    elim (ax.2.0) [ ]
grown_left-Restored h (node a y (pos (suc zero)) (node m w (negsuc (suc k)) n)) r p (negsuc zero) ax
      g e ar s z =
    elim (ax.2.0) [ ]
grown_left-Restored h (node a y (pos (suc (suc k))) m) r p (negsuc zero) ax g e ar s z =
    elim (ax.0) [ ]
grown_left-Restored h (node a y (negsuc (suc k)) m) r p (negsuc zero) ax g e ar s z =
    elim (ax.0) [ ]

pub grown_right-Restored :
    (h : ℕ) (l x : Tree) (p : Ptr) (b : ℤ)
    → IsAvl x
    → IsGrown x
    → height x ≡ h + 1
    → IsAvl l
    → Skew b (height l) h
    → is_zero b ≡ false
    → Restored (larger (height l) h + 1) (grown_right l p b x)
unfolding ltb_ℤ int8 ◌+ℤ◌ ◌-ℤ◌ is_zero down_right up_right down_left up_left
grown_right-Restored h l x p (pos zero) ax g e al s z = ground arith
grown_right-Restored h l x p (negsuc zero) ax g e al s z = ((omega arith, al, ax), ground arith)
grown_right-Restored h l x p (pos (suc (suc n))) ax g e al s z = elim s [ ]
grown_right-Restored h l x p (negsuc (suc n)) ax g e al s z = elim s [ ]
grown_right-Restored h l leaf p (pos (suc zero)) ax g e al s z = elim g [ ]
grown_right-Restored h l (node m y (pos zero) a) p (pos (suc zero)) ax g e al s z =
    ground (arith, g (omega arith))
grown_right-Restored h l (node leaf y (pos (suc zero)) a) p (pos (suc zero)) ax g e al s z =
    ((ground arith, (ground arith, al, ax.1), ax.2), ground arith)
grown_right-Restored h l (node (node n w bz m) y (pos (suc zero)) a) p (pos (suc zero)) ax g e al s
      z =
    ((ground arith, (ground arith, al, ax.1), ax.2), ground arith)
grown_right-Restored h l (node leaf y (negsuc zero) a) p (pos (suc zero)) ax g e al s z =
    ground (arith, ax.0)
grown_right-Restored h l (node (node n w (pos zero) m) y (negsuc zero) a) p (pos (suc zero)) ax g e
      al s z =
    ((ground arith, (ground arith, al, ax.1.1), (ground arith, ax.1.2, ax.2)), ground arith)
grown_right-Restored h l (node (node n w (pos (suc zero)) m) y (negsuc zero) a) p (pos (suc zero))
      ax g e al s z =
    ((ground arith, (ground arith, al, ax.1.1), (ground arith, ax.1.2, ax.2)), ground arith)
grown_right-Restored h l (node (node n w (negsuc zero) m) y (negsuc zero) a) p (pos (suc zero)) ax g
      e al s z =
    ((ground arith, (ground arith, al, ax.1.1), (ground arith, ax.1.2, ax.2)), ground arith)
grown_right-Restored h l (node (node n w (pos (suc (suc k))) m) y (negsuc zero) a) p
      (pos (suc zero)) ax g e al s z =
    elim (ax.1.0) [ ]
grown_right-Restored h l (node (node n w (negsuc (suc k)) m) y (negsuc zero) a) p (pos (suc zero))
      ax g e al s z =
    elim (ax.1.0) [ ]
grown_right-Restored h l (node m y (pos (suc (suc k))) a) p (pos (suc zero)) ax g e al s z =
    elim (ax.0) [ ]
grown_right-Restored h l (node m y (negsuc (suc k)) a) p (pos (suc zero)) ax g e al s z =
    elim (ax.0) [ ]

-- The whole second half of the call, on trees: the tree `x` that grew in the hole of `c`.
abbrev pub settle : Ctx → Tree → Tree
settle top x = x
settle (in_left c p b r) x = plug c (grown_left x p b r)
settle (in_right c l p b) x = plug c (grown_right l p b x)
