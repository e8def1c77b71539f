-- ===== src/Avltree/Insert/Rotations.antt =====
-- The last part of `bs_avltree_insert`, on the memory, does what it does on trees.
use libbase.Base.{zero, suc, false, ◌≡◌, refl, arith, Bool-cases, inl, inr}
use libbase.Base.Int.{ℤ, pos, negsuc, ltb_ℤ, ◌+ℤ◌, ◌-ℤ◌, int8}
use libbase.Memory.{Ptr, pure, ◌>>=◌, when, Returns, Returns-and_then, Returns-weaken, update_self}
use libbase.Avltree.{Avltree, rot_left, rot_right}
use libbase.Avltree.Shape.{
  Tree, leaf, node, Ctx, in_left, in_right, root_of, height, Holds, Keeps, Keeps-trans,
}
use libbase.Avltree.Balanced.{Skew, IsAvl}
use libbase.Avltree.Rotate.Right.{rot_right-Holds}
use libbase.Avltree.Rotate.Left.{rot_left-Holds}
use libbase.Avltree.Insert.{grow_left, grow_right}
use libbase.Avltree.Insert.Seek.{Holds-left, Holds-right}
use libbase.Avltree.Insert.Raise.{weighed, weighed-Holds}
use libbase.Avltree.Insert.Settle.{
  prepare_left, prepare_right, turn_right, turn_left, grown_left, grown_right,
}

abbrev pub IsNode : Tree → Type 0
IsNode leaf = ⊥
IsNode (node l p b r) = Unit

pub Holds-up_left :
    (t : Avltree) (c : Ctx) (l r : Tree) (p : Ptr) (b : ℤ)
    → Holds t (in_left c p b r) l
    → Holds t c (node l p b r)
Holds-up_left t c l r p b h = record {
  shape = (h.around.0, h.shape, h.around.1);
  around = h.around.2;
  distinct = λ q. omega (arith, h.distinct q);
}

pub Holds-up_right :
    (t : Avltree) (c : Ctx) (l r : Tree) (p : Ptr) (b : ℤ)
    → Holds t (in_right c l p b) r
    → Holds t c (node l p b r)
Holds-up_right t c l r p b h = record {
  shape = (h.around.0, h.around.1, h.shape);
  around = h.around.2;
  distinct = λ q. omega (arith, h.distinct q);
}

Keeps-refl : (t : Avltree) → Keeps t t
Keeps-refl t = record { nodes = refl; live = refl; destroyed = refl }

turn_right-Holds :
    (t : Avltree) (c : Ctx) (x r : Tree) (p : Ptr) (b : ℤ)
    → IsNode x
    → Holds t c (node x p b r)
    → Returns
        (λ _ u. Keeps t u × Holds u c (turn_right x p b r))
        ((do changed ← rot_right p; pure tt) t)
turn_right-Holds t c leaf r p b n h = elim n [ ]
turn_right-Holds t c (node a y by m) r p b n h =
    Returns-and_then _ (rot_right p t) _ (rot_right-Holds t c a r y p by b m h)
      (λ s u e. (e.1, e.2))

turn_left-Holds :
    (t : Avltree) (c : Ctx) (l x : Tree) (p : Ptr) (b : ℤ)
    → IsNode x
    → Holds t c (node l p b x)
    → Returns
        (λ _ u. Keeps t u × Holds u c (turn_left l p b x))
        ((do changed ← rot_left p; pure tt) t)
turn_left-Holds t c l leaf p b n h = elim n [ ]
turn_left-Holds t c l (node m y by a) p b n h =
    Returns-and_then _ (rot_left p t) _ (rot_left-Holds t c l a y p by b m h) (λ s u e. (e.1, e.2))

-- Without a subtree on a side, the node does not lean to it.
lean_right : (a : Tree) (by : ℤ) → Skew by (height a) 0 → ltb_ℤ (pos 0) by ≡ false
unfolding ltb_ℤ
lean_right a (pos zero) s = refl
lean_right a (pos (suc zero)) s = ground arith
lean_right a (pos (suc (suc n))) s = elim s [ ]
lean_right a (negsuc n) s = ground arith

lean_left : (a : Tree) (by : ℤ) → Skew by 0 (height a) → ltb_ℤ by (pos 0) ≡ false
unfolding ltb_ℤ
lean_left a (pos n) s = ground arith
lean_left a (negsuc zero) s = ground arith
lean_left a (negsuc (suc n)) s = elim s [ ]

prepare_left-Holds :
    (t : Avltree) (c : Ctx) (a m : Tree) (y : Ptr) (by : ℤ)
    → IsAvl (node a y by m)
    → Holds t c (node a y by m)
    → Returns
        (λ _ u.
          IsNode (prepare_left (node a y by m))
          × Keeps t u
          × Holds u c (prepare_left (node a y by m)))
        (when (ltb_ℤ (pos 0) by) (do changed ← rot_left y; pure tt) t)
prepare_left-Holds t c a leaf y by v h = rw (lean_right a by v.0) (tt, Keeps-refl t, h)
prepare_left-Holds t c a (node m z bz n) y by v h = elim (Bool-cases (ltb_ℤ (pos 0) by)) [
  | inl e ↦ rw e (
      Returns-and_then _ (rot_left y t) _ (rot_left-Holds t c a n z y bz by m h)
        (λ s u k. (tt, k.1, k.2)))
  | inr e ↦ rw e (tt, Keeps-refl t, h)
]

prepare_right-Holds :
    (t : Avltree) (c : Ctx) (m a : Tree) (y : Ptr) (by : ℤ)
    → IsAvl (node m y by a)
    → Holds t c (node m y by a)
    → Returns
        (λ _ u.
          IsNode (prepare_right (node m y by a))
          × Keeps t u
          × Holds u c (prepare_right (node m y by a)))
        (when (ltb_ℤ by (pos 0)) (do changed ← rot_right y; pure tt) t)
prepare_right-Holds t c leaf a y by v h = rw (lean_left a by v.0) (tt, Keeps-refl t, h)
prepare_right-Holds t c (node m z bz n) a y by v h = elim (Bool-cases (ltb_ℤ by (pos 0))) [
  | inl e ↦ rw e (
      Returns-and_then _ (rot_right y t) _ (rot_right-Holds t c m a z y bz by n h)
        (λ s u k. (tt, k.1, k.2)))
  | inr e ↦ rw e (tt, Keeps-refl t, h)
]

-- The rotation round `p`, after the one round its child.
finish_left :
    (t u s : Avltree) (c : Ctx) (x r : Tree) (p : Ptr) (b : ℤ)
    → Keeps t u
    → IsNode x × Keeps u s × Holds s (in_left c p b r) x
    → Returns
        (λ _ v. Keeps t v × Holds v c (turn_right x p b r))
        ((do changed ← rot_right p; pure tt) s)
finish_left t u s c x r p b k y =
    Returns-weaken _ ((do changed ← rot_right p; pure tt) s)
      (λ _ v z. (Keeps-trans t u v k (Keeps-trans u s v y.1 z.0), z.1))
      (turn_right-Holds s c x r p b y.0 (Holds-up_left s c x r p b y.2))

finish_right :
    (t u s : Avltree) (c : Ctx) (l x : Tree) (p : Ptr) (b : ℤ)
    → Keeps t u
    → IsNode x × Keeps u s × Holds s (in_right c l p b) x
    → Returns
        (λ _ v. Keeps t v × Holds v c (turn_left l p b x))
        ((do changed ← rot_left p; pure tt) s)
finish_right t u s c l x p b k y =
    Returns-weaken _ ((do changed ← rot_left p; pure tt) s)
      (λ _ v z. (Keeps-trans t u v k (Keeps-trans u s v y.1 z.0), z.1))
      (turn_left-Holds s c l x p b y.0 (Holds-up_right s c l x p b y.2))

weighed-Keeps : (t : Avltree) (p : Ptr) (b : ℤ) → Keeps t (weighed t p b)
weighed-Keeps t p b = record { nodes = refl; live = refl; destroyed = refl }

pub grow_left-Holds :
    (t : Avltree) (c : Ctx) (x r : Tree) (p : Ptr) (b : ℤ)
    → IsNode x
    → IsAvl x
    → Holds t c (node x p b r)
    → Returns (λ _ u. Keeps t u × Holds u c (grown_left x p b r)) (grow_left p (root_of x) t)
unfolding grow_left
grow_left-Holds t c leaf r p b n v h = elim n [ ]
grow_left-Holds t c (node a y by m) r p b n v h =
    let b' = int8 (b -ℤ pos 1) in
    let u = weighed t p b' in
    let k = weighed-Holds t c (node a y by m) r p b b' h in
    let f = h.shape.0.is_alive in
    let g = h.shape.1.0.is_alive in
    elim (Bool-cases (ltb_ℤ b' (negsuc 0))) [
      | inl e ↦
          rw (f, h.shape.0.balance, f, f, update_self t.balance p b', e, g, k.shape.1.0.balance)
            (Returns-and_then _ (when (ltb_ℤ (pos 0) by) (do changed ← rot_left y; pure tt) u) _
              (prepare_left-Holds u (in_left c p b' r) a m y by v
                (Holds-left u c (node a y by m) r p b' k))
              (λ _ s y'.
                finish_left t u s c (prepare_left (node a y by m)) r p b' (weighed-Keeps t p b')
                  y'))
      | inr e ↦
          rw (f, h.shape.0.balance, f, f, update_self t.balance p b', e) (weighed-Keeps t p b', k)
    ]

pub grow_right-Holds :
    (t : Avltree) (c : Ctx) (l x : Tree) (p : Ptr) (b : ℤ)
    → IsNode x
    → IsAvl x
    → Holds t c (node l p b x)
    → Returns (λ _ u. Keeps t u × Holds u c (grown_right l p b x)) (grow_right p (root_of x) t)
unfolding grow_right
grow_right-Holds t c l leaf p b n v h = elim n [ ]
grow_right-Holds t c l (node m y by a) p b n v h =
    let b' = int8 (b +ℤ pos 1) in
    let u = weighed t p b' in
    let k = weighed-Holds t c l (node m y by a) p b b' h in
    let f = h.shape.0.is_alive in
    let g = h.shape.2.0.is_alive in
    elim (Bool-cases (ltb_ℤ (pos 1) b')) [
      | inl e ↦
          rw (f, h.shape.0.balance, f, f, update_self t.balance p b', e, g, k.shape.2.0.balance)
            (Returns-and_then _ (when (ltb_ℤ by (pos 0)) (do changed ← rot_right y; pure tt) u) _
              (prepare_right-Holds u (in_right c l p b') m a y by v
                (Holds-right u c l (node m y by a) p b' k))
              (λ _ s y'.
                finish_right t u s c l (prepare_right (node m y by a)) p b' (weighed-Keeps t p b')
                  y'))
      | inr e ↦
          rw (f, h.shape.0.balance, f, f, update_self t.balance p b', e) (weighed-Keeps t p b', k)
    ]
