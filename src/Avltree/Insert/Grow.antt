-- ===== src/Avltree/Insert/Grow.antt =====
-- The climb and the rotations keep the tree balanced and its order.
use libbase.Base.{
  ℕ, zero, suc, ◌+◌, false, ◌≡◌, refl, arith, larger, ◌∙◌, ap, sym, ◌∷◌, ◌++◌, append_assoc,
  Bool-cases, inl, inr,
}
use libbase.Base.Int.{ℤ, pos, negsuc, ltb_ℤ, ◌+ℤ◌, ◌-ℤ◌, int8, is_zero}
use libbase.Memory.{Ptr}
use libbase.Avltree.Shape.{Tree, leaf, node, Ctx, top, in_left, in_right, plug, inorder, height}
use libbase.Avltree.Balanced.{IsAvl, CtxAvl, IsAvl-plug}
use libbase.Avltree.Search.Next.{before, after, inorder-plug}
use libbase.Avltree.Insert.Raise.{climb}
use libbase.Avltree.Insert.Settle.{
  prepare_left, prepare_right, turn_right, turn_left, grown_left, grown_right, IsGrown,
  grown_left-Restored, grown_right-Restored, settle,
}

-- The node above a hole was not balanced.
abbrev pub IsHeavy : Ctx → Type 0
IsHeavy top = Unit
IsHeavy (in_left c p b r) = is_zero b ≡ false
IsHeavy (in_right c l p b) = is_zero b ≡ false

-- A tree that grew by one in a hole for the height `h`.
pub record Grew (c : Ctx) (x : Tree) (h : ℕ) : Type 0 where
  pub around : CtxAvl h c
  pub balanced : IsAvl x
  pub grown : IsGrown x
  pub higher : height x ≡ h + 1

pub climb-Grew :
    (c : Ctx) (x : Tree) (h : ℕ)
    → Grew c x h
    → IsHeavy (climb c x).0 × (h' : ℕ) × Grew (climb c x).0 (climb c x).1 h'
unfolding is_zero int8 ◌+ℤ◌ ◌-ℤ◌
climb-Grew top x h g = (tt, h, g)
climb-Grew (in_left c p (pos zero) r) x h g =
    climb-Grew c (node x p (negsuc 0) r) (larger h (height r) + 1) (record {
      around = g.around.2;
      balanced = (ground (arith, g.higher, g.around.0), g.balanced, g.around.1);
      grown = λ _. refl;
      higher = ground (arith, g.higher, g.around.0);
    })
climb-Grew (in_left c p (pos (suc n)) r) x h g = (ground arith, h, ground arith)
climb-Grew (in_left c p (negsuc n) r) x h g = (refl, h, g)
climb-Grew (in_right c l p (pos zero)) x h g =
    climb-Grew c (node l p (pos 1) x) (larger (height l) h + 1) (record {
      around = g.around.2;
      balanced = (ground (arith, g.higher, g.around.0), g.around.1, g.balanced);
      grown = λ _. refl;
      higher = ground (arith, g.higher, g.around.0);
    })
climb-Grew (in_right c l p (pos (suc n))) x h g = (ground arith, h, ground arith)
climb-Grew (in_right c l p (negsuc n)) x h g = (refl, h, g)

pub settle-IsAvl : (c : Ctx) (x : Tree) (h : ℕ) → IsHeavy c → Grew c x h → IsAvl (settle c x)
settle-IsAvl top x h y g = g.balanced
settle-IsAvl (in_left c p b r) x h y g =
    let s = grown_left-Restored h x r p b g.balanced g.grown g.higher g.around.1 g.around.0 y in
    IsAvl-plug c (grown_left x p b r) _ s.0 s.1 g.around.2
settle-IsAvl (in_right c l p b) x h y g =
    let s = grown_right-Restored h l x p b g.balanced g.grown g.higher g.around.1 g.around.0 y in
    IsAvl-plug c (grown_right l p b x) _ s.0 s.1 g.around.2

inorder-turn_right :
    (x r : Tree) (p : Ptr) (b : ℤ) → inorder (turn_right x p b r) ≡ inorder x ++ p ∷ inorder r
inorder-turn_right leaf r p b = refl
inorder-turn_right (node a y by m) r p b = simp append_assoc

inorder-turn_left :
    (l x : Tree) (p : Ptr) (b : ℤ) → inorder (turn_left l p b x) ≡ inorder l ++ p ∷ inorder x
inorder-turn_left l leaf p b = refl
inorder-turn_left l (node m y by a) p b = simp append_assoc

inorder-prepare_left : (x : Tree) → inorder (prepare_left x) ≡ inorder x
inorder-prepare_left leaf = refl
inorder-prepare_left (node a y by leaf) = refl
inorder-prepare_left (node a y by (node m z bz n)) = elim (Bool-cases (ltb_ℤ (pos 0) by)) [
  | inl e ↦ rw e (simp append_assoc)
  | inr e ↦ rw e refl
]

inorder-prepare_right : (x : Tree) → inorder (prepare_right x) ≡ inorder x
inorder-prepare_right leaf = refl
inorder-prepare_right (node leaf y by a) = refl
inorder-prepare_right (node (node m z bz n) y by a) = elim (Bool-cases (ltb_ℤ by (pos 0))) [
  | inl e ↦ rw e (simp append_assoc)
  | inr e ↦ rw e refl
]

inorder-grown_left :
    (x r : Tree) (p : Ptr) (b : ℤ) → inorder (grown_left x p b r) ≡ inorder x ++ p ∷ inorder r
inorder-grown_left x r p b = elim (Bool-cases (ltb_ℤ (int8 (b -ℤ pos 1)) (negsuc 0))) [
  | inl e ↦ rw e (
      inorder-turn_right (prepare_left x) r p _
      ∙ ap (λ xs. xs ++ p ∷ inorder r) (inorder-prepare_left x))
  | inr e ↦ rw e refl
]

inorder-grown_right :
    (l x : Tree) (p : Ptr) (b : ℤ) → inorder (grown_right l p b x) ≡ inorder l ++ p ∷ inorder x
inorder-grown_right l x p b = elim (Bool-cases (ltb_ℤ (pos 1) (int8 (b +ℤ pos 1)))) [
  | inl e ↦ rw e (
      inorder-turn_left l (prepare_right x) p _
      ∙ ap (λ xs. inorder l ++ p ∷ xs) (inorder-prepare_right x))
  | inr e ↦ rw e refl
]

-- Trees with the same nodes in order have them in the same hole.
same_inorder :
    (c : Ctx) (x y : Tree) → inorder x ≡ inorder y → inorder (plug c x) ≡ inorder (plug c y)
same_inorder c x y e =
    inorder-plug c x ∙ ap (λ xs. before c ++ xs ++ after c) e ∙ sym (inorder-plug c y)

pub inorder-settle : (c : Ctx) (x : Tree) → inorder (settle c x) ≡ inorder (plug c x)
inorder-settle top x = refl
inorder-settle (in_left c p b r) x =
    same_inorder c (grown_left x p b r) (node x p b r) (inorder-grown_left x r p b)
inorder-settle (in_right c l p b) x =
    same_inorder c (grown_right l p b x) (node l p b x) (inorder-grown_right l x p b)

pub inorder-climb :
    (c : Ctx) (x : Tree) → inorder (plug (climb c x).0 (climb c x).1) ≡ inorder (plug c x)
inorder-climb top x = refl
inorder-climb (in_left c p b r) x = elim (Bool-cases (is_zero b)) [
  | inl e ↦ rw e (
      inorder-climb c (node x p (int8 (b -ℤ pos 1)) r)
      ∙ same_inorder c (node x p (int8 (b -ℤ pos 1)) r) (node x p b r) refl)
  | inr e ↦ rw e refl
]
inorder-climb (in_right c l p b) x = elim (Bool-cases (is_zero b)) [
  | inl e ↦ rw e (
      inorder-climb c (node l p (int8 (b +ℤ pos 1)) x)
      ∙ same_inorder c (node l p (int8 (b +ℤ pos 1)) x) (node l p b x) refl)
  | inr e ↦ rw e refl
]
