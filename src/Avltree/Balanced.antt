-- ===== src/Avltree/Balanced.antt =====
-- The balance that every node of an AVL tree has.
use libbase.Base.{ℕ, zero, suc, ◌+◌, ◌≡◌, refl, larger, subst, sym}
use libbase.Base.Int.{ℤ, pos, negsuc}
use libbase.Avltree.Shape.{Tree, leaf, node, Ctx, top, in_left, in_right, plug, height}

-- The balance is the height of the right subtree less that of the left one, and -1, 0 or 1.
abbrev pub Skew : ℤ → ℕ → ℕ → Type 0
Skew (pos zero) hl hr = hl ≡ hr
Skew (pos (suc zero)) hl hr = hr ≡ hl + 1
Skew (pos (suc (suc n))) hl hr = ⊥
Skew (negsuc zero) hl hr = hl ≡ hr + 1
Skew (negsuc (suc n)) hl hr = ⊥

abbrev pub IsAvl : Tree → Type 0
IsAvl leaf = Unit
IsAvl (node l p b r) = Skew b (height l) (height r) × IsAvl l × IsAvl r

-- What is around a hole is balanced, if the tree in the hole is and has the height `h`.
abbrev pub CtxAvl : ℕ → Ctx → Type 0
CtxAvl h top = Unit
CtxAvl h (in_left c p b r) = Skew b h (height r) × IsAvl r × CtxAvl (larger h (height r) + 1) c
CtxAvl h (in_right c l p b) = Skew b (height l) h × IsAvl l × CtxAvl (larger (height l) h + 1) c

pub IsAvl-plug :
    (c : Ctx) (x : Tree) (h : ℕ) → IsAvl x → height x ≡ h → CtxAvl h c → IsAvl (plug c x)
IsAvl-plug top x h a e s = a
IsAvl-plug (in_left c p b r) x h a e s =
    let s' = subst (λ k. CtxAvl k (in_left c p b r)) (sym e) s in
    IsAvl-plug c (node x p b r) _ (s'.0, a, s'.1) refl s'.2
IsAvl-plug (in_right c l p b) x h a e s =
    let s' = subst (λ k. CtxAvl k (in_right c l p b)) (sym e) s in
    IsAvl-plug c (node l p b x) _ (s'.0, s'.1, a) refl s'.2

pub plug-IsAvl : (c : Ctx) (x : Tree) → IsAvl (plug c x) → IsAvl x × CtxAvl (height x) c
plug-IsAvl top x a = (a, tt)
plug-IsAvl (in_left c p b r) x a =
    let y = plug-IsAvl c (node x p b r) a in (y.0.1, (y.0.0, y.0.2, y.1))
plug-IsAvl (in_right c l p b) x a =
    let y = plug-IsAvl c (node l p b x) a in (y.0.2, (y.0.0, y.0.1, y.1))
