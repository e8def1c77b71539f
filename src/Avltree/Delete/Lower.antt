-- ===== src/Avltree/Delete/Lower.antt =====
-- A node to delete is first brought to a place where it has no children.
use libbase.Base.{
  ℕ, zero, suc, ◌+◌, ◌≤◌, false, ◌≡◌, refl, arith, ◌==◌, ◌∙◌, ap, subst, ◌⊎◌, inl, inr, List, ◌++◌,
  append_assoc, ≤-larger, ==_comm,
}
use libbase.Base.Int.{ℤ, pos, negsuc, int8}
use libbase.Memory.{Ptr, Returns, Returns-weaken}
use libbase.Avltree.{Avltree}
use libbase.Avltree.Shape.{
  Tree, leaf, node, Ctx, top, in_left, in_right, plug, inorder, height, count, count_ctx,
  count-plug, hit_self, ==_of_hit, Holds, Keeps,
}
use libbase.Avltree.Balanced.{Skew, IsAvl, CtxAvl}
use libbase.Avltree.Relink.{ne_null_of_alive}
use libbase.Avltree.Search.Next.{before, after, depth}
use libbase.Avltree.Insert.Seek.{Holds-left, Holds-right}
use libbase.Avltree.Insert.New.{Holds-plug}
use libbase.Avltree.Delete.{node_exchange, sink}
use libbase.Avltree.Delete.Trade.{swapped_first, swapped_second, swapped_other}
use libbase.Avltree.Delete.Renamed.{renamed, renamed_ctx, node_exchange-renamed}

pub Holds-unplug : (t : Avltree) (c : Ctx) (x : Tree) → Holds t top (plug c x) → Holds t c x
Holds-unplug t top x h = h
Holds-unplug t (in_left c p b r) x h = Holds-left t c x r p b (Holds-unplug t c (node x p b r) h)
Holds-unplug t (in_right c l p b) x h = Holds-right t c l x p b (Holds-unplug t c (node l p b x) h)

pub Skew-int8 : (b : ℤ) (h k : ℕ) → Skew b h k → int8 b ≡ b
unfolding int8
Skew-int8 (pos zero) h k s = refl
Skew-int8 (pos (suc zero)) h k s = refl
Skew-int8 (pos (suc (suc n))) h k s = elim s [ ]
Skew-int8 (negsuc zero) h k s = refl
Skew-int8 (negsuc (suc n)) h k s = elim s [ ]

module _ (p q : Ptr) where
  pub renamed-plug :
      (c : Ctx) (x : Tree) → renamed p q (plug c x) ≡ plug (renamed_ctx p q c) (renamed p q x)
  renamed-plug top x = refl
  renamed-plug (in_left c n b r) x = renamed-plug c (node x n b r)
  renamed-plug (in_right c l n b) x = renamed-plug c (node l n b x)

  -- A tree without the two nodes stays as it is.
  pub renamed_outside : (x : Tree) → count p x ≡ 0 → count q x ≡ 0 → renamed p q x ≡ x
  renamed_outside leaf e f = refl
  renamed_outside (node l n b r) e f =
      rw
        (
          renamed_outside l (omega arith) (omega arith),
          renamed_outside r (omega arith) (omega arith),
          swapped_other p q n (==_comm n p ∙ ==_of_hit p n (omega arith))
              (==_comm n q ∙ ==_of_hit q n (omega arith)),
        )
        refl

  pub renamed_ctx_outside :
      (c : Ctx) → count_ctx p c ≡ 0 → count_ctx q c ≡ 0 → renamed_ctx p q c ≡ c
  renamed_ctx_outside top e f = refl
  renamed_ctx_outside (in_left c n b r) e f =
      rw
        (
          renamed_ctx_outside c (omega arith) (omega arith),
          renamed_outside r (omega arith) (omega arith),
          swapped_other p q n (==_comm n p ∙ ==_of_hit p n (omega arith))
              (==_comm n q ∙ ==_of_hit q n (omega arith)),
        )
        refl
  renamed_ctx_outside (in_right c l n b) e f =
      rw
        (
          renamed_ctx_outside c (omega arith) (omega arith),
          renamed_outside l (omega arith) (omega arith),
          swapped_other p q n (==_comm n p ∙ ==_of_hit p n (omega arith))
              (==_comm n q ∙ ==_of_hit q n (omega arith)),
        )
        refl

-- The exchange of two nodes, seen from a place below both: what is around it and in it afterwards.
pub node_exchange-Holds :
    (t : Avltree) (c d : Ctx) (x y : Tree) (p q : Ptr)
    → Holds t c x
    → renamed p q (plug c x) ≡ plug d y
    → 1 ≤ count p (plug c x)
    → 1 ≤ count q (plug c x)
    → (p == q) ≡ false
    → int8 (t.balance p) ≡ t.balance p
    → int8 (t.balance q) ≡ t.balance q
    → Returns (λ _ u. Keeps t u × Holds u d y) (node_exchange p q t)
node_exchange-Holds t c d x y p q h e kp kq ne bp bq =
    Returns-weaken _ (node_exchange p q t)
      (λ _ u z. (z.0, Holds-unplug u d y (subst (Holds u top) e z.1)))
      (node_exchange-renamed t (plug c x) p q (Holds-plug t c x h) kp kq ne bp bq)

-- The exchange of two nodes of a subtree, around which `c` is.
pub child-exchange :
    (t : Avltree) (c : Ctx) (x : Tree) (p q : Ptr) (b b' : ℤ) (d : Ctx) (y : Tree)
    → Holds t c x
    → 1 ≤ count p x
    → 1 ≤ count q x
    → plug c (renamed p q x) ≡ plug d y
    → (p == q) ≡ false
    → t.balance p ≡ b
    → t.balance q ≡ b'
    → int8 b ≡ b
    → int8 b' ≡ b'
    → Returns (λ _ u. Keeps t u × Holds u d y) (node_exchange p q t)
child-exchange t c x p q b b' d y h kp kq e ne bp bq ip iq =
    node_exchange-Holds t c d x y p q h
      (renamed-plug p q c x
        ∙ ap (λ c'. plug c' (renamed p q x))
            (renamed_ctx_outside p q c (omega (arith, h.distinct p)) (omega (arith, h.distinct q)))
        ∙ e)
      (omega (arith, count-plug p c x)) (omega (arith, count-plug q c x)) ne (rw bp ip) (rw bq iq)

pub Skew-close : (b : ℤ) (h k : ℕ) → Skew b h k → (h ≤ k + 1) × (k ≤ h + 1)
Skew-close (pos zero) h k s = (omega arith, omega arith)
Skew-close (pos (suc zero)) h k s = (omega arith, omega arith)
Skew-close (pos (suc (suc n))) h k s = elim s [ ]
Skew-close (negsuc zero) h k s = (omega arith, omega arith)
Skew-close (negsuc (suc n)) h k s = elim s [ ]

-- A subtree of two levels is not balanced by an empty one.
not_high : (b : ℤ) (x : Tree) → 2 ≤ height x → Skew b (height x) 0 ⊎ Skew b 0 (height x) → ⊥
not_high b x le (inl s) = let y = Skew-close b _ _ s in omega arith
not_high b x le (inr s) = let y = Skew-close b _ _ s in omega arith

high_left : (l' r' m : Tree) (n q : Ptr) (bn b' : ℤ) → 2 ≤ height (node (node l' n bn r') q b' m)
high_left l' r' m n q bn b' = omega (arith, ≤-larger (height (node l' n bn r')) (height m))

high_right : (l' r' m : Tree) (n q : Ptr) (bn b' : ℤ) → 2 ≤ height (node m q b' (node l' n bn r'))
high_right l' r' m n q bn b' = omega (arith, ≤-larger (height m) (height (node l' n bn r')))

-- The node is where it has at most one child, and the nodes around it are the others, in order.
pub record Sunk (t u : Avltree) (p : Ptr) (others : List Ptr) (d : ℕ) : Type 0 where
  pub above : Ctx
  pub b : ℤ
  pub holds : Holds u above (node leaf p b leaf)
  pub around : CtxAvl 1 above
  pub not_deeper : depth above + 1 ≤ d
  pub order : before above ++ after above ≡ others
  pub keeps : Keeps t u

abbrev pub IsEdge : Tree → Tree → Type 0
IsEdge leaf r = Unit
IsEdge (node l q b m) leaf = Unit
IsEdge (node l q b m) (node l' q' b' m') = ⊥

pub sink-Sunk :
    (t : Avltree) (c : Ctx) (l r : Tree) (p : Ptr) (b : ℤ)
    → IsEdge l r
    → IsAvl (node l p b r)
    → CtxAvl (height (node l p b r)) c
    → Holds t c (node l p b r)
    → Returns
        (λ _ u.
          Sunk t u p
            (before c ++ inorder l ++ inorder r ++ after c)
            (depth c + height (node l p b r)))
        (sink p t)
unfolding sink
sink-Sunk t c leaf leaf p b i a g h =
    rw (h.shape.0.is_alive, h.shape.0.left, h.shape.0.is_alive, h.shape.0.right)
      (record {
        above = c;
        b = b;
        holds = h;
        around = g;
        not_deeper = omega arith;
        order = simp append_assoc;
        keeps = record { nodes = refl; live = refl; destroyed = refl };
      })
sink-Sunk t c (node leaf q b' leaf) leaf p b i a g h =
    let n = ne_null_of_alive t.live q h.shape.1.0.is_alive in
    rw (h.shape.0.is_alive, h.shape.0.left, h.shape.0.is_alive, h.shape.0.right, n, n)
      (Returns-weaken _ (node_exchange p q t)
        (λ _ u z. record {
          above = in_left c q b leaf;
          b = b';
          holds = z.1;
          around = (a.0, tt, g);
          not_deeper = omega arith;
          order = simp append_assoc;
          keeps = z.0;
        })
        (child-exchange t c (node (node leaf q b' leaf) p b leaf) p q b b' (in_left c q b leaf)
          (node leaf p b' leaf) h (omega (arith, hit_self p)) (omega (arith, hit_self q))
          (rw (swapped_first p q, swapped_second p q) refl)
          (==_of_hit p q (omega (arith, h.distinct p, hit_self p))) h.shape.0.balance
          h.shape.1.0.balance (Skew-int8 b _ _ a.0) (Skew-int8 b' 0 0 a.1.0)))
sink-Sunk t c leaf (node leaf q b' leaf) p b i a g h =
    let n = ne_null_of_alive t.live q h.shape.2.0.is_alive in
    rw (h.shape.0.is_alive, h.shape.0.left, h.shape.0.is_alive, h.shape.0.right, n)
      (Returns-weaken _ (node_exchange p q t)
        (λ _ u z. record {
          above = in_right c leaf q b;
          b = b';
          holds = z.1;
          around = (a.0, tt, g);
          not_deeper = omega arith;
          order = simp append_assoc;
          keeps = z.0;
        })
        (child-exchange t c (node leaf p b (node leaf q b' leaf)) p q b b' (in_right c leaf q b)
          (node leaf p b' leaf) h (omega (arith, hit_self p)) (omega (arith, hit_self q))
          (rw (swapped_first p q, swapped_second p q) refl)
          (==_of_hit p q (omega (arith, h.distinct p, hit_self p))) h.shape.0.balance
          h.shape.2.0.balance (Skew-int8 b _ _ a.0) (Skew-int8 b' 0 0 a.2.0)))
sink-Sunk t c (node (node l' n bn r') q b' m) leaf p b i a g h =
    elim (not_high b (node (node l' n bn r') q b' m) (high_left l' r' m n q bn b') (inl a.0)) [ ]
sink-Sunk t c (node leaf q b' (node l' n bn r')) leaf p b i a g h =
    elim (not_high b (node leaf q b' (node l' n bn r')) (high_right l' r' leaf n q bn b')
      (inl a.0)) [ ]
sink-Sunk t c leaf (node (node l' n bn r') q b' m) p b i a g h =
    elim (not_high b (node (node l' n bn r') q b' m) (high_left l' r' m n q bn b') (inr a.0)) [ ]
sink-Sunk t c leaf (node leaf q b' (node l' n bn r')) p b i a g h =
    elim (not_high b (node leaf q b' (node l' n bn r')) (high_right l' r' leaf n q bn b')
      (inr a.0)) [ ]
sink-Sunk t c (node l q b' m) (node l' q' b'' m') p b i a g h = elim i [ ]
