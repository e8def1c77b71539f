-- ===== src/Avltree/Delete/Least.antt =====
-- The exchange of a node that has two children with the least one of its right subtree.
use libbase.Base.{
  ℕ, zero, suc, ◌+◌, ◌≤◌, not, ◌&&◌, ◌≡◌, refl, arith, ◌==◌, ◌∙◌, sym, ap, List, [], ◌∷◌, ◌++◌,
  append_assoc, ≤-larger, ==_comm,
}
use libbase.Base.Int.{ℤ, pos}
use libbase.Memory.{Ptr, null, ok, Returns, Returns-weaken, ◌>>=◌, when}
use libbase.Avltree.{Avltree}
use libbase.Avltree.Shape.{
  Tree, leaf, node, Ctx, in_left, in_right, plug, root_of, inorder, height, count, count-plug,
  hit_self, ==_of_hit, Shape, Holds, Keeps,
}
use libbase.Avltree.Balanced.{IsAvl, CtxAvl}
use libbase.Avltree.Relink.{ne_null_of_alive}
use libbase.Avltree.Search.{node_min}
use libbase.Avltree.Search.Next.{before, after, depth}
use libbase.Avltree.Insert.Rotations.{IsNode}
use libbase.Avltree.Delete.{node_exchange}
use libbase.Avltree.Delete.Trade.{swapped_first, swapped_second, swapped_other}
use libbase.Avltree.Delete.Renamed.{renamed, renamed_ctx}
use libbase.Avltree.Delete.Lower.{
  Skew-int8, renamed-plug, renamed_outside, renamed_ctx_outside, node_exchange-Holds, IsEdge,
}

-- What is around the least node of a subtree, that node, its balance and its right subtree.
abbrev pub spine : Tree → Ctx → Ctx
spine leaf c = c
spine (node leaf n b r) c = c
spine (node (node l' n' b' r') n b r) c = spine (node l' n' b' r') (in_left c n b r)

abbrev pub least : Tree → Ptr
least leaf = null
least (node leaf n b r) = n
least (node (node l' n' b' r') n b r) = least (node l' n' b' r')

abbrev pub least_balance : Tree → ℤ
least_balance leaf = pos 0
least_balance (node leaf n b r) = b
least_balance (node (node l' n' b' r') n b r) = least_balance (node l' n' b' r')

abbrev pub least_right : Tree → Tree
least_right leaf = leaf
least_right (node leaf n b r) = r
least_right (node (node l' n' b' r') n b r) = least_right (node l' n' b' r')

-- The subtree of the least node, under the name `p`.
abbrev pub least_node : Tree → Ptr → Tree
least_node r p = node leaf p (least_balance r) (least_right r)

pub before-spine : (r : Tree) (c : Ctx) → before (spine r c) ≡ before c
before-spine leaf c = refl
before-spine (node leaf n b r) c = refl
before-spine (node (node l' n' b' r') n b r) c = before-spine (node l' n' b' r') (in_left c n b r)

pub after-spine :
    (r : Tree) (c : Ctx)
    → IsNode r
    → inorder r ++ after c ≡ least r ∷ inorder (least_right r) ++ after (spine r c)
after-spine leaf c i = elim i [ ]
after-spine (node leaf n b r) c i = simp append_assoc
after-spine (node (node l' n' b' r') n b r) c i =
    append_assoc (inorder (node l' n' b' r')) (n ∷ inorder r) (after c)
    ∙ after-spine (node l' n' b' r') (in_left c n b r) tt

pub spine-CtxAvl :
    (r : Tree) (c : Ctx) (p : Ptr)
    → IsNode r
    → IsAvl r
    → CtxAvl (height r) c
    → IsAvl (least_node r p) × CtxAvl (height (least_node r p)) (spine r c)
spine-CtxAvl leaf c p i a g = elim i [ ]
spine-CtxAvl (node leaf n b r) c p i a g = (a, g)
spine-CtxAvl (node (node l' n' b' r') n b r) c p i a g =
    spine-CtxAvl (node l' n' b' r') (in_left c n b r) p tt a.1 (a.0, a.2, g)

pub plug-spine :
    (r : Tree) (c : Ctx) → IsNode r → plug (spine r c) (least_node r (least r)) ≡ plug c r
plug-spine leaf c i = elim i [ ]
plug-spine (node leaf n b r) c i = refl
plug-spine (node (node l' n' b' r') n b r) c i = plug-spine (node l' n' b' r') (in_left c n b r) tt

depth-spine :
    (r : Tree) (c : Ctx) (p : Ptr)
    → IsNode r
    → depth (spine r c) + height (least_node r p) ≤ depth c + height r
depth-spine leaf c p i = elim i [ ]
depth-spine (node leaf n b r) c p i = omega arith
depth-spine (node (node l' n' b' r') n b r) c p i = omega (
  arith,
  depth-spine (node l' n' b' r') (in_left c n b r) p tt,
  ≤-larger (height (node l' n' b' r')) (height r),
)

count-least_node : (m : Ptr) (r : Tree) → IsNode r → count m (least_node r (least r)) ≤ count m r
count-least_node m leaf i = elim i [ ]
count-least_node m (node leaf n b r) i = omega arith
count-least_node m (node (node l' n' b' r') n b r) i =
    omega (arith, count-least_node m (node l' n' b' r') tt)

renamed_ctx-spine :
    (p : Ptr) (r : Tree) (c : Ctx)
    → IsNode r
    → count p r ≡ 0
    → count (least r) r ≤ 1
    → renamed_ctx p (least r) (spine r c) ≡ spine r (renamed_ctx p (least r) c)
renamed_ctx-spine p leaf c i e d = refl
renamed_ctx-spine p (node leaf n b r) c i e d = refl
renamed_ctx-spine p (node (node l' n' b' r') n b r) c i e d =
    let q = least (node l' n' b' r') in
    let k : 1 ≤ count q (node l' n' b' r') =
      omega (arith, count-least_node q (node l' n' b' r') tt, hit_self q) in
    renamed_ctx-spine p (node l' n' b' r') (in_left c n b r) tt (omega arith) (omega arith)
    ∙ rw
        (
          renamed_outside p q r (omega arith) (omega arith),
          swapped_other p q n (==_comm n p ∙ ==_of_hit p n (omega arith))
              (==_comm n q ∙ ==_of_hit q n (omega arith)),
        )
        refl

balance-least :
    (t : Avltree) (pp : Ptr) (r : Tree)
    → IsNode r
    → Shape t pp r
    → t.balance (least r) ≡ least_balance r
balance-least t pp leaf i s = elim i [ ]
balance-least t pp (node leaf n b r) i s = s.0.balance
balance-least t pp (node (node l' n' b' r') n b r) i s = balance-least t n (node l' n' b' r') tt s.1

node_min-least :
    (t : Avltree) (fuel : ℕ) (pp : Ptr) (r : Tree)
    → IsNode r
    → Shape t pp r
    → height r ≤ fuel
    → node_min fuel (root_of r) t ≡ ok (least r) t
unfolding node_min
node_min-least t fuel pp leaf i s le = elim i [ ]
node_min-least t zero pp (node l n b r) i s le = absurd (omega arith)
node_min-least t (suc fuel) pp (node leaf n b r) i s le = rw (s.0.is_alive, s.0.left)
node_min-least t (suc fuel) pp (node (node l' n' b' r') n b r) i s le =
    let k = ≤-larger (height (node l' n' b' r')) (height r) in
    rw (s.0.is_alive, s.0.left, ne_null_of_alive t.live n' s.1.0.is_alive)
      (node_min-least t fuel n (node l' n' b' r') tt s.1 (omega arith))

-- The node with its remaining children is where it has at most one, and the nodes around it are the
-- others, in order.
pub record Lowered (t u : Avltree) (p : Ptr) (others : List Ptr) (d : ℕ) : Type 0 where
  pub above : Ctx
  pub l : Tree
  pub b : ℤ
  pub r : Tree
  pub edge : IsEdge l r
  pub balanced : IsAvl (node l p b r)
  pub around : CtxAvl (height (node l p b r)) above
  pub not_deeper : depth above + height (node l p b r) ≤ d
  pub holds : Holds u above (node l p b r)
  pub order : before above ++ inorder l ++ inorder r ++ after above ≡ others
  pub keeps : Keeps t u

Lowered-self :
    (t : Avltree) (c : Ctx) (l r : Tree) (p : Ptr) (b : ℤ)
    → IsEdge l r
    → IsAvl (node l p b r)
    → CtxAvl (height (node l p b r)) c
    → Holds t c (node l p b r)
    → Lowered t t p
        (before c ++ inorder l ++ inorder r ++ after c)
        (depth c + height (node l p b r))
Lowered-self t c l r p b e a g h = record {
  above = c;
  l = l;
  b = b;
  r = r;
  edge = e;
  balanced = a;
  around = g;
  not_deeper = omega arith;
  holds = h;
  order = refl;
  keeps = record { nodes = refl; live = refl; destroyed = refl };
}

tail_order :
    (xs ys : List Ptr) (q : Ptr) (zs ws : List Ptr)
    → (xs ++ ys ++ q ∷ []) ++ [] ++ zs ++ ws ≡ xs ++ ys ++ ((q ∷ zs) ++ ws)
tail_order xs ys q zs ws = simp append_assoc

module _ (t : Avltree) (c : Ctx) (l r : Tree) (p : Ptr) (b : ℤ) (a : IsAvl (node l p b r))
    (g : CtxAvl (height (node l p b r)) c) (h : Holds t c (node l p b r)) (i : IsNode r) where
  -- What the exchange makes of the context.
  least-renamed :
      renamed p (least r) (plug c (node l p b r))
      ≡ plug (spine r (in_right c l (least r) b)) (least_node r p)
  least-renamed =
      let q = least r in
      let k : 1 ≤ count q r = omega (arith, count-least_node q r i, hit_self q) in
      let d = in_right c l p b in
      let o = h.distinct p in
      let o' = h.distinct q in
      let w = count-least_node q r i in
      let w' = count-least_node p r i in
      ap (renamed p q) (sym (plug-spine r d i))
      ∙ renamed-plug p q (spine r d) (least_node r q)
      ∙ ap (λ c'. plug c' (renamed p q (least_node r q)))
          (renamed_ctx-spine p r d i (omega (arith, hit_self p)) (omega arith))
      ∙ rw
          (
            renamed_ctx_outside p q c (omega (arith, hit_self p)) (omega arith),
            renamed_outside p q l (omega (arith, hit_self p)) (omega arith),
            renamed_outside p q (least_right r) (omega (arith, hit_self p))
                (omega (arith, hit_self q)),
            swapped_first p q,
            swapped_second p q,
          )
          refl

  exchange_least :
      Returns
        (λ _ u.
          Lowered t u p
            (before c ++ inorder l ++ inorder r ++ after c)
            (depth c + height (node l p b r)))
        (node_exchange p (least r) t)
  exchange_least =
      let q = least r in
      let d = in_right c l q b in
      let k : 1 ≤ count q r = omega (arith, count-least_node q r i, hit_self q) in
      let y = spine-CtxAvl r d p i a.2 (a.0, a.1, g) in
      Returns-weaken _ (node_exchange p q t)
        (λ _ u z. record {
          above = spine r d;
          l = leaf;
          b = least_balance r;
          r = least_right r;
          edge = tt;
          balanced = y.0;
          around = y.1;
          not_deeper = omega (arith, depth-spine r d p i, ≤-larger (height l) (height r));
          holds = z.1;
          order = rw (before-spine r d) (
              tail_order (before c) (inorder l) q (inorder (least_right r)) (after (spine r d))
              ∙ ap (λ xs. before c ++ inorder l ++ xs) (sym (after-spine r d i))
              ∙ sym (append_assoc (before c ++ inorder l) (inorder r) (after c)));
          keeps = z.0;
        })
        (node_exchange-Holds t c (spine r d) (node l p b r) (least_node r p) p q h least-renamed
          (omega (arith, count-plug p c (node l p b r), hit_self p))
          (omega (arith, count-plug q c (node l p b r)))
          (==_of_hit p q (omega (arith, h.distinct p, hit_self p, count-least_node p r i)))
          (rw (h.shape.0.balance) (Skew-int8 b _ _ a.0))
          (rw (balance-least t p r i h.shape.2) (Skew-int8 (least_balance r) _ _ y.0.0)))

-- `bs_avltree_node_delete` up to the exchange with the least node on the right.
pub lower-Lowered :
    (t : Avltree) (c : Ctx) (l r : Tree) (p : Ptr) (b : ℤ) (fuel : ℕ)
    → IsAvl (node l p b r)
    → CtxAvl (height (node l p b r)) c
    → Holds t c (node l p b r)
    → height r ≤ fuel
    → Returns
        (λ _ u.
          Lowered t u p
            (before c ++ inorder l ++ inorder r ++ after c)
            (depth c + height (node l p b r)))
        (when
          (not (root_of l == null) && not (root_of r == null))
          (do next_larger ← node_min fuel (root_of r); node_exchange p next_larger)
          t)
lower-Lowered t c leaf r p b fuel a g h le = Lowered-self t c leaf r p b tt a g h
lower-Lowered t c (node l' n b' r') leaf p b fuel a g h le =
    rw (ne_null_of_alive t.live n h.shape.1.0.is_alive)
      (Lowered-self t c (node l' n b' r') leaf p b tt a g h)
lower-Lowered t c (node l' n b' r') (node l'' m b'' r'') p b fuel a g h le =
    rw
      (
        ne_null_of_alive t.live n h.shape.1.0.is_alive,
        ne_null_of_alive t.live m h.shape.2.0.is_alive,
        node_min-least t fuel p (node l'' m b'' r'') tt h.shape.2 le,
      )
      (exchange_least t c (node l' n b' r') (node l'' m b'' r'') p b a g h tt)
