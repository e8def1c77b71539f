-- ===== src/Avltree/Search/Next.antt =====
-- `bs_avltree_node_next` and `bs_avltree_node_prev` return a node's neighbours in order.
use libbase.Base.{
  ℕ, zero, suc, ◌+◌, ◌<◌, ◌≤◌, true, ◌≡◌, arith, ==_refl, ==_comm, List, [], ◌∷◌, ◌++◌,
  append_assoc, append-nil, ◌∙◌, ap, sym, ≤-larger,
}
use libbase.Base.Int.{ℤ}
use libbase.Memory.{Ptr, null, ok}
use libbase.Memory.Chain.{first_or, last_or, first_or-append, last_or-append}
use libbase.Avltree.{Avltree, alive}
use libbase.Avltree.Shape.{
  Tree, leaf, node, Ctx, top, in_left, in_right, plug, root_of, parent_of, inorder, height,
  count_ctx, hit_self, CtxShape, Holds,
}
use libbase.Avltree.Relink.{ne_null_of_alive, root_of-ne}
use libbase.Avltree.Search.{up_right_edge, up_left_edge, node_next, node_prev}
use libbase.Avltree.Search.Ends.{
  node_min-first_or, node_max-last_or, first_or-middle, last_or-middle,
}

-- The nodes in order before and after a hole.
abbrev pub before : Ctx → List Ptr
before top = []
before (in_left c p b r) = before c
before (in_right c l p b) = before c ++ inorder l ++ p ∷ []

abbrev pub after : Ctx → List Ptr
after top = []
after (in_left c p b r) = p ∷ inorder r ++ after c
after (in_right c l p b) = after c

-- How deep the hole is.
abbrev pub depth : Ctx → ℕ
depth top = 0
depth (in_left c p b r) = depth c + 1
depth (in_right c l p b) = depth c + 1

pub inorder-plug : (c : Ctx) (x : Tree) → inorder (plug c x) ≡ before c ++ inorder x ++ after c
inorder-plug top x = sym (append-nil (inorder x))
inorder-plug (in_left c p b r) x = inorder-plug c (node x p b r) ∙ simp append_assoc
inorder-plug (in_right c l p b) x = inorder-plug c (node l p b x) ∙ simp append_assoc

module _ (t : Avltree) where
  up_right_edge-after :
      (fuel : ℕ) (p : Ptr) (c : Ctx)
      → alive t.live p ≡ true
      → t.parent p ≡ parent_of c
      → CtxShape t p c
      → count_ctx p c ≡ 0
      → ((q : Ptr) → count_ctx q c ≤ 1)
      → depth c < fuel
      → up_right_edge fuel p t ≡ ok (first_or null (after c)) t
  unfolding up_right_edge
  up_right_edge-after zero p c a e s o d lt = elim lt [ ]
  up_right_edge-after (suc fuel) p top a e s o d lt = rw (a, e)
  up_right_edge-after (suc fuel) p (in_left c q b r) a e s o d lt =
      let n = ne_null_of_alive t.live q s.0.is_alive in
      let ne = ==_comm p (root_of r) ∙ root_of-ne t.live p r a (omega arith) in
      rw (a, e, n, s.0.is_alive, s.0.right, ne)
  up_right_edge-after (suc fuel) p (in_right c l q b) a e s o d lt =
      let n = ne_null_of_alive t.live q s.0.is_alive in
      rw (a, e, n, s.0.is_alive, s.0.right, ==_refl p)
        (up_right_edge-after fuel q c s.0.is_alive s.0.parent s.2 (omega (arith, d q, hit_self q))
          (λ y. omega (arith, d y)) (omega arith))

  up_left_edge-before :
      (fuel : ℕ) (p : Ptr) (c : Ctx)
      → alive t.live p ≡ true
      → t.parent p ≡ parent_of c
      → CtxShape t p c
      → count_ctx p c ≡ 0
      → ((q : Ptr) → count_ctx q c ≤ 1)
      → depth c < fuel
      → up_left_edge fuel p t ≡ ok (last_or null (before c)) t
  unfolding up_left_edge
  up_left_edge-before zero p c a e s o d lt = elim lt [ ]
  up_left_edge-before (suc fuel) p top a e s o d lt = rw (a, e)
  up_left_edge-before (suc fuel) p (in_right c l q b) a e s o d lt =
      let n = ne_null_of_alive t.live q s.0.is_alive in
      let ne = ==_comm p (root_of l) ∙ root_of-ne t.live p l a (omega arith) in
      rw (a, e, n, s.0.is_alive, s.0.left, ne, last_or-append null (before c ++ inorder l) (q ∷ []))
  up_left_edge-before (suc fuel) p (in_left c q b r) a e s o d lt =
      let n = ne_null_of_alive t.live q s.0.is_alive in
      rw (a, e, n, s.0.is_alive, s.0.left, ==_refl p)
        (up_left_edge-before fuel q c s.0.is_alive s.0.parent s.2 (omega (arith, d q, hit_self q))
          (λ y. omega (arith, d y)) (omega arith))

  module _ (fuel : ℕ) (p : Ptr) (b : ℤ) (c : Ctx) where
    node_next-after :
        (l r : Tree)
        → Holds t c (node l p b r)
        → height r + depth c < fuel
        → node_next fuel p t ≡ ok (first_or null (inorder r ++ after c)) t
    unfolding node_next
    node_next-after l leaf h lt =
        rw (h.shape.0.is_alive, h.shape.0.right)
          (up_right_edge-after fuel p c h.shape.0.is_alive h.shape.0.parent h.around
            (omega (arith, h.distinct p, hit_self p)) (λ y. omega (arith, h.distinct y))
            (omega arith))
    node_next-after l (node l' q b' r') h lt =
        let n = ne_null_of_alive t.live q h.shape.2.0.is_alive in
        let le = ≤-larger (height l') (height r') in
        let rest = node_min-first_or t fuel p q b' l' r' h.shape.2 (omega arith) in
        let first =
          first_or-append null (inorder (node l' q b' r')) (after c)
          ∙ first_or-middle (first_or null (after c)) null q (inorder l') (inorder r') in
        rw (h.shape.0.is_alive, h.shape.0.right, n) (rest ∙ ap (λ a. ok a t) (sym first))

    node_prev-before :
        (l r : Tree)
        → Holds t c (node l p b r)
        → height l + depth c < fuel
        → node_prev fuel p t ≡ ok (last_or null (before c ++ inorder l)) t
    unfolding node_prev
    node_prev-before leaf r h lt =
        rw (h.shape.0.is_alive, h.shape.0.left, append-nil (before c))
          (up_left_edge-before fuel p c h.shape.0.is_alive h.shape.0.parent h.around
            (omega (arith, h.distinct p, hit_self p)) (λ y. omega (arith, h.distinct y))
            (omega arith))
    node_prev-before (node l' q b' r') r h lt =
        let n = ne_null_of_alive t.live q h.shape.1.0.is_alive in
        let le = ≤-larger (height l') (height r') in
        let rest = node_max-last_or t fuel p q b' l' r' h.shape.1 (omega arith) in
        let last =
          last_or-append null (before c) (inorder (node l' q b' r'))
          ∙ last_or-middle (last_or null (before c)) null q (inorder l') (inorder r') in
        rw (h.shape.0.is_alive, h.shape.0.left, n) (rest ∙ ap (λ a. ok a t) (sym last))

    -- The nodes in order are some before `p`, `p`, and some after it; `bs_avltree_node_next` returns
    -- the first one after it and `bs_avltree_node_prev` the last one before it, or NULL if there is
    -- none, for more rounds than the height of the subtree of `p` and its depth together. Neither changes
    -- anything.
    pub node_next-neighbour :
        (l r : Tree)
        → Holds t c (node l p b r)
        → height (node l p b r) + depth c < fuel
        → (xs : List Ptr) × (ys : List Ptr) × (inorder (plug c (node l p b r)) ≡ xs ++ p ∷ ys)
          × (node_next fuel p t ≡ ok (first_or null ys) t)
          × (node_prev fuel p t ≡ ok (last_or null xs) t)
    node_next-neighbour l r h lt =
        let le = ≤-larger (height l) (height r) in
        (
          before c ++ inorder l,
          inorder r ++ after c,
          inorder-plug c (node l p b r) ∙ simp append_assoc,
          node_next-after l r h (omega arith),
          node_prev-before l r h (omega arith),
        )
