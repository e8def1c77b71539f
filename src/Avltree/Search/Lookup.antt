-- ===== src/Avltree/Search/Lookup.antt =====
-- `bs_avltree_lookup` finds what a search through all nodes finds.
use libbase.Base.{ℕ, zero, suc, ◌<◌, ◌≡◌, refl, arith, ◌∷◌, ◌∙◌, ap, Bool-cases, inl, inr, ≤-larger}
use libbase.Base.Int.{ℤ, pos, ltb_ℤ, is_zero, negative_of}
use libbase.Memory.{Ptr, null, ok}
use libbase.Avltree.{Avltree}
use libbase.Avltree.Shape.{Tree, leaf, node, top, root_of, inorder, height, Shape, Holds}
use libbase.Avltree.Relink.{ne_null_of_alive}
use libbase.Avltree.Search.{lookup_from, lookup}
use libbase.Avltree.Search.Cut.{
  IsCut, IsCut-left, IsCut-right, at_key, at_key-at, at_key-left, at_key-right,
}

module _ {K : Type 0} (cmp : Ptr → K → ℤ) (k : K) (t : Avltree) where
  lookup_from-at_key :
      (fuel : ℕ) (pp : Ptr) (x : Tree)
      → Shape t pp x
      → IsCut cmp k (inorder x)
      → height x < fuel
      → lookup_from cmp fuel k (root_of x) t ≡ ok (at_key cmp k (inorder x)) t
  unfolding lookup_from
  lookup_from-at_key zero pp x s c lt = elim lt [ ]
  lookup_from-at_key (suc fuel) pp leaf s c lt = refl
  lookup_from-at_key (suc fuel) pp (node l p b r) s c lt =
      let a = s.0.is_alive in
      let n = ne_null_of_alive t.live p a in
      let le = ≤-larger (height l) (height r) in
      let rest = IsCut-right cmp k (inorder l) (p ∷ inorder r) c in
      elim (Bool-cases (is_zero (cmp p k))) [
        | inl e ↦ rw (n, a, e, at_key-at cmp k (inorder l) (inorder r) p e c)
        | inr e ↦ elim (Bool-cases (ltb_ℤ (pos 0) (cmp p k))) [
          | inl f ↦
              rw (n, a, e, f, a, s.0.left, at_key-left cmp k (inorder l) (inorder r) p f c)
                (lookup_from-at_key fuel p l s.1 (IsCut-left cmp k (inorder l) (p ∷ inorder r) c)
                  (omega arith))
          | inr f ↦
              rw
                (
                  n,
                  a,
                  e,
                  f,
                  a,
                  s.0.right,
                  at_key-right cmp k (inorder l) (inorder r) p (negative_of (cmp p k) e f) f c,
                )
                (lookup_from-at_key fuel p r s.2 rest.1 (omega arith))
        ]
      ]

  -- In a tree whose nodes in order are cut by the key (those before it, at most one at it, those after it), `bs_avltree_lookup` returns the
  -- node that the callback says is at the key, or NULL if there is none, and changes nothing, for
  -- more rounds than the tree is high.
  pub lookup-at_key :
      (fuel : ℕ) (x : Tree)
      → Holds t top x
      → IsCut cmp k (inorder x)
      → height x < fuel
      → lookup cmp fuel k t ≡ ok (at_key cmp k (inorder x)) t
  unfolding lookup
  lookup-at_key fuel x h c lt =
      ap (λ p. lookup_from cmp fuel k p t) h.around ∙ lookup_from-at_key fuel null x h.shape c lt
