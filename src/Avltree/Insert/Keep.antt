-- ===== src/Avltree/Insert/Keep.antt =====
-- `bs_avltree_insert` of a key that is in the tree, without `do_overwrite`.
use libbase.Base.{ℕ, ◌<◌, false, ◌≡◌, ◌≢◌, refl, ap, sym, subst, ◌∙◌}
use libbase.Base.Int.{ℤ, pos}
use libbase.Memory.{Ptr, null, ok, ◌>>=◌}
use libbase.Avltree.{Avltree}
use libbase.Avltree.Shape.{Tree, leaf, node, Ctx, top, root_of, inorder, height, Holds}
use libbase.Avltree.Search.Cut.{IsCut, at_key}
use libbase.Avltree.Insert.{descend, insert_at, insert}
use libbase.Avltree.Insert.Seek.{seek, place, descend-Sought}
use libbase.Avltree.Insert.Order.{root_of-seek}

module _ (t : Avltree) (n : Ptr) (fuel : ℕ) where
  kept_sought :
      {K : Type 0} (cmp : Ptr → K → ℤ) (k : K) (x : Tree)
      → IsCut cmp k (inorder x)
      → at_key cmp k (inorder x) ≢ null
      → (above : Ctx) (found : Tree) (v : ℤ) → seek cmp k x top ≡ (above, found)
      → insert_at fuel n false (place above found v) t ≡ ok false t
  unfolding insert_at
  kept_sought cmp k x i z above leaf v e =
      elim (z (sym (root_of-seek cmp k x top i) ∙ ap (λ y. root_of y.1) e)) [ ]
  kept_sought cmp k x i z above (node l p b r) v e = refl

  -- `bs_avltree_insert` of a key that is in the tree returns false if it may not overwrite, and
  -- changes nothing, for more rounds than the tree is high and whatever the new node is.
  pub insert-at_key :
      {K : Type 0} (cmp : Ptr → K → ℤ) (k : K) (x : Tree)
      → Holds t top x
      → IsCut cmp k (inorder x)
      → at_key cmp k (inorder x) ≢ null
      → height x < fuel
      → insert cmp fuel k n false t ≡ ok false t
  unfolding insert
  insert-at_key cmp k x h i z lt =
      let y = descend-Sought cmp k t fuel x top (pos 0) h tt lt in
      subst
        (λ p.
          (do d ← descend cmp fuel k p null null (pos 0); insert_at fuel n false d) t ≡ ok false t)
        (sym h.around) (rw y.ends (kept_sought cmp k x i z y.above y.found y.last y.found_at))
