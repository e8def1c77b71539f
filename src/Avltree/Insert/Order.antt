-- ===== src/Avltree/Insert/Order.antt =====
-- A node put where the search for its key ends stands in its place in order.
use libbase.Base.{
  true, false, Bool, ◌≡◌, refl, arith, ◌∷◌, ◌++◌, append_assoc, ◌∙◌, Bool-cases, inl, inr,
}
use libbase.Base.Int.{ℤ, pos, ltb_ℤ, is_zero, negative_of}
use libbase.Memory.{Ptr}
use libbase.Avltree.Shape.{Tree, leaf, node, Ctx, in_left, in_right, plug, root_of, inorder}
use libbase.Avltree.Search.Cut.{
  IsCut, IsCut-left, IsCut-right, at_key, at_key-at, at_key-left, at_key-right, insert_sorted,
  insert_sorted-left, insert_sorted-right,
}
use libbase.Avltree.Search.Next.{before, after, inorder-plug}
use libbase.Avltree.Insert.Seek.{seek}

abbrev pub is_leaf : Tree → Bool
is_leaf leaf = true
is_leaf (node l p b r) = false

module _ {K : Type 0} (cmp : Ptr → K → ℤ) (k : K) where
  pub root_of-seek :
      (x : Tree) (c : Ctx)
      → IsCut cmp k (inorder x)
      → root_of (seek cmp k x c).1 ≡ at_key cmp k (inorder x)
  root_of-seek leaf c i = refl
  root_of-seek (node l p b r) c i =
      let il = IsCut-left cmp k (inorder l) (p ∷ inorder r) i in
      let ir = IsCut-right cmp k (inorder l) (p ∷ inorder r) i in
      elim (Bool-cases (is_zero (cmp p k))) [
        | inl e ↦ rw (e, at_key-at cmp k (inorder l) (inorder r) p e i)
        | inr e ↦ elim (Bool-cases (ltb_ℤ (pos 0) (cmp p k))) [
          | inl f ↦
              rw (e, f, at_key-left cmp k (inorder l) (inorder r) p f i)
                (root_of-seek l (in_left c p b r) il)
          | inr f ↦
              rw
                (e, f, at_key-right cmp k (inorder l) (inorder r) p (negative_of (cmp p k) e f) f i)
                (root_of-seek r (in_right c l p b) ir.1)
        ]
      ]

  pub inorder-seek :
      (n : Ptr) (b' : ℤ) (x : Tree) (c : Ctx)
      → is_leaf (seek cmp k x c).1 ≡ true
      → IsCut cmp k (inorder x)
      → inorder (plug (seek cmp k x c).0 (node leaf n b' leaf))
        ≡ before c ++ insert_sorted cmp k n (inorder x) ++ after c
  inorder-seek n b' leaf c o i = inorder-plug c (node leaf n b' leaf)
  inorder-seek n b' (node l p b r) c o i =
      let il = IsCut-left cmp k (inorder l) (p ∷ inorder r) i in
      let ir = IsCut-right cmp k (inorder l) (p ∷ inorder r) i in
      elim (Bool-cases (is_zero (cmp p k))) [
        | inl e ↦ let no = rw e at o in ground arith
        | inr e ↦ elim (Bool-cases (ltb_ℤ (pos 0) (cmp p k))) [
          | inl f ↦
              let o' = rw (e, f) at o in
              rw (e, f, insert_sorted-left cmp k n (inorder l) (inorder r) p f)
                (inorder-seek n b' l (in_left c p b r) o' il ∙ simp append_assoc)
          | inr f ↦
              let o' = rw (e, f) at o in
              rw
                (
                  e,
                  f,
                  insert_sorted-right cmp k n (inorder l) (inorder r) p (negative_of (cmp p k) e f)
                      f i,
                )
                (inorder-seek n b' r (in_right c l p b) o' ir.1 ∙ simp append_assoc)
        ]
      ]
