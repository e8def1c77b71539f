-- ===== src/Avltree/Search/Ends.antt =====
-- `bs_avltree_min` and `bs_avltree_max` return the first and the last node in order.
use libbase.Base.{
  ℕ, zero, suc, ◌<◌, ◌≡◌, refl, arith, ◌==◌, if◌then◌else◌, ◌≤◌, List, [], ◌∷◌, ◌++◌, ◌∙◌, ap, sym,
  ≤-larger,
}
use libbase.Base.Int.{ℤ}
use libbase.Memory.{Ptr, null, ok, pure}
use libbase.Memory.Chain.{first_or, last_or, first_or-append, last_or-append}
use libbase.Avltree.{Avltree}
use libbase.Avltree.Shape.{Tree, leaf, node, top, inorder, height, Shape, Holds}
use libbase.Avltree.Relink.{ne_null_of_alive}
use libbase.Avltree.Search.{node_min, node_max, min, max}

pub first_or-middle :
    (d e x : Ptr) (xs ys : List Ptr) → first_or d (xs ++ x ∷ ys) ≡ first_or e (xs ++ x ∷ ys)
first_or-middle d e x [] ys = refl
first_or-middle d e x (y ∷ xs) ys = refl

pub last_or-middle :
    (d e x : Ptr) (xs ys : List Ptr) → last_or d (xs ++ x ∷ ys) ≡ last_or e (xs ++ x ∷ ys)
last_or-middle d e x [] ys = refl
last_or-middle d e x (y ∷ xs) ys = refl

module _ (t : Avltree) where
  pub node_min-first_or :
      (fuel : ℕ) (pp p : Ptr) (b : ℤ) (l r : Tree)
      → Shape t pp (node l p b r)
      → height l < fuel
      → node_min fuel p t ≡ ok (first_or null (inorder l ++ p ∷ inorder r)) t
  unfolding node_min
  node_min-first_or zero pp p b l r s lt = elim lt [ ]
  node_min-first_or (suc fuel) pp p b leaf r s lt = rw (s.0.is_alive, s.0.left)
  node_min-first_or (suc fuel) pp p b (node l' q b' r') r s lt =
      let n = ne_null_of_alive t.live q s.1.0.is_alive in
      let le = ≤-larger (height l') (height r') in
      let rest = node_min-first_or fuel p q b' l' r' s.1 (omega arith) in
      let first =
        first_or-append null (inorder (node l' q b' r')) (p ∷ inorder r)
        ∙ first_or-middle p null q (inorder l') (inorder r') in
      rw (s.0.is_alive, s.0.left, n) (rest ∙ ap (λ a. ok a t) (sym first))

  pub node_max-last_or :
      (fuel : ℕ) (pp p : Ptr) (b : ℤ) (l r : Tree)
      → Shape t pp (node l p b r)
      → height r < fuel
      → node_max fuel p t ≡ ok (last_or null (inorder l ++ p ∷ inorder r)) t
  unfolding node_max
  node_max-last_or zero pp p b l r s lt = elim lt [ ]
  node_max-last_or (suc fuel) pp p b l leaf s lt =
      rw (s.0.is_alive, s.0.right, last_or-append null (inorder l) (p ∷ []))
  node_max-last_or (suc fuel) pp p b l (node l' q b' r') s lt =
      let n = ne_null_of_alive t.live q s.2.0.is_alive in
      let le = ≤-larger (height l') (height r') in
      let rest = node_max-last_or fuel p q b' l' r' s.2 (omega arith) in
      let last =
        last_or-append null (inorder l) (p ∷ inorder (node l' q b' r'))
        ∙ last_or-middle p null q (inorder l') (inorder r') in
      rw (s.0.is_alive, s.0.right, n) (rest ∙ ap (λ a. ok a t) (sym last))

  -- `bs_avltree_min` returns the first node in order, and `bs_avltree_max` the last one, or NULL if
  -- there is none, for more rounds than the tree is high.
  pub min-first_or :
      (fuel : ℕ) (x : Tree)
      → Holds t top x
      → height x ≤ fuel
      → (min fuel t ≡ ok (first_or null (inorder x)) t)
        × (max fuel t ≡ ok (last_or null (inorder x)) t)
  unfolding min max
  min-first_or fuel leaf h lt = (
    ap (λ p. (if p == null then pure null else node_min fuel p) t) h.around,
    ap (λ p. (if p == null then pure null else node_max fuel p) t) h.around,
  )
  min-first_or fuel (node l p b r) h lt =
      let n = ne_null_of_alive t.live p h.shape.0.is_alive in
      let le = ≤-larger (height l) (height r) in
      (
        ap (λ p. (if p == null then pure null else node_min fuel p) t) h.around
            ∙ rw n (node_min-first_or fuel null p b l r h.shape (omega arith)),
        ap (λ p. (if p == null then pure null else node_max fuel p) t) h.around
            ∙ rw n (node_max-last_or fuel null p b l r h.shape (omega arith)),
      )
