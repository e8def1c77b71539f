-- ===== src/Avltree/Verify/Height.antt =====
-- The calls that count the nodes and the height of a subtree.
use libbase.Base.{
  ℕ, zero, suc, ◌+◌, ◌%◌, ◌^◌, ◌≤◌, ◌<◌, ◌≡◌, refl, arith, ◌==◌, if◌then◌else◌, ltb, larger,
  ≤-larger, ◌∙◌, ap,
}
use libbase.Memory.{Ptr, null, ok, pure}
use libbase.Avltree.{Avltree}
use libbase.Avltree.Shape.{Tree, leaf, node, root_of, height, Shape}
use libbase.Avltree.Relink.{ne_null_of_alive}
use libbase.Avltree.Insert.Rotations.{IsNode}
use libbase.Avltree.Life.Flush.{size_of}
use libbase.Avltree.Verify.{node_size, node_height}

either-larger : (a b : ℕ) → (if ltb b a then a + 1 else b + 1) ≡ larger a b + 1
either-larger a b = ground arith

wrap : (a : ℕ) → a < 2 ^ 64 → a % 2 ^ 64 ≡ a
wrap a lt = omega arith

wrap-height :
    (a b : ℕ)
    → larger a b + 1 < 2 ^ 64
    → (if ltb b a then a + 1 else b + 1) % 2 ^ 64 ≡ larger a b + 1
wrap-height a b lt = ap (λ n. n % 2 ^ 64) (either-larger a b) ∙ wrap (larger a b + 1) lt

module _ (t : Avltree) where
  pub node_size-size_of :
      (fuel : ℕ) (pp : Ptr) (x : Tree)
      → Shape t pp x
      → height x < fuel
      → size_of x < 2 ^ 64
      → node_size fuel (root_of x) t ≡ ok (size_of x) t
  unfolding node_size
  node_size-size_of zero pp x s lt k = absurd (omega arith)
  node_size-size_of (suc fuel) pp leaf s lt k = refl
  node_size-size_of (suc fuel) pp (node l p b r) s lt k =
      let le = ≤-larger (height l) (height r) in
      let e : (1 + size_of l + size_of r) % 2 ^ 64 ≡ size_of l + size_of r + 1 = omega arith in
      rw
        (
          ne_null_of_alive t.live p s.0.is_alive,
          s.0.is_alive,
          s.0.left,
          node_size-size_of fuel p l s.1 (omega arith) (omega arith),
          s.0.is_alive,
          s.0.right,
          node_size-size_of fuel p r s.2 (omega arith) (omega arith),
        )
        (ap (λ n. ok n t) e)

  root-height :
      (fuel : ℕ) (pp : Ptr) (x : Tree)
      → Shape t pp x
      → (IsNode x → node_height fuel (root_of x) t ≡ ok (height x) t)
      → (if root_of x == null then pure 0 else node_height fuel (root_of x)) t ≡ ok (height x) t
  root-height fuel pp leaf s h = refl
  root-height fuel pp (node l p b r) s h = rw (ne_null_of_alive t.live p s.0.is_alive) (h tt)

  pub node_height-height :
      (fuel : ℕ) (pp : Ptr) (x : Tree)
      → Shape t pp x
      → height x ≤ fuel
      → height x < 2 ^ 64
      → IsNode x
      → node_height fuel (root_of x) t ≡ ok (height x) t
  unfolding node_height
  node_height-height fuel pp leaf s le k i = elim i [ ]
  node_height-height zero pp (node l p b r) s le k i = absurd (omega arith)
  node_height-height (suc fuel) pp (node l p b r) s le k i =
      let m = ≤-larger (height l) (height r) in
      let e = wrap-height (height l) (height r) k in
      rw
        (
          s.0.is_alive,
          s.0.left,
          root-height fuel p l s.1 (node_height-height fuel p l s.1 (omega arith) (omega arith)),
          s.0.is_alive,
          s.0.right,
          root-height fuel p r s.2 (node_height-height fuel p r s.2 (omega arith) (omega arith)),
        )
        (ap (λ n. ok n t) e)
