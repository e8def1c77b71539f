-- ===== src/Avltree/Rotate/Around.antt =====
-- What is around a subtree, after the links from it lead to another root.
use libbase.Base.{◌≤◌, ◌≡◌, arith, ◌∙◌}
use libbase.Memory.{Ptr, update_self}
use libbase.Avltree.{Avltree, alive}
use libbase.Avltree.Shape.{
  Ctx, top, in_left, in_right, count_ctx, hit_self, CtxShape, Same, Shape-frame, CtxShape-frame,
}
use libbase.Avltree.Relink.{link_left, link_right, link_root, hit_parent}

-- `u` has the members of `t` at every node around the hole `c`, but for the link to the hole, which
-- leads to `x`.
pub record Leads (t u : Avltree) (c : Ctx) (x : Ptr) : Type 0 where
  pub root : u.root ≡ link_root t.root c x
  pub same : (q : Ptr) → 1 ≤ count_ctx q c → hit_parent q c ≡ 0 → Same t u q
  pub is_alive : (q : Ptr) → 1 ≤ count_ctx q c → alive u.live q ≡ alive t.live q
  pub parent : (q : Ptr) → 1 ≤ count_ctx q c → u.parent q ≡ t.parent q
  pub left : (q : Ptr) → 1 ≤ count_ctx q c → u.left q ≡ link_left t.left c x q
  pub right : (q : Ptr) → 1 ≤ count_ctx q c → u.right q ≡ link_right t.right c x q
  pub balance : (q : Ptr) → 1 ≤ count_ctx q c → u.balance q ≡ t.balance q

pub Leads-CtxShape :
    (t u : Avltree) (c : Ctx) (p x : Ptr)
    → ((q : Ptr) → count_ctx q c ≤ 1)
    → CtxShape t p c
    → Leads t u c x
    → CtxShape u x c
Leads-CtxShape t u top p x d s l = l.root
Leads-CtxShape t u (in_left c q b r) p x d s l =
    let i : 1 ≤ count_ctx q (in_left c q b r) = omega (arith, hit_self q) in
    (
      record {
        is_alive = l.is_alive q i ∙ s.0.is_alive;
        parent = l.parent q i ∙ s.0.parent;
        left = l.left q i ∙ update_self t.left q x;
        right = l.right q i ∙ s.0.right;
        balance = l.balance q i ∙ s.0.balance;
      },
      Shape-frame t u q r (λ y j. l.same y (omega arith) (omega (arith, d y))) s.1,
      CtxShape-frame t u q c l.root (λ y j. l.same y (omega arith) (omega (arith, d y))) s.2,
    )
Leads-CtxShape t u (in_right c w q b) p x d s l =
    let i : 1 ≤ count_ctx q (in_right c w q b) = omega (arith, hit_self q) in
    (
      record {
        is_alive = l.is_alive q i ∙ s.0.is_alive;
        parent = l.parent q i ∙ s.0.parent;
        left = l.left q i ∙ s.0.left;
        right = l.right q i ∙ update_self t.right q x;
        balance = l.balance q i ∙ s.0.balance;
      },
      Shape-frame t u q w (λ y j. l.same y (omega arith) (omega (arith, d y))) s.1,
      CtxShape-frame t u q c l.root (λ y j. l.same y (omega arith) (omega (arith, d y))) s.2,
    )
