-- ===== src/Avltree/Relink.antt =====
-- What a rotation does to the links from around the subtree, and to the link back from the subtree
-- that changes sides.
use libbase.Base.{
  ℕ, ◌≤◌, Bool, true, false, ◌≡◌, refl, arith, ◌==◌, ==_refl, Bool-cases, sym, inl, inr, eq_of_==,
  ==_comm, ◌∙◌,
}
use libbase.Memory.{Ptr, null, update, update_self, update_ne, ok}
use libbase.Avltree.{Avltree, alive, relink_parent}
use libbase.Avltree.Shape.{
  Tree, leaf, node, Ctx, top, in_left, in_right, root_of, parent_of, hit, count, count_ctx,
  ==_of_hit, CtxShape,
}

-- The maps after the node above the hole, or the root, leads to `x`.
abbrev pub link_left : (Ptr → Ptr) → Ctx → Ptr → Ptr → Ptr
link_left m top x = m
link_left m (in_left c q b r) x = update m q x
link_left m (in_right c l q b) x = m

abbrev pub link_right : (Ptr → Ptr) → Ctx → Ptr → Ptr → Ptr
link_right m top x = m
link_right m (in_left c q b r) x = m
link_right m (in_right c l q b) x = update m q x

abbrev pub link_root : Ptr → Ctx → Ptr → Ptr
link_root m top x = x
link_root m (in_left c q b r) x = m
link_root m (in_right c l q b) x = m

-- The map of parents after the root of a subtree, if it has one, got the parent `p`.
abbrev pub link_back : (Ptr → Ptr) → Tree → Ptr → Ptr → Ptr
link_back m leaf p = m
link_back m (node l z b r) p = update m z p

-- Whether a node is the root of a subtree, or the one above the hole.
abbrev pub hit_root : Ptr → Tree → ℕ
hit_root y leaf = 0
hit_root y (node l z b r) = hit y z

abbrev pub hit_parent : Ptr → Ctx → ℕ
hit_parent y top = 0
hit_parent y (in_left c q b r) = hit y q
hit_parent y (in_right c l q b) = hit y q

pub hit_root-le : (y : Ptr) (t : Tree) → hit_root y t ≤ count y t
hit_root-le y leaf = omega arith
hit_root-le y (node l z b r) = omega arith

pub hit_parent-le : (y : Ptr) (c : Ctx) → hit_parent y c ≤ count_ctx y c
hit_parent-le y top = omega arith
hit_parent-le y (in_left c q b r) = omega arith
hit_parent-le y (in_right c l q b) = omega arith

module _ (m : Ptr → Ptr) (y x : Ptr) where
  pub link_left-outside : (c : Ctx) → hit_parent y c ≡ 0 → link_left m c x y ≡ m y
  link_left-outside top h = refl
  link_left-outside (in_left c q b r) h = update_ne m q x y (==_of_hit y q h)
  link_left-outside (in_right c l q b) h = refl

  pub link_right-outside : (c : Ctx) → hit_parent y c ≡ 0 → link_right m c x y ≡ m y
  link_right-outside top h = refl
  link_right-outside (in_left c q b r) h = refl
  link_right-outside (in_right c l q b) h = update_ne m q x y (==_of_hit y q h)

  pub link_back-outside : (t : Tree) → hit_root y t ≡ 0 → link_back m t x y ≡ m y
  link_back-outside leaf h = refl
  link_back-outside (node l z b r) h = update_ne m z x y (==_of_hit y z h)

-- What a map is away from the node above the hole does not change what it leads to.
module _ (m n : Ptr → Ptr) (x q : Ptr) (e : m q ≡ n q) where
  link_congr : (z : Ptr) → update m z x q ≡ update n z x q
  link_congr z = elim (Bool-cases (q == z)) [
    | inl h ↦ rw (eq_of_== q z h, update_self m z x, update_self n z x)
    | inr h ↦ update_ne m z x q h ∙ e ∙ sym (update_ne n z x q h)
  ]

  pub link_left-congr : (c : Ctx) → link_left m c x q ≡ link_left n c x q
  link_left-congr top = e
  link_left-congr (in_left c z b r) = link_congr z
  link_left-congr (in_right c l z b) = e

  pub link_right-congr : (c : Ctx) → link_right m c x q ≡ link_right n c x q
  link_right-congr top = e
  link_right-congr (in_left c z b r) = e
  link_right-congr (in_right c l z b) = link_congr z

pub ne_null_of_alive : (live : Ptr → Bool) (p : Ptr) → alive live p ≡ true → (p == null) ≡ false
unfolding alive
ne_null_of_alive live p h = ground arith

pub root_of-ne :
    (live : Ptr → Bool) (p : Ptr) (t : Tree)
    → alive live p ≡ true
    → count p t ≡ 0
    → (root_of t == p) ≡ false
root_of-ne live p leaf a e = ==_comm null p ∙ ne_null_of_alive live p a
root_of-ne live p (node l z b r) a e = ==_comm z p ∙ ==_of_hit p z (omega arith)

-- The links from around the subtree of `p` lead to `x` afterwards.
pub relink_parent-ok :
    (t : Avltree) (p x : Ptr) (c : Ctx)
    → alive t.live p ≡ true
    → alive t.live x ≡ true
    → t.parent p ≡ parent_of c
    → CtxShape t p c
    → count_ctx p c ≡ 0
    → relink_parent p x t
      ≡ ok tt (record t {
        root = link_root t.root c x;
        parent = update t.parent x (parent_of c);
        left = link_left t.left c x;
        right = link_right t.right c x;
      })
unfolding relink_parent
relink_parent-ok t p x top ap ax e s h = simp (ap, ax, e, update_self)
relink_parent-ok t p x (in_left c q b r) ap ax e s h =
    let nn = ne_null_of_alive t.live q s.0.is_alive in
    simp (ap, ax, e, update_self, nn, s.0.is_alive, s.0.left, ==_refl p)
relink_parent-ok t p x (in_right c l q b) ap ax e s h =
    let nn = ne_null_of_alive t.live q s.0.is_alive in
    let ne = root_of-ne t.live p l ap (omega arith) in
    simp (ap, ax, e, update_self, nn, s.0.is_alive, s.0.left, ne)
