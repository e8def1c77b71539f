-- ===== src/Avltree/Insert/Attach.antt =====
-- The new node becomes a leaf of the tree.
use libbase.Base.{
  ◌+◌, ◌%◌, ◌^◌, ◌≤◌, true, false, ◌≡◌, refl, arith, ◌==◌, eq_of_==, Bool-cases, inl, inr, ap, ◌∙◌,
}
use libbase.Base.Int.{ℤ, pos}
use libbase.Memory.{Ptr, null, ok, update, update_self, update_ne}
use libbase.Avltree.{Avltree, alive}
use libbase.Avltree.Shape.{
  leaf, node, Ctx, top, in_left, in_right, parent_of, count, count_ctx, Same, CtxShape, Holds,
}
use libbase.Avltree.Relink.{
  link_left, link_right, link_root, hit_parent, hit_parent-le, link_left-outside,
  link_right-outside, ne_null_of_alive,
}
use libbase.Avltree.Rotate.Around.{Leads-CtxShape}
use libbase.Avltree.Insert.{attach, count_up}
use libbase.Avltree.Insert.Seek.{Side}

-- A node that is in no tree, with its members zero, as the caller of `bs_avltree_insert` has to
-- give it.
pub record IsNew (t : Avltree) (n : Ptr) : Type 0 where
  pub is_alive : alive t.live n ≡ true
  pub left : t.left n ≡ null
  pub right : t.right n ≡ null
  pub balance : t.balance n ≡ pos 0

pub ne_of_count : (q n : Ptr) (c : Ctx) → 1 ≤ count_ctx q c → count_ctx n c ≡ 0 → (q == n) ≡ false
ne_of_count q n c i o = elim (Bool-cases (q == n)) [
  | inl e ↦ let z = ap (λ y. count_ctx y c) (eq_of_== q n e) in ground arith
  | inr e ↦ e
]

apart_new :
    (q n : Ptr) (c : Ctx)
    → count_ctx n c ≡ 0
    → count_ctx q c ≤ 1
    → count q (node leaf n (pos 0) leaf) + count_ctx q c ≤ 1
apart_new q n c o d = elim (Bool-cases (q == n)) [
  | inl e ↦ let z = ap (λ y. count_ctx y c) (eq_of_== q n e) in rw e (omega arith)
  | inr e ↦ rw e (omega arith)
]

-- The memory with the node in the hole.
abbrev pub attached : Avltree → Ctx → Ptr → Avltree
attached t c n = record t {
  nodes = (t.nodes + 1) % 2 ^ 64;
  root = link_root t.root c n;
  parent = update t.parent n (parent_of c);
  left = link_left t.left c n;
  right = link_right t.right c n;
}

module _ (t : Avltree) (n : Ptr) (new : IsNew t n) where
  pub attach-attached :
      (c : Ctx) (v : ℤ)
      → Side c v
      → CtxShape t null c
      → attach n (parent_of c) v t ≡ ok tt (attached t c n)
  unfolding attach count_up
  attach-attached top v s h = rw (new.is_alive, new.is_alive, update_self t.parent n null)
  attach-attached (in_left c q b r) v s h =
      let nn = ne_null_of_alive t.live q h.0.is_alive in
      rw (new.is_alive, new.is_alive, update_self t.parent n q, nn, s, h.0.is_alive)
  attach-attached (in_right c l q b) v s h =
      let nn = ne_null_of_alive t.live q h.0.is_alive in
      rw (new.is_alive, new.is_alive, update_self t.parent n q, nn, s, h.0.is_alive)

  attached-Same :
      (c : Ctx) (q : Ptr) → (q == n) ≡ false → hit_parent q c ≡ 0 → Same t (attached t c n) q
  attached-Same c q e z = record {
    is_alive = refl;
    parent = update_ne t.parent n (parent_of c) q e;
    left = link_left-outside t.left q n c z;
    right = link_right-outside t.right q n c z;
    balance = refl;
  }

  attached-CtxShape :
      (c : Ctx)
      → count_ctx n c ≡ 0
      → ((q : Ptr) → count_ctx q c ≤ 1)
      → CtxShape t null c
      → CtxShape (attached t c n) n c
  attached-CtxShape c o d h = Leads-CtxShape t (attached t c n) c null n d h (record {
    root = refl;
    same = λ q i z. attached-Same c q (ne_of_count q n c i o) z;
    is_alive = λ q i. refl;
    parent = λ q i. update_ne t.parent n (parent_of c) q (ne_of_count q n c i o);
    left = λ q i. refl;
    right = λ q i. refl;
    balance = λ q i. refl;
  })

  pub attached-Holds :
      (c : Ctx)
      → count_ctx n c ≡ 0
      → Holds t c leaf
      → Holds (attached t c n) c (node leaf n (pos 0) leaf)
  attached-Holds c o h =
      let z : hit_parent n c ≡ 0 = omega (arith, o, hit_parent-le n c) in
      record {
        shape = (
          record {
            is_alive = new.is_alive;
            parent = update_self t.parent n (parent_of c);
            left = link_left-outside t.left n n c z ∙ new.left;
            right = link_right-outside t.right n n c z ∙ new.right;
            balance = new.balance;
          },
          tt,
          tt,
        );
        around = attached-CtxShape c o (λ q. omega (arith, h.distinct q)) h.around;
        distinct = λ q. apart_new q n c o (omega (arith, h.distinct q));
      }
