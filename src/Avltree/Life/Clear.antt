-- ===== src/Avltree/Life/Clear.antt =====
-- One node without children is cleared by `bs_avltree_flush`.
use libbase.Base.{
  ℕ, suc, ◌+◌, ◌-◌, ◌%◌, ◌^◌, ◌≤◌, Bool, true, false, ◌≡◌, refl, arith, ◌∙◌, List, ◌∷◌, ◌==◌,
  ==_refl, ==_comm, if◌then◌else◌, Bool-cases, inl, inr,
}
use libbase.Base.Int.{ℤ, pos}
use libbase.Memory.{Ptr, null, ok, update, update_ne, Outcome, ◌>>◌}
use libbase.Avltree.{Avltree, alive, set_left, set_right}
use libbase.Avltree.Shape.{
  leaf, node, Ctx, top, in_left, in_right, root_of, parent_of, count_ctx, hit_self, ==_of_hit, At,
  Same, Holds,
}
use libbase.Avltree.Relink.{
  link_left, link_right, link_root, hit_parent, link_left-outside, link_right-outside,
  link_left-congr, link_right-congr, ne_null_of_alive, root_of-ne,
}
use libbase.Avltree.Rotate.Around.{Leads-CtxShape}
use libbase.Avltree.Insert.{call_destroy}
use libbase.Avltree.Insert.Attach.{ne_of_count}
use libbase.Avltree.Delete.{count_down}
use libbase.Avltree.Delete.Detach.{clear_node-zero}
use libbase.Avltree.Life.{flush_from}

-- The addresses that hold a node after the destructor, if there is one, freed `p`.
unfoldable pub live_after : Avltree → Ptr → Ptr → Bool
live_after t p = if t.has_destroy then update t.live p false else t.live

abbrev pub destroyed_after : Avltree → Ptr → List Ptr
destroyed_after t p = if t.has_destroy then p ∷ t.destroyed else t.destroyed

call_destroy-after :
    (t : Avltree) (p : Ptr)
    → call_destroy p t ≡ ok tt (record t { live = live_after t p; destroyed = destroyed_after t p })
unfolding call_destroy live_after
call_destroy-after t p = elim (Bool-cases t.has_destroy) [ inl e ↦ rw e refl | inr e ↦ rw e refl ]

alive-live_after :
    (t : Avltree) (p q : Ptr) → (q == p) ≡ false → alive (live_after t p) q ≡ alive t.live q
unfolding alive live_after
alive-live_after t p q e = elim (Bool-cases t.has_destroy) [
  | inl f ↦ rw (f, update_ne t.live p false q e) refl
  | inr f ↦ rw f refl
]

-- The memory with the node cleared and gone from its parent.
abbrev pub cleared : Avltree → Ctx → Ptr → Avltree
cleared t c p = record t {
  nodes = (t.nodes + (2 ^ 64 - 1)) % 2 ^ 64;
  parent = update t.parent p null;
  left = link_left (update t.left p null) c null;
  right = link_right (update t.right p null) c null;
  balance = update t.balance p (pos 0);
  live = live_after t p;
  destroyed = destroyed_after t p;
}

-- The loop goes on at the node above, if there is one.
abbrev pub above : ℕ → Ctx → Avltree → Outcome Avltree (Unit {0})
above k top u = ok tt u
above k (in_left c p b r) u = flush_from k p u
above k (in_right c l p b) u = flush_from k p u

module _ (t : Avltree) (p : Ptr) where
  -- The members are cleared and the node is destroyed and not counted any more.
  abbrev zeroed : Avltree
  zeroed = record t {
    parent = update t.parent p null;
    left = update t.left p null;
    right = update t.right p null;
    balance = update t.balance p (pos 0);
  }

  flush_from-linked :
      (k : ℕ) (q : Ptr) (b : ℤ) (left : Ptr)
      → At t p q null null b
      → (q == p) ≡ false
      → alive t.live q ≡ true
      → t.left q ≡ left
      → flush_from (suc k) p t
        ≡ (do if left == p then set_left q null else set_right q null; flush_from k q)
            (record zeroed {
              nodes = (t.nodes + (2 ^ 64 - 1)) % 2 ^ 64;
              live = live_after t p;
              destroyed = destroyed_after t p;
            })
  unfolding flush_from count_down live_after
  flush_from-linked k q b left s e a g =
      let n = ne_null_of_alive t.live p s.is_alive in
      let a' = alive-live_after t p q e ∙ a in
      rw
        (
          n,
          s.is_alive,
          s.left,
          s.is_alive,
          s.right,
          s.is_alive,
          s.parent,
          clear_node-zero t p s.is_alive,
          call_destroy-after zeroed p,
          ne_null_of_alive t.live q a,
          a',
          update_ne t.left p null q e,
          g,
        )
        refl

  pub flush_from-cleared :
      (k : ℕ) (c : Ctx) (b : ℤ)
      → Holds t c (node leaf p b leaf)
      → flush_from (suc k) p t ≡ above k c (cleared t c p)
  unfolding flush_from count_down live_after
  flush_from-cleared k top b h =
      let s = h.shape.0 in
      rw
        (
          ne_null_of_alive t.live p s.is_alive,
          s.is_alive,
          s.left,
          s.is_alive,
          s.right,
          s.is_alive,
          s.parent,
          clear_node-zero t p s.is_alive,
          call_destroy-after zeroed p,
        )
        refl
  flush_from-cleared k (in_left c q b' r) b h =
      let e = ==_comm q p ∙ ==_of_hit p q (omega (arith, h.distinct p, hit_self p)) in
      let i = h.around.0 in
      let a = alive-live_after t p q e ∙ i.is_alive in
      rw (flush_from-linked k q b p h.shape.0 e i.is_alive i.left, ==_refl p, a) refl
  flush_from-cleared k (in_right c l q b') b h =
      let e = ==_comm q p ∙ ==_of_hit p q (omega (arith, h.distinct p, hit_self p)) in
      let i = h.around.0 in
      let a = alive-live_after t p q e ∙ i.is_alive in
      let o = root_of-ne t.live p l h.shape.0.is_alive (omega (arith, h.distinct p, hit_self p)) in
      rw (flush_from-linked k q b (root_of l) h.shape.0 e i.is_alive i.left, o, a) refl

  cleared-Same :
      (c : Ctx) (q : Ptr) → (q == p) ≡ false → hit_parent q c ≡ 0 → Same t (cleared t c p) q
  cleared-Same c q e z = record {
    is_alive = alive-live_after t p q e;
    parent = update_ne t.parent p null q e;
    left = link_left-outside (update t.left p null) q null c z ∙ update_ne t.left p null q e;
    right = link_right-outside (update t.right p null) q null c z ∙ update_ne t.right p null q e;
    balance = update_ne t.balance p (pos 0) q e;
  }

  cleared-around :
      (c : Ctx) (b : ℤ)
      → t.root ≡ link_root t.root c null
      → Holds t c (node leaf p b leaf)
      → Holds (cleared t c p) c leaf
  cleared-around c b root h =
      let o : count_ctx p c ≡ 0 = omega (arith, h.distinct p, hit_self p) in
      let ne : (q : Ptr) → 1 ≤ count_ctx q c → (q == p) ≡ false = λ q i. ne_of_count q p c i o in
      record {
        shape = tt;
        around =
            Leads-CtxShape t (cleared t c p) c p null (λ q. omega (arith, h.distinct q)) h.around
              (record {
                root = root;
                same = λ q i z. cleared-Same c q (ne q i) z;
                is_alive = λ q i. alive-live_after t p q (ne q i);
                parent = λ q i. update_ne t.parent p null q (ne q i);
                left = λ q i.
                    link_left-congr (update t.left p null) t.left null q
                      (update_ne t.left p null q (ne q i)) c;
                right = λ q i.
                    link_right-congr (update t.right p null) t.right null q
                      (update_ne t.right p null q (ne q i)) c;
                balance = λ q i. update_ne t.balance p (pos 0) q (ne q i);
              });
        distinct = λ q. omega (arith, h.distinct q);
      }

  pub cleared-Holds :
      (c : Ctx) (b : ℤ)
      → (parent_of c == null) ≡ false
      → Holds t c (node leaf p b leaf)
      → Holds (cleared t c p) c leaf
  cleared-Holds top b n h = absurd (ground arith)
  cleared-Holds (in_left c' q' b' r) b n h = cleared-around (in_left c' q' b' r) b refl h
  cleared-Holds (in_right c' l q' b') b n h = cleared-around (in_right c' l q' b') b refl h
