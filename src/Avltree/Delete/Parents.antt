-- ===== src/Avltree/Delete/Parents.antt =====
-- The parents after `bs_avltree_node_exchange` are those before it with the names of the two nodes
-- traded.
use libbase.Base.{
  false, ◌≡◌, refl, arith, ◌==◌, Bool-cases, inl, inr, eq_of_==, ◌∙◌, sym, ==_refl, ◌⊎◌,
}
use libbase.Memory.{Ptr, null, update}
use libbase.Avltree.{Avltree}
use libbase.Avltree.Relink.{ne_null_of_alive}
use libbase.Avltree.Delete.Trade.{
  swapped, swapped-swapped, swapped_first, swapped_second, swapped_other, crossed, crossed_first,
  crossed_second, crossed_other, put,
}
use libbase.Avltree.Delete.Wired.{Up, at_root, on_left, on_right, Wired}

-- A child that got a parent, at one address.
put-cases :
    (f : Ptr → Ptr) (c v n w : Ptr)
    → (n == null) ≡ false
    → (n ≡ c → v ≡ w)
    → ((n == c) ≡ false → f n ≡ w)
    → put f c v n ≡ w
unfolding update
put-cases f c v n w e h k = ground arith

Up-child :
    (t : Avltree) (n p : Ptr)
    → (p == null) ≡ false
    → Up t n
    → t.parent n ≡ p
    → (t.left p ≡ n) ⊎ (t.right p ≡ n)
Up-child t n p e (at_root f g) h = absurd (ground arith)
Up-child t n p e (on_left a f g) h = inl (rw h at f)
Up-child t n p e (on_right a f g) h = inr (rw h at g)

pub swapped-null :
    (p q n : Ptr)
    → (p == null) ≡ false
    → (q == null) ≡ false
    → (n == null) ≡ false
    → (swapped p q n == null) ≡ false
unfolding swapped
swapped-null p q n e f g = ground arith

module _ (t : Avltree) (p q : Ptr) (ne : (p == q) ≡ false) (wp : Wired t p) (wq : Wired t q) where
  np : (p == null) ≡ false
  np = ne_null_of_alive t.live p wp.is_alive

  nq : (q == null) ≡ false
  nq = ne_null_of_alive t.live q wq.is_alive

  -- `n` is what a child `c` of the node `a` is called after the trade.
  child-swapped :
      (n c a : Ptr)
      → (n == null) ≡ false
      → ((c == null) ≡ false → t.parent c ≡ a)
      → n ≡ swapped p q c
      → swapped p q a ≡ swapped p q (t.parent (swapped p q n))
  child-swapped n c a e back h =
      let c' : swapped p q n ≡ c = rw h (swapped-swapped p q c) in
      let nn = rw c' at (swapped-null p q n np nq e) in rw (c', back nn) refl

  -- A node that is not named as a child of `a` has another parent.
  no_child :
      (n a : Ptr)
      → Wired t n
      → swapped p q n ≡ n
      → (a == null) ≡ false
      → (n == swapped p q (t.left a)) ≡ false
      → (n == swapped p q (t.right a)) ≡ false
      → (t.parent n == a) ≡ false
  no_child n a w o e l r = elim (Bool-cases (t.parent n == a)) [
    | inl h ↦ elim (Up-child t n a e w.up (eq_of_== (t.parent n) a h)) [
      | inl g ↦ let no = rw (g, o, ==_refl n) at l in absurd (ground arith)
      | inr g ↦ let no = rw (g, o, ==_refl n) at r in absurd (ground arith)
    ]
    | inr h ↦ h
  ]

  apart-parent :
      (n : Ptr)
      → Wired t n
      → (n == swapped p q (t.left p)) ≡ false
      → (n == swapped p q (t.right p)) ≡ false
      → (n == swapped p q (t.left q)) ≡ false
      → (n == swapped p q (t.right q)) ≡ false
      → crossed t.parent p q n ≡ swapped p q (t.parent (swapped p q n))
  apart-parent n w lp rp lq rq = elim (Bool-cases (n == p)) [
    | inl e ↦
        rw (eq_of_== n p e, swapped_first p q) (crossed_first t.parent p q ne wq.not_up wp.not_up)
    | inr e ↦ elim (Bool-cases (n == q)) [
      | inl e' ↦
          rw (eq_of_== n q e', swapped_second p q)
            (crossed_second t.parent p q ne wq.not_up wp.not_up)
      | inr e' ↦
          let o = swapped_other p q n e e' in
          rw
            (
              crossed_other t.parent p q ne n e e',
              o,
              swapped_other p q (t.parent n) (no_child n p w o np lp rp)
                  (no_child n q w o nq lq rq),
            )
            refl
    ]
  ]

  pub put-swapped :
      (n : Ptr)
      → Wired t n
      → put
          (put
            (put
              (put (crossed t.parent p q) (swapped p q (t.left q)) p)
              (swapped p q (t.right q))
              p)
            (swapped p q (t.left p))
            q)
          (swapped p q (t.right p))
          q
          n
        ≡ swapped p q (t.parent (swapped p q n))
  put-swapped n w =
      let e = ne_null_of_alive t.live n w.is_alive in
      let to_p = swapped_second p q in
      let to_q = swapped_first p q in
      put-cases _ (swapped p q (t.right p)) q n _ e
        (λ h. sym to_q ∙ child-swapped n (t.right p) p e wp.right_back h)
        λ rp.
          put-cases _ (swapped p q (t.left p)) q n _ e
            (λ h. sym to_q ∙ child-swapped n (t.left p) p e wp.left_back h)
            λ lp.
              put-cases _ (swapped p q (t.right q)) p n _ e
                (λ h. sym to_p ∙ child-swapped n (t.right q) q e wq.right_back h)
                λ rq.
                  put-cases _ (swapped p q (t.left q)) p n _ e
                    (λ h. sym to_p ∙ child-swapped n (t.left q) q e wq.left_back h)
                    λ lq. apart-parent n w lp rp lq rq
