-- ===== src/Avltree/Delete/Exchange.antt =====
-- The maps after `bs_avltree_node_exchange` are those before it with the names of the two nodes
-- traded, at every node of the tree.
pub mod Run
use libbase.Base.{
  ℕ, Bool, true, false, ◌&&◌, ◌≡◌, refl, arith, ◌==◌, if◌then◌else◌, Bool-cases, inl, inr, eq_of_==,
  ◌∙◌, sym, ap, ==_refl, ==_comm,
}
use libbase.Base.Int.{ℤ, pos, negsuc}
use libbase.Memory.{Ptr, null, update, update_self, update_ne}
use libbase.Avltree.{Avltree, alive}
use libbase.Avltree.Relink.{ne_null_of_alive}
use libbase.Avltree.Delete.Trade.{
  swapped, swapped-swapped, swapped_first, swapped_second, swapped_other, crossed, crossed_first,
  crossed_second, crossed_other, put, led,
}
use libbase.Avltree.Delete.Wired.{Up, at_root, on_left, on_right, Wired}

abbrev pub up_root : {t : Avltree} {n : Ptr} → Up t n → Bool
up_root (at_root e f) = true
up_root (on_left a e f) = false
up_root (on_right a e f) = false

abbrev pub up_left : {t : Avltree} {n : Ptr} → Up t n → Bool
up_left (at_root e f) = false
up_left (on_left a e f) = true
up_left (on_right a e f) = false

abbrev pub up_right : {t : Avltree} {n : Ptr} → Up t n → Bool
up_right (at_root e f) = false
up_right (on_left a e f) = false
up_right (on_right a e f) = true

module _ (t : Avltree) (p : Ptr) where
  pub up_left-leads : (y : Up t p) → up_left y ≡ true → t.left (t.parent p) ≡ p
  up_left-leads (at_root e f) h = absurd (ground arith)
  up_left-leads (on_left a e f) h = e
  up_left-leads (on_right a e f) h = absurd (ground arith)

  pub up_right-leads : (y : Up t p) → up_right y ≡ true → t.right (t.parent p) ≡ p
  up_right-leads (at_root e f) h = absurd (ground arith)
  up_right-leads (on_left a e f) h = absurd (ground arith)
  up_right-leads (on_right a e f) h = f

  pub left-up_left :
      (n : Ptr) (y : Up t p)
      → (n == null) ≡ false
      → t.parent p ≡ n
      → t.left n ≡ p
      → up_left y ≡ true
  left-up_left n (at_root e f) k g h = absurd (ground arith)
  left-up_left n (on_left a e f) k g h = refl
  left-up_left n (on_right a e f) k g h =
      let e' = rw (g, h, ==_refl p) at e in absurd (ground arith)

  pub right-up_right :
      (n : Ptr) (y : Up t p)
      → (n == null) ≡ false
      → t.parent p ≡ n
      → t.right n ≡ p
      → up_right y ≡ true
  right-up_right n (at_root e f) k g h = absurd (ground arith)
  right-up_right n (on_left a e f) k g h =
      let f' = rw (g, h, ==_refl p) at f in absurd (ground arith)
  right-up_right n (on_right a e f) k g h = refl

-- A map written under a condition, at one address.
led-cases :
    (b : Bool) (f : Ptr → Ptr) (a v n w : Ptr)
    → (b ≡ true → n ≡ a → v ≡ w)
    → ((b && (n == a)) ≡ false → f n ≡ w)
    → led b f a v n ≡ w
unfolding update
led-cases true f a v n w h k = ground arith
led-cases false f a v n w h k = k refl

-- The links down from the parents: `f` is the map before, `m` that of the traded nodes, and `g` has
-- the parents.
module _ (f g m : Ptr → Ptr) (p q : Ptr) (ip iq : Bool) where
  -- Away from what leads to the two nodes.
  apart-swapped :
      (n : Ptr)
      → (f n ≡ p → (g p ≡ n) × (ip ≡ true))
      → (f n ≡ q → (g q ≡ n) × (iq ≡ true))
      → m p ≡ swapped p q (f q)
      → m q ≡ swapped p q (f p)
      → ((n == p) ≡ false → (n == q) ≡ false → m n ≡ f n)
      → (ip && (n == swapped p q (g p))) ≡ false
      → (iq && (n == swapped p q (g q))) ≡ false
      → m n ≡ swapped p q (f (swapped p q n))
  apart-swapped n kp kq mp mq mo op oq = elim (Bool-cases (n == p)) [
    | inl e ↦ rw (eq_of_== n p e, swapped_first p q) mp
    | inr e ↦ elim (Bool-cases (n == q)) [
      | inl e' ↦ rw (eq_of_== n q e', swapped_second p q) mq
      | inr e' ↦
          let o = swapped_other p q n e e' in
          let same = mo e e' in
          elim (Bool-cases (f n == p)) [
            | inl h ↦
                let k = kp (eq_of_== (f n) p h) in
                let no = rw (k.0, k.1, o, ==_refl n) at op in absurd (ground arith)
            | inr h ↦ elim (Bool-cases (f n == q)) [
              | inl h' ↦
                  let k = kq (eq_of_== (f n) q h') in
                  let no = rw (k.0, k.1, o, ==_refl n) at oq in absurd (ground arith)
              | inr h' ↦ rw (o, swapped_other p q (f n) h h') same
            ]
          ]
    ]
  ]

  pub led-swapped :
      (n : Ptr)
      → (ip ≡ true → f (g p) ≡ p)
      → (iq ≡ true → f (g q) ≡ q)
      → (f n ≡ p → (g p ≡ n) × (ip ≡ true))
      → (f n ≡ q → (g q ≡ n) × (iq ≡ true))
      → m p ≡ swapped p q (f q)
      → m q ≡ swapped p q (f p)
      → ((n == p) ≡ false → (n == q) ≡ false → m n ≡ f n)
      → led ip (led iq m (swapped p q (g q)) p) (swapped p q (g p)) q n
        ≡ swapped p q (f (swapped p q n))
  led-swapped n hp hq kp kq mp mq mo =
      led-cases ip _ (swapped p q (g p)) q n _
        (λ b e. rw (e, swapped-swapped p q (g p), hp b, swapped_first p q) refl)
        (λ op.
          led-cases iq m (swapped p q (g q)) p n _
            (λ b e. rw (e, swapped-swapped p q (g q), hq b, swapped_second p q) refl)
            (λ oq. apart-swapped n kp kq mp mq mo op oq))
