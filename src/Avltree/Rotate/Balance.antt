-- ===== src/Avltree/Rotate/Balance.antt =====
-- The balances that a rotation writes.
use libbase.Base.{Bool, true, false, ◌≡◌, refl, ◌∙◌, ◌==◌, if◌then◌else◌, ==_comm}
use libbase.Base.Int.{ℤ, pos, ◌+ℤ◌, ◌-ℤ◌, ltb_ℤ, int8}
use libbase.Memory.{Ptr, ok, Outcome, update, update_self, update_ne}
use libbase.Avltree.{Avltree, alive, rebalance_right, rebalance_left}

-- After a rotation to the right: the balance of the node that goes down, and of the one that comes up.
unfoldable pub down_right : ℤ → ℤ → ℤ
down_right b lb = if ltb_ℤ lb (pos 0) then int8 (int8 (b +ℤ pos 1) -ℤ lb) else int8 (b +ℤ pos 1)

unfoldable pub up_right : ℤ → ℤ → ℤ
up_right b lb =
    if ltb_ℤ (pos 0) (down_right b lb)
    then int8 (int8 (lb +ℤ pos 1) +ℤ down_right b lb)
    else int8 (lb +ℤ pos 1)

unfoldable pub down_left : ℤ → ℤ → ℤ
down_left b rb = if ltb_ℤ (pos 0) rb then int8 (int8 (b -ℤ pos 1) -ℤ rb) else int8 (b -ℤ pos 1)

unfoldable pub up_left : ℤ → ℤ → ℤ
up_left b rb =
    if ltb_ℤ (down_left b rb) (pos 0)
    then int8 (int8 (rb -ℤ pos 1) +ℤ down_left b rb)
    else int8 (rb -ℤ pos 1)

-- A map written at `p`, and once more if `again`.
abbrev pub settle : (Ptr → ℤ) → Ptr → Bool → ℤ → ℤ → Ptr → ℤ
settle m p true v w = update (update m p v) p w
settle m p false v w = update m p v

settle_self :
    (m : Ptr → ℤ) (p : Ptr) (again : Bool) (v w : ℤ)
    → settle m p again v w p ≡ (if again then w else v)
settle_self m p true v w = update_self (update m p v) p w
settle_self m p false v w = update_self m p v

settle_ne :
    (m : Ptr → ℤ) (p : Ptr) (again : Bool) (v w : ℤ) (q : Ptr)
    → (q == p) ≡ false
    → settle m p again v w q ≡ m q
settle_ne m p true v w q e = update_ne (update m p v) p w q e ∙ update_ne m p v q e
settle_ne m p false v w q e = update_ne m p v q e

-- A run that writes the balances of two nodes and nothing else.
pub record Rebalanced (t : Avltree) (p x : Ptr) (b c : ℤ) (run : Outcome Avltree (Unit {0}))
    : Type 0 where
  pub after : Ptr → ℤ
  pub ends : run ≡ ok tt (record t { balance = after })
  pub down : after p ≡ b
  pub up : after x ≡ c
  pub same : (q : Ptr) → (q == p) ≡ false → (q == x) ≡ false → after q ≡ t.balance q

module _ (t : Avltree) (p x : Ptr) (b c : ℤ) (ap : alive t.live p ≡ true)
    (ax : alive t.live x ≡ true) (bp : t.balance p ≡ b) (bx : t.balance x ≡ c)
    (ne : (x == p) ≡ false) where
  -- The writes of both branches, and what they leave.
  settled : Bool → Bool → ℤ → ℤ → ℤ → ℤ → Ptr → ℤ
  settled s r v w v' w' = settle (settle t.balance p s v w) x r v' w'

  settled-Rebalanced :
      (run : Outcome Avltree (Unit {0})) (s r : Bool) (v w v' w' : ℤ)
      → run ≡ ok tt (record t { balance = settled s r v w v' w' })
      → Rebalanced t p x (if s then w else v) (if r then w' else v') run
  unfolding settled
  settled-Rebalanced run s r v w v' w' e =
      let m = settle t.balance p s v w in
      record {
        after = settle m x r v' w';
        ends = e;
        down = settle_ne m x r v' w' p (==_comm p x ∙ ne) ∙ settle_self t.balance p s v w;
        up = settle_self m x r v' w';
        same = λ q h k. settle_ne m x r v' w' q k ∙ settle_ne t.balance p s v w q h;
      }

  rebalance_right-settled :
      (s r : Bool)
      → ltb_ℤ c (pos 0) ≡ s
      → ltb_ℤ (pos 0) (down_right b c) ≡ r
      → rebalance_right p x t
        ≡ ok tt (record t {
          balance =
              settled s r
                (int8 (b +ℤ pos 1))
                (int8 (int8 (b +ℤ pos 1) -ℤ c))
                (int8 (c +ℤ pos 1))
                (int8 (int8 (c +ℤ pos 1) +ℤ down_right b c));
        })
  unfolding settled rebalance_right down_right
  rebalance_right-settled true true e f =
      let g = rw e at f in simp (ap, ax, bp, bx, update_self, update_ne, ne, ==_comm p x, e, g)
  rebalance_right-settled true false e f =
      let g = rw e at f in simp (ap, ax, bp, bx, update_self, update_ne, ne, ==_comm p x, e, g)
  rebalance_right-settled false true e f =
      let g = rw e at f in simp (ap, ax, bp, bx, update_self, update_ne, ne, ==_comm p x, e, g)
  rebalance_right-settled false false e f =
      let g = rw e at f in simp (ap, ax, bp, bx, update_self, update_ne, ne, ==_comm p x, e, g)

  pub rebalance_right-Rebalanced :
      Rebalanced t p x (down_right b c) (up_right b c) (rebalance_right p x t)
  unfolding down_right up_right
  rebalance_right-Rebalanced =
      settled-Rebalanced _ (ltb_ℤ c (pos 0)) (ltb_ℤ (pos 0) (down_right b c)) _ _ _ _
        (rebalance_right-settled _ _ refl refl)

  rebalance_left-settled :
      (s r : Bool)
      → ltb_ℤ (pos 0) c ≡ s
      → ltb_ℤ (down_left b c) (pos 0) ≡ r
      → rebalance_left p x t
        ≡ ok tt (record t {
          balance =
              settled s r
                (int8 (b -ℤ pos 1))
                (int8 (int8 (b -ℤ pos 1) -ℤ c))
                (int8 (c -ℤ pos 1))
                (int8 (int8 (c -ℤ pos 1) +ℤ down_left b c));
        })
  unfolding settled rebalance_left down_left
  rebalance_left-settled true true e f =
      let g = rw e at f in simp (ap, ax, bp, bx, update_self, update_ne, ne, ==_comm p x, e, g)
  rebalance_left-settled true false e f =
      let g = rw e at f in simp (ap, ax, bp, bx, update_self, update_ne, ne, ==_comm p x, e, g)
  rebalance_left-settled false true e f =
      let g = rw e at f in simp (ap, ax, bp, bx, update_self, update_ne, ne, ==_comm p x, e, g)
  rebalance_left-settled false false e f =
      let g = rw e at f in simp (ap, ax, bp, bx, update_self, update_ne, ne, ==_comm p x, e, g)

  pub rebalance_left-Rebalanced :
      Rebalanced t p x (down_left b c) (up_left b c) (rebalance_left p x t)
  unfolding down_left up_left
  rebalance_left-Rebalanced =
      settled-Rebalanced _ (ltb_ℤ (pos 0) c) (ltb_ℤ (down_left b c) (pos 0)) _ _ _ _
        (rebalance_left-settled _ _ refl refl)
