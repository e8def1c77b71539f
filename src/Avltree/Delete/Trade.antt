-- ===== src/Avltree/Delete/Trade.antt =====
-- The maps of members after `bs_avltree_node_exchange`, one address at a time.
use libbase.Base.{Bool, false, ◌≡◌, arith, ◌==◌, if◌then◌else◌}
use libbase.Memory.{Ptr, null, update}

-- Two addresses trade places.
unfoldable pub swapped : Ptr → Ptr → Ptr → Ptr
swapped p q n = if n == p then q else if n == q then p else n

pub swapped-swapped : (p q n : Ptr) → swapped p q (swapped p q n) ≡ n
unfolding swapped
swapped-swapped p q n = ground arith

pub swapped_first : (p q : Ptr) → swapped p q p ≡ q
unfolding swapped
swapped_first p q = ground arith

pub swapped_second : (p q : Ptr) → swapped p q q ≡ p
unfolding swapped
swapped_second p q = ground arith

pub swapped_other : (p q n : Ptr) → (n == p) ≡ false → (n == q) ≡ false → swapped p q n ≡ n
unfolding swapped
swapped_other p q n e f = rw (e, f)

-- The values of a map at two addresses trade places.
abbrev pub traded : {V : Type 0} → (Ptr → V) → Ptr → Ptr → Ptr → V
traded f p q = update (update f p (f q)) q (f p)

-- An address that the map leads to itself is led to `o`.
abbrev pub mended : (Ptr → Ptr) → Ptr → Ptr → Ptr → Ptr
mended f n o = if f n == n then update f n o else f

-- The map of a member after the nodes were traded and point away from themselves.
unfoldable pub crossed : (Ptr → Ptr) → Ptr → Ptr → Ptr → Ptr
crossed f p q = mended (mended (traded f p q) p q) q p

-- The child `c`, if it is one, gets the parent `v`.
abbrev pub put : (Ptr → Ptr) → Ptr → Ptr → Ptr → Ptr
put f c v = if c == null then f else update f c v

-- The map written at `a`, if `b`.
abbrev pub led : Bool → (Ptr → Ptr) → Ptr → Ptr → Ptr → Ptr
led b f a v = if b then update f a v else f

module _ (f : Ptr → Ptr) (p q : Ptr) (ne : (p == q) ≡ false) where
  pub crossed_first : (f q == q) ≡ false → (f p == p) ≡ false → crossed f p q p ≡ swapped p q (f q)
  unfolding crossed swapped update
  crossed_first e e' = ground arith

  pub crossed_second : (f q == q) ≡ false → (f p == p) ≡ false → crossed f p q q ≡ swapped p q (f p)
  unfolding crossed swapped update
  crossed_second e e' = ground arith

  pub crossed_other : (n : Ptr) → (n == p) ≡ false → (n == q) ≡ false → crossed f p q n ≡ f n
  unfolding crossed update
  crossed_other n e e' = ground arith
