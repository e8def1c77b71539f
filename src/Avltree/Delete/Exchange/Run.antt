-- ===== src/Avltree/Delete/Exchange/Run.antt =====
-- The steps of `bs_avltree_node_exchange`, one after the other.
use libbase.Base.{
  Bool, true, false, not, ◌≡◌, refl, arith, ◌==◌, if◌then◌else◌, Bool-cases, inl, inr, ◌∙◌, ap,
  ==_refl,
}
use libbase.Base.Int.{ℤ, pos, negsuc, int8, is_zero, ltb_ℤ}
use libbase.Memory.{Ptr, null, update, ok, when}
use libbase.Avltree.{Avltree, alive, set_parent, set_left, set_right}
use libbase.Avltree.Relink.{ne_null_of_alive}
use libbase.Avltree.Insert.{copy_node}
use libbase.Avltree.Delete.{
  position, swap_members, point_away, adopt_children, put_at, node_exchange,
}
use libbase.Avltree.Delete.Trade.{
  swapped, swapped_first, swapped_second, traded, mended, crossed, crossed_first, crossed_second,
  put, led,
}
use libbase.Avltree.Delete.Wired.{Up, at_root, on_left, on_right, Wired}
use libbase.Avltree.Delete.Parents.{swapped-null, put-swapped}
use libbase.Avltree.Delete.Exchange.{up_root, up_left, up_right}

-- What `position` returns.
abbrev pub place : {t : Avltree} {n : Ptr} → Up t n → ℤ
place (at_root e f) = pos 0
place (on_left a e f) = negsuc 0
place (on_right a e f) = pos 1

pub position-place :
    (t : Avltree) (n : Ptr) → alive t.live n ≡ true → (y : Up t n) → position n t ≡ ok (place y) t
unfolding position
position-place t n a (at_root e f) = rw (a, e)
position-place t n a (on_left a' e f) =
    rw (a, ne_null_of_alive t.live (t.parent n) a', a', e, ==_refl n)
position-place t n a (on_right a' e f) =
    rw (a, ne_null_of_alive t.live (t.parent n) a', a', e, a', f, ==_refl n)

pub swap_members-traded :
    (t : Avltree) (p q : Ptr)
    → alive t.live p ≡ true
    → alive t.live q ≡ true
    → int8 (t.balance p) ≡ t.balance p
    → int8 (t.balance q) ≡ t.balance q
    → swap_members p q t
      ≡ ok tt (record t {
        parent = traded t.parent p q;
        left = traded t.left p q;
        right = traded t.right p q;
        balance = traded t.balance p q;
      })
unfolding swap_members copy_node
swap_members-traded t p q a a' b b' = simp (a, a', b, b')

when-set_parent :
    (s : Avltree) (n o : Ptr) (b : Bool)
    → alive s.live n ≡ true
    → when b (set_parent n o) s
      ≡ ok tt (record s { parent = if b then update s.parent n o else s.parent })
when-set_parent s n o true a = rw a
when-set_parent s n o false a = refl

when-set_left :
    (s : Avltree) (n o : Ptr) (b : Bool)
    → alive s.live n ≡ true
    → when b (set_left n o) s ≡ ok tt (record s { left = if b then update s.left n o else s.left })
when-set_left s n o true a = rw a
when-set_left s n o false a = refl

when-set_right :
    (s : Avltree) (n o : Ptr) (b : Bool)
    → alive s.live n ≡ true
    → when b (set_right n o) s
      ≡ ok tt (record s { right = if b then update s.right n o else s.right })
when-set_right s n o true a = rw a
when-set_right s n o false a = refl

pub point_away-mended :
    (s : Avltree) (n o : Ptr)
    → alive s.live n ≡ true
    → point_away n o s
      ≡ ok tt (record s {
        parent = mended s.parent n o;
        left = mended s.left n o;
        right = mended s.right n o;
      })
unfolding point_away
point_away-mended s n o a =
    let s' : Avltree = record s { parent = mended s.parent n o } in
    let s'' : Avltree = record s' { left = mended s.left n o } in
    rw
      (
        a,
        when-set_parent s n o (s.parent n == n) a,
        a,
        when-set_left s' n o (s.left n == n) a,
        a,
        when-set_right s'' n o (s.right n == n) a,
      )
      refl

when-adopt :
    (s : Avltree) (c n : Ptr)
    → ((c == null) ≡ false → alive s.live c ≡ true)
    → when (not (c == null)) (set_parent c n) s ≡ ok tt (record s { parent = put s.parent c n })
when-adopt s c n a = elim (Bool-cases (c == null)) [ inl e ↦ rw e | inr e ↦ rw (e, a e) ]

pub adopt_children-put :
    (s : Avltree) (n l r : Ptr)
    → alive s.live n ≡ true
    → s.left n ≡ l
    → s.right n ≡ r
    → ((l == null) ≡ false → alive s.live l ≡ true)
    → ((r == null) ≡ false → alive s.live r ≡ true)
    → adopt_children n s ≡ ok tt (record s { parent = put (put s.parent l n) r n })
unfolding adopt_children
adopt_children-put s n l r a e f al ar =
    let s' : Avltree = record s { parent = put s.parent l n } in
    rw (a, e, when-adopt s l n al, a, f, when-adopt s' r n ar) refl

pub put_at-led :
    {t : Avltree} {m : Ptr} (y : Up t m) (s : Avltree) (n pp : Ptr)
    → alive s.live n ≡ true
    → s.parent n ≡ pp
    → (up_root y ≡ false → alive s.live pp ≡ true)
    → put_at (place y) n s
      ≡ ok tt (record s {
        root = if up_root y then n else s.root;
        left = led (up_left y) s.left pp n;
        right = led (up_right y) s.right pp n;
      })
unfolding put_at is_zero ltb_ℤ
put_at-led (at_root e f) s n pp a g ap = refl
put_at-led (on_left a' e f) s n pp a g ap = rw (a, g, ap refl) refl
put_at-led (on_right a' e f) s n pp a g ap = rw (a, g, ap refl) refl

-- The memory after the call.
unfoldable pub exchanged : (t : Avltree) (p q : Ptr) → Up t p → Up t q → Avltree
exchanged t p q yp yq = record t {
  root = if up_root yp then q else if up_root yq then p else t.root;
  parent =
      put
        (put
          (put (put (crossed t.parent p q) (swapped p q (t.left q)) p) (swapped p q (t.right q)) p)
          (swapped p q (t.left p)) q)
        (swapped p q (t.right p)) q;
  left =
      led (up_left yp) (led (up_left yq) (crossed t.left p q) (swapped p q (t.parent q)) p)
        (swapped p q (t.parent p)) q;
  right =
      led (up_right yp) (led (up_right yq) (crossed t.right p q) (swapped p q (t.parent q)) p)
        (swapped p q (t.parent p)) q;
  balance = traded t.balance p q;
}

module _ (t : Avltree) (p q : Ptr) (ne : (p == q) ≡ false) (wp : Wired t p) (wq : Wired t q) where
  alive-swapped :
      (n : Ptr)
      → ((n == null) ≡ false → alive t.live n ≡ true)
      → (swapped p q n == null) ≡ false
      → alive t.live (swapped p q n) ≡ true
  unfolding swapped
  alive-swapped n h e = elim (Bool-cases (n == p)) [
    | inl f ↦ rw f (wq.is_alive)
    | inr f ↦ elim (Bool-cases (n == q)) [
      | inl g ↦ rw (f, g) (wp.is_alive)
      | inr g ↦ let e' = rw (f, g) at e in rw (f, g) (h e')
    ]
  ]

  upper_alive : (n : Ptr) (y : Up t n) → up_root y ≡ false → alive t.live (t.parent n) ≡ true
  upper_alive n (at_root e f) h = absurd (ground arith)
  upper_alive n (on_left a e f) h = a
  upper_alive n (on_right a e f) h = a

  parent-alive :
      (n : Ptr) (y : Up t n) → up_root y ≡ false → alive t.live (swapped p q (t.parent n)) ≡ true
  parent-alive n y h =
      let a = upper_alive n y h in
      alive-swapped (t.parent n) (λ _. a)
        (swapped-null p q (t.parent n) (ne_null_of_alive t.live p wp.is_alive)
          (ne_null_of_alive t.live q wq.is_alive) (ne_null_of_alive t.live (t.parent n) a))

  -- The memory after the steps up to the parents of the children.
  abbrev parents : Ptr → Ptr
  parents =
      put
        (put
          (put (put (crossed t.parent p q) (swapped p q (t.left q)) p) (swapped p q (t.right q)) p)
          (swapped p q (t.left p)) q)
        (swapped p q (t.right p)) q

  abbrev apart : Avltree
  apart = record t {
    parent = crossed t.parent p q;
    left = crossed t.left p q;
    right = crossed t.right p q;
    balance = traded t.balance p q;
  }

  parents_first : parents p ≡ swapped p q (t.parent q)
  parents_first =
      put-swapped t p q ne wp wq p wp ∙ ap (λ n. swapped p q (t.parent n)) (swapped_first p q)

  parents_second : parents q ≡ swapped p q (t.parent p)
  parents_second =
      put-swapped t p q ne wp wq q wq ∙ ap (λ n. swapped p q (t.parent n)) (swapped_second p q)

  pub node_exchange-exchanged :
      int8 (t.balance p) ≡ t.balance p
      → int8 (t.balance q) ≡ t.balance q
      → node_exchange p q t ≡ ok tt (exchanged t p q wp.up wq.up)
  unfolding node_exchange exchanged crossed
  node_exchange-exchanged bp bq =
      let s1 : Avltree = record t {
        parent = traded t.parent p q;
        left = traded t.left p q;
        right = traded t.right p q;
        balance = traded t.balance p q;
      } in
      let s2 : Avltree = record s1 {
        parent = mended s1.parent p q;
        left = mended s1.left p q;
        right = mended s1.right p q;
      } in
      let s4 : Avltree = record apart {
        parent =
            put (put (crossed t.parent p q) (swapped p q (t.left q)) p) (swapped p q (t.right q)) p;
      } in
      let s5 : Avltree = record apart { parent = parents } in
      let s6 : Avltree = record s5 {
        root = if up_root wq.up then p else t.root;
        left = led (up_left wq.up) apart.left (swapped p q (t.parent q)) p;
        right = led (up_right wq.up) apart.right (swapped p q (t.parent q)) p;
      } in
      rw
        (
          position-place t p wp.is_alive wp.up,
          position-place t q wq.is_alive wq.up,
          swap_members-traded t p q wp.is_alive wq.is_alive bp bq,
          point_away-mended s1 p q wp.is_alive,
          point_away-mended s2 q p wq.is_alive,
          adopt_children-put apart p (swapped p q (t.left q)) (swapped p q (t.right q)) wp.is_alive
              (crossed_first t.left p q ne wq.not_left wp.not_left)
              (crossed_first t.right p q ne wq.not_right wp.not_right)
              (alive-swapped (t.left q) wq.left_alive) (alive-swapped (t.right q) wq.right_alive),
          adopt_children-put s4 q (swapped p q (t.left p)) (swapped p q (t.right p)) wq.is_alive
              (crossed_second t.left p q ne wq.not_left wp.not_left)
              (crossed_second t.right p q ne wq.not_right wp.not_right)
              (alive-swapped (t.left p) wp.left_alive) (alive-swapped (t.right p) wp.right_alive),
          put_at-led wq.up s5 p (swapped p q (t.parent q)) wp.is_alive parents_first
              (parent-alive q wq.up),
          put_at-led wp.up s6 q (swapped p q (t.parent p)) wq.is_alive parents_second
              (parent-alive p wp.up),
        )
        refl
