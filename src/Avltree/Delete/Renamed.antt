-- ===== src/Avltree/Delete/Renamed.antt =====
-- `bs_avltree_node_exchange` makes the memory hold the tree in which the two nodes traded places.
use libbase.Base.{
  ◌≤◌, true, false, ◌≡◌, refl, arith, ◌==◌, if◌then◌else◌, Bool-cases, inl, inr, ◌∙◌, sym, ap,
  subst, ==_comm,
}
use libbase.Base.Int.{ℤ, int8}
use libbase.Memory.{Ptr, null, Returns, update}
use libbase.Avltree.{Avltree, alive}
use libbase.Avltree.Shape.{
  Tree, leaf, node, Ctx, top, in_left, in_right, root_of, hit, count, hit_self, Shape, Holds, Keeps,
}
use libbase.Avltree.Relink.{ne_null_of_alive}
use libbase.Avltree.Delete.{node_exchange}
use libbase.Avltree.Delete.Trade.{
  swapped, swapped-swapped, swapped_first, swapped_second, swapped_other, traded, crossed,
  crossed_first, crossed_second, crossed_other,
}
use libbase.Avltree.Delete.Wired.{Up, at_root, on_left, on_right, Wired, locate, Located-Wired}
use libbase.Avltree.Delete.Exchange.{
  up_root, up_left, up_right, up_left-leads, up_right-leads, left-up_left, right-up_right,
  led-swapped,
}
use libbase.Avltree.Delete.Exchange.Run.{exchanged, node_exchange-exchanged}
use libbase.Avltree.Delete.Parents.{put-swapped}

-- The members of every node after the exchange, in terms of those before it.
pub record Exchanged (t u : Avltree) (p q : Ptr) : Type 0 where
  pub root : u.root ≡ swapped p q t.root
  pub parent : (n : Ptr) → Wired t n → u.parent n ≡ swapped p q (t.parent (swapped p q n))
  pub left : (n : Ptr) → Wired t n → u.left n ≡ swapped p q (t.left (swapped p q n))
  pub right : (n : Ptr) → Wired t n → u.right n ≡ swapped p q (t.right (swapped p q n))
  pub balance : (n : Ptr) → u.balance n ≡ t.balance (swapped p q n)
  pub keeps : Keeps t u

traded-swapped : (f : Ptr → ℤ) (p q n : Ptr) → traded f p q n ≡ f (swapped p q n)
unfolding update swapped
traded-swapped f p q n = ground arith

-- What holds of both nodes and of a third holds of its name after the trade.
swapped-ind : (p q : Ptr) (P : Ptr → Type 0) (n : Ptr) → P p → P q → P n → P (swapped p q n)
unfolding swapped
swapped-ind p q P n a b c = elim (Bool-cases (n == p)) [
  | inl e ↦ rw e b
  | inr e ↦ elim (Bool-cases (n == q)) [ inl f ↦ rw (e, f) a | inr f ↦ rw (e, f) c ]
]

-- The parent of a child, and the side it is on.
left_child-parent :
    (t : Avltree) (n m : Ptr)
    → Wired t n
    → (w : Wired t m) → t.left n ≡ m
    → (t.parent m ≡ n) × (up_left w.up ≡ true)
left_child-parent t n m v w e =
    let g : t.parent m ≡ n =
      ap t.parent (sym e) ∙ v.left_back (rw e (ne_null_of_alive t.live m w.is_alive)) in
    (g, left-up_left t m n w.up (ne_null_of_alive t.live n v.is_alive) g e)

right_child-parent :
    (t : Avltree) (n m : Ptr)
    → Wired t n
    → (w : Wired t m) → t.right n ≡ m
    → (t.parent m ≡ n) × (up_right w.up ≡ true)
right_child-parent t n m v w e =
    let g : t.parent m ≡ n =
      ap t.parent (sym e) ∙ v.right_back (rw e (ne_null_of_alive t.live m w.is_alive)) in
    (g, right-up_right t m n w.up (ne_null_of_alive t.live n v.is_alive) g e)

module _ (t : Avltree) (p q : Ptr) (ne : (p == q) ≡ false) (wp : Wired t p) (wq : Wired t q) where
  none_at_root :
      alive t.live (t.parent p) ≡ true
      → alive t.live (t.parent q) ≡ true
      → ((t.parent p == null) ≡ false → (t.root == p) ≡ false)
      → ((t.parent q == null) ≡ false → (t.root == q) ≡ false)
      → t.root ≡ swapped p q t.root
  none_at_root a a' hp hq = sym (
      swapped_other p q t.root (hp (ne_null_of_alive t.live (t.parent p) a))
        (hq (ne_null_of_alive t.live (t.parent q) a')))

  root-swapped :
      (yp : Up t p) (yq : Up t q)
      → ((t.parent p == null) ≡ false → (t.root == p) ≡ false)
      → ((t.parent q == null) ≡ false → (t.root == q) ≡ false)
      → (if up_root yp then q else if up_root yq then p else t.root) ≡ swapped p q t.root
  root-swapped (at_root e f) yq hp hq = rw f (sym (swapped_first p q))
  root-swapped (on_left a e f) (at_root e' f') hp hq = rw f' (sym (swapped_second p q))
  root-swapped (on_right a e f) (at_root e' f') hp hq = rw f' (sym (swapped_second p q))
  root-swapped (on_left a e f) (on_left a' e' f') hp hq = none_at_root a a' hp hq
  root-swapped (on_left a e f) (on_right a' e' f') hp hq = none_at_root a a' hp hq
  root-swapped (on_right a e f) (on_left a' e' f') hp hq = none_at_root a a' hp hq
  root-swapped (on_right a e f) (on_right a' e' f') hp hq = none_at_root a a' hp hq

  exchanged-Exchanged : Exchanged t (exchanged t p q wp.up wq.up) p q
  unfolding exchanged
  exchanged-Exchanged = record {
    root = root-swapped wp.up wq.up wp.not_root wq.not_root;
    parent = λ n w. put-swapped t p q ne wp wq n w;
    left = λ n w.
        led-swapped t.left t.parent (crossed t.left p q) p q (up_left wp.up) (up_left wq.up) n
          (up_left-leads t p wp.up) (up_left-leads t q wq.up) (left_child-parent t n p w wp)
          (left_child-parent t n q w wq) (crossed_first t.left p q ne wq.not_left wp.not_left)
          (crossed_second t.left p q ne wq.not_left wp.not_left) (crossed_other t.left p q ne n);
    right = λ n w.
        led-swapped t.right t.parent (crossed t.right p q) p q (up_right wp.up) (up_right wq.up) n
          (up_right-leads t p wp.up) (up_right-leads t q wq.up) (right_child-parent t n p w wp)
          (right_child-parent t n q w wq) (crossed_first t.right p q ne wq.not_right wp.not_right)
          (crossed_second t.right p q ne wq.not_right wp.not_right)
          (crossed_other t.right p q ne n);
    balance = traded-swapped t.balance p q;
    keeps = record { nodes = refl; live = refl; destroyed = refl };
  }

-- A tree in which two nodes traded places.
module _ (p q : Ptr) where
  abbrev pub renamed : Tree → Tree
  renamed leaf = leaf
  renamed (node l n b r) = node (renamed l) (swapped p q n) b (renamed r)

  abbrev pub renamed_ctx : Ctx → Ctx
  renamed_ctx top = top
  renamed_ctx (in_left c n b r) = in_left (renamed_ctx c) (swapped p q n) b (renamed r)
  renamed_ctx (in_right c l n b) = in_right (renamed_ctx c) (renamed l) (swapped p q n) b

  hit-swapped : (m n : Ptr) → hit m (swapped p q n) ≡ hit (swapped p q m) n
  unfolding swapped
  hit-swapped m n = ground arith

  count-renamed : (m : Ptr) (x : Tree) → count m (renamed x) ≡ count (swapped p q m) x
  count-renamed m leaf = refl
  count-renamed m (node l n b r) =
      omega (arith, hit-swapped m n, count-renamed m l, count-renamed m r)

  root_of-renamed :
      (x : Tree) → swapped p q null ≡ null → root_of (renamed x) ≡ swapped p q (root_of x)
  root_of-renamed leaf e = sym e
  root_of-renamed (node l n b r) e = refl

  Shape-renamed :
      (t u : Avltree) (pp : Ptr) (x : Tree)
      → swapped p q null ≡ null
      → Exchanged t u p q
      → ((n : Ptr) → 1 ≤ count n x → Wired t (swapped p q n))
      → Shape t pp x
      → Shape u (swapped p q pp) (renamed x)
  Shape-renamed t u pp leaf e y w s = tt
  Shape-renamed t u pp (node l n b r) e y w s =
      let v = w n (omega (arith, hit_self n)) in
      let i = swapped-swapped p q n in
      (
        record {
          is_alive = ap (λ m. alive m (swapped p q n)) y.keeps.live ∙ v.is_alive;
          parent =
              y.parent (swapped p q n) v
              ∙ ap (λ m. swapped p q (t.parent m)) i
              ∙ ap (swapped p q) s.0.parent;
          left =
              y.left (swapped p q n) v
              ∙ ap (λ m. swapped p q (t.left m)) i
              ∙ ap (swapped p q) s.0.left
              ∙ sym (root_of-renamed l e);
          right =
              y.right (swapped p q n) v
              ∙ ap (λ m. swapped p q (t.right m)) i
              ∙ ap (swapped p q) s.0.right
              ∙ sym (root_of-renamed r e);
          balance = y.balance (swapped p q n) ∙ ap t.balance i ∙ s.0.balance;
        },
        Shape-renamed t u n l e y (λ m h. w m (omega arith)) s.1,
        Shape-renamed t u n r e y (λ m h. w m (omega arith)) s.2,
      )

-- Let the memory hold a tree with the two different nodes `p` and `q`, whose balances fit an
-- `int8_t`. `bs_avltree_node_exchange` returns, and the memory holds the tree in which the two nodes
-- traded places, with the balances where they were. No node is freed or counted.
pub node_exchange-renamed :
    (t : Avltree) (x : Tree) (p q : Ptr)
    → Holds t top x
    → 1 ≤ count p x
    → 1 ≤ count q x
    → (p == q) ≡ false
    → int8 (t.balance p) ≡ t.balance p
    → int8 (t.balance q) ≡ t.balance q
    → Returns (λ _ u. Keeps t u × Holds u top (renamed p q x)) (node_exchange p q t)
node_exchange-renamed t x p q h kp kq ne bp bq =
    let wired : (n : Ptr) → 1 ≤ count n x → Wired t n =
      λ n k. Located-Wired t x n (locate t n x h k) in
    let wp = wired p kp in
    let wq = wired q kq in
    let u = exchanged t p q wp.up wq.up in
    let y = exchanged-Exchanged t p q ne wp wq in
    let e =
      swapped_other p q null (==_comm null p ∙ ne_null_of_alive t.live p wp.is_alive)
        (==_comm null q ∙ ne_null_of_alive t.live q wq.is_alive) in
    let inside : (n : Ptr) → 1 ≤ count n x → 1 ≤ count (swapped p q n) x =
      λ n k. swapped-ind p q (λ m. 1 ≤ count m x) n kp kq k in
    rw (node_exchange-exchanged t p q ne wp wq bp bq) (
      y.keeps,
      record {
        shape =
            subst (λ m. Shape u m (renamed p q x)) e
              (Shape-renamed p q t u null x e y (λ n k. wired (swapped p q n) (inside n k))
                h.shape);
        around = y.root ∙ ap (swapped p q) h.around ∙ sym (root_of-renamed p q x e);
        distinct = λ m. omega (arith, count-renamed p q m x, h.distinct (swapped p q m));
      },
    )
