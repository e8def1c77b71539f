-- ===== src/Avltree/Delete/Wired.antt =====
-- The links to and from one node of a tree, and where the node is in the tree.
use libbase.Base.{
  ◌≤◌, true, false, ◌≡◌, refl, arith, ◌==◌, Bool-cases, inl, inr, eq_of_==, ◌∙◌, sym, subst, leb,
  ==_comm,
}
use libbase.Base.Int.{ℤ}
use libbase.Memory.{Ptr, null}
use libbase.Avltree.{Avltree, alive}
use libbase.Avltree.Shape.{
  Tree, leaf, node, Ctx, top, in_left, in_right, plug, root_of, parent_of, count, count_ctx,
  hit_self, ==_of_hit, Holds, Shape, CtxShape,
}
use libbase.Avltree.Relink.{ne_null_of_alive, root_of-ne}
use libbase.Avltree.Insert.Seek.{Holds-left, Holds-right}

-- A node of the tree, with what is around its subtree.
pub record Located (t : Avltree) (x : Tree) (n : Ptr) : Type 0 where
  pub above : Ctx
  pub l : Tree
  pub b : ℤ
  pub r : Tree
  pub whole : plug above (node l n b r) ≡ x
  pub holds : Holds t above (node l n b r)

module _ (t : Avltree) (n : Ptr) where
  locate_in : (c : Ctx) (x : Tree) → Holds t c x → 1 ≤ count n x → Located t (plug c x) n
  locate_in c leaf h k = let no : ⊥ = omega arith in elim no [ ]
  locate_in c (node l p b r) h k = elim (Bool-cases (n == p)) [
    | inl e ↦
        let e' = eq_of_== n p e in
        subst (λ m. Located t (plug c (node l p b r)) m) (sym e')
          (record { above = c; l = l; b = b; r = r; whole = refl; holds = h })
    | inr e ↦ elim (Bool-cases (leb 1 (count n l))) [
      | inl g ↦ locate_in (in_left c p b r) l (Holds-left t c l r p b h) (ground arith)
      | inr g ↦ locate_in (in_right c l p b) r (Holds-right t c l r p b h) (ground arith)
    ]
  ]

  pub locate : (x : Tree) → Holds t top x → 1 ≤ count n x → Located t x n
  locate x h k = locate_in top x h k

-- The root points up to nothing, and a child to a node that points down to it.
pub data Up (t : Avltree) (n : Ptr) : Type 0 where
  at_root : t.parent n ≡ null → t.root ≡ n → Up t n
  on_left :
      alive t.live (t.parent n) ≡ true
      → t.left (t.parent n) ≡ n
      → (t.right (t.parent n) == n) ≡ false
      → Up t n
  on_right :
      alive t.live (t.parent n) ≡ true
      → (t.left (t.parent n) == n) ≡ false
      → t.right (t.parent n) ≡ n
      → Up t n

pub record Wired (t : Avltree) (n : Ptr) : Type 0 where
  pub is_alive : alive t.live n ≡ true
  pub left_alive : (t.left n == null) ≡ false → alive t.live (t.left n) ≡ true
  pub left_back : (t.left n == null) ≡ false → t.parent (t.left n) ≡ n
  pub right_alive : (t.right n == null) ≡ false → alive t.live (t.right n) ≡ true
  pub right_back : (t.right n == null) ≡ false → t.parent (t.right n) ≡ n
  pub not_up : (t.parent n == n) ≡ false
  pub not_left : (t.left n == n) ≡ false
  pub not_right : (t.right n == n) ≡ false
  pub up : Up t n
  pub not_root : (t.parent n == null) ≡ false → (t.root == n) ≡ false

module _ (t : Avltree) where
  root-alive :
      (p : Ptr) (x : Tree)
      → Shape t p x
      → (root_of x == null) ≡ false
      → alive t.live (root_of x) ≡ true
  root-alive p leaf s e = absurd (ground arith)
  root-alive p (node l q b r) s e = s.0.is_alive

  root-back :
      (p : Ptr) (x : Tree) → Shape t p x → (root_of x == null) ≡ false → t.parent (root_of x) ≡ p
  root-back p leaf s e = absurd (ground arith)
  root-back p (node l q b r) s e = s.0.parent

  parent_of-ne :
      (n : Ptr) (c : Ctx) → alive t.live n ≡ true → count_ctx n c ≡ 0 → (parent_of c == n) ≡ false
  parent_of-ne n top a e = ==_comm null n ∙ ne_null_of_alive t.live n a
  parent_of-ne n (in_left c p b r) a e = ==_comm p n ∙ ==_of_hit n p (omega arith)
  parent_of-ne n (in_right c l p b) a e = ==_comm p n ∙ ==_of_hit n p (omega arith)

  around-Up :
      (n : Ptr) (c : Ctx)
      → alive t.live n ≡ true
      → count_ctx n c ≡ 0
      → t.parent n ≡ parent_of c
      → CtxShape t n c
      → Up t n
  around-Up n top a o e s = at_root e s
  around-Up n (in_left c p b r) a o e s =
      on_left (rw e (s.0.is_alive)) (rw e (s.0.left))
        (rw (e, s.0.right) (root_of-ne t.live n r a (omega arith)))
  around-Up n (in_right c l p b) a o e s =
      on_right (rw e (s.0.is_alive)) (rw (e, s.0.left) (root_of-ne t.live n l a (omega arith)))
        (rw e (s.0.right))

  root-ne :
      (n q : Ptr) (c : Ctx)
      → alive t.live n ≡ true
      → (q == n) ≡ false
      → count_ctx n c ≡ 0
      → CtxShape t q c
      → (t.root == n) ≡ false
  root-ne n q top a e o s = rw s e
  root-ne n q (in_left c p b r) a e o s =
      root-ne n p c a (==_comm p n ∙ ==_of_hit n p (omega arith)) (omega arith) s.2
  root-ne n q (in_right c l p b) a e o s =
      root-ne n p c a (==_comm p n ∙ ==_of_hit n p (omega arith)) (omega arith) s.2

  around-not_root :
      (n : Ptr) (c : Ctx)
      → alive t.live n ≡ true
      → count_ctx n c ≡ 0
      → CtxShape t n c
      → (parent_of c == null) ≡ false
      → (t.root == n) ≡ false
  around-not_root n top a o s e = absurd (ground arith)
  around-not_root n (in_left c p b r) a o s e =
      root-ne n p c a (==_comm p n ∙ ==_of_hit n p (omega arith)) (omega arith) s.2
  around-not_root n (in_right c l p b) a o s e =
      root-ne n p c a (==_comm p n ∙ ==_of_hit n p (omega arith)) (omega arith) s.2

  Holds-Wired : (c : Ctx) (l r : Tree) (n : Ptr) (b : ℤ) → Holds t c (node l n b r) → Wired t n
  Holds-Wired c l r n b h =
      let s = h.shape.0 in
      let o : count_ctx n c ≡ 0 = omega (arith, h.distinct n, hit_self n) in
      let ol : count n l ≡ 0 = omega (arith, h.distinct n, hit_self n) in
      let or : count n r ≡ 0 = omega (arith, h.distinct n, hit_self n) in
      record {
        is_alive = s.is_alive;
        left_alive = rw (s.left) (root-alive n l h.shape.1);
        left_back = rw (s.left) (root-back n l h.shape.1);
        right_alive = rw (s.right) (root-alive n r h.shape.2);
        right_back = rw (s.right) (root-back n r h.shape.2);
        not_up = rw (s.parent) (parent_of-ne n c s.is_alive o);
        not_left = rw (s.left) (root_of-ne t.live n l s.is_alive ol);
        not_right = rw (s.right) (root_of-ne t.live n r s.is_alive or);
        up = around-Up n c s.is_alive o s.parent h.around;
        not_root = rw (s.parent) (around-not_root n c s.is_alive o h.around);
      }

  pub Located-Wired : (x : Tree) (n : Ptr) → Located t x n → Wired t n
  Located-Wired x n y = Holds-Wired y.above y.l y.r n y.b y.holds
