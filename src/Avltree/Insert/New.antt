-- ===== src/Avltree/Insert/New.antt =====
-- `bs_avltree_insert` of a key that is not in the tree.
use libbase.Base.{
  ℕ, ◌+◌, ◌%◌, ◌^◌, ◌≤◌, ◌<◌, Bool, true, false, not, ◌≡◌, refl, arith, ◌∙◌, ◌==◌, ==_refl, List,
  append-nil, ap, sym, subst, if◌then◌else◌,
}
use libbase.Base.Int.{ℤ, pos}
use libbase.Memory.{
  Ptr, null, pure, ◌>>=◌, ◌>>◌, when, Returns, Returns-and_then, Returns-weaken, update_self,
}
use libbase.Avltree.{Avltree, alive, get_parent, get_left}
use libbase.Avltree.Shape.{
  Tree, leaf, node, Ctx, top, in_left, in_right, plug, root_of, parent_of, inorder, height, count,
  count_ctx, count-plug, Holds, Keeps, Keeps-trans,
}
use libbase.Avltree.Balanced.{IsAvl, CtxAvl, plug-IsAvl}
use libbase.Avltree.Relink.{ne_null_of_alive, root_of-ne}
use libbase.Avltree.Search.Cut.{IsCut, at_key, insert_sorted}
use libbase.Avltree.Search.Next.{depth}
use libbase.Avltree.Insert.{descend, attach, regrow, grow_left, grow_right, insert_at, insert}
use libbase.Avltree.Insert.Seek.{unbalanced, Side, seek, place, descend-Sought}
use libbase.Avltree.Insert.Attach.{IsNew, attached, attach-attached, attached-Holds}
use libbase.Avltree.Insert.Raise.{climb, raise-Raised, count_root}
use libbase.Avltree.Insert.Settle.{IsGrown, settle}
use libbase.Avltree.Insert.Order.{is_leaf, root_of-seek, inorder-seek}
use libbase.Avltree.Insert.Grow.{Grew, climb-Grew, settle-IsAvl, inorder-settle, inorder-climb}
use libbase.Avltree.Insert.Rotations.{
  IsNode, Holds-up_left, Holds-up_right, grow_left-Holds, grow_right-Holds,
}

pub Holds-plug : (t : Avltree) (c : Ctx) (x : Tree) → Holds t c x → Holds t top (plug c x)
Holds-plug t top x h = h
Holds-plug t (in_left c p b r) x h = Holds-plug t c (node x p b r) (Holds-up_left t c x r p b h)
Holds-plug t (in_right c l p b) x h = Holds-plug t c (node l p b x) (Holds-up_right t c l x p b h)

IsGrown-IsNode : (x : Tree) → IsGrown x → IsNode x
IsGrown-IsNode leaf g = g
IsGrown-IsNode (node l p b r) g = tt

settle-Holds :
    (t : Avltree) (c : Ctx) (x : Tree)
    → alive t.live (root_of x) ≡ true
    → IsGrown x
    → IsAvl x
    → Holds t c x
    → Returns
        (λ _ u. Keeps t u × Holds u top (settle c x))
        ((if parent_of c == null then pure tt else do
          l ← get_left (parent_of c)
          if l == root_of x
              then grow_left (parent_of c) (root_of x)
              else grow_right (parent_of c) (root_of x))
          t)
settle-Holds t top x a g v h = (record { nodes = refl; live = refl; destroyed = refl }, h)
settle-Holds t (in_left c p b r) x a g v h =
    let s = h.around.0 in
    rw (ne_null_of_alive t.live p s.is_alive, s.is_alive, s.left, ==_refl (root_of x))
      (Returns-weaken _ (grow_left p (root_of x) t) (λ _ u k. (k.0, Holds-plug u c _ k.1))
        (grow_left-Holds t c x r p b (IsGrown-IsNode x g) v (Holds-up_left t c x r p b h)))
settle-Holds t (in_right c l p b) x a g v h =
    let s = h.around.0 in
    let o =
      root_of-ne t.live (root_of x) l a
        (omega (arith, count_root t.live x a, h.distinct (root_of x))) in
    rw (ne_null_of_alive t.live p s.is_alive, s.is_alive, s.left, o)
      (Returns-weaken _ (grow_right p (root_of x) t) (λ _ u k. (k.0, Holds-plug u c _ k.1))
        (grow_right-Holds t c l x p b (IsGrown-IsNode x g) v (Holds-up_right t c l x p b h)))

regrow-Holds :
    (t : Avltree) (c : Ctx) (x : Tree) (h : ℕ) (fuel : ℕ)
    → alive t.live (root_of x) ≡ true
    → Grew c x h
    → Holds t c x
    → depth c < fuel
    → Returns
        (λ _ u. Keeps t u × Holds u top (settle (climb c x).0 (climb c x).1))
        (regrow fuel (root_of x) (parent_of c) (unbalanced c) t)
unfolding regrow
regrow-Holds t c x h fuel a g k lt =
    let y = raise-Raised fuel t c x a k lt in
    let w = climb-Grew c x h g in
    let u0 : Avltree = record t { balance = y.after } in
    let k0 : Keeps t u0 = record { nodes = refl; live = refl; destroyed = refl } in
    let s = settle-Holds u0 (climb c x).0 (climb c x).1 y.is_alive w.2.grown w.2.balanced y.holds in
    rw (y.ends, sym y.at_unbalanced)
      (Returns-weaken {P = λ _ u. Keeps u0 u × Holds u top (settle (climb c x).0 (climb c x).1)}
        (λ _ u. Keeps t u × Holds u top (settle (climb c x).0 (climb c x).1)) _
        (λ _ u z. (Keeps-trans t u0 u k0 z.0, z.1)) s)

-- The new node is in the tree, which is balanced, and one node more is counted.
pub record Inserted (t u : Avltree) (xs : List Ptr) : Type 0 where
  pub tree : Tree
  pub holds : Holds u top tree
  pub balanced : IsAvl tree
  pub order : inorder tree ≡ xs
  pub nodes : u.nodes ≡ (t.nodes + 1) % 2 ^ 64
  pub live : u.live ≡ t.live
  pub destroyed : u.destroyed ≡ t.destroyed

module _ (t : Avltree) (n : Ptr) (new : IsNew t n) (fuel : ℕ) where
  abbrev grown : Ctx → Tree
  grown c = settle (climb c (node leaf n (pos 0) leaf)).0 (climb c (node leaf n (pos 0) leaf)).1

  new-Grew : (c : Ctx) → CtxAvl 0 c → Grew c (node leaf n (pos 0) leaf) 0
  new-Grew c g = record {
    around = g;
    balanced = (refl, tt, tt);
    grown = λ lt. ground arith;
    higher = refl;
  }

  grown-Inserted :
      (c : Ctx) (u : Avltree)
      → CtxAvl 0 c
      → Keeps (attached t c n) u × Holds u top (grown c)
      → Inserted t u (inorder (plug c (node leaf n (pos 0) leaf)))
  grown-Inserted c u g k =
      let x = node leaf n (pos 0) leaf in
      let w = climb-Grew c x 0 (new-Grew c g) in
      record {
        tree = grown c;
        holds = k.1;
        balanced = settle-IsAvl (climb c x).0 (climb c x).1 w.1 w.0 w.2;
        order = inorder-settle (climb c x).0 (climb c x).1 ∙ inorder-climb c x;
        nodes = k.0.nodes;
        live = k.0.live;
        destroyed = k.0.destroyed;
      }

  insert_below :
      (c : Ctx)
      → (parent_of c == null) ≡ false
      → count_ctx n c ≡ 0
      → CtxAvl 0 c
      → depth c < fuel
      → Holds t c leaf
      → Returns
          (λ s u. (s ≡ true) × Inserted t u (inorder (plug c (node leaf n (pos 0) leaf))))
          ((do
            pp ← get_parent n
            when (not (pp == null)) (regrow fuel n (parent_of c) (unbalanced c))
            pure true)
            (attached t c n))
  insert_below c e o g lt h =
      let u0 = attached t c n in
      rw (new.is_alive, update_self t.parent n (parent_of c), e)
        (Returns-and_then _ (regrow fuel n (parent_of c) (unbalanced c) u0) (λ _. pure true)
          (regrow-Holds u0 c (node leaf n (pos 0) leaf) 0 fuel new.is_alive (new-Grew c g)
            (attached-Holds t n new c o h) lt)
          (λ _ u k. (refl, grown-Inserted c u g k)))

  insert_hole :
      (c : Ctx) (v : ℤ)
      → Side c v
      → count_ctx n c ≡ 0
      → CtxAvl 0 c
      → depth c < fuel
      → Holds t c leaf
      → Returns
          (λ s u. (s ≡ true) × Inserted t u (inorder (plug c (node leaf n (pos 0) leaf))))
          ((do
            attach n (parent_of c) v
            pp ← get_parent n
            when (not (pp == null)) (regrow fuel n (parent_of c) (unbalanced c))
            pure true)
            t)
  insert_hole top v s o g lt h =
      rw (attach-attached t n new top v s h.around, new.is_alive, update_self t.parent n null)
        (
          refl,
          grown-Inserted top (attached t top n) g (
            record { nodes = refl; live = refl; destroyed = refl },
            attached-Holds t n new top o h,
          ),
        )
  insert_hole (in_left c p b r) v s o g lt h =
      rw (attach-attached t n new (in_left c p b r) v s h.around)
        (insert_below (in_left c p b r) (ne_null_of_alive t.live p h.around.0.is_alive) o g lt h)
  insert_hole (in_right c l p b) v s o g lt h =
      rw (attach-attached t n new (in_right c l p b) v s h.around)
        (insert_below (in_right c l p b) (ne_null_of_alive t.live p h.around.0.is_alive) o g lt h)

  insert_sought :
      {K : Type 0} (cmp : Ptr → K → ℤ) (k : K) (o : Bool) (x : Tree)
      → Holds t top x
      → IsAvl x
      → IsCut cmp k (inorder x)
      → at_key cmp k (inorder x) ≡ null
      → count n x ≡ 0
      → height x < fuel
      → (above : Ctx) (found : Tree) (v : ℤ) → seek cmp k x top ≡ (above, found)
      → Side above v
      → depth above ≤ height x
      → plug above found ≡ x
      → Holds t above found
      → Returns
          (λ s u. (s ≡ true) × Inserted t u (insert_sorted cmp k n (inorder x)))
          (insert_at fuel n o (place above found v) t)
  unfolding insert_at
  insert_sought cmp k o x h a i z d lt above leaf v e s le w g =
      let order = inorder-seek cmp k n (pos 0) x top (ap (λ y. is_leaf y.1) e) i in
      let order' =
        ap (λ y. inorder (plug y.0 (node leaf n (pos 0) leaf))) (sym e)
        ∙ order
        ∙ append-nil (insert_sorted cmp k n (inorder x)) in
      let outside : count_ctx n above ≡ 0 =
        omega (arith, count-plug n above leaf, ap (λ y. count n y) w, d) in
      rw (sym order') (
        insert_hole above v s outside (plug-IsAvl above leaf (subst IsAvl (sym w) a)).1
          (omega arith) g)
  insert_sought cmp k o x h a i z d lt above (node l p b r) v e s le w g =
      let z' = sym (ap (λ y. root_of y.1) e) ∙ root_of-seek cmp k x top i ∙ z in
      let q = ne_null_of_alive t.live p g.shape.0.is_alive in ground arith

  -- Let the memory hold an AVL tree that lacks the key and whose nodes in order are cut by it, and
  -- let `n` be a zeroed node outside of the tree. For more rounds than the tree is high,
  -- `bs_avltree_insert` returns true. The memory then holds an AVL tree; its nodes in order are those
  -- of before with `n` put in front of the first one that is not before the key; the count of nodes
  -- is one more, as a `size_t`, and no node was freed or handed to the destructor.
  pub insert-Inserted :
      {K : Type 0} (cmp : Ptr → K → ℤ) (k : K) (o : Bool) (x : Tree)
      → Holds t top x
      → IsAvl x
      → IsCut cmp k (inorder x)
      → at_key cmp k (inorder x) ≡ null
      → count n x ≡ 0
      → height x < fuel
      → Returns
          (λ s u. (s ≡ true) × Inserted t u (insert_sorted cmp k n (inorder x)))
          (insert cmp fuel k n o t)
  unfolding insert
  insert-Inserted cmp k o x h a i z d lt =
      let y = descend-Sought cmp k t fuel x top (pos 0) h tt lt in
      let run =
        insert_sought cmp k o x h a i z d lt y.above y.found y.last y.found_at y.side
          (omega (arith, y.not_deeper)) y.whole y.holds in
      subst
        (λ p.
          Returns (λ s u. (s ≡ true) × Inserted t u (insert_sorted cmp k n (inorder x)))
            ((do d' ← descend cmp fuel k p null null (pos 0); insert_at fuel n o d') t))
        (sym h.around) (rw y.ends run)
