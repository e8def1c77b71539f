-- ===== src/Avltree/Verify/Sorted.antt =====
-- `bs_avltree_verify_node` accepts every AVL tree whose nodes are in the order of their keys.
use libbase.Base.{
  ℕ, zero, suc, ◌^◌, ◌<◌, Bool, true, false, ◌&&◌, ◌||◌, ◌≡◌, refl, arith, ◌==◌, ==_refl, ≤-larger,
  ap, List, [], ◌∷◌, ◌++◌, Option, none, some,
}
use libbase.Base.Int.{ℤ, pos, negsuc, ◌-ℤ◌, ltb_ℤ, is_zero, int32}
use libbase.Memory.{Ptr, ok, Cmd}
use libbase.Avltree.{Avltree, alive}
use libbase.Avltree.Shape.{
  Tree, leaf, node, Ctx, top, in_left, in_right, root_of, parent_of, inorder, height, Shape,
  CtxShape, Holds,
}
use libbase.Avltree.Balanced.{Skew, IsAvl}
use libbase.Avltree.Relink.{ne_null_of_alive}
use libbase.Avltree.Insert.Seek.{Holds-left, Holds-right}
use libbase.Avltree.Insert.Rotations.{IsNode}
use libbase.Avltree.Verify.{
  node_height, verify_parent, verify_min, verify_max, verify_child, verify_node,
}
use libbase.Avltree.Verify.Height.{node_height-height}

-- The test holds of every node of the list.
abbrev pub Every : (Ptr → Bool) → List Ptr → Type 0
Every f [] = Unit
Every f (x ∷ xs) = (f x ≡ true) × Every f xs

Every-left : (f : Ptr → Bool) (xs ys : List Ptr) → Every f (xs ++ ys) → Every f xs
Every-left f [] ys e = tt
Every-left f (x ∷ xs) ys e = (e.0, Every-left f xs ys e.1)

Every-right : (f : Ptr → Bool) (xs ys : List Ptr) → Every f (xs ++ ys) → Every f ys
Every-right f [] ys e = e
Every-right f (x ∷ xs) ys e = Every-right f xs ys e.1

small : (h : ℕ) → h < 2 ^ 31 → int32 (pos h) ≡ pos h
unfolding int32
small h lt = ground arith

difference_fits : (b : ℤ) (hl hr : ℕ) → Skew b hl hr → pos hr -ℤ pos hl ≡ b
unfolding ◌-ℤ◌
difference_fits (pos zero) hl hr s = ground arith
difference_fits (pos (suc zero)) hl hr s = ground arith
difference_fits (pos (suc (suc n))) hl hr s = elim s [ ]
difference_fits (negsuc zero) hl hr s = ground arith
difference_fits (negsuc (suc n)) hl hr s = elim s [ ]

no_difference : (b : ℤ) → is_zero (b -ℤ b) ≡ true
unfolding is_zero ◌-ℤ◌
no_difference (pos n) = ground arith
no_difference (negsuc n) = ground arith

balance_fits : (b : ℤ) (hl hr : ℕ) → Skew b hl hr → is_zero (b -ℤ (pos hr -ℤ pos hl)) ≡ true
balance_fits b hl hr s = rw (difference_fits b hl hr s) (no_difference b)

or_true : (b : Bool) → (b || true) ≡ true
or_true true = refl
or_true false = refl

module _ {K : Type 0} (cmp : Ptr → K → ℤ) (key_from : Ptr → Option K) where
  -- The callback says that the node is after, or before, the key, if there is one.
  abbrev pub is_after : Option K → Ptr → Bool
  is_after none p = true
  is_after (some k) p = ltb_ℤ (pos 0) (cmp p k)

  abbrev pub is_before : Option K → Ptr → Bool
  is_before none p = true
  is_before (some k) p = ltb_ℤ (cmp p k) (pos 0)

  -- Each node is before the keys of those that follow, and these are after its key.
  abbrev pub IsSorted : List Ptr → Type 0
  IsSorted [] = Unit
  IsSorted (x ∷ xs) =
      Every (λ q. is_after (key_from x) q && is_before (key_from q) x) xs × IsSorted xs

  IsSorted-left : (xs ys : List Ptr) → IsSorted (xs ++ ys) → IsSorted xs
  IsSorted-left [] ys s = tt
  IsSorted-left (x ∷ xs) ys s = (
    Every-left (λ q. is_after (key_from x) q && is_before (key_from q) x) xs ys s.0,
    IsSorted-left xs ys s.1,
  )

  IsSorted-right : (xs ys : List Ptr) → IsSorted (xs ++ ys) → IsSorted ys
  IsSorted-right [] ys s = s
  IsSorted-right (x ∷ xs) ys s = IsSorted-right xs ys s.1

  Every-after :
      (p : Ptr) (xs : List Ptr)
      → Every (λ q. is_after (key_from p) q && is_before (key_from q) p) xs
      → Every (is_after (key_from p)) xs
  Every-after p [] e = tt
  Every-after p (x ∷ xs) e = (ground (arith, e.0), Every-after p xs e.1)

  -- The nodes in front of `p` are before its key.
  sorted_before :
      (p : Ptr) (xs ys : List Ptr) → IsSorted (xs ++ p ∷ ys) → Every (is_before (key_from p)) xs
  sorted_before p [] ys s = tt
  sorted_before p (x ∷ xs) ys s =
      let e =
        Every-right (λ q. is_after (key_from x) q && is_before (key_from q) x) xs (p ∷ ys) s.0 in
      (ground (arith, e.0), sorted_before p xs ys s.1)

  module _ (t : Avltree) where
    verify_min-ok :
        (p : Ptr) (m : Option K)
        → alive t.live p ≡ true
        → is_after m p ≡ true
        → verify_min cmp p m t ≡ ok tt t
    unfolding verify_min
    verify_min-ok p none a e = refl
    verify_min-ok p (some k) a e = rw (a, e) refl

    verify_max-ok :
        (p : Ptr) (m : Option K)
        → alive t.live p ≡ true
        → is_before m p ≡ true
        → verify_max cmp p m t ≡ ok tt t
    unfolding verify_max
    verify_max-ok p none a e = refl
    verify_max-ok p (some k) a e = rw (a, e) refl

    verify_parent-ok :
        (p : Ptr) (c : Ctx)
        → alive t.live p ≡ true
        → t.parent p ≡ parent_of c
        → CtxShape t p c
        → verify_parent p t ≡ ok tt t
    unfolding verify_parent
    verify_parent-ok p top a e s = rw (a, e, s, ==_refl p) refl
    verify_parent-ok p (in_left c q b r) a e s =
        let i = s.0.is_alive in
        rw (a, e, ne_null_of_alive t.live q i, i, s.0.left, i, ==_refl p) refl
    verify_parent-ok p (in_right c l q b) a e s =
        let i = s.0.is_alive in
        rw
          (
            a,
            e,
            ne_null_of_alive t.live q i,
            i,
            s.0.left,
            i,
            s.0.right,
            ==_refl p,
            or_true (p == root_of l),
          )
          refl

    verify_child-ok :
        (verify : Ptr → Cmd Avltree (Unit {0})) (h : Ptr → Cmd Avltree ℕ) (p : Ptr) (x : Tree)
        → Shape t p x
        → (IsNode x → verify (root_of x) t ≡ ok tt t)
        → (IsNode x → h (root_of x) t ≡ ok (height x) t)
        → height x < 2 ^ 31
        → verify_child verify h p (root_of x) t ≡ ok (pos (height x)) t
    verify_child-ok verify h p leaf s v g lt = refl
    verify_child-ok verify h p (node l q b r) s v g lt =
        rw (ne_null_of_alive t.live q s.0.is_alive, s.0.is_alive, s.0.parent, ==_refl p, v tt, g tt)
          (ap (λ n. ok n t) (small (height (node l q b r)) lt))

    verify_node_in :
        (fuel : ℕ) (c : Ctx) (x : Tree) (min max : Option K)
        → Holds t c x
        → IsAvl x
        → IsSorted (inorder x)
        → Every (is_after min) (inorder x)
        → Every (is_before max) (inorder x)
        → height x < fuel
        → height x < 2 ^ 31
        → verify_node cmp key_from fuel (root_of x) min max t ≡ ok tt t
    unfolding verify_node
    verify_node_in zero c x min max h a s e e' lt k = absurd (omega arith)
    verify_node_in (suc fuel) c leaf min max h a s e e' lt k = refl
    verify_node_in (suc fuel) c (node l p b r) min max h a s e e' lt k =
        let i = h.shape.0 in
        let le = ≤-larger (height l) (height r) in
        let rest = p ∷ inorder r in
        let at = Every-right (is_after min) (inorder l) rest e in
        let at' = Every-right (is_before max) (inorder l) rest e' in
        let sr = IsSorted-right (inorder l) rest s in
        rw
          (
            ne_null_of_alive t.live p i.is_alive,
            verify_parent-ok p c i.is_alive i.parent h.around,
            verify_min-ok p min i.is_alive at.0,
            verify_max-ok p max i.is_alive at'.0,
            i.is_alive,
            i.left,
            verify_child-ok (λ q. verify_node cmp key_from fuel q min (key_from p))
                (λ q. node_height fuel q) p l h.shape.1
                (λ _.
                  verify_node_in fuel (in_left c p b r) l min (key_from p)
                    (Holds-left t c l r p b h) a.1 (IsSorted-left (inorder l) rest s)
                    (Every-left (is_after min) (inorder l) rest e)
                    (sorted_before p (inorder l) (inorder r) s) (omega arith) (omega arith))
                (node_height-height t fuel p l h.shape.1 (omega arith) (omega arith)) (omega arith),
            i.is_alive,
            i.right,
            verify_child-ok (λ q. verify_node cmp key_from fuel q (key_from p) max)
                (λ q. node_height fuel q) p r h.shape.2
                (λ _.
                  verify_node_in fuel (in_right c l p b) r (key_from p) max
                    (Holds-right t c l r p b h) a.2 sr.1 (Every-after p (inorder r) sr.0) at'.1
                    (omega arith) (omega arith))
                (node_height-height t fuel p r h.shape.2 (omega arith) (omega arith)) (omega arith),
            i.is_alive,
            i.balance,
            balance_fits b (height l) (height r) a.0,
          )
          refl

    unbounded : (xs : List Ptr) → Every (is_after none) xs × Every (is_before none) xs
    unbounded [] = (tt, tt)
    unbounded (x ∷ xs) = let e = unbounded xs in ((refl, e.0), (refl, e.1))

    -- Let the memory hold an AVL tree less than 2 ^ 31 high, each node of which is, as the callback
    -- says, before the key of every node that follows it in order, and that one after its key. For
    -- more rounds than the tree is high, `bs_avltree_verify_node` from the root returns: none of its
    -- assertions fails, and nothing changes.
    pub verify_node-IsSorted :
        (fuel : ℕ) (x : Tree)
        → Holds t top x
        → IsAvl x
        → IsSorted (inorder x)
        → height x < fuel
        → height x < 2 ^ 31
        → verify_node cmp key_from fuel (root_of x) none none t ≡ ok tt t
    verify_node-IsSorted fuel x h a s lt k =
        let e = unbounded (inorder x) in verify_node_in fuel top x none none h a s e.0 e.1 lt k
