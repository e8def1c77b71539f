-- ===== src/PtrSet/Holder.antt =====
-- A set, and a holder that is in no set.
use libbase.Base.{
  ℕ, ◌≤◌, Bool, true, false, ◌≡◌, refl, arith, ◌∙◌, ap, List, [], ◌∷◌, ◌==◌, ==_comm, eq_of_==,
  Bool-cases, inl, inr, leb,
}
use libbase.Base.Int.{pos}
use libbase.Memory.{Ptr, null, update, update_self, update_ne}
use libbase.Avltree.{Avltree, alive}
use libbase.Avltree.Shape.{
  Tree, top, inorder, hit, hit_self, ==_of_hit, count, Same, Shape-frame, Holds,
}
use libbase.Avltree.Balanced.{IsAvl}
use libbase.Avltree.Relink.{ne_null_of_alive}
use libbase.Avltree.Insert.Attach.{IsNew}
use libbase.Avltree.Delete.Wired.{locate, Located-Wired}
use libbase.Avltree.Delete.Without.{without, occurs, occurs-inorder}
use libbase.PtrSet.{PtrSet}
use libbase.PtrSet.Elements.{elems, IsDescending, AllNear, NoNull}

-- The tree of the set holds the elements `xs`, which are in descending order and all among the
-- 2 ^ 31 addresses from `lo` on.
pub record IsElements (s : PtrSet) (lo : ℕ) (xs : List ℕ) : Type 0 where
  pub nodes : Tree
  pub holds : Holds s.tree top nodes
  pub balanced : IsAvl nodes
  pub elements : elems s.elem (inorder nodes) ≡ xs
  pub descending : IsDescending xs
  pub near : AllNear lo xs

some_of : (n : ℕ) → leb 1 n ≡ true → 1 ≤ n
some_of n e = ground arith

none_of : (n : ℕ) → leb 1 n ≡ false → n ≡ 0
none_of n e = ground arith

not_both : (b : Bool) → b ≡ true → b ≡ false → ⊥
not_both true e f = ground arith
not_both false e f = ground arith

module _ (t : Avltree) (x : Tree) (h : Holds t top x) where
  pub in_tree-alive : (q : Ptr) → 1 ≤ count q x → alive t.live q ≡ true
  in_tree-alive q k = (Located-Wired t x q (locate t q x h k)).is_alive

  -- A dead address is not in the tree.
  pub count_dead : (p : Ptr) → alive t.live p ≡ false → count p x ≡ 0
  count_dead p d = elim (Bool-cases (leb 1 (count p x))) [
    | inl e ↦ elim (not_both (alive t.live p) (in_tree-alive p (some_of (count p x) e)) d) [ ]
    | inr e ↦ none_of (count p x) e
  ]

  -- What changes only at an address outside of the tree keeps it.
  pub Holds_outside :
      (u : Avltree) (p : Ptr)
      → count p x ≡ 0
      → u.root ≡ t.root
      → ((q : Ptr) → (q == p) ≡ false → Same t u q)
      → Holds u top x
  Holds_outside u p o e same = record {
    shape = Shape-frame t u null x (λ q k. same q (apart q k)) h.shape;
    around = e ∙ h.around;
    distinct = h.distinct;
  }
    where
      apart : (q : Ptr) → 1 ≤ count q x → (q == p) ≡ false
      apart q k = elim (Bool-cases (q == p)) [
        | inl g ↦ let z = ap (λ y. count y x) (eq_of_== q p g) in absurd (omega arith)
        | inr g ↦ g
      ]

  NoNull-list : (ns : List Ptr) → ((q : Ptr) → 1 ≤ occurs q ns → (q == null) ≡ false) → NoNull ns
  NoNull-list [] f = tt
  NoNull-list (n ∷ ns) f =
      (f n (omega (arith, hit_self n)), NoNull-list ns (λ q k. f q (omega arith)))

  pub inorder-NoNull : NoNull (inorder x)
  inorder-NoNull =
      NoNull-list (inorder x)
        (λ q k. ne_null_of_alive t.live q (in_tree-alive q (omega (arith, occurs-inorder q x))))

-- The zeroed node of a new holder.
abbrev pub made : Avltree → Ptr → Avltree
made t p = record t {
  parent = update t.parent p null;
  left = update t.left p null;
  right = update t.right p null;
  balance = update t.balance p (pos 0);
  live = update t.live p true;
}

alive_ne :
    (live : Ptr → Bool) (p q : Ptr) (b : Bool)
    → (q == p) ≡ false
    → alive (update live p b) q ≡ alive live q
unfolding alive
alive_ne live p q b e = rw (update_ne live p b q e) refl

pub made-IsNew : (t : Avltree) (p : Ptr) → (p == null) ≡ false → IsNew (made t p) p
unfolding alive
made-IsNew t p e = record {
  is_alive = rw (e, update_self t.live p true) refl;
  left = update_self t.left p null;
  right = update_self t.right p null;
  balance = update_self t.balance p (pos 0);
}

pub made-Same : (t : Avltree) (p q : Ptr) → (q == p) ≡ false → Same t (made t p) q
made-Same t p q e = record {
  is_alive = alive_ne t.live p q true e;
  parent = update_ne t.parent p null q e;
  left = update_ne t.left p null q e;
  right = update_ne t.right p null q e;
  balance = update_ne t.balance p (pos 0) q e;
}

pub freed-Same :
    (t : Avltree) (p q : Ptr)
    → (q == p) ≡ false
    → Same t (record t { live = update t.live p false }) q
freed-Same t p q e = record {
  is_alive = alive_ne t.live p q false e;
  parent = refl;
  left = refl;
  right = refl;
  balance = refl;
}

-- The element of a holder outside does not matter.
pub elems-update :
    (elem : Ptr → ℕ) (p : Ptr) (e : ℕ) (ns : List Ptr)
    → occurs p ns ≡ 0
    → elems (update elem p e) ns ≡ elems elem ns
elems-update elem p e [] o = refl
elems-update elem p e (n ∷ ns) o =
    rw
      (
        update_ne elem p e n (==_comm n p ∙ ==_of_hit p n (omega arith)),
        elems-update elem p e ns (omega arith),
      )
      refl

-- A node that is once in a list is not in the list without it.
pub occurs-without : (p : Ptr) (ns : List Ptr) → occurs p ns ≤ 1 → occurs p (without p ns) ≡ 0
occurs-without p [] le = refl
occurs-without p (n ∷ ns) le = elim (Bool-cases (n == p)) [
  | inl e ↦ let i = ap (hit p) (eq_of_== n p e) in rw e (omega (arith, hit_self p))
  | inr e ↦ rw e (omega (arith, occurs-without p ns (omega arith), hit_ne p n e))
]
  where
    hit_ne : (q m : Ptr) → (m == q) ≡ false → hit q m ≡ 0
    hit_ne q m e = rw (==_comm q m, e) refl
