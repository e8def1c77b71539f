-- ===== src/Avltree/Insert/Seek.antt =====
-- The first loop of `bs_avltree_insert` goes down to the node with the key or to the hole for it.
use libbase.Base.{
  ℕ, zero, suc, ◌+◌, ◌≤◌, ◌<◌, true, false, ◌≡◌, refl, arith, if◌then◌else◌, Bool-cases, inl, inr,
  ≤-larger,
}
use libbase.Base.Int.{ℤ, pos, ltb_ℤ, is_zero}
use libbase.Memory.{Ptr, null, ok}
use libbase.Avltree.{Avltree}
use libbase.Avltree.Shape.{
  Tree, leaf, node, Ctx, top, in_left, in_right, plug, root_of, parent_of, height, Holds,
}
use libbase.Avltree.Relink.{ne_null_of_alive}
use libbase.Avltree.Search.Next.{depth}
use libbase.Avltree.Insert.{Descent, matches, bottom, descend}

-- The last node on the way to a hole whose balance is not zero.
abbrev pub unbalanced : Ctx → Ptr
unbalanced top = null
unbalanced (in_left c p b r) = if is_zero b then unbalanced c else p
unbalanced (in_right c l p b) = if is_zero b then unbalanced c else p

-- The sign of what the callback returned for the node above a hole.
abbrev pub Side : Ctx → ℤ → Type 0
Side top v = Unit
Side (in_left c p b r) v = ltb_ℤ (pos 0) v ≡ true
Side (in_right c l p b) v = ltb_ℤ (pos 0) v ≡ false

-- What the loop returns at a subtree where it ends.
abbrev pub place : Ctx → Tree → ℤ → Descent
place c leaf v = bottom (parent_of c) (unbalanced c) v
place c (node l p b r) v = matches p

-- What holds of a node holds seen from one of its subtrees.
pub Holds-left :
    (t : Avltree) (c : Ctx) (l r : Tree) (p : Ptr) (b : ℤ)
    → Holds t c (node l p b r)
    → Holds t (in_left c p b r) l
Holds-left t c l r p b h = record {
  shape = h.shape.1;
  around = (h.shape.0, h.shape.2, h.around);
  distinct = λ q. omega (arith, h.distinct q);
}

pub Holds-right :
    (t : Avltree) (c : Ctx) (l r : Tree) (p : Ptr) (b : ℤ)
    → Holds t c (node l p b r)
    → Holds t (in_right c l p b) r
Holds-right t c l r p b h = record {
  shape = h.shape.2;
  around = (h.shape.0, h.shape.1, h.around);
  distinct = λ q. omega (arith, h.distinct q);
}

module _ {K : Type 0} (cmp : Ptr → K → ℤ) (k : K) where
  -- The hole or the node where the search for the key in `x` ends, and what is around it.
  abbrev pub seek : Tree → Ctx → Ctx × Tree
  seek leaf c = (c, leaf)
  seek (node l p b r) c =
      if is_zero (cmp p k)
      then (c, node l p b r)
      else if ltb_ℤ (pos 0) (cmp p k)
      then seek l (in_left c p b r)
      else seek r (in_right c l p b)

  -- The run of the loop, and what it reaches.
  pub record Sought (t : Avltree) (fuel : ℕ) (x : Tree) (c : Ctx) (v : ℤ) : Type 0 where
    pub above : Ctx
    pub found : Tree
    pub found_at : seek x c ≡ (above, found)
    pub last : ℤ
    pub ends :
        descend cmp fuel k (root_of x) (parent_of c) (unbalanced c) v t
        ≡ ok (place above found last) t
    pub side : Side above last
    pub not_deeper : depth above ≤ depth c + height x
    pub whole : plug above found ≡ plug c x
    pub holds : Holds t above found

  pub descend-Sought :
      (t : Avltree) (fuel : ℕ) (x : Tree) (c : Ctx) (v : ℤ)
      → Holds t c x
      → Side c v
      → height x < fuel
      → Sought t fuel x c v
  unfolding descend
  descend-Sought t zero x c v h s lt = elim lt [ ]
  descend-Sought t (suc fuel) leaf c v h s lt = record {
    above = c;
    found = leaf;
    found_at = refl;
    last = v;
    ends = refl;
    side = s;
    not_deeper = omega arith;
    whole = refl;
    holds = h;
  }
  descend-Sought t (suc fuel) (node l p b r) c v h s lt =
      let a = h.shape.0.is_alive in
      let n = ne_null_of_alive t.live p a in
      let le = ≤-larger (height l) (height r) in
      elim (Bool-cases (is_zero (cmp p k))) [
        | inl e ↦ record {
          above = c;
          found = node l p b r;
          found_at = rw e;
          last = v;
          ends = rw (n, a, h.shape.0.balance, a, e);
          side = s;
          not_deeper = omega arith;
          whole = refl;
          holds = h;
        }
        | inr e ↦ elim (Bool-cases (ltb_ℤ (pos 0) (cmp p k))) [
          | inl f ↦
              let y =
                descend-Sought t fuel l (in_left c p b r) (cmp p k) (Holds-left t c l r p b h) f
                  (omega arith) in
              record {
                above = y.above;
                found = y.found;
                found_at = rw (e, f) y.found_at;
                last = y.last;
                ends = rw (n, a, h.shape.0.balance, a, e, f, a, h.shape.0.left) y.ends;
                side = y.side;
                not_deeper = omega (arith, y.not_deeper);
                whole = y.whole;
                holds = y.holds;
              }
          | inr f ↦
              let y =
                descend-Sought t fuel r (in_right c l p b) (cmp p k) (Holds-right t c l r p b h) f
                  (omega arith) in
              record {
                above = y.above;
                found = y.found;
                found_at = rw (e, f) y.found_at;
                last = y.last;
                ends = rw (n, a, h.shape.0.balance, a, e, f, a, h.shape.0.right) y.ends;
                side = y.side;
                not_deeper = omega (arith, y.not_deeper);
                whole = y.whole;
                holds = y.holds;
              }
        ]
      ]
