-- ===== src/Avltree/Insert/Raise.antt =====
-- The second loop of `bs_avltree_insert` goes up to the first node that was not balanced, and gives
-- the balanced ones on the way the balance of the side that grew.
use libbase.Base.{
  ℕ, zero, suc, ◌<◌, ◌≤◌, Bool, true, false, ◌≡◌, refl, arith, ◌==◌, ==_refl, if◌then◌else◌,
  Bool-cases, inl, inr,
}
use libbase.Base.Int.{ℤ, pos, ◌+ℤ◌, ◌-ℤ◌, is_zero, int8}
use libbase.Memory.{Ptr, ok, update, update_self, update_ne}
use libbase.Avltree.{Avltree, alive}
use libbase.Avltree.Shape.{
  Tree, leaf, node, Ctx, top, in_left, in_right, root_of, parent_of, count, count_ctx, hit,
  hit_self, ==_of_hit, Same, Shape-frame, CtxShape-frame, Holds,
}
use libbase.Avltree.Relink.{ne_null_of_alive, root_of-ne}
use libbase.Avltree.Search.Next.{depth}
use libbase.Avltree.Insert.{raise}
use libbase.Avltree.Insert.Seek.{unbalanced}

-- The memory with another balance at one node.
abbrev pub weighed : Avltree → Ptr → ℤ → Avltree
weighed t p b = record t { balance = update t.balance p b }

pub weighed-Holds :
    (t : Avltree) (c : Ctx) (l r : Tree) (p : Ptr) (b b' : ℤ)
    → Holds t c (node l p b r)
    → Holds (weighed t p b') c (node l p b' r)
weighed-Holds t c l r p b b' h =
    let u = weighed t p b' in
    let same : (q : Ptr) → hit q p ≡ 0 → Same t u q = λ q e. record {
      is_alive = refl;
      parent = refl;
      left = refl;
      right = refl;
      balance = update_ne t.balance p b' q (==_of_hit q p e);
    } in
    record {
      shape = (
        record {
          is_alive = h.shape.0.is_alive;
          parent = h.shape.0.parent;
          left = h.shape.0.left;
          right = h.shape.0.right;
          balance = update_self t.balance p b';
        },
        Shape-frame t u p l (λ q i. same q (omega (arith, h.distinct q))) h.shape.1,
        Shape-frame t u p r (λ q i. same q (omega (arith, h.distinct q))) h.shape.2,
      );
      around = CtxShape-frame t u p c refl (λ q i. same q (omega (arith, h.distinct q))) h.around;
      distinct = h.distinct;
    }

-- The first node above the hole that was not balanced is above the new hole, which the tree that
-- grew fills.
abbrev pub climb : Ctx → Tree → Ctx × Tree
climb top x = (top, x)
climb (in_left c p b r) x =
    if is_zero b then climb c (node x p (int8 (b -ℤ pos 1)) r) else (in_left c p b r, x)
climb (in_right c l p b) x =
    if is_zero b then climb c (node l p (int8 (b +ℤ pos 1)) x) else (in_right c l p b, x)

pub count_root :
    (live : Ptr → Bool) (x : Tree) → alive live (root_of x) ≡ true → 1 ≤ count (root_of x) x
unfolding alive
count_root live leaf a = ground arith
count_root live (node l p b r) a = omega (arith, hit_self p)

unbalanced-ne :
    (live : Ptr → Bool) (p : Ptr) (c : Ctx)
    → alive live p ≡ true
    → count_ctx p c ≡ 0
    → (p == unbalanced c) ≡ false
unbalanced-ne live p top a o = ne_null_of_alive live p a
unbalanced-ne live p (in_left c q b r) a o = elim (Bool-cases (is_zero b)) [
  | inl e ↦ rw e (unbalanced-ne live p c a (omega arith))
  | inr e ↦ rw e (==_of_hit p q (omega arith))
]
unbalanced-ne live p (in_right c l q b) a o = elim (Bool-cases (is_zero b)) [
  | inl e ↦ rw e (unbalanced-ne live p c a (omega arith))
  | inr e ↦ rw e (==_of_hit p q (omega arith))
]

-- The run of the loop: it changes balances alone.
pub record Raised (t : Avltree) (fuel : ℕ) (c : Ctx) (x : Tree) : Type 0 where
  pub after : Ptr → ℤ
  pub ends :
      raise fuel (root_of x) (parent_of c) (unbalanced c) t
      ≡ ok (root_of (climb c x).1) (record t { balance = after })
  pub at_unbalanced : parent_of (climb c x).0 ≡ unbalanced c
  pub is_alive : alive t.live (root_of (climb c x).1) ≡ true
  pub holds : Holds (record t { balance = after }) (climb c x).0 (climb c x).1

pub raise-Raised :
    (fuel : ℕ) (t : Avltree) (c : Ctx) (x : Tree)
    → alive t.live (root_of x) ≡ true
    → Holds t c x
    → depth c < fuel
    → Raised t fuel c x
unfolding raise
raise-Raised zero t c x a h lt = elim lt [ ]
raise-Raised (suc fuel) t top x a h lt = record {
  after = t.balance;
  ends = refl;
  at_unbalanced = refl;
  is_alive = a;
  holds = h;
}
raise-Raised (suc fuel) t (in_left c p b r) x a h lt = elim (Bool-cases (is_zero b)) [
  | inl e ↦
      let s = h.around.0 in
      let b' = int8 (b -ℤ pos 1) in
      let up : Holds t c (node x p b r) = record {
        shape = (s, h.shape, h.around.1);
        around = h.around.2;
        distinct = λ q. omega (arith, h.distinct q);
      } in
      let y =
        raise-Raised fuel (weighed t p b') c (node x p b' r) s.is_alive
          (weighed-Holds t c x r p b b' up) (omega arith) in
      let ne = unbalanced-ne t.live p c s.is_alive (omega (arith, h.distinct p, hit_self p)) in
      record {
        after = y.after;
        ends = simp (e, ne, s.is_alive, s.left, s.balance, s.parent, ==_refl (root_of x), y.ends);
        at_unbalanced = rw e y.at_unbalanced;
        is_alive = rw e y.is_alive;
        holds = rw e y.holds;
      }
  | inr e ↦ record {
    after = t.balance;
    ends = rw (e, ==_refl p);
    at_unbalanced = rw e;
    is_alive = rw e a;
    holds = rw e h;
  }
]
raise-Raised (suc fuel) t (in_right c l p b) x a h lt = elim (Bool-cases (is_zero b)) [
  | inl e ↦
      let s = h.around.0 in
      let b' = int8 (b +ℤ pos 1) in
      let up : Holds t c (node l p b x) = record {
        shape = (s, h.around.1, h.shape);
        around = h.around.2;
        distinct = λ q. omega (arith, h.distinct q);
      } in
      let y =
        raise-Raised fuel (weighed t p b') c (node l p b' x) s.is_alive
          (weighed-Holds t c l x p b b' up) (omega arith) in
      let ne = unbalanced-ne t.live p c s.is_alive (omega (arith, h.distinct p, hit_self p)) in
      let other =
        root_of-ne t.live (root_of x) l a
          (omega (arith, count_root t.live x a, h.distinct (root_of x))) in
      record {
        after = y.after;
        ends = simp (e, ne, s.is_alive, s.left, s.balance, s.parent, other, y.ends);
        at_unbalanced = rw e y.at_unbalanced;
        is_alive = rw e y.is_alive;
        holds = rw e y.holds;
      }
  | inr e ↦ record {
    after = t.balance;
    ends = rw (e, ==_refl p);
    at_unbalanced = rw e;
    is_alive = rw e a;
    holds = rw e h;
  }
]
