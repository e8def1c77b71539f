-- ===== src/Avltree/Delete/Without.antt =====
-- A list of nodes without one of them, and the nodes in order that a tree has.
use libbase.Base.{
  ℕ, ◌+◌, ◌≤◌, false, ◌≡◌, refl, arith, ◌∙◌, sym, ap, subst, List, [], ◌∷◌, ◌++◌, append_assoc,
  ◌==◌, ==_refl, ==_comm, if◌then◌else◌, Bool-cases, inl, inr,
}
use libbase.Base.Int.{ℤ}
use libbase.Memory.{Ptr, null}
use libbase.Avltree.Shape.{
  Tree, leaf, node, Ctx, top, in_left, in_right, inorder, count, count_ctx, hit, hit_self,
  ==_of_hit,
}
use libbase.Avltree.Search.Cut.{at_key, is_at}
use libbase.Avltree.Search.Next.{before, after}

abbrev pub without : Ptr → List Ptr → List Ptr
without p [] = []
without p (x ∷ xs) = if x == p then xs else x ∷ without p xs

-- How often a node is in a list.
abbrev pub occurs : Ptr → List Ptr → ℕ
occurs q [] = 0
occurs q (x ∷ xs) = hit q x + occurs q xs

occurs-append : (q : Ptr) (xs ys : List Ptr) → occurs q (xs ++ ys) ≡ occurs q xs + occurs q ys
occurs-append q [] ys = omega arith
occurs-append q (x ∷ xs) ys = omega (arith, occurs-append q xs ys)

pub occurs-inorder : (q : Ptr) (x : Tree) → occurs q (inorder x) ≡ count q x
occurs-inorder q leaf = refl
occurs-inorder q (node l p b r) =
    omega
      (arith, occurs-append q (inorder l) (p ∷ inorder r), occurs-inorder q l, occurs-inorder q r)

occurs-before : (q : Ptr) (c : Ctx) → occurs q (before c) ≤ count_ctx q c
occurs-before q top = omega arith
occurs-before q (in_left c p b r) = omega (arith, occurs-before q c)
occurs-before q (in_right c l p b) = omega (
  arith,
  occurs-append q (before c ++ inorder l) (p ∷ []),
  occurs-append q (before c) (inorder l),
  occurs-inorder q l,
  occurs-before q c,
)

without-append :
    (p : Ptr) (xs ys : List Ptr) → occurs p xs ≡ 0 → without p (xs ++ p ∷ ys) ≡ xs ++ ys
without-append p [] ys e = rw (==_refl p)
without-append p (x ∷ xs) ys e =
    let n : (x == p) ≡ false = ==_comm x p ∙ ==_of_hit p x (omega arith) in
    rw n (ap (λ l. x ∷ l) (without-append p xs ys (omega arith)))

-- The nodes around the subtree of `p` and in it, without `p`.
pub without-order :
    (p : Ptr) (c : Ctx) (l r : Tree)
    → count_ctx p c ≡ 0
    → count p l ≡ 0
    → without p (before c ++ (inorder l ++ p ∷ inorder r) ++ after c)
      ≡ before c ++ inorder l ++ inorder r ++ after c
without-order p c l r e f =
    let o : occurs p (before c ++ inorder l) ≡ 0 =
      omega
        (arith, occurs-append p (before c) (inorder l), occurs-inorder p l, occurs-before p c) in
    ap (without p) (regroup (before c) (inorder l) p (inorder r) (after c))
    ∙ without-append p (before c ++ inorder l) (inorder r ++ after c) o
    ∙ sym (append_assoc (before c ++ inorder l) (inorder r) (after c))
  where
    regroup :
        (xs ys : List Ptr) (q : Ptr) (zs ws : List Ptr)
        → xs ++ (ys ++ q ∷ zs) ++ ws ≡ (xs ++ ys) ++ q ∷ (zs ++ ws)
    regroup xs ys q zs ws = simp append_assoc

-- What the search in the nodes of a tree finds is a node of the tree.
module _ {K : Type 0} (cmp : Ptr → K → ℤ) (k : K) where
  occurs-at_key :
      (xs : List Ptr) → (at_key cmp k xs == null) ≡ false → 1 ≤ occurs (at_key cmp k xs) xs
  occurs-at_key [] e = absurd (ground arith)
  occurs-at_key (x ∷ xs) e = elim (Bool-cases (is_at cmp k x)) [
    | inl f ↦
        let y : at_key cmp k (x ∷ xs) ≡ x = rw f refl in
        subst (λ z. 1 ≤ occurs z (x ∷ xs)) (sym y) (omega (arith, hit_self x))
    | inr f ↦
        let y : at_key cmp k (x ∷ xs) ≡ at_key cmp k xs = rw f refl in
        let e' : (at_key cmp k xs == null) ≡ false = ap (λ z. z == null) (sym y) ∙ e in
        subst (λ z. 1 ≤ occurs z (x ∷ xs)) (sym y) (omega (arith, occurs-at_key xs e'))
  ]

  pub count-at_key :
      (x : Tree)
      → (at_key cmp k (inorder x) == null) ≡ false
      → 1 ≤ count (at_key cmp k (inorder x)) x
  count-at_key x e =
      omega (arith, occurs-at_key (inorder x) e, occurs-inorder (at_key cmp k (inorder x)) x)
