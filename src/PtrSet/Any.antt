-- ===== src/PtrSet/Any.antt =====
-- `bs_ptr_set_any`.
use libbase.Base.{ℕ, ◌≤◌, true, ◌≡◌, refl, arith, ◌∙◌, ap, List, [], ◌∷◌, ◌==◌, if◌then◌else◌}
use libbase.Memory.{Ptr, null, ok, fault, pure}
use libbase.Avltree.{Avltree, alive}
use libbase.Avltree.Shape.{Tree, top, inorder, height, hit_self, Holds}
use libbase.Memory.Chain.{first_or}
use libbase.Avltree.Search.Ends.{min-first_or}
use libbase.Avltree.Delete.Without.{occurs, occurs-inorder}
use libbase.PtrSet.{PtrSet, any}
use libbase.PtrSet.Elements.{elems, NoNull}
use libbase.PtrSet.Holder.{IsElements, in_tree-alive, inorder-NoNull}

first-alive :
    (t : Avltree) (x : Tree) (n : Ptr) (ns : List Ptr)
    → Holds t top x
    → inorder x ≡ n ∷ ns
    → alive t.live n ≡ true
first-alive t x n ns h e =
    let k : occurs n (inorder x) ≡ occurs n (n ∷ ns) = ap (occurs n) e in
    in_tree-alive t x h n (omega (arith, k, occurs-inorder n x, hit_self n))

read_first :
    (s : PtrSet) (ns : List Ptr)
    → NoNull ns
    → ((n : Ptr) (ms : List Ptr) → ns ≡ n ∷ ms → alive s.tree.live n ≡ true)
    → (if first_or null ns == null then pure null else (λ u.
          if alive u.tree.live (first_or null ns) then ok (u.elem (first_or null ns)) u else fault))
        s
      ≡ ok (first_or null (elems s.elem ns)) s
read_first s [] nn a = refl
read_first s (n ∷ ns) nn a = rw (nn.0, a n ns refl) refl

-- With no fewer rounds than the tree is high, `bs_ptr_set_any` returns the first element of the set,
-- the greatest one, or NULL if there is none, and changes nothing.
any-first_or :
    (s : PtrSet) (lo : ℕ) (xs : List ℕ) (y : IsElements s lo xs) (fuel : ℕ)
    → height y.nodes ≤ fuel
    → any fuel s ≡ ok (first_or null xs) s
unfolding any
any-first_or s lo xs y fuel lt = rw ((min-first_or s.tree fuel y.nodes y.holds lt).0) (
    read_first s (inorder y.nodes) (inorder-NoNull s.tree y.nodes y.holds)
      (λ n ms e. first-alive s.tree y.nodes n ms y.holds e)
    ∙ ap (λ l. ok (first_or null l) s) y.elements)
