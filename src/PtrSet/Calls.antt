-- ===== src/PtrSet/Calls.antt =====
-- The calls for a set, on the list of its elements.
use libbase.Base.{
  ℕ, ◌≤◌, ◌<◌, true, false, not, ◌≡◌, ◌≢◌, refl, arith, ◌∙◌, ap, sym, subst, List, ◌==◌, Bool-cases,
  inl, inr,
}
use libbase.Memory.{
  Ptr, null, ok, when, update, Returns, Returns-and_then, Outcome, abort, fault, out_of_fuel,
}
use libbase.Avltree.{Avltree}
use libbase.Avltree.Shape.{inorder, height, count}
use libbase.Avltree.Search.Cut.{IsCut, at_key}
use libbase.Avltree.Search.Lookup.{lookup-at_key}
use libbase.Avltree.Delete.{delete}
use libbase.Avltree.Delete.Detach.{Deleted}
use libbase.Avltree.Delete.Without.{without, occurs, occurs-inorder}
use libbase.Avltree.Delete.Key.{delete-Deleted, delete_missing}
use libbase.PtrSet.{PtrSet, elem_compare, with_tree, free_holder, erase, contains}
use libbase.PtrSet.Compare.{IsNear}
use libbase.PtrSet.Elements.{
  elems, has, remove_element, elems-IsCut, has-at_key, elems-without, remove_element_missing,
  remove_element-IsDescending, AllNear-remove_element, AllNear, IsDescending,
}
use libbase.PtrSet.Holder.{IsElements, Holds_outside, inorder-NoNull, freed-Same, occurs-without}

-- A call for the tree that returns goes on with the set.
pub Returns-with_tree :
    {A : Type 0} {P : A → Avltree → Type 0} (Q : A → PtrSet → Type 0) (o : Outcome Avltree A)
    (elem : Ptr → ℕ)
    → Returns P o
    → ((a : A) (t : Avltree) → P a t → Q a (record { tree = t; elem = elem }))
    → Returns Q (with_tree o elem)
Returns-with_tree Q (ok a t) elem r f = f a t r
Returns-with_tree Q abort elem r f = elim r [ ]
Returns-with_tree Q fault elem r f = elim r [ ]
Returns-with_tree Q out_of_fuel elem r f = elim r [ ]

pub nonnull : (p : Ptr) → not (p == null) ≡ true → p ≢ null
nonnull p e = λ f. ground arith

pub is_null : (p : Ptr) → not (p == null) ≡ false → p ≡ null
is_null p e = ground arith

module _ (s : PtrSet) (lo : ℕ) (xs : List ℕ) (y : IsElements s lo xs) (e : ℕ) (ne : IsNear lo e)
    (fuel : ℕ) (lt : height y.nodes < fuel) where
  abbrev ns : List Ptr
  ns = inorder y.nodes

  pub near_nodes : AllNear lo (elems s.elem ns)
  near_nodes = subst (AllNear lo) (sym y.elements) y.near

  pub cut : IsCut (elem_compare s.elem) e ns
  cut = elems-IsCut s.elem lo e ne ns near_nodes (subst IsDescending (sym y.elements) y.descending)

  pub found : not (at_key (elem_compare s.elem) e ns == null) ≡ has e xs
  found =
      has-at_key s.elem lo e ne ns near_nodes (inorder-NoNull s.tree y.nodes y.holds)
      ∙ ap (has e) y.elements

  -- Where the elements of a set and the one that is asked for are among 2 ^ 31 addresses in a row,
  -- and with more rounds than the tree is high, `bs_ptr_set_contains` returns whether the element is
  -- in the set, and changes nothing.
  pub contains_lem : contains fuel e s ≡ ok (has e xs) s
  unfolding contains
  contains_lem =
      rw (lookup-at_key (elem_compare s.elem) e s.tree fuel y.nodes y.holds cut lt, found) refl

  -- The memory after the node `p` was taken out of the tree and its holder freed.
  erased-IsElements :
      (t : Avltree)
      → has e xs ≡ true
      → Deleted s.tree t (without (at_key (elem_compare s.elem) e ns) ns)
      → IsElements
          (record {
            tree = record t { live = update t.live (at_key (elem_compare s.elem) e ns) false };
            elem = s.elem;
          })
          lo
          (remove_element e xs)
  erased-IsElements t h d =
      let p = at_key (elem_compare s.elem) e ns in
      let once : occurs p ns ≤ 1 = omega (arith, y.holds.distinct p, occurs-inorder p y.nodes) in
      let out : count p d.tree ≡ 0 =
        sym (occurs-inorder p d.tree) ∙ ap (occurs p) d.order ∙ occurs-without p ns once in
      let h' : has e (elems s.elem ns) ≡ true = ap (has e) y.elements ∙ h in
      record {
        nodes = d.tree;
        holds =
            Holds_outside t d.tree d.holds (record t { live = update t.live p false }) p out refl
              (freed-Same t p);
        balanced = d.balanced;
        elements =
            ap (elems s.elem) d.order
            ∙ elems-without s.elem lo e ne ns near_nodes h'
            ∙ ap (remove_element e) y.elements;
        descending = remove_element-IsDescending e xs y.descending;
        near = AllNear-remove_element lo e xs y.near;
      }

  -- Where the elements of a set and the one to erase are among 2 ^ 31 addresses in a row, and with
  -- more rounds than the tree is high, `bs_ptr_set_erase` returns and leaves a set of the other
  -- elements, again in order in an AVL tree, whether the element was in it or not.
  pub erase-IsElements : Returns (λ _ u. IsElements u lo (remove_element e xs)) (erase fuel e s)
  unfolding erase free_holder
  erase-IsElements = elim (Bool-cases (has e xs)) [
    | inl h ↦
        let p = at_key (elem_compare s.elem) e ns in
        let z = nonnull p (found ∙ h) in
        Returns-and_then _ (with_tree (delete (elem_compare s.elem) fuel e s.tree) s.elem)
          (λ node. when (not (node == null)) (free_holder node))
          (Returns-with_tree
            (λ n u. (n ≡ p) × Deleted s.tree u.tree (without p ns) × (u.elem ≡ s.elem))
            (delete (elem_compare s.elem) fuel e s.tree) s.elem
            (delete-Deleted (elem_compare s.elem) e s.tree fuel y.nodes y.holds y.balanced cut z lt)
            λ n t k. (k.0, subst (λ m. Deleted s.tree t (without m ns)) (k.0) (k.1), refl))
          λ n u k.
            rw (k.0, found ∙ h)
              (subst
                (λ f.
                  IsElements
                    (record {
                      tree = record u.tree { live = update u.tree.live p false };
                      elem = f;
                    })
                    lo (remove_element e xs))
                (sym (k.2)) (erased-IsElements u.tree h (k.1)))
    | inr h ↦
        let z = is_null (at_key (elem_compare s.elem) e ns) (found ∙ h) in
        rw
          (
            delete_missing (elem_compare s.elem) e s.tree fuel y.nodes y.holds cut z lt,
            remove_element_missing e xs h,
          )
          y
  ]
