-- ===== src/PtrSet/Inserted.antt =====
-- `bs_ptr_set_insert`, on the list of the elements of the set.
use libbase.Base.{
  ℕ, ◌<◌, true, false, not, ◌≡◌, refl, ◌∙◌, ap, List, ◌==◌, some, Bool-cases, inl, inr,
  if◌then◌else◌,
}
use libbase.Memory.{Ptr, null, update, update_self, Returns, Returns-and_then}
use libbase.Avltree.{Avltree, alive}
use libbase.Avltree.Shape.{top, inorder, height, count, Holds}
use libbase.Avltree.Search.Cut.{at_key, insert_sorted}
use libbase.Avltree.Insert.{insert as tree_insert}
use libbase.Avltree.Insert.New.{Inserted, insert-Inserted}
use libbase.Avltree.Insert.Keep.{insert-at_key}
use libbase.Avltree.Delete.Without.{occurs-inorder}
use libbase.PtrSet.{PtrSet, elem_compare, with_tree, make_holder, free_holder, insert}
use libbase.PtrSet.Compare.{IsNear}
use libbase.PtrSet.Elements.{
  elems, has, insert_element, elems-insert_sorted, insert_element-IsDescending,
  AllNear-insert_element,
}
use libbase.PtrSet.Holder.{
  IsElements, count_dead, Holds_outside, made, made-IsNew, made-Same, freed-Same, elems-update,
}
use libbase.PtrSet.Calls.{Returns-with_tree, nonnull, is_null, near_nodes, cut, found}

module _ (s : PtrSet) (lo : ℕ) (xs : List ℕ) (y : IsElements s lo xs) (e : ℕ) (ne : IsNear lo e)
    (fuel : ℕ) (lt : height y.nodes < fuel) (p : Ptr) (np : (p == null) ≡ false)
    (dead : alive s.tree.live p ≡ false) where
  abbrev t1 : Avltree
  t1 = made s.tree p

  abbrev elem1 : Ptr → ℕ
  elem1 = update s.elem p e

  outside : count p y.nodes ≡ 0
  outside = count_dead s.tree y.nodes y.holds p dead

  made-Holds : Holds t1 top y.nodes
  made-Holds = Holds_outside s.tree y.nodes y.holds t1 p outside refl (made-Same s.tree p)

  made-elems : elems elem1 (inorder y.nodes) ≡ xs
  made-elems =
      elems-update s.elem p e (inorder y.nodes) (occurs-inorder p y.nodes ∙ outside) ∙ y.elements

  -- The set is the same with a new holder beside it.
  abbrev made_set : IsElements (record { tree = t1; elem = elem1 }) lo xs
  made_set = record {
    nodes = y.nodes;
    holds = made-Holds;
    balanced = y.balanced;
    elements = made-elems;
    descending = y.descending;
    near = y.near;
  }

  -- The element was there already, and the holder is freed.
  kept-IsElements :
      IsElements (record { tree = record t1 { live = update t1.live p false }; elem = elem1 }) lo xs
  kept-IsElements = record {
    nodes = y.nodes;
    holds =
        Holds_outside t1 y.nodes made-Holds (record t1 { live = update t1.live p false }) p outside
          refl (freed-Same t1 p);
    balanced = y.balanced;
    elements = made-elems;
    descending = y.descending;
    near = y.near;
  }

  grown-IsElements :
      (t : Avltree)
      → has e xs ≡ false
      → Inserted t1 t (insert_sorted (elem_compare elem1) e p (inorder y.nodes))
      → IsElements (record { tree = t; elem = elem1 }) lo (insert_element e xs)
  grown-IsElements t h i =
      let m = made_set in
      record {
        nodes = i.tree;
        holds = i.holds;
        balanced = i.balanced;
        elements =
            ap (elems elem1) i.order
            ∙ elems-insert_sorted elem1 lo e ne p (inorder y.nodes) (update_self s.elem p e)
                (near_nodes (record { tree = t1; elem = elem1 }) lo xs m e ne fuel lt)
            ∙ ap (insert_element e) made-elems;
        descending = insert_element-IsDescending e xs h y.descending;
        near = AllNear-insert_element lo e xs ne y.near;
      }

  -- Where the elements of a set and the one to insert are among 2 ^ 31 addresses in a row, and with
  -- more rounds than the tree is high, `bs_ptr_set_insert` that is given memory for a holder at an
  -- address other than NULL that holds no node returns true if the element was not in the set, and
  -- leaves a set with the element in its place; else it returns false and leaves the same elements.
  pub insert-IsElements :
      Returns
        (λ b u.
          (b ≡ not (has e xs)) × IsElements u lo (if has e xs then xs else insert_element e xs))
        (insert fuel (some p) e s)
  unfolding insert make_holder free_holder
  insert-IsElements =
      let s1 : PtrSet = record { tree = t1; elem = elem1 } in
      let m = made_set in
      let c = cut s1 lo xs m e ne fuel lt in
      let f = found s1 lo xs m e ne fuel lt in
      let k = at_key (elem_compare elem1) e (inorder y.nodes) in
      elim (Bool-cases (has e xs)) [
        | inl h ↦
            let run =
              insert-at_key t1 p fuel (elem_compare elem1) e y.nodes m.holds c (nonnull k (f ∙ h))
                lt in
            rw (run, h) (refl, kept-IsElements)
        | inr h ↦
            Returns-and_then _
              (with_tree (tree_insert (elem_compare elem1) fuel e p false t1) elem1) _
              (Returns-with_tree (λ b u. (b ≡ true) × IsElements u lo (insert_element e xs))
                (tree_insert (elem_compare elem1) fuel e p false t1) elem1
                (insert-Inserted t1 p (made-IsNew s.tree p np) fuel (elem_compare elem1) e false
                  y.nodes m.holds y.balanced c (is_null k (f ∙ h)) outside lt)
                λ b t i. (i.0, grown-IsElements t h i.1))
              λ b u i. rw (i.0, h) (refl, i.1)
      ]
