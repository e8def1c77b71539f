-- ===== src/Dllist/Tests.antt =====
-- The theorems about dllist.c at a list of three nodes.
use libbase.Base.{List, [], ◌∷◌, ◌≡◌, refl, arith, some, none, true, ◌==◌, if◌then◌else◌}
use libbase.Memory.{Ptr, Heap, ok, Returns, ◌>>=◌, ◌>>◌, write}
use libbase.Dllist.{
  Node, node, Dllist, load, set_prev, set_next, pop_back, pop_front, find, find_from, contains,
  remove, insert_node_before, for_each,
}
use libbase.Dllist.Seg.{IsList}
use libbase.Dllist.Push.{orphan}
use libbase.Dllist.Find.{contains-has}
use libbase.Dllist.Remove.{remove-append}
use libbase.Dllist.Insert.{insert-append}
use libbase.Dllist.ForEach.{AreOrphans, for_each-remove}

-- The nodes 1, 2 and 3 in this order, and the node 9 of no list.
abbrev memory : Heap Node
memory p =
    if p == 1
    then some (node 0 2)
    else if p == 2
    then some (node 1 3)
    else if p == 3
    then some (node 2 0)
    else if p == 9
    then some orphan
    else none

abbrev three : Dllist
three = record { head = 1; tail = 3; nodes = memory }

abbrev xs : List Ptr
xs = 1 ∷ 2 ∷ 3 ∷ []

three-IsList : IsList three xs
three-IsList = record {
  fresh = ground arith;
  links = (refl, (refl, (refl, tt)));
  head = refl;
  tail = refl;
}

-- `bs_dllist_test_insert` on three nodes, and the list that is left after a pop at each end.
insert_test :
    Returns
      (λ r d'. (r ≡ 3) × (d'.head ≡ 9) × (d'.tail ≡ 2) × (d'.nodes 9 ≡ some (node 0 2)))
      ((insert_node_before 4 2 9 >> (pop_front >>= λ _. pop_back)) three)
unfolding insert_node_before contains find find_from load set_prev set_next pop_front pop_back write
insert_test = (refl, refl, refl, refl)

remove-append_example :
    Returns (λ _ d'. IsList d' (1 ∷ 3 ∷ []) × (d'.nodes 2 ≡ some orphan)) (remove 4 2 three)
remove-append_example = remove-append three (1 ∷ []) (3 ∷ []) 2 4 three-IsList (omega arith)

insert-append_example :
    Returns (λ _ d'. IsList d' (1 ∷ 9 ∷ 2 ∷ 3 ∷ [])) (insert_node_before 4 2 9 three)
insert-append_example =
    insert-append three (1 ∷ []) (3 ∷ []) 9 2 4 three-IsList (ground arith) refl (omega arith)

for_each-remove_example :
    Returns (λ _ d'. IsList d' [] × AreOrphans d'.nodes xs) (for_each 4 (remove 4) three)
for_each-remove_example = for_each-remove three xs 4 4 three-IsList (omega arith) (omega arith)

contains-has_example : contains 4 3 three ≡ ok true three
contains-has_example = contains-has three xs 4 three-IsList (omega arith) 3
