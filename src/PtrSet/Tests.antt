-- ===== src/PtrSet/Tests.antt =====
-- A set of two elements, and instances of the theorems of ptr_set.c.
use libbase.Base.{ℕ, ◌≤◌, ◌<◌, true, false, ◌≡◌, refl, arith, ◌==◌, ◌∷◌, [], some, if◌then◌else◌}
use libbase.Base.Int.{pos}
use libbase.Memory.{ok, Returns}
use libbase.Avltree.{alive}
use libbase.Avltree.Shape.{Tree, leaf, node, top, Holds}
use libbase.PtrSet.{PtrSet, insert, erase, contains}
use libbase.PtrSet.Compare.{IsNear}
use libbase.PtrSet.Holder.{IsElements}
use libbase.PtrSet.Calls.{contains_lem, erase-IsElements}
use libbase.PtrSet.Inserted.{insert-IsElements}

-- The holder 10 at the root has the element 700, and 20 on its right has 500.
abbrev pair : PtrSet
pair = record {
  tree = record {
    root = 10;
    nodes = 2;
    has_destroy = false;
    parent = λ p. if p == 20 then 10 else 0;
    left = λ p. 0;
    right = λ p. if p == 10 then 20 else 0;
    balance = λ p. if p == 10 then pos 1 else pos 0;
    live = λ p. (if p == 10 then true else p == 20);
    destroyed = [];
  };
  elem = λ p. if p == 10 then 700 else if p == 20 then 500 else 0;
}

abbrev pair_tree : Tree
pair_tree = node leaf 10 (pos 1) (node leaf 20 (pos 0) leaf)

pair-Holds : Holds pair.tree top pair_tree
unfolding alive
pair-Holds = record {
  shape = (
    record { is_alive = refl; parent = refl; left = refl; right = refl; balance = refl },
    tt,
    (record { is_alive = refl; parent = refl; left = refl; right = refl; balance = refl }, tt, tt),
  );
  around = refl;
  distinct = λ q. ground arith;
}

address : (e : ℕ) → 100 ≤ e → e < 1000 → IsNear 100 e
address e le lt = (le, omega arith, omega arith)

less : 500 < 700
less = omega arith

address_500 : IsNear 100 500
address_500 = address 500 (omega arith) (omega arith)

address_600 : IsNear 100 600
address_600 = address 600 (omega arith) (omega arith)

address_700 : IsNear 100 700
address_700 = address 700 (omega arith) (omega arith)

abbrev pair_set : IsElements pair 100 (700 ∷ 500 ∷ [])
pair_set = record {
  nodes = pair_tree;
  holds = pair-Holds;
  balanced = (refl, tt, (refl, tt, tt));
  elements = refl;
  descending = ((less, tt), (tt, tt));
  near = (address_700, (address_500, tt));
}

contains_lem_example : contains 3 500 pair ≡ ok true pair
contains_lem_example =
    contains_lem pair 100 (700 ∷ 500 ∷ []) pair_set 500 address_500 3 (omega arith)

erase-IsElements_example : Returns (λ _ u. IsElements u 100 (500 ∷ [])) (erase 3 700 pair)
erase-IsElements_example =
    erase-IsElements pair 100 (700 ∷ 500 ∷ []) pair_set 700 address_700 3 (omega arith)

insert-IsElements_example :
    Returns
      (λ b u. (b ≡ true) × IsElements u 100 (700 ∷ 600 ∷ 500 ∷ []))
      (insert 3 (some 30) 600 pair)
unfolding alive
insert-IsElements_example =
    insert-IsElements pair 100 (700 ∷ 500 ∷ []) pair_set 600 address_600 3 (omega arith) 30 refl
      refl
