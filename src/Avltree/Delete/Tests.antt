-- ===== src/Avltree/Delete/Tests.antt =====
-- Runs of deletion, flushing and verification on a small tree, and instances of their theorems.
use libbase.Base.{ℕ, true, ◌≡◌, refl, arith, ◌==◌, ◌∷◌, [], none, some, if◌then◌else◌}
use libbase.Base.Int.{ℤ, pos, ◌-ℤ◌, ltb_ℤ, is_zero, int8}
use libbase.Memory.{Ptr, null, ok, Returns}
use libbase.Avltree.{Avltree, alive}
use libbase.Avltree.Shape.{Tree, leaf, node, top, inorder, Holds, Keeps}
use libbase.Avltree.Balanced.{IsAvl}
use libbase.Avltree.Search.Cut.{IsCut}
use libbase.Avltree.Delete.{node_exchange, delete}
use libbase.Avltree.Delete.Detach.{Deleted}
use libbase.Avltree.Delete.Trade.{swapped}
use libbase.Avltree.Delete.Renamed.{node_exchange-renamed}
use libbase.Avltree.Delete.Without.{without}
use libbase.Avltree.Delete.Key.{delete-Deleted, delete_missing}
use libbase.Avltree.Life.{flush}
use libbase.Avltree.Life.Flush.{Flushed, flush-Flushed}
use libbase.Avltree.Verify.{verify_node}
use libbase.Avltree.Verify.Sorted.{IsSorted, verify_node-IsSorted}

-- The root 20 with the children 10 and 30.
abbrev three : Avltree
three = record {
  root = 20;
  nodes = 3;
  has_destroy = true;
  parent = λ p. if p == 10 then 20 else if p == 30 then 20 else 0;
  left = λ p. if p == 20 then 10 else 0;
  right = λ p. if p == 20 then 30 else 0;
  balance = λ p. pos 0;
  live = λ p. (if p == 10 then true else if p == 20 then true else p == 30);
  destroyed = [];
}

abbrev three_tree : Tree
three_tree = node (node leaf 10 (pos 0) leaf) 20 (pos 0) (node leaf 30 (pos 0) leaf)

three-Holds : Holds three top three_tree
unfolding alive
three-Holds = record {
  shape = (
    record { is_alive = refl; parent = refl; left = refl; right = refl; balance = refl },
    (record { is_alive = refl; parent = refl; left = refl; right = refl; balance = refl }, tt, tt),
    (record { is_alive = refl; parent = refl; left = refl; right = refl; balance = refl }, tt, tt),
  );
  around = refl;
  distinct = λ q. ground arith;
}

three-IsAvl : IsAvl three_tree
three-IsAvl = (refl, (refl, tt, tt), (refl, tt, tt))

-- Keys are addresses.
by_address : Ptr → ℕ → ℤ
by_address p k = pos p -ℤ pos k

three-IsCut : (k : ℕ) → IsCut by_address k (inorder three_tree)
unfolding by_address ltb_ℤ ◌-ℤ◌
three-IsCut k =
    ((λ h. (ground arith, (ground arith, tt))), ((λ h. (ground arith, tt)), ((λ h. tt), tt)))

three-IsSorted : IsSorted by_address (λ p. some p) (inorder three_tree)
unfolding by_address ltb_ℤ ◌-ℤ◌
three-IsSorted = ((refl, (refl, tt)), ((refl, tt), (tt, tt)))

delete-Deleted_example :
    Returns
      (λ p u. (p ≡ 20) × Deleted three u (without p (10 ∷ 20 ∷ 30 ∷ [])))
      (delete by_address 3 20 three)
unfolding by_address is_zero ◌-ℤ◌
delete-Deleted_example =
    delete-Deleted by_address 20 three 3 three_tree three-Holds three-IsAvl (three-IsCut 20)
      (λ e. ground arith) (omega arith)

delete_missing_example : delete by_address 3 15 three ≡ ok null three
unfolding by_address is_zero ◌-ℤ◌
delete_missing_example =
    delete_missing by_address 15 three 3 three_tree three-Holds (three-IsCut 15) refl (omega arith)

node_exchange-renamed_example :
    Returns
      (λ _ u.
        Keeps three u
        × Holds u top (node (node leaf 10 (pos 0) leaf) 30 (pos 0) (node leaf 20 (pos 0) leaf)))
      (node_exchange 20 30 three)
unfolding int8 swapped
node_exchange-renamed_example =
    node_exchange-renamed three three_tree 20 30 three-Holds (omega arith) (omega arith) refl refl
      refl

flush-Flushed_example : Returns (λ _ u. Flushed three three_tree u) (flush 7 three)
flush-Flushed_example =
    flush-Flushed three three_tree 7 three-Holds refl (omega arith) (omega arith)

verify_node-IsSorted_example :
    verify_node by_address (λ p. some p) 3 20 none none three ≡ ok tt three
verify_node-IsSorted_example =
    verify_node-IsSorted by_address (λ p. some p) three 3 three_tree three-Holds three-IsAvl
      three-IsSorted (omega arith) (omega arith)
