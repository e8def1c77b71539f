-- ===== src/Avltree/Tests.antt =====
-- Runs of the model of avltree.c on small trees, and instances of its theorems.
use libbase.Base.{ℕ, true, false, ◌≡◌, refl, arith, ◌==◌, ◌∷◌, ◌++◌, List, [], if◌then◌else◌}
use libbase.Base.Int.{ℤ, pos, negsuc, ◌-ℤ◌, ltb_ℤ, is_zero}
use libbase.Memory.{Ptr, null, ok, Returns}
use libbase.Memory.Chain.{first_or, last_or}
use libbase.Avltree.{Avltree, alive, rot_right, rot_left}
use libbase.Avltree.Shape.{Tree, leaf, node, top, plug, inorder, Holds}
use libbase.Avltree.Balanced.{IsAvl}
use libbase.Avltree.Rotate.Height.{rot_right-height, rot_left-height}
use libbase.Avltree.Rotate.Right.Run.{rotated_right}
use libbase.Avltree.Rotate.Left.Run.{rotated_left}
use libbase.Avltree.Search.{lookup_from, lookup, node_next, node_prev}
use libbase.Avltree.Search.Cut.{IsCut, at_key}
use libbase.Avltree.Search.Lookup.{lookup-at_key}
use libbase.Avltree.Search.Next.{node_next-neighbour}
use libbase.Avltree.Insert.{insert}
use libbase.Avltree.Insert.Attach.{IsNew}
use libbase.Avltree.Insert.New.{Inserted, insert-Inserted}

-- The nodes 10, 20 and 30, of which 10 is the root, 20 is below it to the right, and 30 is new.
abbrev two : Avltree
two = record {
  root = 10;
  nodes = 2;
  has_destroy = false;
  parent = λ p. if p == 20 then 10 else 0;
  left = λ p. 0;
  right = λ p. if p == 10 then 20 else 0;
  balance = λ p. if p == 10 then pos 1 else pos 0;
  live = λ p. (if p == 10 then true else if p == 20 then true else p == 30);
  destroyed = [];
}

abbrev two_tree : Tree
two_tree = node leaf 10 (pos 1) (node leaf 20 (pos 0) leaf)

two-Holds : Holds two top two_tree
unfolding alive
two-Holds = record {
  shape = (
    record { is_alive = refl; parent = refl; left = refl; right = refl; balance = refl },
    tt,
    (record { is_alive = refl; parent = refl; left = refl; right = refl; balance = refl }, tt, tt),
  );
  around = refl;
  distinct = λ q. ground arith;
}

two-IsAvl : IsAvl two_tree
two-IsAvl = (refl, tt, (refl, tt, tt))

-- Keys are addresses.
by_address : Ptr → ℕ → ℤ
by_address p k = pos p -ℤ pos k

two-IsCut : (k : ℕ) → IsCut by_address k (inorder two_tree)
unfolding by_address ltb_ℤ ◌-ℤ◌
two-IsCut k = ((λ h. (ground arith, tt)), ((λ h. tt), tt))

lookup-at_key_example : lookup by_address 3 20 two ≡ ok (at_key by_address 20 (10 ∷ 20 ∷ [])) two
lookup-at_key_example =
    lookup-at_key by_address 20 two 3 two_tree two-Holds (two-IsCut 20) (omega arith)

lookup_20 : lookup by_address 3 20 two ≡ ok 20 two
unfolding lookup lookup_from by_address alive is_zero ltb_ℤ ◌-ℤ◌
lookup_20 = refl

node_next-neighbour_example :
    (xs : List Ptr) × (ys : List Ptr) × (inorder (plug top two_tree) ≡ xs ++ 10 ∷ ys)
    × (node_next 3 10 two ≡ ok (first_or null ys) two)
    × (node_prev 3 10 two ≡ ok (last_or null xs) two)
node_next-neighbour_example =
    node_next-neighbour two 3 10 (pos 1) top leaf (node leaf 20 (pos 0) leaf) two-Holds
      (omega arith)

thirty-IsNew : IsNew two 30
unfolding alive
thirty-IsNew = record { is_alive = refl; left = refl; right = refl; balance = refl }

insert-Inserted_example :
    Returns
      (λ s u. (s ≡ true) × Inserted two u (10 ∷ 20 ∷ 30 ∷ []))
      (insert by_address 4 30 30 false two)
unfolding by_address ltb_ℤ ◌-ℤ◌ is_zero
insert-Inserted_example =
    insert-Inserted two 30 thirty-IsNew 4 by_address 30 false two_tree two-Holds two-IsAvl
      (two-IsCut 30) refl refl (omega arith)

-- Three nodes in a row to the right, and to the left.
abbrev row : (Ptr → Ptr) → (Ptr → Ptr) → (Ptr → Ptr) → (Ptr → ℤ) → Ptr → Avltree
row up l r b root = record {
  root = root;
  nodes = 3;
  has_destroy = false;
  parent = up;
  left = l;
  right = r;
  balance = b;
  live = λ p. (if p == 10 then true else if p == 20 then true else p == 30);
  destroyed = [];
}

abbrev down_right_row : Avltree
down_right_row =
    row (λ p. if p == 20 then 10 else if p == 30 then 20 else 0) (λ p. 0)
      (λ p. if p == 10 then 20 else if p == 20 then 30 else 0)
      (λ p. if p == 10 then pos 2 else if p == 20 then pos 1 else pos 0) 10

abbrev down_left_row : Avltree
down_left_row =
    row (λ p. if p == 20 then 30 else if p == 10 then 20 else 0)
      (λ p. if p == 30 then 20 else if p == 20 then 10 else 0) (λ p. 0)
      (λ p. if p == 30 then negsuc 1 else if p == 20 then negsuc 0 else pos 0) 30

down_right_row-Holds :
    Holds down_right_row top
      (node leaf 10 (pos 2) (node leaf 20 (pos 1) (node leaf 30 (pos 0) leaf)))
unfolding alive
down_right_row-Holds = record {
  shape = (
    record { is_alive = refl; parent = refl; left = refl; right = refl; balance = refl },
    tt,
    (
      record { is_alive = refl; parent = refl; left = refl; right = refl; balance = refl },
      tt,
      (
        record { is_alive = refl; parent = refl; left = refl; right = refl; balance = refl },
        tt,
        tt,
      ),
    ),
  );
  around = refl;
  distinct = λ q. ground arith;
}

down_left_row-Holds :
    Holds down_left_row top
      (node (node (node leaf 10 (pos 0) leaf) 20 (negsuc 0) leaf) 30 (negsuc 1) leaf)
unfolding alive
down_left_row-Holds = record {
  shape = (
    record { is_alive = refl; parent = refl; left = refl; right = refl; balance = refl },
    (
      record { is_alive = refl; parent = refl; left = refl; right = refl; balance = refl },
      (
        record { is_alive = refl; parent = refl; left = refl; right = refl; balance = refl },
        tt,
        tt,
      ),
      tt,
    ),
    tt,
  );
  around = refl;
  distinct = λ q. ground arith;
}

rot_left-height_example :
    Returns
      (λ s u.
        (s ≡ false)
        × Holds u top (rotated_left leaf 10 (pos 2) leaf 20 (pos 1) (node leaf 30 (pos 0) leaf)))
      (rot_left 10 down_right_row)
unfolding ltb_ℤ
rot_left-height_example =
    rot_left-height down_right_row top leaf leaf (node leaf 30 (pos 0) leaf) 10 20 (pos 2) (pos 1)
      down_right_row-Holds (refl, tt, (refl, tt, tt)) refl refl

rot_right-height_example :
    Returns
      (λ s u.
        (s ≡ false)
        × Holds u top
            (rotated_right (node leaf 10 (pos 0) leaf) 20 (negsuc 0) leaf 30 (negsuc 1) leaf))
      (rot_right 30 down_left_row)
unfolding ltb_ℤ
rot_right-height_example =
    rot_right-height down_left_row top (node leaf 10 (pos 0) leaf) leaf leaf 20 30 (negsuc 0)
      (negsuc 1) down_left_row-Holds (refl, (refl, tt, tt), tt) refl refl
