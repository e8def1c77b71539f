-- ===== src/Avltree/Shape.antt =====
-- What a `bs_avltree_t` stands for: a tree of nodes, and a tree with a hole.
use libbase.Base.{
  ℕ, ◌+◌, ◌≤◌, true, false, ◌≡◌, arith, ◌∙◌, larger, List, [], ◌∷◌, ◌++◌, ◌==◌, if◌then◌else◌,
  ==_refl,
}
use libbase.Base.Int.{ℤ}
use libbase.Memory.{Ptr, null}
use libbase.Avltree.{Avltree, alive}

-- A tree of nodes, each with its balance.
pub data Tree : Type 0 where
  leaf : Tree
  node : Tree → Ptr → ℤ → Tree → Tree

-- What is around a subtree: the nodes above it, each with its other subtree.
pub data Ctx : Type 0 where
  top : Ctx
  in_left : Ctx → Ptr → ℤ → Tree → Ctx
  in_right : Ctx → Tree → Ptr → ℤ → Ctx

abbrev pub plug : Ctx → Tree → Tree
plug top t = t
plug (in_left c p b r) t = plug c (node t p b r)
plug (in_right c l p b) t = plug c (node l p b t)

abbrev pub root_of : Tree → Ptr
root_of leaf = null
root_of (node l p b r) = p

abbrev pub parent_of : Ctx → Ptr
parent_of top = null
parent_of (in_left c p b r) = p
parent_of (in_right c l p b) = p

-- The nodes in order.
abbrev pub inorder : Tree → List Ptr
inorder leaf = []
inorder (node l p b r) = inorder l ++ p ∷ inorder r

abbrev pub height : Tree → ℕ
height leaf = 0
height (node l p b r) = larger (height l) (height r) + 1

-- How often a node occurs.
abbrev pub hit : Ptr → Ptr → ℕ
hit q p = if q == p then 1 else 0

abbrev pub count : Ptr → Tree → ℕ
count q leaf = 0
count q (node l p b r) = count q l + hit q p + count q r

abbrev pub count_ctx : Ptr → Ctx → ℕ
count_ctx q top = 0
count_ctx q (in_left c p b r) = hit q p + count q r + count_ctx q c
count_ctx q (in_right c l p b) = hit q p + count q l + count_ctx q c

pub count-plug : (q : Ptr) (c : Ctx) (t : Tree) → count q (plug c t) ≡ count q t + count_ctx q c
count-plug q top t = omega arith
count-plug q (in_left c p b r) t = omega (arith, count-plug q c (node t p b r))
count-plug q (in_right c l p b) t = omega (arith, count-plug q c (node l p b t))

pub hit_self : (p : Ptr) → hit p p ≡ 1
hit_self p = rw (==_refl p)

pub ==_of_hit : (q p : Ptr) → hit q p ≡ 0 → (q == p) ≡ false
==_of_hit q p h = ground arith

-- No node occurs twice.
abbrev pub IsDistinct : Tree → Ctx → Type 0
IsDistinct t c = (q : Ptr) → count q t + count_ctx q c ≤ 1

-- The members of one node.
pub record At (t : Avltree) (p pp pl pr : Ptr) (b : ℤ) : Type 0 where
  pub is_alive : alive t.live p ≡ true
  pub parent : t.parent p ≡ pp
  pub left : t.left p ≡ pl
  pub right : t.right p ≡ pr
  pub balance : t.balance p ≡ b

-- The memory of `t` holds the tree, below the node `pp`.
abbrev pub Shape : Avltree → Ptr → Tree → Type 0
Shape t pp leaf = Unit
Shape t pp (node l p b r) = At t p pp (root_of l) (root_of r) b × Shape t p l × Shape t p r

-- The memory of `t` holds what is around a subtree with the root `q`.
abbrev pub CtxShape : Avltree → Ptr → Ctx → Type 0
CtxShape t q top = t.root ≡ q
CtxShape t q (in_left c p b r) = At t p (parent_of c) q (root_of r) b × Shape t p r × CtxShape t p c
CtxShape t q (in_right c l p b) =
    At t p (parent_of c) (root_of l) q b × Shape t p l × CtxShape t p c

-- A node has the same members in `u`.
pub record Same (t u : Avltree) (q : Ptr) : Type 0 where
  pub is_alive : alive u.live q ≡ alive t.live q
  pub parent : u.parent q ≡ t.parent q
  pub left : u.left q ≡ t.left q
  pub right : u.right q ≡ t.right q
  pub balance : u.balance q ≡ t.balance q

module _ (t u : Avltree) where
  pub At-frame : (p pp pl pr : Ptr) (b : ℤ) → Same t u p → At t p pp pl pr b → At u p pp pl pr b
  At-frame p pp pl pr b s a = record {
    is_alive = s.is_alive ∙ a.is_alive;
    parent = s.parent ∙ a.parent;
    left = s.left ∙ a.left;
    right = s.right ∙ a.right;
    balance = s.balance ∙ a.balance;
  }

  pub Shape-frame :
      (pp : Ptr) (x : Tree) → ((q : Ptr) → 1 ≤ count q x → Same t u q) → Shape t pp x → Shape u pp x
  Shape-frame pp leaf same s = tt
  Shape-frame pp (node l p b r) same s = (
    At-frame p pp (root_of l) (root_of r) b (same p (omega (arith, hit_self p))) s.0,
    Shape-frame p l (λ q h. same q (omega arith)) s.1,
    Shape-frame p r (λ q h. same q (omega arith)) s.2,
  )

  pub CtxShape-frame :
      (h : Ptr) (c : Ctx)
      → u.root ≡ t.root
      → ((q : Ptr) → 1 ≤ count_ctx q c → Same t u q)
      → CtxShape t h c
      → CtxShape u h c
  CtxShape-frame h top e same s = e ∙ s
  CtxShape-frame h (in_left c p b r) e same s = (
    At-frame p (parent_of c) h (root_of r) b (same p (omega (arith, hit_self p))) s.0,
    Shape-frame p r (λ q k. same q (omega arith)) s.1,
    CtxShape-frame p c e (λ q k. same q (omega arith)) s.2,
  )
  CtxShape-frame h (in_right c l p b) e same s = (
    At-frame p (parent_of c) (root_of l) h b (same p (omega (arith, hit_self p))) s.0,
    Shape-frame p l (λ q k. same q (omega arith)) s.1,
    CtxShape-frame p c e (λ q k. same q (omega arith)) s.2,
  )

-- `t` holds the tree `x` around which `c` is, and no node twice.
pub record Holds (t : Avltree) (c : Ctx) (x : Tree) : Type 0 where
  pub shape : Shape t (parent_of c) x
  pub around : CtxShape t (root_of x) c
  pub distinct : IsDistinct x c

-- What no change of links and balances touches.
pub record Keeps (t u : Avltree) : Type 0 where
  pub nodes : u.nodes ≡ t.nodes
  pub live : u.live ≡ t.live
  pub destroyed : u.destroyed ≡ t.destroyed

pub Keeps-trans : (t u v : Avltree) → Keeps t u → Keeps u v → Keeps t v
Keeps-trans t u v k l = record {
  nodes = l.nodes ∙ k.nodes;
  live = l.live ∙ k.live;
  destroyed = l.destroyed ∙ k.destroyed;
}
