-- ===== src/Avltree/Delete/Lift.antt =====
-- The rotations of `bs_avltree_node_delete`: what a step of its loop leaves.
pub mod RestoreRight
pub mod RestoreLeft
pub mod Right
pub mod Left
use libbase.Base.{
  ℕ, ◌+◌, ◌≤◌, Bool, false, ◌≡◌, arith, ◌==◌, if◌then◌else◌, List, Option, none, some,
}
use libbase.Memory.{Ptr, null, Cmd, pure, ◌>>=◌}
use libbase.Avltree.{Avltree, get_parent}
use libbase.Avltree.Shape.{Tree, leaf, node, Ctx, root_of, inorder, height, Shape, Holds, Keeps}
use libbase.Avltree.Balanced.{IsAvl}
use libbase.Avltree.Relink.{ne_null_of_alive}
use libbase.Avltree.Insert.Rotations.{IsNode}

-- The loop ends where the subtree is as high as before, and goes on from the root of a subtree that
-- is one less.
abbrev pub Verdict : ℕ → Tree → Option Ptr → Type 0
Verdict h x none = height x ≡ h
Verdict h x (some n) = IsNode x × (root_of x ≡ n) × (height x + 1 ≡ h)

pub record Lifted (t u : Avltree) (c : Ctx) (h : ℕ) (nodes : List Ptr) (next : Option Ptr)
    : Type 0 where
  pub tree : Tree
  pub holds : Holds u c tree
  pub balanced : IsAvl tree
  pub order : inorder tree ≡ nodes
  pub verdict : Verdict h tree next
  pub keeps : Keeps t u

-- The outer grandchild is there.
pub outer-alive :
    (t : Avltree) (q : Ptr) (a : Tree) → Shape t q a → 1 ≤ height a → (root_of a == null) ≡ false
outer-alive t q leaf s le = absurd (omega arith)
outer-alive t q (node l n b r) s le = ne_null_of_alive t.live n s.0.is_alive

-- What follows a single rotation.
abbrev pub end : Ptr → Bool → Cmd Avltree (Option Ptr)
end p same = if same then pure none else do d ← get_parent p; pure (some d)
