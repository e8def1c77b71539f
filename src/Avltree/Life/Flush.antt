-- ===== src/Avltree/Life/Flush.antt =====
-- `bs_avltree_flush` goes through the whole tree.
use libbase.Base.{
  ℕ, zero, suc, ◌+◌, ◌-◌, ◌*◌, ◌^◌, ◌<◌, Bool, true, false, ◌≡◌, refl, arith, ◌∙◌, sym, ap, List,
  ◌∷◌, ◌==◌, if◌then◌else◌, subst,
}
use libbase.Base.Int.{ℤ}
use libbase.Memory.{Ptr, null, Returns, and_then, Outcome, Cmd, ◌>>=◌, ◌>>◌, assert}
use libbase.Avltree.{Avltree, set_root}
use libbase.Avltree.Shape.{Tree, leaf, node, Ctx, top, in_left, in_right, root_of, parent_of, Holds}
use libbase.Avltree.Relink.{ne_null_of_alive}
use libbase.Avltree.Search.{size}
use libbase.Avltree.Insert.Seek.{Holds-left, Holds-right}
use libbase.Avltree.Insert.Rotations.{IsNode, Holds-up_left, Holds-up_right}
use libbase.Avltree.Life.{flush_from, flush}
use libbase.Avltree.Life.Clear.{cleared, above, flush_from-cleared, cleared-Holds}

-- How many nodes a tree has, and the rounds of the loop at them and at the nodes above.
abbrev pub size_of : Tree → ℕ
size_of leaf = 0
size_of (node l p b r) = size_of l + size_of r + 1

abbrev visits : Tree → ℕ
visits leaf = 0
visits (node l p b r) = visits l + visits r + 2

-- The nodes, each after those below it, put in front of a list one after the other.
abbrev pub flushed : Tree → List Ptr → List Ptr
flushed leaf xs = xs
flushed (node l p b r) xs = p ∷ flushed r (flushed l xs)

-- The same, if there is a destructor.
abbrev pub gone : Bool → Tree → List Ptr → List Ptr
gone true x xs = flushed x xs
gone false x xs = xs

gone-node :
    (h : Bool) (l r : Tree) (p : Ptr) (b : ℤ) (xs : List Ptr)
    → (if h then p ∷ gone h r (gone h l xs) else gone h r (gone h l xs)) ≡ gone h (node l p b r) xs
gone-node true l r p b xs = refl
gone-node false l r p b xs = refl

-- What is said of the nodes of `x`: they were handed to the destructor, and are not counted.
record Gone (t u : Avltree) (x : Tree) : Type 0 where
  has_destroy : u.has_destroy ≡ t.has_destroy
  destroyed : u.destroyed ≡ gone t.has_destroy x t.destroyed
  nodes : (m : ℕ) → t.nodes ≡ m + size_of x → m + size_of x < 2 ^ 64 → u.nodes ≡ m

-- The run up to the parent of the subtree.
record Emptied (t : Avltree) (c : Ctx) (x : Tree) (k : ℕ) (run : Outcome Avltree (Unit {0}))
    : Type 0 where
  after : Avltree
  ends : run ≡ above k c after
  holds : (parent_of c == null) ≡ false → Holds after c leaf
  gone_nodes : Gone t after x

abbrev Empties : Tree → Type 0
Empties x =
    (t : Avltree) (c : Ctx) (k fuel : ℕ)
    → IsNode x
    → fuel + 1 ≡ visits x + k
    → Holds t c x
    → Emptied t c x k (flush_from fuel (root_of x) t)

-- The run from a node through its left, or right, subtree and back.
record Passed (t : Avltree) (c : Ctx) (x y : Tree) (p : Ptr) (n : ℕ)
    (run : Outcome Avltree (Unit {0})) : Type 0 where
  after : Avltree
  ends : run ≡ flush_from n p after
  holds : Holds after c y
  gone_nodes : Gone t after x

Gone-leaf : (t : Avltree) → Gone t t leaf
Gone-leaf t = record {
  has_destroy = refl;
  destroyed = gone_leaf t.has_destroy t.destroyed;
  nodes = λ m e lt. omega arith;
}
  where
    gone_leaf : (h : Bool) (xs : List Ptr) → xs ≡ gone h leaf xs
    gone_leaf true xs = refl
    gone_leaf false xs = refl

pass_left :
    (l r : Tree) (p : Ptr) (b : ℤ) (t : Avltree) (c : Ctx) (n fuel : ℕ)
    → Empties l
    → fuel ≡ visits l + n
    → Holds t c (node l p b r)
    → Passed t c l (node leaf p b r) p n (flush_from fuel p t)
unfolding flush_from
pass_left leaf r p b t c n fuel ih e h =
    let e' : fuel ≡ n = omega arith in
    record { after = t; ends = ap (λ f. flush_from f p t) e'; holds = h; gone_nodes = Gone-leaf t }
pass_left (node l' q b' r') r p b t c n zero ih e h = absurd (omega arith)
pass_left (node l' q b' r') r p b t c n (suc fuel) ih e h =
    let s = h.shape.0 in
    let m = ne_null_of_alive t.live p s.is_alive in
    let m' = ne_null_of_alive t.live q h.shape.1.0.is_alive in
    let x = node l' q b' r' in
    let y = ih t (in_left c p b r) n fuel tt (omega arith) (Holds-left t c x r p b h) in
    record {
      after = y.after;
      ends = rw (m, s.is_alive, s.left, m') y.ends;
      holds = Holds-up_left y.after c leaf r p b (y.holds m);
      gone_nodes = y.gone_nodes;
    }

pass_right :
    (r : Tree) (p : Ptr) (b : ℤ) (t : Avltree) (c : Ctx) (n fuel : ℕ)
    → Empties r
    → fuel ≡ visits r + n
    → Holds t c (node leaf p b r)
    → Passed t c r (node leaf p b leaf) p n (flush_from fuel p t)
unfolding flush_from
pass_right leaf p b t c n fuel ih e h =
    let e' : fuel ≡ n = omega arith in
    record { after = t; ends = ap (λ f. flush_from f p t) e'; holds = h; gone_nodes = Gone-leaf t }
pass_right (node l' q b' r') p b t c n zero ih e h = absurd (omega arith)
pass_right (node l' q b' r') p b t c n (suc fuel) ih e h =
    let s = h.shape.0 in
    let m = ne_null_of_alive t.live p s.is_alive in
    let m' = ne_null_of_alive t.live q h.shape.2.0.is_alive in
    let x = node l' q b' r' in
    let y = ih t (in_right c leaf p b) n fuel tt (omega arith) (Holds-right t c leaf x p b h) in
    record {
      after = y.after;
      ends = rw (m, s.is_alive, s.left, s.is_alive, s.right, m') y.ends;
      holds = Holds-up_right y.after c leaf leaf p b (y.holds m);
      gone_nodes = y.gone_nodes;
    }

gone_step :
    (h h' h'' : Bool) (l r : Tree) (p : Ptr) (b : ℤ) (xs ys zs : List Ptr)
    → h' ≡ h
    → h'' ≡ h'
    → ys ≡ gone h l xs
    → zs ≡ gone h' r ys
    → (if h'' then p ∷ zs else zs) ≡ gone h (node l p b r) xs
gone_step h h' h'' l r p b xs ys zs e e' f f' = rw (e', e, f', e, f) (gone-node h l r p b xs)

Gone-node :
    (t u v : Avltree) (c : Ctx) (l r : Tree) (p : Ptr) (b : ℤ)
    → Gone t u l
    → Gone u v r
    → Gone t (cleared v c p) (node l p b r)
Gone-node t u v c l r p b g g' = record {
  has_destroy = g'.has_destroy ∙ g.has_destroy;
  destroyed =
      gone_step t.has_destroy u.has_destroy v.has_destroy l r p b t.destroyed u.destroyed
        v.destroyed g.has_destroy g'.has_destroy g.destroyed g'.destroyed;
  nodes = λ m e lt.
      let n = g.nodes (m + 1 + size_of r) (omega arith) (omega arith) in
      let n' = g'.nodes (m + 1) n (omega arith) in omega arith;
}

flush_from-Emptied : (x : Tree) → Empties x
flush_from-Emptied leaf t c k fuel i e h = elim i [ ]
flush_from-Emptied (node l p b r) t c k fuel i e h =
    let y = pass_left l r p b t c (visits r + suc k) fuel (flush_from-Emptied l) (omega arith) h in
    let z =
      pass_right r p b y.after c (suc k) (visits r + suc k) (flush_from-Emptied r) refl y.holds in
    record {
      after = cleared z.after c p;
      ends = y.ends ∙ z.ends ∙ flush_from-cleared z.after p k c b z.holds;
      holds = λ n. cleared-Holds z.after p c b n z.holds;
      gone_nodes = Gone-node t y.after z.after c l r p b y.gone_nodes z.gone_nodes;
    }

-- The call empties the tree, and hands every node to the destructor, if there is one, after the
-- nodes below it.
pub record Flushed (t : Avltree) (x : Tree) (u : Avltree) : Type 0 where
  pub root : u.root ≡ null
  pub nodes : u.nodes ≡ 0
  pub destroyed : u.destroyed ≡ gone t.has_destroy x t.destroyed

-- What follows the loop.
abbrev end : Cmd Avltree (Unit {0})
end = do set_root null; n ← size; assert (n == 0)

flush_end :
    (t : Avltree) (x : Tree) (u : Avltree)
    → Gone t u x
    → t.nodes ≡ size_of x
    → size_of x < 2 ^ 64
    → Returns (λ _ v. Flushed t x v) (end u)
unfolding size
flush_end t x u g e lt =
    let z = g.nodes 0 (omega arith) (omega arith) in
    rw z (record { root = refl; nodes = refl; destroyed = g.destroyed })

visits-size_of : (x : Tree) → visits x ≡ 2 * size_of x
visits-size_of leaf = omega arith
visits-size_of (node l p b r) = omega (arith, visits-size_of l, visits-size_of r)

flush_root :
    (t : Avltree) (x : Tree) (fuel : ℕ)
    → Holds t top x
    → t.nodes ≡ size_of x
    → size_of x < 2 ^ 64
    → 2 * size_of x < fuel
    → Returns (λ _ u. Flushed t x u) ((do flush_from fuel (root_of x); end) t)
unfolding flush_from
flush_root t x zero h e lt le = absurd (omega arith)
flush_root t leaf (suc fuel) h e lt le = flush_end t leaf t (Gone-leaf t) e lt
flush_root t (node l p b r) (suc fuel) h e lt le =
    let y =
      flush_from-Emptied (node l p b r) t top (fuel + 2 - visits (node l p b r)) (suc fuel) tt
        (omega (arith, visits-size_of (node l p b r))) h in
    subst (λ o. Returns (λ _ u. Flushed t (node l p b r) u) (and_then o (λ _. end))) (sym y.ends)
      (flush_end t (node l p b r) y.after y.gone_nodes e lt)

-- Let the memory hold a tree whose nodes are those that are counted, fewer than 2 ^ 64. For more
-- rounds than twice the nodes, `bs_avltree_flush` ends and its assertion holds. The tree is then
-- empty and counts no node, and the destructor, if there is one, was called once for every node and
-- for no other, for each after those below it.
pub flush-Flushed :
    (t : Avltree) (x : Tree) (fuel : ℕ)
    → Holds t top x
    → t.nodes ≡ size_of x
    → size_of x < 2 ^ 64
    → 2 * size_of x < fuel
    → Returns (λ _ u. Flushed t x u) (flush fuel t)
unfolding flush
flush-Flushed t x fuel h e lt le =
    subst (λ p. Returns (λ _ u. Flushed t x u) ((do flush_from fuel p; end) t)) (sym h.around)
      (flush_root t x fuel h e lt le)
