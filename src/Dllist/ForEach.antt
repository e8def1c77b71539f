-- ===== src/Dllist/ForEach.antt =====
-- `bs_dllist_for_each` with a callback that takes the node off the list: the way to destroy one.
use libbase.Base.{
  ℕ, zero, suc, ◌<◌, List, [], ◌∷◌, ◌≡◌, refl, some, false, ◌∙◌, arith, length, ==_of_ne,
}
use libbase.Memory.{Ptr, null, Heap, ok, Returns, write_self, write_ne}
use libbase.Memory.Chain.{has, IsFresh, first_or}
use libbase.Dllist.{Node, node, Dllist, remove, for_each_from, for_each}
use libbase.Dllist.Seg.{Seg, start_at, IsList, of_list, eq_of_list, load-ok}
use libbase.Dllist.Push.{orphan}
use libbase.Dllist.Remove.{removed, remove-of_list, removed-IsList, start_at-outside}

-- Each of the nodes is a node of no list.
abbrev pub AreOrphans : Heap Node → List Ptr → Type 0
AreOrphans h [] = Unit
AreOrphans h (x ∷ xs) = (h x ≡ some orphan) × AreOrphans h xs

-- The memory after all nodes are taken off, first to last.
abbrev pub emptied : Heap Node → List Ptr → Heap Node
emptied h [] = h
emptied h (x ∷ xs) = emptied (removed h [] x xs) xs

for_each_from-of_list :
    (fuel inner : ℕ) (h : Heap Node) (xs : List Ptr)
    → IsFresh xs
    → Seg h null null xs
    → length xs < fuel
    → length xs < inner
    → for_each_from fuel (remove inner) (first_or null xs) (of_list h xs)
      ≡ ok tt (of_list (emptied h xs) [])
unfolding for_each_from
for_each_from-of_list zero inner h xs f s lt lti = elim lt [ ]
for_each_from-of_list (suc fuel) inner h [] f s lt lti = refl
for_each_from-of_list (suc fuel) inner h (x ∷ xs) f s lt lti =
    let is = removed-IsList h x [] xs f s in
    rw
      (
        ==_of_ne x null f.0,
        load-ok (of_list h (x ∷ xs)) x (node null (first_or null xs)) f.0 s.0,
        remove-of_list h x [] xs f s inner lti,
      )
      (for_each_from-of_list fuel inner (removed h [] x xs) xs is.fresh is.links (omega arith)
        (omega arith))

emptied-outside :
    (h : Heap Node) (a : Ptr) (xs : List Ptr) → has a xs ≡ false → emptied h xs a ≡ h a
emptied-outside h a [] out = refl
emptied-outside h a (x ∷ xs) out =
    emptied-outside (removed h [] x xs) a xs (ground arith)
    ∙ write_ne (start_at h null null xs) x a orphan (ground arith)
    ∙ start_at-outside h null a xs (ground arith)

emptied-AreOrphans : (h : Heap Node) (xs : List Ptr) → IsFresh xs → AreOrphans (emptied h xs) xs
emptied-AreOrphans h [] f = tt
emptied-AreOrphans h (x ∷ xs) f = (
  emptied-outside (removed h [] x xs) x xs f.1 ∙ write_self (start_at h null null xs) x orphan,
  emptied-AreOrphans (removed h [] x xs) xs f.2,
)

-- `bs_dllist_for_each` whose callback removes the node that it is called with visits every node: the
-- list ends empty, and each of its nodes is a node of no list.
pub for_each-remove :
    (d : Dllist) (xs : List Ptr) (fuel inner : ℕ)
    → IsList d xs
    → length xs < fuel
    → length xs < inner
    → Returns (λ _ d'. IsList d' [] × AreOrphans d'.nodes xs) (for_each fuel (remove inner) d)
unfolding for_each
for_each-remove d xs fuel inner is lt lti =
    rw (eq_of_list d xs is, for_each_from-of_list fuel inner d.nodes xs is.fresh is.links lt lti)
      (
        record { fresh = tt; links = tt; head = refl; tail = refl },
        emptied-AreOrphans d.nodes xs is.fresh,
      )
