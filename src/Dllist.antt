-- ===== src/Dllist.antt =====
-- dllist.h and dllist.c: a doubly-linked list of nodes with a pointer to its head and to its tail.
-- A loop runs on fuel: one round for each node that it visits, and one to see the end.
pub mod Seg
pub mod Find
pub mod Push
mod Tests
pub mod Remove
pub mod ForEach
pub mod Insert
pub mod Pop
use libbase.Base.{
  ℕ, zero, suc, ◌+◌, Bool, true, false, not, ◌&&◌, ◌||◌, none, some, ◌==◌, if◌then◌else◌,
}
use libbase.Memory.{Ptr, null, Heap, write, ok, fault, out_of_fuel, Cmd, pure, ◌>>=◌, ◌>>◌, assert}

-- `bs_dllist_node_t`
pub record Node : Type 0 where
  pub prev : Ptr
  pub next : Ptr

abbrev pub node : Ptr → Ptr → Node
node p n = record { prev = p; next = n }

-- `bs_dllist_t`, with the memory that holds the nodes.
pub record Dllist : Type 0 where
  pub head : Ptr
  pub tail : Ptr
  pub nodes : Heap Node

-- A read of the node that `p` points to.
unfoldable pub load : Ptr → Cmd Dllist Node
load p d = if p == null then fault else elim (d.nodes p) [ none ↦ fault | some n ↦ ok n d ]

abbrev store : Ptr → Node → Cmd Dllist (Unit {0})
store p n = λ d. ok tt (record d { nodes = write d.nodes p n })

-- `p->prev_ptr = v` and `p->next_ptr = v`
unfoldable pub set_prev : Ptr → Ptr → Cmd Dllist (Unit {0})
set_prev p v = do n ← load p; store p (record n { prev = v })

unfoldable pub set_next : Ptr → Ptr → Cmd Dllist (Unit {0})
set_next p v = do n ← load p; store p (record n { next = v })

abbrev get_head : Cmd Dllist Ptr
get_head d = ok d.head d

abbrev get_tail : Cmd Dllist Ptr
get_tail d = ok d.tail d

abbrev set_head : Ptr → Cmd Dllist (Unit {0})
set_head p d = ok tt (record d { head = p })

abbrev set_tail : Ptr → Cmd Dllist (Unit {0})
set_tail p d = ok tt (record d { tail = p })

size_from : ℕ → Ptr → ℕ → Cmd Dllist ℕ
size_from zero p count = λ d. out_of_fuel
size_from (suc fuel) p count =
    if p == null then pure count else do n ← load p; size_from fuel n.next (count + 1)

-- `size_t` counts nodes in memory, so it cannot wrap.
unfoldable pub size : ℕ → Cmd Dllist ℕ
unfolding size_from
size fuel = do head ← get_head; size_from fuel head 0

unfoldable pub empty : Cmd Dllist Bool
empty = do head ← get_head; pure (head == null)

unfoldable pub push_back : Ptr → Cmd Dllist (Unit {0})
push_back p = do
  n ← load p
  assert (n.prev == null)
  assert (n.next == null)
  tail ← get_tail
  if tail == null then (do head ← get_head; assert (head == null); set_head p; set_tail p) else do
    head ← get_head
    assert (not (head == null))
    last ← load tail
    assert (last.next == null)
    set_prev p tail
    set_next tail p
    set_tail p

unfoldable pub push_front : Ptr → Cmd Dllist (Unit {0})
push_front p = do
  n ← load p
  assert (n.prev == null)
  assert (n.next == null)
  head ← get_head
  if head == null then (do assert (head == null); set_head p; set_tail p) else do
    tail ← get_tail
    assert (not (tail == null))
    first ← load head
    assert (first.prev == null)
    set_next p head
    set_prev head p
    set_head p

unfoldable pub pop_back : Cmd Dllist Ptr
pop_back = do
  p ← get_tail
  head ← get_head
  if p == null then (do assert (head == null); pure null) else do
    assert (not (head == null))
    n ← load p
    set_tail n.prev
    tail ← get_tail
    if tail == null then (do assert (head == p); set_head null) else set_next tail null
    set_prev p null
    pure p

unfoldable pub pop_front : Cmd Dllist Ptr
pop_front = do
  p ← get_head
  tail ← get_tail
  if p == null then (do assert (tail == null); pure null) else do
    assert (not (tail == null))
    n ← load p
    set_head n.next
    head ← get_head
    if head == null then (do assert (tail == p); set_tail null) else set_prev head null
    set_next p null
    pure p

unfoldable pub find_from : ℕ → (Ptr → Cmd Dllist Bool) → Ptr → Cmd Dllist Ptr
find_from zero func p = λ d. out_of_fuel
find_from (suc fuel) func p =
    if p == null
    then pure null
    else do found ← func p; if found then pure p else do n ← load p; find_from fuel func n.next

unfoldable pub find : ℕ → (Ptr → Cmd Dllist Bool) → Cmd Dllist Ptr
find fuel func = do head ← get_head; find_from fuel func head

find_is : Ptr → Ptr → Cmd Dllist Bool
find_is ud p = pure (p == ud)

unfoldable pub contains : ℕ → Ptr → Cmd Dllist Bool
unfolding find_is
contains fuel p = do found ← find fuel (find_is p); pure (found == p)

-- The two halves of `bs_dllist_remove`: what leads to `p` from the left and from the right is made
-- to lead past it.
unfoldable pub unlink_left : Ptr → Cmd Dllist (Unit {0})
unlink_left p = do
  n ← load p
  if n.prev == null
      then (do head ← get_head; assert (head == p); set_head n.next)
      else set_next n.prev n.next

unfoldable pub unlink_right : Ptr → Cmd Dllist (Unit {0})
unlink_right p = do
  n ← load p
  if n.next == null
      then (do tail ← get_tail; assert (tail == p); set_tail n.prev)
      else set_prev n.next n.prev

unfoldable pub remove : ℕ → Ptr → Cmd Dllist (Unit {0})
remove fuel p = do
  present ← contains fuel p
  assert present
  unlink_left p
  unlink_right p
  set_prev p null
  set_next p null

node_orphaned : Ptr → Cmd Dllist Bool
node_orphaned p = do n ← load p; pure (n.prev == null && n.next == null)

unfoldable pub insert_node_before : ℕ → Ptr → Ptr → Cmd Dllist (Unit {0})
unfolding node_orphaned
insert_node_before fuel reference p = do
  present ← contains fuel reference
  assert present
  orphaned ← node_orphaned p
  assert orphaned
  r ← load reference
  if r.prev == null then push_front p else do
    set_next r.prev p
    s ← load reference
    set_prev p s.prev
    set_prev reference p
    set_next p reference

unfoldable pub for_each_from : ℕ → (Ptr → Cmd Dllist (Unit {0})) → Ptr → Cmd Dllist (Unit {0})
for_each_from zero func p = λ d. out_of_fuel
for_each_from (suc fuel) func p =
    if p == null then pure tt else do n ← load p; func p; for_each_from fuel func n.next

unfoldable pub for_each : ℕ → (Ptr → Cmd Dllist (Unit {0})) → Cmd Dllist (Unit {0})
for_each fuel func = do head ← get_head; for_each_from fuel func head

consistent_from : ℕ → Ptr → Cmd Dllist (Unit {0})
consistent_from zero p = λ d. out_of_fuel
consistent_from (suc fuel) p = if p == null then pure tt else do
  n ← load p
  if n.next == null
      then (do tail ← get_tail; assert (p == tail))
      else do m ← load n.next; assert (p == m.prev)
  consistent_from fuel n.next

unfoldable pub assert_consistency : ℕ → Cmd Dllist (Unit {0})
unfolding consistent_from
assert_consistency fuel = do
  head ← get_head
  tail ← get_tail
  if head == null || tail == null then (do assert (head == null); assert (tail == null)) else do
    first ← load head
    assert (first.prev == null)
    last ← load tail
    assert (last.next == null)
    consistent_from fuel head
