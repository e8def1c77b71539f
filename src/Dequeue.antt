-- ===== src/Dequeue.antt =====
-- dequeue.h: a queue of nodes linked by `next_ptr`, with a pointer to its head and to its tail.
pub mod Chain
pub mod Push
mod Tests
pub mod Refine
pub mod Pop
use libbase.Base.{none, some, ◌==◌, if◌then◌else◌}
use libbase.Memory.{Ptr, null, Heap, write, ok, fault, Cmd, pure, ◌>>=◌, ◌>>◌, assert}

-- `bs_dequeue_t`, with the memory that holds the nodes: a node (`bs_dequeue_node_t`) is its
-- `next_ptr`.
pub record Dequeue : Type 0 where
  pub head : Ptr
  pub tail : Ptr
  pub nodes : Heap Ptr

-- `p->next_ptr`
unfoldable pub load_next : Ptr → Cmd Dequeue Ptr
load_next p q = if p == null then fault else elim (q.nodes p) [ none ↦ fault | some n ↦ ok n q ]

-- `p->next_ptr = n`
unfoldable pub set_next : Ptr → Ptr → Cmd Dequeue (Unit {0})
set_next p n = do _ ← load_next p; λ q. ok tt (record q { nodes = write q.nodes p n })

abbrev get_head : Cmd Dequeue Ptr
get_head q = ok q.head q

abbrev get_tail : Cmd Dequeue Ptr
get_tail q = ok q.tail q

abbrev set_head : Ptr → Cmd Dequeue (Unit {0})
set_head p q = ok tt (record q { head = p })

abbrev set_tail : Ptr → Cmd Dequeue (Unit {0})
set_tail p q = ok tt (record q { tail = p })

unfoldable pub push_front : Ptr → Cmd Dequeue (Unit {0})
push_front node = do
  head ← get_head
  set_next node head
  set_head node
  tail ← get_tail
  if tail == null then (do next ← load_next node; assert (next == null); set_tail node) else pure tt

unfoldable pub push_back : Ptr → Cmd Dequeue (Unit {0})
push_back node = do
  set_next node null
  tail ← get_tail
  if tail == null
      then (do head ← get_head; assert (head == null); set_head node)
      else (do next ← load_next tail; assert (next == null); set_next tail node)
  set_tail node

unfoldable pub pop : Cmd Dequeue Ptr
pop = do
  node ← get_head
  if node == null then (do tail ← get_tail; assert (tail == null)) else do
    next ← load_next node
    set_head next
    tail ← get_tail
    if tail == node then (do head ← get_head; assert (head == null); set_tail null) else pure tt
    set_next node null
  pure node
