-- ===== src/Memory.antt =====
-- Pointers, memory and runs of C code that may abort, fault or loop. A pointer is a number and NULL
-- is 0. `BS_ASSERT` (assert.h) is `assert`: a failed one ends the run.
pub mod Chain
use mathlib.Core.Path.{fun_ext}
use libbase.Base.{ℕ, Bool, true, false, Option, none, some, ◌==◌, if◌then◌else◌, ◌≡◌, arith}

abbrev pub Ptr : Type 0
Ptr = ℕ

abbrev pub null : Ptr
null = 0

-- How a run ends: with a result and the new state, in a failed `BS_ASSERT`, in a read or a write
-- through a pointer that points to nothing, or short of the rounds that its loops were given.
pub data Outcome (S A : Type 0) : Type 0 where
  ok : A → S → Outcome S A
  abort : Outcome S A
  fault : Outcome S A
  out_of_fuel : Outcome S A

abbrev pub Cmd : Type 0 → Type 0 → Type 0
Cmd S A = S → Outcome S A

module _ {S : Type 0} where
  abbrev pub pure : {A : Type 0} → A → Cmd S A
  pure a = λ s. ok a s

  abbrev pub and_then : {A B : Type 0} → Outcome S A → (A → Cmd S B) → Outcome S B
  and_then (ok a s) k = k a s
  and_then abort k = abort
  and_then fault k = fault
  and_then out_of_fuel k = out_of_fuel

  infixl 5 ◌>>=◌ ◌>>◌
  abbrev pub ◌>>=◌ : {A B : Type 0} → Cmd S A → (A → Cmd S B) → Cmd S B
  m >>= k = λ s. and_then (m s) k

  abbrev pub ◌>>◌ : {B : Type 0} → Cmd S (Unit {0}) → Cmd S B → Cmd S B
  m >> n = m >>= λ _. n

  -- `BS_ASSERT(b)`
  abbrev pub assert : Bool → Cmd S (Unit {0})
  assert b = λ s. if b then ok tt s else abort

abbrev pub when : {S : Type 0} → Bool → Cmd S (Unit {0}) → Cmd S (Unit {0})
when b m = if b then m else pure tt

abbrev pub Heap : Type 0 → Type 0
Heap N = Ptr → Option N

unfoldable pub write : {N : Type 0} → Heap N → Ptr → N → Heap N
write h p n = λ q. if q == p then some n else h q

pub write_self : {N : Type 0} (h : Heap N) (p : Ptr) (n : N) → write h p n p ≡ some n
unfolding write
write_self h p n = ground arith

pub write_ne :
    {N : Type 0} (h : Heap N) (p q : Ptr) (n : N) → (q == p) ≡ false → write h p n q ≡ h q
unfolding write
write_ne h p q n e = rw e

pub write-write :
    {N : Type 0} (h : Heap N) (p : Ptr) (m n : N) → write (write h p m) p n ≡ write h p n
unfolding write
write-write h p m n = fun_ext λ q. ground arith

-- A map from addresses, changed at one.
unfoldable pub update : {V : Type 0} → (Ptr → V) → Ptr → V → Ptr → V
update f p v q = if q == p then v else f q

pub update_self : {V : Type 0} (f : Ptr → V) (p : Ptr) (v : V) → update f p v p ≡ v
unfolding update
update_self f p v = ground arith

pub update_ne :
    {V : Type 0} (f : Ptr → V) (p : Ptr) (v : V) (q : Ptr) → (q == p) ≡ false → update f p v q ≡ f q
unfolding update
update_ne f p v q e = rw e

-- The run ends with a result, in a state that `P` describes: no abort, no fault, enough fuel.
abbrev pub Returns : {S A : Type 0} → (A → S → Type 0) → Outcome S A → Type 0
Returns P (ok a s) = P a s
Returns P abort = ⊥
Returns P fault = ⊥
Returns P out_of_fuel = ⊥

-- A run that returns goes on with what it returned.
pub Returns-and_then :
    {S A B : Type 0} {P : A → S → Type 0} (Q : B → S → Type 0) (o : Outcome S A) (k : A → Cmd S B)
    → Returns P o
    → ((a : A) (s : S) → P a s → Returns Q (k a s))
    → Returns Q (and_then o k)
Returns-and_then Q (ok a s) k r next = next a s r
Returns-and_then Q abort k r next = elim r [ ]
Returns-and_then Q fault k r next = elim r [ ]
Returns-and_then Q out_of_fuel k r next = elim r [ ]

pub Returns-weaken :
    {S A : Type 0} {P : A → S → Type 0} (Q : A → S → Type 0) (o : Outcome S A)
    → ((a : A) (s : S) → P a s → Q a s)
    → Returns P o
    → Returns Q o
Returns-weaken Q (ok a s) f r = f a s r
Returns-weaken Q abort f r = r
Returns-weaken Q fault f r = r
Returns-weaken Q out_of_fuel f r = r
