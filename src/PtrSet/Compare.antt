-- ===== src/PtrSet/Compare.antt =====
-- The comparison of elements, where their differences fit an `int`.
use libbase.Base.{ℕ, ◌+◌, ◌-◌, ◌%◌, ◌^◌, ◌≤◌, ◌<◌, ◌≡◌, arith, ltb, Bool-cases, inl, inr, ◌==◌}
use libbase.Base.Int.{pos, negsuc, ltb_ℤ, is_zero, int32}
use libbase.Memory.{Ptr}
use libbase.PtrSet.{elem_compare}

-- The element is one of the 2 ^ 31 from `lo` on.
abbrev pub IsNear : ℕ → ℕ → Type 0
IsNear lo e = (lo ≤ e) × (e < lo + 2 ^ 31) × (e < 2 ^ 64)

module _ (elem : Ptr → ℕ) (lo e : ℕ) (p : Ptr) (ne : IsNear lo e) (np : IsNear lo (elem p)) where
  wrapped-ge : elem p ≤ e → elem_compare elem p e ≡ pos (e - elem p)
  unfolding elem_compare int32
  wrapped-ge le =
      let k : (e + (2 ^ 64 - elem p)) % 2 ^ 64 ≡ e - elem p = omega arith in
      let k' : (e - elem p) % 4294967296 ≡ e - elem p = omega arith in rw (k, k') (ground arith)

  wrapped-lt : e < elem p → elem_compare elem p e ≡ negsuc (elem p - e - 1)
  unfolding elem_compare int32
  wrapped-lt lt =
      let k : (e + (2 ^ 64 - elem p)) % 2 ^ 64 ≡ 2 ^ 64 - (elem p - e) = omega arith in
      let k' : (2 ^ 64 - (elem p - e)) % 4294967296 ≡ 4294967296 - (elem p - e) = omega arith in
      rw (k, k') (ground arith)

  pub is_zero-elem_compare : is_zero (elem_compare elem p e) ≡ (e == elem p)
  unfolding is_zero
  is_zero-elem_compare = elim (Bool-cases (ltb e (elem p))) [
    | inl h ↦ rw (wrapped-lt (ground arith)) (ground arith)
    | inr h ↦ rw (wrapped-ge (ground arith)) (ground arith)
  ]

  pub negative-elem_compare : ltb_ℤ (elem_compare elem p e) (pos 0) ≡ ltb e (elem p)
  unfolding ltb_ℤ
  negative-elem_compare = elim (Bool-cases (ltb e (elem p))) [
    | inl h ↦ rw (wrapped-lt (ground arith), h) (ground arith)
    | inr h ↦ rw (wrapped-ge (ground arith), h) (ground arith)
  ]

  pub positive-elem_compare : ltb_ℤ (pos 0) (elem_compare elem p e) ≡ ltb (elem p) e
  unfolding ltb_ℤ
  positive-elem_compare = elim (Bool-cases (ltb e (elem p))) [
    | inl h ↦ rw (wrapped-lt (ground arith)) (ground arith)
    | inr h ↦ rw (wrapped-ge (ground arith)) (ground arith)
  ]
