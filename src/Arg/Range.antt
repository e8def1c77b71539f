-- ===== src/Arg/Range.antt =====
-- `parse_uint32` of arg.c.
use libbase.Base.{
  ℕ, ◌-◌, ◌%◌, ◌^◌, ◌≤◌, ◌<◌, true, ◌≡◌, refl, arith, Option, none, some, ltb, leb, Bool-cases, inl,
  inr,
}
use libbase.Memory.{Returns}
use libbase.Text.{Text}
use libbase.Strutil.{strconvert_uint64}
use libbase.Arg.{Value, a_bool, an_int, a_string, a_uint32, Vars, in_range, parse_uint32}

-- What is to be stored, if anything is, is a number of the range.
abbrev pub IsWithin : ℕ → ℕ → Option Value → Type 0
IsWithin low high none = Unit
IsWithin low high (some (a_uint32 n)) = (low ≤ n) × (n ≤ high)
IsWithin low high (some (a_bool b)) = ⊥
IsWithin low high (some (an_int n)) = ⊥
IsWithin low high (some (a_string s)) = ⊥

in_range-IsWithin :
    (low high : ℕ) (n : Option ℕ) (m : Vars)
    → high < 2 ^ 32
    → Returns (λ r u. (u ≡ m) × IsWithin low high r) (in_range low high n m)
in_range-IsWithin low high none m lt = (refl, tt)
in_range-IsWithin low high (some n) m lt = elim (Bool-cases (ltb n low)) [
  | inl e ↦ rw e (refl, tt)
  | inr e ↦ elim (Bool-cases (ltb high n)) [
    | inl f ↦ rw (e, f) (refl, tt)
    | inr f ↦
        let g : leb n (2 ^ 32 - 1) ≡ true = ground arith in
        let h : n % 2 ^ 32 ≡ n = ground arith in
        rw (e, f, g, h) (refl, (ground arith, ground arith))
  ]
]

-- `parse_uint32` of any string, with a maximum that is a `uint32_t`, does not fail its assertion, and
-- the number that it stores, if it stores one, is from the minimum to the maximum.
pub parse_uint32-IsWithin :
    (low high : ℕ) (s : Text) (m : Vars)
    → high < 2 ^ 32
    → Returns (λ r u. (u ≡ m) × IsWithin low high r) (parse_uint32 low high s m)
unfolding parse_uint32
parse_uint32-IsWithin low high s m lt = in_range-IsWithin low high (strconvert_uint64 s 10) m lt
