-- ===== src/Strutil/Convert.antt =====
-- `bs_strconvert_uint64` reads decimal numbers.
use libbase.Base.{
  ℕ, ◌+◌, ◌*◌, ◌^◌, ◌<◌, true, false, ◌≡◌, refl, arith, none, some, List, [], ◌∷◌, ltb, ◌==◌,
  if◌then◌else◌, Bool-cases, inl, inr,
}
use libbase.Text.{Text, isspace, isdigit, starts_with}
use libbase.Strutil.{
  digit_value, skip_space, skip_sign, has_digit, base_of, skip_0x, scan_digits, scan_number,
  strtoull, ends_number, converted, strconvert_uint64,
}

-- The text of decimal digits, and the number that they stand for.
abbrev pub decimal : List ℕ → Text
decimal [] = []
decimal (d ∷ ds) = (48 + d) ∷ decimal ds

abbrev pub number_from : ℕ → List ℕ → ℕ
number_from n [] = n
number_from n (d ∷ ds) = number_from (n * 10 + d) ds

abbrev pub AreDigits : List ℕ → Type 0
AreDigits [] = Unit
AreDigits (d ∷ ds) = (d < 10) × AreDigits ds

digit_value-decimal : (d : ℕ) → d < 10 → digit_value (48 + d) ≡ d
unfolding digit_value isdigit
digit_value-decimal d lt = ground arith

isspace-digit : (d : ℕ) → d < 10 → isspace (48 + d) ≡ false
unfolding isspace
isspace-digit d lt = ground arith

scan_digits-decimal :
    (n : ℕ) (ds : List ℕ) → AreDigits ds → scan_digits 10 n (decimal ds) ≡ (number_from n ds, [])
unfolding scan_digits
scan_digits-decimal n [] a = refl
scan_digits-decimal n (d ∷ ds) a =
    let e : ltb d 10 ≡ true = ground (arith, a.0) in
    rw (digit_value-decimal d a.0, e) (scan_digits-decimal (n * 10 + d) ds a.1)

scan_number-decimal :
    (d : ℕ) (ds : List ℕ)
    → AreDigits (d ∷ ds)
    → scan_number 10 (decimal (d ∷ ds)) ≡ some (false, number_from 0 (d ∷ ds), [])
unfolding scan_number skip_space skip_sign has_digit base_of skip_0x
scan_number-decimal d ds a =
    let w : isspace (48 + d) ≡ false = isspace-digit d a.0 in
    let m : (48 + d == 45) ≡ false = ground (arith, a.0) in
    let p : (48 + d == 43) ≡ false = ground (arith, a.0) in
    let e : ltb d 10 ≡ true = ground (arith, a.0) in
    rw (w, m, p, digit_value-decimal d a.0, e, scan_digits-decimal 0 (d ∷ ds) a) refl

-- `bs_strconvert_uint64` of one or more decimal digits, in base 10, returns the number that they
-- stand for if it is less than 2^64, and fails otherwise.
pub strconvert_uint64-decimal :
    (d : ℕ) (ds : List ℕ)
    → AreDigits (d ∷ ds)
    → strconvert_uint64 (decimal (d ∷ ds)) 10
      ≡ (if ltb (number_from 0 (d ∷ ds)) (2 ^ 64) then some (number_from 0 (d ∷ ds)) else none)
unfolding strconvert_uint64 strtoull converted ends_number starts_with
strconvert_uint64-decimal d ds a =
    let m : (48 + d == 45) ≡ false = ground (arith, a.0) in
    elim (Bool-cases (ltb (number_from 0 (d ∷ ds)) (2 ^ 64))) [
      | inl e ↦ rw (m, scan_number-decimal d ds a, e)
      | inr e ↦ rw (m, scan_number-decimal d ds a, e)
    ]
