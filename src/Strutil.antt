-- ===== src/Strutil.antt =====
-- strutil.h and strutil.c. What `strtoull` and `strtoll` do is modelled; `vsnprintf` and `strtod`
-- are parameters.
pub mod Append
pub mod Convert
mod Tests
use libbase.Base.{
  ℕ, zero, suc, ◌+◌, ◌-◌, ◌*◌, ◌%◌, ◌^◌, ◌≡◌, ◌≤◌, ◌<◌, Bool, true, false, not, ◌&&◌, ◌||◌, Option,
  none, some, List, [], ◌∷◌, ◌++◌, length, take, drop, ltb, leb, ◌==◌, if◌then◌else◌,
}
use libbase.Base.Int.{ℤ, pos, negsuc}
use libbase.Memory.{ok, fault, Cmd, pure, ◌>>=◌, ◌>>◌}
use libbase.Text.{Text, starts_with, isspace, isdigit, isalpha}

-- `size_t` wraps around.
abbrev pub size_t : ℕ → ℕ
size_t n = n % 2 ^ 64

-- The state of the functions that append is the buffer. `memmove(buf + at, bytes, length)`.
unfoldable pub memmove : ℕ → List ℕ → Cmd (List ℕ) (Unit {0})
memmove at bytes = λ buf.
    if leb (at + length bytes) (length buf)
    then ok tt (take at buf ++ bytes ++ drop (at + length bytes) buf)
    else fault

-- `len` characters of a string, and a NUL behind them.
unfoldable pub put_text : ℕ → ℕ → Text → Cmd (List ℕ) (Unit {0})
put_text at len str = do memmove at (take len str); memmove (at + len) (0 ∷ [])

unfoldable pub strappend : ℕ → ℕ → Text → Cmd (List ℕ) ℕ
strappend buf_size buf_pos str = if leb buf_size buf_pos then pure buf_size else do
  let len =
      if leb buf_size (size_t (buf_pos + length str + 1))
      then buf_size - buf_pos - 1
      else length str
  put_text buf_pos len str
  pure (size_t (buf_pos + length str))

-- `vsnprintf(&buf[at], n, ...)` of a format and its arguments. The result is an `int`, which is
-- negative for an error.
abbrev pub Vsnprintf : Type 0
Vsnprintf = ℕ → ℕ → Cmd (List ℕ) ℤ

-- What POSIX says of `vsnprintf` of a format and arguments that make a text: where neither the text
-- nor the room is larger than INT_MAX, as much of the text as fits is written with a NUL behind it,
-- and the length of the whole text is returned.
abbrev pub Formats : Vsnprintf → Text → Type 0
Formats vsnprintf text =
    (at n : ℕ) (buf : List ℕ)
    → 1 ≤ n
    → n < 2 ^ 31
    → length text < 2 ^ 31
    → vsnprintf at n buf
      ≡ (put_text at (length (take (n - 1) text)) (take (n - 1) text) >> pure (pos (length text)))
          buf

-- `BS_MAX(0, rv)`
abbrev pub max_0 : ℤ → ℕ
max_0 (pos n) = n
max_0 (negsuc n) = 0

unfoldable pub vstrappendf : Vsnprintf → ℕ → ℕ → Cmd (List ℕ) ℕ
vstrappendf vsnprintf buf_size buf_pos =
    if leb buf_size buf_pos
    then pure buf_pos
    else do rv ← vsnprintf buf_pos (buf_size - buf_pos); pure (size_t (buf_pos + max_0 rv))

unfoldable pub strappendf : Vsnprintf → ℕ → ℕ → Cmd (List ℕ) ℕ
strappendf vsnprintf buf_size buf_pos = vstrappendf vsnprintf buf_size buf_pos

-- The value of a digit in bases up to 36, and 36 for what is none.
unfoldable pub digit_value : ℕ → ℕ
digit_value c =
    if isdigit c then c - 48 else if isalpha c then (if leb c 90 then c - 55 else c - 87) else 36

unfoldable pub skip_space : Text → Text
skip_space [] = []
skip_space (c ∷ s) = if isspace c then skip_space s else c ∷ s

-- Whether there is a minus sign, and what is behind the sign.
unfoldable pub skip_sign : Text → Bool × Text
skip_sign [] = (false, [])
skip_sign (c ∷ s) = if c == 45 then (true, s) else if c == 43 then (false, s) else (false, c ∷ s)

unfoldable pub has_digit : ℕ → Text → Bool
has_digit base [] = false
has_digit base (c ∷ s) = ltb (digit_value c) base

-- `0x` with a digit behind it.
unfoldable pub has_0x : Text → Bool
has_0x (c ∷ x ∷ s) = c == 48 && (x == 120 || x == 88) && has_digit 16 s
has_0x s = false

-- The base that is meant by 0.
unfoldable pub base_of : ℕ → Text → ℕ
base_of zero s = if has_0x s then 16 else if starts_with (48 ∷ []) s then 8 else 10
base_of (suc base) s = suc base

unfoldable pub skip_0x : ℕ → Text → Text
skip_0x base s = if base == 16 && has_0x s then drop 2 s else s

-- The number that the digits of the text stand for, and what is behind them.
unfoldable pub scan_digits : ℕ → ℕ → Text → ℕ × Text
scan_digits base n [] = (n, [])
scan_digits base n (c ∷ s) =
    let rest = scan_digits base (n * base + digit_value c) s in
    if ltb (digit_value c) base then rest else (n, c ∷ s)

-- The magnitude and sign that `strtoull` and `strtoll` read, and what is behind it: the whole string
-- if it does not start with a number. Nothing for a base that is none.
unfoldable pub scan_number : ℕ → Text → Option (Bool × ℕ × Text)
scan_number base s =
    let signed = skip_sign (skip_space s) in
    let base' = base_of base signed.1 in
    let digits = skip_0x base' signed.1 in
    let scanned = scan_digits base' 0 digits in
    if base == 1 || ltb 36 base
    then none
    else if has_digit base' digits
    then some (signed.0, scanned.0, scanned.1)
    else some (false, 0, s)

-- What the two functions make of it: the value and the rest, or nothing if `errno` is set.
abbrev pub as_unsigned : Option (Bool × ℕ × Text) → Option (ℕ × Text)
as_unsigned none = none
as_unsigned (some (negative, n, rest)) =
    if ltb n (2 ^ 64) then some ((if negative then (2 ^ 64 - n) % 2 ^ 64 else n), rest) else none

abbrev pub as_signed : Option (Bool × ℕ × Text) → Option (ℤ × Text)
as_signed none = none
as_signed (some (negative, n, rest)) =
    if negative
    then (if leb n (2 ^ 63) then some ((if n == 0 then pos 0 else negsuc (n - 1)), rest) else none)
    else if ltb n (2 ^ 63)
    then some (pos n, rest)
    else none

unfoldable pub strtoull : ℕ → Text → Option (ℕ × Text)
strtoull base s = as_unsigned (scan_number base s)

unfoldable pub strtoll : ℕ → Text → Option (ℤ × Text)
strtoll base s = as_signed (scan_number base s)

-- `'\0' != *invalid_ptr && !isspace(*invalid_ptr)` is false.
unfoldable pub ends_number : Text → Bool
ends_number [] = true
ends_number (c ∷ s) = isspace c

-- What follows the conversion in each of the three functions: the value, or nothing on failure.
unfoldable pub converted {ℓ} : {V : Type ℓ} → Option (V × Text) → Option V
converted none = none
converted (some (value, rest)) = if ends_number rest then some value else none

unfoldable pub strconvert_uint64 : Text → ℕ → Option ℕ
strconvert_uint64 s base = if starts_with (45 ∷ []) s then none else converted (strtoull base s)

unfoldable pub strconvert_int64 : Text → ℕ → Option ℤ
strconvert_int64 s base = converted (strtoll base s)

unfoldable pub strconvert_double {ℓ} : {D : Type ℓ} → (Text → Option (D × Text)) → Text → Option D
strconvert_double strtod s = converted (strtod s)

-- `bs_str_startswith(string_ptr, prefix_ptr)`
unfoldable pub startswith : Text → Text → Bool
startswith s prefix = starts_with prefix s
