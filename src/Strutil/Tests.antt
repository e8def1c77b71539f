-- ===== src/Strutil/Tests.antt =====
-- Runs of the model of strutil.c, and instances of its theorems.
use libbase.Base.{ltb, true, take, if◌then◌else◌, ◌^◌, ◌-◌, length, ◌≡◌, refl, arith, some, [], ◌∷◌}
use libbase.Base.Int.{pos, negsuc}
use libbase.Memory.{Returns, pure, ◌>>◌}
use libbase.Text.{Text, isspace, isdigit, isalpha, starts_with}
use libbase.Strutil.{
  Vsnprintf, Formats, put_text, strappend, vstrappendf, strconvert_uint64, strconvert_int64,
  strtoull, strtoll, scan_number, skip_space, skip_sign, has_digit, has_0x, base_of, skip_0x,
  scan_digits, digit_value, ends_number, converted,
}
use libbase.Strutil.Append.{HoldsText, strappend-HoldsText, vstrappendf-strappend}

-- A buffer of five bytes that holds `ab`, and `cde`.
strappend-HoldsText_example :
    Returns
      (λ n u. (n ≡ 5) × (length u ≡ 5) × HoldsText u (97 ∷ 98 ∷ 99 ∷ 100 ∷ []))
      (strappend 5 2 (99 ∷ 100 ∷ 101 ∷ []) (97 ∷ 98 ∷ 0 ∷ 7 ∷ 7 ∷ []))
strappend-HoldsText_example =
    strappend-HoldsText (97 ∷ 98 ∷ 0 ∷ 7 ∷ 7 ∷ []) (97 ∷ 98 ∷ []) (99 ∷ 100 ∷ 101 ∷ [])
      (7 ∷ 7 ∷ [], refl) (omega arith)

-- Formatting of arguments that make a text, which fails where the length is no `int`.
abbrev print_text : Text → Vsnprintf
print_text text at n =
    if ltb (length text) (2 ^ 31)
    then put_text at (length (take (n - 1) text)) (take (n - 1) text) >> pure (pos (length text))
    else pure (negsuc 0)

print_text-Formats : (text : Text) → Formats (print_text text) text
print_text-Formats text at n buf low room short =
    let e : ltb (length text) (2 ^ 31) ≡ true = ground arith in rw e refl

vstrappendf-strappend_example :
    vstrappendf (print_text (99 ∷ 100 ∷ 101 ∷ [])) 5 2 (97 ∷ 98 ∷ 0 ∷ 7 ∷ 7 ∷ [])
    ≡ strappend 5 2 (99 ∷ 100 ∷ 101 ∷ []) (97 ∷ 98 ∷ 0 ∷ 7 ∷ 7 ∷ [])
vstrappendf-strappend_example =
    vstrappendf-strappend (print_text (99 ∷ 100 ∷ 101 ∷ [])) (97 ∷ 98 ∷ 0 ∷ 7 ∷ 7 ∷ [])
      (97 ∷ 98 ∷ []) (99 ∷ 100 ∷ 101 ∷ []) (print_text-Formats (99 ∷ 100 ∷ 101 ∷ []))
      (7 ∷ 7 ∷ [], refl) (omega arith) (omega arith) (omega arith)

-- A minus sign behind a blank is not detected, and no digits at all are 0.
blank_minus : strconvert_uint64 (32 ∷ 45 ∷ 49 ∷ []) 10 ≡ some (2 ^ 64 - 1)
unfolding strconvert_uint64 strtoull scan_number skip_space skip_sign has_digit base_of skip_0x
    scan_digits digit_value ends_number converted isspace isdigit isalpha starts_with
blank_minus = refl

empty_number : strconvert_uint64 [] 10 ≡ some 0
unfolding strconvert_uint64 strtoull scan_number skip_space skip_sign has_digit base_of skip_0x
    ends_number converted starts_with
empty_number = refl

hexadecimal : strconvert_int64 (45 ∷ 48 ∷ 120 ∷ 70 ∷ 102 ∷ 32 ∷ []) 0 ≡ some (negsuc 254)
unfolding strconvert_int64 strtoll scan_number skip_space skip_sign has_digit has_0x base_of skip_0x
    scan_digits digit_value ends_number converted isspace isdigit isalpha
hexadecimal = refl
