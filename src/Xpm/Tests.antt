-- ===== src/Xpm/Tests.antt =====
-- Runs of the model of gfxbuf_xpm.c, and an instance of its theorem.
use libbase.Base.{
  ℕ, zero, suc, ◌+◌, ◌*◌, ◌<◌, true, ◌≡◌, refl, arith, Option, some, List, [], ◌∷◌, drop,
}
use libbase.Memory.{fault, Returns}
use libbase.Text.{Text, eq_text, starts_with, isspace, isdigit, isalpha, isalnum}
use libbase.Strutil.{
  skip_space, skip_sign, has_digit, has_0x, base_of, skip_0x, scan_digits, scan_number, strtoull,
  ends_number, converted, digit_value, strconvert_uint64,
}
use libbase.Gfxbuf.{Pixels, Gfxbuf, pixel_ptr, uint32}
use libbase.Gfxbuf.Area.{HoldsArea}
use libbase.Xpm.{
  Color, loaded, parse_color, lookup_color, parse_colors, copy_data, put_lines, put_line,
}
use libbase.Xpm.Line.{shown}
use libbase.Xpm.Rows.{AreKnown, copy_data-HoldsArea}

-- `. c #0000ff` and `  c None`
abbrev blue_line : Text
blue_line = 46 ∷ 32 ∷ 99 ∷ 32 ∷ 35 ∷ 48 ∷ 48 ∷ 48 ∷ 48 ∷ 102 ∷ 102 ∷ []

abbrev none_line : Text
none_line = 32 ∷ 32 ∷ 99 ∷ 32 ∷ 78 ∷ 111 ∷ 110 ∷ 101 ∷ []

abbrev blue_and_none : List Color
blue_and_none =
    record { pixel_chars = 32 ∷ []; color = 0 }
    ∷ record { pixel_chars = 46 ∷ []; color = 4278190335 }
    ∷ []

-- Two lines of two pixels: blue and transparent, transparent and blue.
abbrev pixel_lines : List Text
pixel_lines = (46 ∷ 32 ∷ []) ∷ (32 ∷ 46 ∷ []) ∷ []

colors_parsed :
    parse_colors 1 2 (blue_line ∷ none_line ∷ pixel_lines) [] ≡ loaded blue_and_none pixel_lines
unfolding parse_colors parse_color lookup_color eq_text starts_with isspace isdigit isalpha isalnum
    skip_space skip_sign has_digit has_0x base_of skip_0x scan_digits scan_number strtoull
    ends_number converted digit_value strconvert_uint64
colors_parsed = refl

abbrev two_by_two : Gfxbuf
two_by_two = record { width = 2; height = 2; pixels_per_line = 2; data_ptr = 1 }

abbrev ones : Pixels
ones q = some 1

abbrev header : Text → Option (ℕ × ℕ × ℕ × ℕ)
header line = some (2, 2, 2, 1)

abbrev checkered : ℕ → ℕ → ℕ
checkered zero zero = 4278190335
checkered zero (suc j) = 0
checkered (suc i) zero = 0
checkered (suc i) (suc j) = 4278190335

first_pixel :
    (line : Text) (y : ℕ)
    → lookup_color 1 blue_and_none line ≡ some (checkered 0 y)
    → (i : ℕ) → i < 1
    → lookup_color 1 blue_and_none (drop (uint32 (i * 1)) line) ≡ some (checkered i y)
first_pixel line y e zero lt = e
first_pixel line y e (suc i) lt = let no : ⊥ = omega arith in elim no [ ]

-- At the point (1, 0) just the first column is in the buffer.
first_column : AreKnown 1 blue_and_none 1 checkered pixel_lines 0 2
unfolding lookup_color eq_text
first_column = (
  omega arith,
  first_pixel (46 ∷ 32 ∷ []) 0 refl,
  (omega arith, first_pixel (32 ∷ 46 ∷ []) 1 refl, tt),
)

copy_data-HoldsArea_example :
    Returns
      (λ r m'.
        (r ≡ true)
        × HoldsArea two_by_two 1 0 1 2
            (λ i j. shown (checkered i j) (ones (pixel_ptr two_by_two (1 + i) (0 + j))))
            ones
            m')
      (copy_data header two_by_two ([] ∷ blue_line ∷ none_line ∷ pixel_lines) 1 0 ones)
copy_data-HoldsArea_example =
    copy_data-HoldsArea header two_by_two [] (blue_line ∷ none_line ∷ pixel_lines) pixel_lines 2 2 2
      1 1 0 blue_and_none checkered ones
      (record { fits = omega arith; small = omega arith; allocated = λ q e. refl }) (omega arith)
      (omega arith) (omega arith) (omega arith) (omega arith) (omega arith) refl colors_parsed
      first_column

-- A pixel without a color.
unknown_color :
    copy_data header two_by_two ([] ∷ blue_line ∷ none_line ∷ (33 ∷ 33 ∷ []) ∷ []) 0 0 ones ≡ fault
unfolding copy_data put_lines put_line parse_colors parse_color lookup_color eq_text starts_with
    isspace isdigit isalpha isalnum skip_space skip_sign has_digit has_0x base_of skip_0x
    scan_digits scan_number strtoull ends_number converted digit_value strconvert_uint64
unknown_color = refl
