-- ===== src/Xpm.antt =====
-- gfxbuf_xpm.c. An XPM is the list of its strings; reading behind the last one faults. The tree of
-- the colors is the list of the colors in it, since `bs_avltree_insert` without overwriting fails just
-- for characters that are there. Memory for the nodes is taken to be there. What `sscanf` makes of the
-- header is a parameter.
pub mod Line
pub mod Rows
mod Tests
use libbase.Base.{
  ℕ, zero, suc, ◌+◌, ◌-◌, ◌*◌, ◌%◌, ◌^◌, Bool, true, false, not, ◌&&◌, ◌||◌, Option, none, some,
  List, [], ◌∷◌, length, take, drop, ltb, leb, ◌==◌, if◌then◌else◌,
}
use libbase.Memory.{Ptr, ok, fault, Cmd, pure, ◌>>=◌, ◌>>◌}
use libbase.Text.{Text, eq_text, starts_with, isspace, isalnum}
use libbase.Strutil.{skip_space, strconvert_uint64}
use libbase.Gfxbuf.{Pixels, Gfxbuf, Internal, uint32, create, destroy, set_pixel}

-- `bs_gfxbuf_xpm_color_node_t`
pub record Color : Type 0 where
  pub pixel_chars : Text
  pub color : ℕ

-- `_bs_gfxbuf_xpm_parse_color_into_node`, in the order of its checks. A color that is at most
-- 0xffffff is added to 0xff000000, which has none of its bits.
abbrev pub opaque_color : Text → Option ℕ → Option Color
opaque_color chars none = none
opaque_color chars (some n) =
    if ltb 16777215 n then none else some (record { pixel_chars = chars; color = n + 4278190080 })

abbrev pub count_alnum : Text → ℕ
count_alnum [] = 0
count_alnum (c ∷ s) = let n = count_alnum s in if isalnum c then suc n else 0

abbrev pub parse_rgb : Text → Text → Option Color
parse_rgb chars [] = none
parse_rgb chars (c ∷ s) =
    if c == 35
    then (if count_alnum s == 6 then opaque_color chars (strconvert_uint64 s 16) else none)
    else none

-- `None`
abbrev pub text_none : Text
text_none = 78 ∷ 111 ∷ 110 ∷ 101 ∷ []

abbrev pub parse_color_value : Text → Text → Option Color
parse_color_value chars s =
    if starts_with text_none s
    then some (record { pixel_chars = chars; color = 0 })
    else parse_rgb chars s

abbrev pub parse_representation : Text → Text → Option Color
parse_representation chars [] = none
parse_representation chars (c ∷ s) =
    if c == 99 then parse_color_value chars (skip_space s) else none

abbrev pub starts_with_space : Text → Bool
starts_with_space [] = false
starts_with_space (c ∷ s) = isspace c

unfoldable pub parse_color : ℕ → Text → Option Color
parse_color chars_per_pixel line =
    if ltb (length line) chars_per_pixel
    then none
    else if starts_with_space (drop chars_per_pixel line)
    then parse_representation (take chars_per_pixel line) (skip_space (drop chars_per_pixel line))
    else none

-- `bs_avltree_lookup`: the color with the characters that a string starts with.
unfoldable pub lookup_color : ℕ → List Color → Text → Option ℕ
lookup_color chars_per_pixel [] key = none
lookup_color chars_per_pixel (c ∷ colors) key =
    if eq_text c.pixel_chars (take chars_per_pixel key)
    then some c.color
    else lookup_color chars_per_pixel colors key

abbrev pub is_some : Option ℕ → Bool
is_some none = false
is_some (some n) = true

-- A color that is there is not inserted.
abbrev pub insert_color : ℕ → List Color → Option Color → Option (List Color)
insert_color chars_per_pixel colors none = none
insert_color chars_per_pixel colors (some c) =
    if is_some (lookup_color chars_per_pixel colors c.pixel_chars) then none else some (c ∷ colors)

-- How the loop over the colors ends: with the colors and the strings behind them, with a color that
-- is refused, or behind the last string.
pub data Loaded : Type 0 where
  loaded : List Color → List Text → Loaded
  refused : Loaded
  past_end : Loaded

abbrev pub load_more : Option (List Color) → (List Color → Loaded) → Loaded
load_more none next = refused
load_more (some colors) next = next colors

unfoldable pub parse_colors : ℕ → ℕ → List Text → List Color → Loaded
parse_colors chars_per_pixel zero rows colors = loaded colors rows
parse_colors chars_per_pixel (suc n) [] colors = past_end
parse_colors chars_per_pixel (suc n) (line ∷ rows) colors =
    load_more (insert_color chars_per_pixel colors (parse_color chars_per_pixel line))
      (λ colors'. parse_colors chars_per_pixel n rows colors')

-- A pixel; there is no color at NULL.
abbrev pub put_color : Gfxbuf → ℕ → ℕ → Option ℕ → Cmd Pixels (Unit {0})
put_color g x y none = λ m. fault
put_color g x y (some color) = if color == 0 then pure tt else set_pixel g x y color

-- `n` pixels of a line, from `x` on.
unfoldable pub put_line : Gfxbuf → ℕ → List Color → Text → ℕ → ℕ → ℕ → ℕ → Cmd Pixels (Unit {0})
put_line g chars_per_pixel colors line dest_x dest_y x zero = pure tt
put_line g chars_per_pixel colors line dest_x dest_y x (suc n) = do
  put_color g (uint32 (dest_x + x)) dest_y
      (lookup_color chars_per_pixel colors (drop (uint32 (x * chars_per_pixel)) line))
  put_line g chars_per_pixel colors line dest_x dest_y (suc x) n

-- `n` lines, from `y` on, of `width` pixels.
unfoldable pub put_lines : Gfxbuf → ℕ → List Color → ℕ → ℕ → ℕ → List Text → ℕ → ℕ → Cmd Pixels Bool
put_lines g chars_per_pixel colors dest_x dest_y width rows y zero = pure true
put_lines g chars_per_pixel colors dest_x dest_y width [] y (suc n) = λ m. fault
put_lines g chars_per_pixel colors dest_x dest_y width (line ∷ rows) y (suc n) =
    if ltb (length line) (uint32 (width * chars_per_pixel)) then pure false else do
      put_line g chars_per_pixel colors line dest_x (uint32 (dest_y + y)) 0 width
      put_lines g chars_per_pixel colors dest_x dest_y width rows (suc y) n

-- The size that is not beyond the end of the buffer.
abbrev pub clipped : ℕ → ℕ → ℕ → ℕ
clipped size dest end =
    if ltb end (uint32 (size + dest)) then uint32 (end + 2 ^ 32 - dest) else size

abbrev pub copy_loaded : Gfxbuf → ℕ → ℕ → ℕ → ℕ → ℕ → Loaded → Cmd Pixels Bool
copy_loaded g dest_x dest_y width height chars_per_pixel refused = pure false
copy_loaded g dest_x dest_y width height chars_per_pixel past_end = λ m. fault
copy_loaded g dest_x dest_y width height chars_per_pixel (loaded colors rows) =
    put_lines g chars_per_pixel colors dest_x dest_y (clipped width dest_x g.width) rows 0
      (clipped height dest_y g.height)

abbrev pub copy_sized : Gfxbuf → List Text → ℕ → ℕ → Option (ℕ × ℕ × ℕ × ℕ) → Cmd Pixels Bool
copy_sized g rows dest_x dest_y none = pure false
copy_sized g rows dest_x dest_y (some (width, height, colors, chars_per_pixel)) =
    copy_loaded g dest_x dest_y width height chars_per_pixel
      (parse_colors chars_per_pixel colors rows [])

-- `sscanf` of the header: width, height, number of colors and characters per pixel.
module _ (sscanf : Text → Option (ℕ × ℕ × ℕ × ℕ)) where
  unfoldable pub copy_data : Gfxbuf → List Text → ℕ → ℕ → Cmd Pixels Bool
  copy_data g [] dest_x dest_y = λ m. fault
  copy_data g (header ∷ rows) dest_x dest_y = copy_sized g rows dest_x dest_y (sscanf header)

  module _ (calloc : ℕ → Cmd Pixels (Option Ptr)) (free : Ptr → Cmd Pixels (Unit {0})) where
    abbrev pub keep_if : Internal → Bool → Cmd Pixels (Option Internal)
    keep_if g true = pure (some g)
    keep_if g false = do destroy calloc free g; pure none

    -- Without a buffer, `bs_gfxbuf_destroy` reads through NULL.
    abbrev pub copy_into : List Text → Option Internal → Cmd Pixels (Option Internal)
    copy_into rows none = λ m. fault
    copy_into rows (some g) = do copied ← copy_data g.public rows 0 0; keep_if g copied

    abbrev pub create_sized :
        Bool → List Text → Option (ℕ × ℕ × ℕ × ℕ) → Cmd Pixels (Option Internal)
    create_sized allocated rows none = pure none
    create_sized allocated rows (some (width, height, colors, chars_per_pixel)) = do
      g ← create calloc free allocated width height
      copy_into rows g

    unfoldable pub create_from_data : Bool → List Text → Cmd Pixels (Option Internal)
    create_from_data allocated [] = λ m. fault
    create_from_data allocated (header ∷ rows) =
        create_sized allocated (header ∷ rows) (sscanf header)
