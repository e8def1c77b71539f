-- ===== src/Gfxbuf.antt =====
-- gfxbuf.h and gfxbuf.c, but for the conversion to floating point numbers and Cairo. The memory is
-- one cell for each pixel, so that buffers may share it; an address counts cells. `unsigned` is
-- 32 bits wide and wraps around. `calloc` and `free` are parameters.
pub mod Lines
pub mod Area
pub mod Paint
pub mod Clear
pub mod Copy
pub mod Create
mod Tests
use libbase.Base.{
  ℕ, zero, suc, ◌+◌, ◌-◌, ◌*◌, ◌/◌, ◌%◌, ◌^◌, Bool, true, false, not, ◌&&◌, ◌||◌, Option, none,
  some, ltb, leb, ◌==◌, if◌then◌else◌,
}
use libbase.Memory.{Ptr, null, ok, fault, Outcome, Cmd, pure, ◌>>=◌, ◌>>◌, assert, Heap, write}

abbrev pub Pixels : Type 0
Pixels = Heap ℕ

-- `bs_gfxbuf_t`
pub record Gfxbuf : Type 0 where
  pub width : ℕ
  pub height : ℕ
  pub pixels_per_line : ℕ
  pub data_ptr : Ptr

-- `bs_gfxbuf_internal_t`
pub record Internal : Type 0 where
  pub public : Gfxbuf
  pub managed : Bool

abbrev pub uint32 : ℕ → ℕ
uint32 n = n % 2 ^ 32

-- `&data_ptr[y * pixels_per_line + x]`
unfoldable pub pixel_ptr : Gfxbuf → ℕ → ℕ → Ptr
pixel_ptr g x y = g.data_ptr + uint32 (y * g.pixels_per_line + x)

abbrev pub store_at : Option ℕ → Ptr → ℕ → Cmd Pixels (Unit {0})
store_at none p color = λ m. fault
store_at (some old) p color = λ m. ok tt (write m p color)

-- `*p = color`
unfoldable pub store : Ptr → ℕ → Cmd Pixels (Unit {0})
store p color = λ m. store_at (m p) p color m

-- `while (width--) *pixel_ptr++ = color`
unfoldable pub fill : Ptr → ℕ → ℕ → Cmd Pixels (Unit {0})
fill p zero color = pure tt
fill p (suc width) color = do store p color; fill (suc p) width color

-- `memset` to 0 of whole pixels.
unfoldable pub memset_0 : Ptr → ℕ → Cmd Pixels (Unit {0})
memset_0 p width = fill p width 0

abbrev pub store_from : Option ℕ → Ptr → Cmd Pixels (Unit {0})
store_from none p = λ m. fault
store_from (some color) p = store p color

unfoldable pub copy_cells : Ptr → Ptr → ℕ → Cmd Pixels (Unit {0})
copy_cells d s zero = pure tt
copy_cells d s (suc n) = do (λ m. store_from (m s) d m); copy_cells (suc d) (suc s) n

-- `memcpy` of whole pixels, from memory that does not overlap with where they go.
unfoldable pub memcpy : Ptr → Ptr → ℕ → Cmd Pixels (Unit {0})
memcpy d s n = if leb (d + n) s || leb (s + n) d then copy_cells d s n else λ m. fault

-- `for (; n > 0; ++y, --n)`
unfoldable pub for_lines : (ℕ → Cmd Pixels (Unit {0})) → ℕ → ℕ → Cmd Pixels (Unit {0})
for_lines line y zero = pure tt
for_lines line y (suc n) = do line y; for_lines line (suc y) n

unfoldable pub create_unmanaged : Bool → ℕ → ℕ → ℕ → Ptr → Option Internal
create_unmanaged allocated width height pixels_per_line data_ptr =
    if allocated
    then some (record {
      public = record {
        width = width;
        height = height;
        pixels_per_line = pixels_per_line;
        data_ptr = data_ptr;
      };
      managed = false;
    })
    else none

-- `calloc` of a number of bytes; the other one, of the struct, either succeeds or does not.
module _ (calloc : ℕ → Cmd Pixels (Option Ptr)) (free : Ptr → Cmd Pixels (Unit {0})) where
  abbrev pub as_managed : Ptr → Option Internal → Cmd Pixels (Option Internal)
  as_managed data_ptr none = do free data_ptr; pure none
  as_managed data_ptr (some g) = pure (some (record { public = g.public; managed = true }))

  abbrev pub create_with : Bool → ℕ → ℕ → Option Ptr → Cmd Pixels (Option Internal)
  create_with allocated width height none = pure none
  create_with allocated width height (some data_ptr) =
      as_managed data_ptr (create_unmanaged allocated width height width data_ptr)

  unfoldable pub create : Bool → ℕ → ℕ → Cmd Pixels (Option Internal)
  create allocated width height = do
    data_ptr ← calloc (uint32 (uint32 (4 * width) * height))
    create_with allocated width height data_ptr

  -- What `bs_gfxbuf_destroy` does to the pixels.
  unfoldable pub destroy : Internal → Cmd Pixels (Unit {0})
  destroy g =
      if g.managed && not (g.public.data_ptr == null) then free g.public.data_ptr else pure tt

unfoldable pub clear : Gfxbuf → ℕ → Cmd Pixels (Unit {0})
clear g color =
    if color == 0
    then for_lines (λ y. memset_0 (pixel_ptr g 0 y) g.width) 0 g.height
    else for_lines (λ y. fill (pixel_ptr g 0 y) g.width color) 0 g.height

unfoldable pub copy : Gfxbuf → Gfxbuf → Cmd Pixels (Unit {0})
copy dest src = do
  assert (src.width == dest.width)
  assert (src.height == dest.height)
  for_lines (λ y. memcpy (pixel_ptr dest 0 y) (pixel_ptr src 0 y) src.width) 0 src.height

-- `BS_MIN`
abbrev pub smaller : ℕ → ℕ → ℕ
smaller a b = if ltb a b then a else b

-- Whether a point is outside a buffer.
abbrev pub outside : Gfxbuf → ℕ → ℕ → Bool
outside g x y = leb g.width x || leb g.height y

unfoldable pub copy_area : Gfxbuf → ℕ → ℕ → Gfxbuf → ℕ → ℕ → ℕ → ℕ → Cmd Pixels (Unit {0})
copy_area dest dest_x dest_y src src_x src_y width height =
    if outside src src_x src_y || outside dest dest_x dest_y
    then pure tt
    else for_lines
        (λ y.
          memcpy (pixel_ptr dest dest_x (dest_y + y)) (pixel_ptr src src_x (src_y + y))
            (smaller (dest.width - dest_x) (smaller (src.width - src_x) width)))
        0 (smaller (dest.height - dest_y) (smaller (src.height - src_y) height))

unfoldable pub pixel_at : Gfxbuf → ℕ → ℕ → Cmd Pixels Ptr
pixel_at g x y = do assert (ltb x g.width); assert (ltb y g.height); pure (pixel_ptr g x y)

unfoldable pub set_pixel : Gfxbuf → ℕ → ℕ → ℕ → Cmd Pixels (Unit {0})
set_pixel g x y color = do p ← pixel_at g x y; store p color
