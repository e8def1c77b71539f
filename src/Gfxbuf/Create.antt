-- ===== src/Gfxbuf/Create.antt =====
-- `bs_gfxbuf_create` of gfxbuf.c.
use libbase.Base.{
  ℕ, zero, suc, ◌*◌, ◌/◌, ◌%◌, ◌^◌, ◌≤◌, ◌<◌, true, ◌≡◌, refl, arith, ap, subst, Option, none, some,
}
use libbase.Memory.{Ptr, ok, Cmd, Returns}
use libbase.Gfxbuf.{
  Pixels, Gfxbuf, Internal, uint32, pixel_ptr, create_unmanaged, create_with, create,
}
use libbase.Gfxbuf.Paint.{inside, has}
use libbase.Gfxbuf.Area.{IsGfxbuf, line_fits, pixel_ptr-small}

-- The block that `calloc` of some bytes returns is zeroed.
abbrev pub IsCalloced : ℕ → Ptr → Pixels → Type 0
IsCalloced n p m = (q : Ptr) → inside p (n / 4) q ≡ true → m q ≡ some 0

-- What is returned: a buffer of the size asked for, which manages its pixels, and they are 0.
abbrev pub IsCreated : ℕ → ℕ → Option Internal → Pixels → Type 0
IsCreated width height none m = ⊥
IsCreated width height (some g) m =
    IsGfxbuf g.public m
    × (g.managed ≡ true)
    × (g.public.width ≡ width)
    × (g.public.height ≡ height)
    × ((x y : ℕ) → x < width → y < height → m (pixel_ptr g.public x y) ≡ some 0)

-- The multiplication does not wrap around.
bytes_exact :
    (width height : ℕ)
    → 4 * (width * height) < 2 ^ 32
    → uint32 (4 * width) * height ≡ 4 * (width * height)
bytes_exact width zero lt = omega arith
bytes_exact width (suc height) lt =
    let le : 4 * width ≤ 4 * (width * suc height) = omega arith in
    let e : (4 * width) % 2 ^ 32 ≡ 4 * width = ground arith in rw e (omega arith)

created :
    (calloc : ℕ → Cmd Pixels (Option Ptr)) (free : Ptr → Cmd Pixels (Unit {0})) (width height : ℕ)
    (p : Ptr) (m : Pixels)
    → 4 * (width * height) < 2 ^ 32
    → IsCalloced (4 * (width * height)) p m
    → Returns (IsCreated width height) (create_with calloc free true width height (some p) m)
unfolding create_unmanaged
created calloc free width height p m lt c =
    let cells : 4 * (width * height) / 4 ≡ height * width = omega arith in
    let zeros : (q : Ptr) → inside p (height * width) q ≡ true → m q ≡ some 0 =
      subst (λ n. (q : Ptr) → inside p n q ≡ true → m q ≡ some 0) cells c in
    let g : Gfxbuf = record {
      width = width;
      height = height;
      pixels_per_line = width;
      data_ptr = p;
    } in
    let small : height * width ≤ 2 ^ 32 = omega arith in
    (
      record { fits = omega arith; small = small; allocated = λ q e. ap has (zeros q e) },
      refl,
      refl,
      refl,
      λ x y ltx lty.
          let at = pixel_ptr-small g x y small ltx lty in
          let fit = line_fits y height width lty in zeros (pixel_ptr g x y) (rw at (ground arith)),
    )

-- Of a size whose bytes an `unsigned` can count, and with memory for it, a graphics buffer is created
-- that has this size, manages its pixels, is all zeros and is whole: `calloc` is asked for as many
-- bytes as it takes.
pub create-IsCreated :
    (calloc : ℕ → Cmd Pixels (Option Ptr)) (free : Ptr → Cmd Pixels (Unit {0})) (width height : ℕ)
    (p : Ptr) (m m' : Pixels)
    → 4 * (width * height) < 2 ^ 32
    → calloc (4 * (width * height)) m ≡ ok (some p) m'
    → IsCalloced (4 * (width * height)) p m'
    → Returns (IsCreated width height) (create calloc free true width height m)
unfolding create
create-IsCreated calloc free width height p m m' lt e c =
    let exact = bytes_exact width height lt in
    let f : (4 * (width * height)) % 2 ^ 32 ≡ 4 * (width * height) = ground arith in
    rw (exact, f, e) (created calloc free width height p m' lt c)
