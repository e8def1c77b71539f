-- ===== src/Gfxbuf/Copy.antt =====
-- `bs_gfxbuf_copy_area` and `bs_gfxbuf_copy` of gfxbuf.c.
use mathlib.Core.Path.{fun_ext}
use libbase.Base.{
  ℕ, ◌+◌, ◌-◌, ◌*◌, ◌^◌, ◌≤◌, ◌<◌, true, false, ◌||◌, ◌≡◌, refl, arith, ◌∙◌, ap, sym, Option, leb,
  ◌==◌, Bool-cases, inl, inr,
}
use libbase.Memory.{Ptr, ok, Returns, Returns-weaken}
use libbase.Gfxbuf.{Pixels, Gfxbuf, pixel_ptr, memcpy, for_lines, copy, copy_area, smaller, outside}
use libbase.Gfxbuf.Paint.{inside, has, Allocated, painted, memcpy-painted}
use libbase.Gfxbuf.Lines.{for_lines-HoldsLines, painted_outside}
use libbase.Gfxbuf.Area.{
  IsGfxbuf, HoldsArea, line_fits, pixel_ptr-small, pixel_ptr-Allocated, pixel_ptr-apart,
  pixel_ptr-right, HoldsLines-HoldsArea,
}
use libbase.Gfxbuf.Clear.{painted-IsGfxbuf}

abbrev pub cells : Gfxbuf → ℕ
cells g = g.height * g.pixels_per_line

-- The two buffers do not share memory.
abbrev pub AreApart : Gfxbuf → Gfxbuf → Type 0
AreApart g f =
    (leb (g.data_ptr + cells g) f.data_ptr || leb (f.data_ptr + cells f) g.data_ptr) ≡ true

painted_ext :
    (m : Pixels) (d n : ℕ) (f g : ℕ → Option ℕ)
    → ((i : ℕ) → i < n → f i ≡ g i)
    → painted m d n f ≡ painted m d n g
painted_ext m d n f g e = fun_ext λ q. elim (Bool-cases (inside d n q)) [
  | inl a ↦ let lt : q - d < n = ground arith in rw a (e (q - d) lt)
  | inr a ↦ rw a refl
]

-- A line of a buffer is a part of its cells.
line_inside :
    (g : Gfxbuf) (x y w : ℕ) (q : Ptr)
    → g.height * g.pixels_per_line ≤ 2 ^ 32
    → x + w ≤ g.pixels_per_line
    → y < g.height
    → inside (pixel_ptr g x y) w q ≡ true
    → inside g.data_ptr (cells g) q ≡ true
line_inside g x y w q small le lty e =
    let fit = line_fits y g.height g.pixels_per_line lty in
    let ltx : x < g.pixels_per_line = ground arith in
    let p = pixel_ptr-small g x y small ltx lty in ground arith

module _ (dest src : Gfxbuf) (m : Pixels) (b : IsGfxbuf dest m) (c : IsGfxbuf src m)
    (apart : AreApart dest src) (dx dy sx sy w n : ℕ) (lew : dx + w ≤ dest.pixels_per_line)
    (leh : dy + n ≤ dest.height) (lew' : sx + w ≤ src.pixels_per_line)
    (leh' : sy + n ≤ src.height) where
  -- While the lines are copied, the source stays as it was.
  abbrev Good : Pixels → Type 0
  Good u = IsGfxbuf dest u × ((q : Ptr) → inside src.data_ptr (cells src) q ≡ true → u q ≡ m q)

  source : ℕ → ℕ → Option ℕ
  source i j = m (pixel_ptr src (sx + i) (sy + j))

  -- A line of the destination against the source and its lines.
  dest_apart :
      (y : ℕ) (q : Ptr)
      → y < n
      → inside src.data_ptr (cells src) q ≡ true
      → inside (pixel_ptr dest dx (dy + y)) w q ≡ false
  dest_apart y q lt e = elim (Bool-cases (inside (pixel_ptr dest dx (dy + y)) w q)) [
    | inr f ↦ f
    | inl f ↦ let g = line_inside dest dx (dy + y) w q b.small lew (omega arith) f in ground arith
  ]

  lines_apart :
      (y : ℕ)
      → y < n
      → (leb (pixel_ptr dest dx (dy + y) + w) (pixel_ptr src sx (sy + y))
          || leb (pixel_ptr src sx (sy + y) + w) (pixel_ptr dest dx (dy + y)))
        ≡ true
  lines_apart y lt = elim (Bool-cases (w == 0)) [
    | inl z ↦ ground arith
    | inr p ↦
        let ltx : dx < dest.pixels_per_line = ground arith in
        let ltx' : sx < src.pixels_per_line = ground arith in
        let lty : dy + y < dest.height = omega arith in
        let lty' : sy + y < src.height = omega arith in
        let d = pixel_ptr-small dest dx (dy + y) b.small ltx lty in
        let s = pixel_ptr-small src sx (sy + y) c.small ltx' lty' in
        let fit = line_fits (dy + y) dest.height dest.pixels_per_line lty in
        let fit' = line_fits (sy + y) src.height src.pixels_per_line lty' in ground arith
  ]

  -- A pixel of the source, in the memory at a later time.
  source_cell :
      (y i : ℕ) (u : Pixels)
      → y < n
      → i < w
      → Good u
      → (u (pixel_ptr src sx (sy + y) + i) ≡ source i y) × (has (source i y) ≡ true)
  unfolding source
  source_cell y i u lt lti good =
      let lty : sy + y < src.height = omega arith in
      let here : inside (pixel_ptr src sx (sy + y)) w (pixel_ptr src sx (sy + y) + i) ≡ true =
        ground arith in
      let there =
        line_inside src sx (sy + y) w (pixel_ptr src sx (sy + y) + i) c.small lew' lty here in
      let right = pixel_ptr-right src sx (sy + y) i c.small (omega arith) lty in
      (
        good.1 (pixel_ptr src sx (sy + y) + i) there ∙ ap m (sym right),
        ap (λ q. has (m q)) right ∙ c.allocated (pixel_ptr src sx (sy + y) + i) there,
      )

  copy_line :
      (y : ℕ) (u : Pixels)
      → y < n
      → Good u
      → (memcpy (pixel_ptr dest dx (dy + y)) (pixel_ptr src sx (sy + y)) w u
          ≡ ok tt (painted u (pixel_ptr dest dx (dy + y)) w (λ i. source i y)))
        × Good (painted u (pixel_ptr dest dx (dy + y)) w (λ i. source i y))
  copy_line y u lt good =
      let d = pixel_ptr dest dx (dy + y) in
      let s = pixel_ptr src sx (sy + y) in
      let there : Allocated u s w = λ q e.
        let in_src = line_inside src sx (sy + y) w q c.small lew' (omega arith) e in
        ap has (good.1 q in_src) ∙ c.allocated q in_src in
      let run =
        memcpy-painted u d s w (pixel_ptr-Allocated dest u dx (dy + y) w good.0 lew (omega arith))
          there (lines_apart y lt) in
      let same =
        painted_ext u d w (λ i. u (s + i)) (λ i. source i y)
          (λ i lti. (source_cell y i u lt lti good).0) in
      (
        run ∙ ap (λ v. ok tt v) same,
        (
          painted-IsGfxbuf dest u d w (λ i. source i y) good.0
              (λ i lti. (source_cell y i u lt lti good).1),
          λ q e. painted_outside u d w (λ i. source i y) q (dest_apart y q lt e) ∙ good.1 q e,
        ),
      )

  -- The loop over the lines copies a rectangle.
  copy_lines-HoldsArea :
      Returns
        (λ u m'. HoldsArea dest dx dy w n source m m')
        (for_lines (λ y. memcpy (pixel_ptr dest dx (dy + y)) (pixel_ptr src sx (sy + y)) w) 0 n m)
  copy_lines-HoldsArea =
      let line = λ (y : ℕ). memcpy (pixel_ptr dest dx (dy + y)) (pixel_ptr src sx (sy + y)) w in
      Returns-weaken (λ u m'. HoldsArea dest dx dy w n source m m') (for_lines line 0 n m)
        (λ u m' r.
          HoldsLines-HoldsArea dest (λ y. pixel_ptr dest dx (dy + y)) dx dy w n source m m' b.small
            lew leh (λ j. refl) r)
        (for_lines-HoldsLines line (λ y. pixel_ptr dest dx (dy + y)) w n (λ j i. source i j) Good
          (λ y u lt good. copy_line y u lt good)
          (λ j y i ne ltj lty lti.
            pixel_ptr-apart dest dx (dy + j) (dy + y) w i b.small lew (λ e. ne (omega arith))
              (omega arith) (omega arith) lti)
          0 n m (omega arith) (b, λ q e. refl))

-- Copying an area between graphics buffers that do not share memory, from a point of the source to a
-- point of the destination: the rectangle, cut off where either buffer ends, gets the colors that the
-- source has there, and nothing else changes.
pub copy_area-HoldsArea :
    (dest src : Gfxbuf) (m : Pixels) (dx dy sx sy width height : ℕ)
    → IsGfxbuf dest m
    → IsGfxbuf src m
    → AreApart dest src
    → outside src sx sy ≡ false
    → outside dest dx dy ≡ false
    → Returns
        (λ u m'.
          HoldsArea dest dx dy
            (smaller (dest.width - dx) (smaller (src.width - sx) width))
            (smaller (dest.height - dy) (smaller (src.height - sy) height))
            (λ i j. m (pixel_ptr src (sx + i) (sy + j)))
            m
            m')
        (copy_area dest dx dy src sx sy width height m)
unfolding copy_area source
copy_area-HoldsArea dest src m dx dy sx sy width height b c apart o p =
    let f = b.fits in
    let g = c.fits in
    rw (o, p)
      (copy_lines-HoldsArea dest src m b c apart dx dy sx sy
        (smaller (dest.width - dx) (smaller (src.width - sx) width))
        (smaller (dest.height - dy) (smaller (src.height - sy) height)) (ground arith)
        (ground arith) (ground arith) (ground arith))

-- Between buffers of one size that are not empty, copying is copying the area of the whole buffer.
pub copy-copy_area :
    (dest src : Gfxbuf)
    → src.width ≡ dest.width
    → src.height ≡ dest.height
    → 0 < src.width
    → 0 < src.height
    → copy dest src ≡ copy_area dest 0 0 src 0 0 src.width src.height
unfolding copy copy_area
copy-copy_area dest src ew eh ltw lth = fun_ext λ m.
    let a : (src.width == dest.width) ≡ true = ground arith in
    let b : (src.height == dest.height) ≡ true = ground arith in
    let o : outside src 0 0 ≡ false = ground arith in
    let p : outside dest 0 0 ≡ false = ground arith in
    let w : smaller (dest.width - 0) (smaller (src.width - 0) src.width) ≡ src.width =
      ground arith in
    let h : smaller (dest.height - 0) (smaller (src.height - 0) src.height) ≡ src.height =
      ground arith in
    let lines : (λ (y : ℕ). memcpy (pixel_ptr dest 0 y) (pixel_ptr src 0 y) src.width)
        ≡ (λ y. memcpy (pixel_ptr dest 0 (0 + y)) (pixel_ptr src 0 (0 + y)) src.width) =
      fun_ext
        λ y. ap (λ z. memcpy (pixel_ptr dest 0 z) (pixel_ptr src 0 z) src.width) (omega arith) in
    rw (a, b, o, p, w, h) (ap (λ l. for_lines l 0 src.height m) lines)
