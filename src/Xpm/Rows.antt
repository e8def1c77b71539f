-- ===== src/Xpm/Rows.antt =====
-- The lines of an XPM.
use mathlib.Core.Path.{fun_ext}
use libbase.Base.{
  ℕ, zero, suc, ◌+◌, ◌-◌, ◌*◌, ◌^◌, ◌≤◌, ◌<◌, true, false, ◌≡◌, ◌≢◌, refl, arith, ◌∙◌, ap, sym,
  Option, some, List, [], ◌∷◌, length, drop, ltb, ◌==◌, Bool-cases, inl, inr,
}
use libbase.Memory.{Ptr, ok, Returns, Returns-weaken}
use libbase.Text.{Text}
use libbase.Gfxbuf.{smaller, Pixels, Gfxbuf, uint32, pixel_ptr}
use libbase.Gfxbuf.Paint.{inside, has, painted}
use libbase.Gfxbuf.Lines.{HoldsLines, more, painted_outside}
use libbase.Gfxbuf.Area.{
  IsGfxbuf, HoldsArea, pixel_ptr-apart, pixel_ptr-right, pixel_ptr-Allocated, HoldsLines-HoldsArea,
}
use libbase.Gfxbuf.Clear.{painted-IsGfxbuf}
use libbase.Xpm.{loaded, parse_colors, clipped, copy_data, Color, lookup_color, put_line, put_lines}
use libbase.Xpm.Line.{shown, put_line-painted}

-- The lines are long enough, and each of their pixels has a color: `col i j` in the column `i` of
-- the line `j`.
abbrev pub AreKnown : ℕ → List Color → ℕ → (ℕ → ℕ → ℕ) → List Text → ℕ → ℕ → Type 0
AreKnown cpp colors w col rows y zero = Unit
AreKnown cpp colors w col [] y (suc n) = ⊥
AreKnown cpp colors w col (line ∷ rows) y (suc n) =
    (uint32 (w * cpp) ≤ length line)
    × ((i : ℕ) → i < w → lookup_color cpp colors (drop (uint32 (i * cpp)) line) ≡ some (col i y))
    × AreKnown cpp colors w col rows (suc y) n

has-shown : (color : ℕ) (o : Option ℕ) → has o ≡ true → has (shown color o) ≡ true
has-shown color o e = elim (Bool-cases (color == 0)) [ inl f ↦ rw f e | inr f ↦ rw f refl ]

HoldsLines-ext :
    (at : ℕ → Ptr) (w : ℕ) (v u : ℕ → ℕ → Option ℕ) (y n : ℕ) (m m' : Pixels)
    → ((j i : ℕ) → y ≤ j → j < y + n → i < w → v j i ≡ u j i)
    → HoldsLines at w v y n m m'
    → HoldsLines at w u y n m m'
HoldsLines-ext at w v u y n m m' e r = record {
  within = λ j i low high lt. r.within j i low high lt ∙ e j i low high lt;
  frame = r.frame;
}

module _ (g : Gfxbuf) (cpp : ℕ) (colors : List Color) (dx dy w h : ℕ) (col : ℕ → ℕ → ℕ)
    (lew : dx + w ≤ g.width) (leh : dy + h ≤ g.height) (small : g.height < 2 ^ 32) where
  at : ℕ → Ptr
  at j = pixel_ptr g dx (dy + j)

  -- What the pixels show, over those in `m`.
  over : Pixels → ℕ → ℕ → Option ℕ
  over m j i = shown (col i j) (m (at j + i))

  at-apart :
      (m : Pixels) (j y i : ℕ)
      → IsGfxbuf g m
      → j ≢ y
      → j < h
      → y < h
      → i < w
      → inside (at j) w (at y + i) ≡ false
  unfolding at
  at-apart m j y i b ne ltj lty lti =
      pixel_ptr-apart g dx (dy + j) (dy + y) w i b.small (omega (arith, b.fits))
        (λ e. ne (omega arith)) (omega arith) (omega arith) lti

  -- A line leaves what is under those below it.
  over-later :
      (m : Pixels) (y j i : ℕ)
      → IsGfxbuf g m
      → suc y ≤ j
      → j < h
      → i < w
      → over (painted m (at y) w (over m y)) j i ≡ over m j i
  unfolding over
  over-later m y j i b low high lt = ap (shown (col i j)) (
      painted_outside m (at y) w (over m y) (at j + i)
        (at-apart m y j i b (λ e. let no : ⊥ = omega arith in no) (omega arith) high lt))

  -- One line.
  put_row :
      (line : Text) (y : ℕ) (m : Pixels)
      → IsGfxbuf g m
      → y < h
      → ((i : ℕ) → i < w → lookup_color cpp colors (drop (uint32 (i * cpp)) line) ≡ some (col i y))
      → (put_line g cpp colors line dx (uint32 (dy + y)) 0 w m
          ≡ ok tt (painted m (at y) w (over m y)))
        × IsGfxbuf g (painted m (at y) w (over m y))
  unfolding at over
  put_row line y m b lt known =
      let d = pixel_ptr g dx (dy + y) in
      let u : uint32 (dy + y) ≡ dy + y = ground arith in
      let run =
        put_line-painted g cpp colors line dx (dy + y) w (λ i. col i y) known lew (omega arith) m d
          0 w b (omega arith) (omega arith) in
      let from_0 : (λ (i : ℕ). shown (col (0 + i) y) (m (d + i)))
          ≡ (λ i. shown (col i y) (m (d + i))) =
        fun_ext λ i. ap (λ k. shown (col k y) (m (d + i))) (omega arith) in
      let there = pixel_ptr-Allocated g m dx (dy + y) w b (omega (arith, b.fits)) (omega arith) in
      (
        rw u (run ∙ ap (λ f. ok tt (painted m d w f)) from_0),
        painted-IsGfxbuf g m d w (λ i. shown (col i y) (m (d + i))) b
            (λ i lti. has-shown (col i y) (m (d + i)) (there (d + i) (ground arith))),
      )

  put_lines-HoldsLines :
      (rows : List Text) (y n : ℕ) (m : Pixels)
      → IsGfxbuf g m
      → y + n ≤ h
      → AreKnown cpp colors w col rows y n
      → Returns
          (λ r m'. (r ≡ true) × HoldsLines at w (over m) y n m m')
          (put_lines g cpp colors dx dy w rows y n m)
  unfolding put_lines
  put_lines-HoldsLines rows y zero m b le k = (
    refl,
    record {
      within = λ j i low high lt. let no : ⊥ = omega arith in elim no [ ];
      frame = λ q off. refl;
    },
  )
  put_lines-HoldsLines [] y (suc n) m b le k = elim k [ ]
  put_lines-HoldsLines (line ∷ rows) y (suc n) m b le k =
      let row = put_row line y m b (omega arith) k.1 in
      let m' = painted m (at y) w (over m y) in
      let long : ltb (length line) (uint32 (w * cpp)) ≡ false = ground (arith, k.0) in
      rw (long, row.0)
        (Returns-weaken (λ r u. (r ≡ true) × HoldsLines at w (over m) y (suc n) m u)
          (put_lines g cpp colors dx dy w rows (suc y) n m')
          (λ r u q. (
            q.0,
            more at w h (over m) (λ j i o ne ltj lti. at-apart m j i o b ne ltj lti) y n m u le
                (HoldsLines-ext at w (over m') (over m) (suc y) n m' u
                  (λ j i low high lt. over-later m y j i b low (omega arith) lt) q.1),
          ))
          (put_lines-HoldsLines rows (suc y) n m' row.1 (omega arith) k.2))

  pub put_lines-HoldsArea :
      (rows : List Text) (m : Pixels)
      → IsGfxbuf g m
      → AreKnown cpp colors w col rows 0 h
      → Returns
          (λ r m'.
            (r ≡ true)
            × HoldsArea g dx dy w h
                (λ i j. shown (col i j) (m (pixel_ptr g (dx + i) (dy + j))))
                m
                m')
          (put_lines g cpp colors dx dy w rows 0 h m)
  unfolding at over
  put_lines-HoldsArea rows m b k =
      Returns-weaken
        (λ r m'.
          (r ≡ true)
          × HoldsArea g dx dy w h (λ i j. shown (col i j) (m (pixel_ptr g (dx + i) (dy + j)))) m m')
        (put_lines g cpp colors dx dy w rows 0 h m)
        (λ r m' q.
          let area =
            HoldsLines-HoldsArea g at dx dy w h (λ i j. over m j i) m m' b.small
              (omega (arith, b.fits)) leh (λ j. refl) q.1 in
          (
            q.0,
            record {
              within = λ i j lti ltj.
                  area.within i j lti ltj
                  ∙ ap (λ p. shown (col i j) (m p))
                      (sym (
                        pixel_ptr-right g dx (dy + j) i b.small (omega (arith, b.fits))
                          (omega arith)));
              frame = area.frame;
            },
          ))
        (put_lines-HoldsLines rows 0 h m b (omega arith) k)

-- Copying an XPM whose header and colors are read, to a point of a graphics buffer or at its ends,
-- where the width of the header plus the column of the point, and the height plus the line, are less
-- than 2^32, so that neither sum wraps around: if the lines that are in the buffer are long enough
-- and their pixels have colors, true is returned; each pixel of the XPM, cut off where the buffer
-- ends, has its color, or is as it was where the XPM is transparent, and nothing else changes.
pub copy_data-HoldsArea :
    (sscanf : Text → Option (ℕ × ℕ × ℕ × ℕ)) (g : Gfxbuf) (header : Text) (rows lines : List Text)
    (width height n cpp dx dy : ℕ) (colors : List Color) (col : ℕ → ℕ → ℕ) (m : Pixels)
    → IsGfxbuf g m
    → g.width < 2 ^ 32
    → g.height < 2 ^ 32
    → dx ≤ g.width
    → dy ≤ g.height
    → width + dx < 2 ^ 32
    → height + dy < 2 ^ 32
    → sscanf header ≡ some (width, height, n, cpp)
    → parse_colors cpp n rows [] ≡ loaded colors lines
    → AreKnown cpp colors
        (smaller width (g.width - dx))
        col
        lines
        0
        (smaller height (g.height - dy))
    → Returns
        (λ r m'.
          (r ≡ true)
          × HoldsArea g dx dy
              (smaller width (g.width - dx))
              (smaller height (g.height - dy))
              (λ i j. shown (col i j) (m (pixel_ptr g (dx + i) (dy + j))))
              m
              m')
        (copy_data sscanf g (header ∷ rows) dx dy m)
unfolding copy_data
copy_data-HoldsArea sscanf g header rows lines width height n cpp dx dy colors col m b sw sh lex ley
      fw fh e f k =
    let w : clipped width dx g.width ≡ smaller width (g.width - dx) = ground arith in
    let h : clipped height dy g.height ≡ smaller height (g.height - dy) = ground arith in
    rw (e, f, w, h)
      (put_lines-HoldsArea g cpp colors dx dy (smaller width (g.width - dx))
        (smaller height (g.height - dy)) col (ground arith) (ground arith) sh lines m b k)
