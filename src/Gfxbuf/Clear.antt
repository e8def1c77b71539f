-- ===== src/Gfxbuf/Clear.antt =====
-- `bs_gfxbuf_clear` of gfxbuf.c.
use libbase.Base.{
  ℕ, ◌-◌, ◌<◌, true, ◌≡◌, refl, arith, ap, subst, Option, some, ◌==◌, eq_of_==, Bool-cases, inl,
  inr,
}
use libbase.Memory.{Returns, Returns-weaken}
use libbase.Gfxbuf.{Pixels, Gfxbuf, pixel_ptr, fill, memset_0, for_lines, clear}
use libbase.Gfxbuf.Paint.{inside, has, painted, fill-painted}
use libbase.Gfxbuf.Lines.{for_lines-HoldsLines, HoldsLines}
use libbase.Gfxbuf.Area.{
  IsGfxbuf, HoldsArea, pixel_ptr-Allocated, pixel_ptr-apart, HoldsLines-HoldsArea,
}

pub painted-IsGfxbuf :
    (g : Gfxbuf) (m : Pixels) (d n : ℕ) (f : ℕ → Option ℕ)
    → IsGfxbuf g m
    → ((i : ℕ) → i < n → has (f i) ≡ true)
    → IsGfxbuf g (painted m d n f)
painted-IsGfxbuf g m d n f b e = record {
  fits = b.fits;
  small = b.small;
  allocated = λ q a. elim (Bool-cases (inside d n q)) [
    | inl i ↦ let lt : q - d < n = ground arith in rw i (e (q - d) lt)
    | inr i ↦ rw i (b.allocated q a)
  ];
}

fill_lines :
    (g : Gfxbuf) (m : Pixels) (color : ℕ)
    → IsGfxbuf g m
    → Returns
        (λ u m'. HoldsLines (λ y. pixel_ptr g 0 y) g.width (λ j i. some color) 0 g.height m m')
        (for_lines (λ y. fill (pixel_ptr g 0 y) g.width color) 0 g.height m)
fill_lines g m color b =
    for_lines-HoldsLines (λ y. fill (pixel_ptr g 0 y) g.width color) (λ y. pixel_ptr g 0 y) g.width
      g.height (λ j i. some color) (IsGfxbuf g)
      (λ y u lt c. (
        fill-painted u (pixel_ptr g 0 y) g.width color
            (pixel_ptr-Allocated g u 0 y g.width c (omega (arith, b.fits)) lt),
        painted-IsGfxbuf g u (pixel_ptr g 0 y) g.width (λ i. some color) c (λ i l. refl),
      ))
      (λ j y i ne ltj lty lti.
        pixel_ptr-apart g 0 j y g.width i b.small (omega (arith, b.fits)) ne ltj lty lti)
      0 g.height m (omega arith) b

-- Clearing a graphics buffer gives each of its pixels the color, whether the color is 0 or not, and
-- changes nothing else, also not the cells of a line behind the width.
pub clear-HoldsArea :
    (g : Gfxbuf) (m : Pixels) (color : ℕ)
    → IsGfxbuf g m
    → Returns (λ u m'. HoldsArea g 0 0 g.width g.height (λ i j. some color) m m') (clear g color m)
unfolding clear memset_0
clear-HoldsArea g m color b =
    let lines =
      Returns-weaken (λ u m'. HoldsArea g 0 0 g.width g.height (λ i j. some color) m m')
        (for_lines (λ y. fill (pixel_ptr g 0 y) g.width color) 0 g.height m)
        (λ u m' r.
          HoldsLines-HoldsArea g (λ y. pixel_ptr g 0 y) 0 0 g.width g.height (λ i j. some color) m
            m' b.small (omega (arith, b.fits)) (omega arith) (λ j. ap (pixel_ptr g 0) (omega arith))
            r)
        (fill_lines g m color b) in
    elim (Bool-cases (color == 0)) [
      | inl e ↦
          let zero_color : color ≡ 0 = eq_of_== color 0 e in
          rw e (
            subst
              (λ c.
                Returns (λ u m'. HoldsArea g 0 0 g.width g.height (λ i j. some color) m m')
                  (for_lines (λ y. fill (pixel_ptr g 0 y) g.width c) 0 g.height m))
              zero_color lines)
      | inr e ↦ rw e lines
    ]
