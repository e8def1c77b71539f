-- ===== src/Gfxbuf/Area.antt =====
-- Where the pixels of a graphics buffer are in the memory.
use libbase.Base.{
  ℕ, suc, ◌+◌, ◌-◌, ◌*◌, ◌%◌, ◌^◌, ◌≤◌, ◌<◌, false, Option, ◌≡◌, ◌≢◌, arith, ◌∙◌, ap, sym, ltb,
  Bool-cases, inl, inr,
}
use libbase.Memory.{Ptr}
use libbase.Gfxbuf.{Pixels, Gfxbuf, pixel_ptr}
use libbase.Gfxbuf.Paint.{inside, Allocated}
use libbase.Gfxbuf.Lines.{HoldsLines}

-- The lines are wide enough, the buffer is there, and `unsigned` is enough for an index of it.
pub record IsGfxbuf (g : Gfxbuf) (m : Pixels) : Type 0 where
  pub fits : g.width ≤ g.pixels_per_line
  pub small : g.height * g.pixels_per_line ≤ 2 ^ 32
  pub allocated : Allocated m g.data_ptr (g.height * g.pixels_per_line)

pub line_fits : (y h p : ℕ) → y < h → y * p + p ≤ h * p
line_fits y h p lt =
    let le : suc y ≤ h = lt in let r : suc y * p ≤ h * p = grind arith in omega arith

pub pixel_ptr-small :
    (g : Gfxbuf) (x y : ℕ)
    → g.height * g.pixels_per_line ≤ 2 ^ 32
    → x < g.pixels_per_line
    → y < g.height
    → pixel_ptr g x y ≡ g.data_ptr + (y * g.pixels_per_line + x)
unfolding pixel_ptr
pixel_ptr-small g x y small ltx lty =
    let fit = line_fits y g.height g.pixels_per_line lty in
    let e : (y * g.pixels_per_line + x) % 2 ^ 32 ≡ y * g.pixels_per_line + x = ground arith in
    ap (λ i. g.data_ptr + i) e

-- `w` cells from a pixel on.
pub pixel_ptr-Allocated :
    (g : Gfxbuf) (m : Pixels) (x y w : ℕ)
    → IsGfxbuf g m
    → x + w ≤ g.pixels_per_line
    → y < g.height
    → Allocated m (pixel_ptr g x y) w
pixel_ptr-Allocated g m x y w b le lty q e =
    let fit = line_fits y g.height g.pixels_per_line lty in
    let ltx : x < g.pixels_per_line = ground arith in
    let p = pixel_ptr-small g x y b.small ltx lty in b.allocated q (ground arith)

pub pixel_ptr-apart :
    (g : Gfxbuf) (x j y w i : ℕ)
    → g.height * g.pixels_per_line ≤ 2 ^ 32
    → x + w ≤ g.pixels_per_line
    → j ≢ y
    → j < g.height
    → y < g.height
    → i < w
    → inside (pixel_ptr g x j) w (pixel_ptr g x y + i) ≡ false
pixel_ptr-apart g x j y w i small le ne ltj lty lti =
    let ltx : x < g.pixels_per_line = omega arith in
    let p = pixel_ptr-small g x y small ltx lty in
    let q = pixel_ptr-small g x j small ltx ltj in
    elim (Bool-cases (ltb j y)) [
      | inl a ↦
          let lt : j < y = ground arith in
          let fit = line_fits j y g.pixels_per_line lt in rw (p, q) (ground arith)
      | inr a ↦
          let lt : y < j = ground arith in
          let fit = line_fits y j g.pixels_per_line lt in rw (p, q) (ground arith)
    ]

-- The rectangle of `w` by `n` pixels at `x` and `y` holds `v`, and all other cells are as they were.
pub record HoldsArea (g : Gfxbuf) (x y w n : ℕ) (v : ℕ → ℕ → Option ℕ) (m m' : Pixels)
    : Type 0 where
  pub within : (i j : ℕ) → i < w → j < n → m' (pixel_ptr g (x + i) (y + j)) ≡ v i j
  pub frame : (q : Ptr) → ((i j : ℕ) → i < w → j < n → q ≢ pixel_ptr g (x + i) (y + j)) → m' q ≡ m q

pub pixel_ptr-right :
    (g : Gfxbuf) (x y i : ℕ)
    → g.height * g.pixels_per_line ≤ 2 ^ 32
    → x + i < g.pixels_per_line
    → y < g.height
    → pixel_ptr g (x + i) y ≡ pixel_ptr g x y + i
pixel_ptr-right g x y i small ltx lty =
    let a = pixel_ptr-small g (x + i) y small ltx lty in
    let ltx' : x < g.pixels_per_line = omega arith in
    let b = pixel_ptr-small g x y small ltx' lty in omega arith

-- Lines that stand below each other are a rectangle.
pub HoldsLines-HoldsArea :
    (g : Gfxbuf) (at : ℕ → Ptr) (x y w n : ℕ) (v : ℕ → ℕ → Option ℕ) (m m' : Pixels)
    → g.height * g.pixels_per_line ≤ 2 ^ 32
    → x + w ≤ g.pixels_per_line
    → y + n ≤ g.height
    → ((j : ℕ) → at j ≡ pixel_ptr g x (y + j))
    → HoldsLines at w (λ j i. v i j) 0 n m m'
    → HoldsArea g x y w n v m m'
HoldsLines-HoldsArea g at x y w n v m m' small lew leh e r = record {
  within = λ i j lti ltj.
      ap m' (
        pixel_ptr-right g x (y + j) i small (omega arith) (omega arith)
        ∙ ap (λ p. p + i) (sym (e j)))
      ∙ r.within j i (omega arith) (omega arith) lti;
  frame = λ q off. r.frame q (λ j low high. elim (Bool-cases (inside (at j) w q)) [
    | inr f ↦ f
    | inl f ↦
        let ej = e j in
        let lti : q - at j < w = ground arith in
        let k : q ≡ at j + (q - at j) = ground arith in
        let p = pixel_ptr-right g x (y + j) (q - at j) small (omega arith) (omega arith) in
        let ltj : j < n = omega arith in
        let same : q ≡ pixel_ptr g (x + (q - at j)) (y + j) =
          k ∙ ap (λ p. p + (q - at j)) ej ∙ sym p in
        absurd (off (q - at j) j lti ltj same)
  ]);
}
