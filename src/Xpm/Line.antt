-- ===== src/Xpm/Line.antt =====
-- One line of an XPM.
use mathlib.Core.Path.{fun_ext}
use libbase.Base.{
  ℕ, zero, suc, ◌+◌, ◌-◌, ◌*◌, ◌≤◌, ◌<◌, true, false, ◌≡◌, refl, arith, ◌∙◌, ap, sym, Option, some,
  List, drop, ltb, ◌==◌, if◌then◌else◌, Bool-cases, inl, inr,
}
use libbase.Memory.{ok, write, write_ne}
use libbase.Text.{Text}
use libbase.Gfxbuf.{Pixels, Gfxbuf, uint32, pixel_ptr, pixel_at, set_pixel}
use libbase.Gfxbuf.Paint.{inside, painted, painted_one, painted_none, store-write, write-Allocated}
use libbase.Gfxbuf.Area.{IsGfxbuf, pixel_ptr-right, pixel_ptr-Allocated, line_fits}
use libbase.Xpm.{Color, lookup_color, put_line}

-- What a pixel shows: a color of 0 is transparent.
abbrev pub shown : ℕ → Option ℕ → Option ℕ
shown color old = if color == 0 then old else some color

painted_keep :
    (m : Pixels) (d n : ℕ) (f g : ℕ → Option ℕ)
    → f 0 ≡ m d
    → ((i : ℕ) → i < n → g i ≡ f (suc i))
    → painted m (suc d) n g ≡ painted m d (suc n) f
painted_keep m d n f g e h = fun_ext λ q. elim (Bool-cases (inside (suc d) n q)) [
  | inl a ↦
      let b : inside d (suc n) q ≡ true = ground arith in
      let lt : q - suc d < n = ground arith in
      let k : q - d ≡ suc (q - suc d) = ground arith in rw (a, b) (h (q - suc d) lt ∙ ap f (sym k))
  | inr a ↦ elim (Bool-cases (q == d)) [
    | inl b ↦
        let c : inside d (suc n) q ≡ true = ground arith in
        let k : q - d ≡ 0 = ground arith in
        let same : q ≡ d = ground arith in rw (a, c, k, e) (ap m same)
    | inr b ↦ let c : inside d (suc n) q ≡ false = ground arith in rw (a, c) refl
  ]
]

write-IsGfxbuf :
    (g : Gfxbuf) (m : Pixels) (p color : ℕ) → IsGfxbuf g m → IsGfxbuf g (write m p color)
write-IsGfxbuf g m p color b = record {
  fits = b.fits;
  small = b.small;
  allocated = write-Allocated m p color g.data_ptr (g.height * g.pixels_per_line) b.allocated;
}

pub set_pixel-write :
    (g : Gfxbuf) (m : Pixels) (x y color : ℕ)
    → IsGfxbuf g m
    → x < g.width
    → y < g.height
    → set_pixel g x y color m ≡ ok tt (write m (pixel_ptr g x y) color)
unfolding set_pixel pixel_at
set_pixel-write g m x y color b ltx lty =
    let fits = b.fits in
    let there =
      pixel_ptr-Allocated g m x y 1 b (omega arith) lty (pixel_ptr g x y) (ground arith) in
    let e : ltb x g.width ≡ true = ground arith in
    let f : ltb y g.height ≡ true = ground arith in
    rw (e, f) (store-write m (pixel_ptr g x y) color there)

module _ (g : Gfxbuf) (cpp : ℕ) (colors : List Color) (line : Text) (dx y w : ℕ) (col : ℕ → ℕ)
    (known : (i : ℕ)
      → i < w
      → lookup_color cpp colors (drop (uint32 (i * cpp)) line) ≡ some (col i))
    (lew : dx + w ≤ g.width) (lty : y < g.height) where
  -- The pixels from `x` on.
  abbrev pub after : Pixels → ℕ → ℕ → ℕ → Pixels
  after m d x n = painted m d n (λ i. shown (col (x + i)) (m (d + i)))

  cell_eq :
      (m : Pixels) (x x' d d' : ℕ) → x ≡ x' → d ≡ d' → shown (col x) (m d) ≡ shown (col x') (m d')
  cell_eq m x x' d d' ex ed = ap (λ k. shown (col k) (m d)) ex ∙ ap (λ k. shown (col x') (m k)) ed

  pub put_line-painted :
      (m : Pixels) (d x n : ℕ)
      → IsGfxbuf g m
      → d ≡ pixel_ptr g dx y + x
      → x + n ≤ w
      → put_line g cpp colors line dx y x n m ≡ ok tt (after m d x n)
  unfolding put_line
  put_line-painted m d x zero b e le =
      ap (λ v. ok tt v) (painted_none m d (λ i. shown (col (x + i)) (m (d + i))))
  put_line-painted m d x (suc n) b e le =
      let fits = b.fits in
      let small = b.small in
      let fit = line_fits y g.height g.pixels_per_line lty in
      let ltx : x < w = omega arith in
      let u : uint32 (dx + x) ≡ dx + x = ground arith in
      let at : pixel_ptr g (dx + x) y ≡ d =
        pixel_ptr-right g dx y x small (omega arith) lty ∙ sym e in
      let e' : suc d ≡ pixel_ptr g dx y + suc x = omega arith in
      elim (Bool-cases (col x == 0)) [
        | inl z ↦
            let rest = put_line-painted m (suc d) (suc x) n b e' (omega arith) in
            rw (u, known x ltx, z)
              (rest
                ∙ ap (λ v. ok tt v)
                    (painted_keep m d n (λ i. shown (col (x + i)) (m (d + i)))
                      (λ i. shown (col (suc x + i)) (m (suc d + i)))
                      (cell_eq m (x + 0) x (d + 0) d (omega arith) (omega arith) ∙ rw z refl)
                      (λ i lt.
                        cell_eq m (suc x + i) (x + suc i) (suc d + i) (d + suc i) (omega arith)
                          (omega arith))))
        | inr z ↦
            let m' = write m d (col x) in
            let set : set_pixel g (dx + x) y (col x) m ≡ ok tt m' =
              set_pixel-write g m (dx + x) y (col x) b (omega arith) lty
              ∙ ap (λ p. ok tt (write m p (col x))) at in
            let rest =
              put_line-painted m' (suc d) (suc x) n (write-IsGfxbuf g m d (col x) b) e'
                (omega arith) in
            rw (u, known x ltx, z, set)
              (rest
                ∙ ap (λ v. ok tt v)
                    (painted_one m d n (col x) (λ i. shown (col (x + i)) (m (d + i)))
                      (λ i. shown (col (suc x + i)) (m' (suc d + i)))
                      (cell_eq m (x + 0) x (d + 0) d (omega arith) (omega arith) ∙ rw z refl)
                      (λ i lt.
                        let other : (suc d + i == d) ≡ false = ground arith in
                        ap (shown (col (suc x + i))) (write_ne m d (suc d + i) (col x) other)
                        ∙ cell_eq m (suc x + i) (x + suc i) (suc d + i) (d + suc i) (omega arith)
                            (omega arith))))
      ]
