-- ===== src/Gfxbuf/Lines.antt =====
-- A loop over lines, each of which paints cells of its own.
use libbase.Base.{
  ℕ, zero, suc, ◌+◌, ◌-◌, ◌≤◌, ◌<◌, true, false, ◌≡◌, ◌≢◌, refl, arith, ◌∙◌, sym, subst, Option,
  ◌==◌, Bool-cases, inl, inr,
}
use libbase.Memory.{Ptr, ok, Cmd, Returns, Returns-weaken}
use libbase.Gfxbuf.{Pixels, for_lines}
use libbase.Gfxbuf.Paint.{inside, painted}

pub painted_inside :
    (m : Pixels) (d n : ℕ) (f : ℕ → Option ℕ) (i : ℕ) → i < n → painted m d n f (d + i) ≡ f i
painted_inside m d n f i lt =
    let e : inside d n (d + i) ≡ true = ground arith in
    let k : d + i - d ≡ i = omega arith in rw (e, k) refl

pub painted_outside :
    (m : Pixels) (d n : ℕ) (f : ℕ → Option ℕ) (q : Ptr)
    → inside d n q ≡ false
    → painted m d n f q ≡ m q
painted_outside m d n f q e = rw e refl

-- The lines from `y` to `y + n` that stand at `at` and are `w` cells long.
abbrev pub Off : (ℕ → Ptr) → ℕ → ℕ → ℕ → Ptr → Type 0
Off at w y n q = (j : ℕ) → y ≤ j → j < y + n → inside (at j) w q ≡ false

-- The lines hold `v`, and the other cells are as they were.
pub record HoldsLines (at : ℕ → Ptr) (w : ℕ) (v : ℕ → ℕ → Option ℕ) (y n : ℕ) (m m' : Pixels)
    : Type 0 where
  pub within : (j i : ℕ) → y ≤ j → j < y + n → i < w → m' (at j + i) ≡ v j i
  pub frame : (q : Ptr) → Off at w y n q → m' q ≡ m q

module _ (at : ℕ → Ptr) (w h : ℕ) (v : ℕ → ℕ → Option ℕ)
    (apart : (j y i : ℕ) → j ≢ y → j < h → y < h → i < w → inside (at j) w (at y + i) ≡ false) where
  -- A line is painted, and then those below it.
  pub more :
      (y n : ℕ) (m m' : Pixels)
      → y + suc n ≤ h
      → HoldsLines at w v (suc y) n (painted m (at y) w (v y)) m'
      → HoldsLines at w v y (suc n) m m'
  more y n m m' le r = record {
    within = λ j i low high lt. elim (Bool-cases (j == y)) [
      | inr e ↦ r.within j i (ground arith) (ground arith) lt
      | inl e ↦
          let same : j ≡ y = ground arith in
          let off : Off at w (suc y) n (at y + i) = λ k a b.
            apart k y i (λ f. let no : ⊥ = omega arith in no) (omega arith) (omega arith) lt in
          subst (λ k. m' (at k + i) ≡ v k i) (sym same)
            (r.frame (at y + i) off ∙ painted_inside m (at y) w (v y) i lt)
    ];
    frame = λ q off.
        r.frame q (λ j a b. off j (omega arith) (omega arith))
        ∙ painted_outside m (at y) w (v y) q (off y (omega arith) (omega arith));
  }

module _ (line : ℕ → Cmd Pixels (Unit {0})) (at : ℕ → Ptr) (w h : ℕ) (v : ℕ → ℕ → Option ℕ)
    (Good : Pixels → Type 0)
    (runs : (y : ℕ) (m : Pixels)
      → y < h
      → Good m
      → (line y m ≡ ok tt (painted m (at y) w (v y))) × Good (painted m (at y) w (v y)))
    (apart : (j y i : ℕ) → j ≢ y → j < h → y < h → i < w → inside (at j) w (at y + i) ≡ false) where
  pub for_lines-HoldsLines :
      (y n : ℕ) (m : Pixels)
      → y + n ≤ h
      → Good m
      → Returns (λ u m'. HoldsLines at w v y n m m') (for_lines line y n m)
  unfolding for_lines
  for_lines-HoldsLines y zero m le good = record {
    within = λ j i low high lt. let no : ⊥ = omega arith in elim no [ ];
    frame = λ q off. refl;
  }
  for_lines-HoldsLines y (suc n) m le good =
      let r = runs y m (omega arith) good in
      rw (r.0) (
        Returns-weaken (λ u m'. HoldsLines at w v y (suc n) m m')
          (for_lines line (suc y) n (painted m (at y) w (v y)))
          (λ u m' s. more at w h v apart y n m m' le s)
          (for_lines-HoldsLines (suc y) n (painted m (at y) w (v y)) (omega arith) r.1))
