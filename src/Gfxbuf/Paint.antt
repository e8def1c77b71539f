-- ===== src/Gfxbuf/Paint.antt =====
-- What `fill` and `memcpy` leave in the memory: a run of cells is painted.
use mathlib.Core.Path.{fun_ext}
use libbase.Base.{
  ℕ, zero, suc, ◌+◌, ◌-◌, ◌<◌, Bool, true, false, ◌&&◌, ◌||◌, ◌≡◌, refl, arith, ◌∙◌, ap, sym,
  Option, none, some, inl, inr, ltb, leb, ◌==◌, if◌then◌else◌, Bool-cases,
}
use libbase.Memory.{Ptr, ok, write, write_ne}
use libbase.Gfxbuf.{Pixels, store, fill, copy_cells, memcpy}

-- `q` is one of the `n` cells from `d`.
abbrev pub inside : Ptr → ℕ → Ptr → Bool
inside d n q = leb d q && ltb q (d + n)

abbrev pub has : Option ℕ → Bool
has none = false
has (some c) = true

-- The `n` cells from `d` are there.
abbrev pub Allocated : Pixels → Ptr → ℕ → Type 0
Allocated m d n = (q : Ptr) → inside d n q ≡ true → has (m q) ≡ true

-- The memory with `f i` in the cell `d + i`.
abbrev pub painted : Pixels → Ptr → ℕ → (ℕ → Option ℕ) → Pixels
painted m d n f q = if inside d n q then f (q - d) else m q

pub has-some : (o : Option ℕ) → has o ≡ true → (c : ℕ) × (o ≡ some c)
has-some none e = absurd (ground arith)
has-some (some c) e = (c, refl)

pub store-write :
    (m : Pixels) (p : Ptr) (color : ℕ)
    → has (m p) ≡ true
    → store p color m ≡ ok tt (write m p color)
unfolding store
store-write m p color e = let (c, f) = has-some (m p) e in rw f refl

pub write-Allocated :
    (m : Pixels) (p color d n : ℕ) → Allocated m d n → Allocated (write m p color) d n
unfolding write
write-Allocated m p color d n a q e = elim (Bool-cases (q == p)) [
  | inl f ↦ rw f refl
  | inr f ↦ rw f (a q e)
]

Allocated-suc : (m : Pixels) (d n : ℕ) → Allocated m d (suc n) → Allocated m (suc d) n
Allocated-suc m d n a q e = a q (ground arith)

pub painted_one :
    (m : Pixels) (d n color : ℕ) (f g : ℕ → Option ℕ)
    → f 0 ≡ some color
    → ((i : ℕ) → i < n → g i ≡ f (suc i))
    → painted (write m d color) (suc d) n g ≡ painted m d (suc n) f
unfolding write
painted_one m d n color f g e h = fun_ext λ q. elim (Bool-cases (inside (suc d) n q)) [
  | inl a ↦
      let b : inside d (suc n) q ≡ true = ground arith in
      let lt : q - suc d < n = ground arith in
      let k : q - d ≡ suc (q - suc d) = ground arith in rw (a, b) (h (q - suc d) lt ∙ ap f (sym k))
  | inr a ↦ elim (Bool-cases (q == d)) [
    | inl b ↦
        let c : inside d (suc n) q ≡ true = ground arith in
        let k : q - d ≡ 0 = ground arith in rw (a, b, c, k, e) refl
    | inr b ↦ let c : inside d (suc n) q ≡ false = ground arith in rw (a, b, c) refl
  ]
]

pub painted_none : (m : Pixels) (d : ℕ) (f : ℕ → Option ℕ) → m ≡ painted m d 0 f
painted_none m d f = fun_ext λ q. let e : inside d 0 q ≡ false = ground arith in rw e refl

pub fill-painted :
    (m : Pixels) (d n color : ℕ)
    → Allocated m d n
    → fill d n color m ≡ ok tt (painted m d n (λ i. some color))
unfolding fill
fill-painted m d zero color a = ap (λ u. ok tt u) (painted_none m d (λ i. some color))
fill-painted m d (suc n) color a =
    let here = store-write m d color (a d (ground arith)) in
    let rest =
      fill-painted (write m d color) (suc d) n color
        (write-Allocated m d color (suc d) n (Allocated-suc m d n a)) in
    rw here (
      rest
      ∙ ap (λ u. ok tt u)
          (painted_one m d n color (λ i. some color) (λ i. some color) refl (λ i lt. refl)))

pub copy_cells-painted :
    (m : Pixels) (d s n : ℕ)
    → Allocated m d n
    → Allocated m s n
    → ((leb (d + n) s || leb (s + n) d) ≡ true)
    → copy_cells d s n m ≡ ok tt (painted m d n (λ i. m (s + i)))
unfolding copy_cells
copy_cells-painted m d s zero a b e = ap (λ u. ok tt u) (painted_none m d (λ i. m (s + i)))
copy_cells-painted m d s (suc n) a b e =
    let (color, c) = has-some (m s) (b s (ground arith)) in
    let here = store-write m d color (a d (ground arith)) in
    let rest =
      copy_cells-painted (write m d color) (suc d) (suc s) n
        (write-Allocated m d color (suc d) n (Allocated-suc m d n a))
        (write-Allocated m d color (suc s) n (Allocated-suc m s n b)) (ground arith) in
    let zero_th : m (s + 0) ≡ some color = ap m (omega arith) ∙ c in
    rw (c, here)
      (rest
        ∙ ap (λ u. ok tt u)
            (painted_one m d n color (λ i. m (s + i)) (λ i. write m d color (suc s + i)) zero_th
              (λ i lt.
                let other : (suc s + i == d) ≡ false = ground arith in
                write_ne m d (suc s + i) color other ∙ ap m (omega arith))))

pub memcpy-painted :
    (m : Pixels) (d s n : ℕ)
    → Allocated m d n
    → Allocated m s n
    → (leb (d + n) s || leb (s + n) d) ≡ true
    → memcpy d s n m ≡ ok tt (painted m d n (λ i. m (s + i)))
unfolding memcpy
memcpy-painted m d s n a b e = rw e (copy_cells-painted m d s n a b e)
