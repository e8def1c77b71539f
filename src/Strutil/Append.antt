-- ===== src/Strutil/Append.antt =====
-- `bs_strappend` and `bs_vstrappendf` concatenate into a buffer, as much as fits.
use libbase.Base.{
  ℕ, zero, suc, ◌+◌, ◌-◌, ◌^◌, ◌≤◌, ◌<◌, true, false, ◌≡◌, refl, arith, ◌∙◌, ap, sym, List, [], ◌∷◌,
  ◌++◌, append_assoc, append-nil, length, length-append, length-take, take, drop, take_all,
  take_front, drop_front, leb, Bool-cases, inl, inr, if◌then◌else◌,
}
use libbase.Memory.{ok, Returns, ◌>>◌}
use libbase.Text.{Text}
use libbase.Strutil.{size_t, memmove, put_text, Vsnprintf, Formats, strappend, vstrappendf}

-- The buffer holds a string, with a NUL behind it.
abbrev pub HoldsText : List ℕ → Text → Type 0
HoldsText buf s = (rest : List ℕ) × (buf ≡ s ++ 0 ∷ rest)

memmove-middle :
    (a b c bytes : List ℕ)
    → length bytes ≡ length b
    → memmove (length a) bytes (a ++ (b ++ c)) ≡ ok tt (a ++ (bytes ++ c))
unfolding memmove
memmove-middle a b c bytes e =
    let n = length-append a (b ++ c) in
    let m = length-append b c in
    let f : leb (length a + length bytes) (length (a ++ (b ++ c))) ≡ true = ground arith in
    let t : take (length a) (a ++ (b ++ c)) ≡ a =
      ap (λ k. take k (a ++ (b ++ c))) (omega arith) ∙ take_front a (b ++ c) 0 ∙ append-nil a in
    let d : drop (length a + length bytes) (a ++ (b ++ c)) ≡ c =
      drop_front a (b ++ c) (length bytes)
      ∙ ap (λ k. drop k (b ++ c)) (e ∙ omega arith)
      ∙ drop_front b c 0 in
    rw (f, t, d, append_assoc a bytes c)

-- Both moves of an append, onto a part of the buffer that is as long.
moves_onto :
    (s bytes b more : List ℕ) (y : ℕ)
    → length bytes ≡ length b
    → (memmove (length s) bytes >> memmove (length s + length bytes) (0 ∷ []))
        (s ++ (b ++ y ∷ more))
      ≡ ok tt (s ++ bytes ++ 0 ∷ more)
moves_onto s bytes b more y e = rw (
  memmove-middle s b (y ∷ more) bytes e,
  sym (append_assoc s bytes (y ∷ more)),
  sym (length-append s bytes),
  memmove-middle (s ++ bytes) (y ∷ []) more (0 ∷ []) refl,
)

-- A part of a list as long as another, and one element behind it.
split_at :
    (n : ℕ) (xs : List ℕ)
    → n < length xs
    → (b : List ℕ) × (y : ℕ) × (more : List ℕ) × (xs ≡ b ++ y ∷ more) × (length b ≡ n)
split_at n [] lt = elim lt [ ]
split_at zero (x ∷ xs) lt = ([], x, xs, refl, refl)
split_at (suc n) (x ∷ xs) lt =
    let (b, y, more, e, l) = split_at n xs (omega arith) in
    (x ∷ b, y, more, ap (λ l'. x ∷ l') e, ap suc l)

-- Both moves of an append, where the characters and a NUL fit.
pub moves :
    (s : List ℕ) (y : ℕ) (rest bytes : List ℕ)
    → length bytes ≤ length rest
    → (more : List ℕ) × (length (s ++ bytes ++ 0 ∷ more) ≡ length (s ++ y ∷ rest))
      × ((memmove (length s) bytes >> memmove (length s + length bytes) (0 ∷ [])) (s ++ y ∷ rest)
          ≡ ok tt (s ++ bytes ++ 0 ∷ more))
moves s y rest bytes le =
    let (b, z, more, e, l) = split_at (length bytes) (y ∷ rest) (omega arith) in
    (
      more,
      omega (
        arith,
        l,
        ap (λ x. length x) e,
        length-append b (z ∷ more),
        length-append s (y ∷ rest),
        length-append (s ++ bytes) (0 ∷ more),
        length-append s bytes,
      ),
      ap (λ x. (memmove (length s) bytes >> memmove (length s + length bytes) (0 ∷ [])) (s ++ x)) e
          ∙ moves_onto s bytes b more z (sym l),
    )

put_text-fits :
    (s : List ℕ) (y : ℕ) (rest str : List ℕ) (len : ℕ)
    → len ≤ length str
    → len ≤ length rest
    → (more : List ℕ) × (length (s ++ take len str ++ 0 ∷ more) ≡ length (s ++ y ∷ rest))
      × (put_text (length s) len str (s ++ y ∷ rest) ≡ ok tt (s ++ take len str ++ 0 ∷ more))
unfolding put_text
put_text-fits s y rest str len le lt =
    let l = length-take len str le in
    let (more, e, f) = moves s y rest (take len str) (omega arith) in
    (more, e, rw (sym (ap (λ k. length s + k) l)) f)

-- How much of a string fits.
abbrev pub fit : ℕ → List ℕ → ℕ
fit n str = if leb n (length str) then n else length str

take-fit : (n : ℕ) (str : List ℕ) → take (fit n str) str ≡ take n str
take-fit n str = elim (Bool-cases (leb n (length str))) [
  | inl e ↦ rw e refl
  | inr e ↦ rw e (take_all (length str) str (omega arith) ∙ sym (take_all n str (ground arith)))
]

put_text-fit :
    (s : List ℕ) (y : ℕ) (rest str : List ℕ)
    → (more : List ℕ) × (length (s ++ take (length rest) str ++ 0 ∷ more) ≡ length (s ++ y ∷ rest))
      × (put_text (length s) (fit (length rest) str) str (s ++ y ∷ rest)
          ≡ ok tt (s ++ take (length rest) str ++ 0 ∷ more))
put_text-fit s y rest str =
    let (more, e, f) =
      put_text-fits s y rest str (fit (length rest) str) (ground arith) (ground arith) in
    let t = take-fit (length rest) str in
    (more, rw (sym t) e, f ∙ ap (λ x. ok tt (s ++ x ++ 0 ∷ more)) t)

pub strappend-buffer :
    (s : List ℕ) (y : ℕ) (rest str : List ℕ)
    → length s + length str + 1 < 2 ^ 64
    → Returns
        (λ n u.
          (n ≡ length s + length str)
          × (length u ≡ length (s ++ y ∷ rest))
          × HoldsText u (take (length (s ++ y ∷ rest) - 1) (s ++ str)))
        (strappend (length (s ++ y ∷ rest)) (length s) str (s ++ y ∷ rest))
unfolding strappend
strappend-buffer s y rest str lt =
    let n = length-append s (y ∷ rest) in
    let e : leb (length (s ++ y ∷ rest)) (length s) ≡ false = ground arith in
    let len : (if leb (length (s ++ y ∷ rest)) (size_t (length s + length str + 1))
          then length (s ++ y ∷ rest) - length s - 1
          else length str)
        ≡ fit (length rest) str =
      ground arith in
    let (more, l, f) = put_text-fit s y rest str in
    let w : length (s ++ y ∷ rest) - 1 ≡ length s + length rest = omega arith in
    rw (e, len, f, w, take_front s str (length rest)) (omega arith, l, (more, refl))

-- A buffer that holds `s` holds, after `bs_strappend` of `str` at the end of `s`, as much of the two
-- strings behind one another as fits with a NUL; the buffer keeps its size, and the result is the
-- length of the two strings, as long as that is less than 2^64. Nothing is written outside the
-- buffer.
pub strappend-HoldsText :
    (buf s str : List ℕ)
    → HoldsText buf s
    → length s + length str + 1 < 2 ^ 64
    → Returns
        (λ n u.
          (n ≡ length s + length str)
          × (length u ≡ length buf)
          × HoldsText u (take (length buf - 1) (s ++ str)))
        (strappend (length buf) (length s) str buf)
strappend-HoldsText buf s str (rest, e) lt = rw e (strappend-buffer s 0 rest str lt)

length-fit : (n : ℕ) (str : List ℕ) → length (take n str) ≡ fit n str
length-fit n str =
    ap (λ l. length l) (sym (take-fit n str)) ∙ length-take (fit n str) str (ground arith)

put_text-take :
    (at n : ℕ) (str : List ℕ)
    → put_text at (length (take n str)) (take n str) ≡ put_text at (fit n str) str
unfolding put_text
put_text-take at n str =
    let t = take_all (length (take n str)) (take n str) (omega arith) in
    rw (t, sym (take-fit n str), length-take (fit n str) str (ground arith))

vstrappendf-buffer :
    (vsnprintf : Vsnprintf) (s rest str : List ℕ)
    → Formats vsnprintf str
    → length str < 2 ^ 31
    → length rest + 1 < 2 ^ 31
    → length s + length str + 1 < 2 ^ 64
    → vstrappendf vsnprintf (length (s ++ 0 ∷ rest)) (length s) (s ++ 0 ∷ rest)
      ≡ strappend (length (s ++ 0 ∷ rest)) (length s) str (s ++ 0 ∷ rest)
unfolding vstrappendf strappend
vstrappendf-buffer vsnprintf s rest str law short room lt =
    let n = length-append s (0 ∷ rest) in
    let e : leb (length (s ++ 0 ∷ rest)) (length s) ≡ false = ground arith in
    let len : (if leb (length (s ++ 0 ∷ rest)) (size_t (length s + length str + 1))
          then length (s ++ 0 ∷ rest) - length s - 1
          else length str)
        ≡ fit (length rest) str =
      ground arith in
    let run =
      law (length s) (length (s ++ 0 ∷ rest) - length s) (s ++ 0 ∷ rest) (omega arith) (omega arith)
        short in
    let w : length (s ++ 0 ∷ rest) - length s - 1 ≡ length rest = omega arith in
    rw (e, len, run, w, put_text-take (length s) (length rest) str, (put_text-fit s 0 rest str).2)
      refl

-- `bs_vstrappendf` of a format and arguments that make `str` does what `bs_strappend` of `str` does,
-- on a buffer that holds the string `s` and with the end of `s` as the position: the buffer is left
-- the same, and so is the result. This is for a `str` of less than 2^31 characters, less than 2^31
-- bytes of the buffer from that position on, and a length of the two strings and a NUL that is less
-- than 2^64, where `vsnprintf` does what POSIX says of it.
pub vstrappendf-strappend :
    (vsnprintf : Vsnprintf) (buf s str : List ℕ)
    → Formats vsnprintf str
    → HoldsText buf s
    → length str < 2 ^ 31
    → length buf < length s + 2 ^ 31
    → length s + length str + 1 < 2 ^ 64
    → vstrappendf vsnprintf (length buf) (length s) buf ≡ strappend (length buf) (length s) str buf
vstrappendf-strappend vsnprintf buf s str law (rest, e) short room lt =
    let n = ap (λ b. length b) e ∙ length-append s (0 ∷ rest) in
    rw e (vstrappendf-buffer vsnprintf s rest str law short (omega arith) lt)
