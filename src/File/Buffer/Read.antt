-- ===== src/File/Buffer/Read.antt =====
-- What `bs_file_read_buffer` leaves in the buffer.
use libbase.Base.{
  ℕ, suc, ◌+◌, ◌-◌, ◌^◌, ◌≤◌, ◌<◌, Bool, true, false, ◌&&◌, ◌≡◌, refl, arith, ◌∙◌, ap, Option, none,
  some, List, [], ◌∷◌, ◌++◌, length, leb, ltb, Bool-cases, inl, inr, if◌then◌else◌,
}
use libbase.Base.Int.{ℤ, pos, negsuc}
use libbase.Memory.{
  Outcome, abort, fault, out_of_fuel, Cmd, Returns-and_then, Returns, ok, and_then, pure, ◌>>=◌,
  ◌>>◌,
}
use libbase.Text.{Text}
use libbase.Strutil.{memmove}
use libbase.Strutil.Append.{HoldsText, moves}
use libbase.File.Buffer.{after_read, read_buffer}

and_then_assoc :
    {A B C : Type 0} (o : Outcome (List ℕ) A) (k : A → Cmd (List ℕ) B) (l : B → Cmd (List ℕ) C)
    → and_then o (λ a s. and_then (k a s) l) ≡ and_then (and_then o k) l
and_then_assoc (ok a s) k l = refl
and_then_assoc abort k l = refl
and_then_assoc fault k l = refl
and_then_assoc out_of_fuel k l = refl

-- The bytes fit, and a NUL.
after_read-fits :
    (buf bytes : List ℕ)
    → length bytes < length buf
    → Returns
        (λ n u. (n ≡ pos (length bytes)) × HoldsText u bytes)
        (after_read (length buf) (some bytes) buf)
after_read-fits [] bytes lt = elim lt [ ]
after_read-fits (y ∷ rest) bytes lt =
    let (more, l, e) = moves [] y rest bytes (omega arith) in
    let f : leb (suc (length rest)) (length bytes) ≡ false = ground arith in
    let at : length bytes ≡ 0 + length bytes = omega arith in
    let run : (memmove 0 bytes >> (memmove (length bytes) (0 ∷ []) >> pure (pos (length bytes))))
          (y ∷ rest)
        ≡ ok (pos (length bytes)) (bytes ++ 0 ∷ more) =
      ap (λ i. (memmove 0 bytes >> (memmove i (0 ∷ []) >> pure (pos (length bytes)))) (y ∷ rest)) at
      ∙ and_then_assoc (memmove 0 bytes (y ∷ rest)) (λ u. memmove (0 + length bytes) (0 ∷ []))
          (λ u. pure (pos (length bytes)))
      ∙ ap (λ o. and_then o (λ u. pure (pos (length bytes)))) e in
    rw (f, run) (refl, (more, refl))

-- They do not.
after_read-long :
    (buf bytes : List ℕ)
    → length bytes ≡ length buf
    → Returns (λ n u. n ≡ negsuc 0) (after_read (length buf) (some bytes) buf)
unfolding memmove
after_read-long buf bytes e =
    let f : leb (0 + length bytes) (length buf) ≡ true = ground arith in
    let g : leb (length buf) (length bytes) ≡ true = ground arith in rw (f, g) refl

-- What is returned for the bytes that were read, and what the buffer then holds.
abbrev pub IsRead : ℕ → Bool → Option (List ℕ) → ℤ → List ℕ → Type 0
IsRead buf_len closed none n u = n ≡ negsuc 0
IsRead buf_len closed (some bytes) n u =
    (n ≡ (if ltb (length bytes) buf_len && closed then pos (length bytes) else negsuc 0))
    × (ltb (length bytes) buf_len ≡ true → HoldsText u bytes)

-- `read` returns as many bytes as it is asked for at most.
abbrev pub Fits : ℕ → Option (List ℕ) → Type 0
Fits buf_len none = Unit
Fits buf_len (some bytes) = length bytes ≤ buf_len

same_either : (b : Bool) (n : ℤ) → (if b then n else n) ≡ n
same_either true n = refl
same_either false n = refl

closing :
    (buf : List ℕ) (closed : Bool) (o : Option (List ℕ))
    → Fits (length buf) o
    → length buf < 2 ^ 64
    → Returns
        (IsRead (length buf) closed o)
        ((after_read (length buf) o >>= λ n. pure (if closed then n else negsuc 0)) buf)
closing buf closed none fits small =
    let f : leb (length buf) (2 ^ 64 - 1) ≡ true = ground arith in
    rw f (same_either closed (negsuc 0))
closing buf closed (some bytes) fits small = elim (Bool-cases (ltb (length bytes) (length buf))) [
  | inl e ↦
      Returns-and_then (IsRead (length buf) closed (some bytes))
        (after_read (length buf) (some bytes) buf) (λ n. pure (if closed then n else negsuc 0))
        (after_read-fits buf bytes (ground arith))
        (λ n u r. rw e (ap (λ k. if closed then k else negsuc 0) r.0, λ t. r.1))
  | inr e ↦
      let same : length bytes ≡ length buf = ground arith in
      Returns-and_then (IsRead (length buf) closed (some bytes))
        (after_read (length buf) (some bytes) buf) (λ n. pure (if closed then n else negsuc 0))
        (after_read-long buf bytes same)
        (λ n u r. rw e (
          ap (λ k. if closed then k else negsuc 0) r ∙ same_either closed (negsuc 0),
          λ t. absurd (ground arith),
        ))
]

-- `bs_file_read_buffer` of a file that can be opened, into a buffer of any contents: with fewer bytes
-- than the buffer has, and if the file is closed, it returns their number, and the buffer holds them
-- and a NUL; with more, or if reading or closing fails, it returns -1. Nothing is written behind the
-- end of the buffer.
pub read_buffer-IsRead :
    (open_file : Text → Option ℕ) (close : ℕ → Bool) (read : ℕ → ℕ → Option (List ℕ)) (fname : Text)
    (fd : ℕ) (buf : List ℕ)
    → open_file fname ≡ some fd
    → Fits (length buf) (read fd (length buf))
    → length buf < 2 ^ 64
    → Returns
        (IsRead (length buf) (close fd) (read fd (length buf)))
        (read_buffer open_file close read fname (length buf) buf)
unfolding read_buffer
read_buffer-IsRead open_file close read fname fd buf e fits small =
    rw e (closing buf (close fd) (read fd (length buf)) fits small)
