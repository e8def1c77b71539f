-- ===== src/File/Buffer.antt =====
-- `bs_file_read_buffer` and `bs_file_write_buffer` of file.c. What the calls of the operating system
-- return is a parameter: a file descriptor or nothing, the bytes that are read or nothing, the number
-- of bytes written or nothing, and whether the file is closed. The state is the buffer.
pub mod Read
use libbase.Base.{
  ℕ, ◌-◌, ◌^◌, Bool, true, false, Option, none, some, List, [], ◌∷◌, length, leb, ◌==◌,
  if◌then◌else◌,
}
use libbase.Base.Int.{ℤ, pos, negsuc}
use libbase.Memory.{Cmd, pure, ◌>>=◌, ◌>>◌}
use libbase.Text.{Text}
use libbase.Strutil.{memmove}

-- The test of what was read, as a `size_t`, and the NUL behind it.
abbrev pub terminate : ℕ → ℕ → ℤ → Cmd (List ℕ) ℤ
terminate buf_len size read_bytes =
    if leb buf_len size then pure (negsuc 0) else do memmove size (0 ∷ []); pure read_bytes

abbrev pub after_read : ℕ → Option (List ℕ) → Cmd (List ℕ) ℤ
after_read buf_len none = terminate buf_len (2 ^ 64 - 1) (negsuc 0)
after_read buf_len (some bytes) = do
  memmove 0 bytes
  terminate buf_len (length bytes) (pos (length bytes))

module _ (open_file : Text → Option ℕ) (close : ℕ → Bool) where
  module _ (read : ℕ → ℕ → Option (List ℕ)) where
    abbrev pub read_opened : ℕ → Option ℕ → Cmd (List ℕ) ℤ
    read_opened buf_len none = pure (negsuc 0)
    read_opened buf_len (some fd) = do
      read_bytes ← after_read buf_len (read fd buf_len)
      pure (if close fd then read_bytes else negsuc 0)

    unfoldable pub read_buffer : Text → ℕ → Cmd (List ℕ) ℤ
    read_buffer fname buf_len = read_opened buf_len (open_file fname)

  module _ (write : ℕ → List ℕ → Option ℕ) where
    abbrev pub after_write : ℕ → Option ℕ → ℤ
    after_write buf_len none = negsuc 0
    after_write buf_len (some written_bytes) =
        if written_bytes == buf_len then pos written_bytes else negsuc 0

    abbrev pub write_opened : List ℕ → Option ℕ → ℤ
    write_opened buf none = negsuc 0
    write_opened buf (some fd) =
        if close fd then after_write (length buf) (write fd buf) else negsuc 0

    unfoldable pub write_buffer : Text → List ℕ → ℤ
    write_buffer fname buf = write_opened buf (open_file fname)
