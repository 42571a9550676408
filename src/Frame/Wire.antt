-- ===== src/Frame/Wire.antt =====
-- The encoding and decoding helpers of src/aftp/frame.rs. A buffer is a list of bytes, `off: &mut
-- usize` goes in and comes out, and a failed `assert!` (a panic) is `none`.
use agentic_file_transfer.Base.{
  ℕ, ◌+◌, ◌%◌, ◌^◌, List, [], ◌∷◌, ◌++◌, Option, none, some, length, slice, le_bytes, le_value,
  get_or, ltb, leb, if◌then◌else◌, Result, ok, err, AftError, Message,
}
use agentic_file_transfer.Base.Fallible.{◌>>=◌}
use agentic_file_transfer.Frame.Utf8.{from_utf8_lossy}

unfoldable pub put_u8 : List ℕ → ℕ → List ℕ
put_u8 buf val = buf ++ val ∷ []

unfoldable pub put_u16 : List ℕ → ℕ → List ℕ
put_u16 buf val = buf ++ le_bytes 2 val

unfoldable pub put_u32 : List ℕ → ℕ → List ℕ
put_u32 buf val = buf ++ le_bytes 4 val

unfoldable pub put_u64 : List ℕ → ℕ → List ℕ
put_u64 buf val = buf ++ le_bytes 8 val

unfoldable pub put_str : List ℕ → List ℕ → Option (List ℕ)
unfolding put_u16
put_str buf s = if leb (length s) 65_535 then some (put_u16 buf (length s % 2 ^ 16) ++ s) else none

unfoldable pub put_bytes : List ℕ → List ℕ → Option (List ℕ)
unfolding put_u16
put_bytes buf bs =
    if leb (length bs) 65_535 then some (put_u16 buf (length bs % 2 ^ 16) ++ bs) else none

unfoldable pub get_u8 : List ℕ → ℕ → Result (ℕ × ℕ)
get_u8 buf off =
    if ltb (length buf) (off + 1)
    then err (AftError.other Message.truncated_u8)
    else ok (get_or buf off 0, off + 1)

unfoldable pub get_u16 : List ℕ → ℕ → Result (ℕ × ℕ)
get_u16 buf off =
    if ltb (length buf) (off + 2)
    then err (AftError.other Message.truncated_u16)
    else ok (le_value (slice buf off 2), off + 2)

unfoldable pub get_u32 : List ℕ → ℕ → Result (ℕ × ℕ)
get_u32 buf off =
    if ltb (length buf) (off + 4)
    then err (AftError.other Message.truncated_u32)
    else ok (le_value (slice buf off 4), off + 4)

unfoldable pub get_u64 : List ℕ → ℕ → Result (ℕ × ℕ)
get_u64 buf off =
    if ltb (length buf) (off + 8)
    then err (AftError.other Message.truncated_u64)
    else ok (le_value (slice buf off 8), off + 8)

unfoldable pub get_str : List ℕ → ℕ → Result (List ℕ × ℕ)
get_str buf off = do
  (len, off') ← get_u16 buf off
  if ltb (length buf) (off' + len)
      then err (AftError.other Message.truncated_string)
      else ok (from_utf8_lossy (slice buf off' len), off' + len)

unfoldable pub get_bytes : List ℕ → ℕ → Result (List ℕ × ℕ)
get_bytes buf off = do
  (len, off') ← get_u16 buf off
  if ltb (length buf) (off' + len)
      then err (AftError.other Message.truncated_bytes)
      else ok (slice buf off' len, off' + len)
