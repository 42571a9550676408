-- ===== src/Frame/Io.antt =====
-- Frame input and output of src/aftp/frame.rs. What tokio's `AsyncRead` delivers is a list of bytes
-- and the way it ends; a writer is the list of bytes that were written.
use agentic_file_transfer.Base.{
  ℕ, ◌-◌, ◌%◌, ◌^◌, List, [], ◌∷◌, ◌++◌, not, ◌||◌, ◌⊎◌, inl, inr, length, take, drop, slice,
  get_or, le_bytes, le_value, leb, ltb, ◌==◌, if◌then◌else◌, Result, ok, err, AftError, Message,
  IoError,
}
use agentic_file_transfer.Base.Fallible.{◌>>=◌}
use agentic_file_transfer.Frame.Types.{FrameHeader, Frame, magic, version, header_size}

-- What a read beyond the last byte meets.
pub data Ending : Type 0 where
  closed failing : Ending

pub record Source : Type 0 where
  pub bytes : List ℕ
  pub ending : Ending

abbrev pub ending_error : Ending → IoError
ending_error Ending.closed = IoError.unexpected_eof
ending_error Ending.failing = IoError.other_io

-- tokio's `read_exact` into a buffer of `n` bytes.
abbrev pub read_exact : ℕ → Source → (List ℕ × Source) ⊎ IoError
read_exact n r =
    if leb n (length r.bytes)
    then inl (take n r.bytes, record r { bytes = drop n r.bytes })
    else inr (ending_error r.ending)

unfoldable pub check_header : List ℕ → Result FrameHeader
check_header buf =
    if not (get_or buf 0 0 == get_or magic 0 0) || not (get_or buf 1 0 == get_or magic 1 0)
    then err (AftError.other Message.invalid_magic)
    else if not (get_or buf 2 0 == version)
    then err (AftError.other (Message.unsupported_version (get_or buf 2 0)))
    else ok (record {
      frame_type = get_or buf 3 0;
      flags = get_or buf 4 0;
      payload_len = le_value (slice buf 6 4);
    })

unfoldable pub read_frame_header : Source → Result (FrameHeader × Source)
unfolding check_header
read_frame_header r = elim (read_exact header_size r) [
  | inl (buf, r') ↦ check_header buf >>= λ hdr. ok (hdr, r')
  | inr e ↦ elim e [
    | IoError.unexpected_eof ↦ err (AftError.connection_failed Message.connection_closed)
    | IoError.other_io ↦ err (AftError.io IoError.other_io)
  ]
]

-- The rest of `read_frame`, behind the header.
unfoldable pub read_payload : FrameHeader → Source → ℕ → Result (Frame × Source)
read_payload hdr r max_payload =
    if ltb max_payload hdr.payload_len
    then err (AftError.other (Message.payload_too_large hdr.payload_len max_payload))
    else if ltb 0 hdr.payload_len
    then elim (read_exact hdr.payload_len r) [
      | inl (payload, r') ↦
          ok (record { frame_type = hdr.frame_type; flags = hdr.flags; payload = payload }, r')
      | inr e ↦ err (AftError.io e)
    ]
    else ok (record { frame_type = hdr.frame_type; flags = hdr.flags; payload = [] }, r)

unfoldable pub read_frame : Source → ℕ → Result (Frame × Source)
unfolding read_frame_header read_payload
read_frame r max_payload = do (hdr, r') ← read_frame_header r; read_payload hdr r' max_payload

-- `write_frame_header`; byte 5 is reserved.
unfoldable pub write_frame_header : List ℕ → ℕ → ℕ → ℕ → List ℕ
write_frame_header w frame_type flags payload_len =
    w ++ (magic ++ (version ∷ frame_type ∷ flags ∷ 0 ∷ le_bytes 4 payload_len))

unfoldable pub write_frame : List ℕ → Frame → List ℕ
unfolding write_frame_header
write_frame w frame =
    let w' = write_frame_header w frame.frame_type frame.flags (length frame.payload % 2 ^ 32) in
    if ltb 0 (length frame.payload) then w' ++ frame.payload else w'

-- `crc32fast::hash` is a parameter.
module _ (hash : List ℕ → ℕ) where
  unfoldable pub verify_frame_crc32 : List ℕ → Result ℕ
  verify_frame_crc32 payload =
      if ltb (length payload) 4
      then err (AftError.other Message.crc_trailer_short)
      else let data_len = length payload - 4 in
        let expected = le_value (slice payload data_len 4) in
        let actual = hash (take data_len payload) in
        if not (expected == actual)
        then err (AftError.other (Message.crc_mismatch expected actual))
        else ok data_len
