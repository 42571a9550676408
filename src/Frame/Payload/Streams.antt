-- ===== src/Frame/Payload/Streams.antt =====
-- STREAM_OPEN, STREAM_CLOSE and STREAM_DATA of src/aftp/frame.rs.
use agentic_file_transfer.Base.{
  ℕ, ◌+◌, ◌%◌, ◌^◌, List, [], ◌++◌, Result, ok, err, AftError, Message, length, slice, ltb,
  if◌then◌else◌,
}
use agentic_file_transfer.Frame.Wire.{put_u8, put_u16, put_u32, get_u8, get_u16, get_u32}
use agentic_file_transfer.Frame.Reader.{Reader, ◌>>=◌, pure, run}

unfoldable pub build_stream_open : ℕ → List ℕ
unfolding put_u16
build_stream_open stream_id = put_u16 [] stream_id

unfoldable pub build_stream_close : ℕ → List ℕ
unfolding put_u16
build_stream_close stream_id = put_u16 [] stream_id

unfoldable pub build_stream_data : ℕ → ℕ → List ℕ → List ℕ
unfolding put_u8 put_u16 put_u32
build_stream_data stream_id inner_frame_type bytes =
    put_u32 (put_u8 (put_u16 [] stream_id) inner_frame_type) (length bytes % 2 ^ 32) ++ bytes

pub record StreamOpenPayload : Type 0 where
  pub stream_id : ℕ

unfoldable pub parse_stream_open : List ℕ → Result StreamOpenPayload
parse_stream_open = run do stream_id ← get_u16; pure (record { stream_id = stream_id })

pub record StreamClosePayload : Type 0 where
  pub stream_id : ℕ

unfoldable pub parse_stream_close : List ℕ → Result StreamClosePayload
parse_stream_close = run do stream_id ← get_u16; pure (record { stream_id = stream_id })

pub record StreamDataPayload : Type 0 where
  pub stream_id : ℕ
  pub inner_frame_type : ℕ
  pub bytes : List ℕ

-- `payload[off..off + len]` behind its bounds check, which fails with `e`.
abbrev pub exactly : AftError → ℕ → Reader (List ℕ)
exactly e len payload off =
    if ltb (length payload) (off + len) then err e else ok (slice payload off len, off + len)

unfoldable pub parse_stream_data : List ℕ → Result StreamDataPayload
parse_stream_data = run do
  stream_id ← get_u16
  inner_frame_type ← get_u8
  data_len ← get_u32
  bytes ← exactly (AftError.other Message.truncated_stream_data) data_len
  pure (record { stream_id = stream_id; inner_frame_type = inner_frame_type; bytes = bytes })
