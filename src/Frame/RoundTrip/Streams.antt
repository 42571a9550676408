-- ===== src/Frame/RoundTrip/Streams.antt =====
-- Proofs on the stream payloads of src/aftp/frame.rs.
use agentic_file_transfer.Base.{
  ℕ, ◌+◌, ◌%◌, ◌^◌, ◌<◌, ◌≡◌, refl, List, [], ◌∷◌, ◌++◌, arith, ok, length, le_bytes, ge→ltb,
  AftError,
}
use agentic_file_transfer.Frame.Reader.{start, At-u8, At-u16, At-u32, At, offset_fits, slice_at}
use agentic_file_transfer.Frame.Payload.Streams.{
  build_stream_open, parse_stream_open, build_stream_close, parse_stream_close, build_stream_data,
  parse_stream_data, exactly,
}

-- A bounded slice takes the bytes that stand there.
pub At-exactly :
    (e : AftError) (bs : List ℕ) {buf : List ℕ} {off : ℕ} (rest : List ℕ)
    → At buf off (bs ++ rest)
    → exactly e (length bs) buf off ≡ ok (bs, off + length bs)
At-exactly e bs {buf} {off} rest a =
    rw (ge→ltb _ _ (offset_fits buf bs rest off a.fits a.stands), slice_at buf bs rest off a.stands)

pub parse_stream_open-build_stream_open :
    (stream_id : ℕ)
    → stream_id < 2 ^ 16
    → parse_stream_open (build_stream_open stream_id) ≡ ok (record { stream_id = stream_id })
unfolding build_stream_open parse_stream_open
parse_stream_open-build_stream_open i h = rw (At-u16 i h (start (le_bytes 2 i) _ refl)).0

pub parse_stream_close-build_stream_close :
    (stream_id : ℕ)
    → stream_id < 2 ^ 16
    → parse_stream_close (build_stream_close stream_id) ≡ ok (record { stream_id = stream_id })
unfolding build_stream_close parse_stream_close
parse_stream_close-build_stream_close i h = rw (At-u16 i h (start (le_bytes 2 i) _ refl)).0

-- parse_stream_data reads back the 16-bit stream id, the inner frame type and the bytes, fewer than
-- 2^32, from what build_stream_data built.
pub parse_stream_data-build_stream_data :
    (stream_id inner_frame_type : ℕ) (bytes : List ℕ)
    → stream_id < 2 ^ 16
    → length bytes < 2 ^ 32
    → parse_stream_data (build_stream_data stream_id inner_frame_type bytes)
      ≡ ok (record { stream_id = stream_id; inner_frame_type = inner_frame_type; bytes = bytes })
unfolding build_stream_data parse_stream_data
parse_stream_data-build_stream_data i t bs hi hb =
    let small : length bs % 2 ^ 32 ≡ length bs = omega arith in
    let (r1, a1) =
      At-u16 i hi (start (le_bytes 2 i ++ (t ∷ (le_bytes 4 (length bs) ++ bs))) _ refl) in
    let (r2, a2) = At-u8 t a1 in
    let (r3, a3) = At-u32 (length bs) hb a2 in rw (small, r1, r2, r3, At-exactly _ bs [] a3)
