-- ===== src/Mux/Routing.antt =====
-- Proofs on what the reader of src/aftp/mux.rs does with the frames of the peer's calls.
use agentic_file_transfer.Base.{
  ℕ, ◌+◌, ◌%◌, ◌^◌, ◌≤◌, ◌<◌, ◌≡◌, refl, sym, ap, ◌∙◌, List, [], ◌++◌, some, Option, arith, length,
}
use agentic_file_transfer.Frame.Types.{Frame, new_frame}
use agentic_file_transfer.Frame.Constants.{frame_stream_close, frame_stream_data}
use agentic_file_transfer.Frame.Io.{Ending, write_frame}
use agentic_file_transfer.Frame.Exchange.{read_frame-write_frame, write_frame-wire}
use agentic_file_transfer.Frame.Payload.Streams.{build_stream_data, build_stream_close}
use agentic_file_transfer.Frame.RoundTrip.Streams.{
  parse_stream_data-build_stream_data, parse_stream_close-build_stream_close,
}
use agentic_file_transfer.Mux.Channels.{Streams, route, unlink}
use agentic_file_transfer.Mux.Session.{
  Turn, turn_for, turn_from, send_frame, write_close, on_data, on_close, demux, reader_turn,
}
use agentic_file_transfer.Mux.Link.{Call, sends, shuts, write_call, Fits, open_source}

length-build_stream_data : (i t : ℕ) (p : List ℕ) → length (build_stream_data i t p) ≡ length p + 7
unfolding build_stream_data
length-build_stream_data i t p = omega arith

length-build_stream_close : (i : ℕ) → length (build_stream_close i) ≡ 2
unfolding build_stream_close
length-build_stream_close i = refl

write_frame-append :
    (w : List ℕ) (f : Frame) → length f.payload < 2 ^ 32 → write_frame w f ≡ w ++ write_frame [] f
write_frame-append w f h = write_frame-wire w f h ∙ ap (λ t. w ++ t) (sym (write_frame-wire [] f h))

-- What the reader is to do for a call.
abbrev pub answer : Call → Streams → Option Streams
answer (sends i t p) s = route i (record { frame_type = t; flags = 0; payload = p }) s
answer (shuts i) s = some (unlink i s)

demux-sends :
    (i t : ℕ) (p : List ℕ) (s : Streams)
    → i < 2 ^ 16
    → length p < 2 ^ 32
    → demux (new_frame frame_stream_data (build_stream_data i t p)) s ≡ answer (sends i t p) s
unfolding demux on_data
demux-sends i t p s hi hp = rw (parse_stream_data-build_stream_data i t p hi hp, demux, on_data)

demux-shuts :
    (i : ℕ) (s : Streams)
    → i < 2 ^ 16
    → demux (new_frame frame_stream_close (build_stream_close i)) s ≡ answer (shuts i) s
unfolding demux on_close
demux-shuts i s hi = rw (parse_stream_close-build_stream_close i hi, demux, on_close)

-- With a frame before any other bytes, a turn is what `demux` makes of the frame.
pub reader_turn-write_frame :
    (f : Frame) (rest : List ℕ) (max : ℕ) (s : Streams)
    → length f.payload ≤ (max + 1024) % 2 ^ 32
    → reader_turn (open_source (write_frame [] f ++ rest)) max s
      ≡ turn_for (demux f s) (open_source rest)
unfolding reader_turn turn_from
reader_turn-write_frame f rest max s h =
    ap (λ m. turn_from m s)
      (read_frame-write_frame f rest Ending.closed ((max + 1024) % 2 ^ 32) h (omega arith))

-- A call's frame, before any other bytes, makes the reader do what the call asks for.
pub reader_turn-write_call :
    (c : Call) (rest : List ℕ) (max : ℕ) (s : Streams)
    → Fits max c
    → reader_turn (open_source (write_call [] c ++ rest)) max s
      ≡ turn_for (answer c s) (open_source rest)
unfolding send_frame write_close
reader_turn-write_call (sends i t p) rest max s (hi, hp) =
    reader_turn-write_frame (new_frame frame_stream_data (build_stream_data i t p)) rest max s
      (omega (arith, length-build_stream_data i t p))
    ∙ ap (λ o. turn_for o (open_source rest)) (demux-sends i t p s hi (omega arith))
reader_turn-write_call (shuts i) rest max s (hi, hp) =
    reader_turn-write_frame (new_frame frame_stream_close (build_stream_close i)) rest max s
      (omega (arith, length-build_stream_close i))
    ∙ ap (λ o. turn_for o (open_source rest)) (demux-shuts i s hi)

-- A writer appends the bytes of a call.
pub write_call-append :
    (w : List ℕ) (c : Call) (max : ℕ) → Fits max c → write_call w c ≡ w ++ write_call [] c
unfolding send_frame write_close
write_call-append w (sends i t p) max (hi, hp) =
    write_frame-append w (new_frame frame_stream_data (build_stream_data i t p))
      (omega (arith, length-build_stream_data i t p))
write_call-append w (shuts i) max (hi, hp) =
    write_frame-append w (new_frame frame_stream_close (build_stream_close i))
      (omega (arith, length-build_stream_close i))

pub read_nothing : (max : ℕ) (s : Streams) → reader_turn (open_source []) max s ≡ Turn.ended
unfolding reader_turn
read_nothing max s = refl
