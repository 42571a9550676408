-- ===== src/Mux/Session.antt =====
-- The client's side of the multiplexer, src/aftp/mux.rs. A writer is the list of bytes that were
-- written; its lock makes one call's frame contiguous.
use agentic_file_transfer.Base.{
  ℕ, zero, suc, ◌+◌, ◌%◌, ◌^◌, List, Option, some, none, ◌==◌, if◌then◌else◌, Result, ok, err,
}
use agentic_file_transfer.Frame.Types.{Frame, new_frame}
use agentic_file_transfer.Frame.Constants.{frame_stream_open, frame_stream_close, frame_stream_data}
use agentic_file_transfer.Frame.Io.{Source, read_frame, write_frame}
use agentic_file_transfer.Frame.Payload.Streams.{
  build_stream_open, build_stream_close, build_stream_data, parse_stream_data, parse_stream_close,
}
use agentic_file_transfer.Mux.Channels.{Streams, no_streams, register, unlink, route}

pub record MuxSession : Type 0 where
  pub writer : List ℕ
  pub streams : Streams
  pub next_stream_id : ℕ
  pub max_frame_size : ℕ

-- `MuxSession::new`, less the spawned reader.
unfoldable pub new_session : List ℕ → ℕ → MuxSession
new_session writer max_frame_size = record {
  writer = writer;
  streams = no_streams;
  next_stream_id = 1;
  max_frame_size = max_frame_size;
}

-- `MuxSession::open_stream`, with the stream's id.
unfoldable pub open_stream : MuxSession → ℕ × MuxSession
unfolding register build_stream_open write_frame
open_stream s = (
  s.next_stream_id,
  record {
    writer =
        write_frame s.writer (new_frame frame_stream_open (build_stream_open s.next_stream_id));
    streams = register s.next_stream_id s.streams;
    next_stream_id = (s.next_stream_id + 2) % 2 ^ 16;
    max_frame_size = s.max_frame_size;
  },
)

-- The frame that `close_stream` writes.
unfoldable pub write_close : List ℕ → ℕ → List ℕ
unfolding build_stream_close write_frame
write_close w stream_id =
    write_frame w (new_frame frame_stream_close (build_stream_close stream_id))

-- `MuxSession::close_stream`
unfoldable pub close_stream : MuxSession → ℕ → MuxSession
unfolding unlink write_close
close_stream s stream_id = record s {
  writer = write_close s.writer stream_id;
  streams = unlink stream_id s.streams;
}

-- `MuxStream::send_frame`, which is `MuxServerStream::send_frame` too, on the shared writer.
unfoldable pub send_frame : List ℕ → ℕ → ℕ → List ℕ → List ℕ
unfolding build_stream_data write_frame
send_frame w stream_id frame_type payload =
    write_frame w (new_frame frame_stream_data (build_stream_data stream_id frame_type payload))

-- STREAM_DATA in `reader_loop` and in `MuxServer::run`.
unfoldable pub on_data : Frame → Streams → Option Streams
unfolding parse_stream_data route
on_data frame s = elim (parse_stream_data frame.payload) [
  | ok sd ↦
      route sd.stream_id
        (record { frame_type = sd.inner_frame_type; flags = frame.flags; payload = sd.bytes }) s
  | err _ ↦ some s
]

-- STREAM_CLOSE in `reader_loop` and in `MuxServer::run`.
unfoldable pub on_close : Frame → Streams → Streams
unfolding parse_stream_close unlink
on_close frame s = elim (parse_stream_close frame.payload) [
  | ok sc ↦ unlink sc.stream_id s
  | err _ ↦ s
]

-- What `reader_loop` does with a frame; `none` as long as a full channel keeps it.
unfoldable pub demux : Frame → Streams → Option Streams
unfolding on_data on_close route
demux frame s =
    if frame.frame_type == frame_stream_data
    then on_data frame s
    else if frame.frame_type == frame_stream_close
    then some (on_close frame s)
    else route 0
        (record { frame_type = frame.frame_type; flags = frame.flags; payload = frame.payload }) s

-- What one turn of `reader_loop` comes to.
pub data Turn : Type 0 where
  ended : Turn
  waiting : Turn
  went : Source → Streams → Turn

abbrev pub turn_for : Option Streams → Source → Turn
turn_for none rest = Turn.waiting
turn_for (some s) rest = Turn.went rest s

unfoldable pub turn_from : Result (Frame × Source) → Streams → Turn
unfolding demux
turn_from (err _) s = Turn.ended
turn_from (ok (frame, rest)) s = turn_for (demux frame s) rest

unfoldable pub reader_turn : Source → ℕ → Streams → Turn
unfolding read_frame turn_from
reader_turn r max_frame_size s = turn_from (read_frame r ((max_frame_size + 1024) % 2 ^ 32)) s

-- How far `reader_loop` gets without anyone taking frames out of the channels.
pub data Stand : Type 0 where
  finished : Streams → Stand
  stuck : Source → Streams → Stand
  out_of_fuel : Stand

unfoldable pub reader_loop : ℕ → Source → ℕ → Streams → Stand
unfolding reader_turn
reader_loop zero r max_frame_size s = Stand.out_of_fuel
reader_loop (suc n) r max_frame_size s = elim (reader_turn r max_frame_size s) [
  | Turn.ended ↦ Stand.finished s
  | Turn.waiting ↦ Stand.stuck r s
  | Turn.went r' s' ↦ reader_loop n r' max_frame_size s'
]
