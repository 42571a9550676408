-- ===== src/Mux/Serving.antt =====
-- The server's side of the multiplexer, `MuxServer::run` of src/aftp/mux.rs. The stream handlers are
-- tasks of their own: that one returns is a step of the environment.
use agentic_file_transfer.Base.{
  ℕ, ◌+◌, ◌%◌, ◌^◌, List, [], ◌∷◌, ◌++◌, Option, some, none, ◌==◌, if◌then◌else◌, ok, err,
}
use agentic_file_transfer.Frame.Types.{Frame}
use agentic_file_transfer.Frame.Constants.{frame_stream_open, frame_stream_close, frame_stream_data}
use agentic_file_transfer.Frame.Io.{Source, read_frame}
use agentic_file_transfer.Frame.Payload.Streams.{parse_stream_open}
use agentic_file_transfer.Mux.Channels.{Streams, register, unlink, drop_stream}
use agentic_file_transfer.Mux.Session.{on_data, on_close}

-- The streams, and the handlers that were spawned, each with its stream and channel.
pub record MuxServer : Type 0 where
  pub streams : Streams
  pub handlers : List (ℕ × ℕ)

pub data Served : Type 0 where
  left : Served
  blocked : Served
  served : MuxServer → Served

-- STREAM_OPEN
unfoldable pub on_open : Frame → MuxServer → MuxServer
unfolding parse_stream_open register
on_open frame s = elim (parse_stream_open frame.payload) [
  | ok so ↦ record {
    streams = register so.stream_id s.streams;
    handlers = s.handlers ++ ((so.stream_id, s.streams.next_channel) ∷ []);
  }
  | err _ ↦ s
]

abbrev pub after_routing : MuxServer → Option Streams → Served
after_routing s none = Served.blocked
after_routing s (some t) = Served.served (record s { streams = t })

unfoldable pub dispatch : Frame → MuxServer → Served
unfolding on_open on_data on_close
dispatch frame s =
    if frame.frame_type == frame_stream_open
    then Served.served (on_open frame s)
    else if frame.frame_type == frame_stream_data
    then after_routing s (on_data frame s.streams)
    else if frame.frame_type == frame_stream_close
    then Served.served (record s { streams = on_close frame s.streams })
    else Served.left

-- What becomes of a spawned task, with its stream and channel, when its handler returns: the stream
-- is dropped with its receiver, and its id leaves the table.
unfoldable pub handler_returns : ℕ → ℕ → MuxServer → MuxServer
unfolding unlink drop_stream
handler_returns stream_id channel s = record s {
  streams = unlink stream_id (drop_stream channel s.streams);
}

-- One turn of the loop of `MuxServer::run`, with what is left to read.
unfoldable pub server_turn : Source → ℕ → MuxServer → Served × Source
unfolding read_frame dispatch
server_turn r max_frame_size s = elim (read_frame r ((max_frame_size + 1024) % 2 ^ 32)) [
  | err _ ↦ (Served.left, r)
  | ok (frame, r') ↦ (dispatch frame s, r')
]
