-- ===== src/Mux/Link.antt =====
-- A session and its peer, src/aftp/mux.rs: the calls of both, in any order, as labelled steps.
use agentic_file_transfer.Base.{
  ℕ, ◌+◌, ◌%◌, ◌^◌, ◌≤◌, ◌<◌, ◌≡◌, List, [], ◌∷◌, ◌++◌, false, some, ◌==◌, if◌then◌else◌, length,
  ok,
}
use agentic_file_transfer.Frame.Io.{Source, Ending}
use agentic_file_transfer.Mux.Channels.{MuxFrame, Streams, recv_frame, drop_stream}
use agentic_file_transfer.Mux.Session.{
  MuxSession, Turn, open_stream, close_stream, send_frame, write_close, reader_turn,
}

-- A call that the peer makes: `send_frame` on a stream, or `close_stream`.
pub data Call : Type 0 where
  sends : ℕ → ℕ → List ℕ → Call
  shuts : ℕ → Call

-- What the call writes.
abbrev pub write_call : List ℕ → Call → List ℕ
write_call w (sends stream_id frame_type payload) = send_frame w stream_id frame_type payload
write_call w (shuts stream_id) = write_close w stream_id

-- A 16-bit stream id, and a frame within what the reader takes.
abbrev pub Fits : ℕ → Call → Type 0
Fits max_frame_size (sends stream_id frame_type payload) =
    (stream_id < 2 ^ 16) × (length payload + 7 ≤ (max_frame_size + 1024) % 2 ^ 32)
Fits max_frame_size (shuts stream_id) =
    (stream_id < 2 ^ 16) × (2 ≤ (max_frame_size + 1024) % 2 ^ 32)

-- The session, and what the peer wrote that its reader has not read.
pub record Link : Type 0 where
  pub wire : List ℕ
  pub session : MuxSession

pub data Label : Type 0 where
  said : Call → Label
  took opened : Label
  closed dropped : ℕ → Label
  received : ℕ → MuxFrame → Label

abbrev pub open_source : List ℕ → Source
open_source bytes = record { bytes = bytes; ending = Ending.closed }

abbrev pub with_streams : MuxSession → Streams → MuxSession
with_streams s t = record s { streams = t }

pub data Step (a b : Link) : Label → Type 0 where
  say :
      (c : Call)
      → Fits a.session.max_frame_size c
      → b ≡ record a { wire = write_call a.wire c }
      → Step a b (Label.said c)
  take :
      (rest : List ℕ) (t : Streams)
      → reader_turn (open_source a.wire) a.session.max_frame_size a.session.streams
        ≡ Turn.went (open_source rest) t
      → b ≡ record { wire = rest; session = with_streams a.session t }
      → Step a b Label.took
  open_one : b ≡ record a { session = (open_stream a.session).1 } → Step a b Label.opened
  close_one :
      (stream_id : ℕ)
      → b ≡ record a { session = close_stream a.session stream_id }
      → Step a b (Label.closed stream_id)
  drop_one :
      (channel : ℕ)
      → b ≡ record a { session = with_streams a.session (drop_stream channel a.session.streams) }
      → Step a b (Label.dropped channel)
  receive :
      (channel : ℕ) (frame : MuxFrame) (t : Streams)
      → recv_frame channel a.session.streams ≡ some (ok (frame, t))
      → b ≡ record a { session = with_streams a.session t }
      → Step a b (Label.received channel frame)

-- Steps one after the other, the last label last.
pub data Run (a : Link) : List Label → Link → Type 0 where
  here : Run a [] a
  next : {b c : Link} {ls : List Label} {l : Label} → Run a ls b → Step b c l → Run a (l ∷ ls) c

-- The frame that the receiver of a stream gets for a call of `send_frame` there.
abbrev pub on_stream : ℕ → Call → List MuxFrame
on_stream stream_id (sends i t p) =
    if i == stream_id then record { frame_type = t; flags = 0; payload = p } ∷ [] else []
on_stream stream_id (shuts i) = []

abbrev pub all_on_stream : ℕ → List Call → List MuxFrame
all_on_stream stream_id [] = []
all_on_stream stream_id (c ∷ cs) = on_stream stream_id c ++ all_on_stream stream_id cs

-- The frames that the peer sent on the stream, in its order; a run lists the last label first.
abbrev pub frames_sent : ℕ → List Label → List MuxFrame
frames_sent stream_id [] = []
frames_sent stream_id (Label.said c ∷ ls) = frames_sent stream_id ls ++ on_stream stream_id c
frames_sent stream_id (_ ∷ ls) = frames_sent stream_id ls

-- The frames that were taken out of the channel, in this order.
abbrev pub frames_received : ℕ → List Label → List MuxFrame
frames_received channel [] = []
frames_received channel (Label.received c f ∷ ls) =
    frames_received channel ls ++ (if c == channel then f ∷ [] else [])
frames_received channel (_ ∷ ls) = frames_received channel ls

-- The step leaves the stream open on its channel: neither side closes it, the stream is not
-- dropped, and its id is not given out again.
abbrev pub Keeps : ℕ → ℕ → Link → Label → Type 0
Keeps stream_id channel a (Label.said (shuts i)) = (i == stream_id) ≡ false
Keeps stream_id channel a (Label.said (sends i t p)) = Unit
Keeps stream_id channel a Label.took = Unit
Keeps stream_id channel a Label.opened = (a.session.next_stream_id == stream_id) ≡ false
Keeps stream_id channel a (Label.closed i) = (i == stream_id) ≡ false
Keeps stream_id channel a (Label.dropped c) = (c == channel) ≡ false
Keeps stream_id channel a (Label.received c f) = Unit

abbrev pub RunKeeps : ℕ → ℕ → {a b : Link} {ls : List Label} → Run a ls b → Type 0
RunKeeps stream_id channel here = Unit
RunKeeps stream_id channel (next {b = b} {l = l} run step) =
    RunKeeps stream_id channel run × Keeps stream_id channel b l

-- What calls that were made one after the other put on the wire.
abbrev pub wire_of : List Call → List ℕ
wire_of [] = []
wire_of (c ∷ cs) = write_call [] c ++ wire_of cs
