-- ===== src/Mux/Opening.antt =====
-- Proofs on the frames of a client at the server, src/aftp/mux.rs.
use agentic_file_transfer.Base.{
  ℕ, ◌+◌, ◌%◌, ◌^◌, ◌≤◌, ◌<◌, ◌≡◌, ◌≢◌, ne→==, some, refl, ap, ◌∙◌, List, [], ◌∷◌, ◌++◌, arith,
  length,
}
use agentic_file_transfer.Frame.Types.{Frame, new_frame}
use agentic_file_transfer.Frame.Constants.{frame_stream_open}
use agentic_file_transfer.Frame.Io.{Ending, write_frame}
use agentic_file_transfer.Frame.Exchange.{read_frame-write_frame}
use agentic_file_transfer.Frame.Payload.Streams.{build_stream_open}
use agentic_file_transfer.Frame.RoundTrip.Streams.{parse_stream_open-build_stream_open}
use agentic_file_transfer.Base.Table.{lookup, lookup-insert, key_refl, nat_eq}
use agentic_file_transfer.Mux.Channels.{Streams, register}
use agentic_file_transfer.Mux.Session.{MuxSession, open_stream}
use agentic_file_transfer.Mux.Serving.{MuxServer, Served, on_open, dispatch, server_turn}
use agentic_file_transfer.Mux.Link.{open_source}

length-build_stream_open : (i : ℕ) → length (build_stream_open i) ≡ 2
unfolding build_stream_open
length-build_stream_open i = refl

server_turn-write_frame :
    (f : Frame) (rest : List ℕ) (max : ℕ) (s : MuxServer)
    → length f.payload ≤ (max + 1024) % 2 ^ 32
    → server_turn (open_source (write_frame [] f ++ rest)) max s ≡ (dispatch f s, open_source rest)
unfolding server_turn
server_turn-write_frame f rest max s h =
    rw
      (
        read_frame-write_frame f rest Ending.closed ((max + 1024) % 2 ^ 32) h (omega arith),
        server_turn,
      )
      refl

-- The frame that `open_stream` writes.
abbrev opening : ℕ → Frame
opening i = new_frame frame_stream_open (build_stream_open i)

open_stream_writes :
    (s : MuxSession)
    → s.writer ≡ []
    → ((open_stream s).1.writer ≡ write_frame [] (opening s.next_stream_id))
      × ((open_stream s).0 ≡ s.next_stream_id)
unfolding open_stream build_stream_open write_frame
open_stream_writes s w = (ap (λ x. write_frame x (opening s.next_stream_id)) w, refl)

dispatch-opening :
    (i : ℕ) (t : MuxServer)
    → i < 2 ^ 16
    → dispatch (opening i) t
      ≡ Served.served (record {
        streams = register i t.streams;
        handlers = t.handlers ++ ((i, t.streams.next_channel) ∷ []);
      })
unfolding dispatch on_open
dispatch-opening i t small =
    rw (parse_stream_open-build_stream_open i small, dispatch, on_open) refl

register-new :
    (i : ℕ) (s : Streams)
    → (lookup i (register i s).senders ≡ some s.next_channel)
      × (lookup s.next_channel (register i s).queues ≡ some [])
unfolding register
register-new i s = (
  lookup-insert i i s.next_channel s.senders ∙ rw (key_refl i) refl,
  lookup-insert s.next_channel s.next_channel [] s.queues ∙ rw (key_refl s.next_channel) refl,
)

register-others :
    (i : ℕ) (s : Streams)
    → ((j : ℕ) → j ≢ i → lookup j (register i s).senders ≡ lookup j s.senders)
      × ((c : ℕ) → c ≢ s.next_channel → lookup c (register i s).queues ≡ lookup c s.queues)
unfolding register
register-others i s = (
  λ j ne. lookup-insert j i s.next_channel s.senders ∙ rw (ne→== j i ne) refl,
  λ c ne. lookup-insert c s.next_channel [] s.queues ∙ rw (ne→== c s.next_channel ne) refl,
)

-- The server has opened a stream: its id leads to a channel that is the next one of `t`, and that
-- channel is empty; other ids lead where they led, other channels hold what they held; and one more
-- handler was spawned, for this stream and this channel.
pub record HasOpened (i : ℕ) (t u : MuxServer) : Type 0 where
  bound : lookup i u.streams.senders ≡ some t.streams.next_channel
  empty : lookup t.streams.next_channel u.streams.queues ≡ some []
  other_ids : (j : ℕ) → j ≢ i → lookup j u.streams.senders ≡ lookup j t.streams.senders
  other_channels :
      (c : ℕ) → c ≢ t.streams.next_channel → lookup c u.streams.queues ≡ lookup c t.streams.queues
  spawned : u.handlers ≡ t.handlers ++ ((i, t.streams.next_channel) ∷ [])

-- What open_stream of a client with nothing else written writes makes the server, in its next turn,
-- bind the client's new stream id to the next channel, with an empty queue, and spawn one handler
-- for both, while other ids stay bound as they were and other queues keep what they hold, if the id
-- has 16 bits and a frame of two bytes is within the server's bound.
pub server_turn-open_stream :
    (s : MuxSession) (rest : List ℕ) (max : ℕ) (t : MuxServer)
    → s.writer ≡ []
    → s.next_stream_id < 2 ^ 16
    → 2 ≤ (max + 1024) % 2 ^ 32
    → (u : MuxServer) × (server_turn (open_source ((open_stream s).1.writer ++ rest)) max t
        ≡ (Served.served u, open_source rest))
      × HasOpened (open_stream s).0 t u
server_turn-open_stream s rest max t w small room =
    let i = s.next_stream_id in
    let (written, given) = open_stream_writes s w in
    let (bound, empty) = register-new i t.streams in
    let (other_ids, other_channels) = register-others i t.streams in
    (
      record {
        streams = register i t.streams;
        handlers = t.handlers ++ ((i, t.streams.next_channel) ∷ []);
      },
      rw written (
          server_turn-write_frame (opening i) rest max t (omega (arith, length-build_stream_open i))
          ∙ ap (λ d. (d, open_source rest)) (dispatch-opening i t small)),
      rw given (record {
        bound = bound;
        empty = empty;
        other_ids = other_ids;
        other_channels = other_channels;
        spawned = refl;
      }),
    )
