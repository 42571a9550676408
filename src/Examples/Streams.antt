-- ===== src/Examples/Streams.antt =====
-- The multiplexer of src/aftp/mux.rs on concrete calls.
use agentic_file_transfer.Base.{
  none≢some, ◌≡◌, ◌≢◌, ◌%◌, ◌^◌, ◌↔◌, refl, List, [], ◌∷◌, ◌++◌, some, arith, ok,
}
use agentic_file_transfer.Base.Table.{lookup, insert, nat_eq}
use agentic_file_transfer.Frame.Wire.{get_u16, get_u8, get_u32}
use agentic_file_transfer.Mux.Channels.{MuxFrame, Streams, no_streams, recv_frame}
use agentic_file_transfer.Mux.Session.{
  Turn, Stand, new_session, open_stream, send_frame, reader_turn, reader_loop,
}
use agentic_file_transfer.Mux.Serving.{MuxServer, Served, server_turn}
use agentic_file_transfer.Mux.Link.{
  Call, sends, write_call, Link, Label, say, take, open_one, receive, Run, here, next, open_source,
  with_streams, wire_of, frames_sent, frames_received, all_on_stream,
}
use agentic_file_transfer.Mux.Fifo.{stream_fifo}
use agentic_file_transfer.Mux.Ids.{next_stream_id_again}
use agentic_file_transfer.Mux.Ending.{reader_loop_ends}
use agentic_file_transfer.Mux.Opening.{HasOpened, server_turn-open_stream}

abbrev fresh : Link
fresh = record { wire = []; session = new_session [] 100 }

abbrev opened : Link
opened = record fresh { session = (open_stream fresh.session).1 }

-- The peer sends on the stream, and on one that is not open.
abbrev first_call : Call
first_call = sends 1 5 (9 ∷ 8 ∷ [])

abbrev stray_call : Call
stray_call = sends 3 5 (7 ∷ [])

abbrev said_one : Link
said_one = record opened { wire = write_call opened.wire first_call }

abbrev said_two : Link
said_two = record opened { wire = write_call said_one.wire stray_call }

abbrev first_frame : MuxFrame
first_frame = record { frame_type = 5; flags = 0; payload = 9 ∷ 8 ∷ [] }

abbrev holding : Streams
holding = record { senders = (1, 0) ∷ []; queues = (0, first_frame ∷ []) ∷ []; next_channel = 1 }

abbrev empty_queue : Streams
empty_queue = record { senders = (1, 0) ∷ []; queues = (0, []) ∷ []; next_channel = 1 }

abbrev taken : Link
taken = record { wire = write_call [] stray_call; session = with_streams opened.session holding }

abbrev received : Link
received = record taken { session = with_streams taken.session empty_queue }

take_one :
    reader_turn (open_source said_two.wire) 100 opened.session.streams
    ≡ Turn.went (open_source taken.wire) holding
unfolding reader_turn open_stream new_session send_frame get_u16 get_u8 get_u32 lookup insert
take_one = refl

get_one : recv_frame 0 holding ≡ some (ok (first_frame, empty_queue))
unfolding recv_frame lookup insert
get_one = refl

abbrev labels : List Label
labels =
    Label.received 0 first_frame ∷ Label.took ∷ Label.said stray_call ∷ Label.said first_call ∷ []

conversation : Run opened labels received
unfolding new_session open_stream
conversation =
    next
      (next
        (next (next here (say first_call (omega arith, omega arith) refl))
          (say stray_call (omega arith, omega arith) refl))
        (take taken.wire holding take_one refl))
      (receive 0 first_frame empty_queue get_one refl)

stream_fifo_example :
    (queue : List MuxFrame) × (pending : List Call) × (lookup 0 received.session.streams.queues
      ≡ some queue)
    × (received.wire ≡ wire_of pending)
    × (frames_sent 1 labels ≡ frames_received 0 labels ++ (queue ++ all_on_stream 1 pending))
unfolding new_session open_stream lookup conversation
stream_fifo_example =
    stream_fifo fresh received [] labels (λ i c h. none≢some h) tt tt refl refl conversation
      ((((tt, tt), tt), tt), tt)

opening_run : Run fresh (Label.opened ∷ []) opened
opening_run = next here (open_one refl)

next_stream_id_again_example :
    (opened.session.next_stream_id % 2 ≡ fresh.session.next_stream_id % 2)
    × ((opened.session.next_stream_id ≡ fresh.session.next_stream_id) ↔ (1 ≡ 2 ^ 15))
unfolding new_session
next_stream_id_again_example =
    next_stream_id_again fresh opened (Label.opened ∷ []) (omega arith) (omega arith) (omega arith)
      opening_run

reader_loop_ends_example :
    reader_loop 100 (open_source said_two.wire) 100 no_streams ≢ Stand.out_of_fuel
unfolding send_frame
reader_loop_ends_example =
    reader_loop_ends 100 (open_source said_two.wire) 100 no_streams (omega arith)

abbrev idle_server : MuxServer
idle_server = record { streams = no_streams; handlers = [] }

server_turn-open_stream_example :
    (u : MuxServer) × (server_turn
        (open_source ((open_stream fresh.session).1.writer ++ (0xAF ∷ [])))
        100
        idle_server
      ≡ (Served.served u, open_source (0xAF ∷ [])))
    × HasOpened (open_stream fresh.session).0 idle_server u
unfolding new_session
server_turn-open_stream_example =
    server_turn-open_stream fresh.session (0xAF ∷ []) 100 idle_server refl (omega arith)
      (omega arith)
