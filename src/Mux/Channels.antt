-- ===== src/Mux/Channels.antt =====
-- The table of streams and their channels, src/aftp/mux.rs. A channel of tokio is a queue with a
-- number: the table of streams holds its sending end, its receiver owns the queue.
use agentic_file_transfer.Base.{
  ℕ, suc, List, [], ◌∷◌, ◌++◌, Bool, false, ◌||◌, Option, some, none, length, ltb, ◌==◌,
  if◌then◌else◌, Result, ok, err, AftError, Message,
}
use agentic_file_transfer.Base.Table.{Table, lookup, insert, remove, nat_eq}

pub record MuxFrame : Type 0 where
  pub frame_type : ℕ
  pub flags : ℕ
  pub payload : List ℕ

-- The `streams` of both sides. A receiver that was dropped has no queue.
pub record Streams : Type 0 where
  pub senders : Table ℕ ℕ
  pub queues : Table ℕ (List MuxFrame)
  pub next_channel : ℕ

abbrev pub no_streams : Streams
no_streams = record { senders = []; queues = []; next_channel = 0 }

-- The bound of `mpsc::channel(64)`.
abbrev pub capacity : ℕ
capacity = 64

-- A new channel, whose sender goes into the table. Its number is the old `next_channel`.
unfoldable pub register : ℕ → Streams → Streams
register stream_id s = record {
  senders = insert stream_id s.next_channel s.senders;
  queues = insert s.next_channel [] s.queues;
  next_channel = suc s.next_channel;
}

unfoldable pub unlink : ℕ → Streams → Streams
unlink stream_id s = record s { senders = remove stream_id s.senders }

-- `tx.send(..).await`, which is `none` as long as it waits. That the receiver is gone is ignored.
unfoldable pub send : ℕ → MuxFrame → Streams → Option Streams
send channel frame s = elim (lookup channel s.queues) [
  | none ↦ some s
  | some queue ↦
      if ltb (length queue) capacity
      then some (record s { queues = insert channel (queue ++ (frame ∷ [])) s.queues })
      else none
]

unfoldable pub route : ℕ → MuxFrame → Streams → Option Streams
unfolding send
route stream_id frame s = elim (lookup stream_id s.senders) [
  | none ↦ some s
  | some channel ↦ send channel frame s
]

unfoldable pub has_sender : ℕ → Table ℕ ℕ → Bool
has_sender channel [] = false
has_sender channel ((stream_id, c) ∷ m) = c == channel || has_sender channel m

-- What the receiver of a channel gets that has this queue.
unfoldable pub taken_from :
    ℕ → Streams → Option (List MuxFrame) → Option (Result (MuxFrame × Streams))
unfolding has_sender
taken_from channel s (some (frame ∷ queue)) =
    some (ok (frame, record s { queues = insert channel queue s.queues }))
taken_from channel s (some []) =
    if has_sender channel s.senders
    then none
    else some (err (AftError.connection_failed Message.stream_closed))
taken_from channel s none = some (err (AftError.connection_failed Message.stream_closed))

-- `MuxStream::recv_frame` and `MuxServerStream::recv_frame` on the channel of the stream: `none` as
-- long as it waits, an error once the queue is empty and no sender is left.
unfoldable pub recv_frame : ℕ → Streams → Option (Result (MuxFrame × Streams))
unfolding taken_from
recv_frame channel s = taken_from channel s (lookup channel s.queues)

-- The stream, and its receiver with it, is dropped.
unfoldable pub drop_stream : ℕ → Streams → Streams
drop_stream channel s = record s { queues = remove channel s.queues }
