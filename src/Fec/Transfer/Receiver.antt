-- ===== src/Fec/Transfer/Receiver.antt =====
-- `recv_object_into` of src/aftp/fec/transfer.rs: the receiver's state and one function for each
-- thing that its loop does. RaptorQ and the writer of the blocks are parameters, and so is what
-- arrives: the loop runs on the sequence of arrivals, each with the time on the clock.
use agentic_file_transfer.Base.{
  ℕ, zero, suc, ◌+◌, ◌-◌, ◌*◌, ◌%◌, ◌^◌, min, max, List, [], ◌∷◌, Bool, true, false, not, ◌&&◌,
  Option, some, none, length, leb, ltb, if◌then◌else◌, div_ceil, Result, ok, err, AftError, Message,
}
use agentic_file_transfer.Base.Fallible.{◌>>=◌}
use agentic_file_transfer.Base.Table.{Table, lookup, insert, remove, has_key, nat_eq}
use agentic_file_transfer.Fec.Codec.{
  block_range, oti_for_block, Raptorq, BlockDecoder, new_decoder, push, take_block,
}
use agentic_file_transfer.Fec.Transfer.Blocks.{
  FecParams, total_blocks, block_len, Feedback, need_more, block_ok, BlockWriter, with_len,
  vec_blocks,
}
use agentic_file_transfer.Fec.Transfer.Channel.{Channel, new_channel, send_feedback, send_each}

-- Times are in microseconds.
abbrev pub needmore_rtt_multiple : ℕ
needmore_rtt_multiple = 2

abbrev pub min_needmore_delay : ℕ
min_needmore_delay = 50_000

abbrev pub max_needmore_delay : ℕ
max_needmore_delay = 1_000_000

-- The locals of the loop that decide when it asks for repair.
pub record Patience : Type 0 where
  pub patience : ℕ
  pub last_progress : ℕ
  pub needmore_sent_at : Option ℕ

-- `needmore_sent_at.take()` and the patience behind it.
unfoldable pub learn : Option ℕ → ℕ → ℕ → ℕ
learn none now patience = patience
learn (some asked_at) now patience =
    min (max patience ((now - asked_at) * needmore_rtt_multiple)) max_needmore_delay

-- A symbol was accepted.
unfoldable pub heard : Patience → ℕ → Patience
unfolding learn
heard t now = record {
  patience = learn t.needmore_sent_at now t.patience;
  last_progress = now;
  needmore_sent_at = none;
}

-- An ask without an answer doubles the patience.
unfoldable pub back_off : Option ℕ → ℕ → ℕ
back_off none patience = patience
back_off (some asked_at) patience = min (patience * 2) max_needmore_delay

-- The loop asks for repair.
unfoldable pub asked : Patience → ℕ → Patience
unfolding back_off
asked t now = record {
  patience = back_off t.needmore_sent_at t.patience;
  last_progress = now;
  needmore_sent_at = some now;
}

-- `*done.get(&block_id).unwrap_or(&false)`
abbrev pub unwrap_or_false : Option Bool → Bool
unwrap_or_false none = false
unwrap_or_false (some b) = b

unfoldable pub is_done : Table ℕ Bool → ℕ → Bool
unfolding lookup
is_done finished block_id = unwrap_or_false (lookup block_id finished)

-- One result of the awaited `recv_symbol`, or the end of the patience.
pub data Arrival : Type 0 where
  symbol : ℕ → ℕ → List ℕ → Arrival
  damaged : Arrival
  failed : AftError → Arrival
  elapsed : ℕ → Arrival

module _ (q : Raptorq) where
  -- The ask for one block.
  unfoldable pub ask : FecParams → Option (BlockDecoder q) → ℕ → Feedback
  unfolding block_len
  ask p (some d) block_id =
      let needed_total = div_ceil (block_len p block_id) p.symbol_size % 2 ^ 32 in
      need_more block_id (max (needed_total - d.accepted) 1) d.accepted
  ask p none block_id =
      need_more block_id (div_ceil (block_len p block_id) p.symbol_size % 2 ^ 32) 0

  -- `request_more`, for `count` blocks from `block_id` on.
  unfoldable pub request_more :
      FecParams → Table ℕ (BlockDecoder q) → Table ℕ Bool → ℕ → ℕ → List Feedback
  unfolding ask is_done lookup
  request_more p decoders finished zero block_id = []
  request_more p decoders finished (suc count) block_id =
      let rest = request_more p decoders finished count (block_id + 1) in
      if is_done finished block_id then rest else ask p (lookup block_id decoders) block_id ∷ rest

module _ (q : Raptorq) (w : BlockWriter) where
  pub record Receiver : Type 0 where
    pub decoders : Table ℕ (BlockDecoder q)
    pub finished : Table ℕ Bool
    pub symbols_accepted : ℕ
    pub symbols_rejected : ℕ
    pub completed : ℕ
    pub timing : Patience
    pub out : w.Out
    pub feedback : Channel

  -- The locals ahead of the loop.
  unfoldable pub new_receiver : ℕ → ℕ → (List Feedback → Bool) → w.Out → Receiver
  new_receiver rtt_estimate now takes out = record {
    decoders = [];
    finished = [];
    symbols_accepted = 0;
    symbols_rejected = 0;
    completed = 0;
    timing = record {
      patience = max (rtt_estimate * needmore_rtt_multiple) min_needmore_delay;
      last_progress = now;
      needmore_sent_at = none;
    };
    out = out;
    feedback = new_channel takes;
  }

  unfoldable pub reject : Receiver → Receiver
  reject r = record r { symbols_rejected = (r.symbols_rejected + 1) % 2 ^ 64 }

  -- `decoders.entry(block_id)`
  unfoldable pub open_decoder : FecParams → Option (BlockDecoder q) → ℕ → Result (BlockDecoder q)
  unfolding block_len new_decoder oti_for_block
  open_decoder p (some d) block_id = ok d
  open_decoder p none block_id = do
    oti ← oti_for_block (block_len p block_id) p.symbol_size
    new_decoder q oti (block_len p block_id)

  -- `if complete`, behind the accounting; `used` is `decoder.symbols_accepted()`.
  unfoldable pub finish_block : FecParams → Receiver → ℕ → ℕ → Option (List ℕ) → Result Receiver
  unfolding block_range remove insert send_feedback
  finish_block p r block_id used none = err (AftError.other Message.block_vanished)
  finish_block p r block_id used (some block) = do
    out ← w.write_block r.out (block_range block_id p.block_size p.total_len).0 block
    ok (record r {
      decoders = remove block_id r.decoders;
      finished = insert block_id true r.finished;
      completed = (r.completed + 1) % 2 ^ 32;
      out = out;
      feedback = send_feedback (block_ok block_id used) r.feedback;
    })

  -- The accounting for an accepted symbol; the decoder stays in the map as `push` left it.
  unfoldable pub account : Receiver → ℕ → ℕ → BlockDecoder q → Receiver
  unfolding insert heard
  account r now block_id d = record r {
    decoders = insert block_id d r.decoders;
    symbols_accepted = (r.symbols_accepted + 1) % 2 ^ 64;
    timing = heard r.timing now;
  }

  -- `match decoder.push(&payload)`
  unfoldable pub settle :
      FecParams → Receiver → ℕ → ℕ → BlockDecoder q × Result Bool → Result Receiver
  unfolding account finish_block reject insert take_block
  settle p r now block_id (d, ok false) = ok (account r now block_id d)
  settle p r now block_id (d, ok true) =
      finish_block p (account r now block_id d) block_id d.accepted (take_block q d).1
  settle p r now block_id (d, err e) =
      ok (reject (record r { decoders = insert block_id d r.decoders }))

  -- A symbol that passed the verification of its datagram.
  unfoldable pub receive_symbol : FecParams → Receiver → ℕ → ℕ → List ℕ → Result Receiver
  unfolding is_done reject has_key open_decoder settle push lookup
  receive_symbol p r now block_id payload =
      if leb (total_blocks p) block_id
      then ok (reject r)
      else if is_done r.finished block_id
      then ok r
      else if not (has_key block_id r.decoders) && leb (max p.window 1) (length r.decoders)
      then ok (reject r)
      else (open_decoder p (lookup block_id r.decoders) block_id >>= λ d.
          settle p r now block_id (push q d payload))

  -- Nothing arrived for as long as the patience lasts. Where the asks stall, the loop does not get
  -- to the timing, and nobody sees it.
  unfoldable pub ask_again : FecParams → Receiver → ℕ → Receiver
  unfolding asked request_more send_each
  ask_again p r now =
      if leb r.timing.patience (now - r.timing.last_progress)
      then record r {
        timing = asked r.timing now;
        feedback = send_each (request_more q p r.decoders r.finished (total_blocks p) 0) r.feedback;
      }
      else r

  -- One round of the loop.
  unfoldable pub arrive : FecParams → Receiver → Arrival → Result Receiver
  unfolding receive_symbol reject ask_again
  arrive p r (symbol now block_id payload) = receive_symbol p r now block_id payload
  arrive p r damaged = ok (reject r)
  arrive p r (failed e) = err e
  arrive p r (elapsed now) = ok (ask_again p r now)

  -- How far the loop is when the arrivals are used up, or when it waits for the channel of feedback
  -- for ever.
  pub data Progress : Type 0 where
    returned : Receiver → Progress
    aborted : AftError → Progress
    waiting : Receiver → Progress

  unfoldable pub go_on : (Receiver → Progress) → Result Receiver → Progress
  go_on loop (err e) = aborted e
  go_on loop (ok r) = if r.feedback.stalled then waiting r else loop r

  -- `while completed < total_blocks`
  unfoldable pub recv_loop : FecParams → List Arrival → Receiver → Progress
  unfolding arrive go_on
  recv_loop p [] r = if ltb r.completed (total_blocks p) then waiting r else returned r
  recv_loop p (a ∷ later) r =
      let next = go_on (recv_loop p later) (arrive p r a) in
      if ltb r.completed (total_blocks p) then next else returned r

-- `recv_object`
unfoldable pub recv_object :
    (q : Raptorq)
    → FecParams
    → ℕ
    → ℕ
    → (List Feedback → Bool)
    → List Arrival
    → Progress q vec_blocks
unfolding recv_loop new_receiver
recv_object q p rtt_estimate now takes arrivals =
    recv_loop q vec_blocks p arrivals
      (new_receiver q vec_blocks rtt_estimate now takes (with_len p.total_len))
