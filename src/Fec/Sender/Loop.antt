-- ===== src/Fec/Sender/Loop.antt =====
-- `send_blocks` and `send_object` of src/aftp/fec/transfer.rs. The feedback that arrives is a list
-- whose end is the closed channel; `none` in it is a moment at which nothing has arrived yet, which
-- `try_recv` sees and `recv` waits through.
use agentic_file_transfer.Base.{
  ℕ, zero, suc, ◌+◌, ◌-◌, max, List, [], ◌∷◌, Bool, true, false, not, ◌&&◌, Option, some, none,
  length, ltb, leb, ◌==◌, if◌then◌else◌, Result, ok, err, AftError, Message,
}
use agentic_file_transfer.Base.Fallible.{◌>>=◌}
use agentic_file_transfer.Base.Table.{Table, lookup, insert, nat_eq}
use agentic_file_transfer.Fec.Codec.{block_range}
use agentic_file_transfer.Fec.Encoder.{BlockEncoder, new_encoder, source_symbols, repair_symbols}
use agentic_file_transfer.Fec.Transfer.Blocks.{FecParams, total_blocks, Feedback, read_block}
use agentic_file_transfer.Fec.Sender.Line.{Environment, Line, SendStats, pace_and_send, send_all}
use agentic_file_transfer.Fec.Sender.Answering.{InFlight, Ledger, apply_feedback}

abbrev pub max_repair_rounds : ℕ
max_repair_rounds = 32

abbrev pub Inbox : Type 0
Inbox = List (Option Feedback)

-- What the loop comes to: its statistics, an error, or that fuel is short.
pub data Sending : Type 0 where
  sent : SendStats → Sending
  failed : AftError → Sending
  out_of_fuel : Sending

module _ (env : Environment) (p : FecParams) where
  pub record Sender : Type 0 where
    pub ledger : Ledger env
    pub line : Line env
    pub inbox : Inbox
    pub next_block : ℕ

  abbrev pub apply_to : Feedback → Inbox → Sender → Result Sender
  apply_to m rest s = do
    (g, l) ← apply_feedback env m p.symbol_size s.ledger s.line
    ok (record { ledger = g; line = l; inbox = rest; next_block = s.next_block })

  -- `while let Ok(msg) = feedback.try_recv()`
  unfoldable pub drain : Inbox → Sender → Result Sender
  unfolding apply_feedback
  drain [] s = ok (record s { inbox = [] })
  drain (none ∷ rest) s = ok (record s { inbox = rest })
  drain (some m ∷ rest) s = apply_to m rest s >>= drain rest

  -- The startup guard: more than this is not sent before the first delivery sample.
  abbrev pub holds_back : Sender → Bool
  holds_back s =
      not (env.is_sampled s.line.rates) && leb env.unsampled_allowance s.line.stats.bytes_sent

  unfoldable pub wait_for_sample : Inbox → Sender → Result Sender
  unfolding apply_feedback
  wait_for_sample [] s =
      if holds_back s
      then err (AftError.transfer_failed Message.closed_during_startup)
      else ok (record s { inbox = [] })
  wait_for_sample (none ∷ rest) s =
      let later = wait_for_sample rest s in
      if holds_back s then later else ok (record s { inbox = none ∷ rest })
  wait_for_sample (some m ∷ rest) s =
      let later = apply_to m rest s >>= wait_for_sample rest in
      if holds_back s then later else ok (record s { inbox = some m ∷ rest })

  -- `for symbol in &source`
  unfoldable pub spray : ℕ → List (List ℕ) → Sender → Result Sender
  unfolding wait_for_sample pace_and_send
  spray block_id [] s = ok s
  spray block_id (symbol ∷ symbols) s = do
    s1 ← wait_for_sample s.inbox s
    l ← pace_and_send env block_id symbol s1.line
    spray block_id symbols (record s1 { line = l })

  abbrev pub put_inflight : ℕ → InFlight env → Sender → Sender
  put_inflight block_id f s = record s {
    ledger = record s.ledger { inflight = insert block_id f s.ledger.inflight };
  }

  -- The proactive repair, for the block if it is still in flight.
  unfoldable pub send_proactive : ℕ → ℕ → Option (InFlight env) → Sender → Result Sender
  unfolding repair_symbols send_all insert
  send_proactive block_id repair_n none s = ok s
  send_proactive block_id repair_n (some f) s = do
    l ← send_all env block_id (repair_symbols env.coder f.encoder 0 repair_n) s.line
    ok (put_inflight block_id (record f { repair_cursor = repair_n }) (record s { line = l }))

  unfoldable pub end_spray : ℕ → Option (InFlight env) → Sender → Sender
  unfolding insert
  end_spray block_id none s = s
  end_spray block_id (some f) s = put_inflight block_id (record f { spraying = false }) s

  abbrev pub new_inflight : BlockEncoder env.coder → InFlight env
  new_inflight encoder = record {
    encoder = encoder;
    repair_cursor = 0;
    rounds = 0;
    feedback_symbols = 0;
    spraying = true;
  }

  -- The rest of opening the window, behind the making of the block's encoder.
  unfoldable pub send_block : ℕ → BlockEncoder env.coder → Sender → Result Sender
  unfolding spray send_proactive end_spray source_symbols lookup
  send_block block_id encoder s = do
    s1 ←
        spray block_id (source_symbols env.coder encoder)
          (put_inflight block_id (new_inflight encoder) (record s { next_block = block_id + 1 }))
    s2 ←
        (let n = env.repair_symbol_count encoder.source_symbol_count s1.line.rates in
          if ltb 0 n
          then send_proactive block_id n (lookup block_id s1.ledger.inflight) s1
          else ok s1)
    ok (end_spray block_id (lookup block_id s2.ledger.inflight) s2)

  unfoldable pub open_block : Sender → Result Sender
  unfolding block_range new_encoder send_block
  open_block s =
      let (start, end) = block_range s.next_block p.block_size p.total_len in
      do
        block ← env.read_block start (end - start)
        encoder ← new_encoder env.coder block p.symbol_size
        send_block s.next_block encoder s

  -- `feedback.recv()`, and what is done with the message.
  unfoldable pub await_feedback : Inbox → Sender → Result Sender
  unfolding apply_feedback
  await_feedback [] s =
      err (
        AftError.transfer_failed (Message.closed_with_acknowledged s.ledger.acked (total_blocks p)))
  await_feedback (none ∷ rest) s = await_feedback rest s
  await_feedback (some m ∷ rest) s = apply_to m rest s

  -- A block that has used up its rounds. A hash map may find another one first.
  unfoldable pub find_stuck : Table ℕ (InFlight env) → Option ℕ
  find_stuck [] = none
  find_stuck ((block_id, f) ∷ m) =
      let rest = find_stuck m in if ltb max_repair_rounds f.rounds then some block_id else rest

  abbrev pub may_open : Sender → Bool
  may_open s = ltb (length s.ledger.inflight) (max p.window 1) && ltb s.next_block (total_blocks p)

  -- A turn of the loop, behind its draining of what has arrived.
  unfoldable pub advance : Option ℕ → Sender → Result Sender
  unfolding open_block await_feedback
  advance (some block_id) s =
      err (AftError.transfer_failed (Message.did_not_converge block_id max_repair_rounds))
  advance none s = if may_open s then open_block s else await_feedback s.inbox s

  abbrev pub stats_of : Sender → Sending
  stats_of s = Sending.sent s.line.stats

  abbrev pub continue : Result Sender → (Sender → Sending) → Sending
  continue (err e) next = Sending.failed e
  continue (ok s) next = next s

  -- The turn from the second look at `acked` on.
  unfoldable pub after_drain : (Sender → Sending) → Sender → Sending
  unfolding advance find_stuck
  after_drain next s =
      if leb (total_blocks p) s.ledger.acked
      then stats_of s
      else continue (advance (find_stuck s.ledger.inflight) s) next

  -- `while acked < total_blocks`
  unfoldable pub send_loop : ℕ → Sender → Sending
  unfolding drain after_drain
  send_loop zero s = Sending.out_of_fuel
  send_loop (suc n) s =
      if leb (total_blocks p) s.ledger.acked
      then stats_of s
      else continue (drain s.inbox s) (after_drain (send_loop n))

  unfoldable pub start_sender : env.Out → env.Rates → Inbox → Sender
  start_sender out rates inbox = record {
    ledger = record { inflight = []; acked = 0 };
    line = record {
      out = out;
      rates = rates;
      stats = record { symbols_sent = 0; bytes_sent = 0; repair_rounds = 0 };
    };
    inbox = inbox;
    next_block = 0;
  }

  unfoldable pub send_blocks : ℕ → env.Out → env.Rates → Inbox → Sending
  unfolding send_loop start_sender
  send_blocks fuel out rates inbox = send_loop fuel (start_sender out rates inbox)

-- `SliceBlocks` as the reader.
abbrev pub with_slice : List ℕ → Environment → Environment
with_slice bytes env = record env { read_block = read_block bytes }

-- `send_object`
unfoldable pub send_object :
    (env : Environment) → FecParams → List ℕ → ℕ → env.Out → env.Rates → Inbox → Sending
unfolding send_blocks
send_object env p bytes fuel out rates inbox =
    if not (length bytes == p.total_len)
    then Sending.failed (AftError.other (Message.data_len_disagrees (length bytes) p.total_len))
    else send_blocks (with_slice bytes env) p fuel out rates inbox
