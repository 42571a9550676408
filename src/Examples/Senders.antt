-- ===== src/Examples/Senders.antt =====
-- The sender of src/aftp/fec/transfer.rs on concrete blocks and feedback.
use agentic_file_transfer.Base.{
  ℕ, ◌+◌, ◌≤◌, ◌<◌, ◌≡◌, ◌≢◌, refl, List, [], ◌∷◌, ◌++◌, true, false, some, none, arith, max, ok,
  div_ceil,
}
use agentic_file_transfer.Base.Table.{lookup, nat_eq}
use agentic_file_transfer.Fec.Codec.{block_count}
use agentic_file_transfer.Fec.Encoder.{RaptorqEncoder}
use agentic_file_transfer.Fec.Transfer.Blocks.{
  FecParams, total_blocks, need_more, block_ok, read_block,
}
use agentic_file_transfer.Fec.Sender.Line.{Environment, SendStats}
use agentic_file_transfer.Fec.Sender.Loop.{
  Sender, Inbox, Sending, drain, advance, find_stuck, send_blocks, start_sender,
}
use agentic_file_transfer.Fec.Sender.Outcome.{
  acknowledged, send_blocks-acknowledged, send_blocks_ends, send_window, Reached, starts, drains,
  advances,
}

-- A block is its only source symbol; a repair symbol tells its number.
abbrev plain_coder : RaptorqEncoder
plain_coder = record {
  Encoder = List ℕ;
  SourceBlock = List ℕ;
  start = λ bytes config. bytes;
  get_block_encoders = λ e. e ∷ [];
  source_packets = λ b. b ∷ [];
  repair_packets = λ b start_id count. (start_id ∷ []) ∷ [];
}

abbrev steady : Environment
steady = record {
  coder = plain_coder;
  Out = List (List ℕ);
  send_symbol = λ out block_id symbol. ok (out ++ (symbol ∷ []));
  read_block = read_block (1 ∷ 2 ∷ 3 ∷ 4 ∷ []);
  Rates = ℕ;
  is_sampled = λ r. true;
  unsampled_allowance = 100;
  acquire = λ r n. r;
  on_sample = λ r n. n;
  decay_loss = λ r. r;
  observe_loss = λ r received sent. r;
  repair_symbol_count = λ n r. 0;
}

-- Two blocks of two bytes, one in flight at a time.
abbrev two_blocks : FecParams
two_blocks = record { session_id = 7; total_len = 4; block_size = 2; symbol_size = 2; window = 1 }

-- The receiver misses block 0 at first, and asks for more.
abbrev arriving : Inbox
arriving = none ∷ some (need_more 0 1 0) ∷ some (block_ok 0 1) ∷ none ∷ some (block_ok 1 1) ∷ []

abbrev counts : SendStats
counts = record { symbols_sent = 3; bytes_sent = 5; repair_rounds = 1 }

arriving_sent : send_blocks steady two_blocks 10 [] 0 arriving ≡ Sending.sent counts
unfolding send_blocks block_count div_ceil read_block
arriving_sent = refl

send_blocks-acknowledged_example : acknowledged 1 arriving ≡ true
unfolding block_count div_ceil
send_blocks-acknowledged_example =
    send_blocks-acknowledged steady two_blocks 10 [] 0 arriving counts arriving_sent 1 (omega arith)

send_blocks_ends_example : send_blocks steady two_blocks 8 [] 0 arriving ≢ Sending.out_of_fuel
unfolding block_count div_ceil
send_blocks_ends_example = send_blocks_ends steady two_blocks 8 [] 0 arriving (omega arith)

abbrev at_start : Sender steady two_blocks
at_start = start_sender steady two_blocks [] 0 arriving

abbrev listening : Sender steady two_blocks
listening = record {
  ledger = record { inflight = []; acked = 0 };
  line = record {
    out = [];
    rates = 0;
    stats = record { symbols_sent = 0; bytes_sent = 0; repair_rounds = 0 };
  };
  inbox = some (need_more 0 1 0) ∷ some (block_ok 0 1) ∷ none ∷ some (block_ok 1 1) ∷ [];
  next_block = 0;
}

-- Block 0 is in flight.
abbrev sprayed : Sender steady two_blocks
sprayed = record {
  ledger = record {
    inflight =
        (
          0,
          record {
            encoder = record {
              inner = 1 ∷ 2 ∷ [];
              config = record {
                transfer_length = 2;
                symbol_size = 2;
                source_blocks = 1;
                sub_blocks = 1;
                alignment = 1;
              };
              source_symbol_count = 1;
            };
            repair_cursor = 0;
            rounds = 0;
            feedback_symbols = 0;
            spraying = false;
          },
        )
        ∷ [];
    acked = 0;
  };
  line = record {
    out = (1 ∷ 2 ∷ []) ∷ [];
    rates = 0;
    stats = record { symbols_sent = 1; bytes_sent = 2; repair_rounds = 0 };
  };
  inbox = listening.inbox;
  next_block = 1;
}

start_drained : drain steady two_blocks arriving at_start ≡ ok listening
unfolding drain start_sender
start_drained = refl

listening_advanced :
    advance steady two_blocks (find_stuck steady two_blocks listening.ledger.inflight) listening
    ≡ ok sprayed
unfolding advance find_stuck block_count div_ceil read_block
listening_advanced = refl

sprayed-Reached : Reached steady two_blocks [] 0 arriving sprayed
unfolding start_sender
sprayed-Reached = advances (drains starts start_drained) listening_advanced

send_window_example :
    (1 ≤ max two_blocks.window 1)
    × (1 + 0 ≤ 1)
    × (1 ≤ total_blocks two_blocks)
    × ((b : ℕ) → b < 1 → lookup b sprayed.ledger.inflight ≡ none → acknowledged b arriving ≡ true)
send_window_example = send_window steady two_blocks [] 0 arriving sprayed sprayed-Reached
