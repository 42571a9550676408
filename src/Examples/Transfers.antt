-- ===== src/Examples/Transfers.antt =====
-- Transfers of src/aftp/fec/transfer.rs and a manifest of src/aftp/fec/manifest.rs on concrete
-- bytes, with small stand-ins for the RaptorQ library and the hash.
use agentic_file_transfer.Base.{
  ℕ, zero, suc, ◌*◌, ◌^◌, ◌≤◌, ◌<◌, ◌≡◌, refl, min, List, [], ◌∷◌, Bool, true, false, none, some,
  none≢some, sym, arith, length, drop, replicate, inl, All, div_ceil, subst,
}
use agentic_file_transfer.Base.Table.{lookup, insert, remove, has_key}
use agentic_file_transfer.Frame.Yields.{ok_inj}
use agentic_file_transfer.Fec.Codec.{
  Raptorq, oti_for_block, new_decoder, push, push_unless_complete, push_symbol, take_decoded,
  take_block, block_count, block_range,
}
use agentic_file_transfer.Fec.Transfer.Blocks.{
  FecParams, Feedback, block_len, total_blocks, block_ok, write_bytes, vec_blocks,
}
use agentic_file_transfer.Fec.Transfer.Channel.{send_feedback}
use agentic_file_transfer.Fec.Transfer.Receiver.{
  Arrival, symbol, damaged, Patience, learn, heard, asked, is_done, request_more, Receiver,
  new_receiver, reject, open_decoder, finish_block, account, settle, receive_symbol, arrive,
  returned, go_on, recv_loop, recv_object,
}
use agentic_file_transfer.Fec.Transfer.Fountain.{Fountain}
use agentic_file_transfer.Fec.Transfer.Potential.{Converges}
use agentic_file_transfer.Fec.Transfer.Serving.{IsGenuine}
use agentic_file_transfer.Fec.Transfer.Totality.{HasCodec}
use agentic_file_transfer.Fec.Transfer.Nearing.{IsUseful}
use agentic_file_transfer.Fec.Transfer.Reassembly.{recv_object_exact}
use agentic_file_transfer.Fec.Transfer.Window.{recv_loop_window, AlwaysFits}
use agentic_file_transfer.Fec.Transfer.Liveness.{Supplies, recv_object_live}
use agentic_file_transfer.Fec.Transfer.Repair.{asked_for, request_more_lem, patience_bounds}

yielded :
    (block payload out : List ℕ)
    → drop 4 payload ≡ block
    → some (drop 4 payload) ≡ some out
    → out ≡ block
yielded block payload out h e = cc (h, e)

-- A decoder whose every symbol carries the whole block behind its four bytes.
abbrev whole : Raptorq
whole = record {
  Decoder = Unit {0};
  start = λ config. tt;
  decode = λ d packet. (tt, some (drop 4 packet));
}

abbrev whole_fountain : Fountain whole
whole_fountain = record {
  IsSymbol = λ config block payload. (drop 4 payload ≡ block) × (4 < length payload);
  Follows = λ config block d. Unit {0};
  starts = λ config block h. tt;
  goes_on = λ config block d payload h s e. tt;
  yields = λ config block d payload out h s e. yielded block payload out (s.0) e;
}

abbrev whole_converges : Converges whole whole_fountain
whole_converges = record {
  missing = λ d. 0;
  IsNew = λ d payload. Unit {0};
  budget = 0;
  starts = λ config. omega arith;
  long = λ config block payload s. s.1;
  stays = λ config block d payload h s. omega arith;
  nears = λ config block d payload h s new e. none≢some (sym e);
}

abbrev three_bytes : List ℕ
three_bytes = 5 ∷ 6 ∷ 7 ∷ []

abbrev two_blocks : FecParams
two_blocks = record { session_id = 7; total_len = 3; block_size = 2; symbol_size = 2; window = 1 }

-- The blocks arrive in the wrong order, among damage and a block that is not there.
abbrev first_symbol : Arrival
first_symbol = symbol 10 1 (0 ∷ 0 ∷ 0 ∷ 0 ∷ 7 ∷ [])

abbrev last_symbol : Arrival
last_symbol = symbol 30 0 (0 ∷ 0 ∷ 0 ∷ 1 ∷ 5 ∷ 6 ∷ [])

abbrev rough_way : List Arrival
rough_way = damaged ∷ first_symbol ∷ symbol 20 9 [] ∷ last_symbol ∷ []

-- The far side of the feedback takes every message.
abbrev willing : List Feedback → Bool
willing sent = true

abbrev reassembled : Receiver whole vec_blocks
reassembled = record {
  decoders = [];
  finished = (1, true) ∷ (0, true) ∷ [];
  symbols_accepted = 2;
  symbols_rejected = 2;
  completed = 2;
  timing = record { patience = 50_000; last_progress = 30; needmore_sent_at = none };
  out = three_bytes;
  feedback = record { takes = willing; sent = block_ok 1 1 ∷ block_ok 0 1 ∷ []; stalled = false };
}

rough_way-IsGenuine : All (IsGenuine whole whole_fountain two_blocks three_bytes) rough_way
unfolding block_range block_count div_ceil
rough_way-IsGenuine = (
  tt,
  (
    (λ small config agreed. (refl, omega arith)),
    (
      (λ small config agreed. absurd (omega arith)),
      ((λ small config agreed. (refl, omega arith)), tt),
    ),
  ),
)

recv_object_exact_example : reassembled.out ≡ three_bytes
unfolding recv_object recv_loop go_on arrive receive_symbol is_done lookup has_key open_decoder
    block_len block_range block_count oti_for_block new_decoder settle push push_unless_complete
    push_symbol take_decoded finish_block write_bytes account heard learn insert remove reject
    new_receiver take_block div_ceil send_feedback
recv_object_exact_example =
    recv_object_exact whole whole_fountain two_blocks three_bytes 100 0 willing rough_way
      reassembled (omega arith) refl (omega arith) rough_way-IsGenuine refl

recv_loop_window_example : AlwaysFits whole vec_blocks two_blocks (
    recv_loop whole vec_blocks two_blocks rough_way
      (new_receiver whole vec_blocks 100 0 willing (replicate 3 0)))
unfolding new_receiver
recv_loop_window_example =
    recv_loop_window whole vec_blocks two_blocks rough_way
      (new_receiver whole vec_blocks 100 0 willing (replicate 3 0)) (omega arith)

abbrev impatient : Patience
impatient = record { patience = 70_000; last_progress = 0; needmore_sent_at = none }

patience_bounds_example :
    (70_000 ≤ (heard impatient 80_000).patience)
    × ((heard impatient 80_000).patience ≤ 1_000_000)
    × (70_000 ≤ (asked impatient 80_000).patience)
    × ((asked impatient 80_000).patience ≤ 1_000_000)
    × ((asked (asked impatient 80_000) 150_000).patience
        ≡ min (2 * (asked impatient 80_000).patience) 1_000_000)
patience_bounds_example = patience_bounds impatient 80_000 150_000 (omega arith)

two_blocks-HasCodec : HasCodec two_blocks
unfolding oti_for_block block_len block_range block_count div_ceil
two_blocks-HasCodec zero small = (_, refl)
two_blocks-HasCodec (suc zero) small = (_, refl)
two_blocks-HasCodec (suc (suc i)) small = absurd (omega arith)

request_more_lem_example :
    asked_for 0 (request_more whole two_blocks [] ((1, true) ∷ []) (total_blocks two_blocks) 0)
    ≡ true
unfolding block_count is_done lookup div_ceil
request_more_lem_example =
    request_more_lem whole two_blocks [] ((1, true) ∷ []) 0 two_blocks-HasCodec

abbrev started : Receiver whole vec_blocks
started = new_receiver whole vec_blocks 100 0 willing (replicate 3 0)

-- Only the arrivals that are needed.
abbrev straight_way : List Arrival
straight_way = first_symbol ∷ last_symbol ∷ []

few_blocks : total_blocks two_blocks < 2 ^ 32
unfolding block_count div_ceil
few_blocks = omega arith

straight_way-Supplies :
    Supplies whole whole_fountain whole_converges two_blocks three_bytes refl few_blocks 2
      straight_way started
unfolding arrive receive_symbol is_done lookup has_key open_decoder block_len block_range
    block_count oti_for_block new_decoder settle push push_unless_complete push_symbol take_decoded
    finish_block write_bytes account heard learn insert remove reject new_receiver take_block
    div_ceil send_feedback
straight_way-Supplies n e = inl (
  (omega arith, refl, refl, λ d h. tt),
  λ m e1. inl (
    subst
        (λ r.
          IsUseful whole whole_fountain whole_converges two_blocks three_bytes refl few_blocks r
            last_symbol)
        (ok_inj e) (omega arith, refl, refl, λ d h. tt),
    tt,
  ),
)

recv_object_live_example :
    (r : Receiver whole vec_blocks) × (recv_object whole two_blocks 100 0 willing straight_way
      ≡ returned r)
    × (r.out ≡ three_bytes)
unfolding block_count block_range div_ceil
recv_object_live_example =
    recv_object_live whole whole_fountain whole_converges two_blocks three_bytes refl few_blocks 100
      0 willing straight_way (omega arith) (omega arith) two_blocks-HasCodec
      (
        (λ small config agreed. (refl, omega arith)),
        ((λ small config agreed. (refl, omega arith)), tt),
      )
      (tt, (tt, tt)) (λ sent. refl) straight_way-Supplies
