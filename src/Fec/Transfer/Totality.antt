-- ===== src/Fec/Transfer/Totality.antt =====
-- Proofs that no round of `recv_object_into` of src/aftp/fec/transfer.rs fails by itself.
use agentic_file_transfer.Base.{
  ℕ, ◌+◌, ◌*◌, ◌≤◌, ◌<◌, ◌≡◌, refl, ap, max, List, Bool, true, false, not, ◌&&◌, Option, some, none,
  arith, length, leb, ltb, Result, ok, err, Bool-cases, inl, inr, leb→gt, ge→ltb,
}
use agentic_file_transfer.Base.Fallible.{Succeeds, >>=-Succeeds}
use agentic_file_transfer.Base.Table.{lookup, has_key, nat_eq}
use agentic_file_transfer.Base.Positions.{splice}
use agentic_file_transfer.Fec.Codec.{
  block_range, Oti, Raptorq, BlockDecoder, push, take_block, oti_for_block, new_decoder,
}
use agentic_file_transfer.Fec.Parameters.{oti_for_block-ok, new_decoder-fresh}
use agentic_file_transfer.Fec.Transfer.Regions.{length-block_of}
use agentic_file_transfer.Fec.Transfer.Blocks.{
  FecParams, total_blocks, block_len, vec_blocks, write_bytes,
}
use agentic_file_transfer.Fec.Transfer.Receiver.{
  Arrival, symbol, damaged, failed, elapsed, is_done, Receiver, open_decoder, finish_block, account,
  settle, receive_symbol, arrive,
}
use agentic_file_transfer.Fec.Transfer.Fountain.{Fountain, Pushed, push-Pushed}
use agentic_file_transfer.Fec.Transfer.Serving.{block, IsGenuine, open_decoder-Serves}
use agentic_file_transfer.Fec.Transfer.Settling.{Holds}

-- Nothing in the parameters stands in the way of a decoder for any of the blocks.
abbrev pub HasCodec : FecParams → Type 0
HasCodec p =
    (i : ℕ)
    → i < total_blocks p
    → (config : Oti) × (oti_for_block (block_len p i) p.symbol_size ≡ ok config)

-- The data plane itself does not fail.
abbrev pub IsDelivered : Arrival → Type 0
IsDelivered (symbol now i payload) = Unit
IsDelivered damaged = Unit
IsDelivered (failed e) = ⊥
IsDelivered (elapsed now) = Unit

module _ (q : Raptorq) (f : Fountain q) (p : FecParams) where
  open_decoder-total :
      (o : Option (BlockDecoder q)) (i : ℕ)
      → HasCodec p
      → i < total_blocks p
      → Succeeds (open_decoder q vec_blocks p o i)
  unfolding open_decoder
  open_decoder-total (some d) i codec below = (d, refl)
  open_decoder-total none i codec below =
      let (config, agreed) = codec i below in
      let (some_symbol, _, _, len, size) =
        oti_for_block-ok (block_len p i) p.symbol_size config agreed in
      >>=-Succeeds (oti_for_block (block_len p i) p.symbol_size)
        (λ oti. new_decoder q oti (block_len p i)) agreed
        (_, new_decoder-fresh q config (block_len p i) len (omega (arith, size, some_symbol)))

  module _ (bytes : List ℕ) (same : p.total_len ≡ length bytes) where
    finish_block-total :
        (r : Receiver q vec_blocks) (i used : ℕ) (o : Option (List ℕ))
        → length r.out ≡ length bytes
        → o ≡ some (block q f p bytes i)
        → i * p.block_size ≤ length bytes
        → Succeeds (finish_block q vec_blocks p r i used o)
    unfolding finish_block write_bytes block_range
    finish_block-total r i used none long e starts = cc e
    finish_block-total r i used (some b) long e starts =
        let is_block : b ≡ block q f p bytes i = cc e in
        let size = length-block_of i p.block_size bytes in
        let fits : ltb (length r.out) (i * p.block_size + length b) ≡ false =
          ge→ltb _ _ (omega (arith, long, ap length is_block, size, starts)) in
        let written : write_bytes r.out (i * p.block_size) b
            ≡ ok (splice r.out (i * p.block_size) b) =
          rw fits refl in
        >>=-Succeeds (write_bytes r.out (i * p.block_size) b) _ written (_, refl)

    settle-total :
        (r : Receiver q vec_blocks) (now i : ℕ) (config : Oti)
        (pushed : BlockDecoder q × Result Bool)
        → length r.out ≡ length bytes
        → Pushed q f config (block q f p bytes i) pushed
        → i * p.block_size ≤ length bytes
        → Succeeds (settle q vec_blocks p r now i pushed)
    unfolding settle account take_block
    settle-total r now i config (d, ok false) long h starts = (_, refl)
    settle-total r now i config (d, ok true) long h starts =
        finish_block-total (account q vec_blocks r now i d) i d.accepted d.result long h starts
    settle-total r now i config (d, err bad) long h starts = (_, refl)

    block_starts : (i : ℕ) → 1 ≤ block_len p i → i * p.block_size ≤ length bytes
    unfolding block_len block_range
    block_starts i h = omega (arith, same)

    receive_symbol-total :
        (r : Receiver q vec_blocks) (now i : ℕ) (payload : List ℕ)
        → HasCodec p
        → Holds q f p bytes r
        → IsGenuine q f p bytes (symbol now i payload)
        → Succeeds (receive_symbol q vec_blocks p r now i payload)
    unfolding receive_symbol
    receive_symbol-total r now i payload codec h genuine =
        elim (Bool-cases (leb (total_blocks p) i)) [
          | inl beyond ↦ rw beyond (_, refl)
          | inr below ↦ elim (Bool-cases (is_done r.finished i)) [
            | inl shut ↦ rw (below, shut) (_, refl)
            | inr open_ ↦
                elim (Bool-cases
                  (not (has_key i r.decoders) && leb (max p.window 1) (length r.decoders))) [
                    | inl no_room ↦ rw (below, open_, no_room) (_, refl)
                    | inr room ↦
                        let small = leb→gt _ _ below in
                        let (d, opened) = open_decoder-total (lookup i r.decoders) i codec small in
                        let s =
                          open_decoder-Serves q f p bytes same (lookup i r.decoders) i d
                            (h.serving i) opened in
                        let pushed =
                          push-Pushed q f s.config (block q f p bytes i) d payload s.tracks
                            (genuine small s.config s.agreed) in
                        rw (below, open_, room)
                          (>>=-Succeeds (open_decoder q vec_blocks p (lookup i r.decoders) i) _
                            opened
                            (settle-total r now i s.config (push q d payload) h.written.long pushed
                              (block_starts i
                                (oti_for_block-ok (block_len p i) p.symbol_size s.config
                                  s.agreed).1)))
                  ]
          ]
        ]

    pub arrive-total :
        (r : Receiver q vec_blocks) (a : Arrival)
        → HasCodec p
        → Holds q f p bytes r
        → IsGenuine q f p bytes a
        → IsDelivered a
        → Succeeds (arrive q vec_blocks p r a)
    unfolding arrive
    arrive-total r (symbol now i payload) codec h genuine delivered =
        receive_symbol-total r now i payload codec h genuine
    arrive-total r damaged codec h genuine delivered = (_, refl)
    arrive-total r (failed e) codec h genuine delivered = absurd delivered
    arrive-total r (elapsed now) codec h genuine delivered = (_, refl)
