-- ===== src/Fec/Transfer/Repair.antt =====
-- Proofs on the asks for repair in src/aftp/fec/transfer.rs.
use agentic_file_transfer.Base.{
  ℕ, zero, suc, ◌+◌, ◌*◌, ◌≤◌, ◌<◌, ◌≡◌, ◌∙◌, min, List, [], ◌∷◌, Bool, false, not, ◌&&◌, ◌||◌,
  Option, some, none, arith, leb, ltb, ◌==◌, div_ceil, div_ceil_covers, Bool-cases, inl, inr,
}
use agentic_file_transfer.Base.Table.{Table, lookup, nat_eq}
use agentic_file_transfer.Fec.Codec.{Raptorq, BlockDecoder}
use agentic_file_transfer.Fec.Parameters.{oti_for_block-ok, pos_of_cover}
use agentic_file_transfer.Fec.Transfer.Blocks.{
  FecParams, total_blocks, block_len, Feedback, need_more, block_ok,
}
use agentic_file_transfer.Fec.Transfer.Receiver.{
  Patience, learn, heard, back_off, asked, is_done, ask, request_more,
}
use agentic_file_transfer.Fec.Transfer.Totality.{HasCodec}

-- A message asks for one symbol of the block at least.
abbrev pub asks_for : ℕ → Feedback → Bool
asks_for i (need_more block_id needed received) = block_id == i && leb 1 needed
asks_for i (block_ok block_id used) = false

abbrev pub asked_for : ℕ → List Feedback → Bool
asked_for i [] = false
asked_for i (m ∷ ms) = asks_for i m || asked_for i ms

module _ (q : Raptorq) (p : FecParams) (decoders : Table ℕ (BlockDecoder q))
    (finished : Table ℕ Bool) where
  ask_positive :
      (o : Option (BlockDecoder q)) (i k : ℕ)
      → 1 ≤ div_ceil (block_len p k) p.symbol_size
      → div_ceil (block_len p k) p.symbol_size ≤ 56_403
      → asks_for i (ask q p o k) ≡ (k == i)
  unfolding ask
  ask_positive none i k pos few = ground arith
  ask_positive (some d) i k pos few = ground arith

  ask_lem :
      (o : Option (BlockDecoder q)) (i k : ℕ)
      → HasCodec p
      → k < total_blocks p
      → asks_for i (ask q p o k) ≡ (k == i)
  ask_lem o i k codec below =
      let (config, agreed) = codec k below in
      let (s1, l1, few, len, size) = oti_for_block-ok (block_len p k) p.symbol_size config agreed in
      let (lo, hi) = div_ceil_covers (block_len p k) p.symbol_size s1 in
      let pos =
        pos_of_cover (div_ceil (block_len p k) p.symbol_size) (block_len p k) p.symbol_size l1 lo in
      ask_positive o i k pos few

  request_more_from :
      (count i k : ℕ)
      → HasCodec p
      → k + count ≤ total_blocks p
      → asked_for i (request_more q p decoders finished count k)
        ≡ (leb k i && ltb i (k + count) && not (is_done finished i))
  unfolding request_more
  request_more_from zero i k codec fits = ground arith
  request_more_from (suc count) i k codec fits =
      let later = request_more_from count i (k + 1) codec (omega arith) in
      let now = ask_lem (lookup k decoders) i k codec (omega arith) in
      elim (Bool-cases (is_done finished k)) [
        | inl shut ↦ rw shut (ground (arith, later, shut))
        | inr open_ ↦ rw (open_, now) (ground (arith, later, open_))
      ]

  -- An ask after a quiet period leaves no unfinished block of the transfer out, asks for one symbol
  -- of it at least, and asks for no finished block and for none that the transfer does not have, if
  -- every block has parameters that RaptorQ accepts.
  pub request_more_lem :
      (i : ℕ)
      → HasCodec p
      → asked_for i (request_more q p decoders finished (total_blocks p) 0)
        ≡ (ltb i (total_blocks p) && not (is_done finished i))
  request_more_lem i codec =
      request_more_from (total_blocks p) i 0 codec (omega arith) ∙ ground arith

patience_bounds_at :
    (o : Option ℕ) (patience now later : ℕ)
    → patience ≤ 1_000_000
    → (patience ≤ learn o now patience)
      × (learn o now patience ≤ 1_000_000)
      × (patience ≤ back_off o patience)
      × (back_off o patience ≤ 1_000_000)
      × (back_off (some now) (back_off o patience) ≡ min (2 * back_off o patience) 1_000_000)
unfolding learn back_off
patience_bounds_at none patience now later h = omega arith
patience_bounds_at (some asked_at) patience now later h = omega arith

-- While the patience is at most a second, neither an accepted symbol nor an ask makes it shorter,
-- and neither makes it longer than a second; two asks with nothing in between double it up to
-- there.
pub patience_bounds :
    (t : Patience) (now later : ℕ)
    → t.patience ≤ 1_000_000
    → (t.patience ≤ (heard t now).patience)
      × ((heard t now).patience ≤ 1_000_000)
      × (t.patience ≤ (asked t now).patience)
      × ((asked t now).patience ≤ 1_000_000)
      × ((asked (asked t now) later).patience ≡ min (2 * (asked t now).patience) 1_000_000)
unfolding heard asked learn back_off
patience_bounds t now later h = patience_bounds_at t.needmore_sent_at t.patience now later h
