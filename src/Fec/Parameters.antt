-- ===== src/Fec/Parameters.antt =====
-- Proofs on the transmission parameters of src/aftp/fec/codec.rs.
use agentic_file_transfer.Base.{
  ℕ, zero, suc, ◌*◌, ◌%◌, ◌^◌, ◌≤◌, ◌≡◌, ap, List, none, arith, length, div_ceil, div_ceil_covers,
  ok,
}
use agentic_file_transfer.Base.Fallible.{>>=-eq-ok}
use agentic_file_transfer.Fec.Codec.{Oti, oti_for_block, Raptorq, new_decoder}
use agentic_file_transfer.Fec.Encoder.{RaptorqEncoder, BlockEncoder, new_encoder}

pub pos_of_cover : (n m s : ℕ) → 1 ≤ m → m ≤ n * s → 1 ≤ n
pos_of_cover zero m s h k = omega arith
pos_of_cover (suc n) m s h k = omega arith

pub oti_for_block-ok :
    (len symbol_size : ℕ) (config : Oti)
    → oti_for_block len symbol_size ≡ ok config
    → (1 ≤ symbol_size)
      × (1 ≤ len)
      × (div_ceil len symbol_size ≤ 56_403)
      × (config.transfer_length ≡ len)
      × (config.symbol_size ≡ symbol_size)
unfolding oti_for_block
oti_for_block-ok len s config h = ground arith

pub new_decoder-fresh :
    (q : Raptorq) (config : Oti) (len : ℕ)
    → config.transfer_length ≡ len
    → 1 ≤ config.symbol_size
    → new_decoder q config len
      ≡ ok (record { inner = q.start config; result = none; accepted = 0; expected_len = len })
unfolding new_decoder
new_decoder-fresh q config len same some_symbol = ground arith

-- Whenever an encoder can be made for a block, it announces from 1 to 56,403 source symbols that
-- cover the block, and a decoder made from its parameters for the block's length is accepted and
-- starts with no block and no symbols.
pub new_decoder-new_encoder :
    (q : RaptorqEncoder) (p : Raptorq) (bytes : List ℕ) (symbol_size : ℕ) (e : BlockEncoder q)
    → new_encoder q bytes symbol_size ≡ ok e
    → (1 ≤ e.source_symbol_count)
      × (e.source_symbol_count ≤ 56_403)
      × (length bytes ≤ e.source_symbol_count * symbol_size)
      × (new_decoder p e.config (length bytes)
          ≡ ok (record {
            inner = p.start e.config;
            result = none;
            accepted = 0;
            expected_len = length bytes;
          }))
unfolding new_encoder
new_decoder-new_encoder q p bytes s e h =
    let (config, made, rest) = >>=-eq-ok (oti_for_block (length bytes) s) _ h in
    let (s1, l1, few, len, sym_size) = oti_for_block-ok (length bytes) s config made in
    let (lo, hi) = div_ceil_covers (length bytes) s s1 in
    let same : e.config ≡ config = cc rest in
    let count : e.source_symbol_count ≡ div_ceil (length bytes) s % 2 ^ 32 = cc rest in
    let exact : e.source_symbol_count ≡ div_ceil (length bytes) s = omega (arith, count, few) in
    let cover : length bytes ≤ e.source_symbol_count * s = rw exact lo in
    (
      pos_of_cover e.source_symbol_count (length bytes) s l1 cover,
      omega (arith, exact, few),
      cover,
      new_decoder-fresh p e.config (length bytes) (cc (same, len))
          (omega (arith, ap (λ c. c.symbol_size) same, sym_size, s1)),
    )
