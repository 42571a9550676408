-- ===== src/Fec/Transfer/Blocks.antt =====
-- The parameters of a transfer and the ends that supply and take its blocks,
-- src/aftp/fec/transfer.rs.
use agentic_file_transfer.Base.{
  ℕ, ◌+◌, ◌-◌, List, ◌++◌, length, take, drop, slice, replicate, ltb, if◌then◌else◌, Result, ok,
  err, AftError, Message,
}
use agentic_file_transfer.Fec.Codec.{block_count, block_range}

-- `FecParams`, less the loss hint, a float that only the sender's repair reads.
pub record FecParams : Type 0 where
  pub session_id : ℕ
  pub total_len : ℕ
  pub block_size : ℕ
  pub symbol_size : ℕ
  pub window : ℕ

-- `FecParams::block_count`
abbrev pub total_blocks : FecParams → ℕ
total_blocks p = block_count p.total_len p.block_size

-- `FecParams::block_len`
unfoldable pub block_len : FecParams → ℕ → ℕ
block_len p block_id =
    let (start, end) = block_range block_id p.block_size p.total_len in end - start

pub data Feedback : Type 0 where
  need_more : ℕ → ℕ → ℕ → Feedback
  block_ok : ℕ → ℕ → Feedback

-- `SliceBlocks::read_block`. A slice is shorter than 2^64 bytes, so a sum that overflows is out of
-- bounds here too.
unfoldable pub read_block : List ℕ → ℕ → ℕ → Result (List ℕ)
read_block bytes start len =
    if ltb (length bytes) (start + len)
    then err (AftError.other Message.block_range_out_of_bounds)
    else ok (slice bytes start len)

-- `trait BlockWriter`
pub record BlockWriter : Type 1 where
  pub Out : Type 0
  pub write_block : Out → ℕ → List ℕ → Result Out

-- `VecBlocks::with_len`
abbrev pub with_len : ℕ → List ℕ
with_len len = replicate len 0

-- `VecBlocks::write_block`
unfoldable pub write_bytes : List ℕ → ℕ → List ℕ → Result (List ℕ)
write_bytes buf offset block =
    if ltb (length buf) (offset + length block)
    then err (AftError.other Message.block_write_out_of_bounds)
    else ok (take offset buf ++ (block ++ drop (offset + length block) buf))

abbrev pub vec_blocks : BlockWriter
vec_blocks = record { Out = List ℕ; write_block = write_bytes }
