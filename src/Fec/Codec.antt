-- ===== src/Fec/Codec.antt =====
-- Block layout, transmission parameters and block decoding of src/aftp/fec/codec.rs. The RaptorQ
-- library is a parameter.
use agentic_file_transfer.Base.{
  ℕ, ◌+◌, ◌*◌, ◌%◌, ◌^◌, min, List, Bool, true, false, not, Option, some, none, length, leb, ltb,
  ◌==◌, if◌then◌else◌, div_ceil, Result, ok, err, AftError, Message,
}

abbrev pub max_source_symbols_per_block : ℕ
max_source_symbols_per_block = 56_403

-- The cast to `u32` keeps the low 32 bits.
unfoldable pub block_count : ℕ → ℕ → ℕ
block_count total_len block_size =
    if total_len == 0 then 0 else div_ceil total_len block_size % 2 ^ 32

unfoldable pub block_range : ℕ → ℕ → ℕ → ℕ × ℕ
block_range block_id block_size total_len =
    let start = block_id * block_size in (start, min (start + block_size) total_len)

-- `ObjectTransmissionInformation`, as far as the code looks into it.
pub record Oti : Type 0 where
  pub transfer_length : ℕ
  pub symbol_size : ℕ
  pub source_blocks : ℕ
  pub sub_blocks : ℕ
  pub alignment : ℕ

unfoldable pub oti_for_block : ℕ → ℕ → Result Oti
oti_for_block len symbol_size =
    if symbol_size == 0
    then err (AftError.other Message.zero_symbol_size)
    else if len == 0
    then err (AftError.other Message.empty_block)
    else if ltb max_source_symbols_per_block (div_ceil len symbol_size)
    then err (AftError.other (Message.too_many_symbols len (div_ceil len symbol_size) symbol_size))
    else ok (record {
      transfer_length = len;
      symbol_size = symbol_size;
      source_blocks = 1;
      sub_blocks = 1;
      alignment = 1;
    })

-- `raptorq::Decoder`: one more packet gives the decoder's next state, and the block once it is known.
pub record Raptorq : Type 1 where
  pub Decoder : Type 0
  pub start : Oti → Decoder
  pub decode : Decoder → List ℕ → Decoder × Option (List ℕ)

module _ (q : Raptorq) where
  pub record BlockDecoder : Type 0 where
    pub inner : q.Decoder
    pub result : Option (List ℕ)
    pub accepted : ℕ
    pub expected_len : ℕ

  -- `BlockDecoder::new`, behind `ObjectTransmissionInformation::deserialize`.
  unfoldable pub new_decoder : Oti → ℕ → Result BlockDecoder
  new_decoder config expected_len =
      if not (config.transfer_length == expected_len)
      then err
          (AftError.other (Message.transfer_length_disagrees config.transfer_length expected_len))
      else if config.symbol_size == 0
      then err (AftError.other Message.zero_symbol_size)
      else ok (record {
        inner = q.start config;
        result = none;
        accepted = 0;
        expected_len = expected_len;
      })

  -- What the library returned for a packet, behind `self.accepted += 1`.
  unfoldable pub take_decoded :
      BlockDecoder → q.Decoder × Option (List ℕ) → BlockDecoder × Result Bool
  take_decoded d (inner, none) = (record d { inner = inner }, ok false)
  take_decoded d (inner, some block) =
      if not (length block == d.expected_len)
      then (
        record d { inner = inner },
        err (AftError.other (Message.block_length_wrong (length block) d.expected_len)),
      )
      else (record d { inner = inner; result = some block }, ok true)

  unfoldable pub push_symbol : BlockDecoder → List ℕ → BlockDecoder × Result Bool
  unfolding take_decoded
  push_symbol d payload =
      if leb (length payload) 4
      then (d, err (AftError.other (Message.symbol_too_short (length payload))))
      else take_decoded (record d { accepted = (d.accepted + 1) % 2 ^ 32 })
          (q.decode d.inner payload)

  -- By the result so far: symbols after completion are ignored.
  unfoldable pub push_unless_complete :
      Option (List ℕ) → BlockDecoder → List ℕ → BlockDecoder × Result Bool
  unfolding push_symbol
  push_unless_complete (some block) d payload = (d, ok true)
  push_unless_complete none d payload = push_symbol d payload

  -- `BlockDecoder::push`
  unfoldable pub push : BlockDecoder → List ℕ → BlockDecoder × Result Bool
  unfolding push_unless_complete
  push d payload = push_unless_complete d.result d payload

  -- `BlockDecoder::take`
  unfoldable pub take_block : BlockDecoder → BlockDecoder × Option (List ℕ)
  take_block d = (record d { result = none }, d.result)
