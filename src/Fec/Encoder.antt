-- ===== src/Fec/Encoder.antt =====
-- `BlockEncoder` of src/aftp/fec/codec.rs. The RaptorQ library is a parameter.
use agentic_file_transfer.Base.{
  ℕ, ◌%◌, ◌^◌, List, [], ◌∷◌, ◌++◌, length, ◌==◌, if◌then◌else◌, div_ceil, Result, ok,
}
use agentic_file_transfer.Base.Fallible.{◌>>=◌}
use agentic_file_transfer.Fec.Codec.{Oti, oti_for_block}

-- `raptorq::Encoder`; a packet stands for its serialized bytes.
pub record RaptorqEncoder : Type 1 where
  pub Encoder : Type 0
  pub SourceBlock : Type 0
  pub start : List ℕ → Oti → Encoder
  pub get_block_encoders : Encoder → List SourceBlock
  pub source_packets : SourceBlock → List (List ℕ)
  pub repair_packets : SourceBlock → ℕ → ℕ → List (List ℕ)

-- `flat_map`
abbrev pub flat_map {ℓ} : {A : Type ℓ} → (A → List (List ℕ)) → List A → List (List ℕ)
flat_map f [] = []
flat_map f (x ∷ xs) = f x ++ flat_map f xs

module _ (q : RaptorqEncoder) where
  pub record BlockEncoder : Type 0 where
    pub inner : q.Encoder
    pub config : Oti
    pub source_symbol_count : ℕ

  -- `BlockEncoder::new`
  unfoldable pub new_encoder : List ℕ → ℕ → Result BlockEncoder
  unfolding oti_for_block
  new_encoder bytes symbol_size = do
    config ← oti_for_block (length bytes) symbol_size
    ok (record {
      inner = q.start bytes config;
      config = config;
      source_symbol_count = div_ceil (length bytes) symbol_size % 2 ^ 32;
    })

  unfoldable pub source_symbols : BlockEncoder → List (List ℕ)
  source_symbols e = flat_map q.source_packets (q.get_block_encoders e.inner)

  unfoldable pub repair_symbols : BlockEncoder → ℕ → ℕ → List (List ℕ)
  repair_symbols e start_id count =
      if count == 0
      then []
      else flat_map (λ b. q.repair_packets b start_id count) (q.get_block_encoders e.inner)
