-- ===== src/Fec/Transfer/Serving.antt =====
-- Proofs on `recv_object_into` of src/aftp/fec/transfer.rs and the decoders that it keeps.
use agentic_file_transfer.Base.{
  ℕ, ◌<◌, ◌≡◌, refl, ap, sym, ◌∙◌, List, Option, some, none, length, ◌==◌, ok, Bool-cases, inl, inr,
  ==_iff, subst,
}
use agentic_file_transfer.Base.Fallible.{>>=-eq-ok}
use agentic_file_transfer.Base.Table.{
  Table, lookup, insert, remove, nat_eq, lookup-insert, lookup-remove,
}
use agentic_file_transfer.Frame.Yields.{ok_inj}
use agentic_file_transfer.Fec.Codec.{Oti, oti_for_block, Raptorq, BlockDecoder, new_decoder}
use agentic_file_transfer.Fec.Layout.{block_of}
use agentic_file_transfer.Fec.Parameters.{oti_for_block-ok}
use agentic_file_transfer.Fec.Transfer.Blocks.{FecParams, total_blocks, block_len, vec_blocks}
use agentic_file_transfer.Fec.Transfer.Regions.{length-block_of}
use agentic_file_transfer.Fec.Transfer.Receiver.{
  Arrival, symbol, damaged, failed, elapsed, open_decoder,
}
use agentic_file_transfer.Fec.Transfer.Fountain.{Fountain, Tracks, new_decoder-Tracks}

module _ (q : Raptorq) (f : Fountain q) (p : FecParams) (bytes : List ℕ) where
  abbrev pub block : ℕ → List ℕ
  block i = block_of i p.block_size bytes

  -- The decoder was opened for a block of the transfer and has seen symbols of it only.
  pub record Serves (i : ℕ) (d : BlockDecoder q) : Type 0 where
    pub config : Oti
    pub agreed : oti_for_block (block_len p i) p.symbol_size ≡ ok config
    pub tracks : Tracks q f config (block i) d

  abbrev pub Serving : Table ℕ (BlockDecoder q) → Type 0
  Serving decoders = (i : ℕ) (d : BlockDecoder q) → lookup i decoders ≡ some d → Serves i d

  pub Serving-insert :
      (decoders : Table ℕ (BlockDecoder q)) (i : ℕ) (d : BlockDecoder q)
      → Serving decoders
      → Serves i d
      → Serving (insert i d decoders)
  Serving-insert decoders i d all s k e found = elim (Bool-cases (k == i)) [
    | inl same ↦
        let at : some d ≡ some e =
          sym (rw same refl) ∙ sym (lookup-insert k i d decoders) ∙ found in
        rw ((==_iff k i).0 same) (subst (Serves i) (cc at) s)
    | inr other ↦ all k e (sym (rw other refl) ∙ sym (lookup-insert k i d decoders) ∙ found)
  ]

  pub Serving-remove :
      (decoders : Table ℕ (BlockDecoder q)) (i : ℕ) → Serving decoders → Serving (remove i decoders)
  Serving-remove decoders i all k e found = elim (Bool-cases (k == i)) [
    | inl same ↦ cc (rw same at (sym (lookup-remove k i decoders) ∙ found))
    | inr other ↦ all k e (rw other at (sym (lookup-remove k i decoders) ∙ found))
  ]

  pub Serving-remove-insert :
      (decoders : Table ℕ (BlockDecoder q)) (i : ℕ) (d : BlockDecoder q)
      → Serving decoders
      → Serving (remove i (insert i d decoders))
  Serving-remove-insert decoders i d all k e found = elim (Bool-cases (k == i)) [
    | inl same ↦ cc (rw same at (sym (lookup-remove k i (insert i d decoders)) ∙ found))
    | inr other ↦
        let kept : lookup k (insert i d decoders) ≡ some e =
          rw other at (sym (lookup-remove k i (insert i d decoders)) ∙ found) in
        all k e (rw other at (sym (lookup-insert k i d decoders) ∙ kept))
  ]

  -- A symbol that arrives for one of the blocks is one of that block's.
  abbrev pub IsGenuine : Arrival → Type 0
  IsGenuine (symbol now i payload) =
      i < total_blocks p
      → (config : Oti) → oti_for_block (block_len p i) p.symbol_size ≡ ok config
      → f.IsSymbol config (block i) payload
  IsGenuine damaged = Unit
  IsGenuine (failed e) = Unit
  IsGenuine (elapsed now) = Unit

  module _ (same : p.total_len ≡ length bytes) where
    pub block_len-block : (i : ℕ) → block_len p i ≡ length (block i)
    unfolding block_len
    block_len-block i = rw (length-block_of i p.block_size bytes, same) refl

    pub open_decoder-Serves :
        (o : Option (BlockDecoder q)) (i : ℕ) (d : BlockDecoder q)
        → ((e : BlockDecoder q) → o ≡ some e → Serves i e)
        → open_decoder q vec_blocks p o i ≡ ok d
        → Serves i d
    unfolding open_decoder
    open_decoder-Serves (some e) i d known h = known d (ap some (ok_inj h))
    open_decoder-Serves none i d known h =
        let (config, agreed, made) = >>=-eq-ok (oti_for_block (block_len p i) p.symbol_size) _ h in
        let (_, _, _, len, _) = oti_for_block-ok (block_len p i) p.symbol_size config agreed in
        let long = block_len-block i in
        record {
          config = config;
          agreed = agreed;
          tracks =
              new_decoder-Tracks q f config (block i) d (len ∙ long)
                (subst (λ n. new_decoder q config n ≡ ok d) long made);
        }
