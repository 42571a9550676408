-- ===== src/Fec/Transfer/Fountain.antt =====
-- What the receiver relies on in the RaptorQ library: a decoder that is fed symbols of one block
-- yields nothing but that block. Proofs on `BlockDecoder::push` of src/aftp/fec/codec.rs under it.
use agentic_file_transfer.Base.{
  subst, ℕ, ◌+◌, ◌%◌, ◌^◌, ◌≡◌, refl, ap, sym, ◌∙◌, List, Bool, true, false, Option, some, none,
  length, leb, ◌==◌, Result, ok, err, Bool-cases, inl, inr, ==_iff,
}
use agentic_file_transfer.Frame.Yields.{ok_inj}
use agentic_file_transfer.Fec.Codec.{
  Oti, Raptorq, BlockDecoder, new_decoder, take_decoded, push_symbol, push_unless_complete, push,
}

pub record Fountain (q : Raptorq) : Type 1 where
  -- The payload is a symbol of the block under these parameters.
  pub IsSymbol : Oti → List ℕ → List ℕ → Type 0
  -- The decoder was fed symbols of the block only, and has not yielded it.
  pub Follows : Oti → List ℕ → q.Decoder → Type 0
  pub starts :
      (config : Oti) (block : List ℕ)
      → config.transfer_length ≡ length block
      → Follows config block (q.start config)
  pub goes_on :
      (config : Oti) (block : List ℕ) (d : q.Decoder) (payload : List ℕ)
      → Follows config block d
      → IsSymbol config block payload
      → (q.decode d payload).1 ≡ none
      → Follows config block (q.decode d payload).0
  pub yields :
      (config : Oti) (block : List ℕ) (d : q.Decoder) (payload out : List ℕ)
      → Follows config block d
      → IsSymbol config block payload
      → (q.decode d payload).1 ≡ some out
      → out ≡ block

module _ (q : Raptorq) (f : Fountain q) (config : Oti) (block : List ℕ) where
  -- A decoder on its way to the block.
  pub record Tracks (d : BlockDecoder q) : Type 0 where
    pub fresh : d.result ≡ none
    pub promised : d.expected_len ≡ length block
    pub follows : f.Follows config block d.inner

  -- What a push may answer.
  abbrev pub Pushed : BlockDecoder q × Result Bool → Type 0
  Pushed (d, ok true) = d.result ≡ some block
  Pushed (d, ok false) = Tracks d
  Pushed (d, err e) = Tracks d

  take_decoded-Pushed :
      (d : BlockDecoder q) (payload : List ℕ) (o : Option (List ℕ))
      → Tracks d
      → f.IsSymbol config block payload
      → (q.decode d.inner payload).1 ≡ o
      → Pushed (take_decoded q d ((q.decode d.inner payload).0, o))
  unfolding take_decoded
  take_decoded-Pushed d payload none t s e = record {
    fresh = t.fresh;
    promised = t.promised;
    follows = f.goes_on config block d.inner payload t.follows s e;
  }
  take_decoded-Pushed d payload (some out) t s e =
      let same = f.yields config block d.inner payload out t.follows s e in
      let long : (length out == d.expected_len) ≡ true =
        (==_iff (length out) d.expected_len).1 (ap length same ∙ sym t.promised) in
      rw long (ap some same)

  push_symbol-Pushed :
      (d : BlockDecoder q) (payload : List ℕ)
      → Tracks d
      → f.IsSymbol config block payload
      → Pushed (push_symbol q d payload)
  unfolding push_symbol
  push_symbol-Pushed d payload t s = elim (Bool-cases (leb (length payload) 4)) [
    | inl short ↦ rw short t
    | inr long ↦ rw long (
        take_decoded-Pushed (record d { accepted = (d.accepted + 1) % 2 ^ 32 }) payload
          ((q.decode d.inner payload).1)
          (record { fresh = t.fresh; promised = t.promised; follows = t.follows }) s refl)
  ]

  push_unless_complete-Pushed :
      (o : Option (List ℕ)) (d : BlockDecoder q) (payload : List ℕ)
      → o ≡ d.result
      → Tracks d
      → f.IsSymbol config block payload
      → Pushed (push_unless_complete q o d payload)
  unfolding push_unless_complete
  push_unless_complete-Pushed none d payload e t s = push_symbol-Pushed d payload t s
  push_unless_complete-Pushed (some b) d payload e t s = cc (e, t.fresh)

  pub push-Pushed :
      (d : BlockDecoder q) (payload : List ℕ)
      → Tracks d
      → f.IsSymbol config block payload
      → Pushed (push q d payload)
  unfolding push
  push-Pushed d payload t s = push_unless_complete-Pushed d.result d payload refl t s

  pub new_decoder-Tracks :
      (d : BlockDecoder q)
      → config.transfer_length ≡ length block
      → new_decoder q config (length block) ≡ ok d
      → Tracks d
  unfolding new_decoder
  new_decoder-Tracks d same made =
      let agreed : (config.transfer_length == length block) ≡ true = (==_iff _ _).1 same in
      elim (Bool-cases (config.symbol_size == 0)) [
        | inl none_ ↦ cc (rw (agreed, none_) at made)
        | inr some_ ↦
            subst Tracks (ok_inj (rw (agreed, some_) at made))
              (record { fresh = refl; promised = refl; follows = f.starts config block same })
      ]
