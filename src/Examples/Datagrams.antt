-- ===== src/Examples/Datagrams.antt =====
-- Blocks and datagrams of src/aftp/fec/ on concrete bytes, with small stand-ins for the ciphers and
-- the RaptorQ library.
use agentic_file_transfer.Base.{
  ◌*◌, ◌≤◌, none, div_ceil, ℕ, ◌-◌, ◌≡◌, refl, ap, ◌∙◌, List, [], ◌∷◌, ◌++◌, none, some, arith,
  length, take, drop, replicate, ok, length-append, take-append_self, be_bytes,
}
use agentic_file_transfer.Fec.Encoder.{RaptorqEncoder, BlockEncoder, new_encoder}
use agentic_file_transfer.Fec.Parameters.{new_decoder-new_encoder}
use agentic_file_transfer.Fec.Codec.{
  oti_for_block, new_decoder, Oti, Raptorq, BlockDecoder, push, block_count,
}
use agentic_file_transfer.Fec.Layout.{blocks_from, blocks-cover, push_lem, Answers}
use agentic_file_transfer.Fec.Symcrypto.{Aead, seal, open_sealed, check_lengths}
use agentic_file_transfer.Fec.Envelope.{
  Envelope, encode, decode, word_at, write_prefix, check_flags, decode_body, decode_sealed,
}
use agentic_file_transfer.Fec.Secrecy.{sent_flags}
use agentic_file_transfer.Fec.Delivery.{decode-encode, decode_sound, Proves}

blocks-cover_example :
    blocks_from (block_count 5 2) 0 2 (1 ∷ 2 ∷ 3 ∷ 4 ∷ 5 ∷ []) ≡ 1 ∷ 2 ∷ 3 ∷ 4 ∷ 5 ∷ []
blocks-cover_example = blocks-cover (1 ∷ 2 ∷ 3 ∷ 4 ∷ 5 ∷ []) 2 (omega arith) (omega arith)

-- A decoder that needs one packet and yields what stands behind its four bytes.
abbrev first_packet : Raptorq
first_packet = record {
  Decoder = Oti;
  start = λ config. config;
  decode = λ config packet. (config, some (drop 4 packet));
}

abbrev fresh_decoder : BlockDecoder first_packet
fresh_decoder = record {
  inner = record {
    transfer_length = 2;
    symbol_size = 2;
    source_blocks = 1;
    sub_blocks = 1;
    alignment = 1;
  };
  result = none;
  accepted = 0;
  expected_len = 2;
}

push_lem_example :
    Answers first_packet (push first_packet fresh_decoder (0 ∷ 0 ∷ 0 ∷ 0 ∷ 8 ∷ 9 ∷ []))
push_lem_example =
    push_lem first_packet fresh_decoder (0 ∷ 0 ∷ 0 ∷ 0 ∷ 8 ∷ 9 ∷ []) (λ block h. cc h)

abbrev tag : List ℕ
tag = replicate 16 0

-- A tag of zeros behind the plaintext.
untagged :
    (plaintext sealed : List ℕ)
    → sealed ≡ plaintext ++ tag
    → take (length sealed - 16) sealed ≡ plaintext
untagged plaintext sealed e =
    let n : length (plaintext ++ tag) - 16 ≡ length plaintext =
      omega (arith, length-append plaintext tag) in
    rw e (ap (λ k. take k (plaintext ++ tag)) n ∙ take-append_self plaintext tag)

ok_sealed :
    (plaintext sealed : List ℕ) → ok (plaintext ++ tag) ≡ ok sealed → sealed ≡ plaintext ++ tag
ok_sealed plaintext sealed h = cc h

abbrev zero_tag : Aead
zero_tag = record {
  backend_seal = λ key nonce aad plaintext. ok (plaintext ++ tag);
  backend_open = λ key nonce aad sealed. ok (take (length sealed - 16) sealed);
  opens = λ key nonce aad plaintext sealed h.
      ap ok (untagged plaintext sealed (ok_sealed plaintext sealed h));
  tag_trails = λ key nonce aad plaintext sealed h.
      ap length (ok_sealed plaintext sealed h) ∙ length-append plaintext tag;
}

abbrev key : List ℕ
key = replicate 32 7

abbrev nonce : List ℕ
nonce = replicate 12 9

abbrev envelope : Envelope
envelope = record { session_id = 300; block_id = 2; flags = 0; payload = 5 ∷ 6 ∷ [] }

abbrev prefix : ℕ → List ℕ
prefix flags = 0xAF ∷ 0xFE ∷ 2 ∷ flags ∷ (be_bytes 8 300 ++ (be_bytes 4 2 ++ be_bytes 2 2))

abbrev datagram : List ℕ
datagram = prefix 3 ++ (nonce ++ (5 ∷ 6 ∷ tag))

datagram_encoded : encode zero_tag length envelope (some key) nonce ≡ ok datagram
unfolding encode seal check_lengths write_prefix
datagram_encoded = refl

decode-encode_example :
    decode zero_tag length datagram (some key)
    ≡ ok (record envelope { flags = sent_flags (some key) 0 })
decode-encode_example =
    decode-encode zero_tag length envelope (some key) nonce datagram
      (omega arith, omega arith, omega arith) datagram_encoded

datagram_decoded : decode zero_tag length datagram (some key) ≡ ok (record envelope { flags = 3 })
unfolding decode decode_body check_flags decode_sealed word_at open_sealed check_lengths
datagram_decoded = refl

decode_sound_example :
    Proves zero_tag length datagram (some key) (record envelope { flags = 3 })
    × (300 ≡ word_at datagram 4 8)
    × (2 ≡ word_at datagram 12 4)
decode_sound_example =
    decode_sound zero_tag length datagram (some key) (record envelope { flags = 3 })
      datagram_decoded

-- An encoder with one packet, the block itself.
abbrev whole_block : RaptorqEncoder
whole_block = record {
  Encoder = List ℕ;
  SourceBlock = List ℕ;
  start = λ bytes config. bytes;
  get_block_encoders = λ e. e ∷ [];
  source_packets = λ b. b ∷ [];
  repair_packets = λ b start_id count. [];
}

abbrev five_bytes : List ℕ
five_bytes = 1 ∷ 2 ∷ 3 ∷ 4 ∷ 5 ∷ []

abbrev five_bytes_encoder : BlockEncoder whole_block
five_bytes_encoder = record {
  inner = five_bytes;
  config = record {
    transfer_length = 5;
    symbol_size = 2;
    source_blocks = 1;
    sub_blocks = 1;
    alignment = 1;
  };
  source_symbol_count = 3;
}

five_bytes_encoded : new_encoder whole_block five_bytes 2 ≡ ok five_bytes_encoder
unfolding new_encoder oti_for_block div_ceil
five_bytes_encoded = refl

new_decoder-new_encoder_example :
    (1 ≤ 3)
    × (3 ≤ 56_403)
    × (length five_bytes ≤ 3 * 2)
    × (new_decoder first_packet five_bytes_encoder.config (length five_bytes)
        ≡ ok (record {
          inner = five_bytes_encoder.config;
          result = none;
          accepted = 0;
          expected_len = 5;
        }))
new_decoder-new_encoder_example =
    new_decoder-new_encoder whole_block first_packet five_bytes 2 five_bytes_encoder
      five_bytes_encoded
