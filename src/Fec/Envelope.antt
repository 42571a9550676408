-- ===== src/Fec/Envelope.antt =====
-- The datagrams of src/aftp/fec/envelope.rs. AES-256-GCM and `crc32fast::hash` are parameters, and so
-- is the random nonce.
use Prim.Native.Nat.{bit_and, bit_or}
use agentic_file_transfer.Base.{
  ℕ, ◌+◌, ◌-◌, ◌%◌, ◌^◌, List, [], ◌∷◌, ◌++◌, Bool, true, false, not, ◌&&◌, ◌||◌, Option, some,
  none, length, take, drop, slice, get_or, be_bytes, be_value, bytes_eq, ltb, ◌==◌, if◌then◌else◌,
  Result, ok, err, AftError, Message,
}
use agentic_file_transfer.Base.Fallible.{◌>>=◌, ◌>>◌}
use agentic_file_transfer.Fec.Symcrypto.{Aead, seal, open_sealed}

abbrev pub envelope_magic : List ℕ
envelope_magic = 0xAF ∷ 0xFE ∷ []

abbrev pub envelope_version : ℕ
envelope_version = 2

abbrev pub header_prefix_len : ℕ
header_prefix_len = 18

abbrev pub auth_overhead : ℕ
auth_overhead = 46

abbrev pub header_len_plain : ℕ
header_len_plain = 22

abbrev pub enc_header_len : ℕ
enc_header_len = 30

abbrev pub flag_auth : ℕ
flag_auth = 1

abbrev pub flag_encrypted : ℕ
flag_encrypted = 2

-- `saturating_sub` is the subtraction on ℕ.
unfoldable pub max_symbol_size : ℕ → Bool → ℕ
max_symbol_size mtu authenticated =
    mtu - (if authenticated then auth_overhead else header_len_plain) - 4

pub record Envelope : Type 0 where
  pub session_id : ℕ
  pub block_id : ℕ
  pub flags : ℕ
  pub payload : List ℕ

-- `Envelope::new`
abbrev pub new_envelope : ℕ → ℕ → List ℕ → Envelope
new_envelope session_id block_id payload = record {
  session_id = session_id;
  block_id = block_id;
  flags = 0;
  payload = payload;
}

-- What `write_prefix` appends to an empty buffer.
unfoldable pub write_prefix : Envelope → ℕ → List ℕ
write_prefix e flags =
    envelope_magic
    ++ (envelope_version
        ∷ (flags
            ∷ (be_bytes 8 e.session_id
                ++ (be_bytes 4 e.block_id ++ be_bytes 2 (length e.payload % 2 ^ 16)))))

-- Holding a key requires both flags; holding none requires neither.
unfoldable pub check_flags : Bool → ℕ → Result (Unit {0})
check_flags has_key flags =
    let encrypted = not (bit_and flags flag_encrypted == 0) in
    let authed = not (bit_and flags flag_auth == 0) in
    if has_key
    then if authed && encrypted then ok tt else err (AftError.other Message.not_authenticated)
    else if authed || encrypted
    then err (AftError.other Message.no_key)
    else ok tt

-- `match key` with its two branches in `decode`; the three words are read from the prefix.
unfoldable pub word_at : List ℕ → ℕ → ℕ → ℕ
word_at buf off n = be_value (slice buf off n)

module _ (a : Aead) (hash : List ℕ → ℕ) where
  unfoldable pub encode : Envelope → Option (List ℕ) → List ℕ → Result (List ℕ)
  encode e key nonce =
      if ltb 65_535 (length e.payload)
      then err (AftError.other (Message.payload_too_large (length e.payload) 65_535))
      else elim key [
        | some k ↦
            let prefix = write_prefix e (bit_or (bit_or e.flags flag_auth) flag_encrypted) in
            seal a k nonce prefix e.payload >>= λ sealed. ok (prefix ++ (nonce ++ sealed))
        | none ↦
            -- `!(FLAG_AUTH | FLAG_ENCRYPTED)` on a byte is 252
            let prefix = write_prefix e (bit_and e.flags 252) in
            ok (prefix ++ (be_bytes 4 (hash (prefix ++ e.payload)) ++ e.payload))
      ]

  unfoldable pub decode_sealed : List ℕ → List ℕ → Result Envelope
  decode_sealed buf k =
      let payload_len = word_at buf 16 2 in
      if not (length buf == enc_header_len + payload_len + 16)
      then err (AftError.other (Message.length_mismatch payload_len (length buf)))
      else (open_sealed a k (slice buf 18 12) (take 18 buf) (drop 30 buf) >>= λ payload.
          ok (record {
            session_id = word_at buf 4 8;
            block_id = word_at buf 12 4;
            flags = get_or buf 3 0;
            payload = payload;
          }))

  unfoldable pub decode_plain : List ℕ → Result Envelope
  decode_plain buf =
      let payload_len = word_at buf 16 2 in
      if not (length buf == header_len_plain + payload_len)
      then err
          (AftError.other (Message.length_mismatch payload_len (length buf - header_len_plain)))
      else if not (bytes_eq (be_bytes 4 (hash (take 18 buf ++ drop 22 buf))) (slice buf 18 4))
      then err (AftError.other Message.symbol_crc_mismatch)
      else ok (record {
        session_id = word_at buf 4 8;
        block_id = word_at buf 12 4;
        flags = get_or buf 3 0;
        payload = drop 22 buf;
      })

  -- By the key that the receiver holds.
  unfoldable pub decode_body : List ℕ → Option (List ℕ) → Result Envelope
  decode_body buf none = check_flags false (get_or buf 3 0) >> decode_plain buf
  decode_body buf (some k) = check_flags true (get_or buf 3 0) >> decode_sealed buf k

  unfoldable pub decode : List ℕ → Option (List ℕ) → Result Envelope
  decode buf key =
      if ltb (length buf) header_prefix_len
      then err (AftError.other (Message.datagram_too_short (length buf)))
      else if not (bytes_eq (take 2 buf) envelope_magic)
      then err (AftError.other Message.bad_magic)
      else if not (get_or buf 2 0 == envelope_version)
      then err (AftError.other (Message.version_mismatch (get_or buf 2 0)))
      else decode_body buf key
