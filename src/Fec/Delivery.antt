-- ===== src/Fec/Delivery.antt =====
-- Proofs on encoding and decoding of src/aftp/fec/envelope.rs.
use Prim.Native.Nat.{bit_and, bit_or}
use agentic_file_transfer.Base.{
  ◌≢◌, ℕ, ◌+◌, ◌≡◌, refl, ap, sym, ◌∙◌, List, ◌++◌, true, false, Option, some, none, arith, length,
  take, drop, slice, get_or, be_bytes, bytes_eq, bytes_eq→eq, length-drop, ltb, ◌==◌, ok, ge→ltb,
  ltb→ge, ==_iff, Bool-cases, inl, inr,
}
use agentic_file_transfer.Base.Fallible.{◌>>=◌, >>=-eq-ok}
use agentic_file_transfer.Fec.Symcrypto.{Aead, check_lengths, seal, open_sealed}
use agentic_file_transfer.Fec.Envelope.{
  Envelope, write_prefix, check_flags, word_at, encode, decode_sealed, decode_plain, decode_body,
  decode,
}
use agentic_file_transfer.Fec.Secrecy.{
  sent_flags, keyed_flags, plain_flags, decode-write_prefix, IsEnvelope, decode_plain-prefix,
  decode_sealed-prefix, prefix_words,
}

check_lengths-ok :
    (key nonce : List ℕ) → check_lengths key nonce ≡ ok tt → (length key ≡ 32) × (length nonce ≡ 12)
unfolding check_lengths
check_lengths-ok key nonce h = ground arith

ok_inj {ℓ} : {A : Type ℓ} {x y : A} → ok x ≡ ok y → x ≡ y
ok_inj h = cc h

module _ (a : Aead) where
  open_sealed-seal :
      (k nonce aad plaintext sealed : List ℕ)
      → seal a k nonce aad plaintext ≡ ok sealed
      → (length nonce ≡ 12)
        × (length sealed ≡ length plaintext + 16)
        × (open_sealed a k nonce aad sealed ≡ ok plaintext)
  unfolding seal open_sealed
  open_sealed-seal k nonce aad plaintext sealed h =
      let (u, checked, made) =
        >>=-eq-ok (check_lengths k nonce) (λ u. a.backend_seal k nonce aad plaintext) h in
      let long = a.tag_trails k nonce aad plaintext sealed made in
      (
        (check_lengths-ok k nonce checked).1,
        long,
        rw (checked, ge→ltb (length sealed) 16 (omega (arith, long)))
            (a.opens k nonce aad plaintext sealed made),
      )

module _ (a : Aead) (hash : List ℕ → ℕ) where
  encode_fits :
      (e : Envelope) (key : Option (List ℕ)) (nonce buf : List ℕ)
      → encode a hash e key nonce ≡ ok buf
      → ltb 65_535 (length e.payload) ≡ false
  unfolding encode
  encode_fits e key nonce buf h = elim (Bool-cases (ltb 65_535 (length e.payload))) [
    | inl big ↦ cc (rw big at h)
    | inr small ↦ small
  ]

  encode_plain_form :
      (e : Envelope) (nonce buf : List ℕ)
      → encode a hash e none nonce ≡ ok buf
      → let prefix = write_prefix e (bit_and e.flags 252) in
        buf ≡ prefix ++ (be_bytes 4 (hash (prefix ++ e.payload)) ++ e.payload)
  unfolding encode
  encode_plain_form e nonce buf h = let small = encode_fits e none nonce buf h in cc (rw small at h)

  encode_sealed_form :
      (e : Envelope) (k nonce buf : List ℕ)
      → encode a hash e (some k) nonce ≡ ok buf
      → let prefix = write_prefix e (bit_or (bit_or e.flags 1) 2) in
        (sealed : List ℕ) × (seal a k nonce prefix e.payload ≡ ok sealed)
        × (ok (prefix ++ (nonce ++ sealed)) ≡ ok buf)
  unfolding encode
  encode_sealed_form e k nonce buf h =
      let small = encode_fits e (some k) nonce buf h in
      let prefix = write_prefix e (bit_or (bit_or e.flags 1) 2) in
      let made : encode a hash e (some k) nonce
          ≡ (seal a k nonce prefix e.payload >>= λ sealed. ok (prefix ++ (nonce ++ sealed))) =
        rw small refl in
      >>=-eq-ok (seal a k nonce prefix e.payload) (λ sealed. ok (prefix ++ (nonce ++ sealed)))
        (sym made ∙ h)

  -- For an envelope whose session id, block id and flags fit their fields, whatever encode produces
  -- under a key and nonce, or under no key, decodes under the same key or none to the same envelope
  -- with the flags that were sent, if the cipher opens what it sealed and adds 16 bytes.
  pub decode-encode :
      (e : Envelope) (key : Option (List ℕ)) (nonce buf : List ℕ)
      → IsEnvelope e
      → encode a hash e key nonce ≡ ok buf
      → decode a hash buf key ≡ ok (record e { flags = sent_flags key e.flags })
  unfolding decode_body
  decode-encode e none nonce buf he h =
      let fl = bit_and e.flags 252 in
      let crc = be_bytes 4 (hash (write_prefix e fl ++ e.payload)) in
      let small = ltb→ge 65_535 (length e.payload) (encode_fits e none nonce buf h) in
      let flags_ok : check_flags false (get_or (write_prefix e fl ++ (crc ++ e.payload)) 3 0)
          ≡ ok tt =
        ap (check_flags false) (prefix_words e fl (crc ++ e.payload)).7
        ∙ plain_flags e.flags he.2 in
      ap (λ b. decode a hash b none) (encode_plain_form e nonce buf h)
      ∙ decode-write_prefix a hash e fl (crc ++ e.payload) none
      ∙ rw flags_ok (decode_plain-prefix a hash e fl crc he small refl refl)
  decode-encode e (some k) nonce buf he h =
      let fl = bit_or (bit_or e.flags 1) 2 in
      let small = ltb→ge 65_535 (length e.payload) (encode_fits e (some k) nonce buf h) in
      let (sealed, made, same) = encode_sealed_form e k nonce buf h in
      let (twelve, long, opened) =
        open_sealed-seal a k nonce (write_prefix e fl) e.payload sealed made in
      let form : buf ≡ write_prefix e fl ++ (nonce ++ sealed) = cc same in
      let flags_ok : check_flags true (get_or (write_prefix e fl ++ (nonce ++ sealed)) 3 0)
          ≡ ok tt =
        ap (check_flags true) (prefix_words e fl (nonce ++ sealed)).7 ∙ keyed_flags e.flags he.2 in
      ap (λ b. decode a hash b (some k)) form
      ∙ decode-write_prefix a hash e fl (nonce ++ sealed) (some k)
      ∙ rw flags_ok (decode_sealed-prefix a hash e fl k nonce sealed he small twelve long opened)

  decode→body :
      (buf : List ℕ) (key : Option (List ℕ)) (e : Envelope)
      → decode a hash buf key ≡ ok e
      → decode_body a hash buf key ≡ ok e
  unfolding decode
  decode→body buf key e h = ground (arith, h)

  keyed_flags_sound : (f : ℕ) → check_flags true f ≡ ok tt → (bit_and f 1 ≢ 0) × (bit_and f 2 ≢ 0)
  unfolding check_flags
  keyed_flags_sound f h = ground arith

  plain_flags_sound : (f : ℕ) → check_flags false f ≡ ok tt → (bit_and f 1 ≡ 0) × (bit_and f 2 ≡ 0)
  unfolding check_flags
  plain_flags_sound f h = ground arith

  -- What the datagram must have proved for the envelope to come out of it.
  abbrev pub Proves : List ℕ → Option (List ℕ) → Envelope → Type 0
  Proves buf none e =
      (bit_and e.flags 1 ≡ 0)
      × (bit_and e.flags 2 ≡ 0)
      × (be_bytes 4 (hash (take 18 buf ++ e.payload)) ≡ slice buf 18 4)
      × (length buf ≡ 22 + length e.payload)
  Proves buf (some k) e =
      (bit_and e.flags 1 ≢ 0)
      × (bit_and e.flags 2 ≢ 0)
      × (open_sealed a k (slice buf 18 12) (take 18 buf) (drop 30 buf) ≡ ok e.payload)

  -- The header of an envelope that was decoded is the datagram's.
  HasHeader : List ℕ → Envelope → Type 0
  HasHeader buf e =
      (e.flags ≡ get_or buf 3 0)
      × (e.session_id ≡ word_at buf 4 8)
      × (e.block_id ≡ word_at buf 12 4)

  decode_plain-ok :
      (buf : List ℕ) (e : Envelope)
      → decode_plain a hash buf ≡ ok e
      → HasHeader buf e
        × (be_bytes 4 (hash (take 18 buf ++ e.payload)) ≡ slice buf 18 4)
        × (length buf ≡ 22 + length e.payload)
  unfolding decode_plain HasHeader
  decode_plain-ok buf e h = elim (Bool-cases (length buf == 22 + word_at buf 16 2)) [
    | inr other ↦ cc (rw other at h)
    | inl same ↦
        let fits = (==_iff (length buf) (22 + word_at buf 16 2)).0 same in
        let long = length-drop 22 buf in
        elim (Bool-cases
          (bytes_eq (be_bytes 4 (hash (take 18 buf ++ drop 22 buf))) (slice buf 18 4))) [
            | inr wrong ↦ cc (rw (same, wrong) at h)
            | inl right ↦
                let out = rw (same, right) at h in
                rw (sym (ok_inj out))
                  ((refl, refl, refl), bytes_eq→eq _ _ right, omega (arith, fits, long))
          ]
  ]

  decode_sealed-ok :
      (buf k : List ℕ) (e : Envelope)
      → decode_sealed a hash buf k ≡ ok e
      → HasHeader buf e
        × (open_sealed a k (slice buf 18 12) (take 18 buf) (drop 30 buf) ≡ ok e.payload)
  unfolding decode_sealed HasHeader
  decode_sealed-ok buf k e h = elim (Bool-cases (length buf == 30 + word_at buf 16 2 + 16)) [
    | inr other ↦ cc (rw other at h)
    | inl same ↦
        let (payload, opened, out) =
          >>=-eq-ok (open_sealed a k (slice buf 18 12) (take 18 buf) (drop 30 buf)) _
            (rw same at h) in
        rw (sym (ok_inj out)) ((refl, refl, refl), opened)
  ]

  -- A datagram that decodes under a key has both flags set, and its payload is what opens the
  -- sealed bytes under that key with the 18-byte prefix as associated data; one that decodes
  -- without a key has neither flag, the right checksum over prefix and payload, and exactly the
  -- length of header and payload. In both cases the session id and the block id are those of the
  -- prefix.
  pub decode_sound :
      (buf : List ℕ) (key : Option (List ℕ)) (e : Envelope)
      → decode a hash buf key ≡ ok e
      → Proves buf key e × (e.session_id ≡ word_at buf 4 8) × (e.block_id ≡ word_at buf 12 4)
  unfolding decode_body HasHeader
  decode_sound buf none e h =
      let (u, flags, body) =
        >>=-eq-ok (check_flags false (get_or buf 3 0)) _ (decode→body buf none e h) in
      let ((f, s, b), crc, long) = decode_plain-ok buf e body in
      let (f1, f2) = plain_flags_sound e.flags (ap (check_flags false) f ∙ flags) in
      ((f1, f2, crc, long), s, b)
  decode_sound buf (some k) e h =
      let (u, flags, body) =
        >>=-eq-ok (check_flags true (get_or buf 3 0)) _ (decode→body buf (some k) e h) in
      let ((f, s, b), opened) = decode_sealed-ok buf k e body in
      let (f1, f2) = keyed_flags_sound e.flags (ap (check_flags true) f ∙ flags) in
      ((f1, f2, opened), s, b)
