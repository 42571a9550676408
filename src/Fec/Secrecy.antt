-- ===== src/Fec/Secrecy.antt =====
-- Lemmas on the prefix, the flags and the two forms of datagram of src/aftp/fec/envelope.rs.
use Prim.Native.Nat.{bit_and, bit_or}
use agentic_file_transfer.Base.{
  ℕ, ◌+◌, ◌%◌, ◌^◌, ◌≤◌, ◌<◌, ◌≡◌, refl, ap, sym, ◌∙◌, List, ◌++◌, Bool, true, false, Option, some,
  none, arith, length, take, drop, slice, get_or, be_bytes, be_value, be_value-be_bytes,
  bytes_eq_refl, drop-add, drop-append_self, take-append_self, Result, ok, err, all_below_sound,
  ge→ltb, length-append, ==_refl,
}
use agentic_file_transfer.Fec.Symcrypto.{Aead, open_sealed}
use agentic_file_transfer.Fec.Envelope.{
  envelope_magic, Envelope, write_prefix, check_flags, word_at, decode_sealed, decode_plain,
  decode_body, decode,
}

-- The flags on the wire.
abbrev pub sent_flags : Option (List ℕ) → ℕ → ℕ
sent_flags (some key) flags = bit_or (bit_or flags 1) 2
sent_flags none flags = bit_and flags 252

accepted : Result (Unit {0}) → Bool
accepted (ok u) = true
accepted (err e) = false

accepted→ok : (r : Result (Unit {0})) → accepted r ≡ true → r ≡ ok tt
unfolding accepted
accepted→ok (ok tt) h = refl
accepted→ok (err e) h = cc

-- Both flags arrive with a key, neither without.
pub keyed_flags : (f : ℕ) → f < 256 → check_flags true (bit_or (bit_or f 1) 2) ≡ ok tt
unfolding check_flags accepted
keyed_flags f h =
    accepted→ok _
      (all_below_sound 256 (λ f. accepted (check_flags true (bit_or (bit_or f 1) 2))) f refl h)

pub plain_flags : (f : ℕ) → f < 256 → check_flags false (bit_and f 252) ≡ ok tt
unfolding check_flags accepted
plain_flags f h =
    accepted→ok _ (all_below_sound 256 (λ f. accepted (check_flags false (bit_and f 252))) f refl h)

pub prefix_words :
    (e : Envelope) (fl : ℕ) (rest : List ℕ)
    → (take 18 (write_prefix e fl ++ rest) ≡ write_prefix e fl)
      × (drop 18 (write_prefix e fl ++ rest) ≡ rest)
      × (slice (write_prefix e fl ++ rest) 4 8 ≡ be_bytes 8 e.session_id)
      × (slice (write_prefix e fl ++ rest) 12 4 ≡ be_bytes 4 e.block_id)
      × (slice (write_prefix e fl ++ rest) 16 2 ≡ be_bytes 2 (length e.payload % 2 ^ 16))
      × (take 2 (write_prefix e fl ++ rest) ≡ envelope_magic)
      × (get_or (write_prefix e fl ++ rest) 2 0 ≡ 2)
      × (get_or (write_prefix e fl ++ rest) 3 0 ≡ fl)
      × (length (write_prefix e fl ++ rest) ≡ 18 + length rest)
unfolding write_prefix
prefix_words e fl rest = (refl, refl, refl, refl, refl, refl, refl, refl, omega arith)

pub decode-write_prefix :
    (a : Aead) (hash : List ℕ → ℕ) (e : Envelope) (fl : ℕ) (rest : List ℕ) (key : Option (List ℕ))
    → decode a hash (write_prefix e fl ++ rest) key
      ≡ decode_body a hash (write_prefix e fl ++ rest) key
unfolding decode
decode-write_prefix a hash e fl rest key =
    let (whole, body, s, b, n, m, v, f, l) = prefix_words e fl rest in
    rw (l, ge→ltb (18 + length rest) 18 (omega arith), m, v) refl

-- Sender side facts shared by both kinds of datagram.
abbrev pub IsEnvelope : Envelope → Type 0
IsEnvelope e = (e.session_id < 2 ^ 64) × (e.block_id < 2 ^ 32) × (e.flags < 256)

words_at :
    (e : Envelope) (fl : ℕ) (rest : List ℕ)
    → IsEnvelope e
    → length e.payload ≤ 65_535
    → (word_at (write_prefix e fl ++ rest) 4 8 ≡ e.session_id)
      × (word_at (write_prefix e fl ++ rest) 12 4 ≡ e.block_id)
      × (word_at (write_prefix e fl ++ rest) 16 2 ≡ length e.payload)
unfolding word_at
words_at e fl rest (hs, hb, hf) small =
    let (whole, body, s, b, n, m, v, f, l) = prefix_words e fl rest in
    (
      ap be_value s ∙ be_value-be_bytes 8 e.session_id hs,
      ap be_value b ∙ be_value-be_bytes 4 e.block_id hb,
      ap be_value n ∙ be_value-be_bytes 2 (length e.payload % 2 ^ 16) (omega arith) ∙ omega arith,
    )

-- Sixteen bits more and a tag cut off: `front` is the tag or the nonce.
cut_behind_prefix :
    (e : Envelope) (fl : ℕ) (front body : List ℕ)
    → (drop (18 + length front) (write_prefix e fl ++ (front ++ body)) ≡ body)
      × (slice (write_prefix e fl ++ (front ++ body)) 18 (length front) ≡ front)
cut_behind_prefix e fl front body =
    let rest = (prefix_words e fl (front ++ body)).1 in
    (
      drop-add 18 (length front) (write_prefix e fl ++ (front ++ body))
          ∙ ap (drop (length front)) rest
          ∙ drop-append_self front body,
      ap (take (length front)) rest ∙ take-append_self front body,
    )

module _ (a : Aead) (hash : List ℕ → ℕ) where
  pub decode_plain-prefix :
      (e : Envelope) (fl : ℕ) (crc : List ℕ)
      → IsEnvelope e
      → length e.payload ≤ 65_535
      → length crc ≡ 4
      → crc ≡ be_bytes 4 (hash (write_prefix e fl ++ e.payload))
      → decode_plain a hash (write_prefix e fl ++ (crc ++ e.payload)) ≡ ok (record e { flags = fl })
  unfolding decode_plain
  decode_plain-prefix e fl crc he small four same =
      let (s, b, n) = words_at e fl (crc ++ e.payload) he small in
      let (whole, rest, w3, w4, w5, w6, w7, f, l) = prefix_words e fl (crc ++ e.payload) in
      let (body, front) = cut_behind_prefix e fl crc e.payload in
      let fits : length (write_prefix e fl ++ (crc ++ e.payload)) ≡ 22 + length e.payload =
        omega (arith, l, length-append crc e.payload) in
      let at22 : drop 22 (write_prefix e fl ++ (crc ++ e.payload)) ≡ e.payload =
        ap (λ k. drop (18 + k) (write_prefix e fl ++ (crc ++ e.payload))) (sym four) ∙ body in
      let at18 : slice (write_prefix e fl ++ (crc ++ e.payload)) 18 4 ≡ crc =
        ap (λ k. slice (write_prefix e fl ++ (crc ++ e.payload)) 18 k) (sym four) ∙ front in
      rw
        (
          n,
          fits,
          ==_refl (22 + length e.payload),
          whole,
          at22,
          at18,
          sym same,
          bytes_eq_refl crc,
          s,
          b,
          f,
        )
        refl

  pub decode_sealed-prefix :
      (e : Envelope) (fl : ℕ) (k nonce sealed : List ℕ)
      → IsEnvelope e
      → length e.payload ≤ 65_535
      → length nonce ≡ 12
      → length sealed ≡ length e.payload + 16
      → open_sealed a k nonce (write_prefix e fl) sealed ≡ ok e.payload
      → decode_sealed a hash (write_prefix e fl ++ (nonce ++ sealed)) k
        ≡ ok (record e { flags = fl })
  unfolding decode_sealed
  decode_sealed-prefix e fl k nonce sealed he small hn hs opened =
      let (s, b, n) = words_at e fl (nonce ++ sealed) he small in
      let (whole, rest, w3, w4, w5, w6, w7, f, l) = prefix_words e fl (nonce ++ sealed) in
      let (body, front) = cut_behind_prefix e fl nonce sealed in
      let fits : length (write_prefix e fl ++ (nonce ++ sealed)) ≡ 30 + length e.payload + 16 =
        omega (arith, l, length-append nonce sealed) in
      let at30 : drop 30 (write_prefix e fl ++ (nonce ++ sealed)) ≡ sealed =
        ap (λ k. drop (18 + k) (write_prefix e fl ++ (nonce ++ sealed))) (sym hn) ∙ body in
      let at18 : slice (write_prefix e fl ++ (nonce ++ sealed)) 18 12 ≡ nonce =
        ap (λ k. slice (write_prefix e fl ++ (nonce ++ sealed)) 18 k) (sym hn) ∙ front in
      rw (n, fits, ==_refl (30 + length e.payload + 16), whole, at30, at18, opened, s, b, f) refl
