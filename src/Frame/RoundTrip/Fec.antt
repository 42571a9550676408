-- ===== src/Frame/RoundTrip/Fec.antt =====
-- Proofs on the FEC control payloads of src/aftp/frame.rs.
use agentic_file_transfer.Base.{
  ℕ, ◌+◌, ◌*◌, ◌^◌, ◌≤◌, ◌<◌, ◌≡◌, refl, Bool, true, false, List, [], ◌∷◌, ◌++◌, some, not, ap, ◌∙◌,
  err, if◌then◌else◌, ◌&&◌, AftError, Message, arith, Result, ok, le_bytes, ◌==◌, div_ceil_covers,
  div_ceil_unique,
}
use agentic_file_transfer.Base.Fallible.{◌>>=◌}
use agentic_file_transfer.Frame.Reader
use agentic_file_transfer.Frame.Utf8.{IsUtf8}
use agentic_file_transfer.Frame.Reader.{
  put_str_inv, prefixed, start, At-u8, At-u16, At-u32, At-u64, At-str,
}
use agentic_file_transfer.Frame.Payload.Session.{bool_byte}
use agentic_file_transfer.Frame.Payload.Fec.{
  build_fec_offer, FecOfferPayload, check_fec_offer, parse_fec_offer, build_fec_accept,
  parse_fec_accept, build_fec_needmore, parse_fec_needmore, build_fec_block_ok, parse_fec_block_ok,
}

-- An offer whose blocks cover exactly the length, with symbols that fit a block.
pub record IsCoherent (o : FecOfferPayload) : Type 0 where
  pub has_symbols : 1 ≤ o.symbol_size
  pub symbol_fits : o.symbol_size ≤ o.block_size
  pub covers : o.total_len ≤ o.block_count * o.block_size
  pub no_empty_block : o.block_count * o.block_size < o.total_len + o.block_size

-- An offer that passes the checks of parse_fec_offer is coherent: its symbols have at least one
-- byte and fit a block, and its blocks cover the length with no block to spare.
pub check_fec_offer_sound : (o : FecOfferPayload) → check_fec_offer o ≡ ok tt → IsCoherent o
unfolding check_fec_offer
check_fec_offer_sound o h = ground (arith, div_ceil_covers o.total_len o.block_size)

-- Every coherent offer, with symbols of at least one byte that fit a block and exactly as many
-- blocks as cover the length, passes the checks of parse_fec_offer.
pub check_fec_offer_complete : (o : FecOfferPayload) → IsCoherent o → check_fec_offer o ≡ ok tt
unfolding check_fec_offer
check_fec_offer_complete o h = ground (
  arith,
  h.has_symbols,
  h.symbol_fits,
  div_ceil_unique o.total_len o.block_size o.block_count h.covers h.no_empty_block,
)

abbrev pub offer_bytes : FecOfferPayload → List ℕ
offer_bytes o =
    build_fec_offer o.session_id o.total_len o.block_size o.symbol_size o.block_count
      o.authenticated

-- The fields are machine words.
pub record IsOffer (o : FecOfferPayload) : Type 0 where
  pub session : o.session_id < 2 ^ 64
  pub total : o.total_len < 2 ^ 64
  pub block : o.block_size < 2 ^ 32
  pub symbol : o.symbol_size < 2 ^ 16
  pub count : o.block_count < 2 ^ 32

lift_lem :
    {A : Type 0} (m : Result (Unit {0})) (x : A) (buf : List ℕ) (off : ℕ)
    → (Reader.◌>>◌ (Reader.lift m) (Reader.pure x) buf off >>= λ p. ok p.0) ≡ (m >>= λ _. ok x)
lift_lem (ok tt) x buf off = refl
lift_lem (err e) x buf off = refl

-- The wire form of an offer whose last byte is `b`.
abbrev offer_fields : FecOfferPayload → ℕ → List ℕ
offer_fields o b =
    le_bytes 8 o.session_id
    ++ (le_bytes 8 o.total_len
        ++ (le_bytes 4 o.block_size
            ++ (le_bytes 2 o.symbol_size ++ (le_bytes 4 o.block_count ++ b ∷ []))))

-- The parser reads the six fields and runs the checks on them.
parse_offer_fields :
    (o : FecOfferPayload) (b : ℕ)
    → IsOffer o
    → not (b == 0) ≡ o.authenticated
    → parse_fec_offer (offer_fields o b) ≡ (check_fec_offer o >>= λ _. ok o)
unfolding parse_fec_offer
parse_offer_fields o b w same =
    let (r1, a1) = At-u64 o.session_id w.session (start (offer_fields o b) _ refl) in
    let (r2, a2) = At-u64 o.total_len w.total a1 in
    let (r3, a3) = At-u32 o.block_size w.block a2 in
    let (r4, a4) = At-u16 o.symbol_size w.symbol a3 in
    let (r5, a5) = At-u32 o.block_count w.count a4 in
    let (r6, _) = At-u8 b a5 in
    rw (r1, r2, r3, r4, r5, r6)
      (lift_lem (check_fec_offer (record o { authenticated = not (b == 0) })) _ (offer_fields o b)
          (0 + 8 + 8 + 4 + 2 + 4 + 1)
        ∙ ap
            (λ a. check_fec_offer (record o { authenticated = a }) >>= λ _.
              ok (record o { authenticated = a }))
            same)

not-bool_byte : (b : Bool) → not (bool_byte b == 0) ≡ b
not-bool_byte true = refl
not-bool_byte false = refl

-- parse_fec_offer reads back every offer whose fields fit their widths and which is coherent:
-- symbols of at least one byte that fit a block, and exactly as many blocks as cover the length.
pub parse_fec_offer-build_fec_offer :
    (o : FecOfferPayload) → IsOffer o → IsCoherent o → parse_fec_offer (offer_bytes o) ≡ ok o
unfolding build_fec_offer
parse_fec_offer-build_fec_offer o w c =
    parse_offer_fields o (bool_byte o.authenticated) w (not-bool_byte o.authenticated)
    ∙ rw (check_fec_offer_complete o c)

-- parse_fec_accept reads back the answer, the 16-bit port and the UTF-8 reason from what
-- build_fec_accept built, but for an accepting answer with port 0, on which it fails.
pub parse_fec_accept-build_fec_accept :
    (accepted : Bool) (udp_port : ℕ) (reason : List ℕ) {payload : List ℕ}
    → udp_port < 2 ^ 16
    → IsUtf8 reason
    → build_fec_accept accepted udp_port reason ≡ some payload
    → parse_fec_accept payload ≡ (
        if accepted && udp_port == 0
        then err (AftError.other Message.no_data_port)
        else ok (record { accepted = accepted; udp_port = udp_port; reason = reason }))
unfolding build_fec_accept parse_fec_accept
parse_fec_accept-build_fec_accept b p s hp hs built =
    let (small, e) = put_str_inv (bool_byte b ∷ le_bytes 2 p) s built in
    let (r1, a1) = At-u8 (bool_byte b) (start (bool_byte b ∷ le_bytes 2 p ++ prefixed s) _ refl) in
    let (r2, a2) = At-u16 p hp a1 in
    let (r3, _) = At-str s small hs a2 in rw (e, r1, r2, r3) (ground arith)

-- parse_fec_needmore reads back the three 32-bit numbers from what build_fec_needmore built.
pub parse_fec_needmore-build_fec_needmore :
    (block_id symbols_needed symbols_received : ℕ)
    → block_id < 2 ^ 32
    → symbols_needed < 2 ^ 32
    → symbols_received < 2 ^ 32
    → parse_fec_needmore (build_fec_needmore block_id symbols_needed symbols_received)
      ≡ ok (record {
        block_id = block_id;
        symbols_needed = symbols_needed;
        symbols_received = symbols_received;
      })
unfolding build_fec_needmore parse_fec_needmore
parse_fec_needmore-build_fec_needmore a b c ha hb hc =
    let (r1, a1) = At-u32 a ha (start (le_bytes 4 a ++ le_bytes 4 b ++ le_bytes 4 c) _ refl) in
    let (r2, a2) = At-u32 b hb a1 in let (r3, _) = At-u32 c hc a2 in rw (r1, r2, r3)

pub parse_fec_block_ok-build_fec_block_ok :
    (block_id symbols_used : ℕ)
    → block_id < 2 ^ 32
    → symbols_used < 2 ^ 32
    → parse_fec_block_ok (build_fec_block_ok block_id symbols_used)
      ≡ ok (record { block_id = block_id; symbols_used = symbols_used })
unfolding build_fec_block_ok parse_fec_block_ok
parse_fec_block_ok-build_fec_block_ok a b ha hb =
    let (r1, a1) = At-u32 a ha (start (le_bytes 4 a ++ le_bytes 4 b) _ refl) in
    let (r2, _) = At-u32 b hb a1 in rw (r1, r2)
