-- ===== src/Frame/Payload/Fec.antt =====
-- FEC_OFFER, FEC_ACCEPT, FEC_NEEDMORE and FEC_BLOCK_OK of src/aftp/frame.rs.
use agentic_file_transfer.Base.{
  ℕ, List, [], Bool, not, ◌&&◌, Option, Result, AftError, Message, raise_if, ltb, ◌==◌,
  if◌then◌else◌, div_ceil,
}
use agentic_file_transfer.Frame.Wire.{
  put_u8, put_u16, put_u32, put_u64, put_str, get_u8, get_u16, get_u32, get_u64, get_str,
}
use agentic_file_transfer.Frame.Reader.{◌>>=◌, ◌>>◌, pure, lift, run}
use agentic_file_transfer.Frame.Payload.Session.{bool_byte}

unfoldable pub build_fec_offer : ℕ → ℕ → ℕ → ℕ → ℕ → Bool → List ℕ
unfolding put_u8 put_u16 put_u32 put_u64
build_fec_offer session_id total_len block_size symbol_size block_count authenticated =
    put_u8
      (put_u32
        (put_u16 (put_u32 (put_u64 (put_u64 [] session_id) total_len) block_size) symbol_size)
        block_count)
      (bool_byte authenticated)

pub record FecOfferPayload : Type 0 where
  pub session_id : ℕ
  pub total_len : ℕ
  pub block_size : ℕ
  pub symbol_size : ℕ
  pub block_count : ℕ
  pub authenticated : Bool

-- The checks that `parse_fec_offer` makes before it hands the offer on.
unfoldable pub check_fec_offer : FecOfferPayload → Result (Unit {0})
check_fec_offer o =
    if o.symbol_size == 0
    then raise_if Bool.true (AftError.other Message.zero_symbol_size)
    else if o.block_size == 0
    then raise_if Bool.true (AftError.other Message.zero_block_size)
    else if ltb o.block_size o.symbol_size
    then raise_if Bool.true (AftError.other Message.symbol_exceeds_block)
    else raise_if (not (div_ceil o.total_len o.block_size == o.block_count)) (
        AftError.other
          (Message.block_count_disagrees o.block_count (div_ceil o.total_len o.block_size)))

unfoldable pub parse_fec_offer : List ℕ → Result FecOfferPayload
unfolding check_fec_offer
parse_fec_offer = run do
  session_id ← get_u64
  total_len ← get_u64
  block_size ← get_u32
  symbol_size ← get_u16
  block_count ← get_u32
  authenticated ← get_u8
  let offer : FecOfferPayload = record {
    session_id = session_id;
    total_len = total_len;
    block_size = block_size;
    symbol_size = symbol_size;
    block_count = block_count;
    authenticated = not (authenticated == 0);
  }
  lift (check_fec_offer offer)
  pure offer

unfoldable pub build_fec_accept : Bool → ℕ → List ℕ → Option (List ℕ)
unfolding put_u8 put_u16 put_str
build_fec_accept accepted udp_port reason =
    put_str (put_u16 (put_u8 [] (bool_byte accepted)) udp_port) reason

pub record FecAcceptPayload : Type 0 where
  pub accepted : Bool
  pub udp_port : ℕ
  pub reason : List ℕ

unfoldable pub parse_fec_accept : List ℕ → Result FecAcceptPayload
parse_fec_accept = run do
  status ← get_u8
  udp_port ← get_u16
  reason ← get_str
  let accepted = not (status == 0)
  lift (raise_if (accepted && udp_port == 0) (AftError.other Message.no_data_port))
  pure (record { accepted = accepted; udp_port = udp_port; reason = reason })

unfoldable pub build_fec_needmore : ℕ → ℕ → ℕ → List ℕ
unfolding put_u32
build_fec_needmore block_id symbols_needed symbols_received =
    put_u32 (put_u32 (put_u32 [] block_id) symbols_needed) symbols_received

pub record FecNeedMorePayload : Type 0 where
  pub block_id : ℕ
  pub symbols_needed : ℕ
  pub symbols_received : ℕ

unfoldable pub parse_fec_needmore : List ℕ → Result FecNeedMorePayload
parse_fec_needmore = run do
  block_id ← get_u32
  symbols_needed ← get_u32
  symbols_received ← get_u32
  pure (record {
    block_id = block_id;
    symbols_needed = symbols_needed;
    symbols_received = symbols_received;
  })

unfoldable pub build_fec_block_ok : ℕ → ℕ → List ℕ
unfolding put_u32
build_fec_block_ok block_id symbols_used = put_u32 (put_u32 [] block_id) symbols_used

pub record FecBlockOkPayload : Type 0 where
  pub block_id : ℕ
  pub symbols_used : ℕ

unfoldable pub parse_fec_block_ok : List ℕ → Result FecBlockOkPayload
parse_fec_block_ok = run do
  block_id ← get_u32
  symbols_used ← get_u32
  pure (record { block_id = block_id; symbols_used = symbols_used })
