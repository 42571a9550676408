-- ===== src/Server/Negotiation.antt =====
-- The negotiation of capabilities in the handshake of src/aftp/server.rs. A capability is a bit, a
-- power of two, of the number that both sides send.
use agentic_file_transfer.Base.{
  ℕ, ◌+◌, ◌-◌, ◌/◌, ◌%◌, List, Bool, true, false, not, ◌&&◌, Option, some, none, ◌==◌,
  if◌then◌else◌,
}
use agentic_file_transfer.Frame.Constants.{
  cap_compression, cap_checksum, cap_auth_challenge, cap_session_resume, cap_crc32_frames, cap_fec,
  cap_fec_quic,
}

-- The configuration in `ServerState`, less the root.
pub record ServerConfig : Type 0 where
  pub auth_token : Option (List ℕ)
  pub auth_challenge : Bool
  pub compression : Bool
  pub max_frame_size : ℕ
  pub fec : Bool
  pub fec_allow_unauthenticated : Bool

-- `caps & cap != 0`
abbrev pub has : ℕ → ℕ → Bool
has cap caps = caps / cap % 2 == 1

-- `caps &= !cap`
abbrev pub unset : ℕ → ℕ → ℕ
unset cap caps = if has cap caps then caps - cap else caps

-- `caps |= cap`
abbrev pub set : ℕ → ℕ → ℕ
set cap caps = if has cap caps then caps else caps + cap

abbrev pub is_some : Option (List ℕ) → Bool
is_some none = false
is_some (some token) = true

-- What the server agrees to whatever is configured for the data plane.
unfoldable pub agree_base : ServerConfig → ℕ → ℕ
agree_base c caps =
    let c1 = if c.compression then caps else unset cap_compression caps in
    let c2 = set cap_checksum c1 in
    let c3 = if c.auth_challenge && is_some c.auth_token then set cap_auth_challenge c2 else c2 in
    set cap_crc32_frames (set cap_session_resume c3)

-- Whether the data plane is refused.
abbrev pub refuses_fec : ServerConfig → Bool
refuses_fec c =
    if not c.fec then true else not (is_some c.auth_token) && not c.fec_allow_unauthenticated

unfoldable pub agree_fec : ServerConfig → ℕ → ℕ
agree_fec c caps =
    let c1 = if refuses_fec c then unset cap_fec caps else caps in
    if not (has cap_fec c1) then unset cap_fec_quic c1 else c1

unfoldable pub negotiate : ServerConfig → ℕ → ℕ
unfolding agree_base agree_fec
negotiate c caps = agree_fec c (agree_base c caps)
