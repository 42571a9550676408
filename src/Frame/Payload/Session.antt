-- ===== src/Frame/Payload/Session.antt =====
-- HELLO, HELLO_ACK, ERROR, AUTH_CHALLENGE, AUTH_RESPONSE, RESUME and RESUME_ACK of
-- src/aftp/frame.rs. A builder is `none` where a `put_*` helper panics.
use agentic_file_transfer.Base.{
  ℕ, List, [], Bool, not, Option, some, none, Result, ok, err, length, ltb, ◌==◌, if◌then◌else◌,
  and_then,
}
use agentic_file_transfer.Frame.Wire.{
  put_u8, put_u16, put_u32, put_u64, put_str, put_bytes, get_u8, get_u16, get_u32, get_u64, get_str,
  get_bytes,
}
use agentic_file_transfer.Frame.Reader.{Reader, ◌>>=◌, pure, run}

-- `Option<&str>::unwrap_or("")`
abbrev pub or_empty : Option (List ℕ) → List ℕ
or_empty none = []
or_empty (some s) = s

-- `if b { 1 } else { 0 }`
abbrev pub bool_byte : Bool → ℕ
bool_byte b = if b then 1 else 0

unfoldable pub build_hello : ℕ → Option (List ℕ) → Option (List ℕ)
unfolding put_u32 put_str
build_hello capabilities auth_token = put_str (put_u32 [] capabilities) (or_empty auth_token)

pub record HelloPayload : Type 0 where
  pub capabilities : ℕ
  pub auth_token : List ℕ

unfoldable pub parse_hello : List ℕ → Result HelloPayload
parse_hello = run do
  capabilities ← get_u32
  auth_token ← get_str
  pure (record { capabilities = capabilities; auth_token = auth_token })

unfoldable pub build_hello_ack_with_session : ℕ → ℕ → List ℕ → Option (List ℕ)
unfolding put_u32 put_str
build_hello_ack_with_session capabilities max_frame_size session_id =
    put_str (put_u32 (put_u32 [] capabilities) max_frame_size) session_id

unfoldable pub build_hello_ack : ℕ → ℕ → Option (List ℕ)
unfolding put_u32 put_str
build_hello_ack capabilities max_frame_size =
    put_str (put_u32 (put_u32 [] capabilities) max_frame_size) []

pub record HelloAckPayload : Type 0 where
  pub capabilities : ℕ
  pub max_frame_size : ℕ
  pub session_id : List ℕ

-- `get_str(payload, &mut off).unwrap_or_default()` if anything is left, else the empty string. The
-- offset is not used after a failure.
unfoldable pub optional_session_id : Reader (List ℕ)
optional_session_id payload off =
    if ltb off (length payload)
    then elim (get_str payload off) [ ok r ↦ ok r | err _ ↦ ok ([], off) ]
    else ok ([], off)

unfoldable pub parse_hello_ack : List ℕ → Result HelloAckPayload
unfolding optional_session_id
parse_hello_ack = run do
  capabilities ← get_u32
  max_frame_size ← get_u32
  session_id ← optional_session_id
  pure (record {
    capabilities = capabilities;
    max_frame_size = max_frame_size;
    session_id = session_id;
  })

unfoldable pub build_error : ℕ → List ℕ → Option (List ℕ)
unfolding put_u16 put_str
build_error code message = put_str (put_u16 [] code) message

pub record ErrorPayload : Type 0 where
  pub code : ℕ
  pub message : List ℕ

unfoldable pub parse_error : List ℕ → Result ErrorPayload
parse_error =
    run do code ← get_u16; message ← get_str; pure (record { code = code; message = message })

unfoldable pub build_auth_challenge : List ℕ → Option (List ℕ)
unfolding put_bytes
build_auth_challenge nonce = put_bytes [] nonce

pub record AuthChallengePayload : Type 0 where
  pub nonce : List ℕ

unfoldable pub parse_auth_challenge : List ℕ → Result AuthChallengePayload
parse_auth_challenge = run do nonce ← get_bytes; pure (record { nonce = nonce })

unfoldable pub build_auth_response : List ℕ → Option (List ℕ)
unfolding put_bytes
build_auth_response hmac = put_bytes [] hmac

pub record AuthResponsePayload : Type 0 where
  pub hmac : List ℕ

unfoldable pub parse_auth_response : List ℕ → Result AuthResponsePayload
parse_auth_response = run do hmac ← get_bytes; pure (record { hmac = hmac })

unfoldable pub build_resume : List ℕ → ℕ → Option (List ℕ) → Option (List ℕ)
unfolding put_u32 put_str
build_resume session_id capabilities auth_token =
    and_then (put_str [] session_id)
      (λ buf. put_str (put_u32 buf capabilities) (or_empty auth_token))

pub record ResumePayload : Type 0 where
  pub session_id : List ℕ
  pub capabilities : ℕ
  pub auth_token : List ℕ

unfoldable pub parse_resume : List ℕ → Result ResumePayload
parse_resume = run do
  session_id ← get_str
  capabilities ← get_u32
  auth_token ← get_str
  pure (record { session_id = session_id; capabilities = capabilities; auth_token = auth_token })

unfoldable pub build_resume_ack : Bool → ℕ → List ℕ → Option (List ℕ)
unfolding put_u8 put_u64 put_str
build_resume_ack accepted bytes_received path =
    put_str (put_u64 (put_u8 [] (bool_byte accepted)) bytes_received) path

pub record ResumeAckPayload : Type 0 where
  pub accepted : Bool
  pub bytes_received : ℕ
  pub path : List ℕ

unfoldable pub parse_resume_ack : List ℕ → Result ResumeAckPayload
parse_resume_ack = run do
  accepted ← get_u8
  bytes_received ← get_u64
  path ← get_str
  pure (record { accepted = not (accepted == 0); bytes_received = bytes_received; path = path })
