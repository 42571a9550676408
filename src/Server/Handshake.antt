-- ===== src/Server/Handshake.antt =====
-- The HELLO and RESUME handshakes of src/aftp/server.rs.
use agentic_file_transfer.Base.{
  ℕ, ◌+◌, ◌%◌, ◌^◌, List, [], Bool, true, false, not, ◌&&◌, Option, some, none, ◌==◌, if◌then◌else◌,
  AftError, Message, bytes_eq,
}
use agentic_file_transfer.Frame.Types.{Frame}
use agentic_file_transfer.Frame.Constants.{
  frame_error, frame_hello_ack, frame_auth_challenge, frame_auth_response, frame_resume_ack,
  err_auth_failed, initial_max_payload, cap_compression, cap_auth_challenge, cap_crc32_frames,
  cap_fec, cap_fec_quic,
}
use agentic_file_transfer.Frame.Payload.Session.{
  HelloPayload, parse_hello, build_hello_ack_with_session, build_error, build_auth_challenge,
  parse_auth_response, ResumePayload, parse_resume, build_resume_ack,
}
use agentic_file_transfer.Server.RateLimit.{is_locked_out, record_failure, clear}
use agentic_file_transfer.Server.Sessions.{SessionEntry, create, get}
use agentic_file_transfer.Server.Texts.{
  too_many_attempts, expected_auth_response, hmac_failed, invalid_token, rate_limited,
  auth_failed_text, invalid_token_on_resume,
}
use agentic_file_transfer.Server.Effects.{
  Handler, ◌>>=◌, ◌>>◌, pure, fail, lift, reply, receive, with_limiter, with_sessions,
}
use agentic_file_transfer.Server.Negotiation.{ServerConfig, has, negotiate}

-- What the handshake gets from outside: the client's address, the clock at each of its readings, the
-- random nonce and session id, and the verification of an HMAC-SHA256, by key, message and tag.
pub record Surroundings : Type 0 where
  pub ip : ℕ
  pub checked_at : ℕ
  pub failed_at : ℕ
  pub created_at : ℕ
  pub nonce : List ℕ
  pub fresh_id : List ℕ
  pub verify_hmac : List ℕ → List ℕ → List ℕ → Bool

-- What the handshakes return.
pub record Agreed : Type 0 where
  pub use_compression : Bool
  pub use_crc32 : Bool
  pub max_payload : ℕ
  pub session_id : List ℕ
  pub use_fec : Bool
  pub use_fec_quic : Bool

-- `send_error`
unfoldable pub send_error : ℕ → List ℕ → Handler (Unit {0})
unfolding build_error
send_error code message = reply frame_error (build_error code message)

module _ (c : ServerConfig) (env : Surroundings) where
  -- An attempt that failed is recorded and answered.
  unfoldable pub refuse : List ℕ → Handler (Unit {0})
  unfolding record_failure send_error
  refuse message = do
    with_limiter (λ l. (record_failure env.failed_at env.ip l, tt))
    send_error err_auth_failed message
    fail (AftError.auth_failed auth_failed_text)

  unfoldable pub check_response : List ℕ → Frame → Handler (Unit {0})
  unfolding refuse parse_auth_response
  check_response expected resp =
      if not (resp.frame_type == frame_auth_response)
      then refuse expected_auth_response
      else (lift (parse_auth_response resp.payload) >>= λ d.
          if env.verify_hmac expected env.nonce d.hmac then pure tt else refuse hmac_failed)

  -- Challenge and response.
  unfoldable pub challenge_auth : List ℕ → Handler (Unit {0})
  unfolding check_response build_auth_challenge
  challenge_auth expected = do
    reply frame_auth_challenge (build_auth_challenge env.nonce)
    resp ← receive initial_max_payload
    check_response expected resp

  -- The token in the HELLO itself.
  unfoldable pub token_auth : List ℕ → List ℕ → Handler (Unit {0})
  unfolding refuse
  token_auth expected token = if bytes_eq token expected then pure tt else refuse invalid_token

  abbrev pub is_challenged : HelloPayload → Bool
  is_challenged hello = c.auth_challenge && has cap_auth_challenge hello.capabilities

  unfoldable pub turn_away : Handler (Unit {0})
  unfolding send_error
  turn_away = do
    send_error err_auth_failed too_many_attempts
    fail (AftError.permission_denied rate_limited)

  unfoldable pub prove : List ℕ → HelloPayload → Handler (Unit {0})
  unfolding challenge_auth token_auth
  prove expected hello =
      if is_challenged hello then challenge_auth expected else token_auth expected hello.auth_token

  -- The authentication of a HELLO: whether the session is authenticated.
  unfoldable pub authenticate : Option (List ℕ) → HelloPayload → Handler Bool
  unfolding is_locked_out turn_away prove clear
  authenticate none hello = pure false
  authenticate (some expected) hello = do
    locked ← with_limiter (is_locked_out env.checked_at env.ip)
    (if locked then turn_away else prove expected hello)
    with_limiter (λ l. (clear env.ip l, tt))
    pure true

  -- The HELLO handshake from the negotiation on.
  unfoldable pub finish_hello : HelloPayload → Bool → Handler Agreed
  unfolding negotiate create build_hello_ack_with_session
  finish_hello hello authenticated =
      let agreed_caps = negotiate c hello.capabilities in
      do
        with_sessions (λ s. (create env.created_at env.fresh_id env.ip authenticated s, tt))
        reply frame_hello_ack
            (build_hello_ack_with_session agreed_caps c.max_frame_size env.fresh_id)
        pure (record {
          use_compression = has cap_compression agreed_caps;
          use_crc32 = has cap_crc32_frames agreed_caps;
          max_payload = (c.max_frame_size + 1024) % 2 ^ 32;
          session_id = env.fresh_id;
          use_fec = has cap_fec agreed_caps;
          use_fec_quic = has cap_fec_quic agreed_caps;
        })

  unfoldable pub handle_hello_handshake : Frame → Handler Agreed
  unfolding parse_hello authenticate finish_hello
  handle_hello_handshake hello_frame = lift (parse_hello hello_frame.payload) >>= λ hello.
      authenticate c.auth_token hello >>= finish_hello hello

  -- A RESUME that is not accepted.
  unfoldable pub refuse_resume : {A : Type 0} → AftError → Handler A
  unfolding build_resume_ack
  refuse_resume e = reply frame_resume_ack (build_resume_ack false 0 []) >> fail e

  unfoldable pub resume_allowed : Option (List ℕ) → List ℕ → Bool
  resume_allowed none token = true
  resume_allowed (some expected) token = bytes_eq token expected

  -- What a resumed connection goes on with.
  abbrev pub resumption : ResumePayload → Agreed
  resumption d = record {
    use_compression = c.compression;
    use_crc32 = has cap_crc32_frames d.capabilities;
    max_payload = (c.max_frame_size + 1024) % 2 ^ 32;
    session_id = d.session_id;
    use_fec = false;
    use_fec_quic = false;
  }

  unfoldable pub resumed : ResumePayload → Option SessionEntry → Handler Agreed
  unfolding refuse_resume build_resume_ack
  resumed d none = refuse_resume (AftError.other Message.session_not_found)
  resumed d (some entry) =
      reply frame_resume_ack (build_resume_ack true entry.bytes_received entry.path)
      >> pure (resumption d)

  unfoldable pub check_token : ResumePayload → Handler (Unit {0})
  unfolding resume_allowed refuse_resume
  check_token d =
      if resume_allowed c.auth_token d.auth_token
      then pure tt
      else refuse_resume (AftError.auth_failed invalid_token_on_resume)

  unfoldable pub handle_resume_handshake : Frame → Handler Agreed
  unfolding parse_resume check_token resumed get
  handle_resume_handshake resume_frame = lift (parse_resume resume_frame.payload) >>= λ d.
      check_token d >> (with_sessions (get env.checked_at d.session_id env.ip) >>= resumed d)
