-- ===== src/Frame/RoundTrip/Session.antt =====
-- Proofs on the session payloads of src/aftp/frame.rs.
use agentic_file_transfer.Base.{
  ℕ, ◌+◌, ◌^◌, ◌<◌, ◌≡◌, refl, Bool, List, [], ◌∷◌, ◌++◌, Option, some, arith, ok, length, le_bytes,
  append_assoc, lt→ltb, ◌∙◌, inl, inr, Option-cases, none≢some,
}
use agentic_file_transfer.Frame.Utf8.{IsUtf8}
use agentic_file_transfer.Frame.Wire.{put_str}
use agentic_file_transfer.Frame.Reader.{
  put_str_inv, put_bytes_inv, prefixed, start, At, offset_fits, At-u8, At-u16, At-u32, At-u64,
  At-str, At-bytes,
}
use agentic_file_transfer.Frame.Payload.Session.{
  or_empty, build_hello, parse_hello, build_hello_ack_with_session, parse_hello_ack, build_error,
  parse_error, build_auth_challenge, parse_auth_challenge, build_auth_response, parse_auth_response,
  build_resume, parse_resume, build_resume_ack, parse_resume_ack, optional_session_id, bool_byte,
}

-- parse_hello reads back the 32-bit capabilities and the token, empty if there is none, from what
-- build_hello built, if the token is UTF-8.
pub parse_hello-build_hello :
    (capabilities : ℕ) (auth_token : Option (List ℕ)) {payload : List ℕ}
    → capabilities < 2 ^ 32
    → IsUtf8 (or_empty auth_token)
    → build_hello capabilities auth_token ≡ some payload
    → parse_hello payload
      ≡ ok (record { capabilities = capabilities; auth_token = or_empty auth_token })
unfolding build_hello parse_hello
parse_hello-build_hello c t hc ht built =
    let (small, e) = put_str_inv (le_bytes 4 c) (or_empty t) built in
    let (r1, a1) = At-u32 c hc (start (le_bytes 4 c ++ prefixed (or_empty t)) _ refl) in
    let (r2, _) = At-str (or_empty t) small ht a1 in rw (e, r1, r2)

-- Where a string stands, it is the session id.
optional_session_id_lem :
    (session_id : List ℕ) {payload : List ℕ} {off : ℕ} (rest : List ℕ)
    → length session_id < 2 ^ 16
    → IsUtf8 session_id
    → At payload off (prefixed session_id ++ rest)
    → optional_session_id payload off ≡ ok (session_id, off + length (prefixed session_id))
unfolding optional_session_id
optional_session_id_lem s {payload} {off} rest small h a =
    let below : off < length payload =
      omega (arith, a.fits, offset_fits payload (prefixed s) rest off a.fits a.stands) in
    rw (lt→ltb off (length payload) below, (At-str s small h a).0)

-- parse_hello_ack reads back the 32-bit capabilities and frame size and the session id from what
-- build_hello_ack_with_session built, if the id is UTF-8.
pub parse_hello_ack-build_hello_ack_with_session :
    (capabilities max_frame_size : ℕ) (session_id : List ℕ) {payload : List ℕ}
    → capabilities < 2 ^ 32
    → max_frame_size < 2 ^ 32
    → IsUtf8 session_id
    → build_hello_ack_with_session capabilities max_frame_size session_id ≡ some payload
    → parse_hello_ack payload
      ≡ ok (record {
        capabilities = capabilities;
        max_frame_size = max_frame_size;
        session_id = session_id;
      })
unfolding build_hello_ack_with_session parse_hello_ack
parse_hello_ack-build_hello_ack_with_session c m s hc hm hs built =
    let (small, e) = put_str_inv (le_bytes 4 c ++ le_bytes 4 m) s built in
    let (r1, a1) = At-u32 c hc (start (le_bytes 4 c ++ le_bytes 4 m ++ prefixed s) _ refl) in
    let (r2, a2) = At-u32 m hm a1 in rw (e, r1, r2, optional_session_id_lem s [] small hs a2)

-- A peer of the first version sends no session id: the payload ends behind the two words.
pub parse_hello_ack_without_session :
    (capabilities max_frame_size : ℕ)
    → capabilities < 2 ^ 32
    → max_frame_size < 2 ^ 32
    → parse_hello_ack (le_bytes 4 capabilities ++ le_bytes 4 max_frame_size)
      ≡ ok
          (record { capabilities = capabilities; max_frame_size = max_frame_size; session_id = [] })
unfolding parse_hello_ack
parse_hello_ack_without_session c m hc hm =
    let (r1, a1) = At-u32 c hc (start (le_bytes 4 c ++ le_bytes 4 m) _ refl) in
    let (r2, a2) = At-u32 m hm a1 in rw (r1, r2)

-- parse_error reads back the 16-bit code and the message from what build_error built, if the
-- message is UTF-8.
pub parse_error-build_error :
    (code : ℕ) (message : List ℕ) {payload : List ℕ}
    → code < 2 ^ 16
    → IsUtf8 message
    → build_error code message ≡ some payload
    → parse_error payload ≡ ok (record { code = code; message = message })
unfolding build_error parse_error
parse_error-build_error c s hc hs built =
    let (small, e) = put_str_inv (le_bytes 2 c) s built in
    let (r1, a1) = At-u16 c hc (start (le_bytes 2 c ++ prefixed s) _ refl) in
    let (r2, _) = At-str s small hs a1 in rw (e, r1, r2)

-- The nonce and the answer to it come back as they were sent.
pub parse_auth_challenge-build_auth_challenge :
    (nonce : List ℕ) {payload : List ℕ}
    → build_auth_challenge nonce ≡ some payload
    → parse_auth_challenge payload ≡ ok (record { nonce = nonce })
unfolding build_auth_challenge parse_auth_challenge
parse_auth_challenge-build_auth_challenge s built =
    let (small, e) = put_bytes_inv [] s built in
    let (r1, _) = At-bytes s small (start (prefixed s) _ refl) in rw (e, r1)

pub parse_auth_response-build_auth_response :
    (hmac : List ℕ) {payload : List ℕ}
    → build_auth_response hmac ≡ some payload
    → parse_auth_response payload ≡ ok (record { hmac = hmac })
unfolding build_auth_response parse_auth_response
parse_auth_response-build_auth_response s built =
    let (small, e) = put_bytes_inv [] s built in
    let (r1, _) = At-bytes s small (start (prefixed s) _ refl) in rw (e, r1)

-- The bytes of a RESUME payload.
build_resume_bytes :
    (session_id : List ℕ) (capabilities : ℕ) (auth_token : Option (List ℕ)) {payload : List ℕ}
    → build_resume session_id capabilities auth_token ≡ some payload
    → (length session_id < 2 ^ 16)
      × (length (or_empty auth_token) < 2 ^ 16)
      × (payload
          ≡ prefixed session_id ++ (le_bytes 4 capabilities ++ prefixed (or_empty auth_token)))
unfolding build_resume
build_resume_bytes s c t built = elim (Option-cases (put_str [] s)) [
  | inl e ↦ none≢some (rw e at built)
  | inr (buf, e) ↦
      let (small, e1) = put_str_inv [] s e in
      let (small', e2) = put_str_inv (buf ++ le_bytes 4 c) (or_empty t) (rw e at built) in
      (small, small', e2 ∙ rw e1 (append_assoc (prefixed s) (le_bytes 4 c) (prefixed (or_empty t))))
]

-- parse_resume reads back the session id, the 32-bit capabilities and the token, empty if there is
-- none, from what build_resume built, if id and token are UTF-8.
pub parse_resume-build_resume :
    (session_id : List ℕ) (capabilities : ℕ) (auth_token : Option (List ℕ)) {payload : List ℕ}
    → capabilities < 2 ^ 32
    → IsUtf8 session_id
    → IsUtf8 (or_empty auth_token)
    → build_resume session_id capabilities auth_token ≡ some payload
    → parse_resume payload
      ≡ ok (record {
        session_id = session_id;
        capabilities = capabilities;
        auth_token = or_empty auth_token;
      })
unfolding parse_resume
parse_resume-build_resume s c t hc hs ht built =
    let (small, small', e) = build_resume_bytes s c t built in
    let (r1, a1) = At-str s small hs (
      start (prefixed s ++ (le_bytes 4 c ++ prefixed (or_empty t)))
        (prefixed s ++ (le_bytes 4 c ++ (prefixed (or_empty t) ++ [])))
        (append_assoc (prefixed s) (le_bytes 4 c ++ prefixed (or_empty t)) [])) in
    let (r2, a2) = At-u32 c hc a1 in
    let (r3, _) = At-str (or_empty t) small' ht a2 in rw (e, r1, r2, r3)

-- parse_resume_ack reads back the answer, the 64-bit count and the path from what build_resume_ack
-- built, if the path is UTF-8.
pub parse_resume_ack-build_resume_ack :
    (accepted : Bool) (bytes_received : ℕ) (path : List ℕ) {payload : List ℕ}
    → bytes_received < 2 ^ 64
    → IsUtf8 path
    → build_resume_ack accepted bytes_received path ≡ some payload
    → parse_resume_ack payload
      ≡ ok (record { accepted = accepted; bytes_received = bytes_received; path = path })
unfolding build_resume_ack parse_resume_ack
parse_resume_ack-build_resume_ack b n s hn hs built =
    let (small, e) = put_str_inv (bool_byte b ∷ le_bytes 8 n) s built in
    let (r1, a1) = At-u8 (bool_byte b) (start (bool_byte b ∷ le_bytes 8 n ++ prefixed s) _ refl) in
    let (r2, a2) = At-u64 n hn a1 in
    let (r3, _) = At-str s small hs a2 in rw (e, r1, r2, r3) (ground arith)
