-- ===== src/Server/Admission.antt =====
-- Proofs on who gets to the request handlers, src/aftp/server.rs.
use agentic_file_transfer.Base.{
  ℕ, ◌≡◌, refl, sym, subst, ap, ◌∙◌, ◌⊎◌, inl, inr, List, [], false, Option, some, none, ◌==◌, ok,
  AftError, Message, bytes_eq→eq, ==_iff,
}
use agentic_file_transfer.Frame.Types.{Frame}
use agentic_file_transfer.Frame.Io.{Source, read_frame}
use agentic_file_transfer.Frame.Constants.{
  frame_hello, frame_resume, frame_resume_ack, err_invalid_request, initial_max_payload,
}
use agentic_file_transfer.Frame.Payload.Session.{
  HelloPayload, parse_hello, ResumePayload, parse_resume, build_resume_ack,
}
use agentic_file_transfer.Server.RateLimit.{is_locked_out}
use agentic_file_transfer.Server.Sessions.{SessionEntry, get}
use agentic_file_transfer.Server.Texts.{expected_hello, invalid_token_on_resume}
use agentic_file_transfer.Server.Effects.{
  World, Outcome, returned, raised, panicked, after, ◌>>=◌, ◌>>◌, pure, fail, lift, reply, receive,
  with_sessions,
}
use agentic_file_transfer.Server.Negotiation.{ServerConfig}
use agentic_file_transfer.Server.Handshake.{
  Surroundings, Agreed, send_error, authenticate, finish_hello, handle_hello_handshake,
  refuse_resume, resume_allowed, check_token, resumed, handle_resume_handshake,
}
use agentic_file_transfer.Server.Connection.{
  Handlers, greet_other, greet, handshake, serve_requests, handle_connection,
}
use agentic_file_transfer.Server.Proving.{
  Proven, authenticate-returned, after-returned, lift-returned, received-returned, if_handler,
  never_after, returned_value, returned_world,
}

module _ (c : ServerConfig) (env : Surroundings) (expected : List ℕ) where
  -- A HELLO, of the type 0x01, of a client that is not locked out and has proved that it knows the
  -- token.
  abbrev pub HelloAdmitted : Frame → World → Type 0
  HelloAdmitted first w =
      (hello : HelloPayload) × (first.frame_type ≡ 0x01)
      × (parse_hello first.payload ≡ ok hello)
      × ((is_locked_out env.checked_at env.ip w.limiter).1 ≡ false)
      × Proven c env expected hello w.source

  -- A RESUME, of the type 0x14, with the token, of a session that the store has for the client's
  -- address.
  abbrev pub ResumeAdmitted : Frame → World → Type 0
  ResumeAdmitted first w =
      (d : ResumePayload) × (first.frame_type ≡ 0x14)
      × (parse_resume first.payload ≡ ok d)
      × (d.auth_token ≡ expected)
      × ((entry : SessionEntry) × ((get env.checked_at d.session_id env.ip w.sessions).1
            ≡ some entry))

  hello_handshake-returned :
      (first : Frame) (w : World) (a : Agreed) (w' : World)
      → c.auth_token ≡ some expected
      → first.frame_type ≡ 0x01
      → handle_hello_handshake c env first w ≡ returned a w'
      → HelloAdmitted first w
  unfolding handle_hello_handshake
  hello_handshake-returned first w a w' token typed e =
      let (hello, w1, e1, later) =
        after-returned (lift (parse_hello first.payload) w)
          (λ hello. authenticate c env c.auth_token hello >>= finish_hello c env hello) a w' e in
      let (parsed, same) = lift-returned (parse_hello first.payload) w hello w1 e1 in
      let (b, w2, proved, finished) =
        after-returned (authenticate c env c.auth_token hello w1) (finish_hello c env hello) a w'
          later in
      let known : authenticate c env (some expected) hello w ≡ returned b w2 =
        ap (λ t. authenticate c env t hello w) (sym token)
        ∙ (ap (authenticate c env c.auth_token hello) same ∙ proved) in
      let (is_true, free, proof) = authenticate-returned c env expected hello w b w2 known in
      (hello, typed, parsed, free, proof)

  refuse_resume_never :
      {A B : Type 0} (failure : AftError) (w : World) (a : A) (w' : World)
      → refuse_resume c env failure w ≡ returned a w'
      → B
  unfolding refuse_resume
  refuse_resume_never failure w a w' e =
      never_after (reply frame_resume_ack (build_resume_ack false 0 []) w) failure a w' e

  check_token-returned :
      (d : ResumePayload) (w : World) (u : Unit {0}) (w' : World)
      → c.auth_token ≡ some expected
      → check_token c env d w ≡ returned u w'
      → (d.auth_token ≡ expected) × (w ≡ w')
  unfolding check_token resume_allowed
  check_token-returned d w u w' token e =
      elim (if_handler (resume_allowed c env c.auth_token d.auth_token) (pure tt)
        (refuse_resume c env (AftError.auth_failed invalid_token_on_resume)) w (returned u w') e) [
          | inl (allowed, passed) ↦ (
            bytes_eq→eq d.auth_token expected
                (ap (λ t. resume_allowed c env t d.auth_token) (sym token) ∙ allowed),
            returned_world passed,
          )
          | inr (wrong, refused) ↦
              refuse_resume_never (AftError.auth_failed invalid_token_on_resume) w u w' refused
        ]

  resumed-returned :
      (d : ResumePayload) (o : Option SessionEntry) (w : World) (a : Agreed) (w' : World)
      → resumed c env d o w ≡ returned a w'
      → (entry : SessionEntry) × (o ≡ some entry)
  unfolding resumed
  resumed-returned d none w a w' e =
      refuse_resume_never (AftError.other Message.session_not_found) w a w' e
  resumed-returned d (some entry) w a w' e = (entry, refl)

  resume_handshake-returned :
      (first : Frame) (w : World) (a : Agreed) (w' : World)
      → c.auth_token ≡ some expected
      → first.frame_type ≡ 0x14
      → handle_resume_handshake c env first w ≡ returned a w'
      → ResumeAdmitted first w
  unfolding handle_resume_handshake
  resume_handshake-returned first w a w' token typed e =
      let find = λ (d : ResumePayload).
        with_sessions (get env.checked_at d.session_id env.ip) >>= resumed c env d in
      let (d, w1, e1, later) =
        after-returned (lift (parse_resume first.payload) w) (λ d. check_token c env d >> find d) a
          w' e in
      let (parsed, same) = lift-returned (parse_resume first.payload) w d w1 e1 in
      let (u, w2, checked, found) =
        after-returned (check_token c env d w1) (λ x. find d) a w' later in
      let (right, same2) = check_token-returned d w1 u w2 token checked in
      let (o, w3, got, ended) =
        after-returned (with_sessions (get env.checked_at d.session_id env.ip) w2) (resumed c env d)
          a w' found in
      let (entry, there) = resumed-returned d o w3 a w' ended in
      let here : w ≡ w2 = same ∙ same2 in
      (
        d,
        typed,
        parsed,
        right,
        (
          entry,
          ap (λ v. (get env.checked_at d.session_id env.ip v.sessions).1) here
              ∙ (returned_value got ∙ there),
        ),
      )

  -- Its first frame admits the client.
  abbrev pub Admitted : World → Type 0
  Admitted w =
      (first : Frame) × (rest : Source) × (read_frame w.source initial_max_payload
        ≡ ok (first, rest))
      × (HelloAdmitted first (record w { source = rest })
          ⊎ ResumeAdmitted first (record w { source = rest }))

  greet_other-returned :
      (first : Frame) (w : World) (a : Agreed) (w' : World)
      → c.auth_token ≡ some expected
      → greet_other c env first w ≡ returned a w'
      → ResumeAdmitted first w
  unfolding greet_other
  greet_other-returned first w a w' token e =
      elim (if_handler (first.frame_type == frame_resume) (handle_resume_handshake c env first)
        (send_error err_invalid_request expected_hello >> fail (AftError.other Message.no_hello)) w
        (returned a w') e) [
          | inl (is_resume, done) ↦
              resume_handshake-returned first w a w' token ((==_iff _ _).0 is_resume) done
          | inr (neither, refused) ↦
              never_after (send_error err_invalid_request expected_hello w)
                (AftError.other Message.no_hello) a w' refused
        ]

  greet-returned :
      (first : Frame) (w : World) (a : Agreed) (w' : World)
      → c.auth_token ≡ some expected
      → greet c env first w ≡ returned a w'
      → HelloAdmitted first w ⊎ ResumeAdmitted first w
  unfolding greet
  greet-returned first w a w' token e =
      elim (if_handler (first.frame_type == frame_hello) (handle_hello_handshake c env first)
        (greet_other c env first) w (returned a w') e) [
          | inl (is_hello, done) ↦
              inl (hello_handshake-returned first w a w' token ((==_iff _ _).0 is_hello) done)
          | inr (no_hello, other) ↦ inr (greet_other-returned first w a w' token other)
        ]

  handshake-returned :
      (w : World) (a : Agreed) (w' : World)
      → c.auth_token ≡ some expected
      → handshake c env w ≡ returned a w'
      → Admitted w
  unfolding handshake
  handshake-returned w a w' token e =
      let (first, w1, e1, later) =
        after-returned (receive initial_max_payload w) (greet c env) a w' e in
      let (rest, got, moved) =
        received-returned (read_frame w.source initial_max_payload) w first w1 e1 in
      (
        first,
        rest,
        got,
        subst (λ v. HelloAdmitted first v ⊎ ResumeAdmitted first v) moved
            (greet-returned first w1 a w' token later),
      )

  -- On a server with an auth token, what the request handlers do has no influence on a connection
  -- whose client is not admitted: either the connection comes to the same with any other handlers,
  -- or its first frame is a HELLO, of the type 0x01, of a client that is not locked out and has given
  -- the token or the right answer to the challenge, or a RESUME, of the type 0x14, with the token,
  -- of a session that the store has for its address.
  pub handle_connection-Admitted :
      (h k : Handlers) (n : ℕ) (w : World)
      → c.auth_token ≡ some expected
      → (handle_connection c env h n w ≡ handle_connection c env k n w) ⊎ Admitted w
  unfolding handle_connection
  handle_connection-Admitted h k n w token = go (handshake c env w) refl
    where
      go :
          (o : Outcome Agreed)
          → handshake c env w ≡ o
          → (after (handshake c env w) (serve_requests c env h n)
              ≡ after (handshake c env w) (serve_requests c env k n))
            ⊎ Admitted w
      go (returned a w') known = inr (handshake-returned w a w' token known)
      go (raised f w') known = inl (
          ap (λ o. after o (serve_requests c env h n)) known
          ∙ sym (ap (λ o. after o (serve_requests c env k n)) known))
      go (panicked w') known = inl (
          ap (λ o. after o (serve_requests c env h n)) known
          ∙ sym (ap (λ o. after o (serve_requests c env k n)) known))
