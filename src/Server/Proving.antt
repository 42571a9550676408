-- ===== src/Server/Proving.antt =====
-- Proofs on the handshake of src/aftp/server.rs.
use agentic_file_transfer.Base.{
  ℕ, ◌≡◌, refl, sym, ap, ◌∙◌, ◌⊎◌, inl, inr, List, Bool, true, false, not, Option, some, none, ◌==◌,
  if◌then◌else◌, Result, ok, err, AftError, bytes_eq, bytes_eq→eq,
}
use agentic_file_transfer.Frame.Types.{Frame}
use agentic_file_transfer.Frame.Io.{Source, read_frame}
use agentic_file_transfer.Frame.Constants.{
  frame_auth_response, frame_auth_challenge, err_auth_failed, initial_max_payload,
}
use agentic_file_transfer.Frame.Payload.Session.{
  HelloPayload, AuthResponsePayload, parse_auth_response, build_auth_challenge,
}
use agentic_file_transfer.Server.RateLimit.{is_locked_out, record_failure, clear}
use agentic_file_transfer.Server.Texts.{
  too_many_attempts, expected_auth_response, hmac_failed, invalid_token, rate_limited,
  auth_failed_text,
}
use agentic_file_transfer.Server.Effects.{
  World, Outcome, returned, raised, panicked, Handler, after, ◌>>=◌, ◌>>◌, pure, fail, lift, reply,
  receive, received, with_limiter,
}
use agentic_file_transfer.Server.Negotiation.{ServerConfig}
use agentic_file_transfer.Server.Handshake.{
  Surroundings, send_error, refuse, check_response, challenge_auth, token_auth, is_challenged,
  turn_away, prove, authenticate,
}

-- What a step that returns has gone through.
pub after-returned :
    {A B : Type 0} (o : Outcome A) (next : A → Handler B) (b : B) (w' : World)
    → after o next ≡ returned b w'
    → (a : A) × (w : World) × (o ≡ returned a w) × (next a w ≡ returned b w')
after-returned (returned a w) next b w' e = (a, w, refl, e)
after-returned (raised f w) next b w' e = cc e
after-returned (panicked w) next b w' e = cc e

pub returned_value : {A : Type 0} {a b : A} {w w' : World} → returned a w ≡ returned b w' → a ≡ b
returned_value e = cc e

pub returned_world : {A : Type 0} {a b : A} {w w' : World} → returned a w ≡ returned b w' → w ≡ w'
returned_world e = cc e

pub lift-returned :
    {A : Type 0} (r : Result A) (w : World) (a : A) (w' : World)
    → lift r w ≡ returned a w'
    → (r ≡ ok a) × (w ≡ w')
lift-returned (ok a) w b w' e = (cc e, cc e)
lift-returned (err f) w b w' e = cc e

pub received-returned :
    (r : Result (Frame × Source)) (w : World) (f : Frame) (w' : World)
    → received r w ≡ returned f w'
    → (rest : Source) × (r ≡ ok (f, rest)) × (w' ≡ record w { source = rest })
received-returned (ok (g, rest)) w f w' e =
    (rest, ap (λ x. ok (x, rest)) (returned_value e), sym (returned_world e))
received-returned (err g) w f w' e = cc e

abbrev pub end_of : {A : Type 0} → Outcome A → World
end_of (returned a w) = w
end_of (raised e w) = w
end_of (panicked w) = w

pub reply-returned :
    (t : ℕ) (o : Option (List ℕ)) (w : World) (u : Unit {0}) (w' : World)
    → reply t o w ≡ returned u w'
    → w'.source ≡ w.source
reply-returned t none w u w' e = cc e
reply-returned t (some p) w u w' e = ap (λ o. (end_of o).source) (sym e)

pub if_handler :
    {A : Type 0} (b : Bool) (f g : Handler A) (w : World) (o : Outcome A)
    → (if b then f else g) w ≡ o
    → ((b ≡ true) × (f w ≡ o)) ⊎ ((b ≡ false) × (g w ≡ o))
if_handler true f g w o e = inl (refl, e)
if_handler false f g w o e = inr (refl, e)

pub never_after :
    {A B C : Type 0} (o : Outcome A) (failure : AftError) (b : B) (w' : World)
    → after o (λ x. fail failure) ≡ returned b w'
    → C
never_after (returned a w) failure b w' e = cc e
never_after (raised f w) failure b w' e = cc e
never_after (panicked w) failure b w' e = cc e

module _ (c : ServerConfig) (env : Surroundings) where
  -- The right token, or the right answer to the challenge in the frame that came behind the HELLO.
  abbrev pub Proven : List ℕ → HelloPayload → Source → Type 0
  Proven expected hello source =
      (hello.auth_token ≡ expected)
      ⊎ ((resp : Frame) × (rest : Source) × (d : AuthResponsePayload) × (read_frame source
              initial_max_payload
            ≡ ok (resp, rest))
          × (parse_auth_response resp.payload ≡ ok d)
          × (env.verify_hmac expected env.nonce d.hmac ≡ true))

  refuse_never :
      {B : Type 0} (m : List ℕ) (w : World) (u : Unit {0}) (w' : World)
      → refuse c env m w ≡ returned u w'
      → B
  unfolding refuse
  refuse_never m w u w' e =
      let recorded = with_limiter (λ l. (record_failure env.failed_at env.ip l, tt)) w in
      let failing : Handler (Unit {0}) = fail (AftError.auth_failed auth_failed_text) in
      let (done, w1, e1, later) =
        after-returned recorded (λ x. send_error err_auth_failed m >> failing) u w' e in
      never_after (send_error err_auth_failed m w1) (AftError.auth_failed auth_failed_text) u w'
        later

  token_auth-returned :
      (expected token : List ℕ) (w : World) (u : Unit {0}) (w' : World)
      → token_auth c env expected token w ≡ returned u w'
      → token ≡ expected
  unfolding token_auth
  token_auth-returned expected token w u w' e =
      elim (if_handler (bytes_eq token expected) (pure tt) (refuse c env invalid_token) w
        (returned u w') e) [
          | inl (same, passed) ↦ bytes_eq→eq token expected same
          | inr (other, refused) ↦ refuse_never invalid_token w u w' refused
        ]

  check_response-returned :
      (expected : List ℕ) (resp : Frame) (w : World) (u : Unit {0}) (w' : World)
      → check_response c env expected resp w ≡ returned u w'
      → (d : AuthResponsePayload) × (parse_auth_response resp.payload ≡ ok d)
        × (env.verify_hmac expected env.nonce d.hmac ≡ true)
  unfolding check_response
  check_response-returned expected resp w u w' e =
      let decide = λ (d : AuthResponsePayload).
        if env.verify_hmac expected env.nonce d.hmac then pure tt else refuse c env hmac_failed in
      elim (if_handler (not (resp.frame_type == frame_auth_response))
        (refuse c env expected_auth_response) (lift (parse_auth_response resp.payload) >>= decide) w
        (returned u w') e) [
          | inl (wrong, refused) ↦ refuse_never expected_auth_response w u w' refused
          | inr (right, answered) ↦
              let (d, w1, e1, decided) =
                after-returned (lift (parse_auth_response resp.payload) w) decide u w' answered in
              let (parsed, same) = lift-returned (parse_auth_response resp.payload) w d w1 e1 in
              elim (if_handler (env.verify_hmac expected env.nonce d.hmac) (pure tt)
                (refuse c env hmac_failed) w1 (returned u w') decided) [
                  | inl (verified, passed) ↦ (d, parsed, verified)
                  | inr (forged, refused) ↦ refuse_never hmac_failed w1 u w' refused
                ]
        ]

  challenge_auth-returned :
      (expected : List ℕ) (hello : HelloPayload) (w : World) (u : Unit {0}) (w' : World)
      → challenge_auth c env expected w ≡ returned u w'
      → Proven expected hello w.source
  unfolding challenge_auth
  challenge_auth-returned expected hello w u w' e =
      let sent = reply frame_auth_challenge (build_auth_challenge env.nonce) w in
      let (done, w1, e1, later) =
        after-returned sent (λ x. receive initial_max_payload >>= check_response c env expected) u
          w' e in
      let (resp, w2, e2, checked) =
        after-returned (receive initial_max_payload w1) (check_response c env expected) u w'
          later in
      let (rest, got, moved) =
        received-returned (read_frame w1.source initial_max_payload) w1 resp w2 e2 in
      let here =
        reply-returned frame_auth_challenge (build_auth_challenge env.nonce) w done w1 e1 in
      let (d, parsed, verified) = check_response-returned expected resp w2 u w' checked in
      inr (
        resp,
        rest,
        d,
        ap (λ r. read_frame r initial_max_payload) (sym here) ∙ got,
        parsed,
        verified,
      )

  prove-returned :
      (expected : List ℕ) (hello : HelloPayload) (w : World) (u : Unit {0}) (w' : World)
      → prove c env expected hello w ≡ returned u w'
      → Proven expected hello w.source
  unfolding prove
  prove-returned expected hello w u w' e =
      elim (if_handler (is_challenged c env hello) (challenge_auth c env expected)
        (token_auth c env expected hello.auth_token) w (returned u w') e) [
          | inl (challenged, proved) ↦ challenge_auth-returned expected hello w u w' proved
          | inr (simple, proved) ↦ inl (token_auth-returned expected hello.auth_token w u w' proved)
        ]

  turn_away_never :
      {B : Type 0} (w : World) (u : Unit {0}) (w' : World) → turn_away c env w ≡ returned u w' → B
  unfolding turn_away
  turn_away_never w u w' e =
      never_after (send_error err_auth_failed too_many_attempts w)
        (AftError.permission_denied rate_limited) u w' e

  -- Authentication succeeds only for an address that is not locked out and a client that has proved
  -- that it knows the token.
  pub authenticate-returned :
      (expected : List ℕ) (hello : HelloPayload) (w : World) (b : Bool) (w' : World)
      → authenticate c env (some expected) hello w ≡ returned b w'
      → (b ≡ true)
        × ((is_locked_out env.checked_at env.ip w.limiter).1 ≡ false)
        × Proven expected hello w.source
  unfolding authenticate
  authenticate-returned expected hello w b w' e =
      let (l, locked) = is_locked_out env.checked_at env.ip w.limiter in
      let w1 = record w { limiter = l } in
      let finish = λ (x : Unit {0}). with_limiter (λ k. (clear env.ip k, tt)) >> pure true in
      let (u, w2, passed, finished) =
        after-returned ((if locked then turn_away c env else prove c env expected hello) w1) finish
          b w' e in
      elim (if_handler locked (turn_away c env) (prove c env expected hello) w1 (returned u w2)
        passed) [
          | inl (out, away) ↦ turn_away_never w1 u w2 away
          | inr (free, proved) ↦
              (sym (returned_value finished), free, prove-returned expected hello w1 u w2 proved)
        ]
