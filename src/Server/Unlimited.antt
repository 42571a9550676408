-- ===== src/Server/Unlimited.antt =====
-- Proofs on the limiter in the RESUME handshake of src/aftp/server.rs.
use agentic_file_transfer.Base.{
  ℕ, ◌≡◌, refl, ◌∙◌, List, [], Bool, true, false, Option, some, none, if◌then◌else◌, Result, ok,
  err, AftError, Message,
}
use agentic_file_transfer.Frame.Types.{Frame}
use agentic_file_transfer.Frame.Constants.{frame_resume_ack}
use agentic_file_transfer.Frame.Payload.Session.{ResumePayload, parse_resume, build_resume_ack}
use agentic_file_transfer.Server.Sessions.{SessionEntry, get}
use agentic_file_transfer.Server.Texts.{invalid_token_on_resume}
use agentic_file_transfer.Server.Effects.{
  World, Outcome, returned, raised, panicked, Handler, after, ◌>>=◌, ◌>>◌, pure, fail, lift, reply,
  with_sessions,
}
use agentic_file_transfer.Server.Negotiation.{ServerConfig}
use agentic_file_transfer.Server.Handshake.{
  Surroundings, Agreed, refuse_resume, resume_allowed, check_token, resumption, resumed,
  handle_resume_handshake,
}
use agentic_file_transfer.Server.Proving.{end_of}

-- The step leaves the limiter as it is, however it ends.
abbrev KeepsLimiter : {A : Type 0} → Handler A → Type 0
KeepsLimiter step = (w : World) → (end_of (step w)).limiter ≡ w.limiter

>>=-KeepsLimiter :
    {A B : Type 0} (step : Handler A) (next : A → Handler B)
    → KeepsLimiter step
    → ((a : A) → KeepsLimiter (next a))
    → KeepsLimiter (step >>= next)
>>=-KeepsLimiter {A = A} step next k h w = go (step w) (k w)
  where
    go :
        (o : Outcome A)
        → (end_of o).limiter ≡ w.limiter
        → (end_of (after o next)).limiter ≡ w.limiter
    go (returned a v) same = h a v ∙ same
    go (raised e v) same = same
    go (panicked v) same = same

lift-KeepsLimiter : {A : Type 0} (r : Result A) → KeepsLimiter (lift r)
lift-KeepsLimiter (ok a) w = refl
lift-KeepsLimiter (err e) w = refl

reply-KeepsLimiter : (t : ℕ) (o : Option (List ℕ)) → KeepsLimiter (reply t o)
reply-KeepsLimiter t none w = refl
reply-KeepsLimiter t (some p) w = refl

if-KeepsLimiter :
    {A : Type 0} (b : Bool) (f g : Handler A)
    → KeepsLimiter f
    → KeepsLimiter g
    → KeepsLimiter (if b then f else g)
if-KeepsLimiter true f g k h = k
if-KeepsLimiter false f g k h = h

module _ (c : ServerConfig) (env : Surroundings) where
  refuse_resume-KeepsLimiter :
      (A : Type 0) (failure : AftError) → KeepsLimiter {A = A} (refuse_resume c env failure)
  unfolding refuse_resume
  refuse_resume-KeepsLimiter A failure =
      >>=-KeepsLimiter {B = A} (reply frame_resume_ack (build_resume_ack false 0 []))
        (λ x. fail failure) (reply-KeepsLimiter frame_resume_ack (build_resume_ack false 0 []))
        (λ x w. refl)

  check_token-KeepsLimiter : (d : ResumePayload) → KeepsLimiter (check_token c env d)
  unfolding check_token
  check_token-KeepsLimiter d =
      if-KeepsLimiter (resume_allowed c env c.auth_token d.auth_token) (pure tt)
        (refuse_resume c env (AftError.auth_failed invalid_token_on_resume)) (λ w. refl)
        (refuse_resume-KeepsLimiter (Unit {0}) (AftError.auth_failed invalid_token_on_resume))

  resumed-KeepsLimiter :
      (d : ResumePayload) (o : Option SessionEntry) → KeepsLimiter (resumed c env d o)
  unfolding resumed
  resumed-KeepsLimiter d none =
      refuse_resume-KeepsLimiter Agreed (AftError.other Message.session_not_found)
  resumed-KeepsLimiter d (some entry) =
      let ack = build_resume_ack true entry.bytes_received entry.path in
      >>=-KeepsLimiter (reply frame_resume_ack ack) (λ x. pure (resumption c env d))
        (reply-KeepsLimiter frame_resume_ack ack) (λ x w. refl)

  find-KeepsLimiter :
      (d : ResumePayload)
      → KeepsLimiter (with_sessions (get env.checked_at d.session_id env.ip) >>= resumed c env d)
  find-KeepsLimiter d =
      >>=-KeepsLimiter (with_sessions (get env.checked_at d.session_id env.ip)) (resumed c env d)
        (λ w. refl) (resumed-KeepsLimiter d)

  -- However a RESUME ends, with a wrong token, an unknown session, success or a malformed frame,
  -- and whether the address is locked out or not: the limiter is as it was before.
  pub resume_handshake-limiter :
      (first : Frame) (w : World)
      → (end_of (handle_resume_handshake c env first w)).limiter ≡ w.limiter
  unfolding handle_resume_handshake
  resume_handshake-limiter first =
      let find = λ (d : ResumePayload).
        with_sessions (get env.checked_at d.session_id env.ip) >>= resumed c env d in
      >>=-KeepsLimiter (lift (parse_resume first.payload)) (λ d. check_token c env d >> find d)
        (lift-KeepsLimiter (parse_resume first.payload))
        (λ d.
          >>=-KeepsLimiter (check_token c env d) (λ x. find d) (check_token-KeepsLimiter d)
            (λ x. find-KeepsLimiter d))
