-- ===== src/Server/Connection.antt =====
-- `handle_connection` of src/aftp/server.rs. The handlers of the requests are parameters.
use agentic_file_transfer.Base.{
  ℕ, zero, suc, ◌/◌, ◌%◌, ◌+◌, List, [], ◌∷◌, ◌++◌, ltb, ◌==◌, if◌then◌else◌, Result, ok, err,
  AftError, Message,
}
use agentic_file_transfer.Frame.Types.{Frame}
use agentic_file_transfer.Frame.Io.{Source, read_frame}
use agentic_file_transfer.Frame.Constants.{
  frame_hello, frame_get, frame_head, frame_put, frame_list, frame_ping, frame_pong, frame_resume,
  err_invalid_request, initial_max_payload,
}
use agentic_file_transfer.Base.{some}
use agentic_file_transfer.Server.Texts.{expected_hello, unknown_frame_type}
use agentic_file_transfer.Server.Effects.{
  returned, raised, Handler, ◌>>=◌, ◌>>◌, fail, reply, receive,
}
use agentic_file_transfer.Server.Negotiation.{ServerConfig}
use agentic_file_transfer.Server.Handshake.{
  Surroundings, Agreed, send_error, handle_hello_handshake, handle_resume_handshake,
}

-- `handle_get`, `handle_head`, `handle_put` and `handle_list`.
pub record Handlers : Type 0 where
  pub handle_get : Agreed → Frame → Handler (Unit {0})
  pub handle_head : Frame → Handler (Unit {0})
  pub handle_put : Agreed → Frame → Handler (Unit {0})
  pub handle_list : Frame → Handler (Unit {0})

abbrev pub hex_digit : ℕ → ℕ
hex_digit d = if ltb d 10 then 48 + d else 87 + d

-- `{:02x}`
abbrev pub hex2 : ℕ → List ℕ
hex2 b = hex_digit (b / 16 % 16) ∷ hex_digit (b % 16) ∷ []

module _ (c : ServerConfig) (env : Surroundings) where
  -- A first frame that is no HELLO.
  unfoldable pub greet_other : Frame → Handler Agreed
  unfolding handle_resume_handshake send_error
  greet_other first =
      if first.frame_type == frame_resume
      then handle_resume_handshake c env first
      else (send_error err_invalid_request expected_hello >> fail (AftError.other Message.no_hello))

  unfoldable pub greet : Frame → Handler Agreed
  unfolding handle_hello_handshake greet_other
  greet first =
      if first.frame_type == frame_hello
      then handle_hello_handshake c env first
      else greet_other first

  unfoldable pub handshake : Handler Agreed
  unfolding greet
  handshake = receive initial_max_payload >>= greet

  module _ (h : Handlers) where
    unfoldable pub dispatch : Agreed → Frame → Handler (Unit {0})
    unfolding send_error
    dispatch a frame =
        if frame.frame_type == frame_get
        then h.handle_get a frame
        else if frame.frame_type == frame_head
        then h.handle_head frame
        else if frame.frame_type == frame_put
        then h.handle_put a frame
        else if frame.frame_type == frame_list
        then h.handle_list frame
        else if frame.frame_type == frame_ping
        then reply frame_pong (some [])
        else send_error err_invalid_request (unknown_frame_type ++ hex2 frame.frame_type)

    -- How the loop goes on after a read.
    unfoldable pub on_request :
        Agreed → (Frame → Handler (Unit {0})) → Result (Frame × Source) → Handler (Unit {0})
    on_request a next (err (AftError.connection_failed message)) w = returned tt w
    on_request a next (err e) w = raised e w
    on_request a next (ok (frame, rest)) w = next frame (record w { source = rest })

    -- The request loop, for `n` frames at most before the idle timeout ends it.
    unfoldable pub serve_requests : ℕ → Agreed → Handler (Unit {0})
    unfolding dispatch on_request read_frame
    serve_requests zero a w = returned tt w
    serve_requests (suc n) a w =
        on_request a (λ frame. dispatch a frame >> serve_requests n a)
          (read_frame w.source a.max_payload) w

    unfoldable pub handle_connection : ℕ → Handler (Unit {0})
    unfolding handshake serve_requests
    handle_connection n = handshake >>= serve_requests n
