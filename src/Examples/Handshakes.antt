-- ===== src/Examples/Handshakes.antt =====
-- The handshakes of src/aftp/server.rs on concrete frames.
use agentic_file_transfer.Base.{
  ok, ℕ, ◌≡◌, ◌⊎◌, refl, List, [], ◌∷◌, ◌&&◌, ◌||◌, true, false, Option, some, none, AftError,
}
use agentic_file_transfer.Frame.Types.{Frame, new_frame}
use agentic_file_transfer.Frame.Constants.{frame_hello, frame_resume, cap_fec, cap_fec_quic}
use agentic_file_transfer.Frame.Io.{Ending, read_frame}
use agentic_file_transfer.Frame.Wire.{get_u32, get_str, get_u16}
use agentic_file_transfer.Frame.Utf8.{from_utf8_lossy}
use agentic_file_transfer.Base.Table.{lookup}
use agentic_file_transfer.Frame.Exchange.{wire}
use agentic_file_transfer.Server.RateLimit.{new_limiter}
use agentic_file_transfer.Server.Effects.{World, Outcome, returned, pure, fail}
use agentic_file_transfer.Server.Negotiation.{ServerConfig, has, negotiate}
use agentic_file_transfer.Server.Handshake.{Surroundings, Agreed, handle_resume_handshake}
use agentic_file_transfer.Server.Connection.{Handlers, handshake, handle_connection}
use agentic_file_transfer.Server.Agreeing.{negotiate-has}
use agentic_file_transfer.Server.Proving.{end_of}
use agentic_file_transfer.Server.Admission.{Admitted, handle_connection-Admitted}
use agentic_file_transfer.Server.Rooted.{
  Components, FileTree, trim_slashes, replace_backslashes, is_below, join, safe_path,
}
use agentic_file_transfer.Server.Enclosed.{Encloses, safe_path-Encloses}
use agentic_file_transfer.Server.Unlimited.{resume_handshake-limiter}

-- A server whose token is "ab", which asks for no challenge.
abbrev guarded : ServerConfig
guarded = record {
  auth_token = some (97 ∷ 98 ∷ []);
  auth_challenge = false;
  compression = false;
  max_frame_size = 1000;
  fec = true;
  fec_allow_unauthenticated = false;
}

abbrev around : Surroundings
around = record {
  ip = 5;
  checked_at = 10;
  failed_at = 11;
  created_at = 12;
  nonce = 1 ∷ 2 ∷ [];
  fresh_id = 49 ∷ 50 ∷ [];
  verify_hmac = λ key message tag. false;
}

-- A HELLO with compression and the data plane, and a token.
abbrev hello_with : List ℕ → Frame
hello_with token = new_frame frame_hello (0x41 ∷ 0 ∷ 0 ∷ 0 ∷ 2 ∷ 0 ∷ token)

abbrev world_of : Frame → World
world_of first = record {
  limiter = new_limiter;
  sessions = [];
  source = record { bytes = wire first; ending = Ending.closed };
  written = [];
}

abbrev silent : Handlers
silent = record {
  handle_get = λ a f. pure tt;
  handle_head = λ f. pure tt;
  handle_put = λ a f. pure tt;
  handle_list = λ f. pure tt;
}

-- Handlers that fail at once.
abbrev failing : Handlers
failing = record {
  handle_get = λ a f. fail AftError.resume_not_supported;
  handle_head = λ f. fail AftError.resume_not_supported;
  handle_put = λ a f. fail AftError.resume_not_supported;
  handle_list = λ f. fail AftError.resume_not_supported;
}

negotiate-has_example :
    (has cap_fec (negotiate guarded 0x41) ≡ (has cap_fec 0x41 && (true && (true || false))))
    × (has cap_fec_quic (negotiate guarded 0x41)
        ≡ (has cap_fec_quic 0x41 && has cap_fec (negotiate guarded 0x41)))
negotiate-has_example = negotiate-has guarded 0x41

handle_connection-Admitted_example :
    (handle_connection guarded around silent 3 (world_of (hello_with (97 ∷ 98 ∷ [])))
      ≡ handle_connection guarded around failing 3 (world_of (hello_with (97 ∷ 98 ∷ []))))
    ⊎ Admitted guarded around (97 ∷ 98 ∷ []) (world_of (hello_with (97 ∷ 98 ∷ [])))
handle_connection-Admitted_example =
    handle_connection-Admitted guarded around (97 ∷ 98 ∷ []) silent failing 3
      (world_of (hello_with (97 ∷ 98 ∷ []))) refl

resume_handshake-limiter_example :
    (end_of (
      handle_resume_handshake guarded around
        (new_frame frame_resume [])
        (world_of (new_frame frame_resume [])))).limiter
    ≡ new_limiter
resume_handshake-limiter_example =
    resume_handshake-limiter guarded around (new_frame frame_resume [])
      (world_of (new_frame frame_resume []))

abbrev agreed_with : Agreed
agreed_with = record {
  use_compression = false;
  use_crc32 = true;
  max_payload = 2024;
  session_id = 49 ∷ 50 ∷ [];
  use_fec = true;
  use_fec_quic = false;
}

abbrev outcome_of : {A : Type 0} → Outcome A → Option A
outcome_of (returned a w) = some a
outcome_of _ = none

right_token :
    outcome_of (handshake guarded around (world_of (hello_with (97 ∷ 98 ∷ [])))) ≡ some agreed_with
unfolding handshake read_frame get_u32 get_str get_u16 lookup from_utf8_lossy
right_token = refl

wrong_token : outcome_of (handshake guarded around (world_of (hello_with (97 ∷ 99 ∷ [])))) ≡ none
unfolding handshake read_frame get_u32 get_str get_u16 lookup from_utf8_lossy
wrong_token = refl

-- A root `/srv`, below which nothing exists yet, without symbolic links.
abbrev srv : Components
srv = (115 ∷ 114 ∷ 118 ∷ []) ∷ []

abbrev bare : FileTree
bare = record { is_there = λ p. is_below p srv; canonicalize = λ p. ok p }

-- `/a\b`
abbrev asked : List ℕ
asked = 47 ∷ 97 ∷ 92 ∷ 98 ∷ []

abbrev placed : Components
placed = (115 ∷ 114 ∷ 118 ∷ []) ∷ (97 ∷ []) ∷ (98 ∷ []) ∷ []

asked_resolved : safe_path bare srv asked ≡ ok placed
unfolding safe_path
asked_resolved = refl

safe_path-Encloses_example :
    Encloses bare srv (join srv (replace_backslashes (trim_slashes asked))) placed
safe_path-Encloses_example =
    safe_path-Encloses bare srv asked placed ((λ e. cc e), tt) asked_resolved
