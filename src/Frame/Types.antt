-- ===== src/Frame/Types.antt =====
-- The wire constants and the frame types of src/aftp/frame.rs.
use agentic_file_transfer.Base.{ℕ, List, [], ◌∷◌}

abbrev pub magic : List ℕ
magic = 0xAF ∷ 0x54 ∷ []

abbrev pub version : ℕ
version = 1

abbrev pub header_size : ℕ
header_size = 10

pub record FrameHeader : Type 0 where
  pub frame_type : ℕ
  pub flags : ℕ
  pub payload_len : ℕ

pub record Frame : Type 0 where
  pub frame_type : ℕ
  pub flags : ℕ
  pub payload : List ℕ

-- `Frame::new`
abbrev pub new_frame : ℕ → List ℕ → Frame
new_frame frame_type payload = record { frame_type = frame_type; flags = 0; payload = payload }

-- `Frame::with_flags`
abbrev pub frame_with_flags : ℕ → ℕ → List ℕ → Frame
frame_with_flags frame_type flags payload = record {
  frame_type = frame_type;
  flags = flags;
  payload = payload;
}

-- `Frame::empty`
abbrev pub empty_frame : ℕ → Frame
empty_frame frame_type = record { frame_type = frame_type; flags = 0; payload = [] }
