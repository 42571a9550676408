-- ===== src/Examples/Frames.antt =====
-- Frames of src/aftp/frame.rs on concrete bytes.
use agentic_file_transfer.Base.{ℕ, ◌+◌, ◌*◌, ◌≤◌, ◌≡◌, refl, List, [], ◌∷◌, ◌++◌, arith, length, ok}
use agentic_file_transfer.Frame.Types.{Frame}
use agentic_file_transfer.Frame.Io.{Source, Ending, read_frame, write_frame}
use agentic_file_transfer.Frame.Exchange.{wire, read_frame-write_frame, read_frame_takes}
use agentic_file_transfer.Frame.Assembler.{new_assembler, assemble}
use agentic_file_transfer.Frame.Assembly.Reads.{IsOpen}
use agentic_file_transfer.Frame.Assembly.Progress.{IsIdle}
use agentic_file_transfer.Frame.Assembly.Delivery.{Delivers, assemble-wire}

abbrev data_frame : Frame
data_frame = record { frame_type = 5; flags = 1; payload = 10 ∷ 20 ∷ 30 ∷ [] }

-- The frame in four reads, the last of which goes beyond it.
abbrev cuts : List (List ℕ)
cuts =
    (0xAF ∷ [])
    ∷ (0x54 ∷ 1 ∷ 5 ∷ 1 ∷ 0 ∷ 3 ∷ 0 ∷ [])
    ∷ (0 ∷ 0 ∷ 10 ∷ [])
    ∷ (20 ∷ 30 ∷ 0xAF ∷ 0x54 ∷ [])
    ∷ []

new_assembler-IsIdle : IsIdle new_assembler
new_assembler-IsIdle = record { header_len = refl; nothing_parsed = refl; nothing_filled = refl }

cuts-IsOpen : IsOpen cuts
cuts-IsOpen = (omega arith, (omega arith, (omega arith, (omega arith, tt))))

assemble-wire_example :
    Delivers data_frame
      (0xAF ∷ 0x54 ∷ [])
      (assemble (length (wire data_frame) + 1) new_assembler cuts 100)
assemble-wire_example =
    assemble-wire data_frame (0xAF ∷ 0x54 ∷ []) 100 new_assembler cuts (omega arith) (omega arith)
      new_assembler-IsIdle cuts-IsOpen refl

abbrev two_frames : Source
two_frames = record { bytes = wire data_frame ++ (0xAF ∷ []); ending = Ending.closed }

read_frame-write_frame_example :
    read_frame
      (record { bytes = write_frame [] data_frame ++ (0xAF ∷ []); ending = Ending.closed })
      3
    ≡ ok (data_frame, record { bytes = 0xAF ∷ []; ending = Ending.closed })
read_frame-write_frame_example =
    read_frame-write_frame data_frame (0xAF ∷ []) Ending.closed 3 (omega arith) (omega arith)

two_frames_read :
    read_frame two_frames 100
    ≡ ok (data_frame, record { bytes = 0xAF ∷ []; ending = Ending.closed })
unfolding read_frame
two_frames_read = refl

read_frame_takes_example :
    (reserved b0 b1 b2 b3 : ℕ) × (two_frames.bytes
      ≡ 0xAF
        ∷ 0x54
        ∷ 1
        ∷ 5
        ∷ 1
        ∷ reserved
        ∷ b0
        ∷ b1
        ∷ b2
        ∷ b3
        ∷ (data_frame.payload ++ (0xAF ∷ [])))
    × (length data_frame.payload ≡ b0 + 256 * b1 + 65_536 * b2 + 16_777_216 * b3)
    × (3 ≤ 100)
read_frame_takes_example =
    read_frame_takes two_frames 100 data_frame
      (record { bytes = 0xAF ∷ []; ending = Ending.closed }) two_frames_read
