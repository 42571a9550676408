-- ===== src/Frame/Assembler.antt =====
-- `FrameAssembler` of src/aftp/frame.rs: frames out of single reads. What the connection delivers is a
-- list of chunks; a read takes the front of the first one, as far as its buffer goes, and an empty
-- list is a closed connection.
use agentic_file_transfer.Base.{
  ℕ, zero, suc, ◌+◌, ◌-◌, List, [], ◌∷◌, ◌++◌, not, Option, none, some, length, take, drop, slice,
  get_or, replicate, le_value, leb, ltb, ◌==◌, bytes_eq, if◌then◌else◌, Result, ok, err, AftError,
  Message,
}
use agentic_file_transfer.Frame.Types.{FrameHeader, Frame, magic, version, header_size}

pub record FrameAssembler : Type 0 where
  pub header : List ℕ
  pub header_filled : ℕ
  pub parsed : Option FrameHeader
  pub payload : List ℕ
  pub payload_filled : ℕ

-- `FrameAssembler::new`
abbrev pub new_assembler : FrameAssembler
new_assembler = record {
  header = replicate 10 0;
  header_filled = 0;
  parsed = none;
  payload = [];
  payload_filled = 0;
}

-- `AsyncReadExt::read` into a buffer of `room` bytes.
unfoldable pub read : ℕ → List (List ℕ) → List ℕ × List (List ℕ)
read room [] = ([], [])
read room (c ∷ cs) = if leb (length c) room then (c, cs) else (take room c, drop room c ∷ cs)

-- What a read into `buf[at..]` leaves in the buffer.
unfoldable pub splice : List ℕ → ℕ → List ℕ → List ℕ
splice buf at got = take at buf ++ (got ++ drop (at + length got) buf)

-- The three checks on a complete header.
unfoldable pub parse_header : List ℕ → ℕ → Result FrameHeader
parse_header header max_payload =
    if not (bytes_eq (slice header 0 2) magic)
    then err (AftError.other Message.bad_magic)
    else if not (get_or header 2 0 == version)
    then err (AftError.other (Message.version_mismatch (get_or header 2 0)))
    else if ltb max_payload (le_value (slice header 6 4))
    then err (AftError.other (Message.payload_too_large (le_value (slice header 6 4)) max_payload))
    else ok (record {
      frame_type = get_or header 3 0;
      flags = get_or header 4 0;
      payload_len = le_value (slice header 6 4);
    })

-- A call returns the assembler, the connection, and `Ok(Some)`, `Ok(None)` or an error.
abbrev pub Outcome : Type 0
Outcome = FrameAssembler × List (List ℕ) × Result (Option Frame)

-- The end of `next_frame`: the assembler is idle again and hands out the frame.
unfoldable pub finish_frame : FrameHeader → FrameAssembler → List (List ℕ) → Outcome
finish_frame hdr a r = (
  record a { header_filled = 0; parsed = none; payload = [] },
  r,
  ok (some (record { frame_type = hdr.frame_type; flags = hdr.flags; payload = a.payload })),
)

-- Phase 2: the payload.
unfoldable pub payload_phase : FrameHeader → FrameAssembler → List (List ℕ) → Outcome
payload_phase hdr a r =
    let (got, r') = read (length a.payload - a.payload_filled) r in
    let a' : FrameAssembler = record a {
      payload = splice a.payload a.payload_filled got;
      payload_filled = a.payload_filled + length got;
    } in
    if ltb a.payload_filled hdr.payload_len
    then if length got == 0
      then (a, r', err (AftError.connection_failed Message.connection_closed))
      else if ltb a'.payload_filled hdr.payload_len
      then (a', r', ok none)
      else finish_frame hdr a' r'
    else finish_frame hdr a r

-- Phase 1: the header, and phase 2 behind it.
unfoldable pub header_phase : FrameAssembler → List (List ℕ) → ℕ → Outcome
header_phase a r max_payload =
    let (got, r') = read (length a.header - a.header_filled) r in
    let a' : FrameAssembler = record a {
      header = splice a.header a.header_filled got;
      header_filled = a.header_filled + length got;
    } in
    if length got == 0
    then (a, r', err (AftError.connection_failed Message.connection_closed))
    else if ltb a'.header_filled header_size
    then (a', r', ok none)
    else elim (parse_header a'.header max_payload) [
      | err e ↦ (a', r', err e)
      | ok hdr ↦
          payload_phase hdr
            (record a' {
              parsed = some hdr;
              payload = replicate hdr.payload_len 0;
              payload_filled = 0;
            })
            r'
    ]

-- Phase 1 is skipped once a header is parsed.
unfoldable pub next_phase : Option FrameHeader → FrameAssembler → List (List ℕ) → ℕ → Outcome
next_phase none a r max_payload = header_phase a r max_payload
next_phase (some hdr) a r max_payload = payload_phase hdr a r

unfoldable pub next_frame : FrameAssembler → List (List ℕ) → ℕ → Outcome
unfolding next_phase
next_frame a r max_payload = next_phase a.parsed a r max_payload

-- A caller that asks `next` again while more bytes are needed.
unfoldable pub ask_again : (FrameAssembler → List (List ℕ) → Outcome) → Outcome → Outcome
ask_again next (a, r, err e) = (a, r, err e)
ask_again next (a, r, ok none) = next a r
ask_again next (a, r, ok (some f)) = (a, r, ok (some f))

-- Up to `fuel` calls; out of fuel it stops with `Ok(None)`.
unfoldable pub assemble : ℕ → FrameAssembler → List (List ℕ) → ℕ → Outcome
unfolding ask_again
assemble zero a r max_payload = (a, r, ok none)
assemble (suc fuel) a r max_payload =
    ask_again (λ a' r'. assemble fuel a' r' max_payload) (next_frame a r max_payload)
