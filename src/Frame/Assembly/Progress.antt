-- ===== src/Frame/Assembly/Progress.antt =====
-- The payload phase of `next_frame` in src/aftp/frame.rs.
use agentic_file_transfer.Base.{
  ℕ, ◌+◌, ◌-◌, ◌≤◌, ◌<◌, ◌≡◌, refl, sym, ap, ◌∙◌, List, [], ◌∷◌, ◌++◌, some, none, arith,
  append_assoc, append-nil, length, take, ltb, ok, if◌then◌else◌, length-append, length-take,
  take_all, lt→ltb, ge→ltb, ne→==,
}
use agentic_file_transfer.Frame.Types.{FrameHeader, Frame}
use agentic_file_transfer.Frame.Assembler.{
  FrameAssembler, read, splice, finish_frame, payload_phase, Outcome,
}
use agentic_file_transfer.Frame.Exchange.{header_of}
use agentic_file_transfer.Frame.Assembly.Reads.{
  flatten, IsOpen, read-Got, take-splice, length-splice,
}

abbrev pub hdr_of : Frame → FrameHeader
hdr_of f = record { frame_type = f.frame_type; flags = f.flags; payload_len = length f.payload }

-- Between two frames.
pub record IsIdle (a : FrameAssembler) : Type 0 where
  pub header_len : length a.header ≡ 10
  pub nothing_parsed : a.parsed ≡ none
  pub nothing_filled : a.header_filled ≡ 0

-- Within the payload of `f`: `w` is still to come, and `rest` behind it.
pub record InPayload (f : Frame) (rest : List ℕ) (a : FrameAssembler) (cs : List (List ℕ))
    (w : List ℕ) : Type 0 where
  pub header_len : length a.header ≡ 10
  pub payload_len : length a.payload ≡ length f.payload
  pub filled_le : a.payload_filled ≤ length f.payload
  pub filled : take a.payload_filled a.payload ++ w ≡ f.payload
  pub coming : flatten cs ≡ w ++ rest
  pub open_ : IsOpen cs

-- Within the header.
pub record InHeader (f : Frame) (rest : List ℕ) (a : FrameAssembler) (cs : List (List ℕ))
    (w : List ℕ) : Type 0 where
  pub header_len : length a.header ≡ 10
  pub nothing_parsed : a.parsed ≡ none
  pub filled_le : a.header_filled ≤ 10
  pub filled : take a.header_filled a.header ++ w ≡ header_of f
  pub coming : flatten cs ≡ w ++ (f.payload ++ rest)
  pub open_ : IsOpen cs

-- What a call may have come to when fewer than `n` bytes of the frame are still to come.
pub data Progress (f : Frame) (rest : List ℕ) (n : ℕ) : Outcome → Type 0 where
  finished :
      {a : FrameAssembler} {cs : List (List ℕ)}
      → IsIdle a
      → IsOpen cs
      → flatten cs ≡ rest
      → Progress f rest n (a, cs, ok (some f))
  in_payload :
      {a : FrameAssembler} {cs : List (List ℕ)} (w : List ℕ)
      → a.parsed ≡ some (hdr_of f)
      → InPayload f rest a cs w
      → length w < n
      → Progress f rest n (a, cs, ok none)
  in_header :
      {a : FrameAssembler} {cs : List (List ℕ)} (w : List ℕ)
      → InHeader f rest a cs w
      → 1 ≤ length w
      → length w + length f.payload < n
      → Progress f rest n (a, cs, ok none)

-- The part of a list that is filled, when it is all of it.
pub take_full : (n : ℕ) (xs : List ℕ) → n ≡ length xs → take n xs ≡ xs
take_full n xs e = ap (λ k. take k xs) e ∙ take_all xs

pub length-parts :
    (n : ℕ) (xs w ys : List ℕ) → take n xs ++ w ≡ ys → n ≤ length xs → n + length w ≡ length ys
length-parts n xs w ys e h =
    omega (arith, ap length e, length-append (take n xs) w, length-take n xs)

-- What a read adds to the filled part.
pub filled_more :
    (buf got w w' all : List ℕ) (at : ℕ)
    → at + length got ≤ length buf
    → take at buf ++ w ≡ all
    → w ≡ got ++ w'
    → take (at + length got) (splice buf at got) ++ w' ≡ all
filled_more buf got w w' all at h e s =
    ap (λ t. t ++ w') (take-splice buf got at h)
    ∙ append_assoc (take at buf) got w'
    ∙ ap (λ t. take at buf ++ t) (sym s)
    ∙ e

pub finish_payload :
    (f : Frame) (rest : List ℕ) (n : ℕ) (a : FrameAssembler) (cs : List (List ℕ))
    → InPayload f rest a cs []
    → Progress f rest n (finish_frame (hdr_of f) a cs)
unfolding finish_frame
finish_payload f rest n a cs p =
    let full =
      length-parts a.payload_filled a.payload [] f.payload p.filled
        (omega (arith, p.payload_len, p.filled_le)) in
    let same : a.payload ≡ f.payload =
      sym (take_full a.payload_filled a.payload (omega (arith, p.payload_len)))
      ∙ sym (append-nil (take a.payload_filled a.payload))
      ∙ p.filled in
    rw same (
      finished (record { header_len = p.header_len; nothing_parsed = refl; nothing_filled = refl })
        p.open_ p.coming)

-- Behind a read: a frame if nothing is left to come, else a state within the payload.
pub payload_rest :
    (f : Frame) (rest : List ℕ) (a : FrameAssembler) (cs : List (List ℕ)) (w : List ℕ)
    → a.parsed ≡ some (hdr_of f)
    → InPayload f rest a cs w
    → (n : ℕ) → length w < n
    → Progress f rest n (
        if ltb a.payload_filled (length f.payload)
        then (a, cs, ok none)
        else finish_frame (hdr_of f) a cs)
payload_rest f rest a cs [] parsed p n h =
    let full =
      length-parts a.payload_filled a.payload [] f.payload p.filled
        (omega (arith, p.payload_len, p.filled_le)) in
    rw (ge→ltb a.payload_filled (length f.payload) (omega arith)) (finish_payload f rest n a cs p)
payload_rest f rest a cs (v ∷ w) parsed p n h =
    let full =
      length-parts a.payload_filled a.payload (v ∷ w) f.payload p.filled
        (omega (arith, p.payload_len, p.filled_le)) in
    rw (lt→ltb a.payload_filled (length f.payload) (omega arith)) (in_payload (v ∷ w) parsed p h)

pub payload_phase-Progress :
    (f : Frame) (rest : List ℕ) (a : FrameAssembler) (cs : List (List ℕ)) (w : List ℕ)
    → a.parsed ≡ some (hdr_of f)
    → InPayload f rest a cs w
    → Progress f rest (length w) (payload_phase (hdr_of f) a cs)
unfolding payload_phase
payload_phase-Progress f rest a cs [] parsed p =
    let full =
      length-parts a.payload_filled a.payload [] f.payload p.filled
        (omega (arith, p.payload_len, p.filled_le)) in
    rw (ge→ltb a.payload_filled (length f.payload) (omega arith)) (finish_payload f rest 0 a cs p)
payload_phase-Progress f rest a cs (v ∷ w) parsed p =
    let full =
      length-parts a.payload_filled a.payload (v ∷ w) f.payload p.filled
        (omega (arith, p.payload_len, p.filled_le)) in
    let room = length a.payload - a.payload_filled in
    let (w', g) =
      read-Got room cs (v ∷ w) rest (omega (arith, p.payload_len)) (omega (arith, p.payload_len))
        p.open_ p.coming in
    let got = (read room cs).0 in
    let fits : a.payload_filled + length got ≤ length a.payload =
      omega (arith, g.room_kept, p.payload_len, p.filled_le) in
    let a' : FrameAssembler = record a {
      payload = splice a.payload a.payload_filled got;
      payload_filled = a.payload_filled + length got;
    } in
    let p' : InPayload f rest a' (read room cs).1 w' = record {
      header_len = p.header_len;
      payload_len = length-splice a.payload got a.payload_filled fits ∙ p.payload_len;
      filled_le = omega (arith, p.payload_len);
      filled =
          filled_more a.payload got (v ∷ w) w' f.payload a.payload_filled fits p.filled g.split;
      coming = g.left;
      open_ = g.still_open;
    } in
    let less : length (v ∷ w) ≡ length got + length w' = ap length g.split ∙ length-append got w' in
    rw
      (
        lt→ltb a.payload_filled (length f.payload) (omega arith),
        ne→== (length got) 0 (omega (arith, g.some_got)),
      )
      (payload_rest f rest a' (read room cs).1 w' parsed p' (length (v ∷ w))
        (omega (arith, g.some_got)))
