-- ===== src/Frame/Assembly/Header.antt =====
-- The header phase of `next_frame` in src/aftp/frame.rs.
use agentic_file_transfer.Base.{
  ℕ, ◌+◌, ◌-◌, ◌^◌, ◌≤◌, ◌<◌, ◌≡◌, refl, sym, ap, ◌∙◌, List, [], ◌∷◌, ◌++◌, some, none, arith,
  append-nil, length, take, replicate, ltb, ok, err, if◌then◌else◌, length-append, length-replicate,
  le_value-le_bytes, lt→ltb, ge→ltb, ne→==,
}
use agentic_file_transfer.Frame.Types.{Frame}
use agentic_file_transfer.Frame.Assembler.{
  FrameAssembler, read, splice, parse_header, payload_phase, header_phase, Outcome,
}
use agentic_file_transfer.Frame.Exchange.{header_of}
use agentic_file_transfer.Frame.Assembly.Reads.{read-Got, length-splice}
use agentic_file_transfer.Frame.Assembly.Progress.{
  hdr_of, InPayload, InHeader, Progress, finished, in_payload, in_header, take_full, length-parts,
  filled_more, payload_phase-Progress,
}

pub Progress-mono :
    (f : Frame) (rest : List ℕ) (m n : ℕ) {o : Outcome}
    → m ≤ n
    → Progress f rest m o
    → Progress f rest n o
Progress-mono f rest m n h (finished i o e) = finished i o e
Progress-mono f rest m n h (in_payload w e p l) = in_payload w e p (omega arith)
Progress-mono f rest m n h (in_header w p l k) = in_header w p l (omega arith)

pub parse_header-header_of :
    (f : Frame) (max_payload : ℕ)
    → length f.payload ≤ max_payload
    → length f.payload < 2 ^ 32
    → parse_header (header_of f) max_payload ≡ ok (hdr_of f)
unfolding parse_header
parse_header-header_of f m small fits =
    rw (le_value-le_bytes 4 (length f.payload) fits, ge→ltb m (length f.payload) small)

-- Behind a read: the payload phase if the header is complete, else a state within the header.
pub header_rest :
    (f : Frame) (rest : List ℕ) (a : FrameAssembler) (cs : List (List ℕ)) (w : List ℕ)
    (max_payload : ℕ)
    → length f.payload ≤ max_payload
    → length f.payload < 2 ^ 32
    → InHeader f rest a cs w
    → (n : ℕ) → length w + length f.payload < n
    → Progress f rest n (
        if ltb a.header_filled 10
        then (a, cs, ok none)
        else elim (parse_header a.header max_payload) [
          | err e ↦ (a, cs, err e)
          | ok hdr ↦
              payload_phase hdr
                (record a {
                  parsed = some hdr;
                  payload = replicate hdr.payload_len 0;
                  payload_filled = 0;
                })
                cs
        ])
header_rest f rest a cs [] m small fits p n h =
    let full =
      length-parts a.header_filled a.header [] (header_of f) p.filled
        (omega (arith, p.header_len, p.filled_le)) in
    let same : a.header ≡ header_of f =
      sym (take_full a.header_filled a.header (omega (arith, p.header_len)))
      ∙ sym (append-nil (take a.header_filled a.header))
      ∙ p.filled in
    let parsed : parse_header a.header m ≡ ok (hdr_of f) =
      ap (λ t. parse_header t m) same ∙ parse_header-header_of f m small fits in
    let a' : FrameAssembler = record a {
      parsed = some (hdr_of f);
      payload = replicate (length f.payload) 0;
      payload_filled = 0;
    } in
    let p' : InPayload f rest a' cs f.payload = record {
      header_len = p.header_len;
      payload_len = length-replicate (length f.payload) 0;
      filled_le = omega arith;
      filled = refl;
      coming = p.coming;
      open_ = p.open_;
    } in
    rw (ge→ltb a.header_filled 10 (omega arith), parsed)
      (Progress-mono f rest (length f.payload) n (omega arith)
        (payload_phase-Progress f rest a' cs f.payload refl p'))
header_rest f rest a cs (v ∷ w) m small fits p n h =
    let full =
      length-parts a.header_filled a.header (v ∷ w) (header_of f) p.filled
        (omega (arith, p.header_len, p.filled_le)) in
    rw (lt→ltb a.header_filled 10 (omega arith)) (in_header (v ∷ w) p (omega arith) h)

pub header_phase-Progress :
    (f : Frame) (rest : List ℕ) (a : FrameAssembler) (cs : List (List ℕ)) (w : List ℕ)
    (max_payload : ℕ)
    → length f.payload ≤ max_payload
    → length f.payload < 2 ^ 32
    → InHeader f rest a cs w
    → 1 ≤ length w
    → Progress f rest (length w + length f.payload) (header_phase a cs max_payload)
unfolding header_phase
header_phase-Progress f rest a cs w m small fits p some_left =
    let full =
      length-parts a.header_filled a.header w (header_of f) p.filled
        (omega (arith, p.header_len, p.filled_le)) in
    let room = length a.header - a.header_filled in
    let (w', g) =
      read-Got room cs w (f.payload ++ rest) (omega (arith, p.header_len))
        (omega (arith, p.header_len)) p.open_ p.coming in
    let got = (read room cs).0 in
    let fits' : a.header_filled + length got ≤ length a.header =
      omega (arith, g.room_kept, p.header_len, p.filled_le) in
    let a' : FrameAssembler = record a {
      header = splice a.header a.header_filled got;
      header_filled = a.header_filled + length got;
    } in
    let p' : InHeader f rest a' (read room cs).1 w' = record {
      header_len = length-splice a.header got a.header_filled fits' ∙ p.header_len;
      nothing_parsed = p.nothing_parsed;
      filled_le = omega (arith, p.header_len);
      filled = filled_more a.header got w w' (header_of f) a.header_filled fits' p.filled g.split;
      coming = g.left;
      open_ = g.still_open;
    } in
    let less : length w ≡ length got + length w' = ap length g.split ∙ length-append got w' in
    rw (ne→== (length got) 0 (omega (arith, g.some_got))) (
      header_rest f rest a' (read room cs).1 w' m small fits p' (length w + length f.payload)
        (omega (arith, g.some_got)))
