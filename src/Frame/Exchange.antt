-- ===== src/Frame/Exchange.antt =====
-- Proofs on reading and writing of frames, and on the trailer, of src/aftp/frame.rs.
use agentic_file_transfer.Base.{
  ℕ, ◌+◌, ◌*◌, ◌-◌, ◌%◌, ◌^◌, ◌≤◌, ◌<◌, ◌≡◌, refl, sym, ap, ◌∙◌, List, [], ◌∷◌, ◌++◌, false, inl,
  arith, append_assoc, length, take, drop, slice, le_bytes, le_value, ltb, ok, err, lt→ltb, ge→ltb,
  le→leb, AftError, Message, length-append, drop-append_self, take-append_self, le_value-le_bytes,
  take_all, take-append-drop, length-take, ◌↔◌,
}
use agentic_file_transfer.Base.Fallible.{◌>>=◌, >>=-eq-ok}
use agentic_file_transfer.Frame.Types.{FrameHeader, Frame}
use agentic_file_transfer.Frame.Io.{
  Source, Ending, read_exact, check_header, read_frame_header, read_payload, read_frame,
  write_frame, verify_frame_crc32,
}

-- What `write_frame` puts on the wire.
abbrev pub header_of : Frame → List ℕ
header_of f = 0xAF ∷ 0x54 ∷ 1 ∷ f.frame_type ∷ f.flags ∷ 0 ∷ le_bytes 4 (length f.payload)

abbrev pub wire : Frame → List ℕ
wire f = header_of f ++ f.payload

pub write_frame-wire :
    (w : List ℕ) (f : Frame) → length f.payload < 2 ^ 32 → write_frame w f ≡ w ++ wire f
unfolding write_frame
write_frame-wire w f h = go f.payload h
  where
    go :
        (p : List ℕ)
        → length p < 2 ^ 32
        → write_frame w (record f { payload = p }) ≡ w ++ wire (record f { payload = p })
    go [] h = refl
    go (b ∷ p) h =
        let small : length (b ∷ p) % 2 ^ 32 ≡ length (b ∷ p) = omega arith in
        rw (small, lt→ltb 0 (length (b ∷ p)) (omega arith))
          (append_assoc w (header_of (record f { payload = b ∷ p })) (b ∷ p))

pub check_header-header_of :
    (f : Frame)
    → length f.payload < 2 ^ 32
    → check_header (header_of f)
      ≡ ok (record { frame_type = f.frame_type; flags = f.flags; payload_len = length f.payload })
unfolding check_header
check_header-header_of f h = rw (le_value-le_bytes 4 (length f.payload) h)

read_exact_front :
    (bs rest : List ℕ) (ending : Ending)
    → read_exact (length bs) (record { bytes = bs ++ rest; ending = ending })
      ≡ inl (bs, record { bytes = rest; ending = ending })
read_exact_front bs rest en =
    let fits : length bs ≤ length (bs ++ rest) = omega (arith, length-append bs rest) in
    rw (
      le→leb (length bs) (length (bs ++ rest)) fits,
      take-append_self bs rest,
      drop-append_self bs rest,
    )

read_frame_header-wire :
    (f : Frame) (rest : List ℕ) (ending : Ending)
    → length f.payload < 2 ^ 32
    → read_frame_header (record { bytes = header_of f ++ rest; ending = ending })
      ≡ ok (
        record { frame_type = f.frame_type; flags = f.flags; payload_len = length f.payload },
        record { bytes = rest; ending = ending },
      )
unfolding read_frame_header
read_frame_header-wire f rest en h =
    rw (le→leb 10 (length (header_of f ++ rest)) (omega arith), read_frame_header)
      (ap (λ m. m >>= λ hdr. ok (hdr, record { bytes = rest; ending = en }))
        (check_header-header_of f h))

read_payload_lem :
    (t g : ℕ) (p rest : List ℕ) (ending : Ending) (max_payload : ℕ)
    → length p ≤ max_payload
    → read_payload
        (record { frame_type = t; flags = g; payload_len = length p })
        (record { bytes = p ++ rest; ending = ending })
        max_payload
      ≡ ok (
        record { frame_type = t; flags = g; payload = p },
        record { bytes = rest; ending = ending },
      )
unfolding read_payload
read_payload_lem t g [] rest en m h = rw (ge→ltb m 0 h)
read_payload_lem t g (b ∷ p) rest en m h = rw (
  ge→ltb m (length (b ∷ p)) h,
  lt→ltb 0 (length (b ∷ p)) (omega arith),
  read_exact_front (b ∷ p) rest en,
)

-- read_frame on what write_frame wrote, with anything behind it, returns the frame and leaves what
-- is behind it, if the payload is within max_payload and shorter than 2^32 bytes.
pub read_frame-write_frame :
    (f : Frame) (rest : List ℕ) (ending : Ending) (max_payload : ℕ)
    → length f.payload ≤ max_payload
    → length f.payload < 2 ^ 32
    → read_frame (record { bytes = write_frame [] f ++ rest; ending = ending }) max_payload
      ≡ ok (f, record { bytes = rest; ending = ending })
unfolding read_frame
read_frame-write_frame f rest en m small fits =
    rw (write_frame-wire [] f fits, append_assoc (header_of f) f.payload rest)
      (rw (read_frame_header-wire f (f.payload ++ rest) en fits)
        (read_payload_lem f.frame_type f.flags f.payload rest en m small))

-- On the header of a frame whose payload is longer than max_payload and shorter than 2^32 bytes,
-- read_frame returns the error that names both lengths, whatever comes behind the header and
-- however the input ends.
pub read_frame_too_large :
    (f : Frame) (rest : List ℕ) (ending : Ending) (max_payload : ℕ)
    → max_payload < length f.payload
    → length f.payload < 2 ^ 32
    → read_frame (record { bytes = header_of f ++ rest; ending = ending }) max_payload
      ≡ err (AftError.other (Message.payload_too_large (length f.payload) max_payload))
unfolding read_frame read_payload
read_frame_too_large f rest en m large fits =
    rw (read_frame_header-wire f rest en fits) (rw (lt→ltb m (length f.payload) large))

read_frame_header_takes :
    (r : Source) (hdr : FrameHeader) (r' : Source)
    → read_frame_header r ≡ ok (hdr, r')
    → (check_header (take 10 r.bytes) ≡ ok hdr) × (r' ≡ record r { bytes = drop 10 r.bytes })
unfolding read_frame_header
read_frame_header_takes r hdr r' e = ground arith

read_payload_takes :
    (hdr : FrameHeader) (r : Source) (m : ℕ) (f : Frame) (r' : Source)
    → read_payload hdr r m ≡ ok (f, r')
    → (hdr ≡ record { frame_type = f.frame_type; flags = f.flags; payload_len = length f.payload })
      × (length f.payload ≤ m)
      × (r.bytes ≡ f.payload ++ r'.bytes)
unfolding read_payload
read_payload_takes hdr r m f r' e =
    ground (arith, length-take hdr.payload_len r.bytes, take-append-drop hdr.payload_len r.bytes)

read_frame_header_long :
    (r : Source) (hdr : FrameHeader) (r' : Source)
    → read_frame_header r ≡ ok (hdr, r')
    → 10 ≤ length r.bytes
unfolding read_frame_header
read_frame_header_long r hdr r' e = ground arith

-- The bytes that a valid header has, with what is behind it.
header_bytes :
    (bs : List ℕ) (hdr : FrameHeader)
    → 10 ≤ length bs
    → check_header (take 10 bs) ≡ ok hdr
    → (reserved b0 b1 b2 b3 : ℕ) × (bs
        ≡ 0xAF ∷ 0x54 ∷ 1 ∷ hdr.frame_type ∷ hdr.flags ∷ reserved ∷ b0 ∷ b1 ∷ b2 ∷ b3 ∷ drop 10 bs)
      × (hdr.payload_len ≡ b0 + 256 * b1 + 65_536 * b2 + 16_777_216 * b3)
unfolding check_header
header_bytes (a ∷ b ∷ c ∷ d ∷ e ∷ f ∷ g ∷ h ∷ i ∷ j ∷ rest) hdr long valid =
    (f, g, h, i, j, ground arith, ground arith)
header_bytes bs hdr long valid = absurd (omega arith)

-- Whenever read_frame returns a frame, the input is 0xAF, 0x54, 1, the frame's type, its flags, one
-- byte more, the length of its payload as four little-endian bytes, the payload, and the input that
-- is left; and the payload is within max_payload.
pub read_frame_takes :
    (r : Source) (max_payload : ℕ) (f : Frame) (r' : Source)
    → read_frame r max_payload ≡ ok (f, r')
    → (reserved b0 b1 b2 b3 : ℕ) × (r.bytes
        ≡ 0xAF
          ∷ 0x54
          ∷ 1
          ∷ f.frame_type
          ∷ f.flags
          ∷ reserved
          ∷ b0
          ∷ b1
          ∷ b2
          ∷ b3
          ∷ (f.payload ++ r'.bytes))
      × (length f.payload ≡ b0 + 256 * b1 + 65_536 * b2 + 16_777_216 * b3)
      × (length f.payload ≤ max_payload)
unfolding read_frame
read_frame_takes r m f r' e =
    let (p, e1, e2) = >>=-eq-ok (read_frame_header r) _ e in
    let (h1, h2) = read_frame_header_takes r p.0 p.1 e1 in
    let (k1, k2, k3) = read_payload_takes p.0 p.1 m f r' e2 in
    let tail : drop 10 r.bytes ≡ f.payload ++ r'.bytes = ap (λ s. s.bytes) (sym h2) ∙ k3 in
    let (reserved, b0, b1, b2, b3, split, size) =
      header_bytes r.bytes
        (record { frame_type = f.frame_type; flags = f.flags; payload_len = length f.payload })
        (read_frame_header_long r p.0 p.1 e1) (h1 ∙ ap ok k1) in
    (
      reserved,
      b0,
      b1,
      b2,
      b3,
      split
          ∙ ap (λ t. 0xAF ∷ 0x54 ∷ 1 ∷ f.frame_type ∷ f.flags ∷ reserved ∷ b0 ∷ b1 ∷ b2 ∷ b3 ∷ t)
              tail,
      size,
      k2,
    )

module _ (hash : List ℕ → ℕ) where
  -- With a four-byte trailer, verify_frame_crc32 returns the length of the data before it exactly
  -- if the trailer, little-endian, is the checksum of that data.
  pub verify_frame_crc32_iff :
      (data_bytes trailer : List ℕ)
      → length trailer ≡ 4
      → (verify_frame_crc32 hash (data_bytes ++ trailer) ≡ ok (length data_bytes))
        ↔ (le_value trailer ≡ hash data_bytes)
  unfolding verify_frame_crc32
  verify_frame_crc32_iff ds t four =
      let total = length-append ds t in
      let cut : length (ds ++ t) - 4 ≡ length ds = omega arith in
      let long : ltb (length (ds ++ t)) 4 ≡ false = ge→ltb _ _ (omega arith) in
      let last : slice (ds ++ t) (length ds) 4 ≡ t =
        ap (take 4) (drop-append_self ds t) ∙ ap (λ n. take n t) (sym four) ∙ take_all t in
      rw (long, cut, last, take-append_self ds t) (λ e. ground arith, λ e. ground arith)
