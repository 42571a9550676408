-- ===== src/Mux/Ending.antt =====
-- Proofs on the end of the reader's loop, src/aftp/mux.rs.
use agentic_file_transfer.Base.{
  ℕ, zero, suc, ◌+◌, ◌%◌, ◌^◌, ◌<◌, ◌≡◌, ◌≢◌, refl, ap, ◌∙◌, Option, some, none, arith, length, ok,
  err, Result, length-append,
}
use agentic_file_transfer.Frame.Types.{Frame}
use agentic_file_transfer.Frame.Io.{Source, read_frame}
use agentic_file_transfer.Frame.Exchange.{read_frame_takes}
use agentic_file_transfer.Mux.Channels.{Streams}
use agentic_file_transfer.Mux.Session.{
  Turn, Stand, turn_for, turn_from, demux, reader_turn, reader_loop,
}

read_frame_shortens :
    (r : Source) (max : ℕ) (f : Frame) (r' : Source)
    → read_frame r max ≡ ok (f, r')
    → length r'.bytes < length r.bytes
read_frame_shortens r max f r' e =
    let (reserved, b0, b1, b2, b3, cut, size, fits) = read_frame_takes r max f r' e in
    omega (arith, ap length cut, length-append f.payload r'.bytes)

turn_for-went :
    (o : Option Streams) (rest r' : Source) (t : Streams)
    → turn_for o rest ≡ Turn.went r' t
    → (o ≡ some t) × (rest ≡ r')
turn_for-went none rest r' t e = cc e
turn_for-went (some s) rest r' t e = (cc e, cc e)

pub reader_turn-went :
    (r r' : Source) (max : ℕ) (s t : Streams)
    → reader_turn r max s ≡ Turn.went r' t
    → (f : Frame) × (read_frame r ((max + 1024) % 2 ^ 32) ≡ ok (f, r')) × (demux f s ≡ some t)
unfolding reader_turn turn_from
reader_turn-went r r' max s t e = go (read_frame r ((max + 1024) % 2 ^ 32)) refl e
  where
    go :
        (m : Result (Frame × Source))
        → read_frame r ((max + 1024) % 2 ^ 32) ≡ m
        → turn_from m s ≡ Turn.went r' t
        → (f : Frame) × (read_frame r ((max + 1024) % 2 ^ 32) ≡ ok (f, r')) × (demux f s ≡ some t)
    go (err failure) known e = cc e
    go (ok (f, rest)) known e =
        let (routed, left) = turn_for-went (demux f s) rest r' t e in
        (f, known ∙ ap (λ x. ok (f, x)) left, routed)

-- Without anyone taking frames out of the channels, reader_loop comes to its end or to a full
-- channel, on fuel that exceeds the number of bytes there are to read.
pub reader_loop_ends :
    (n : ℕ) (r : Source) (max : ℕ) (s : Streams)
    → length r.bytes < n
    → reader_loop n r max s ≢ Stand.out_of_fuel
unfolding reader_loop
reader_loop_ends zero r max s few = absurd (omega arith)
reader_loop_ends (suc n) r max s few =
    go (reader_turn r max s) refl
      (λ r' t shorter. reader_loop_ends n r' max t (omega (arith, few, shorter)))
  where
    go :
        (u : Turn)
        → reader_turn r max s ≡ u
        → ((r' : Source) (t : Streams)
            → length r'.bytes < length r.bytes
            → reader_loop n r' max t ≢ Stand.out_of_fuel)
        → elim u [
          | Turn.ended ↦ Stand.finished s
          | Turn.waiting ↦ Stand.stuck r s
          | Turn.went r' s' ↦ reader_loop n r' max s'
        ]
          ≢ Stand.out_of_fuel
    go Turn.ended known later e = cc e
    go Turn.waiting known later e = cc e
    go (Turn.went r' t) known later e =
        let (f, took, routed) = reader_turn-went r r' max s t known in
        later r' t (read_frame_shortens r ((max + 1024) % 2 ^ 32) f r' took) e
