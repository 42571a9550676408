-- ===== src/Frame/Assembly/Delivery.antt =====
-- Whole frames out of `FrameAssembler` in src/aftp/frame.rs.
use agentic_file_transfer.Base.{
  ℕ, zero, suc, ◌+◌, ◌^◌, ◌≤◌, ◌<◌, ◌≡◌, refl, sym, ap, ◌∙◌, List, ◌++◌, some, arith, append_assoc,
  length, take, ok,
}
use mathlib.Core.Path.{subst₂}
use agentic_file_transfer.Frame.Types.{Frame}
use agentic_file_transfer.Frame.Assembler.{
  FrameAssembler, next_phase, next_frame, assemble, ask_again, Outcome,
}
use agentic_file_transfer.Frame.Exchange.{header_of, wire}
use agentic_file_transfer.Frame.Assembly.Reads.{flatten, IsOpen}
use agentic_file_transfer.Frame.Assembly.Progress.{
  hdr_of, IsIdle, InPayload, InHeader, Progress, finished, in_payload, in_header,
  payload_phase-Progress,
}
use agentic_file_transfer.Frame.Assembly.Header.{header_phase-Progress}

-- A state within a frame of which `n` bytes are still to come.
data InFlight (f : Frame) (rest : List ℕ) (a : FrameAssembler) (cs : List (List ℕ)) (n : ℕ)
    : Type 0 where
  payload_left :
      (w : List ℕ)
      → a.parsed ≡ some (hdr_of f)
      → InPayload f rest a cs w
      → n ≡ length w
      → InFlight f rest a cs n
  header_left :
      (w : List ℕ)
      → InHeader f rest a cs w
      → 1 ≤ length w
      → n ≡ length w + length f.payload
      → InFlight f rest a cs n

-- The frame is handed out, and the assembler is ready for what follows it.
abbrev pub Delivers : Frame → List ℕ → Outcome → Type 0
Delivers f rest o = IsIdle o.0 × IsOpen o.1 × (flatten o.1 ≡ rest) × (o.2 ≡ ok (some f))

module _ (f : Frame) (rest : List ℕ) (max_payload : ℕ) (small : length f.payload ≤ max_payload)
    (fits : length f.payload < 2 ^ 32) where
  next_frame-Progress :
      (a : FrameAssembler) (cs : List (List ℕ)) (n : ℕ)
      → InFlight f rest a cs n
      → Progress f rest n (next_frame a cs max_payload)
  unfolding next_frame
  next_frame-Progress a cs n (payload_left w parsed p e) =
      subst₂ (Progress f rest) (sym e) (ap (λ h. next_phase h a cs max_payload) (sym parsed))
        (payload_phase-Progress f rest a cs w parsed p)
  next_frame-Progress a cs n (header_left w p l e) =
      subst₂ (Progress f rest) (sym e)
        (ap (λ h. next_phase h a cs max_payload) (sym p.nothing_parsed))
        (header_phase-Progress f rest a cs w max_payload small fits p l)

  after_call :
      (fuel n : ℕ) (o : Outcome)
      → Progress f rest n o
      → ((a : FrameAssembler) (cs : List (List ℕ)) (m : ℕ)
          → m < n
          → InFlight f rest a cs m
          → Delivers f rest (assemble fuel a cs max_payload))
      → Delivers f rest (ask_again (λ a' cs'. assemble fuel a' cs' max_payload) o)
  unfolding ask_again
  after_call fuel n o (finished i open_ e) ih = (i, open_, e, refl)
  after_call fuel n o (in_payload {a = a} {cs = cs} w parsed p l) ih =
      ih a cs (length w) l (payload_left w parsed p refl)
  after_call fuel n o (in_header {a = a} {cs = cs} w p l k) ih =
      ih a cs (length w + length f.payload) k (header_left w p l refl)

  assemble-InFlight :
      (fuel n : ℕ) (a : FrameAssembler) (cs : List (List ℕ))
      → n < fuel
      → InFlight f rest a cs n
      → Delivers f rest (assemble fuel a cs max_payload)
  unfolding assemble
  assemble-InFlight zero n a cs h s = elim h [ ]
  assemble-InFlight (suc fuel) n a cs h s =
      after_call fuel n (next_frame a cs max_payload) (next_frame-Progress a cs n s)
        (λ a' cs' m l s'. assemble-InFlight fuel m a' cs' (omega arith) s')

-- For every frame whose payload is within max_payload and shorter than 2^32 bytes, and however its
-- bytes and what follows them are cut into non-empty reads, at most as many calls of next_frame as
-- the frame has bytes, and one more, take an idle assembler to Ok(Some(frame)); the bytes behind
-- the frame are left on the connection, still in non-empty reads, and the assembler is idle again.
pub assemble-wire :
    (f : Frame) (rest : List ℕ) (max_payload : ℕ) (a : FrameAssembler) (cs : List (List ℕ))
    → length f.payload ≤ max_payload
    → length f.payload < 2 ^ 32
    → IsIdle a
    → IsOpen cs
    → flatten cs ≡ wire f ++ rest
    → Delivers f rest (assemble (length (wire f) + 1) a cs max_payload)
assemble-wire f rest m a cs small fits idle o e =
    assemble-InFlight f rest m small fits (length (wire f) + 1) (length (wire f)) a cs (omega arith)
      (header_left (header_of f)
        (record {
          header_len = idle.header_len;
          nothing_parsed = idle.nothing_parsed;
          filled_le = omega (arith, idle.nothing_filled);
          filled = ap (λ n. take n a.header ++ header_of f) idle.nothing_filled;
          coming = e ∙ append_assoc (header_of f) f.payload rest;
          open_ = o;
        })
        (omega arith) (omega arith))
