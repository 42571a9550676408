-- ===== src/Fec/Sender/Outcome.antt =====
-- Proofs on what the sending of an object comes to, src/aftp/fec/transfer.rs.
use agentic_file_transfer.Base.{
  ℕ, ◌+◌, ◌≤◌, ◌<◌, ◌≡◌, ◌≢◌, [], ◌∷◌, Bool, true, false, ◌||◌, Option, some, none, arith, length,
  max, ◌==◌, ==_refl, ok, All,
}
use agentic_file_transfer.Base.Table.{lookup, nat_eq}
use agentic_file_transfer.Fec.Transfer.Blocks.{
  Feedback, need_more, block_ok, FecParams, total_blocks,
}
use agentic_file_transfer.Fec.Sender.Line.{Environment, SendStats}
use agentic_file_transfer.Fec.Sender.Loop.{
  Sender, Inbox, Sending, drain, find_stuck, advance, start_sender, send_blocks,
}
use agentic_file_transfer.Fec.Sender.Turns.{Foretells, IsGood, messages, drain-Follows}
use agentic_file_transfer.Fec.Sender.Finishing.{
  send_loop-sent, send_loop-fuel, start_sender-IsGood, advance-Advances,
}

-- That a message of the inbox acknowledges the block.
abbrev pub acknowledged : ℕ → Inbox → Bool
acknowledged b [] = false
acknowledged b (none ∷ rest) = acknowledged b rest
acknowledged b (some (need_more k needed received) ∷ rest) = acknowledged b rest
acknowledged b (some (block_ok k used) ∷ rest) = b == k || acknowledged b rest

acknowledged_later :
    (b : ℕ) (m : Option Feedback) (rest : Inbox)
    → acknowledged b rest ≡ true
    → acknowledged b (m ∷ rest) ≡ true
acknowledged_later b none rest h = h
acknowledged_later b (some (need_more k needed received)) rest h = h
acknowledged_later b (some (block_ok k used)) rest h = ground arith

foretold_within :
    (whole rest : Inbox)
    → ((b : ℕ) → acknowledged b rest ≡ true → acknowledged b whole ≡ true)
    → All (Foretells (λ b. acknowledged b whole ≡ true)) rest
foretold_within whole [] sub = tt
foretold_within whole (none ∷ rest) sub = (tt, foretold_within whole rest sub)
foretold_within whole (some (need_more k needed received) ∷ rest) sub =
    (tt, foretold_within whole rest sub)
foretold_within whole (some (block_ok k used) ∷ rest) sub = (
  sub k (ground (arith, ==_refl k)),
  foretold_within whole rest (λ b h. sub b (acknowledged_later b (some (block_ok k used)) rest h)),
)

-- send_blocks reports success only if every block of the transfer was acknowledged: a BlockOk for
-- it is among the feedback that arrived, whatever the sink, the reader, the pacer and the order of
-- the feedback are.
pub send_blocks-acknowledged :
    (env : Environment) (p : FecParams) (fuel : ℕ) (out : env.Out) (rates : env.Rates)
    (inbox : Inbox) (stats : SendStats)
    → send_blocks env p fuel out rates inbox ≡ Sending.sent stats
    → (b : ℕ) → b < total_blocks p
    → acknowledged b inbox ≡ true
unfolding send_blocks
send_blocks-acknowledged env p fuel out rates inbox stats e =
    let P = λ (b : ℕ). acknowledged b inbox ≡ true in
    send_loop-sent env p P fuel (start_sender env p out rates inbox) stats
      (start_sender-IsGood env p P out rates inbox (foretold_within inbox inbox (λ b h. h))) e

anything_foretold : (inbox : Inbox) → All (Foretells (λ b. Unit)) inbox
anything_foretold [] = tt
anything_foretold (none ∷ rest) = (tt, anything_foretold rest)
anything_foretold (some (need_more k needed received) ∷ rest) = (tt, anything_foretold rest)
anything_foretold (some (block_ok k used) ∷ rest) = (tt, anything_foretold rest)

-- send_blocks comes to an end, with success or an error, whatever the sink, the reader and the
-- pacer do: one turn more than there are blocks and messages until the channel is closed is enough,
-- however often nothing has arrived yet.
pub send_blocks_ends :
    (env : Environment) (p : FecParams) (fuel : ℕ) (out : env.Out) (rates : env.Rates)
    (inbox : Inbox)
    → total_blocks p + messages inbox < fuel
    → send_blocks env p fuel out rates inbox ≢ Sending.out_of_fuel
unfolding send_blocks start_sender
send_blocks_ends env p fuel out rates inbox enough =
    send_loop-fuel env p (λ b. Unit) fuel (start_sender env p out rates inbox)
      (start_sender-IsGood env p (λ b. Unit) out rates inbox (anything_foretold inbox))
      (omega (arith, enough))

-- A state that the loop of `send_blocks` is in between its steps.
pub data Reached (env : Environment) (p : FecParams) (out : env.Out) (rates : env.Rates)
    (inbox : Inbox) : Sender env p → Type 0 where
  starts : Reached env p out rates inbox (start_sender env p out rates inbox)
  drains :
      {s t : Sender env p}
      → Reached env p out rates inbox s
      → drain env p s.inbox s ≡ ok t
      → Reached env p out rates inbox t
  advances :
      {s t : Sender env p}
      → Reached env p out rates inbox s
      → advance env p (find_stuck env p s.ledger.inflight) s ≡ ok t
      → Reached env p out rates inbox t

Reached-IsGood :
    (env : Environment) (p : FecParams) (out : env.Out) (rates : env.Rates) (inbox : Inbox)
    {s : Sender env p}
    → Reached env p out rates inbox s
    → IsGood env p (λ b. acknowledged b inbox ≡ true) s
Reached-IsGood env p out rates inbox starts =
    start_sender-IsGood env p _ out rates inbox (foretold_within inbox inbox (λ b h. h))
Reached-IsGood env p out rates inbox (drains {s = s} {t = t} r e) =
    (drain-Follows env p _ s.inbox s t e).keeps (Reached-IsGood env p out rates inbox r)
Reached-IsGood env p out rates inbox (advances {s = s} {t = t} r e) =
    (advance-Advances env p _ (find_stuck env p s.ledger.inflight) s t e
      (Reached-IsGood env p out rates inbox r)).good

-- In every state of the loop of send_blocks: at most window blocks, or one if the window is 0, are
-- in flight; those and the acknowledged ones are no more than were begun, and no more are begun
-- than there are; and a block that was begun and is not in flight any more has been acknowledged.
pub send_window :
    (env : Environment) (p : FecParams) (out : env.Out) (rates : env.Rates) (inbox : Inbox)
    (s : Sender env p)
    → Reached env p out rates inbox s
    → (length s.ledger.inflight ≤ max p.window 1)
      × (length s.ledger.inflight + s.ledger.acked ≤ s.next_block)
      × (s.next_block ≤ total_blocks p)
      × ((b : ℕ)
          → b < s.next_block
          → lookup b s.ledger.inflight ≡ none
          → acknowledged b inbox ≡ true)
send_window env p out rates inbox s r =
    let h = Reached-IsGood env p out rates inbox r in
    (h.sound.bounded, h.sound.counted, h.in_total, h.sound.settled)
