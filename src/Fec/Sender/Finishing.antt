-- ===== src/Fec/Sender/Finishing.antt =====
-- Proofs on the end of the sender's loop, src/aftp/fec/transfer.rs.
use agentic_file_transfer.Base.{
  ℕ, zero, suc, ◌+◌, ◌-◌, ◌≤◌, ◌<◌, ◌≡◌, ◌≢◌, refl, ap, inl, inr, [], ◌∷◌, Option, some, none,
  arith, length, max, leb, Result, ok, err, if-cases, All, leb→le,
}
use agentic_file_transfer.Base.Fallible.{◌>>=◌, >>=-eq-ok}
use agentic_file_transfer.Base.Table.{Table, lookup, nat_eq}
use agentic_file_transfer.Fec.Codec.{block_range}
use agentic_file_transfer.Fec.Encoder.{BlockEncoder, new_encoder}
use agentic_file_transfer.Fec.Transfer.Blocks.{FecParams, total_blocks}
use agentic_file_transfer.Fec.Sender.Line.{Environment, SendStats}
use agentic_file_transfer.Fec.Sender.Answering.{InFlight}
use agentic_file_transfer.Fec.Sender.Loop.{
  Sender, Inbox, Sending, drain, put_inflight, new_inflight, send_block, open_block, await_feedback,
  find_stuck, may_open, advance, continue, after_drain, send_loop, start_sender,
}
use agentic_file_transfer.Fec.Sender.Ledger.{open-IsSound}
use agentic_file_transfer.Fec.Sender.Turns.{
  Foretells, IsGood, messages, with_inbox, drain-Follows, apply_to-Follows, send_block-Follows,
}

module _ (env : Environment) (p : FecParams) (P : ℕ → Type 0) where
  -- How many turns are left at most.
  abbrev pub turns_left : Sender env p → ℕ
  turns_left s = (total_blocks p - s.next_block) + messages s.inbox

  -- A turn leads from a good state to a good one with fewer turns left.
  pub record Advances (s t : Sender env p) : Type 0 where
    pub good : IsGood env p P t
    pub fewer : turns_left t < turns_left s

  open_one :
      (s : Sender env p) (f : InFlight env)
      → length s.ledger.inflight < max p.window 1
      → s.next_block < total_blocks p
      → IsGood env p P s
      → IsGood env p P
          (put_inflight env p s.next_block f (record s { next_block = s.next_block + 1 }))
  open_one s f room more h = record {
    sound = open-IsSound env P (max p.window 1) s.next_block s.ledger f room h.sound;
    foretold = h.foretold;
    in_total = omega arith;
  }

  open_block-Advances :
      (s t : Sender env p)
      → length s.ledger.inflight < max p.window 1
      → s.next_block < total_blocks p
      → open_block env p s ≡ ok t
      → IsGood env p P s
      → Advances s t
  unfolding open_block
  open_block-Advances s t room more e h =
      let (start, end) = block_range s.next_block p.block_size p.total_len in
      let send = λ (encoder : BlockEncoder env.coder). send_block env p s.next_block encoder s in
      let (block, got, later) =
        >>=-eq-ok (env.read_block start (end - start))
          (λ bytes. new_encoder env.coder bytes p.symbol_size >>= send) e in
      let (encoder, made, done) =
        >>=-eq-ok (new_encoder env.coder block p.symbol_size) send later in
      let f = send_block-Follows env p P s.next_block encoder s t done in
      record {
        good = f.keeps (open_one s (new_inflight env p encoder) room more h);
        fewer = omega (arith, f.same_next, f.shorter);
      }

  await_feedback-Advances :
      (inbox : Inbox) (s t : Sender env p)
      → await_feedback env p inbox s ≡ ok t
      → IsGood env p P (with_inbox env p P inbox s)
      → Advances (with_inbox env p P inbox s) t
  unfolding await_feedback
  await_feedback-Advances [] s t e h = cc e
  await_feedback-Advances (none ∷ rest) s t e h =
      let a =
        await_feedback-Advances rest s t e
          (record { sound = h.sound; foretold = h.foretold.1; in_total = h.in_total }) in
      record { good = a.good; fewer = omega (arith, a.fewer) }
  await_feedback-Advances (some m ∷ rest) s t e h =
      let (f, left) = apply_to-Follows env p P m rest s t e in
      record { good = f.keeps h; fewer = omega (arith, f.same_next, ap messages left) }

  -- What a turn does, once nothing more has arrived and no block has used up its rounds.
  pub advance-Advances :
      (o : Option ℕ) (s t : Sender env p)
      → advance env p o s ≡ ok t
      → IsGood env p P s
      → Advances s t
  unfolding advance
  advance-Advances (some stuck) s t e h = cc e
  advance-Advances none s t e h = elim (if-cases (may_open env p s) e) [
    | inl (room, done) ↦ open_block-Advances s t (ground arith) (ground arith) done h
    | inr (full, done) ↦ await_feedback-Advances s.inbox s t done h
  ]

  -- All blocks are acknowledged once as many as there are have been counted.
  all_settled :
      (s : Sender env p)
      → total_blocks p ≤ s.ledger.acked
      → IsGood env p P s
      → (b : ℕ) → b < total_blocks p
      → P b
  unfolding lookup
  all_settled s full h b within =
      h.sound.settled b (omega (arith, h.sound.counted, h.in_total))
        (empty_lookup b s.ledger.inflight (omega (arith, h.sound.counted, h.in_total)))
    where
      empty_lookup : (b : ℕ) (m : Table ℕ (InFlight env)) → length m ≡ 0 → lookup b m ≡ none
      empty_lookup b [] none_left = refl
      empty_lookup b (x ∷ m) none_left = absurd (omega arith)

  continue-sent :
      (r : Result (Sender env p)) (next : Sender env p → Sending) (stats : SendStats)
      → continue env p r next ≡ Sending.sent stats
      → (s : Sender env p) × (r ≡ ok s) × (next s ≡ Sending.sent stats)
  continue-sent (err failure) next stats e = cc e
  continue-sent (ok s) next stats e = (s, refl, e)

  continue-out_of_fuel :
      (r : Result (Sender env p)) (next : Sender env p → Sending)
      → continue env p r next ≡ Sending.out_of_fuel
      → (s : Sender env p) × (r ≡ ok s) × (next s ≡ Sending.out_of_fuel)
  continue-out_of_fuel (err failure) next e = cc e
  continue-out_of_fuel (ok s) next e = (s, refl, e)

  pub send_loop-sent :
      (n : ℕ) (s : Sender env p) (stats : SendStats)
      → IsGood env p P s
      → send_loop env p n s ≡ Sending.sent stats
      → (b : ℕ) → b < total_blocks p
      → P b
  unfolding send_loop after_drain
  send_loop-sent zero s stats h e = cc e
  send_loop-sent (suc n) s stats h e = elim (if-cases (leb (total_blocks p) s.ledger.acked) e) [
    | inl (full, done) ↦ all_settled s (leb→le _ _ full) h
    | inr (short, running) ↦
        let (s1, drained, later) = continue-sent (drain env p s.inbox s) _ stats running in
        let h1 = (drain-Follows env p P s.inbox s s1 drained).keeps h in
        elim (if-cases (leb (total_blocks p) s1.ledger.acked) later) [
          | inl (full, done) ↦ all_settled s1 (leb→le _ _ full) h1
          | inr (still_short, moving) ↦
              let (s2, advanced, rest) =
                continue-sent (advance env p (find_stuck env p s1.ledger.inflight) s1) _ stats
                  moving in
              send_loop-sent n s2 stats
                (advance-Advances (find_stuck env p s1.ledger.inflight) s1 s2 advanced h1).good rest
        ]
  ]

  pub send_loop-fuel :
      (n : ℕ) (s : Sender env p)
      → IsGood env p P s
      → turns_left s < n
      → send_loop env p n s ≢ Sending.out_of_fuel
  unfolding send_loop after_drain
  send_loop-fuel zero s h enough e = omega (arith, enough)
  send_loop-fuel (suc n) s h enough e = elim (if-cases (leb (total_blocks p) s.ledger.acked) e) [
    | inl (full, done) ↦ cc done
    | inr (short, running) ↦
        let (s1, drained, later) = continue-out_of_fuel (drain env p s.inbox s) _ running in
        let f = drain-Follows env p P s.inbox s s1 drained in
        elim (if-cases (leb (total_blocks p) s1.ledger.acked) later) [
          | inl (full, done) ↦ cc done
          | inr (still_short, moving) ↦
              let (s2, advanced, rest) =
                continue-out_of_fuel (advance env p (find_stuck env p s1.ledger.inflight) s1) _
                  moving in
              let a =
                advance-Advances (find_stuck env p s1.ledger.inflight) s1 s2 advanced (f.keeps h) in
              send_loop-fuel n s2 a.good (omega (arith, a.fewer, f.same_next, f.shorter, enough))
                rest
        ]
  ]

  pub start_sender-IsGood :
      (out : env.Out) (rates : env.Rates) (inbox : Inbox)
      → All (Foretells P) inbox
      → IsGood env p P (start_sender env p out rates inbox)
  unfolding start_sender lookup
  start_sender-IsGood out rates inbox h = record {
    sound = record {
      counted = omega arith;
      bounded = omega arith;
      none_ahead = λ b ahead. refl;
      settled = λ b behind gone. absurd (omega arith);
    };
    foretold = h;
    in_total = omega arith;
  }
