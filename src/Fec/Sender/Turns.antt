-- ===== src/Fec/Sender/Turns.antt =====
-- Proofs on the turns of the sender's loop, src/aftp/fec/transfer.rs.
use agentic_file_transfer.Base.{
  ℕ, ◌+◌, ◌≤◌, ◌≡◌, refl, sym, subst, ◌∙◌, inl, inr, List, [], ◌∷◌, false, Option, some, none,
  arith, max, ltb, if◌then◌else◌, Result, ok, if-cases, All,
}
use agentic_file_transfer.Base.Fallible.{◌>>=◌, >>=-eq-ok}
use agentic_file_transfer.Base.Table.{lookup, nat_eq}
use agentic_file_transfer.Frame.Yields.{ok_inj}
use agentic_file_transfer.Fec.Encoder.{BlockEncoder, source_symbols, repair_symbols}
use agentic_file_transfer.Fec.Transfer.Blocks.{Feedback, FecParams, total_blocks}
use agentic_file_transfer.Fec.Sender.Line.{Environment, Line, pace_and_send, send_all}
use agentic_file_transfer.Fec.Sender.Answering.{InFlight, apply_feedback}
use agentic_file_transfer.Fec.Sender.Loop.{
  Sender, Inbox, apply_to, drain, holds_back, wait_for_sample, spray, put_inflight, send_proactive,
  end_spray, send_block, new_inflight,
}
use agentic_file_transfer.Fec.Sender.Ledger.{
  Promises, IsSound, insert-IsSound, apply_feedback-IsSound,
}

abbrev pub Foretells : (ℕ → Type 0) → Option Feedback → Type 0
Foretells P none = Unit
Foretells P (some m) = Promises P m

-- How many messages are still to arrive; the moments at which nothing has arrived are none.
abbrev pub messages : Inbox → ℕ
messages [] = 0
messages (none ∷ rest) = messages rest
messages (some m ∷ rest) = messages rest + 1

messages-skip : (m : Option Feedback) (rest : Inbox) → messages rest ≤ messages (m ∷ rest)
messages-skip none rest = omega arith
messages-skip (some m) rest = omega arith

module _ (env : Environment) (p : FecParams) (P : ℕ → Type 0) where
  -- The table is sound, what is still to arrive is right, and no block beyond the last is begun.
  pub record IsGood (s : Sender env p) : Type 0 where
    pub sound : IsSound env P (max p.window 1) s.next_block s.ledger
    pub foretold : All (Foretells P) s.inbox
    pub in_total : s.next_block ≤ total_blocks p

  -- `t` comes after `s` in the sending of one block.
  pub record Follows (s t : Sender env p) : Type 0 where
    pub keeps : IsGood s → IsGood t
    pub same_next : t.next_block ≡ s.next_block
    pub shorter : messages t.inbox ≤ messages s.inbox

  pub Follows-refl : (s : Sender env p) → Follows s s
  Follows-refl s = record { keeps = λ h. h; same_next = refl; shorter = omega arith }

  pub Follows-trans : (s t u : Sender env p) → Follows s t → Follows t u → Follows s u
  Follows-trans s t u f g = record {
    keeps = λ h. g.keeps (f.keeps h);
    same_next = g.same_next ∙ f.same_next;
    shorter = omega (arith, f.shorter, g.shorter);
  }

  abbrev pub with_inbox : Inbox → Sender env p → Sender env p
  with_inbox inbox s = record s { inbox = inbox }

  skip_one :
      (m : Option Feedback) (rest : Inbox) (s : Sender env p)
      → Follows (with_inbox (m ∷ rest) s) (with_inbox rest s)
  skip_one m rest s = record {
    keeps = λ h. record { sound = h.sound; foretold = h.foretold.1; in_total = h.in_total };
    same_next = refl;
    shorter = messages-skip m rest;
  }

  pub apply_to-Follows :
      (m : Feedback) (rest : Inbox) (s t : Sender env p)
      → apply_to env p m rest s ≡ ok t
      → Follows (with_inbox (some m ∷ rest) s) t × (t.inbox ≡ rest)
  apply_to-Follows m rest s t e =
      let (r, applied, done) = >>=-eq-ok (apply_feedback env m p.symbol_size s.ledger s.line) _ e in
      subst (λ u. Follows (with_inbox (some m ∷ rest) s) u × (u.inbox ≡ rest)) (ok_inj done)
        (
          record {
            keeps = λ h. record {
              sound =
                  apply_feedback-IsSound env P (max p.window 1) s.next_block m p.symbol_size
                    s.ledger r.0 s.line r.1 applied h.foretold.0 h.sound;
              foretold = h.foretold.1;
              in_total = h.in_total;
            };
            same_next = refl;
            shorter = omega arith;
          },
          refl,
        )

  -- The same, with `next` on the state that results.
  after_apply :
      (m : Feedback) (rest : Inbox) (s t : Sender env p)
      (next : Sender env p → Result (Sender env p))
      → ((s1 : Sender env p) → next s1 ≡ ok t → Follows (with_inbox rest s1) t)
      → (apply_to env p m rest s >>= next) ≡ ok t
      → Follows (with_inbox (some m ∷ rest) s) t
  after_apply m rest s t next later e =
      let (s1, applied, done) = >>=-eq-ok (apply_to env p m rest s) next e in
      let (follows, left) = apply_to-Follows m rest s s1 applied in
      Follows-trans (with_inbox (some m ∷ rest) s) s1 t follows
        (subst (λ i. Follows (with_inbox i s1) t) (sym left) (later s1 done))

  pub drain-Follows :
      (inbox : Inbox) (s t : Sender env p)
      → drain env p inbox s ≡ ok t
      → Follows (with_inbox inbox s) t
  unfolding drain
  drain-Follows [] s t e = subst (Follows (with_inbox [] s)) (ok_inj e) (Follows-refl _)
  drain-Follows (none ∷ rest) s t e =
      subst (Follows (with_inbox (none ∷ rest) s)) (ok_inj e) (skip_one none rest s)
  drain-Follows (some m ∷ rest) s t e =
      after_apply m rest s t (drain env p rest) (λ s1. drain-Follows rest s1 t) e

  pub wait_for_sample-Follows :
      (inbox : Inbox) (s t : Sender env p)
      → wait_for_sample env p inbox s ≡ ok t
      → Follows (with_inbox inbox s) t
  unfolding wait_for_sample
  wait_for_sample-Follows [] s t e = elim (if-cases (holds_back env p s) e) [
    | inl (back, failed) ↦ cc failed
    | inr (free, done) ↦ subst (Follows (with_inbox [] s)) (ok_inj done) (Follows-refl _)
  ]
  wait_for_sample-Follows (none ∷ rest) s t e = elim (if-cases (holds_back env p s) e) [
    | inl (back, later) ↦
        Follows-trans (with_inbox (none ∷ rest) s) (with_inbox rest s) t (skip_one none rest s)
          (wait_for_sample-Follows rest s t later)
    | inr (free, done) ↦ subst (Follows (with_inbox (none ∷ rest) s)) (ok_inj done) (Follows-refl _)
  ]
  wait_for_sample-Follows (some m ∷ rest) s t e = elim (if-cases (holds_back env p s) e) [
    | inl (back, later) ↦
        after_apply m rest s t (wait_for_sample env p rest)
          (λ s1. wait_for_sample-Follows rest s1 t) later
    | inr (free, done) ↦
        subst (Follows (with_inbox (some m ∷ rest) s)) (ok_inj done) (Follows-refl _)
  ]

  -- What changes the line only.
  on_line : (s : Sender env p) (l : Line env) → Follows s (record s { line = l })
  on_line s l = record {
    keeps = λ h. record { sound = h.sound; foretold = h.foretold; in_total = h.in_total };
    same_next = refl;
    shorter = omega arith;
  }

  replace_one :
      (k : ℕ) (f f' : InFlight env) (s : Sender env p)
      → lookup k s.ledger.inflight ≡ some f
      → Follows s (put_inflight env p k f' s)
  replace_one k f f' s there = record {
    keeps = λ h. record {
      sound = insert-IsSound env P (max p.window 1) s.next_block s.ledger k f f' there h.sound;
      foretold = h.foretold;
      in_total = h.in_total;
    };
    same_next = refl;
    shorter = omega arith;
  }

  spray-Follows :
      (k : ℕ) (symbols : List (List ℕ)) (s t : Sender env p)
      → spray env p k symbols s ≡ ok t
      → Follows s t
  unfolding spray
  spray-Follows k [] s t e = subst (Follows s) (ok_inj e) (Follows-refl s)
  spray-Follows k (symbol ∷ symbols) s t e =
      let (s1, waited, later) = >>=-eq-ok (wait_for_sample env p s.inbox s) _ e in
      let (l, paced, done) = >>=-eq-ok (pace_and_send env k symbol s1.line) _ later in
      Follows-trans s s1 t (wait_for_sample-Follows s.inbox s s1 waited) (
        Follows-trans s1 (record s1 { line = l }) t (on_line s1 l)
          (spray-Follows k symbols (record s1 { line = l }) t done))

  send_proactive-Follows :
      (k n : ℕ) (o : Option (InFlight env)) (s t : Sender env p)
      → lookup k s.ledger.inflight ≡ o
      → send_proactive env p k n o s ≡ ok t
      → Follows s t
  unfolding send_proactive
  send_proactive-Follows k n none s t there e = subst (Follows s) (ok_inj e) (Follows-refl s)
  send_proactive-Follows k n (some f) s t there e =
      let (l, paced, done) =
        >>=-eq-ok (send_all env k (repair_symbols env.coder f.encoder 0 n) s.line) _ e in
      subst (Follows s) (ok_inj done) (
        Follows-trans s (record s { line = l })
          (put_inflight env p k (record f { repair_cursor = n }) (record s { line = l }))
          (on_line s l)
          (replace_one k f (record f { repair_cursor = n }) (record s { line = l }) there))

  end_spray-Follows :
      (k : ℕ) (o : Option (InFlight env)) (s : Sender env p)
      → lookup k s.ledger.inflight ≡ o
      → Follows s (end_spray env p k o s)
  unfolding end_spray
  end_spray-Follows k none s there = Follows-refl s
  end_spray-Follows k (some f) s there = replace_one k f (record f { spraying = false }) s there

  proactive-Follows :
      (k n : ℕ) (s t : Sender env p)
      → (if ltb 0 n then send_proactive env p k n (lookup k s.ledger.inflight) s else ok s) ≡ ok t
      → Follows s t
  proactive-Follows k n s t e = elim (if-cases (ltb 0 n) e) [
    | inl (some_repair, sent) ↦
        send_proactive-Follows k n (lookup k s.ledger.inflight) s t refl sent
    | inr (no_repair, done) ↦ subst (Follows s) (ok_inj done) (Follows-refl s)
  ]

  -- The sending of a block that is in flight.
  pub send_block-Follows :
      (k : ℕ) (encoder : BlockEncoder env.coder) (s t : Sender env p)
      → send_block env p k encoder s ≡ ok t
      → Follows
          (put_inflight env p k (new_inflight env p encoder) (record s { next_block = k + 1 }))
          t
  unfolding send_block
  send_block-Follows k encoder s t e =
      let s0 =
        put_inflight env p k (new_inflight env p encoder) (record s { next_block = k + 1 }) in
      let (s1, sprayed, later) =
        >>=-eq-ok (spray env p k (source_symbols env.coder encoder) s0) _ e in
      let (s2, repaired, done) = >>=-eq-ok _ _ later in
      Follows-trans s0 s1 t (spray-Follows k (source_symbols env.coder encoder) s0 s1 sprayed) (
        Follows-trans s1 s2 t
          (proactive-Follows k (env.repair_symbol_count encoder.source_symbol_count s1.line.rates)
            s1 s2 repaired)
          (subst (Follows s2) (ok_inj done)
            (end_spray-Follows k (lookup k s2.ledger.inflight) s2 refl)))
