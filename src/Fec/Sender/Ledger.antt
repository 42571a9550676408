-- ===== src/Fec/Sender/Ledger.antt =====
-- Proofs on the blocks in flight, src/aftp/fec/transfer.rs.
use agentic_file_transfer.Base.{
  ℕ, ◌+◌, ◌≤◌, ◌<◌, ◌≡◌, refl, sym, subst, ap, ◌∙◌, inl, inr, Option, some, none, none≢some, arith,
  length, ◌==◌, ==_iff, ne→==, ok, Bool-cases,
}
use agentic_file_transfer.Base.Fallible.{>>=-eq-ok}
use agentic_file_transfer.Base.Table.{
  lookup, insert, remove, nat_eq, lookup-insert, lookup-insert-none, lookup-insert_kept,
  lookup-remove-none, lookup-remove_kept, length-insert_in, length-insert_new, length-remove_in,
  lookup→has_key,
}
use agentic_file_transfer.Frame.Yields.{ok_inj}
use agentic_file_transfer.Fec.Transfer.Blocks.{Feedback, need_more, block_ok}
use agentic_file_transfer.Fec.Sender.Line.{Environment, Line}
use agentic_file_transfer.Fec.Sender.Answering.{
  InFlight, Ledger, answer_need, on_block_ok, on_need_more, apply_feedback,
}

-- A message that acknowledges a block is right about it.
abbrev pub Promises : (ℕ → Type 0) → Feedback → Type 0
Promises P (block_ok block_id symbols_used) = P block_id
Promises P (need_more block_id needed received) = Unit

module _ (env : Environment) (P : ℕ → Type 0) (window next : ℕ) where
  -- The blocks below `next` are in flight or acknowledged, the others are not in flight, there are
  -- `window` in flight at most, and the count of the acknowledged ones is no more than right.
  pub record IsSound (g : Ledger env) : Type 0 where
    pub counted : length g.inflight + g.acked ≤ next
    pub bounded : length g.inflight ≤ window
    pub none_ahead : (b : ℕ) → next ≤ b → lookup b g.inflight ≡ none
    pub settled : (b : ℕ) → b < next → lookup b g.inflight ≡ none → P b

  -- Replacing the entry of a block in flight.
  pub insert-IsSound :
      (g : Ledger env) (k : ℕ) (f f' : InFlight env)
      → lookup k g.inflight ≡ some f
      → IsSound g
      → IsSound (record g { inflight = insert k f' g.inflight })
  insert-IsSound g k f f' there h =
      let same = length-insert_in k f' g.inflight (lookup→has_key k f g.inflight there) in
      record {
        counted = omega (arith, same, h.counted);
        bounded = omega (arith, same, h.bounded);
        none_ahead = λ b ahead. lookup-insert_kept b k f' f g.inflight there (h.none_ahead b ahead);
        settled = λ b behind gone. h.settled b behind (lookup-insert-none b k f' g.inflight gone);
      }

  remove-IsSound :
      (g : Ledger env) (k : ℕ) (f : InFlight env)
      → lookup k g.inflight ≡ some f
      → P k
      → IsSound g
      → IsSound (record { inflight = remove k g.inflight; acked = g.acked + 1 })
  remove-IsSound g k f there acked h =
      let fewer = length-remove_in k g.inflight (lookup→has_key k f g.inflight there) in
      record {
        counted = omega (arith, fewer, h.counted);
        bounded = omega (arith, fewer, h.bounded);
        none_ahead = λ b ahead. lookup-remove_kept b k g.inflight (h.none_ahead b ahead);
        settled = λ b behind gone. elim (lookup-remove-none b k g.inflight gone) [
          | inl same ↦ subst P (sym same) acked
          | inr before ↦ h.settled b behind before
        ];
      }

  on_block_ok-IsSound :
      (k used ss : ℕ) (o : Option (InFlight env)) (g g' : Ledger env) (l l' : Line env)
      → lookup k g.inflight ≡ o
      → on_block_ok env k used ss o g l ≡ ok (g', l')
      → P k
      → IsSound g
      → IsSound g'
  unfolding on_block_ok
  on_block_ok-IsSound k used ss none g g' l l' there e acked h =
      subst IsSound (ap (λ r. r.0) (ok_inj e)) h
  on_block_ok-IsSound k used ss (some f) g g' l l' there e acked h =
      subst IsSound (ap (λ r. r.0) (ok_inj e)) (remove-IsSound g k f there acked h)

  on_need_more-IsSound :
      (k needed received ss : ℕ) (o : Option (InFlight env)) (g g' : Ledger env) (l l' : Line env)
      → lookup k g.inflight ≡ o
      → on_need_more env k needed received ss o g l ≡ ok (g', l')
      → IsSound g
      → IsSound g'
  unfolding on_need_more
  on_need_more-IsSound k needed received ss none g g' l l' there e h =
      subst IsSound (ap (λ r. r.0) (ok_inj e)) h
  on_need_more-IsSound k needed received ss (some f) g g' l l' there e h =
      let (r, answered, done) = >>=-eq-ok (answer_need env k needed received ss f l) _ e in
      subst IsSound (ap (λ r. r.0) (ok_inj done)) (insert-IsSound g k f r.0 there h)

  -- Feedback leaves the table sound, if what it acknowledges has arrived.
  pub apply_feedback-IsSound :
      (m : Feedback) (ss : ℕ) (g g' : Ledger env) (l l' : Line env)
      → apply_feedback env m ss g l ≡ ok (g', l')
      → Promises P m
      → IsSound g
      → IsSound g'
  unfolding apply_feedback
  apply_feedback-IsSound (block_ok k used) ss g g' l l' e promised h =
      on_block_ok-IsSound k used ss (lookup k g.inflight) g g' l l' refl e promised h
  apply_feedback-IsSound (need_more k needed received) ss g g' l l' e promised h =
      on_need_more-IsSound k needed received ss (lookup k g.inflight) g g' l l' refl e h

-- A block whose turn it is goes in flight.
pub open-IsSound :
    (env : Environment) (P : ℕ → Type 0) (window next : ℕ) (g : Ledger env) (f : InFlight env)
    → length g.inflight < window
    → IsSound env P window next g
    → IsSound env P window (next + 1) (record g { inflight = insert next f g.inflight })
open-IsSound env P window next g f room h =
    let one_more = length-insert_new next f g.inflight (h.none_ahead next (omega arith)) in
    record {
      counted = omega (arith, one_more, h.counted);
      bounded = omega (arith, one_more, room);
      none_ahead = λ b ahead.
          lookup-insert b next f g.inflight
          ∙ rw (ne→== b next (λ same. omega (arith, ahead, same)))
              (h.none_ahead b (omega (arith, ahead)));
      settled = λ b behind gone.
          h.settled b (not_next b behind gone) (lookup-insert-none b next f g.inflight gone);
    }
  where
    not_next : (b : ℕ) → b < next + 1 → lookup b (insert next f g.inflight) ≡ none → b < next
    not_next b behind gone = elim (Bool-cases (b == next)) [
      | inl same ↦
          let here : b ≡ next = (==_iff b next).0 same in
          let there : lookup next (insert next f g.inflight) ≡ some f =
            ground (arith, lookup-insert next next f g.inflight) in
          none≢some (sym gone ∙ (ap (λ i. lookup i (insert next f g.inflight)) here ∙ there))
      | inr other ↦ ground arith
    ]
