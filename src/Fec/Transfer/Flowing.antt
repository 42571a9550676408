-- ===== src/Fec/Transfer/Flowing.antt =====
-- Proofs that `recv_object_into` of src/aftp/fec/transfer.rs does not stall where its feedback is
-- taken.
use agentic_file_transfer.Base.{
  ℕ, ◌-◌, ◌≡◌, max, List, Bool, true, false, not, ◌&&◌, Option, some, none, length, leb, Result, ok,
  err, Bool-cases, inl, inr, subst,
}
use agentic_file_transfer.Base.Fallible.{>>=-eq-ok}
use agentic_file_transfer.Base.Table.{lookup, has_key, nat_eq}
use agentic_file_transfer.Frame.Yields.{ok_inj}
use agentic_file_transfer.Fec.Codec.{Raptorq, BlockDecoder, push, take_block, block_range}
use agentic_file_transfer.Fec.Transfer.Blocks.{FecParams, total_blocks, BlockWriter, block_ok}
use agentic_file_transfer.Fec.Transfer.Channel.{
  IsFlowing, send_feedback-IsFlowing, send_each-IsFlowing,
}
use agentic_file_transfer.Fec.Transfer.Receiver.{
  Arrival, symbol, damaged, failed, elapsed, is_done, Receiver, reject, open_decoder, finish_block,
  account, settle, receive_symbol, ask_again, request_more, arrive,
}

module _ (q : Raptorq) (w : BlockWriter) (p : FecParams) where
  abbrev pub Flows : Receiver q w → Type 0
  Flows r = IsFlowing r.feedback

  finish_block-Flows :
      (r n : Receiver q w) (i used : ℕ) (o : Option (List ℕ))
      → Flows r
      → finish_block q w p r i used o ≡ ok n
      → Flows n
  unfolding finish_block
  finish_block-Flows r n i used none h e = cc e
  finish_block-Flows r n i used (some b) h e =
      let (out, written, e1) =
        >>=-eq-ok (w.write_block r.out (block_range i p.block_size p.total_len).0 b) _ e in
      subst Flows (ok_inj e1) (send_feedback-IsFlowing (block_ok i used) r.feedback h)

  settle-Flows :
      (r n : Receiver q w) (now i : ℕ) (pushed : BlockDecoder q × Result Bool)
      → Flows r
      → settle q w p r now i pushed ≡ ok n
      → Flows n
  unfolding settle account reject
  settle-Flows r n now i (d, ok false) h e = subst Flows (ok_inj e) h
  settle-Flows r n now i (d, ok true) h e =
      finish_block-Flows (account q w r now i d) n i d.accepted (take_block q d).1 h e
  settle-Flows r n now i (d, err bad) h e = subst Flows (ok_inj e) h

  receive_symbol-Flows :
      (r n : Receiver q w) (now i : ℕ) (payload : List ℕ)
      → Flows r
      → receive_symbol q w p r now i payload ≡ ok n
      → Flows n
  unfolding receive_symbol reject
  receive_symbol-Flows r n now i payload h e = elim (Bool-cases (leb (total_blocks p) i)) [
    | inl beyond ↦ subst Flows (ok_inj (rw beyond at e)) h
    | inr below ↦ elim (Bool-cases (is_done r.finished i)) [
      | inl shut ↦ subst Flows (ok_inj (rw (below, shut) at e)) h
      | inr open_ ↦
          let full = not (has_key i r.decoders) && leb (max p.window 1) (length r.decoders) in
          elim (Bool-cases full) [
            | inl no_room ↦ subst Flows (ok_inj (rw (below, open_, no_room) at e)) h
            | inr room ↦
                let (d, opened, settled) =
                  >>=-eq-ok (open_decoder q w p (lookup i r.decoders) i) _
                    (rw (below, open_, room) at e) in
                settle-Flows r n now i (push q d payload) h settled
          ]
    ]
  ]

  ask_again-Flows : (r : Receiver q w) (now : ℕ) → Flows r → Flows (ask_again q w p r now)
  unfolding ask_again
  ask_again-Flows r now h =
      elim (Bool-cases (leb r.timing.patience (now - r.timing.last_progress))) [
        | inl due ↦
            let asks = request_more q p r.decoders r.finished (total_blocks p) 0 in
            rw due (send_each-IsFlowing asks r.feedback h)
        | inr early ↦ rw early h
      ]

  -- Where every message is taken sooner or later, no round stalls.
  pub arrive-Flows :
      (r n : Receiver q w) (a : Arrival) → Flows r → arrive q w p r a ≡ ok n → Flows n
  unfolding arrive reject
  arrive-Flows r n (symbol now i payload) h e = receive_symbol-Flows r n now i payload h e
  arrive-Flows r n damaged h e = subst Flows (ok_inj e) h
  arrive-Flows r n (failed bad) h e = cc e
  arrive-Flows r n (elapsed now) h e = subst Flows (ok_inj e) (ask_again-Flows r now h)
