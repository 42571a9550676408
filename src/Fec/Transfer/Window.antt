-- ===== src/Fec/Transfer/Window.antt =====
-- Proofs on the bound that `recv_object_into` of src/aftp/fec/transfer.rs puts on its decoders.
use agentic_file_transfer.Base.{
  ℕ, ◌-◌, ◌≤◌, ◌≡◌, max, List, [], ◌∷◌, Bool, true, false, not, ◌&&◌, Option, some, none, arith,
  length, leb, ltb, if◌then◌else◌, Result, ok, err, Bool-cases, Result-cases, inl, inr, leb→gt,
  subst,
}
use agentic_file_transfer.Base.Fallible.{>>=-eq-ok}
use agentic_file_transfer.Base.Table.{
  lookup, insert, has_key, nat_eq, length-insert, length-insert_in, length-remove,
}
use agentic_file_transfer.Frame.Yields.{ok_inj}
use agentic_file_transfer.Fec.Codec.{Raptorq, BlockDecoder, push, take_block, block_range}
use agentic_file_transfer.Fec.Transfer.Blocks.{FecParams, total_blocks, BlockWriter}
use agentic_file_transfer.Fec.Transfer.Receiver.{
  Arrival, symbol, damaged, failed, elapsed, is_done, Receiver, reject, open_decoder, finish_block,
  account, settle, receive_symbol, ask_again, arrive, Progress, returned, waiting, aborted, go_on,
  recv_loop,
}

module _ (q : Raptorq) (w : BlockWriter) (p : FecParams) where
  abbrev pub Fits : Receiver q w → Type 0
  Fits r = length r.decoders ≤ max p.window 1

  finish_block-Fits :
      (r n : Receiver q w) (i used : ℕ) (o : Option (List ℕ))
      → Fits r
      → finish_block q w p r i used o ≡ ok n
      → Fits n
  unfolding finish_block
  finish_block-Fits r n i used none h e = cc e
  finish_block-Fits r n i used (some b) h e =
      let (out, written, e1) =
        >>=-eq-ok (w.write_block r.out (block_range i p.block_size p.total_len).0 b) _ e in
      subst Fits (ok_inj e1) (omega (arith, length-remove i r.decoders))

  settle-Fits :
      (r n : Receiver q w) (now i : ℕ) (pushed : BlockDecoder q × Result Bool)
      → length (insert i pushed.0 r.decoders) ≤ max p.window 1
      → settle q w p r now i pushed ≡ ok n
      → Fits n
  unfolding settle account reject
  settle-Fits r n now i (d, ok false) h e = subst Fits (ok_inj e) h
  settle-Fits r n now i (d, ok true) h e =
      finish_block-Fits (account q w r now i d) n i d.accepted (take_block q d).1 h e
  settle-Fits r n now i (d, err bad) h e = subst Fits (ok_inj e) h

  room-Fits :
      (r : Receiver q w) (i : ℕ) (d : BlockDecoder q)
      → Fits r
      → (not (has_key i r.decoders) && leb (max p.window 1) (length r.decoders)) ≡ false
      → length (insert i d r.decoders) ≤ max p.window 1
  room-Fits r i d h room = elim (Bool-cases (has_key i r.decoders)) [
    | inl open_ ↦ omega (arith, length-insert_in i d r.decoders open_, h)
    | inr new ↦
        let below = leb→gt (max p.window 1) (length r.decoders) (rw new at room) in
        omega (arith, length-insert i d r.decoders, below)
  ]

  receive_symbol-Fits :
      (r n : Receiver q w) (now i : ℕ) (payload : List ℕ)
      → Fits r
      → receive_symbol q w p r now i payload ≡ ok n
      → Fits n
  unfolding receive_symbol reject
  receive_symbol-Fits r n now i payload h e = elim (Bool-cases (leb (total_blocks p) i)) [
    | inl beyond ↦ subst Fits (ok_inj (rw beyond at e)) h
    | inr below ↦ elim (Bool-cases (is_done r.finished i)) [
      | inl shut ↦ subst Fits (ok_inj (rw (below, shut) at e)) h
      | inr open_ ↦
          let full = not (has_key i r.decoders) && leb (max p.window 1) (length r.decoders) in
          elim (Bool-cases full) [
            | inl no_room ↦ subst Fits (ok_inj (rw (below, open_, no_room) at e)) h
            | inr room ↦
                let (d, opened, settled) =
                  >>=-eq-ok (open_decoder q w p (lookup i r.decoders) i) _
                    (rw (below, open_, room) at e) in
                settle-Fits r n now i (push q d payload) (room-Fits r i (push q d payload).0 h room)
                  settled
          ]
    ]
  ]

  ask_again-Fits : (r : Receiver q w) (now : ℕ) → Fits r → Fits (ask_again q w p r now)
  unfolding ask_again
  ask_again-Fits r now h =
      elim (Bool-cases (leb r.timing.patience (now - r.timing.last_progress))) [
        | inl due ↦ rw due h
        | inr early ↦ rw early h
      ]

  arrive-Fits : (r n : Receiver q w) (a : Arrival) → Fits r → arrive q w p r a ≡ ok n → Fits n
  unfolding arrive reject
  arrive-Fits r n (symbol now i payload) h e = receive_symbol-Fits r n now i payload h e
  arrive-Fits r n damaged h e = subst Fits (ok_inj e) h
  arrive-Fits r n (failed bad) h e = cc e
  arrive-Fits r n (elapsed now) h e = subst Fits (ok_inj e) (ask_again-Fits r now h)

  abbrev pub AlwaysFits : Progress q w → Type 0
  AlwaysFits (returned r) = Fits r
  AlwaysFits (waiting r) = Fits r
  AlwaysFits (aborted e) = Unit

  go_on-AlwaysFits :
      (n : Receiver q w) (loop : Receiver q w → Progress q w)
      → Fits n
      → AlwaysFits (loop n)
      → AlwaysFits (go_on q w loop (ok n))
  unfolding go_on
  go_on-AlwaysFits n loop h later = go n.feedback.stalled
    where
      go : (b : Bool) → AlwaysFits (if b then waiting n else loop n)
      go true = h
      go false = later

  -- However hostile the sender: after any sequence of arrivals the receiver holds no more decoders
  -- than the window, or one if the window is 0, provided that it started with no more.
  pub recv_loop_window :
      (arrivals : List Arrival) (r : Receiver q w)
      → Fits r
      → AlwaysFits (recv_loop q w p arrivals r)
  unfolding recv_loop
  recv_loop_window [] r h = elim (Bool-cases (ltb r.completed (total_blocks p))) [
    | inl more ↦ rw more h
    | inr finished ↦ rw finished h
  ]
  recv_loop_window (a ∷ later) r h = elim (Bool-cases (ltb r.completed (total_blocks p))) [
    | inr finished ↦ rw finished h
    | inl more ↦ elim (Result-cases (arrive q w p r a)) [
      | inr (bad, e) ↦ rw (more, e) tt
      | inl (n, e) ↦
          rw (more, e)
            (go_on-AlwaysFits n (recv_loop q w p later) (arrive-Fits r n a h e)
              (recv_loop_window later n (arrive-Fits r n a h e)))
    ]
  ]
