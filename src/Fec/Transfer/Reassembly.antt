-- ===== src/Fec/Transfer/Reassembly.antt =====
-- Proofs on `recv_object_into` of src/aftp/fec/transfer.rs and the bytes that it puts together.
use agentic_file_transfer.Base.{
  All, leb, max, ◌&&◌, not, leb→gt, ltb, ltb→ge, ◌-◌, [], ◌∷◌, none≢some, length-replicate,
  Result-cases, ℕ, ◌*◌, ◌^◌, ◌≤◌, ◌<◌, ◌≡◌, refl, sym, ◌∙◌, List, Bool, true, false, if◌then◌else◌,
  arith, length, ok, Bool-cases, inl, inr, subst,
}
use agentic_file_transfer.Base.Fallible.{>>=-eq-ok}
use agentic_file_transfer.Base.Table.{lookup, has_key, nat_eq}
use agentic_file_transfer.Base.Positions.{eq_of_get_or}
use agentic_file_transfer.Frame.Yields.{ok_inj}
use agentic_file_transfer.Fec.Codec.{Raptorq, push}
use agentic_file_transfer.Fec.Layout.{block_count_covers}
use agentic_file_transfer.Fec.Transfer.Blocks.{
  FecParams, Feedback, total_blocks, with_len, vec_blocks,
}
use agentic_file_transfer.Fec.Transfer.Regions.{block_at, Within-block}
use agentic_file_transfer.Fec.Transfer.Serving.{block, IsGenuine, open_decoder-Serves}
use agentic_file_transfer.Fec.Transfer.Receiver.{
  Arrival, symbol, damaged, failed, elapsed, is_done, Receiver, reject, open_decoder,
  receive_symbol, ask_again, arrive, Progress, returned, waiting, aborted, go_on, recv_loop,
  new_receiver, recv_object,
}
use agentic_file_transfer.Fec.Transfer.Fountain.{Fountain, push-Pushed}
use agentic_file_transfer.Fec.Transfer.Counting.{count_done-empty, count_done_all}
use agentic_file_transfer.Fec.Transfer.Settling.{Holds, Written-same, settle-Holds}

module _ (q : Raptorq) (f : Fountain q) (p : FecParams) (bytes : List ℕ) where
  module _ (same : p.total_len ≡ length bytes) where
    module _ (few : total_blocks p < 2 ^ 32) where
      pub receive_symbol-Holds :
          (r n : Receiver q vec_blocks) (now i : ℕ) (payload : List ℕ)
          → Holds q f p bytes r
          → IsGenuine q f p bytes (symbol now i payload)
          → receive_symbol q vec_blocks p r now i payload ≡ ok n
          → Holds q f p bytes n
      unfolding receive_symbol reject
      receive_symbol-Holds r n now i payload h genuine e =
          elim (Bool-cases (leb (total_blocks p) i)) [
            | inl beyond ↦ subst (Holds q f p bytes) (ok_inj (rw beyond at e)) (record {
              serving = h.serving;
              written =
                  Written-same q f p bytes same r (reject q vec_blocks r) refl refl refl h.written;
            })
            | inr below ↦ elim (Bool-cases (is_done r.finished i)) [
              | inl shut ↦ subst (Holds q f p bytes) (ok_inj (rw (below, shut) at e)) h
              | inr open_ ↦
                  let full =
                    not (has_key i r.decoders) && leb (max p.window 1) (length r.decoders) in
                  elim (Bool-cases full) [
                    | inl no_room ↦
                        subst (Holds q f p bytes) (ok_inj (rw (below, open_, no_room) at e))
                          (record {
                            serving = h.serving;
                            written =
                                Written-same q f p bytes same r (reject q vec_blocks r) refl refl
                                  refl h.written;
                          })
                    | inr room ↦
                        let (d, opened, settled) =
                          >>=-eq-ok (open_decoder q vec_blocks p (lookup i r.decoders) i) _
                            (rw (below, open_, room) at e) in
                        let s =
                          (open_decoder-Serves q f p bytes same) (lookup i r.decoders) i d
                            (h.serving i) opened in
                        settle-Holds q f p bytes same r n now i (push q d payload) s.config h
                          s.agreed
                          (push-Pushed q f s.config ((block q f p bytes) i) d payload s.tracks
                            (genuine (leb→gt _ _ below) s.config s.agreed))
                          (leb→gt _ _ below) few open_ settled
                  ]
            ]
          ]

      ask_again-Holds :
          (r : Receiver q vec_blocks) (now : ℕ)
          → Holds q f p bytes r
          → Holds q f p bytes (ask_again q vec_blocks p r now)
      unfolding ask_again
      ask_again-Holds r now h =
          elim (Bool-cases (leb r.timing.patience (now - r.timing.last_progress))) [
            | inl due ↦ rw due (record {
              serving = h.serving;
              written = Written-same q f p bytes same r _ refl refl refl h.written;
            })
            | inr early ↦ rw early h
          ]

      pub arrive-Holds :
          (r n : Receiver q vec_blocks) (a : Arrival)
          → Holds q f p bytes r
          → IsGenuine q f p bytes a
          → arrive q vec_blocks p r a ≡ ok n
          → Holds q f p bytes n
      unfolding arrive reject
      arrive-Holds r n (symbol now i payload) h genuine e =
          receive_symbol-Holds r n now i payload h genuine e
      arrive-Holds r n damaged h genuine e = subst (Holds q f p bytes) (ok_inj e) (record {
        serving = h.serving;
        written = Written-same q f p bytes same r (reject q vec_blocks r) refl refl refl h.written;
      })
      arrive-Holds r n (failed bad) h genuine e = cc e
      arrive-Holds r n (elapsed now) h genuine e =
          subst (Holds q f p bytes) (ok_inj e) (ask_again-Holds r now h)

      -- What the loop's state satisfies when it returns or waits.
      abbrev Ends : Progress q vec_blocks → Type 0
      Ends (returned r) = Holds q f p bytes r × (total_blocks p ≤ r.completed)
      Ends (waiting r) = Holds q f p bytes r
      Ends (aborted e) = Unit

      go_on-Ends :
          (n : Receiver q vec_blocks) (loop : Receiver q vec_blocks → Progress q vec_blocks)
          → Holds q f p bytes n
          → Ends (loop n)
          → Ends (go_on q vec_blocks loop (ok n))
      unfolding go_on
      go_on-Ends n loop h later = go n.feedback.stalled
        where
          go : (b : Bool) → Ends (if b then waiting n else loop n)
          go true = h
          go false = later

      recv_loop-Ends :
          (arrivals : List Arrival) (r : Receiver q vec_blocks)
          → All (IsGenuine q f p bytes) arrivals
          → Holds q f p bytes r
          → Ends (recv_loop q vec_blocks p arrivals r)
      unfolding recv_loop
      recv_loop-Ends [] r g h = elim (Bool-cases (ltb r.completed (total_blocks p))) [
        | inl more ↦ rw more h
        | inr finished ↦ rw finished (h, ltb→ge _ _ finished)
      ]
      recv_loop-Ends (a ∷ later) r (g, gs) h =
          elim (Bool-cases (ltb r.completed (total_blocks p))) [
            | inr finished ↦ rw finished (h, ltb→ge _ _ finished)
            | inl more ↦ elim (Result-cases (arrive q vec_blocks p r a)) [
              | inr (bad, e) ↦ rw (more, e) tt
              | inl (n, e) ↦
                  rw (more, e)
                    (go_on-Ends n (recv_loop q vec_blocks p later) (arrive-Holds r n a h g e)
                      (recv_loop-Ends later n gs (arrive-Holds r n a h g e)))
            ]
          ]

    pub all_right :
        (r : Receiver q vec_blocks)
        → total_blocks p < 2 ^ 32
        → Holds q f p bytes r
        → total_blocks p ≤ r.completed
        → 1 ≤ p.block_size
        → length bytes ≤ total_blocks p * p.block_size
        → r.out ≡ bytes
    all_right r few h full some_ cover = eq_of_get_or r.out bytes 0 h.written.long λ j small.
        let (i, below, lo, hi) =
          block_at j (total_blocks p) p.block_size (omega (arith, h.written.long, cover)) in
        let shut =
          count_done_all (total_blocks p) r.finished i (omega (arith, h.written.counted, full))
            below in
        h.written.right i shut j
          (Within-block bytes p.block_size i j lo hi (omega (arith, h.written.long)))

    pub new_receiver-Holds :
        (rtt_estimate now : ℕ) (takes : List Feedback → Bool)
        → Holds q f p bytes
            (new_receiver q vec_blocks rtt_estimate now takes (with_len p.total_len))
    unfolding new_receiver lookup is_done
    new_receiver-Holds rtt_estimate now takes = record {
      serving = λ i d found. none≢some found;
      written = record {
        counted = sym (count_done-empty (total_blocks p));
        right = λ i shut j within. cc shut;
        long = length-replicate p.total_len 0 ∙ same;
      };
    }

  -- Whatever is lost, repeated or reordered on the way, and whatever arrives for blocks that the
  -- transfer does not have: if the symbols for its blocks are symbols of those blocks, and the
  -- library's decoder yields nothing but the block whose symbols it was fed, then the object that
  -- recv_object returns is the one that was sent, for an object of the announced length, a block
  -- size of at least 1 and at most 2^32 - 1 blocks.
  pub recv_object_exact :
      (rtt_estimate now : ℕ) (takes : List Feedback → Bool) (arrivals : List Arrival)
      (r : Receiver q vec_blocks)
      → 1 ≤ p.block_size
      → p.total_len ≡ length bytes
      → length bytes ≤ (2 ^ 32 - 1) * p.block_size
      → All (IsGenuine q f p bytes) arrivals
      → recv_object q p rtt_estimate now takes arrivals ≡ returned r
      → r.out ≡ bytes
  unfolding recv_object
  recv_object_exact rtt_estimate now takes arrivals r some_ same fits genuine done =
      let (few, cover) =
        block_count_covers p.total_len p.block_size some_ (omega (arith, same, fits)) in
      let (h, full) : Holds q f p bytes r × (total_blocks p ≤ r.completed) =
        subst (Ends same few) done (
          recv_loop-Ends same few arrivals
            (new_receiver q vec_blocks rtt_estimate now takes (with_len p.total_len)) genuine
            (new_receiver-Holds same rtt_estimate now takes)) in
      all_right same r few h full some_ (omega (arith, cover, same))
