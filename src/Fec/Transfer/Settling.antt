-- ===== src/Fec/Transfer/Settling.antt =====
-- Proofs on the invariant of `recv_object_into` of src/aftp/fec/transfer.rs.
use agentic_file_transfer.Base.{
  ℕ, ◌+◌, ◌*◌, ◌%◌, ◌^◌, ◌≤◌, ◌<◌, ◌≡◌, refl, ap, sym, ◌∙◌, List, Bool, true, false, Option, some,
  none, arith, length, ◌==◌, Result, ok, err, Bool-cases, inl, inr, ==_iff, subst,
}
use agentic_file_transfer.Base.Fallible.{>>=-eq-ok}
use agentic_file_transfer.Base.Table.{insert, remove, nat_eq}
use agentic_file_transfer.Base.Positions.{splice, length-splice}
use agentic_file_transfer.Frame.Yields.{ok_inj}
use agentic_file_transfer.Fec.Codec.{
  block_range, Oti, oti_for_block, Raptorq, BlockDecoder, take_block,
}
use agentic_file_transfer.Fec.Transfer.Blocks.{
  FecParams, total_blocks, block_len, write_bytes, vec_blocks,
}
use agentic_file_transfer.Fec.Transfer.Regions.{
  write_bytes-ok, Right, Within, splice-Right, splice-keeps_Right,
}
use agentic_file_transfer.Fec.Transfer.Serving.{
  block, Serving, Serving-insert, Serving-remove-insert,
}
use agentic_file_transfer.Fec.Transfer.Receiver.{
  is_done, Receiver, reject, finish_block, account, settle,
}
use agentic_file_transfer.Fec.Transfer.Fountain.{Fountain, Pushed}
use agentic_file_transfer.Fec.Transfer.Counting.{
  is_done-insert, count_done, count_done-insert, count_done_bounds,
}

module _ (q : Raptorq) (f : Fountain q) (p : FecParams) (bytes : List ℕ) where
  -- What is finished is counted and stands where it belongs.
  pub record Written (r : Receiver q vec_blocks) : Type 0 where
    pub counted : r.completed ≡ count_done (total_blocks p) r.finished
    pub right :
        (i : ℕ)
        → is_done r.finished i ≡ true
        → (j : ℕ) → Within bytes p.block_size i j
        → Right bytes p.block_size r.out j
    pub long : length r.out ≡ length bytes

  pub record Holds (r : Receiver q vec_blocks) : Type 0 where
    pub serving : Serving q f p bytes r.decoders
    pub written : Written r

  module _ (same : p.total_len ≡ length bytes) where
    finish_block-Holds :
        (r n : Receiver q vec_blocks) (i used : ℕ) (o : Option (List ℕ))
        → Serving q f p bytes (remove i r.decoders)
        → Written r
        → o ≡ some ((block q f p bytes) i)
        → i < total_blocks p
        → total_blocks p < 2 ^ 32
        → is_done r.finished i ≡ false
        → finish_block q vec_blocks p r i used o ≡ ok n
        → Holds n
    unfolding finish_block block_range
    finish_block-Holds r n i used none serving h it small few open_ done = cc it
    finish_block-Holds r n i used (some b) serving h it small few open_ done =
        let (out, written, e) = >>=-eq-ok (write_bytes r.out (i * p.block_size) b) _ done in
        let (fits, put) = write_bytes-ok r.out (i * p.block_size) b out written in
        let is_block : b ≡ (block q f p bytes) i = cc it in
        let fits' : i * p.block_size + length ((block q f p bytes) i) ≤ length r.out =
          subst (λ c. i * p.block_size + length c ≤ length r.out) is_block fits in
        let put' : splice r.out (i * p.block_size) ((block q f p bytes) i) ≡ out =
          subst (λ c. splice r.out (i * p.block_size) c ≡ out) is_block put in
        let room = count_done_bounds (total_blocks p) (insert i true r.finished) in
        let more = count_done-insert (total_blocks p) i r.finished small open_ in
        let counted : (r.completed + 1) % 2 ^ 32
            ≡ count_done (total_blocks p) (insert i true r.finished) =
          omega (arith, room, more, h.counted, few) in
        subst Holds (ok_inj e) (record {
          serving = serving;
          written = record {
            counted = counted;
            right = λ k shut j within.
                subst (λ o. Right bytes p.block_size o j) put'
                  (elim (Bool-cases (k == i)) [
                    | inl this ↦
                        splice-Right bytes p.block_size r.out i j fits'
                          (subst (λ t. Within bytes p.block_size t j) ((==_iff k i).0 this) within)
                    | inr other ↦ splice-keeps_Right bytes p.block_size r.out i j fits' (
                        h.right k (sym (rw other refl) ∙ sym (is_done-insert r.finished i k) ∙ shut)
                          j within)
                  ]);
            long =
                ap length (sym put')
                ∙ length-splice r.out (i * p.block_size) ((block q f p bytes) i) fits'
                ∙ h.long;
          };
        })

    pub Written-same :
        (r n : Receiver q vec_blocks)
        → r.completed ≡ n.completed
        → r.finished ≡ n.finished
        → r.out ≡ n.out
        → Written r
        → Written n
    Written-same r n c d o h = record {
      counted = sym c ∙ h.counted ∙ ap (count_done (total_blocks p)) d;
      right = λ i shut j within.
          subst (λ t. Right bytes p.block_size t j) o
            (h.right i (ap (λ t. is_done t i) d ∙ shut) j within);
      long = ap length (sym o) ∙ h.long;
    }

    pub settle-Holds :
        (r n : Receiver q vec_blocks) (now i : ℕ) (pushed : BlockDecoder q × Result Bool)
        (config : Oti)
        → Holds r
        → oti_for_block (block_len p i) p.symbol_size ≡ ok config
        → Pushed q f config ((block q f p bytes) i) pushed
        → i < total_blocks p
        → total_blocks p < 2 ^ 32
        → is_done r.finished i ≡ false
        → settle q vec_blocks p r now i pushed ≡ ok n
        → Holds n
    unfolding settle take_block account reject
    settle-Holds r n now i (d, ok false) config h agreed tracks small few open_ e =
        subst Holds (ok_inj e) (record {
          serving =
              (Serving-insert q f p bytes) r.decoders i d h.serving
                (record { config = config; agreed = agreed; tracks = tracks });
          written = Written-same r (account q vec_blocks r now i d) refl refl refl h.written;
        })
    settle-Holds r n now i (d, ok true) config h agreed yielded small few open_ e =
        finish_block-Holds (account q vec_blocks r now i d) n i d.accepted d.result
          ((Serving-remove-insert q f p bytes) r.decoders i d h.serving)
          (Written-same r (account q vec_blocks r now i d) refl refl refl h.written) yielded small
          few open_ e
    settle-Holds r n now i (d, err bad) config h agreed tracks small few open_ e =
        let kept = record r { decoders = insert i d r.decoders } in
        subst Holds (ok_inj e) (record {
          serving =
              (Serving-insert q f p bytes) r.decoders i d h.serving
                (record { config = config; agreed = agreed; tracks = tracks });
          written = Written-same r (reject q vec_blocks kept) refl refl refl h.written;
        })
