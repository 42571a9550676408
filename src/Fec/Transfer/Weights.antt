-- ===== src/Fec/Transfer/Weights.antt =====
-- Proofs on what one symbol does to the weights of the blocks, src/aftp/fec/transfer.rs.
use agentic_file_transfer.Base.{
  subst, ℕ, ◌+◌, ◌≤◌, ◌<◌, ◌≡◌, refl, ap, sym, ◌∙◌, List, Bool, true, false, Option, some, none,
  arith, ◌==◌, if◌then◌else◌, Result, ok, err, Bool-cases, inl, inr, ==_iff, ==_refl,
}
use agentic_file_transfer.Base.Fallible.{>>=-eq-ok}
use agentic_file_transfer.Base.Table.{
  Table, lookup, insert, remove, nat_eq, lookup-insert, lookup-remove,
}
use agentic_file_transfer.Frame.Yields.{ok_inj}
use agentic_file_transfer.Fec.Codec.{
  block_range, Oti, Raptorq, BlockDecoder, take_block, oti_for_block, new_decoder,
}
use agentic_file_transfer.Fec.Transfer.Blocks.{FecParams, block_len, vec_blocks, write_bytes}
use agentic_file_transfer.Fec.Transfer.Receiver.{
  is_done, Receiver, reject, open_decoder, finish_block, account, settle,
}
use agentic_file_transfer.Fec.Transfer.Counting.{is_done-insert}
use agentic_file_transfer.Fec.Transfer.Fountain.{Fountain}
use agentic_file_transfer.Fec.Transfer.Potential.{
  Converges, Advanced, open_weight, open_weight_pos, weight, weight_of,
}

module _ (q : Raptorq) (f : Fountain q) (c : Converges q f) where
  weight_of-insert :
      (decoders : Table ℕ (BlockDecoder q)) (finished : Table ℕ Bool) (i j : ℕ) (d : BlockDecoder q)
      → weight_of q f c (insert i d decoders) finished j ≡ (
          if j == i
          then weight q f c (is_done finished j) (some d)
          else weight_of q f c decoders finished j)
  weight_of-insert decoders finished i j d = elim (Bool-cases (j == i)) [
    | inl same ↦ rw (lookup-insert j i d decoders, same) refl
    | inr other ↦ rw (lookup-insert j i d decoders, other) refl
  ]

  weight_of-finish :
      (decoders : Table ℕ (BlockDecoder q)) (finished : Table ℕ Bool) (i j : ℕ) (d : BlockDecoder q)
      → weight_of q f c (remove i (insert i d decoders)) (insert i true finished) j
        ≡ (if j == i then 0 else weight_of q f c decoders finished j)
  weight_of-finish decoders finished i j d = elim (Bool-cases (j == i)) [
    | inl same ↦ rw (is_done-insert finished i j, same) refl
    | inr other ↦
        rw
          (
            is_done-insert finished i j,
            lookup-remove j i (insert i d decoders),
            lookup-insert j i d decoders,
            other,
          )
          refl
  ]

  new_decoder-inner :
      (config : Oti) (len : ℕ) (d : BlockDecoder q)
      → new_decoder q config len ≡ ok d
      → q.start config ≡ d.inner
  unfolding new_decoder
  new_decoder-inner config len d made = ground arith

  module _ (p : FecParams) where
    abbrev pub left : Receiver q vec_blocks → ℕ → ℕ
    left r = weight_of q f c r.decoders r.finished

    -- No block is farther from its end, and block `i` is nearer if `new`.
    abbrev pub Nears : Receiver q vec_blocks → Receiver q vec_blocks → ℕ → Type 0 → Type 0
    Nears r n i New = ((j : ℕ) → left n j ≤ left r j) × (New → left n i < left r i)

    kept-Nears :
        (r n : Receiver q vec_blocks) (i : ℕ) (d e : BlockDecoder q) (New : Type 0)
        → is_done r.finished i ≡ false
        → c.missing d.inner + 1 ≤ open_weight q f c (lookup i r.decoders)
        → (c.missing e.inner ≤ c.missing d.inner) × (New → c.missing e.inner < c.missing d.inner)
        → n.decoders ≡ insert i e r.decoders
        → n.finished ≡ r.finished
        → Nears r n i New
    kept-Nears r n i d e New open_ opened (stays, nears) ds fs =
        let at : (j : ℕ)
            → left n j
              ≡ (if j == i then weight q f c (is_done r.finished j) (some e) else left r j) =
          λ j.
            ap (λ t. weight_of q f c t n.finished j) ds
            ∙ ap (λ t. weight_of q f c (insert i e r.decoders) t j) fs
            ∙ weight_of-insert r.decoders r.finished i j e in
        let before : left r i ≡ open_weight q f c (lookup i r.decoders) = rw open_ refl in
        let after : left n i ≡ c.missing e.inner + 1 = at i ∙ rw (==_refl i, open_) refl in
        (
          λ j. elim (Bool-cases (j == i)) [
            | inl same ↦
                subst (λ k. left n k ≤ left r k) (sym ((==_iff j i).0 same))
                  (omega (arith, before, after, opened, stays))
            | inr other ↦
                let untouched : left n j ≡ left r j = at j ∙ rw other refl in
                omega (arith, untouched)
          ],
          λ new. omega (arith, before, after, opened, nears new),
        )

    finished-Nears :
        (r n : Receiver q vec_blocks) (i : ℕ) (e : BlockDecoder q) (New : Type 0)
        → is_done r.finished i ≡ false
        → n.decoders ≡ remove i (insert i e r.decoders)
        → n.finished ≡ insert i true r.finished
        → Nears r n i New
    finished-Nears r n i e New open_ ds fs =
        let at : (j : ℕ) → left n j ≡ (if j == i then 0 else left r j) = λ j.
          ap (λ t. weight_of q f c t n.finished j) ds
          ∙ ap (λ t. weight_of q f c (remove i (insert i e r.decoders)) t j) fs
          ∙ weight_of-finish r.decoders r.finished i j e in
        let before : left r i ≡ open_weight q f c (lookup i r.decoders) = rw open_ refl in
        let after : left n i ≡ 0 = at i ∙ rw (==_refl i) refl in
        (
          λ j. elim (Bool-cases (j == i)) [
            | inl same ↦
                subst (λ k. left n k ≤ left r k) (sym ((==_iff j i).0 same)) (omega (arith, after))
            | inr other ↦
                let untouched : left n j ≡ left r j = at j ∙ rw other refl in
                omega (arith, untouched)
          ],
          λ new. omega (arith, before, after, open_weight_pos q f c (lookup i r.decoders)),
        )

    pub same-Nears :
        (r n : Receiver q vec_blocks)
        → n.decoders ≡ r.decoders
        → n.finished ≡ r.finished
        → (j : ℕ) → left n j ≤ left r j
    same-Nears r n ds fs j =
        let e : left n j ≡ left r j =
          ap (λ t. weight_of q f c t n.finished j) ds
          ∙ ap (λ t. weight_of q f c r.decoders t j) fs in
        omega (arith, e)

    finish_block-shape :
        (r n : Receiver q vec_blocks) (i used : ℕ) (o : Option (List ℕ))
        → finish_block q vec_blocks p r i used o ≡ ok n
        → (n.decoders ≡ remove i r.decoders) × (n.finished ≡ insert i true r.finished)
    unfolding finish_block
    finish_block-shape r n i used none e = cc e
    finish_block-shape r n i used (some b) e =
        let (out, written, e1) =
          >>=-eq-ok (write_bytes r.out (block_range i p.block_size p.total_len).0 b) _ e in
        (ap (λ t. t.decoders) (sym (ok_inj e1)), ap (λ t. t.finished) (sym (ok_inj e1)))

    pub settle-Nears :
        (r n : Receiver q vec_blocks) (now i : ℕ) (d : BlockDecoder q) (payload : List ℕ)
        (pushed : BlockDecoder q × Result Bool)
        → is_done r.finished i ≡ false
        → c.missing d.inner + 1 ≤ open_weight q f c (lookup i r.decoders)
        → Advanced q f c d payload pushed
        → settle q vec_blocks p r now i pushed ≡ ok n
        → Nears r n i (c.IsNew d.inner payload)
    unfolding settle account reject
    settle-Nears r n now i d payload (e, ok false) open_ opened a done =
        kept-Nears r n i d e (c.IsNew d.inner payload) open_ opened a
          (ap (λ t. t.decoders) (sym (ok_inj done))) (ap (λ t. t.finished) (sym (ok_inj done)))
    settle-Nears r n now i d payload (e, ok true) open_ opened a done =
        let (ds, fs) =
          finish_block-shape (account q vec_blocks r now i e) n i e.accepted (take_block q e).1
            done in
        finished-Nears r n i e (c.IsNew d.inner payload) open_ ds fs
    settle-Nears r n now i d payload (e, err bad) open_ opened a done = absurd a

    pub open_decoder-weight :
        (o : Option (BlockDecoder q)) (i : ℕ) (d : BlockDecoder q)
        → open_decoder q vec_blocks p o i ≡ ok d
        → c.missing d.inner + 1 ≤ open_weight q f c o
    unfolding open_decoder
    open_decoder-weight (some e) i d h = rw (ok_inj h) (omega arith)
    open_decoder-weight none i d h =
        let (config, agreed, made) = >>=-eq-ok (oti_for_block (block_len p i) p.symbol_size) _ h in
        let e : q.start config ≡ d.inner = new_decoder-inner config (block_len p i) d made in
        rw (← e) (omega (arith, c.starts config))
