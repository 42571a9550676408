-- ===== src/Fec/Transfer/Nearing.antt =====
-- Proofs that no round of `recv_object_into` of src/aftp/fec/transfer.rs leads away from the end.
use agentic_file_transfer.Base.{
  subst, ℕ, ◌-◌, ◌^◌, ◌≤◌, ◌<◌, ◌≡◌, ap, sym, max, List, Bool, false, not, ◌&&◌, arith, length, leb,
  ok, Bool-cases, inl, inr, leb→le, leb→gt,
}
use agentic_file_transfer.Base.Fallible.{>>=-eq-ok}
use agentic_file_transfer.Base.Table.{lookup, has_key, nat_eq}
use agentic_file_transfer.Frame.Yields.{ok_inj}
use agentic_file_transfer.Fec.Codec.{Raptorq, BlockDecoder, push}
use agentic_file_transfer.Fec.Transfer.Blocks.{FecParams, total_blocks, vec_blocks}
use agentic_file_transfer.Fec.Transfer.Receiver.{
  Arrival, symbol, damaged, failed, elapsed, is_done, Receiver, reject, open_decoder,
  receive_symbol, ask_again, arrive,
}
use agentic_file_transfer.Fec.Transfer.Fountain.{Fountain}
use agentic_file_transfer.Fec.Transfer.Serving.{block, IsGenuine, open_decoder-Serves}
use agentic_file_transfer.Fec.Transfer.Settling.{Holds}
use agentic_file_transfer.Fec.Transfer.Potential.{
  Converges, push-Advanced, sum_below, sum_below_le, sum_below_lt,
}
use agentic_file_transfer.Fec.Transfer.Weights.{left, same-Nears, settle-Nears, open_decoder-weight}

module _ (q : Raptorq) (f : Fountain q) (c : Converges q f) where
  module _ (p : FecParams) where
    module _ (bytes : List ℕ) (same : p.total_len ≡ length bytes)
        (few : total_blocks p < 2 ^ 32) where
      abbrev pub is_full : Receiver q vec_blocks → ℕ → Bool
      is_full r i = not (has_key i r.decoders) && leb (max p.window 1) (length r.decoders)

      -- A symbol that brings the receiver closer to the end: its block is open, there is room for it
      -- in the window, and it is new to the block's decoder.
      abbrev pub IsUseful : Receiver q vec_blocks → Arrival → Type 0
      IsUseful r (symbol now i payload) =
          (i < total_blocks p)
          × (is_done r.finished i ≡ false)
          × (is_full r i ≡ false)
          × ((d : BlockDecoder q)
              → open_decoder q vec_blocks p (lookup i r.decoders) i ≡ ok d
              → c.IsNew d.inner payload)
      IsUseful r damaged = ⊥
      IsUseful r (failed e) = ⊥
      IsUseful r (elapsed now) = ⊥

      -- The blocks' weights, summed up.
      abbrev pub potential : Receiver q vec_blocks → ℕ
      potential r = sum_below (total_blocks p) (left q f c p r)

      receive_symbol-Nears :
          (r n : Receiver q vec_blocks) (now i : ℕ) (payload : List ℕ)
          → Holds q f p bytes r
          → IsGenuine q f p bytes (symbol now i payload)
          → receive_symbol q vec_blocks p r now i payload ≡ ok n
          → ((j : ℕ) → left q f c p n j ≤ left q f c p r j)
            × (IsUseful r (symbol now i payload)
                → (i < total_blocks p) × (left q f c p n i < left q f c p r i))
      unfolding receive_symbol reject
      receive_symbol-Nears r n now i payload h genuine e =
          elim (Bool-cases (leb (total_blocks p) i)) [
            | inl beyond ↦
                let out = ok_inj (rw beyond at e) in
                (
                  same-Nears q f c p r n (ap (λ t. t.decoders) (sym out))
                      (ap (λ t. t.finished) (sym out)),
                  λ useful. absurd (omega (arith, leb→le _ _ beyond, useful.0)),
                )
            | inr below ↦ elim (Bool-cases (is_done r.finished i)) [
              | inl shut ↦
                  let out = ok_inj (rw (below, shut) at e) in
                  (
                    same-Nears q f c p r n (ap (λ t. t.decoders) (sym out))
                        (ap (λ t. t.finished) (sym out)),
                    λ useful. cc (useful.1, shut),
                  )
              | inr open_ ↦ elim (Bool-cases (is_full r i)) [
                | inl no_room ↦
                    let out = ok_inj (rw (below, open_, no_room) at e) in
                    (
                      same-Nears q f c p r n (ap (λ t. t.decoders) (sym out))
                          (ap (λ t. t.finished) (sym out)),
                      λ useful. cc (useful.2, no_room),
                    )
                | inr room ↦
                    let (d, opened, settled) =
                      >>=-eq-ok (open_decoder q vec_blocks p (lookup i r.decoders) i) _
                        (rw (below, open_, room) at e) in
                    let s =
                      open_decoder-Serves q f p bytes same (lookup i r.decoders) i d (h.serving i)
                        opened in
                    let a =
                      push-Advanced q f c s.config (block q f p bytes i) d payload s.tracks
                        (genuine (leb→gt _ _ below) s.config s.agreed) in
                    let (all, strict) =
                      settle-Nears q f c p r n now i d payload (push q d payload) open_
                        (open_decoder-weight q f c p (lookup i r.decoders) i d opened) a settled in
                    (all, λ useful. (leb→gt _ _ below, strict (useful.3 d opened)))
              ]
            ]
          ]

      ask_again-Nears :
          (r : Receiver q vec_blocks) (now j : ℕ)
          → left q f c p (ask_again q vec_blocks p r now) j ≤ left q f c p r j
      unfolding ask_again
      ask_again-Nears r now j =
          elim (Bool-cases (leb r.timing.patience (now - r.timing.last_progress))) [
            | inl due ↦ rw due (omega arith)
            | inr early ↦ rw early (omega arith)
          ]

      pub arrive-potential :
          (r n : Receiver q vec_blocks) (a : Arrival)
          → Holds q f p bytes r
          → IsGenuine q f p bytes a
          → arrive q vec_blocks p r a ≡ ok n
          → (potential n ≤ potential r) × (IsUseful r a → potential n < potential r)
      unfolding arrive reject
      arrive-potential r n (symbol now i payload) h genuine e =
          let (all, strict) = receive_symbol-Nears r n now i payload h genuine e in
          (
            sum_below_le (total_blocks p) (left q f c p n) (left q f c p r) all,
            λ useful.
                let (below, less) = strict useful in
                sum_below_lt (total_blocks p) i (left q f c p n) (left q f c p r) all below less,
          )
      arrive-potential r n damaged h genuine e =
          let out = ok_inj e in
          (
            sum_below_le (total_blocks p) (left q f c p n) (left q f c p r) (
                same-Nears q f c p r n (ap (λ t. t.decoders) (sym out))
                  (ap (λ t. t.finished) (sym out))),
            λ useful. absurd useful,
          )
      arrive-potential r n (failed bad) h genuine e = cc e
      arrive-potential r n (elapsed now) h genuine e = (
        subst (λ t. potential t ≤ potential r) (ok_inj e)
            (sum_below_le (total_blocks p) (left q f c p (ask_again q vec_blocks p r now))
              (left q f c p r) (ask_again-Nears r now)),
        λ useful. absurd useful,
      )
