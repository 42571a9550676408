-- ===== src/Fec/Transfer/Liveness.antt =====
-- Proofs that `recv_object_into` of src/aftp/fec/transfer.rs returns.
use agentic_file_transfer.Base.{
  ℕ, zero, suc, ◌+◌, ◌-◌, ◌*◌, ◌^◌, ◌≤◌, ◌<◌, ◌≡◌, ◌⊎◌, refl, List, [], ◌∷◌, Bool, true, false,
  arith, length, ltb, ok, Bool-cases, All, inl, inr, ge→ltb,
}
use agentic_file_transfer.Base.Table.{lookup, nat_eq}
use agentic_file_transfer.Fec.Codec.{Raptorq}
use agentic_file_transfer.Fec.Transfer.Blocks.{
  FecParams, Feedback, total_blocks, vec_blocks, with_len,
}
use agentic_file_transfer.Fec.Transfer.Receiver.{
  Arrival, is_done, Receiver, new_receiver, arrive, Progress, returned, waiting, aborted, go_on,
  recv_loop, recv_object,
}
use agentic_file_transfer.Fec.Transfer.Channel.{new_channel-IsFlowing}
use agentic_file_transfer.Fec.Transfer.Flowing.{Flows, arrive-Flows}
use agentic_file_transfer.Fec.Transfer.Fountain.{Fountain}
use agentic_file_transfer.Fec.Transfer.Serving.{IsGenuine}
use agentic_file_transfer.Fec.Transfer.Settling.{Holds}
use agentic_file_transfer.Fec.Transfer.Reassembly.{
  arrive-Holds, new_receiver-Holds, recv_object_exact,
}
use agentic_file_transfer.Fec.Transfer.Nearing.{IsUseful, potential, arrive-potential}
use agentic_file_transfer.Fec.Transfer.Totality.{HasCodec, IsDelivered, arrive-total}
use agentic_file_transfer.Fec.Transfer.Potential.{Converges, sum_below_open, sum_below_bound}

module _ (q : Raptorq) (f : Fountain q) (c : Converges q f) (p : FecParams) (bytes : List ℕ)
    (same : p.total_len ≡ length bytes) (few : total_blocks p < 2 ^ 32) where
  -- Among the arrivals are `k` that are useful when they arrive.
  abbrev pub Supplies : ℕ → List Arrival → Receiver q vec_blocks → Type 0
  Supplies zero arrivals r = Unit
  Supplies (suc k) [] r = ⊥
  Supplies (suc k) (a ∷ later) r =
      (n : Receiver q vec_blocks)
      → arrive q vec_blocks p r a ≡ ok n
      → (IsUseful q f c p bytes same few r a × Supplies k later n) ⊎ Supplies (suc k) later n

  abbrev Returns : Progress q vec_blocks → Type 0
  Returns (returned r) = Unit
  Returns (waiting r) = ⊥
  Returns (aborted e) = ⊥

  complete_at_zero :
      (r : Receiver q vec_blocks)
      → Holds q f p bytes r
      → potential q f c p bytes same few r ≤ 0
      → ltb r.completed (total_blocks p) ≡ false
  complete_at_zero r h small =
      let open_ = sum_below_open q f c (total_blocks p) r.decoders r.finished in
      ge→ltb _ _ (omega (arith, open_, small, h.written.counted))

  recv_loop-Returns :
      (k : ℕ) (arrivals : List Arrival) (r : Receiver q vec_blocks)
      → HasCodec p
      → Holds q f p bytes r
      → Flows q vec_blocks p r
      → All (IsGenuine q f p bytes) arrivals
      → All IsDelivered arrivals
      → potential q f c p bytes same few r ≤ k
      → Supplies k arrivals r
      → Returns (recv_loop q vec_blocks p arrivals r)
  unfolding recv_loop go_on
  recv_loop-Returns zero [] r codec h flows gs ds small supply = rw (complete_at_zero r h small) tt
  recv_loop-Returns (suc k) [] r codec h flows gs ds small supply = absurd supply
  recv_loop-Returns zero (a ∷ later) r codec h flows gs ds small supply =
      rw (complete_at_zero r h small) tt
  recv_loop-Returns (suc k) (a ∷ later) r codec h flows (g, gs) (d, ds) small supply =
      elim (Bool-cases (ltb r.completed (total_blocks p))) [
        | inr over ↦ rw over tt
        | inl more ↦
            let (n, e) = arrive-total q f p bytes same r a codec h g d in
            let (stays, nears) = arrive-potential q f c p bytes same few r n a h g e in
            let held = arrive-Holds q f p bytes same few r n a h g e in
            let flowing = arrive-Flows q vec_blocks p r n a flows e in
            rw (more, e, flowing.moving)
              (elim (supply n e) [
                | inl (useful, rest) ↦
                    recv_loop-Returns k later n codec held flowing gs ds
                      (omega (arith, nears useful, small)) rest
                | inr rest ↦
                    recv_loop-Returns (suc k) later n codec held flowing gs ds
                      (omega (arith, stays, small)) rest
              ])
      ]

  Returns-inv :
      (progress : Progress q vec_blocks)
      → Returns progress
      → (r : Receiver q vec_blocks) × (progress ≡ returned r)
  Returns-inv (returned r) h = (r, refl)
  Returns-inv (waiting r) h = absurd h
  Returns-inv (aborted e) h = absurd h

  new_receiver-potential :
      (rtt_estimate now : ℕ) (takes : List Feedback → Bool)
      → potential q f c p bytes same few
          (new_receiver q vec_blocks rtt_estimate now takes (with_len p.total_len))
        ≤ total_blocks p * (c.budget + 1)
  unfolding new_receiver is_done lookup
  new_receiver-potential rtt_estimate now takes =
      sum_below_bound (total_blocks p) (c.budget + 1) _ (λ i. omega arith)

  new_receiver-Flows :
      (rtt_estimate now : ℕ) (takes : List Feedback → Bool)
      → ((sent : List Feedback) → takes sent ≡ true)
      → Flows q vec_blocks p
          (new_receiver q vec_blocks rtt_estimate now takes (with_len p.total_len))
  unfolding new_receiver
  new_receiver-Flows rtt_estimate now takes flowing = new_channel-IsFlowing takes flowing

  -- If the data plane does not fail, the channel of feedback takes every message sooner or later,
  -- symbols that arrive for a block are that block's, each decoder misses at most `budget` symbols
  -- at the start and fewer with every symbol that is new to it, and among the arrivals there are as
  -- many as block_count * (budget + 1) that are for an open block with room in the window and new to
  -- its decoder, then recv_object returns, and what it returns is the object that was sent, whatever
  -- else arrives in between and in whatever order. The block size is at least 1, the object is as
  -- long as the parameters say and at most 2^32 - 1 blocks, and every block has parameters that
  -- RaptorQ accepts.
  pub recv_object_live :
      (rtt_estimate now : ℕ) (takes : List Feedback → Bool) (arrivals : List Arrival)
      → 1 ≤ p.block_size
      → length bytes ≤ (2 ^ 32 - 1) * p.block_size
      → HasCodec p
      → All (IsGenuine q f p bytes) arrivals
      → All IsDelivered arrivals
      → ((sent : List Feedback) → takes sent ≡ true)
      → Supplies
          (total_blocks p * (c.budget + 1))
          arrivals
          (new_receiver q vec_blocks rtt_estimate now takes (with_len p.total_len))
      → (r : Receiver q vec_blocks) × (recv_object q p rtt_estimate now takes arrivals ≡ returned r)
        × (r.out ≡ bytes)
  unfolding recv_object
  recv_object_live rtt_estimate now takes arrivals some_ fits codec genuine delivered flowing
        supply =
      let start = new_receiver q vec_blocks rtt_estimate now takes (with_len p.total_len) in
      let (r, e) = Returns-inv (recv_loop q vec_blocks p arrivals start) (
        recv_loop-Returns (total_blocks p * (c.budget + 1)) arrivals start codec
          (new_receiver-Holds q f p bytes same rtt_estimate now takes)
          (new_receiver-Flows rtt_estimate now takes flowing) genuine delivered
          (new_receiver-potential rtt_estimate now takes) supply) in
      (
        r,
        e,
        recv_object_exact q f p bytes rtt_estimate now takes arrivals r some_ same fits genuine e,
      )
