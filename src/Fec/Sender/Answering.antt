-- ===== src/Fec/Sender/Answering.antt =====
-- `apply_feedback` of src/aftp/fec/transfer.rs.
use agentic_file_transfer.Base.{
  ℕ, ◌+◌, ◌-◌, ◌*◌, ◌/◌, ◌%◌, ◌^◌, min, max, Bool, ◌&&◌, Option, some, none, ltb, leb, ◌==◌,
  if◌then◌else◌, Result, ok,
}
use agentic_file_transfer.Base.Fallible.{◌>>=◌}
use agentic_file_transfer.Base.Table.{Table, lookup, insert, remove, nat_eq}
use agentic_file_transfer.Fec.Encoder.{BlockEncoder, repair_symbols}
use agentic_file_transfer.Fec.Transfer.Blocks.{Feedback, need_more, block_ok}
use agentic_file_transfer.Fec.Sender.Line.{Environment, Line, send_all}

-- `((symbols_needed as f64) * 1.5).ceil() as u32`, at least 1. The product is exact, the cast
-- saturates.
abbrev pub overshoot : ℕ → ℕ
overshoot symbols_needed = max (min ((3 * symbols_needed + 1) / 2) (2 ^ 32 - 1)) 1

module _ (env : Environment) where
  -- `InFlight`, less its times, which only the pacer reads.
  pub record InFlight : Type 0 where
    pub encoder : BlockEncoder env.coder
    pub repair_cursor : ℕ
    pub rounds : ℕ
    pub feedback_symbols : ℕ
    pub spraying : Bool

  -- The blocks in flight, and how many are acknowledged.
  pub record Ledger : Type 0 where
    pub inflight : Table ℕ InFlight
    pub acked : ℕ

  -- What a `BlockOk` for a block in flight does to the estimates.
  unfoldable pub acknowledge : InFlight → ℕ → ℕ → Line env → Line env
  acknowledge f symbols_used symbol_size l =
      let rates = env.on_sample l.rates ((symbols_used - f.feedback_symbols) * symbol_size) in
      record l { rates = if f.rounds == 0 then env.decay_loss rates else rates }

  abbrev pub sent_count : InFlight → ℕ
  sent_count f = (f.encoder.source_symbol_count + f.repair_cursor) % 2 ^ 32

  -- The repair that a `NeedMore` asks for, behind the spray.
  unfoldable pub send_repair : ℕ → ℕ → ℕ → InFlight → Line env → Result (InFlight × Line env)
  unfolding repair_symbols send_all
  send_repair block_id symbols_needed symbols_received f l =
      let sent = sent_count f in
      let rates =
        if ltb 0 sent && leb symbols_received sent
        then env.observe_loss l.rates symbols_received sent
        else l.rates in
      let extra = overshoot symbols_needed in
      let symbols = repair_symbols env.coder f.encoder f.repair_cursor extra in
      let stats = record l.stats { repair_rounds = l.stats.repair_rounds + 1 } in
      do
        l' ← send_all env block_id symbols (record { out = l.out; rates = rates; stats = stats })
        ok (
          record f { repair_cursor = (f.repair_cursor + extra) % 2 ^ 32; rounds = f.rounds + 1 },
          l',
        )

  -- A `NeedMore` for a block in flight.
  unfoldable pub answer_need : ℕ → ℕ → ℕ → ℕ → InFlight → Line env → Result (InFlight × Line env)
  unfolding send_repair
  answer_need block_id symbols_needed symbols_received symbol_size f l =
      let delta = symbols_received - f.feedback_symbols in
      let l1 = record l { rates = env.on_sample l.rates (delta * symbol_size) } in
      let f1 = record f { feedback_symbols = max symbols_received f.feedback_symbols } in
      if f.spraying then ok (f1, l1) else send_repair block_id symbols_needed symbols_received f1 l1

  -- `BlockOk`, with the block that is taken out of the table, if it is there.
  unfoldable pub on_block_ok :
      ℕ → ℕ → ℕ → Option InFlight → Ledger → Line env → Result (Ledger × Line env)
  unfolding acknowledge remove
  on_block_ok block_id symbols_used symbol_size none g l = ok (g, l)
  on_block_ok block_id symbols_used symbol_size (some f) g l = ok (
    record { inflight = remove block_id g.inflight; acked = g.acked + 1 },
    acknowledge f symbols_used symbol_size l,
  )

  -- `NeedMore`, with the block in the table, if it is there.
  unfoldable pub on_need_more :
      ℕ → ℕ → ℕ → ℕ → Option InFlight → Ledger → Line env → Result (Ledger × Line env)
  unfolding answer_need insert
  on_need_more block_id needed received symbol_size none g l = ok (g, l)
  on_need_more block_id needed received symbol_size (some f) g l = do
    (f', l') ← answer_need block_id needed received symbol_size f l
    ok (record g { inflight = insert block_id f' g.inflight }, l')

  unfoldable pub apply_feedback : Feedback → ℕ → Ledger → Line env → Result (Ledger × Line env)
  unfolding on_block_ok on_need_more lookup
  apply_feedback (block_ok block_id symbols_used) symbol_size g l =
      on_block_ok block_id symbols_used symbol_size (lookup block_id g.inflight) g l
  apply_feedback (need_more block_id needed received) symbol_size g l =
      on_need_more block_id needed received symbol_size (lookup block_id g.inflight) g l
