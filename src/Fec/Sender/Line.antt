-- ===== src/Fec/Sender/Line.antt =====
-- What the sender of src/aftp/fec/transfer.rs sends through: pacing, loss estimate, sink and counts.
use agentic_file_transfer.Base.{ℕ, ◌+◌, List, [], ◌∷◌, Bool, length, Result, ok}
use agentic_file_transfer.Base.Fallible.{◌>>=◌}
use agentic_file_transfer.Fec.Encoder.{RaptorqEncoder}

-- What the loop gets from outside: the RaptorQ encoder, the sink (`trait SymbolSink`), the blocks
-- (`trait BlockReader`), and, as one state that may depend on the clock, the pacer and the loss
-- estimate, which are floating-point.
pub record Environment : Type 1 where
  pub coder : RaptorqEncoder
  pub Out : Type 0
  pub send_symbol : Out → ℕ → List ℕ → Result Out
  pub read_block : ℕ → ℕ → Result (List ℕ)
  pub Rates : Type 0
  pub is_sampled : Rates → Bool
  pub unsampled_allowance : ℕ
  pub acquire : Rates → ℕ → Rates
  pub on_sample : Rates → ℕ → Rates
  pub decay_loss : Rates → Rates
  pub observe_loss : Rates → ℕ → ℕ → Rates
  pub repair_symbol_count : ℕ → Rates → ℕ

pub record SendStats : Type 0 where
  pub symbols_sent : ℕ
  pub bytes_sent : ℕ
  pub repair_rounds : ℕ

module _ (env : Environment) where
  pub record Line : Type 0 where
    pub out : env.Out
    pub rates : env.Rates
    pub stats : SendStats

  -- `pace_and_send`; the sleep is not seen.
  unfoldable pub pace_and_send : ℕ → List ℕ → Line → Result Line
  pace_and_send block_id symbol l = do
    out ← env.send_symbol l.out block_id symbol
    ok (record {
      out = out;
      rates = env.acquire l.rates (length symbol);
      stats = record {
        symbols_sent = l.stats.symbols_sent + 1;
        bytes_sent = l.stats.bytes_sent + length symbol;
        repair_rounds = l.stats.repair_rounds;
      };
    })

  -- `for symbol in &symbols`
  unfoldable pub send_all : ℕ → List (List ℕ) → Line → Result Line
  unfolding pace_and_send
  send_all block_id [] l = ok l
  send_all block_id (symbol ∷ symbols) l = do
    l' ← pace_and_send block_id symbol l
    send_all block_id symbols l'
