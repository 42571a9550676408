-- ===== src/Fec/Transfer/Potential.antt =====
-- How far a receiver of src/aftp/fec/transfer.rs is from the end, if every symbol that is new to a
-- decoder brings it closer to its block.
use agentic_file_transfer.Base.{
  subst, ℕ, zero, suc, ◌+◌, ◌*◌, ◌%◌, ◌^◌, ◌≤◌, ◌<◌, ◌≡◌, refl, ap, sym, ◌∙◌, List, Bool, true,
  false, Option, some, none, arith, length, leb, ◌==◌, Result, ok, err, Bool-cases, inl, inr,
  ==_iff,
}
use agentic_file_transfer.Base.Table.{Table, lookup, nat_eq}
use agentic_file_transfer.Fec.Codec.{
  Oti, Raptorq, BlockDecoder, take_decoded, push_symbol, push_unless_complete, push,
}
use agentic_file_transfer.Fec.Transfer.Receiver.{is_done}
use agentic_file_transfer.Fec.Transfer.Counting.{count_done}
use agentic_file_transfer.Fec.Transfer.Fountain.{Fountain, Tracks}

-- The rank argument behind fountain codes: a decoder misses a number of symbols, no symbol makes it
-- miss more, and one that is new to it makes it miss fewer or yields the block.
pub record Converges (q : Raptorq) (f : Fountain q) : Type 1 where
  pub missing : q.Decoder → ℕ
  pub IsNew : q.Decoder → List ℕ → Type 0
  pub budget : ℕ
  pub starts : (config : Oti) → missing (q.start config) ≤ budget
  -- A symbol is longer than the 4 bytes of its identifier.
  pub long :
      (config : Oti) (block payload : List ℕ) → f.IsSymbol config block payload → 4 < length payload
  pub stays :
      (config : Oti) (block : List ℕ) (d : q.Decoder) (payload : List ℕ)
      → f.Follows config block d
      → f.IsSymbol config block payload
      → missing (q.decode d payload).0 ≤ missing d
  pub nears :
      (config : Oti) (block : List ℕ) (d : q.Decoder) (payload : List ℕ)
      → f.Follows config block d
      → f.IsSymbol config block payload
      → IsNew d payload
      → (q.decode d payload).1 ≡ none
      → missing (q.decode d payload).0 < missing d

module _ (q : Raptorq) (f : Fountain q) (c : Converges q f) where
  -- A push that does not yield the block.
  abbrev pub Advanced : BlockDecoder q → List ℕ → BlockDecoder q × Result Bool → Type 0
  Advanced d payload (n, ok true) = Unit
  Advanced d payload (n, ok false) =
      (c.missing n.inner ≤ c.missing d.inner)
      × (c.IsNew d.inner payload → c.missing n.inner < c.missing d.inner)
  Advanced d payload (n, err e) = ⊥

  take_decoded-Advanced :
      (config : Oti) (block : List ℕ) (d : BlockDecoder q) (payload : List ℕ) (o : Option (List ℕ))
      → Tracks q f config block d
      → f.IsSymbol config block payload
      → (q.decode d.inner payload).1 ≡ o
      → Advanced d payload (take_decoded q d ((q.decode d.inner payload).0, o))
  unfolding take_decoded
  take_decoded-Advanced config block d payload none t s e = (
    c.stays config block d.inner payload t.follows s,
    λ new. c.nears config block d.inner payload t.follows s new e,
  )
  take_decoded-Advanced config block d payload (some out) t s e =
      let same = f.yields config block d.inner payload out t.follows s e in
      let fits : (length out == d.expected_len) ≡ true =
        (==_iff (length out) d.expected_len).1 (ap length same ∙ sym t.promised) in
      rw fits tt

  push_symbol-Advanced :
      (config : Oti) (block : List ℕ) (d : BlockDecoder q) (payload : List ℕ)
      → Tracks q f config block d
      → f.IsSymbol config block payload
      → Advanced d payload (push_symbol q d payload)
  unfolding push_symbol
  push_symbol-Advanced config block d payload t s =
      let more = c.long config block payload s in
      let long : leb (length payload) 4 ≡ false = ground arith in
      rw long (
        take_decoded-Advanced config block (record d { accepted = (d.accepted + 1) % 2 ^ 32 })
          payload ((q.decode d.inner payload).1)
          (record { fresh = t.fresh; promised = t.promised; follows = t.follows }) s refl)

  push_unless_complete-Advanced :
      (config : Oti) (block : List ℕ) (o : Option (List ℕ)) (d : BlockDecoder q) (payload : List ℕ)
      → o ≡ d.result
      → Tracks q f config block d
      → f.IsSymbol config block payload
      → Advanced d payload (push_unless_complete q o d payload)
  unfolding push_unless_complete
  push_unless_complete-Advanced config block none d payload e t s =
      push_symbol-Advanced config block d payload t s
  push_unless_complete-Advanced config block (some b) d payload e t s = tt

  pub push-Advanced :
      (config : Oti) (block : List ℕ) (d : BlockDecoder q) (payload : List ℕ)
      → Tracks q f config block d
      → f.IsSymbol config block payload
      → Advanced d payload (push q d payload)
  unfolding push
  push-Advanced config block d payload t s =
      push_unless_complete-Advanced config block d.result d payload refl t s

  -- What a block still takes.
  abbrev pub open_weight : Option (BlockDecoder q) → ℕ
  open_weight none = c.budget + 1
  open_weight (some d) = c.missing d.inner + 1

  abbrev pub weight : Bool → Option (BlockDecoder q) → ℕ
  weight true o = 0
  weight false o = open_weight o

  abbrev pub weight_of : Table ℕ (BlockDecoder q) → Table ℕ Bool → ℕ → ℕ
  weight_of decoders finished i = weight (is_done finished i) (lookup i decoders)

  pub open_weight_pos : (o : Option (BlockDecoder q)) → 1 ≤ open_weight o
  open_weight_pos none = omega arith
  open_weight_pos (some d) = omega arith

abbrev pub sum_below : ℕ → (ℕ → ℕ) → ℕ
sum_below zero f = 0
sum_below (suc n) f = sum_below n f + f n

pub sum_below_le : (n : ℕ) (f g : ℕ → ℕ) → ((i : ℕ) → f i ≤ g i) → sum_below n f ≤ sum_below n g
sum_below_le zero f g h = omega arith
sum_below_le (suc n) f g h = omega (arith, sum_below_le n f g h, h n)

pub sum_below_lt :
    (n i : ℕ) (f g : ℕ → ℕ)
    → ((j : ℕ) → f j ≤ g j)
    → i < n
    → f i < g i
    → sum_below n f < sum_below n g
sum_below_lt zero i f g h small less = absurd (omega arith)
sum_below_lt (suc n) i f g h small less = elim (Bool-cases (i == n)) [
  | inl last ↦
      let e : i ≡ n = (==_iff i n).0 last in
      omega (arith, sum_below_le n f g h, subst (λ k. f k < g k) e less)
  | inr other ↦ omega (arith, sum_below_lt n i f g h (ground arith) less, h n)
]

pub sum_below_bound : (n k : ℕ) (f : ℕ → ℕ) → ((i : ℕ) → f i ≤ k) → sum_below n f ≤ n * k
sum_below_bound zero k f h = omega arith
sum_below_bound (suc n) k f h =
    let e : suc n * k ≡ n * k + k = omega arith in omega (arith, sum_below_bound n k f h, h n, e)

module _ (q : Raptorq) (f : Fountain q) (c : Converges q f) where
  pub sum_below_open :
      (n : ℕ) (decoders : Table ℕ (BlockDecoder q)) (finished : Table ℕ Bool)
      → n ≤ count_done n finished + sum_below n (weight_of q f c decoders finished)
  sum_below_open zero decoders finished = omega arith
  sum_below_open (suc n) decoders finished = elim (Bool-cases (is_done finished n)) [
    | inl shut ↦ rw shut (omega (arith, sum_below_open n decoders finished))
    | inr open_ ↦ rw open_ (
        omega
          (arith, sum_below_open n decoders finished, open_weight_pos q f c (lookup n decoders)))
  ]
