-- ===== src/Fec/Transfer/Regions.antt =====
-- Proofs on the bytes that `VecBlocks::write_block` of src/aftp/fec/transfer.rs leaves in place.
use agentic_file_transfer.Base.{
  zero, suc, ℕ, ◌+◌, ◌-◌, ◌*◌, ◌≤◌, ◌<◌, ◌≡◌, ◌∙◌, min, List, arith, length, get_or, ltb, ok,
  Bool-cases, inl, inr, ltb→lt, ltb→ge, length-take, length-drop, subst, drop,
}
use agentic_file_transfer.Base.Table.{nat_eq}
use agentic_file_transfer.Base.Positions.{
  get_or-slice, splice, get_or-splice_in, get_or-splice_below, get_or-splice_above,
}
use agentic_file_transfer.Fec.Codec.{block_range}
use agentic_file_transfer.Fec.Layout.{block_of}
use agentic_file_transfer.Fec.Transfer.Blocks.{write_bytes}

pub length-block_of :
    (i b : ℕ) (bytes : List ℕ)
    → length (block_of i b bytes)
      ≡ (block_range i b (length bytes)).1 - (block_range i b (length bytes)).0
unfolding block_range
length-block_of i b bytes = omega (
  arith,
  length-take (min (i * b + b) (length bytes) - i * b) (drop (i * b) bytes),
  length-drop (i * b) bytes,
)

pub write_bytes-ok :
    (buf : List ℕ) (i : ℕ) (block out : List ℕ)
    → write_bytes buf i block ≡ ok out
    → (i + length block ≤ length buf) × (splice buf i block ≡ out)
unfolding write_bytes
write_bytes-ok buf i block out h = ground arith

-- Writing a block of the original where it belongs.
module _ (bytes : List ℕ) (b : ℕ) where
  -- The position is right already.
  abbrev pub Right : List ℕ → ℕ → Type 0
  Right out j = get_or out j 0 ≡ get_or bytes j 0

  -- The position is one of the block's.
  abbrev pub Within : ℕ → ℕ → Type 0
  Within i j = (i * b ≤ j) × (j < i * b + length (block_of i b bytes))

  pub splice-Right :
      (buf : List ℕ) (i j : ℕ)
      → i * b + length (block_of i b bytes) ≤ length buf
      → Within i j
      → Right (splice buf (i * b) (block_of i b bytes)) j
  unfolding block_range
  splice-Right buf i j fits (lo, hi) =
      let block = block_of i b bytes in
      let k : ℕ = j - i * b in
      let e : i * b + k ≡ j = omega arith in
      let long = length-block_of i b bytes in
      subst (Right (splice buf (i * b) block)) e (
        get_or-splice_in buf (i * b) block k 0 (omega arith) (omega arith)
        ∙ get_or-slice bytes (i * b) (min (i * b + b) (length bytes) - i * b) k 0
            (omega (arith, long)))

  pub splice-keeps_Right :
      (buf : List ℕ) (i j : ℕ)
      → i * b + length (block_of i b bytes) ≤ length buf
      → Right buf j
      → Right (splice buf (i * b) (block_of i b bytes)) j
  splice-keeps_Right buf i j fits h =
      let block = block_of i b bytes in
      elim (Bool-cases (ltb j (i * b))) [
        | inl below ↦ get_or-splice_below buf (i * b) block j 0 (omega arith) (ltb→lt _ _ below) ∙ h
        | inr from ↦ elim (Bool-cases (ltb j (i * b + length block))) [
          | inl within ↦ splice-Right buf i j fits (ltb→ge _ _ from, ltb→lt _ _ within)
          | inr above ↦ get_or-splice_above buf (i * b) block j 0 fits (ltb→ge _ _ above) ∙ h
        ]
      ]

-- The block that a position is in.
pub block_at : (j n b : ℕ) → j < n * b → (i : ℕ) × (i < n) × (i * b ≤ j) × (j < i * b + b)
block_at j zero b h = absurd (omega arith)
block_at j (suc n) b h = elim (Bool-cases (ltb j (n * b))) [
  | inr last ↦ (n, omega arith, ltb→ge _ _ last, omega arith)
  | inl before ↦
      let (i, below, lo, hi) = block_at j n b (ltb→lt _ _ before) in (i, omega arith, lo, hi)
]

pub Within-block :
    (bytes : List ℕ) (b i j : ℕ) → i * b ≤ j → j < i * b + b → j < length bytes → Within bytes b i j
unfolding block_range
Within-block bytes b i j lo hi small = (lo, omega (arith, length-block_of i b bytes))
