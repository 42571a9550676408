-- ===== src/Fec/Layout.antt =====
-- Proofs on the block layout and the block decoder of src/aftp/fec/codec.rs.
use agentic_file_transfer.Base.{
  ◌%◌, ℕ, zero, suc, ◌+◌, ◌-◌, ◌*◌, ◌^◌, ◌≤◌, ◌<◌, ◌≡◌, ◌↔◌, refl, ap, sym, ◌∙◌, min, List, [], ◌∷◌,
  ◌++◌, Bool, true, false, Option, some, none, arith, length, leb, ◌==◌, div_ceil, div_ceil_covers,
  div_ceil_unique, Result, ok, slice, take, drop, length-drop, drop-add, drop_all, ==_iff,
  take-append-drop, inl, inr, Bool-cases,
}
use agentic_file_transfer.Fec.Codec.{
  block_count, block_range, Raptorq, BlockDecoder, take_decoded, push_symbol, push_unless_complete,
  push,
}

-- The bytes of a block.
abbrev pub block_of : ℕ → ℕ → List ℕ → List ℕ
block_of block_id block_size bytes =
    let (start, end) = block_range block_id block_size (length bytes) in
    slice bytes start (end - start)

-- The blocks from `i` on, `n` of them, one behind the other.
abbrev pub blocks_from : ℕ → ℕ → ℕ → List ℕ → List ℕ
blocks_from zero i block_size bytes = []
blocks_from (suc n) i block_size bytes =
    block_of i block_size bytes ++ blocks_from n (i + 1) block_size bytes

take-min : (n : ℕ) (xs : List ℕ) → take (min n (length xs)) xs ≡ take n xs
take-min zero xs = let e : min 0 (length xs) ≡ 0 = omega arith in ap (λ k. take k xs) e
take-min (suc n) [] = let e : min (suc n) 0 ≡ 0 = omega arith in ap (λ k. take k []) e
take-min (suc n) (x ∷ xs) =
    let e : min (suc n) (suc (length xs)) ≡ suc (min n (length xs)) = omega arith in
    rw e (ap (λ t. x ∷ t) (take-min n xs))

block_of-slice : (i b : ℕ) (bytes : List ℕ) → block_of i b bytes ≡ take b (drop (i * b) bytes)
unfolding block_range
block_of-slice i b bytes =
    let cut : min (i * b + b) (length bytes) - i * b ≡ min b (length (drop (i * b) bytes)) =
      omega (arith, length-drop (i * b) bytes) in
    ap (λ k. take k (drop (i * b) bytes)) cut ∙ take-min b (drop (i * b) bytes)

blocks_from-drop :
    (n i b : ℕ) (bytes : List ℕ)
    → length bytes ≤ (i + n) * b
    → blocks_from n i b bytes ≡ drop (i * b) bytes
blocks_from-drop zero i b bytes h = sym (drop_all (i * b) bytes (omega arith))
blocks_from-drop (suc n) i b bytes h =
    let next : (i + 1) * b ≡ i * b + b = omega arith in
    rw (block_of-slice i b bytes, blocks_from-drop n (i + 1) b bytes (omega arith))
      (ap (λ k. take b (drop (i * b) bytes) ++ drop k bytes) next
        ∙ ap (λ t. take b (drop (i * b) bytes) ++ t) (drop-add (i * b) b bytes)
        ∙ take-append-drop b (drop (i * b) bytes))

lt_of_mul : (m n b : ℕ) → m * b < n * b → m < n
lt_of_mul m n b h = grind arith

-- As long as the number of blocks fits a `u32`, it is the exact one.
block_count-div_ceil :
    (total_len block_size : ℕ)
    → 1 ≤ block_size
    → total_len ≤ (2 ^ 32 - 1) * block_size
    → block_count total_len block_size ≡ div_ceil total_len block_size
unfolding block_count
block_count-div_ceil n b h fits =
    let (lo, hi) = div_ceil_covers n b h in
    let small : div_ceil n b < 2 ^ 32 = lt_of_mul (div_ceil n b) (2 ^ 32) b (omega (arith, hi)) in
    elim (Bool-cases (n == 0)) [
      | inl e ↦ rw e (div_ceil_unique n b 0 (omega (arith, (==_iff n 0).0 e)) (omega arith))
      | inr e ↦ rw e (omega arith)
    ]

pub block_count_covers :
    (total_len block_size : ℕ)
    → 1 ≤ block_size
    → total_len ≤ (2 ^ 32 - 1) * block_size
    → (block_count total_len block_size < 2 ^ 32)
      × (total_len ≤ block_count total_len block_size * block_size)
block_count_covers n b h fits =
    let (lo, hi) = div_ceil_covers n b h in
    let small : div_ceil n b < 2 ^ 32 = lt_of_mul (div_ceil n b) (2 ^ 32) b (omega (arith, hi)) in
    rw (block_count-div_ceil n b h fits) (small, lo)

-- The blocks that block_range cuts out of a transfer, from block 0 to block_count, put one behind
-- the other, are the transfer, if the block size is not 0 and the transfer is at most (2^32 - 1)
-- blocks long.
pub blocks-cover :
    (bytes : List ℕ) (block_size : ℕ)
    → 1 ≤ block_size
    → length bytes ≤ (2 ^ 32 - 1) * block_size
    → blocks_from (block_count (length bytes) block_size) 0 block_size bytes ≡ bytes
blocks-cover bytes b h fits =
    let (lo, hi) = div_ceil_covers (length bytes) b h in
    let count = block_count-div_ceil (length bytes) b h fits in
    let none_skipped : 0 * b ≡ 0 = omega arith in
    blocks_from-drop (block_count (length bytes) b) 0 b bytes
      (omega (arith, lo, ap (λ k. k * b) count))
    ∙ ap (λ k. drop k bytes) none_skipped

module _ (q : Raptorq) where
  -- A finished block has the promised length.
  abbrev pub IsSound : BlockDecoder q → Type 0
  IsSound d = (block : List ℕ) → d.result ≡ some block → length block ≡ d.expected_len

  abbrev pub is_complete : Option (List ℕ) → Bool
  is_complete none = false
  is_complete (some block) = true

  abbrev pub Answers : BlockDecoder q × Result Bool → Type 0
  Answers (d, r) = IsSound d × ((r ≡ ok true) ↔ (is_complete d.result ≡ true))

  take_decoded-Answers :
      (d : BlockDecoder q) (o : q.Decoder × Option (List ℕ))
      → d.result ≡ none
      → Answers (take_decoded q d o)
  unfolding take_decoded
  take_decoded-Answers d (inner, none) e =
      (λ b h. cc (e, h), (λ h. cc h, λ h. cc (sym (ap is_complete e), h)))
  take_decoded-Answers d (inner, some block) e =
      elim (Bool-cases (length block == d.expected_len)) [
        | inl same ↦
            rw same
              (λ b h. cc (h, (==_iff (length block) d.expected_len).0 same), (λ h. refl, λ h. refl))
        | inr other ↦ rw other (λ b h. cc (e, h), (λ h. cc h, λ h. cc (sym (ap is_complete e), h)))
      ]

  push_symbol-Answers :
      (d : BlockDecoder q) (payload : List ℕ) → d.result ≡ none → Answers (push_symbol q d payload)
  unfolding push_symbol
  push_symbol-Answers d payload e = elim (Bool-cases (leb (length payload) 4)) [
    | inl short ↦ rw short (λ b h. cc (e, h), (λ h. cc h, λ h. cc (sym (ap is_complete e), h)))
    | inr long ↦ rw long (
        take_decoded-Answers (record d { accepted = (d.accepted + 1) % 2 ^ 32 })
          (q.decode d.inner payload) e)
  ]

  push_unless_complete-Answers :
      (o : Option (List ℕ)) (d : BlockDecoder q) (payload : List ℕ)
      → o ≡ d.result
      → IsSound d
      → Answers (push_unless_complete q o d payload)
  unfolding push_unless_complete
  push_unless_complete-Answers none d payload e sound = push_symbol-Answers d payload (sym e)
  push_unless_complete-Answers (some block) d payload e sound =
      (sound, (λ h. sym (ap is_complete e), λ h. refl))

  -- Whatever the RaptorQ library answers, push keeps the invariant that a finished block has the
  -- expected length, and it returns Ok(true) exactly if the decoder then holds a finished block.
  pub push_lem : (d : BlockDecoder q) (payload : List ℕ) → IsSound d → Answers (push q d payload)
  unfolding push
  push_lem d payload sound = push_unless_complete-Answers d.result d payload refl sound
