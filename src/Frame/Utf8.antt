-- ===== src/Frame/Utf8.antt =====
-- Rust's `String::from_utf8_lossy`, which `get_str` of src/aftp/frame.rs calls. A `String` is the list
-- of its UTF-8 bytes.
use agentic_file_transfer.Base.{
  ℕ, zero, suc, ◌≡◌, refl, Bool, true, false, ◌&&◌, List, [], ◌∷◌, ◌++◌, arith, length, take, drop,
  leb, if◌then◌else◌, take-append-drop,
}

-- The bytes at the front of a text: a character, or a part that no character begins with.
pub data Chunk : Type 0 where
  good bad : ℕ → Chunk

within : ℕ → ℕ → List ℕ → Bool
within lo hi [] = false
within lo hi (b ∷ bs) = leb lo b && leb b hi

tail : List ℕ → List ℕ
tail [] = []
tail (b ∷ bs) = bs

-- The bytes after a lead byte: `lo` and `hi` bound the second, the rest are continuation bytes.
two : ℕ → ℕ → List ℕ → Chunk
unfolding within
two lo hi r = if within lo hi r then good 2 else bad 1

three : ℕ → ℕ → List ℕ → Chunk
unfolding within tail
three lo hi r =
    if within lo hi r then if within 0x80 0xBF (tail r) then good 3 else bad 2 else bad 1

four : ℕ → ℕ → List ℕ → Chunk
unfolding within tail
four lo hi r =
    if within lo hi r
    then if within 0x80 0xBF (tail r)
      then if within 0x80 0xBF (tail (tail r)) then good 4 else bad 3
      else bad 2
    else bad 1

-- Table 3-7 of the Unicode standard, by the lead byte.
chunk : ℕ → List ℕ → Chunk
unfolding two three four
chunk b r =
    if leb b 0x7F
    then good 1
    else if leb b 0xC1
    then bad 1
    else if leb b 0xDF
    then two 0x80 0xBF r
    else if leb b 0xE0
    then three 0xA0 0xBF r
    else if leb b 0xEC
    then three 0x80 0xBF r
    else if leb b 0xED
    then three 0x80 0x9F r
    else if leb b 0xEF
    then three 0x80 0xBF r
    else if leb b 0xF0
    then four 0x90 0xBF r
    else if leb b 0xF3
    then four 0x80 0xBF r
    else if leb b 0xF4
    then four 0x80 0x8F r
    else bad 1

-- Each step takes a byte at least, so the length is fuel enough.
lossy : ℕ → List ℕ → List ℕ
lossy zero bs = []
lossy (suc fuel) [] = []
lossy (suc fuel) (b ∷ bs) = elim (chunk b bs) [
  | good n ↦ take n (b ∷ bs) ++ lossy fuel (drop n (b ∷ bs))
  | bad n ↦ 0xEF ∷ 0xBF ∷ 0xBD ∷ lossy fuel (drop n (b ∷ bs))
]

unfoldable pub from_utf8_lossy : List ℕ → List ℕ
unfolding lossy chunk
from_utf8_lossy bs = lossy (length bs) bs

all_good : ℕ → List ℕ → Bool
all_good fuel [] = true
all_good zero (b ∷ bs) = false
all_good (suc fuel) (b ∷ bs) = elim (chunk b bs) [
  | good n ↦ all_good fuel (drop n (b ∷ bs))
  | bad n ↦ false
]

-- `str::from_utf8(bs).is_ok()`
unfoldable pub is_utf8 : List ℕ → Bool
unfolding all_good chunk
is_utf8 bs = all_good (length bs) bs

-- A Rust `String` holds nothing else.
abbrev pub IsUtf8 : List ℕ → Type 0
IsUtf8 bs = is_utf8 bs ≡ true

lossy_good : (fuel : ℕ) (bs : List ℕ) → all_good fuel bs ≡ true → lossy fuel bs ≡ bs
unfolding lossy all_good
lossy_good zero [] h = refl
lossy_good zero (b ∷ bs) h = ground arith
lossy_good (suc fuel) [] h = refl
lossy_good (suc fuel) (b ∷ bs) h = go (chunk b bs) refl (λ n. lossy_good fuel (drop n (b ∷ bs)))
  where
    go :
        (c : Chunk)
        → chunk b bs ≡ c
        → ((n : ℕ)
            → all_good fuel (drop n (b ∷ bs)) ≡ true
            → lossy fuel (drop n (b ∷ bs)) ≡ drop n (b ∷ bs))
        → lossy (suc fuel) (b ∷ bs) ≡ b ∷ bs
    go (good n) e ih =
        rw (e, lossy) (rw (ih n (rw (e, all_good) at h)) (take-append-drop n (b ∷ bs)))
    go (bad n) e ih = ground (arith, e)

-- A valid text is read as it stands.
pub from_utf8_lossy_valid : (bs : List ℕ) → IsUtf8 bs → from_utf8_lossy bs ≡ bs
from_utf8_lossy_valid bs h = unfold from_utf8_lossy is_utf8 in lossy_good (length bs) bs h
