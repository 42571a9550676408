-- ===== src/Frame/Reader.antt =====
-- Parsers over a buffer and an offset, and what it means that one reads given bytes back.
use agentic_file_transfer.Base.{
  ℕ, zero, suc, ◌+◌, ◌^◌, ◌≤◌, ◌<◌, ◌≡◌, sym, ap, ◌∙◌, List, [], ◌∷◌, ◌++◌, some, arith, append-nil,
  append_assoc, length, slice, take, drop, get_or, le_bytes, le_value, false, ltb, ge→ltb, Result,
  ok, length-append, length-drop, drop-add, drop-append_self, take-append_self, length-le_bytes,
  le_value-le_bytes,
}
use agentic_file_transfer.Base.Fallible
use agentic_file_transfer.Frame.Utf8.{IsUtf8, from_utf8_lossy_valid}
use agentic_file_transfer.Frame.Wire.{
  get_u8, get_u16, get_u32, get_u64, get_str, get_bytes, put_str, put_bytes,
}

abbrev pub Reader {ℓ} : Type ℓ → Type ℓ
Reader A = List ℕ → ℕ → Result (A × ℕ)

infixl 5 ◌>>=◌ ◌>>◌
abbrev pub ◌>>=◌ {ℓ κ} : {A : Type ℓ} {B : Type κ} → Reader A → (A → Reader B) → Reader B
◌>>=◌ m f buf off = Fallible.◌>>=◌ (m buf off) (λ r. f r.0 buf r.1)

abbrev pub ◌>>◌ {ℓ} : {B : Type ℓ} → Reader (Unit {0}) → Reader B → Reader B
m >> k = m >>= λ _. k

abbrev pub pure {ℓ} : {A : Type ℓ} → A → Reader A
pure a buf off = ok (a, off)

-- A step that reads nothing.
abbrev pub lift {ℓ} : {A : Type ℓ} → Result A → Reader A
lift m buf off = Fallible.◌>>=◌ m (λ a. ok (a, off))

-- `let mut off = 0; …` on a whole payload.
abbrev pub run {ℓ} : {A : Type ℓ} → Reader A → List ℕ → Result A
run r payload = Fallible.◌>>=◌ (r payload 0) (λ p. ok p.0)

-- Wherever `bs` stand, `r` reads them as `a` and goes on behind them.
abbrev pub Parses {ℓ} : {A : Type ℓ} → Reader A → List ℕ → A → Type ℓ
Parses r bs a =
    (buf : List ℕ) (off : ℕ) (rest : List ℕ)
    → off ≤ length buf
    → drop off buf ≡ bs ++ rest
    → r buf off ≡ ok (a, off + length bs)

-- What stands at an offset is within the buffer.
pub offset_fits :
    (buf bs rest : List ℕ) (off : ℕ)
    → off ≤ length buf
    → drop off buf ≡ bs ++ rest
    → off + length bs ≤ length buf
offset_fits buf bs rest off h e =
    omega (arith, ap length e, length-append bs rest, length-drop off buf)

pub drop_past :
    (buf bs rest : List ℕ) (off : ℕ) → drop off buf ≡ bs ++ rest → drop (off + length bs) buf ≡ rest
drop_past buf bs rest off e =
    drop-add off (length bs) buf ∙ ap (drop (length bs)) e ∙ drop-append_self bs rest

pub slice_at :
    (buf bs rest : List ℕ) (off : ℕ) → drop off buf ≡ bs ++ rest → slice buf off (length bs) ≡ bs
slice_at buf bs rest off e = ap (take (length bs)) e ∙ take-append_self bs rest

module _ {ℓ κ} {A : Type ℓ} {B : Type κ} where
  pub Parses-bind :
      (r : Reader A) (f : A → Reader B) (bs cs : List ℕ) (a : A) (b : B)
      → Parses r bs a
      → Parses (f a) cs b
      → Parses (r >>= f) (bs ++ cs) b
  Parses-bind r f bs cs a b hr hf buf off rest fits e =
      let e' : drop off buf ≡ bs ++ (cs ++ rest) = e ∙ append_assoc bs cs rest in
      rw (hr buf off (cs ++ rest) fits e') (
        hf buf (off + length bs) rest (offset_fits buf bs (cs ++ rest) off fits e')
          (drop_past buf bs (cs ++ rest) off e')
        ∙ ap (λ n. ok (b, n)) (omega (arith, length-append bs cs)))

get_or-drop :
    (buf : List ℕ) (off b : ℕ) (rest : List ℕ) → drop off buf ≡ b ∷ rest → get_or buf off 0 ≡ b
get_or-drop [] zero b rest e = cc
get_or-drop [] (suc off) b rest e = cc
get_or-drop (x ∷ xs) zero b rest e = ground arith
get_or-drop (x ∷ xs) (suc off) b rest e = get_or-drop xs off b rest e

pub get_u8-Parses : (v : ℕ) → Parses get_u8 (v ∷ []) v
unfolding get_u8
get_u8-Parses v buf off rest fits e =
    rw (ge→ltb _ _ (offset_fits buf (v ∷ []) rest off fits e), get_or-drop buf off v rest e)

-- The words of two, four and eight bytes.
module _ (n v : ℕ) (buf : List ℕ) (off : ℕ) (rest : List ℕ) (small : v < 256 ^ n) where
  word_fits :
      off ≤ length buf → drop off buf ≡ le_bytes n v ++ rest → ltb (length buf) (off + n) ≡ false
  word_fits fits e =
      ge→ltb _ _
        (omega (arith, offset_fits buf (le_bytes n v) rest off fits e, length-le_bytes n v))

  word_at : drop off buf ≡ le_bytes n v ++ rest → le_value (slice buf off n) ≡ v
  word_at e =
      ap (λ k. le_value (slice buf off k)) (sym (length-le_bytes n v))
      ∙ ap le_value (slice_at buf (le_bytes n v) rest off e)
      ∙ le_value-le_bytes n v small

pub get_u16-Parses : (v : ℕ) → v < 2 ^ 16 → Parses get_u16 (le_bytes 2 v) v
unfolding get_u16
get_u16-Parses v h buf off rest fits e =
    rw (word_fits 2 v buf off rest h fits e, word_at 2 v buf off rest h e)

pub get_u32-Parses : (v : ℕ) → v < 2 ^ 32 → Parses get_u32 (le_bytes 4 v) v
unfolding get_u32
get_u32-Parses v h buf off rest fits e =
    rw (word_fits 4 v buf off rest h fits e, word_at 4 v buf off rest h e)

pub get_u64-Parses : (v : ℕ) → v < 2 ^ 64 → Parses get_u64 (le_bytes 8 v) v
unfolding get_u64
get_u64-Parses v h buf off rest fits e =
    rw (word_fits 8 v buf off rest h fits e, word_at 8 v buf off rest h e)

-- What `put_str` and `put_bytes` append.
abbrev pub prefixed : List ℕ → List ℕ
prefixed s = le_bytes 2 (length s) ++ s

pub put_str_inv :
    (buf s : List ℕ) {out : List ℕ}
    → put_str buf s ≡ some out
    → (length s < 2 ^ 16) × (out ≡ buf ++ prefixed s)
unfolding put_str
put_str_inv buf s h = ground (arith, append_assoc buf (le_bytes 2 (length s)) s)

pub put_bytes_inv :
    (buf s : List ℕ) {out : List ℕ}
    → put_bytes buf s ≡ some out
    → (length s < 2 ^ 16) × (out ≡ buf ++ prefixed s)
unfolding put_bytes
put_bytes_inv buf s h = ground (arith, append_assoc buf (le_bytes 2 (length s)) s)

pub get_str-Parses : (s : List ℕ) → length s < 2 ^ 16 → IsUtf8 s → Parses get_str (prefixed s) s
unfolding get_str
get_str-Parses s h valid =
    Parses-bind get_u16 _ (le_bytes 2 (length s)) s (length s) s (get_u16-Parses (length s) h)
      (λ buf off rest fits e.
        rw (ge→ltb _ _ (offset_fits buf s rest off fits e), slice_at buf s rest off e)
          (ap (λ t. ok (t, off + length s)) (from_utf8_lossy_valid s valid)))

pub get_bytes-Parses : (s : List ℕ) → length s < 2 ^ 16 → Parses get_bytes (prefixed s) s
unfolding get_bytes
get_bytes-Parses s h =
    Parses-bind get_u16 _ (le_bytes 2 (length s)) s (length s) s (get_u16-Parses (length s) h)
      (λ buf off rest fits e.
        rw (ge→ltb _ _ (offset_fits buf s rest off fits e), slice_at buf s rest off e))

-- At the offset of the buffer stand these bytes.
pub record At (buf : List ℕ) (off : ℕ) (here : List ℕ) : Type 0 where
  pub fits : off ≤ length buf
  pub stands : drop off buf ≡ here

pub start : (bs here : List ℕ) → bs ++ [] ≡ here → At bs 0 here
start bs here e = record { fits = omega arith; stands = sym (append-nil bs) ∙ e }

pub At-reads {ℓ} :
    {A : Type ℓ} (r : Reader A) (bs : List ℕ) (a : A) {buf : List ℕ} {off : ℕ} {rest : List ℕ}
    → Parses r bs a
    → At buf off (bs ++ rest)
    → (r buf off ≡ ok (a, off + length bs)) × At buf (off + length bs) rest
At-reads r bs a {buf} {off} {rest} h p = (
  h buf off rest p.fits p.stands,
  record {
    fits = offset_fits buf bs rest off p.fits p.stands;
    stands = drop_past buf bs rest off p.stands;
  },
)

-- One step of a parser, for each kind of field.
module _ {buf : List ℕ} {off : ℕ} {rest : List ℕ} where
  pub At-u8 :
      (v : ℕ) → At buf off (v ∷ rest) → (get_u8 buf off ≡ ok (v, off + 1)) × At buf (off + 1) rest
  At-u8 v = At-reads get_u8 (v ∷ []) v (get_u8-Parses v)

  pub At-u16 :
      (v : ℕ)
      → v < 2 ^ 16
      → At buf off (le_bytes 2 v ++ rest)
      → (get_u16 buf off ≡ ok (v, off + 2)) × At buf (off + 2) rest
  At-u16 v h = At-reads get_u16 (le_bytes 2 v) v (get_u16-Parses v h)

  pub At-u32 :
      (v : ℕ)
      → v < 2 ^ 32
      → At buf off (le_bytes 4 v ++ rest)
      → (get_u32 buf off ≡ ok (v, off + 4)) × At buf (off + 4) rest
  At-u32 v h = At-reads get_u32 (le_bytes 4 v) v (get_u32-Parses v h)

  pub At-u64 :
      (v : ℕ)
      → v < 2 ^ 64
      → At buf off (le_bytes 8 v ++ rest)
      → (get_u64 buf off ≡ ok (v, off + 8)) × At buf (off + 8) rest
  At-u64 v h = At-reads get_u64 (le_bytes 8 v) v (get_u64-Parses v h)

  pub At-str :
      (s : List ℕ)
      → length s < 2 ^ 16
      → IsUtf8 s
      → At buf off (prefixed s ++ rest)
      → (get_str buf off ≡ ok (s, off + length (prefixed s)))
        × At buf (off + length (prefixed s)) rest
  At-str s h u = At-reads get_str (prefixed s) s (get_str-Parses s h u)

  pub At-bytes :
      (s : List ℕ)
      → length s < 2 ^ 16
      → At buf off (prefixed s ++ rest)
      → (get_bytes buf off ≡ ok (s, off + length (prefixed s)))
        × At buf (off + length (prefixed s)) rest
  At-bytes s h = At-reads get_bytes (prefixed s) s (get_bytes-Parses s h)
