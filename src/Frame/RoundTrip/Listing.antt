-- ===== src/Frame/RoundTrip/Listing.antt =====
-- Proofs on LIST_RESP of src/aftp/frame.rs.
use agentic_file_transfer.Base.{
  ℕ, zero, suc, ◌+◌, ◌*◌, ◌%◌, ◌^◌, ◌≤◌, ◌<◌, ◌≡◌, refl, ap, ◌∙◌, Bool, true, false, not, List, [],
  ◌∷◌, ◌++◌, some, arith, ok, length, le_bytes, append_assoc, append-nil, inl, inr, Option-cases,
  none≢some, All, ◌==◌, length-append,
}
use agentic_file_transfer.Base.Fallible.{>>=-eq-ok}
use agentic_file_transfer.Frame.Utf8.{IsUtf8}
use agentic_file_transfer.Frame.Wire.{put_str, get_u8, get_u32, get_u64, get_str, get_u16}
use agentic_file_transfer.Frame.Reader.{
  Reader, put_str_inv, prefixed, start, At, At-reads, Parses, At-u8, At-u32, At-u64, At-str,
  offset_fits, drop_past,
}
use agentic_file_transfer.Frame.Payload.Session.{bool_byte}
use agentic_file_transfer.Frame.Payload.Files.{
  ListEntry, get_entry, get_entries, list_capacity, parse_list_resp, put_entry, put_entries,
  build_list_resp,
}

pub record IsEntry (e : ListEntry) : Type 0 where
  pub name_utf8 : IsUtf8 e.name
  pub size_fits : e.size < 2 ^ 64
  pub time_fits : e.modified_secs < 2 ^ 64

abbrev words : ListEntry → List ℕ
words e = le_bytes 8 e.size ++ (bool_byte e.is_dir ∷ le_bytes 8 e.modified_secs)

abbrev entry_bytes : ListEntry → List ℕ
entry_bytes e = prefixed e.name ++ words e

abbrev entries_bytes : List ListEntry → List ℕ
entries_bytes [] = []
entries_bytes (e ∷ es) = entry_bytes e ++ entries_bytes es

abbrev IsShort : ListEntry → Type 0
IsShort e = length e.name < 2 ^ 16

put_entry_inv :
    (buf : List ℕ) (e : ListEntry) {out : List ℕ}
    → put_entry buf e ≡ some out
    → IsShort e × (out ≡ buf ++ entry_bytes e)
unfolding put_entry
put_entry_inv buf e built = elim (Option-cases (put_str buf e.name)) [
  | inl n ↦ none≢some (rw n at built)
  | inr (b, s) ↦
      let (small, e1) = put_str_inv buf e.name s in
      (
        small,
        cc (
          rw s at built,
          e1,
          append_assoc (buf ++ prefixed e.name) (le_bytes 8 e.size) (bool_byte e.is_dir ∷ []),
          append_assoc (buf ++ prefixed e.name) (le_bytes 8 e.size ++ bool_byte e.is_dir ∷ [])
              (le_bytes 8 e.modified_secs),
          append_assoc buf (prefixed e.name) (words e),
        ),
      )
]

put_entries_inv :
    (buf : List ℕ) (es : List ListEntry) {out : List ℕ}
    → put_entries buf es ≡ some out
    → All IsShort es × (out ≡ buf ++ entries_bytes es)
unfolding put_entries
put_entries_inv buf [] built = (tt, cc (append-nil buf))
put_entries_inv buf (e ∷ es) built = elim (Option-cases (put_entry buf e)) [
  | inl n ↦ none≢some (rw n at built)
  | inr (b, s) ↦
      let (small, e1) = put_entry_inv buf e s in
      let (smalls, e2) = put_entries_inv b es (rw s at built) in
      ((small, smalls), cc (e2, e1, append_assoc buf (entry_bytes e) (entries_bytes es)))
]

not-bool_byte : (b : Bool) → not (bool_byte b == 0) ≡ b
not-bool_byte true = refl
not-bool_byte false = refl

get_entry-Parses : (e : ListEntry) → IsEntry e → IsShort e → Parses get_entry (entry_bytes e) e
unfolding get_entry
get_entry-Parses e w small buf off rest fits stands =
    let here : At buf off (prefixed e.name ++ (words e ++ rest)) = record {
      fits = fits;
      stands = stands ∙ append_assoc (prefixed e.name) (words e) rest;
    } in
    let (r1, a1) = At-str e.name small w.name_utf8 here in
    let (r2, a2) = At-u64 e.size w.size_fits a1 in
    let (r3, a3) = At-u8 (bool_byte e.is_dir) a2 in
    let (r4, _) = At-u64 e.modified_secs w.time_fits a3 in
    rw (r1, r2, r3, r4, not-bool_byte)
      (ap (λ k. ok (e, k)) (omega (arith, length-append (prefixed e.name) (words e))))

get_entries-Parses :
    (es : List ListEntry)
    → All IsEntry es
    → All IsShort es
    → Parses (get_entries (length es)) (entries_bytes es) es
unfolding get_entries
get_entries-Parses [] w s buf off rest fits stands = ap (λ k. ok ([], k)) (omega arith)
get_entries-Parses (e ∷ es) (w, ws) (s, ss) buf off rest fits stands =
    let bs = entry_bytes e in
    let e' = stands ∙ append_assoc bs (entries_bytes es) rest in
    rw
      (
        get_entry-Parses e w s buf off (entries_bytes es ++ rest) fits e',
        get_entries-Parses es ws ss buf (off + length bs) rest
            (offset_fits buf bs (entries_bytes es ++ rest) off fits e')
            (drop_past buf bs (entries_bytes es ++ rest) off e'),
      )
      (ap (λ k. ok (e ∷ es, k)) (omega (arith, length-append bs (entries_bytes es))))

-- parse_list_resp reads back every list of fewer than 2^32 entries with UTF-8 names and 64-bit
-- sizes and times from what build_list_resp built of it.
pub parse_list_resp-build_list_resp :
    (entries : List ListEntry) {payload : List ℕ}
    → length entries < 2 ^ 32
    → All IsEntry entries
    → build_list_resp entries ≡ some payload
    → parse_list_resp payload ≡ ok entries
unfolding build_list_resp parse_list_resp
parse_list_resp-build_list_resp es fits w built =
    let count : length es % 2 ^ 32 ≡ length es = omega arith in
    let (short, e) = put_entries_inv (le_bytes 4 (length es)) es (rw count at built) in
    let (r1, a1) =
      At-u32 (length es) fits (start (le_bytes 4 (length es) ++ entries_bytes es) _ refl) in
    rw (e, r1) (rw ((At-reads _ _ es (get_entries-Parses es w short) a1).0))

-- A successful read goes on at least `k` bytes and stays within the buffer.
abbrev Takes {ℓ} : {A : Type ℓ} → ℕ → Reader A → Type ℓ
Takes {A = A} k r =
    (buf : List ℕ) (off : ℕ) (a : A) (off' : ℕ)
    → r buf off ≡ ok (a, off')
    → off ≤ length buf
    → (off + k ≤ off') × (off' ≤ length buf)

get_str-Takes : Takes 2 get_str
unfolding get_str get_u16
get_str-Takes buf off a off' e h = ground arith

get_entry-Takes : Takes 19 get_entry
unfolding get_entry get_u64 get_u8
get_entry-Takes buf off a off' e h =
    let (s, e1, f1) = >>=-eq-ok (get_str buf off) _ e in
    let (two, fits) = get_str-Takes buf off s.0 s.1 e1 h in ground arith

get_entries-Takes :
    (count : ℕ) (buf : List ℕ) (off : ℕ) (es : List ListEntry) (off' : ℕ)
    → get_entries count buf off ≡ ok (es, off')
    → off ≤ length buf
    → (length es ≡ count) × (off + 19 * count ≤ off') × (off' ≤ length buf)
unfolding get_entries
get_entries-Takes zero buf off es off' e h = ground arith
get_entries-Takes (suc count) buf off es off' e h =
    let (r, e1, f1) = >>=-eq-ok (get_entry buf off) _ e in
    let (more, fits) = get_entry-Takes buf off r.0 r.1 e1 h in
    let (rs, e2, f2) = >>=-eq-ok (get_entries count buf r.1) _ f1 in
    let (len, more', fits') = get_entries-Takes count buf r.1 rs.0 rs.1 e2 fits in
    ground (arith, f2)

get_u32_start :
    (payload : List ℕ) (v off : ℕ)
    → get_u32 payload 0 ≡ ok (v, off)
    → (off ≡ 4) × (off ≤ length payload)
unfolding get_u32
get_u32_start payload v off e = ground arith

-- Whenever parse_list_resp succeeds, the payload has 4 bytes and at least 19 for every entry, and
-- the capacity that the parser reserves for that many entries is their number, so a count in the
-- payload cannot make it reserve more than the entries it returns.
pub parse_list_resp_bounds :
    (payload : List ℕ) {entries : List ListEntry}
    → parse_list_resp payload ≡ ok entries
    → (4 + 19 * length entries ≤ length payload)
      × (list_capacity (length entries) payload ≡ length entries)
unfolding parse_list_resp list_capacity
parse_list_resp_bounds payload {entries} e =
    let (r, e0, f0) = >>=-eq-ok _ _ e in
    let (c, e1, f1) = >>=-eq-ok (get_u32 payload 0) _ e0 in
    let (four, fits) : (c.1 ≡ 4) × (c.1 ≤ length payload) = get_u32_start payload c.0 c.1 e1 in
    let (len, more, fits') = get_entries-Takes c.0 payload c.1 r.0 r.1 f1 fits in
    let same : r.0 ≡ entries = cc f0 in
    let n : length entries ≡ c.0 = cc (len, same) in (omega arith, omega arith)
