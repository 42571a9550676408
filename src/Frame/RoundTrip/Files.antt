-- ===== src/Frame/RoundTrip/Files.antt =====
-- Proofs on the file payloads of src/aftp/frame.rs.
use agentic_file_transfer.Base.{
  ℕ, ◌%◌, ◌^◌, ◌<◌, ◌≡◌, refl, sym, ap, ◌∙◌, Bool, List, [], ◌∷◌, ◌++◌, some, arith, ok, length,
  le_bytes, append_assoc, inl, inr, take, drop, Option-cases, none≢some, option_map,
  take-append-drop, length-take, AftError, Message,
}
use agentic_file_transfer.Frame.Utf8.{IsUtf8}
use agentic_file_transfer.Frame.Wire.{put_str, put_u64}
use agentic_file_transfer.Frame.Reader.{put_str_inv, prefixed, start, At-u8, At-u64, At-str}
use agentic_file_transfer.Frame.RoundTrip.Streams.{At-exactly}
use agentic_file_transfer.Frame.Payload.Session.{bool_byte}
use agentic_file_transfer.Frame.Payload.Files.{
  build_get, parse_get, build_head_resp, parse_head_resp, build_put, parse_put, build_put_ack,
  parse_put_ack, build_data_end, parse_data_end,
}

-- A string that is written first, and words behind it.
first_str_inv :
    (path tail : List ℕ) (f : List ℕ → List ℕ) {payload : List ℕ}
    → ((buf : List ℕ) → f buf ≡ buf ++ tail)
    → option_map f (put_str [] path) ≡ some payload
    → (length path < 2 ^ 16) × (payload ≡ prefixed path ++ tail)
first_str_inv path tail f shape built = elim (Option-cases (put_str [] path)) [
  | inl e ↦ none≢some (rw e at built)
  | inr (buf, e) ↦
      let (small, e1) = put_str_inv [] path e in (small, cc (rw e at built, e1, shape buf))
]

-- parse_get reads back the path and both 64-bit range ends from what build_get built, if the path
-- is UTF-8.
pub parse_get-build_get :
    (path : List ℕ) (range_start range_end : ℕ) {payload : List ℕ}
    → IsUtf8 path
    → range_start < 2 ^ 64
    → range_end < 2 ^ 64
    → build_get path range_start range_end ≡ some payload
    → parse_get payload
      ≡ ok (record { path = path; range_start = range_start; range_end = range_end })
unfolding build_get parse_get
parse_get-build_get s a b hs ha hb built =
    let (small, e) =
      first_str_inv s (le_bytes 8 a ++ le_bytes 8 b) (λ buf. put_u64 (put_u64 buf a) b)
        (λ buf. append_assoc buf (le_bytes 8 a) (le_bytes 8 b)) built in
    let (r1, a1) = At-str s small hs (
      start (prefixed s ++ (le_bytes 8 a ++ le_bytes 8 b))
        (prefixed s ++ (le_bytes 8 a ++ (le_bytes 8 b ++ [])))
        (append_assoc (prefixed s) (le_bytes 8 a ++ le_bytes 8 b) [])) in
    let (r2, a2) = At-u64 a ha a1 in let (r3, _) = At-u64 b hb a2 in rw (e, r1, r2, r3)

-- parse_put reads back the path and the 64-bit size from what build_put built, if the path is
-- UTF-8.
pub parse_put-build_put :
    (path : List ℕ) (file_size : ℕ) {payload : List ℕ}
    → IsUtf8 path
    → file_size < 2 ^ 64
    → build_put path file_size ≡ some payload
    → parse_put payload ≡ ok (record { path = path; file_size = file_size })
unfolding build_put parse_put
parse_put-build_put s n hs hn built =
    let (small, e) = first_str_inv s (le_bytes 8 n) (λ buf. put_u64 buf n) (λ buf. refl) built in
    let (r1, a1) = At-str s small hs (
      start (prefixed s ++ le_bytes 8 n) (prefixed s ++ (le_bytes 8 n ++ []))
        (append_assoc (prefixed s) (le_bytes 8 n) [])) in
    let (r2, _) = At-u64 n hn a1 in rw (e, r1, r2)

-- parse_head_resp reads back the 64-bit size and time and the content type from what
-- build_head_resp built, if the content type is UTF-8.
pub parse_head_resp-build_head_resp :
    (file_size modified_secs : ℕ) (content_type : List ℕ) {payload : List ℕ}
    → file_size < 2 ^ 64
    → modified_secs < 2 ^ 64
    → IsUtf8 content_type
    → build_head_resp file_size modified_secs content_type ≡ some payload
    → parse_head_resp payload
      ≡ ok (record {
        file_size = file_size;
        modified_secs = modified_secs;
        content_type = content_type;
      })
unfolding build_head_resp parse_head_resp
parse_head_resp-build_head_resp a b s ha hb hs built =
    let (small, e) = put_str_inv (le_bytes 8 a ++ le_bytes 8 b) s built in
    let (r1, a1) = At-u64 a ha (start (le_bytes 8 a ++ le_bytes 8 b ++ prefixed s) _ refl) in
    let (r2, a2) = At-u64 b hb a1 in let (r3, _) = At-str s small hs a2 in rw (e, r1, r2, r3)

pub parse_put_ack-build_put_ack :
    (complete : Bool) → parse_put_ack (build_put_ack complete) ≡ ok (record { complete = complete })
unfolding build_put_ack parse_put_ack
parse_put_ack-build_put_ack b =
    rw (At-u8 (bool_byte b) (start (bool_byte b ∷ []) _ refl)).0 (ground arith)

-- parse_data_end reads back the 64-bit total and the algorithm from what build_data_end built, and
-- of the checksum the first bytes, as many as its length modulo 256.
pub parse_data_end-build_data_end :
    (total_bytes algo : ℕ) (checksum : List ℕ)
    → total_bytes < 2 ^ 64
    → parse_data_end (build_data_end total_bytes algo checksum)
      ≡ ok (record {
        total_bytes = total_bytes;
        checksum_algo = algo;
        checksum = take (length checksum % 256) checksum;
      })
unfolding build_data_end parse_data_end
parse_data_end-build_data_end n g s hn =
    let k = length s % 256 in
    let front : length (take k s) ≡ k = omega (arith, length-take k s) in
    let (r1, a1) = At-u64 n hn (start (le_bytes 8 n ++ (g ∷ k ∷ s)) _ refl) in
    let (r2, a2) = At-u8 g a1 in
    let (r3, a3) = At-u8 k a2 in
    let parts : s ++ [] ≡ take k s ++ (drop k s ++ []) =
      ap (λ t. t ++ []) (sym (take-append-drop k s)) ∙ append_assoc (take k s) (drop k s) [] in
    rw (
      r1,
      r2,
      r3,
      rw front at (
          At-exactly (AftError.other Message.truncated_checksum) (take k s) (drop k s ++ [])
            (rw parts at a3)),
    )
