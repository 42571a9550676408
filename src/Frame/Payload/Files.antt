-- ===== src/Frame/Payload/Files.antt =====
-- GET, HEAD, HEAD_RESP, PUT, PUT_ACK, LIST, LIST_RESP and DATA_END of src/aftp/frame.rs. A builder is
-- `none` where a `put_*` helper panics.
use agentic_file_transfer.Base.{
  ℕ, zero, suc, ◌-◌, ◌/◌, ◌%◌, ◌^◌, min, List, [], ◌∷◌, ◌++◌, Bool, not, Option, some, Result,
  AftError, Message, length, ◌==◌, and_then, option_map,
}
use agentic_file_transfer.Frame.Wire.{
  put_u8, put_u32, put_u64, put_str, get_u8, get_u32, get_u64, get_str,
}
use agentic_file_transfer.Frame.Reader.{Reader, ◌>>=◌, pure, run}
use agentic_file_transfer.Frame.Payload.Session.{bool_byte}
use agentic_file_transfer.Frame.Payload.Streams.{exactly}

unfoldable pub build_get : List ℕ → ℕ → ℕ → Option (List ℕ)
unfolding put_u64 put_str
build_get path range_start range_end =
    option_map (λ buf. put_u64 (put_u64 buf range_start) range_end) (put_str [] path)

pub record GetPayload : Type 0 where
  pub path : List ℕ
  pub range_start : ℕ
  pub range_end : ℕ

unfoldable pub parse_get : List ℕ → Result GetPayload
parse_get = run do
  path ← get_str
  range_start ← get_u64
  range_end ← get_u64
  pure (record { path = path; range_start = range_start; range_end = range_end })

unfoldable pub build_head : List ℕ → Option (List ℕ)
unfolding put_str
build_head path = put_str [] path

unfoldable pub build_head_resp : ℕ → ℕ → List ℕ → Option (List ℕ)
unfolding put_u64 put_str
build_head_resp file_size modified_secs content_type =
    put_str (put_u64 (put_u64 [] file_size) modified_secs) content_type

pub record HeadRespPayload : Type 0 where
  pub file_size : ℕ
  pub modified_secs : ℕ
  pub content_type : List ℕ

unfoldable pub parse_head_resp : List ℕ → Result HeadRespPayload
parse_head_resp = run do
  file_size ← get_u64
  modified_secs ← get_u64
  content_type ← get_str
  pure
      (record { file_size = file_size; modified_secs = modified_secs; content_type = content_type })

unfoldable pub build_put : List ℕ → ℕ → Option (List ℕ)
unfolding put_u64 put_str
build_put path file_size = option_map (λ buf. put_u64 buf file_size) (put_str [] path)

pub record PutPayload : Type 0 where
  pub path : List ℕ
  pub file_size : ℕ

unfoldable pub parse_put : List ℕ → Result PutPayload
parse_put =
    run do path ← get_str; file_size ← get_u64; pure (record { path = path; file_size = file_size })

unfoldable pub build_put_ack : Bool → List ℕ
build_put_ack complete = bool_byte complete ∷ []

pub record PutAckPayload : Type 0 where
  pub complete : Bool

unfoldable pub parse_put_ack : List ℕ → Result PutAckPayload
parse_put_ack = run do status ← get_u8; pure (record { complete = not (status == 0) })

unfoldable pub build_list : List ℕ → Option (List ℕ)
unfolding put_str
build_list path = put_str [] path

-- `checksum.len() as u8` keeps the length's lowest byte.
unfoldable pub build_data_end : ℕ → ℕ → List ℕ → List ℕ
unfolding put_u8 put_u64
build_data_end total_bytes algo checksum =
    put_u8 (put_u8 (put_u64 [] total_bytes) algo) (length checksum % 2 ^ 8) ++ checksum

pub record DataEndPayload : Type 0 where
  pub total_bytes : ℕ
  pub checksum_algo : ℕ
  pub checksum : List ℕ

unfoldable pub parse_data_end : List ℕ → Result DataEndPayload
parse_data_end = run do
  total_bytes ← get_u64
  algo ← get_u8
  len ← get_u8
  checksum ← exactly (AftError.other Message.truncated_checksum) len
  pure (record { total_bytes = total_bytes; checksum_algo = algo; checksum = checksum })

pub record ListEntry : Type 0 where
  pub name : List ℕ
  pub size : ℕ
  pub is_dir : Bool
  pub modified_secs : ℕ

unfoldable pub get_entry : Reader ListEntry
get_entry = do
  name ← get_str
  size ← get_u64
  is_dir ← get_u8
  modified_secs ← get_u64
  pure (record {
    name = name;
    size = size;
    is_dir = not (is_dir == 0);
    modified_secs = modified_secs;
  })

-- `for _ in 0..count`
unfoldable pub get_entries : ℕ → Reader (List ListEntry)
get_entries zero = pure []
get_entries (suc count) = do entry ← get_entry; entries ← get_entries count; pure (entry ∷ entries)

-- The capacity that `parse_list_resp` reserves for `count` entries once it has read the count.
unfoldable pub list_capacity : ℕ → List ℕ → ℕ
list_capacity count payload = min count ((length payload - 4) / 19)

unfoldable pub parse_list_resp : List ℕ → Result (List ListEntry)
unfolding get_entries get_entry
parse_list_resp = run do count ← get_u32; get_entries count

unfoldable pub put_entry : List ℕ → ListEntry → Option (List ℕ)
unfolding put_u8 put_u64 put_str
put_entry buf e =
    option_map (λ b. put_u64 (put_u8 (put_u64 b e.size) (bool_byte e.is_dir)) e.modified_secs)
      (put_str buf e.name)

unfoldable pub put_entries : List ℕ → List ListEntry → Option (List ℕ)
unfolding put_entry
put_entries buf [] = some buf
put_entries buf (e ∷ es) = and_then (put_entry buf e) (λ b. put_entries b es)

unfoldable pub build_list_resp : List ListEntry → Option (List ℕ)
unfolding put_u32 put_entries
build_list_resp entries = put_entries (put_u32 [] (length entries % 2 ^ 32)) entries
