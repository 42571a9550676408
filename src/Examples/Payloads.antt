-- ===== src/Examples/Payloads.antt =====
-- Payloads of src/aftp/frame.rs on concrete bytes.
use agentic_file_transfer.Base.{
  ℕ, ◌≡◌, refl, List, [], ◌∷◌, ◌++◌, some, arith, ok, true, false, le_bytes,
}
use agentic_file_transfer.Frame.Utf8.{IsUtf8, is_utf8, from_utf8_lossy}
use agentic_file_transfer.Frame.Wire.{get_u8, get_u16, get_u32, get_u64, get_str}
use agentic_file_transfer.Frame.Payload.Session.{
  build_hello, build_hello_ack_with_session, build_error, build_resume, build_resume_ack,
}
use agentic_file_transfer.Frame.Payload.Files.{
  build_get, build_head_resp, build_put, ListEntry, parse_list_resp, build_list_resp,
}
use agentic_file_transfer.Frame.Payload.Fec.{FecOfferPayload, check_fec_offer, build_fec_accept}
use agentic_file_transfer.Frame.RoundTrip.Fec.{
  IsCoherent, check_fec_offer_sound, check_fec_offer_complete,
}
use agentic_file_transfer.Frame.RoundTrip.Listing.{parse_list_resp-build_list_resp}

-- "aé"
abbrev name : List ℕ
name = 97 ∷ 0xC3 ∷ 0xA9 ∷ []

name-IsUtf8 : IsUtf8 name
unfolding is_utf8
name-IsUtf8 = refl

abbrev prefixed_name : List ℕ
prefixed_name = 3 ∷ 0 ∷ name

hello_built : build_hello 5 (some name) ≡ some (le_bytes 4 5 ++ prefixed_name)
unfolding build_hello
hello_built = refl

hello_ack_built :
    build_hello_ack_with_session 5 1_048_576 name
    ≡ some (le_bytes 4 5 ++ le_bytes 4 1_048_576 ++ prefixed_name)
unfolding build_hello_ack_with_session
hello_ack_built = refl

resume_built :
    build_resume name 5 (some name) ≡ some (prefixed_name ++ le_bytes 4 5 ++ prefixed_name)
unfolding build_resume
resume_built = refl

resume_ack_built : build_resume_ack true 4_096 name ≡ some (1 ∷ (le_bytes 8 4_096 ++ prefixed_name))
unfolding build_resume_ack
resume_ack_built = refl

error_built : build_error 404 name ≡ some (le_bytes 2 404 ++ prefixed_name)
unfolding build_error
error_built = refl

get_built : build_get name 10 20 ≡ some (prefixed_name ++ le_bytes 8 10 ++ le_bytes 8 20)
unfolding build_get
get_built = refl

put_built : build_put name 20 ≡ some (prefixed_name ++ le_bytes 8 20)
unfolding build_put
put_built = refl

head_resp_built : build_head_resp 9 7 name ≡ some (le_bytes 8 9 ++ le_bytes 8 7 ++ prefixed_name)
unfolding build_head_resp
head_resp_built = refl

abbrev one_entry : List ListEntry
one_entry = record { name = name; size = 9; is_dir = false; modified_secs = 7 } ∷ []

abbrev one_entry_bytes : List ℕ
one_entry_bytes = le_bytes 4 1 ++ prefixed_name ++ le_bytes 8 9 ++ (0 ∷ le_bytes 8 7)

list_built : build_list_resp one_entry ≡ some one_entry_bytes
unfolding build_list_resp
list_built = refl

parse_list_resp-build_list_resp_example : parse_list_resp one_entry_bytes ≡ ok one_entry
parse_list_resp-build_list_resp_example =
    parse_list_resp-build_list_resp one_entry (omega arith)
      (record { name_utf8 = name-IsUtf8; size_fits = omega arith; time_fits = omega arith }, tt)
      list_built

list_parsed : parse_list_resp one_entry_bytes ≡ ok one_entry
unfolding parse_list_resp get_u32 get_str get_u16 get_u64 get_u8 from_utf8_lossy
list_parsed = refl

abbrev offer : FecOfferPayload
offer = record {
  session_id = 77;
  total_len = 10_000;
  block_size = 4_096;
  symbol_size = 1_024;
  block_count = 3;
  authenticated = true;
}

offer-IsCoherent : IsCoherent offer
offer-IsCoherent = record {
  has_symbols = omega arith;
  symbol_fits = omega arith;
  covers = omega arith;
  no_empty_block = omega arith;
}

offer_checked : check_fec_offer offer ≡ ok tt
offer_checked = check_fec_offer_complete offer offer-IsCoherent

check_fec_offer_sound_example : IsCoherent offer
check_fec_offer_sound_example = check_fec_offer_sound offer offer_checked

accept_built : build_fec_accept true 0 name ≡ some (1 ∷ (le_bytes 2 0 ++ prefixed_name))
unfolding build_fec_accept
accept_built = refl
