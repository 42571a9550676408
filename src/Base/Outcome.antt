-- ===== src/Base/Outcome.antt =====
-- `AftResult`: the errors of `src/error.rs` as values. A message is a constructor that carries the
-- values which the source prints into it.
use Prim.Native.Nat.{ℕ}
use mathlib.Core.Path.{◌≡◌, refl}
use mathlib.Core.Logic.{◌⊎◌, inl, inr}
use mathlib.Core.Bool.{Bool, true, false}
use mathlib.Core.List.{List}

-- The texts that the modelled code puts into its errors.
pub data Message : Type 0 where
  connection_closed stream_closed invalid_magic bad_magic crc_trailer_short : Message
  unsupported_version version_mismatch : ℕ → Message
  payload_too_large : ℕ → ℕ → Message
  crc_mismatch : ℕ → ℕ → Message
  truncated_u8 truncated_u16 truncated_u32 truncated_u64 truncated_string truncated_bytes : Message
  truncated_checksum truncated_stream_data : Message
  zero_symbol_size zero_block_size symbol_exceeds_block empty_block no_data_port : Message
  block_count_disagrees transfer_length_disagrees block_length_wrong : ℕ → ℕ → Message
  symbol_too_short datagram_too_short key_length nonce_length : ℕ → Message
  sealed_too_short not_authenticated no_key symbol_crc_mismatch : Message
  length_mismatch : ℕ → ℕ → Message
  too_many_symbols : ℕ → ℕ → ℕ → Message
  manifest_version entry_kind : ℕ → Message
  too_many_entries manifest_too_long : ℕ → Message
  root_length sha256_length dir_with_bytes packed_overflow root_mismatch : Message
  not_contiguous : List ℕ → ℕ → ℕ → Message
  total_mismatch : ℕ → ℕ → Message
  read_out_of_bounds read_past_files : Message
  block_range_out_of_bounds block_write_out_of_bounds block_vanished no_progress : Message
  closed_during_startup session_not_found no_hello invalid_path : Message
  did_not_converge closed_with_acknowledged : ℕ → ℕ → Message
  data_len_disagrees : ℕ → ℕ → Message
  empty_path : Message
  absolute_path drive_path unsafe_component backslash_component : List ℕ → Message

-- `std::io::ErrorKind`, as far as the code tells kinds apart.
pub data IoError : Type 0 where
  unexpected_eof other_io : IoError

-- `enum AftError`. The variants that the modelled code does not build carry their text as its bytes.
pub data AftError : Type 0 where
  unsupported_protocol invalid_url file_not_found : List ℕ → AftError
  permission_denied auth_failed crypto_error http : List ℕ → AftError
  checksum_mismatch : List ℕ → List ℕ → AftError
  timeout : ℕ → AftError
  resume_not_supported : AftError
  http_status : ℕ → List ℕ → AftError
  connection_failed transfer_failed other : Message → AftError
  io : IoError → AftError

pub data Result {ℓ} (A : Type ℓ) : Type ℓ where
  ok : A → Result A
  err : AftError → Result A

abbrev pub raise_if : Bool → AftError → Result (Unit {0})
raise_if true e = err e
raise_if false e = ok tt

pub Result-cases {ℓ} :
    {A : Type ℓ} (r : Result A) → ((a : A) × (r ≡ ok a)) ⊎ ((e : AftError) × (r ≡ err e))
Result-cases (ok a) = inl (a, refl)
Result-cases (err e) = inr (e, refl)
