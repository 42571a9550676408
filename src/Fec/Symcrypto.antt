-- ===== src/Fec/Symcrypto.antt =====
-- The length checks of src/aftp/fec/symcrypto.rs around AES-256-GCM, which is a parameter.
use agentic_file_transfer.Base.{
  ℕ, ◌+◌, ◌≡◌, List, not, length, ltb, ◌==◌, if◌then◌else◌, raise_if, Result, ok, err, AftError,
  Message,
}
use agentic_file_transfer.Base.Fallible.{◌>>◌}

-- AES-256-GCM as the code relies on it: what was sealed is opened again under the same key, nonce and
-- associated bytes, and a tag of sixteen bytes trails the ciphertext.
pub record Aead : Type 0 where
  pub backend_seal : List ℕ → List ℕ → List ℕ → List ℕ → Result (List ℕ)
  pub backend_open : List ℕ → List ℕ → List ℕ → List ℕ → Result (List ℕ)
  pub opens :
      (key nonce aad plaintext sealed : List ℕ)
      → backend_seal key nonce aad plaintext ≡ ok sealed
      → backend_open key nonce aad sealed ≡ ok plaintext
  pub tag_trails :
      (key nonce aad plaintext sealed : List ℕ)
      → backend_seal key nonce aad plaintext ≡ ok sealed
      → length sealed ≡ length plaintext + 16

unfoldable pub check_lengths : List ℕ → List ℕ → Result (Unit {0})
check_lengths key nonce =
    if not (length key == 32)
    then err (AftError.other (Message.key_length (length key)))
    else if not (length nonce == 12)
    then err (AftError.other (Message.nonce_length (length nonce)))
    else ok tt

module _ (a : Aead) where
  unfoldable pub seal : List ℕ → List ℕ → List ℕ → List ℕ → Result (List ℕ)
  seal key nonce aad plaintext = check_lengths key nonce >> a.backend_seal key nonce aad plaintext

  unfoldable pub open_sealed : List ℕ → List ℕ → List ℕ → List ℕ → Result (List ℕ)
  open_sealed key nonce aad sealed = do
    check_lengths key nonce
    raise_if (ltb (length sealed) 16) (AftError.other Message.sealed_too_short)
    a.backend_open key nonce aad sealed
