-- ===== src/Fec/Manifest/Merkle.antt =====
-- The entries of a manifest and their Merkle tree, src/aftp/fec/manifest.rs. SHA-256 is a parameter.
use agentic_file_transfer.Base.{
  ℕ, zero, suc, List, [], ◌∷◌, ◌++◌, length, le_bytes, map, Result, ok, err, AftError, Message,
}

pub data EntryKind : Type 0 where
  regular dir : EntryKind

-- `EntryKind::to_u8`
unfoldable pub kind_to_u8 : EntryKind → ℕ
kind_to_u8 regular = 0
kind_to_u8 dir = 1

-- `EntryKind::from_u8`
unfoldable pub kind_from_u8 : ℕ → Result EntryKind
kind_from_u8 zero = ok regular
kind_from_u8 (suc zero) = ok dir
kind_from_u8 (suc (suc n)) = err (AftError.other (Message.entry_kind (suc (suc n))))

pub record Entry : Type 0 where
  pub kind : EntryKind
  pub path : List ℕ
  pub mode : ℕ
  pub size : ℕ
  pub offset : ℕ
  pub sha256 : List ℕ

pub record Manifest : Type 0 where
  pub entries : List Entry
  pub total_len : ℕ
  pub merkle_root : List ℕ

abbrev pub leaf_tag : ℕ
leaf_tag = 0

abbrev pub node_tag : ℕ
node_tag = 1

-- What `leaf_hash` feeds to the hash.
unfoldable pub leaf_bytes : Entry → List ℕ
unfolding kind_to_u8
leaf_bytes e =
    leaf_tag
    ∷ kind_to_u8 e.kind
    ∷ (le_bytes 8 (length e.path)
        ++ (e.path ++ (le_bytes 4 e.mode ++ (le_bytes 8 e.size ++ e.sha256))))

module _ (sha : List ℕ → List ℕ) where
  unfoldable pub leaf_hash : Entry → List ℕ
  unfolding leaf_bytes
  leaf_hash e = sha (leaf_bytes e)

  unfoldable pub node_hash : List ℕ → List ℕ → List ℕ
  node_hash left right = sha (node_tag ∷ (left ++ right))

  -- One round of the loop: pairs are combined, and a last one without a partner stays.
  unfoldable pub next_level : List (List ℕ) → List (List ℕ)
  next_level [] = []
  next_level (a ∷ []) = a ∷ []
  next_level (a ∷ (b ∷ level)) = node_hash a b ∷ next_level level

  -- `while level.len() > 1`; a level has fewer hashes than the one before, if that has two at least.
  unfoldable pub climb_levels : ℕ → List (List ℕ) → List ℕ
  unfolding next_level
  climb_levels fuel [] = []
  climb_levels fuel (a ∷ []) = a
  climb_levels zero (a ∷ (b ∷ level)) = a
  climb_levels (suc fuel) (a ∷ (b ∷ level)) = climb_levels fuel (next_level (a ∷ (b ∷ level)))

  unfoldable pub merkle_root : List Entry → List ℕ
  unfolding climb_levels leaf_hash
  merkle_root [] = sha (node_tag ∷ [])
  merkle_root (e ∷ es) = climb_levels (length es) (map leaf_hash (e ∷ es))
