-- ===== src/Examples/Paths.antt =====
-- Manifest paths of src/aftp/fec/manifest.rs.
use agentic_file_transfer.Base.{
  ℕ, ◌+◌, ◌≡◌, refl, List, [], ◌∷◌, false, some, length, ok, err, All, AftError, Message,
}
use agentic_file_transfer.Sync.Glob.{slash}
use agentic_file_transfer.Sync.Filter.{contains}
use agentic_file_transfer.Fec.Paths.{
  backslash, split, check_component, check_components, validate_rel_path,
}
use agentic_file_transfer.Fec.Containment.{resolve, validate_rel_path_descends}

-- "a/bc"
abbrev below : List ℕ
below = 97 ∷ 47 ∷ 98 ∷ 99 ∷ []

below_accepted : validate_rel_path below ≡ ok tt
unfolding validate_rel_path check_components check_component split
below_accepted = refl

-- "a/.."
parent_refused :
    validate_rel_path (97 ∷ 47 ∷ 46 ∷ 46 ∷ [])
    ≡ err (AftError.other (Message.unsafe_component (97 ∷ 47 ∷ 46 ∷ 46 ∷ [])))
unfolding validate_rel_path check_components check_component split
parent_refused = refl

validate_rel_path_descends_example :
    (resolve (split slash below) 3 ≡ some (3 + length (split slash below)))
    × All (λ comp. contains backslash comp ≡ false) (split slash below)
validate_rel_path_descends_example = validate_rel_path_descends below 3 below_accepted
