-- ===== src/Fec/Containment.antt =====
-- Proofs on the path check of src/aftp/fec/manifest.rs.
use agentic_file_transfer.Base.{
  ℕ, zero, suc, ◌+◌, ◌≡◌, ap, ◌∙◌, List, [], ◌∷◌, false, ◌||◌, Option, none, some, arith, length,
  bytes_eq, if◌then◌else◌, ok, All, Bool-cases, inl, inr,
}
use agentic_file_transfer.Base.Fallible.{>>=-eq-ok}
use agentic_file_transfer.Sync.Glob.{slash, is_nil}
use agentic_file_transfer.Sync.Filter.{contains}
use agentic_file_transfer.Fec.Paths.{
  backslash, this_dir, parent_dir, split, check_component, check_components, validate_rel_path,
}

-- One component from a directory `depth` levels below the root: nothing above the root is reached.
abbrev pub climb : ℕ → Option ℕ
climb zero = none
climb (suc depth) = some depth

abbrev pub enter : List ℕ → ℕ → Option ℕ
enter comp depth =
    if bytes_eq comp parent_dir
    then climb depth
    else if is_nil comp || bytes_eq comp this_dir
    then some depth
    else some (suc depth)

abbrev pub then_enter : (ℕ → Option ℕ) → Option ℕ → Option ℕ
then_enter next none = none
then_enter next (some depth) = next depth

-- The depth that a sequence of components leads to.
abbrev pub resolve : List (List ℕ) → ℕ → Option ℕ
resolve [] depth = some depth
resolve (comp ∷ comps) depth = then_enter (resolve comps) (enter comp depth)

check_component-ok :
    (path comp : List ℕ) (u : Unit {0}) (depth : ℕ)
    → check_component path comp ≡ ok u
    → (enter comp depth ≡ some (suc depth)) × (contains backslash comp ≡ false)
unfolding check_component
check_component-ok path comp u depth h = elim (Bool-cases (is_nil comp)) [
  | inl e ↦ cc (rw e at h)
  | inr e ↦ elim (Bool-cases (bytes_eq comp this_dir)) [
    | inl f ↦ cc (rw (e, f) at h)
    | inr f ↦ elim (Bool-cases (bytes_eq comp parent_dir)) [
      | inl g ↦ cc (rw (e, f, g) at h)
      | inr g ↦ elim (Bool-cases (contains backslash comp)) [
        | inl k ↦ cc (rw (e, f, g, k) at h)
        | inr k ↦ (rw (e, f, g), k)
      ]
    ]
  ]
]

check_components-ok :
    (path : List ℕ) (comps : List (List ℕ)) (u : Unit {0}) (depth : ℕ)
    → check_components path comps ≡ ok u
    → (resolve comps depth ≡ some (depth + length comps))
      × All (λ comp. contains backslash comp ≡ false) comps
unfolding check_components
check_components-ok path [] u depth h = (ap some (omega arith), tt)
check_components-ok path (comp ∷ comps) u depth h =
    let (v, first, others) =
      >>=-eq-ok (check_component path comp) (λ w. check_components path comps) h in
    let (down, plain) = check_component-ok path comp v depth first in
    let (rest, plains) = check_components-ok path comps u (suc depth) others in
    let total : suc depth + length comps ≡ depth + suc (length comps) = omega arith in
    (ap (then_enter (resolve comps)) down ∙ rest ∙ ap some total, (plain, plains))

validate_rel_path→components :
    (path : List ℕ)
    → validate_rel_path path ≡ ok tt
    → check_components path (split slash path) ≡ ok tt
unfolding validate_rel_path
validate_rel_path→components path h = ground (arith, h)

-- A path that validate_rel_path accepts leads, from every depth below the root, exactly as many
-- levels down as it has components between slashes: no component is empty, stays where it is or
-- goes up. No component holds a backslash.
pub validate_rel_path_descends :
    (path : List ℕ) (depth : ℕ)
    → validate_rel_path path ≡ ok tt
    → (resolve (split slash path) depth ≡ some (depth + length (split slash path)))
      × All (λ comp. contains backslash comp ≡ false) (split slash path)
validate_rel_path_descends path depth h =
    check_components-ok path (split slash path) tt depth (validate_rel_path→components path h)
