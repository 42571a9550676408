-- ===== src/Fec/Manifest/Destination.antt =====
-- The destination of `unpack_tree`, src/aftp/fec/manifest.rs, and what the file system answers there,
-- which is a parameter: each call may be refused, by what stands at the destination or otherwise.
use agentic_file_transfer.Base.{ℕ, List, Option, Result, ok, err, AftError}
use agentic_file_transfer.Base.Table.{Table, insert, remove, bytes_key}

abbrev pub Files : Type 0
Files = Table (List ℕ) (List ℕ)

-- The files with their contents, and the directories that were made. Paths are relative to the root
-- of the destination, which is there.
pub record Destination : Type 0 where
  pub files : Files
  pub dirs : List (List ℕ)

-- The answers of the file system. `interrupted` is the failure of a write before that of a read, and
-- `left_behind` what a temporary holds after either.
pub record FileSystem : Type 0 where
  pub create_dir_all : Destination → List ℕ → Result (Unit {0})
  pub create : Destination → List ℕ → Result (Unit {0})
  pub interrupted : Destination → List ℕ → Option AftError
  pub left_behind : Destination → List ℕ → List ℕ
  pub remove_file : Destination → List ℕ → Result (Unit {0})
  pub rename : Destination → List ℕ → List ℕ → Result (Unit {0})

-- A step at the destination. An error leaves it as far as the step had come.
abbrev pub Action : Type 0 → Type 0
Action A = Destination → Destination × Result A

abbrev pub after : {A B : Type 0} → Destination × Result A → (A → Action B) → Destination × Result B
after (d, err e) f = (d, err e)
after (d, ok a) f = f a d

infixl 5 ◌>>=◌ ◌>>◌
abbrev pub ◌>>=◌ : {A B : Type 0} → Action A → (A → Action B) → Action B
◌>>=◌ m f d = after (m d) f

abbrev pub ◌>>◌ : {B : Type 0} → Action (Unit {0}) → Action B → Action B
m >> k = m >>= λ _. k

abbrev pub pure : {A : Type 0} → A → Action A
pure a d = (d, ok a)

abbrev pub lift : {A : Type 0} → Result A → Action A
lift r d = (d, r)

-- What the file system answers; the destination changes with the next step.
abbrev pub request : (Destination → Result (Unit {0})) → Action (Unit {0})
request call d = (d, call d)

abbrev pub put : List ℕ → List ℕ → Destination → Destination
put path bytes d = record d { files = insert path bytes d.files }

abbrev pub drop_file : List ℕ → Destination → Destination
drop_file path d = record d { files = remove path d.files }
