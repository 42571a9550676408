-- ===== src/Examples/Manifests.antt =====
-- Manifests of src/aftp/fec/manifest.rs on concrete bytes, with a constant in place of the hash.
use agentic_file_transfer.Base.{
  drop, ◌+◌, ok, err, Result, AftError, IoError, Bool, true, false, ◌||◌, bytes_eq, none, Option,
  All, some, ◌⊎◌, arith, ◌≡◌, ℕ, refl, List, [], ◌∷◌, ◌++◌, replicate, le_bytes,
}
use agentic_file_transfer.Base.Table.{lookup, insert, remove, bytes_key}
use agentic_file_transfer.Fec.Manifest.Packed.{
  Tree, new_reader, read_packed, manifest_prefix, read_exact,
}
use agentic_file_transfer.Fec.Manifest.Stream.{read_packed_lem}
use agentic_file_transfer.Fec.Manifest.Unpack.{read_manifest_prefix, safe_join, read_chunks}
use agentic_file_transfer.Fec.Manifest.Destination.{Destination, FileSystem}
use agentic_file_transfer.Fec.Manifest.Unpacking.{
  make_dir, make_dirs, temporary, parent, has_slash, create_temporary, filled, fill_temporary,
  rename_file, check_file, unpack_to, unpack_file, unpack_files, unpack_tree,
}
use agentic_file_transfer.Fec.Manifest.Traces.{Some, IsOf, IsLeft, Failed}
use agentic_file_transfer.Fec.Manifest.Authentic.{unpack_tree_authentic}
use agentic_file_transfer.Fec.Manifest.EntryWire.{IsWireEntry}
use agentic_file_transfer.Fec.Manifest.Build.{
  dir_entries, file_entries, sort_by_path, insert_by_path, build_manifest,
}
use agentic_file_transfer.Fec.Manifest.Built.{build_manifest-IsSafe}
use agentic_file_transfer.Fec.Manifest.Shipped.{ship_tree}
use agentic_file_transfer.Frame.Wire.{
  put_u8, put_u32, put_u64, put_bytes, put_str, get_u8, get_u16, get_u32, get_u64, get_str,
  get_bytes,
}
use agentic_file_transfer.Frame.Utf8.{from_utf8_lossy, is_utf8}
use agentic_file_transfer.Fec.Paths.{validate_rel_path, check_components, check_component, split}
use agentic_file_transfer.Fec.Manifest.Merkle.{
  dir, regular, kind_to_u8, kind_from_u8, Manifest, merkle_root, climb_levels, next_level,
  leaf_hash, node_hash,
}
use agentic_file_transfer.Fec.Manifest.Codec.{
  put_manifest_entry, put_manifest_entries, encode_manifest, get_manifest_entry, place_entry,
  get_manifest_entries, seal_manifest, get_manifest, decode_manifest,
}
use agentic_file_transfer.Fec.Manifest.Accepted.{IsSafe, decode_manifest-IsSafe}

abbrev no_hash : List ℕ → List ℕ
no_hash bytes = replicate 32 0

abbrev one_file : Manifest
one_file = record {
  entries =
      record {
        kind = regular;
        path = b'a' ∷ [];
        mode = 420;
        size = 3;
        offset = 0;
        sha256 = replicate 32 9;
      }
      ∷ [];
  total_len = 3;
  merkle_root = replicate 32 0;
}

abbrev one_file_bytes : List ℕ
one_file_bytes =
    1
    ∷ (le_bytes 4 1
        ++ (le_bytes 8 3
            ++ (le_bytes 2 32
                ++ (replicate 32 0
                    ++ (0
                        ∷ (le_bytes 4 420
                            ++ (le_bytes 8 3
                                ++ (le_bytes 8 0
                                    ++ (le_bytes 2 32
                                        ++ (replicate 32 9 ++ (le_bytes 2 1 ++ b'a' ∷ [])))))))))))

decode_manifest-IsSafe_example : IsSafe no_hash one_file
unfolding decode_manifest get_manifest get_u8 get_u16 get_u32 get_u64 get_str get_bytes kind_from_u8
    get_manifest_entry place_entry get_manifest_entries seal_manifest merkle_root climb_levels
    next_level leaf_hash node_hash validate_rel_path check_components check_component split
    from_utf8_lossy
decode_manifest-IsSafe_example = decode_manifest-IsSafe no_hash one_file_bytes one_file refl

-- The file on disk, and a destination without files.
abbrev content : List ℕ → List ℕ
content path = 5 ∷ 6 ∷ 7 ∷ []

abbrev on_disk : Tree
on_disk path = ok (content path)

abbrev thirty_two : List ℕ → List ℕ
thirty_two bytes = replicate 32 9

read_packed_lem_example :
    read_packed (new_reader on_disk one_file (1 ∷ 2 ∷ [])) 1 3 ≡ ok (2 ∷ 5 ∷ 6 ∷ [])
read_packed_lem_example =
    read_packed_lem on_disk content one_file (1 ∷ 2 ∷ []) 1 3 (omega arith) (refl, refl)
      ((refl, refl), tt) (omega arith)

abbrev anywhere : List ℕ → Bool
anywhere path = true

-- A destination with nothing in it, and a file system that makes no directory under a name that a
-- file has, and moves no file to the name of a directory.
abbrev empty : Destination
empty = record { files = []; dirs = [] }

abbrev is_file : Option (List ℕ) → Result (Unit {0})
is_file none = ok tt
is_file (some bytes) = err (AftError.io IoError.other_io)

abbrev is_dir : Bool → Result (Unit {0})
is_dir false = ok tt
is_dir true = err (AftError.io IoError.other_io)

abbrev is_among : List ℕ → List (List ℕ) → Bool
is_among path [] = false
is_among path (p ∷ ps) = bytes_eq path p || is_among path ps

abbrev plain : FileSystem
plain = record {
  create_dir_all = λ d path. is_file (lookup path d.files);
  create = λ d path. is_dir (is_among path d.dirs);
  interrupted = λ d path. none;
  left_behind = λ d path. [];
  remove_file = λ d path. ok tt;
  rename = λ d from to. is_dir (is_among to d.dirs);
}

-- The file came through with its hash.
unpack_tree_authentic_example :
    (lookup {K = List ℕ} {V = List ℕ} (b'a' ∷ []) [] ≡ some (5 ∷ 6 ∷ 7 ∷ []))
    ⊎ (Some (IsOf anywhere thirty_two (b'a' ∷ []) (5 ∷ 6 ∷ 7 ∷ [])) one_file.entries
        ⊎ (Some (IsLeft anywhere (b'a' ∷ [])) one_file.entries
            × Failed
                (unpack_tree plain anywhere thirty_two
                  (1 ∷ 2 ∷ 5 ∷ 6 ∷ 7 ∷ [])
                  2
                  one_file.entries
                  empty).1))
unfolding validate_rel_path check_components check_component split unpack_tree make_dirs make_dir
    unpack_files unpack_file unpack_to create_temporary fill_temporary filled rename_file temporary
    parent has_slash remove check_file safe_join read_chunks read_exact lookup insert
unpack_tree_authentic_example =
    unpack_tree_authentic plain anywhere thirty_two (1 ∷ 2 ∷ 5 ∷ 6 ∷ 7 ∷ []) 2 one_file.entries
      empty (b'a' ∷ []) (5 ∷ 6 ∷ 7 ∷ []) refl

-- A directory and a file of the same name: the last step is refused, and the temporary is left.
name_taken :
    (unpack_tree plain anywhere thirty_two
      (1 ∷ 2 ∷ 5 ∷ 6 ∷ 7 ∷ [])
      2
      (record {
        kind = dir;
        path = b'a' ∷ [];
        mode = 493;
        size = 0;
        offset = 0;
        sha256 = replicate 32 0;
      }
        ∷ one_file.entries)
      empty)
    ≡ (
      record { files = (temporary (b'a' ∷ []), 5 ∷ 6 ∷ 7 ∷ []) ∷ []; dirs = [] ∷ (b'a' ∷ []) ∷ [] },
      err (AftError.io IoError.other_io),
    )
unfolding validate_rel_path check_components check_component split unpack_tree make_dirs make_dir
    unpack_files unpack_file unpack_to create_temporary fill_temporary filled rename_file temporary
    parent has_slash remove check_file safe_join read_chunks read_exact lookup insert
name_taken = refl

one_file-IsWireEntry : All IsWireEntry one_file.entries
unfolding is_utf8
one_file-IsWireEntry =
    (record { mode_fits = omega arith; size_fits = omega arith; path_utf8 = refl }, tt)

one_file-IsSafe : IsSafe no_hash one_file
unfolding validate_rel_path check_components check_component split merkle_root climb_levels
    leaf_hash
one_file-IsSafe = record {
  few = omega arith;
  safe_paths = (refl, tt);
  hashed = (refl, tt);
  filled = (refl, refl);
  fits = omega arith;
  authentic = refl;
}

-- The same file under the hash that is constantly 9.
abbrev nines_file : Manifest
nines_file = record one_file { merkle_root = replicate 32 9 }

abbrev nines_prefix : List ℕ
nines_prefix =
    le_bytes 8 105
    ++ (1
        ∷ (le_bytes 4 1
            ++ (le_bytes 8 3 ++ (le_bytes 2 32 ++ (replicate 32 9 ++ drop 47 one_file_bytes)))))

nines_file-IsSafe : IsSafe thirty_two nines_file
unfolding validate_rel_path check_components check_component split merkle_root climb_levels
    leaf_hash
nines_file-IsSafe = record {
  few = omega arith;
  safe_paths = (refl, tt);
  hashed = (refl, tt);
  filled = (refl, refl);
  fits = omega arith;
  authentic = refl;
}

ship_tree_example :
    (packed : List ℕ) × (read_packed (new_reader on_disk nines_file (nines_prefix)) 0 (113 + 3)
      ≡ ok packed)
    × (read_manifest_prefix thirty_two packed ≡ ok (nines_file, 113))
    × ((unpack_tree plain anywhere thirty_two packed 113 nines_file.entries empty).1 ≡ ok 1)
    × All
        (λ e.
          e.kind ≡ regular
          → lookup e.path
              (unpack_tree plain anywhere thirty_two packed 113 nines_file.entries empty).0.files
            ≡ some (content e.path))
        nines_file.entries
unfolding manifest_prefix encode_manifest put_manifest_entries put_manifest_entry put_u8 put_u32
    put_u64 put_bytes put_str kind_to_u8 validate_rel_path check_components check_component split
    temporary parent has_slash lookup
ship_tree_example =
    ship_tree on_disk content plain anywhere thirty_two nines_file empty {prefix = nines_prefix}
      nines_file-IsSafe one_file-IsWireEntry refl (omega arith) (omega arith) refl
      ((refl, refl), tt) ((refl, refl, λ file. (refl, refl)), tt) (tt, tt) tt
      (record { makes_parent = refl; creates = refl; writes = refl; renames = refl }, tt)

-- A directory and a file in it.
build_manifest-IsSafe_example : IsSafe thirty_two (record {
  entries =
      record {
        kind = dir;
        path = b'd' ∷ [];
        mode = 493;
        size = 0;
        offset = 0;
        sha256 = replicate 32 0;
      }
      ∷ one_file.entries;
  total_len = 3;
  merkle_root = replicate 32 9;
})
unfolding build_manifest dir_entries file_entries sort_by_path insert_by_path validate_rel_path
    check_components check_component split merkle_root climb_levels leaf_hash next_level node_hash
build_manifest-IsSafe_example =
    build_manifest-IsSafe thirty_two (record { path = b'd' ∷ []; mode = 493 } ∷ [])
      (record { path = b'a' ∷ []; mode = 420; size = 3; sha256 = replicate 32 9 } ∷ []) _ (refl, tt)
      (omega arith) (omega arith) refl
