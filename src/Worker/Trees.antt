-- ===== src/Worker/Trees.antt =====
-- pkg/execution/worker.go: `buildDirectoryProto` and `buildTree`, `stageInputs`, `stageDirectory` and
-- `stageFile`. What a call of the operating system on the staged tree does is an effect; `fails` gives
-- its error. A directory is staged with fuel for its depth.
pub mod Layout
pub mod Modes
pub mod Building
pub mod RoundTrip
pub mod Escapes
mod Examples
use go_rego.Base.{
  ℕ, zero, suc, Bool, true, false, ◌&&◌, ◌||◌, Option, none, some, List, [], ◌∷◌, ◌++◌,
  if◌then◌else◌, ◌==◌,
}
use go_rego.Base.Text.{GoString, codes, str_eq}
use go_rego.Base.Results.{Error, wrapped, plain, Result, ok, err}
use go_rego.Storage.Digests.{Digest}
use go_rego.Storage.Files.{FilePath}
use go_rego.Worker.Blobs.{
  FileNode, SymlinkNode, DirectoryNode, Directory, empty_directory, BlobStore,
}

-- A file tree on the disk; the entries of a directory in the order of `os.ReadDir`.
mutual
  pub data Node : Type 0 where
    file : (contents : GoString) (is_executable : Bool) → Node
    symlink : (target : GoString) → Node
    dir : Entries → Node

  pub data Entries : Type 0 where
    end : Entries
    entry : (name : GoString) → Node → Entries → Entries

pub data Effect : Type 0 where
  make_dir : FilePath → Effect
  make_symlink : (target : GoString) → FilePath → Effect
  -- The blob's own file gets the executable bits, if it has none.
  make_executable : Digest → Effect
  link_blob : Digest → FilePath → Effect
  write_copy : GoString → (is_executable : Bool) → FilePath → Effect

abbrev pub Effects : Type 0
Effects = List Effect × Option Error

-- The second part runs if the first one meets no error.
abbrev pub followed_by : Effects → Effects → Effects
followed_by (done, some e) next = (done, some e)
followed_by (done, none) next = (done ++ next.0, next.1)

abbrev pub wrap_error : Effects → Effects
wrap_error (done, none) = (done, none)
wrap_error (done, some e) = (done, some (wrapped e))

abbrev pub parent : FilePath → FilePath
parent [] = []
parent (p ∷ []) = []
parent (p ∷ (q ∷ ps)) = p ∷ parent (q ∷ ps)

abbrev pub add_part : FilePath → GoString → FilePath
add_part path part =
    if str_eq part [] || str_eq part (codes ".")
    then path
    else (if str_eq part (codes "..") then parent path else path ++ (part ∷ []))

unfoldable pub add_parts : FilePath → GoString → GoString → FilePath
add_parts path part [] = add_part path part
add_parts path part (c ∷ rest) = elim (c == b'/') [
  | true ↦ add_parts (add_part path part) [] rest
  | false ↦ add_parts path (part ++ (c ∷ [])) rest
]

-- `filepath.Join` of an absolute path and a name.
unfoldable pub join : FilePath → GoString → FilePath
unfolding add_parts
join path name = add_parts path [] name

module _ (fails : Effect → Option Error) where
  unfoldable pub attempt : Effect → Effects
  attempt e = elim (fails e) [ none ↦ (e ∷ [], none) | some er ↦ ([], some er) ]

  -- What is written after `Get`: a link to the blob's file, where the store has one and the link
  -- succeeds, or a copy.
  unfoldable pub place_file : (is_local : Bool) → Digest → GoString → Bool → FilePath → Effects
  unfolding attempt
  place_file is_local d bytes executable path =
      let copy = attempt (write_copy bytes executable path) in
      let linked : Effects = elim (fails (link_blob d path)) [
        | none ↦ (link_blob d path ∷ [], none)
        | some _ ↦ copy
      ] in
      if is_local
      then (if executable then followed_by (attempt (make_executable d)) linked else linked)
      else copy

  module _ {S : Type 0} (blobs : BlobStore S) (is_local : Bool) (s : S) where
    unfoldable pub stage_file : FilePath → Digest → Bool → Effects
    unfolding place_file
    stage_file path d executable = elim (blobs.get s d) [
      | err e ↦ ([], some e)
      | ok bytes ↦ place_file is_local d bytes executable path
    ]

    unfoldable pub stage_files : FilePath → List FileNode → Effects
    unfolding stage_file join
    stage_files target [] = ([], none)
    stage_files target (f ∷ files) = elim (blobs.valid f.digest) [
      | some e ↦ ([], some e)
      | none ↦
          followed_by (wrap_error (stage_file (join target f.name) f.digest f.is_executable))
            (stage_files target files)
    ]

    unfoldable pub stage_symlinks : FilePath → List SymlinkNode → Effects
    unfolding attempt join
    stage_symlinks target [] = ([], none)
    stage_symlinks target (l ∷ links) =
        followed_by (wrap_error (attempt (make_symlink l.target (join target l.name))))
          (stage_symlinks target links)

    abbrev pub fetch_directory : Digest → Result Directory
    fetch_directory d = elim (blobs.get s d) [ err e ↦ err e | ok bytes ↦ blobs.unmarshal bytes ]

    -- `stage` is the recursive call.
    unfoldable pub stage_subdirectories :
        (stage : FilePath → Digest → Effects) → FilePath → List DirectoryNode → Effects
    unfolding join
    stage_subdirectories stage target [] = ([], none)
    stage_subdirectories stage target (d ∷ ds) = elim (blobs.valid d.digest) [
      | some e ↦ ([], some e)
      | none ↦
          followed_by (stage (join target d.name) d.digest) (stage_subdirectories stage target ds)
    ]

    abbrev pub stage_fetched :
        (stage : FilePath → Digest → Effects) → FilePath → Result Directory → Effects
    stage_fetched stage target (err e) = ([], some e)
    stage_fetched stage target (ok directory) = followed_by (stage_files target directory.files) (
        followed_by (stage_symlinks target directory.symlinks)
          (stage_subdirectories stage target directory.directories))

    unfoldable pub stage_directory : (fuel : ℕ) → FilePath → Digest → Effects
    unfolding attempt
    stage_directory zero target d = ([], some plain)
    stage_directory (suc fuel) target d =
        followed_by (attempt (make_dir target))
          (stage_fetched (stage_directory fuel) target (fetch_directory d))

-- What `buildDirectoryProto` has so far: the directory, and the children of the tree.
abbrev pub Built : Type 0
Built = Directory × List Directory

module _ {S : Type 0} (blobs : BlobStore S) where
  -- `uploadBlob`; `uploadFile` puts the same bytes, read from the file.
  unfoldable pub upload_blob : S → GoString → S × Result Digest
  upload_blob s bytes =
      let (t, e) = blobs.put s (blobs.digest_of bytes) bytes in
      (t, elim e [ some er ↦ err er | none ↦ ok (blobs.digest_of bytes) ])

  -- `proto.Marshal` and the upload.
  unfoldable pub upload_directory : S → Directory → S × Result Digest
  unfolding upload_blob
  upload_directory s directory = elim (blobs.marshal directory) [
    | err e ↦ (s, err e)
    | ok bytes ↦ upload_blob s bytes
  ]

  unfoldable pub build_entries : S → Entries → Built → S × Result Built
  unfolding upload_blob upload_directory
  build_entries s end built = (s, ok built)
  build_entries s (entry name (file contents x) rest) (d, children) =
      let (t, r) = upload_blob s contents in
      elim r [
        | err e ↦ (t, err e)
        | ok digest ↦
            let node : FileNode = record { name = name; digest = digest; is_executable = x } in
            build_entries t rest (record d { files = d.files ++ (node ∷ []) }, children)
      ]
  build_entries s (entry name (symlink target) rest) (d, children) =
      let node : SymlinkNode = record { name = name; target = target } in
      build_entries s rest (record d { symlinks = d.symlinks ++ (node ∷ []) }, children)
  build_entries s (entry name (dir es) rest) (d, children) =
      let (s1, r1) = build_entries s es (empty_directory, children) in
      elim r1 [
        | err e ↦ (s1, err e)
        | ok (sub, children1) ↦
            let (s2, r2) = upload_directory s1 sub in
            elim r2 [
              | err e ↦ (s2, err e)
              | ok digest ↦
                  let node : DirectoryNode = record { name = name; digest = digest } in
                  build_entries s2 rest (
                    record d { directories = d.directories ++ (node ∷ []) },
                    children1 ++ (sub ∷ []),
                  )
            ]
      ]

  -- The root, its digest, and the children.
  unfoldable pub build_tree : S → Entries → S × Result (Digest × Built)
  unfolding build_entries
  build_tree s es =
      let (s1, r1) = build_entries s es (empty_directory, []) in
      elim r1 [
        | err e ↦ (s1, err e)
        | ok built ↦
            let (s2, r2) = upload_directory s1 built.0 in
            elim r2 [ err e ↦ (s2, err e) | ok digest ↦ (s2, ok (digest, built)) ]
      ]
