-- ===== src/Worker/Outputs.antt =====
-- pkg/execution/worker.go: `createOutputDirectories` and `uploadOutputs`. What the disk holds after
-- the command, and how protobuf encodes a tree, are arguments.
pub mod Uploaded
pub mod Steps
pub mod Listed
use go_rego.Base.{Bool, true, false, Option, none, some, List, [], ◌∷◌, ◌++◌, if◌then◌else◌}
use go_rego.Base.Text.{GoString}
use go_rego.Base.Integers.{ℤ}
use go_rego.Base.Results.{Error, not_exist, wrapped, Result, ok, err, ◌>>=◌}
use go_rego.Storage.Digests.{Digest}
use go_rego.Storage.Files.{FilePath}
use go_rego.Sandbox.{deduplicate_paths}
use go_rego.Worker.Blobs.{Directory, BlobStore}
use go_rego.Worker.Trees.{Entries, Built, join, parent, upload_blob, build_tree}

-- `repb.Command`, the fields that the worker reads.
pub record Command : Type 0 where
  pub arguments : List GoString
  pub working_directory : GoString
  pub output_files : List GoString
  pub output_directories : List GoString
  pub output_paths : List GoString

pub record OutputFile : Type 0 where
  pub path : GoString
  pub digest : Digest
  pub is_executable : Bool

pub record OutputDirectory : Type 0 where
  pub path : GoString
  pub tree_digest : Digest
  pub root_directory_digest : Digest

-- `repb.ActionResult`
pub record ActionResult : Type 0 where
  pub exit_code : ℤ
  pub stdout_digest : Option Digest
  pub stderr_digest : Option Digest
  pub output_files : List OutputFile
  pub output_directories : List OutputDirectory

pub record ExecResult : Type 0 where
  pub exit_code : ℤ
  pub stdout : GoString
  pub stderr : GoString

-- What `os.Stat` says.
pub record FileInfo : Type 0 where
  pub is_dir : Bool
  pub is_executable : Bool

-- What the calls of the operating system answer for a path: `os.Stat`, the bytes of a file, and the
-- entries that `os.ReadDir` finds, those of subdirectories included.
pub record Disk : Type 0 where
  pub stat : FilePath → Result FileInfo
  pub read_file : FilePath → Result GoString
  pub read_dir : FilePath → Result Entries

abbrev pub is_missing : {A : Type 0} → Result A → Bool
is_missing (err not_exist) = true
is_missing _ = false

abbrev pub wrap : {A : Type 0} → Result A → Result A
wrap (err e) = err (wrapped e)
wrap (ok a) = ok a

-- A fallible step that threads the store.
abbrev pub Step : Type 0 → Type 0 → Type 0
Step S A = S → A → S × Result A

unfoldable pub next_step : {S A B : Type 0} → S × Result A → (S → A → S × Result B) → S × Result B
next_step (s, err e) f = (s, err e)
next_step (s, ok a) f = f s a

unfoldable pub each : {S A : Type 0} → (GoString → Step S A) → List GoString → Step S A
unfolding next_step
each f [] s a = (s, ok a)
each f (x ∷ xs) s a = next_step (f x s a) (each f xs)

module _ {S : Type 0} (blobs : BlobStore S) (marshal_tree : Built → Result GoString)
    (disk : Disk) where
  -- `uploadFile`: the digest of the file, and its bytes.
  unfoldable pub upload_file : S → FilePath → S × Result Digest
  unfolding upload_blob
  upload_file s path = elim (disk.read_file path) [
    | err e ↦ (s, err (wrapped e))
    | ok bytes ↦ let (t, r) = upload_blob blobs s bytes in (t, wrap r)
  ]

  unfoldable pub add_file :
      GoString → Bool → S × Result Digest → ActionResult → S × Result ActionResult
  add_file name executable (s, err e) result = (s, err (wrapped e))
  add_file name executable (s, ok d) result =
      let f : OutputFile = record { path = name; digest = d; is_executable = executable } in
      (s, ok (record result { output_files = result.output_files ++ (f ∷ []) }))

  unfoldable pub add_directory :
      GoString → Digest → S × Result Digest → ActionResult → S × Result ActionResult
  add_directory name root (s, err e) result = (s, err (wrapped e))
  add_directory name root (s, ok tree) result =
      let d : OutputDirectory = record {
        path = name;
        tree_digest = tree;
        root_directory_digest = root;
      } in
      (s, ok (record result { output_directories = result.output_directories ++ (d ∷ []) }))

  -- The upload of the `Tree` message.
  unfoldable pub upload_tree :
      GoString → S × Result (Digest × Built) → ActionResult → S × Result ActionResult
  unfolding upload_blob add_directory
  upload_tree name (s, err e) result = (s, err (wrapped e))
  upload_tree name (s, ok (root, built)) result = elim (marshal_tree built) [
    | err e ↦ (s, err e)
    | ok bytes ↦ add_directory name root (upload_blob blobs s bytes) result
  ]

  -- What `OutputDirectories` and the directories of `OutputPaths` share.
  unfoldable pub upload_directory_at : GoString → FilePath → Step S ActionResult
  unfolding upload_tree build_tree
  upload_directory_at name path s result = elim (disk.read_dir path) [
    | err e ↦ (s, err (wrapped e))
    | ok es ↦ upload_tree name (build_tree blobs s es) result
  ]

  module _ (base : FilePath) where
    unfoldable pub upload_output_file : GoString → Step S ActionResult
    unfolding upload_file add_file join
    upload_output_file name s result =
        if is_missing (disk.stat (join base name))
        then (s, ok result)
        else (elim (disk.stat (join base name)) [
          | err e ↦ (s, err (wrapped e))
          | ok info ↦ add_file name info.is_executable (upload_file s (join base name)) result
        ])

    -- An error of `Stat` is only looked at for a missing file.
    unfoldable pub upload_output_directory : GoString → Step S ActionResult
    unfolding upload_directory_at join
    upload_output_directory name s result =
        if is_missing (disk.stat (join base name))
        then (s, ok result)
        else upload_directory_at name (join base name) s result

    unfoldable pub upload_output_path : GoString → Step S ActionResult
    unfolding upload_file add_file upload_directory_at join
    upload_output_path name s result =
        if is_missing (disk.stat (join base name))
        then (s, ok result)
        else (elim (disk.stat (join base name)) [
          | err e ↦ (s, err (wrapped e))
          | ok info ↦ elim info.is_dir [
            | true ↦ upload_directory_at name (join base name) s result
            | false ↦ add_file name info.is_executable (upload_file s (join base name)) result
          ]
        ])

  -- The upload of stdout or stderr, if there is any.
  unfoldable pub some_digest : S × Result Digest → S × Result (Option Digest)
  some_digest (s, err e) = (s, err (wrapped e))
  some_digest (s, ok d) = (s, ok (some d))

  unfoldable pub upload_stream : S → GoString → S × Result (Option Digest)
  unfolding upload_blob some_digest
  upload_stream s [] = (s, ok none)
  upload_stream s (c ∷ bytes) = some_digest (upload_blob blobs s (c ∷ bytes))

  unfoldable pub upload_all : FilePath → Command → Step S ActionResult
  unfolding each next_step upload_output_file upload_output_directory upload_output_path
  upload_all base command s result =
      next_step (each (upload_output_file base) command.output_files s result) λ s1 r1.
        next_step (each (upload_output_directory base) command.output_directories s1 r1)
          λ s2 r2. each (upload_output_path base) command.output_paths s2 r2

  unfoldable pub upload_outputs : S → FilePath → Command → ExecResult → S × Result ActionResult
  unfolding next_step upload_stream upload_all join
  upload_outputs s work_dir command r = next_step (upload_stream s r.stdout) λ s1 stdout.
      next_step (upload_stream s1 r.stderr) λ s2 stderr.
        upload_all (join work_dir command.working_directory) command s2 (record {
          exit_code = r.exit_code;
          stdout_digest = stdout;
          stderr_digest = stderr;
          output_files = [];
          output_directories = [];
        })

-- A path as text.
abbrev pub text_of : FilePath → GoString
text_of [] = []
text_of (part ∷ path) = b'/' ∷ (part ++ text_of path)

-- `make` is the error of `os.MkdirAll`; the paths are those made so far.
unfoldable pub make_dirs :
    (FilePath → Option Error) → List FilePath → List GoString → Result (List GoString)
make_dirs make [] made = ok made
make_dirs make (p ∷ paths) made = elim (make p) [
  | some e ↦ err (wrapped e)
  | none ↦ make_dirs make paths (made ++ (text_of p ∷ []))
]

abbrev pub parents_of : FilePath → List GoString → List FilePath
parents_of dir [] = []
parents_of dir (name ∷ names) = parent (join dir name) ∷ parents_of dir names

abbrev pub paths_of : FilePath → List GoString → List FilePath
paths_of dir [] = []
paths_of dir (name ∷ names) = join dir name ∷ paths_of dir names

abbrev pub deduplicated : Result (List GoString) → Result (List GoString)
deduplicated (err e) = err e
deduplicated (ok paths) = ok (deduplicate_paths paths)

-- The writable paths of the sandbox.
unfoldable pub create_output_directories :
    (FilePath → Option Error) → FilePath → Command → Result (List GoString)
unfolding make_dirs join deduplicate_paths
create_output_directories make exec_root command =
    let dir = join exec_root command.working_directory in
    deduplicated (
      make_dirs make (parents_of dir command.output_files) [] >>= λ made.
      make_dirs make (paths_of dir command.output_directories) made >>= λ made.
      make_dirs make (parents_of dir command.output_paths) made)
