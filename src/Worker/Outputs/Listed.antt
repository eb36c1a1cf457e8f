-- ===== src/Worker/Outputs/Listed.antt =====
-- pkg/execution/worker.go: the outputs that `uploadOutputs` lists.
use go_rego.Base.{◌≡◌, Option, none, some, List, [], ◌∷◌, ◌++◌, if◌then◌else◌}
use go_rego.Base.Text.{GoString}
use go_rego.Base.Results.{Result, ok, err}
use go_rego.Storage.Digests.{Digest}
use go_rego.Storage.Files.{FilePath}
use go_rego.Worker.Blobs.{BlobStore, IsBlobStore}
use go_rego.Worker.Trees.{Built, join}
use go_rego.Worker.Outputs.{Command, ActionResult, ExecResult, FileInfo, Disk, is_missing}
use go_rego.Worker.Outputs.Uploaded.{file_paths, directory_paths, gathered, Uploaded}

-- What a name is listed for, by what `os.Stat` says: if it is there at all, as a file, as a directory.
abbrev pub if_present : Result FileInfo → GoString → List GoString
if_present r name = if is_missing r then [] else name ∷ []

abbrev pub if_file : Result FileInfo → GoString → List GoString
if_file (err e) name = []
if_file (ok info) name = if info.is_dir then [] else name ∷ []

abbrev pub if_directory : Result FileInfo → GoString → List GoString
if_directory (err e) name = []
if_directory (ok info) name = if info.is_dir then name ∷ [] else []

abbrev nothing : GoString → List GoString
nothing name = []

module _ {S : Type 0} (blobs : BlobStore S) (marshal_tree : Built → Result GoString) (disk : Disk)
    (base : FilePath) (laws : IsBlobStore blobs) where
  -- The outputs of a command that are there.
  abbrev pub produced_files : Command → List GoString
  produced_files c =
      gathered (λ name. if_present (disk.stat (join base name)) name) c.output_files
      ++ gathered (λ name. if_file (disk.stat (join base name)) name) c.output_paths

  abbrev pub produced_directories : Command → List GoString
  produced_directories c =
      gathered (λ name. if_present (disk.stat (join base name)) name) c.output_directories
      ++ gathered (λ name. if_directory (disk.stat (join base name)) name) c.output_paths

  -- The digest of a stream's bytes, in the store, or none if there are no bytes.
  abbrev pub IsStream : S → GoString → Option Digest → Type 0
  IsStream s [] d = d ≡ none
  IsStream s (c ∷ bytes) d =
      (d ≡ some (blobs.digest_of (c ∷ bytes)))
      × (blobs.get s (blobs.digest_of (c ∷ bytes)) ≡ ok (c ∷ bytes))

-- What a result says of the outputs of a command, with the store as it is then.
pub record Describes {S : Type 0} (blobs : BlobStore S) (marshal_tree : Built → Result GoString)
    (disk : Disk) (laws : IsBlobStore blobs) (base : FilePath) (command : Command) (r : ExecResult)
    (t : S) (result : ActionResult) : Type 0 where
  pub uploaded : Uploaded blobs marshal_tree disk base t result
  pub files :
      file_paths result.output_files ≡ produced_files blobs marshal_tree disk base laws command
  pub directories :
      directory_paths result.output_directories
      ≡ produced_directories blobs marshal_tree disk base laws command
  pub exit_code : result.exit_code ≡ r.exit_code
  pub stdout : IsStream blobs marshal_tree disk base laws t r.stdout result.stdout_digest
  pub stderr : IsStream blobs marshal_tree disk base laws t r.stderr result.stderr_digest
