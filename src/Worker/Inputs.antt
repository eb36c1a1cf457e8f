-- ===== src/Worker/Inputs.antt =====
-- pkg/execution/worker.go: `buildInputMounts` and `materializeInputsForUnsandboxed`. The walk goes over
-- the staged tree in the order of `filepath.WalkDir`; `make` is the error of `os.MkdirAll`, `fails` that
-- of a link. Go visits the two maps in any order, which is an argument.
pub mod Placed
use go_rego.Base.{Option, none, some, List, [], ◌∷◌, ◌++◌}
use go_rego.Base.Text.{GoString}
use go_rego.Base.Results.{Error, wrapped}
use go_rego.Storage.Files.{FilePath}
use go_rego.Worker.Trees.{file, symlink, dir, Entries, end, entry, join, parent}

-- `InputMounts`, and the directories that were made on the way.
pub record InputMounts : Type 0 where
  pub made : List FilePath
  pub file_mounts : List (FilePath × FilePath)
  pub symlinks : List (FilePath × GoString)

abbrev pub Walk : Type 0
Walk = InputMounts × Option Error

unfoldable pub walk_on : Walk → (InputMounts → Walk) → Walk
walk_on (m, some e) next = (m, some e)
walk_on (m, none) next = next m

module _ (make : FilePath → Option Error) where
  unfoldable pub make_all : FilePath → InputMounts → Walk
  make_all path m = elim (make path) [
    | some e ↦ (m, some e)
    | none ↦ (record m { made = m.made ++ (path ∷ []) }, none)
  ]

  -- The entries of a directory; `source` and `target` are the directory's places.
  unfoldable pub walk_entries : (source target : FilePath) → Entries → InputMounts → Walk
  unfolding make_all walk_on join
  walk_entries source target end m = (m, none)
  walk_entries source target (entry name (file c x) rest) m =
      walk_on (make_all (parent (join target name)) m) λ n.
        walk_entries source target rest
          (record n { file_mounts = n.file_mounts ++ ((join source name, join target name) ∷ []) })
  walk_entries source target (entry name (symlink link) rest) m =
      walk_on (make_all (parent (join target name)) m) λ n.
        walk_entries source target rest
          (record n { symlinks = n.symlinks ++ ((join target name, link) ∷ []) })
  walk_entries source target (entry name (dir es) rest) m =
      walk_on (make_all (join target name) m) λ n.
        walk_on (walk_entries (join source name) (join target name) es n)
          (walk_entries source target rest)

  abbrev pub no_mounts : InputMounts
  no_mounts = record { made = []; file_mounts = []; symlinks = [] }

  unfoldable pub build_input_mounts : (inputs_dir exec_root : FilePath) → Entries → Walk
  unfolding make_all walk_on walk_entries
  build_input_mounts inputs_dir exec_root es =
      walk_on (make_all exec_root no_mounts) (walk_entries inputs_dir exec_root es)

pub data Placing : Type 0 where
  make_parent : FilePath → Placing
  make_link : (source target : FilePath) → Placing
  make_symlink : (link : GoString) → FilePath → Placing
  -- The fallback, a symbolic link to the source.
  point_to : (source target : FilePath) → Placing

abbrev pub Placings : Type 0
Placings = List Placing × Option Error

unfoldable pub place_on : Placings → Placings → Placings
place_on (done, some e) next = (done, some e)
place_on (done, none) next = (done ++ next.0, next.1)

module _ (fails : Placing → Option Error) where
  unfoldable pub try_placing : Placing → Placings
  try_placing p = elim (fails p) [ some e ↦ ([], some (wrapped e)) | none ↦ (p ∷ [], none) ]

  unfoldable pub place_links : List (FilePath × GoString) → Placings
  unfolding place_on try_placing
  place_links [] = ([], none)
  place_links ((target, link) ∷ links) =
      place_on (try_placing (make_parent (parent target)))
        (place_on (try_placing (make_symlink link target)) (place_links links))

  unfoldable pub link_or_point : FilePath → FilePath → Placings
  unfolding try_placing
  link_or_point source target = elim (fails (make_link source target)) [
    | none ↦ (make_link source target ∷ [], none)
    | some _ ↦ try_placing (point_to source target)
  ]

  unfoldable pub place_files : List (FilePath × FilePath) → Placings
  unfolding place_on try_placing link_or_point
  place_files [] = ([], none)
  place_files ((source, target) ∷ files) =
      place_on (try_placing (make_parent (parent target)))
        (place_on (link_or_point source target) (place_files files))

  -- `links` and `files` are the two maps in the order of the visit.
  unfoldable pub materialize_inputs :
      (links : List (FilePath × GoString)) (files : List (FilePath × FilePath)) → Placings
  unfolding place_on place_links place_files
  materialize_inputs links files = place_on (place_links links) (place_files files)
