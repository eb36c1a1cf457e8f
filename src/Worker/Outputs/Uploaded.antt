-- ===== src/Worker/Outputs/Uploaded.antt =====
-- pkg/execution/worker.go: what the result of `uploadOutputs` says of the outputs.
use go_rego.Base.{◌≡◌, ◌≢◌, refl, ap, sym, ◌∙◌, List, [], ◌∷◌, ◌++◌, append-nil, append_assoc}
use go_rego.Base.Lists.{All-weaken, All}
use go_rego.Base.Text.{GoString}
use go_rego.Base.Results.{Error, Result, ok, err}
use go_rego.Storage.Files.{FilePath}
use go_rego.Worker.Blobs.{DirectoryNode, Directory, BlobStore}
use go_rego.Worker.Trees.{Entries, Built, join}
use go_rego.Worker.Trees.Building.{directory_of, Stored, Keeps, Stored-Keeps}
use go_rego.Worker.Outputs.{
  OutputFile, OutputDirectory, ActionResult, FileInfo, Disk, Step, next_step, each,
}

abbrev pub file_paths : List OutputFile → List GoString
file_paths [] = []
file_paths (f ∷ fs) = f.path ∷ file_paths fs

abbrev pub directory_paths : List OutputDirectory → List GoString
directory_paths [] = []
directory_paths (d ∷ ds) = d.path ∷ directory_paths ds

pub file_paths-append :
    (fs gs : List OutputFile) → file_paths (fs ++ gs) ≡ file_paths fs ++ file_paths gs
file_paths-append [] gs = refl
file_paths-append (f ∷ fs) gs = ap (◌∷◌ f.path) (file_paths-append fs gs)

pub directory_paths-append :
    (ds es : List OutputDirectory)
    → directory_paths (ds ++ es) ≡ directory_paths ds ++ directory_paths es
directory_paths-append [] es = refl
directory_paths-append (d ∷ ds) es = ap (◌∷◌ d.path) (directory_paths-append ds es)

-- The outputs of a list of names, by what each name gives.
abbrev pub gathered : (GoString → List GoString) → List GoString → List GoString
gathered f [] = []
gathered f (name ∷ names) = f name ++ gathered f names

pub next_step-ok :
    {S A B : Type 0} (p : S × Result A) (f : S → A → S × Result B) (t : S) (b : B)
    → next_step p f ≡ (t, ok b)
    → (s : S) × (a : A) × (p ≡ (s, ok a)) × (f s a ≡ (t, ok b))
unfolding next_step
next_step-ok (s, err e) f t b h = absurd (wrong h)
  where
    wrong :
        {S B : Type 0} {a b : S} {er : Error} {x : B} → ◌≢◌ {A = S × Result B} (a, err er) (b, ok x)
    wrong e = cc
next_step-ok (s, ok a) f t b h = (s, a, refl, h)

module _ {S : Type 0} (blobs : BlobStore S) (marshal_tree : Built → Result GoString) (disk : Disk)
    (base : FilePath) where
  -- The file is the one at its path, and its bytes are in the store.
  pub record IsFile (s : S) (f : OutputFile) : Type 0 where
    pub bytes : GoString
    pub info : FileInfo
    pub found : disk.stat (join base f.path) ≡ ok info
    pub read : disk.read_file (join base f.path) ≡ ok bytes
    pub executable : f.is_executable ≡ info.is_executable
    pub digest : f.digest ≡ blobs.digest_of bytes
    pub stored : blobs.get s (blobs.digest_of bytes) ≡ ok bytes

  -- The directory is the one at its path; its root, all that is below it, and its tree are in the
  -- store, and the tree has the root and all directories below.
  pub record IsDirectory (s : S) (d : OutputDirectory) : Type 0 where
    pub entries : Entries
    pub subdirectories : List DirectoryNode
    pub children : List Directory
    pub root_bytes : GoString
    pub tree_bytes : GoString
    pub found : disk.read_dir (join base d.path) ≡ ok entries
    pub root : d.root_directory_digest ≡ blobs.digest_of root_bytes
    pub root_stored : blobs.get s (blobs.digest_of root_bytes) ≡ ok root_bytes
    pub root_read : blobs.unmarshal root_bytes ≡ ok (directory_of blobs entries subdirectories)
    pub below : Stored blobs s entries subdirectories children
    pub tree : d.tree_digest ≡ blobs.digest_of tree_bytes
    pub tree_stored : blobs.get s (blobs.digest_of tree_bytes) ≡ ok tree_bytes
    pub tree_bytes_of :
        marshal_tree (directory_of blobs entries subdirectories, children) ≡ ok tree_bytes

  pub record Uploaded (s : S) (result : ActionResult) : Type 0 where
    pub files : All (IsFile s) result.output_files
    pub directories : All (IsDirectory s) result.output_directories

  pub Uploaded-Keeps :
      (s t : S) (result : ActionResult) → Keeps blobs s t → Uploaded s result → Uploaded t result
  Uploaded-Keeps s t result k u = record {
    files =
        All-weaken (IsFile s) (IsFile t) result.output_files
          (λ f h. record {
            bytes = h.bytes;
            info = h.info;
            found = h.found;
            read = h.read;
            executable = h.executable;
            digest = h.digest;
            stored = k _ h.bytes h.stored;
          })
          u.files;
    directories =
        All-weaken (IsDirectory s) (IsDirectory t) result.output_directories
          (λ d h. record {
            entries = h.entries;
            subdirectories = h.subdirectories;
            children = h.children;
            root_bytes = h.root_bytes;
            tree_bytes = h.tree_bytes;
            found = h.found;
            root = h.root;
            root_stored = k _ h.root_bytes h.root_stored;
            root_read = h.root_read;
            below = Stored-Keeps blobs s t h.entries h.subdirectories h.children k h.below;
            tree = h.tree;
            tree_stored = k _ h.tree_bytes h.tree_stored;
            tree_bytes_of = h.tree_bytes_of;
          })
          u.directories;
  }

  -- From one result to the next: files and directories are added, and the store keeps its blobs.
  pub record Adds (fs ds : List GoString) (s : S) (r : ActionResult) (t : S) (r' : ActionResult)
      : Type 0 where
    pub keeps : Keeps blobs s t
    pub uploaded : Uploaded s r → Uploaded t r'
    pub files : file_paths r'.output_files ≡ file_paths r.output_files ++ fs
    pub directories :
        directory_paths r'.output_directories ≡ directory_paths r.output_directories ++ ds
    pub exit_code : r'.exit_code ≡ r.exit_code
    pub stdout : r'.stdout_digest ≡ r.stdout_digest
    pub stderr : r'.stderr_digest ≡ r.stderr_digest

  pub Adds-nothing : (s : S) (r : ActionResult) → Adds [] [] s r s r
  Adds-nothing s r = record {
    keeps = λ d c g. g;
    uploaded = λ u. u;
    files = sym (append-nil _);
    directories = sym (append-nil _);
    exit_code = refl;
    stdout = refl;
    stderr = refl;
  }

  pub Adds-then :
      (fs ds gs es : List GoString) (s t u : S) (r r' r'' : ActionResult)
      → Adds fs ds s r t r'
      → Adds gs es t r' u r''
      → Adds (fs ++ gs) (ds ++ es) s r u r''
  Adds-then fs ds gs es s t u r r' r'' a b = record {
    keeps = λ d c g. b.keeps d c (a.keeps d c g);
    uploaded = λ v. b.uploaded (a.uploaded v);
    files = b.files ∙ ap (λ xs. xs ++ gs) a.files ∙ append_assoc _ fs gs;
    directories = b.directories ∙ ap (λ xs. xs ++ es) a.directories ∙ append_assoc _ ds es;
    exit_code = b.exit_code ∙ a.exit_code;
    stdout = b.stdout ∙ a.stdout;
    stderr = b.stderr ∙ a.stderr;
  }

  abbrev pub Extends : (fs ds : List GoString) → Step S ActionResult → Type 0
  Extends fs ds f = (s t : S) (r r' : ActionResult) → f s r ≡ (t, ok r') → Adds fs ds s r t r'

  pub each-Extends :
      (f : GoString → Step S ActionResult) (files directories : GoString → List GoString)
      → ((name : GoString) → Extends (files name) (directories name) (f name))
      → (names : List GoString)
      → Extends (gathered files names) (gathered directories names) (each f names)
  unfolding each
  each-Extends f files directories h [] s t r r' e =
      let same_s : s ≡ t = cc in
      let same_r : r ≡ r' = cc in rw (← same_s, ← same_r) (Adds-nothing s r)
  each-Extends f files directories h (name ∷ names) s t r r' e =
      let (s1, r1, first, later) = next_step-ok (f name s r) (each f names) t r' e in
      Adds-then (files name) (directories name) _ _ s s1 t r r1 r' (h name s s1 r r1 first)
        (each-Extends f files directories h names s1 t r1 r' later)
