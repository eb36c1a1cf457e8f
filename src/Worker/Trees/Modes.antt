-- ===== src/Worker/Trees/Modes.antt =====
-- pkg/execution/worker.go: the modes of files that are links to the store's own files.
use go_rego.Base.{◌≡◌, refl, ap, ◌∙◌, Bool, true, false, ◌&&◌, ◌||◌, List, [], ◌∷◌, ◌++◌, arith}
use go_rego.Base.Text.{GoString, str_eq}
use go_rego.Storage.Files.{FilePath}
use go_rego.Worker.Blobs.{BlobStore}
use go_rego.Worker.Trees.{
  file, symlink, dir, Entries, end, entry, Effect, make_dir, make_symlink, make_executable,
  link_blob, write_copy,
}
use go_rego.Worker.Trees.Layout.{placed, files_of, links_of, directories_of, layout}

-- Whether the store's file for a hash is executable after the effects, if `m` says so before. All
-- links to it are this one file.
abbrev pub executable_after : GoString → List Effect → Bool → Bool
executable_after hash [] m = m
executable_after hash (make_executable d ∷ effects) m =
    executable_after hash effects (m || str_eq d.hash hash)
executable_after hash (make_dir path ∷ effects) m = executable_after hash effects m
executable_after hash (make_symlink target path ∷ effects) m = executable_after hash effects m
executable_after hash (link_blob d path ∷ effects) m = executable_after hash effects m
executable_after hash (write_copy bytes x path ∷ effects) m = executable_after hash effects m

executable_after-append :
    (hash : GoString) (a b : List Effect) (m : Bool)
    → executable_after hash (a ++ b) m ≡ executable_after hash b (executable_after hash a m)
executable_after-append hash [] b m = refl
executable_after-append hash (make_executable d ∷ a) b m =
    executable_after-append hash a b (m || str_eq d.hash hash)
executable_after-append hash (make_dir path ∷ a) b m = executable_after-append hash a b m
executable_after-append hash (make_symlink target path ∷ a) b m = executable_after-append hash a b m
executable_after-append hash (link_blob d path ∷ a) b m = executable_after-append hash a b m
executable_after-append hash (write_copy bytes x path ∷ a) b m = executable_after-append hash a b m

module _ {S : Type 0} (blobs : BlobStore S) where
  -- An executable file with the hash is among the entries, or below a directory among them.
  abbrev pub among_files : GoString → Entries → Bool
  among_files hash end = false
  among_files hash (entry name (file c x) rest) =
      (x && str_eq (blobs.digest_of c).hash hash) || among_files hash rest
  among_files hash (entry name _ rest) = among_files hash rest

  abbrev pub among_directories : GoString → Entries → Bool
  among_directories hash end = false
  among_directories hash (entry name (dir es) rest) =
      (among_files hash es || among_directories hash es) || among_directories hash rest
  among_directories hash (entry name _ rest) = among_directories hash rest

  module _ (hash : GoString) where
    executable_after-placed :
        (is_local : Bool) (path : FilePath) (c : GoString) (x m : Bool)
        → executable_after hash (placed blobs is_local path c x) m
          ≡ (m || (is_local && (x && str_eq (blobs.digest_of c).hash hash)))
    executable_after-placed true path c true m = refl
    executable_after-placed true path c false m = ground arith
    executable_after-placed false path c x m = ground arith

    executable_after-files_of :
        (is_local : Bool) (path : FilePath) (es : Entries) (m : Bool)
        → executable_after hash (files_of blobs is_local path es) m
          ≡ (m || (is_local && among_files hash es))
    executable_after-files_of is_local path end m = ground arith
    executable_after-files_of is_local path (entry name (file c x) rest) m =
        let here = path ++ (name ∷ []) in
        let m1 = m || (is_local && (x && str_eq (blobs.digest_of c).hash hash)) in
        executable_after-append hash (placed blobs is_local here c x)
          (files_of blobs is_local path rest) m
        ∙ ap (executable_after hash (files_of blobs is_local path rest))
            (executable_after-placed is_local here c x m)
        ∙ executable_after-files_of is_local path rest m1
        ∙ ground arith
    executable_after-files_of is_local path (entry name (symlink t) rest) m =
        executable_after-files_of is_local path rest m
    executable_after-files_of is_local path (entry name (dir es) rest) m =
        executable_after-files_of is_local path rest m

    executable_after-links_of :
        (is_local : Bool) (path : FilePath) (es : Entries) (m : Bool)
        → executable_after hash (links_of blobs is_local path es) m ≡ m
    executable_after-links_of is_local path end m = refl
    executable_after-links_of is_local path (entry name (file c x) rest) m =
        executable_after-links_of is_local path rest m
    executable_after-links_of is_local path (entry name (symlink t) rest) m =
        executable_after-links_of is_local path rest m
    executable_after-links_of is_local path (entry name (dir es) rest) m =
        executable_after-links_of is_local path rest m

    -- What comes before the subdirectories leaves the mode that the files give.
    executable_after-before :
        (is_local : Bool) (path : FilePath) (es : Entries) (rest : List Effect) (m : Bool)
        → executable_after hash
            (files_of blobs is_local path es ++ (links_of blobs is_local path es ++ rest))
            m
          ≡ executable_after hash rest (m || (is_local && among_files hash es))
    executable_after-before is_local path es rest m =
        executable_after-append hash (files_of blobs is_local path es)
          (links_of blobs is_local path es ++ rest) m
        ∙ executable_after-append hash (links_of blobs is_local path es) rest
            (executable_after hash (files_of blobs is_local path es) m)
        ∙ ap (executable_after hash rest) (
            executable_after-links_of is_local path es
              (executable_after hash (files_of blobs is_local path es) m)
            ∙ executable_after-files_of is_local path es m)

    executable_after-directories_of :
        (is_local : Bool) (path : FilePath) (es : Entries) (m : Bool)
        → executable_after hash (directories_of blobs is_local path es) m
          ≡ (m || (is_local && among_directories hash es))
    executable_after-directories_of is_local path end m = ground arith
    executable_after-directories_of is_local path (entry name (file c x) rest) m =
        executable_after-directories_of is_local path rest m
    executable_after-directories_of is_local path (entry name (symlink t) rest) m =
        executable_after-directories_of is_local path rest m
    executable_after-directories_of is_local path (entry name (dir es) rest) m =
        let inner = path ++ (name ∷ []) in
        let m1 = m || (is_local && among_files hash es) in
        let m2 = m1 || (is_local && among_directories hash es) in
        executable_after-append hash (layout blobs is_local inner es)
          (directories_of blobs is_local path rest) m
        ∙ ap (executable_after hash (directories_of blobs is_local path rest)) (
            executable_after-before is_local inner es (directories_of blobs is_local inner es) m
            ∙ executable_after-directories_of is_local inner es m1)
        ∙ executable_after-directories_of is_local path rest m2
        ∙ ground arith

    pub executable_after-layout :
        (is_local : Bool) (path : FilePath) (es : Entries) (m : Bool)
        → executable_after hash (layout blobs is_local path es) m
          ≡ (m || (is_local && (among_files hash es || among_directories hash es)))
    executable_after-layout is_local path es m =
        executable_after-before is_local path es (directories_of blobs is_local path es) m
        ∙ executable_after-directories_of is_local path es (m || (is_local && among_files hash es))
        ∙ ground arith
