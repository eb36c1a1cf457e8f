-- ===== src/Worker/Trees/Layout.antt =====
-- pkg/execution/worker.go: what the stages of a file tree are to be, without a store.
use go_rego.Base.{
  ℕ, suc, ◌≡◌, refl, ap, ◌∙◌, max, Bool, false, Option, none, List, [], ◌∷◌, ◌++◌, append-nil,
  append_assoc, if◌then◌else◌, ◌==◌, arith,
}
use go_rego.Base.Text.{GoString, codes, str_eq}
use go_rego.Base.Results.{Error}
use go_rego.Storage.Files.{FilePath}
use go_rego.Worker.Blobs.{BlobStore}
use go_rego.Worker.Trees.{
  file, symlink, dir, Entries, end, entry, Effect, make_dir, make_symlink, make_executable,
  link_blob, write_copy, place_file, attempt, add_part, add_parts, join,
}

abbrev pub depth : Entries → ℕ
depth end = 0
depth (entry name (dir es) rest) = max (suc (depth es)) (depth rest)
depth (entry name _ rest) = depth rest

abbrev pub NoSlash : GoString → Type 0
NoSlash [] = Unit
NoSlash (c ∷ s) = ((c == b'/') ≡ false) × NoSlash s

-- A name that a directory can have for an entry.
abbrev pub IsPlain : GoString → Type 0
IsPlain name =
    NoSlash name
    × (str_eq name [] ≡ false)
    × (str_eq name (codes ".") ≡ false)
    × (str_eq name (codes "..") ≡ false)

abbrev pub Plain : Entries → Type 0
Plain end = Unit
Plain (entry name (dir es) rest) = IsPlain name × Plain es × Plain rest
Plain (entry name _ rest) = IsPlain name × Plain rest

add_parts-NoSlash :
    (path : FilePath) (part name : GoString)
    → NoSlash name
    → add_parts path part name ≡ add_part path (part ++ name)
unfolding add_parts
add_parts-NoSlash path part [] h = rw (append-nil part) refl
add_parts-NoSlash path part (c ∷ name) (h, hs) =
    rw (h, add_parts)
      (add_parts-NoSlash path (part ++ (c ∷ [])) name hs
        ∙ ap (add_part path) (append_assoc part (c ∷ []) name))

pub join-IsPlain :
    (path : FilePath) (name : GoString) → IsPlain name → join path name ≡ path ++ (name ∷ [])
unfolding join
join-IsPlain path name (h, full, dot, dots) =
    add_parts-NoSlash path [] name h ∙ rw (full, dot, dots) refl

abbrev pub no_errors : Effect → Option Error
no_errors e = none

module _ {S : Type 0} (blobs : BlobStore S) (is_local : Bool) where
  abbrev pub placed : FilePath → GoString → Bool → List Effect
  placed path c x =
      if is_local
      then (if x
          then make_executable (blobs.digest_of c) ∷ (link_blob (blobs.digest_of c) path ∷ [])
          else link_blob (blobs.digest_of c) path ∷ [])
      else write_copy c x path ∷ []

  abbrev pub files_of : FilePath → Entries → List Effect
  files_of path end = []
  files_of path (entry name (file c x) rest) =
      placed (path ++ (name ∷ [])) c x ++ files_of path rest
  files_of path (entry name _ rest) = files_of path rest

  abbrev pub links_of : FilePath → Entries → List Effect
  links_of path end = []
  links_of path (entry name (symlink t) rest) =
      make_symlink t (path ++ (name ∷ [])) ∷ links_of path rest
  links_of path (entry name _ rest) = links_of path rest

  abbrev pub directories_of : FilePath → Entries → List Effect
  directories_of path end = []
  directories_of path (entry name (dir es) rest) =
      let inner = path ++ (name ∷ []) in
      (make_dir inner ∷ (files_of inner es ++ (links_of inner es ++ directories_of inner es)))
      ++ directories_of path rest
  directories_of path (entry name _ rest) = directories_of path rest

  -- The directory, its files, its symlinks, and then its subdirectories, each in the same way.
  abbrev pub layout : FilePath → Entries → List Effect
  layout path es =
      make_dir path ∷ (files_of path es ++ (links_of path es ++ directories_of path es))

  pub place_file-placed :
      (path : FilePath) (c : GoString) (x : Bool)
      → place_file no_errors is_local (blobs.digest_of c) c x path ≡ (placed path c x, none)
  unfolding place_file attempt
  place_file-placed path c x = ground arith
