-- ===== src/Worker/Trees/Escapes.antt =====
-- pkg/execution/worker.go: names in the input tree that lead out of the directory.
use go_rego.Base.{◌≡◌, refl, ap, ◌∙◌, Bool, none, [], ◌∷◌, ◌++◌, append-nil}
use go_rego.Base.Text.{GoString, codes, str_eq}
use go_rego.Base.Results.{ok}
use go_rego.Storage.Files.{FilePath}
use go_rego.Worker.Blobs.{BlobStore}
use go_rego.Worker.Trees.{parent, add_parts, join, stage_file, stage_files}
use go_rego.Worker.Trees.Layout.{IsPlain, join-IsPlain, placed, no_errors, place_file-placed}

parent-append : (path : FilePath) (part : GoString) → parent (path ++ (part ∷ [])) ≡ path
parent-append [] part = refl
parent-append (p ∷ []) part = refl
parent-append (p ∷ (q ∷ ps)) part = ap (λ r. p ∷ r) (parent-append (q ∷ ps) part)

join-parent :
    (path : FilePath) (part name : GoString)
    → IsPlain name
    → join (path ++ (part ∷ [])) (codes "../" ++ name) ≡ path ++ (name ∷ [])
unfolding join add_parts str_eq
join-parent path part name plain =
    ap (λ p. add_parts p [] name) (parent-append path part) ∙ join-IsPlain path name plain

-- The names in an input tree are not checked: a file whose name starts with "../" is placed
-- beside the directory that is staged, and not in it. (The blob is there, its digest is valid, no call
-- of the operating system fails, and the rest of the name is plain.)
pub stage_files_escape :
    {S : Type 0} (blobs : BlobStore S) (is_local : Bool) (s : S) (path : FilePath)
    (part name c : GoString) (x : Bool)
    → IsPlain name
    → blobs.valid (blobs.digest_of c) ≡ none
    → blobs.get s (blobs.digest_of c) ≡ ok c
    → stage_files no_errors blobs is_local s
        (path ++ (part ∷ []))
        (record { name = codes "../" ++ name; digest = blobs.digest_of c; is_executable = x } ∷ [])
      ≡ (placed blobs is_local (path ++ (name ∷ [])) c x, none)
unfolding stage_files stage_file
stage_files_escape blobs is_local s path part name c x plain valid held =
    rw
      (
        valid,
        stage_files,
        stage_file,
        held,
        join-parent path part name plain,
        place_file-placed blobs is_local (path ++ (name ∷ [])) c x,
      )
      (ap (λ a. (a, none)) (append-nil (placed blobs is_local (path ++ (name ∷ [])) c x)))
