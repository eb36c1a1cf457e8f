-- ===== src/Worker/Trees/Examples.antt =====
-- The theorems on file trees, at a small tree, and a store whose digests are the blobs themselves.
use mathlib.Core.List.{Permᴰ}
use mathlib.Core.List.Permᴰ
use go_rego.Worker.Inputs.{Placing, make_link, build_input_mounts, materialize_inputs}
use go_rego.Worker.Inputs.Placed.{
  made_by, file_pairs, link_pairs, placed_links, placed_files,
  materialize_inputs-build_input_mounts,
}
use go_rego.Base.{
  ℕ, ◌≡◌, ◌≢◌, refl, ap, subst, Bool, true, false, ◌&&◌, ◌||◌, Option, none, some, List, [], ◌∷◌,
  ◌++◌, ◌==◌, if◌then◌else◌, length, arith,
}
use go_rego.Base.Text.{GoString, codes, str_eq, str_eq_iff, str_eq_refl}
use go_rego.Base.Results.{Error, not_exist, plain, Result, ok, err}
use go_rego.Storage.Digests.{Digest}
use go_rego.Storage.Files.{FilePath}
use go_rego.Worker.Blobs.{FileNode, SymlinkNode, DirectoryNode, Directory, BlobStore, IsBlobStore}
use go_rego.Worker.Trees.{
  file, symlink, dir, Entries, end, entry, Built, stage_directory, build_tree, build_entries,
  upload_blob, upload_directory,
}
use go_rego.Base.Integers.{pos}
use go_rego.Worker.Outputs.{Command, ActionResult, ExecResult, Disk, upload_outputs}
use go_rego.Worker.Trees.Modes.{executable_after, among_files, among_directories}
use go_rego.Worker.Trees.Layout.{layout, no_errors}
use go_rego.Worker.Trees.RoundTrip.{stage_directory-build_tree}

abbrev digest_of : GoString → Digest
digest_of b = record { hash = b; size = length b }

-- A store holds a list of blobs.
abbrev find : List GoString → GoString → Result GoString
find [] hash = err not_exist
find (b ∷ blobs) hash = if str_eq b hash then ok b else find blobs hash

find-same : (blobs : List GoString) (hash c : GoString) → find blobs hash ≡ ok c → c ≡ hash
find-same [] hash c h = absurd (cc)
find-same (b ∷ blobs) hash c h = ground (arith, find-same blobs hash c, str_eq_iff b hash)

-- An encoding of the directories that have one entry.
abbrev marshal_file : GoString → GoString → ℕ → Bool → Result GoString
marshal_file (n ∷ []) hash size true = ok (1 ∷ (n ∷ (size ∷ hash)))
marshal_file (n ∷ []) hash size false = ok (0 ∷ (n ∷ (size ∷ hash)))
marshal_file _ hash size x = err plain

abbrev marshal_directory : GoString → GoString → ℕ → Result GoString
marshal_directory (n ∷ []) hash size = ok (2 ∷ (n ∷ (size ∷ hash)))
marshal_directory _ hash size = err plain

abbrev marshal_parts : List FileNode → List SymlinkNode → List DirectoryNode → Result GoString
marshal_parts (f ∷ []) [] [] = marshal_file f.name f.digest.hash f.digest.size f.is_executable
marshal_parts [] [] (d ∷ []) = marshal_directory d.name d.digest.hash d.digest.size
marshal_parts _ _ _ = err plain

abbrev marshal : Directory → Result GoString
marshal d = marshal_parts d.files d.symlinks d.directories

abbrev unmarshal : GoString → Result Directory
unmarshal (tag ∷ (n ∷ (k ∷ h))) = ok (
    if tag == 2
    then record {
      files = [];
      symlinks = [];
      directories = record { name = n ∷ []; digest = record { hash = h; size = k } } ∷ [];
    }
    else record {
      files =
          record { name = n ∷ []; digest = record { hash = h; size = k }; is_executable = tag == 1 }
          ∷ [];
      symlinks = [];
      directories = [];
    })
unmarshal _ = err plain

abbrev blobs : BlobStore (List GoString)
blobs = record {
  digest_of = digest_of;
  valid = λ d. none;
  get = λ s d. find s d.hash;
  put = λ s d b. (b ∷ s, none);
  marshal = marshal;
  unmarshal = unmarshal;
}

kept : (s : List GoString) (hash b c : GoString) → find s hash ≡ ok c → find (b ∷ s) hash ≡ ok c
kept s hash b c h = ground (arith, find-same s hash c, str_eq_iff b hash)

ended : {A : Type 0} {e : Error} {a : A} → ◌≢◌ {A = Result A} (err e) (ok a)
ended e = cc

file_lem :
    (name hash : GoString) (size : ℕ) (x : Bool) (b : GoString)
    → marshal_file name hash size x ≡ ok b
    → unmarshal b
      ≡ ok (record {
        files =
            record { name = name; digest = record { hash = hash; size = size }; is_executable = x }
            ∷ [];
        symlinks = [];
        directories = [];
      })
file_lem [] hash size x b h = absurd (ended h)
file_lem (n ∷ []) hash size true b h = ground arith
file_lem (n ∷ []) hash size false b h = ground arith
file_lem (n ∷ (m ∷ ns)) hash size x b h = absurd (ended h)

directory_lem :
    (name hash : GoString) (size : ℕ) (b : GoString)
    → marshal_directory name hash size ≡ ok b
    → unmarshal b
      ≡ ok (record {
        files = [];
        symlinks = [];
        directories = record { name = name; digest = record { hash = hash; size = size } } ∷ [];
      })
directory_lem [] hash size b h = absurd (ended h)
directory_lem (n ∷ []) hash size b h = ground arith
directory_lem (n ∷ (m ∷ ns)) hash size b h = absurd (ended h)

parts_lem :
    (files : List FileNode) (links : List SymlinkNode) (dirs : List DirectoryNode) (b : GoString)
    → marshal_parts files links dirs ≡ ok b
    → unmarshal b ≡ ok (record { files = files; symlinks = links; directories = dirs })
parts_lem [] [] [] b h = absurd (ended h)
parts_lem [] [] (d ∷ []) b h = directory_lem d.name d.digest.hash d.digest.size b h
parts_lem [] [] (d ∷ (e ∷ ds)) b h = absurd (ended h)
parts_lem [] (l ∷ ls) ds b h = absurd (ended h)
parts_lem (f ∷ []) [] [] b h = file_lem f.name f.digest.hash f.digest.size f.is_executable b h
parts_lem (f ∷ []) [] (d ∷ ds) b h = absurd (ended h)
parts_lem (f ∷ []) (l ∷ ls) ds b h = absurd (ended h)
parts_lem (f ∷ (g ∷ fs)) ls ds b h = absurd (ended h)

unmarshal-marshal : (d : Directory) (b : GoString) → marshal d ≡ ok b → unmarshal b ≡ ok d
unmarshal-marshal d b h = parts_lem d.files d.symlinks d.directories b h

laws : IsBlobStore blobs
laws = record {
  valid-digest_of = λ b. refl;
  get-put = λ s t b h. ground (arith, str_eq_refl b);
  get-put_kept =
      λ s t d b c h g. subst (λ u. find u d.hash ≡ ok c) (ap (λ r. r.0) h) (kept s d.hash b c g);
  unmarshal-marshal = unmarshal-marshal;
}

-- A directory "d" with an executable file "f".
abbrev inner : Entries
inner = entry (codes "f") (file (codes "hi") true) end

abbrev tree : Entries
tree = entry (codes "d") (dir inner) end

abbrev inner_bytes : GoString
inner_bytes = 1 ∷ (b'f' ∷ (2 ∷ codes "hi"))

abbrev root_bytes : GoString
root_bytes = 2 ∷ (b'd' ∷ (5 ∷ inner_bytes))

abbrev uploaded : List GoString
uploaded = root_bytes ∷ (inner_bytes ∷ (codes "hi" ∷ []))

abbrev inner_directory : Directory
inner_directory = record {
  files = record { name = codes "f"; digest = digest_of (codes "hi"); is_executable = true } ∷ [];
  symlinks = [];
  directories = [];
}

abbrev root_directory : Directory
root_directory = record {
  files = [];
  symlinks = [];
  directories = record { name = codes "d"; digest = digest_of inner_bytes } ∷ [];
}

built :
    build_tree blobs [] tree
    ≡ (uploaded, ok (digest_of root_bytes, (root_directory, inner_directory ∷ [])))
unfolding build_tree build_entries upload_blob upload_directory
built = refl

abbrev target : FilePath
target = codes "build" ∷ codes "inputs" ∷ []

stage_directory-build_tree_example :
    (stage_directory no_errors blobs true uploaded 2 target (digest_of root_bytes)
      ≡ (layout blobs true target tree, none))
    × ((hash : GoString) (before : Bool)
        → executable_after hash
            (stage_directory no_errors blobs true uploaded 2 target (digest_of root_bytes)).0
            before
          ≡ (before
              || (true && (among_files blobs hash tree || among_directories blobs hash tree))))
unfolding str_eq
stage_directory-build_tree_example =
    stage_directory-build_tree blobs laws true [] uploaded tree (digest_of root_bytes)
      root_directory (inner_directory ∷ []) target 2 built
      (((refl, tt), refl, refl, refl), (((refl, tt), refl, refl, refl), tt), tt) (omega arith)

-- A command that made a file and a directory, and missed an output.
abbrev command : Command
command = record {
  arguments = codes "cc" ∷ [];
  working_directory = [];
  output_files = codes "a.o" ∷ (codes "b.o" ∷ []);
  output_directories = codes "gen" ∷ [];
  output_paths = [];
}

abbrev generated : Entries
generated = entry (codes "f") (file (codes "x") true) end

abbrev at_name : {A : Type 0} → GoString → A → FilePath → Result A
at_name name a (root ∷ (n ∷ [])) = if str_eq n name then ok a else err not_exist
at_name name a _ = err not_exist

abbrev first_of : {A : Type 0} → Result A → Result A → Result A
first_of (ok a) r = ok a
first_of (err e) r = r

abbrev disk : Disk
disk = record {
  stat = λ p.
      first_of (at_name (codes "a.o") (record { is_dir = false; is_executable = false }) p)
        (at_name (codes "gen") (record { is_dir = true; is_executable = true }) p);
  read_file = at_name (codes "a.o") (codes "hi");
  read_dir = at_name (codes "gen") generated;
}

abbrev ran : ExecResult
ran = record { exit_code = pos 0; stdout = codes "done"; stderr = [] }

abbrev marshal_tree : Built → Result GoString
marshal_tree built = marshal built.0

abbrev uploads : List GoString × Result ActionResult
uploads = upload_outputs blobs marshal_tree disk [] (codes "exec" ∷ []) command ran

abbrev expected : ActionResult
expected = record {
  exit_code = pos 0;
  stdout_digest = some (digest_of (codes "done"));
  stderr_digest = none;
  output_files =
      record { path = codes "a.o"; digest = digest_of (codes "hi"); is_executable = false } ∷ [];
  output_directories =
      record {
        path = codes "gen";
        tree_digest = digest_of (1 ∷ codes "f" ++ (1 ∷ codes "x"));
        root_directory_digest = digest_of (1 ∷ codes "f" ++ (1 ∷ codes "x"));
      }
      ∷ [];
}

-- No hard link can be made from the inputs to the execution root.
abbrev apart : Placing → Option Error
apart (make_link _ _) = some plain
apart _ = none

abbrev inputs : Entries
inputs = entry (codes "d") (dir inner) (entry (codes "l") (symlink (codes "d")) end)

abbrev exec_root : FilePath
exec_root = codes "build" ∷ codes "execroot" ∷ []

materialize_inputs-build_input_mounts_example :
    let walk = build_input_mounts (λ _. none) target exec_root inputs in
    (walk ≡ (
      record {
        made = exec_root ∷ made_by exec_root inputs;
        file_mounts = file_pairs target exec_root inputs;
        symlinks = link_pairs exec_root inputs;
      },
      none,
    ))
    × Permᴰ walk.0.symlinks (link_pairs exec_root inputs)
    × Permᴰ walk.0.file_mounts (file_pairs target exec_root inputs)
    × (materialize_inputs apart (link_pairs exec_root inputs) (file_pairs target exec_root inputs)
        ≡ (
          placed_links (link_pairs exec_root inputs)
              ++ placed_files apart (file_pairs target exec_root inputs),
          none,
        ))
unfolding str_eq
materialize_inputs-build_input_mounts_example =
    materialize_inputs-build_input_mounts apart target exec_root inputs
      (link_pairs exec_root inputs) (file_pairs target exec_root inputs)
      (
        ((refl, tt), refl, refl, refl),
        (((refl, tt), refl, refl, refl), tt),
        (((refl, tt), refl, refl, refl), tt),
      )
      (λ p. refl, λ l p. refl, λ s t. refl) (Permᴰ.refl (link_pairs exec_root inputs))
      (Permᴰ.refl (file_pairs target exec_root inputs))
