-- ===== src/Worker/Trees/RoundTrip.antt =====
-- pkg/execution/worker.go: outputs that are uploaded and staged again.
use go_rego.Base.{
  ℕ, zero, suc, ◌≡◌, ◌≢◌, ◌≤◌, ◌<◌, refl, ap, ◌∙◌, Bool, ◌&&◌, ◌||◌, none, List, [], ◌∷◌, ◌++◌,
  arith, inl, inr,
}
use go_rego.Base.Text.{GoString}
use go_rego.Base.Results.{Error, Result, ok, err, Result-cases}
use go_rego.Storage.Digests.{Digest}
use go_rego.Storage.Files.{FilePath}
use go_rego.Worker.Blobs.{DirectoryNode, Directory, empty_directory, BlobStore, IsBlobStore}
use go_rego.Worker.Trees.{
  file, symlink, dir, Entries, end, entry, Effects, make_dir, followed_by, attempt, stage_file,
  stage_files, stage_symlinks, stage_subdirectories, stage_fetched, stage_directory,
  fetch_directory, upload_directory, build_entries, build_tree,
}
use go_rego.Worker.Trees.Building.{
  file_nodes, link_nodes, directory_of, Stored, Stored-Keeps, build_entries-BuiltFrom,
  upload_directory-Keeps,
}
use go_rego.Worker.Trees.Modes.{
  executable_after, among_files, among_directories, executable_after-layout,
}
use go_rego.Worker.Trees.Layout.{
  depth, Plain, join-IsPlain, no_errors, place_file-placed, files_of, links_of, directories_of,
  layout,
}

module _ {S : Type 0} (blobs : BlobStore S) (laws : IsBlobStore blobs) (is_local : Bool)
    (s : S) where
  stage_files-files_of :
      (path : FilePath) (es : Entries) (ds : List DirectoryNode) (cs : List Directory)
      → Plain es
      → Stored blobs s es ds cs
      → stage_files no_errors blobs is_local s path (file_nodes blobs es)
        ≡ (files_of blobs is_local path es, none)
  unfolding stage_files stage_file
  stage_files-files_of path end ds cs p h = refl
  stage_files-files_of path (entry name (file c x) rest) ds cs (p, ps) (h, hs) =
      let later = stage_files-files_of path rest ds cs ps hs in
      rw
        (
          laws.valid-digest_of c,
          stage_files,
          stage_file,
          h,
          join-IsPlain path name p,
          place_file-placed blobs is_local (path ++ (name ∷ [])) c x,
          later,
        )
        refl
  stage_files-files_of path (entry name (symlink t) rest) ds cs (p, ps) h =
      stage_files-files_of path rest ds cs ps h
  stage_files-files_of path (entry name (dir es) rest) ds cs (p, _, ps)
        (later, _, _, _, after, _, _, _, _, _, h) =
      stage_files-files_of path rest later after ps h

  stage_symlinks-links_of :
      (path : FilePath) (es : Entries)
      → Plain es
      → stage_symlinks no_errors blobs is_local s path (link_nodes blobs es)
        ≡ (links_of blobs is_local path es, none)
  unfolding stage_symlinks attempt
  stage_symlinks-links_of path end p = refl
  stage_symlinks-links_of path (entry name (file c x) rest) (p, ps) =
      stage_symlinks-links_of path rest ps
  stage_symlinks-links_of path (entry name (symlink t) rest) (p, ps) =
      rw (join-IsPlain path name p, stage_symlinks-links_of path rest ps) refl
  stage_symlinks-links_of path (entry name (dir es) rest) (p, _, ps) =
      stage_symlinks-links_of path rest ps

  abbrev Same : Effects → Effects → Type 0
  Same a b = a ≡ b

  abbrev stage : ℕ → FilePath → Digest → Effects
  stage fuel = stage_directory no_errors blobs is_local s fuel

  -- A directory whose subdirectories are staged as they are laid out is staged so.
  stage_directory_lem :
      (fuel : ℕ) (path : FilePath) (es : Entries) (inner : List DirectoryNode)
      (below : List Directory) (bytes : GoString)
      → Plain es
      → Stored blobs s es inner below
      → blobs.get s (blobs.digest_of bytes) ≡ ok bytes
      → blobs.unmarshal bytes ≡ ok (directory_of blobs es inner)
      → Same
          (stage_subdirectories no_errors blobs is_local s (stage fuel) path inner)
          (directories_of blobs is_local path es, none)
      → Same (stage (suc fuel) path (blobs.digest_of bytes)) (layout blobs is_local path es, none)
  unfolding stage_directory attempt
  stage_directory_lem fuel path es inner below bytes p h got read deeper =
      ap
        (λ r.
          followed_by (make_dir path ∷ [], none)
            (stage_fetched no_errors blobs is_local s (stage fuel) path r))
        fetched
      ∙ ap (λ a. followed_by (make_dir path ∷ [], none) a)
          (ap
              (λ a. followed_by a (
                followed_by (stage_symlinks no_errors blobs is_local s path (link_nodes blobs es))
                  (stage_subdirectories no_errors blobs is_local s (stage fuel) path inner)))
              (stage_files-files_of path es inner below p h)
            ∙ ap
                (λ a.
                  followed_by (files_of blobs is_local path es, none)
                    (followed_by a
                      (stage_subdirectories no_errors blobs is_local s (stage fuel) path inner)))
                (stage_symlinks-links_of path es p)
            ∙ ap
                (λ a.
                  followed_by (files_of blobs is_local path es, none)
                    (followed_by (links_of blobs is_local path es, none) a))
                deeper)
    where
      fetched :
          fetch_directory no_errors blobs is_local s (blobs.digest_of bytes)
          ≡ ok (directory_of blobs es inner)
      fetched = rw (got, fetch_directory) read

  stage_subdirectories-directories_of :
      (fuel : ℕ) (path : FilePath) (es : Entries) (ds : List DirectoryNode) (cs : List Directory)
      → depth es ≤ fuel
      → Plain es
      → Stored blobs s es ds cs
      → Same
          (stage_subdirectories no_errors blobs is_local s (stage fuel) path ds)
          (directories_of blobs is_local path es, none)
  unfolding stage_subdirectories
  stage_subdirectories-directories_of fuel path end ds cs le p (h, _) = rw h refl
  stage_subdirectories-directories_of fuel path (entry name (file c x) rest) ds cs le (p, ps)
        (h, hs) =
      stage_subdirectories-directories_of fuel path rest ds cs le ps hs
  stage_subdirectories-directories_of fuel path (entry name (symlink t) rest) ds cs le (p, ps) hs =
      stage_subdirectories-directories_of fuel path rest ds cs le ps hs
  stage_subdirectories-directories_of zero path (entry name (dir es) rest) ds cs le p h =
      absurd (omega arith)
  stage_subdirectories-directories_of (suc fuel) path (entry name (dir es) rest) ds cs le
        (p, ps, pr) (later, inner, bytes, below, after, e, _, got, read, h, hs) =
      let at = path ++ (name ∷ []) in
      let deeper = stage_subdirectories-directories_of fuel at es inner below (omega arith) ps h in
      let next =
        stage_subdirectories-directories_of (suc fuel) path rest later after (omega arith) pr hs in
      let here = stage_directory_lem fuel at es inner below bytes ps h got read deeper in
      rw (e, stage_subdirectories, laws.valid-digest_of bytes, join-IsPlain path name p)
        (ap
            (λ a.
              followed_by a
                (stage_subdirectories no_errors blobs is_local s (stage (suc fuel)) path later))
            here
          ∙ ap (λ a. followed_by (layout blobs is_local at es, none) a) next)

stage_directory-built :
    {S : Type 0} (blobs : BlobStore S) (laws : IsBlobStore blobs) (is_local : Bool) (s t : S)
    (es : Entries) (digest : Digest) (root : Directory) (children : List Directory)
    (target : FilePath) (fuel : ℕ)
    → build_tree blobs s es ≡ (t, ok (digest, (root, children)))
    → Plain es
    → depth es < fuel
    → stage_directory no_errors blobs is_local t fuel target digest
      ≡ (layout blobs is_local target es, none)
unfolding build_tree
stage_directory-built blobs laws is_local s t es digest root children target zero h p le =
    absurd (omega arith)
stage_directory-built {S} blobs laws is_local s t es digest root children target (suc fuel) h p le =
    elim (Result-cases (build_entries blobs s es (empty_directory, [])).1) [
      | inr (er, e) ↦ absurd (wrong (rw (e, build_tree) at h))
      | inl (built, e) ↦
          let s1 = (build_entries blobs s es (empty_directory, [])).0 in
          let (inner, below, fs, ls, subs, _, stored, _) =
            build_entries-BuiltFrom blobs laws s s1 es empty_directory [] built.0 built.1
              (ap (λ r. (s1, r)) e) in
          let whole : built.0 ≡ directory_of blobs es inner =
            λ i. record { files = fs i; symlinks = ls i; directories = subs i } in
          elim (Result-cases (upload_directory blobs s1 built.0).1) [
            | inr (er, e2) ↦ absurd (wrong (rw (e, e2, build_tree) at h))
            | inl (d, e2) ↦
                let s2 = (upload_directory blobs s1 built.0).0 in
                let (bytes, same, got, read, keeps) =
                  upload_directory-Keeps blobs laws s1 s2 built.0 d (ap (λ r. (s2, r)) e2) in
                let all : Ended (s2, ok (d, built)) (t, ok (digest, (root, children))) =
                  rw (e, e2, build_tree) at h in
                let same_s : s2 ≡ t = cc in
                let same_d : d ≡ digest = cc in
                let kept = Stored-Keeps blobs s1 s2 es inner below keeps stored in
                let deeper =
                  stage_subdirectories-directories_of blobs laws is_local s2 fuel target es inner
                    below (omega arith) p kept in
                rw (← same_s, ← same_d, same)
                  (stage_directory_lem blobs laws is_local s2 fuel target es inner below bytes p
                    kept got (read ∙ ap ok whole) deeper)
          ]
    ]
  where
    Ended :
        S × Result (Digest × (Directory × List Directory))
        → S × Result (Digest × (Directory × List Directory))
        → Type 0
    Ended a b = a ≡ b

    wrong :
        {a b : S} {er : Error} {x : Digest × (Directory × List Directory)}
        → ◌≢◌ {A = S × Result (Digest × (Directory × List Directory))} (a, err er) (b, ok x)
    wrong e = cc

-- With the digest that `buildTree` gives for a file tree, `stageDirectory` makes these changes and no
-- others: it makes each of the directories, and in each, in this order, places the files and makes
-- the symlinks, under the target, parents first. Without a local store it writes a copy of each file,
-- with its bytes and its executable bit. With one it links each file to the store's own file of these
-- bytes, whose mode all its links share: that file is executable at the end exactly if it was before,
-- or if some executable file of the tree has the same hash. So a file that was not executable is
-- staged as executable if another one with the same bytes is. (The store keeps what it took, names
-- are those of entries of a directory, no call of the operating system fails, and the fuel is more
-- than the depth of the tree.)
pub stage_directory-build_tree :
    {S : Type 0} (blobs : BlobStore S) (laws : IsBlobStore blobs) (is_local : Bool) (s t : S)
    (es : Entries) (digest : Digest) (root : Directory) (children : List Directory)
    (target : FilePath) (fuel : ℕ)
    → build_tree blobs s es ≡ (t, ok (digest, (root, children)))
    → Plain es
    → depth es < fuel
    → (stage_directory no_errors blobs is_local t fuel target digest
        ≡ (layout blobs is_local target es, none))
      × ((hash : GoString) (before : Bool)
          → executable_after hash
              (stage_directory no_errors blobs is_local t fuel target digest).0
              before
            ≡ (before
                || (is_local && (among_files blobs hash es || among_directories blobs hash es))))
stage_directory-build_tree blobs laws is_local s t es digest root children target fuel h p le =
    let same =
      stage_directory-built blobs laws is_local s t es digest root children target fuel h p le in
    (
      same,
      λ hash before.
          ap (λ (e : Effects). executable_after hash e.0 before) same
          ∙ executable_after-layout blobs hash is_local target es before,
    )
