-- ===== src/Worker/Trees/Building.antt =====
-- pkg/execution/worker.go: the blobs of the outputs, and the directory that is built.
use go_rego.Base.{
  ◌≡◌, ◌≢◌, refl, ap, sym, ◌∙◌, Option, none, List, [], ◌∷◌, ◌++◌, append-nil, append_assoc, arith,
  inl, inr,
}
use go_rego.Base.Text.{GoString}
use go_rego.Base.Results.{Error, Result, ok, err, Result-cases}
use go_rego.Storage.Digests.{Digest}
use go_rego.Worker.Blobs.{
  FileNode, SymlinkNode, DirectoryNode, Directory, empty_directory, BlobStore, IsBlobStore,
}
use go_rego.Worker.Trees.{
  file, symlink, dir, Entries, end, entry, Built, upload_blob, upload_directory, build_entries,
}

module _ {S : Type 0} (blobs : BlobStore S) where
  abbrev pub file_nodes : Entries → List FileNode
  file_nodes end = []
  file_nodes (entry name (file c x) rest) =
      record { name = name; digest = blobs.digest_of c; is_executable = x } ∷ file_nodes rest
  file_nodes (entry name _ rest) = file_nodes rest

  abbrev pub link_nodes : Entries → List SymlinkNode
  link_nodes end = []
  link_nodes (entry name (symlink t) rest) = record { name = name; target = t } ∷ link_nodes rest
  link_nodes (entry name _ rest) = link_nodes rest

  abbrev pub directory_of : Entries → List DirectoryNode → Directory
  directory_of es ds = record { files = file_nodes es; symlinks = link_nodes es; directories = ds }

  -- The blobs of the entries are in the store, with `ds` for the subdirectories; `cs` are all
  -- directories below, each behind those below it, in the order of the entries.
  abbrev pub Stored : S → Entries → List DirectoryNode → List Directory → Type 0
  Stored s end ds cs = (ds ≡ []) × (cs ≡ [])
  Stored s (entry name (file c x) rest) ds cs =
      (blobs.get s (blobs.digest_of c) ≡ ok c) × Stored s rest ds cs
  Stored s (entry name (symlink t) rest) ds cs = Stored s rest ds cs
  Stored s (entry name (dir es) rest) ds cs =
      (later : List DirectoryNode) × (inner : List DirectoryNode) × (bytes : GoString)
      × (below : List Directory) × (after : List Directory) × (ds
          ≡ record { name = name; digest = blobs.digest_of bytes } ∷ later)
      × (cs ≡ below ++ (directory_of es inner ∷ after))
      × (blobs.get s (blobs.digest_of bytes) ≡ ok bytes)
      × (blobs.unmarshal bytes ≡ ok (directory_of es inner))
      × Stored s es inner below
      × Stored s rest later after

  abbrev Same : S × Option Error → S × Option Error → Type 0
  Same a b = a ≡ b

  -- The blobs of one state are in the other.
  abbrev pub Keeps : S → S → Type 0
  Keeps s t = (d : Digest) (c : GoString) → blobs.get s d ≡ ok c → blobs.get t d ≡ ok c

  pub Stored-Keeps :
      (s t : S) (es : Entries) (ds : List DirectoryNode) (cs : List Directory)
      → Keeps s t
      → Stored s es ds cs
      → Stored t es ds cs
  Stored-Keeps s t end ds cs k h = h
  Stored-Keeps s t (entry name (file c x) rest) ds cs k (h, hs) =
      (k _ c h, Stored-Keeps s t rest ds cs k hs)
  Stored-Keeps s t (entry name (symlink l) rest) ds cs k h = Stored-Keeps s t rest ds cs k h
  Stored-Keeps s t (entry name (dir es) rest) ds cs k
        (later, inner, bytes, below, after, e, all, got, read, h, hs) =
      (
        later,
        inner,
        bytes,
        below,
        after,
        e,
        all,
        k _ bytes got,
        read,
        Stored-Keeps s t es inner below k h,
        Stored-Keeps s t rest later after k hs,
      )

  module _ (laws : IsBlobStore blobs) where
    pub upload_blob-Keeps :
        (s t : S) (c : GoString) (d : Digest)
        → upload_blob blobs s c ≡ (t, ok d)
        → (d ≡ blobs.digest_of c) × (blobs.get t (blobs.digest_of c) ≡ ok c) × Keeps s t
    unfolding upload_blob
    upload_blob-Keeps s t c d h =
        let put_eq : Same (blobs.put s (blobs.digest_of c) c) (t, none) = ground arith in
        (ground arith, laws.get-put s t c put_eq, λ e b. laws.get-put_kept s t e c b put_eq)

    pub upload_directory-Keeps :
        (s t : S) (directory : Directory) (d : Digest)
        → upload_directory blobs s directory ≡ (t, ok d)
        → (bytes : GoString) × (d ≡ blobs.digest_of bytes)
          × (blobs.get t (blobs.digest_of bytes) ≡ ok bytes)
          × (blobs.unmarshal bytes ≡ ok directory)
          × Keeps s t
    unfolding upload_directory
    upload_directory-Keeps s t directory d h = elim (Result-cases (blobs.marshal directory)) [
      | inl (bytes, e) ↦
          let (same, got, keeps) = upload_blob-Keeps s t bytes d (rw (e, upload_directory) at h) in
          (bytes, same, got, laws.unmarshal-marshal directory bytes e, keeps)
      | inr (er, e) ↦ absurd (ground arith)
    ]

    wrong :
        {A : Type 0} {a b : S} {er : Error} {x : A} → ◌≢◌ {A = S × Result A} (a, err er) (b, ok x)
    wrong e = cc

    abbrev pub BuiltFrom : S → S → Entries → Built → Built → Type 0
    BuiltFrom s t es (d, children) (d2, children2) =
        (ds : List DirectoryNode) × (cs : List Directory) × (d2.files ≡ d.files ++ file_nodes es)
        × (d2.symlinks ≡ d.symlinks ++ link_nodes es)
        × (d2.directories ≡ d.directories ++ ds)
        × (children2 ≡ children ++ cs)
        × Stored t es ds cs
        × Keeps s t

    -- What is built from the entries is added behind what is there.
    pub build_entries-BuiltFrom :
        (s t : S) (es : Entries) (d : Directory) (children : List Directory) (d2 : Directory)
        (children2 : List Directory)
        → build_entries blobs s es (d, children) ≡ (t, ok (d2, children2))
        → BuiltFrom s t es (d, children) (d2, children2)
    unfolding build_entries
    build_entries-BuiltFrom s t end d children d2 children2 h =
        let same : s ≡ t = cc in
        let same_d : d ≡ d2 = cc in
        let same_c : children ≡ children2 = cc in
        (
          [],
          [],
          ap (λ x. x.files) (sym same_d) ∙ sym (append-nil d.files),
          ap (λ x. x.symlinks) (sym same_d) ∙ sym (append-nil d.symlinks),
          ap (λ x. x.directories) (sym same_d) ∙ sym (append-nil d.directories),
          sym same_c ∙ sym (append-nil children),
          (refl, refl),
          λ e c g. rw (← same) g,
        )
    build_entries-BuiltFrom s t (entry name (file c x) rest) d children d2 children2 h =
        elim (Result-cases (upload_blob blobs s c).1) [
          | inr (er, e) ↦ absurd (ground arith)
          | inl (digest, e) ↦
              let s1 = (upload_blob blobs s c).0 in
              let (same, got, keeps) = upload_blob-Keeps s s1 c digest (ap (λ r. (s1, r)) e) in
              let node : FileNode = record { name = name; digest = digest; is_executable = x } in
              let (ds, cs, fs, ls, subs, all, stored, keeps2) =
                build_entries-BuiltFrom s1 t rest (record d { files = d.files ++ (node ∷ []) })
                  children d2 children2 (rw (e, build_entries) at h) in
              (
                ds,
                cs,
                fs
                    ∙ append_assoc d.files (node ∷ []) (file_nodes rest)
                    ∙ ap
                        (λ g.
                          d.files
                          ++ (record { name = name; digest = g; is_executable = x }
                              ∷ file_nodes rest))
                        same,
                ls,
                subs,
                all,
                (keeps2 _ c got, stored),
                λ e2 c2 g. keeps2 e2 c2 (keeps e2 c2 g),
              )
        ]
    build_entries-BuiltFrom s t (entry name (symlink l) rest) d children d2 children2 h =
        let node : SymlinkNode = record { name = name; target = l } in
        let (ds, cs, fs, ls, subs, all, stored, keeps) =
          build_entries-BuiltFrom s t rest (record d { symlinks = d.symlinks ++ (node ∷ []) })
            children d2 children2 h in
        (
          ds,
          cs,
          fs,
          ls ∙ append_assoc d.symlinks (node ∷ []) (link_nodes rest),
          subs,
          all,
          stored,
          keeps,
        )
    build_entries-BuiltFrom s t (entry name (dir es) rest) d children d2 children2 h =
        elim (Result-cases (build_entries blobs s es (empty_directory, children)).1) [
          | inr (er, e) ↦ absurd (ground arith)
          | inl ((sub, children1), e) ↦
              let s1 = (build_entries blobs s es (empty_directory, children)).0 in
              let (inner, below, fs1, ls1, subs1, all1, stored1, keeps1) =
                build_entries-BuiltFrom s s1 es empty_directory children sub children1
                  (ap (λ r. (s1, r)) e) in
              let whole : sub ≡ directory_of es inner =
                λ i. record { files = fs1 i; symlinks = ls1 i; directories = subs1 i } in
              elim (Result-cases (upload_directory blobs s1 sub).1) [
                | inr (er, e2) ↦ absurd (wrong (rw (e, e2, build_entries) at h))
                | inl (digest, e2) ↦
                    let s2 = (upload_directory blobs s1 sub).0 in
                    let (bytes, same, got, read, keeps2) =
                      upload_directory-Keeps s1 s2 sub digest (ap (λ r. (s2, r)) e2) in
                    let node : DirectoryNode = record { name = name; digest = digest } in
                    let (later, after, fs, ls, subs, all, stored, keeps3) =
                      build_entries-BuiltFrom s2 t rest
                        (record d { directories = d.directories ++ (node ∷ []) })
                        (children1 ++ (sub ∷ [])) d2 children2 (rw (e, e2, build_entries) at h) in
                    (
                      record { name = name; digest = blobs.digest_of bytes } ∷ later,
                      below ++ (directory_of es inner ∷ after),
                      fs,
                      ls,
                      subs
                          ∙ append_assoc d.directories (node ∷ []) later
                          ∙ ap (λ g. d.directories ++ (record { name = name; digest = g } ∷ later))
                              same,
                      all
                          ∙ append_assoc children1 (sub ∷ []) after
                          ∙ ap (λ c. c ++ (sub ∷ after)) all1
                          ∙ append_assoc children below (sub ∷ after)
                          ∙ ap (λ g. children ++ (below ++ (g ∷ after))) whole,
                      (
                        later,
                        inner,
                        bytes,
                        below,
                        after,
                        refl,
                        refl,
                        keeps3 _ bytes got,
                        read ∙ ap ok whole,
                        Stored-Keeps s1 t es inner below (λ a b g. keeps3 a b (keeps2 a b g))
                            stored1,
                        stored,
                      ),
                      λ a b g. keeps3 a b (keeps2 a b (keeps1 a b g)),
                    )
              ]
        ]
