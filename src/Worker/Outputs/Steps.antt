-- ===== src/Worker/Outputs/Steps.antt =====
-- pkg/execution/worker.go: what each output adds to the result.
use go_rego.Base.{◌≡◌, ◌≢◌, refl, ap, sym, subst, ◌∙◌, List, [], ◌∷◌, ◌++◌, append-nil, inl, inr}
use go_rego.Base.Lists.{All-append}
use go_rego.Base.Text.{GoString}
use go_rego.Base.Results.{Error, Result, ok, err, Result-cases}
use go_rego.Storage.Digests.{Digest}
use go_rego.Storage.Files.{FilePath}
use go_rego.Worker.Blobs.{DirectoryNode, BlobStore, IsBlobStore, empty_directory}
use go_rego.Worker.Trees.{
  Entries, Built, join, upload_blob, upload_directory, build_entries, build_tree,
}
use go_rego.Worker.Trees.Building.{
  directory_of, Stored, Keeps, Stored-Keeps, upload_blob-Keeps, upload_directory-Keeps,
  build_entries-BuiltFrom,
}
use go_rego.Worker.Outputs.{
  OutputFile, OutputDirectory, ActionResult, FileInfo, Disk, upload_file, add_file, add_directory,
  upload_tree, upload_directory_at,
}
use go_rego.Worker.Outputs.Uploaded.{
  file_paths-append, directory_paths-append, IsFile, IsDirectory, Uploaded-Keeps, Adds,
}

module _ {S : Type 0} (blobs : BlobStore S) (marshal_tree : Built → Result GoString) (disk : Disk)
    (base : FilePath) where
  wrong : {A : Type 0} {a b : S} {er : Error} {x : A} → ◌≢◌ {A = S × Result A} (a, err er) (b, ok x)
  wrong e = cc

  module _ (laws : IsBlobStore blobs) where
    upload_file-ok :
        (s t : S) (path : FilePath) (d : Digest)
        → upload_file blobs marshal_tree disk s path ≡ (t, ok d)
        → (bytes : GoString) × (disk.read_file path ≡ ok bytes)
          × (d ≡ blobs.digest_of bytes)
          × (blobs.get t (blobs.digest_of bytes) ≡ ok bytes)
          × Keeps blobs s t
    unfolding upload_file
    upload_file-ok s t path d h = elim (Result-cases (disk.read_file path)) [
      | inr (er, e) ↦ absurd (wrong (rw (e, upload_file) at h))
      | inl (bytes, e) ↦ elim (Result-cases (upload_blob blobs s bytes).1) [
        | inr (er, e2) ↦ absurd (wrong (rw (e, upload_file, e2) at h))
        | inl (g, e2) ↦
            let s1 = (upload_blob blobs s bytes).0 in
            let same : ◌≡◌ {A = S × Result Digest} (s1, ok g) (t, ok d) =
              rw (e, upload_file, e2) at h in
            let put_eq : upload_blob blobs s bytes ≡ (t, ok d) = ap (λ r. (s1, r)) e2 ∙ same in
            let (is, stored, keeps) = upload_blob-Keeps blobs laws s t bytes d put_eq in
            (bytes, e, is, stored, keeps)
      ]
    ]

    pub add_file-Adds :
        (name : GoString) (info : FileInfo) (s t : S) (r r' : ActionResult)
        → disk.stat (join base name) ≡ ok info
        → add_file blobs marshal_tree disk name info.is_executable
            (upload_file blobs marshal_tree disk s (join base name))
            r
          ≡ (t, ok r')
        → Adds blobs marshal_tree disk base (name ∷ []) [] s r t r'
    unfolding add_file
    add_file-Adds name info s t r r' found h =
        elim (Result-cases (upload_file blobs marshal_tree disk s (join base name)).1) [
          | inr (er, e) ↦ absurd (wrong (rw (e, add_file) at h))
          | inl (d, e) ↦
              let s1 = (upload_file blobs marshal_tree disk s (join base name)).0 in
              let f : OutputFile = record {
                path = name;
                digest = d;
                is_executable = info.is_executable;
              } in
              let same : ◌≡◌ {A = S × Result ActionResult}
                  (s1, ok (record r { output_files = r.output_files ++ (f ∷ []) })) (t, ok r') =
                rw (e, add_file) at h in
              let same_s : s1 ≡ t = cc in
              let same_r : record r { output_files = r.output_files ++ (f ∷ []) } ≡ r' = cc in
              let (bytes, read, is, stored, keeps) =
                upload_file-ok s s1 (join base name) d (ap (λ x. (s1, x)) e) in
              rw (← same_s, ← same_r)
                (record {
                  keeps = keeps;
                  uploaded = λ u.
                      let v = Uploaded-Keeps blobs marshal_tree disk base s s1 r keeps u in
                      record {
                        files =
                            All-append (IsFile blobs marshal_tree disk base s1) r.output_files
                              (f ∷ []) v.files
                              (
                                record {
                                  bytes = bytes;
                                  info = info;
                                  found = found;
                                  read = read;
                                  executable = refl;
                                  digest = is;
                                  stored = stored;
                                },
                                tt,
                              );
                        directories = v.directories;
                      };
                  files = file_paths-append r.output_files (f ∷ []);
                  directories = sym (append-nil _);
                  exit_code = refl;
                  stdout = refl;
                  stderr = refl;
                })
        ]

    -- The root of a tree that was built, with all that it stands for.
    pub build_tree-ok :
        (s t : S) (es : Entries) (root : Digest) (built : Built)
        → build_tree blobs s es ≡ (t, ok (root, built))
        → (subs : List DirectoryNode) × (bytes : GoString) × (built.0 ≡ directory_of blobs es subs)
          × (root ≡ blobs.digest_of bytes)
          × (blobs.get t (blobs.digest_of bytes) ≡ ok bytes)
          × (blobs.unmarshal bytes ≡ ok (directory_of blobs es subs))
          × Stored blobs t es subs built.1
          × Keeps blobs s t
    unfolding build_tree
    build_tree-ok s t es root built h =
        elim (Result-cases (build_entries blobs s es (empty_directory, [])).1) [
          | inr (er, e) ↦ absurd (wrong (rw (e, build_tree) at h))
          | inl ((d, children), e) ↦
              let s1 = (build_entries blobs s es (empty_directory, [])).0 in
              let (subs, cs, fs, ls, ds, all, below, keeps1) =
                build_entries-BuiltFrom blobs laws s s1 es empty_directory [] d children
                  (ap (λ r. (s1, r)) e) in
              let whole : d ≡ directory_of blobs es subs =
                λ i. record { files = fs i; symlinks = ls i; directories = ds i } in
              elim (Result-cases (upload_directory blobs s1 d).1) [
                | inr (er, e2) ↦ absurd (wrong (rw (e, e2, build_tree) at h))
                | inl (g, e2) ↦
                    let s2 = (upload_directory blobs s1 d).0 in
                    let same : ◌≡◌ {A = S × Result (Digest × Built)} (s2, ok (g, (d, children)))
                        (t, ok (root, built)) =
                      rw (e, e2, build_tree) at h in
                    let same_s : s2 ≡ t = cc in
                    let same_g : g ≡ root = cc in
                    let same_b : d ≡ built.0 = cc in
                    let same_c : children ≡ built.1 = cc in
                    let (bytes, is, got, read, keeps2) =
                      upload_directory-Keeps blobs laws s1 s2 d g (ap (λ r. (s2, r)) e2) in
                    (
                      subs,
                      bytes,
                      sym same_b ∙ whole,
                      sym same_g ∙ is,
                      rw same_s at got,
                      read ∙ ap ok whole,
                      subst (Stored blobs t es subs) (sym all ∙ same_c)
                          (rw same_s at (Stored-Keeps blobs s1 s2 es subs cs keeps2 below)),
                      λ a b x. rw same_s at (keeps2 a b (keeps1 a b x)),
                    )
              ]
        ]

    pub upload_directory_at-Adds :
        (name : GoString) (s t : S) (r r' : ActionResult)
        → upload_directory_at blobs marshal_tree disk name (join base name) s r ≡ (t, ok r')
        → Adds blobs marshal_tree disk base [] (name ∷ []) s r t r'
    unfolding upload_directory_at upload_tree add_directory
    upload_directory_at-Adds name s t r r' h =
        elim (Result-cases (disk.read_dir (join base name))) [
          | inr (er, e) ↦ absurd (wrong (rw (e, upload_directory_at) at h))
          | inl (es, e) ↦ elim (Result-cases (build_tree blobs s es).1) [
            | inr (er, e2) ↦ absurd (wrong (rw (e, e2, upload_directory_at, upload_tree) at h))
            | inl ((root, built), e2) ↦ elim (Result-cases (marshal_tree built)) [
              | inr (er, e3) ↦
                  absurd (wrong (rw (e, e2, upload_directory_at, upload_tree, e3) at h))
              | inl (bytes, e3) ↦
                  let s1 = (build_tree blobs s es).0 in
                  elim (Result-cases (upload_blob blobs s1 bytes).1) [
                    | inr (er, e4) ↦ absurd (
                        wrong (
                          rw (e, e2, upload_directory_at, upload_tree, e3, e4, add_directory) at h))
                    | inl (g, e4) ↦
                        let s2 = (upload_blob blobs s1 bytes).0 in
                        let d : OutputDirectory = record {
                          path = name;
                          tree_digest = g;
                          root_directory_digest = root;
                        } in
                        let r2 = record r {
                          output_directories = r.output_directories ++ (d ∷ []);
                        } in
                        let same : ◌≡◌ {A = S × Result ActionResult} (s2, ok r2) (t, ok r') =
                          rw (e, e2, upload_directory_at, upload_tree, e3, e4, add_directory) at
                            h in
                        let same_s : s2 ≡ t = cc in
                        let same_r : r2 ≡ r' = cc in
                        let (subs, root_bytes, whole, is, got, read, below, keeps1) =
                          build_tree-ok s s1 es root built (ap (λ x. (s1, x)) e2) in
                        let (tree_is, tree_got, keeps2) =
                          upload_blob-Keeps blobs laws s1 s2 bytes g (ap (λ x. (s2, x)) e4) in
                        let keeps : Keeps blobs s s2 = λ a b x. keeps2 a b (keeps1 a b x) in
                        rw (← same_s, ← same_r)
                          (record {
                            keeps = keeps;
                            uploaded = λ u.
                                let v =
                                  Uploaded-Keeps blobs marshal_tree disk base s s2 r keeps u in
                                record {
                                  files = v.files;
                                  directories =
                                      All-append (IsDirectory blobs marshal_tree disk base s2)
                                        r.output_directories (d ∷ []) v.directories
                                        (
                                          record {
                                            entries = es;
                                            subdirectories = subs;
                                            children = built.1;
                                            root_bytes = root_bytes;
                                            tree_bytes = bytes;
                                            found = e;
                                            root = is;
                                            root_stored = keeps2 _ root_bytes got;
                                            root_read = read;
                                            below =
                                                Stored-Keeps blobs s1 s2 es subs built.1 keeps2
                                                  below;
                                            tree = tree_is;
                                            tree_stored = tree_got;
                                            tree_bytes_of =
                                                ap (λ x. marshal_tree (x, built.1)) (sym whole)
                                                ∙ e3;
                                          },
                                          tt,
                                        );
                                };
                            files = sym (append-nil _);
                            directories = directory_paths-append r.output_directories (d ∷ []);
                            exit_code = refl;
                            stdout = refl;
                            stderr = refl;
                          })
                  ]
            ]
          ]
        ]
