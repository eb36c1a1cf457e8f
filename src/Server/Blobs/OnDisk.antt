-- ===== src/Server/Blobs/OnDisk.antt =====
-- pkg/server/server.go and pkg/storage/local.go: uploads to a server whose blobs are the local store's.
use go_rego.Base.{
  ℕ, suc, Bool, ◌≡◌, ◌≢◌, refl, true, Option, none, some, List, [], Option-cases, inl, inr,
}
use go_rego.Base.Text.{GoString}
use go_rego.Base.Results.{Error, plain, Result, ok, err}
use go_rego.Storage.Digests.{Digest}
use go_rego.Storage.Files.{File, FilePath, FileSystem}
use go_rego.Storage.Local.{LocalStore, PutFaults, ReadFaults, blob_path, has, put}
use go_rego.Storage.Atomicity.{has_at-found}
use go_rego.Storage.Held.{has_at-Keeps, has_at-true, put_at-file}
use go_rego.Proxy.Writes.{put_at-kept}
use go_rego.Server.Blobs.{BlobService, Upload, find_missing_blobs, batch_update_blobs}
use go_rego.Server.Blobs.Uploads.{IsBlobService, uploaded, find_missing_blobs-batch_update_blobs}

-- What the n-th call of the store meets: the faults, the name of a temporary file, and the clock.
pub record Surroundings : Type 0 where
  pub writes : ℕ → PutFaults
  pub reads : ℕ → ReadFaults
  pub temp : ℕ → FilePath
  pub now : ℕ → ℕ

-- The files, and the number of calls so far.
abbrev pub Disk : Type 0
Disk = FileSystem × ℕ

module _ (check : Digest → Option Error) (local : LocalStore) (w : Surroundings) where
  -- The local store behind the service. An error stands for the panic at a hash too short for a path.
  abbrev pub local_service : BlobService Disk
  local_service = record {
    check = check;
    has = λ (s : Disk) d. elim (has local s.0 (w.reads s.1) (w.now s.1) d) [
      | none ↦ (s, err plain)
      | some (files, answer) ↦ ((files, suc s.1), answer)
    ];
    put = λ (s : Disk) d b.
        elim (put local s.0 (w.writes s.1) (w.temp s.1) (w.now s.1) d
          (record { bytes = b; ends = none })) [
            | none ↦ (s, some plain)
            | some r ↦ ((r.files, suc s.1), r.error)
          ];
  }

  -- A file is at the path of the digest.
  abbrev Held : Disk → Digest → Type 0
  Held s d = (path : FilePath) × (f : File) × (blob_path local d ≡ some path) × (s.0 path ≡ some f)

  has-Held : (s : Disk) (d : Digest) → (local_service.has s d).1 ≡ ok true → Held s d
  unfolding has
  has-Held s d h = elim (Option-cases (blob_path local d)) [
    | inl e ↦ absurd (wrong (rw (e, local_service, has) at h))
    | inr (path, e) ↦
        let (f, here) =
          has_at-true local s.0 (w.reads s.1) (w.now s.1) path (rw (e, local_service, has) at h) in
        (path, f, e, here)
  ]
    where
      wrong : ◌≢◌ {A = Result Bool} (err plain) (ok true)
      wrong e = cc

  module _ (opens : (n : ℕ) → (w.reads n).opening ≡ none)
      (apart : (d : Digest) (path : FilePath) (n : ℕ)
        → blob_path local d ≡ some path
        → path ≢ w.temp n) where
    Held-has : (s : Disk) (d : Digest) → Held s d → (local_service.has s d).1 ≡ ok true
    unfolding has
    Held-has s d (path, f, e, here) =
        rw (e, local_service, has)
          (has_at-found local s.0 (w.reads s.1) (w.now s.1) path f (opens s.1) here)

    put-Held :
        (s : Disk) (d : Digest) (b : GoString)
        → (local_service.put s d b).1 ≡ none
        → Held (local_service.put s d b).0 d
    unfolding put
    put-Held s d b h = elim (Option-cases (blob_path local d)) [
      | inl e ↦ absurd (wrong (rw (e, local_service, put) at h))
      | inr (path, e) ↦
          let (f, here, _, _, _) =
            put_at-kept (w.writes s.1) (w.temp s.1) (w.now s.1) d
              (record { bytes = b; ends = none }) path s.0 (apart d path s.1 e)
              (rw (e, local_service, put) at h) in
          rw (e, local_service, put) (path, f, refl, here)
    ]
      where
        wrong : ◌≢◌ {A = Option Error} (some plain) none
        wrong e = cc

    put-Keeps :
        (s : Disk) (d e : Digest) (b : GoString) → Held s e → Held (local_service.put s d b).0 e
    unfolding put
    put-Keeps s d e b (q, f, at, here) = elim (Option-cases (blob_path local d)) [
      | inl none_there ↦ rw (none_there, local_service, put) (q, f, at, here)
      | inr (path, there) ↦
          let (g, kept) =
            put_at-file (w.writes s.1) (w.temp s.1) (w.now s.1) d
              (record { bytes = b; ends = none }) path q s.0 f (apart d path s.1 there)
              (apart e q s.1 at) here in
          rw (there, local_service, put) (q, g, at, kept)
    ]

    has-Keeps : (s : Disk) (d e : Digest) → Held s e → Held (local_service.has s d).0 e
    unfolding has
    has-Keeps s d e (q, f, at, here) = elim (Option-cases (blob_path local d)) [
      | inl none_there ↦ rw (none_there, local_service, has) (q, f, at, here)
      | inr (path, there) ↦
          let (g, kept, _) = has_at-Keeps local s.0 (w.reads s.1) (w.now s.1) path q f here in
          rw (there, local_service, has) (q, g, at, kept)
    ]

    local_service-IsBlobService : IsBlobService local_service
    local_service-IsBlobService = record {
      put-has = λ s d b h. Held-has (local_service.put s d b).0 d (put-Held s d b h);
      put-keeps =
          λ s d e b h. Held-has (local_service.put s d b).0 e (put-Keeps s d e b (has-Held s e h));
      has-keeps =
          λ s d e h. Held-has (local_service.has s d).0 e (has-Keeps s d e (has-Held s e h));
    }

    -- A client that asks, after a call of BatchUpdateBlobs on a server with a local store, for the
    -- blobs whose upload was reported as OK is told that none of them is missing: whatever files
    -- there were and whichever calls of the uploads fail, other uploads to the same paths included.
    -- (Files that are there can be opened, and no temporary file has the name of a blob.)
    pub find_missing_blobs-local_service :
        (s : Disk) (us : List Upload)
        → (find_missing_blobs local_service
            (batch_update_blobs local_service s us).0
            (uploaded (batch_update_blobs local_service s us).1)).1
          ≡ ok []
    find_missing_blobs-local_service s us =
        find_missing_blobs-batch_update_blobs local_service local_service-IsBlobService s us
