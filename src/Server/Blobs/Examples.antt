-- ===== src/Server/Blobs/Examples.antt =====
-- The theorem on uploads, at an empty disk; the second upload is of the wrong size.
use go_rego.Base.{ℕ, ◌≡◌, ◌≢◌, refl, true, Option, none, some, List, [], ◌∷◌, arith}
use go_rego.Base.Text.{codes}
use go_rego.Base.Results.{Error, ok}
use go_rego.Storage.Digests.{Digest}
use go_rego.Storage.Files.{FilePath}
use go_rego.Storage.Local.{LocalStore, blob_path}
use go_rego.Server.Blobs.{Upload, find_missing_blobs, batch_update_blobs}
use go_rego.Server.Blobs.Uploads.{uploaded}
use go_rego.Server.Blobs.OnDisk.{
  Surroundings, Disk, local_service, find_missing_blobs-local_service,
}

abbrev valid : Digest → Option Error
valid d = none

abbrev local : LocalStore
local = record { root_dir = codes "/data"; force_update_a_time = true }

-- Temporary files have an empty path here, which no blob has.
abbrev around : Surroundings
around = record {
  writes = λ n. record {
    mkdir_all = none;
    create_temp = none;
    write = none;
    close = none;
    rename = none;
    chmod = none;
    remove = none;
  };
  reads = λ n. record { opening = none; chtimes = none };
  temp = λ n. [];
  now = λ n. n;
}

blob_path-ne :
    (d : Digest) (path : FilePath) (n : ℕ) → blob_path local d ≡ some path → path ≢ around.temp n
unfolding blob_path
blob_path-ne d path n h e = ground arith

abbrev empty_disk : Disk
empty_disk = (λ path. none, 0)

abbrev uploads : List Upload
uploads =
    record { digest = record { hash = codes "aabb"; size = 2 }; bytes = codes "hi" }
    ∷ (record { digest = record { hash = codes "bbcc"; size = 5 }; bytes = [] } ∷ [])

find_missing_blobs-local_service_example :
    (find_missing_blobs
      (local_service valid local around)
      (batch_update_blobs (local_service valid local around) empty_disk uploads).0
      (uploaded (batch_update_blobs (local_service valid local around) empty_disk uploads).1)).1
    ≡ ok []
find_missing_blobs-local_service_example =
    find_missing_blobs-local_service valid local around (λ n. refl) blob_path-ne empty_disk uploads
