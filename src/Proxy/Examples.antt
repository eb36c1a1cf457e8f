-- ===== src/Proxy/Examples.antt =====
-- The theorems on the proxy, with three remote stores: one keeps each blob, one fails at the end of an
-- upload, and one returns before it has read anything.
use go_rego.Base.{
  ℕ, suc, ◌≡◌, ◌≢◌, refl, true, false, Option, none, some, List, [], ◌∷◌, length, arith,
}
use go_rego.Base.Text.{codes}
use go_rego.Base.Results.{Error, external, ok}
use go_rego.Storage.Digests.{Digest}
use go_rego.Storage.Files.{File, FilePath, FileSystem, Reader}
use go_rego.Storage.Local.{
  LocalStore, PutFaults, ReadFaults, PutResult, blob_path, put_at, copied, publish, has_at,
  open_file,
}
use go_rego.Proxy.Store.{Remote, put_both, local_reads, proxy_put, proxy_get}
use go_rego.Proxy.Writes.{upload, proxy_put-success, proxy_put-retry}
use go_rego.Proxy.Between.{Call, gets, after_all}
use go_rego.Proxy.Reads.{proxy_get-fetched}

abbrev local : LocalStore
local = record { root_dir = codes "/cache"; force_update_a_time = true }

abbrev digest : Digest
digest = record { hash = codes "abcdef"; size = 2 }

abbrev path : FilePath
path = codes "/cache" ∷ codes "cas" ∷ codes "ab" ∷ codes "cd" ∷ codes "abcdef" ∷ []

abbrev temp : FilePath
temp = codes "/cache" ∷ codes "cas" ∷ codes "ab" ∷ codes "cd" ∷ codes "cas-tmp-1" ∷ []

abbrev no_files : FileSystem
no_files p = none

abbrev no_faults : PutFaults
no_faults = record {
  mkdir_all = none;
  create_temp = none;
  write = none;
  close = none;
  remove = none;
  rename = none;
  chmod = none;
}

abbrev readable : ReadFaults
readable = record { opening = none; chtimes = none }

abbrev hello : Reader
hello = record { bytes = codes "hi"; ends = none }

-- A remote store that counts the uploads, takes `taken` bytes of each, and answers with `error`.
abbrev counting : ℕ → Option Error → Remote ℕ
counting taken error = record {
  has = λ s d. ok false;
  get = λ s d. ok (record { bytes = codes "hi"; ends = none });
  put = λ s d r. record { state = suc s; consumed = taken; error = error };
}

at_path : blob_path local digest ≡ some path
unfolding blob_path
at_path = refl

path-ne-temp : path ≢ temp
path-ne-temp e = cc

abbrev stored : PutResult
stored = put_at no_faults temp 7 digest hello path no_files

stored_error : stored.error ≡ none
unfolding put_at copied publish
stored_error = refl

puts :
    proxy_put (counting 2 none) local 0 no_files readable no_faults temp 7 digest hello
    ≡ some (1, stored.files, none)
unfolding proxy_put put_both local_reads blob_path has_at open_file put_at copied publish
puts = refl

proxy_put-success_example :
    ((f : File) × (stored.files path ≡ some f)
      × (f.contents ≡ codes "hi")
      × (length (codes "hi") ≡ digest.size)
      × (◌≡◌ {A = Option Error} none none))
    × ((upload (counting 2 none) local 0 digest (codes "hi")).state ≡ 1)
    × ((upload (counting 2 none) local 0 digest (codes "hi")).error ≡ none)
proxy_put-success_example =
    proxy_put-success (counting 2 none) local 0 no_files readable no_faults temp path 7 digest hello
      1 stored.files at_path path-ne-temp refl puts

proxy_put-retry_example :
    (files2 : FileSystem) × (proxy_put
        (counting 2 (some (external 7)))
        local
        0
        no_files
        readable
        no_faults
        temp
        7
        digest
        hello
      ≡ some (1, files2, some (external 7)))
    × ((s : ℕ)
        → (files3 : FileSystem) × (proxy_put
              (counting 2 (some (external 7)))
              local
              s
              files2
              readable
              no_faults
              temp
              9
              digest
              hello
            ≡ some (s, files3, none)))
proxy_put-retry_example =
    proxy_put-retry (counting 2 (some (external 7))) local 0 no_files readable readable no_faults
      no_faults temp temp path 7 9 digest hello hello (external 7) at_path path-ne-temp refl
      stored_error (omega arith) refl refl

-- Between the two calls another blob is fetched, with a full disk.
abbrev full_disk : PutFaults
full_disk = record no_faults { write = some (0, external 28) }

abbrev other : Digest
other = record { hash = codes "0a0b0c"; size = 2 }

-- A temporary file with a path that no blob has.
abbrev between : List (Call ℕ)
between =
    gets 1 readable full_disk readable [] 8 other
    ∷ (Call.puts 1 readable no_faults [] 8 digest hello ∷ [])

blob_path-ne-nil : (e : Digest) (p : FilePath) → blob_path local e ≡ some p → p ≢ []
unfolding blob_path
blob_path-ne-nil e p h empty = ground arith

proxy_get-fetched_example :
    (length (codes "hi") ≡ digest.size)
    × ((files2 : FileSystem) × (files3 : FileSystem) × (proxy_get
            (counting 2 none)
            local
            0
            no_files
            readable
            no_faults
            readable
            temp
            7
            digest
          ≡ some (files2, ok (record { bytes = codes "hi"; ends = none })))
        × (proxy_get
              (counting 2 none)
              local
              5
              (after_all (counting 2 none) local files2 between)
              readable
              no_faults
              readable
              temp
              9
              digest
            ≡ some (files3, ok (record { bytes = codes "hi"; ends = none }))))
proxy_get-fetched_example =
    proxy_get-fetched (counting 2 none) local 0 5 no_files readable readable readable readable
      no_faults no_faults temp temp path 7 9 digest hello between at_path path-ne-temp refl refl
      stored_error refl refl refl ((refl, blob_path-ne-nil), ((refl, blob_path-ne-nil), tt))
