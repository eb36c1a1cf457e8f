-- ===== src/Proxy/Reads.antt =====
-- pkg/proxy/proxy.go: what a `Get` fetches from the remote store.
use go_rego.Base.{
  ℕ, ◌≡◌, ◌≢◌, ◌∙◌, refl, ap, Bool, true, none, some, List, length, Option-cases, Bool-cases, inl,
  inr,
}
use go_rego.Base.Lists.{All}
use go_rego.Base.Results.{Result, ok}
use go_rego.Storage.Digests.{Digest}
use go_rego.Storage.Files.{File, FilePath, FileSystem, Reader, path_eq, path_eq_iff}
use go_rego.Storage.Local.{
  LocalStore, PutFaults, ReadFaults, blob_path, put_at, has_at, get_at, open_file, after_open,
}
use go_rego.Storage.Atomicity.{has_at-found, get_at-found}
use go_rego.Proxy.Store.{Remote, fetch, proxy_get}
use go_rego.Proxy.Between.{Call, after_all, Regular, after_all-Keeps}
use go_rego.Proxy.Writes.{has_at-absent, put_at-kept}

-- A read changes at most the access time.
after_open-contents :
    (files : FileSystem) (y : ReadFaults) (force : Bool) (now : ℕ) (path : FilePath) (f : File)
    → files path ≡ some f
    → (g : File) × (after_open files y force now path f path ≡ some g) × (g.contents ≡ f.contents)
after_open-contents files y force now path f here = elim (Option-cases y.chtimes) [
  | inr (e, c) ↦ (f, rw c here, refl)
  | inl c ↦ elim (Bool-cases force) [
    | inr b ↦ (f, rw (c, b) here, refl)
    | inl b ↦
        let self : path_eq path path ≡ true = (path_eq_iff path path).1 refl in
        (record f { access_time = now }, rw (c, b, self) refl, refl)
  ]
]

has_at-contents :
    (local : LocalStore) (files : FileSystem) (y : ReadFaults) (now : ℕ) (path : FilePath)
    (f : File)
    → y.opening ≡ none
    → files path ≡ some f
    → (g : File) × ((has_at local files y now path).0 path ≡ some g) × (g.contents ≡ f.contents)
unfolding has_at open_file
has_at-contents local files y now path f o here =
    rw (o, here, has_at, open_file)
      (after_open-contents files y local.force_update_a_time now path f here)

get_at-contents :
    (local : LocalStore) (files : FileSystem) (y : ReadFaults) (now : ℕ) (path : FilePath)
    (f : File)
    → y.opening ≡ none
    → files path ≡ some f
    → (g : File) × ((get_at local files y now path).0 path ≡ some g) × (g.contents ≡ f.contents)
unfolding get_at open_file
get_at-contents local files y now path f o here =
    rw (o, here, get_at, open_file)
      (after_open-contents files y local.force_update_a_time now path f here)

abbrev Same : FileSystem × Result Reader → FileSystem × Result Reader → Type 0
Same a b = a ≡ b

module _ {S : Type 0} (remote : Remote S) (local : LocalStore) where
  proxy_get-held :
      (state : S) (files : FileSystem) (z y : ReadFaults) (x : PutFaults) (temp path : FilePath)
      (now : ℕ) (digest : Digest) (f : File)
      → blob_path local digest ≡ some path
      → files path ≡ some f
      → z.opening ≡ none
      → y.opening ≡ none
      → (files2 : FileSystem) × (proxy_get remote local state files z x y temp now digest
          ≡ some (files2, ok (record { bytes = f.contents; ends = none })))
  unfolding proxy_get
  proxy_get-held state files z y x temp path now digest f at here zo yo =
      let hit = has_at-found local files z now path f zo here in
      let seen = (has_at local files z now path).0 in
      let (g, there, same) = has_at-contents local files z now path f zo here in
      let held = get_at-found local seen y now path g yo there in
      (
        (get_at local seen y now path).0,
        rw (at, proxy_get, hit)
            (ap (λ b. some ((get_at local seen y now path).0, b))
              (held ∙ ap (λ b. ok (record { bytes = b; ends = none })) same)),
      )

  -- A `Get` of a blob that is not held locally gives the bytes that the remote store gives, of the
  -- size that the digest states, if the local store meets no error. A later `Get` of the blob gives
  -- the same bytes, whatever the remote store would say by then and whichever calls of `Get`, `Put`
  -- and `Has` on the proxy, for this blob or others, with whatever errors of writing, came between;
  -- if files that are there can be opened, and nothing else, such as the janitor, removes them. No
  -- temporary file has the name of a blob.
  pub proxy_get-fetched :
      (state state2 : S) (files : FileSystem) (z y z2 y2 : ReadFaults) (x x2 : PutFaults)
      (temp temp2 path : FilePath) (now now2 : ℕ) (digest : Digest) (reader : Reader)
      (calls : List (Call S))
      → blob_path local digest ≡ some path
      → path ≢ temp
      → files path ≡ none
      → remote.get state digest ≡ ok reader
      → (put_at x temp now digest reader path files).error ≡ none
      → y.opening ≡ none
      → z2.opening ≡ none
      → y2.opening ≡ none
      → All (Regular remote local) calls
      → (length reader.bytes ≡ digest.size)
        × ((files2 : FileSystem) × (files3 : FileSystem) × (proxy_get remote local state files z x y
                temp now digest
              ≡ some (files2, ok (record { bytes = reader.bytes; ends = none })))
            × (proxy_get remote local state2
                  (after_all remote local files2 calls)
                  z2
                  x2
                  y2
                  temp2
                  now2
                  digest
                ≡ some (files3, ok (record { bytes = reader.bytes; ends = none }))))
  unfolding proxy_get fetch
  proxy_get-fetched state state2 files z y z2 y2 x x2 temp temp2 path now now2 digest reader calls
        at ne absent given fine yo zo2 yo2 regular =
      let (same_files, unseen) = has_at-absent local files z now path absent in
      let (f, here, same, size, _) = put_at-kept x temp now digest reader path files ne fine in
      let stored = (put_at x temp now digest reader path files).files in
      let (g, there, same2) = get_at-contents local stored y now path f yo here in
      let files2 = (get_at local stored y now path).0 in
      let got = get_at-found local stored y now path f yo here in
      let fetched : Same (fetch remote local state files x y temp now digest path)
          (files2, ok (record { bytes = reader.bytes; ends = none })) =
        rw (given, fetch, fine)
          (ap (λ b. (files2, b)) (got ∙ ap (λ b. ok (record { bytes = b; ends = none })) same)) in
      let (h, kept, same3) =
        after_all-Keeps remote local digest path at files2 calls g regular there in
      let (files3, again) =
        proxy_get-held state2 (after_all remote local files2 calls) z2 y2 x2 temp2 path now2 digest
          h at kept zo2 yo2 in
      (
        size,
        (
          files2,
          files3,
          rw (at, proxy_get, unseen)
              (ap some (
                ap (λ fs. fetch remote local state fs x y temp now digest path) same_files
                ∙ fetched)),
          again
              ∙ ap (λ b. some (files3, ok (record { bytes = b; ends = none })))
                  (same3 ∙ same2 ∙ same),
        ),
      )
