-- ===== src/Proxy/Writes.antt =====
-- pkg/proxy/proxy.go: what a `Put` brings to the local and to the remote store.
use go_rego.Base.{
  ℕ, ◌≡◌, ◌≢◌, ◌<◌, ◌≤◌, ◌∙◌, sym, inl, inr, refl, ap, true, false, Option, none, some, [], ◌∷◌,
  ltb, length, take, arith, Bool-cases,
}
use go_rego.Base.Text.{GoString}
use go_rego.Base.Results.{Error}
use go_rego.Storage.Digests.{Digest}
use go_rego.Storage.Files.{File, FilePath, FileSystem, Reader}
use go_rego.Storage.Local.{
  LocalStore, PutFaults, ReadFaults, PutResult, blob_path, put_at, has_at, copied, open_file,
}
use go_rego.Storage.Atomicity.{put_at-Published, has_at-found}
use go_rego.Proxy.Store.{
  Remote, Upload, local_reads, put_both, proxy_put, first_error, pipe_error, piped, is_ok_true,
}

take-all : (xs : GoString) → take (length xs) xs ≡ xs
take-all [] = refl
take-all (x ∷ xs) = ground (arith, take-all xs)

-- A local `Put` that succeeds has read the whole reader.
put_at-reads :
    (x : PutFaults) (temp : FilePath) (now : ℕ) (digest : Digest) (reader : Reader)
    (path : FilePath) (files : FileSystem)
    → (put_at x temp now digest reader path files).error ≡ none
    → local_reads x reader.bytes ≡ length reader.bytes
unfolding put_at copied local_reads
put_at-reads x temp now digest reader path files h = ground arith

-- A local `Put` without an error keeps the bytes of a reader that ended, of the stated size.
pub put_at-kept :
    (x : PutFaults) (temp : FilePath) (now : ℕ) (digest : Digest) (reader : Reader)
    (path : FilePath) (files : FileSystem)
    → path ≢ temp
    → (put_at x temp now digest reader path files).error ≡ none
    → (f : File) × ((put_at x temp now digest reader path files).files path ≡ some f)
      × (f.contents ≡ reader.bytes)
      × (length reader.bytes ≡ digest.size)
      × (reader.ends ≡ none)
put_at-kept x temp now digest reader path files ne h =
    elim (put_at-Published x temp now digest reader path files ne) [
      | inl ((f, here, same, size, ends, _), _) ↦ (f, here, same, size, ends)
      | inr ((e, bad), _, _) ↦ absurd (cc)
    ]

put_at-broken :
    (x : PutFaults) (temp : FilePath) (now : ℕ) (digest : Digest) (reader : Reader)
    (path : FilePath) (files : FileSystem) (e : Error)
    → path ≢ temp
    → reader.ends ≡ some e
    → (put_at x temp now digest reader path files).error ≢ none
put_at-broken x temp now digest reader path files e ne ends h =
    let (f, here, same, size, whole) = put_at-kept x temp now digest reader path files ne h in cc

first_error-none : (a b : Option Error) → first_error a b ≡ none → (a ≡ none) × (b ≡ none)
first_error-none none b h = (refl, h)
first_error-none (some e) b h = absurd (cc)

first_error-some : (a b : Option Error) → a ≢ none → (e : Error) × (first_error a b ≡ some e)
first_error-some none b h = absurd (h refl)
first_error-some (some e) b h = (e, refl)

piped-whole :
    (x : PutFaults) (temp : FilePath) (now : ℕ) (digest : Digest) (reader : Reader)
    (path : FilePath) (files : FileSystem)
    → (put_at x temp now digest reader path files).error ≡ none
    → piped (put_at x temp now digest reader path files) (local_reads x reader.bytes) reader
      ≡ record { bytes = reader.bytes; ends = none }
piped-whole x temp now digest reader path files h =
    rw (put_at-reads x temp now digest reader path files h, take-all reader.bytes, h) refl

-- A blob that is not there is not found, and the search changes nothing.
pub has_at-absent :
    (local : LocalStore) (files : FileSystem) (y : ReadFaults) (now : ℕ) (path : FilePath)
    → files path ≡ none
    → ((has_at local files y now path).0 ≡ files)
      × (is_ok_true (has_at local files y now path).1 ≡ false)
unfolding has_at open_file
has_at-absent local files y now path absent = (ground arith, ground arith)

some-injective : {A : Type 0} {a b : A} → some a ≡ some b → a ≡ b
some-injective e = cc

module _ {S : Type 0} (remote : Remote S) (local : LocalStore) where
  -- The upload of a whole reader.
  abbrev pub upload : S → Digest → GoString → Upload S
  upload state digest bytes = remote.put state digest (record { bytes = bytes; ends = none })

  abbrev Same : S × FileSystem × Option Error → S × FileSystem × Option Error → Type 0
  Same a b = a ≡ b

  put_both-success :
      (state : S) (files : FileSystem) (x : PutFaults) (temp : FilePath) (now : ℕ) (digest : Digest)
      (reader : Reader) (path : FilePath) (state2 : S) (files2 : FileSystem)
      → path ≢ temp
      → put_both remote local state files x temp now digest reader path ≡ (state2, files2, none)
      → ((f : File) × (files2 path ≡ some f)
          × (f.contents ≡ reader.bytes)
          × (length reader.bytes ≡ digest.size)
          × (reader.ends ≡ none))
        × ((upload state digest reader.bytes).state ≡ state2)
        × ((upload state digest reader.bytes).error ≡ none)
  unfolding put_both
  put_both-success state files x temp now digest reader path state2 files2 ne h =
      elim (Bool-cases (ltb up.consumed n)) [
        | inl early ↦
            let g : Same (up.state, stopped.files, first_error stopped.error up.error)
                (state2, files2, none) =
              rw (early, put_both) at h in
            absurd (
              put_at-broken x temp now digest part path files (pipe_error up.error) ne refl
                (first_error-none stopped.error up.error (ap (λ t. t.2) g)).0)
        | inr late ↦
            let g : Same (up.state, whole.files, first_error whole.error up.error)
                (state2, files2, none) =
              rw (late, put_both) at h in
            let (fine, sent) = first_error-none whole.error up.error (ap (λ t. t.2) g) in
            let (f, here, same, size, ends) =
              put_at-kept x temp now digest reader path files ne fine in
            let sees : up ≡ upload state digest reader.bytes =
              ap (λ r. remote.put state digest r)
                (piped-whole x temp now digest reader path files fine) in
            (
              (f, sym (ap (λ t. t.1 path) g) ∙ here, same, size, ends),
              sym (ap (λ u. u.state) sees) ∙ ap (λ t. t.0) g,
              sym (ap (λ u. u.error) sees) ∙ sent,
            )
      ]
    where
      n : ℕ
      n = local_reads x reader.bytes

      whole : PutResult
      whole = put_at x temp now digest reader path files

      up : Upload S
      up = remote.put state digest (piped whole n reader)

      part : Reader
      part = record { bytes = take up.consumed reader.bytes; ends = some (pipe_error up.error) }

      stopped : PutResult
      stopped = put_at x temp now digest part path files

  proxy_put-absent :
      (state : S) (files : FileSystem) (y : ReadFaults) (x : PutFaults) (temp path : FilePath)
      (now : ℕ) (digest : Digest) (reader : Reader)
      → blob_path local digest ≡ some path
      → files path ≡ none
      → proxy_put remote local state files y x temp now digest reader
        ≡ some (put_both remote local state files x temp now digest reader path)
  unfolding proxy_put
  proxy_put-absent state files y x temp path now digest reader e absent =
      let (same, unseen) = has_at-absent local files y now path absent in
      rw (e, proxy_put, same, unseen) refl

  -- A `Put` of a blob that is not held locally, and that gives no error, has stored the whole blob
  -- in the local store, of the size that the digest states, and the remote store has taken the same
  -- whole blob without an error. The temporary name is not the blob's.
  pub proxy_put-success :
      (state : S) (files : FileSystem) (y : ReadFaults) (x : PutFaults) (temp path : FilePath)
      (now : ℕ) (digest : Digest) (reader : Reader) (state2 : S) (files2 : FileSystem)
      → blob_path local digest ≡ some path
      → path ≢ temp
      → files path ≡ none
      → proxy_put remote local state files y x temp now digest reader ≡ some (state2, files2, none)
      → ((f : File) × (files2 path ≡ some f)
          × (f.contents ≡ reader.bytes)
          × (length reader.bytes ≡ digest.size)
          × (reader.ends ≡ none))
        × ((upload state digest reader.bytes).state ≡ state2)
        × ((upload state digest reader.bytes).error ≡ none)
  unfolding proxy_put
  proxy_put-success state files y x temp path now digest reader state2 files2 e ne absent h =
      put_both-success state files x temp now digest reader path state2 files2 ne (
        some-injective
          (sym (proxy_put-absent state files y x temp path now digest reader e absent) ∙ h))

  -- The local store keeps a blob whose upload failed at its end: when the remote store reads the
  -- whole blob and then gives an error, the `Put` gives that error, but a `Put` of the same blob that
  -- follows succeeds without any call of the remote store, whatever its reader gives. (The first
  -- `Put` meets no local error, the file can be opened, and the temporary name is not the blob's.)
  pub proxy_put-retry :
      (state : S) (files : FileSystem) (y later : ReadFaults) (x z : PutFaults)
      (temp temp2 path : FilePath) (now now2 : ℕ) (digest : Digest) (reader reader2 : Reader)
      (e : Error)
      → blob_path local digest ≡ some path
      → path ≢ temp
      → files path ≡ none
      → (put_at x temp now digest reader path files).error ≡ none
      → length reader.bytes ≤ (upload state digest reader.bytes).consumed
      → (upload state digest reader.bytes).error ≡ some e
      → later.opening ≡ none
      → (files2 : FileSystem) × (proxy_put remote local state files y x temp now digest reader
          ≡ some ((upload state digest reader.bytes).state, files2, some e))
        × ((s : S)
            → (files3 : FileSystem) × (proxy_put remote local s files2 later z temp2 now2 digest
                  reader2
                ≡ some (s, files3, none)))
  unfolding proxy_put put_both
  proxy_put-retry state files y later x z temp temp2 path now now2 digest reader reader2 e at ne
        absent fine all fails opens =
      let (f, here, _, _, _) = put_at-kept x temp now digest reader path files ne fine in
      let files2 = (put_at x temp now digest reader path files).files in
      let again = has_at-found local files2 later now2 path f opens here in
      let n = put_at-reads x temp now digest reader path files fine in
      let late : ltb (upload state digest reader.bytes).consumed (length reader.bytes) ≡ false =
        ground arith in
      let first : Same (put_both remote local state files x temp now digest reader path)
          ((upload state digest reader.bytes).state, files2, some e) =
        rw (put_both, n, take-all reader.bytes, fine, late, fails) refl in
      (
        files2,
        proxy_put-absent state files y x temp path now digest reader at absent ∙ ap some first,
        λ s. ((has_at local files2 later now2 path).0, rw (at, proxy_put, again) refl),
      )

  -- When the remote store returns without an error before it has read the whole blob, which it may
  -- do for a blob that it holds already, the `Put` gives an error all the same, and the blob is not
  -- stored locally. (The local `Put` alone would meet no error, the blob is not held locally, and the
  -- temporary name is not its name.)
  pub proxy_put-early :
      (state : S) (files : FileSystem) (y : ReadFaults) (x : PutFaults) (temp path : FilePath)
      (now : ℕ) (digest : Digest) (reader : Reader)
      → blob_path local digest ≡ some path
      → path ≢ temp
      → files path ≡ none
      → (put_at x temp now digest reader path files).error ≡ none
      → (upload state digest reader.bytes).consumed < length reader.bytes
      → (upload state digest reader.bytes).error ≡ none
      → (files2 : FileSystem) × (e : Error) × (proxy_put remote local state files y x temp now
            digest reader
          ≡ some ((upload state digest reader.bytes).state, files2, some e))
        × (files2 path ≡ none)
  unfolding put_both
  proxy_put-early state files y x temp path now digest reader at ne absent fine few sent =
      let n = put_at-reads x temp now digest reader path files fine in
      let early : ltb (upload state digest reader.bytes).consumed (length reader.bytes) ≡ true =
        ground arith in
      let part : Reader = record {
        bytes = take (upload state digest reader.bytes).consumed reader.bytes;
        ends = some (pipe_error (upload state digest reader.bytes).error);
      } in
      let r = put_at x temp now digest part path files in
      elim (put_at-Published x temp now digest part path files ne) [
        | inl ((f, here, same, size, whole, _), _) ↦ absurd (cc)
        | inr ((e, bad), _, kept) ↦
            let first : Same (put_both remote local state files x temp now digest reader path) (
              (upload state digest reader.bytes).state,
              r.files,
              first_error r.error (upload state digest reader.bytes).error,
            ) =
              rw (put_both, n, take-all reader.bytes, fine, early) refl in
            (
              r.files,
              e,
              proxy_put-absent state files y x temp path now digest reader at absent
                  ∙ ap some (
                      first
                      ∙ ap
                          (λ b. (
                            (upload state digest reader.bytes).state,
                            r.files,
                            first_error b (upload state digest reader.bytes).error,
                          ))
                          bad),
              kept path ne ∙ absent,
            )
      ]
