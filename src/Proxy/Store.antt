-- ===== src/Proxy/Store.antt =====
-- pkg/proxy/proxy.go: `Has`, `Get`, `Put` and `PutFile`'s uploads. Calls for one blob that run at
-- once share one execution; that one is modelled here. Of an operation `none` says that the program
-- panics, as in pkg/storage/local.go.
use go_rego.Base.{
  ℕ, zero, suc, Bool, true, false, Option, none, some, ltb, min, if◌then◌else◌, length, take,
}
use go_rego.Base.Text.{GoString}
use go_rego.Base.Results.{Error, external, Result, ok, err}
use go_rego.Storage.Digests.{Digest}
use go_rego.Storage.Files.{FilePath, FileSystem, Reader}
use go_rego.Storage.Local.{
  LocalStore, PutFaults, ReadFaults, PutResult, blob_path, put_at, has_at, get_at,
}

-- What a remote `Put` gives: the bytes that it took from the reader, and its error.
pub record Upload (S : Type 0) : Type 0 where
  pub state : S
  pub consumed : ℕ
  pub error : Option Error

-- A `storage.BlobStore`, with the state that it keeps elsewhere.
pub record Remote (S : Type 0) : Type 0 where
  pub has : S → Digest → Result Bool
  pub get : S → Digest → Result Reader
  pub put : S → Digest → Reader → Upload S

-- `io.ErrClosedPipe`
abbrev pub closed_pipe : Error
closed_pipe = external 0

-- The bytes that the local `Put` reads before it returns.
unfoldable pub local_reads : PutFaults → GoString → ℕ
local_reads x bytes =
    let all = length bytes in
    elim x.mkdir_all [
      | some _ ↦ 0
      | none ↦ elim x.create_temp [
        | some _ ↦ 0
        | none ↦ elim x.write [ none ↦ all | some (n, _) ↦ min n all ]
      ]
    ]

-- An error of either side, the local one first.
abbrev pub first_error : Option Error → Option Error → Option Error
first_error (some e) _ = some e
first_error none e = e

-- What the writer to a pipe gets after `pr.CloseWithError(err)`.
abbrev pub pipe_error : Option Error → Error
pipe_error none = closed_pipe
pipe_error (some e) = e

-- What the remote store reads from the pipe, if it reads to the end.
abbrev pub piped : PutResult → ℕ → Reader → Reader
piped r n reader = record { bytes = take n reader.bytes; ends = r.error }

abbrev pub is_ok_true : Result Bool → Bool
is_ok_true (ok b) = b
is_ok_true (err _) = false

module _ {S : Type 0} (remote : Remote S) (local : LocalStore) where
  -- `io.TeeReader` gives to the local store what it has written to the pipe. If the remote store
  -- returns before it has read all that, the next write to the pipe fails, and so does the local
  -- `Put`.
  unfoldable pub put_both :
      S
      → FileSystem
      → PutFaults
      → FilePath
      → ℕ
      → Digest
      → Reader
      → FilePath
      → S × FileSystem × Option Error
  unfolding local_reads put_at
  put_both state files x temp now digest reader path =
      let n = local_reads x reader.bytes in
      let whole = put_at x temp now digest reader path files in
      let up = remote.put state digest (piped whole n reader) in
      let part : Reader = record {
        bytes = take up.consumed reader.bytes;
        ends = some (pipe_error up.error);
      } in
      let stopped = put_at x temp now digest part path files in
      if ltb up.consumed n
      then (up.state, stopped.files, first_error stopped.error up.error)
      else (up.state, whole.files, first_error whole.error up.error)

  abbrev pub proxy_put_at :
      S
      → FileSystem
      → ReadFaults
      → PutFaults
      → FilePath
      → ℕ
      → Digest
      → Reader
      → FilePath
      → S × FileSystem × Option Error
  proxy_put_at state files y x temp now digest reader path =
      let seen = has_at local files y now path in
      let both = put_both state seen.0 x temp now digest reader path in
      if is_ok_true seen.1 then (state, seen.0, none) else both

  -- `Put`, with the early check.
  unfoldable pub proxy_put :
      S
      → FileSystem
      → ReadFaults
      → PutFaults
      → FilePath
      → ℕ
      → Digest
      → Reader
      → Option (S × FileSystem × Option Error)
  unfolding has_at put_both
  proxy_put state files y x temp now digest reader = elim (blob_path local digest) [
    | none ↦ none
    | some path ↦ some (proxy_put_at state files y x temp now digest reader path)
  ]

  abbrev pub has_remote : S → Digest → FileSystem × Result Bool → FileSystem × Result Bool
  has_remote state digest (files, err e) = (files, err e)
  has_remote state digest (files, ok true) = (files, ok true)
  has_remote state digest (files, ok false) = (files, remote.has state digest)

  unfoldable pub proxy_has :
      S → FileSystem → ReadFaults → ℕ → Digest → Option (FileSystem × Result Bool)
  unfolding has_at
  proxy_has state files y now digest = elim (blob_path local digest) [
    | none ↦ none
    | some path ↦ some (has_remote state digest (has_at local files y now path))
  ]

  -- The fetch from the remote store into the local one, and the local handle.
  unfoldable pub fetch :
      S
      → FileSystem
      → PutFaults
      → ReadFaults
      → FilePath
      → ℕ
      → Digest
      → FilePath
      → FileSystem × Result Reader
  unfolding put_at get_at
  fetch state files x y temp now digest path = elim (remote.get state digest) [
    | err e ↦ (files, err e)
    | ok reader ↦
        let r = put_at x temp now digest reader path files in
        elim r.error [ some e ↦ (r.files, err e) | none ↦ get_at local r.files y now path ]
  ]

  abbrev pub proxy_get_at :
      S
      → FileSystem
      → ReadFaults
      → PutFaults
      → ReadFaults
      → FilePath
      → ℕ
      → Digest
      → FilePath
      → FileSystem × Result Reader
  proxy_get_at state files z x y temp now digest path =
      let seen = has_at local files z now path in
      let fetched = fetch state seen.0 x y temp now digest path in
      let held = get_at local seen.0 y now path in if is_ok_true seen.1 then held else fetched

  unfoldable pub proxy_get :
      S
      → FileSystem
      → ReadFaults
      → PutFaults
      → ReadFaults
      → FilePath
      → ℕ
      → Digest
      → Option (FileSystem × Result Reader)
  unfolding has_at get_at fetch
  proxy_get state files z x y temp now digest = elim (blob_path local digest) [
    | none ↦ none
    | some path ↦ some (proxy_get_at state files z x y temp now digest path)
  ]

  -- The uploads of `putFileImpl`: `opens` gives the answers to `os.Open` and `cancelled` the errors of
  -- the context, attempt by attempt.
  unfoldable pub upload_attempts :
      S
      → Digest
      → (ℕ → Result Reader)
      → (ℕ → Option Error)
      → (attempt left : ℕ) → Option Error
      → S × Option Error
  upload_attempts state digest opens cancelled attempt zero last = (state, last)
  upload_attempts state digest opens cancelled attempt (suc left) last = elim (opens attempt) [
    | err e ↦ (state, some e)
    | ok reader ↦
        let up = remote.put state digest reader in
        let again = upload_attempts up.state digest opens cancelled (suc attempt) left up.error in
        elim up.error [
          | none ↦ (up.state, none)
          | some e ↦ elim (cancelled attempt) [ some c ↦ (up.state, some c) | none ↦ again ]
        ]
  ]
