-- ===== src/Storage/Downloads.antt =====
-- pkg/storage/remote.go: `Has` and `Get`. The SDK's client is an argument: the missing blobs, the
-- name of a resource, and the messages of a read stream with the error that ends them (`none` for
-- EOF), as is the decoder of zstd.
use go_rego.Base.{Bool, true, false, Option, List, [], ◌∷◌, ◌++◌, if◌then◌else◌}
use go_rego.Base.Text.{GoString, codes}
use go_rego.Base.Results.{Error, Result, ok, err}
use go_rego.Storage.Digests.{Digest}
use go_rego.Storage.Files.{Reader}

pub record ReadClient : Type 0 where
  pub missing_blobs : List Digest → Result (List Digest)
  pub resource_name : (kind : GoString) → Digest → Result GoString
  pub read : GoString → Result (List GoString × Option Error)
  pub new_decoder : Reader → Result Reader

abbrev pub no_digests : List Digest → Bool
no_digests [] = true
no_digests (d ∷ ds) = false

unfoldable pub remote_has : ReadClient → Digest → Result Bool
remote_has client digest = elim (client.missing_blobs (digest ∷ [])) [
  | err e ↦ err e
  | ok missing ↦ ok (no_digests missing)
]

-- What a reader of the pipe gets, to which the messages are written one by one.
unfoldable pub pipe_bytes : List GoString → GoString
pipe_bytes [] = []
pipe_bytes (m ∷ ms) = m ++ pipe_bytes ms

abbrev pub blob_kind : Bool → GoString
blob_kind zstd = if zstd then codes "compressed-blobs/zstd" else codes "blobs"

abbrev pub decoded : ReadClient → (zstd : Bool) → Reader → Result Reader
decoded client zstd reader = if zstd then client.new_decoder reader else ok reader

unfoldable pub remote_get : ReadClient → (zstd : Bool) → Digest → Result Reader
unfolding pipe_bytes
remote_get client zstd digest = elim (client.resource_name (blob_kind zstd) digest) [
  | err e ↦ err e
  | ok name ↦ elim (client.read name) [
    | err e ↦ err e
    | ok (messages, ends) ↦
        decoded client zstd (record { bytes = pipe_bytes messages; ends = ends })
  ]
]
