-- ===== src/Server/ByteStream/Downloads.antt =====
-- pkg/storage/remote.go and pkg/server/bytestream.go: a remote store in front of this service.
use go_rego.Base.{
  ℕ, zero, suc, ◌^◌, ◌≤◌, ◌<◌, ◌≡◌, refl, ap, ◌∙◌, Bool, false, none, List, [], ◌∷◌, ◌++◌, length,
  take, arith,
}
use go_rego.Base.Text.{GoString, codes}
use go_rego.Base.Results.{Result, ok}
use go_rego.Storage.Digests.{Digest}
use go_rego.Storage.Files.{Reader}
use go_rego.Storage.Downloads.{ReadClient, pipe_bytes, remote_get}
use go_rego.Server.ByteStream.{parse_resource_name, ReadRequest, read, limit_of}
use go_rego.Server.ByteStream.Streams.{joined, read-sent}

pipe_bytes-eq-joined : (ms : List GoString) → pipe_bytes ms ≡ joined ms
unfolding pipe_bytes
pipe_bytes-eq-joined [] = refl
pipe_bytes-eq-joined (m ∷ ms) = ap (λ s. m ++ s) (pipe_bytes-eq-joined ms)

take_all : (n : ℕ) (s : GoString) → length s ≤ n → take n s ≡ s
take_all zero [] h = refl
take_all (suc n) [] h = refl
take_all zero (c ∷ s) h = absurd (omega arith)
take_all (suc n) (c ∷ s) h = ap (λ t. c ∷ t) (take_all n s (omega arith))

-- The request of `Get`.
abbrev pub whole : GoString → ReadRequest
whole name = record { resource_name = name; read_offset = 0; read_limit = 0 }

-- `Get` of a remote store that is such a server gives the bytes of the blob that the server holds, and
-- ends without an error, however few bytes each call of the server's reader gives. (No compression is
-- set, the client makes a name that the server reads as that of the digest, no message is lost, and
-- the blob has less than 2 ^ 63 bytes.)
pub remote_get-read :
    (client : ReadClient) (get : Digest → Result (Reader × Bool)) (encode : Reader → Reader)
    (sizes : ℕ → ℕ) (name bytes : GoString) (digest : Digest) (seekable : Bool)
    → client.resource_name (codes "blobs") digest ≡ ok name
    → parse_resource_name name false ≡ ok (digest, false)
    → get digest ≡ ok (record { bytes = bytes; ends = none }, seekable)
    → client.read name ≡ ok (read get encode sizes (λ k. none) (whole name))
    → length bytes < 2 ^ 63
    → remote_get client false digest ≡ ok (record { bytes = bytes; ends = none })
unfolding remote_get
remote_get-read client get encode sizes name bytes digest seekable named parsed held served room =
    let (all, fine, _) =
      read-sent get encode sizes (whole name) digest bytes seekable parsed held (omega arith) in
    let sent = read get encode sizes (λ k. none) (whole name) in
    let got : pipe_bytes sent.0 ≡ bytes =
      pipe_bytes-eq-joined sent.0 ∙ all ∙ take_all (limit_of 0) bytes (omega arith) in
    rw (remote_get, named, served, got, fine) refl
