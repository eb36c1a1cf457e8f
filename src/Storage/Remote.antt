-- ===== src/Storage/Remote.antt =====
-- pkg/storage/remote.go: `Put`, as the requests of a write stream and the server's answers, which may
-- depend on all requests so far. The reader is the list of what its reads give, after compression if
-- there is one, with the error that ends it (`none` for EOF).
pub mod Streams
use go_rego.Base.{
  ℕ, ◌+◌, Bool, true, false, not, Option, none, some, List, [], ◌∷◌, ◌++◌, ◌==◌, length,
  if◌then◌else◌,
}
use go_rego.Base.Text.{GoString}
use go_rego.Base.Integers.{ℤ, pos, negsuc}
use go_rego.Base.Results.{Error, plain, Result, ok, err}
use go_rego.Storage.Digests.{Digest}

pub record WriteRequest : Type 0 where
  pub resource_name : GoString
  pub write_offset : ℕ
  pub bytes : GoString
  pub finish_write : Bool

pub record WriteStream : Type 0 where
  -- The error of `Send` of the last request.
  pub send : List WriteRequest → Option Error
  -- The committed size that `CloseAndRecv` gives.
  pub close_and_recv : List WriteRequest → Result ℤ

abbrev pub is_size : ℤ → ℕ → Bool
is_size (pos n) size = n == size
is_size (negsuc n) size = false

unfoldable pub is_commit_successful : (zstd : Bool) → ℤ → Digest → Bool
is_commit_successful true committed d = not (is_size committed 0)
is_commit_successful false committed d = is_size committed d.size

module _ (stream : WriteStream) (zstd : Bool) (digest : Digest) (name : GoString) where
  -- After a failed `Send`: a commit that the server has made already is a success.
  abbrev pub early_answer : Error → Result ℤ → Option Error
  early_answer failed (err e) = some failed
  early_answer failed (ok committed) =
      if is_commit_successful zstd committed digest then none else some failed

  abbrev pub last_answer : Result ℤ → Option Error
  last_answer (err e) = some e
  last_answer (ok committed) =
      if is_commit_successful zstd committed digest then none else some plain

  abbrev pub request : ℕ → GoString → Bool → WriteRequest
  request offset bytes finish = record {
    resource_name = if offset == 0 then name else [];
    write_offset = offset;
    bytes = bytes;
    finish_write = finish;
  }

  unfoldable pub finish :
      (read_end : Option Error) → List WriteRequest → ℕ → List WriteRequest × Option Error
  finish (some e) sent offset = (sent, some e)
  finish none sent offset =
      let all = sent ++ (request offset [] true ∷ []) in
      (
        all,
        elim (stream.send all) [
          | some e ↦ early_answer e (stream.close_and_recv all)
          | none ↦ last_answer (stream.close_and_recv all)
        ],
      )

  -- The loop over the reads; a read without bytes sends nothing.
  unfoldable pub put_reads :
      (read_end : Option Error)
      → List GoString
      → List WriteRequest
      → ℕ
      → List WriteRequest × Option Error
  put_reads read_end [] sent offset = finish read_end sent offset
  put_reads read_end ([] ∷ reads) sent offset = put_reads read_end reads sent offset
  put_reads read_end ((b ∷ bs) ∷ reads) sent offset =
      let all = sent ++ (request offset (b ∷ bs) false ∷ []) in
      elim (stream.send all) [
        | some e ↦ (all, early_answer e (stream.close_and_recv all))
        | none ↦ put_reads read_end reads all (offset + length (b ∷ bs))
      ]

  unfoldable pub remote_put :
      (read_end : Option Error) → List GoString → List WriteRequest × Option Error
  remote_put read_end reads = put_reads read_end reads [] 0
