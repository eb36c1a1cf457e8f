-- ===== src/Server/Blobs.antt =====
-- pkg/server/server.go: `FindMissingBlobs` and `BatchUpdateBlobs`, over any blob store. `check` is the
-- check of a digest by the SDK.
pub mod Uploads
pub mod OnDisk
mod Examples
use go_rego.Base.{Bool, true, false, Option, none, some, List, [], ◌∷◌, if◌then◌else◌}
use go_rego.Base.Text.{GoString}
use go_rego.Base.Results.{Error, Code, status, Result, ok, err}
use go_rego.Storage.Digests.{Digest}

-- `BlobStore` with the calls that the service makes; a check may change access times.
pub record BlobService (S : Type 0) : Type 0 where
  pub check : Digest → Option Error
  pub has : S → Digest → S × Result Bool
  pub put : S → Digest → GoString → S × Option Error

-- An upload of the request; an answer with its status, `none` for OK.
pub record Upload : Type 0 where
  pub digest : Digest
  pub bytes : GoString

pub record Answer : Type 0 where
  pub digest : Digest
  pub status : Option Code

-- What `FindMissingBlobs` does with the store's answer, before the rest.
abbrev pub with_answer : Digest → Result Bool → Result (List Digest) → Result (List Digest)
with_answer d (err e) rest = err (status Code.internal)
with_answer d (ok exists) (err e) = err e
with_answer d (ok true) (ok missing) = ok missing
with_answer d (ok false) (ok missing) = ok (d ∷ missing)

module _ {S : Type 0} (store : BlobService S) where
  -- The loop returns at the first error, and the later calls of `Has` are not made.
  unfoldable pub find_missing_blobs : S → List Digest → S × Result (List Digest)
  find_missing_blobs s [] = (s, ok [])
  find_missing_blobs s (d ∷ ds) = elim (store.check d) [
    | some e ↦ (s, err (status Code.invalid_argument))
    | none ↦
        let (s1, answer) = store.has s d in
        elim answer [
          | err e ↦ (s1, err (status Code.internal))
          | ok exists ↦
              let (s2, rest) = find_missing_blobs s1 ds in (s2, with_answer d (ok exists) rest)
        ]
  ]

  -- One request of `BatchUpdateBlobs`.
  unfoldable pub update_blob : S → Upload → S × Option Code
  update_blob s u = elim (store.check u.digest) [
    | some e ↦ (s, some Code.invalid_argument)
    | none ↦
        let (s1, failed) = store.put s u.digest u.bytes in
        (s1, elim failed [ some e ↦ some Code.internal | none ↦ none ])
  ]

  unfoldable pub batch_update_blobs : S → List Upload → S × List Answer
  batch_update_blobs s [] = (s, [])
  batch_update_blobs s (u ∷ us) =
      let (s1, code) = update_blob s u in
      let (s2, answers) = batch_update_blobs s1 us in
      (s2, record { digest = u.digest; status = code } ∷ answers)
