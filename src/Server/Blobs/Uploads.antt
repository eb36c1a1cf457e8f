-- ===== src/Server/Blobs/Uploads.antt =====
-- pkg/server/server.go: a client that uploads blobs and asks for the missing ones.
use go_rego.Base.{
  ◌≡◌, ◌≢◌, refl, ap, true, Option, none, some, List, [], ◌∷◌, Option-cases, inl, inr, All,
}
use go_rego.Base.Text.{GoString}
use go_rego.Base.Results.{Code, ok}
use go_rego.Storage.Digests.{Digest}
use go_rego.Server.Blobs.{
  BlobService, Upload, Answer, with_answer, find_missing_blobs, update_blob, batch_update_blobs,
}

-- The digests whose upload is reported as OK.
abbrev pub uploaded : List Answer → List Digest
uploaded [] = []
uploaded (a ∷ answers) = elim a.status [
  | some code ↦ uploaded answers
  | none ↦ a.digest ∷ uploaded answers
]

-- What the service relies on: a blob is there after its upload, and stays there under further calls.
pub record IsBlobService {S : Type 0} (store : BlobService S) : Type 0 where
  pub put-has :
      (s : S) (d : Digest) (b : GoString)
      → (store.put s d b).1 ≡ none
      → (store.has (store.put s d b).0 d).1 ≡ ok true
  pub put-keeps :
      (s : S) (d e : Digest) (b : GoString)
      → (store.has s e).1 ≡ ok true
      → (store.has (store.put s d b).0 e).1 ≡ ok true
  pub has-keeps :
      (s : S) (d e : Digest)
      → (store.has s e).1 ≡ ok true
      → (store.has (store.has s d).0 e).1 ≡ ok true

module _ {S : Type 0} (store : BlobService S) (laws : IsBlobService store) where
  abbrev Holds : S → Digest → Type 0
  Holds s d = (store.check d ≡ none) × ((store.has s d).1 ≡ ok true)

  update_blob-keeps :
      (s : S) (u : Upload) (e : Digest)
      → (store.has s e).1 ≡ ok true
      → (store.has (update_blob store s u).0 e).1 ≡ ok true
  unfolding update_blob
  update_blob-keeps s u e h = elim (Option-cases (store.check u.digest)) [
    | inr (er, c) ↦ rw (c, update_blob) h
    | inl c ↦ rw (c, update_blob) (laws.put-keeps s u.digest e u.bytes h)
  ]

  batch_update_blobs-keeps :
      (s : S) (us : List Upload) (e : Digest)
      → (store.has s e).1 ≡ ok true
      → (store.has (batch_update_blobs store s us).0 e).1 ≡ ok true
  unfolding batch_update_blobs
  batch_update_blobs-keeps s [] e h = h
  batch_update_blobs-keeps s (u ∷ us) e h =
      batch_update_blobs-keeps (update_blob store s u).0 us e (update_blob-keeps s u e h)

  update_blob-Holds :
      (s : S) (u : Upload)
      → (update_blob store s u).1 ≡ none
      → Holds (update_blob store s u).0 u.digest
  unfolding update_blob
  update_blob-Holds s u h = elim (Option-cases (store.check u.digest)) [
    | inr (er, c) ↦ absurd (wrong (rw (c, update_blob) at h))
    | inl c ↦ elim (Option-cases (store.put s u.digest u.bytes).1) [
      | inr (er, p) ↦ absurd (wrong (rw (c, update_blob, p) at h))
      | inl p ↦ (c, rw (c, update_blob) (laws.put-has s u.digest u.bytes p))
    ]
  ]
    where
      wrong : {c : Code} → ◌≢◌ {A = Option Code} (some c) none
      wrong e = cc

  batch_update_blobs-Holds :
      (s : S) (us : List Upload)
      → All (Holds (batch_update_blobs store s us).0) (uploaded (batch_update_blobs store s us).1)
  unfolding batch_update_blobs
  batch_update_blobs-Holds s [] = tt
  batch_update_blobs-Holds s (u ∷ us) =
      let s1 = (update_blob store s u).0 in
      elim (Option-cases (update_blob store s u).1) [
        | inr (code, e) ↦ rw (e, batch_update_blobs, uploaded) (batch_update_blobs-Holds s1 us)
        | inl e ↦
            let held = update_blob-Holds s u e in
            rw (e, batch_update_blobs, uploaded)
              (
                (held.0, batch_update_blobs-keeps s1 us u.digest held.1),
                batch_update_blobs-Holds s1 us,
              )
      ]

  has-All :
      (s : S) (d : Digest) (ds : List Digest) → All (Holds s) ds → All (Holds (store.has s d).0) ds
  has-All s d [] h = tt
  has-All s d (e ∷ ds) h = ((h.0.0, laws.has-keeps s d e h.0.1), has-All s d ds h.1)

  find_missing_blobs-All :
      (s : S) (ds : List Digest) → All (Holds s) ds → (find_missing_blobs store s ds).1 ≡ ok []
  unfolding find_missing_blobs
  find_missing_blobs-All s [] h = refl
  find_missing_blobs-All s (d ∷ ds) h =
      let rest = find_missing_blobs-All (store.has s d).0 ds (has-All s d ds h.1) in
      rw (h.0.0, find_missing_blobs, h.0.1) (ap (with_answer d (ok true)) rest)

  -- A client that asks, after a call of BatchUpdateBlobs, for the blobs whose upload was reported as OK
  -- is told that none of them is missing: on a store that holds a blob after its upload and keeps it.
  pub find_missing_blobs-batch_update_blobs :
      (s : S) (us : List Upload)
      → (find_missing_blobs store
          (batch_update_blobs store s us).0
          (uploaded (batch_update_blobs store s us).1)).1
        ≡ ok []
  find_missing_blobs-batch_update_blobs s us =
      find_missing_blobs-All (batch_update_blobs store s us).0
        (uploaded (batch_update_blobs store s us).1) (batch_update_blobs-Holds s us)
