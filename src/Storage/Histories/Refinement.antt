-- ===== src/Storage/Histories/Refinement.antt =====
-- pkg/storage/local.go: the store as a map from hashes to bytes.
use go_rego.Base.{
  ℕ, ◌≡◌, ◌≢◌, subst, sym, refl, ap, ◌∙◌, inl, inr, true, false, none, some, List, [], ◌∷◌, length,
  ltb, arith, Bool-cases, Option-cases,
}
use mathlib.Core.Path.{fun_ext}
use go_rego.Base.Lists.{All}
use go_rego.Base.Text.{GoString, str_eq, str_eq_iff}
use go_rego.Storage.Digests.{Digest}
use go_rego.Storage.Files.{File, FilePath, FileSystem, Reader, path_eq_iff}
use go_rego.Storage.Local.{
  LocalStore, PutFaults, ReadFaults, blob_path, has, get, put, put_at, has_at, get_at, open_file,
  after_open,
}
use go_rego.Storage.Atomicity.{put_at-Published}
use go_rego.Storage.Histories.{
  StoreCall, puts, asks, gets, answer, answers, with_blob, Abides, put_whole, put_refused,
  has_known, has_failed, get_known, get_failed, panicked, AbideAll, no_calls, next_call, view,
  contents_at, contents_of, hash_of,
}

plain_digest : GoString → Digest
plain_digest hash = record { hash = hash; size = 0 }

blob_path-hash : (s : LocalStore) (d : Digest) → blob_path s d ≡ blob_path s (plain_digest d.hash)
unfolding blob_path plain_digest
blob_path-hash s d = refl

blob_path-injective :
    (s : LocalStore) (d e : Digest) (p : FilePath)
    → blob_path s d ≡ some p
    → blob_path s e ≡ some p
    → d.hash ≡ e.hash
unfolding blob_path
blob_path-injective s d e p hd he = ground arith

-- The temporary file of a call is not the file of a blob.
abbrev pub IsApart : LocalStore → StoreCall → Type 0
IsApart s (puts x temp now digest reader) = (d : Digest) → blob_path s d ≢ some temp
IsApart s _ = Unit

module _ (s : LocalStore) where
  view-found :
      (files : FileSystem) (d : Digest) (path : FilePath)
      → blob_path s d ≡ some path
      → view s files d.hash ≡ contents_of (files path)
  unfolding plain_digest
  view-found files d path e =
      let at : blob_path s (plain_digest d.hash) ≡ some path = sym (blob_path-hash s d) ∙ e in
      ap (contents_at files) at

  view-cong :
      (files after : FileSystem) (k : GoString)
      → ((q : FilePath)
          → blob_path s (plain_digest k) ≡ some q
          → contents_of (after q) ≡ contents_of (files q))
      → view s after k ≡ view s files k
  unfolding plain_digest
  view-cong files after k h = elim (Option-cases (blob_path s (plain_digest k))) [
    | inl short ↦ rw short refl
    | inr (q, at) ↦ rw at (h q at)
  ]

  view-put :
      (files after : FileSystem) (d : Digest) (temp path : FilePath) (f : File) (bytes : GoString)
      → blob_path s d ≡ some path
      → ((e : Digest) → blob_path s e ≢ some temp)
      → after path ≡ some f
      → f.contents ≡ bytes
      → ((q : FilePath) → q ≢ temp → q ≢ path → after q ≡ files q)
      → view s after ≡ with_blob (view s files) d.hash bytes
  unfolding plain_digest
  view-put files after d temp path f bytes at apart here same others = fun_ext λ k.
      elim (Bool-cases (str_eq d.hash k)) [
        | inl hit ↦
            let e : d.hash ≡ k = ground (arith, str_eq_iff d.hash k) in
            let there : view s after k ≡ some bytes =
              subst (λ j. view s after j ≡ some bytes) e
                (view-found after d path at ∙ rw here (ap some same)) in
            rw hit there
        | inr miss ↦ rw miss (
            view-cong files after k (λ q e. ap contents_of (
              others q (λ h. apart (plain_digest k) (e ∙ ap some h))
                (λ h. absurd (
                  wrong k miss
                    (blob_path-injective s d (plain_digest k) path at (e ∙ ap some h)))))))
      ]
    where
      wrong : (k : GoString) → str_eq d.hash k ≡ false → d.hash ≢ k
      wrong k miss e = ground (arith, str_eq_iff d.hash k)

  view-kept :
      (files after : FileSystem) (temp : FilePath)
      → ((e : Digest) → blob_path s e ≢ some temp)
      → ((q : FilePath) → q ≢ temp → after q ≡ files q)
      → view s after ≡ view s files
  view-kept files after temp apart others = fun_ext λ k.
      view-cong files after k
        λ q e. ap contents_of (others q λ h. apart (plain_digest k) (e ∙ ap some h))

  -- A change of the access time is not seen.
  view-after_open :
      (files : FileSystem) (x : ReadFaults) (now : ℕ) (path : FilePath) (f : File)
      → files path ≡ some f
      → view s (after_open files x s.force_update_a_time now path f) ≡ view s files
  view-after_open files x now path f here = fun_ext λ k. view-cong files _ k λ q e.
      elim (Option-cases x.chtimes) [
        | inr (er, c) ↦ rw c refl
        | inl c ↦ elim (Bool-cases s.force_update_a_time) [
          | inr lazy ↦ rw (c, lazy) refl
          | inl eager ↦ rw (c, eager) (ground (arith, path_eq_iff path q))
        ]
      ]

  answer-put :
      (files : FileSystem) (x : PutFaults) (temp path : FilePath) (now : ℕ) (d : Digest)
      (reader : Reader)
      → blob_path s d ≡ some path
      → ((e : Digest) → blob_path s e ≢ some temp)
      → Abides
          (view s files)
          (puts x temp now d reader)
          (answer s files (puts x temp now d reader)).1
          (view s (answer s files (puts x temp now d reader)).0)
  unfolding answer put
  answer-put files x temp path now d reader at apart =
      rw (answer, put, at)
        (elim (put_at-Published x temp now d reader path files (λ e. apart d (at ∙ ap some e))) [
          | inl ((f, here, same, size, ends, _), others) ↦
              rw
                (view-put files (put_at x temp now d reader path files).files d temp path f
                  reader.bytes at apart here same others)
                (put_whole ends size)
          | inr ((e, failed), _, others) ↦
              rw
                (
                  failed,
                  view-kept files (put_at x temp now d reader path files).files temp apart others,
                )
                put_refused
        ])

  abbrev opened : ReadFaults → ReadFaults
  opened x = record { opening = none; chtimes = x.chtimes }

  answer-has :
      (files : FileSystem) (x : ReadFaults) (now : ℕ) (d : Digest) (path : FilePath)
      → blob_path s d ≡ some path
      → Abides
          (view s files)
          (asks x now d)
          (answer s files (asks x now d)).1
          (view s (answer s files (asks x now d)).0)
  unfolding answer has has_at open_file
  answer-has files x now d path at = elim (Option-cases x.opening) [
    | inr (e, fault) ↦ rw (answer, has, at, has_at, open_file, fault) (has_failed refl)
    | inl opens ↦ elim (Option-cases (files path)) [
      | inl absent ↦
          let m : view s files d.hash ≡ none = view-found files d path at ∙ rw absent refl in
          rw (answer, has, at, has_at, open_file, opens, absent)
            (rw m at (has_known {m = view s files} {x = opened x} {now = now} {digest = d} refl))
      | inr (f, there) ↦
          let m : view s files d.hash ≡ some f.contents =
            view-found files d path at ∙ rw there refl in
          rw
            (
              answer,
              has,
              at,
              has_at,
              open_file,
              opens,
              there,
              view-after_open files x now path f there,
            )
            (rw m at (has_known {m = view s files} {x = opened x} {now = now} {digest = d} refl))
    ]
  ]

  answer-get :
      (files : FileSystem) (x : ReadFaults) (now : ℕ) (d : Digest) (path : FilePath)
      → blob_path s d ≡ some path
      → Abides
          (view s files)
          (gets x now d)
          (answer s files (gets x now d)).1
          (view s (answer s files (gets x now d)).0)
  unfolding answer get get_at open_file
  answer-get files x now d path at = elim (Option-cases x.opening) [
    | inr (e, fault) ↦ rw (answer, get, at, get_at, open_file, fault) (get_failed refl)
    | inl opens ↦ elim (Option-cases (files path)) [
      | inl absent ↦
          let m : view s files d.hash ≡ none = view-found files d path at ∙ rw absent refl in
          rw (answer, get, at, get_at, open_file, opens, absent)
            (rw m at (get_known {m = view s files} {x = opened x} {now = now} {digest = d} refl))
      | inr (f, there) ↦
          let m : view s files d.hash ≡ some f.contents =
            view-found files d path at ∙ rw there refl in
          rw
            (
              answer,
              get,
              at,
              get_at,
              open_file,
              opens,
              there,
              view-after_open files x now path f there,
            )
            (rw m at (get_known {m = view s files} {x = opened x} {now = now} {digest = d} refl))
    ]
  ]

  answer-short :
      (files : FileSystem) (c : StoreCall)
      → ltb (length (hash_of c)) 4 ≡ true
      → Abides (view s files) c (answer s files c).1 (view s (answer s files c).0)
  unfolding answer put has get blob_path
  answer-short files (puts x temp now d reader) short =
      rw (answer, put, blob_path, short) (panicked (ground arith))
  answer-short files (asks x now d) short =
      rw (answer, has, blob_path, short) (panicked (ground arith))
  answer-short files (gets x now d) short =
      rw (answer, get, blob_path, short) (panicked (ground arith))

  answer-path :
      (files : FileSystem) (c : StoreCall) (path : FilePath)
      → IsApart s c
      → blob_path s (plain_digest (hash_of c)) ≡ some path
      → Abides (view s files) c (answer s files c).1 (view s (answer s files c).0)
  answer-path files (puts x temp now d reader) path apart at =
      answer-put files x temp path now d reader (blob_path-hash s d ∙ at) apart
  answer-path files (asks x now d) path apart at =
      answer-has files x now d path (blob_path-hash s d ∙ at)
  answer-path files (gets x now d) path apart at =
      answer-get files x now d path (blob_path-hash s d ∙ at)

  long_path :
      (hash : GoString)
      → ltb (length hash) 4 ≡ false
      → (path : FilePath) × (blob_path s (plain_digest hash) ≡ some path)
  unfolding blob_path plain_digest
  long_path hash long = elim (Option-cases (blob_path s (plain_digest hash))) [
    | inl short ↦ absurd (ground arith)
    | inr at ↦ at
  ]

  answer-Abides :
      (files : FileSystem) (c : StoreCall)
      → IsApart s c
      → Abides (view s files) c (answer s files c).1 (view s (answer s files c).0)
  answer-Abides files c apart = elim (Bool-cases (ltb (length (hash_of c)) 4)) [
    | inl short ↦ answer-short files c short
    | inr long ↦ let (path, at) = long_path (hash_of c) long in answer-path files c path apart at
  ]

  -- The local store refines a map from hashes to bytes: over every history of `Put`, `Has` and `Get`,
  -- whatever the operating system answers to each, its replies are those that the map abides by, and
  -- the files stand for the map again. (No temporary file has the name of a blob's file.)
  pub answers-AbideAll :
      (files : FileSystem) (cs : List StoreCall)
      → All (IsApart s) cs
      → AbideAll (view s files) cs (answers s files cs).1 (view s (answers s files cs).0)
  unfolding answers
  answers-AbideAll files [] apart = no_calls
  answers-AbideAll files (c ∷ cs) (here, later) =
      next_call (answer-Abides files c here) (answers-AbideAll (answer s files c).0 cs later)
