-- ===== src/Storage/Atomicity.antt =====
-- pkg/storage/local.go: what a `Put` leaves on the disk, whatever the operating system answers.
use go_rego.Base.{
  ℕ, ◌≡◌, ◌≢◌, ◌⊎◌, inl, inr, refl, ap, ◌∙◌, true, false, Option, none, some, ◌==◌, length, arith,
  Bool-cases, Option-cases,
}
use go_rego.Base.Results.{Error, wrapped, plain, ok}
use go_rego.Storage.Digests.{Digest}
use go_rego.Storage.Files.{File, FilePath, FileSystem, store_file, Reader, path_eq_iff}
use go_rego.Storage.Local.{
  LocalStore, PutFaults, ReadFaults, PutResult, blob_path, copied, cleaned, publish, put_at, put,
  has, get, has_at, get_at, open_file,
}

-- The files are those of before, but for the temporary file.
abbrev Kept : FilePath → FileSystem → FileSystem → Type 0
Kept temp files after = (q : FilePath) → q ≢ temp → after q ≡ files q

pub store_file-here :
    (files : FileSystem) (p : FilePath) (f : Option File) → store_file files p f p ≡ f
store_file-here files p f = ground (arith, path_eq_iff p p)

pub store_file-other :
    (files : FileSystem) (p q : FilePath) (f : Option File)
    → q ≢ p
    → store_file files p f q ≡ files q
store_file-other files p q f ne = ground (arith, path_eq_iff p q)

-- A whole blob stands at the path, and other files are those of before.
abbrev pub Published : FilePath → FilePath → Digest → Reader → FileSystem → PutResult → Type 0
Published temp path digest reader files r =
    ((f : File) × (r.files path ≡ some f)
      × (f.contents ≡ reader.bytes)
      × (length reader.bytes ≡ digest.size)
      × (reader.ends ≡ none)
      × (((r.error ≡ none) × (r.notified ≡ true) × (f.read_only ≡ true))
          ⊎ (((e : Error) × (r.error ≡ some e)) × (r.notified ≡ false))))
    × ((q : FilePath) → q ≢ temp → q ≢ path → r.files q ≡ files q)

abbrev pub Refused : FilePath → FileSystem → PutResult → Type 0
Refused temp files r =
    ((e : Error) × (r.error ≡ some e)) × (r.notified ≡ false) × Kept temp files r.files

cleaned-other :
    (files : FileSystem) (x : PutFaults) (temp q : FilePath)
    → q ≢ temp
    → cleaned files x temp q ≡ files q
cleaned-other files x temp q ne = elim (Option-cases x.remove) [
  | inl e ↦ rw e (store_file-other files temp q none ne)
  | inr (er, e) ↦ rw e refl
]

publish-Published :
    (x : PutFaults) (temp path : FilePath) (f : File) (written files : FileSystem) (digest : Digest)
    (reader : Reader)
    → path ≢ temp
    → f.contents ≡ reader.bytes
    → length reader.bytes ≡ digest.size
    → reader.ends ≡ none
    → Kept temp files written
    → Published temp path digest reader files (publish x temp path f written)
      ⊎ Refused temp files (publish x temp path f written)
unfolding publish
publish-Published x temp path f written files digest reader ne same size ends kept =
    let one = store_file written path (some f) in
    let moved = store_file one temp none in
    let same_moved : (q : FilePath) → q ≢ temp → q ≢ path → moved q ≡ files q = λ q n m.
      store_file-other one temp q none n ∙ store_file-other written path q (some f) m ∙ kept q n in
    elim (Option-cases x.rename) [
      | inl e ↦ elim (Option-cases x.chmod) [
        | inl c ↦
            let final : File = record f { read_only = true } in
            rw (e, c, publish)
              (inl (
                (
                  final,
                  store_file-here moved path (some final),
                  same,
                  size,
                  ends,
                  inl (refl, refl, refl),
                ),
                λ q n m. store_file-other moved path q (some final) m ∙ same_moved q n m,
              ))
        | inr (er, c) ↦
            rw (e, c, publish)
              (inl (
                (
                  f,
                  store_file-other one temp path none ne ∙ store_file-here written path (some f),
                  same,
                  size,
                  ends,
                  inr ((wrapped er, refl), refl),
                ),
                same_moved,
              ))
      ]
      | inr (er, e) ↦
          rw (e, publish)
            (inr ((wrapped er, refl), refl, λ q n. cleaned-other written x temp q n ∙ kept q n))
    ]

-- With an error the copy is refused; otherwise it holds the bytes of the reader.
copied-none :
    (x : PutFaults) (reader : Reader)
    → (copied x reader).1 ≡ none
    → ((copied x reader).0 ≡ reader.bytes) × (reader.ends ≡ none)
unfolding copied
copied-none x reader h = ground arith

pub put_at-Published :
    (x : PutFaults) (temp : FilePath) (now : ℕ) (digest : Digest) (reader : Reader)
    (path : FilePath) (files : FileSystem)
    → path ≢ temp
    → Published temp path digest reader files (put_at x temp now digest reader path files)
      ⊎ Refused temp files (put_at x temp now digest reader path files)
unfolding put_at
put_at-Published x temp now digest reader path files ne = elim (Option-cases x.mkdir_all) [
  | inr (er, e) ↦ rw (e, put_at) (inr ((wrapped er, refl), refl, λ q n. refl))
  | inl e ↦ elim (Option-cases x.create_temp) [
    | inr (er, c) ↦ rw (e, c, put_at) (inr ((wrapped er, refl), refl, λ q n. refl))
    | inl c ↦ elim (Option-cases (copied x reader).1) [
      | inr (er, w) ↦ rw (e, c, w, put_at) (inr ((wrapped er, refl), refl, dropped))
      | inl w ↦
          let (same, ends) = copied-none x reader w in
          elim (Bool-cases (length (copied x reader).0 == digest.size)) [
            | inr m ↦ rw (e, c, w, m, put_at) (inr ((plain, refl), refl, dropped))
            | inl m ↦ elim (Option-cases x.close) [
              | inr (er, k) ↦ rw (e, c, w, m, k, put_at) (inr ((wrapped er, refl), refl, dropped))
              | inl k ↦
                  rw (e, c, w, m, k, put_at)
                    (publish-Published x temp path f written files digest reader ne same
                      (rw (← same) (ground arith)) ends
                      (λ q n. store_file-other files temp q (some f) n))
            ]
          ]
    ]
  ]
]
  where
    f : File
    f = record { contents = (copied x reader).0; read_only = false; access_time = now }

    written : FileSystem
    written = store_file files temp (some f)

    dropped : Kept temp files (cleaned written x temp)
    dropped q n = cleaned-other written x temp q n ∙ store_file-other files temp q (some f) n

pub has_at-found :
    (s : LocalStore) (files : FileSystem) (y : ReadFaults) (later : ℕ) (path : FilePath) (f : File)
    → y.opening ≡ none
    → files path ≡ some f
    → (has_at s files y later path).1 ≡ ok true
unfolding has_at open_file
has_at-found s files y later path f opens here = rw (opens, here, has_at, open_file) refl

pub get_at-found :
    (s : LocalStore) (files : FileSystem) (y : ReadFaults) (later : ℕ) (path : FilePath) (f : File)
    → y.opening ≡ none
    → files path ≡ some f
    → (get_at s files y later path).1 ≡ ok (record { bytes = f.contents; ends = none })
unfolding get_at open_file
get_at-found s files y later path f opens here = rw (opens, here, get_at, open_file) refl

-- A `Put` that returns, whatever the calls of the operating system answer, either refuses the blob,
-- with an error and without a notification, and then leaves every file but the temporary one as it
-- was; or the whole blob stands at its path, of the size that the digest states and from a reader
-- that ended without an error, and every other file but the temporary one is as it was. In the
-- second case the call succeeds, the file is read-only and the callback ran, or only the
-- change of the mode failed, and the call gives an error. The temporary name is not the blob's.
pub put-atomic :
    (s : LocalStore) (files : FileSystem) (x : PutFaults) (temp path : FilePath) (now : ℕ)
    (digest : Digest) (reader : Reader)
    → blob_path s digest ≡ some path
    → path ≢ temp
    → (r : PutResult) × (put s files x temp now digest reader ≡ some r)
      × (Published temp path digest reader files r ⊎ Refused temp files r)
unfolding put
put-atomic s files x temp path now digest reader e ne = (
  put_at x temp now digest reader path files,
  rw (e, put) refl,
  put_at-Published x temp now digest reader path files ne,
)

-- After a `Put` without an error, `Has` finds the blob and `Get` gives the bytes of the reader, if
-- the file can be opened. The temporary name is not the blob's.
pub put-get :
    (s : LocalStore) (files : FileSystem) (x : PutFaults) (temp path : FilePath) (now later : ℕ)
    (digest : Digest) (reader : Reader) (y : ReadFaults) (r : PutResult)
    → blob_path s digest ≡ some path
    → path ≢ temp
    → put s files x temp now digest reader ≡ some r
    → r.error ≡ none
    → y.opening ≡ none
    → ((t : FileSystem) × (has s r.files y later digest ≡ some (t, ok true)))
      × ((t : FileSystem) × (get s r.files y later digest
            ≡ some (t, ok (record { bytes = reader.bytes; ends = none }))))
unfolding put has get
put-get s files x temp path now later digest reader y r e ne h success opens =
    elim (put_at-Published x temp now digest reader path files ne) [
      | inl ((f, here, same, _, _, _), _) ↦
          let there : r.files path ≡ some f = rw (← same_r) here in
          (
            (
              (has_at s r.files y later path).0,
              rw (e, has)
                  (ap (λ b. some ((has_at s r.files y later path).0, b))
                    (has_at-found s r.files y later path f opens there)),
            ),
            (
              (get_at s r.files y later path).0,
              rw (e, get)
                  (ap (λ b. some ((get_at s r.files y later path).0, b))
                    (rw (← same) (get_at-found s r.files y later path f opens there))),
            ),
          )
      | inr ((er, bad), _, _) ↦ absurd (cc)
    ]
  where
    same_r : put_at x temp now digest reader path files ≡ r
    same_r = ground arith
