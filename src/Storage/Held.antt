-- ===== src/Storage/Held.antt =====
-- pkg/storage/local.go: the files that calls for any blob leave at a path.
use go_rego.Base.{
  ℕ, ◌≡◌, ◌≢◌, refl, ap, sym, ◌∙◌, Bool, true, false, some, Bool-cases, Option-cases, inl, inr,
}
use go_rego.Base.Results.{Error, Result, ok, err}
use go_rego.Storage.Digests.{Digest}
use go_rego.Storage.Files.{File, FilePath, FileSystem, Reader, path_eq, path_eq_iff, store_file}
use go_rego.Storage.Local.{
  LocalStore, PutFaults, ReadFaults, put_at, has_at, get_at, open_file, after_open, is_not_exist,
}
use go_rego.Storage.Atomicity.{put_at-Published}

-- A file with the same bytes.
abbrev pub Keeps : FileSystem → FilePath → File → Type 0
Keeps files q f = (g : File) × (files q ≡ some g) × (g.contents ≡ f.contents)

after_open-Keeps :
    (files : FileSystem) (y : ReadFaults) (force : Bool) (now : ℕ) (path q : FilePath) (e f : File)
    → files path ≡ some e
    → files q ≡ some f
    → Keeps (after_open files y force now path e) q f
unfolding store_file
after_open-Keeps files y force now path q e f opened here = elim (Option-cases y.chtimes) [
  | inr (er, c) ↦ (f, rw c here, refl)
  | inl c ↦ elim (Bool-cases force) [
    | inr b ↦ (f, rw (c, b) here, refl)
    | inl b ↦ elim (Bool-cases (path_eq path q)) [
      | inr other ↦ (f, rw (c, b, other) here, refl)
      | inl same ↦
          let at : path ≡ q = (path_eq_iff path q).0 same in
          let both : ◌≡◌ (some e) (some f) = sym opened ∙ ap files at ∙ here in
          let it : e ≡ f = cc in
          (record e { access_time = now }, rw (c, b, same) refl, ap (λ x. x.contents) it)
    ]
  ]
]

-- `Has` changes at most access times.
pub has_at-Keeps :
    (s : LocalStore) (files : FileSystem) (y : ReadFaults) (now : ℕ) (path q : FilePath) (f : File)
    → files q ≡ some f
    → Keeps (has_at s files y now path).0 q f
unfolding has_at open_file
has_at-Keeps s files y now path q f here = elim (Option-cases y.opening) [
  | inr (e, o) ↦ (f, rw (o, has_at, open_file) here, refl)
  | inl o ↦ elim (Option-cases (files path)) [
    | inl absent ↦ (f, rw (o, absent, has_at, open_file) here, refl)
    | inr (e, opened) ↦
        rw (o, opened, has_at, open_file)
          (after_open-Keeps files y s.force_update_a_time now path q e f opened here)
  ]
]

pub get_at-Keeps :
    (s : LocalStore) (files : FileSystem) (y : ReadFaults) (now : ℕ) (path q : FilePath) (f : File)
    → files q ≡ some f
    → Keeps (get_at s files y now path).0 q f
unfolding get_at open_file
get_at-Keeps s files y now path q f here = elim (Option-cases y.opening) [
  | inr (e, o) ↦ (f, rw (o, get_at, open_file) here, refl)
  | inl o ↦ elim (Option-cases (files path)) [
    | inl absent ↦ (f, rw (o, absent, get_at, open_file) here, refl)
    | inr (e, opened) ↦
        rw (o, opened, get_at, open_file)
          (after_open-Keeps files y s.force_update_a_time now path q e f opened here)
  ]
]

-- Where `Has` says yes, there is a file.
pub has_at-true :
    (s : LocalStore) (files : FileSystem) (y : ReadFaults) (now : ℕ) (path : FilePath)
    → (has_at s files y now path).1 ≡ ok true
    → (f : File) × (files path ≡ some f)
unfolding has_at open_file
has_at-true s files y now path h = elim (Option-cases (files path)) [
  | inr (f, here) ↦ (f, here)
  | inl absent ↦ absurd (elim (Option-cases y.opening) [
    | inl o ↦ wrong (rw (o, absent, has_at, open_file, is_not_exist) at h)
    | inr (e, o) ↦ elim (Bool-cases (is_not_exist e)) [
      | inl gone ↦ wrong (rw (o, has_at, open_file, gone) at h)
      | inr bad ↦ failed (rw (o, has_at, open_file, bad) at h)
    ]
  ])
]
  where
    wrong : ok false ≢ ok true
    wrong e = cc

    failed : {e : Error} → ◌≢◌ {A = Result Bool} (err e) (ok true)
    failed e = cc

-- `Put` of any blob leaves a file wherever there was one, and other files as they were.
pub put_at-other :
    (x : PutFaults) (temp : FilePath) (now : ℕ) (digest : Digest) (reader : Reader)
    (path q : FilePath) (files : FileSystem) (f : File)
    → path ≢ temp
    → q ≢ temp
    → q ≢ path
    → files q ≡ some f
    → (put_at x temp now digest reader path files).files q ≡ some f
put_at-other x temp now digest reader path q files f ne nq other here =
    elim (put_at-Published x temp now digest reader path files ne) [
      | inl (_, same) ↦ same q nq other ∙ here
      | inr (_, _, same) ↦ same q nq ∙ here
    ]

pub put_at-file :
    (x : PutFaults) (temp : FilePath) (now : ℕ) (digest : Digest) (reader : Reader)
    (path q : FilePath) (files : FileSystem) (f : File)
    → path ≢ temp
    → q ≢ temp
    → files q ≡ some f
    → (g : File) × ((put_at x temp now digest reader path files).files q ≡ some g)
put_at-file x temp now digest reader path q files f ne nq here =
    elim (put_at-Published x temp now digest reader path files ne) [
      | inr (_, _, same) ↦ (f, same q nq ∙ here)
      | inl ((g, there, _, _, _, _), same) ↦ elim (Bool-cases (path_eq q path)) [
        | inl at ↦ (
          g,
          ap (put_at x temp now digest reader path files).files ((path_eq_iff q path).0 at) ∙ there,
        )
        | inr off ↦ (f, same q nq (λ e. differ (sym off ∙ (path_eq_iff q path).1 e)) ∙ here)
      ]
    ]
  where
    differ : false ≢ true
    differ e = cc
