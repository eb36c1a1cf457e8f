-- ===== src/Proxy/Between.antt =====
-- pkg/proxy/proxy.go: a blob that is held locally, over any calls for this and other blobs.
use go_rego.Base.{
  ℕ, ◌≡◌, ◌≢◌, refl, ap, sym, ◌∙◌, Bool, true, false, none, some, List, [], ◌∷◌, ltb, Bool-cases,
  Option-cases, inl, inr,
}
use go_rego.Base.Lists.{All}
use go_rego.Base.Results.{Result, ok, err, Result-cases}
use go_rego.Storage.Digests.{Digest}
use go_rego.Storage.Files.{File, FilePath, FileSystem, Reader, path_eq, path_eq_iff}
use go_rego.Storage.Local.{LocalStore, PutFaults, ReadFaults, blob_path, put_at, has_at, get_at}
use go_rego.Storage.Atomicity.{has_at-found}
use go_rego.Storage.Held.{Keeps, has_at-Keeps, get_at-Keeps, put_at-other}
use go_rego.Proxy.Store.{
  Remote, is_ok_true, local_reads, piped, put_both, proxy_put_at, proxy_put, has_remote, proxy_has,
  fetch, proxy_get_at, proxy_get,
}

-- A call on the proxy, with the state of the remote store and what the local one meets.
pub data Call (S : Type 0) : Type 0 where
  gets : S → (z : ReadFaults) → PutFaults → (y : ReadFaults) → FilePath → ℕ → Digest → Call S
  puts : S → ReadFaults → PutFaults → FilePath → ℕ → Digest → Reader → Call S
  asks : S → ReadFaults → ℕ → Digest → Call S

Keeps-trans :
    (files : FileSystem) (q : FilePath) (f g : File)
    → g.contents ≡ f.contents
    → Keeps files q g
    → Keeps files q f
Keeps-trans files q f g same (h, there, same2) = (h, there, same2 ∙ same)

module _ {S : Type 0} (remote : Remote S) (local : LocalStore) where
  -- The files after a call; a call that panics leaves them.
  abbrev pub after : FileSystem → Call S → FileSystem
  after files (gets s z x y temp now d) = elim (proxy_get remote local s files z x y temp now d) [
    | none ↦ files
    | some (files', _) ↦ files'
  ]
  after files (puts s y x temp now d reader) =
      elim (proxy_put remote local s files y x temp now d reader) [
        | none ↦ files
        | some (_, files', _) ↦ files'
      ]
  after files (asks s y now d) = elim (proxy_has remote local s files y now d) [
    | none ↦ files
    | some (files', _) ↦ files'
  ]

  abbrev pub after_all : FileSystem → List (Call S) → FileSystem
  after_all files [] = files
  after_all files (c ∷ cs) = after_all (after files c) cs

  -- Files that are there can be opened, and a temporary file has no name of a blob.
  abbrev pub Regular : Call S → Type 0
  Regular (gets s z x y temp now d) =
      (z.opening ≡ none)
      × ((e : Digest) (path : FilePath) → blob_path local e ≡ some path → path ≢ temp)
  Regular (puts s y x temp now d reader) =
      (y.opening ≡ none)
      × ((e : Digest) (path : FilePath) → blob_path local e ≡ some path → path ≢ temp)
  Regular (asks s y now d) = Unit

  module _ (blob : Digest) (q : FilePath) (at : blob_path local blob ≡ some q) where
    fetch-Keeps :
        (s : S) (files : FileSystem) (x : PutFaults) (y : ReadFaults) (temp : FilePath) (now : ℕ)
        (d : Digest) (path : FilePath) (f : File)
        → path ≢ temp
        → q ≢ temp
        → q ≢ path
        → files q ≡ some f
        → Keeps (fetch remote local s files x y temp now d path).0 q f
    unfolding fetch
    fetch-Keeps s files x y temp now d path f ne nq other here =
        elim (Result-cases (remote.get s d)) [
          | inr (e, bad) ↦ (f, rw (bad, fetch) here, refl)
          | inl (reader, given) ↦
              let r = put_at x temp now d reader path files in
              let kept = put_at-other x temp now d reader path q files f ne nq other here in
              elim (Option-cases r.error) [
                | inr (e, bad) ↦ (f, rw (given, fetch, bad) kept, refl)
                | inl fine ↦
                    rw (given, fetch, fine) (get_at-Keeps local r.files y now path q f kept)
              ]
        ]

    get-Keeps :
        (s : S) (files : FileSystem) (z y : ReadFaults) (x : PutFaults) (temp : FilePath) (now : ℕ)
        (d : Digest) (path : FilePath) (f : File)
        → z.opening ≡ none
        → path ≢ temp
        → q ≢ temp
        → files q ≡ some f
        → Keeps (proxy_get_at remote local s files z x y temp now d path).0 q f
    get-Keeps s files z y x temp now d path f zo ne nq here =
        let seen = has_at local files z now path in
        let (g, there, same) = has_at-Keeps local files z now path q f here in
        let held =
          Keeps-trans (get_at local seen.0 y now path).0 q f g same
            (get_at-Keeps local seen.0 y now path q g there) in
        elim (Bool-cases (is_ok_true seen.1)) [
          | inl hit ↦ rw hit held
          | inr miss ↦ elim (Bool-cases (path_eq q path)) [
            | inr off ↦
                let other : q ≢ path = λ e. differ (sym off ∙ (path_eq_iff q path).1 e) in
                rw miss (
                  Keeps-trans (fetch remote local s seen.0 x y temp now d path).0 q f g same
                    (fetch-Keeps s seen.0 x y temp now d path g ne nq other there))
            | inl on ↦ absurd (
                differ (
                  sym miss
                  ∙ found files z now path f zo
                      (ap files (sym ((path_eq_iff q path).0 on)) ∙ here)))
          ]
        ]
      where
        differ : false ≢ true
        differ e = cc

        found :
            (files : FileSystem) (z : ReadFaults) (now : ℕ) (path : FilePath) (f : File)
            → z.opening ≡ none
            → files path ≡ some f
            → is_ok_true (has_at local files z now path).1 ≡ true
        found files z now path f zo here =
            ap is_ok_true (has_at-found local files z now path f zo here)

    put_both-Keeps :
        (s : S) (files : FileSystem) (x : PutFaults) (temp : FilePath) (now : ℕ) (d : Digest)
        (reader : Reader) (path : FilePath) (f : File)
        → path ≢ temp
        → q ≢ temp
        → q ≢ path
        → files q ≡ some f
        → (put_both remote local s files x temp now d reader path).1 q ≡ some f
    unfolding put_both
    put_both-Keeps s files x temp now d reader path f ne nq other here =
        let n = local_reads x reader.bytes in
        let up = remote.put s d (piped (put_at x temp now d reader path files) n reader) in
        elim (Bool-cases (ltb up.consumed n)) [
          | inl cut ↦
              rw (put_both, cut) (put_at-other x temp now d _ path q files f ne nq other here)
          | inr whole ↦
              rw (put_both, whole)
                (put_at-other x temp now d reader path q files f ne nq other here)
        ]

    put-Keeps :
        (s : S) (files : FileSystem) (y : ReadFaults) (x : PutFaults) (temp : FilePath) (now : ℕ)
        (d : Digest) (reader : Reader) (path : FilePath) (f : File)
        → y.opening ≡ none
        → path ≢ temp
        → q ≢ temp
        → files q ≡ some f
        → Keeps (proxy_put_at remote local s files y x temp now d reader path).1 q f
    put-Keeps s files y x temp now d reader path f yo ne nq here =
        let seen = has_at local files y now path in
        let (g, there, same) = has_at-Keeps local files y now path q f here in
        elim (Bool-cases (is_ok_true seen.1)) [
          | inl hit ↦ rw hit (g, there, same)
          | inr miss ↦ elim (Bool-cases (path_eq q path)) [
            | inr off ↦
                let other : q ≢ path = λ e. differ (sym off ∙ (path_eq_iff q path).1 e) in
                rw miss
                  (g, put_both-Keeps s seen.0 x temp now d reader path g ne nq other there, same)
            | inl on ↦ absurd (
                differ (
                  sym miss
                  ∙ ap is_ok_true (
                      has_at-found local files y now path f yo
                        (ap files (sym ((path_eq_iff q path).0 on)) ∙ here))))
          ]
        ]
      where
        differ : false ≢ true
        differ e = cc

    after-Keeps :
        (files : FileSystem) (c : Call S) (f : File)
        → Regular c
        → files q ≡ some f
        → Keeps (after files c) q f
    unfolding proxy_get proxy_put proxy_has
    after-Keeps files (gets s z x y temp now d) f (zo, apart) here =
        elim (Option-cases (blob_path local d)) [
          | inl e ↦ rw (e, after, proxy_get) (f, here, refl)
          | inr (path, e) ↦
              rw (e, after, proxy_get)
                (get-Keeps s files z y x temp now d path f zo (apart d path e) (apart blob q at)
                  here)
        ]
    after-Keeps files (puts s y x temp now d reader) f (yo, apart) here =
        elim (Option-cases (blob_path local d)) [
          | inl e ↦ rw (e, after, proxy_put) (f, here, refl)
          | inr (path, e) ↦
              rw (e, after, proxy_put)
                (put-Keeps s files y x temp now d reader path f yo (apart d path e)
                  (apart blob q at) here)
        ]
    after-Keeps files (asks s y now d) f regular here = elim (Option-cases (blob_path local d)) [
      | inl e ↦ rw (e, after, proxy_has) (f, here, refl)
      | inr (path, e) ↦
          rw (e, after, proxy_has)
            (asked (has_at local files y now path) s d f
              (has_at-Keeps local files y now path q f here))
    ]
      where
        asked :
            (r : FileSystem × Result Bool) (s : S) (d : Digest) (f : File)
            → Keeps r.0 q f
            → Keeps (has_remote remote local s d r).0 q f
        asked (files, err e) s d f h = h
        asked (files, ok true) s d f h = h
        asked (files, ok false) s d f h = h

    pub after_all-Keeps :
        (files : FileSystem) (cs : List (Call S)) (f : File)
        → All Regular cs
        → files q ≡ some f
        → Keeps (after_all files cs) q f
    after_all-Keeps files [] f regular here = (f, here, refl)
    after_all-Keeps files (c ∷ cs) f (regular, rest) here =
        let (g, there, same) = after-Keeps files c f regular here in
        Keeps-trans (after_all (after files c) cs) q f g same
          (after_all-Keeps (after files c) cs g rest there)
