-- ===== src/Storage/Links/Sharing.antt =====
-- pkg/storage/local.go: what `PutFile` leaves on the disk.
use go_rego.Base.{
  ℕ, ◌≡◌, ◌≢◌, ◌⊎◌, inl, inr, refl, ap, ◌∙◌, Bool, true, false, Option, none, some, arith,
  Option-cases,
}
use go_rego.Base.Text.{GoString}
use go_rego.Base.Results.{Error, not_exist, wrapped}
use go_rego.Storage.Digests.{Digest}
use go_rego.Storage.Files.{File, FilePath, path_eq_iff}
use go_rego.Storage.Local.{LocalStore, blob_path}
use go_rego.Storage.Links.{
  LinkedFiles, PutFileFaults, PutFileResult, set_name, protect, dropped, settle, copied_bytes,
  with_copy, copy_file, link_or_copy, touched, put_file_at, put_file, present_at,
}
use go_rego.Storage.Links.Names.{
  file_at, bytes_at, IsFresh, bytes_at-set_name, bytes_at-dropped, bytes_at-protect, IsPlaced,
  IsGivenUp, renamed_at,
}

settle-IsPlaced :
    (x : PutFileFaults) (temp path : FilePath) (i : ℕ) (d : LinkedFiles) (bytes : GoString)
    → path ≢ temp
    → (d.inodes i).contents ≡ bytes
    → IsPlaced temp path bytes d (settle x temp path i d)
      ⊎ IsGivenUp temp d (settle x temp path i d)
unfolding settle
settle-IsPlaced x temp path i d bytes ne same = elim (Option-cases x.chmod) [
  | inr (er, c) ↦
      rw (settle, c) (inr ((wrapped er, refl), refl, λ q n. bytes_at-dropped d x temp q n))
  | inl c ↦ elim (Option-cases x.rename) [
    | inr (er, r) ↦
        rw (settle, c, r)
          (inr (
            (wrapped er, refl),
            refl,
            λ q n. bytes_at-dropped (protect d i) x temp q n ∙ bytes_at-protect d i q,
          ))
    | inl r ↦
        let (here, others) = renamed_at (protect d i) x temp path i ne in
        let made : (protect d i).inodes i ≡ record (d.inodes i) { read_only = true } =
          ground arith in
        rw (settle, c, r)
          (inl (
            (record (d.inodes i) { read_only = true }, here ∙ ap some made, same, refl),
            refl,
            refl,
            λ q n m. others q n m ∙ bytes_at-protect d i q,
          ))
  ]
]

-- What holds before the temporary name was made holds of the state before it.
before_temp :
    (temp path : FilePath) (bytes : GoString) (d e : LinkedFiles) (r : PutFileResult)
    → ((q : FilePath) → q ≢ temp → bytes_at e q ≡ bytes_at d q)
    → IsPlaced temp path bytes e r ⊎ IsGivenUp temp e r
    → IsPlaced temp path bytes d r ⊎ IsGivenUp temp d r
before_temp temp path bytes d e r k (inl (placed, fine, notified, others)) =
    inl (placed, fine, notified, λ q n m. others q n m ∙ k q n)
before_temp temp path bytes d e r k (inr (failed, notified, others)) =
    inr (failed, notified, λ q n. others q n ∙ k q n)

bytes_at-with_copy :
    (d : LinkedFiles) (temp q : FilePath) (bytes : GoString) (now : ℕ)
    → IsFresh d
    → q ≢ temp
    → bytes_at (with_copy d temp bytes now) q ≡ bytes_at d q
unfolding set_name
bytes_at-with_copy d temp q bytes now fresh ne = elim (Option-cases (d.names q)) [
  | inl absent ↦ ground (arith, path_eq_iff temp q)
  | inr (i, there) ↦ ground (arith, path_eq_iff temp q, fresh q i there)
]

copied_bytes-none :
    (x : PutFileFaults) (bytes : GoString)
    → (copied_bytes x bytes).1 ≡ none
    → (copied_bytes x bytes).0 ≡ bytes
copied_bytes-none x bytes e = ground arith

copy_file-IsPlaced :
    (x : PutFileFaults) (temp path : FilePath) (now i : ℕ) (d : LinkedFiles)
    → path ≢ temp
    → IsFresh d
    → IsPlaced temp path (d.inodes i).contents d (copy_file x temp path now i d)
      ⊎ IsGivenUp temp d (copy_file x temp path now i d)
unfolding copy_file
copy_file-IsPlaced x temp path now i d ne fresh =
    let bytes = (d.inodes i).contents in
    let copy = (copied_bytes x bytes).0 in
    let written = with_copy d temp copy now in
    let kept : (q : FilePath) → q ≢ temp → bytes_at written q ≡ bytes_at d q =
      λ q n. bytes_at-with_copy d temp q copy now fresh n in
    let undone : (q : FilePath) → q ≢ temp → bytes_at (dropped written x temp) q ≡ bytes_at d q =
      λ q n. bytes_at-dropped written x temp q n ∙ kept q n in
    elim (Option-cases x.make_temp) [
      | inr (er, e) ↦ rw (copy_file, e) (inr ((er, refl), refl, λ q n. refl))
      | inl e ↦ elim (Option-cases (copied_bytes x bytes).1) [
        | inr (er, w) ↦ rw (copy_file, e, w) (inr ((er, refl), refl, undone))
        | inl w ↦ elim (Option-cases x.close) [
          | inr (er, c) ↦ rw (copy_file, e, w, c) (inr ((er, refl), refl, undone))
          | inl c ↦
              let same : (written.inodes d.next_inode).contents ≡ copy = ground arith in
              let there = same ∙ copied_bytes-none x bytes w in
              rw (copy_file, e, w, c)
                (before_temp temp path bytes d written (settle x temp path d.next_inode written)
                  kept (settle-IsPlaced x temp path d.next_inode written bytes ne there))
        ]
      ]
    ]

-- A blob that is there is left as it is, but for its access time.
abbrev pub IsPresent : FilePath → LinkedFiles → PutFileResult → Type 0
IsPresent path d r =
    ((f : File) × (file_at d path ≡ some f))
    × (r.error ≡ none)
    × (r.notified ≡ false)
    × ((q : FilePath) → bytes_at r.files q ≡ bytes_at d q)

-- What `PutFile` does, by what is there.
abbrev pub PutFileOutcome : FilePath → FilePath → FilePath → LinkedFiles → PutFileResult → Type 0
PutFileOutcome source temp path d r =
    IsPresent path d r
    ⊎ (((bytes : GoString) × (bytes_at d source ≡ some bytes) × IsPlaced temp path bytes d r)
        ⊎ IsGivenUp temp d r)

with_source :
    (source temp path : FilePath) (bytes : GoString) (d : LinkedFiles) (r : PutFileResult)
    → bytes_at d source ≡ some bytes
    → IsPlaced temp path bytes d r ⊎ IsGivenUp temp d r
    → PutFileOutcome source temp path d r
with_source source temp path bytes d r e (inl placed) = inr (inl (bytes, e, placed))
with_source source temp path bytes d r e (inr failed) = inr (inr failed)

link_or_copy-Outcome :
    (x : PutFileFaults) (source temp path : FilePath) (now : ℕ) (d : LinkedFiles)
    → path ≢ temp
    → IsFresh d
    → PutFileOutcome source temp path d (link_or_copy x source temp path now d)
unfolding link_or_copy set_name
link_or_copy-Outcome x source temp path now d ne fresh = elim (Option-cases (d.names source)) [
  | inl gone ↦ elim (Option-cases x.open_source) [
    | inl o ↦ rw (link_or_copy, gone, o) (inr (inr ((not_exist, refl), refl, λ q n. refl)))
    | inr (er, o) ↦ rw (link_or_copy, gone, o) (inr (inr ((er, refl), refl, λ q n. refl)))
  ]
  | inr (i, there) ↦
      let bytes : bytes_at d source ≡ some (d.inodes i).contents = ground arith in
      elim (Option-cases x.link) [
        | inl l ↦
            let linked = set_name d temp (some i) in
            let at_inode : (linked.inodes i).contents ≡ (d.inodes i).contents = refl in
            rw (link_or_copy, there, l)
              (with_source source temp path (d.inodes i).contents d (settle x temp path i linked)
                bytes
                (before_temp temp path (d.inodes i).contents d linked (settle x temp path i linked)
                  (λ q n. bytes_at-set_name d temp q (some i) n)
                  (settle-IsPlaced x temp path i linked (d.inodes i).contents ne at_inode)))
        | inr (er, l) ↦ elim (Option-cases x.open_source) [
          | inr (eo, o) ↦ rw (link_or_copy, there, l, o) (inr (inr ((eo, refl), refl, λ q n. refl)))
          | inl o ↦
              rw (link_or_copy, there, l, o)
                (with_source source temp path (d.inodes i).contents d
                  (copy_file x temp path now i d) bytes
                  (copy_file-IsPlaced x temp path now i d ne fresh))
        ]
      ]
]

touched_at :
    (d : LinkedFiles) (force : Bool) (chtimes : Option Error) (now i : ℕ) (q : FilePath)
    → bytes_at (touched d force chtimes now i) q ≡ bytes_at d q
touched_at d force chtimes now i q = ground arith

put_file_at-Outcome :
    (s : LocalStore) (x : PutFileFaults) (source temp path : FilePath) (now : ℕ) (d : LinkedFiles)
    → path ≢ temp
    → IsFresh d
    → PutFileOutcome source temp path d (put_file_at s x source temp path now d)
unfolding put_file_at
put_file_at-Outcome s x source temp path now d ne fresh =
    elim (Option-cases (present_at x d path)) [
      | inr (i, there) ↦
          rw (put_file_at, there)
            (inl (
              (d.inodes i, present_at-file x d path i there),
              refl,
              refl,
              λ q. touched_at d s.force_update_a_time x.chtimes now i q,
            ))
      | inl absent ↦ elim (Option-cases x.mkdir_all) [
        | inr (er, m) ↦
            rw (put_file_at, absent, m) (inr (inr ((wrapped er, refl), refl, λ q n. refl)))
        | inl m ↦
            rw (put_file_at, absent, m) (link_or_copy-Outcome x source temp path now d ne fresh)
      ]
    ]
  where
    present_at-file :
        (x : PutFileFaults) (d : LinkedFiles) (path : FilePath) (i : ℕ)
        → present_at x d path ≡ some i
        → file_at d path ≡ some (d.inodes i)
    present_at-file x d path i e = ground arith

-- `PutFile`, whatever the calls of the operating system answer, ends in one of three ways. It finds
-- the blob there and leaves the bytes under every path as they are; or the blob's path leads to the
-- bytes of the source, in a file that is read-only, of whatever size the digest states, the callback
-- ran, and the bytes under every other path but the temporary one are those of before; or it gives an
-- error, the callback did not run, and the bytes under every path but the temporary one, the blob's
-- included, are those of before. (The temporary name is not the blob's, and the inode that the system
-- makes next has no name yet.)
pub put_file-Outcome :
    (s : LocalStore) (x : PutFileFaults) (source temp path : FilePath) (now : ℕ) (digest : Digest)
    (d : LinkedFiles)
    → blob_path s digest ≡ some path
    → path ≢ temp
    → IsFresh d
    → (r : PutFileResult) × (put_file s x source temp now digest d ≡ some r)
      × PutFileOutcome source temp path d r
unfolding put_file
put_file-Outcome s x source temp path now digest d at ne fresh = (
  put_file_at s x source temp path now d,
  rw (put_file, at) refl,
  put_file_at-Outcome s x source temp path now d ne fresh,
)
