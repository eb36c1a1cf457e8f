-- ===== src/Storage/Links/Names.antt =====
-- pkg/storage/local.go: the files under the names, as the steps of `PutFile` change them.
use go_rego.Base.{
  ℕ, ◌≡◌, ◌≢◌, ◌<◌, inl, inr, refl, ◌∙◌, true, false, Option, none, some, arith, Bool-cases,
  Option-cases,
}
use go_rego.Base.Text.{GoString}
use go_rego.Base.Results.{Error}
use go_rego.Storage.Files.{File, FilePath, path_eq_iff}
use go_rego.Storage.Links.{
  LinkedFiles, PutFileFaults, PutFileResult, set_name, set_inode, protect, dropped, renamed,
  same_inode,
}

-- The file that a path leads to.
abbrev pub file_at : LinkedFiles → FilePath → Option File
file_at d p = elim (d.names p) [ none ↦ none | some i ↦ some (d.inodes i) ]

abbrev pub bytes_of : Option File → Option GoString
bytes_of none = none
bytes_of (some f) = some f.contents

abbrev pub bytes_at : LinkedFiles → FilePath → Option GoString
bytes_at d p = bytes_of (file_at d p)

-- A new inode has no name yet.
abbrev pub IsFresh : LinkedFiles → Type 0
IsFresh d = (q : FilePath) (i : ℕ) → d.names q ≡ some i → i < d.next_inode

pub set_name-other :
    (d : LinkedFiles) (p q : FilePath) (i : Option ℕ) → q ≢ p → (set_name d p i).names q ≡ d.names q
unfolding set_name
set_name-other d p q i ne = ground (arith, path_eq_iff p q)

pub set_name-same : (d : LinkedFiles) (p : FilePath) (i : Option ℕ) → (set_name d p i).names p ≡ i
unfolding set_name
set_name-same d p i = ground (arith, path_eq_iff p p)

pub bytes_at-set_name :
    (d : LinkedFiles) (p q : FilePath) (i : Option ℕ)
    → q ≢ p
    → bytes_at (set_name d p i) q ≡ bytes_at d q
unfolding set_name
bytes_at-set_name d p q i ne = ground (arith, path_eq_iff p q)

-- The mode and the time of an inode are not seen in the bytes.
pub bytes_at-set_inode :
    (d : LinkedFiles) (i : ℕ) (f : File) (q : FilePath)
    → f.contents ≡ (d.inodes i).contents
    → bytes_at (set_inode d i f) q ≡ bytes_at d q
bytes_at-set_inode d i f q same = ground arith

pub bytes_at-dropped :
    (d : LinkedFiles) (x : PutFileFaults) (temp q : FilePath)
    → q ≢ temp
    → bytes_at (dropped d x temp) q ≡ bytes_at d q
bytes_at-dropped d x temp q ne = elim (Option-cases x.remove) [
  | inl e ↦ rw e (bytes_at-set_name d temp q none ne)
  | inr (er, e) ↦ rw e refl
]

pub bytes_at-protect :
    (d : LinkedFiles) (i : ℕ) (q : FilePath) → bytes_at (protect d i) q ≡ bytes_at d q
bytes_at-protect d i q = bytes_at-set_inode d i (record (d.inodes i) { read_only = true }) q refl

-- The blob's path leads to the bytes, in a file that is read-only.
abbrev pub IsPlaced : FilePath → FilePath → GoString → LinkedFiles → PutFileResult → Type 0
IsPlaced temp path bytes d r =
    ((f : File) × (file_at r.files path ≡ some f) × (f.contents ≡ bytes) × (f.read_only ≡ true))
    × (r.error ≡ none)
    × (r.notified ≡ true)
    × ((q : FilePath) → q ≢ temp → q ≢ path → bytes_at r.files q ≡ bytes_at d q)

abbrev pub IsGivenUp : FilePath → LinkedFiles → PutFileResult → Type 0
IsGivenUp temp d r =
    ((e : Error) × (r.error ≡ some e))
    × (r.notified ≡ false)
    × ((q : FilePath) → q ≢ temp → bytes_at r.files q ≡ bytes_at d q)

pub protected_at :
    (d : LinkedFiles) (i : ℕ) (p : FilePath)
    → d.names p ≡ some i
    → file_at (protect d i) p ≡ some (record (d.inodes i) { read_only = true })
protected_at d i p e = ground arith

pub file_at-dropped :
    (d : LinkedFiles) (x : PutFileFaults) (temp q : FilePath)
    → q ≢ temp
    → file_at (dropped d x temp) q ≡ file_at d q
unfolding set_name
file_at-dropped d x temp q ne = elim (Option-cases x.remove) [
  | inl e ↦ rw e (ground (arith, path_eq_iff temp q))
  | inr (er, e) ↦ rw e refl
]

pub file_at-same_inode :
    (d : LinkedFiles) (path : FilePath) (i : ℕ)
    → same_inode (d.names path) i ≡ true
    → file_at d path ≡ some (d.inodes i)
unfolding same_inode
file_at-same_inode d path i e = ground arith

pub renamed_at :
    (d : LinkedFiles) (x : PutFileFaults) (temp path : FilePath) (i : ℕ)
    → path ≢ temp
    → (file_at (renamed d x temp path i) path ≡ some (d.inodes i))
      × ((q : FilePath) → q ≢ temp → q ≢ path → bytes_at (renamed d x temp path i) q ≡ bytes_at d q)
unfolding same_inode set_name
renamed_at d x temp path i ne = elim (Bool-cases (same_inode (d.names path) i)) [
  | inl one ↦ rw one (
    file_at-dropped d x temp path ne ∙ file_at-same_inode d path i one,
    λ q n m. bytes_at-dropped d x temp q n,
  )
  | inr two ↦ rw two (
    ground (arith, path_eq_iff temp path, path_eq_iff path path),
    λ q n m.
        bytes_at-set_name (set_name d path (some i)) temp q none n
        ∙ bytes_at-set_name d path q (some i) m,
  )
]
