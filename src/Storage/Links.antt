-- ===== src/Storage/Links.antt =====
-- pkg/storage/local.go: `PutFile`. A path names an inode, and a hard link shares the inode of its
-- source; what the operating system answers is an argument, as in Local.
pub mod Names
pub mod Sharing
use go_rego.Base.{
  ℕ, suc, Bool, true, false, Option, none, some, ltb, ◌==◌, if◌then◌else◌, length, take,
}
use go_rego.Base.Text.{GoString}
use go_rego.Base.Results.{Error, not_exist, wrapped}
use go_rego.Storage.Digests.{Digest}
use go_rego.Storage.Files.{File, FilePath, path_eq}
use go_rego.Storage.Local.{LocalStore, blob_path}
use go_rego.Scheduler.State.{update}

pub record LinkedFiles : Type 0 where
  pub names : FilePath → Option ℕ
  pub inodes : ℕ → File
  pub next_inode : ℕ

-- The errors that the calls of the operating system give; `write` fails after some bytes.
pub record PutFileFaults : Type 0 where
  pub stat : Option Error
  pub chtimes : Option Error
  pub mkdir_all : Option Error
  pub link : Option Error
  pub open_source : Option Error
  pub make_temp : Option Error
  pub write : Option (ℕ × Error)
  pub close : Option Error
  pub chmod : Option Error
  pub rename : Option Error
  pub remove : Option Error

pub record PutFileResult : Type 0 where
  pub files : LinkedFiles
  pub error : Option Error
  pub notified : Bool

unfoldable pub set_name : LinkedFiles → FilePath → Option ℕ → LinkedFiles
set_name d p i = record d { names = λ q. if path_eq p q then i else d.names q }

abbrev pub set_inode : LinkedFiles → ℕ → File → LinkedFiles
set_inode d i f = record d { inodes = update d.inodes i f }

-- `os.Chmod(tmpPath, 0444)`
abbrev pub protect : LinkedFiles → ℕ → LinkedFiles
protect d i = set_inode d i (record (d.inodes i) { read_only = true })

-- The deferred removal of the temporary name, if that is there.
abbrev pub dropped : LinkedFiles → PutFileFaults → FilePath → LinkedFiles
dropped d x temp = elim x.remove [ some _ ↦ d | none ↦ set_name d temp none ]

abbrev pub gives_up : LinkedFiles → Error → PutFileResult
gives_up d e = record { files = d; error = some e; notified = false }

-- `rename` of two names of one inode does nothing.
unfoldable pub same_inode : Option ℕ → ℕ → Bool
same_inode none i = false
same_inode (some j) i = j == i

abbrev pub renamed : LinkedFiles → PutFileFaults → FilePath → FilePath → ℕ → LinkedFiles
renamed d x temp path i =
    if same_inode (d.names path) i
    then dropped d x temp
    else set_name (set_name d path (some i)) temp none

-- From the change of the mode on; the temporary name leads to the inode.
unfoldable pub settle : PutFileFaults → FilePath → FilePath → ℕ → LinkedFiles → PutFileResult
unfolding set_name same_inode
settle x temp path i d = elim x.chmod [
  | some e ↦ gives_up (dropped d x temp) (wrapped e)
  | none ↦ elim x.rename [
    | some e ↦ gives_up (dropped (protect d i) x temp) (wrapped e)
    | none ↦ record { files = renamed (protect d i) x temp path i; error = none; notified = true }
  ]
]

-- The bytes that are copied, and the error.
abbrev pub copied_bytes : PutFileFaults → GoString → GoString × Option Error
copied_bytes x bytes = elim x.write [
  | none ↦ (bytes, none)
  | some (n, e) ↦ if ltb n (length bytes) then (take n bytes, some e) else (bytes, none)
]

abbrev pub with_copy : LinkedFiles → FilePath → GoString → ℕ → LinkedFiles
with_copy d temp bytes now =
    set_name
      (record (set_inode d d.next_inode
        (record { contents = bytes; read_only = false; access_time = now })) {
          next_inode = suc d.next_inode;
        })
      temp (some d.next_inode)

-- The fallback, after `os.Link` has failed; `i` is the inode of the source.
unfoldable pub copy_file : PutFileFaults → FilePath → FilePath → ℕ → ℕ → LinkedFiles → PutFileResult
unfolding settle
copy_file x temp path now i d = elim x.make_temp [
  | some e ↦ gives_up d e
  | none ↦
      let copy = copied_bytes x (d.inodes i).contents in
      let written = with_copy d temp copy.0 now in
      elim copy.1 [
        | some e ↦ gives_up (dropped written x temp) e
        | none ↦ elim x.close [
          | some e ↦ gives_up (dropped written x temp) e
          | none ↦ settle x temp path d.next_inode written
        ]
      ]
]

unfoldable pub link_or_copy :
    PutFileFaults → FilePath → FilePath → FilePath → ℕ → LinkedFiles → PutFileResult
unfolding copy_file settle set_name
link_or_copy x source temp path now d = elim (d.names source) [
  | none ↦ gives_up d (elim x.open_source [ some e ↦ e | none ↦ not_exist ])
  | some i ↦ elim x.link [
    | none ↦ settle x temp path i (set_name d temp (some i))
    | some _ ↦ elim x.open_source [ some e ↦ gives_up d e | none ↦ copy_file x temp path now i d ]
  ]
]

abbrev pub touched : LinkedFiles → Bool → Option Error → ℕ → ℕ → LinkedFiles
touched d force chtimes now i =
    if force
    then (elim chtimes [
      | some _ ↦ d
      | none ↦ set_inode d i (record (d.inodes i) { access_time = now })
    ])
    else d

abbrev pub add_link :
    PutFileFaults → FilePath → FilePath → FilePath → ℕ → LinkedFiles → PutFileResult
add_link x source temp path now d = elim x.mkdir_all [
  | some e ↦ gives_up d (wrapped e)
  | none ↦ link_or_copy x source temp path now d
]

-- The file that `os.Stat` finds at the path of the blob, if it gives no error.
abbrev pub present_at : PutFileFaults → LinkedFiles → FilePath → Option ℕ
present_at x d path = elim x.stat [ some _ ↦ none | none ↦ d.names path ]

unfoldable pub put_file_at :
    LocalStore → PutFileFaults → FilePath → FilePath → FilePath → ℕ → LinkedFiles → PutFileResult
unfolding link_or_copy
put_file_at s x source temp path now d = elim (present_at x d path) [
  | some i ↦ record {
    files = touched d s.force_update_a_time x.chtimes now i;
    error = none;
    notified = false;
  }
  | none ↦ add_link x source temp path now d
]

unfoldable pub put_file :
    LocalStore
    → PutFileFaults
    → FilePath
    → FilePath
    → ℕ
    → Digest
    → LinkedFiles
    → Option PutFileResult
unfolding put_file_at
put_file s x source temp now digest d = elim (blob_path s digest) [
  | none ↦ none
  | some path ↦ some (put_file_at s x source temp path now d)
]
