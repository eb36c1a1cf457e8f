-- ===== src/Storage/Local.antt =====
-- pkg/storage/local.go: the store of blobs on the local disk. What the operating system answers is
-- an argument of each operation, as is the name of the temporary file. Of an operation `none` says
-- that the program panics.
use go_rego.Base.{
  ℕ, Bool, true, false, not, Option, none, some, [], ◌∷◌, ltb, ◌==◌, if◌then◌else◌, length, take,
  drop,
}
use go_rego.Base.Text.{GoString, codes}
use go_rego.Base.Results.{Error, not_exist, wrapped, plain, Result, ok, err}
use go_rego.Storage.Digests.{Digest}
use go_rego.Storage.Files.{File, FilePath, FileSystem, store_file, Reader}

pub record LocalStore : Type 0 where
  pub root_dir : GoString
  pub force_update_a_time : Bool

-- The errors that the calls of the operating system give; `write` fails after some bytes.
pub record PutFaults : Type 0 where
  pub mkdir_all : Option Error
  pub create_temp : Option Error
  pub write : Option (ℕ × Error)
  pub close : Option Error
  pub remove : Option Error
  pub rename : Option Error
  pub chmod : Option Error

pub record ReadFaults : Type 0 where
  pub opening : Option Error
  pub chtimes : Option Error

-- `notified` says that the callback ran.
pub record PutResult : Type 0 where
  pub files : FileSystem
  pub error : Option Error
  pub notified : Bool

-- `digest.Hash[2:4]` panics where the hash has less than four bytes.
unfoldable pub blob_path : LocalStore → Digest → Option FilePath
blob_path s digest =
    if ltb (length digest.hash) 4
    then none
    else some (
        s.root_dir
        ∷ codes "cas"
        ∷ take 2 digest.hash
        ∷ take 2 (drop 2 digest.hash)
        ∷ digest.hash
        ∷ [])

abbrev pub after_open : FileSystem → ReadFaults → Bool → ℕ → FilePath → File → FileSystem
after_open files x force now path f = elim x.chtimes [
  | some _ ↦ files
  | none ↦ if force then store_file files path (some (record f { access_time = now })) else files
]

-- What `Has` and `Get` share: the file of a path, or the error of the operating system.
unfoldable pub open_file : FileSystem → ReadFaults → FilePath → Result File
open_file files x path = elim x.opening [
  | some e ↦ err e
  | none ↦ elim (files path) [ none ↦ err not_exist | some f ↦ ok f ]
]

abbrev pub is_not_exist : Error → Bool
is_not_exist not_exist = true
is_not_exist _ = false

unfoldable pub has_at :
    LocalStore → FileSystem → ReadFaults → ℕ → FilePath → FileSystem × Result Bool
unfolding open_file
has_at s files x now path = elim (open_file files x path) [
  | err e ↦ (files, if is_not_exist e then ok false else err e)
  | ok f ↦ (after_open files x s.force_update_a_time now path f, ok true)
]

unfoldable pub get_at :
    LocalStore → FileSystem → ReadFaults → ℕ → FilePath → FileSystem × Result Reader
unfolding open_file
get_at s files x now path = elim (open_file files x path) [
  | err e ↦ (files, err e)
  | ok f ↦ (
    after_open files x s.force_update_a_time now path f,
    ok (record { bytes = f.contents; ends = none }),
  )
]

-- `io.Copy` to the temporary file: the bytes written, and the error.
unfoldable pub copied : PutFaults → Reader → GoString × Option Error
copied x reader = elim x.write [
  | none ↦ (reader.bytes, reader.ends)
  | some (n, e) ↦
      if ltb n (length reader.bytes)
      then (take n reader.bytes, some e)
      else (reader.bytes, reader.ends)
]

-- The deferred removal of the temporary file.
abbrev pub cleaned : FileSystem → PutFaults → FilePath → FileSystem
cleaned files x temp = elim x.remove [ some _ ↦ files | none ↦ store_file files temp none ]

abbrev pub refuse : FileSystem → Error → PutResult
refuse files e = record { files = files; error = some e; notified = false }

-- From the rename on; the temporary file is gone then.
unfoldable pub publish : PutFaults → FilePath → FilePath → File → FileSystem → PutResult
publish x temp path f files = elim x.rename [
  | some e ↦ refuse (cleaned files x temp) (wrapped e)
  | none ↦
      let moved = store_file (store_file files path (some f)) temp none in
      elim x.chmod [
        | some e ↦ refuse moved (wrapped e)
        | none ↦ record {
          files = store_file moved path (some (record f { read_only = true }));
          error = none;
          notified = true;
        }
      ]
]

unfoldable pub put_at :
    PutFaults → FilePath → ℕ → Digest → Reader → FilePath → FileSystem → PutResult
unfolding copied publish
put_at x temp now digest reader path files = elim x.mkdir_all [
  | some e ↦ refuse files (wrapped e)
  | none ↦ elim x.create_temp [
    | some e ↦ refuse files (wrapped e)
    | none ↦
        let bytes = (copied x reader).0 in
        let error = (copied x reader).1 in
        let f : File = record { contents = bytes; read_only = false; access_time = now } in
        let written = store_file files temp (some f) in
        elim error [
          | some e ↦ refuse (cleaned written x temp) (wrapped e)
          | none ↦
              if not (length bytes == digest.size)
              then refuse (cleaned written x temp) plain
              else (elim x.close [
                | some e ↦ refuse (cleaned written x temp) (wrapped e)
                | none ↦ publish x temp path f written
              ])
        ]
  ]
]

module _ (s : LocalStore) (files : FileSystem) where
  unfoldable pub has : ReadFaults → ℕ → Digest → Option (FileSystem × Result Bool)
  unfolding has_at
  has x now digest = elim (blob_path s digest) [
    | none ↦ none
    | some path ↦ some (has_at s files x now path)
  ]

  unfoldable pub get : ReadFaults → ℕ → Digest → Option (FileSystem × Result Reader)
  unfolding get_at
  get x now digest = elim (blob_path s digest) [
    | none ↦ none
    | some path ↦ some (get_at s files x now path)
  ]

  unfoldable pub put : PutFaults → FilePath → ℕ → Digest → Reader → Option PutResult
  unfolding put_at
  put x temp now digest reader = elim (blob_path s digest) [
    | none ↦ none
    | some path ↦ some (put_at x temp now digest reader path files)
  ]
