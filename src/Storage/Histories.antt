-- ===== src/Storage/Histories.antt =====
-- pkg/storage/local.go: sequences of `Put`, `Has` and `Get` on one store, and the map from hashes to
-- bytes that they are meant to be calls of.
pub mod Refinement
use go_rego.Base.{
  ℕ, ◌≡◌, ◌<◌, Bool, true, false, Option, none, some, List, [], ◌∷◌, if◌then◌else◌, length,
}
use go_rego.Base.Text.{GoString, str_eq}
use go_rego.Base.Results.{Error, not_exist, Result, ok, err}
use go_rego.Storage.Digests.{Digest}
use go_rego.Storage.Files.{File, FilePath, FileSystem, Reader}
use go_rego.Storage.Local.{LocalStore, PutFaults, ReadFaults, PutResult, blob_path, has, get, put}

-- The calls, each with what the operating system answers to it.
pub data StoreCall : Type 0 where
  puts : PutFaults → FilePath → ℕ → Digest → Reader → StoreCall
  asks gets : ReadFaults → ℕ → Digest → StoreCall

pub data Reply : Type 0 where
  crashed : Reply
  stored : Option Error → Reply
  known : Result Bool → Reply
  given : Result Reader → Reply

abbrev pub put_reply : FileSystem → Option PutResult → FileSystem × Reply
put_reply files none = (files, crashed)
put_reply files (some r) = (r.files, stored r.error)

abbrev pub has_reply : FileSystem → Option (FileSystem × Result Bool) → FileSystem × Reply
has_reply files none = (files, crashed)
has_reply files (some (after, r)) = (after, known r)

abbrev pub get_reply : FileSystem → Option (FileSystem × Result Reader) → FileSystem × Reply
get_reply files none = (files, crashed)
get_reply files (some (after, r)) = (after, given r)

unfoldable pub answer : LocalStore → FileSystem → StoreCall → FileSystem × Reply
unfolding put has get
answer s files (puts x temp now digest reader) =
    put_reply files (put s files x temp now digest reader)
answer s files (asks x now digest) = has_reply files (has s files x now digest)
answer s files (gets x now digest) = get_reply files (get s files x now digest)

unfoldable pub answers : LocalStore → FileSystem → List StoreCall → FileSystem × List Reply
unfolding answer
answers s files [] = (files, [])
answers s files (c ∷ cs) =
    let after = answers s (answer s files c).0 cs in (after.0, (answer s files c).1 ∷ after.1)

-- The abstract store: the bytes of a hash.
abbrev pub Blobs : Type 0
Blobs = GoString → Option GoString

abbrev pub with_blob : Blobs → GoString → GoString → Blobs
with_blob m hash bytes k = if str_eq hash k then some bytes else m k

abbrev pub is_some : {A : Type 0} → Option A → Bool
is_some none = false
is_some (some _) = true

abbrev pub bytes_or_missing : Option GoString → Result Reader
bytes_or_missing none = err not_exist
bytes_or_missing (some bytes) = ok (record { bytes = bytes; ends = none })

abbrev pub hash_of : StoreCall → GoString
hash_of (puts x temp now digest reader) = digest.hash
hash_of (asks x now digest) = digest.hash
hash_of (gets x now digest) = digest.hash

-- What a call may reply, and what becomes of the map: a `Put` of a whole blob stores it, perhaps with
-- a late error, any other is refused with an error; `Has` and `Get` answer from the map if the file
-- can be opened, and change nothing. A hash of less than four bytes makes each of them panic.
pub data Abides : Blobs → StoreCall → Reply → Blobs → Type 0 where
  put_whole :
      {m : Blobs} {x : PutFaults} {temp : FilePath} {now : ℕ} {digest : Digest} {reader : Reader}
      {e : Option Error}
      → reader.ends ≡ none
      → length reader.bytes ≡ digest.size
      → Abides m (puts x temp now digest reader) (stored e) (with_blob m digest.hash reader.bytes)
  put_refused :
      {m : Blobs} {x : PutFaults} {temp : FilePath} {now : ℕ} {digest : Digest} {reader : Reader}
      {e : Error}
      → Abides m (puts x temp now digest reader) (stored (some e)) m
  has_known :
      {m : Blobs} {x : ReadFaults} {now : ℕ} {digest : Digest}
      → x.opening ≡ none
      → Abides m (asks x now digest) (known (ok (is_some (m digest.hash)))) m
  has_failed :
      {m : Blobs} {x : ReadFaults} {now : ℕ} {digest : Digest} {e : Error} {r : Result Bool}
      → x.opening ≡ some e
      → Abides m (asks x now digest) (known r) m
  get_known :
      {m : Blobs} {x : ReadFaults} {now : ℕ} {digest : Digest}
      → x.opening ≡ none
      → Abides m (gets x now digest) (given (bytes_or_missing (m digest.hash))) m
  get_failed :
      {m : Blobs} {x : ReadFaults} {now : ℕ} {digest : Digest} {e : Error}
      → x.opening ≡ some e
      → Abides m (gets x now digest) (given (err e)) m
  panicked : {m : Blobs} {c : StoreCall} → length (hash_of c) < 4 → Abides m c crashed m

pub data AbideAll : Blobs → List StoreCall → List Reply → Blobs → Type 0 where
  no_calls : {m : Blobs} → AbideAll m [] [] m
  next_call :
      {m n o : Blobs} {c : StoreCall} {r : Reply} {cs : List StoreCall} {rs : List Reply}
      → Abides m c r n
      → AbideAll n cs rs o
      → AbideAll m (c ∷ cs) (r ∷ rs) o

-- The map that the files stand for.
abbrev contents_of : Option File → Option GoString
contents_of none = none
contents_of (some f) = some f.contents

abbrev contents_at : FileSystem → Option FilePath → Option GoString
contents_at files none = none
contents_at files (some path) = contents_of (files path)

abbrev pub view : LocalStore → FileSystem → Blobs
view s files hash = contents_at files (blob_path s (record { hash = hash; size = 0 }))
