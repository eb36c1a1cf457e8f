-- ===== src/Storage/Examples.antt =====
-- The theorems on the local store and on uploads to the remote one, at one blob.
use go_rego.Base.{
  if◌then◌else◌, Bool-cases, inl, inr, Option, ltb, take, drop, arith, length, false, ◌≡◌, ◌≢◌, ◌⊎◌,
  refl, true, none, some, [], ◌∷◌,
}
use go_rego.Base.Text.{GoString, codes, str_eq}
use go_rego.Base.Results.{Code, status, ok, err}
use go_rego.Server.ActionCache.{handle_get_action_result, handle_update_action_result}
use go_rego.Server.ActionCache.Stored.{stored_results, handle_get-handle_update}
use go_rego.Storage.Digests.{Digest}
use go_rego.Storage.Files.{path_eq, FilePath, FileSystem, Reader}
use go_rego.Storage.Local.{
  LocalStore, PutFaults, ReadFaults, PutResult, blob_path, put, put_at, copied, publish,
}
use go_rego.Storage.Links.{
  LinkedFiles, PutFileFaults, PutFileResult, put_file, put_file_at, link_or_copy, settle, set_name,
  same_inode,
}
use go_rego.Storage.Links.Names.{IsFresh}
use go_rego.Storage.Links.Sharing.{PutFileOutcome, put_file-Outcome}
use go_rego.Storage.Actions.{Codec, action_path, update_action_at, update_action_result}
use go_rego.Base.Integers.{pos}
use go_rego.Storage.Remote.{WriteStream, remote_put}
use go_rego.Storage.Remote.Streams.{body, Sound, remote_put-Sound}
use go_rego.Storage.Histories.{puts, gets, answers, view, AbideAll}
use go_rego.Storage.Histories.Refinement.{answers-AbideAll}
use go_rego.Storage.Atomicity.{Published, Refused, put-atomic}

abbrev local : LocalStore
local = record { root_dir = codes "/cache"; force_update_a_time = true }

abbrev digest : Digest
digest = record { hash = codes "abcdef"; size = 2 }

abbrev path : FilePath
path = codes "/cache" ∷ codes "cas" ∷ codes "ab" ∷ codes "cd" ∷ codes "abcdef" ∷ []

abbrev temp : FilePath
temp = codes "/cache" ∷ codes "cas" ∷ codes "ab" ∷ codes "cd" ∷ codes "cas-tmp-1" ∷ []

abbrev no_files : FileSystem
no_files p = none

abbrev no_faults : PutFaults
no_faults = record {
  mkdir_all = none;
  create_temp = none;
  write = none;
  close = none;
  remove = none;
  rename = none;
  chmod = none;
}

abbrev readable : ReadFaults
readable = record { opening = none; chtimes = none }

abbrev hello : Reader
hello = record { bytes = codes "hi"; ends = none }

at_path : blob_path local digest ≡ some path
unfolding blob_path
at_path = refl

path-ne-temp : path ≢ temp
path-ne-temp e = cc

put-atomic_example :
    (r : PutResult) × (put local no_files no_faults temp 7 digest hello ≡ some r)
    × (Published temp path digest hello no_files r ⊎ Refused temp no_files r)
put-atomic_example =
    put-atomic local no_files no_faults temp path 7 digest hello at_path path-ne-temp

abbrev stored : PutResult
stored = put_at no_faults temp 7 digest hello path no_files

puts_hello : put local no_files no_faults temp 7 digest hello ≡ some stored
unfolding put blob_path
puts_hello = refl

stored_error : stored.error ≡ none
unfolding put_at copied publish
stored_error = refl

-- Results that are texts, stored as they are.
abbrev plain_texts : Codec GoString
plain_texts = record { marshal = λ s. ok s; unmarshal = λ s. ok s }

abbrev action_file : FilePath
action_file = codes "/cache" ∷ codes "ac" ∷ codes "ab" ∷ codes "cd" ∷ codes "abcdef" ∷ []

abbrev recorded : PutResult
recorded = update_action_at plain_texts no_faults temp 7 (codes "ok") action_file no_files

action_file_at : action_path local digest ≡ some action_file
unfolding action_path
action_file_at = refl

records :
    update_action_result plain_texts local no_files no_faults temp 7 digest (codes "ok")
    ≡ some recorded
unfolding update_action_result action_path
records = refl

recorded_error : recorded.error ≡ none
unfolding update_action_at
recorded_error = refl

-- A server that takes every request and commits what it got.
abbrev server : WriteStream
server = record { send = λ sent. none; close_and_recv = λ sent. ok (pos (length (body sent))) }

remote_put-Sound_example :
    Sound server false digest (codes "uploads/1/blobs/abcdef/2") (codes "hi") (
      remote_put server false digest
        (codes "uploads/1/blobs/abcdef/2")
        none
        (codes "h" ∷ ([] ∷ (codes "i" ∷ []))))
remote_put-Sound_example =
    remote_put-Sound server false digest (codes "uploads/1/blobs/abcdef/2") none
      (codes "h" ∷ ([] ∷ (codes "i" ∷ [])))

apart : (d : Digest) → blob_path local d ≢ some temp
unfolding blob_path
apart d e = elim (Bool-cases (ltb (length d.hash) 4)) [
  | inl short ↦ ground arith
  | inr long ↦
      let there : ◌≡◌ {A = Option FilePath}
          (some
            (local.root_dir ∷ codes "cas" ∷ take 2 d.hash ∷ take 2 (drop 2 d.hash) ∷ d.hash ∷ []))
          (some temp) =
        rw long at e in
      let name : d.hash ≡ codes "cas-tmp-1" = cc in
      let folder : take 2 d.hash ≡ codes "ab" = cc in
      let first : take 2 (codes "cas-tmp-1") ≡ codes "ab" = rw name at folder in ground arith
]

answers-AbideAll_example :
    AbideAll
      (view local no_files)
      (puts no_faults temp 7 digest hello ∷ gets readable 9 digest ∷ [])
      (answers local no_files (puts no_faults temp 7 digest hello ∷ gets readable 9 digest ∷ [])).1
      (view local
        (answers local no_files
          (puts no_faults temp 7 digest hello ∷ gets readable 9 digest ∷ [])).0)
answers-AbideAll_example =
    answers-AbideAll local no_files
      (puts no_faults temp 7 digest hello ∷ gets readable 9 digest ∷ []) (apart, (tt, tt))

-- A worker's output, in the inode 0, that is put under the hash of the blob.
abbrev output : FilePath
output = codes "/build" ∷ codes "out" ∷ []

abbrev worker_files : LinkedFiles
worker_files = record {
  names = λ p. if path_eq p output then some 0 else none;
  inodes = λ i. record { contents = codes "hi"; read_only = false; access_time = 3 };
  next_inode = 1;
}

abbrev smooth : PutFileFaults
smooth = record {
  stat = none;
  chtimes = none;
  mkdir_all = none;
  link = none;
  open_source = none;
  make_temp = none;
  write = none;
  close = none;
  chmod = none;
  rename = none;
  remove = none;
}

worker_files-IsFresh : IsFresh worker_files
worker_files-IsFresh q i e = elim (Bool-cases (path_eq q output)) [
  | inl hit ↦ ground arith
  | inr miss ↦ ground arith
]

put_file-Outcome_example :
    (r : PutFileResult) × (put_file local smooth output temp 7 digest worker_files ≡ some r)
    × PutFileOutcome output temp path worker_files r
put_file-Outcome_example =
    put_file-Outcome local smooth output temp path 7 digest worker_files at_path path-ne-temp
      worker_files-IsFresh

-- The link shares the inode of the output, which is read-only then.
abbrev linked : PutFileResult
linked = put_file_at local smooth output temp path 7 worker_files

linked_names :
    (linked.files.names path ≡ some 0)
    × (linked.files.names output ≡ some 0)
    × (linked.files.names temp ≡ none)
    × ((linked.files.inodes 0).read_only ≡ true)
unfolding put_file_at link_or_copy settle set_name same_inode path_eq str_eq
linked_names = (refl, refl, refl, refl)

-- The action cache service over this store.
abbrev as_it_is : Digest → Option Digest
as_it_is d = some d

abbrev other_digest : Digest
other_digest = record { hash = codes "ffffff"; size = 2 }

abbrev other_file : FilePath
other_file = codes "/cache" ∷ codes "ac" ∷ codes "ff" ∷ codes "ff" ∷ codes "ffffff" ∷ []

answered :
    handle_update_action_result as_it_is (λ _. recorded.error) digest (codes "ok") ≡ ok (codes "ok")
unfolding handle_update_action_result update_action_at
answered = refl

other_file_at : action_path local other_digest ≡ some other_file
unfolding action_path
other_file_at = refl

no_other_file : recorded.files other_file ≡ none
unfolding update_action_at path_eq str_eq
no_other_file = refl

handle_get-handle_update_example :
    (codes "ok" ≡ codes "ok")
    × (handle_get_action_result as_it_is
          (stored_results plain_texts as_it_is local recorded.files readable)
          digest
        ≡ ok (codes "ok"))
    × (handle_get_action_result as_it_is
          (stored_results plain_texts as_it_is local recorded.files readable)
          other_digest
        ≡ err (status Code.not_found))
handle_get-handle_update_example =
    handle_get-handle_update plain_texts as_it_is local no_files no_faults readable temp action_file
      7 digest digest (codes "ok") (codes "ok") (codes "ok") recorded other_digest other_digest
      other_file refl refl refl action_file_at (λ e. cc) records answered refl refl other_file_at
      no_other_file
