-- ===== src/Worker/Blobs.antt =====
-- The messages of directories, and the store that pkg/execution/worker.go fetches blobs from and
-- uploads blobs to. The digests of the SDK and the encoding of protobuf are part of the interface.
use go_rego.Base.{◌≡◌, Bool, Option, none, List, []}
use go_rego.Base.Text.{GoString}
use go_rego.Base.Results.{Error, Result, ok}
use go_rego.Storage.Digests.{Digest}

-- `repb.FileNode`, `repb.SymlinkNode`, `repb.DirectoryNode` and `repb.Directory`.
pub record FileNode : Type 0 where
  pub name : GoString
  pub digest : Digest
  pub is_executable : Bool

pub record SymlinkNode : Type 0 where
  pub name : GoString
  pub target : GoString

pub record DirectoryNode : Type 0 where
  pub name : GoString
  pub digest : Digest

pub record Directory : Type 0 where
  pub files : List FileNode
  pub symlinks : List SymlinkNode
  pub directories : List DirectoryNode

abbrev pub empty_directory : Directory
empty_directory = record { files = []; symlinks = []; directories = [] }

-- `get` is `Get` with all that its reader gives, `valid` is the error of `digest.NewFromProto`.
pub record BlobStore (S : Type 0) : Type 0 where
  pub digest_of : GoString → Digest
  pub valid : Digest → Option Error
  pub get : S → Digest → Result GoString
  pub put : S → Digest → GoString → S × Option Error
  pub marshal : Directory → Result GoString
  pub unmarshal : GoString → Result Directory

-- What a content-addressable store promises, and that protobuf reads back what it wrote.
pub record IsBlobStore {S : Type 0} (blobs : BlobStore S) : Type 0 where
  pub valid-digest_of : (b : GoString) → blobs.valid (blobs.digest_of b) ≡ none
  pub get-put :
      (s t : S) (b : GoString)
      → blobs.put s (blobs.digest_of b) b ≡ (t, none)
      → blobs.get t (blobs.digest_of b) ≡ ok b
  pub get-put_kept :
      (s t : S) (d : Digest) (b c : GoString)
      → blobs.put s (blobs.digest_of b) b ≡ (t, none)
      → blobs.get s d ≡ ok c
      → blobs.get t d ≡ ok c
  pub unmarshal-marshal :
      (d : Directory) (b : GoString) → blobs.marshal d ≡ ok b → blobs.unmarshal b ≡ ok d
