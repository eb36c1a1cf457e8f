-- ===== src/Server/ActionCache/Stored.antt =====
-- pkg/server/actioncache.go and pkg/storage/local.go: the service over the local store.
use go_rego.Base.{ℕ, ◌≡◌, ◌≢◌, refl, Option, none, some, inl, inr, Option-cases}
use go_rego.Base.Text.{GoString}
use go_rego.Base.Results.{Code, Error, status, not_exist, plain, Result, ok, err}
use go_rego.Storage.Digests.{Digest}
use go_rego.Storage.Files.{FilePath, FileSystem}
use go_rego.Storage.Local.{LocalStore, PutFaults, ReadFaults, PutResult, open_file}
use go_rego.Storage.Actions.{
  Codec, action_path, get_action_at, get_action_result, update_action_result,
}
use go_rego.Storage.Recorded.{update-get_action_result}
use go_rego.Server.ActionCache.{handle_get_action_result, handle_update_action_result}

-- What the local store answers; the service does not outlive a panic.
abbrev pub local_answer : {A : Type 0} → Option (Result A) → Result A
local_answer none = err plain
local_answer (some r) = r

module _ {A : Type 0} (codec : Codec A) (from_proto : Digest → Option Digest) (s : LocalStore) where
  abbrev pub stored_results : FileSystem → ReadFaults → Digest → Result A
  stored_results files y d = local_answer (get_action_result codec s files y d)

  updated-ok :
      (digest d : Digest) (e : Option Error) (result given : A)
      → from_proto digest ≡ some d
      → handle_update_action_result from_proto (λ _. e) digest result ≡ ok given
      → (e ≡ none) × (given ≡ result)
  unfolding handle_update_action_result
  updated-ok digest d e result given known h = elim (Option-cases e) [
    | inl fine ↦
        let same : ◌≡◌ {A = Result A} (ok result) (ok given) =
          rw (handle_update_action_result, known, fine) at h in
        let same_result : given ≡ result = cc in (fine, same_result)
    | inr (er, bad) ↦ absurd (wrong er (rw (handle_update_action_result, known, bad) at h))
  ]
    where
      wrong : (er : Error) → ◌≢◌ {A = Result A} (err (status Code.internal)) (ok given)
      wrong er h = cc

  -- Over the local store, what `UpdateActionResult` answers without an error is the result that it was
  -- given, and `GetActionResult` then answers that result; for a digest of which the store has no
  -- file, `GetActionResult` answers that it is not found. (Both digests are well formed, the library
  -- reads back what it has marshalled, the temporary name is not the result's, and the file can be
  -- opened.)
  pub handle_get-handle_update :
      (files : FileSystem) (x : PutFaults) (y : ReadFaults) (temp path : FilePath) (now : ℕ)
      (digest d : Digest) (result given : A) (bytes : GoString) (r : PutResult) (other o : Digest)
      (other_path : FilePath)
      → from_proto digest ≡ some d
      → codec.marshal result ≡ ok bytes
      → codec.unmarshal bytes ≡ ok result
      → action_path s d ≡ some path
      → path ≢ temp
      → update_action_result codec s files x temp now d result ≡ some r
      → handle_update_action_result from_proto (λ _. r.error) digest result ≡ ok given
      → y.opening ≡ none
      → from_proto other ≡ some o
      → action_path s o ≡ some other_path
      → r.files other_path ≡ none
      → (given ≡ result)
        × (handle_get_action_result from_proto (stored_results r.files y) digest ≡ ok result)
        × (handle_get_action_result from_proto (stored_results r.files y) other
            ≡ err (status Code.not_found))
  unfolding handle_get_action_result get_action_result get_action_at open_file
  handle_get-handle_update files x y temp path now digest d result given bytes r other o other_path
        known coded decoded at ne h answered opens known_o at_o missing =
      let (fine, same) = updated-ok digest d r.error result given known answered in
      let got =
        update-get_action_result codec s files x y temp path now d result bytes r coded decoded at
          ne h fine opens in
      let found : stored_results r.files y d ≡ ok result = rw got refl in
      let lost : stored_results r.files y o ≡ err not_exist =
        rw (get_action_result, at_o, get_action_at, open_file, opens, missing) refl in
      (
        same,
        rw (handle_get_action_result, known, found) refl,
        rw (handle_get_action_result, known_o, lost) refl,
      )
