-- ===== src/Proxy/Actions.antt =====
-- pkg/proxy/proxy.go: the action results, and pkg/storage/null.go: the remote store where none is set.
-- Every remote store of the program is an action cache too.
use go_rego.Base.{ℕ, false, Option, none, some, length}
use go_rego.Base.Results.{Code, Error, status, not_exist, Result, ok, err}
use go_rego.Storage.Digests.{Digest}
use go_rego.Storage.Files.{FilePath, FileSystem}
use go_rego.Storage.Local.{LocalStore, PutFaults, ReadFaults, PutResult, refuse}
use go_rego.Storage.Actions.{Codec, action_path, get_action_at, update_action_at}
use go_rego.Proxy.Store.{Remote}

-- A `storage.ActionCache`, with the state that it keeps elsewhere.
pub record ActionCache (S A : Type 0) : Type 0 where
  pub get_action_result : S → Digest → Result A
  pub update_action_result : S → Digest → A → S × Option Error

-- `NullStore` keeps nothing, and drains what it is given.
unfoldable pub null_store : Remote Unit
null_store = record {
  has = λ s digest. ok false;
  get = λ s digest. err not_exist;
  put =
      λ s digest reader. record { state = s; consumed = length reader.bytes; error = reader.ends };
}

unfoldable pub null_actions : {A : Type 0} → ActionCache Unit A
null_actions = record {
  get_action_result = λ s digest. err (status Code.not_found);
  update_action_result = λ s digest result. (s, none);
}

module _ {S A : Type 0} (codec : Codec A) (remote : ActionCache S A) (local : LocalStore) where
  -- A result that the remote store gives is cached locally, whether that works or not.
  abbrev pub proxy_get_action_at :
      S
      → FileSystem
      → ReadFaults
      → PutFaults
      → FilePath
      → ℕ
      → Digest
      → FilePath
      → FileSystem × Result A
  proxy_get_action_at state files y x temp now digest path =
      elim (get_action_at codec files y path) [
        | ok result ↦ (files, ok result)
        | err _ ↦ elim (remote.get_action_result state digest) [
          | err e ↦ (files, err e)
          | ok result ↦ ((update_action_at codec x temp now result path files).files, ok result)
        ]
      ]

  unfoldable pub proxy_get_action_result :
      S
      → FileSystem
      → ReadFaults
      → PutFaults
      → FilePath
      → ℕ
      → Digest
      → Option (FileSystem × Result A)
  proxy_get_action_result state files y x temp now digest = elim (action_path local digest) [
    | none ↦ none
    | some path ↦ some (proxy_get_action_at state files y x temp now digest path)
  ]

  abbrev pub proxy_update_action_at :
      S × Option Error
      → FileSystem
      → PutFaults
      → FilePath
      → ℕ
      → A
      → Option FilePath
      → Option (S × PutResult)
  proxy_update_action_at (state, some e) files x temp now result path = some (state, refuse files e)
  proxy_update_action_at (state, none) files x temp now result none = none
  proxy_update_action_at (state, none) files x temp now result (some path) =
      some (state, update_action_at codec x temp now result path files)

  -- The remote store comes first.
  unfoldable pub proxy_update_action_result :
      S → FileSystem → PutFaults → FilePath → ℕ → Digest → A → Option (S × PutResult)
  proxy_update_action_result state files x temp now digest result =
      proxy_update_action_at (remote.update_action_result state digest result) files x temp now
        result (action_path local digest)
