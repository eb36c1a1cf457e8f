-- ===== src/Server/ActionCache.antt =====
-- pkg/server/actioncache.go: the action cache service, over a store of results. The SDK's conversion
-- of digests is an argument.
pub mod Stored
use go_rego.Base.{Bool, true, false, Option, none, some, if◌then◌else◌}
use go_rego.Base.Results.{Code, Error, status, Result, ok, err}
use go_rego.Storage.Digests.{Digest}
use go_rego.Server.ByteStream.{is_missing}

abbrev pub refusal : Error → Error
refusal e = status (if is_missing e then Code.not_found else Code.internal)

module _ {A : Type 0} (from_proto : Digest → Option Digest) where
  -- `answer` is what the store's `GetActionResult` gives.
  unfoldable pub handle_get_action_result : (answer : Digest → Result A) → Digest → Result A
  handle_get_action_result answer digest = elim (from_proto digest) [
    | none ↦ err (status Code.invalid_argument)
    | some d ↦ elim (answer d) [ err e ↦ err (refusal e) | ok result ↦ ok result ]
  ]

  -- `answer` is the error of the store's `UpdateActionResult`.
  unfoldable pub handle_update_action_result :
      (answer : Digest → Option Error) → Digest → A → Result A
  handle_update_action_result answer digest result = elim (from_proto digest) [
    | none ↦ err (status Code.invalid_argument)
    | some d ↦ elim (answer d) [ some e ↦ err (status Code.internal) | none ↦ ok result ]
  ]
