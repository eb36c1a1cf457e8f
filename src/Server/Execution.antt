-- ===== src/Server/Execution.antt =====
-- pkg/server/execution.go: what `Execute` and `WaitExecution` do before they stream updates.
-- The SDK's conversion of digests, the action cache, the incoming metadata, the peers and the
-- identifier drawn are arguments; what follows is in Streams and Relays.
use go_rego.Base.{ℕ, Bool, true, not, ◌&&◌, Option, none, some, [], if◌then◌else◌}
use go_rego.Base.Text.{GoString, str_eq}
use go_rego.Base.Results.{Code, Error, status, ok, err}
use go_rego.Storage.Digests.{Digest}
use go_rego.Cluster.Peers.{NodeState}
use go_rego.Scheduler.State.{Scheduler}
use go_rego.Scheduler.Names.{is_empty, parse_operation_node_id}
use go_rego.Scheduler.Updates.{complete}
use go_rego.Scheduler.Queue.{Packing, Operation, enqueue, get_operation}
use go_rego.Scheduler.Subscriptions.{subscribe}

pub record ExecuteRequest : Type 0 where
  pub action_digest : Digest
  pub skip_cache_lookup : Bool

-- How a call goes on: with an error, with one operation to send, at a peer, or with the updates of a
-- channel, after the operation was sent.
pub data Route (R : Type 0) : Type 0 where
  refused : Error → Route R
  sent : Operation R → Route R
  forwarded : NodeState → Route R
  streamed : Operation R → ℕ → Route R

-- The value of `x-gorego-forwarded-from`, and its use as the override.
abbrev pub origin_node : Option GoString → GoString
origin_node none = []
origin_node (some node) = node

module _ {R A : Type 0} (pb : Packing R) (cached_response : A → R) where
  -- The cached result under a request, if the lookup is wanted and succeeds.
  abbrev pub cache_lookup :
      (Digest → Option Digest) → (Digest → Option A) → ExecuteRequest → Option A
  cache_lookup from_proto cache req =
      if req.skip_cache_lookup
      then none
      else (elim (from_proto req.action_digest) [ none ↦ none | some d ↦ cache d ])

  abbrev send_cached : Scheduler R → Operation R → A → ℕ → Scheduler R × Route R
  send_cached s op result now =
      let s' = complete s op.name (cached_response result) now in
      (s', elim (get_operation pb s' op.name) [ err e ↦ refused e | ok final ↦ sent final ])

  unfoldable pub execute_cached :
      Scheduler R → ExecuteRequest → A → GoString → (now later : ℕ) → Scheduler R × Route R
  execute_cached s req result uuid now later =
      let (s', r) = enqueue pb s req.action_digest true [] uuid now in
      elim r [ err e ↦ (s', refused e) | ok op ↦ send_cached s' op result later ]

  -- `executeLocally` is this too.
  unfoldable pub execute_locally :
      Scheduler R → ExecuteRequest → Option GoString → GoString → ℕ → Scheduler R × Route R
  execute_locally s req origin uuid now =
      let (s', r) =
        enqueue pb s req.action_digest req.skip_cache_lookup (origin_node origin) uuid now in
      elim r [
        | err e ↦ (s', refused e)
        | ok op ↦ let (ch, t) = subscribe s' op.name in (t, streamed op ch)
      ]

  -- `peer` is what `SelectBestPeer` gives, none without a cluster manager; `origin` is none unless
  -- the request was forwarded.
  unfoldable pub execute :
      Scheduler R
      → ExecuteRequest
      → Option A
      → Option GoString
      → Option NodeState
      → GoString
      → (now later : ℕ) → Scheduler R × Route R
  unfolding execute_cached execute_locally
  execute s req (some result) origin peer uuid now later =
      execute_cached s req result uuid now later
  execute s req none none (some peer) uuid now later = (s, forwarded peer)
  execute s req none none none uuid now later = execute_locally s req none uuid now
  execute s req none (some origin) peer uuid now later =
      execute_locally s req (some origin) uuid now

-- `local` is the node's identifier in the cluster, none without a cluster manager.
abbrev pub owner_elsewhere : Option GoString → GoString → Option GoString
owner_elsewhere none name = none
owner_elsewhere (some here) name =
    let node = (parse_operation_node_id name).0 in
    if not (is_empty node) && not (str_eq node here) then some node else none

module _ {R : Type 0} (pb : Packing R) where
  unfoldable pub wait_execution :
      Scheduler R
      → Option GoString
      → (GoString → Option NodeState)
      → GoString
      → Scheduler R × Route R
  wait_execution s here peers name = elim (owner_elsewhere here name) [
    | some node ↦ elim (peers node) [
      | none ↦ (s, refused (status Code.not_found))
      | some peer ↦ (s, forwarded peer)
    ]
    | none ↦ elim (get_operation pb s name) [
      | err e ↦ (s, refused e)
      | ok op ↦
          if op.done then (s, sent op) else (let (ch, t) = subscribe s name in (t, streamed op ch))
    ]
  ]
