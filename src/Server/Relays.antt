-- ===== src/Server/Relays.antt =====
-- pkg/server/execution.go: requests at another node. The gRPC library is an argument: its metadata,
-- the client that it makes for an address, what a call on it gives, and the errors of `stream.Send`.
pub mod Prefixes
pub mod Hops
use go_rego.Base.{ℕ, suc, Option, none, some, List, [], ◌∷◌}
use go_rego.Base.Text.{GoString, codes}
use go_rego.Base.Dict.{Dict, lookup, insert}
use go_rego.Base.Results.{Code, Error, status, Result, ok, err}
use go_rego.Cluster.Peers.{NodeState}
use go_rego.Scheduler.State.{Scheduler}
use go_rego.Scheduler.Queue.{Packing, Operation}
use go_rego.Server.Execution.{ExecuteRequest, Route, execute_locally}

-- The stream of a peer: its messages, and the error that ends them, none for `io.EOF`.
pub record PeerStream (R : Type 0) : Type 0 where
  pub messages : List (Operation R)
  pub ends : Option Error

-- What the client was sent, and what the handler returns.
pub record Relayed (R : Type 0) : Type 0 where
  pub sent : List (Operation R)
  pub error : Option Error

abbrev pub relayed_after : {R : Type 0} → Operation R → Relayed R → Relayed R
relayed_after op r = record r { sent = op ∷ r.sent }

-- The loop over `peerStream.Recv`; `send n` is the error of the n-th `Send`.
unfoldable pub relay_loop :
    {R : Type 0} → (ℕ → Option Error) → ℕ → List (Operation R) → Option Error → Relayed R
relay_loop send n [] ends = record { sent = []; error = ends }
relay_loop send n (op ∷ ops) ends = elim (send n) [
  | some e ↦ record { sent = []; error = some e }
  | none ↦ relayed_after op (relay_loop send (suc n) ops ends)
]

unfoldable pub relay : {R : Type 0} → (ℕ → Option Error) → PeerStream R → Relayed R
unfolding relay_loop
relay send stream = relay_loop send 0 stream.messages stream.ends

-- `grpc.NewClient` is `dial`; a connection that was made is kept. The map is read again under the
-- write lock, and `raced` is what it holds then.
unfoldable pub get_or_create_conn :
    {C : Type 0} → (GoString → Result C) → (conns raced : Dict C) → GoString → Dict C × Result C
get_or_create_conn dial conns raced addr = elim (lookup addr conns) [
  | some conn ↦ (conns, ok conn)
  | none ↦ elim (lookup addr raced) [
    | some conn ↦ (raced, ok conn)
    | none ↦ elim (dial addr) [
      | err e ↦ (raced, err e)
      | ok conn ↦ (insert addr conn raced, ok conn)
    ]
  ]
]

-- `metadata.MD`: `Pairs()`, `Set` of one value, and `Get`.
pub record Metadata (M : Type 0) : Type 0 where
  pub pairs : M
  pub set : M → (key value : GoString) → M
  pub get : M → GoString → List GoString

abbrev pub forwarded_from : GoString
forwarded_from = codes "x-gorego-forwarded-from"

-- The metadata of a forwarded call; the node's identifier is none without a cluster manager.
unfoldable pub outgoing : {M : Type 0} → Metadata M → Option GoString → M
outgoing md none = md.pairs
outgoing md (some node) = md.set md.pairs forwarded_from node

-- The node that forwarded a call, by the metadata that came with it.
unfoldable pub incoming_origin : {M : Type 0} → Metadata M → Option M → Option GoString
incoming_origin md none = none
incoming_origin md (some m) = elim (md.get m forwarded_from) [ [] ↦ none | node ∷ _ ↦ some node ]

-- What becomes of a forwarded request: it is relayed, or executed here.
pub data Forwarding (R : Type 0) : Type 0 where
  relayed : Relayed R → Forwarding R
  local : Scheduler R → Route R → Forwarding R

abbrev pub fall_back :
    {R A : Type 0}
    → Packing R
    → (A → R)
    → Scheduler R
    → ExecuteRequest
    → Option GoString
    → GoString
    → ℕ
    → Forwarding R
fall_back pb cached_response s req origin uuid now =
    let (t, route) = execute_locally pb cached_response s req origin uuid now in local t route

module _ {C M R A : Type 0} (pb : Packing R) (cached_response : A → R) (md : Metadata M) where
  -- `forwardExecute`: `call conn req m` is `client.Execute` with the metadata `m`.
  unfoldable pub forward_execute :
      Scheduler R
      → ExecuteRequest
      → Option GoString
      → Result C
      → (C → ExecuteRequest → M → Result (PeerStream R))
      → Option GoString
      → (ℕ → Option Error)
      → GoString
      → ℕ
      → Forwarding R
  unfolding relay outgoing
  forward_execute s req origin conn call node send uuid now = elim conn [
    | err _ ↦ fall_back pb cached_response s req origin uuid now
    | ok c ↦ elim (call c req (outgoing md node)) [
      | err _ ↦ fall_back pb cached_response s req origin uuid now
      | ok stream ↦ relayed (relay send stream)
    ]
  ]

module _ {C R : Type 0} where
  -- `forwardWaitExecution`, for the name of an operation.
  unfoldable pub forward_wait_execution :
      Result C → (C → GoString → Result (PeerStream R)) → GoString → (ℕ → Option Error) → Relayed R
  unfolding relay
  forward_wait_execution conn call name send = elim conn [
    | err _ ↦ record { sent = []; error = some (status Code.unavailable) }
    | ok c ↦ elim (call c name) [
      | err e ↦ record { sent = []; error = some e }
      | ok stream ↦ relay send stream
    ]
  ]
