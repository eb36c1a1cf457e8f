-- ===== src/Server/Examples.antt =====
-- The theorems on the execution service, at concrete requests.
use go_rego.Base.{
  ℕ, zero, suc, ◌⊎◌, ◌≡◌, ◌≢◌, ◌↔◌, refl, false, Option, none, some, List, [], ◌∷◌, ◌++◌, arith,
}
use go_rego.Base.Text.{GoString, codes, str_eq_refl}
use go_rego.Base.Dict.{Dict, lookup, insert, lookup-insert}
use go_rego.Base.Results.{Code, Error, status, Result, ok, err}
use go_rego.Cluster.Peers.{NodeState}
use go_rego.Scheduler.State.{OperationState, Stage, OperationStatus, Scheduler, Task, new_scheduler}
use go_rego.Scheduler.Names.{operation_name, operation_id}
use go_rego.Scheduler.Updates.{find_op}
use go_rego.Scheduler.Queue.{Packing, Operation, pending, new_op}
use go_rego.Worker.Tasks.{task_name, start_task}
use go_rego.Server.Execution.{ExecuteRequest, Route, refused, forwarded, execute, wait_execution}
use go_rego.Server.Routing.{execute-cached_task_queue, queued_task}
use go_rego.Server.Relays.{
  PeerStream, Relayed, relay, relayed, fall_back, forward_execute, Metadata, outgoing,
  incoming_origin,
}
use go_rego.Server.Relays.Hops.{IsMetadata, at_peer, forward_execute-at_peer}
use go_rego.Server.Relays.Prefixes.{IsPrefix, forward_execute_lem}
use go_rego.Server.Waiting.{ask_peer, wait_execution-forwarded}
use go_rego.Scheduler.Events.{Event, enqueues, run}

abbrev packs : Packing ℕ
packs = record { metadata_error = λ _. none; result_error = λ _. none }

abbrev request : ExecuteRequest
request = record {
  action_digest = record { hash = codes "ab"; size = 3 };
  skip_cache_lookup = false;
}

abbrev idle : Scheduler ℕ
idle = new_scheduler 3 (codes "node-1")

abbrev peer : NodeState
peer = record {
  name = codes "node-2";
  grpc_address = codes "10.0.0.2:50051";
  pending_tasks = 0;
  max_concurrency = 4;
}

abbrev no_result : Option ℕ
no_result = none

abbrev task : Task
task = queued_task request (operation_id (codes "node-1") [] (codes "4f2a")) 5

execute-cached_task_queue_example :
    let s' = (execute packs (λ r. r) idle request (some 42) none none (codes "4f2a") 5 6).0 in
    (s'.task_queue ≡ idle.task_queue ++ (task ∷ []))
    × ((o : OperationStatus ℕ) × (find_op s' (task_name task) ≡ some (0, o))
        × (o.state ≡ OperationState.completed))
    × ((o : OperationStatus ℕ) × (find_op (start_task s' task 7) (task_name task) ≡ some (0, o))
        × (o.state ≡ OperationState.executing))
unfolding new_scheduler
execute-cached_task_queue_example =
    execute-cached_task_queue packs (λ r. r) idle request 42 none none (codes "4f2a") 5 6 7
      (ground arith) refl

abbrev peers : GoString → Option NodeState
peers name = some peer

-- The forwarding node has taken one request of its own.
abbrev own_calls : List (Event ℕ)
own_calls = enqueues request.action_digest false [] (codes "77") 3 ∷ []

wait_execution-forwarded_example :
    let name = operation_name (codes "node-2") (codes "node-1") (codes "4f2a") in
    let executing : Scheduler ℕ = new_scheduler 3 (codes "node-2") in
    let kept =
      (execute packs
        (λ r. r)
        executing
        request
        no_result
        (some (codes "node-1"))
        none
        (codes "4f2a")
        5
        6).0 in
    let at_origin = run packs (new_scheduler 3 (codes "node-1")) own_calls in
    (find_op kept name ≡ some (0, new_op name request.action_digest 5))
    × ((t : Scheduler ℕ) (here : GoString)
        → here ≢ codes "node-1"
        → wait_execution packs t (some here) peers name ≡ (t, ask_peer (peers (codes "node-1"))))
    × (wait_execution packs at_origin (some (codes "node-1")) peers name
        ≡ (at_origin, refused (status Code.not_found)))
unfolding new_scheduler
wait_execution-forwarded_example =
    wait_execution-forwarded packs (λ r. r) (new_scheduler 3 (codes "node-2")) request
      (codes "node-1") (codes "4f2a") none 5 6 3 own_calls peers (ground arith) (λ e. cc)
      (ground arith) (λ e. cc) (ground arith) ((ground arith, λ e. ground arith), tt)

-- A peer that sends one operation twice, to a client that takes the first message only.
abbrev answered : Operation ℕ
answered = record {
  name = codes "operations/node-2:4f2a";
  metadata = record { stage = Stage.queued; action_digest = request.action_digest };
  done = false;
  outcome = pending;
}

abbrev peer_stream : PeerStream ℕ
peer_stream = record { messages = answered ∷ (answered ∷ []); ends = none }

abbrev connected : Result ℕ
connected = ok 7

-- Metadata as a list of keys with their values, and a request that a client sent without any.
abbrev headers : Metadata (Dict (List GoString))
headers = record {
  pairs = [];
  set = λ m key value. insert key (value ∷ []) m;
  get = λ m key. elim (lookup key m) [ none ↦ [] | some values ↦ values ];
}

headers-IsMetadata : IsMetadata headers
headers-IsMetadata = record {
  get-set = λ m key value. ground (arith, lookup-insert key key (value ∷ []) m, str_eq_refl key);
}

abbrev call : ℕ → ExecuteRequest → Dict (List GoString) → Result (PeerStream ℕ)
call conn req m = ok peer_stream

abbrev first_only : ℕ → Option Error
first_only zero = none
first_only (suc n) = some (status Code.canceled)

forward_execute_lem_example :
    let f =
      forward_execute packs
        (λ r. r)
        headers
        idle
        request
        none
        connected
        call
        (some (codes "node-1"))
        first_only
        (codes "4f2a")
        5 in
    ((c : ℕ) × (stream : PeerStream ℕ) × (r : Relayed ℕ) × (connected ≡ ok c)
      × (call c request (outgoing headers (some (codes "node-1"))) ≡ ok stream)
      × (f ≡ relayed r)
      × IsPrefix first_only 0 stream.messages stream.ends r)
    ⊎ ((((e : Error) × (connected ≡ err e))
          ⊎ ((c : ℕ) × (e : Error) × (connected ≡ ok c)
              × (call c request (outgoing headers (some (codes "node-1"))) ≡ err e)))
        × (f ≡ fall_back packs (λ r. r) idle request none (codes "4f2a") 5))
forward_execute_lem_example =
    forward_execute_lem packs (λ r. r) headers idle request none connected call
      (some (codes "node-1")) first_only (codes "4f2a") 5

abbrev serve : Scheduler ℕ × Route ℕ → Result (PeerStream ℕ)
serve x = ok peer_stream

forward_execute-at_peer_example :
    ((p : NodeState)
      → ((execute packs (λ r. r) idle request no_result none (some peer) (codes "4f2a") 5 6).1
          ≡ forwarded p)
        ↔ ((no_result ≡ none) × (◌≡◌ {A = Option GoString} none none) × (some peer ≡ some p)))
    × ((x : Scheduler ℕ × Route ℕ) × ((q : NodeState) → x.1 ≢ forwarded q)
        × (forward_execute packs
              (λ r. r)
              headers
              idle
              request
              none
              connected
              (at_peer packs
                (λ r. r)
                headers
                headers-IsMetadata
                serve
                idle
                none
                (some peer)
                (codes "9c")
                7
                8)
              (some (codes "node-1"))
              first_only
              (codes "4f2a")
              5
            ≡ (elim (serve x) [
              | err _ ↦ fall_back packs (λ r. r) idle request none (codes "4f2a") 5
              | ok stream ↦ relayed (relay first_only stream)
            ])))
unfolding incoming_origin
forward_execute-at_peer_example =
    forward_execute-at_peer packs (λ r. r) headers headers-IsMetadata idle idle request none
      (codes "node-1") none none (some peer) (some peer) (codes "4f2a") (codes "9c") 5 6 7 8 7
      first_only serve
