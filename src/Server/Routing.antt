-- ===== src/Server/Routing.antt =====
-- pkg/server/execution.go: where requests go, over the nodes of a cluster.
use go_rego.Base.{
  ℕ, ◌≡◌, ◌≢◌, ◌↔◌, refl, Bool, true, Option, none, some, [], ◌∷◌, ◌++◌, arith, length, ◌<◌,
}
use go_rego.Base.Text.{GoString, str_eq_refl}
use go_rego.Base.Dict.{lookup-insert}
use go_rego.Storage.Digests.{Digest}
use go_rego.Cluster.Peers.{NodeState}
use go_rego.Scheduler.State.{OperationState, OperationStatus, Task, Scheduler}
use go_rego.Scheduler.Names.{operation_id, operation_name}
use go_rego.Scheduler.Updates.{find_op, complete, change_op, notify_subscribers, completed_stage}
use go_rego.Scheduler.Queue.{Packing, enqueue, admit, new_op, to_proto}
use go_rego.Worker.Tasks.{start_task, task_name}
use go_rego.Worker.Cancelled.{find_op-change_op, start_task_found}
use go_rego.Server.Execution.{ExecuteRequest, forwarded, execute, execute_cached, execute_locally}

abbrev pub queued_task : ExecuteRequest → GoString → ℕ → Task
queued_task req id now = record {
  operation_id = id;
  action_digest = req.action_digest;
  skip_cache = true;
  queued_at = now;
}

module _ {R A : Type 0} (pb : Packing R) (cached_response : A → R) where
  cached-ne-forwarded :
      (s : Scheduler R) (req : ExecuteRequest) (result : A) (uuid : GoString) (now later : ℕ)
      (p : NodeState)
      → (execute_cached pb cached_response s req result uuid now later).1 ≢ forwarded p
  unfolding execute_cached
  cached-ne-forwarded s req result uuid now later p e = ground arith

  locally-ne-forwarded :
      (s : Scheduler R) (req : ExecuteRequest) (origin : Option GoString) (uuid : GoString)
      (now : ℕ) (p : NodeState)
      → (execute_locally pb cached_response s req origin uuid now).1 ≢ forwarded p
  unfolding execute_locally
  locally-ne-forwarded s req origin uuid now p e = ground arith

  -- When `Execute` hands a request to a peer.
  pub execute-eq-forwarded_iff :
      (s : Scheduler R) (req : ExecuteRequest) (cached : Option A) (origin : Option GoString)
      (peer : Option NodeState) (uuid : GoString) (now later : ℕ) (p : NodeState)
      → ((execute pb cached_response s req cached origin peer uuid now later).1 ≡ forwarded p)
        ↔ ((cached ≡ none) × (origin ≡ none) × (peer ≡ some p))
  unfolding execute
  execute-eq-forwarded_iff s req (some result) origin peer uuid now later p =
      (λ e. absurd (cached-ne-forwarded s req result uuid now later p e), λ h. absurd (cc h.0))
  execute-eq-forwarded_iff s req none (some o) peer uuid now later p =
      (λ e. absurd (locally-ne-forwarded s req (some o) uuid now p e), λ h. absurd (cc h.1))
  execute-eq-forwarded_iff s req none none none uuid now later p =
      (λ e. absurd (locally-ne-forwarded s req none uuid now p e), λ h. absurd (cc h.2))
  execute-eq-forwarded_iff s req none none (some q) uuid now later p =
      (λ e. (refl, refl, ground arith), λ h. ground arith)

  pub find_op-admit :
      (s : Scheduler R) (name id : GoString) (d : Digest) (skip : Bool) (now : ℕ)
      → find_op (admit s name id d skip now) name ≡ some (s.next_pointer, new_op name d now)
  unfolding find_op
  find_op-admit s name id d skip now =
      ground (arith, lookup-insert name name s.next_pointer s.operations, str_eq_refl name)

  change_op-task_queue :
      (s : Scheduler R) (name : GoString) (p : ℕ) (op new : OperationStatus R)
      → (change_op s name p op new).task_queue ≡ s.task_queue
  unfolding change_op notify_subscribers
  change_op-task_queue s name p op new = refl

  complete-find_op :
      (s : Scheduler R) (name : GoString) (r : R) (now p : ℕ) (op : OperationStatus R)
      → find_op s name ≡ some (p, op)
      → ((complete s name r now).task_queue ≡ s.task_queue)
        × ((o : OperationStatus R) × (find_op (complete s name r now) name ≡ some (p, o))
            × (o.state ≡ OperationState.completed))
  unfolding complete
  complete-find_op s name r now p op e =
      let new = record op {
        state = OperationState.completed;
        result = some r;
        metadata = completed_stage op.metadata;
        updated_at = now;
      } in
      (
        rw (e, complete) (change_op-task_queue s name p op new),
        (new, rw (e, complete) (find_op-change_op s name p op new e), refl),
      )

  cached_lem :
      (s : Scheduler R) (req : ExecuteRequest) (result : A) (uuid : GoString) (now later : ℕ)
      → length s.task_queue < s.queue_size
      → pb.metadata_error
          (new_op {R = R} (operation_name s.node_id [] uuid) req.action_digest now).metadata
        ≡ none
      → (execute_cached pb cached_response s req result uuid now later).0
        ≡ complete
            (admit s
              (operation_name s.node_id [] uuid)
              (operation_id s.node_id [] uuid)
              req.action_digest
              true
              now)
            (operation_name s.node_id [] uuid)
            (cached_response result)
            later
  unfolding execute_cached enqueue to_proto
  cached_lem s req result uuid now later room packs = ground arith

  -- A cache hit leaves the task of the action in the queue, although its operation is reported as
  -- completed with the cached result; the worker that takes the task executes the action again, and
  -- puts the completed operation back to executing. (The queue has room, and the metadata of the
  -- operation can be packed.)
  pub execute-cached_task_queue :
      (s : Scheduler R) (req : ExecuteRequest) (result : A) (origin : Option GoString)
      (peer : Option NodeState) (uuid : GoString) (now later start : ℕ)
      → length s.task_queue < s.queue_size
      → pb.metadata_error
          (new_op {R = R} (operation_name s.node_id [] uuid) req.action_digest now).metadata
        ≡ none
      → let task = queued_task req (operation_id s.node_id [] uuid) now in
        let s' = (execute pb cached_response s req (some result) origin peer uuid now later).0 in
        (s'.task_queue ≡ s.task_queue ++ (task ∷ []))
        × ((o : OperationStatus R) × (find_op s' (task_name task) ≡ some (s.next_pointer, o))
            × (o.state ≡ OperationState.completed))
        × ((o : OperationStatus R) × (find_op (start_task s' task start) (task_name task)
              ≡ some (s.next_pointer, o))
            × (o.state ≡ OperationState.executing))
  unfolding execute operation_name
  execute-cached_task_queue s req result origin peer uuid now later start room packs =
      let id = operation_id s.node_id [] uuid in
      let name = operation_name s.node_id [] uuid in
      let s1 = admit s name id req.action_digest true now in
      let op = new_op name req.action_digest now in
      let known = find_op-admit s name id req.action_digest true now in
      let (queue, (o, found, over)) =
        complete-find_op s1 name (cached_response result) later s.next_pointer op known in
      let (o', found', busy, _) =
        start_task_found _ (queued_task req id now) s.next_pointer start o found in
      rw (cached_lem s req result uuid now later room packs)
        (queue, (o, found, over), (o', found', busy))
