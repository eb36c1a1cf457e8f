-- ===== src/Scheduler/Queue.antt =====
-- pkg/scheduler/scheduler.go: the task queue, and the view of an operation that clients get.
use go_rego.Base.{
  ℕ, suc, Bool, true, false, Option, none, some, List, [], ◌∷◌, ◌++◌, ltb, if◌then◌else◌, length,
}
use go_rego.Base.Text.{GoString}
use go_rego.Base.Dict.{Dict, insert}
use go_rego.Base.Integers.{ℤ, add_nat}
use go_rego.Base.Results.{Code, Error, status, wrapped, Result, ok, err}
use go_rego.Storage.Digests.{Digest}
use go_rego.Scheduler.State.{
  OperationState, Stage, Metadata, Task, OperationStatus, Scheduler, update, is_completed,
}
use go_rego.Scheduler.Names.{operation_id, operation_name}
use go_rego.Scheduler.Updates.{find_op}

-- The outcome of a `longrunning.Operation`.
pub data Outcome (R : Type 0) : Type 0 where
  pending : Outcome R
  failed : Error → Outcome R
  response : R → Outcome R

pub record Operation (R : Type 0) : Type 0 where
  pub name : GoString
  pub metadata : Metadata
  pub done : Bool
  pub outcome : Outcome R

-- `anypb.New` of the protobuf library: the error with which it refuses a message, if it does.
pub record Packing (R : Type 0) : Type 0 where
  pub metadata_error : Metadata → Option Error
  pub result_error : R → Option Error

-- `len(s.taskQueue) + s.executingCount`
unfoldable pub get_pending_task_count : {R : Type 0} → Scheduler R → ℤ
get_pending_task_count s = add_nat (length s.task_queue) s.executing_count

-- `Dequeue`: `blocked` while the queue is empty and the context is live. Where a task is there and
-- the context is done too, Go chooses, by `pick`.
pub data Dequeued (S : Type 0) : Type 0 where
  blocked : Dequeued S
  stopped : Error → Dequeued S
  task : Task → S → Dequeued S

abbrev pub take_task :
    {R : Type 0} → Scheduler R → List Task → Option Error → Bool → Dequeued (Scheduler R)
take_task s [] none pick = blocked
take_task s [] (some e) pick = stopped e
take_task s (t ∷ ts) none pick = task t (record s { task_queue = ts })
take_task s (t ∷ ts) (some e) true = task t (record s { task_queue = ts })
take_task s (t ∷ ts) (some e) false = stopped e

unfoldable pub dequeue : {R : Type 0} → Scheduler R → Option Error → Bool → Dequeued (Scheduler R)
dequeue s stop pick = take_task s s.task_queue stop pick

module _ {R : Type 0} where
  -- The operation that `Enqueue` creates.
  abbrev pub new_op : GoString → Digest → ℕ → OperationStatus R
  new_op name action_digest now = record {
    name = name;
    state = OperationState.queued;
    metadata = record { stage = Stage.queued; action_digest = action_digest };
    result = none;
    error = none;
    created_at = now;
    updated_at = now;
  }

  abbrev pub admit : Scheduler R → GoString → GoString → Digest → Bool → ℕ → Scheduler R
  admit s name id action_digest skip_cache now = record s {
    heap = update s.heap s.next_pointer (some (new_op name action_digest now));
    next_pointer = suc s.next_pointer;
    operations = insert name s.next_pointer s.operations;
    task_queue =
        s.task_queue
        ++ (record {
          operation_id = id;
          action_digest = action_digest;
          skip_cache = skip_cache;
          queued_at = now;
        }
            ∷ []);
  }

module _ {R : Type 0} (pb : Packing R) where
  abbrev outcome_of : OperationStatus R → Result (Outcome R)
  outcome_of op = elim op.error [
    | some e ↦ ok (failed e)
    | none ↦ elim op.result [
      | none ↦ ok pending
      | some r ↦ elim (pb.result_error r) [ some e ↦ err (wrapped e) | none ↦ ok (response r) ]
    ]
  ]

  unfoldable pub to_proto : OperationStatus R → Result (Operation R)
  to_proto op = elim (pb.metadata_error op.metadata) [
    | some e ↦ err (wrapped e)
    | none ↦ elim (if is_completed op.state then outcome_of op else ok pending) [
      | err e ↦ err e
      | ok outcome ↦ ok (record {
        name = op.name;
        metadata = op.metadata;
        done = is_completed op.state;
        outcome = outcome;
      })
    ]
  ]

  -- `Enqueue`, with the identifier that the uuid library drew.
  unfoldable pub enqueue :
      Scheduler R → Digest → Bool → GoString → GoString → ℕ → Scheduler R × Result (Operation R)
  unfolding to_proto
  enqueue s action_digest skip_cache override uuid now =
      let id = operation_id s.node_id override uuid in
      let name = operation_name s.node_id override uuid in
      if ltb (length s.task_queue) s.queue_size
      then (admit s name id action_digest skip_cache now, to_proto (new_op name action_digest now))
      else (s, err (status Code.resource_exhausted))

  unfoldable pub get_operation : Scheduler R → GoString → Result (Operation R)
  unfolding find_op to_proto
  get_operation s name = elim (find_op s name) [
    | none ↦ err (status Code.not_found)
    | some (_, op) ↦ to_proto op
  ]

  -- Operations that do not convert are left out.
  abbrev keep_ok : Option (OperationStatus R) → List (Operation R) → List (Operation R)
  keep_ok none ops = ops
  keep_ok (some op) ops = elim (to_proto op) [ err _ ↦ ops | ok proto ↦ proto ∷ ops ]

  unfoldable pub list_entries : (ℕ → Option (OperationStatus R)) → Dict ℕ → List (Operation R)
  unfolding to_proto
  list_entries heap [] = []
  list_entries heap ((_, p) ∷ m) = keep_ok (heap p) (list_entries heap m)

  unfoldable pub list_operations : Scheduler R → List (Operation R)
  unfolding list_entries
  list_operations s = list_entries s.heap s.operations
