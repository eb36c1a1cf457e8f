-- ===== src/Worker/Cancelled.antt =====
-- pkg/execution/worker.go and pkg/scheduler/scheduler.go: a task whose operation was cancelled.
use go_rego.Base.{ℕ, ◌≡◌, refl, none, some, true, arith}
use go_rego.Base.Text.{GoString}
use go_rego.Base.Results.{Code, status}
use go_rego.Scheduler.State.{OperationState, Stage, OperationStatus, Task, Scheduler, is_queued}
use go_rego.Scheduler.Updates.{
  find_op, change_op, notify_subscribers, cancel_operation, update_state, completed_stage,
}
use go_rego.Worker.Tasks.{start_task, task_name}

module _ {R : Type 0} where
  -- After a change the name leads to the new operation.
  pub find_op-change_op :
      (s : Scheduler R) (name : GoString) (p : ℕ) (op new : OperationStatus R)
      → find_op s name ≡ some (p, op)
      → find_op (change_op s name p op new) name ≡ some (p, new)
  unfolding find_op change_op notify_subscribers
  find_op-change_op s name p op new e = ground arith

  cancelled : OperationStatus R → ℕ → OperationStatus R
  cancelled op now = record op {
    state = OperationState.completed;
    error = some (status Code.canceled);
    metadata = completed_stage op.metadata;
    updated_at = now;
  }

  cancel_operation-queued :
      (s : Scheduler R) (name : GoString) (p now : ℕ) (op : OperationStatus R)
      → find_op s name ≡ some (p, op)
      → op.state ≡ OperationState.queued
      → cancel_operation s name now ≡ (change_op s name p op (cancelled op now), none)
  unfolding cancel_operation cancelled
  cancel_operation-queued s name p now op e idle =
      let is_idle : is_queued op.state ≡ true = ground arith in rw (e, cancel_operation, is_idle)

  pub start_task_found :
      (s : Scheduler R) (task : Task) (p later : ℕ) (op : OperationStatus R)
      → find_op s (task_name task) ≡ some (p, op)
      → (o : OperationStatus R) × (find_op (start_task s task later) (task_name task) ≡ some (p, o))
        × (o.state ≡ OperationState.executing)
        × (o.error ≡ op.error)
  unfolding start_task update_state
  start_task_found s task p later op e =
      let new = record op {
        state = OperationState.executing;
        metadata = record { stage = Stage.executing; action_digest = task.action_digest };
        updated_at = later;
      } in
      (
        new,
        rw (e, start_task, update_state) (find_op-change_op s (task_name task) p op new e),
        refl,
        refl,
      )

  -- `CancelOperation` leaves the task of the operation in the queue; the worker that takes it
  -- executes it all the same, so that the operation, whose cancellation was reported as final, is
  -- executing afterwards, and keeps the error `Canceled`.
  pub cancel_operation-start_task :
      (s : Scheduler R) (task : Task) (p now later : ℕ) (op : OperationStatus R)
      → find_op s (task_name task) ≡ some (p, op)
      → op.state ≡ OperationState.queued
      → let s' = (cancel_operation s (task_name task) now).0 in
        (s'.task_queue ≡ s.task_queue)
        × ((o : OperationStatus R) × (find_op s' (task_name task) ≡ some (p, o))
            × (o.state ≡ OperationState.completed))
        × ((o : OperationStatus R) × (find_op (start_task s' task later) (task_name task)
              ≡ some (p, o))
            × (o.state ≡ OperationState.executing)
            × (o.error ≡ some (status Code.canceled)))
  unfolding change_op notify_subscribers cancelled
  cancel_operation-start_task s task p now later op e idle =
      rw (cancel_operation-queued s (task_name task) p now op e idle) (
        refl,
        (cancelled op now, there, refl),
        start_task_found _ task p later (cancelled op now) there,
      )
    where
      there :
          find_op (change_op s (task_name task) p op (cancelled op now)) (task_name task)
          ≡ some (p, cancelled op now)
      there = find_op-change_op s (task_name task) p op (cancelled op now) e
