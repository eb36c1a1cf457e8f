-- ===== src/Worker/Tasks.antt =====
-- pkg/execution/worker.go: `executeTask`, before and after the action runs.
use go_rego.Base.{ℕ, ◌++◌}
use go_rego.Base.Text.{GoString}
use go_rego.Base.Results.{Result, ok, err}
use go_rego.Scheduler.State.{OperationState, Stage, Task, Scheduler}
use go_rego.Scheduler.Names.{operation_prefix}
use go_rego.Scheduler.Updates.{update_state, complete, fail}

abbrev pub task_name : Task → GoString
task_name task = operation_prefix ++ task.operation_id

module _ {R : Type 0} where
  -- The update to EXECUTING.
  unfoldable pub start_task : Scheduler R → Task → ℕ → Scheduler R
  start_task s task now =
      update_state s (task_name task) OperationState.executing
        (record { stage = Stage.executing; action_digest = task.action_digest }) now

  -- What follows `execute`, by its outcome: `response` wraps the result of the action.
  unfoldable pub finish_task :
      {A : Type 0} → (A → R) → Scheduler R → Task → Result A → ℕ → Scheduler R
  finish_task response s task (err e) now = fail s (task_name task) e now
  finish_task response s task (ok result) now = complete s (task_name task) (response result) now

  -- `executeTask`, where nobody else calls the scheduler in between.
  unfoldable pub execute_task :
      {A : Type 0} → (A → R) → Scheduler R → Task → Result A → (start finish : ℕ) → Scheduler R
  execute_task response s task outcome start finish =
      finish_task response (start_task s task start) task outcome finish
