-- ===== src/Worker/Loop.antt =====
-- pkg/execution/worker.go: `runWorker`, where nobody else calls the scheduler in between. The outcome of
-- each action is an argument.
pub mod Drained
use go_rego.Base.{ℕ, Bool, Option, List, [], ◌∷◌}
use go_rego.Base.Results.{Error, Result}
use go_rego.Scheduler.State.{Scheduler}
use go_rego.Scheduler.Queue.{dequeue, Dequeued}
use go_rego.Worker.Tasks.{execute_task}

-- What comes up in one turn: the end of the context, and Go's choice if a task is there too; the
-- outcome of the action, and the instants at which it starts and ends.
pub record WorkerTurn (A : Type 0) : Type 0 where
  pub stop : Option Error
  pub pick : Bool
  pub outcome : Result A
  pub start : ℕ
  pub end : ℕ

-- The worker goes on, or has returned.
pub data Worked (S : Type 0) : Type 0 where
  running returned : S → Worked S

unfoldable pub run_worker :
    {R A : Type 0} → (A → R) → Scheduler R → List (WorkerTurn A) → Worked (Scheduler R)
unfolding dequeue execute_task
run_worker response s [] = running s
run_worker response s (t ∷ ts) = elim (dequeue s t.stop t.pick) [
  | Dequeued.blocked ↦ run_worker response s ts
  | Dequeued.stopped _ ↦ returned s
  | Dequeued.task k s' ↦ run_worker response (execute_task response s' k t.outcome t.start t.end) ts
]
