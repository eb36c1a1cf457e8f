-- ===== src/Worker/Examples.antt =====
-- The theorem on the tasks of cancelled operations, at one operation.
use go_rego.Base.{
  ℕ, ◌≡◌, ◌≢◌, ◌≤◌, refl, true, false, Option, none, some, List, [], ◌∷◌, length, arith,
}
use go_rego.Base.Text.{codes, str_eq}
use go_rego.Base.Dict.{lookup, insert}
use go_rego.Base.Results.{Code, status, err}
use go_rego.Storage.Digests.{Digest}
use go_rego.Scheduler.State.{OperationState, OperationStatus, Scheduler, Task, new_scheduler}
use go_rego.Scheduler.Updates.{find_op, cancel_operation}
use go_rego.Scheduler.Queue.{Packing, admit, new_op, enqueue, to_proto}
use go_rego.Scheduler.Names.{operation_name, operation_id}
use go_rego.Scheduler.Events.{Event, enqueues, step, run}
use go_rego.Scheduler.Delivery.Runs.{AllUnused}
use go_rego.Worker.Loop.{WorkerTurn, running, run_worker}
use go_rego.Worker.Loop.Drained.{IsDrained, run_worker-run}
use go_rego.Worker.Tasks.{task_name, start_task}
use go_rego.Worker.Cancelled.{cancel_operation-start_task}

abbrev action : Digest
action = record { hash = codes "ab"; size = 3 }

abbrev task : Task
task = record {
  operation_id = codes "4f2a";
  action_digest = action;
  skip_cache = false;
  queued_at = 5;
}

abbrev queued : Scheduler ℕ
queued = admit (new_scheduler 3 []) (task_name task) (codes "4f2a") action false 5

known : find_op queued (task_name task) ≡ some (0, new_op (task_name task) action 5)
unfolding find_op new_scheduler lookup str_eq insert
known = refl

cancel_operation-start_task_example :
    let s' = (cancel_operation queued (task_name task) 6).0 in
    (s'.task_queue ≡ queued.task_queue)
    × ((o : OperationStatus ℕ) × (find_op s' (task_name task) ≡ some (0, o))
        × (o.state ≡ OperationState.completed))
    × ((o : OperationStatus ℕ) × (find_op (start_task s' task 7) (task_name task) ≡ some (0, o))
        × (o.state ≡ OperationState.executing)
        × (o.error ≡ some (status Code.canceled)))
cancel_operation-start_task_example =
    cancel_operation-start_task queued task 0 6 7 (new_op (task_name task) action 5) known refl

abbrev packs : Packing ℕ
packs = record { metadata_error = λ _. none; result_error = λ _. none }

abbrev history : List (Event ℕ)
history = enqueues action false [] (codes "4f2a") 5 ∷ []

abbrev start : Scheduler ℕ
start = new_scheduler 3 (codes "node-1")

none_ne_some : {A : Type 0} {a : A} → ◌≢◌ {A = Option A} none (some a)
none_ne_some e = cc

unused : AllUnused packs start history
unfolding new_scheduler
unused = (λ p w. none_ne_some w.1, tt)

-- One turn, in which the action fails.
abbrev turns : List (WorkerTurn ℕ)
turns =
    record { stop = none; pick = true; outcome = err (status Code.internal); start = 7; end = 9 }
    ∷ []

one_task : length (run packs start history).task_queue ≤ length turns
unfolding run step enqueue new_scheduler to_proto operation_name operation_id
one_task = omega arith

run_worker-run_example :
    (t : Scheduler ℕ) × (run_worker (λ r. r) (run packs start history) turns ≡ running t)
    × IsDrained packs (run packs start history) t
run_worker-run_example =
    run_worker-run packs (λ r. r) 3 (codes "node-1") history turns unused (refl, tt) one_task
