-- ===== src/Scheduler/Events.antt =====
-- pkg/scheduler/scheduler.go: the calls on a scheduler, each under its lock, as one step.
use go_rego.Base.{ℕ, Bool, Option, none, some, List, [], ◌∷◌}
use go_rego.Base.Text.{GoString}
use go_rego.Base.Results.{Error}
use go_rego.Storage.Digests.{Digest}
use go_rego.Scheduler.State.{OperationState, Metadata, Scheduler}
use go_rego.Scheduler.Updates.{update_state, complete, fail, cancel_operation, delete_operation}
use go_rego.Scheduler.Queue.{Packing, Dequeued, enqueue, dequeue}
use go_rego.Scheduler.Subscriptions.{subscribe, unsubscribe, receive, cleanup_expired}

-- The arguments of a call, the instant at which it reads the clock last.
pub data Event (R : Type 0) : Type 0 where
  enqueues : Digest → Bool → (override uuid : GoString) → ℕ → Event R
  dequeues : Option Error → Bool → Event R
  updates : GoString → OperationState → Metadata → ℕ → Event R
  completes : GoString → R → ℕ → Event R
  fails : GoString → Error → ℕ → Event R
  cancels : GoString → ℕ → Event R
  deletes : GoString → Event R
  subscribes : GoString → Event R
  unsubscribes : GoString → ℕ → Event R
  receives : ℕ → Event R
  cleans : ℕ → Event R

abbrev pub after_dequeue : {S : Type 0} → S → Dequeued S → S
after_dequeue s Dequeued.blocked = s
after_dequeue s (Dequeued.stopped _) = s
after_dequeue s (Dequeued.task _ s') = s'

abbrev pub after_receive : {S A : Type 0} → S → Option (A × S) → S
after_receive s none = s
after_receive s (some (_, s')) = s'

module _ {R : Type 0} (pb : Packing R) where
  unfoldable pub step : Scheduler R → Event R → Scheduler R
  step s (enqueues d skip override uuid now) = (enqueue pb s d skip override uuid now).0
  step s (dequeues done pick) = after_dequeue s (dequeue s done pick)
  step s (updates name state metadata now) = update_state s name state metadata now
  step s (completes name result now) = complete s name result now
  step s (fails name error now) = fail s name error now
  step s (cancels name now) = (cancel_operation s name now).0
  step s (deletes name) = (delete_operation s name).0
  step s (subscribes name) = (subscribe s name).1
  step s (unsubscribes name ch) = unsubscribe s name ch
  step s (receives ch) = after_receive s (receive s ch)
  step s (cleans now) = cleanup_expired s now

  unfoldable pub run : Scheduler R → List (Event R) → Scheduler R
  unfolding step
  run s [] = s
  run s (e ∷ es) = run (step s e) es
