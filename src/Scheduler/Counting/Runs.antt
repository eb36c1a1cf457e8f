-- ===== src/Scheduler/Counting/Runs.antt =====
-- pkg/scheduler/scheduler.go: the counter over whole histories of calls.
use native.Mathlib.Nat.{zero-add, add-zero}
use go_rego.Base.{ℕ, suc, ◌+◌, ◌-◌, ◌≡◌, refl, ap, ◌∙◌, subst, List, [], ◌∷◌, ◌++◌, arith, length}
use go_rego.Base.Text.{GoString}
use go_rego.Base.Integers.{pos, add_nat-pos}
use go_rego.Scheduler.State.{Scheduler, new_scheduler}
use go_rego.Scheduler.Queue.{Packing, dequeue, get_pending_task_count}
use go_rego.Scheduler.Subscriptions.{subscribe, unsubscribe, receive}
use go_rego.Scheduler.Events.{
  Event, enqueues, dequeues, updates, completes, fails, cancels, deletes, subscribes, unsubscribes,
  receives, cleans, step, run,
}
use go_rego.Scheduler.Entries.{executing_entries}
use go_rego.Scheduler.Counting.{
  IsCounted, forgets, executing_now, update_state-IsCounted, complete-IsCounted, fail-IsCounted,
  cancel_operation-IsCounted, delete_operation-IsCounted, enqueue-IsCounted,
}
use go_rego.Scheduler.Counting.Expired.{cleanup_expired-IsCounted}

module _ {R : Type 0} (pb : Packing R) where
  step-IsCounted :
      (k : ℕ) (s : Scheduler R) (e : Event R)
      → IsCounted k s
      → IsCounted (forgets s e + k) (step pb s e)
  unfolding step forgets dequeue subscribe unsubscribe receive
  step-IsCounted k s (enqueues d skip override uuid now) v =
      enqueue-IsCounted pb k s d skip override uuid now v
  step-IsCounted k s (dequeues stop pick) v = rw zero-add (ground arith)
  step-IsCounted k s (updates name state metadata now) v =
      rw zero-add (update_state-IsCounted k s name state metadata now v)
  step-IsCounted k s (completes name result now) v =
      rw zero-add (complete-IsCounted k s name result now v)
  step-IsCounted k s (fails name error now) v = rw zero-add (fail-IsCounted k s name error now v)
  step-IsCounted k s (cancels name now) v = rw zero-add (cancel_operation-IsCounted k s name now v)
  step-IsCounted k s (deletes name) v = delete_operation-IsCounted k s name v
  step-IsCounted k s (subscribes name) v = rw zero-add (ground arith)
  step-IsCounted k s (unsubscribes name ch) v = rw zero-add (ground arith)
  step-IsCounted k s (receives ch) v = rw zero-add (ground arith)
  step-IsCounted k s (cleans now) v = rw zero-add (cleanup_expired-IsCounted k now s v)

  -- The executing operations dropped over a history.
  unfoldable pub forgotten : Scheduler R → List (Event R) → ℕ
  forgotten s [] = 0
  forgotten s (e ∷ es) = forgets s e + forgotten (step pb s e) es

  run-IsCounted :
      (k : ℕ) (s : Scheduler R) (es : List (Event R))
      → IsCounted k s
      → IsCounted (k + forgotten s es) (run pb s es)
  unfolding run forgotten
  run-IsCounted k s [] v = rw add-zero v
  run-IsCounted k s (e ∷ es) v =
      subst (λ n. IsCounted n (run pb (step pb s e) es)) (omega arith)
        (run-IsCounted (forgets s e + k) (step pb s e) es (step-IsCounted k s e v))

  forgotten-append :
      (s : Scheduler R) (es later : List (Event R))
      → forgotten s (es ++ later) ≡ forgotten s es + forgotten (run pb s es) later
  unfolding forgotten run
  forgotten-append s [] later = omega arith
  forgotten-append s (e ∷ es) later = omega (arith, forgotten-append (step pb s e) es later)

  new_scheduler-IsCounted :
      (queue_size : ℕ) (node_id : GoString) → IsCounted {R = R} 0 (new_scheduler queue_size node_id)
  unfolding new_scheduler
  new_scheduler-IsCounted queue_size node_id = record {
    entries = tt;
    fresh = λ p le. refl;
    counted = ground arith;
  }

  -- After any history of calls on a new scheduler, the load that a node reports is the length of
  -- the task queue, plus the number of operations in the table that are executing, plus the number
  -- of operations that were executing when they were deleted or overwritten.
  pub run-get_pending_task_count :
      (queue_size : ℕ) (node_id : GoString) (es : List (Event R))
      → let start = new_scheduler {R = R} queue_size node_id in
        let s = run pb start es in
        get_pending_task_count s
        ≡ pos (length s.task_queue + (forgotten start es + executing_entries s.heap s.operations))
  unfolding get_pending_task_count
  run-get_pending_task_count queue_size node_id es =
      let start = new_scheduler {R = R} queue_size node_id in
      let v = run-IsCounted 0 start es (new_scheduler-IsCounted queue_size node_id) in
      rw (v.counted, add_nat-pos) (ap pos (omega arith))

  -- An operation that is deleted while it executes stays in `executingCount` for ever: whatever the
  -- calls before and after, the counter is never zero again.
  pub delete-executing_count :
      (queue_size : ℕ) (node_id name : GoString) (es later : List (Event R))
      → executing_now (run pb (new_scheduler queue_size node_id) es) name ≡ 1
      → (k : ℕ) × ((run pb
            (new_scheduler queue_size node_id)
            (es ++ (deletes name ∷ later))).executing_count
          ≡ pos (suc k))
  unfolding forgets forgotten
  delete-executing_count queue_size node_id name es later h =
      let start = new_scheduler {R = R} queue_size node_id in
      let all = es ++ (deletes name ∷ later) in
      let v = run-IsCounted 0 start all (new_scheduler-IsCounted queue_size node_id) in
      let past = forgotten-append start es (deletes name ∷ later) in
      let present = executing_entries (run pb start all).heap (run pb start all).operations in
      let k = 0 + forgotten start all + present in
      (k - 1, v.counted ∙ ap pos (omega (arith, past, h)))
