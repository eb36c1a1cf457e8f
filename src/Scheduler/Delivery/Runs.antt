-- ===== src/Scheduler/Delivery/Runs.antt =====
-- pkg/scheduler/scheduler.go: what the subscribers of a completed operation receive.
use go_rego.Base.{
  ℕ, ◌≡◌, subst, refl, inl, inr, Bool, true, false, Option, none, some, List, [], ◌∷◌, ltb, arith,
  Bool-cases, Option-cases, List-cases, length,
}
use go_rego.Base.Lists.{All}
use go_rego.Base.Text.{GoString}
use go_rego.Base.Dict.{lookup}
use go_rego.Base.Results.{Error}
use go_rego.Storage.Digests.{Digest}
use go_rego.Scheduler.State.{
  OperationState, OperationStatus, Scheduler, Task, update, new_scheduler, is_queued,
}
use go_rego.Scheduler.Names.{operation_name}
use go_rego.Scheduler.Updates.{
  subscribers_of, notify_subscribers, change_op, find_op, found_cases, update_state, complete, fail,
  completed_stage, cancel_operation, delete_operation,
}
use go_rego.Scheduler.Queue.{Packing, take_task, enqueue, dequeue}
use go_rego.Scheduler.Subscriptions.{receive, cleanup_expired}
use go_rego.Scheduler.Events.{
  Event, enqueues, dequeues, updates, completes, fails, cancels, deletes, subscribes, unsubscribes,
  receives, cleans, step, run, after_dequeue,
}
use go_rego.Scheduler.Entries.{Named}
use go_rego.Scheduler.Delivery.{In, IsTuned, change_op-IsTuned, notify_all-ne-nil}
use go_rego.Scheduler.Delivery.Steps.{admit-IsTuned, subscribe-IsTuned}
use go_rego.Scheduler.Delivery.Releases.{
  receive-IsTuned, unsubscribe-IsTuned, delete-IsTuned, cleanup_loop-IsTuned,
}

module _ {R : Type 0} where
  -- The identifier that a call of `Enqueue` draws was never used, as the uuid library promises.
  abbrev pub IsUnused : Scheduler R → Event R → Type 0
  IsUnused s (enqueues d skip override uuid now) =
      (p : ℕ) → ¬ Named s.heap (operation_name s.node_id override uuid) p
  IsUnused s _ = Unit

  pub find_op-lookup :
      (s : Scheduler R) (name : GoString) (p : ℕ) (op : OperationStatus R)
      → find_op s name ≡ some (p, op)
      → (lookup name s.operations ≡ some p) × (s.heap p ≡ some op)
  unfolding find_op
  find_op-lookup s name p op e = (ground arith, ground arith)

  found-IsTuned :
      (s : Scheduler R) (name : GoString) (p : ℕ) (op new : OperationStatus R)
      → IsTuned s
      → find_op s name ≡ some (p, op)
      → op.name ≡ new.name
      → IsTuned (change_op s name p op new)
  found-IsTuned s name p op new v e same =
      let (found, here) = find_op-lookup s name p op e in
      change_op-IsTuned s name p op new v found here same

  cancel_operation-IsTuned :
      (s : Scheduler R) (name : GoString) (now : ℕ)
      → IsTuned s
      → IsTuned (cancel_operation s name now).0
  unfolding cancel_operation
  cancel_operation-IsTuned s name now v = elim (Option-cases (find_op s name)) [
    | inl e ↦ rw (e, cancel_operation) v
    | inr ((p, op), e) ↦ elim (Bool-cases (is_queued op.state)) [
      | inl idle ↦ rw (e, cancel_operation, idle) (found-IsTuned s name p op _ v e refl)
      | inr busy ↦ rw (e, cancel_operation, busy) v
    ]
  ]

  delete_operation-IsTuned :
      (s : Scheduler R) (name : GoString) → IsTuned s → IsTuned (delete_operation s name).0
  unfolding delete_operation
  delete_operation-IsTuned s name v = elim (Option-cases (lookup name s.operations)) [
    | inl e ↦ rw (e, delete_operation) v
    | inr (p, e) ↦ rw (e, delete_operation) (delete-IsTuned s name v)
  ]

  pub tasks-IsTuned :
      (s : Scheduler R) (ts : List Task) → IsTuned s → IsTuned (record s { task_queue = ts })
  unfolding subscribers_of
  tasks-IsTuned s ts v = record {
    unique = v.unique;
    listed = v.listed;
    fresh = v.fresh;
    buffers = v.buffers;
    owned = v.owned;
    known = v.known;
  }

  take_task-IsTuned :
      (s : Scheduler R) (ts : List Task) (stop : Option Error) (pick : Bool)
      → IsTuned s
      → IsTuned (after_dequeue s (take_task s ts stop pick))
  take_task-IsTuned s [] none pick v = v
  take_task-IsTuned s [] (some e) pick v = v
  take_task-IsTuned s (t ∷ ts) none pick v = tasks-IsTuned s ts v
  take_task-IsTuned s (t ∷ ts) (some e) true v = tasks-IsTuned s ts v
  take_task-IsTuned s (t ∷ ts) (some e) false v = v

  enqueue-IsTuned :
      (pb : Packing R) (s : Scheduler R) (d : Digest) (skip : Bool) (override uuid : GoString)
      (now : ℕ)
      → IsTuned s
      → IsUnused s (enqueues d skip override uuid now)
      → IsTuned (enqueue pb s d skip override uuid now).0
  unfolding enqueue
  enqueue-IsTuned pb s d skip override uuid now v u =
      elim (Bool-cases (ltb (length s.task_queue) s.queue_size)) [
        | inl room ↦ rw (room, enqueue) (admit-IsTuned s _ _ d skip now v u)
        | inr full ↦ rw (full, enqueue) v
      ]

  -- After a change, the next receive of every subscriber gives the operation as it is now, whether
  -- the notification found room in the channel or was dropped.
  receive-change_op :
      (s : Scheduler R) (name : GoString) (p ch : ℕ) (op new : OperationStatus R)
      → IsTuned s
      → find_op s name ≡ some (p, op)
      → op.name ≡ new.name
      → In ch (subscribers_of s name)
      → (t : Scheduler R) × (receive (change_op s name p op new) ch ≡ some (new, t))
  unfolding receive change_op notify_subscribers subscribers_of
  receive-change_op s name p ch op new v e same i = elim (List-cases (after.channels ch).buffer) [
    | inl empty ↦ absurd (notify_all-ne-nil p ch (subscribers_of s name) s.channels (inr i) empty)
    | inr (q, rest, full) ↦
        let waiting = subst (All (Named after.heap name)) full (tuned.buffers name ch i) in
        let same_op : q ≡ p = tuned.unique name q p waiting.0 named in
        let here : after.heap q ≡ some new = ground arith in
        (
          record after {
            channels = update after.channels ch (record (after.channels ch) { buffer = rest });
          },
          rw (full, receive, here),
        )
  ]
    where
      after : Scheduler R
      after = change_op s name p op new

      tuned : IsTuned after
      tuned = found-IsTuned s name p op new v e same

      named : Named after.heap name p
      named =
          let (o, eo, en) = v.listed name p (find_op-lookup s name p op e).0 in
          let there = (find_op-lookup s name p op e).1 in (new, ground arith, ground arith)

module _ {R : Type 0} (pb : Packing R) where
  pub step-IsTuned :
      (s : Scheduler R) (e : Event R) → IsTuned s → IsUnused s e → IsTuned (step pb s e)
  unfolding step dequeue cleanup_expired update_state complete fail
  step-IsTuned s (enqueues d skip override uuid now) v u =
      enqueue-IsTuned pb s d skip override uuid now v u
  step-IsTuned s (dequeues stop pick) v u = take_task-IsTuned s s.task_queue stop pick v
  step-IsTuned s (updates name state metadata now) v u =
      found_cases IsTuned s name _ v λ p op e. found-IsTuned s name p op _ v e refl
  step-IsTuned s (completes name result now) v u =
      found_cases IsTuned s name _ v λ p op e. found-IsTuned s name p op _ v e refl
  step-IsTuned s (fails name error now) v u =
      found_cases IsTuned s name _ v λ p op e. found-IsTuned s name p op _ v e refl
  step-IsTuned s (cancels name now) v u = cancel_operation-IsTuned s name now v
  step-IsTuned s (deletes name) v u = delete_operation-IsTuned s name v
  step-IsTuned s (subscribes name) v u = subscribe-IsTuned s name v
  step-IsTuned s (unsubscribes name ch) v u = unsubscribe-IsTuned s name ch v
  step-IsTuned s (receives ch) v u = receive-IsTuned s ch v
  step-IsTuned s (cleans now) v u = cleanup_loop-IsTuned now s.operations s v

  abbrev pub AllUnused : Scheduler R → List (Event R) → Type 0
  AllUnused s [] = Unit
  AllUnused s (e ∷ es) = IsUnused s e × AllUnused (step pb s e) es

  pub run-IsTuned :
      (s : Scheduler R) (es : List (Event R)) → IsTuned s → AllUnused s es → IsTuned (run pb s es)
  unfolding run
  run-IsTuned s [] v u = v
  run-IsTuned s (e ∷ es) v u = run-IsTuned (step pb s e) es (step-IsTuned s e v u.0) u.1

none_ne_some : {A : Type 0} {a : A} → ◌≡◌ {A = Option A} none (some a) → ⊥
none_ne_some e = cc

pub new_scheduler-IsTuned :
    {R : Type 0} (queue_size : ℕ) (node_id : GoString)
    → IsTuned (new_scheduler {R = R} queue_size node_id)
unfolding new_scheduler subscribers_of lookup
new_scheduler-IsTuned queue_size node_id = record {
  unique = λ n p q a b. absurd (none_ne_some a.1);
  listed = λ n p e. absurd (none_ne_some e);
  fresh = λ p le. refl;
  buffers = λ n ch i. elim i [ ];
  owned = λ n m ch i j. elim i [ ];
  known = λ n ch i. elim i [ ];
}

module _ {R : Type 0} (pb : Packing R) where
  -- After any history of calls that draws no identifier twice, the next receive of every subscriber
  -- of a known operation gives it as completed, with its result, once `Complete` was called, and as
  -- completed, with its error, once `Fail` was called, also if the channel was full.
  pub complete-receive :
      (queue_size : ℕ) (node_id name : GoString) (es : List (Event R)) (p ch now : ℕ)
      (op : OperationStatus R) (result : R) (error : Error)
      → AllUnused pb (new_scheduler queue_size node_id) es
      → let s = run pb (new_scheduler queue_size node_id) es in
        find_op s name ≡ some (p, op)
        → In ch (subscribers_of s name)
        → ((o : OperationStatus R) × (t : Scheduler R) × (receive (complete s name result now) ch
              ≡ some (o, t))
            × (o.state ≡ OperationState.completed)
            × (o.result ≡ some result))
          × ((o : OperationStatus R) × (t : Scheduler R) × (receive (fail s name error now) ch
                ≡ some (o, t))
              × (o.state ≡ OperationState.completed)
              × (o.error ≡ some error))
  unfolding complete fail
  complete-receive queue_size node_id name es p ch now op result error u e i =
      let start = new_scheduler queue_size node_id in
      let s = run pb start es in
      let v = run-IsTuned pb start es (new_scheduler-IsTuned queue_size node_id) u in
      let done = record op {
        state = OperationState.completed;
        result = some result;
        metadata = completed_stage op.metadata;
        updated_at = now;
      } in
      let broken = record op {
        state = OperationState.completed;
        error = some error;
        metadata = completed_stage op.metadata;
        updated_at = now;
      } in
      let (t, got) = receive-change_op s name p ch op done v e refl i in
      let (t', got') = receive-change_op s name p ch op broken v e refl i in
      ((done, t, rw (e, complete) got, refl, refl), (broken, t', rw (e, fail) got', refl, refl))
