-- ===== src/Scheduler/Counting.antt =====
-- pkg/scheduler/scheduler.go: what `executingCount` counts.
mod Expired
pub mod Runs
use native.Mathlib.Nat.{zero-add}
use go_rego.Base.{
  ℕ, ◌+◌, ◌≤◌, ◌≡◌, refl, Bool, true, false, Option, none, some, List, [], ◌∷◌, if◌then◌else◌, ltb,
  arith, Option-cases, Bool-cases, ◌⊎◌, inl, inr, length,
}
use go_rego.Base.Lists.{All}
use go_rego.Base.Text.{GoString}
use go_rego.Base.Dict.{Dict, lookup, delete, delete-absent, lookup-delete}
use go_rego.Base.Results.{Error}
use go_rego.Storage.Digests.{Digest}
use go_rego.Base.Integers.{ℤ, pos, incr, decr}
use go_rego.Scheduler.State.{
  OperationState, Metadata, OperationStatus, Scheduler, update, is_executing, is_queued,
  new_scheduler,
}
use go_rego.Scheduler.Names.{operation_name}
use go_rego.Scheduler.Updates.{
  count_change, find_op, found_cases, notify_subscribers, change_op, update_state, complete, fail,
  cancel_operation, delete_operation,
}
use go_rego.Scheduler.Queue.{Packing, enqueue, dequeue, new_op, admit}
use go_rego.Scheduler.Subscriptions.{
  subscribe, unsubscribe, receive, cleanup_expired, cleanup_loop, expired_at, is_expired,
}
use go_rego.Scheduler.Events.{
  Event, enqueues, dequeues, updates, completes, fails, cancels, deletes, subscribes, unsubscribes,
  receives, cleans, step, run,
}
use go_rego.Scheduler.Entries.{
  as_number, executing_at, executing_entries, Named, Entries, lookup-Named, Entries-update,
  Entries-delete, Entries-insert, executing_entries-update, executing_entries-delete,
  executing_entries-insert, executing_entries-fresh, executing_entries-replace,
}

-- `forgotten` operations were executing when their entry went.
pub record IsCounted {R : Type 0} (forgotten : ℕ) (s : Scheduler R) : Type 0 where
  pub entries : Entries s.heap s.operations
  pub fresh : (p : ℕ) → s.next_pointer ≤ p → s.heap p ≡ none
  pub counted : s.executing_count ≡ pos (forgotten + executing_entries s.heap s.operations)

module _ {R : Type 0} where
  -- The executing operations that an event drops from `operations`.
  unfoldable pub executing_now : Scheduler R → GoString → ℕ
  executing_now s name = elim (find_op s name) [
    | none ↦ 0
    | some (_, op) ↦ as_number (is_executing op.state)
  ]

  unfoldable pub forgets : Scheduler R → Event R → ℕ
  forgets s (enqueues d skip override uuid now) =
      if ltb (length s.task_queue) s.queue_size
      then executing_now s (operation_name s.node_id override uuid)
      else 0
  forgets s (deletes name) = executing_now s name
  forgets s _ = 0

  executing_now-missing :
      (s : Scheduler R) (name : GoString)
      → lookup name s.operations ≡ none
      → executing_now s name ≡ 0
  unfolding executing_now find_op
  executing_now-missing s name e = rw (e, executing_now)

  executing_now-found :
      (s : Scheduler R) (name : GoString) (p : ℕ)
      → lookup name s.operations ≡ some p
      → executing_now s name ≡ executing_at (s.heap p)
  unfolding executing_now find_op
  executing_now-found s name p e = ground arith

  find_op-eq-some :
      (s : Scheduler R) (name : GoString) (p : ℕ) (op : OperationStatus R)
      → find_op s name ≡ some (p, op)
      → (lookup name s.operations ≡ some p) × (s.heap p ≡ some op)
  unfolding find_op
  find_op-eq-some s name p op e = (ground arith, ground arith)

  pub change_op-IsCounted :
      (k : ℕ) (s : Scheduler R) (name : GoString) (p : ℕ) (op new : OperationStatus R)
      → IsCounted k s
      → find_op s name ≡ some (p, op)
      → op.name ≡ new.name
      → IsCounted k (change_op s name p op new)
  unfolding change_op
  change_op-IsCounted k s name p op new v e same =
      let (found, here) = find_op-eq-some s name p op e in
      let (o, eo, named) = lookup-Named s.heap s.operations name p v.entries found in
      let names : name ≡ new.name = cc in
      let moved =
        executing_entries-update s.heap s.operations p op new v.entries (rw (← names) found) here
          same in
      record {
        entries = Entries-update s.heap s.operations p new v.entries (inl (op, here, same));
        fresh = λ q le. ground (arith, v.fresh q le);
        counted = ground (arith, moved, v.counted);
      }

  pub update_state-IsCounted :
      (k : ℕ) (s : Scheduler R) (name : GoString) (state : OperationState) (metadata : Metadata)
      (now : ℕ)
      → IsCounted k s
      → IsCounted k (update_state s name state metadata now)
  unfolding update_state
  update_state-IsCounted k s name state metadata now v =
      found_cases (IsCounted k) s name _ v λ p op e. change_op-IsCounted k s name p op _ v e refl

  pub complete-IsCounted :
      (k : ℕ) (s : Scheduler R) (name : GoString) (result : R) (now : ℕ)
      → IsCounted k s
      → IsCounted k (complete s name result now)
  unfolding complete
  complete-IsCounted k s name result now v =
      found_cases (IsCounted k) s name _ v λ p op e. change_op-IsCounted k s name p op _ v e refl

  pub fail-IsCounted :
      (k : ℕ) (s : Scheduler R) (name : GoString) (error : Error) (now : ℕ)
      → IsCounted k s
      → IsCounted k (fail s name error now)
  unfolding fail
  fail-IsCounted k s name error now v =
      found_cases (IsCounted k) s name _ v λ p op e. change_op-IsCounted k s name p op _ v e refl

  pub cancel_operation-IsCounted :
      (k : ℕ) (s : Scheduler R) (name : GoString) (now : ℕ)
      → IsCounted k s
      → IsCounted k (cancel_operation s name now).0
  unfolding cancel_operation
  cancel_operation-IsCounted k s name now v = elim (Option-cases (find_op s name)) [
    | inl e ↦ rw (e, cancel_operation) v
    | inr ((p, op), e) ↦ elim (Bool-cases (is_queued op.state)) [
      | inl idle ↦ rw (e, cancel_operation, idle) (change_op-IsCounted k s name p op _ v e refl)
      | inr busy ↦ rw (e, cancel_operation, busy) v
    ]
  ]

  pub delete_operation-IsCounted :
      (k : ℕ) (s : Scheduler R) (name : GoString)
      → IsCounted k s
      → IsCounted (forgets s (deletes name) + k) (delete_operation s name).0
  unfolding delete_operation forgets
  delete_operation-IsCounted k s name v = elim (Option-cases (lookup name s.operations)) [
    | inl e ↦ rw (e, delete_operation, executing_now-missing s name e) (rw zero-add v)
    | inr (p, e) ↦
        rw (e, delete_operation)
          (record {
            entries = Entries-delete s.heap s.operations name v.entries;
            fresh = v.fresh;
            counted = ground (
              arith,
              v.counted,
              executing_now-found s name p e,
              executing_entries-delete s.heap s.operations name p v.entries e,
            );
          })
  ]

  pub admit-IsCounted :
      (k : ℕ) (s : Scheduler R) (name id : GoString) (d : Digest) (skip : Bool) (now : ℕ)
      → IsCounted k s
      → IsCounted (executing_now s name + k) (admit s name id d skip now)
  admit-IsCounted k s name id d skip now v =
      let op : OperationStatus R = new_op name d now in
      let free = v.fresh s.next_pointer (omega arith) in
      let h = update s.heap s.next_pointer (some op) in
      let old = Entries-update s.heap s.operations s.next_pointer op v.entries (inr free) in
      let here : h s.next_pointer ≡ some op = ground arith in
      record {
        entries = Entries-insert h s.operations name s.next_pointer old (op, here, refl);
        fresh = λ q le. ground (arith, v.fresh q (omega arith));
        counted = elim (Option-cases (lookup name s.operations)) [
          | inl e ↦ ground (
            arith,
            v.counted,
            executing_now-missing s name e,
            executing_entries-fresh s.heap s.operations s.next_pointer op v.entries free,
            executing_entries-insert h s.operations name s.next_pointer e,
          )
          | inr (q, e) ↦
              let (o, there, _) = lookup-Named s.heap s.operations name q v.entries e in
              ground (
                arith,
                v.counted,
                executing_now-found s name q e,
                executing_entries-fresh s.heap s.operations s.next_pointer op v.entries free,
                executing_entries-replace h s.operations name s.next_pointer q e,
              )
        ];
      }

  pub enqueue-IsCounted :
      (pb : Packing R) (k : ℕ) (s : Scheduler R) (d : Digest) (skip : Bool)
      (override uuid : GoString) (now : ℕ)
      → IsCounted k s
      → IsCounted
          (forgets s (enqueues d skip override uuid now) + k)
          (enqueue pb s d skip override uuid now).0
  unfolding enqueue forgets
  enqueue-IsCounted pb k s d skip override uuid now v =
      elim (Bool-cases (ltb (length s.task_queue) s.queue_size)) [
        | inl room ↦ rw (room, enqueue, forgets) (admit-IsCounted k s _ _ d skip now v)
        | inr full ↦ rw (full, enqueue, forgets) (rw zero-add v)
      ]
