-- ===== src/Scheduler/Updates.antt =====
-- pkg/scheduler/scheduler.go: `UpdateState`, `Complete`, `Fail`, `CancelOperation` and
-- `DeleteOperation`.
use go_rego.Base.{ℕ, ◌≡◌, inl, inr, Option, none, some, List, [], if◌then◌else◌, Option-cases}
use go_rego.Base.Text.{GoString}
use go_rego.Base.Dict.{lookup, delete}
use go_rego.Base.Integers.{ℤ, incr, decr}
use go_rego.Base.Results.{Code, Error, status}
use go_rego.Scheduler.State.{
  OperationState, Stage, Metadata, OperationStatus, Scheduler, update, is_executing, is_queued,
  notify_all,
}

-- The counter when an operation goes from one state to another.
unfoldable pub count_change : OperationState → OperationState → ℤ → ℤ
count_change old new count =
    if is_executing old
    then (if is_executing new then count else decr count)
    else (if is_executing new then incr count else count)

abbrev pub completed_stage : Metadata → Metadata
completed_stage m = record m { stage = Stage.completed }

module _ {R : Type 0} where
  -- `s.subscribers[name]`, nil if there is none.
  unfoldable pub subscribers_of : Scheduler R → GoString → List ℕ
  subscribers_of s name = elim (lookup name s.subscribers) [ none ↦ [] | some chs ↦ chs ]

  unfoldable pub notify_subscribers : Scheduler R → GoString → ℕ → Scheduler R
  unfolding notify_all subscribers_of
  notify_subscribers s name op = record s {
    channels = notify_all op (subscribers_of s name) s.channels;
  }

  abbrev pub store_op : Scheduler R → ℕ → OperationStatus R → Scheduler R
  store_op s p op = record s { heap = update s.heap p (some op) }

  -- `op, ok := s.operations[name]` with the operation that the pointer leads to.
  unfoldable pub find_op : Scheduler R → GoString → Option (ℕ × OperationStatus R)
  find_op s name = elim (lookup name s.operations) [
    | none ↦ none
    | some p ↦ elim (s.heap p) [ none ↦ none | some op ↦ some (p, op) ]
  ]

  -- What `UpdateState`, `Complete`, `Fail` and `CancelOperation` share: the counter, the write of
  -- the operation and the notification.
  unfoldable pub change_op :
      Scheduler R → GoString → ℕ → OperationStatus R → OperationStatus R → Scheduler R
  unfolding notify_subscribers count_change
  change_op s name p old new =
      notify_subscribers
        (store_op
          (record s { executing_count = count_change old.state new.state s.executing_count }) p new)
        name p

  -- A property of both outcomes of the search in `s.operations`.
  pub found_cases {ℓ} :
      (P : Scheduler R → Type ℓ) (s : Scheduler R) (name : GoString)
      (f : ℕ → OperationStatus R → Scheduler R)
      → P s
      → ((p : ℕ) (op : OperationStatus R) → find_op s name ≡ some (p, op) → P (f p op))
      → P (elim (find_op s name) [ none ↦ s | some (p, op) ↦ f p op ])
  found_cases P s name f missing found = elim (Option-cases (find_op s name)) [
    | inl e ↦ rw e missing
    | inr ((p, op), e) ↦ rw e (found p op e)
  ]

  unfoldable pub update_state : Scheduler R → GoString → OperationState → Metadata → ℕ → Scheduler R
  update_state s name state metadata now = elim (find_op s name) [
    | none ↦ s
    | some (p, op) ↦
        change_op s name p op (record op { state = state; metadata = metadata; updated_at = now })
  ]

  unfoldable pub complete : Scheduler R → GoString → R → ℕ → Scheduler R
  complete s name result now = elim (find_op s name) [
    | none ↦ s
    | some (p, op) ↦ change_op s name p op (record op {
      state = OperationState.completed;
      result = some result;
      metadata = completed_stage op.metadata;
      updated_at = now;
    })
  ]

  unfoldable pub fail : Scheduler R → GoString → Error → ℕ → Scheduler R
  fail s name error now = elim (find_op s name) [
    | none ↦ s
    | some (p, op) ↦ change_op s name p op (record op {
      state = OperationState.completed;
      error = some error;
      metadata = completed_stage op.metadata;
      updated_at = now;
    })
  ]

  unfoldable pub cancel_operation : Scheduler R → GoString → ℕ → Scheduler R × Option Error
  cancel_operation s name now = elim (find_op s name) [
    | none ↦ (s, some (status Code.not_found))
    | some (p, op) ↦
        if is_queued op.state
        then (
          change_op s name p op (record op {
            state = OperationState.completed;
            error = some (status Code.canceled);
            metadata = completed_stage op.metadata;
            updated_at = now;
          }),
          none,
        )
        else (s, some (status Code.failed_precondition))
  ]

  unfoldable pub delete_operation : Scheduler R → GoString → Scheduler R × Option Error
  delete_operation s name = elim (lookup name s.operations) [
    | none ↦ (s, some (status Code.not_found))
    | some _ ↦ (record s { operations = delete name s.operations }, none)
  ]
