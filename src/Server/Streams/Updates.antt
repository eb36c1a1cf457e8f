-- ===== src/Server/Streams/Updates.antt =====
-- pkg/server/execution.go and pkg/scheduler/scheduler.go: what the client of a stream is sent once
-- the operation is completed.
use go_rego.Base.{
  ℕ, ◌≡◌, refl, ap, ◌∙◌, true, Option, none, some, List, [], ◌∷◌, List-cases, Option-cases, inl,
  inr,
}
use go_rego.Base.Text.{GoString}
use go_rego.Base.Results.{Error, ok}
use go_rego.Scheduler.State.{OperationState, OperationStatus, Scheduler, update, new_scheduler}
use go_rego.Scheduler.Updates.{find_op, subscribers_of, completed_stage, complete, fail}
use go_rego.Scheduler.Queue.{Packing, Operation, Outcome, failed, response, to_proto, get_operation}
use go_rego.Scheduler.Subscriptions.{receive}
use go_rego.Scheduler.Events.{Event, completes, fails, step, run}
use go_rego.Scheduler.Delivery.{In}
use go_rego.Scheduler.Delivery.Runs.{AllUnused, complete-receive}
use go_rego.Worker.Cancelled.{find_op-change_op}
use go_rego.Server.Streams.{
  UpdateRound, Streamed, over, receive_update, pointer, completed_at, update_loop,
}

module _ {R : Type 0} where
  -- A receive that gives an operation gives a pointer to it.
  receive-receive_update :
      (s t : Scheduler R) (ch : ℕ) (o : OperationStatus R)
      → receive s ch ≡ some (o, t)
      → (p : ℕ) × (receive_update s ch ≡ pointer p t)
        × (t.heap p ≡ some o)
        × ((name : GoString) → find_op t name ≡ find_op s name)
  unfolding receive receive_update find_op
  receive-receive_update s t ch o e = elim (List-cases (s.channels ch).buffer) [
    | inl none_there ↦ absurd (wrong (rw (none_there, receive) at e))
    | inr (p, rest, full) ↦ elim (Option-cases (s.heap p)) [
      | inl dangling ↦ absurd (wrong (rw (full, receive, dangling) at e))
      | inr (op, here) ↦
          let pair : ◌≡◌ {A = Option (OperationStatus R × Scheduler R)}
              (some (
                op,
                record s {
                  channels = update s.channels ch (record (s.channels ch) { buffer = rest });
                },
              ))
              (some (o, t)) =
            rw (full, receive, here) at e in
          let same : op ≡ o = cc in
          let after : record s {
            channels = update s.channels ch (record (s.channels ch) { buffer = rest });
          }
              ≡ t =
            cc in
          (
            p,
            rw (full, receive_update) (ap (pointer p) after),
            rw (← after, ← same) here,
            rw (← after) (λ name. refl),
          )
    ]
  ]
    where
      wrong :
          {a : OperationStatus R × Scheduler R}
          → ¬ (◌≡◌ {A = Option (OperationStatus R × Scheduler R)} none (some a))
      wrong h = cc

  -- `Complete` and `Fail` of a known operation, as the table shows it afterwards.
  pub complete-find_op :
      (s : Scheduler R) (name : GoString) (p now : ℕ) (op : OperationStatus R) (result : R)
      → find_op s name ≡ some (p, op)
      → find_op (complete s name result now) name
        ≡ some (
          p,
          record op {
            state = OperationState.completed;
            result = some result;
            metadata = completed_stage op.metadata;
            updated_at = now;
          },
        )
  unfolding complete
  complete-find_op s name p now op result e = rw (e, complete) (find_op-change_op s name p op _ e)

  fail-find_op :
      (s : Scheduler R) (name : GoString) (p now : ℕ) (op : OperationStatus R) (error : Error)
      → find_op s name ≡ some (p, op)
      → find_op (fail s name error now) name
        ≡ some (
          p,
          record op {
            state = OperationState.completed;
            error = some error;
            metadata = completed_stage op.metadata;
            updated_at = now;
          },
        )
  unfolding fail
  fail-find_op s name p now op error e = rw (e, fail) (find_op-change_op s name p op _ e)

-- A round with one call before the receive, in which the client takes the message.
abbrev pub after_call : {R : Type 0} → Event R → UpdateRound R
after_call e = record {
  before_receive = e ∷ [];
  before_lookup = [];
  before_test = [];
  send_error = none;
}

module _ {R : Type 0} (pb : Packing R) where
  -- What the view of a completed operation says of its outcome.
  pub Reports : OperationStatus R → Outcome R → Type 0
  Reports op outcome =
      (m : Operation R) × (to_proto pb op ≡ ok m) × (m.done ≡ true) × (m.outcome ≡ outcome)

  to_proto-response :
      (op : OperationStatus R) (result : R)
      → op.state ≡ OperationState.completed
      → op.error ≡ none
      → op.result ≡ some result
      → pb.metadata_error op.metadata ≡ none
      → pb.result_error result ≡ none
      → Reports op (response result)
  unfolding to_proto Reports
  to_proto-response op result final clean there packs fits = (
    record { name = op.name; metadata = op.metadata; done = true; outcome = response result },
    rw (packs, to_proto, final, clean, there, fits, final) refl,
    refl,
    refl,
  )

  to_proto-failed :
      (op : OperationStatus R) (error : Error)
      → op.state ≡ OperationState.completed
      → op.error ≡ some error
      → pb.metadata_error op.metadata ≡ none
      → Reports op (failed error)
  unfolding to_proto Reports
  to_proto-failed op error final there packs = (
    record { name = op.name; metadata = op.metadata; done = true; outcome = failed error },
    rw (packs, to_proto, final, there, final) refl,
    refl,
    refl,
  )

  -- One last message, that the operation is done with the outcome, and the end of the stream.
  abbrev pub Delivered : Outcome R → Streamed R → Type 0
  Delivered outcome t =
      ((m : Operation R) × (t.messages ≡ m ∷ []) × (m.done ≡ true) × (m.outcome ≡ outcome))
      × (t.standing ≡ over none)

  update_loop-Delivered :
      (s t : Scheduler R) (e : Event R) (name : GoString) (ch q : ℕ) (o op : OperationStatus R)
      (outcome : Outcome R) (rounds : List (UpdateRound R))
      → receive (step pb s e) ch ≡ some (o, t)
      → o.state ≡ OperationState.completed
      → find_op (step pb s e) name ≡ some (q, op)
      → Reports op outcome
      → Delivered outcome (update_loop pb s name ch (after_call e ∷ rounds))
  unfolding update_loop run get_operation Reports
  update_loop-Delivered s t e name ch q o op outcome rounds got final known
        (m, view, is_done, says) =
      let (p, taken, here, kept) = receive-receive_update (step pb s e) t ch o got in
      let viewed : get_operation pb t name ≡ ok m = rw (kept name ∙ known, get_operation) view in
      let ends : completed_at (t.heap p) ≡ true = rw (here, final) refl in
      rw (update_loop, run, taken, viewed, ends) ((m, refl, is_done, says), refl)

  -- While the loop of `Execute` or `WaitExecution` waits for an operation that has no error yet,
  -- `Complete` or `Fail` is called: whatever happened before, the next message that the client is sent
  -- says that the operation is done, with that result or that error, and the stream ends without an
  -- error. (No identifier was drawn twice before, the channel is the loop's subscription, nobody calls
  -- the scheduler between that receive and the end of the round, the client takes the message, and
  -- the library packs the metadata and the result.)
  pub update_loop_lem :
      (queue_size : ℕ) (node_id name : GoString) (es : List (Event R)) (p ch now : ℕ)
      (op : OperationStatus R) (result : R) (error : Error) (rounds : List (UpdateRound R))
      → AllUnused pb (new_scheduler queue_size node_id) es
      → let s = run pb (new_scheduler queue_size node_id) es in
        find_op s name ≡ some (p, op)
        → In ch (subscribers_of s name)
        → op.error ≡ none
        → pb.metadata_error (completed_stage op.metadata) ≡ none
        → pb.result_error result ≡ none
        → Delivered
            (response result)
            (update_loop pb s name ch (after_call (completes name result now) ∷ rounds))
          × Delivered
              (failed error)
              (update_loop pb s name ch (after_call (fails name error now) ∷ rounds))
  unfolding step
  update_loop_lem queue_size node_id name es p ch now op result error rounds u known i clean packs
        fits =
      let s = run pb (new_scheduler queue_size node_id) es in
      let ((o, t, got, final, _), (o', t', got', final', _)) =
        complete-receive pb queue_size node_id name es p ch now op result error u known i in
      (
        update_loop-Delivered s t (completes name result now) name ch p o _ (response result) rounds
            got final (complete-find_op s name p now op result known)
            (to_proto-response _ result refl clean refl packs fits),
        update_loop-Delivered s t' (fails name error now) name ch p o' _ (failed error) rounds got'
            final' (fail-find_op s name p now op error known)
            (to_proto-failed _ error refl refl packs),
      )
