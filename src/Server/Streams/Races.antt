-- ===== src/Server/Streams/Races.antt =====
-- pkg/server/execution.go: where a stream misses the end of its operation.
use go_rego.Base.{ℕ, ◌≡◌, refl, true, false, none, some, List, [], ◌∷◌}
use go_rego.Base.Text.{GoString}
use go_rego.Base.Results.{ok}
use go_rego.Scheduler.State.{OperationState, OperationStatus, Scheduler, update, is_completed}
use go_rego.Scheduler.Updates.{find_op}
use go_rego.Scheduler.Queue.{Packing, Operation, pending, to_proto, get_operation}
use go_rego.Scheduler.Events.{completes, step, run}
use go_rego.Scheduler.Delivery.Runs.{find_op-lookup}
use go_rego.Server.Streams.{UpdateRound, over, receive_update, completed_at, update_loop}
use go_rego.Server.Streams.Updates.{complete-find_op}

-- A round in which `Complete` is called between `GetOperation` and the test of `update.State`.
abbrev pub overtaken : {R : Type 0} → GoString → R → ℕ → UpdateRound R
overtaken name result now = record {
  before_receive = [];
  before_lookup = [];
  before_test = completes name result now ∷ [];
  send_error = none;
}

module _ {R : Type 0} (pb : Packing R) where
  to_proto-running :
      (op : OperationStatus R)
      → is_completed op.state ≡ false
      → pb.metadata_error op.metadata ≡ none
      → (m : Operation R) × (to_proto pb op ≡ ok m) × (m.done ≡ false)
  unfolding to_proto
  to_proto-running op busy packs = (
    record { name = op.name; metadata = op.metadata; done = false; outcome = pending },
    rw (packs, to_proto, busy, busy) refl,
    refl,
  )

  -- The state is tested through the pointer, after the message was made: if `Complete` is called in
  -- between, the stream ends without an error after a message that says that the operation is not
  -- done, and the client is never sent the result, which the scheduler has. (The operation was not
  -- completed before, and its metadata can be packed.)
  pub update_loop-overtaken :
      (s : Scheduler R) (name : GoString) (ch p now : ℕ) (others : List ℕ) (op : OperationStatus R)
      (result : R) (rounds : List (UpdateRound R))
      → (s.channels ch).buffer ≡ p ∷ others
      → find_op s name ≡ some (p, op)
      → is_completed op.state ≡ false
      → pb.metadata_error op.metadata ≡ none
      → let t = update_loop pb s name ch (overtaken name result now ∷ rounds) in
        ((m : Operation R) × (t.messages ≡ m ∷ []) × (m.done ≡ false))
        × (t.standing ≡ over none)
        × ((o : OperationStatus R) × (find_op t.scheduler name ≡ some (p, o))
            × (o.state ≡ OperationState.completed)
            × (o.result ≡ some result))
  unfolding update_loop run receive_update get_operation step find_op
  update_loop-overtaken s name ch p now others op result rounds full known busy packs =
      let (m, view, undone) = to_proto-running op busy packs in
      let viewed : get_operation pb s1 name ≡ ok m = rw (known1, get_operation) view in
      let done = complete-find_op s1 name p now op result known1 in
      let ends : completed_at ((step pb s1 (completes name result now)).heap p) ≡ true =
        rw (find_op-lookup (step pb s1 (completes name result now)) name p _ done).1 refl in
      rw (update_loop, run, receive_update, full, viewed, ends)
        ((m, refl, undone), refl, (_, done, refl, refl))
    where
      s1 : Scheduler R
      s1 = record s { channels = update s.channels ch (record (s.channels ch) { buffer = others }) }

      known1 : find_op s1 name ≡ some (p, op)
      known1 = known
