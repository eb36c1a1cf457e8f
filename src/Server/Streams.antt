-- ===== src/Server/Streams.antt =====
-- pkg/server/execution.go: the updates of an operation, as `Execute`, `executeLocally` and
-- `WaitExecution` stream them. Other goroutines call the scheduler between the steps of the loop;
-- their calls are arguments, as are the errors of `stream.Send`.
pub mod Updates
pub mod Races
pub mod Deleted
mod Examples
use go_rego.Base.{ℕ, Bool, true, false, Option, none, some, List, [], ◌∷◌, ◌++◌, if◌then◌else◌}
use go_rego.Base.Text.{GoString}
use go_rego.Base.Results.{Code, Error, status, ok, err}
use go_rego.Scheduler.State.{OperationStatus, Scheduler, update, is_completed}
use go_rego.Scheduler.Queue.{Packing, Operation, get_operation}
use go_rego.Scheduler.Subscriptions.{unsubscribe}
use go_rego.Scheduler.Events.{Event, run}

-- One round of the loop: the calls before the receive, those before `GetOperation`, those before the
-- read of `update.State`, and the error of `Send`.
pub record UpdateRound (R : Type 0) : Type 0 where
  pub before_receive : List (Event R)
  pub before_lookup : List (Event R)
  pub before_test : List (Event R)
  pub send_error : Option Error

-- How a loop stands: it waits for the next round, or it is over, with an error or without.
pub data Standing : Type 0 where
  waiting : Standing
  over : Option Error → Standing

-- What was sent to the client, in order.
pub record Streamed (R : Type 0) : Type 0 where
  pub scheduler : Scheduler R
  pub messages : List (Operation R)
  pub standing : Standing

-- What a receive gives: the pointer that the sender put into the channel, nothing yet, or the end of
-- a closed channel.
pub data Update (S : Type 0) : Type 0 where
  empty closed : Update S
  pointer : ℕ → S → Update S

module _ {R : Type 0} where
  abbrev pub next_update : List ℕ → Scheduler R → ℕ → Update (Scheduler R)
  next_update [] s ch = if (s.channels ch).closed then closed else empty
  next_update (p ∷ rest) s ch =
      pointer p
        (record s { channels = update s.channels ch (record (s.channels ch) { buffer = rest }) })

  unfoldable pub receive_update : Scheduler R → ℕ → Update (Scheduler R)
  receive_update s ch = next_update (s.channels ch).buffer s ch

  -- `update.State == scheduler.StateCompleted`, read through the pointer, without the lock.
  abbrev pub completed_at : Option (OperationStatus R) → Bool
  completed_at none = false
  completed_at (some op) = is_completed op.state

  abbrev pub streamed_after : List (Operation R) → Streamed R → Streamed R
  streamed_after ops t = record t { messages = ops ++ t.messages }

module _ {R : Type 0} (pb : Packing R) where
  -- A round, then the rest of the loop if the round does not end it.
  unfoldable pub update_loop : Scheduler R → GoString → ℕ → List (UpdateRound R) → Streamed R
  unfolding receive_update
  update_loop s name ch [] = record { scheduler = s; messages = []; standing = waiting }
  update_loop s name ch (r ∷ rounds) = elim (receive_update (run pb s r.before_receive) ch) [
    | empty ↦ update_loop (run pb s r.before_receive) name ch rounds
    | closed ↦ record { scheduler = run pb s r.before_receive; messages = []; standing = over none }
    | pointer p t ↦
        let u = run pb t r.before_lookup in
        elim (get_operation pb u name) [
          | err _ ↦ update_loop u name ch rounds
          | ok op ↦ elim r.send_error [
            | some e ↦ record { scheduler = u; messages = []; standing = over (some e) }
            | none ↦
                let v = run pb u r.before_test in
                elim (completed_at (v.heap p)) [
                  | true ↦ record { scheduler = v; messages = op ∷ []; standing = over none }
                  | false ↦ streamed_after (op ∷ []) (update_loop v name ch rounds)
                ]
          ]
        ]
  ]

  -- `defer unsubscribe()`, once the loop is over.
  abbrev pub unsubscribed : GoString → ℕ → Streamed R → Streamed R
  unsubscribed name ch t = elim t.standing [
    | waiting ↦ t
    | over _ ↦ record t { scheduler = unsubscribe t.scheduler name ch }
  ]

  -- `Execute` and `executeLocally` after `Subscribe`: the operation as it was enqueued, its updates.
  unfoldable pub stream_execution :
      Scheduler R → Operation R → ℕ → Option Error → List (UpdateRound R) → Streamed R
  unfolding update_loop
  stream_execution s op ch (some e) rounds =
      unsubscribed op.name ch (record { scheduler = s; messages = []; standing = over (some e) })
  stream_execution s op ch none rounds =
      unsubscribed op.name ch (streamed_after (op ∷ []) (update_loop s op.name ch rounds))

  -- `WaitExecution` after `Subscribe`; `cancelled` is what the context says at the end.
  abbrev pub wait_standing : Bool → Standing → Standing
  wait_standing true (over none) = over (some (status Code.canceled))
  wait_standing _ other = other

  unfoldable pub stream_wait : Scheduler R → GoString → ℕ → Bool → List (UpdateRound R) → Streamed R
  unfolding update_loop
  stream_wait s name ch cancelled rounds =
      let t = update_loop s name ch rounds in
      unsubscribed name ch (record t { standing = wait_standing cancelled t.standing })
