-- ===== src/Server/Streams/Examples.antt =====
-- The theorems on the streams, at one operation.
use go_rego.Base.{ℕ, ◌≡◌, ◌≢◌, refl, false, true, Option, none, some, List, [], ◌∷◌, inl}
use go_rego.Base.Text.{GoString, codes, str_eq}
use go_rego.Base.Dict.{lookup, insert, delete}
use go_rego.Base.Results.{Code, status}
use go_rego.Storage.Digests.{Digest}
use go_rego.Scheduler.State.{
  OperationState, Stage, OperationStatus, Scheduler, new_scheduler, try_send, notify_all,
}
use go_rego.Scheduler.Names.{operation_id, operation_name}
use go_rego.Scheduler.Updates.{
  subscribers_of, notify_subscribers, find_op, change_op, update_state, delete_operation,
}
use go_rego.Scheduler.Queue.{Packing, Operation, failed, response, enqueue, dequeue, to_proto}
use go_rego.Scheduler.Subscriptions.{subscribe}
use go_rego.Scheduler.Events.{
  Event, enqueues, dequeues, updates, subscribes, completes, fails, deletes, cleans, step, run,
}
use go_rego.Scheduler.Delivery.{In}
use go_rego.Scheduler.Delivery.Runs.{AllUnused}
use go_rego.Server.Streams.{UpdateRound, over, waiting, update_loop}
use go_rego.Server.Streams.Deleted.{IsGone, update_loop-IsGone}
use go_rego.Server.Streams.Updates.{Delivered, after_call, update_loop_lem}
use go_rego.Server.Streams.Races.{overtaken, update_loop-overtaken}

abbrev node : GoString
node = codes "node-1"

abbrev name : GoString
name = codes "operations/node-1:4f2a"

abbrev packs : Packing ℕ
packs = record { metadata_error = λ _. none; result_error = λ _. none }

abbrev action : Digest
action = record { hash = codes "ab"; size = 3 }

-- `Execute` enqueues and subscribes, and a worker takes the task and puts it to executing.
abbrev history : List (Event ℕ)
history =
    enqueues action false [] (codes "4f2a") 5
    ∷ subscribes name
    ∷ dequeues none true
    ∷ updates name OperationState.executing
        (record { stage = Stage.executing; action_digest = action }) 7
    ∷ []

abbrev start : Scheduler ℕ
start = new_scheduler 3 node

abbrev running : OperationStatus ℕ
running = record {
  name = name;
  state = OperationState.executing;
  metadata = record { stage = Stage.executing; action_digest = action };
  result = none;
  error = none;
  created_at = 5;
  updated_at = 7;
}

known : find_op (run packs start history) name ≡ some (0, running)
unfolding run step enqueue dequeue update_state subscribe new_scheduler find_op change_op
    notify_subscribers subscribers_of notify_all try_send operation_name operation_id str_eq lookup
    insert to_proto
known = refl

subscribed : In 0 (subscribers_of (run packs start history) name)
unfolding run step enqueue dequeue update_state subscribe new_scheduler find_op change_op
    notify_subscribers subscribers_of notify_all try_send operation_name operation_id str_eq lookup
    insert to_proto
subscribed = inl refl

-- The pointer from `Subscribe`, and that of the update to executing.
buffered : ((run packs start history).channels 0).buffer ≡ 0 ∷ 0 ∷ []
unfolding run step enqueue dequeue update_state subscribe new_scheduler find_op change_op
    notify_subscribers subscribers_of notify_all try_send operation_name operation_id str_eq lookup
    insert to_proto
buffered = refl

none_ne_some : {A : Type 0} {a : A} → ◌≢◌ {A = Option A} none (some a)
none_ne_some e = cc

unused : AllUnused packs start history
unfolding new_scheduler
unused = (λ p w. none_ne_some w.1, (tt, (tt, (tt, tt))))

update_loop_lem_example :
    Delivered packs
      (response 42)
      (update_loop packs (run packs start history) name 0 (after_call (completes name 42 9) ∷ []))
    × Delivered packs (failed (status Code.internal)) (
        update_loop packs
          (run packs start history)
          name
          0
          (after_call (fails name (status Code.internal) 9) ∷ []))
update_loop_lem_example =
    update_loop_lem packs 3 node name history 0 0 9 running 42 (status Code.internal) [] unused
      known subscribed refl refl refl

update_loop-overtaken_example :
    let t = update_loop packs (run packs start history) name 0 (overtaken name 42 9 ∷ []) in
    ((m : Operation ℕ) × (t.messages ≡ m ∷ []) × (m.done ≡ false))
    × (t.standing ≡ over none)
    × ((o : OperationStatus ℕ) × (find_op t.scheduler name ≡ some (0, o))
        × (o.state ≡ OperationState.completed)
        × (o.result ≡ some 42))
update_loop-overtaken_example =
    update_loop-overtaken packs (run packs start history) name 0 0 9 (0 ∷ []) running 42 [] buffered
      known refl refl

-- The operation is deleted while its stream waits; the worker completes it in vain.
abbrev deleted : Scheduler ℕ
deleted = step packs (run packs start history) (deletes name)

abbrev rounds : List (UpdateRound ℕ)
rounds =
    after_call (completes name 42 9)
    ∷ (after_call (cleans 20) ∷ (after_call (subscribes name) ∷ []))

deleted-IsGone : IsGone node name 0 deleted
unfolding run step enqueue dequeue update_state subscribe new_scheduler find_op change_op
    notify_subscribers subscribers_of notify_all try_send operation_name operation_id str_eq lookup
    insert to_proto delete_operation delete
deleted-IsGone = record { absent = refl; opened = refl; named = refl }

update_loop-IsGone_example :
    let t = update_loop packs deleted name 0 rounds in (t.messages ≡ []) × (t.standing ≡ waiting)
update_loop-IsGone_example =
    update_loop-IsGone node name 0 packs deleted rounds deleted-IsGone
      (((tt, tt), tt, tt), (((tt, tt), tt, tt), (((tt, tt), tt, tt), tt)))
