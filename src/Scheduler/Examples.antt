-- ===== src/Scheduler/Examples.antt =====
-- The theorems on the scheduler, at small histories.
use go_rego.Base.{
  ℕ, ◌+◌, ◌≡◌, ◌≢◌, refl, true, false, Option, none, some, List, [], ◌∷◌, arith, length, inl,
}
use go_rego.Base.Text.{GoString, codes, str_eq}
use go_rego.Base.Dict.{lookup, insert}
use go_rego.Base.Integers.{pos}
use go_rego.Storage.Digests.{Digest}
use go_rego.Scheduler.State.{
  OperationState, Stage, OperationStatus, Scheduler, new_scheduler, try_send, notify_all,
}
use go_rego.Scheduler.Names.{operation_id, operation_name, parse_operation_node_id}
use go_rego.Scheduler.Naming.{NoColon, parse_operation_node_id-operation_name}
use go_rego.Scheduler.Updates.{subscribers_of, notify_subscribers, find_op, change_op, update_state}
use go_rego.Scheduler.Queue.{Packing, get_pending_task_count, enqueue, dequeue, to_proto}
use go_rego.Scheduler.Subscriptions.{subscribe}
use go_rego.Scheduler.Events.{Event, enqueues, dequeues, updates, subscribes, step, run}
use go_rego.Scheduler.Entries.{executing_entries}
use go_rego.Scheduler.Counting.{executing_now}
use go_rego.Scheduler.Counting.Runs.{forgotten, run-get_pending_task_count}
use go_rego.Scheduler.Delivery.{In}
use go_rego.Scheduler.Delivery.Runs.{AllUnused}

abbrev node : GoString
node = codes "node-1"

abbrev peer : GoString
peer = codes "10.0.0.2"

abbrev uuid : GoString
uuid = codes "4f2a"

parse_operation_node_id-operation_name_example :
    parse_operation_node_id (operation_name node peer uuid) ≡ (peer, uuid)
parse_operation_node_id-operation_name_example =
    parse_operation_node_id-operation_name node peer uuid (ground arith) (ground arith) (λ e. cc)

-- An IPv6 address as the identifier.
abbrev ipv6 : GoString
ipv6 = codes "fe80::1"

ipv6-NoColon : ¬ NoColon ipv6
ipv6-NoColon h = h.1.1.1.1.0 refl

abbrev packs : Packing ℕ
packs = record { metadata_error = λ _. none; result_error = λ _. none }

abbrev action : Digest
action = record { hash = codes "ab"; size = 3 }

abbrev first_name : GoString
first_name = codes "operations/node-1:4f2a"

-- An operation is enqueued, subscribed to, taken by a worker and put to executing.
abbrev history : List (Event ℕ)
history =
    enqueues action false [] uuid 5
    ∷ subscribes first_name
    ∷ dequeues none true
    ∷ updates first_name OperationState.executing
        (record { stage = Stage.executing; action_digest = action }) 7
    ∷ []

abbrev start : Scheduler ℕ
start = new_scheduler 3 node

run-get_pending_task_count_example :
    get_pending_task_count (run packs start history)
    ≡ pos (
        length (run packs start history).task_queue
        + (forgotten packs start history
            + executing_entries
                (run packs start history).heap
                (run packs start history).operations))
run-get_pending_task_count_example = run-get_pending_task_count packs 3 node history

executing_now_one : executing_now (run packs start history) first_name ≡ 1
unfolding run step enqueue dequeue update_state subscribe new_scheduler find_op change_op
    notify_subscribers subscribers_of notify_all try_send operation_name operation_id str_eq lookup
    insert to_proto executing_now
executing_now_one = refl

abbrev running : OperationStatus ℕ
running = record {
  name = first_name;
  state = OperationState.executing;
  metadata = record { stage = Stage.executing; action_digest = action };
  result = none;
  error = none;
  created_at = 5;
  updated_at = 7;
}

found : find_op (run packs start history) first_name ≡ some (0, running)
unfolding run step enqueue dequeue update_state subscribe new_scheduler find_op change_op
    notify_subscribers subscribers_of notify_all try_send operation_name operation_id str_eq lookup
    insert to_proto
found = refl

subscribed : In 0 (subscribers_of (run packs start history) first_name)
unfolding run step enqueue dequeue update_state subscribe new_scheduler find_op change_op
    notify_subscribers subscribers_of notify_all try_send operation_name operation_id str_eq lookup
    insert to_proto
subscribed = inl refl

none_ne_some : {A : Type 0} {a : A} → ◌≢◌ {A = Option A} none (some a)
none_ne_some e = cc

unused : AllUnused packs start history
unfolding new_scheduler
unused = (λ p w. none_ne_some w.1, (tt, (tt, (tt, tt))))
