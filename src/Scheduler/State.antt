-- ===== src/Scheduler/State.antt =====
-- pkg/scheduler/scheduler.go: the state of the scheduler, and the subscriber channels.
use go_rego.Base.{
  ℕ, Bool, true, false, Option, none, List, [], ◌∷◌, ◌++◌, ltb, ◌==◌, if◌then◌else◌, length,
}
use go_rego.Base.Text.{GoString}
use go_rego.Base.Dict.{Dict}
use go_rego.Base.Integers.{ℤ, pos}
use go_rego.Base.Results.{Error}
use go_rego.Storage.Digests.{Digest}

pub data OperationState : Type 0 where
  queued executing completed : OperationState

-- `repb.ExecutionStage`, the values that the program sets.
pub data Stage : Type 0 where
  queued executing completed : Stage

-- `repb.ExecuteOperationMetadata`, the fields that the program sets.
pub record Metadata : Type 0 where
  pub stage : Stage
  pub action_digest : Digest

pub record Task : Type 0 where
  pub operation_id : GoString
  pub action_digest : Digest
  pub skip_cache : Bool
  pub queued_at : ℕ

-- `R` is the type of `repb.ExecuteResponse`.
pub record OperationStatus (R : Type 0) : Type 0 where
  pub name : GoString
  pub state : OperationState
  pub metadata : Metadata
  pub result : Option R
  pub error : Option Error
  pub created_at : ℕ
  pub updated_at : ℕ

-- A subscriber's `chan *OperationStatus`.
pub record Channel : Type 0 where
  pub buffer : List ℕ
  pub closed : Bool

pub record Scheduler (R : Type 0) : Type 0 where
  pub heap : ℕ → Option (OperationStatus R)
  pub next_pointer : ℕ
  pub operations : Dict ℕ
  pub subscribers : Dict (List ℕ)
  pub channels : ℕ → Channel
  pub next_channel : ℕ
  pub task_queue : List Task
  pub queue_size : ℕ
  pub retention : ℕ
  pub node_id : GoString
  pub executing_count : ℤ

abbrev pub subscriber_buffer : ℕ
subscriber_buffer = 10

-- Ten minutes, in nanoseconds.
abbrev pub ten_minutes : ℕ
ten_minutes = 600_000_000_000

-- A write through a pointer.
abbrev pub update {ℓ} : {A : Type ℓ} → (ℕ → A) → ℕ → A → ℕ → A
update h p v q = if p == q then v else h q

abbrev pub is_executing : OperationState → Bool
is_executing executing = true
is_executing _ = false

abbrev pub is_completed : OperationState → Bool
is_completed completed = true
is_completed _ = false

abbrev pub is_queued : OperationState → Bool
is_queued queued = true
is_queued _ = false

-- `NewScheduler`
unfoldable pub new_scheduler : {R : Type 0} → ℕ → GoString → Scheduler R
new_scheduler queue_size node_id = record {
  heap = λ _. none;
  next_pointer = 0;
  operations = [];
  subscribers = [];
  channels = λ _. record { buffer = []; closed = false };
  next_channel = 0;
  task_queue = [];
  queue_size = queue_size;
  retention = ten_minutes;
  node_id = node_id;
  executing_count = pos 0;
}

-- `select { case ch <- op: default: }`
unfoldable pub try_send : ℕ → ℕ → (ℕ → Channel) → ℕ → Channel
try_send op ch channels =
    if ltb (length (channels ch).buffer) subscriber_buffer
    then update channels ch (record (channels ch) { buffer = (channels ch).buffer ++ (op ∷ []) })
    else channels

unfoldable pub notify_all : ℕ → List ℕ → (ℕ → Channel) → ℕ → Channel
notify_all op [] channels = channels
notify_all op (ch ∷ chs) channels = notify_all op chs (try_send op ch channels)
