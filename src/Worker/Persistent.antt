-- ===== src/Worker/Persistent.antt =====
-- pkg/execution/persistent.go: `PersistentWorkerManager`. Each function is one section under a mutex.
-- What the operating system and the processes answer may depend on all that was done before, the log.
pub mod Runs
pub mod Replies
pub mod Retries
pub mod Cancellation
mod Examples
use go_rego.Base.{ℕ, Bool, true, not, Option, none, some, List, [], ◌∷◌, ◌++◌, if◌then◌else◌}
use go_rego.Base.Text.{GoString}
use go_rego.Base.Dict.{Dict, lookup, insert, delete}
use go_rego.Base.Results.{Error, wrapped, plain, Result, ok, err}
use go_rego.Worker.Framing.{Accepts, write_proto, read_proto}

-- `exec.Cmd` before it is started.
pub record Command : Type 0 where
  pub path : GoString
  pub args : List GoString
  pub env : List GoString
  pub dir : GoString

-- What is done to processes, by their identifiers.
pub data Event : Type 0 where
  started : ℕ → Command → Event
  -- The bytes that its standard input took of a request.
  wrote : ℕ → GoString → Event
  -- A response was read; the bytes that stay in the pipe.
  received : ℕ → GoString → Event
  -- The pipes are closed.
  closed : ℕ → Event
  -- `Kill` and `Wait`.
  killed : ℕ → Event

abbrev pub Log : Type 0
Log = List Event

-- What the `select` of `sendRequest` takes: the end of the context, or what the process writes.
pub data Reply : Type 0 where
  canceled : Error → Reply
  output : GoString → Reply

pub record World : Type 0 where
  -- `StdinPipe`, `StdoutPipe` and `Start`.
  pub start : Log → Command → Result ℕ
  pub accepts : Log → ℕ → Accepts
  pub reply : Log → ℕ → Reply

-- `managedWorker`: `startWorker` gives one whose process runs, with the `ProcessState` nil until `Wait`;
-- it is here what `Exited` gives.
pub record ManagedWorker : Type 0 where
  pub process : ℕ
  pub process_state : Option Bool

pub record Pool : Type 0 where
  pub workers : Dict ManagedWorker
  pub restart : Dict Command
  pub log : Log

unfoldable pub new_persistent_worker_manager : Pool
new_persistent_worker_manager = record { workers = []; restart = []; log = [] }

unfoldable pub set_restart_command : Pool → GoString → Command → Pool
set_restart_command p key cmd = record p { restart = insert key cmd p.restart }

abbrev pub is_alive : Option Bool → Bool
is_alive none = true
is_alive (some exited) = not exited

-- The worker's pipes are closed, its process is killed.
unfoldable pub terminate : Pool → ManagedWorker → Pool
terminate p w = record p { log = p.log ++ (closed w.process ∷ (killed w.process ∷ [])) }

abbrev pub terminate_all : Log → Dict ManagedWorker → Log
terminate_all log [] = log
terminate_all log ((key, w) ∷ ws) =
    terminate_all (log ++ (closed w.process ∷ (killed w.process ∷ []))) ws

unfoldable pub shutdown : Pool → Pool
shutdown p = record p { workers = []; log = terminate_all p.log p.workers }

-- The first command is kept for restarts.
abbrev pub remember : GoString → Command → Dict Command → Dict Command
remember key cmd m = elim (lookup key m) [ none ↦ insert key cmd m | some _ ↦ m ]

abbrev pub register : GoString → Pool × Result ManagedWorker → Pool × Result ManagedWorker
register key (p, err e) = (p, err e)
register key (p, ok w) = (record p { workers = insert key w p.workers }, ok w)

module _ (world : World) where
  unfoldable pub start_worker : Pool → GoString → Command → Pool × Result ManagedWorker
  start_worker p key cmd = elim (world.start p.log cmd) [
    | err e ↦ (p, err e)
    | ok pid ↦ (
      record p { restart = remember key cmd p.restart; log = p.log ++ (started pid cmd ∷ []) },
      ok (record { process = pid; process_state = none }),
    )
  ]

  abbrev pub create_worker : Pool → GoString → Option Command → Pool × Result ManagedWorker
  create_worker p key none = (p, err plain)
  create_worker p key (some cmd) = register key (start_worker p key cmd)

  unfoldable pub get_or_create_worker :
      Pool → GoString → Option Command → Pool × Result ManagedWorker
  get_or_create_worker p key cmd = elim (lookup key p.workers) [
    | none ↦ create_worker p key cmd
    | some w ↦
        if is_alive w.process_state
        then (p, ok w)
        else create_worker
            (record p { workers = delete key p.workers; log = p.log ++ (closed w.process ∷ []) })
            key cmd
  ]

  abbrev pub discard : Pool → GoString → Pool
  discard p key = elim (lookup key p.workers) [
    | none ↦ p
    | some w ↦ let p1 = terminate p w in record p1 { workers = delete key p1.workers }
  ]

  -- The function that is kept for the restart never gives nil.
  abbrev pub start_known : Pool → GoString → Pool × Result ManagedWorker
  start_known p key = elim (lookup key p.restart) [
    | none ↦ (p, err plain)
    | some cmd ↦ register key (start_worker p key cmd)
  ]

  unfoldable pub restart_worker : Pool → GoString → Pool × Result ManagedWorker
  restart_worker p key = start_known (discard p key) key

  -- Requests and responses in their encodings.
  module _ {Q R : Type 0} (marshal : Q → Result GoString) (unmarshal : GoString → Result R) where
    abbrev pub receive_response : Pool → ℕ → Reply → Pool × Result R
    receive_response p pid (canceled e) = (p, err e)
    receive_response p pid (output stream) =
        let (rest, r) = read_proto unmarshal stream in
        (
          record p { log = p.log ++ (received pid rest ∷ []) },
          elim r [ err e ↦ err (wrapped e) | ok a ↦ ok a ],
        )

    unfoldable pub send_request : Pool → ManagedWorker → Q → Pool × Result R
    send_request p w req =
        let (bytes, e) = write_proto (world.accepts p.log w.process) [] (marshal req) in
        let p1 : Pool = record p { log = p.log ++ (wrote w.process bytes ∷ []) } in
        elim e [
          | some er ↦ (p1, err (wrapped er))
          | none ↦ receive_response p1 w.process (world.reply p1.log w.process)
        ]

    abbrev pub wrap_failure : Pool × Result R → Pool × Result R
    wrap_failure (p, ok r) = (p, ok r)
    wrap_failure (p, err e) = (p, err (wrapped e))

    abbrev pub send_again : GoString → Q → Error → Pool × Result ManagedWorker → Pool × Result R
    send_again key req first (p, err e) = (p, err (wrapped first))
    send_again key req first (p, ok w) = wrap_failure (send_request p w req)

    abbrev pub retry : GoString → Q → Pool × Result R → Pool × Result R
    retry key req (p, ok r) = (p, ok r)
    retry key req (p, err e) = send_again key req e (restart_worker p key)

    abbrev pub send_first : GoString → Q → Pool × Result ManagedWorker → Pool × Result R
    send_first key req (p, err e) = (p, err (wrapped e))
    send_first key req (p, ok w) = retry key req (send_request p w req)

    unfoldable pub execute : Pool → GoString → Option Command → Q → Pool × Result R
    execute p key cmd req = send_first key req (get_or_create_worker p key cmd)
