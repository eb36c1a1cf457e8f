-- ===== src/Worker/Persistent/Examples.antt =====
-- The theorems on frames and persistent workers, at a worker whose messages are plain strings.
use go_rego.Base.{◌≡◌, refl, none, some, List, [], ◌∷◌, ◌++◌, arith}
use go_rego.Base.Text.{GoString, codes, str_eq}
use go_rego.Base.Dict.{lookup, insert}
use go_rego.Base.Results.{status, Code, Result, ok}
use go_rego.Worker.Framing.{write_proto, read_proto, write_bytes, put_uint32, get_uint32, read_full}
use go_rego.Worker.Framing.Streams.{accepts_all, frame, write_all, read_all, read_all-write_all}
use go_rego.Worker.Persistent.{
  Command, World, ManagedWorker, Pool, Log, wrote, received, started, new_persistent_worker_manager,
  canceled, output, get_or_create_worker, execute, start_worker, send_request,
}
use go_rego.Worker.Persistent.Runs.{Step, get_or_create, run, run-get_or_create_worker}
use go_rego.Worker.Persistent.Replies.{Exchange, execute-response}
use go_rego.Worker.Persistent.Retries.{Extends, starts, execute-Extends}
use go_rego.Worker.Persistent.Cancellation.{killed_log}

abbrev encode : GoString → Result GoString
encode m = ok m

abbrev messages : List GoString
messages = codes "compile" ∷ ([] ∷ (codes "link" ∷ []))

read_all-write_all_example :
    ((write_all accepts_all encode [] messages).1 ≡ none)
    × (read_all encode 3 ((write_all accepts_all encode [] messages).0 ++ codes "x")
        ≡ (codes "x", ok messages))
read_all-write_all_example = read_all-write_all encode encode messages messages (codes "x") (
  codes "compile",
  [] ∷ (codes "link" ∷ []),
  refl,
  refl,
  refl,
  omega arith,
  (
    [],
    codes "link" ∷ [],
    refl,
    refl,
    refl,
    omega arith,
    (codes "link", [], refl, refl, refl, omega arith, refl),
  ),
)

-- Processes get the number of the starts so far, and answer "ok".
abbrev world : World
world = record {
  start = λ log cmd. ok (starts log);
  accepts = λ log pid. accepts_all;
  reply = λ log pid. output (frame (codes "ok"));
}

-- Here the context of every request has ended.
abbrev canceled_world : World
canceled_world = record world { reply = λ log pid. canceled (status Code.canceled) }

abbrev javac : Command
javac = record { path = codes "javac"; args = []; env = []; dir = [] }

abbrev key : GoString
key = codes "java"

abbrev worker : ManagedWorker
worker = record { process = 0; process_state = none }

abbrev history : List (Step GoString)
history = get_or_create key (some javac) ∷ []

abbrev pool : Pool
pool = record {
  workers = (key, worker) ∷ [];
  restart = (key, javac) ∷ [];
  log = started 0 javac ∷ [];
}

run-get_or_create_worker_example :
    (get_or_create_worker world
        (run world encode encode new_persistent_worker_manager history)
        key
        none
      ≡ (run world encode encode new_persistent_worker_manager history, ok worker))
    × ((c : Command) × (lookup key
            (run world encode encode new_persistent_worker_manager history).restart
          ≡ some c))
unfolding get_or_create_worker start_worker new_persistent_worker_manager lookup insert str_eq
run-get_or_create_worker_example =
    run-get_or_create_worker world encode encode history key none worker refl

abbrev answered : Pool
answered = record pool {
  log = started 0 javac ∷ (wrote 0 (frame (codes "compile")) ∷ (received 0 [] ∷ []));
}

execute-response_example : Exchange world encode encode key (codes "compile") answered (codes "ok")
unfolding execute get_or_create_worker send_request write_proto write_bytes read_proto put_uint32
    get_uint32 read_full lookup str_eq
execute-response_example =
    execute-response world encode encode pool answered key none (codes "compile") (codes "ok") refl

execute-Extends_example :
    Extends 2 2 1
      (started 0 javac ∷ [])
      (execute world encode encode pool key none (codes "compile")).0.log
execute-Extends_example = execute-Extends world encode encode pool key none (codes "compile")

abbrev after_kill : Log
after_kill = killed_log (started 0 javac ∷ []) 0 (frame (codes "compile"))
