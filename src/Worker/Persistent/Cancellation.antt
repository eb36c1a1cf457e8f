-- ===== src/Worker/Persistent/Cancellation.antt =====
-- pkg/execution/persistent.go: what `Execute` does with a request whose context ends.
use go_rego.Base.{ℕ, ◌≡◌, refl, Option, none, some, [], ◌∷◌, ◌++◌, ◌∙◌, ap}
use go_rego.Base.Text.{GoString}
use go_rego.Base.Dict.{lookup, insert, delete}
use go_rego.Base.Results.{Error, Result, ok, err, wrapped}
use go_rego.Worker.Framing.{write_proto}
use go_rego.Worker.Persistent.{
  Command, World, ManagedWorker, Pool, remember, start_worker, get_or_create_worker, discard,
  start_known, restart_worker, terminate, send_request, canceled, Log, started, wrote, closed,
  killed, wrap_failure, send_again, retry, send_first, execute,
}

-- After the request to the first worker, which is then killed.
abbrev pub killed_log : Log → ℕ → GoString → Log
killed_log log pid bytes = (log ++ (wrote pid bytes ∷ [])) ++ (closed pid ∷ (killed pid ∷ []))

module _ (world : World) where
  module _ {Q R : Type 0} (marshal : Q → Result GoString) (unmarshal : GoString → Result R) where
    send_request-canceled :
        (p : Pool) (w : ManagedWorker) (req : Q) (bytes : GoString) (e : Error)
        → write_proto (world.accepts p.log w.process) [] (marshal req) ≡ (bytes, none)
        → world.reply (p.log ++ (wrote w.process bytes ∷ [])) w.process ≡ canceled e
        → send_request world marshal unmarshal p w req
          ≡ (record p { log = p.log ++ (wrote w.process bytes ∷ []) }, err e)
    unfolding send_request
    send_request-canceled p w req bytes e written said =
        rw (send_request, written, written, said) refl

    get_or_create_worker-running :
        (p : Pool) (key : GoString) (cmd : Option Command) (w : ManagedWorker)
        → lookup key p.workers ≡ some w
        → w.process_state ≡ none
        → get_or_create_worker world p key cmd ≡ (p, ok w)
    unfolding get_or_create_worker
    get_or_create_worker-running p key cmd w h s = rw (h, get_or_create_worker, s) refl

    -- A request that is canceled while a running worker works on it kills that worker, starts another
    -- one and writes the request to it as well: for a worker of the pool that was not waited for and has
    -- a command for restarts, if both pipes take the request, the start succeeds, and the context of the
    -- request has ended at the first wait and at the second.
    pub execute-canceled :
        (p : Pool) (key : GoString) (cmd : Option Command) (req : Q) (w : ManagedWorker)
        (c : Command) (pid : ℕ) (first second : GoString) (e1 e2 : Error)
        → lookup key p.workers ≡ some w
        → w.process_state ≡ none
        → lookup key p.restart ≡ some c
        → write_proto (world.accepts p.log w.process) [] (marshal req) ≡ (first, none)
        → world.reply (p.log ++ (wrote w.process first ∷ [])) w.process ≡ canceled e1
        → world.start (killed_log p.log w.process first) c ≡ ok pid
        → write_proto
            (world.accepts (killed_log p.log w.process first ++ (started pid c ∷ [])) pid)
            []
            (marshal req)
          ≡ (second, none)
        → world.reply
            ((killed_log p.log w.process first ++ (started pid c ∷ [])) ++ (wrote pid second ∷ []))
            pid
          ≡ canceled e2
        → ((execute world marshal unmarshal p key cmd req).0.log
            ≡ (killed_log p.log w.process first ++ (started pid c ∷ [])) ++ (wrote pid second ∷ []))
          × ((execute world marshal unmarshal p key cmd req).1 ≡ err (wrapped e2))
    unfolding execute restart_worker start_worker terminate
    execute-canceled p key cmd req w c pid first second e1 e2 hw hs hc w1 r1 st w2 r2 =
        let p1 : Pool = record p { log = p.log ++ (wrote w.process first ∷ []) } in
        let p2 : Pool = record p {
          workers =
              insert key (record { process = pid; process_state = none }) (delete key p.workers);
          restart = remember key c p.restart;
          log = killed_log p.log w.process first ++ (started pid c ∷ []);
        } in
        let v : ManagedWorker = record { process = pid; process_state = none } in
        let discarded : discard world p1 key ≡ record {
          workers = delete key p.workers;
          restart = p.restart;
          log = killed_log p.log w.process first;
        } =
          rw (hw, discard) refl in
        let again : restart_worker world p1 key ≡ (p2, ok v) =
          ap (λ q. start_known world q key) discarded
          ∙ rw (hc, start_known, start_worker, st) refl in
        let all =
          ap (send_first world marshal unmarshal key req)
            (get_or_create_worker-running p key cmd w hw hs)
          ∙ ap (retry world marshal unmarshal key req)
              (send_request-canceled p w req first e1 w1 r1)
          ∙ ap (send_again world marshal unmarshal key req e1) again
          ∙ ap (wrap_failure world marshal unmarshal)
              (send_request-canceled p2 v req second e2 w2 r2) in
        (ap (λ r. r.0.log) all, ap (λ r. r.1) all)
