-- ===== src/Worker/Persistent/Runs.antt =====
-- pkg/execution/persistent.go: what holds of the workers in any history. A step is one section under a
-- mutex, so that a history is any interleaving of the calls.
use go_rego.Base.{
  ℕ, ◌≡◌, refl, Option, none, some, List, [], ◌∷◌, ◌++◌, Option-cases, Bool-cases, inl, inr, arith,
  sym, subst,
}
use go_rego.Base.Text.{GoString, str_eq, str_eq_iff, str_eq_refl}
use go_rego.Base.Dict.{Dict, lookup, insert, delete, lookup-insert, lookup-delete}
use go_rego.Base.Results.{Result, ok, Result-cases}
use go_rego.Worker.Framing.{write_proto}
use go_rego.Worker.Persistent.{
  Command, World, ManagedWorker, Pool, new_persistent_worker_manager, set_restart_command,
  terminate, shutdown, remember, register, start_worker, create_worker, get_or_create_worker,
  discard, start_known, restart_worker, receive_response, send_request, Reply, canceled, output,
  Log, started, wrote,
}

-- The worker was never waited for, and a command to restart it is known.
abbrev pub IsKept : Pool → GoString → ManagedWorker → Type 0
IsKept p key w = (w.process_state ≡ none) × ((cmd : Command) × (lookup key p.restart ≡ some cmd))

abbrev pub AllKept : Pool → Type 0
AllKept p = (key : GoString) (w : ManagedWorker) → lookup key p.workers ≡ some w → IsKept p key w

insert-some :
    (j key : GoString) (cmd : Command) (m : Dict Command)
    → ((c : Command) × (lookup key m ≡ some c))
    → (c : Command) × (lookup key (insert j cmd m) ≡ some c)
insert-some j key cmd m (c, h) = elim (Bool-cases (str_eq j key)) [
  | inl e ↦ (cmd, rw (lookup-insert j key cmd m, e) refl)
  | inr e ↦ (c, rw (lookup-insert j key cmd m, e) h)
]

remember-some :
    (j key : GoString) (cmd : Command) (m : Dict Command)
    → ((c : Command) × (lookup key m ≡ some c))
    → (c : Command) × (lookup key (remember j cmd m) ≡ some c)
remember-some j key cmd m h = elim (Option-cases (lookup j m)) [
  | inl e ↦ rw (e, remember) (insert-some j key cmd m h)
  | inr (c, e) ↦ rw (e, remember) h
]

remember-some_self :
    (key : GoString) (cmd : Command) (m : Dict Command)
    → (c : Command) × (lookup key (remember key cmd m) ≡ some c)
remember-some_self key cmd m = elim (Option-cases (lookup key m)) [
  | inl e ↦ (cmd, rw (e, remember, lookup-insert key key cmd m, str_eq_refl key) refl)
  | inr (c, e) ↦ (c, rw (e, remember) e)
]

delete-AllKept :
    (p : Pool) (j : GoString) → AllKept p → AllKept (record p { workers = delete j p.workers })
delete-AllKept p j kept key w h = kept key w (ground (arith, lookup-delete j key p.workers))

insert-AllKept :
    (p : Pool) (j : GoString) (cmd : Command) (v : ManagedWorker) (log : Log)
    → v.process_state ≡ none
    → AllKept p
    → AllKept
        (record { workers = insert j v p.workers; restart = remember j cmd p.restart; log = log })
insert-AllKept p j cmd v log fresh kept key w h = elim (Bool-cases (str_eq j key)) [
  | inl same ↦
      let e : j ≡ key = (str_eq_iff j key).0 same in
      let found : some v ≡ some w = rw (lookup-insert j key v p.workers, same) at h in
      (ground (arith), rw (← e) (remember-some_self j cmd p.restart))
  | inr other ↦
      let old = kept key w (rw (lookup-insert j key v p.workers, other) at h) in
      (old.0, remember-some j key cmd p.restart old.1)
]

empty-AllKept : AllKept new_persistent_worker_manager
unfolding new_persistent_worker_manager lookup
empty-AllKept key w h = absurd (cc)

-- A section under a mutex.
pub data Step (Q : Type 0) : Type 0 where
  get_or_create : GoString → Option Command → Step Q
  restart : GoString → Step Q
  send : ManagedWorker → Q → Step Q
  set_restart : GoString → Command → Step Q
  stop : Step Q

module _ (world : World) where
  start_worker-AllKept :
      (p : Pool) (j : GoString) (cmd : Command)
      → AllKept p
      → AllKept (register j (start_worker world p j cmd)).0
  unfolding start_worker
  start_worker-AllKept p j cmd kept = elim (Result-cases (world.start p.log cmd)) [
    | inr (er, e) ↦ rw (e, start_worker) kept
    | inl (pid, e) ↦
        rw (e, start_worker)
          (insert-AllKept p j cmd (record { process = pid; process_state = none })
            (p.log ++ (started pid cmd ∷ [])) refl kept)
  ]

  create_worker-AllKept :
      (p : Pool) (j : GoString) (cmd : Option Command)
      → AllKept p
      → AllKept (create_worker world p j cmd).0
  create_worker-AllKept p j none kept = kept
  create_worker-AllKept p j (some cmd) kept = start_worker-AllKept p j cmd kept

  -- A worker of the pool is given out, whatever became of its process.
  get_or_create_worker-kept :
      (p : Pool) (key : GoString) (cmd : Option Command) (w : ManagedWorker)
      → AllKept p
      → lookup key p.workers ≡ some w
      → get_or_create_worker world p key cmd ≡ (p, ok w)
  unfolding get_or_create_worker
  get_or_create_worker-kept p key cmd w kept h = rw (h, get_or_create_worker, (kept key w h).0) refl

  get_or_create_worker-AllKept :
      (p : Pool) (key : GoString) (cmd : Option Command)
      → AllKept p
      → AllKept (get_or_create_worker world p key cmd).0
  unfolding get_or_create_worker
  get_or_create_worker-AllKept p key cmd kept = elim (Option-cases (lookup key p.workers)) [
    | inl e ↦ rw (e, get_or_create_worker) (create_worker-AllKept p key cmd kept)
    | inr (w, e) ↦
        let same : get_or_create_worker world p key cmd ≡ (p, ok w) =
          get_or_create_worker-kept p key cmd w kept e in
        subst (λ r. AllKept r.0) (sym same) kept
  ]

  discard-AllKept : (p : Pool) (key : GoString) → AllKept p → AllKept (discard world p key)
  unfolding terminate
  discard-AllKept p key kept = elim (Option-cases (lookup key p.workers)) [
    | inl e ↦ rw (e, discard) kept
    | inr (w, e) ↦ rw (e, discard) (delete-AllKept p key kept)
  ]

  restart_worker-AllKept :
      (p : Pool) (key : GoString) → AllKept p → AllKept (restart_worker world p key).0
  unfolding restart_worker
  restart_worker-AllKept p key kept =
      let left = discard-AllKept p key kept in
      elim (Option-cases (lookup key (discard world p key).restart)) [
        | inl e ↦ rw (e, start_known) left
        | inr (cmd, e) ↦
            rw (e, start_known) (start_worker-AllKept (discard world p key) key cmd left)
      ]

  module _ {Q R : Type 0} (marshal : Q → Result GoString) (unmarshal : GoString → Result R) where
    abbrev pub step : Pool → Step Q → Pool
    step p (get_or_create key cmd) = (get_or_create_worker world p key cmd).0
    step p (restart key) = (restart_worker world p key).0
    step p (send w req) = (send_request world marshal unmarshal p w req).0
    step p (set_restart key cmd) = set_restart_command p key cmd
    step p stop = shutdown p

    abbrev pub run : Pool → List (Step Q) → Pool
    run p [] = p
    run p (s ∷ ss) = run (step p s) ss

    receive_response-same :
        (p : Pool) (pid : ℕ) (r : Reply)
        → ((receive_response world marshal unmarshal p pid r).0.workers ≡ p.workers)
          × ((receive_response world marshal unmarshal p pid r).0.restart ≡ p.restart)
    receive_response-same p pid (canceled e) = (refl, refl)
    receive_response-same p pid (output stream) = (refl, refl)

    -- A request changes the log only.
    pub send_request-same :
        (p : Pool) (w : ManagedWorker) (req : Q)
        → ((send_request world marshal unmarshal p w req).0.workers ≡ p.workers)
          × ((send_request world marshal unmarshal p w req).0.restart ≡ p.restart)
    unfolding send_request
    send_request-same p w req =
        elim (Option-cases (write_proto (world.accepts p.log w.process) [] (marshal req)).1) [
          | inr (e, h) ↦ rw (h, send_request) (refl, refl)
          | inl h ↦
              let bytes = (write_proto (world.accepts p.log w.process) [] (marshal req)).0 in
              let p1 : Pool = record p { log = p.log ++ (wrote w.process bytes ∷ []) } in
              rw (h, send_request)
                (receive_response-same p1 w.process (world.reply p1.log w.process))
        ]

    send_request-AllKept :
        (p : Pool) (w : ManagedWorker) (req : Q)
        → AllKept p
        → AllKept (send_request world marshal unmarshal p w req).0
    send_request-AllKept p w req kept key v h =
        let same = send_request-same p w req in rw same.1 (kept key v (rw same.0 at h))

    step-AllKept : (p : Pool) (s : Step Q) → AllKept p → AllKept (step p s)
    unfolding set_restart_command shutdown lookup
    step-AllKept p (get_or_create key cmd) kept = get_or_create_worker-AllKept p key cmd kept
    step-AllKept p (restart key) kept = restart_worker-AllKept p key kept
    step-AllKept p (send w req) kept = send_request-AllKept p w req kept
    step-AllKept p (set_restart key cmd) kept =
        λ j w h. ((kept j w h).0, insert-some key j cmd p.restart (kept j w h).1)
    step-AllKept p stop kept = λ j w h. absurd (cc)

    run-AllKept : (p : Pool) (ss : List (Step Q)) → AllKept p → AllKept (run p ss)
    run-AllKept p [] kept = kept
    run-AllKept p (s ∷ ss) kept = run-AllKept (step p s) ss (step-AllKept p s kept)

    -- In any history, a worker that the pool has for a key is given out by the next call of
    -- getOrCreateWorker, with the pool unchanged and whatever became of its process; and the pool has a
    -- command to restart it.
    pub run-get_or_create_worker :
        (ss : List (Step Q)) (key : GoString) (cmd : Option Command) (w : ManagedWorker)
        → lookup key (run new_persistent_worker_manager ss).workers ≡ some w
        → (get_or_create_worker world (run new_persistent_worker_manager ss) key cmd
            ≡ (run new_persistent_worker_manager ss, ok w))
          × ((c : Command) × (lookup key (run new_persistent_worker_manager ss).restart ≡ some c))
    run-get_or_create_worker ss key cmd w h =
        let kept = run-AllKept new_persistent_worker_manager ss empty-AllKept in
        (
          get_or_create_worker-kept (run new_persistent_worker_manager ss) key cmd w kept h,
          (kept key w h).1,
        )
