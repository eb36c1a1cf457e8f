-- ===== src/Worker/Persistent/Retries.antt =====
-- pkg/execution/persistent.go: how often `Execute` sends, starts and kills, and for whom.
use go_rego.Base.{
  ℕ, ◌+◌, ◌≤◌, ◌≡◌, refl, Option, none, some, [], ◌∷◌, ◌++◌, append_assoc, append-nil, ◌∙◌,
  Option-cases, Bool-cases, inl, inr, arith, sym, ap,
}
use go_rego.Base.Text.{GoString}
use go_rego.Base.Dict.{lookup, delete}
use go_rego.Base.Results.{Error, Result, ok, err, Result-cases}
use go_rego.Worker.Framing.{write_proto, read_proto}
use go_rego.Worker.Persistent.{
  Command, World, ManagedWorker, Pool, is_alive, register, start_worker, create_worker,
  get_or_create_worker, discard, start_known, restart_worker, receive_response, terminate,
  send_request, Reply, canceled, output, Log, started, wrote, received, closed, killed,
  wrap_failure, send_again, retry, send_first, execute,
}

-- How often processes were started, given a request, and killed.
abbrev pub starts : Log → ℕ
starts [] = 0
starts (started pid cmd ∷ log) = 1 + starts log
starts (wrote pid bytes ∷ log) = starts log
starts (received pid rest ∷ log) = starts log
starts (closed pid ∷ log) = starts log
starts (killed pid ∷ log) = starts log

abbrev pub requests : Log → ℕ
requests [] = 0
requests (started pid cmd ∷ log) = requests log
requests (wrote pid bytes ∷ log) = 1 + requests log
requests (received pid rest ∷ log) = requests log
requests (closed pid ∷ log) = requests log
requests (killed pid ∷ log) = requests log

abbrev pub kills : Log → ℕ
kills [] = 0
kills (started pid cmd ∷ log) = kills log
kills (wrote pid bytes ∷ log) = kills log
kills (received pid rest ∷ log) = kills log
kills (closed pid ∷ log) = kills log
kills (killed pid ∷ log) = 1 + kills log

-- The log was extended by at most so many starts, requests and kills.
abbrev pub Extends : ℕ → ℕ → ℕ → Log → Log → Type 0
Extends s r k before after =
    (more : Log) × (after ≡ before ++ more)
    × (starts more ≤ s)
    × (requests more ≤ r)
    × (kills more ≤ k)

starts-append : (a b : Log) → starts (a ++ b) ≡ starts a + starts b
starts-append [] b = omega arith
starts-append (started pid cmd ∷ a) b = omega (arith, starts-append a b)
starts-append (wrote pid bytes ∷ a) b = starts-append a b
starts-append (received pid rest ∷ a) b = starts-append a b
starts-append (closed pid ∷ a) b = starts-append a b
starts-append (killed pid ∷ a) b = starts-append a b

requests-append : (a b : Log) → requests (a ++ b) ≡ requests a + requests b
requests-append [] b = omega arith
requests-append (started pid cmd ∷ a) b = requests-append a b
requests-append (wrote pid bytes ∷ a) b = omega (arith, requests-append a b)
requests-append (received pid rest ∷ a) b = requests-append a b
requests-append (closed pid ∷ a) b = requests-append a b
requests-append (killed pid ∷ a) b = requests-append a b

kills-append : (a b : Log) → kills (a ++ b) ≡ kills a + kills b
kills-append [] b = omega arith
kills-append (started pid cmd ∷ a) b = kills-append a b
kills-append (wrote pid bytes ∷ a) b = kills-append a b
kills-append (received pid rest ∷ a) b = kills-append a b
kills-append (closed pid ∷ a) b = kills-append a b
kills-append (killed pid ∷ a) b = omega (arith, kills-append a b)

Extends-refl : (log : Log) → Extends 0 0 0 log log
Extends-refl log = ([], sym (append-nil log), omega arith, omega arith, omega arith)

Extends-trans :
    {s1 r1 k1 s2 r2 k2 : ℕ} (a b c : Log)
    → Extends s1 r1 k1 a b
    → Extends s2 r2 k2 b c
    → Extends (s1 + s2) (r1 + r2) (k1 + k2) a c
Extends-trans a b c (m, e, hs, hr, hk) (n, f, is, ir, ik) = (
  m ++ n,
  f ∙ ap (λ l. l ++ n) e ∙ append_assoc a m n,
  omega (arith, starts-append m n),
  omega (arith, requests-append m n),
  omega (arith, kills-append m n),
)

Extends-weaken :
    {s r k : ℕ} (t q j : ℕ) (a b : Log)
    → s ≤ t
    → r ≤ q
    → k ≤ j
    → Extends s r k a b
    → Extends t q j a b
Extends-weaken t q j a b hs hr hk (m, e, is, ir, ik) = (m, e, omega arith, omega arith, omega arith)

module _ (world : World) where
  start_worker-Extends :
      (p : Pool) (key : GoString) (cmd : Command)
      → Extends 1 0 0 p.log (register key (start_worker world p key cmd)).0.log
  unfolding start_worker
  start_worker-Extends p key cmd = elim (Result-cases (world.start p.log cmd)) [
    | inr (er, e) ↦
        rw (e, start_worker)
          (Extends-weaken 1 0 0 p.log p.log (omega arith) (omega arith) (omega arith)
            (Extends-refl p.log))
    | inl (pid, e) ↦
        rw (e, start_worker) (started pid cmd ∷ [], refl, omega arith, omega arith, omega arith)
  ]

  create_worker-Extends :
      (p : Pool) (key : GoString) (cmd : Option Command)
      → Extends 1 0 0 p.log (create_worker world p key cmd).0.log
  create_worker-Extends p key none =
      Extends-weaken 1 0 0 p.log p.log (omega arith) (omega arith) (omega arith)
        (Extends-refl p.log)
  create_worker-Extends p key (some cmd) = start_worker-Extends p key cmd

  get_or_create_worker-Extends :
      (p : Pool) (key : GoString) (cmd : Option Command)
      → Extends 1 0 0 p.log (get_or_create_worker world p key cmd).0.log
  unfolding get_or_create_worker
  get_or_create_worker-Extends p key cmd = elim (Option-cases (lookup key p.workers)) [
    | inl e ↦ rw (e, get_or_create_worker) (create_worker-Extends p key cmd)
    | inr (w, e) ↦ elim (Bool-cases (is_alive w.process_state)) [
      | inl alive ↦
          rw (e, get_or_create_worker, alive)
            (Extends-weaken 1 0 0 p.log p.log (omega arith) (omega arith) (omega arith)
              (Extends-refl p.log))
      | inr dead ↦
          let without : Pool = record p {
            workers = delete key p.workers;
            log = p.log ++ (closed w.process ∷ []);
          } in
          rw (e, get_or_create_worker, dead)
            (Extends-trans {s1 = 0} {r1 = 0} {k1 = 0} p.log without.log
              (create_worker world without key cmd).0.log
              (closed w.process ∷ [], refl, omega arith, omega arith, omega arith)
              (create_worker-Extends without key cmd))
    ]
  ]

  discard-Extends : (p : Pool) (key : GoString) → Extends 0 0 1 p.log (discard world p key).log
  unfolding terminate
  discard-Extends p key = elim (Option-cases (lookup key p.workers)) [
    | inl e ↦
        rw (e, discard)
          (Extends-weaken 0 0 1 p.log p.log (omega arith) (omega arith) (omega arith)
            (Extends-refl p.log))
    | inr (w, e) ↦
        rw (e, discard)
          (closed w.process ∷ (killed w.process ∷ []), refl, omega arith, omega arith, omega arith)
  ]

  restart_worker-Extends :
      (p : Pool) (key : GoString) → Extends 1 0 1 p.log (restart_worker world p key).0.log
  unfolding restart_worker
  restart_worker-Extends p key =
      let left = discard world p key in
      elim (Option-cases (lookup key left.restart)) [
        | inl e ↦
            rw (e, start_known)
              (Extends-weaken 1 0 1 p.log left.log (omega arith) (omega arith) (omega arith)
                (discard-Extends p key))
        | inr (cmd, e) ↦
            rw (e, start_known)
              (Extends-trans p.log left.log (register key (start_worker world left key cmd)).0.log
                (discard-Extends p key) (start_worker-Extends left key cmd))
      ]

  module _ {Q R : Type 0} (marshal : Q → Result GoString) (unmarshal : GoString → Result R) where
    receive_response-Extends :
        (p : Pool) (pid : ℕ) (r : Reply)
        → Extends 0 0 0 p.log (receive_response world marshal unmarshal p pid r).0.log
    receive_response-Extends p pid (canceled e) = Extends-refl p.log
    receive_response-Extends p pid (output stream) = (
      received pid (read_proto unmarshal stream).0 ∷ [],
      refl,
      omega arith,
      omega arith,
      omega arith,
    )

    send_request-Extends :
        (p : Pool) (w : ManagedWorker) (req : Q)
        → Extends 0 1 0 p.log (send_request world marshal unmarshal p w req).0.log
    unfolding send_request
    send_request-Extends p w req =
        let sent = write_proto (world.accepts p.log w.process) [] (marshal req) in
        let p1 : Pool = record p { log = p.log ++ (wrote w.process sent.0 ∷ []) } in
        let once : Extends 0 1 0 p.log p1.log =
          (wrote w.process sent.0 ∷ [], refl, omega arith, omega arith, omega arith) in
        let reply = world.reply p1.log w.process in
        elim (Option-cases sent.1) [
          | inr (er, e) ↦ rw (e, send_request) once
          | inl e ↦
              rw (e, send_request)
                (Extends-trans p.log p1.log
                  (receive_response world marshal unmarshal p1 w.process reply).0.log once
                  (receive_response-Extends p1 w.process reply))
        ]

    wrap_failure-same : (r : Pool × Result R) → (wrap_failure world marshal unmarshal r).0 ≡ r.0
    wrap_failure-same (p, err e) = refl
    wrap_failure-same (p, ok r) = refl

    send_again-Extends :
        (key : GoString) (req : Q) (first : Error) (r : Pool × Result ManagedWorker)
        → Extends 0 1 0 r.0.log (send_again world marshal unmarshal key req first r).0.log
    send_again-Extends key req first (p, err e) =
        Extends-weaken 0 1 0 p.log p.log (omega arith) (omega arith) (omega arith)
          (Extends-refl p.log)
    send_again-Extends key req first (p, ok w) =
        let sent = send_request world marshal unmarshal p w req in
        rw (wrap_failure-same sent) (send_request-Extends p w req)

    retry-Extends :
        (key : GoString) (req : Q) (r : Pool × Result R)
        → Extends 1 1 1 r.0.log (retry world marshal unmarshal key req r).0.log
    retry-Extends key req (p, ok r) =
        Extends-weaken 1 1 1 p.log p.log (omega arith) (omega arith) (omega arith)
          (Extends-refl p.log)
    retry-Extends key req (p, err e) =
        let again = restart_worker world p key in
        Extends-trans p.log again.0.log (send_again world marshal unmarshal key req e again).0.log
          (restart_worker-Extends p key) (send_again-Extends key req e again)

    send_first-Extends :
        (key : GoString) (req : Q) (r : Pool × Result ManagedWorker)
        → Extends 1 2 1 r.0.log (send_first world marshal unmarshal key req r).0.log
    send_first-Extends key req (p, err e) =
        Extends-weaken 1 2 1 p.log p.log (omega arith) (omega arith) (omega arith)
          (Extends-refl p.log)
    send_first-Extends key req (p, ok w) =
        let sent = send_request world marshal unmarshal p w req in
        Extends-trans p.log sent.0.log (retry world marshal unmarshal key req sent).0.log
          (send_request-Extends p w req) (retry-Extends key req sent)

    -- A call of Execute writes to processes at most twice, starts at most two and kills at most one,
    -- whatever the operating system and the processes answer; nothing that was done before is forgotten.
    pub execute-Extends :
        (p : Pool) (key : GoString) (cmd : Option Command) (req : Q)
        → Extends 2 2 1 p.log (execute world marshal unmarshal p key cmd req).0.log
    unfolding execute
    execute-Extends p key cmd req =
        let got = get_or_create_worker world p key cmd in
        Extends-trans p.log got.0.log (send_first world marshal unmarshal key req got).0.log
          (get_or_create_worker-Extends p key cmd) (send_first-Extends key req got)
