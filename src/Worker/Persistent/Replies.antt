-- ===== src/Worker/Persistent/Replies.antt =====
-- pkg/execution/persistent.go: the response that `Execute` gives belongs to its request.
use go_rego.Base.{
  ◌≡◌, refl, Option, none, some, [], ◌∷◌, ◌++◌, append_assoc, Option-cases, Bool-cases, inl, inr,
  subst, ap,
}
use go_rego.Base.Text.{GoString, str_eq_refl}
use go_rego.Base.Dict.{lookup, lookup-insert}
use go_rego.Base.Results.{Error, Result, ok, err, Result-cases}
use go_rego.Worker.Framing.{write_proto, read_proto}
use go_rego.Worker.Framing.Streams.{frame, write_proto-whole}
use go_rego.Worker.Persistent.{
  Command, World, ManagedWorker, Pool, is_alive, register, start_worker, create_worker,
  get_or_create_worker, discard, start_known, restart_worker, receive_response, send_request, Reply,
  canceled, output, Log, wrote, received, wrap_failure, send_again, retry, send_first, execute,
}

-- The pool has the worker for the key if the result is one.
abbrev pub Registered : GoString → Pool × Result ManagedWorker → Type 0
Registered key (p, err e) = Unit
Registered key (p, ok w) = lookup key p.workers ≡ some w

register-Registered :
    (key : GoString) (r : Pool × Result ManagedWorker) → Registered key (register key r)
register-Registered key (p, err e) = tt
register-Registered key (p, ok w) = rw (lookup-insert key key w p.workers, str_eq_refl key) refl

module _ (world : World) where
  create_worker-Registered :
      (p : Pool) (key : GoString) (cmd : Option Command)
      → Registered key (create_worker world p key cmd)
  create_worker-Registered p key none = tt
  create_worker-Registered p key (some cmd) = register-Registered key (start_worker world p key cmd)

  get_or_create_worker-Registered :
      (p : Pool) (key : GoString) (cmd : Option Command)
      → Registered key (get_or_create_worker world p key cmd)
  unfolding get_or_create_worker
  get_or_create_worker-Registered p key cmd = elim (Option-cases (lookup key p.workers)) [
    | inl e ↦ rw (e, get_or_create_worker) (create_worker-Registered p key cmd)
    | inr (w, e) ↦ elim (Bool-cases (is_alive w.process_state)) [
      | inl alive ↦ rw (e, get_or_create_worker, alive) e
      | inr dead ↦ rw (e, get_or_create_worker, dead) (create_worker-Registered _ key cmd)
    ]
  ]

  restart_worker-Registered :
      (p : Pool) (key : GoString) → Registered key (restart_worker world p key)
  unfolding restart_worker
  restart_worker-Registered p key = elim (Option-cases (lookup key (discard world p key).restart)) [
    | inl e ↦ rw (e, start_known) tt
    | inr (cmd, e) ↦
        rw (e, start_known)
          (register-Registered key (start_worker world (discard world p key) key cmd))
  ]

  module _ {Q R : Type 0} (marshal : Q → Result GoString) (unmarshal : GoString → Result R) where
    -- The worker took the whole request, then wrote a stream that starts with the response; these
    -- are the last events.
    abbrev pub Exchange : GoString → Q → Pool → R → Type 0
    Exchange key req p r =
        (w : ManagedWorker) × (before : Log) × (bytes : GoString) × (stream : GoString)
        × (rest : GoString) × (lookup key p.workers ≡ some w)
        × ((message : GoString) × (marshal req ≡ ok message) × (bytes ≡ frame message))
        × (world.reply (before ++ (wrote w.process bytes ∷ [])) w.process ≡ output stream)
        × (read_proto unmarshal stream ≡ (rest, ok r))
        × (p.log ≡ before ++ (wrote w.process bytes ∷ (received w.process rest ∷ [])))

    abbrev pub Answered : GoString → Q → Pool × Result R → Type 0
    Answered key req (p, err e) = Unit
    Answered key req (p, ok r) = Exchange key req p r

    receive_response-Answered :
        (key : GoString) (p : Pool) (w : ManagedWorker) (req : Q) (bytes : GoString) (reply : Reply)
        → lookup key p.workers ≡ some w
        → write_proto (world.accepts p.log w.process) [] (marshal req) ≡ (bytes, none)
        → world.reply (p.log ++ (wrote w.process bytes ∷ [])) w.process ≡ reply
        → Answered key req (
            receive_response world marshal unmarshal
              (record p { log = p.log ++ (wrote w.process bytes ∷ []) })
              w.process
              reply)
    receive_response-Answered key p w req bytes (canceled e) h written said = tt
    receive_response-Answered key p w req bytes (output stream) h written said =
        let rest = (read_proto unmarshal stream).0 in
        elim (Result-cases (read_proto unmarshal stream).1) [
          | inr (er, e) ↦ rw (e, receive_response) tt
          | inl (r, e) ↦
              rw (e, receive_response)
                (
                  w,
                  p.log,
                  bytes,
                  stream,
                  rest,
                  h,
                  write_proto-whole (world.accepts p.log w.process) [] bytes (marshal req) written,
                  said,
                  ap (λ x. (rest, x)) e,
                  append_assoc p.log (wrote w.process bytes ∷ []) (received w.process rest ∷ []),
                )
        ]

    send_request-Answered :
        (key : GoString) (p : Pool) (w : ManagedWorker) (req : Q)
        → lookup key p.workers ≡ some w
        → Answered key req (send_request world marshal unmarshal p w req)
    unfolding send_request
    send_request-Answered key p w req h =
        let sent = write_proto (world.accepts p.log w.process) [] (marshal req) in
        elim (Option-cases sent.1) [
          | inr (er, e) ↦ rw (e, send_request) tt
          | inl e ↦
              rw (e, send_request)
                (receive_response-Answered key p w req sent.0
                  (world.reply (p.log ++ (wrote w.process sent.0 ∷ [])) w.process) h
                  (ap (λ x. (sent.0, x)) e) refl)
        ]

    wrap_failure-Answered :
        (key : GoString) (req : Q) (r : Pool × Result R)
        → Answered key req r
        → Answered key req (wrap_failure world marshal unmarshal r)
    wrap_failure-Answered key req (p, err e) h = tt
    wrap_failure-Answered key req (p, ok r) h = h

    send_again-Answered :
        (key : GoString) (req : Q) (first : Error) (r : Pool × Result ManagedWorker)
        → Registered key r
        → Answered key req (send_again world marshal unmarshal key req first r)
    send_again-Answered key req first (p, err e) h = tt
    send_again-Answered key req first (p, ok w) h =
        wrap_failure-Answered key req (send_request world marshal unmarshal p w req)
          (send_request-Answered key p w req h)

    retry-Answered :
        (key : GoString) (req : Q) (r : Pool × Result R)
        → Answered key req r
        → Answered key req (retry world marshal unmarshal key req r)
    retry-Answered key req (p, ok r) h = h
    retry-Answered key req (p, err e) h =
        send_again-Answered key req e (restart_worker world p key) (restart_worker-Registered p key)

    send_first-Answered :
        (key : GoString) (req : Q) (r : Pool × Result ManagedWorker)
        → Registered key r
        → Answered key req (send_first world marshal unmarshal key req r)
    send_first-Answered key req (p, err e) h = tt
    send_first-Answered key req (p, ok w) h =
        retry-Answered key req (send_request world marshal unmarshal p w req)
          (send_request-Answered key p w req h)

    execute-Answered :
        (p : Pool) (key : GoString) (cmd : Option Command) (req : Q)
        → Answered key req (execute world marshal unmarshal p key cmd req)
    unfolding execute
    execute-Answered p key cmd req =
        send_first-Answered key req (get_or_create_worker world p key cmd)
          (get_or_create_worker-Registered p key cmd)

    -- When Execute gives a response, the last two things done to any process are: the worker that the
    -- pool has for the key took the whole request, and its output was received, which starts with the
    -- response. (No other call runs in between.)
    pub execute-response :
        (p q : Pool) (key : GoString) (cmd : Option Command) (req : Q) (r : R)
        → execute world marshal unmarshal p key cmd req ≡ (q, ok r)
        → Exchange key req q r
    execute-response p q key cmd req r h =
        subst (Answered key req) h (execute-Answered p key cmd req)
