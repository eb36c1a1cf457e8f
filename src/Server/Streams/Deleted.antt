-- ===== src/Server/Streams/Deleted.antt =====
-- pkg/server/execution.go and pkg/scheduler/scheduler.go: the stream of an operation that is deleted.
use go_rego.Base.{
  ℕ, ◌≡◌, ◌≢◌, refl, Bool, true, false, Option, none, some, List, [], ◌∷◌, ltb, arith, Bool-cases,
  Option-cases, List-cases, inl, inr, length,
}
use go_rego.Base.Lists.{All}
use go_rego.Base.Text.{GoString, str_eq_iff}
use go_rego.Base.Dict.{Dict, lookup, lookup-insert, lookup-delete}
use go_rego.Base.Results.{Error, Code, status, err}
use go_rego.Storage.Digests.{Digest}
use go_rego.Scheduler.State.{
  OperationStatus, Channel, Scheduler, Task, update, try_send, notify_all, is_queued,
}
use go_rego.Scheduler.Names.{operation_name}
use go_rego.Scheduler.Updates.{
  subscribers_of, notify_subscribers, change_op, find_op, found_cases, update_state, complete, fail,
  cancel_operation, delete_operation,
}
use go_rego.Scheduler.Queue.{Packing, take_task, enqueue, dequeue, get_operation}
use go_rego.Scheduler.Subscriptions.{
  subscribe, unsubscribe, remove_channel, receive, cleanup_loop, cleanup_expired, expired_at,
}
use go_rego.Scheduler.Events.{
  Event, enqueues, dequeues, updates, completes, fails, cancels, deletes, subscribes, unsubscribes,
  receives, cleans, step, run, after_dequeue, after_receive,
}
use go_rego.Server.Streams.{UpdateRound, waiting, receive_update, update_loop}

try_send-closed :
    (p c ch : ℕ) (channels : ℕ → Channel)
    → (channels ch).closed ≡ false
    → (try_send p c channels ch).closed ≡ false
unfolding try_send
try_send-closed p c ch channels h = ground arith

notify_all-closed :
    (p ch : ℕ) (chs : List ℕ) (channels : ℕ → Channel)
    → (channels ch).closed ≡ false
    → (notify_all p chs channels ch).closed ≡ false
unfolding notify_all
notify_all-closed p ch [] channels h = h
notify_all-closed p ch (c ∷ chs) channels h =
    notify_all-closed p ch chs (try_send p c channels) (try_send-closed p c ch channels h)

module _ {R : Type 0} (node name : GoString) (ch : ℕ) where
  -- The name leads to no operation, and the channel is open.
  pub record IsGone (s : Scheduler R) : Type 0 where
    pub absent : lookup name s.operations ≡ none
    pub opened : (s.channels ch).closed ≡ false
    pub named : s.node_id ≡ node

  -- The call draws no identifier that gives the name again, and does not end the subscription.
  abbrev pub Avoids : Event R → Type 0
  Avoids (enqueues d skip override uuid now) = operation_name node override uuid ≢ name
  Avoids (unsubscribes n c) = c ≢ ch
  Avoids _ = Unit

  change_op-IsGone :
      (s : Scheduler R) (n : GoString) (p : ℕ) (old new : OperationStatus R)
      → IsGone s
      → IsGone (change_op s n p old new)
  unfolding change_op notify_subscribers
  change_op-IsGone s n p old new g = record {
    absent = g.absent;
    opened = notify_all-closed p ch (subscribers_of s n) s.channels g.opened;
    named = g.named;
  }

  take_task-IsGone :
      (s : Scheduler R) (ts : List Task) (stop : Option Error) (pick : Bool)
      → IsGone s
      → IsGone (after_dequeue s (take_task s ts stop pick))
  take_task-IsGone s [] none pick g = g
  take_task-IsGone s [] (some e) pick g = g
  take_task-IsGone s (t ∷ ts) none pick g = record {
    absent = g.absent;
    opened = g.opened;
    named = g.named;
  }
  take_task-IsGone s (t ∷ ts) (some e) true g = record {
    absent = g.absent;
    opened = g.opened;
    named = g.named;
  }
  take_task-IsGone s (t ∷ ts) (some e) false g = g

  cancel_operation-IsGone :
      (s : Scheduler R) (n : GoString) (now : ℕ) → IsGone s → IsGone (cancel_operation s n now).0
  unfolding cancel_operation
  cancel_operation-IsGone s n now g = elim (Option-cases (find_op s n)) [
    | inl e ↦ rw (e, cancel_operation) g
    | inr ((p, op), e) ↦ elim (Bool-cases (is_queued op.state)) [
      | inl idle ↦ rw (e, cancel_operation, idle) (change_op-IsGone s n p op _ g)
      | inr busy ↦ rw (e, cancel_operation, busy) g
    ]
  ]

  delete_operation-IsGone :
      (s : Scheduler R) (n : GoString) → IsGone s → IsGone (delete_operation s n).0
  unfolding delete_operation
  delete_operation-IsGone s n g = elim (Option-cases (lookup n s.operations)) [
    | inl e ↦ rw (e, delete_operation) g
    | inr (p, e) ↦
        rw (e, delete_operation)
          (record {
            absent = ground (arith, lookup-delete n name s.operations, g.absent);
            opened = g.opened;
            named = g.named;
          })
  ]

  receive-IsGone : (s : Scheduler R) (c : ℕ) → IsGone s → IsGone (after_receive s (receive s c))
  unfolding receive
  receive-IsGone s c g = elim (List-cases (s.channels c).buffer) [
    | inl e ↦ rw (e, receive) g
    | inr (p, rest, e) ↦ elim (Option-cases (s.heap p)) [
      | inl dangling ↦ rw (e, receive, dangling) g
      | inr (op, found) ↦
          rw (e, receive, found)
            (record { absent = g.absent; opened = ground (arith, g.opened); named = g.named })
    ]
  ]

  unsubscribe-IsGone :
      (s : Scheduler R) (n : GoString) (c : ℕ) → c ≢ ch → IsGone s → IsGone (unsubscribe s n c)
  unfolding unsubscribe
  unsubscribe-IsGone s n c ne g = elim (Option-cases (remove_channel c (subscribers_of s n))) [
    | inl e ↦ rw (e, unsubscribe) g
    | inr (rest, e) ↦
        rw (e, unsubscribe)
          (record { absent = g.absent; opened = ground (arith, g.opened); named = g.named })
  ]

  cleanup_loop-IsGone :
      (now : ℕ) (m : Dict ℕ) (s : Scheduler R) → IsGone s → IsGone (cleanup_loop now m s)
  unfolding cleanup_loop
  cleanup_loop-IsGone now [] s g = g
  cleanup_loop-IsGone now ((n, p) ∷ m) s g =
      elim (Bool-cases (expired_at s.retention now (s.heap p))) [
        | inl over_time ↦ rw over_time (
            cleanup_loop-IsGone now m _ (record {
              absent = ground (arith, lookup-delete n name s.operations, g.absent);
              opened = g.opened;
              named = g.named;
            }))
        | inr live ↦ rw live (cleanup_loop-IsGone now m s g)
      ]

  enqueue-IsGone :
      (pb : Packing R) (s : Scheduler R) (d : Digest) (skip : Bool) (override uuid : GoString)
      (now : ℕ)
      → IsGone s
      → operation_name node override uuid ≢ name
      → IsGone (enqueue pb s d skip override uuid now).0
  unfolding enqueue
  enqueue-IsGone pb s d skip override uuid now g ne =
      let fresh = operation_name s.node_id override uuid in
      let other : fresh ≢ name = rw g.named ne in
      elim (Bool-cases (ltb (length s.task_queue) s.queue_size)) [
        | inl room ↦
            rw (room, enqueue)
              (record {
                absent = ground (
                  arith,
                  lookup-insert fresh name s.next_pointer s.operations,
                  str_eq_iff fresh name,
                  g.absent,
                );
                opened = g.opened;
                named = g.named;
              })
        | inr full ↦ rw (full, enqueue) g
      ]

  pub step-IsGone :
      (pb : Packing R) (s : Scheduler R) (e : Event R) → IsGone s → Avoids e → IsGone (step pb s e)
  unfolding step enqueue dequeue update_state complete fail cleanup_expired subscribe
  step-IsGone pb s (enqueues d skip override uuid now) g ne =
      enqueue-IsGone pb s d skip override uuid now g ne
  step-IsGone pb s (dequeues stop pick) g a = take_task-IsGone s s.task_queue stop pick g
  step-IsGone pb s (updates n state metadata now) g a =
      found_cases IsGone s n _ g λ p op e. change_op-IsGone s n p op _ g
  step-IsGone pb s (completes n result now) g a =
      found_cases IsGone s n _ g λ p op e. change_op-IsGone s n p op _ g
  step-IsGone pb s (fails n error now) g a =
      found_cases IsGone s n _ g λ p op e. change_op-IsGone s n p op _ g
  step-IsGone pb s (cancels n now) g a = cancel_operation-IsGone s n now g
  step-IsGone pb s (deletes n) g a = delete_operation-IsGone s n g
  step-IsGone pb s (subscribes n) g a = record {
    absent = g.absent;
    opened = ground (arith, g.opened);
    named = g.named;
  }
  step-IsGone pb s (unsubscribes n c) g ne = unsubscribe-IsGone s n c ne g
  step-IsGone pb s (receives c) g a = receive-IsGone s c g
  step-IsGone pb s (cleans now) g a = cleanup_loop-IsGone now s.operations s g

  pub run-IsGone :
      (pb : Packing R) (s : Scheduler R) (es : List (Event R))
      → IsGone s
      → All Avoids es
      → IsGone (run pb s es)
  unfolding run
  run-IsGone pb s [] g a = g
  run-IsGone pb s (e ∷ es) g (a, later) =
      run-IsGone pb (step pb s e) es (step-IsGone pb s e g a) later

  abbrev pub RoundAvoids : UpdateRound R → Type 0
  RoundAvoids r =
      All Avoids r.before_receive × All Avoids r.before_lookup × All Avoids r.before_test

  taken : Scheduler R → List ℕ → Scheduler R
  taken s rest = record s {
    channels = update s.channels ch (record (s.channels ch) { buffer = rest });
  }

  taken-IsGone : (s : Scheduler R) (rest : List ℕ) → IsGone s → IsGone (taken s rest)
  unfolding taken
  taken-IsGone s rest g = record {
    absent = g.absent;
    opened = ground (arith, g.opened);
    named = g.named;
  }

  get_operation-IsGone :
      (pb : Packing R) (s : Scheduler R)
      → IsGone s
      → get_operation pb s name ≡ err (status Code.not_found)
  unfolding get_operation find_op
  get_operation-IsGone pb s g = rw (get_operation, find_op, g.absent) refl

  -- The client of an operation that was deleted, or dropped as expired, while its stream waits is sent
  -- nothing any more, and the stream never ends, whatever is called and however long it waits: the
  -- loop skips the updates that are left, and no later one comes. (Nobody draws the operation's
  -- identifier again, or ends the subscription, as only the end of the stream does.)
  pub update_loop-IsGone :
      (pb : Packing R) (s : Scheduler R) (rounds : List (UpdateRound R))
      → IsGone s
      → All RoundAvoids rounds
      → let t = update_loop pb s name ch rounds in (t.messages ≡ []) × (t.standing ≡ waiting)
  unfolding update_loop receive_update taken
  update_loop-IsGone pb s [] g a = (refl, refl)
  update_loop-IsGone pb s (r ∷ rounds) g ((before, between, after), later) =
      let s1 = run pb s r.before_receive in
      let g1 = run-IsGone pb s r.before_receive g before in
      elim (List-cases (s1.channels ch).buffer) [
        | inl empty ↦
            rw (update_loop, receive_update, empty, g1.opened)
              (update_loop-IsGone pb s1 rounds g1 later)
        | inr (p, rest, full) ↦
            let s2 = taken s1 rest in
            let g3 = run-IsGone pb s2 r.before_lookup (taken-IsGone s1 rest g1) between in
            let missing = get_operation-IsGone pb (run pb s2 r.before_lookup) g3 in
            rw (update_loop, receive_update, full, missing)
              (update_loop-IsGone pb (run pb s2 r.before_lookup) rounds g3 later)
      ]
