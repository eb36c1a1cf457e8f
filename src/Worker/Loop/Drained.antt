-- ===== src/Worker/Loop/Drained.antt =====
-- pkg/execution/worker.go and pkg/scheduler/scheduler.go: a worker and the queue.
use go_rego.Base.{
  ℕ, ◌≡◌, ◌≢◌, ◌≤◌, refl, sym, ap, ◌∙◌, subst, false, Option, none, some, List, [], ◌∷◌, arith,
  length, Bool-cases, Option-cases, List-cases, inl, inr, ◌==◌,
}
use go_rego.Base.Lists.{All, All-weaken}
use go_rego.Base.Text.{GoString, str_eq, str_eq_iff}
use go_rego.Base.Dict.{lookup}
use go_rego.Base.Results.{Error, Result, ok, err}
use go_rego.Scheduler.State.{
  OperationState, Stage, Metadata, OperationStatus, Scheduler, Task, new_scheduler,
}
use go_rego.Scheduler.Updates.{find_op, change_op, notify_subscribers, update_state, complete, fail}
use go_rego.Scheduler.Queue.{Packing, Dequeued, dequeue, take_task}
use go_rego.Scheduler.Events.{Event, updates, completes, fails, step, run}
use go_rego.Scheduler.Delivery.{IsTuned}
use go_rego.Scheduler.Delivery.Runs.{
  AllUnused, find_op-lookup, tasks-IsTuned, new_scheduler-IsTuned, step-IsTuned, run-IsTuned,
}
use go_rego.Worker.Tasks.{task_name, start_task, finish_task, execute_task}
use go_rego.Worker.Cancelled.{find_op-change_op}
use go_rego.Worker.Loop.{WorkerTurn, running, returned, run_worker}

module _ {R : Type 0} where
  -- The name leads to an operation; to a completed one.
  abbrev pub IsKnown : Scheduler R → GoString → Type 0
  IsKnown s n = (p : ℕ) × (op : OperationStatus R) × (find_op s n ≡ some (p, op))

  abbrev pub IsCompleted : Scheduler R → GoString → Type 0
  IsCompleted s n =
      (p : ℕ) × (op : OperationStatus R) × (find_op s n ≡ some (p, op))
      × (op.state ≡ OperationState.completed)

  -- A change of an operation leaves those of other names.
  find_op-other :
      (s : Scheduler R) (m n : GoString) (q : ℕ) (old new : OperationStatus R)
      → IsTuned s
      → find_op s m ≡ some (q, old)
      → m ≢ n
      → find_op (change_op s m q old new) n ≡ find_op s n
  unfolding find_op change_op notify_subscribers
  find_op-other s m n q old new v e ne = elim (Option-cases (lookup n s.operations)) [
    | inl absent ↦ rw (find_op, absent) refl
    | inr (p, found) ↦ elim (Bool-cases (q == p)) [
      | inr miss ↦ rw (find_op, found, miss) refl
      | inl hit ↦
          let (o, here, named) = v.listed n p found in
          let (there, at) = find_op-lookup s m q old e in
          let (o', here', named') = v.listed m q there in
          let same : q ≡ p = ground arith in
          let one : s.heap p ≡ some o' = subst (λ r. s.heap r ≡ some o') same here' in
          absurd (ne (sym named' ∙ ap (λ x. x.name) (same_op o' o (sym one ∙ here)) ∙ named))
    ]
  ]
    where
      same_op :
          (a b : OperationStatus R) → ◌≡◌ {A = Option (OperationStatus R)} (some a) (some b) → a ≡ b
      same_op a b h = cc

  -- What each call of the worker does to the names.
  record Follows (m : GoString) (s t : Scheduler R) : Type 0 where
    tuned : IsTuned t
    queue : t.task_queue ≡ s.task_queue
    others : (n : GoString) → m ≢ n → find_op t n ≡ find_op s n
    here : IsKnown s m → IsKnown t m

  change_op-Follows :
      (s : Scheduler R) (m : GoString) (q : ℕ) (old new : OperationStatus R)
      → IsTuned s
      → find_op s m ≡ some (q, old)
      → IsTuned (change_op s m q old new)
      → Follows m s (change_op s m q old new)
  unfolding change_op notify_subscribers
  change_op-Follows s m q old new v e w = record {
    tuned = w;
    queue = refl;
    others = λ n ne. find_op-other s m n q old new v e ne;
    here = λ k. (q, new, find_op-change_op s m q old new e);
  }

  stays : (m : GoString) (s : Scheduler R) → IsTuned s → Follows m s s
  stays m s v = record { tuned = v; queue = refl; others = λ n ne. refl; here = λ k. k }

  Follows-then :
      (m : GoString) (s t u : Scheduler R) → Follows m s t → Follows m t u → Follows m s u
  Follows-then m s t u a b = record {
    tuned = b.tuned;
    queue = b.queue ∙ a.queue;
    others = λ n ne. b.others n ne ∙ a.others n ne;
    here = λ k. b.here (a.here k);
  }

  module _ (pb : Packing R) where
    update_state-Follows :
        (s : Scheduler R) (m : GoString) (state : OperationState) (metadata : Metadata) (now : ℕ)
        → IsTuned s
        → Follows m s (update_state s m state metadata now)
    unfolding update_state step
    update_state-Follows s m state metadata now v = elim (Option-cases (find_op s m)) [
      | inl e ↦ rw (update_state, e) (stays m s v)
      | inr ((q, old), e) ↦
          rw (update_state, e)
            (change_op-Follows s m q old _ v e
              (rw (update_state, e) at (step-IsTuned pb s (updates m state metadata now) v tt)))
    ]

    complete-Follows :
        (s : Scheduler R) (m : GoString) (result : R) (now : ℕ)
        → IsTuned s
        → Follows m s (complete s m result now)
          × (IsKnown s m → IsCompleted (complete s m result now) m)
    unfolding complete step
    complete-Follows s m result now v = elim (Option-cases (find_op s m)) [
      | inl e ↦ (rw (complete, e) (stays m s v), λ k. absurd (missing e k.2))
      | inr ((q, old), e) ↦ (
        rw (complete, e)
            (change_op-Follows s m q old _ v e
              (rw (complete, e) at (step-IsTuned pb s (completes m result now) v tt))),
        λ k. rw (complete, e) (q, _, find_op-change_op s m q old _ e, refl),
      )
    ]
      where
        missing : {a : ℕ × OperationStatus R} → find_op s m ≡ none → find_op s m ≢ some a
        missing h g = cc

    fail-Follows :
        (s : Scheduler R) (m : GoString) (error : Error) (now : ℕ)
        → IsTuned s
        → Follows m s (fail s m error now) × (IsKnown s m → IsCompleted (fail s m error now) m)
    unfolding fail step
    fail-Follows s m error now v = elim (Option-cases (find_op s m)) [
      | inl e ↦ (rw (fail, e) (stays m s v), λ k. absurd (missing e k.2))
      | inr ((q, old), e) ↦ (
        rw (fail, e)
            (change_op-Follows s m q old _ v e
              (rw (fail, e) at (step-IsTuned pb s (fails m error now) v tt))),
        λ k. rw (fail, e) (q, _, find_op-change_op s m q old _ e, refl),
      )
    ]
      where
        missing : {a : ℕ × OperationStatus R} → find_op s m ≡ none → find_op s m ≢ some a
        missing h g = cc

    -- A task that is executed.
    execute_task-Follows :
        {A : Type 0} (response : A → R) (s : Scheduler R) (k : Task) (outcome : Result A)
        (start finish : ℕ)
        → IsTuned s
        → Follows (task_name k) s (execute_task response s k outcome start finish)
          × (IsKnown s (task_name k)
              → IsCompleted (execute_task response s k outcome start finish) (task_name k))
    unfolding execute_task start_task finish_task
    execute_task-Follows response s k (ok result) start finish v =
        let first =
          update_state-Follows s (task_name k) OperationState.executing
            (record { stage = Stage.executing; action_digest = k.action_digest }) start v in
        let (second, final) =
          complete-Follows (start_task s k start) (task_name k) (response result) finish
            first.tuned in
        (Follows-then (task_name k) s _ _ first second, λ x. final (first.here x))
    execute_task-Follows response s k (err e) start finish v =
        let first =
          update_state-Follows s (task_name k) OperationState.executing
            (record { stage = Stage.executing; action_digest = k.action_digest }) start v in
        let (second, final) =
          fail-Follows (start_task s k start) (task_name k) e finish first.tuned in
        (Follows-then (task_name k) s _ _ first second, λ x. final (first.here x))

    IsKnown-after : (m n : GoString) (s t : Scheduler R) → Follows m s t → IsKnown s n → IsKnown t n
    IsKnown-after m n s t f k = elim (Bool-cases (str_eq m n)) [
      | inl hit ↦
          let e : m ≡ n = (str_eq_iff m n).0 hit in
          subst (IsKnown t) e (f.here (subst (IsKnown s) (sym e) k))
      | inr miss ↦ let (p, op, e) = k in (p, op, f.others n (λ h. unequal m n miss h) ∙ e)
    ]
      where
        unequal : (m n : GoString) → str_eq m n ≡ false → m ≢ n
        unequal m n miss h = ground (arith, str_eq_iff m n)

    IsCompleted-after :
        (m n : GoString) (s t : Scheduler R)
        → Follows m s t
        → (IsKnown s m → IsCompleted t m)
        → IsCompleted s n
        → IsCompleted t n
    IsCompleted-after m n s t f final (p, op, e, over) = elim (Bool-cases (str_eq m n)) [
      | inl hit ↦
          let same : m ≡ n = (str_eq_iff m n).0 hit in
          subst (IsCompleted t) same (final (subst (IsKnown s) (sym same) (p, op, e)))
      | inr miss ↦ (p, op, f.others n (λ h. unequal m n miss h) ∙ e, over)
    ]
      where
        unequal : (m n : GoString) → str_eq m n ≡ false → m ≢ n
        unequal m n miss h = ground (arith, str_eq_iff m n)

    -- The queue is empty, and the operations of its tasks are completed.
    abbrev pub IsDrained : Scheduler R → Scheduler R → Type 0
    IsDrained s t =
        (t.task_queue ≡ [])
        × ((n : GoString) → IsCompleted s n → IsCompleted t n)
        × All (λ k. IsKnown s (task_name k) → IsCompleted t (task_name k)) s.task_queue

    abbrev pub NoStop : {A : Type 0} → List (WorkerTurn A) → Type 0
    NoStop [] = Unit
    NoStop (t ∷ ts) = (t.stop ≡ none) × NoStop ts

    module _ {A : Type 0} (response : A → R) where
      run_worker-IsDrained :
          (s : Scheduler R) (ts : List (WorkerTurn A))
          → IsTuned s
          → NoStop ts
          → length s.task_queue ≤ length ts
          → (t : Scheduler R) × (run_worker response s ts ≡ running t) × IsDrained s t
      unfolding run_worker dequeue step find_op
      run_worker-IsDrained s [] v live enough = elim (List-cases s.task_queue) [
        | inl empty ↦ (s, refl, (empty, λ n h. h, rw empty tt))
        | inr (k, rest, full) ↦ absurd (ground arith)
      ]
      run_worker-IsDrained s (turn ∷ ts) v (live, lives) enough = elim (List-cases s.task_queue) [
        | inl empty ↦
            let (t, ran, drained) = run_worker-IsDrained s ts v lives (ground arith) in
            (t, rw (run_worker, dequeue, empty, live) ran, drained)
        | inr (k, rest, full) ↦
            let s1 = record s { task_queue = rest } in
            let got : dequeue s turn.stop turn.pick ≡ Dequeued.task k s1 =
              λ i. take_task s (full i) (live i) turn.pick in
            let v1 = tasks-IsTuned s rest v in
            let s2 = execute_task response s1 k turn.outcome turn.start turn.end in
            let (follows, final) =
              execute_task-Follows response s1 k turn.outcome turn.start turn.end v1 in
            let room : length s2.task_queue ≤ length ts = rw follows.queue (ground arith) in
            let (t, ran, (queue, completed, all)) =
              run_worker-IsDrained s2 ts follows.tuned lives room in
            (
              t,
              ap
                    (λ d. elim d [
                      | Dequeued.blocked ↦ run_worker response s ts
                      | Dequeued.stopped _ ↦ returned s
                      | Dequeued.task j u ↦
                          run_worker response
                            (execute_task response u j turn.outcome turn.start turn.end) ts
                    ])
                    got
                  ∙ ran,
              (
                queue,
                λ n h. completed n (IsCompleted-after (task_name k) n s1 s2 follows final h),
                subst (All (λ j. IsKnown s (task_name j) → IsCompleted t (task_name j))) (sym full)
                    (
                      λ h. completed (task_name k) (final h),
                      All-weaken (λ j. IsKnown s2 (task_name j) → IsCompleted t (task_name j))
                          (λ j. IsKnown s (task_name j) → IsCompleted t (task_name j)) rest
                          (λ j f h. f (IsKnown-after (task_name k) (task_name j) s1 s2 follows h))
                          (subst (All (λ j. IsKnown s2 (task_name j) → IsCompleted t (task_name j)))
                            follows.queue all),
                    ),
              ),
            )
      ]

      -- A worker that nobody disturbs empties the queue, in as many turns as there are tasks, whatever
      -- happened before: every operation that is known by the name of one of the tasks is completed
      -- then, whether its action gave a result or an error, and every operation that was completed
      -- still is. (No identifier was drawn twice, and the context does not end.)
      pub run_worker-run :
          (queue_size : ℕ) (node_id : GoString) (es : List (Event R)) (ts : List (WorkerTurn A))
          → AllUnused pb (new_scheduler queue_size node_id) es
          → NoStop ts
          → let s = run pb (new_scheduler queue_size node_id) es in
            length s.task_queue ≤ length ts
            → (t : Scheduler R) × (run_worker response s ts ≡ running t) × IsDrained s t
      run_worker-run queue_size node_id es ts u live enough =
          run_worker-IsDrained (run pb (new_scheduler queue_size node_id) es) ts
            (run-IsTuned pb (new_scheduler queue_size node_id) es
              (new_scheduler-IsTuned queue_size node_id) u)
            live enough
