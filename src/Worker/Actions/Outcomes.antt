-- ===== src/Worker/Actions/Outcomes.antt =====
-- pkg/execution/worker.go: what is handed to the action cache, and commands that run too long.
use go_rego.Base.{
  ℕ, ◌≡◌, refl, ap, ◌∙◌, Bool, true, false, not, ◌&&◌, ◌||◌, Option, none, some, List, [], ◌∷◌,
  ◌++◌, Bool-cases, Option-cases, inl, inr,
}
use go_rego.Base.Text.{GoString}
use go_rego.Base.Integers.{negsuc}
use go_rego.Base.Results.{Error, Result, ok, err}
use go_rego.Storage.Digests.{Digest}
use go_rego.Storage.Files.{FilePath}
use go_rego.Scheduler.State.{Task}
use go_rego.Worker.Outputs.{Command, ActionResult}
use go_rego.Worker.Actions.{
  Action, Completion, signaled, run_command, timeout_of, Effect, created, removed, cached, Steps,
  and_then, Stages, is_zero, check_digest, fallible, create, with_cleanup, store_result, run_action,
  execute_action,
}

abbrev pub has_cached : List Effect → Bool
has_cached [] = false
has_cached (created path ∷ done) = has_cached done
has_cached (removed path ∷ done) = has_cached done
has_cached (cached d ∷ done) = true

-- Whether the result of an action is one to keep.
abbrev pub to_keep : Task → Result ActionResult → Bool
to_keep task (err e) = false
to_keep task (ok r) = is_zero r.exit_code && not task.skip_cache

has_cached-append : (a b : List Effect) → has_cached (a ++ b) ≡ (has_cached a || has_cached b)
has_cached-append [] b = refl
has_cached-append (created path ∷ a) b = has_cached-append a b
has_cached-append (removed path ∷ a) b = has_cached-append a b
has_cached-append (cached d ∷ a) b = refl

record StoresRight (task : Task) (steps : Steps ActionResult) : Type 0 where
  stored : has_cached steps.0 ≡ to_keep task steps.1

and_then-StoresRight :
    {A : Type 0} (task : Task) (first : Steps A) (next : A → Steps ActionResult)
    → has_cached first.0 ≡ false
    → ((a : A) → StoresRight task (next a))
    → StoresRight task (and_then first next)
unfolding and_then
and_then-StoresRight task (done, err e) next silent good = record { stored = silent }
and_then-StoresRight task (done, ok a) next silent good = record {
  stored =
      has_cached-append done (next a).0
      ∙ ap (λ b. b || has_cached (next a).0) silent
      ∙ (good a).stored;
}

module _ (stages : Stages) (build_root : FilePath) where
  fallible-silent : (r : Option Error) → has_cached (fallible stages build_root r).0 ≡ false
  unfolding fallible
  fallible-silent none = refl
  fallible-silent (some e) = refl

  create-silent : (path : FilePath) → has_cached (create stages build_root path).0 ≡ false
  unfolding create
  create-silent path = elim (Option-cases (stages.make_dir path)) [
    | inl e ↦ rw (e, create) refl
    | inr (er, e) ↦ rw (e, create) refl
  ]

  check_digest-silent : (d : Digest) → has_cached (check_digest stages build_root d).0 ≡ false
  unfolding check_digest
  check_digest-silent d = refl

  store_result-StoresRight :
      (task : Task) (r : ActionResult) → StoresRight task (store_result stages build_root task r)
  unfolding store_result
  store_result-StoresRight task r = elim (Bool-cases (is_zero r.exit_code && not task.skip_cache)) [
    | inl keep ↦ record { stored = rw (keep, store_result, keep) refl }
    | inr drop ↦ record { stored = rw (drop, store_result, drop) refl }
  ]

  run_action-StoresRight :
      (task : Task) (action : Action) (command : Command)
      → StoresRight task (run_action stages build_root task action command)
  unfolding run_action
  run_action-StoresRight task action command =
      and_then-StoresRight task _ _ (fallible-silent _) λ _.
        and_then-StoresRight task _ _ (fallible-silent _) λ _.
          and_then-StoresRight task _ _ (create-silent _) λ _.
            and_then-StoresRight task _ _ (fallible-silent _) λ _.
              and_then-StoresRight task _ _ refl
                λ _. and_then-StoresRight task _ _ refl λ r. store_result-StoresRight task r

  with_cleanup-StoresRight :
      (task : Task) (base : FilePath) (steps : Steps ActionResult)
      → StoresRight task steps
      → StoresRight task (with_cleanup stages build_root base steps)
  unfolding with_cleanup
  with_cleanup-StoresRight task base (done, r) good = record {
    stored = has_cached-append done (removed base ∷ []) ∙ or_false (has_cached done) ∙ good.stored;
  }
    where
      or_false : (b : Bool) → (b || false) ≡ b
      or_false true = refl
      or_false false = refl

  execute_action-StoresRight :
      (task : Task) → StoresRight task (execute_action stages build_root task)
  unfolding execute_action
  execute_action-StoresRight task = and_then-StoresRight task _ _ (check_digest-silent _) λ d.
      and_then-StoresRight task _ _ refl λ action.
        and_then-StoresRight task _ _ (check_digest-silent _) λ c.
          and_then-StoresRight task _ _ refl λ command.
            and_then-StoresRight task _ _ (check_digest-silent _) λ root.
              and_then-StoresRight task _ _ (create-silent _) λ _.
                and_then-StoresRight task _ _ (create-silent _) λ _.
                  with_cleanup-StoresRight task _ (run_action stages build_root task action command)
                    (run_action-StoresRight task action command)

  -- An execution hands a result to the action cache exactly if it gives a result with exit code 0 and the
  -- task does not skip the cache; on any error it hands nothing over.
  pub execute_action-has_cached :
      (task : Task)
      → has_cached (execute_action stages build_root task).0
        ≡ to_keep task (execute_action stages build_root task).1
  execute_action-has_cached task = (execute_action-StoresRight task).stored

-- A command that is killed because its time is over ends with exit code -1 and without an error; the
-- status DEADLINE_EXCEEDED is not reported. (It has arguments, and its inputs are in place.)
pub run_command-signaled :
    (args : List GoString) (spawn : ℕ → List GoString → Completion × Bool) (command : Command)
    (timeout : Option ℕ) (first : GoString) (rest : List GoString)
    → command.arguments ≡ first ∷ rest
    → spawn (timeout_of timeout) args ≡ (signaled, true)
    → run_command (ok args) spawn command timeout ≡ ok (negsuc 0)
unfolding run_command
run_command-signaled args spawn command timeout first rest h s = rw (run_command, h, s) refl
