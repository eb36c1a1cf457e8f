-- ===== src/Worker/Actions/Cleanup.antt =====
-- pkg/execution/worker.go: the directories of an action are removed in the end.
use go_rego.Base.{
  ℕ, ◌+◌, ◌≤◌, ◌<◌, ◌≡◌, refl, Option, none, some, List, [], ◌∷◌, ◌++◌, Option-cases, inl, inr,
  arith,
}
use go_rego.Base.Results.{Error, ok, err, wrapped}
use go_rego.Storage.Digests.{Digest}
use go_rego.Storage.Files.{FilePath}
use go_rego.Scheduler.State.{Task}
use go_rego.Worker.Actions.{
  Effect, created, removed, cached, Steps, and_then, Stages, check_digest, create, with_cleanup,
  run_action, execute_action, base_dir,
}

-- How many directories were made.
abbrev pub creations : List Effect → ℕ
creations [] = 0
creations (created path ∷ done) = 1 + creations done
creations (removed path ∷ done) = creations done
creations (cached d ∷ done) = creations done

abbrev pub last : List Effect → Option Effect
last [] = none
last (e ∷ []) = some e
last (e ∷ (f ∷ done)) = last (f ∷ done)

creations-append : (a b : List Effect) → creations (a ++ b) ≡ creations a + creations b
creations-append [] b = omega arith
creations-append (created path ∷ a) b = omega (arith, creations-append a b)
creations-append (removed path ∷ a) b = creations-append a b
creations-append (cached d ∷ a) b = creations-append a b

last-append : (a b : List Effect) (e : Effect) → last b ≡ some e → last (a ++ b) ≡ some e
last-append [] b e h = h
last-append (x ∷ []) [] e h = absurd (cc)
last-append (x ∷ []) (y ∷ b) e h = h
last-append (x ∷ (y ∷ a)) b e h = last-append (y ∷ a) b e h

-- Where n directories were made before: with the second one, the removal is the last step.
record IsTidy {A : Type 0} (base : FilePath) (n : ℕ) (steps : Steps A) : Type 0 where
  tidy : 2 ≤ n + creations steps.0 → last steps.0 ≡ some (removed base)

and_then-IsTidy :
    {A B : Type 0} (base : FilePath) (n : ℕ) (first : Steps A) (next : A → Steps B)
    → n < 2
    → creations first.0 ≡ 0
    → ((a : A) → IsTidy base n (next a))
    → IsTidy base n (and_then first next)
unfolding and_then
and_then-IsTidy base n (done, err e) next few silent good = record {
  tidy = λ h. absurd (omega (arith, silent));
}
and_then-IsTidy base n (done, ok a) next few silent good = record {
  tidy = λ h.
      last-append done (next a).0 (removed base)
        ((good a).tidy (omega (arith, silent, creations-append done (next a).0)));
}

with_cleanup-IsTidy :
    {A : Type 0} (stages : Stages) (root base : FilePath) (n : ℕ) (steps : Steps A)
    → IsTidy base n (with_cleanup stages root base steps)
unfolding with_cleanup
with_cleanup-IsTidy stages root base n (done, r) = record {
  tidy = λ h. last-append done (removed base ∷ []) (removed base) refl;
}

created-IsTidy :
    {B : Type 0} (base : FilePath) (n : ℕ) (path : FilePath) (next : Unit {0} → Steps B)
    → IsTidy base (1 + n) (next tt)
    → IsTidy base n (and_then (created path ∷ [], ok tt) next)
unfolding and_then
created-IsTidy base n path next good = record {
  tidy = λ h. last-append (created path ∷ []) (next tt).0 (removed base) (good.tidy (omega arith));
}

failed-IsTidy :
    {A B : Type 0} (base : FilePath) (n : ℕ) (e : Error) (next : A → Steps B)
    → n < 2
    → IsTidy base n (and_then ([], err e) next)
unfolding and_then
failed-IsTidy base n e next few = record { tidy = λ h. absurd (omega arith) }

module _ (stages : Stages) (build_root : FilePath) where
  create-IsTidy :
      {B : Type 0} (base : FilePath) (n : ℕ) (path : FilePath) (next : Unit {0} → Steps B)
      → n < 2
      → IsTidy base (1 + n) (next tt)
      → IsTidy base n (and_then (create stages build_root path) next)
  unfolding create
  create-IsTidy base n path next few good = elim (Option-cases (stages.make_dir path)) [
    | inl e ↦ rw (e, create) (created-IsTidy base n path next good)
    | inr (er, e) ↦ rw (e, create) (failed-IsTidy base n (wrapped er) next few)
  ]

  check_digest-silent : (d : Digest) → creations (check_digest stages build_root d).0 ≡ 0
  unfolding check_digest
  check_digest-silent d = refl

  execute_action-IsTidy :
      (task : Task)
      → IsTidy (base_dir stages build_root task) 0 (execute_action stages build_root task)
  unfolding execute_action
  execute_action-IsTidy task =
      let base = base_dir stages build_root task in
      and_then-IsTidy base 0 _ _ (omega arith) (check_digest-silent _) λ d.
        and_then-IsTidy base 0 _ _ (omega arith) refl λ action.
          and_then-IsTidy base 0 _ _ (omega arith) (check_digest-silent _) λ c.
            and_then-IsTidy base 0 _ _ (omega arith) refl λ command.
              and_then-IsTidy base 0 _ _ (omega arith) (check_digest-silent _) λ root.
                create-IsTidy base 0 _ _ (omega arith) (
                  create-IsTidy base 1 _ _ (omega arith) (
                    with_cleanup-IsTidy stages build_root base 2
                      (run_action stages build_root task action command)))

  -- Once two directories were made, which are those of the inputs and of the execution root, the last
  -- step is the removal of the directory that holds both, whatever fails in between.
  pub execute_action-removed :
      (task : Task)
      → 2 ≤ creations (execute_action stages build_root task).0
      → last (execute_action stages build_root task).0
        ≡ some (removed (base_dir stages build_root task))
  execute_action-removed task h = (execute_action-IsTidy task).tidy (omega arith)
