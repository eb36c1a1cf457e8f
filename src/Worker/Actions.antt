-- ===== src/Worker/Actions.antt =====
-- pkg/execution/worker.go: `execute`, the steps of an action, and how `runCommand` reads the end of a
-- process. The single steps are parameters, the effects that the theorems need are listed.
pub mod Cleanup
pub mod Outcomes
mod Examples
use go_rego.Base.{
  ℕ, zero, suc, Bool, true, false, not, ◌&&◌, Option, none, some, List, [], ◌∷◌, ◌++◌,
  if◌then◌else◌, ◌==◌,
}
use go_rego.Base.Text.{GoString, codes}
use go_rego.Base.Integers.{ℤ, pos, negsuc}
use go_rego.Base.Results.{Error, status, Code, wrapped, plain, Result, ok, err}
use go_rego.Storage.Digests.{Digest}
use go_rego.Storage.Files.{FilePath}
use go_rego.Scheduler.State.{Task}
use go_rego.Worker.Trees.{join}
use go_rego.Worker.Outputs.{Command, ActionResult}

pub record Action : Type 0 where
  pub command_digest : Digest
  pub input_root_digest : Digest
  -- In nanoseconds, if it has one.
  pub timeout : Option ℕ

-- How a process ended. A signal ends it too when the deadline of its context has passed.
pub data Completion : Type 0 where
  exited : ℕ → Completion
  signaled : Completion
  not_started : Error → Completion

-- The error of `cmd.Run`: an `ExitError` with its code, -1 after a signal, or another one.
pub data RunError : Type 0 where
  exit_error : ℤ → RunError
  other_error : Error → RunError

abbrev pub run_error : Completion → Option RunError
run_error (exited zero) = none
run_error (exited (suc n)) = some (exit_error (pos (suc n)))
run_error signaled = some (exit_error (negsuc 0))
run_error (not_started e) = some (other_error e)

-- `defaultTimeout` is ten minutes.
abbrev pub timeout_of : Option ℕ → ℕ
timeout_of none = 600000000000
timeout_of (some t) = t

-- What `runCommand` makes of the error; `deadline` is whether the context ended by its deadline.
abbrev pub run_outcome : Option RunError → (deadline : Bool) → Result ℤ
run_outcome none deadline = ok (pos 0)
run_outcome (some (exit_error code)) deadline = ok code
run_outcome (some (other_error e)) true = err (status Code.deadline_exceeded)
run_outcome (some (other_error e)) false = err (wrapped e)

-- `prepare` links the inputs into place, or wraps the command for the sandbox; `spawn` runs it, and
-- says whether the deadline has passed.
unfoldable pub run_command :
    (prepare : Result (List GoString))
    → (spawn : (timeout : ℕ) → List GoString → Completion × Bool) → Command
    → Option ℕ
    → Result ℤ
run_command prepare spawn command timeout = elim command.arguments [
  | [] ↦ err (status Code.invalid_argument)
  | _ ∷ _ ↦ elim prepare [
    | err e ↦ err (wrapped e)
    | ok args ↦
        let (completion, deadline) = spawn (timeout_of timeout) args in
        run_outcome (run_error completion) deadline
  ]
]

-- The effects that matter here.
pub data Effect : Type 0 where
  created : FilePath → Effect
  removed : FilePath → Effect
  cached : Digest → Effect

abbrev pub Steps : Type 0 → Type 0
Steps A = List Effect × Result A

unfoldable pub and_then : {A B : Type 0} → Steps A → (A → Steps B) → Steps B
and_then (done, err e) next = (done, err e)
and_then (done, ok a) next = (done ++ (next a).0, (next a).1)

abbrev pub lift : {A : Type 0} → Result A → Steps A
lift r = ([], elim r [ err e ↦ err (wrapped e) | ok a ↦ ok a ])

-- The steps, as the blob store, the disk and the command answer.
pub record Stages : Type 0 where
  pub valid : Digest → Bool
  pub fetch_action : Digest → Result Action
  pub fetch_command : Digest → Result Command
  pub make_dir : FilePath → Option Error
  pub stage_inputs : FilePath → Digest → Option Error
  pub build_input_mounts : Option Error
  pub create_output_directories : Command → Option Error
  pub run : Command → Option ℕ → Result ℤ
  pub upload_outputs : Command → ℤ → Result ActionResult

abbrev pub replace_colon : GoString → GoString
replace_colon [] = []
replace_colon (c ∷ s) = (if c == b':' then b'_' else c) ∷ replace_colon s

abbrev pub is_zero : ℤ → Bool
is_zero (pos zero) = true
is_zero _ = false

module _ (stages : Stages) (build_root : FilePath) where
  unfoldable pub check_digest : Digest → Steps Digest
  check_digest d = ([], if stages.valid d then ok d else err (status Code.invalid_argument))

  unfoldable pub fallible : Option Error → Steps (Unit {0})
  fallible none = ([], ok tt)
  fallible (some e) = ([], err (wrapped e))

  unfoldable pub create : FilePath → Steps (Unit {0})
  create path = elim (stages.make_dir path) [
    | none ↦ (created path ∷ [], ok tt)
    | some e ↦ ([], err (wrapped e))
  ]

  abbrev pub base_dir : Task → FilePath
  base_dir task = build_root ++ (replace_colon task.operation_id ∷ [])

  abbrev pub exec_root : Task → FilePath
  exec_root task = base_dir task ++ (codes "execroot" ∷ [])

  -- The deferred `os.RemoveAll`.
  unfoldable pub with_cleanup : {A : Type 0} → FilePath → Steps A → Steps A
  with_cleanup base (done, r) = (done ++ (removed base ∷ []), r)

  -- The call of `UpdateActionResult` is the effect; its error is dropped.
  unfoldable pub store_result : Task → ActionResult → Steps ActionResult
  store_result task result =
      if is_zero result.exit_code && not task.skip_cache
      then (cached task.action_digest ∷ [], ok result)
      else ([], ok result)

  unfoldable pub run_action : Task → Action → Command → Steps ActionResult
  run_action task action command =
      and_then
        (fallible
          (stages.stage_inputs (base_dir task ++ (codes "inputs" ∷ [])) action.input_root_digest))
        λ _. and_then (fallible stages.build_input_mounts) λ _.
          and_then (create (join (exec_root task) command.working_directory)) λ _.
            and_then (fallible (stages.create_output_directories command)) λ _.
              and_then (lift (stages.run command action.timeout)) λ code.
                and_then (lift (stages.upload_outputs command code))
                  λ result. store_result task result

  unfoldable pub execute_action : Task → Steps ActionResult
  execute_action task = and_then (check_digest task.action_digest) λ d.
      and_then (lift (stages.fetch_action d)) λ action.
        and_then (check_digest action.command_digest) λ c.
          and_then (lift (stages.fetch_command c)) λ command.
            and_then (check_digest action.input_root_digest) λ root.
              and_then (create (base_dir task ++ (codes "inputs" ∷ []))) λ _.
                and_then (create (exec_root task))
                  λ _. with_cleanup (base_dir task) (run_action task action command)
