-- ===== src/Worker/Actions/Examples.antt =====
-- The theorems on the steps of an action, at a command that succeeds.
use go_rego.Base.{◌≡◌, true, false, none, some, [], ◌∷◌, arith}
use go_rego.Base.Text.{codes}
use go_rego.Base.Integers.{pos}
use go_rego.Base.Results.{ok}
use go_rego.Storage.Digests.{Digest}
use go_rego.Storage.Files.{FilePath}
use go_rego.Scheduler.State.{Task}
use go_rego.Worker.Outputs.{Command}
use go_rego.Worker.Actions.{
  Action, Stages, removed, execute_action, run_action, and_then, check_digest, fallible, create,
  with_cleanup, store_result,
}
use go_rego.Worker.Actions.Outcomes.{has_cached, to_keep, execute_action-has_cached}
use go_rego.Worker.Actions.Cleanup.{last, execute_action-removed}

abbrev digest : Digest
digest = record { hash = codes "ab"; size = 2 }

abbrev action : Action
action = record { command_digest = digest; input_root_digest = digest; timeout = none }

abbrev command : Command
command = record {
  arguments = codes "cc" ∷ [];
  working_directory = [];
  output_files = [];
  output_directories = [];
  output_paths = [];
}

abbrev stages : Stages
stages = record {
  valid = λ d. true;
  fetch_action = λ d. ok action;
  fetch_command = λ d. ok command;
  make_dir = λ p. none;
  stage_inputs = λ p d. none;
  build_input_mounts = none;
  create_output_directories = λ c. none;
  run = λ c t. ok (pos 0);
  upload_outputs = λ c code. ok (record {
    exit_code = code;
    stdout_digest = none;
    stderr_digest = none;
    output_files = [];
    output_directories = [];
  });
}

abbrev root : FilePath
root = codes "build" ∷ []

abbrev task : Task
task = record {
  operation_id = codes "node:1";
  action_digest = digest;
  skip_cache = false;
  queued_at = 0;
}

execute_action-has_cached_example :
    has_cached (execute_action stages root task).0
    ≡ to_keep task (execute_action stages root task).1
execute_action-has_cached_example = execute_action-has_cached stages root task

execute_action-removed_example :
    last (execute_action stages root task).0
    ≡ some (removed (codes "build" ∷ (codes "node_1" ∷ [])))
unfolding execute_action run_action and_then check_digest fallible create with_cleanup store_result
execute_action-removed_example = execute_action-removed stages root task (omega arith)
