-- ===== src/Sandbox/Examples.antt =====
-- The theorems on the command line, at a request with two mounts and a path like an option.
use go_rego.Base.{ℕ, ◌/◌, ◌≡◌, refl, true, false, [], ◌∷◌, ◌++◌, arith}
use go_rego.Base.Text.{GoString, codes, str_eq, str_eq_iff}
use go_rego.Base.Dict.{Dict, lookup}
use go_rego.Base.Results.{ok}
use go_rego.Base.Sorting.{contains}
use go_rego.Sandbox.{SandboxConfig, WrapSpec, wrap_command}
use go_rego.Sandbox.Order.{wrap_command-ext}
use go_rego.Sandbox.Options.{CommandLine, Asks, words_of, wrap_command-Asks}

abbrev seconds : ℕ → ℕ
seconds n = n / 1000000000

abbrev cfg : SandboxConfig
cfg = record {
  enabled = true;
  binary_path = codes "/usr/bin/linux-sandbox";
  network_isolation = true;
  writable_paths = codes "/tmp" ∷ [];
  kill_delay = 5;
  debug = false;
}

abbrev mounts : Dict GoString
mounts = (codes "/b", codes "/x/b") ∷ ((codes "/a", codes "/x/a") ∷ [])

abbrev swapped : Dict GoString
swapped = (codes "/a", codes "/x/a") ∷ ((codes "/b", codes "/x/b") ∷ [])

abbrev spec : WrapSpec
spec = record {
  exec_root = codes "/x";
  input_mounts = mounts;
  writable_paths = codes "--" ∷ (codes "/x/out" ∷ (codes "--" ∷ []));
  timeout = 1500000000;
  command = codes "cc" ∷ (codes "-c" ∷ []);
}

same_mounts : (k : GoString) → lookup k mounts ≡ lookup k swapped
unfolding lookup
same_mounts k = ground (arith, str_eq_iff (codes "/a") k, str_eq_iff (codes "/b") k)

same_paths :
    (p : GoString)
    → contains p spec.writable_paths ≡ contains p (codes "/x/out" ∷ (codes "--" ∷ []))
unfolding contains
same_paths p = ground arith

wrap_command-ext_example :
    wrap_command seconds cfg spec
    ≡ wrap_command seconds cfg (record spec {
      input_mounts = swapped;
      writable_paths = codes "/x/out" ∷ (codes "--" ∷ []);
    })
unfolding contains str_eq
wrap_command-ext_example =
    wrap_command-ext seconds cfg spec swapped (codes "/x/out" ∷ (codes "--" ∷ []))
      (refl, (refl, tt)) (refl, (refl, tt)) same_mounts same_paths

wrap_command-Asks_example :
    (line : CommandLine) × Asks seconds cfg spec line
    × (wrap_command seconds cfg spec
        ≡ ok (cfg.binary_path ∷ (words_of line ++ (codes "--" ∷ spec.command))))
wrap_command-Asks_example = wrap_command-Asks seconds cfg spec (codes "cc") (codes "-c" ∷ []) refl
