-- ===== src/Sandbox.antt =====
-- pkg/sandbox/sandbox.go: the command line of linux-sandbox. A duration is its number of nanoseconds;
-- `seconds` is `int(d.Seconds())`, which Go computes in floating point. Numbers are not negative.
pub mod Order
pub mod Options
mod Examples
use go_rego.Base.{
  ℕ, zero, suc, ◌+◌, ◌/◌, ◌%◌, Bool, true, false, ◌&&◌, Option, none, some, List, [], ◌∷◌, ◌++◌,
  map, ltb, if◌then◌else◌,
}
use go_rego.Base.Text.{GoString, codes}
use go_rego.Base.Dict.{Dict, lookup}
use go_rego.Base.Results.{Error, wrapped, plain, Result, ok, err}
use go_rego.Base.Sorting.{sort_strings, contains}

pub record SandboxConfig : Type 0 where
  pub enabled : Bool
  pub binary_path : GoString
  pub network_isolation : Bool
  pub writable_paths : List GoString
  pub kill_delay : ℕ
  pub debug : Bool

pub record WrapSpec : Type 0 where
  pub exec_root : GoString
  pub input_mounts : Dict GoString
  pub writable_paths : List GoString
  pub timeout : ℕ
  pub command : List GoString

-- `stat` is the error of `os.Stat` for a path. Nil stands for a sandbox that is disabled.
unfoldable pub new_sandbox :
    (stat : GoString → Option Error) → SandboxConfig → Result (Option SandboxConfig)
new_sandbox stat cfg =
    if cfg.enabled
    then (elim (stat cfg.binary_path) [ some e ↦ err (wrapped e) | none ↦ ok (some cfg) ])
    else ok none

-- `Enabled`, which is called on nil too.
unfoldable pub is_enabled : Option SandboxConfig → Bool
is_enabled none = false
is_enabled (some cfg) = cfg.enabled

-- The loop of `deduplicatePaths`, with the paths seen.
unfoldable pub deduplicate_from : (seen : List GoString) → List GoString → List GoString
deduplicate_from seen [] = []
deduplicate_from seen (p ∷ paths) = elim (contains p seen) [
  | true ↦ deduplicate_from seen paths
  | false ↦ p ∷ deduplicate_from (p ∷ seen) paths
]

unfoldable pub deduplicate_paths : List GoString → List GoString
deduplicate_paths paths = deduplicate_from [] paths

-- `fmt.Sprintf("%d", n)`, with fuel above n.
abbrev pub print_from : ℕ → ℕ → GoString
print_from zero n = []
print_from (suc fuel) n = elim (ltb n 10) [
  | true ↦ (b'0' + n) ∷ []
  | false ↦ print_from fuel (n / 10) ++ ((b'0' + n % 10) ∷ [])
]

abbrev pub print : ℕ → GoString
print n = print_from (suc n) n

-- `spec.InputMounts[source]`
abbrev pub target_of : Dict GoString → GoString → GoString
target_of mounts source = elim (lookup source mounts) [ none ↦ [] | some target ↦ target ]

abbrev pub sources_of : Dict GoString → List GoString
sources_of [] = []
sources_of ((source, target) ∷ mounts) = source ∷ sources_of mounts

unfoldable pub mount_args : Dict GoString → List GoString → List GoString
mount_args mounts [] = []
mount_args mounts (source ∷ sources) =
    codes "-M" ∷ (source ∷ (codes "-m" ∷ (target_of mounts source ∷ mount_args mounts sources)))

unfoldable pub writable_args : List GoString → List GoString
writable_args [] = []
writable_args (p ∷ paths) = codes "-w" ∷ (p ∷ writable_args paths)

abbrev pub flag : Bool → GoString → List GoString
flag b option = if b then option ∷ [] else []

abbrev pub timeout_args : (seconds : ℕ → ℕ) → (kill_delay timeout : ℕ) → List GoString
timeout_args seconds kill_delay timeout =
    if ltb 0 timeout
    then codes "-T" ∷ (print (seconds timeout) ∷ (codes "-t" ∷ (print kill_delay ∷ [])))
    else []

module _ (seconds : ℕ → ℕ) (cfg : SandboxConfig) where
  -- The arguments after the command of the sandbox and before "--".
  unfoldable pub option_args : WrapSpec → List GoString
  option_args spec =
      codes "-W"
      ∷ (spec.exec_root
          ∷ (mount_args spec.input_mounts (sort_strings (sources_of spec.input_mounts))
              ++ (writable_args cfg.writable_paths
                  ++ (writable_args (sort_strings (deduplicate_paths spec.writable_paths))
                      ++ (flag cfg.network_isolation (codes "-N")
                          ++ (codes "-H"
                              ∷ (timeout_args seconds cfg.kill_delay spec.timeout
                                  ++ flag cfg.debug (codes "-D"))))))))

  abbrev pub wrap_arguments : (options : List GoString) → List GoString → Result (List GoString)
  wrap_arguments options [] = err plain
  wrap_arguments options (c ∷ cs) = ok (cfg.binary_path ∷ (options ++ (codes "--" ∷ (c ∷ cs))))

  unfoldable pub wrap_command : WrapSpec → Result (List GoString)
  wrap_command spec = wrap_arguments (option_args spec) spec.command
