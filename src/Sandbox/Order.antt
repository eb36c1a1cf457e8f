-- ===== src/Sandbox/Order.antt =====
-- pkg/sandbox/sandbox.go: the command line does not depend on the order of maps and paths.
use go_rego.Base.{
  ℕ, ◌≡◌, refl, ap, sym, ◌∙◌, Bool, true, false, not, ◌&&◌, Option, none, some, List, [], ◌∷◌, ◌++◌,
  arith, Bool-cases, inl, inr,
}
use go_rego.Base.Text.{GoString, codes, str_eq_iff, str_eq_refl}
use go_rego.Base.Dict.{Dict, lookup}
use go_rego.Base.Sorting.{sort_strings, contains, Distinct, sort_strings-ext}
use go_rego.Sandbox.{
  SandboxConfig, WrapSpec, deduplicate_from, deduplicate_paths, target_of, sources_of, mount_args,
  writable_args, flag, timeout_args, option_args, wrap_arguments, wrap_command,
}

pub contains-deduplicate_from :
    (z : GoString) (seen paths : List GoString)
    → contains z (deduplicate_from seen paths) ≡ (contains z paths && not (contains z seen))
unfolding deduplicate_from contains
contains-deduplicate_from z seen [] = refl
contains-deduplicate_from z seen (p ∷ paths) = elim (Bool-cases (contains p seen)) [
  | inl old ↦
      rw (old, deduplicate_from)
        (ground (arith, contains-deduplicate_from z seen paths, str_eq_iff p z))
  | inr new ↦
      rw (new, deduplicate_from)
        (ground (arith, contains-deduplicate_from z (p ∷ seen) paths, str_eq_iff p z))
]

pub deduplicate_from-Distinct :
    (seen paths : List GoString) → Distinct (deduplicate_from seen paths)
unfolding deduplicate_from contains
deduplicate_from-Distinct seen [] = tt
deduplicate_from-Distinct seen (p ∷ paths) = elim (Bool-cases (contains p seen)) [
  | inl old ↦ rw (old, deduplicate_from) (deduplicate_from-Distinct seen paths)
  | inr new ↦
      rw (new, deduplicate_from)
        (
          ground (arith, contains-deduplicate_from p (p ∷ seen) paths, str_eq_refl p),
          deduplicate_from-Distinct (p ∷ seen) paths,
        )
]

abbrev pub has : {A : Type 0} → Option A → Bool
has none = false
has (some a) = true

pub contains-sources_of :
    (k : GoString) (mounts : Dict GoString) → contains k (sources_of mounts) ≡ has (lookup k mounts)
unfolding contains lookup
contains-sources_of k [] = refl
contains-sources_of k ((source, target) ∷ mounts) = ground (arith, contains-sources_of k mounts)

mount_args-ext :
    (a b : Dict GoString) (sources : List GoString)
    → ((k : GoString) → lookup k a ≡ lookup k b)
    → mount_args a sources ≡ mount_args b sources
unfolding mount_args
mount_args-ext a b [] same = refl
mount_args-ext a b (source ∷ sources) same =
    λ i. codes "-M" ∷ (source ∷ (codes "-m" ∷ (target i ∷ mount_args-ext a b sources same i)))
  where
    target : target_of a source ≡ target_of b source
    target = rw (same source, target_of) refl

-- The command line depends on the mounts as a map, and on the writable paths as a set: two requests
-- that differ in the order of the mounts, and in the order and the copies of the writable paths, have
-- the same command line or both fail.
pub wrap_command-ext :
    (seconds : ℕ → ℕ) (cfg : SandboxConfig) (spec : WrapSpec) (mounts : Dict GoString)
    (paths : List GoString)
    → Distinct (sources_of spec.input_mounts)
    → Distinct (sources_of mounts)
    → ((k : GoString) → lookup k spec.input_mounts ≡ lookup k mounts)
    → ((p : GoString) → contains p spec.writable_paths ≡ contains p paths)
    → wrap_command seconds cfg spec
      ≡ wrap_command seconds cfg (record spec { input_mounts = mounts; writable_paths = paths })
unfolding wrap_command option_args deduplicate_paths
wrap_command-ext seconds cfg spec mounts paths da db same_mounts same_paths =
    let sources : sort_strings (sources_of spec.input_mounts) ≡ sort_strings (sources_of mounts) =
      sort_strings-ext (sources_of spec.input_mounts) (sources_of mounts) da db (λ k.
        contains-sources_of k spec.input_mounts
        ∙ ap has (same_mounts k)
        ∙ sym (contains-sources_of k mounts)) in
    let mounted : mount_args spec.input_mounts (sort_strings (sources_of spec.input_mounts))
        ≡ mount_args mounts (sort_strings (sources_of mounts)) =
      mount_args-ext spec.input_mounts mounts (sort_strings (sources_of spec.input_mounts))
        same_mounts
      ∙ ap (mount_args mounts) sources in
    let writable : sort_strings (deduplicate_paths spec.writable_paths)
        ≡ sort_strings (deduplicate_paths paths) =
      sort_strings-ext (deduplicate_from [] spec.writable_paths) (deduplicate_from [] paths)
        (deduplicate_from-Distinct [] spec.writable_paths) (deduplicate_from-Distinct [] paths)
        (λ p.
          contains-deduplicate_from p [] spec.writable_paths
          ∙ ap (λ b. b && not (contains p [])) (same_paths p)
          ∙ sym (contains-deduplicate_from p [] paths)) in
    let end : List GoString =
      flag cfg.network_isolation (codes "-N")
      ++ (codes "-H"
          ∷ (timeout_args seconds cfg.kill_delay spec.timeout ++ flag cfg.debug (codes "-D"))) in
    let options : option_args seconds cfg spec
        ≡ option_args seconds cfg (record spec { input_mounts = mounts; writable_paths = paths }) =
      λ i.
        codes "-W"
        ∷ (spec.exec_root
            ∷ (mounted i
                ++ (writable_args cfg.writable_paths ++ (writable_args (writable i) ++ end)))) in
    ap (λ o. wrap_arguments seconds cfg o spec.command) options
