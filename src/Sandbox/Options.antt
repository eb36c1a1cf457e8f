-- ===== src/Sandbox/Options.antt =====
-- pkg/sandbox/sandbox.go: what the command line has, part by part.
use go_rego.Base.{
  ℕ, ◌≡◌, refl, ap, sym, ◌∙◌, Bool, false, ◌&&◌, ◌||◌, Option, none, some, List, [], ◌∷◌, ◌++◌,
  append_assoc, ltb, if◌then◌else◌, arith, Bool-cases, Option-cases, inl, inr,
}
use go_rego.Base.Text.{GoString, codes, str_eq, str_eq_iff}
use go_rego.Base.Dict.{Dict, lookup}
use go_rego.Base.Results.{ok}
use go_rego.Base.Sorting.{
  sort_strings, contains, Distinct, contains-sort_strings, sort_strings-Distinct,
}
use go_rego.Sandbox.{
  SandboxConfig, WrapSpec, deduplicate_from, deduplicate_paths, print, target_of, sources_of,
  mount_args, writable_args, flag, timeout_args, option_args, wrap_arguments, wrap_command,
}
use go_rego.Sandbox.Order.{
  has, contains-deduplicate_from, deduplicate_from-Distinct, contains-sources_of,
}

-- A mount is a source with its target; the limits are those of the time and of the kill delay.
pub record CommandLine : Type 0 where
  pub work_dir : GoString
  pub mounts : List (GoString × GoString)
  pub writable : List GoString
  pub without_network : Bool
  pub limits : Option (GoString × GoString)
  pub debug : Bool

abbrev mount_words : List (GoString × GoString) → List GoString
mount_words [] = []
mount_words ((source, target) ∷ mounts) =
    codes "-M" ∷ (source ∷ (codes "-m" ∷ (target ∷ mount_words mounts)))

abbrev writable_words : List GoString → List GoString
writable_words [] = []
writable_words (p ∷ paths) = codes "-w" ∷ (p ∷ writable_words paths)

abbrev limit_words : Option (GoString × GoString) → List GoString
limit_words none = []
limit_words (some (t, k)) = codes "-T" ∷ (t ∷ (codes "-t" ∷ (k ∷ [])))

-- The words of a command line, without those of the command.
abbrev pub words_of : CommandLine → List GoString
words_of line =
    codes "-W"
    ∷ (line.work_dir
        ∷ (mount_words line.mounts
            ++ (writable_words line.writable
                ++ ((if line.without_network then codes "-N" ∷ [] else [])
                    ++ (codes "-H"
                        ∷ (limit_words line.limits
                            ++ (if line.debug then codes "-D" ∷ [] else [])))))))

abbrev pub has_mount : (source target : GoString) → List (GoString × GoString) → Bool
has_mount source target [] = false
has_mount source target ((s, t) ∷ mounts) =
    (str_eq s source && str_eq t target) || has_mount source target mounts

-- Whether the map has the target for the source.
abbrev pub maps_to : (source target : GoString) → Dict GoString → Bool
maps_to source target mounts = elim (lookup source mounts) [
  | none ↦ false
  | some t ↦ str_eq t target
]

-- What the command line has, by the request and the configuration.
pub record Asks (seconds : ℕ → ℕ) (cfg : SandboxConfig) (spec : WrapSpec) (line : CommandLine)
    : Type 0 where
  pub work_dir : line.work_dir ≡ spec.exec_root
  pub mounts :
      (source target : GoString)
      → has_mount source target line.mounts ≡ maps_to source target spec.input_mounts
  pub writable :
      (more : List GoString) × (line.writable ≡ cfg.writable_paths ++ more)
      × Distinct more
      × ((p : GoString) → contains p more ≡ contains p spec.writable_paths)
  pub without_network : line.without_network ≡ cfg.network_isolation
  pub limits : line.limits ≡ (
      if ltb 0 spec.timeout
      then some (print (seconds spec.timeout), print cfg.kill_delay)
      else none)
  pub debug : line.debug ≡ cfg.debug

mounts_of : Dict GoString → List GoString → List (GoString × GoString)
mounts_of mounts [] = []
mounts_of mounts (source ∷ sources) = (source, target_of mounts source) ∷ mounts_of mounts sources

mount_args-words :
    (mounts : Dict GoString) (sources : List GoString)
    → mount_args mounts sources ≡ mount_words (mounts_of mounts sources)
unfolding mount_args mounts_of
mount_args-words mounts [] = refl
mount_args-words mounts (source ∷ sources) =
    ap (λ l. codes "-M" ∷ (source ∷ (codes "-m" ∷ (target_of mounts source ∷ l))))
      (mount_args-words mounts sources)

writable_args-words :
    (paths more : List GoString)
    → writable_args paths ++ writable_args more ≡ writable_words (paths ++ more)
unfolding writable_args
writable_args-words [] [] = refl
writable_args-words [] (p ∷ more) = ap (λ l. codes "-w" ∷ (p ∷ l)) (writable_args-words [] more)
writable_args-words (p ∷ paths) more =
    ap (λ l. codes "-w" ∷ (p ∷ l)) (writable_args-words paths more)

has_mount-mounts_of :
    (source target : GoString) (mounts : Dict GoString) (sources : List GoString)
    → has_mount source target (mounts_of mounts sources)
      ≡ (contains source sources && str_eq (target_of mounts source) target)
unfolding contains mounts_of
has_mount-mounts_of source target mounts [] = refl
has_mount-mounts_of source target mounts (s ∷ sources) = elim (Bool-cases (str_eq s source)) [
  | inl same ↦
      let at : s ≡ source = (str_eq_iff s source).0 same in
      let rest = has_mount-mounts_of source target mounts sources in
      let here : str_eq (target_of mounts s) target ≡ str_eq (target_of mounts source) target =
        ap (λ k. str_eq (target_of mounts k) target) at in
      rw (same, has_mount, contains) (ground (arith, rest, here))
  | inr other ↦ rw (other, has_mount, contains) (has_mount-mounts_of source target mounts sources)
]

has_mount-maps_to :
    (source target : GoString) (mounts : Dict GoString)
    → has_mount source target (mounts_of mounts (sort_strings (sources_of mounts)))
      ≡ maps_to source target mounts
has_mount-maps_to source target mounts =
    has_mount-mounts_of source target mounts (sort_strings (sources_of mounts))
    ∙ ap (λ b. b && str_eq (target_of mounts source) target)
        (contains-sort_strings source (sources_of mounts) ∙ contains-sources_of source mounts)
    ∙ (elim (Option-cases (lookup source mounts)) [
      | inl e ↦ rw (e, has, maps_to) refl
      | inr (t, e) ↦ rw (e, has, maps_to, target_of) refl
    ])

timeout_args-words :
    (seconds : ℕ → ℕ) (kill_delay timeout : ℕ)
    → timeout_args seconds kill_delay timeout
      ≡ limit_words
          (if ltb 0 timeout then some (print (seconds timeout), print kill_delay) else none)
timeout_args-words seconds kill_delay timeout = elim (Bool-cases (ltb 0 timeout)) [
  | inl timed ↦ rw timed refl
  | inr endless ↦ rw endless refl
]

module _ (seconds : ℕ → ℕ) (cfg : SandboxConfig) (spec : WrapSpec) where
  line_of : CommandLine
  line_of = record {
    work_dir = spec.exec_root;
    mounts = mounts_of spec.input_mounts (sort_strings (sources_of spec.input_mounts));
    writable = cfg.writable_paths ++ sort_strings (deduplicate_paths spec.writable_paths);
    without_network = cfg.network_isolation;
    limits =
        if ltb 0 spec.timeout
        then some (print (seconds spec.timeout), print cfg.kill_delay)
        else none;
    debug = cfg.debug;
  }

  line_of-Asks : Asks seconds cfg spec line_of
  unfolding line_of deduplicate_paths contains
  line_of-Asks = record {
    work_dir = refl;
    mounts = λ source target. has_mount-maps_to source target spec.input_mounts;
    writable = (
      sort_strings (deduplicate_from [] spec.writable_paths),
      refl,
      sort_strings-Distinct (deduplicate_from [] spec.writable_paths)
          (deduplicate_from-Distinct [] spec.writable_paths),
      λ p.
          contains-sort_strings p (deduplicate_from [] spec.writable_paths)
          ∙ contains-deduplicate_from p [] spec.writable_paths
          ∙ ground arith,
    );
    without_network = refl;
    limits = refl;
    debug = refl;
  }

  option_args-words : option_args seconds cfg spec ≡ words_of line_of
  unfolding option_args line_of
  option_args-words =
      let paths = sort_strings (deduplicate_paths spec.writable_paths) in
      let mounts = mount_args spec.input_mounts (sort_strings (sources_of spec.input_mounts)) in
      let flags =
        flag cfg.network_isolation (codes "-N")
        ++ (codes "-H"
            ∷ (timeout_args seconds cfg.kill_delay spec.timeout ++ flag cfg.debug (codes "-D"))) in
      ap (λ l. codes "-W" ∷ (spec.exec_root ∷ l))
        (ap (λ l. mounts ++ l)
            (sym (append_assoc (writable_args cfg.writable_paths) (writable_args paths) flags)
              ∙ ap (λ l. l ++ flags) (writable_args-words cfg.writable_paths paths))
          ∙ ap (λ l. l ++ (writable_words (cfg.writable_paths ++ paths) ++ flags))
              (mount_args-words spec.input_mounts (sort_strings (sources_of spec.input_mounts)))
          ∙ ap
              (λ l.
                mount_words
                  (mounts_of spec.input_mounts (sort_strings (sources_of spec.input_mounts)))
                ++ (writable_words (cfg.writable_paths ++ paths)
                    ++ (flag cfg.network_isolation (codes "-N")
                        ++ (codes "-H" ∷ (l ++ flag cfg.debug (codes "-D"))))))
              (timeout_args-words seconds cfg.kill_delay spec.timeout))

  -- The command line that WrapCommand gives for a command with a first word is the sandbox's binary,
  -- options, "--" and the command. The options name the root of the execution, mount each source
  -- of the request on its target and nothing else, make writable the paths of the configuration and
  -- then each path of the request exactly once, and no other, and have the option against the
  -- network, the limits (for a timeout above 0) and the option to debug where they are asked for.
  pub wrap_command-Asks :
      (c : GoString) (cs : List GoString)
      → spec.command ≡ c ∷ cs
      → (line : CommandLine) × Asks seconds cfg spec line
        × (wrap_command seconds cfg spec
            ≡ ok (cfg.binary_path ∷ (words_of line ++ (codes "--" ∷ spec.command))))
  unfolding wrap_command
  wrap_command-Asks c cs h = (
    line_of,
    line_of-Asks,
    ap (wrap_arguments seconds cfg (option_args seconds cfg spec)) h
        ∙ ap (λ l. ok (cfg.binary_path ∷ (l ++ (codes "--" ∷ (c ∷ cs))))) option_args-words
        ∙ ap (λ l. ok (cfg.binary_path ∷ (words_of line_of ++ (codes "--" ∷ l)))) (sym h),
  )
