-- ===== src/Worker/Inputs/Placed.antt =====
-- pkg/execution/worker.go: the inputs that are placed in the execution root.
use mathlib.Core.List.{Permᴰ}
use go_rego.Base.{
  ◌≡◌, subst, refl, ap, sym, ◌∙◌, Option, none, some, List, [], ◌∷◌, ◌++◌, append-nil, append_assoc,
  inl, inr, Option-cases,
}
use go_rego.Base.Text.{GoString}
use go_rego.Base.Results.{Error}
use go_rego.Storage.Files.{FilePath}
use go_rego.Worker.Trees.{file, symlink, dir, Entries, end, entry, parent}
use go_rego.Worker.Trees.Layout.{Plain, join-IsPlain}
use go_rego.Worker.Inputs.{
  InputMounts, Walk, walk_on, make_all, walk_entries, build_input_mounts, Placing, make_parent,
  make_link, make_symlink, point_to, place_on, try_placing, place_links, link_or_point, place_files,
  materialize_inputs,
}

-- The files of a tree, each with its place below two directories, and its symbolic links.
abbrev pub file_pairs : (source target : FilePath) → Entries → List (FilePath × FilePath)
file_pairs source target end = []
file_pairs source target (entry name (file c x) rest) =
    (source ++ (name ∷ []), target ++ (name ∷ [])) ∷ file_pairs source target rest
file_pairs source target (entry name (symlink link) rest) = file_pairs source target rest
file_pairs source target (entry name (dir es) rest) =
    file_pairs (source ++ (name ∷ [])) (target ++ (name ∷ [])) es ++ file_pairs source target rest

abbrev pub link_pairs : FilePath → Entries → List (FilePath × GoString)
link_pairs target end = []
link_pairs target (entry name (file c x) rest) = link_pairs target rest
link_pairs target (entry name (symlink link) rest) =
    (target ++ (name ∷ []), link) ∷ link_pairs target rest
link_pairs target (entry name (dir es) rest) =
    link_pairs (target ++ (name ∷ [])) es ++ link_pairs target rest

-- The directories of a tree, and those that a file or a link asks for again.
abbrev pub made_by : FilePath → Entries → List FilePath
made_by target end = []
made_by target (entry name (dir es) rest) =
    (target ++ (name ∷ [])) ∷ (made_by (target ++ (name ∷ [])) es ++ made_by target rest)
made_by target (entry name _ rest) = parent (target ++ (name ∷ [])) ∷ made_by target rest

always : FilePath → Option Error
always path = none

-- What a walk adds to the mounts.
abbrev added : (source target : FilePath) → Entries → InputMounts → InputMounts
added source target es m = record {
  made = m.made ++ made_by target es;
  file_mounts = m.file_mounts ++ file_pairs source target es;
  symlinks = m.symlinks ++ link_pairs target es;
}

same_walk :
    {m m' : List FilePath} {f f' : List (FilePath × FilePath)} {l l' : List (FilePath × GoString)}
    → m ≡ m'
    → f ≡ f'
    → l ≡ l'
    → ◌≡◌ {A = Walk}
        (record { made = m; file_mounts = f; symlinks = l }, none)
        (record { made = m'; file_mounts = f'; symlinks = l' }, none)
same_walk e f l i = (record { made = e i; file_mounts = f i; symlinks = l i }, none)

-- One element and two lists behind a list, as they come.
regroup :
    {A : Type 0} (xs : List A) (x : A) (ys zs : List A)
    → ((xs ++ (x ∷ [])) ++ ys) ++ zs ≡ xs ++ (x ∷ (ys ++ zs))
regroup xs x ys zs = append_assoc (xs ++ (x ∷ [])) ys zs ∙ append_assoc xs (x ∷ []) (ys ++ zs)

walk_entries-added :
    (source target : FilePath) (es : Entries) (m : InputMounts)
    → Plain es
    → walk_entries always source target es m ≡ (added source target es m, none)
unfolding walk_entries walk_on make_all always
walk_entries-added source target end m p =
    same_walk (sym (append-nil m.made)) (sym (append-nil m.file_mounts))
      (sym (append-nil m.symlinks))
walk_entries-added source target (entry name (file c x) rest) m (p, ps) =
    rw (join-IsPlain source name p, join-IsPlain target name p)
      (walk_entries-added source target rest
          (record m {
            made = m.made ++ (parent (target ++ (name ∷ [])) ∷ []);
            file_mounts = m.file_mounts ++ ((source ++ (name ∷ []), target ++ (name ∷ [])) ∷ []);
          })
          ps
        ∙ same_walk (append_assoc m.made _ _) (append_assoc m.file_mounts _ _) refl)
walk_entries-added source target (entry name (symlink link) rest) m (p, ps) =
    rw (join-IsPlain target name p) (
      walk_entries-added source target rest
        (record m {
          made = m.made ++ (parent (target ++ (name ∷ [])) ∷ []);
          symlinks = m.symlinks ++ ((target ++ (name ∷ []), link) ∷ []);
        })
        ps
      ∙ same_walk (append_assoc m.made _ _) refl (append_assoc m.symlinks _ _))
walk_entries-added source target (entry name (dir es) rest) m (p, ps, qs) =
    let inner_source = source ++ (name ∷ []) in
    let inner = target ++ (name ∷ []) in
    let n = record m { made = m.made ++ (inner ∷ []) } in
    let entered : walk_entries always source target (entry name (dir es) rest) m
        ≡ walk_on (walk_entries always inner_source inner es n)
            (walk_entries always source target rest) =
      λ i.
        walk_on
          (walk_entries always (join-IsPlain source name p i) (join-IsPlain target name p i) es
            (record m { made = m.made ++ (join-IsPlain target name p i ∷ []) }))
          (walk_entries always source target rest) in
    entered
    ∙ ap (λ w. walk_on w (walk_entries always source target rest))
        (walk_entries-added inner_source inner es n ps)
    ∙ walk_entries-added source target rest (added inner_source inner es n) qs
    ∙ same_walk (regroup m.made inner (made_by inner es) (made_by target rest))
        (append_assoc m.file_mounts _ _) (append_assoc m.symlinks _ _)

-- The calls that place a link, or a file, where the hard link gives an error or not.
abbrev pub placed_links : List (FilePath × GoString) → List Placing
placed_links [] = []
placed_links ((target, link) ∷ links) =
    make_parent (parent target) ∷ (make_symlink link target ∷ placed_links links)

abbrev pub linked : Option Error → FilePath → FilePath → Placing
linked none source target = make_link source target
linked (some e) source target = point_to source target

abbrev pub placed_files : (Placing → Option Error) → List (FilePath × FilePath) → List Placing
placed_files fails [] = []
placed_files fails ((source, target) ∷ files) =
    make_parent (parent target)
    ∷ (linked (fails (make_link source target)) source target ∷ placed_files fails files)

-- Only hard links give errors, as across two file systems.
abbrev pub LinksFail : (Placing → Option Error) → Type 0
LinksFail fails =
    ((p : FilePath) → fails (make_parent p) ≡ none)
    × ((link : GoString) (p : FilePath) → fails (make_symlink link p) ≡ none)
    × ((source target : FilePath) → fails (point_to source target) ≡ none)

place_links-placed :
    (fails : Placing → Option Error) (links : List (FilePath × GoString))
    → LinksFail fails
    → place_links fails links ≡ (placed_links links, none)
unfolding place_links place_on try_placing
place_links-placed fails [] h = refl
place_links-placed fails ((target, link) ∷ links) (parents, syms, points) =
    rw
      (
        place_links,
        parents (parent target),
        try_placing,
        syms link target,
        place_links-placed fails links (parents, syms, points),
      )
      refl

place_files-placed :
    (fails : Placing → Option Error) (files : List (FilePath × FilePath))
    → LinksFail fails
    → place_files fails files ≡ (placed_files fails files, none)
unfolding place_files place_on try_placing link_or_point
place_files-placed fails [] h = refl
place_files-placed fails ((source, target) ∷ files) (parents, syms, points) =
    elim (Option-cases (fails (make_link source target))) [
      | inl fine ↦
          rw
            (
              place_files,
              parents (parent target),
              try_placing,
              link_or_point,
              fine,
              place_files-placed fails files (parents, syms, points),
            )
            refl
      | inr (er, bad) ↦
          rw
            (
              place_files,
              parents (parent target),
              try_placing,
              link_or_point,
              bad,
              points source target,
              place_files-placed fails files (parents, syms, points),
            )
            refl
    ]

-- The inputs of an action without a sandbox: where no directory fails to be made, the walk over the
-- staged tree makes the root and every directory of the tree below it, and finds every file and every
-- symbolic link with its place there. In whatever order the two maps are visited then, every link is
-- made again, and every file is linked to its place, or where the hard link gives an error, pointed to
-- by a symbolic link, each after its parent directory is asked for. (The names are such as a directory
-- has, and nothing but hard links gives errors.)
pub materialize_inputs-build_input_mounts :
    (fails : Placing → Option Error) (inputs_dir exec_root : FilePath) (es : Entries)
    (links : List (FilePath × GoString)) (files : List (FilePath × FilePath))
    → Plain es
    → LinksFail fails
    → Permᴰ (link_pairs exec_root es) links
    → Permᴰ (file_pairs inputs_dir exec_root es) files
    → let walk = build_input_mounts (λ _. none) inputs_dir exec_root es in
      (walk ≡ (
        record {
          made = exec_root ∷ made_by exec_root es;
          file_mounts = file_pairs inputs_dir exec_root es;
          symlinks = link_pairs exec_root es;
        },
        none,
      ))
      × Permᴰ walk.0.symlinks links
      × Permᴰ walk.0.file_mounts files
      × (materialize_inputs fails links files
          ≡ (placed_links links ++ placed_files fails files, none))
unfolding build_input_mounts walk_on make_all materialize_inputs place_on always
materialize_inputs-build_input_mounts fails inputs_dir exec_root es links files p h perm_links
      perm_files =
    let walked =
      walk_entries-added inputs_dir exec_root es
        (record { made = exec_root ∷ []; file_mounts = []; symlinks = [] }) p in
    (
      walked,
      subst (λ w. Permᴰ w.0.symlinks links) (sym walked) perm_links,
      subst (λ w. Permᴰ w.0.file_mounts files) (sym walked) perm_files,
      rw (materialize_inputs, place_links-placed fails links h, place_files-placed fails files h)
          refl,
    )
