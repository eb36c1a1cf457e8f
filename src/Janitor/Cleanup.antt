-- ===== src/Janitor/Cleanup.antt =====
-- pkg/janitor/janitor.go: `Cleanup`. The walk over the cache directory is the list of the calls of
-- its callback, `sort.Slice` and the file system's answer to a removal are arguments. Sizes are sums
-- of sizes of files on one disk, below 2 ^ 63, and no access time lies before the epoch.
use go_rego.Base.{ℕ, ◌+◌, ◌-◌, ◌*◌, Bool, List, [], ◌∷◌, ◌++◌, ltb, leb, if◌then◌else◌}
use go_rego.Base.Text.{GoString}
use go_rego.Base.Results.{Error, Result, ok, err}

-- `fileInfo`, with the `fileEntry` that it holds.
pub record FileInfo : Type 0 where
  pub path : GoString
  pub size : ℕ
  pub is_dir : Bool
  pub access_time : ℕ

pub record Janitor : Type 0 where
  pub root_dir : GoString
  pub max_size : ℕ
  pub min_age : ℕ
  pub debounce_dur : ℕ

-- A call of the callback of `Walk`.
pub data WalkEvent : Type 0 where
  visited : FileInfo → WalkEvent
  failed : Error → WalkEvent

-- 30 and 5 seconds, in nanoseconds.
unfoldable pub new_janitor : GoString → ℕ → Janitor
new_janitor dir max_size_gb = record {
  root_dir = dir;
  max_size = max_size_gb * 1024 * 1024 * 1024;
  min_age = 30_000_000_000;
  debounce_dur = 5_000_000_000;
}

-- The files of the walk, and the sum of their sizes; an error of the walk ends it.
unfoldable pub gather : List WalkEvent → List FileInfo → ℕ → Result (List FileInfo × ℕ)
gather [] files total = ok (files, total)
gather (failed e ∷ _) files total = err e
gather (visited f ∷ events) files total =
    gather events (if f.is_dir then files else files ++ (f ∷ []))
      (if f.is_dir then total else total + f.size)

-- `now.Sub(atime) < j.minAge`
abbrev pub is_young : Janitor → ℕ → FileInfo → Bool
is_young j now f = ltb now (f.access_time + j.min_age)

-- `Before`, of the access times: the order that `sort.Slice` is given.
abbrev pub is_older : FileInfo → FileInfo → Bool
is_older f g = ltb f.access_time g.access_time

abbrev pub keep_removed : FileInfo → List FileInfo × ℕ → List FileInfo × ℕ
keep_removed f r = (f ∷ r.0, r.1)

module _ (j : Janitor) (now : ℕ) (removable : GoString → Bool) where
  -- The loop over the sorted files: the files removed, and the size that is left.
  unfoldable pub evict : List FileInfo → ℕ → List FileInfo × ℕ
  evict [] total = ([], total)
  evict (f ∷ files) total =
      let skipped = evict files total in
      let removed = keep_removed f (evict files (total - f.size)) in
      if leb total j.max_size
      then ([], total)
      else (if is_young j now f then skipped else (if removable f.path then removed else skipped))

  unfoldable pub cleanup :
      ((FileInfo → FileInfo → Bool) → List FileInfo → List FileInfo)
      → List WalkEvent
      → Result (List FileInfo × ℕ)
  unfolding gather evict
  cleanup sort events = elim (gather events [] 0) [
    | err e ↦ err e
    | ok (files, total) ↦
        if leb total j.max_size then ok ([], total) else ok (evict (sort is_older files) total)
  ]
