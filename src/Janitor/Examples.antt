-- ===== src/Janitor/Examples.antt =====
-- The theorem on cleanups, at a cache of two files, and the one on notifications.
use go_rego.Base.{
  Bool-cases, inl, inr, ℕ, ◌*◌, ◌+◌, ◌-◌, ◌≤◌, ◌<◌, ◌≡◌, ◌⊎◌, refl, Bool, true, false, List, [],
  ◌∷◌, length, take, if◌then◌else◌,
}
use go_rego.Base.Lists.{All, All-weaken}
use go_rego.Base.Text.{GoString, codes}
use go_rego.Base.Results.{ok}
use mathlib.Core.List.{Permᴰ}
use mathlib.Core.List.Permᴰ
use go_rego.Janitor.Cleanup.{FileInfo, Janitor, visited, gather, cleanup, is_older, new_janitor}
use go_rego.Janitor.Debounce.{
  Turn, notify, restart_timer, expire, send, clean, new_loop, turn, turns, turns-notify,
}
use go_rego.Janitor.Eviction.{
  size_sum, candidates, OldestFirst, IsWeakOrder, SortedBy, cleanup-removed,
}

-- An insertion sort, as an instance of `sort.Slice`.
abbrev place : (FileInfo → FileInfo → Bool) → FileInfo → List FileInfo → List FileInfo
place less f [] = f ∷ []
place less f (g ∷ files) =
    let rest = place less f files in if less g f then g ∷ rest else f ∷ (g ∷ files)

abbrev sort : (FileInfo → FileInfo → Bool) → List FileInfo → List FileInfo
sort less [] = []
sort less (f ∷ files) = place less f (sort less files)

module _ (less : FileInfo → FileInfo → Bool) where
  place-perm : (f : FileInfo) (files : List FileInfo) → Permᴰ (f ∷ files) (place less f files)
  place-perm f [] = Permᴰ.cons refl Permᴰ.nil
  place-perm f (g ∷ files) = elim (Bool-cases (less g f)) [
    | inr e ↦ rw e (Permᴰ.refl (f ∷ (g ∷ files)))
    | inl e ↦ rw e (Permᴰ.trans (Permᴰ.swap refl refl) (Permᴰ.cons refl (place-perm f files)))
  ]

  sort-perm : (files : List FileInfo) → Permᴰ files (sort less files)
  sort-perm [] = Permᴰ.nil
  sort-perm (f ∷ files) =
      Permᴰ.trans (Permᴰ.cons refl (sort-perm files)) (place-perm f (sort less files))

  place-All :
      (P : FileInfo → Type 0) (f : FileInfo) (files : List FileInfo)
      → P f
      → All P files
      → All P (place less f files)
  place-All P f [] h k = (h, tt)
  place-All P f (g ∷ files) h (k, ks) = elim (Bool-cases (less g f)) [
    | inr e ↦ rw e (h, (k, ks))
    | inl e ↦ rw e (k, place-All P f files h ks)
  ]

  place-SortedBy :
      (f : FileInfo) (files : List FileInfo)
      → IsWeakOrder less
      → SortedBy less files
      → SortedBy less (place less f files)
  place-SortedBy f [] w h = (tt, tt)
  place-SortedBy f (g ∷ files) w (h, hs) = elim (Bool-cases (less g f)) [
    | inl e ↦ rw e (
      place-All (λ k. less k g ≡ false) f files (w.less_asymm g f e) h,
      place-SortedBy f files w hs,
    )
    | inr e ↦ rw e (
      (
        e,
        All-weaken (λ k. less k g ≡ false) (λ k. less k f ≡ false) files
            (λ k n. w.not_less_trans k g f n e) h,
      ),
      (h, hs),
    )
  ]

  sort-SortedBy : (files : List FileInfo) → IsWeakOrder less → SortedBy less (sort less files)
  sort-SortedBy [] w = tt
  sort-SortedBy (f ∷ files) w = place-SortedBy f (sort less files) w (sort-SortedBy files w)

abbrev new_file : FileInfo
new_file = record { path = codes "b"; size = 700_000_000; is_dir = false; access_time = 20 }

abbrev old_file : FileInfo
old_file = record { path = codes "a"; size = 600_000_000; is_dir = false; access_time = 10 }

abbrev one_gigabyte : Janitor
one_gigabyte = record {
  root_dir = codes "/cache";
  max_size = 1024 * 1024 * 1024;
  min_age = 30_000_000_000;
  debounce_dur = 5_000_000_000;
}

abbrev files : List FileInfo
files = new_file ∷ old_file ∷ []

abbrev removable : GoString → Bool
removable path = true

gathered : gather (visited new_file ∷ visited old_file ∷ []) [] 0 ≡ ok (files, 1_300_000_000)
unfolding gather
gathered = refl

cleanup-removed_example :
    (removed : List FileInfo) × (rest : ℕ) × (cleanup one_gigabyte 60_000_000_000 removable sort
        (visited new_file ∷ visited old_file ∷ [])
      ≡ ok (removed, rest))
    × (rest + size_sum removed ≡ size_sum files)
    × (size_sum files ≤ one_gigabyte.max_size → removed ≡ [])
    × (removed
        ≡ take
            (length removed)
            (candidates one_gigabyte 60_000_000_000 removable (sort is_older files)))
    × OldestFirst (candidates one_gigabyte 60_000_000_000 removable (sort is_older files))
    × ((rest ≤ one_gigabyte.max_size)
        ⊎ (removed ≡ candidates one_gigabyte 60_000_000_000 removable (sort is_older files)))
    × ((n : ℕ)
        → n < length removed
        → one_gigabyte.max_size < size_sum files - size_sum (take n removed))
cleanup-removed_example =
    cleanup-removed one_gigabyte 60_000_000_000 removable sort sort-perm sort-SortedBy
      (visited new_file ∷ visited old_file ∷ []) files 1_300_000_000 gathered

-- A notification, the timer that is set for it, and the cleanup.
abbrev one_round : List Turn
one_round = restart_timer 0 ∷ (expire 5_000_000_000 ∷ (send ∷ (clean ∷ [])))

turns-notify_example :
    new_loop.cleanups
    < (turns (new_janitor (codes "/cache") 1) new_loop (notify ∷ one_round)).cleanups
unfolding turns turn new_loop new_janitor
turns-notify_example = turns-notify (new_janitor (codes "/cache") 1) new_loop one_round refl
