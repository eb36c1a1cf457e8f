-- ===== src/Scheduler/Counting/Expired.antt =====
-- pkg/scheduler/scheduler.go: `CleanupExpired` and the counter.
use go_rego.Base.{ℕ, ◌≡◌, true, Option, none, some, [], ◌∷◌, arith, Bool-cases, ◌⊎◌, inl, inr}
use go_rego.Base.Lists.{All}
use go_rego.Base.Text.{GoString, str_eq_iff}
use go_rego.Base.Dict.{Dict, lookup, delete, delete-absent, lookup-delete}
use go_rego.Scheduler.State.{OperationStatus, Scheduler}
use go_rego.Scheduler.Subscriptions.{cleanup_expired, cleanup_loop, expired_at, is_expired}
use go_rego.Scheduler.Entries.{Entries, lookup-Named, Entries-delete, executing_entries-delete}
use go_rego.Scheduler.Counting.{IsCounted}

-- What the loop has still to visit is as it was, or gone.
abbrev Remains : Dict ℕ → GoString × ℕ → Type 0
Remains ops (name, p) = (lookup name ops ≡ some p) ⊎ (lookup name ops ≡ none)

Remains-delete :
    (ops m : Dict ℕ) (name : GoString) → All (Remains ops) m → All (Remains (delete name ops)) m
Remains-delete ops [] name g = tt
Remains-delete ops ((j, p) ∷ m) name (here, g) =
    (ground (arith, lookup-delete name j ops), Remains-delete ops m name g)

Remains-cons :
    (ops m : Dict ℕ) (name : GoString) (p : ℕ)
    → lookup name ops ≡ none
    → All (λ (e : GoString × ℕ). lookup e.0 ops ≡ some e.1) m
    → All (λ (e : GoString × ℕ). lookup e.0 ((name, p) ∷ ops) ≡ some e.1) m
unfolding lookup
Remains-cons ops [] name p absent g = tt
Remains-cons ops ((j, q) ∷ m) name p absent (here, g) =
    (ground (arith, str_eq_iff name j), Remains-cons ops m name p absent g)

Remains-All :
    (ops m : Dict ℕ) → All (λ (e : GoString × ℕ). lookup e.0 ops ≡ some e.1) m → All (Remains ops) m
Remains-All ops [] g = tt
Remains-All ops ((j, p) ∷ m) (here, g) = (inl here, Remains-All ops m g)

module _ {R : Type 0} where
  Entries-found :
      (h : ℕ → Option (OperationStatus R)) (m : Dict ℕ)
      → Entries h m
      → All (λ (e : GoString × ℕ). lookup e.0 m ≡ some e.1) m
  unfolding lookup
  Entries-found h [] g = tt
  Entries-found h ((j, p) ∷ m) (_, absent, g) =
      (ground (arith, str_eq_iff j j), Remains-cons m m j p absent (Entries-found h m g))

  -- Only completed operations expire, and those are not counted.
  expire-IsCounted :
      (k now : ℕ) (s : Scheduler R) (name : GoString) (p : ℕ)
      → IsCounted k s
      → (lookup name s.operations ≡ some p) ⊎ (lookup name s.operations ≡ none)
      → expired_at s.retention now (s.heap p) ≡ true
      → IsCounted k (record s {
        operations = delete name s.operations;
        subscribers = delete name s.subscribers;
      })
  unfolding is_expired
  expire-IsCounted k now s name p v (inl e) over = record {
    entries = Entries-delete s.heap s.operations name v.entries;
    fresh = v.fresh;
    counted =
        let (o, there, _) = lookup-Named s.heap s.operations name p v.entries e in
        ground (arith, v.counted, executing_entries-delete s.heap s.operations name p v.entries e);
  }
  expire-IsCounted k now s name p v (inr e) over = record {
    entries = Entries-delete s.heap s.operations name v.entries;
    fresh = v.fresh;
    counted = rw (delete-absent name s.operations e) v.counted;
  }

  cleanup_loop-IsCounted :
      (k now : ℕ) (m : Dict ℕ) (s : Scheduler R)
      → IsCounted k s
      → All (Remains s.operations) m
      → IsCounted k (cleanup_loop now m s)
  unfolding cleanup_loop
  cleanup_loop-IsCounted k now [] s v g = v
  cleanup_loop-IsCounted k now ((name, p) ∷ m) s v (here, g) =
      elim (Bool-cases (expired_at s.retention now (s.heap p))) [
        | inl over ↦ rw over (
            cleanup_loop-IsCounted k now m _ (expire-IsCounted k now s name p v here over)
              (Remains-delete s.operations m name g))
        | inr live ↦ rw live (cleanup_loop-IsCounted k now m s v g)
      ]

  pub cleanup_expired-IsCounted :
      (k now : ℕ) (s : Scheduler R) → IsCounted k s → IsCounted k (cleanup_expired s now)
  unfolding cleanup_expired
  cleanup_expired-IsCounted k now s v =
      cleanup_loop-IsCounted k now s.operations s v
        (Remains-All s.operations s.operations (Entries-found s.heap s.operations v.entries))
