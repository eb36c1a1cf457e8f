-- ===== src/Scheduler/Entries.antt =====
-- pkg/scheduler/scheduler.go: the entries of `operations` that are executing.
use go_rego.Base.{
  ℕ, ◌+◌, ◌≡◌, refl, ◌⊎◌, inl, inr, Bool, true, false, Option, none, some, [], ◌∷◌, ◌==◌, arith,
  Bool-cases,
}
use go_rego.Base.Text.{GoString, str_eq, str_eq_iff}
use go_rego.Base.Dict.{Dict, lookup, insert, delete, lookup-insert, lookup-delete, delete-absent}
use go_rego.Scheduler.State.{OperationStatus, update, is_executing}

abbrev pub as_number : Bool → ℕ
as_number true = 1
as_number false = 0

lookup-delete-none :
    (m : Dict ℕ) (j n : GoString) → lookup j m ≡ none → lookup j (delete n m) ≡ none
lookup-delete-none m j n e = rw lookup-delete (ground arith)

module _ {R : Type 0} where
  abbrev pub executing_at : Option (OperationStatus R) → ℕ
  executing_at none = 0
  executing_at (some op) = as_number (is_executing op.state)

  -- The entries of `operations` whose operation is executing.
  abbrev pub executing_entries : (ℕ → Option (OperationStatus R)) → Dict ℕ → ℕ
  executing_entries h [] = 0
  executing_entries h ((_, p) ∷ m) = executing_at (h p) + executing_entries h m

  -- Each key occurs once, and leads to an operation of that name.
  abbrev pub Named : (ℕ → Option (OperationStatus R)) → GoString → ℕ → Type 0
  Named h n p = (op : OperationStatus R) × (h p ≡ some op) × (op.name ≡ n)

  abbrev pub Entries : (ℕ → Option (OperationStatus R)) → Dict ℕ → Type 0
  Entries h [] = Unit
  Entries h ((n, p) ∷ m) = Named h n p × (lookup n m ≡ none) × Entries h m

  pub Named-update :
      (h : ℕ → Option (OperationStatus R)) (n : GoString) (p q : ℕ) (v : OperationStatus R)
      → Named h n p
      → (Named h v.name q ⊎ (h q ≡ none))
      → Named (update h q (some v)) n p
  Named-update h n p q v (op, e, same) known = elim (Bool-cases (q == p)) [
    | inl hit ↦ (v, rw hit refl, ground arith)
    | inr miss ↦ (op, rw miss e, same)
  ]

  pub Entries-update :
      (h : ℕ → Option (OperationStatus R)) (m : Dict ℕ) (q : ℕ) (v : OperationStatus R)
      → Entries h m
      → (Named h v.name q ⊎ (h q ≡ none))
      → Entries (update h q (some v)) m
  Entries-update h [] q v g known = tt
  Entries-update h ((n, p) ∷ m) q v (named, absent, g) known =
      (Named-update h n p q v named known, absent, Entries-update h m q v g known)

  -- A write to an operation of another name leaves the count as it is.
  pub executing_entries-other :
      (h : ℕ → Option (OperationStatus R)) (m : Dict ℕ) (q : ℕ) (v : OperationStatus R)
      → Entries h m
      → lookup v.name m ≡ none
      → (Named h v.name q ⊎ (h q ≡ none))
      → executing_entries (update h q (some v)) m ≡ executing_entries h m
  unfolding lookup
  executing_entries-other h [] q v g absent known = refl
  executing_entries-other h ((n, p) ∷ m) q v ((op, e, same), _, g) absent known =
      ground (arith, executing_entries-other h m q v g, str_eq_iff n v.name)

  -- A write to a listed operation moves the count by what the operation itself counts.
  pub executing_entries-update :
      (h : ℕ → Option (OperationStatus R)) (m : Dict ℕ) (q : ℕ) (op v : OperationStatus R)
      → Entries h m
      → lookup v.name m ≡ some q
      → h q ≡ some op
      → op.name ≡ v.name
      → executing_entries (update h q (some v)) m + as_number (is_executing op.state)
        ≡ executing_entries h m + as_number (is_executing v.state)
  unfolding lookup
  executing_entries-update h [] q op v g found e same = ground arith
  executing_entries-update h ((n, p) ∷ m) q op v ((o, eo, named), absent, g) found e same = ground (
    arith,
    executing_entries-update h m q op v g,
    executing_entries-other h m q v g,
    str_eq_iff n v.name,
  )

  pub lookup-Named :
      (h : ℕ → Option (OperationStatus R)) (m : Dict ℕ) (n : GoString) (p : ℕ)
      → Entries h m
      → lookup n m ≡ some p
      → Named h n p
  unfolding lookup
  lookup-Named h [] n p g e = absurd (cc)
  lookup-Named h ((j, q) ∷ m) n p (named, absent, g) e = elim (Bool-cases (str_eq j n)) [
    | inl hit ↦ (named.0, ground arith, ground (arith, str_eq_iff j n))
    | inr miss ↦ lookup-Named h m n p g (rw (miss) at e)
  ]

  pub Entries-delete :
      (h : ℕ → Option (OperationStatus R)) (m : Dict ℕ) (n : GoString)
      → Entries h m
      → Entries h (delete n m)
  unfolding delete
  Entries-delete h [] n g = tt
  Entries-delete h ((j, q) ∷ m) n (named, absent, g) = elim (Bool-cases (str_eq j n)) [
    | inl hit ↦ rw hit (Entries-delete h m n g)
    | inr miss ↦ rw miss (named, lookup-delete-none m j n absent, Entries-delete h m n g)
  ]

  pub Entries-insert :
      (h : ℕ → Option (OperationStatus R)) (m : Dict ℕ) (n : GoString) (p : ℕ)
      → Entries h m
      → Named h n p
      → Entries h (insert n p m)
  unfolding insert lookup
  Entries-insert h [] n p g named = (named, refl, tt)
  Entries-insert h ((j, q) ∷ m) n p (old, absent, g) named = elim (Bool-cases (str_eq j n)) [
    | inl hit ↦ rw hit (named, ground (arith, str_eq_iff j n), g)
    | inr miss ↦ rw miss (
      old,
      rw lookup-insert (ground (arith, str_eq_iff j n, str_eq_iff n j)),
      Entries-insert h m n p g named,
    )
  ]

  pub executing_entries-insert :
      (h : ℕ → Option (OperationStatus R)) (m : Dict ℕ) (n : GoString) (p : ℕ)
      → lookup n m ≡ none
      → executing_entries h (insert n p m) ≡ executing_entries h m + executing_at (h p)
  unfolding lookup insert
  executing_entries-insert h [] n p e = ground arith
  executing_entries-insert h ((j, q) ∷ m) n p e = ground (arith, executing_entries-insert h m n p)

  pub executing_entries-delete :
      (h : ℕ → Option (OperationStatus R)) (m : Dict ℕ) (n : GoString) (p : ℕ)
      → Entries h m
      → lookup n m ≡ some p
      → executing_entries h (delete n m) + executing_at (h p) ≡ executing_entries h m
  unfolding lookup delete
  executing_entries-delete h [] n p g e = absurd (cc)
  executing_entries-delete h ((j, q) ∷ m) n p (named, absent, g) e =
      ground (arith, executing_entries-delete h m n p g, delete-absent n m, str_eq_iff j n)

  -- A new operation under a pointer that no entry has.
  pub executing_entries-fresh :
      (h : ℕ → Option (OperationStatus R)) (m : Dict ℕ) (q : ℕ) (v : OperationStatus R)
      → Entries h m
      → h q ≡ none
      → executing_entries (update h q (some v)) m ≡ executing_entries h m
  executing_entries-fresh h [] q v g free = refl
  executing_entries-fresh h ((n, p) ∷ m) q v ((op, e, same), _, g) free =
      ground (arith, executing_entries-fresh h m q v g)

  -- An entry that is overwritten takes what it counted with it.
  pub executing_entries-replace :
      (h : ℕ → Option (OperationStatus R)) (m : Dict ℕ) (n : GoString) (p q : ℕ)
      → lookup n m ≡ some q
      → executing_entries h (insert n p m) + executing_at (h q)
        ≡ executing_entries h m + executing_at (h p)
  unfolding lookup insert
  executing_entries-replace h [] n p q e = absurd (cc)
  executing_entries-replace h ((j, o) ∷ m) n p q e =
      ground (arith, executing_entries-replace h m n p q)
