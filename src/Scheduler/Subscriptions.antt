-- ===== src/Scheduler/Subscriptions.antt =====
-- pkg/scheduler/scheduler.go: `Subscribe`, its `unsubscribe`, and `CleanupExpired`.
use go_rego.Base.{
  ℕ, suc, ◌+◌, Bool, true, false, ◌&&◌, Option, none, some, List, [], ◌∷◌, ◌++◌, ltb, ◌==◌,
  if◌then◌else◌,
}
use go_rego.Base.Text.{GoString}
use go_rego.Base.Dict.{Dict, lookup, insert, delete}
use go_rego.Scheduler.State.{OperationStatus, Scheduler, update, is_completed}
use go_rego.Scheduler.Updates.{subscribers_of}

-- The list without the first entry for the channel; `none` if there is no entry.
unfoldable pub remove_channel : ℕ → List ℕ → Option (List ℕ)
remove_channel ch [] = none
remove_channel ch (c ∷ cs) =
    if c == ch
    then some cs
    else (elim (remove_channel ch cs) [ none ↦ none | some rest ↦ some (c ∷ rest) ])

abbrev pub present : Option ℕ → List ℕ
present none = []
present (some op) = op ∷ []

module _ {R : Type 0} where
  -- The new channel holds the present state, if the operation is known.
  unfoldable pub subscribe : Scheduler R → GoString → ℕ × Scheduler R
  subscribe s name =
      let ch = s.next_channel in
      let first = present (lookup name s.operations) in
      (
        ch,
        record s {
          subscribers = insert name (subscribers_of s name ++ (ch ∷ [])) s.subscribers;
          channels = update s.channels ch (record { buffer = first; closed = false });
          next_channel = suc ch;
        },
      )

  unfoldable pub unsubscribe : Scheduler R → GoString → ℕ → Scheduler R
  unfolding remove_channel
  unsubscribe s name ch = elim (remove_channel ch (subscribers_of s name)) [
    | none ↦ s
    | some rest ↦ record s {
      subscribers = insert name rest s.subscribers;
      channels = update s.channels ch (record (s.channels ch) { closed = true });
    }
  ]

  -- A receive on the channel: the operation that the oldest buffered pointer leads to.
  unfoldable pub receive : Scheduler R → ℕ → Option (OperationStatus R × Scheduler R)
  receive s ch = elim (s.channels ch).buffer [
    | [] ↦ none
    | p ∷ rest ↦ elim (s.heap p) [
      | none ↦ none
      | some op ↦ some (
        op,
        record s { channels = update s.channels ch (record (s.channels ch) { buffer = rest }) },
      )
    ]
  ]

  -- `op.State == StateCompleted && op.UpdatedAt.Before(cutoff)`, without a time before the epoch.
  unfoldable pub is_expired : ℕ → ℕ → OperationStatus R → Bool
  is_expired retention now op = is_completed op.state && ltb (op.updated_at + retention) now

  abbrev pub expired_at : ℕ → ℕ → Option (OperationStatus R) → Bool
  expired_at retention now none = false
  expired_at retention now (some op) = is_expired retention now op

  -- The loop over `s.operations`, with the entries that it has still to visit.
  unfoldable pub cleanup_loop : ℕ → Dict ℕ → Scheduler R → Scheduler R
  unfolding is_expired
  cleanup_loop now [] s = s
  cleanup_loop now ((name, p) ∷ rest) s = cleanup_loop now rest (
      if expired_at s.retention now (s.heap p)
      then record s {
        operations = delete name s.operations;
        subscribers = delete name s.subscribers;
      }
      else s)

  unfoldable pub cleanup_expired : Scheduler R → ℕ → Scheduler R
  unfolding cleanup_loop
  cleanup_expired s now = cleanup_loop now s.operations s
