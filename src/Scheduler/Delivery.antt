-- ===== src/Scheduler/Delivery.antt =====
-- pkg/scheduler/scheduler.go: which pointers stand in the channels of the subscribers.
pub mod Steps
pub mod Releases
pub mod Runs
use go_rego.Base.{
  ℕ, ◌+◌, ◌≤◌, ◌<◌, ◌≡◌, ◌≢◌, ◌↔◌, subst, refl, ◌⊎◌, inl, inr, Bool, true, false, Option, none,
  some, List, [], ◌∷◌, ◌++◌, ltb, ◌==◌, if◌then◌else◌, arith, Bool-cases, Option-cases, length,
}
use go_rego.Base.Lists.{All, All-append}
use go_rego.Base.Text.{GoString}
use go_rego.Base.Dict.{lookup}
use go_rego.Scheduler.State.{
  OperationStatus, Channel, Scheduler, update, try_send, notify_all, subscriber_buffer,
}
use go_rego.Scheduler.Updates.{subscribers_of, notify_subscribers, change_op, find_op}
use go_rego.Scheduler.Entries.{Named, Named-update}

abbrev pub In : ℕ → List ℕ → Type 0
In a [] = ⊥
In a (x ∷ xs) = (x ≡ a) ⊎ In a xs

-- Every pointer that waits for a subscriber leads to an operation of the name that it subscribed to,
-- there is one such operation, and a channel belongs to one name.
pub record IsTuned {R : Type 0} (s : Scheduler R) : Type 0 where
  pub unique : (n : GoString) (p q : ℕ) → Named s.heap n p → Named s.heap n q → p ≡ q
  pub listed : (n : GoString) (p : ℕ) → lookup n s.operations ≡ some p → Named s.heap n p
  pub fresh : (p : ℕ) → s.next_pointer ≤ p → s.heap p ≡ none
  pub buffers :
      (n : GoString) (ch : ℕ)
      → In ch (subscribers_of s n)
      → All (λ p. Named s.heap n p) (s.channels ch).buffer
  pub owned :
      (n m : GoString) (ch : ℕ) → In ch (subscribers_of s n) → In ch (subscribers_of s m) → n ≡ m
  pub known : (n : GoString) (ch : ℕ) → In ch (subscribers_of s n) → ch < s.next_channel

module _ (P : ℕ → Type 0) where
  try_send-All :
      (p c ch : ℕ) (channels : ℕ → Channel)
      → All P (channels ch).buffer
      → (c ≡ ch → P p)
      → All P (try_send p c channels ch).buffer
  unfolding try_send
  try_send-All p c ch channels h k =
      elim (Bool-cases (ltb (length (channels c).buffer) subscriber_buffer)) [
        | inr full ↦ rw full h
        | inl room ↦ elim (Bool-cases (c == ch)) [
          | inl hit ↦
              let e : c ≡ ch = ground arith in
              rw (room, hit) (All-append P (channels c).buffer (p ∷ []) (rw e h) (k e, tt))
          | inr miss ↦ rw (room, miss) h
        ]
      ]

  pub notify_all-All :
      (p ch : ℕ) (chs : List ℕ) (channels : ℕ → Channel)
      → All P (channels ch).buffer
      → (In ch chs → P p)
      → All P (notify_all p chs channels ch).buffer
  unfolding notify_all
  notify_all-All p ch [] channels h k = h
  notify_all-All p ch (c ∷ chs) channels h k =
      notify_all-All p ch chs (try_send p c channels)
        (try_send-All p c ch channels h (λ e. k (inl e))) (λ i. k (inr i))

append-ne-nil : (xs : List ℕ) (p : ℕ) → (xs ++ (p ∷ [])) ≢ []
append-ne-nil [] p e = cc
append-ne-nil (x ∷ xs) p e = cc

-- A send empties no channel, and leaves something to read in its own.
try_send-ne-nil :
    (p c ch : ℕ) (channels : ℕ → Channel)
    → ((channels ch).buffer ≢ []) ⊎ (c ≡ ch)
    → (try_send p c channels ch).buffer ≢ []
unfolding try_send
try_send-ne-nil p c ch channels h = ground (arith, append-ne-nil (channels ch).buffer p)

pub notify_all-ne-nil :
    (p ch : ℕ) (chs : List ℕ) (channels : ℕ → Channel)
    → ((channels ch).buffer ≢ []) ⊎ In ch chs
    → (notify_all p chs channels ch).buffer ≢ []
unfolding notify_all
notify_all-ne-nil p ch [] channels (inl h) = h
notify_all-ne-nil p ch [] channels (inr i) = elim i [ ]
notify_all-ne-nil p ch (c ∷ chs) channels (inl h) =
    notify_all-ne-nil p ch chs (try_send p c channels)
      (inl (try_send-ne-nil p c ch channels (inl h)))
notify_all-ne-nil p ch (c ∷ chs) channels (inr (inl e)) =
    notify_all-ne-nil p ch chs (try_send p c channels)
      (inl (try_send-ne-nil p c ch channels (inr e)))
notify_all-ne-nil p ch (c ∷ chs) channels (inr (inr i)) =
    notify_all-ne-nil p ch chs (try_send p c channels) (inr i)

module _ {R : Type 0} where
  pub All-Named :
      (h h' : ℕ → Option (OperationStatus R)) (n : GoString) (ps : List ℕ)
      → ((p : ℕ) → Named h n p → Named h' n p)
      → All (λ p. Named h n p) ps
      → All (λ p. Named h' n p) ps
  All-Named h h' n [] k g = tt
  All-Named h h' n (p ∷ ps) k (here, g) = (k p here, All-Named h h' n ps k g)

  -- A write that keeps the name adds and takes away no name.
  Named-keep :
      (h : ℕ → Option (OperationStatus R)) (p : ℕ) (op new : OperationStatus R)
      → h p ≡ some op
      → op.name ≡ new.name
      → (n : GoString) (q : ℕ) → Named (update h p (some new)) n q ↔ Named h n q
  Named-keep h p op new here same n q =
      (back, λ k. Named-update h n q p new k (inl (op, here, same)))
    where
      back : Named (update h p (some new)) n q → Named h n q
      back (o, e, named) = elim (Bool-cases (p == q)) [
        | inl hit ↦ (op, ground arith, ground arith)
        | inr miss ↦ (o, rw miss at e, named)
      ]

  pub change_op-IsTuned :
      (s : Scheduler R) (name : GoString) (p : ℕ) (op new : OperationStatus R)
      → IsTuned s
      → lookup name s.operations ≡ some p
      → s.heap p ≡ some op
      → op.name ≡ new.name
      → IsTuned (change_op s name p op new)
  unfolding change_op notify_subscribers subscribers_of
  change_op-IsTuned s name p op new v found here same = record {
    unique = λ n a b x y. v.unique n a b ((keep n a).0 x) ((keep n b).0 y);
    listed = λ n q e. (keep n q).1 (v.listed n q e);
    fresh = λ q le. ground (arith, v.fresh q le);
    buffers = λ n ch i.
        notify_all-All (λ q. Named (update s.heap p (some new)) n q) p ch _ s.channels
          (All-Named s.heap (update s.heap p (some new)) n (s.channels ch).buffer
            (λ q. (keep n q).1) (v.buffers n ch i))
          (λ j.
            (keep n p).1
              (subst (λ m. Named s.heap m p) (v.owned name n ch j i) (v.listed name p found)));
    owned = v.owned;
    known = v.known;
  }
    where
      keep : (n : GoString) (q : ℕ) → Named (update s.heap p (some new)) n q ↔ Named s.heap n q
      keep = Named-keep s.heap p op new here same
