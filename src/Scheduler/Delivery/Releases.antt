-- ===== src/Scheduler/Delivery/Releases.antt =====
-- pkg/scheduler/scheduler.go: the channels under `unsubscribe`, a receive and `CleanupExpired`.
use go_rego.Base.{
  ℕ, ◌≡◌, subst, refl, sym, inl, inr, true, some, List, [], ◌∷◌, ◌==◌, arith, Bool-cases,
  Option-cases, List-cases,
}
use go_rego.Base.Lists.{All}
use go_rego.Base.Text.{GoString, str_eq, str_eq_iff}
use go_rego.Base.Dict.{Dict, lookup, insert, delete, lookup-delete}
use go_rego.Scheduler.State.{Scheduler, update}
use go_rego.Scheduler.Updates.{subscribers_of}
use go_rego.Scheduler.Subscriptions.{unsubscribe, remove_channel, receive, cleanup_loop, expired_at}
use go_rego.Scheduler.Events.{after_receive}
use go_rego.Scheduler.Entries.{Named}
use go_rego.Scheduler.Delivery.{In, IsTuned}
use go_rego.Scheduler.Delivery.Steps.{subscribers_of-insert}

remove_channel-In :
    (c d : ℕ) (xs rest : List ℕ) → remove_channel c xs ≡ some rest → In d rest → In d xs
unfolding remove_channel
remove_channel-In c d [] rest e i = absurd (cc)
remove_channel-In c d (x ∷ xs) rest e i = elim (Bool-cases (x == c)) [
  | inl hit ↦ inr (subst (In d) (ground arith) i)
  | inr miss ↦ elim (Option-cases (remove_channel c xs)) [
    | inl gone ↦ absurd (ground arith)
    | inr (ys, found) ↦
        let same : rest ≡ x ∷ ys = ground arith in
        elim (subst (In d) same i) [
          | inl h ↦ inl h
          | inr h ↦ inr (remove_channel-In c d xs ys found h)
        ]
  ]
]

module _ {R : Type 0} where
  -- Fewer subscribers, fewer operations in the table, and fewer pointers that wait.
  Fewer : Scheduler R → Scheduler R → Type 1
  Fewer s t =
      ((n : GoString) (ch : ℕ) → In ch (subscribers_of t n) → In ch (subscribers_of s n))
      × ((n : GoString) (p : ℕ) → lookup n t.operations ≡ some p → lookup n s.operations ≡ some p)
      × ((P : ℕ → Type 0) (ch : ℕ) → All P (s.channels ch).buffer → All P (t.channels ch).buffer)

  Fewer-IsTuned :
      (s t : Scheduler R)
      → t.heap ≡ s.heap
      → t.next_pointer ≡ s.next_pointer
      → t.next_channel ≡ s.next_channel
      → Fewer s t
      → IsTuned s
      → IsTuned t
  unfolding Fewer
  Fewer-IsTuned s t eh ep ec (subs, ops, bufs) v = record {
    unique = rw eh v.unique;
    listed = λ n p e. rw eh (v.listed n p (ops n p e));
    fresh = rw (eh, ep) v.fresh;
    buffers = λ n ch i. rw eh (bufs (λ p. Named s.heap n p) ch (v.buffers n ch (subs n ch i)));
    owned = λ n m ch i j. v.owned n m ch (subs n ch i) (subs m ch j);
    known = λ n ch i. rw ec (v.known n ch (subs n ch i));
  }

  pub receive-IsTuned :
      (s : Scheduler R) (ch : ℕ) → IsTuned s → IsTuned (after_receive s (receive s ch))
  unfolding receive Fewer subscribers_of
  receive-IsTuned s ch v = elim (List-cases (s.channels ch).buffer) [
    | inl e ↦ rw (e, receive) v
    | inr (p, rest, e) ↦ elim (Option-cases (s.heap p)) [
      | inl dangling ↦ rw (e, receive, dangling) v
      | inr (op, found) ↦
          rw (e, receive, found)
            (Fewer-IsTuned s (taken rest) refl refl refl (λ n c i. i, λ n q h. h, shorter p rest e)
              v)
    ]
  ]
    where
      taken : List ℕ → Scheduler R
      taken rest = record s {
        channels = update s.channels ch (record (s.channels ch) { buffer = rest });
      }

      shorter :
          (p : ℕ) (rest : List ℕ)
          → (s.channels ch).buffer ≡ p ∷ rest
          → (P : ℕ → Type 0) (c : ℕ) → All P (s.channels c).buffer
          → All P ((taken rest).channels c).buffer
      shorter p rest e P c h = elim (Bool-cases (ch == c)) [
        | inr miss ↦ rw miss h
        | inl hit ↦
            let same : ch ≡ c = ground arith in
            rw hit (subst (All P) e (subst (λ d. All P (s.channels d).buffer) (sym same) h)).1
      ]

  pub unsubscribe-IsTuned :
      (s : Scheduler R) (name : GoString) (ch : ℕ) → IsTuned s → IsTuned (unsubscribe s name ch)
  unfolding unsubscribe Fewer
  unsubscribe-IsTuned s name ch v =
      elim (Option-cases (remove_channel ch (subscribers_of s name))) [
        | inl e ↦ rw (e, unsubscribe) v
        | inr (rest, e) ↦
            rw (e, unsubscribe)
              (Fewer-IsTuned s (closing rest) refl refl refl (fewer rest e, λ n p h. h, same) v)
      ]
    where
      closing : List ℕ → Scheduler R
      closing rest = record s {
        subscribers = insert name rest s.subscribers;
        channels = update s.channels ch (record (s.channels ch) { closed = true });
      }

      fewer :
          (rest : List ℕ)
          → remove_channel ch (subscribers_of s name) ≡ some rest
          → (n : GoString) (c : ℕ) → In c (subscribers_of (closing rest) n)
          → In c (subscribers_of s n)
      fewer rest e n c i =
          let j = subst (In c) (subscribers_of-insert s (closing rest) name n rest refl) i in
          elim (Bool-cases (str_eq name n)) [
            | inr miss ↦ (rw miss at j)
            | inl hit ↦
                subst (λ m. In c (subscribers_of s m)) ((str_eq_iff name n).0 hit)
                  (remove_channel-In ch c (subscribers_of s name) rest e (rw hit at j))
          ]

      same :
          (P : ℕ → Type 0) (c : ℕ)
          → All P (s.channels c).buffer
          → All P (update s.channels ch (record (s.channels ch) { closed = true }) c).buffer
      same P c h = elim (Bool-cases (ch == c)) [
        | inr miss ↦ rw miss h
        | inl hit ↦
            let eq : ch ≡ c = ground arith in
            rw hit (subst (λ d. All P (s.channels d).buffer) (sym eq) h)
      ]

  expire-IsTuned :
      (s : Scheduler R) (name : GoString)
      → IsTuned s
      → IsTuned (record s {
        operations = delete name s.operations;
        subscribers = delete name s.subscribers;
      })
  unfolding Fewer subscribers_of
  expire-IsTuned s name v = Fewer-IsTuned s _ refl refl refl (listed, found, λ P ch h. h) v
    where
      after : Scheduler R
      after = record s {
        operations = delete name s.operations;
        subscribers = delete name s.subscribers;
      }

      listed : (n : GoString) (c : ℕ) → In c (subscribers_of after n) → In c (subscribers_of s n)
      listed n c i = elim (Bool-cases (str_eq name n)) [
        | inl hit ↦ absurd (
            subst (In c)
              (let e : subscribers_of after n ≡ [] =
                  ground (arith, lookup-delete name n s.subscribers) in
                e)
              i)
        | inr miss ↦
            subst (In c)
              (let e : subscribers_of after n ≡ subscribers_of s n =
                  ground (arith, lookup-delete name n s.subscribers) in
                e)
              i
      ]

      found :
          (n : GoString) (p : ℕ)
          → lookup n (delete name s.operations) ≡ some p
          → lookup n s.operations ≡ some p
      found n p e = ground (arith, lookup-delete name n s.operations)

  pub delete-IsTuned :
      (s : Scheduler R) (name : GoString)
      → IsTuned s
      → IsTuned (record s { operations = delete name s.operations })
  unfolding Fewer subscribers_of
  delete-IsTuned s name v =
      Fewer-IsTuned s (record s { operations = delete name s.operations }) refl refl refl
        (λ n c i. i, λ n p e. ground (arith, lookup-delete name n s.operations), λ P ch h. h) v

  pub cleanup_loop-IsTuned :
      (now : ℕ) (m : Dict ℕ) (s : Scheduler R) → IsTuned s → IsTuned (cleanup_loop now m s)
  unfolding cleanup_loop
  cleanup_loop-IsTuned now [] s v = v
  cleanup_loop-IsTuned now ((name, p) ∷ m) s v =
      elim (Bool-cases (expired_at s.retention now (s.heap p))) [
        | inl over ↦ rw over (cleanup_loop-IsTuned now m _ (expire-IsTuned s name v))
        | inr live ↦ rw live (cleanup_loop-IsTuned now m s v)
      ]
