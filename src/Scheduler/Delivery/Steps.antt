-- ===== src/Scheduler/Delivery/Steps.antt =====
-- pkg/scheduler/scheduler.go: the channels under `Enqueue`, `Subscribe`, `unsubscribe` and the rest.
use go_rego.Base.{
  ℕ, suc, ◌<◌, ◌≡◌, subst, refl, sym, ◌∙◌, ◌⊎◌, inl, inr, Bool, true, Option, none, some, List, [],
  ◌∷◌, ◌++◌, ◌==◌, if◌then◌else◌, arith, Bool-cases,
}
use go_rego.Base.Lists.{All}
use go_rego.Base.Text.{GoString, str_eq, str_eq_iff}
use go_rego.Base.Dict.{lookup, insert, lookup-insert}
use go_rego.Storage.Digests.{Digest}
use go_rego.Scheduler.State.{OperationStatus, Scheduler}
use go_rego.Scheduler.Updates.{subscribers_of}
use go_rego.Scheduler.Queue.{admit, new_op}
use go_rego.Scheduler.Subscriptions.{subscribe, present}
use go_rego.Scheduler.Entries.{Named, Named-update}
use go_rego.Scheduler.Delivery.{In, IsTuned, All-Named}

In-append : (c a : ℕ) (xs : List ℕ) → In c (xs ++ (a ∷ [])) → In c xs ⊎ (a ≡ c)
In-append c a [] (inl e) = inr e
In-append c a [] (inr e) = elim e [ ]
In-append c a (x ∷ xs) (inl e) = inl (inl e)
In-append c a (x ∷ xs) (inr i) = elim (In-append c a xs i) [ inl j ↦ inl (inr j) | inr e ↦ inr e ]

module _ {R : Type 0} where
  -- Only the map of subscribers matters.
  pub subscribers_of-insert :
      (s t : Scheduler R) (name n : GoString) (chs : List ℕ)
      → t.subscribers ≡ insert name chs s.subscribers
      → subscribers_of t n ≡ (if str_eq name n then chs else subscribers_of s n)
  unfolding subscribers_of
  subscribers_of-insert s t name n chs e = ground (arith, lookup-insert name n chs s.subscribers)

  module _ (s : Scheduler R) (name id : GoString) (d : Digest) (skip : Bool) (now : ℕ)
      (v : IsTuned s) where
    h' : ℕ → Option (OperationStatus R)
    h' = (admit s name id d skip now).heap

    free : s.heap s.next_pointer ≡ none
    free = v.fresh s.next_pointer (omega arith)

    Named-more : (n : GoString) (q : ℕ) → Named s.heap n q → Named h' n q
    unfolding h'
    Named-more n q k = Named-update s.heap n q s.next_pointer (new_op name d now) k (inr free)

    Named-less :
        (n : GoString) (q : ℕ)
        → Named h' n q
        → Named s.heap n q ⊎ ((q ≡ s.next_pointer) × (n ≡ name))
    unfolding h'
    Named-less n q (o, e, named) = elim (Bool-cases (s.next_pointer == q)) [
      | inl hit ↦ inr (ground arith, ground arith)
      | inr miss ↦ inl (o, rw miss at e, named)
    ]

    admit_unique :
        (n : GoString) (p q : ℕ)
        → Named s.heap n p ⊎ ((p ≡ s.next_pointer) × (n ≡ name))
        → Named s.heap n q ⊎ ((q ≡ s.next_pointer) × (n ≡ name))
        → ((o : ℕ) → ¬ Named s.heap name o)
        → p ≡ q
    admit_unique n p q (inl a) (inl b) unused = v.unique n p q a b
    admit_unique n p q (inl a) (inr (_, e)) unused =
        absurd (unused p (subst (λ m. Named s.heap m p) e a))
    admit_unique n p q (inr (_, e)) (inl b) unused =
        absurd (unused q (subst (λ m. Named s.heap m q) e b))
    admit_unique n p q (inr (a, _)) (inr (b, _)) unused = a ∙ sym b

    admit-listed :
        (n : GoString) (p : ℕ)
        → lookup n (insert name s.next_pointer s.operations) ≡ some p
        → Named h' n p
    unfolding h'
    admit-listed n p e = elim (Bool-cases (str_eq name n)) [
      | inl hit ↦ (
        new_op name d now,
        ground (arith, lookup-insert name n s.next_pointer s.operations),
        ground (arith, str_eq_iff name n),
      )
      | inr miss ↦
          Named-more n p
            (v.listed n p (ground (arith, lookup-insert name n s.next_pointer s.operations)))
    ]

    pub admit-IsTuned : ((o : ℕ) → ¬ Named s.heap name o) → IsTuned (admit s name id d skip now)
    unfolding h' subscribers_of
    admit-IsTuned unused = record {
      unique = λ n p q a b. admit_unique n p q (Named-less n p a) (Named-less n q b) unused;
      listed = admit-listed;
      fresh = λ q le. ground (arith, v.fresh q (omega arith));
      buffers =
          λ n ch i. All-Named s.heap h' n (s.channels ch).buffer (Named-more n) (v.buffers n ch i);
      owned = v.owned;
      known = v.known;
    }

  -- Who stands in the lists of subscribers after an insertion that adds the next channel at most.
  pub insert-In :
      (s : Scheduler R) (name : GoString) (chs : List ℕ) (n : GoString) (ch : ℕ)
      → ((c : ℕ) → In c chs → In c (subscribers_of s name) ⊎ (c ≡ s.next_channel))
      → In ch (if str_eq name n then chs else subscribers_of s n)
      → In ch (subscribers_of s n) ⊎ ((ch ≡ s.next_channel) × (name ≡ n))
  insert-In s name chs n ch new i = elim (Bool-cases (str_eq name n)) [
    | inr miss ↦ inl (rw miss at i)
    | inl hit ↦
        let same = (str_eq_iff name n).0 hit in
        elim (new ch (rw hit at i)) [
          | inl old ↦ inl (subst (λ m. In ch (subscribers_of s m)) same old)
          | inr e ↦ inr (e, same)
        ]
  ]

  pub insert-owned :
      (s : Scheduler R) (name n m : GoString) (ch : ℕ)
      → IsTuned s
      → In ch (subscribers_of s n) ⊎ ((ch ≡ s.next_channel) × (name ≡ n))
      → In ch (subscribers_of s m) ⊎ ((ch ≡ s.next_channel) × (name ≡ m))
      → n ≡ m
  insert-owned s name n m ch v (inl i) (inl j) = v.owned n m ch i j
  insert-owned s name n m ch v (inl i) (inr (e, _)) = absurd (omega (arith, v.known n ch i))
  insert-owned s name n m ch v (inr (e, _)) (inl j) = absurd (omega (arith, v.known m ch j))
  insert-owned s name n m ch v (inr (_, e)) (inr (_, f)) = sym e ∙ f

  pub insert-known :
      (s : Scheduler R) (name n : GoString) (ch : ℕ)
      → IsTuned s
      → In ch (subscribers_of s n) ⊎ ((ch ≡ s.next_channel) × (name ≡ n))
      → ch < suc s.next_channel
  insert-known s name n ch v (inl i) = omega (arith, v.known n ch i)
  insert-known s name n ch v (inr (e, _)) = omega arith

  present-Named :
      (s : Scheduler R) (name n : GoString) (o : Option ℕ)
      → IsTuned s
      → lookup name s.operations ≡ o
      → name ≡ n
      → All (λ p. Named s.heap n p) (present o)
  present-Named s name n none v e same = tt
  present-Named s name n (some p) v e same =
      (subst (λ m. Named s.heap m p) same (v.listed name p e), tt)

  pub subscribe-IsTuned :
      (s : Scheduler R) (name : GoString) → IsTuned s → IsTuned (subscribe s name).1
  unfolding subscribe
  subscribe-IsTuned s name v = record {
    unique = v.unique;
    listed = v.listed;
    fresh = v.fresh;
    buffers = λ n ch i. buffer n ch (origin n ch i);
    owned = λ n m ch i j. insert-owned s name n m ch v (origin n ch i) (origin m ch j);
    known = λ n ch i. insert-known s name n ch v (origin n ch i);
  }
    where
      origin :
          (n : GoString) (ch : ℕ)
          → In ch (subscribers_of (subscribe s name).1 n)
          → In ch (subscribers_of s n) ⊎ ((ch ≡ s.next_channel) × (name ≡ n))
      origin n ch i =
          insert-In s name (subscribers_of s name ++ (s.next_channel ∷ [])) n ch
            (λ c k. elim (In-append c s.next_channel (subscribers_of s name) k) [
              | inl j ↦ inl j
              | inr e ↦ inr (sym e)
            ])
            (subst (In ch) (subscribers_of-insert s (subscribe s name).1 name n _ refl) i)

      buffer :
          (n : GoString) (ch : ℕ)
          → In ch (subscribers_of s n) ⊎ ((ch ≡ s.next_channel) × (name ≡ n))
          → All (λ p. Named s.heap n p) ((subscribe s name).1.channels ch).buffer
      buffer n ch (inl i) = elim (Bool-cases (s.next_channel == ch)) [
        | inl hit ↦ absurd (ground (arith, v.known n ch i))
        | inr miss ↦ rw miss (v.buffers n ch i)
      ]
      buffer n ch (inr (e, same)) =
          rw (let hit : (s.next_channel == ch) ≡ true = ground arith in hit)
            (present-Named s name n (lookup name s.operations) v refl same)
