-- ===== src/Cluster/Lookups/Bounds.antt =====
-- pkg/cluster/cluster.go: how often `discoverDNS` looks the service up.
use go_rego.Base.{
  ℕ, zero, suc, ◌+◌, ◌<◌, ◌≤◌, ◌≡◌, ◌≢◌, ◌⊎◌, inl, inr, refl, ap, none, some, List, ◌∷◌, arith,
  Option-cases,
}
use go_rego.Base.Text.{GoString}
use go_rego.Base.Results.{Error, wrapped, plain, Result, ok, err, Result-cases}
use go_rego.Cluster.Membership.{dns_candidates}
use go_rego.Cluster.Lookups.{
  LookupAttempt, Lookups, max_lookups, retry_lookup, addresses_of, discover_dns,
}

-- The lookup failed, and the context did not end until the next one.
pub record HasFailed (a : LookupAttempt) : Type 0 where
  pub error : Error
  pub failed : a.result ≡ err error
  pub live : a.cancelled ≡ none
  pub waited : a.interrupted ≡ none

-- The round that ends the loop: a lookup that succeeds, or one that fails as the context ends.
abbrev pub IsLast : LookupAttempt → Result (List GoString) → Type 0
IsLast a r =
    ((ips : List GoString) × (a.result ≡ ok ips) × (r ≡ ok ips))
    ⊎ ((e : Error) × (c : Error) × (a.result ≡ err e)
        × (r ≡ err c)
        × ((a.cancelled ≡ some c) ⊎ ((a.cancelled ≡ none) × (a.interrupted ≡ some c))))

-- From the i-th lookup on, with at most n of them: some round ends the loop, or all fail.
abbrev pub Ends : ℕ → ℕ → (ℕ → LookupAttempt) → Lookups → Type 0
Ends n i attempts (count, r) =
    ((k : ℕ) × (k < n)
      × ((j : ℕ) → j < k → HasFailed (attempts (i + j)))
      × (count ≡ i + suc k)
      × IsLast (attempts (i + k)) r)
    ⊎ (((j : ℕ) → j < n → HasFailed (attempts (i + j)))
        × (count ≡ i + n)
        × ((e : Error) × (r ≡ err (wrapped e))))

at_zero : (i : ℕ) → i + 0 ≡ i
at_zero i = omega arith

shifted : (i j : ℕ) → i + suc j ≡ suc i + j
shifted i j = omega arith

one_more :
    (attempts : ℕ → LookupAttempt) (i m : ℕ)
    → HasFailed (attempts i)
    → ((j : ℕ) → j < m → HasFailed (attempts (suc i + j)))
    → (j : ℕ) → j < suc m
    → HasFailed (attempts (i + j))
one_more attempts i m here later zero h = rw (at_zero i) here
one_more attempts i m here later (suc j) h = rw (shifted i j) (later j (omega arith))

pub retry_lookup-Ends :
    (n i : ℕ) (attempts : ℕ → LookupAttempt) (last : Error)
    → Ends n i attempts (retry_lookup n attempts i last)
unfolding retry_lookup
retry_lookup-Ends zero i attempts last =
    inr (λ j h. absurd (omega arith), omega arith, (last, refl))
retry_lookup-Ends (suc n) i attempts last = elim (Result-cases (attempts i).result) [
  | inl (ips, e) ↦
      rw (retry_lookup, e)
        (inl (
          0,
          omega arith,
          λ j h. absurd (omega arith),
          omega arith,
          rw (at_zero i) (inl (ips, e, refl)),
        ))
  | inr (er, e) ↦ elim (Option-cases (attempts i).cancelled) [
    | inr (c, stopped) ↦
        rw (retry_lookup, e, stopped)
          (inl (
            0,
            omega arith,
            λ j h. absurd (omega arith),
            omega arith,
            rw (at_zero i) (inr (er, c, e, refl, inl stopped)),
          ))
    | inl live ↦ elim (Option-cases (attempts i).interrupted) [
      | inr (c, stopped) ↦
          rw (retry_lookup, e, live, stopped)
            (inl (
              0,
              omega arith,
              λ j h. absurd (omega arith),
              omega arith,
              rw (at_zero i) (inr (er, c, e, refl, inr (live, stopped))),
            ))
      | inl waited ↦
          let here : HasFailed (attempts i) = record {
            error = er;
            failed = e;
            live = live;
            waited = waited;
          } in
          rw (retry_lookup, e, live, waited)
            (elim (retry_lookup-Ends n (suc i) attempts er) [
              | inl (k, below, before, count, final) ↦ inl (
                suc k,
                omega arith,
                one_more attempts i k here before,
                omega arith,
                rw (shifted i k) final,
              )
              | inr (all, count, gave_up) ↦
                  inr (one_more attempts i n here all, omega arith, gave_up)
            ])
    ]
  ]
]

-- What `discoverDNS` gives, by its rounds.
abbrev pub LookedUp : GoString → (ℕ → LookupAttempt) → Lookups → Type 0
LookedUp bind_port attempts (count, r) =
    ((k : ℕ) × (k < max_lookups)
      × ((j : ℕ) → j < k → HasFailed (attempts j))
      × (count ≡ suc k)
      × (((ips : List GoString) × ((attempts k).result ≡ ok ips)
            × (r ≡ ok (dns_candidates bind_port ips)))
          ⊎ ((e : Error) × (c : Error) × ((attempts k).result ≡ err e)
              × (r ≡ err c)
              × (((attempts k).cancelled ≡ some c)
                  ⊎ (((attempts k).cancelled ≡ none) × ((attempts k).interrupted ≡ some c))))))
    ⊎ (((j : ℕ) → j < max_lookups → HasFailed (attempts j))
        × (count ≡ max_lookups)
        × ((e : Error) × (r ≡ err (wrapped e))))

ok-ne-err : {A : Type 0} {a : A} {e : Error} → ◌≢◌ {A = Result A} (ok a) (err e)
ok-ne-err h = cc

err-ne-ok : {A : Type 0} {a : A} {e : Error} → ◌≢◌ {A = Result A} (err e) (ok a)
err-ne-ok h = cc

from_zero : (j : ℕ) → 0 + j ≡ j
from_zero j = omega arith

unshifted :
    (attempts : ℕ → LookupAttempt) (m : ℕ)
    → ((j : ℕ) → j < m → HasFailed (attempts (0 + j)))
    → (j : ℕ) → j < m
    → HasFailed (attempts j)
unshifted attempts m h j below = rw (from_zero j) at (h j below)

addresses_of-LookedUp :
    (bind_port : GoString) (attempts : ℕ → LookupAttempt) (p : Lookups)
    → Ends max_lookups 0 attempts p
    → LookedUp bind_port attempts (addresses_of bind_port p)
unfolding addresses_of
addresses_of-LookedUp bind_port attempts (n, ok ips)
      (inl (k, below, before, count, inl (found, e, same))) =
    inl (
      k,
      below,
      unshifted attempts k before,
      omega arith,
      inl (
        found,
        rw (from_zero k) at e,
        ap ok (ap (dns_candidates bind_port) (let s : ips ≡ found = cc in s)),
      ),
    )
addresses_of-LookedUp bind_port attempts (n, ok ips)
      (inl (k, below, before, count, inr (e, c, f, same, stopped))) =
    absurd (ok-ne-err same)
addresses_of-LookedUp bind_port attempts (n, ok ips) (inr (all, count, (e, same))) =
    absurd (ok-ne-err same)
addresses_of-LookedUp bind_port attempts (n, err er)
      (inl (k, below, before, count, inl (found, e, same))) =
    absurd (err-ne-ok same)
addresses_of-LookedUp bind_port attempts (n, err er)
      (inl (k, below, before, count, inr (e, c, f, same, stopped))) =
    inl (
      k,
      below,
      unshifted attempts k before,
      omega arith,
      inr (e, c, rw (from_zero k) at f, same, rw (from_zero k) at stopped),
    )
addresses_of-LookedUp bind_port attempts (n, err er) (inr (all, count, gave_up)) =
    inr (unshifted attempts max_lookups all, omega arith, gave_up)

-- `discoverDNS` ends after five lookups at most: with the first lookup that succeeds, and then with
-- an address for each IP; with the error of the context, if that ends after a lookup has failed, or
-- within the second before the next one; or, when five lookups have failed, with an error. (The name
-- of the service is set.)
pub discover_dns-LookedUp :
    (c : ℕ) (service bind_port : GoString) (attempts : ℕ → LookupAttempt)
    → LookedUp bind_port attempts (discover_dns (c ∷ service) bind_port attempts)
      × ((discover_dns (c ∷ service) bind_port attempts).0 ≤ max_lookups)
unfolding discover_dns
discover_dns-LookedUp c service bind_port attempts =
    let looked =
      addresses_of-LookedUp bind_port attempts (retry_lookup max_lookups attempts 0 plain)
        (retry_lookup-Ends max_lookups 0 attempts plain) in
    (
      looked,
      elim looked [
        | inl (k, below, before, count, r) ↦ omega arith
        | inr (all, count, r) ↦ omega arith
      ],
    )
