-- ===== src/Cluster/Lookups.antt =====
-- pkg/cluster/cluster.go: `discoverPeers` and the retries of `discoverDNS`. The resolver, the context
-- and the printing of the port are arguments.
pub mod Bounds
use go_rego.Base.{ℕ, zero, suc, Option, none, some, List, [], ◌∷◌}
use go_rego.Base.Text.{GoString}
use go_rego.Base.Results.{Error, wrapped, plain, Result, ok, err}
use go_rego.Cluster.Membership.{dns_candidates}

-- One round: what the lookup gives, the error of the context after it, and the error of the context if
-- that ends before the second is over.
pub record LookupAttempt : Type 0 where
  pub result : Result (List GoString)
  pub cancelled : Option Error
  pub interrupted : Option Error

-- The number of lookups that were made, and what comes of them.
abbrev pub Lookups : Type 0
Lookups = ℕ × Result (List GoString)

abbrev pub max_lookups : ℕ
max_lookups = 5

-- `i` lookups were made, the last one with the error `last`.
unfoldable pub retry_lookup : ℕ → (ℕ → LookupAttempt) → ℕ → Error → Lookups
retry_lookup zero attempts i last = (i, err (wrapped last))
retry_lookup (suc n) attempts i last = elim (attempts i).result [
  | ok ips ↦ (suc i, ok ips)
  | err e ↦ elim (attempts i).cancelled [
    | some c ↦ (suc i, err c)
    | none ↦ elim (attempts i).interrupted [
      | some c ↦ (suc i, err c)
      | none ↦ retry_lookup n attempts (suc i) e
    ]
  ]
]

unfoldable pub addresses_of : GoString → Lookups → Lookups
unfolding dns_candidates
addresses_of bind_port (n, err e) = (n, err e)
addresses_of bind_port (n, ok ips) = (n, ok (dns_candidates bind_port ips))

unfoldable pub discover_dns : (service bind_port : GoString) → (ℕ → LookupAttempt) → Lookups
unfolding retry_lookup addresses_of
discover_dns [] bind_port attempts = (0, err plain)
discover_dns (c ∷ service) bind_port attempts =
    addresses_of bind_port (retry_lookup max_lookups attempts 0 plain)

pub data DiscoveryMode : Type 0 where
  dns list : DiscoveryMode

unfoldable pub discover_peers :
    DiscoveryMode → List GoString → (service bind_port : GoString) → (ℕ → LookupAttempt) → Lookups
unfolding discover_dns
discover_peers dns join_peers service bind_port attempts = discover_dns service bind_port attempts
discover_peers list join_peers service bind_port attempts = (0, ok join_peers)
