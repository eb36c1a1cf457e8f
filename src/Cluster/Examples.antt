-- ===== src/Cluster/Examples.antt =====
-- The theorems on the selection of a peer, at a coarse arithmetic of ratios, and on the map of peers.
use native.Mathlib.Nat.{
  mul_comm, mul_right_comm, mul-le-mul_right, le_of_mul-le-mul_right, le-div_iff_mul-le, mul-div-le,
}
use go_rego.Base.{
  ℕ, zero, suc, ◌*◌, ◌/◌, ◌<◌, ◌≤◌, ◌≡◌, ◌≢◌, ◌⊎◌, true, none, some, List, [], ◌∷◌, arith, ltb, leb,
  Bool-cases, inl, inr,
}
use go_rego.Base.{refl, Option}
use go_rego.Base.Text.{GoString, codes, str_eq}
use go_rego.Base.Dict.{lookup, insert}
use go_rego.Cluster.Addresses.{has_byte, split_last, split_host_port, join_host_port}
use go_rego.Cluster.Membership.{
  MemberNode, new_manager, fix_address, notify_join, notify_msg, notify_update, get_peer_by_node_id,
  dns_candidates,
}
use go_rego.Cluster.Reachable.{Callback, join, message, update, run, run-select_best_peer}
use go_rego.Cluster.Routable.{IsRoutable, run-IsRoutable}
use go_rego.Base.Results.{plain, ok, err}
use go_rego.Cluster.Lookups.{LookupAttempt, discover_dns, retry_lookup, addresses_of}
use go_rego.Cluster.Lookups.Bounds.{LookedUp, discover_dns-LookedUp}
use go_rego.Cluster.Peers.{NodeState, Floats, ratio, select_best_peer}
use go_rego.Cluster.Selection.{Among, NoneBelow, select_best_peer-best}

-- Rounding down to thousandths keeps the order.
round_mono : (a b c d : ℕ) → 0 < b → 0 < d → c * b ≤ a * d → (c * 1000) / d ≤ (a * 1000) / b
round_mono a b c d hb hd h =
    (le-div_iff_mul-le {k = b} {x = x} {y = a * 1000} hb).1
      (le_of_mul-le-mul_right {m = x * b} {n = a * 1000} {k = d} scaled hd)
  where
    x : ℕ
    x = (c * 1000) / d

    low : x * d ≤ c * 1000
    low = rw (mul_comm x d) (mul-div-le (c * 1000) d)

    scaled : x * b * d ≤ a * 1000 * d
    scaled =
        rw (mul_right_comm x b d, mul_right_comm a 1000 d)
          (omega (arith, mul-le-mul_right b low, mul_right_comm c 1000 b, mul-le-mul_right 1000 h))

thousandths_sound :
    (a b c d : ℕ) → 0 < b → 0 < d → ltb ((a * 1000) / b) ((c * 1000) / d) ≡ true → a * d < c * b
thousandths_sound a b c d hb hd h = elim (Bool-cases (leb (c * b) (a * d))) [
  | inl le ↦ absurd (ground (arith, round_mono a b c d hb hd))
  | inr gt ↦ ground arith
]

abbrev thousandths : Floats
thousandths = record {
  Float64 = ℕ;
  quotient = λ a b. (a * 1000) / b;
  less = ltb;
  less_sound = thousandths_sound;
  less_irrefl = λ x. ground arith;
  not_less_trans = λ x y z h k. ground arith;
  less_asymm = λ x y h. ground arith;
}

abbrev busy : NodeState
busy = record {
  name = codes "node-2";
  grpc_address = codes "10.0.0.2:50051";
  pending_tasks = 3;
  max_concurrency = 4;
}

abbrev idle : NodeState
idle = record {
  name = codes "node-3";
  grpc_address = codes "10.0.0.3:50051";
  pending_tasks = 1;
  max_concurrency = 4;
}

abbrev peers : List NodeState
peers = busy ∷ idle ∷ []

select_best_peer-best_example :
    ((select_best_peer thousandths 9 4 peers ≡ none)
      × NoneBelow thousandths (thousandths.quotient 9 4) peers)
    ⊎ ((p : NodeState) × (select_best_peer thousandths 9 4 peers ≡ some p)
        × Among p peers
        × (p.pending_tasks < p.max_concurrency)
        × (p.pending_tasks * 4 < 9 * p.max_concurrency)
        × NoneBelow thousandths (ratio thousandths p) peers)
select_best_peer-best_example = select_best_peer-best thousandths 9 4 peers (omega arith)

-- A message here is the byte that names the node, and its address.
abbrev decode : GoString → Option NodeState
decode [] = none
decode (b ∷ address) =
    some (record { name = b ∷ []; grpc_address = address; pending_tasks = 0; max_concurrency = 4 })

abbrev node_b : MemberNode
node_b = record {
  name = codes "b";
  addr = codes "10.0.0.2";
  port = codes "7946";
  meta = codes "b0.0.0.0:50051";
}

abbrev callbacks : List Callback
callbacks =
    join node_b
    ∷ (message (codes "b:50052") ∷ (message (codes "a1.2.3.4:1") ∷ (update node_b ∷ [])))

-- What the callbacks leave of node "b".
abbrev peer_b : NodeState
peer_b = record {
  name = codes "b";
  grpc_address = codes "10.0.0.2:50051";
  pending_tasks = 0;
  max_concurrency = 4;
}

run-select_best_peer_example :
    (peer_b.name ≢ codes "a")
    × (get_peer_by_node_id (run decode (new_manager (codes "a")) callbacks) peer_b.name
        ≡ some peer_b)
unfolding new_manager notify_join notify_msg notify_update fix_address join_host_port
    split_host_port has_byte split_last str_eq lookup insert select_best_peer
run-select_best_peer_example =
    run-select_best_peer decode thousandths (codes "a") callbacks 3 4 (peer_b ∷ []) peer_b
      ((λ state e. cc), (tt, (tt, ((λ state e. cc), tt)))) ((codes "b", refl), tt) refl

abbrev joined : List Callback
joined = join node_b ∷ []

abbrev state_b : NodeState
state_b = record {
  name = codes "b";
  grpc_address = codes "10.0.0.2:50051";
  pending_tasks = 0;
  max_concurrency = 4;
}

run-IsRoutable_example : IsRoutable state_b
unfolding get_peer_by_node_id notify_join new_manager fix_address split_host_port join_host_port
    split_last has_byte insert lookup str_eq
run-IsRoutable_example =
    run-IsRoutable decode (codes "a") joined (codes "b") state_b (((refl, refl), refl), tt) refl

-- The first lookup fails, the second one succeeds.
abbrev second_try : ℕ → LookupAttempt
second_try zero = record { result = err plain; cancelled = none; interrupted = none }
second_try (suc n) = record {
  result = ok (codes "10.0.0.2" ∷ []);
  cancelled = none;
  interrupted = none;
}

discover_dns-LookedUp_example :
    LookedUp (codes "7946") second_try (discover_dns (codes "gorego") (codes "7946") second_try)
    × ((discover_dns (codes "gorego") (codes "7946") second_try).0 ≤ 5)
discover_dns-LookedUp_example = discover_dns-LookedUp b'g' (codes "orego") (codes "7946") second_try

discovered :
    discover_dns (codes "gorego") (codes "7946") second_try ≡ (2, ok (codes "10.0.0.2:7946" ∷ []))
unfolding discover_dns retry_lookup addresses_of dns_candidates
discovered = refl
