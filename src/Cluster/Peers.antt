-- ===== src/Cluster/Peers.antt =====
-- pkg/cluster/cluster.go and cluster.proto: the state of the peers, and `SelectBestPeer`.
-- Go compares load ratios in `float64`, which is an argument here: `quotient` rounds a / b.
-- Numbers of tasks and slots are not negative.
use go_rego.Base.{
  ℕ, ◌*◌, ◌<◌, ◌≡◌, Bool, true, false, ◌&&◌, Option, none, some, List, [], ◌∷◌, ltb, if◌then◌else◌,
}
use go_rego.Base.Text.{GoString}

-- `NodeState`, without the tag and the time stamp.
pub record NodeState : Type 0 where
  pub name : GoString
  pub grpc_address : GoString
  pub pending_tasks : ℕ
  pub max_concurrency : ℕ

-- IEEE 754 division and comparison, on quotients with a positive divisor.
pub record Floats : Type 1 where
  pub Float64 : Type 0
  pub quotient : ℕ → ℕ → Float64
  pub less : Float64 → Float64 → Bool
  -- Rounding is monotone: what compares as less is less.
  pub less_sound :
      (a b c d : ℕ) → 0 < b → 0 < d → less (quotient a b) (quotient c d) ≡ true → a * d < c * b
  pub less_irrefl : (x : Float64) → less x x ≡ false
  -- No NaN stands among them, so that "not less" is transitive.
  pub not_less_trans : (x y z : Float64) → less x y ≡ false → less y z ≡ false → less x z ≡ false
  pub less_asymm : (x y : Float64) → less x y ≡ true → less y x ≡ false

abbrev pub has_capacity : NodeState → Bool
has_capacity peer = ltb peer.pending_tasks peer.max_concurrency

module _ (fl : Floats) where
  abbrev pub ratio : NodeState → fl.Float64
  ratio peer = fl.quotient peer.pending_tasks peer.max_concurrency

  -- The loop over `m.peers`, with `bestPeer` and the ratio of `bestLoad` and `bestCapacity`.
  unfoldable pub best_of : Option NodeState → fl.Float64 → List NodeState → Option NodeState
  best_of best best_ratio [] = best
  best_of best best_ratio (peer ∷ peers) =
      let better = best_of (some peer) (ratio peer) peers in
      let same = best_of best best_ratio peers in
      if has_capacity peer && fl.less (ratio peer) best_ratio then better else same

  -- Both returns give `bestPeer`: where the first is taken it is nil.
  unfoldable pub select_best_peer : (local_load concurrency : ℕ) → List NodeState → Option NodeState
  unfolding best_of
  select_best_peer local_load concurrency peers =
      best_of none (fl.quotient local_load concurrency) peers
