-- ===== src/Cluster/Selection.antt =====
-- pkg/cluster/cluster.go: the peer that `SelectBestPeer` gives.
use mathlib.Core.Bool.{and-eq-true_iff, false≢true}
use go_rego.Base.{
  ℕ, ◌*◌, ◌<◌, ◌≡◌, ◌≢◌, refl, sym, subst, ◌∙◌, true, false, ◌&&◌, ◌⊎◌, inl, inr, Option, none,
  some, List, [], ◌∷◌, arith, Bool-cases,
}
use go_rego.Base.Lists.{All}
use go_rego.Cluster.Peers.{NodeState, Floats, has_capacity, ratio, best_of, select_best_peer}

abbrev pub Among : NodeState → List NodeState → Type 0
Among p [] = ⊥
Among p (x ∷ xs) = (x ≡ p) ⊎ Among p xs

module _ (fl : Floats) where
  -- No peer with capacity compares as less loaded than `r`.
  abbrev pub NoneBelow : fl.Float64 → List NodeState → Type 0
  NoneBelow r peers = All (λ q. has_capacity q ≡ true → fl.less (ratio fl q) r ≡ false) peers

  -- What the loop gives back: its start, if no peer is below, or the best of the peers.
  abbrev Outcome : Option NodeState → fl.Float64 → List NodeState → Option NodeState → Type 0
  Outcome best r peers result =
      ((result ≡ best) × NoneBelow r peers)
      ⊎ ((p : NodeState) × (result ≡ some p)
          × Among p peers
          × (has_capacity p ≡ true)
          × (fl.less (ratio fl p) r ≡ true)
          × NoneBelow (ratio fl p) peers)

  NoneBelow-mono :
      (x y : fl.Float64) (peers : List NodeState)
      → fl.less y x ≡ false
      → NoneBelow y peers
      → NoneBelow x peers
  NoneBelow-mono x y [] h g = tt
  NoneBelow-mono x y (q ∷ peers) h (here, g) =
      (λ c. fl.not_less_trans (ratio fl q) y x (here c) h, NoneBelow-mono x y peers h g)

  less_trans : (x y z : fl.Float64) → fl.less x y ≡ true → fl.less y z ≡ true → fl.less x z ≡ true
  less_trans x y z h k = elim (Bool-cases (fl.less x z)) [
    | inl yes' ↦ yes'
    | inr no' ↦ absurd (false≢true (sym (fl.not_less_trans x z y no' (fl.less_asymm y z k)) ∙ h))
  ]

  best_of-Outcome :
      (best : Option NodeState) (r : fl.Float64) (peers : List NodeState)
      → Outcome best r peers (best_of fl best r peers)
  unfolding best_of
  best_of-Outcome best r [] = inl (refl, tt)
  best_of-Outcome best r (q ∷ peers) =
      elim (Bool-cases (has_capacity q && fl.less (ratio fl q) r)) [
        | inl better ↦
            let (room, below) =
              (and-eq-true_iff (has_capacity q) (fl.less (ratio fl q) r)).0 better in
            rw better (elim (best_of-Outcome (some q) (ratio fl q) peers) [
              | inl (e, rest) ↦
                  inr (q, e, inl refl, room, below, (λ _. fl.less_irrefl (ratio fl q), rest))
              | inr (p, e, i, c, l, rest) ↦ inr (
                p,
                e,
                inr i,
                c,
                less_trans _ _ _ l below,
                (λ _. fl.less_asymm (ratio fl p) (ratio fl q) l, rest),
              )
            ])
        | inr same ↦ rw same (elim (best_of-Outcome best r peers) [
          | inl (e, rest) ↦ inl (e, (λ room. ground arith, rest))
          | inr (p, e, i, c, l, rest) ↦ inr (
            p,
            e,
            inr i,
            c,
            l,
            (λ room. fl.not_less_trans _ r _ (ground arith) (fl.less_asymm (ratio fl p) r l), rest),
          )
        ])
      ]

  pub select_best_peer-Among :
      (local_load concurrency : ℕ) (peers : List NodeState) (p : NodeState)
      → select_best_peer fl local_load concurrency peers ≡ some p
      → Among p peers
  unfolding select_best_peer
  select_best_peer-Among local_load concurrency peers p h =
      elim (best_of-Outcome none (fl.quotient local_load concurrency) peers) [
        | inl (e, _) ↦ absurd (nothing (sym h ∙ e))
        | inr (q, e, i, _, _, _) ↦ let same : q ≡ p = cc in subst (λ x. Among x peers) same i
      ]
    where
      nothing : ◌≢◌ {A = Option NodeState} (some p) none
      nothing e = cc

  -- `SelectBestPeer`, whatever the order in which the map of peers is visited: either it gives no
  -- peer, and no peer with capacity compares as less loaded than the node itself, or it gives one of
  -- the peers, which has capacity, whose load ratio is truly lower than the node's own, and which no
  -- peer with capacity compares as below; for a node with at least one execution slot.
  pub select_best_peer-best :
      (local_load concurrency : ℕ) (peers : List NodeState)
      → 0 < concurrency
      → ((select_best_peer fl local_load concurrency peers ≡ none)
          × NoneBelow (fl.quotient local_load concurrency) peers)
        ⊎ ((p : NodeState) × (select_best_peer fl local_load concurrency peers ≡ some p)
            × Among p peers
            × (p.pending_tasks < p.max_concurrency)
            × (p.pending_tasks * concurrency < local_load * p.max_concurrency)
            × NoneBelow (ratio fl p) peers)
  unfolding select_best_peer
  select_best_peer-best local_load concurrency peers pos =
      elim (best_of-Outcome none (fl.quotient local_load concurrency) peers) [
        | inl h ↦ inl h
        | inr (p, e, i, c, l, rest) ↦
            let room : p.pending_tasks < p.max_concurrency = ground arith in
            inr (
              p,
              e,
              i,
              room,
              fl.less_sound p.pending_tasks p.max_concurrency local_load concurrency (omega arith)
                  pos l,
              rest,
            )
      ]
