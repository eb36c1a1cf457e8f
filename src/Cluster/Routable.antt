-- ===== src/Cluster/Routable.antt =====
-- pkg/cluster/cluster.go: the addresses of the peers after any sequence of callbacks.
use go_rego.Base.{
  ◌⊎◌, ◌≡◌, ◌≢◌, ap, sym, subst, ◌∙◌, false, Option, none, some, List, [], ◌∷◌, arith, Bool-cases,
  Option-cases, inl, inr,
}
use go_rego.Base.Text.{GoString, str_eq}
use go_rego.Base.Dict.{lookup, lookup-insert, lookup-delete}
use go_rego.Cluster.Addresses.{
  split_host_port, join_host_port, IsHost, split_host_port-join_host_port, split_host_port-parts,
}
use go_rego.Cluster.Peers.{NodeState}
use go_rego.Cluster.Membership.{
  Manager, new_manager, is_bind_host, fix_address, keep_address, put_peer, receive_state,
  notify_msg, joined_state, notify_join, notify_leave, notify_update, get_peer_by_node_id,
}
use go_rego.Cluster.Reachable.{Callback, message, join, leave, update, step, run}

-- The host of the address, where it has one, is not one to bind to.
abbrev pub IsRoutable : NodeState → Type 0
IsRoutable state =
    (host port : GoString)
    → split_host_port state.grpc_address ≡ some (host, port)
    → is_bind_host host ≡ false

abbrev pub AllRoutable : Manager → Type 0
AllRoutable m =
    (key : GoString) (state : NodeState) → lookup key m.peers ≡ some state → IsRoutable state

put_peer-AllRoutable :
    (m : Manager) (name : GoString) (state : NodeState)
    → IsRoutable state
    → AllRoutable m
    → AllRoutable (put_peer m name state)
put_peer-AllRoutable m name state good all key found h = elim (Bool-cases (str_eq name key)) [
  | inl e ↦
      let same : some state ≡ some found = rw (lookup-insert name key state m.peers, e) at h in
      let state_is : state ≡ found = cc in subst IsRoutable state_is good
  | inr e ↦ all key found (rw (lookup-insert name key state m.peers, e) at h)
]

fix_address-IsRoutable :
    (replacement : GoString) (state : NodeState)
    → IsHost replacement
    → is_bind_host replacement ≡ false
    → IsRoutable (fix_address replacement state)
unfolding fix_address
fix_address-IsRoutable replacement state plain good host port h =
    elim (Option-cases (split_host_port state.grpc_address)) [
      | inl e ↦ absurd (impossible (sym e ∙ (rw (e, fix_address) at h)))
      | inr (parts, e) ↦ elim (Bool-cases (is_bind_host parts.0)) [
        | inr fine ↦
            let kept : Same (split_host_port state.grpc_address) (some (host, port)) =
              rw (e, fix_address, fine) at h in
            let same : parts.0 ≡ host = ap (λ p. p.0) (unwrapped (sym e ∙ kept)) in
            subst (λ t. is_bind_host t ≡ false) same fine
        | inl bind ↦
            let fixed : Same (split_host_port (join_host_port replacement parts.1))
                (some (host, port)) =
              rw (e, fix_address, bind) at h in
            let port_fine = (split_host_port-parts state.grpc_address parts.0 parts.1 e).1 in
            let same : replacement ≡ host =
              ap (λ p. p.0)
                (unwrapped (
                  sym (split_host_port-join_host_port replacement parts.1 plain port_fine)
                  ∙ fixed)) in
            subst (λ t. is_bind_host t ≡ false) same good
      ]
    ]
  where
    Same : Option (GoString × GoString) → Option (GoString × GoString) → Type 0
    Same a b = a ≡ b

    impossible : {p : GoString × GoString} → ◌≢◌ {A = Option (GoString × GoString)} none (some p)
    impossible e = cc

    unwrapped : {p q : GoString × GoString} → some p ≡ some q → p ≡ q
    unwrapped e = cc

module _ (unmarshal : GoString → Option NodeState) where
  -- The reported address of a node is one to reach it by; a message has such an address itself, or is of
  -- a peer that has an address with a host.
  abbrev pub Fine : Manager → Callback → Type 0
  Fine m (message bytes) =
      (state : NodeState)
      → unmarshal bytes ≡ some state
      → IsRoutable state
        ⊎ ((existing : NodeState) × (host : GoString) × (port : GoString) × (lookup state.name
                m.peers
              ≡ some existing)
            × (split_host_port existing.grpc_address ≡ some (host, port)))
  Fine m (join node) = IsHost node.addr × (is_bind_host node.addr ≡ false)
  Fine m (leave node) = Unit
  Fine m (update node) = IsHost node.addr × (is_bind_host node.addr ≡ false)

  abbrev pub AllFine : Manager → List Callback → Type 0
  AllFine m [] = Unit
  AllFine m (c ∷ cs) = Fine m c × AllFine (step unmarshal m c) cs

  keep_address-IsRoutable :
      (existing state : NodeState) (host port : GoString)
      → IsRoutable existing
      → split_host_port existing.grpc_address ≡ some (host, port)
      → IsRoutable (keep_address existing state)
  keep_address-IsRoutable existing state host port good e =
      rw (e, keep_address)
        (fix_address-IsRoutable host state
          (split_host_port-parts existing.grpc_address host port e).0 (good host port e))

  receive_state-AllRoutable :
      (m : Manager) (state : NodeState)
      → (IsRoutable state
          ⊎ ((existing : NodeState) × (host : GoString) × (port : GoString) × (lookup state.name
                  m.peers
                ≡ some existing)
              × (split_host_port existing.grpc_address ≡ some (host, port))))
      → AllRoutable m
      → AllRoutable (receive_state unmarshal m state)
  receive_state-AllRoutable m state (inr (existing, host, port, e, h)) all =
      rw (e, receive_state)
        (put_peer-AllRoutable m state.name (keep_address existing state)
          (keep_address-IsRoutable existing state host port (all state.name existing e) h) all)
  receive_state-AllRoutable m state (inl good) all =
      elim (Option-cases (lookup state.name m.peers)) [
        | inl e ↦ rw (e, receive_state) (put_peer-AllRoutable m state.name state good all)
        | inr (existing, e) ↦ elim (Option-cases (split_host_port existing.grpc_address)) [
          | inl n ↦
              rw (e, receive_state, n, keep_address)
                (put_peer-AllRoutable m state.name state good all)
          | inr (parts, h) ↦
              rw (e, receive_state)
                (put_peer-AllRoutable m state.name (keep_address existing state)
                  (keep_address-IsRoutable existing state parts.0 parts.1
                    (all state.name existing e) h)
                  all)
        ]
      ]

  step-AllRoutable :
      (m : Manager) (c : Callback) → Fine m c → AllRoutable m → AllRoutable (step unmarshal m c)
  unfolding notify_msg notify_join notify_leave notify_update
  step-AllRoutable m (message []) fine all = all
  step-AllRoutable m (message (b ∷ bs)) fine all = elim (Option-cases (unmarshal (b ∷ bs))) [
    | inl e ↦ rw (e, notify_msg) all
    | inr (state, e) ↦ elim (Bool-cases (str_eq state.name m.local_name)) [
      | inl self ↦ rw (e, notify_msg, self) all
      | inr other ↦ rw (e, notify_msg, other) (receive_state-AllRoutable m state (fine state e) all)
    ]
  ]
  step-AllRoutable m (join node) fine all = elim (Bool-cases (str_eq node.name m.local_name)) [
    | inl self ↦ rw (self, notify_join) all
    | inr other ↦
        rw (other, notify_join)
          (put_peer-AllRoutable m node.name (fix_address node.addr (joined_state unmarshal node))
            (fix_address-IsRoutable node.addr (joined_state unmarshal node) fine.0 fine.1) all)
  ]
  step-AllRoutable m (leave node) fine all = elim (Bool-cases (str_eq node.name m.local_name)) [
    | inl self ↦ rw (self, notify_leave) all
    | inr other ↦
        rw (other, notify_leave)
          (λ key state h. all key state (ground (arith, lookup-delete node.name key m.peers)))
  ]
  step-AllRoutable m (update node) fine all = elim (Bool-cases (str_eq node.name m.local_name)) [
    | inl self ↦ rw (self, notify_update) all
    | inr other ↦ elim (Option-cases (unmarshal node.meta)) [
      | inl e ↦ rw (other, notify_update, e) all
      | inr (state, e) ↦
          rw (other, notify_update, e)
            (put_peer-AllRoutable m node.name (fix_address node.addr state)
              (fix_address-IsRoutable node.addr state fine.0 fine.1) all)
    ]
  ]

  run-AllRoutable :
      (m : Manager) (cs : List Callback)
      → AllFine m cs
      → AllRoutable m
      → AllRoutable (run unmarshal m cs)
  run-AllRoutable m [] fine all = all
  run-AllRoutable m (c ∷ cs) fine all =
      run-AllRoutable (step unmarshal m c) cs fine.1 (step-AllRoutable m c fine.0 all)

  empty-AllRoutable : (id : GoString) → AllRoutable (new_manager id)
  unfolding new_manager lookup
  empty-AllRoutable id key state h = absurd (cc)

  -- The host of a peer's address is never an address to bind to, after callbacks in which joining and
  -- updated nodes have a gossip address without brackets that is none to bind to, and each message is of
  -- a peer whose address has a host, or has an address of its own that is none to bind to.
  pub run-IsRoutable :
      (id : GoString) (cs : List Callback) (node_id : GoString) (state : NodeState)
      → AllFine (new_manager id) cs
      → get_peer_by_node_id (run unmarshal (new_manager id) cs) node_id ≡ some state
      → IsRoutable state
  unfolding get_peer_by_node_id
  run-IsRoutable id cs node_id state fine h =
      run-AllRoutable (new_manager id) cs fine (empty-AllRoutable id) node_id state h
